-- ===== src/Http/Routes.antt =====
-- http/application.ts: the routes behind authentication. The services are an interface, which the
-- handlers call; what runs before (the request logger, headers, rate limits) is left out.

use metricops_backend.Common.{ℕ, String, Bool, Option, none, some, ◌==◌, string_eq, if◌then◌else◌}
use metricops_backend.Json.{Json, str, obj, Fields, end, field}
use metricops_backend.Domain.Errors.{Thrown, app, invalid}
use metricops_backend.Domain.Principal.{
  Permission, Principal, connection_read, connection_write, connection_validate, job_read,
  resource_read, resource_write, resource_discover, metrics_read, alert_read, incident_read,
  incident_write, report_read, audit_read, platform_admin,
}
use metricops_backend.Effects.{Exec, Result, ok, thrown}
use metricops_backend.Connections.{CreateConnectionInput}
use metricops_backend.Resources.{CreateResourceInput}
use metricops_backend.Incidents.{TransitionInput}
use metricops_backend.Metrics.Prometheus.{property}
use metricops_backend.Metrics.Execute.{MetricsQueryInput}

-- the routes under /api/v1, with the identifiers in their paths; `no_route` is any other path
pub data Route : Type 0 where
  get_connections post_connections : Route
  post_validation_jobs post_discovery_jobs get_job_by_id : String → Route
  post_resources get_resources post_metrics_query get_alerts get_incidents : Route
  post_acknowledge post_resolve : String → Route
  get_operations_report get_audit_events post_customers post_revoke no_route : Route

-- `requirePermission` of each route
unfoldable pub required : Route → Option Permission
required get_connections = some connection_read
required post_connections = some connection_write
required (post_validation_jobs id) = some connection_validate
required (post_discovery_jobs id) = some resource_discover
required (get_job_by_id id) = some job_read
required post_resources = some resource_write
required get_resources = some resource_read
required post_metrics_query = some metrics_read
required get_alerts = some alert_read
required get_incidents = some incident_read
required (post_acknowledge id) = some incident_write
required (post_resolve id) = some incident_write
required get_operations_report = some report_read
required get_audit_events = some audit_read
required post_customers = some platform_admin
required post_revoke = none
required no_route = none

-- what is read of a request; `body` is what `express.json` makes of it, none if it is no JSON
pub record HttpRequest : Type 0 where
  pub request_id : Option String
  pub origin : Option String
  pub authorization : Option String
  pub idempotency_key : Option String
  pub body : Result (Option Json)
  pub limit : Option Json
  pub cursor : Option Json
  pub start : Option Json
  pub end_time : Option Json

-- zod's parsers of the shapes that http/schemas.ts describes, and the times that texts stand for
pub record Schemas : Type 0 where
  pub uuid : String → Bool
  pub list_limit : Option Json → Result ℕ
  pub create_connection : Option Json → Result CreateConnectionInput
  pub create_resource : Option Json → Result CreateResourceInput
  pub metrics_query : Option Json → Result MetricsQueryInput
  pub incident_transition : Option Json → Result TransitionInput
  pub report_period : Option Json → Option Json → Result (String × String)
  pub create_customer : Option Json → Result String
  pub read_date : String → ℕ
  pub uuid_issues : Json

-- the operations that the handlers call, over a state that they change
pub record Services (S : Type 0) : Type 1 where
  pub random_uuid : S → String × S
  pub authenticate : Option String → Result Principal
  pub assert_active : Principal → S → Result (Unit {0})
  pub list_connections : Principal → ℕ → Exec S Json
  pub create_connection : Principal → CreateConnectionInput → String → String → Exec S Json
  pub enqueue_validation : Principal → String → String → String → Exec S Json
  pub enqueue_discovery : Principal → String → String → String → Exec S Json
  pub get_job : Principal → String → Exec S Json
  pub create_resource : Principal → CreateResourceInput → String → String → Exec S Json
  pub list_resources : Principal → ℕ → Option String → Exec S Fields
  pub query_metrics : Principal → MetricsQueryInput → String → Exec S Json
  pub list_alerts : Principal → ℕ → Exec S Json
  pub list_incidents : Principal → ℕ → Exec S Json
  pub acknowledge : Principal → String → ℕ → Option String → String → String → Exec S Json
  pub resolve : Principal → String → ℕ → String → String → String → Exec S Json
  pub report : Principal → ℕ → ℕ → String → Exec S Json
  pub list_audit : Principal → ℕ → Exec S Json
  pub create_customer : Principal → String → String → Exec S Json
  pub revoke_current : Principal → String → Exec S (Unit {0})

abbrev pub key_required : Thrown
key_required = invalid "IDEMPOTENCY_KEY_REQUIRED" "A valid Idempotency-Key UUID header is required"

abbrev pub route_not_found : Thrown
route_not_found = app 404 "ROUTE_NOT_FOUND" "The requested route does not exist"

abbrev pub resolution_refused : Thrown
resolution_refused =
    invalid "VALIDATION_FAILED" "Resolution is not accepted when acknowledging an incident"

abbrev pub resolution_required : Thrown
resolution_required =
    invalid "VALIDATION_FAILED" "Resolution is required when resolving an incident"

abbrev pub resolution_of : Option String → Result String
resolution_of none = thrown resolution_required
resolution_of (some text) = if text == "" then thrown resolution_required else ok text

abbrev pub no_resolution : Option String → Result (Unit {0})
no_resolution none = ok tt
no_resolution (some text) = thrown resolution_refused

abbrev pub text_of : Option Json → Option String
text_of (some (str s)) = some s
text_of _ = none

-- `{ ...result, requestId }`
abbrev pub append_field : Fields → String → Json → Fields
append_field end key value = field key value end
append_field (field k v rest) key value = field k v (append_field rest key value)

-- `data.id` in a template
abbrev pub id_of : Json → String
id_of (obj fields) = elim (text_of (property "id" fields)) [ none ↦ "undefined" | some id ↦ id ]
id_of _ = "undefined"
