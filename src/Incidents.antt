-- ===== src/Incidents.antt =====
-- incidents/incident-service.ts: the transitions of an incident.
pub mod Outcome
pub mod Rows
pub mod Lifecycle
pub mod Audited
pub mod Retry
pub mod Lists
mod Tests
use metricops_backend.Common.{
  ℕ, ◌+◌, String, Bool, true, false, not, ◌&&◌, ◌||◌, List, [], ◌∷◌, ◌++◌, map, Option, none, some,
  find, ◌==◌, nat_eq, string_eq, if◌then◌else◌,
}
use metricops_backend.Common.Dates.{to_iso_string}
use metricops_backend.Json.{Json, null, num, str, obj, end, field, Fields}
use metricops_backend.Json.Printer.{stringify}
use metricops_backend.Domain.Errors.{Thrown, conflict, not_found, plain_error}
use metricops_backend.Domain.Principal.{Principal}
use metricops_backend.Effects.{
  Exec, Result, ok, thrown, or_throw, pure, throw, lift, gets, modify, when_thrown, ◌>>=◌, ◌>>◌,
}
use metricops_backend.Database.Tables.{
  Db, IncidentRow, IncidentEventRow, IncidentStatus, open_incident, acknowledged, investigating,
  mitigating, monitoring, resolved, closed,
}
use metricops_backend.Database.Transaction.{
  Crypto, Clocks, Client, Pool, Server, TenantContext, with_tenant_transaction,
}
use metricops_backend.Audit.{AuditInput, append, nullable}
use metricops_backend.Idempotency.{RequestKey, find_prior, replay, save_response}

pub data Action : Type 0 where
  acknowledge resolve : Action

pub record TransitionInput : Type 0 where
  pub version : ℕ
  pub assignee : Option String
  pub resolution : Option String

abbrev pub operation_name : Action → String
operation_name acknowledge = "incident.acknowledge"
operation_name resolve = "incident.resolve"

abbrev pub event_type : Action → String
event_type acknowledge = "acknowledged"
event_type resolve = "resolved"

abbrev audit_action : Action → String
audit_action acknowledge = "incident.acknowledged"
audit_action resolve = "incident.resolved"

-- a member whose value is `undefined` is left out by `JSON.stringify`
abbrev optional_field : String → Option String → Fields → Fields
optional_field key none rest = rest
optional_field key (some s) rest = field key (str s) rest

-- `{ incidentId, ...input }`
unfoldable pub request_json : String → TransitionInput → Json
request_json incident_id input = obj (
    field "incidentId" (str incident_id) (
      field "version" (num input.version) (
        optional_field "assignee" input.assignee
          (optional_field "resolution" input.resolution end))))

abbrev pub status_text : IncidentStatus → String
status_text open_incident = "open"
status_text acknowledged = "acknowledged"
status_text investigating = "investigating"
status_text mitigating = "mitigating"
status_text monitoring = "monitoring"
status_text resolved = "resolved"
status_text closed = "closed"

abbrev pub iso : Option ℕ → Json
iso none = null
iso (some t) = str (to_iso_string t)

unfoldable pub camelize_incident : IncidentRow → Json
camelize_incident row = obj (
    field "id" (str row.id) (
      field "alertInstanceId" (str row.alert_instance_id) (
        field "resourceId" (nullable row.resource_id) (
          field "title" (str row.title) (
            field "severity" (str row.severity) (
              field "status" (str (status_text row.status)) (
                field "assignee" (nullable row.assignee) (
                  field "resolution" (nullable row.resolution) (
                    field "detectedAt" (iso (some row.detected_at)) (
                      field "acknowledgedAt" (iso row.acknowledged_at) (
                        field "resolvedAt" (iso row.resolved_at) (
                          field "version" (num row.version) (
                            field "createdAt" (iso (some row.created_at))
                              (field "updatedAt" (iso (some row.updated_at)) end))))))))))))))

abbrev pub is_open : IncidentStatus → Bool
is_open open_incident = true
is_open _ = false

-- `["resolved", "closed"].includes(status)`
abbrev pub is_over : IncidentStatus → Bool
is_over resolved = true
is_over closed = true
is_over _ = false

abbrev pub owned : String → String → IncidentRow → Bool
owned customer_id id row = row.customer_id == customer_id && row.id == id

abbrev pub version_conflict : Thrown
version_conflict = conflict "VERSION_CONFLICT" "The incident changed; reload it before retrying"

abbrev pub not_open : Thrown
not_open = conflict "INVALID_INCIDENT_TRANSITION" "Only an open incident can be acknowledged"

abbrev pub already_over : Thrown
already_over = conflict "INVALID_INCIDENT_TRANSITION" "The incident is already resolved or closed"

-- the guards on the row that was read
unfoldable pub admit : Action → TransitionInput → IncidentRow → Result (Unit {0})
admit acknowledge input row =
    if not (row.version == input.version)
    then thrown version_conflict
    else if not (is_open row.status)
    then thrown not_open
    else ok tt
admit resolve input row =
    if not (row.version == input.version)
    then thrown version_conflict
    else if is_over row.status
    then thrown already_over
    else ok tt

-- the SET clauses of the two UPDATE statements
unfoldable pub moved : Action → TransitionInput → ℕ → IncidentRow → IncidentRow
moved acknowledge input now row = record row {
  status = acknowledged;
  assignee = input.assignee;
  acknowledged_at = some now;
  updated_at = now;
  version = row.version + 1;
}
moved resolve input now row = record row {
  status = resolved;
  resolution = input.resolution;
  resolved_at = some now;
  updated_at = now;
  version = row.version + 1;
}

unfoldable pub update_where :
    (IncidentRow → Bool) → (IncidentRow → IncidentRow) → List IncidentRow → List IncidentRow
update_where p f [] = []
update_where p f (row ∷ rows) = (if p row then f row else row) ∷ update_where p f rows

abbrev with_incidents : (List IncidentRow → List IncidentRow) → Client → Client
with_incidents f client = record client {
  server = record client.server { db = record client.db { incidents = f client.db.incidents } };
}

abbrev event_details : Action → TransitionInput → Json
event_details acknowledge input = obj (optional_field "assignee" input.assignee end)
event_details resolve input = obj (optional_field "resolution" input.resolution end)

module _ (crypto : Crypto) (hmac_key : String) (clocks : Clocks) (principal : Principal) where
  -- INSERT INTO incident_events
  unfoldable pub log_event : Action → TransitionInput → String → Client → Client
  log_event action input incident_id client = record client {
    server = record client.server {
      drawn = client.drawn + 1;
      db = record client.db {
        incident_events =
            client.db.incident_events
            ++ (record {
              id = crypto.random_uuid client.drawn;
              customer_id = principal.customer_id;
              incident_id = incident_id;
              actor_id = principal.subject;
              event_type = event_type action;
              details = event_details action input;
            })
              ∷ [];
      };
    };
  }

  abbrev pub audit_input : Action → String → String → IncidentRow → AuditInput
  audit_input action incident_id request_id row = record {
    customer_id = principal.customer_id;
    actor_id = principal.subject;
    action = audit_action action;
    resource_type = "incident";
    resource_id = incident_id;
    request_id = request_id;
    occurred_at = none;
    details = some (obj (field "version" (num row.version) end));
  }

  abbrev pub request_key : Action → String → RequestKey
  request_key action idempotency_key = record {
    customer_id = principal.customer_id;
    operation = operation_name action;
    idempotency_key = idempotency_key;
  }

  abbrev pub request_hash : String → TransitionInput → String
  request_hash incident_id input = crypto.sha256 (stringify (request_json incident_id input))

  -- what follows the guards; RETURNING gives the updated row
  unfoldable pub perform :
      Action → TransitionInput → String → String → String → IncidentRow → Exec Client Json
  perform action input incident_id idempotency_key request_id row = do
    modify (
        with_incidents (
          update_where (owned principal.customer_id incident_id)
            (moved action input clocks.transaction_now)))
    let updated = moved action input clocks.transaction_now row
    let view = camelize_incident updated
    modify (log_event action input incident_id)
    append crypto hmac_key clocks (audit_input action incident_id request_id updated)
    save_response (request_key action idempotency_key) (request_hash incident_id input) 200 view
        clocks.transaction_now
    pure view

  unfoldable pub attempt : Action → TransitionInput → String → String → String → Exec Client Json
  unfolding admit
  attempt action input incident_id idempotency_key request_id = do
    found ← gets (λ c. find (owned principal.customer_id incident_id) c.db.incidents)
    row ← lift (or_throw found (not_found "Incident"))
    lift (admit action input row)
    perform action input incident_id idempotency_key request_id row

  -- the work of `transition` inside its transaction
  unfoldable pub transition_work :
      Action → TransitionInput → String → String → String → Exec Client Json
  transition_work action input incident_id idempotency_key request_id client =
      elim (find_prior (request_key action idempotency_key) clocks.transaction_now
        client.db.idempotency_records) [
          | some prior ↦ (replay (request_hash incident_id input) prior, client)
          | none ↦ attempt action input incident_id idempotency_key request_id client
        ]

  unfoldable pub transition : Action → TransitionInput → String → String → String → Exec Pool Json
  transition action input incident_id idempotency_key request_id =
      with_tenant_transaction
        (record { customer_id = principal.customer_id; actor_id = principal.subject })
        (transition_work action input incident_id idempotency_key request_id)

  -- `assignee ?? principal.subject`
  abbrev or_subject : Option String → String
  or_subject none = principal.subject
  or_subject (some s) = s

  unfoldable pub acknowledge_incident :
      String → ℕ → Option String → String → String → Exec Pool Json
  acknowledge_incident incident_id version assignee =
      transition acknowledge
        (record { version = version; assignee = some (or_subject assignee); resolution = none })
        incident_id

  unfoldable pub resolve_incident : String → ℕ → String → String → String → Exec Pool Json
  resolve_incident incident_id version resolution =
      transition resolve
        (record { version = version; assignee = none; resolution = some resolution }) incident_id
