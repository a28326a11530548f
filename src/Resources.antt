-- ===== src/Resources.antt =====
-- resources/resource-service.ts: creating resources, and listing them page by page.
pub mod Pages
pub mod Creation
mod Tests
use metricops_backend.Common.{
  ℕ, ◌+◌, ◌*◌, ◌/◌, String, Bool, true, false, not, ◌&&◌, ◌||◌, List, [], ◌∷◌, ◌++◌, map, Option,
  none, some, any, filter, take, length, ltb, ◌==◌, nat_eq, string_eq, if◌then◌else◌, find_last,
}
use metricops_backend.Common.Dates.{to_iso_string}
use metricops_backend.Common.Order.{order_by}
use metricops_backend.Json.{Json, null, num, str, obj, end, field}
use metricops_backend.Json.Printer.{stringify, key_lt}
use metricops_backend.Domain.Errors.{Thrown, invalid, coded_error, unique_violation}
use metricops_backend.Domain.Principal.{Principal}
use metricops_backend.Effects.{Exec, Result, ok, thrown, bind_result, lift, gets, ◌>>=◌}
use metricops_backend.Database.Tables.{
  Db, ResourceRow, ConnectionRow, ConnectionKind, prometheus, ConnectionStatus, disabled,
}
use metricops_backend.Database.Transaction.{
  Crypto, Clocks, Client, Pool, Server, TenantContext, with_tenant_transaction,
}
use metricops_backend.Audit.{AuditInput, append, nullable}
use metricops_backend.Idempotency.{RequestKey}
use metricops_backend.Idempotency.Keyed.{keyed}

pub record CreateResourceInput : Type 0 where
  pub provider_id : String
  pub resource_type : String
  pub name : String
  pub environment : String
  pub criticality : String
  pub data_classification : String
  pub monitoring_connection_id : Option String
  pub monitoring_selector : Option String
  pub tags : Json
  pub source : String

unfoldable pub input_json : CreateResourceInput → Json
input_json input = obj (
    field "providerId" (str input.provider_id) (
      field "resourceType" (str input.resource_type) (
        field "name" (str input.name) (
          field "environment" (str input.environment) (
            field "criticality" (str input.criticality) (
              field "dataClassification" (str input.data_classification) (
                field "monitoringConnectionId" (nullable input.monitoring_connection_id) (
                  field "monitoringSelector" (nullable input.monitoring_selector)
                    (field "tags" input.tags (field "source" (str input.source) end))))))))))

-- `Date` holds milliseconds: the driver drops the microseconds of a timestamptz
abbrev pub date_text : ℕ → String
date_text micros = to_iso_string (micros / 1000)

abbrev optional_date : Option ℕ → Json
optional_date none = null
optional_date (some t) = str (date_text t)

unfoldable pub resource_view : ResourceRow → Json
resource_view row = obj (
    field "id" (str row.id) (
      field "providerId" (str row.provider_id) (
        field "resourceType" (str row.resource_type) (
          field "name" (str row.name) (
            field "environment" (str row.environment) (
              field "criticality" (str row.criticality) (
                field "dataClassification" (str row.data_classification) (
                  field "monitoringConnectionId" (nullable row.monitoring_connection_id) (
                    field "monitoringSelector" (nullable row.monitoring_selector) (
                      field "tags" row.tags (
                        field "source" (str row.source) (
                          field "lastDiscoveredAt" (optional_date row.last_discovered_at) (
                            field "lastTelemetryAt" (optional_date row.last_telemetry_at) (
                              field "discoveryState"
                                (str (if row.is_missing then "missing" else "active"))
                                (field "version" (num row.version) (
                                  field "createdAt" (str (date_text row.created_at)) (
                                    field "updatedAt" (str (date_text row.updated_at))
                                      end)))))))))))))))))

pub record Cursor : Type 0 where
  pub created_at : ℕ  -- milliseconds, as its text spells them
  pub id : String

-- (created_at, id) < (cursor.createdAt, cursor.id), the cursor's time cast to timestamptz
unfoldable pub is_before : Option Cursor → ResourceRow → Bool
is_before none row = true
is_before (some cursor) row =
    ltb row.created_at (cursor.created_at * 1000)
    || (row.created_at == cursor.created_at * 1000 && key_lt row.id cursor.id)

-- ORDER BY created_at DESC, id DESC
unfoldable pub comes_first : ResourceRow → ResourceRow → Bool
comes_first a b =
    ltb b.created_at a.created_at || (a.created_at == b.created_at && key_lt b.id a.id)

abbrev pub on_page : String → Option Cursor → ResourceRow → Bool
on_page customer_id cursor row = row.customer_id == customer_id && is_before cursor row

-- the rows of the query, one more than asked for if there are as many
unfoldable pub fetched : String → ℕ → Option Cursor → List ResourceRow → List ResourceRow
fetched customer_id limit cursor rows =
    take (limit + 1) (order_by comes_first (filter (on_page customer_id cursor) rows))

unfoldable pub cursor_of : ResourceRow → Cursor
cursor_of row = record { created_at = row.created_at / 1000; id = row.id }

abbrev cursor_at : Option ResourceRow → Option Cursor
cursor_at none = none
cursor_at (some row) = some (cursor_of row)

-- the page and, if there are more rows, the cursor behind its last row
unfoldable pub page :
    String → ℕ → Option Cursor → List ResourceRow → List ResourceRow × Option Cursor
page customer_id limit cursor rows =
    let found = fetched customer_id limit cursor rows in
    let shown = take limit found in
    (shown, if ltb limit (length found) then cursor_at (find_last (λ row. true) shown) else none)

abbrev with_resources : (List ResourceRow → List ResourceRow) → Client → Client
with_resources f client = record client {
  server = record client.server { db = record client.db { resources = f client.db.resources } };
}

-- `micros` are the microseconds of `now()` past its millisecond, which only this table keeps.
module _ (crypto : Crypto) (hmac_key : String) (clocks : Clocks) (micros : ℕ)
    (principal : Principal) where
  abbrev pub context : TenantContext
  context = record { customer_id = principal.customer_id; actor_id = principal.subject }

  unfoldable pub new_resource : CreateResourceInput → String → ResourceRow
  new_resource input id = record {
    id = id;
    customer_id = principal.customer_id;
    provider_id = input.provider_id;
    resource_type = input.resource_type;
    name = input.name;
    environment = input.environment;
    criticality = input.criticality;
    data_classification = input.data_classification;
    monitoring_connection_id = input.monitoring_connection_id;
    monitoring_selector = input.monitoring_selector;
    tags = input.tags;
    source = input.source;
    last_discovered_at = none;
    last_telemetry_at = none;
    last_discovery_job_id = none;
    is_missing = false;
    version = 1;
    created_by = principal.subject;
    created_at = clocks.transaction_now * 1000 + micros;
    updated_at = clocks.transaction_now * 1000 + micros;
  }

  abbrev is_disabled : ConnectionStatus → Bool
  is_disabled disabled = true
  is_disabled _ = false

  abbrev is_prometheus : ConnectionKind → Bool
  is_prometheus prometheus = true
  is_prometheus _ = false

  abbrev pub monitors : String → ConnectionRow → Bool
  monitors id row =
      row.customer_id == principal.customer_id
      && row.id == id
      && is_prometheus row.kind
      && not (is_disabled row.status)

  -- `if (input.monitoringConnectionId)`: an empty text is passed over
  unfoldable pub is_monitorable : CreateResourceInput → List ConnectionRow → Bool
  is_monitorable input rows = elim input.monitoring_connection_id [
    | none ↦ true
    | some id ↦ if id == "" then true else any (monitors id) rows
  ]

  abbrev pub same_provider : CreateResourceInput → ResourceRow → Bool
  same_provider input row =
      row.customer_id == principal.customer_id
      && row.source == input.source
      && row.provider_id == input.provider_id

  abbrev is_none : Option String → Bool
  is_none none = true
  is_none (some s) = false

  -- CHECK ((monitoring_connection_id IS NULL) = (monitoring_selector IS NULL))
  abbrev pub is_paired : CreateResourceInput → Bool
  is_paired input =
      if is_none input.monitoring_connection_id
      then is_none input.monitoring_selector
      else not (is_none input.monitoring_selector)

  abbrev pub created_audit : CreateResourceInput → String → String → AuditInput
  created_audit input id request_id = record {
    customer_id = principal.customer_id;
    actor_id = principal.subject;
    action = "resource.created";
    resource_type = "resource";
    resource_id = id;
    request_id = request_id;
    occurred_at = none;
    details = some (
        obj
          (field "resourceType" (str input.resource_type) (field "source" (str input.source) end)));
  }

  abbrev pub insert_row : CreateResourceInput → Client → Client
  insert_row input client =
      with_resources (λ rows. rows ++ new_resource input (crypto.random_uuid client.drawn) ∷ [])
        (record client { server = record client.server { drawn = client.drawn + 1 } })

  abbrev pub monitoring_unavailable : Thrown
  monitoring_unavailable =
      invalid "INVALID_MONITORING_CONNECTION"
        "The monitoring connection is unavailable or incompatible"

  -- the constraints on the inserted row
  unfoldable pub admit : CreateResourceInput → Client → Result (Unit {0})
  admit input client =
      if not (is_paired input)
      then thrown (coded_error "23514")
      else if any (same_provider input) client.db.resources
      then thrown unique_violation
      else ok tt

  unfoldable pub create_body : CreateResourceInput → String → Exec Client Json
  create_body input request_id client =
      if not (is_monitorable input client.db.connections)
      then (thrown monitoring_unavailable, client)
      else elim (admit input client) [
        | thrown e ↦
            (thrown e, record client { server = record client.server { drawn = client.drawn + 1 } })
        | ok u ↦ (
          ok (resource_view (new_resource input (crypto.random_uuid client.drawn))),
          (append crypto hmac_key clocks
              (created_audit input (crypto.random_uuid client.drawn) request_id)
              (insert_row input client)).1,
        )
      ]

  abbrev pub create_key : String → RequestKey
  create_key idempotency_key = record {
    customer_id = principal.customer_id;
    operation = "resource.create";
    idempotency_key = idempotency_key;
  }

  abbrev pub create_hash : CreateResourceInput → String
  create_hash input = crypto.sha256 (stringify (input_json input))

  unfoldable pub create_resource : CreateResourceInput → String → String → Exec Pool Json
  create_resource input idempotency_key request_id = with_tenant_transaction context (
      keyed (create_key idempotency_key) (create_hash input) 201 clocks.transaction_now
        (create_body input request_id))

  -- `list`, its cursor decoded
  unfoldable pub list_resources : ℕ → Option Cursor → Exec Pool (List Json × Option Cursor)
  list_resources limit cursor = with_tenant_transaction context (
      gets (λ c. (
        map resource_view (page principal.customer_id limit cursor c.db.resources).0,
        (page principal.customer_id limit cursor c.db.resources).1,
      )))
