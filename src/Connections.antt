-- ===== src/Connections.antt =====
-- connections/connection-service.ts, connector-registry.ts and types.ts. A connector is code of
-- its own that reaches the monitored system: a function of the row, given for each kind.
pub mod Creation
pub mod Validation
mod Tests
use metricops_backend.Common.{
  ℕ, ◌+◌, String, Bool, true, false, not, ◌&&◌, ◌||◌, List, [], ◌∷◌, ◌++◌, map, Option, none, some,
  any, find, filter, take, ltb, ◌==◌, nat_eq, string_eq, if◌then◌else◌,
}
use metricops_backend.Common.Dates.{to_iso_string}
use metricops_backend.Common.Order.{order_by}
use metricops_backend.Json.{Json, null, bool, num, str, obj, end, field, Fields}
use metricops_backend.Json.Printer.{stringify, key_lt}
use metricops_backend.Domain.Errors.{Thrown, invalid, not_found, plain_error, unique_violation}
use metricops_backend.Domain.Principal.{Principal}
use metricops_backend.Effects.{
  Exec, Result, ok, thrown, or_throw, bind_result, pure, throw, lift, gets, modify, ◌>>=◌, ◌>>◌,
}
use metricops_backend.Database.Tables.{
  Db, ConnectionRow, ConnectionKind, postgresql, mysql, prometheus, alertmanager_webhook,
  aws_assume_role, ConnectionStatus, pending, healthy, unhealthy, disabled,
}
use metricops_backend.Database.Transaction.{
  Crypto, Clocks, Client, Pool, Server, TenantContext, with_tenant_transaction,
}
use metricops_backend.Audit.{AuditInput, append, nullable}
use metricops_backend.Idempotency.{RequestKey}
use metricops_backend.Idempotency.Keyed.{keyed}

pub record ConnectionCheck : Type 0 where
  pub is_healthy : Bool
  pub checked_at : ℕ
  pub latency_ms : ℕ
  pub metadata : Json
  pub error_code : Option String

abbrev pub Connector : Type 0
Connector = ConnectionRow → Result ConnectionCheck

abbrev pub kind_text : ConnectionKind → String
kind_text postgresql = "postgresql"
kind_text mysql = "mysql"
kind_text prometheus = "prometheus"
kind_text alertmanager_webhook = "alertmanager_webhook"
kind_text aws_assume_role = "aws_assume_role"

abbrev pub status_text : ConnectionStatus → String
status_text pending = "pending"
status_text healthy = "healthy"
status_text unhealthy = "unhealthy"
status_text disabled = "disabled"

-- `ConnectorRegistry`: the map `connectors`, its keys in the order of registration
abbrev pub Registry : Type 0
Registry = List (ConnectionKind × Connector)

abbrev is_kind : ConnectionKind → ConnectionKind × Connector → Bool
is_kind kind entry = kind_text entry.0 == kind_text kind

unfoldable pub register : ConnectionKind → Connector → Registry → Result Registry
register kind connector registry =
    if any (is_kind kind) registry
    then thrown (plain_error "Connector already registered")
    else ok (registry ++ (kind, connector) ∷ [])

abbrev second : Option (ConnectionKind × Connector) → Option Connector
second none = none
second (some entry) = some entry.1

abbrev pub unsupported : Thrown
unsupported = invalid "UNSUPPORTED_CONNECTION_KIND" "The requested connection type is not supported"

unfoldable pub get_connector : ConnectionKind → Registry → Result Connector
get_connector kind registry = or_throw (second (find (is_kind kind) registry)) unsupported

unfoldable pub supported_kinds : Registry → List ConnectionKind
supported_kinds registry = map (λ entry. entry.0) registry

abbrev iso : Option ℕ → Json
iso none = null
iso (some t) = str (to_iso_string t)

-- `toView(mapRecord(row))`: neither the secret's reference nor the customer is in it
unfoldable pub connection_view : ConnectionRow → Json
connection_view row = obj (
    field "id" (str row.id) (
      field "name" (str row.name) (
        field "kind" (str (kind_text row.kind)) (
          field "configuration" row.configuration (
            field "status" (str (status_text row.status)) (
              field "lastValidatedAt" (iso row.last_validated_at) (
                field "createdAt" (str (to_iso_string row.created_at))
                  (field "updatedAt" (str (to_iso_string row.updated_at)) end))))))))

pub record CreateConnectionInput : Type 0 where
  pub name : String
  pub kind : ConnectionKind
  pub configuration : Json
  pub secret_ref : Option String

unfoldable pub input_json : CreateConnectionInput → Json
input_json input = obj (
    field "name" (str input.name) (
      field "kind" (str (kind_text input.kind)) (
        field "configuration" input.configuration
          (field "secretRef" (nullable input.secret_ref) end))))

abbrev with_connections : (List ConnectionRow → List ConnectionRow) → Client → Client
with_connections f client = record client {
  server = record client.server { db = record client.db { connections = f client.db.connections } };
}

-- ORDER BY created_at DESC, id
abbrev pub newer : ConnectionRow → ConnectionRow → Bool
newer a b = ltb b.created_at a.created_at || (a.created_at == b.created_at && key_lt a.id b.id)

abbrev pub of_customer : String → ConnectionRow → Bool
of_customer customer_id row = row.customer_id == customer_id

abbrev pub owned_connection : String → String → ConnectionRow → Bool
owned_connection customer_id id row = row.customer_id == customer_id && row.id == id

unfoldable pub listed : String → ℕ → List ConnectionRow → List ConnectionRow
listed customer_id limit rows = take limit (order_by newer (filter (of_customer customer_id) rows))

abbrev pub check_status : Bool → ConnectionStatus
check_status true = healthy
check_status false = unhealthy

-- UPDATE connections SET status, last_validated_at, updated_at WHERE customer_id AND id
unfoldable pub validated : ConnectionCheck → ℕ → ConnectionRow → ConnectionRow
validated check now row = record row {
  status = check_status check.is_healthy;
  last_validated_at = some check.checked_at;
  updated_at = now;
}

unfoldable pub update_connection :
    String → String → (ConnectionRow → ConnectionRow) → List ConnectionRow → List ConnectionRow
update_connection customer_id id f [] = []
update_connection customer_id id f (row ∷ rows) =
    (if owned_connection customer_id id row then f row else row)
    ∷ update_connection customer_id id f rows

-- `...(check.errorCode ? { errorCode } : {})`: an empty code is left out too
abbrev pub error_field : Option String → Fields
error_field none = end
error_field (some code) = if code == "" then end else field "errorCode" (str code) end

unfoldable pub check_view : String → ConnectionCheck → Json
check_view id check = obj (
    field "connectionId" (str id) (
      field "healthy" (bool check.is_healthy) (
        field "checkedAt" (str (to_iso_string check.checked_at)) (
          field "latencyMs" (num check.latency_ms)
            (field "metadata" check.metadata (error_field check.error_code))))))

module _ (crypto : Crypto) (hmac_key : String) (clocks : Clocks) (principal : Principal) where
  abbrev pub context : TenantContext
  context = record { customer_id = principal.customer_id; actor_id = principal.subject }

  unfoldable pub list_connections : ℕ → Exec Pool (List Json)
  list_connections limit =
      with_tenant_transaction context
        (gets (λ c. map connection_view (listed principal.customer_id limit c.db.connections)))

  -- the inserted row, with the columns' defaults
  unfoldable pub new_connection : CreateConnectionInput → String → ConnectionRow
  new_connection input id = record {
    id = id;
    customer_id = principal.customer_id;
    name = input.name;
    kind = input.kind;
    configuration = input.configuration;
    secret_ref = input.secret_ref;
    status = pending;
    last_validated_at = none;
    created_by = principal.subject;
    created_at = clocks.transaction_now;
    updated_at = clocks.transaction_now;
  }

  abbrev pub created_audit : CreateConnectionInput → String → String → AuditInput
  created_audit input id request_id = record {
    customer_id = principal.customer_id;
    actor_id = principal.subject;
    action = "connection.created";
    resource_type = "connection";
    resource_id = id;
    request_id = request_id;
    occurred_at = none;
    details =
        some (obj (field "kind" (str (kind_text input.kind)) (field "name" (str input.name) end)));
  }

  abbrev pub same_name : String → ConnectionRow → Bool
  same_name name row = row.customer_id == principal.customer_id && row.name == name

  abbrev pub insert_row : CreateConnectionInput → Client → Client
  insert_row input client = record client {
    server = record client.server {
      drawn = client.drawn + 1;
      db = record client.db {
        connections =
            client.db.connections ++ new_connection input (crypto.random_uuid client.drawn) ∷ [];
      };
    };
  }

  -- what `create` does between its idempotency check and the saved response; the names of a
  -- customer's connections are unique
  unfoldable pub create_body : CreateConnectionInput → String → Exec Client Json
  create_body input request_id client =
      if any (same_name input.name) client.db.connections
      then (
        thrown unique_violation,
        record client { server = record client.server { drawn = client.drawn + 1 } },
      )
      else (
        ok (connection_view (new_connection input (crypto.random_uuid client.drawn))),
        (append crypto hmac_key clocks
            (created_audit input (crypto.random_uuid client.drawn) request_id)
            (insert_row input client)).1,
      )

  abbrev pub create_key : String → RequestKey
  create_key idempotency_key = record {
    customer_id = principal.customer_id;
    operation = "connection.create";
    idempotency_key = idempotency_key;
  }

  abbrev pub create_hash : CreateConnectionInput → String
  create_hash input = crypto.sha256 (stringify (input_json input))

  unfoldable pub create_connection : CreateConnectionInput → String → String → Exec Pool Json
  create_connection input idempotency_key request_id = with_tenant_transaction context (
      keyed (create_key idempotency_key) (create_hash input) 201 clocks.transaction_now
        (create_body input request_id))

  abbrev pub validated_audit : String → String → ConnectionCheck → AuditInput
  validated_audit id request_id check = record {
    customer_id = principal.customer_id;
    actor_id = principal.subject;
    action = "connection.validated";
    resource_type = "connection";
    resource_id = id;
    request_id = request_id;
    occurred_at = none;
    details = some (
        obj (
          field "healthy" (bool check.is_healthy) (
            field "latencyMs" (num check.latency_ms)
              (field "errorCode" (nullable check.error_code) end))));
  }

  -- the first transaction of `validate`
  unfoldable pub read_connection : String → Exec Client ConnectionRow
  read_connection id = do
    found ← gets (λ c. find (owned_connection principal.customer_id id) c.db.connections)
    lift (or_throw found (not_found "Connection"))

  -- and its second one
  unfoldable pub record_check : String → String → ConnectionCheck → Exec Client Unit
  record_check id request_id check = do
    modify (
        with_connections
          (update_connection principal.customer_id id (validated check clocks.transaction_now)))
    append crypto hmac_key clocks (validated_audit id request_id check)

  -- The connector runs between the two transactions; `meanwhile` is what other requests change
  -- in that time.
  unfoldable pub validate_connection : Registry → (Pool → Pool) → String → String → Exec Pool Json
  validate_connection registry meanwhile id request_id = do
    row ← with_tenant_transaction context (read_connection id)
    connector ← lift (get_connector row.kind registry)
    check ← lift (connector row)
    modify meanwhile
    with_tenant_transaction context (record_check id request_id check)
    pure (check_view id check)
