-- ===== src/Discovery.antt =====
-- aws/aws-discovery-service.ts: the resources that an AWS account has, taken over into the table.
-- The inventory is a parameter, and so is the schema that its configuration is parsed by.
pub mod Marked
pub mod Inventory
pub mod Audited
mod Tests
use Prim.Native.String
use metricops_backend.Common.{
  ℕ, ◌+◌, ◌*◌, String, Bool, true, false, not, ◌&&◌, List, [], ◌∷◌, ◌++◌, Option, none, some, find,
  length, ◌==◌, string_eq, if◌then◌else◌,
}
use metricops_backend.Json.{Json, num, obj, end, field}
use metricops_backend.Domain.Errors.{not_found}
use metricops_backend.Effects.{
  Exec, Result, ok, thrown, or_throw, pure, lift, gets, modify, ◌>>=◌, ◌>>◌,
}
use metricops_backend.Database.Tables.{
  Db, ResourceRow, ConnectionRow, ConnectionKind, aws_assume_role, ConnectionStatus, disabled,
}
use metricops_backend.Database.Transaction.{
  Crypto, Clocks, Client, Pool, Server, TenantContext, with_tenant_transaction,
}
use metricops_backend.Audit.{AuditInput, append}

pub record DiscoveredResource : Type 0 where
  pub provider_id : String
  pub resource_type : String
  pub name : String
  pub environment : String
  pub criticality : String
  pub data_classification : String
  pub tags : Json

-- the configuration, parsed: the regions and types that the audit event repeats, and the rest
pub record AwsConfiguration : Type 0 where
  pub regions : Json
  pub resource_types : Json
  pub whole : Json

abbrev is_disabled : ConnectionStatus → Bool
is_disabled disabled = true
is_disabled _ = false

abbrev is_aws : ConnectionKind → Bool
is_aws aws_assume_role = true
is_aws _ = false

unfoldable pub is_account : String → String → ConnectionRow → Bool
is_account customer_id id row =
    row.customer_id == customer_id
    && row.id == id
    && is_aws row.kind
    && not (is_disabled row.status)

abbrev pub source_of : String → String
source_of connection_id = String.◌++◌ "aws:" connection_id

abbrev pub of_source : String → String → ResourceRow → Bool
of_source customer_id source row = row.customer_id == customer_id && row.source == source

abbrev pub is_job : String → Option String → Bool
is_job job_id none = false
is_job job_id (some id) = id == job_id

module _ (customer_id source job_id actor_id : String) (now : ℕ) where
  unfoldable pub inserted : DiscoveredResource → String → ResourceRow
  inserted resource id = record {
    id = id;
    customer_id = customer_id;
    provider_id = resource.provider_id;
    resource_type = resource.resource_type;
    name = resource.name;
    environment = resource.environment;
    criticality = resource.criticality;
    data_classification = resource.data_classification;
    monitoring_connection_id = none;
    monitoring_selector = none;
    tags = resource.tags;
    source = source;
    last_discovered_at = some now;
    last_telemetry_at = none;
    last_discovery_job_id = some job_id;
    is_missing = false;
    version = 1;
    created_by = actor_id;
    created_at = now;
    updated_at = now;
  }

  -- ON CONFLICT … DO UPDATE SET
  unfoldable pub refreshed : DiscoveredResource → ResourceRow → ResourceRow
  refreshed resource row = record row {
    resource_type = resource.resource_type;
    name = resource.name;
    environment = resource.environment;
    criticality = resource.criticality;
    data_classification = resource.data_classification;
    tags = resource.tags;
    last_discovered_at = some now;
    last_discovery_job_id = some job_id;
    is_missing = false;
    updated_at = now;
    version = row.version + 1;
  }

  abbrev pub same_resource : DiscoveredResource → ResourceRow → Bool
  same_resource resource row =
      of_source customer_id source row && row.provider_id == resource.provider_id

  unfoldable pub upsert : DiscoveredResource → String → List ResourceRow → List ResourceRow
  upsert resource id [] = inserted resource id ∷ []
  upsert resource id (row ∷ rows) =
      if same_resource resource row
      then refreshed resource row ∷ rows
      else row ∷ upsert resource id rows

  -- the loop over the resources; `drawn` identifiers were drawn before
  unfoldable pub upsert_all :
      (ℕ → String) → List DiscoveredResource → ℕ → List ResourceRow → List ResourceRow
  upsert_all random_uuid [] drawn rows = rows
  upsert_all random_uuid (resource ∷ rest) drawn rows =
      upsert_all random_uuid rest (drawn + 1) (upsert resource (random_uuid drawn) rows)

  -- active, of the source, and last discovered by another job or none
  unfoldable pub is_gone : ResourceRow → Bool
  is_gone row =
      of_source customer_id source row
      && not row.is_missing
      && not (is_job job_id row.last_discovery_job_id)

  unfoldable pub mark_missing : List ResourceRow → List ResourceRow × ℕ
  mark_missing [] = ([], 0)
  mark_missing (row ∷ rows) =
      let (rows', n) = mark_missing rows in
      if is_gone row
      then (
        record row { is_missing = true; updated_at = now; version = row.version + 1 } ∷ rows',
        n + 1,
      )
      else (row ∷ rows', n)

-- `micros` are the microseconds of `now()` past its millisecond.
module _ (crypto : Crypto) (hmac_key : String) (clocks : Clocks) (micros : ℕ)
    (parse_configuration : Json → Result AwsConfiguration)
    (inventory : AwsConfiguration → String → Result (List DiscoveredResource)) where
  abbrev context : String → String → TenantContext
  context customer_id actor_id = record { customer_id = customer_id; actor_id = actor_id }

  unfoldable pub read_configuration : String → String → Exec Client AwsConfiguration
  read_configuration customer_id connection_id = do
    found ← gets (λ c. find (is_account customer_id connection_id) c.db.connections)
    row ← lift (or_throw found (not_found "Connection"))
    lift (parse_configuration row.configuration)

  abbrev completed_audit : AwsConfiguration → ℕ → ℕ → String → String → String → String → AuditInput
  completed_audit configuration discovered missing customer_id connection_id job_id actor_id =
      record {
        customer_id = customer_id;
        actor_id = actor_id;
        action = "aws.discovery.completed";
        resource_type = "connection";
        resource_id = connection_id;
        request_id = job_id;
        occurred_at = none;
        details = some (
            obj (
              field "discovered" (num discovered) (
                field "markedMissing" (num missing) (
                  field "regions" configuration.regions
                    (field "resourceTypes" configuration.resource_types end)))));
      }

  abbrev pub rows_after :
      List DiscoveredResource → String → String → String → String → Client → List ResourceRow × ℕ
  rows_after resources customer_id connection_id job_id actor_id client =
      mark_missing customer_id (source_of connection_id) job_id actor_id
        (clocks.transaction_now * 1000 + micros)
        (upsert_all customer_id (source_of connection_id) job_id actor_id
          (clocks.transaction_now * 1000 + micros) crypto.random_uuid resources client.drawn
          client.db.resources)

  abbrev with_rows : List ResourceRow → ℕ → Client → Client
  with_rows rows n client = record client {
    server = record client.server {
      drawn = client.drawn + n;
      db = record client.db { resources = rows };
    };
  }

  unfoldable pub take_over :
      AwsConfiguration
      → List DiscoveredResource
      → String
      → String
      → String
      → String
      → Exec Client Json
  take_over configuration resources customer_id connection_id job_id actor_id client =
      let (rows, missing) = rows_after resources customer_id connection_id job_id actor_id client in
      (
        ok (
            obj (
              field "discovered" (num (length resources))
                (field "markedMissing" (num missing) end))),
        (append crypto hmac_key clocks
            (completed_audit configuration (length resources) missing customer_id connection_id
              job_id actor_id)
            (with_rows rows (length resources) client)).1,
      )

  -- The inventory is read between the two transactions; `meanwhile` is what other requests change
  -- in that time.
  unfoldable pub discover : (Pool → Pool) → String → String → String → String → Exec Pool Json
  discover meanwhile customer_id connection_id job_id actor_id = do
    configuration ←
        with_tenant_transaction (context customer_id actor_id)
          (read_configuration customer_id connection_id)
    resources ← lift (inventory configuration customer_id)
    modify meanwhile
    with_tenant_transaction (context customer_id actor_id)
        (take_over configuration resources customer_id connection_id job_id actor_id)
