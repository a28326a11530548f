-- ===== src/Jobs.antt =====
-- jobs/job-service.ts: queueing and reading jobs, and recording the end of an attempt.
pub mod Queue
pub mod Table
pub mod Ending
pub mod WellFormed
pub mod History
pub mod Retry
pub mod Finish
mod Tests
use metricops_backend.Common.{
  ℕ, ◌+◌, String, Bool, true, false, not, ◌&&◌, ◌||◌, List, [], ◌∷◌, ◌++◌, map, Option, none, some,
  find, ◌==◌, nat_eq, string_eq, if◌then◌else◌,
}
use metricops_backend.Common.Dates.{to_iso_string}
use metricops_backend.Json.{Json, null, num, str, obj, end, field}
use metricops_backend.Domain.Errors.{Thrown, not_found, plain_error, idempotency_key_reused}
use metricops_backend.Domain.Principal.{Principal}
use metricops_backend.Effects.{
  Exec, Result, ok, thrown, or_throw, pure, throw, lift, gets, modify, when_thrown, ◌>>=◌, ◌>>◌,
}
use metricops_backend.Database.Tables.{
  Db, ConnectionRow, ConnectionKind, postgresql, mysql, prometheus, alertmanager_webhook,
  aws_assume_role, ConnectionStatus, disabled, JobRow, JobKind, connection_validate, aws_discover,
  JobStatus, queued, running, succeeded, failed, cancelled,
}
use metricops_backend.Database.Transaction.{
  Crypto, Clocks, Client, Pool, Server, TenantContext, with_tenant_transaction,
}
use metricops_backend.Audit.{AuditInput, append, nullable}
use Queue.{claim_metricops_jobs, finish_metricops_job, same_kind}

abbrev pub kind_text : JobKind → String
kind_text connection_validate = "connection.validate"
kind_text aws_discover = "aws.discover"

abbrev pub status_text : JobStatus → String
status_text queued = "queued"
status_text running = "running"
status_text succeeded = "succeeded"
status_text failed = "failed"
status_text cancelled = "cancelled"

abbrev iso : Option ℕ → Json
iso none = null
iso (some t) = str (to_iso_string t)

abbrev json_or_null : Option Json → Json
json_or_null none = null
json_or_null (some j) = j

-- `toView(mapJob(row))`
unfoldable pub job_view : JobRow → Json
job_view job = obj (
    field "id" (str job.id) (
      field "kind" (str (kind_text job.kind)) (
        field "status" (str (status_text job.status)) (
          field "result" (json_or_null job.result) (
            field "errorCode" (nullable job.error_code) (
              field "attempts" (num job.attempts) (
                field "maxAttempts" (num job.max_attempts) (
                  field "createdAt" (str (to_iso_string job.created_at)) (
                    field "updatedAt" (str (to_iso_string job.updated_at))
                      (field "completedAt" (iso job.completed_at) end))))))))))

abbrev is_disabled : ConnectionStatus → Bool
is_disabled disabled = true
is_disabled _ = false

-- the connections that a job of the kind may be queued for
abbrev pub suits : JobKind → ConnectionKind → Bool
suits connection_validate alertmanager_webhook = false
suits connection_validate _ = true
suits aws_discover aws_assume_role = true
suits aws_discover _ = false

unfoldable pub is_target : JobKind → String → String → ConnectionRow → Bool
is_target kind customer_id id row =
    row.customer_id == customer_id
    && row.id == id
    && suits kind row.kind
    && not (is_disabled row.status)

unfoldable pub has_key : JobKind → String → String → JobRow → Bool
has_key kind customer_id idempotency_key job =
    job.customer_id == customer_id
    && same_kind job.kind kind
    && job.idempotency_key == idempotency_key

abbrev pub owned_job : String → String → JobRow → Bool
owned_job customer_id id job = job.customer_id == customer_id && job.id == id

abbrev with_jobs : (List JobRow → List JobRow) → Client → Client
with_jobs f client = record client {
  server = record client.server { db = record client.db { jobs = f client.db.jobs } };
}

-- the answer to a request whose key was used
unfoldable pub existing_job : String → JobRow → Result Json
existing_job connection_id job =
    if job.connection_id == connection_id then ok (job_view job) else thrown idempotency_key_reused

module _ (crypto : Crypto) (hmac_key : String) (clocks : Clocks) (principal : Principal) where
  -- the inserted row, with the columns' defaults
  unfoldable pub new_job : JobKind → String → String → String → JobRow
  new_job kind id connection_id idempotency_key = record {
    id = id;
    customer_id = principal.customer_id;
    kind = kind;
    status = queued;
    connection_id = connection_id;
    result = none;
    error_code = none;
    idempotency_key = idempotency_key;
    attempts = 0;
    max_attempts = 5;
    available_at = clocks.transaction_now;
    lease_owner = none;
    lease_expires_at = none;
    created_by = principal.subject;
    created_at = clocks.transaction_now;
    updated_at = clocks.transaction_now;
    completed_at = none;
  }

  abbrev pub queued_audit : JobKind → String → String → String → AuditInput
  queued_audit kind id connection_id request_id = record {
    customer_id = principal.customer_id;
    actor_id = principal.subject;
    action = "job.queued";
    resource_type = "job";
    resource_id = id;
    request_id = request_id;
    occurred_at = none;
    details =
        some (
          obj (field "kind" (str (kind_text kind)) (field "connectionId" (str connection_id) end)));
  }

  abbrev draw_id : Client → Client
  draw_id client = record client { server = record client.server { drawn = client.drawn + 1 } }

  -- what follows when the key is new
  unfoldable pub insert_job : JobKind → String → String → String → Exec Client Json
  insert_job kind connection_id idempotency_key request_id = do
    id ← gets (λ c. crypto.random_uuid c.drawn)
    modify draw_id
    let job = new_job kind id connection_id idempotency_key
    modify (with_jobs (λ jobs. jobs ++ job ∷ []))
    append crypto hmac_key clocks (queued_audit kind id connection_id request_id)
    pure (job_view job)

  -- the work of `enqueueConnectionValidation` and of `enqueueAwsDiscovery`, by the kind
  unfoldable pub enqueue_work : JobKind → String → String → String → Exec Client Json
  enqueue_work kind connection_id idempotency_key request_id = do
    target ← gets (λ c. find (is_target kind principal.customer_id connection_id) c.db.connections)
    lift (or_throw target (not_found "Connection"))
    existing ← gets (λ c. find (has_key kind principal.customer_id idempotency_key) c.db.jobs)
    elim existing [
      | some job ↦ lift (existing_job connection_id job)
      | none ↦ insert_job kind connection_id idempotency_key request_id
    ]

  abbrev pub context : TenantContext
  context = record { customer_id = principal.customer_id; actor_id = principal.subject }

  unfoldable pub enqueue : JobKind → String → String → String → Exec Pool Json
  enqueue kind connection_id idempotency_key request_id =
      with_tenant_transaction context (enqueue_work kind connection_id idempotency_key request_id)

  unfoldable pub enqueue_connection_validation : String → String → String → Exec Pool Json
  enqueue_connection_validation = enqueue connection_validate

  unfoldable pub enqueue_aws_discovery : String → String → String → Exec Pool Json
  enqueue_aws_discovery = enqueue aws_discover

  unfoldable pub get_job : String → Exec Pool Json
  get_job job_id = with_tenant_transaction context (do
    found ← gets (λ c. find (owned_job principal.customer_id job_id) c.db.jobs)
    job ← lift (or_throw found (not_found "Job"))
    pure (job_view job))

-- one statement outside any tenant's transaction; `now` is `clock_timestamp()`
unfoldable pub claim : String → ℕ → ℕ → ℕ → Exec Pool (List JobRow)
claim worker limit lease_seconds now pool =
    let (jobs, claimed) = claim_metricops_jobs worker limit lease_seconds now pool.db.jobs in
    (
      ok claimed,
      record pool { server = record pool.server { db = record pool.db { jobs = jobs } } },
    )

-- the audit action for the state that an attempt's end leaves
abbrev pub finish_action : JobStatus → String
finish_action queued = "job.retry_scheduled"
finish_action running = "job.running"
finish_action succeeded = "job.succeeded"
finish_action failed = "job.failed"
finish_action cancelled = "job.cancelled"

module _ (crypto : Crypto) (hmac_key : String) (clocks : Clocks)
    (worker_id worker_actor : String) where
  abbrev pub finish_audit : JobRow → JobRow → Option String → AuditInput
  finish_audit job current error_code = record {
    customer_id = job.customer_id;
    actor_id = worker_actor;
    action = finish_action current.status;
    resource_type = "job";
    resource_id = job.id;
    request_id = job.id;
    occurred_at = none;
    details = some (
        obj (
          field "kind" (str (kind_text job.kind)) (
            field "attempts" (num current.attempts)
              (field "errorCode" (nullable error_code) end))));
  }

  unfoldable pub finish_work : JobRow → Bool → Option Json → Option String → Exec Client Unit
  finish_work job succeeded_flag result error_code client =
      let (jobs, changed) =
        finish_metricops_job worker_id job.id succeeded_flag result error_code
          clocks.transaction_now client.db.jobs in
      (do
        modify (with_jobs (λ _. jobs))
        when_thrown (not changed) (plain_error "Job lease was lost before completion")
        state ← gets (λ c. find (owned_job job.customer_id job.id) c.db.jobs)
        current ← lift (or_throw state (plain_error "Completed job disappeared"))
        append crypto hmac_key clocks (finish_audit job current error_code))
        client

  -- `worker_actor` is `worker:${workerId}`
  unfoldable pub finish : JobRow → Bool → Option Json → Option String → Exec Pool Unit
  finish job succeeded_flag result error_code =
      with_tenant_transaction (record { customer_id = job.customer_id; actor_id = worker_actor })
        (finish_work job succeeded_flag result error_code)
