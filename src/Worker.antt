-- ===== src/Worker.antt =====
-- worker.ts and operations/maintenance.ts: what a worker does with a job that it has claimed, and
-- the rows that the hourly maintenance deletes.
pub mod Maintenance
pub mod Attempts
use Prim.Native.String
use metricops_backend.Common.{ℕ, ◌+◌, String, true, false, List, [], ◌∷◌, Option, none, some}
use metricops_backend.Json.{Json}
use metricops_backend.Domain.Principal.{Principal, connection_validate}
use metricops_backend.Effects.{Exec, Result, ok, thrown, ◌>>=◌}
use metricops_backend.Database.Tables.{JobRow, JobKind, aws_discover}
use metricops_backend.Database.Transaction.{Crypto, Clocks, Pool}
use metricops_backend.Connections.{Registry, validate_connection}
use metricops_backend.Discovery.{AwsConfiguration, DiscoveredResource, discover}
use metricops_backend.Jobs.{finish}

-- what the worker's services reach outside: the connectors, and the inventory of an account
pub record WorkerRuntime : Type 0 where
  pub registry : Registry
  pub parse_configuration : Json → Result AwsConfiguration
  pub inventory : AwsConfiguration → String → Result (List DiscoveredResource)

module _ (crypto : Crypto) (hmac_key : String) (clocks : Clocks) (micros : ℕ)
    (runtime : WorkerRuntime) (worker_id : String) where
  abbrev pub worker_actor : String
  worker_actor = String.◌++◌ "worker:" worker_id

  -- the principal in whose name a connection is validated
  unfoldable pub job_principal : JobRow → Principal
  job_principal job = record {
    subject = worker_actor;
    customer_id = job.customer_id;
    permissions = connection_validate ∷ [];
    token_id = job.id;
    expires_at = clocks.date_now + 60000;
  }

  -- what a job of each kind runs; `meanwhile` is what others change while it waits for an answer
  unfoldable pub run_kind : (Pool → Pool) → JobKind → JobRow → Exec Pool Json
  run_kind meanwhile JobKind.connection_validate job =
      validate_connection crypto hmac_key clocks (job_principal job) runtime.registry meanwhile
        job.connection_id job.id
  run_kind meanwhile aws_discover job =
      discover crypto hmac_key clocks micros runtime.parse_configuration runtime.inventory meanwhile
        job.customer_id job.connection_id job.id worker_actor

  abbrev pub record_end : JobRow → Result Json → Exec Pool Unit
  record_end job (ok result) pool =
      finish crypto hmac_key clocks worker_id worker_actor job true (some result) none pool
  record_end job (thrown t) pool = (thrown t, pool)

  -- the body of the `try`
  unfoldable pub attempt_job : (Pool → Pool) → JobRow → Exec Pool Unit
  attempt_job meanwhile job pool =
      let (result, pool') = run_kind meanwhile job.kind job pool in record_end job result pool'

  abbrev pub caught : JobRow → Result (Unit {0}) × Pool → Pool
  caught job (ok u, pool) = pool
  caught job (thrown t, pool) =
      (finish crypto hmac_key clocks worker_id worker_actor job false none
        (some "JOB_EXECUTION_FAILED") pool).1

  -- `processJob`; what its own `catch` throws is dropped
  unfoldable pub process_job : (Pool → Pool) → JobRow → Pool → Pool
  process_job meanwhile job pool = caught job (attempt_job meanwhile job pool)
