-- ===== src/Worker/Attempts.antt =====
-- A job's attempt and the audit log.
use metricops_backend.Common.{ℕ, String, true, false, none, some}
use metricops_backend.Json.{Json}
use metricops_backend.Effects.{Result, ok, thrown}
use metricops_backend.Database.Tables.{JobRow, JobKind, connection_validate, aws_discover}
use metricops_backend.Database.Transaction.{Crypto, Clocks, Pool}
use metricops_backend.Audit.Chain.{IsSound}
use metricops_backend.Connections.Validation.{validate_connection-IsSound}
use metricops_backend.Discovery.Audited.{discover-IsSound}
use metricops_backend.Jobs.Finish.{finish-IsSound}
use metricops_backend.Worker.{
  WorkerRuntime, worker_actor, job_principal, run_kind, record_end, attempt_job, caught,
  process_job,
}

module _ (crypto : Crypto) (hmac_key : String) (clocks : Clocks) (micros : ℕ)
    (runtime : WorkerRuntime) (worker_id : String) (meanwhile : Pool → Pool)
    (others : (p : Pool)
      → IsSound crypto hmac_key p.server
      → IsSound crypto hmac_key (meanwhile p).server)
    (job : JobRow) where
  run_kind-IsSound :
      (kind : JobKind) (pool : Pool)
      → IsSound crypto hmac_key pool.server
      → IsSound crypto hmac_key
          (run_kind crypto hmac_key clocks micros runtime worker_id meanwhile kind job
            pool).1.server
  unfolding run_kind
  run_kind-IsSound connection_validate pool s =
      validate_connection-IsSound crypto hmac_key clocks
        (job_principal crypto hmac_key clocks micros runtime worker_id job) runtime.registry
        meanwhile job.connection_id job.id pool others s
  run_kind-IsSound aws_discover pool s =
      discover-IsSound crypto hmac_key clocks micros runtime.parse_configuration runtime.inventory
        job.customer_id job.connection_id job.id
        (worker_actor crypto hmac_key clocks micros runtime worker_id) meanwhile pool others s

  record_end-IsSound :
      (result : Result Json) (pool : Pool)
      → IsSound crypto hmac_key pool.server
      → IsSound crypto hmac_key
          (record_end crypto hmac_key clocks micros runtime worker_id job result pool).1.server
  record_end-IsSound (ok result) pool s =
      finish-IsSound crypto hmac_key clocks worker_id
        (worker_actor crypto hmac_key clocks micros runtime worker_id) job true (some result) none
        pool s
  record_end-IsSound (thrown t) pool s = s

  caught-IsSound :
      (out : Result (Unit {0}) × Pool)
      → IsSound crypto hmac_key out.1.server
      → IsSound crypto hmac_key
          (caught crypto hmac_key clocks micros runtime worker_id job out).server
  caught-IsSound (ok u, pool) s = s
  caught-IsSound (thrown t, pool) s =
      finish-IsSound crypto hmac_key clocks worker_id
        (worker_actor crypto hmac_key clocks micros runtime worker_id) job false none
        (some "JOB_EXECUTION_FAILED") pool s

  -- An attempt keeps a sound audit log sound, whatever fails in it.
  pub process_job-IsSound :
      (pool : Pool)
      → IsSound crypto hmac_key pool.server
      → IsSound crypto hmac_key
          (process_job crypto hmac_key clocks micros runtime worker_id meanwhile job pool).server
  unfolding process_job attempt_job
  process_job-IsSound pool s =
      let ran =
        run_kind crypto hmac_key clocks micros runtime worker_id meanwhile job.kind job pool in
      caught-IsSound
        (attempt_job crypto hmac_key clocks micros runtime worker_id meanwhile job pool)
        (record_end-IsSound ran.0 ran.1 (run_kind-IsSound job.kind pool s))
