-- ===== src/System/Steps.antt =====
-- The steps of a running system, interleaved: requests that are answered, webhook deliveries, and
-- what workers do. Where a service waits between two transactions, other steps come in between.
use metricops_backend.Common.{ℕ, String, List}
use metricops_backend.Database.Tables.{JobRow}
use metricops_backend.Database.Transaction.{Clocks, Pool}
use metricops_backend.Audit.Chain.{IsSound}
use metricops_backend.Jobs.{claim}
use metricops_backend.Alerts.Signature.{WebhookHeaders}
use metricops_backend.Alerts.Ingest.{WebhookRuntime, ingest}
use metricops_backend.Alerts.Invariants.{ingest-IsSound}
use metricops_backend.Worker.{WorkerRuntime, process_job}
use metricops_backend.Worker.Attempts.{process_job-IsSound}
use metricops_backend.Worker.Maintenance.{run_maintenance, run_maintenance-IsSound}
use metricops_backend.Http.Routes.{Route, HttpRequest, Schemas}
use metricops_backend.Http.Application.{respond}
use metricops_backend.Http.Preserved.{respond-Keeps}
use metricops_backend.Metrics.{Active}
use metricops_backend.System.{App, ServerRuntime, metricops}
use metricops_backend.System.Kept.{Sound, metricops-Sound}

abbrev pub with_pool : (Pool → Pool) → App → App
with_pool f app = record app { pool = f app.pool }

abbrev pub app_of : Pool → Active → App
app_of pool active = record { pool = pool; active = active }

module _ (runtime : ServerRuntime) (origins : List String) (schemas : Schemas)
    (webhooks : WebhookRuntime) (workers : WorkerRuntime) where
  mutual
    -- one step of the system, at times of its own; `meanwhile` is what other steps change in
    -- the tables while this one waits
    pub data Step : App → App → Type 0 where
      request :
          (clocks : Clocks) (micros now : ℕ) (route : Route) (call : HttpRequest) (app : App)
          → Step app
              (respond runtime.spell origins schemas
                (metricops runtime clocks micros)
                now
                route
                call
                app).1
      delivery :
          (clocks : Clocks) (customer_id connection_id : String) (headers : WebhookHeaders)
          (body : List ℕ) (request_id : String) (meanwhile : Pool → Pool) (active active' : Active)
          (app : App)
          → ((pool : Pool) → Steps (app_of pool active) (app_of (meanwhile pool) active'))
          → Step app (
              with_pool
                (λ pool.
                  (ingest runtime.crypto runtime.hmac_key webhooks clocks customer_id connection_id
                    meanwhile headers body request_id pool).1)
                app)
      claiming :
          (worker : String) (limit lease_seconds now : ℕ) (app : App)
          → Step app (with_pool (λ pool. (claim worker limit lease_seconds now pool).1) app)
      job :
          (clocks : Clocks) (micros : ℕ) (worker : String) (row : JobRow) (meanwhile : Pool → Pool)
          (active active' : Active) (app : App)
          → ((pool : Pool) → Steps (app_of pool active) (app_of (meanwhile pool) active'))
          → Step app (
              with_pool
                (process_job runtime.crypto runtime.hmac_key clocks micros workers worker meanwhile
                  row)
                app)
      maintenance :
          (now : ℕ) (app : App) → Step app (with_pool (λ pool. (run_maintenance now pool).1) app)

    pub data Steps : App → App → Type 0 where
      done : (app : App) → Steps app app
      next : (a b c : App) → Step a b → Steps b c → Steps a c

  claim-Sound :
      (worker : String) (limit lease_seconds now : ℕ) (pool : Pool)
      → IsSound runtime.crypto runtime.hmac_key pool.server
      → IsSound runtime.crypto runtime.hmac_key (claim worker limit lease_seconds now pool).1.server
  unfolding claim
  claim-Sound worker limit lease_seconds now pool s = record {
    rising = s.rising;
    standing = s.standing;
  }

  mutual
    Step-Sound : (a b : App) → Step a b → Sound runtime a → Sound runtime b
    Step-Sound a b (request clocks micros now route call app) s =
        respond-Keeps (Sound runtime) runtime.spell origins schemas
          (metricops runtime clocks micros) now (metricops-Sound runtime clocks micros) route call
          app s
    Step-Sound a b
          (delivery clocks customer_id connection_id headers body request_id meanwhile active
            active' app between)
          s =
        ingest-IsSound runtime.crypto runtime.hmac_key webhooks clocks customer_id connection_id
          meanwhile headers body request_id app.pool
          (λ pool s'.
            Steps-Sound (app_of pool active) (app_of (meanwhile pool) active') (between pool) s')
          s
    Step-Sound a b (claiming worker limit lease_seconds now app) s =
        claim-Sound worker limit lease_seconds now app.pool s
    Step-Sound a b (job clocks micros worker row meanwhile active active' app between) s =
        process_job-IsSound runtime.crypto runtime.hmac_key clocks micros workers worker meanwhile
          (λ pool s'.
            Steps-Sound (app_of pool active) (app_of (meanwhile pool) active') (between pool) s')
          row app.pool s
    Step-Sound a b (maintenance now app) s =
        run_maintenance-IsSound runtime.crypto runtime.hmac_key now app.pool s

    -- Whatever requests, deliveries, jobs and maintenance a running system goes through, in
    -- whatever order and however they interleave and fail, an audit log that is sound before
    -- them is sound after them.
    pub Steps-Sound : (a b : App) → Steps a b → Sound runtime a → Sound runtime b
    Steps-Sound a b (done app) s = s
    Steps-Sound a b (next x y z step rest) s = Steps-Sound y z rest (Step-Sound x y step s)
