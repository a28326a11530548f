-- ===== src/Jobs/Tests.antt =====
-- A concrete job, queued, claimed and finished.
use mathlib.Core.List.{Memᴰ}
use metricops_backend.Common.{sym, ap, ◌∙◌, ◌≡◌, refl, [], ◌∷◌, none, true, List, All}
use metricops_backend.Common.Rows.{RowWise}
use metricops_backend.Json.{Json, null, obj, end}
use metricops_backend.Json.Printer.{stringify}
use metricops_backend.Domain.Errors.{plain_error}
use metricops_backend.Effects.{Result, ok, thrown}
use metricops_backend.Database.Tables.{
  empty_db, ConnectionRow, prometheus, pending, JobRow, connection_validate,
}
use metricops_backend.Database.Transaction.{Pool, with_tenant_transaction}
use metricops_backend.Database.Sample.{toy_crypto, noon, one_o_clock, ann, pool_with}
use metricops_backend.Audit.{append, sealed, newest, digest, event_body}
use metricops_backend.Jobs.Queue.{
  owned_by, claimable, comes_first, insert_job_by_age, order_by_age, candidates, lease, lease_all,
  claim_metricops_jobs, is_held, settle, settle_held, finish_metricops_job,
}
use metricops_backend.Jobs.{
  job_view, is_target, has_key, existing_job, new_job, insert_job, enqueue_work, enqueue,
  finish_work, finish,
}
use metricops_backend.Jobs.Table.{Claimed, claim_metricops_jobs-Claimed}
use metricops_backend.Jobs.WellFormed.{IsWellFormed}
use metricops_backend.Jobs.History.{
  Distinct, Reached, no_job, after_enqueue, after_claim, Reached-IsWellFormed, Distinct-UniqueIds,
}
use metricops_backend.Jobs.Ending.{IsHeld, Finished}
use metricops_backend.Jobs.Retry.{enqueue-retry}
use metricops_backend.Jobs.Finish.{finish-Finished, finish_lost}

jobs_run : Unit {0}
unfolding claimable comes_first insert_job_by_age order_by_age candidates lease lease_all
    claim_metricops_jobs is_held settle settle_held finish_metricops_job job_view is_target has_key
    existing_job new_job insert_job enqueue_work enqueue finish_work finish append sealed newest
    digest event_body with_tenant_transaction toy_crypto stringify
jobs_run = tt

abbrev target : ConnectionRow
target = record {
  id = "c1";
  customer_id = "acme";
  name = "metrics";
  kind = prometheus;
  configuration = obj end;
  secret_ref = none;
  status = pending;
  last_validated_at = none;
  created_by = "ann";
  created_at = 1690000000000;
  updated_at = 1690000000000;
}

abbrev start : Pool
start = pool_with (record empty_db { connections = target ∷ [] })

abbrev after : Pool
after = (enqueue toy_crypto "k" noon ann connection_validate "c1" "key1" "r1" start).1

abbrev answer : Result Json → Json
answer (ok v) = v
answer (thrown e) = null

abbrev view : Json
view = answer (enqueue toy_crypto "k" noon ann connection_validate "c1" "key1" "r1" start).0

made : enqueue toy_crypto "k" noon ann connection_validate "c1" "key1" "r1" start ≡ (ok view, after)
unfolding jobs_run
made = refl

enqueue-retry_example :
    ((enqueue toy_crypto "k" one_o_clock
        (record ann { subject = "bob" })
        connection_validate
        "c1"
        "key1"
        "r2"
        after).0
      ≡ ok view)
    × ((enqueue toy_crypto "k" one_o_clock
          (record ann { subject = "bob" })
          connection_validate
          "c1"
          "key1"
          "r2"
          after).1.db
        ≡ after.db)
enqueue-retry_example =
    enqueue-retry toy_crypto "k" connection_validate "c1" "key1" ann noon "r1" start after view
      "bob" one_o_clock "r2" made

abbrev first_job : JobRow
first_job = new_job toy_crypto "k" noon ann connection_validate "j1" "c1" "key1"

abbrev claimed_rows : List JobRow
claimed_rows = (claim_metricops_jobs "w1" 5 60 1700000001000 (first_job ∷ [])).0

claim_metricops_jobs-Claimed_example :
    RowWise (Claimed "w1" 60 1700000001000) (first_job ∷ []) claimed_rows
claim_metricops_jobs-Claimed_example =
    claim_metricops_jobs-Claimed "w1" 5 60 1700000001000 (first_job ∷ [])
      (Distinct-UniqueIds (first_job ∷ []) (refl, tt))

history : Reached toy_crypto "k" claimed_rows
history =
    after_claim (first_job ∷ []) "w1" 5 60 1700000001000
      (after_enqueue [] noon ann connection_validate "j1" "c1" "key1" no_job refl)

Reached-IsWellFormed_example : Distinct claimed_rows × All IsWellFormed claimed_rows
Reached-IsWellFormed_example = Reached-IsWellFormed toy_crypto "k" claimed_rows history

abbrev leased_job : JobRow
leased_job = lease "w1" 60 1700000001000 first_job

abbrev working : Pool
working = pool_with (record empty_db { jobs = leased_job ∷ [] })

-- the claim took the job
taken : claimed_rows ≡ leased_job ∷ []
unfolding jobs_run
taken = refl

finished : finish toy_crypto "k" one_o_clock "w1" "worker:w1" leased_job true none none working ≡ (
  ok tt,
  (finish toy_crypto "k" one_o_clock "w1" "worker:w1" leased_job true none none working).1,
)
unfolding jobs_run
finished = refl

finish-Finished_example :
    ((row : JobRow) × Memᴰ row (leased_job ∷ []) × IsHeld "w1" "j1" row)
    × RowWise
        (Finished "w1" "j1" true none none 1700003600000)
        (leased_job ∷ [])
        (finish toy_crypto "k" one_o_clock "w1" "worker:w1" leased_job true none none
          working).1.db.jobs
unfolding lease new_job
finish-Finished_example =
    finish-Finished toy_crypto "k" one_o_clock "w1" "worker:w1" leased_job true none none working _
      finished

another : (row : JobRow) → Memᴰ row (leased_job ∷ []) → ¬ IsHeld "w2" leased_job.id row
unfolding lease
another row (Memᴰ.head e) held =
    absurd (cc (ap (owned_by "w2") (sym held.owner ∙ ap (λ j. j.lease_owner) e)))
another row (Memᴰ.tail m) held = elim m [ ]

finish_lost_example :
    ((finish toy_crypto "k" one_o_clock "w2" "worker:w2" leased_job true none none working).0
      ≡ thrown (plain_error "Job lease was lost before completion"))
    × ((finish toy_crypto "k" one_o_clock "w2" "worker:w2" leased_job true none none working).1.db
        ≡ working.db)
finish_lost_example =
    finish_lost toy_crypto "k" one_o_clock "w2" "worker:w2" leased_job true none none working
      another
