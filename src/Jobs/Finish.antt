-- ===== src/Jobs/Finish.antt =====
-- The end of an attempt: who may record it, and what it changes.
use mathlib.Core.List.{Memᴰ}
use metricops_backend.Common.{
  String, ◌≡◌, refl, sym, ap, ◌∙◌, Bool, true, false, List, Option, find, any, Option-cases,
  Bool-cases, inl, inr,
}
use metricops_backend.Json.{Json}
use metricops_backend.Domain.Errors.{plain_error}
use metricops_backend.Effects.{Exec, Result, ok, thrown}
use metricops_backend.Database.Tables.{JobRow}
use metricops_backend.Database.Transaction.{Crypto, Clocks, Client, Pool}
use metricops_backend.Database.Atomic.{
  begun, transaction_ok, with_tenant_transaction-settled, settled,
}
use metricops_backend.Audit.{append}
use metricops_backend.Audit.Chain.{IsSound}
use metricops_backend.Audit.Committed.{
  IsExtended, IsExtended-same, IsExtended-trans, IsExtended-append, with_tenant_transaction-IsSound,
}
use metricops_backend.Jobs.Queue.{is_held, settle, settle_held, finish_metricops_job}
use metricops_backend.Common.Rows.{RowWise}
use metricops_backend.Jobs.Ending.{IsHeld, any-IsHeld, Finished, settle_held-Finished}
use metricops_backend.Jobs.{owned_job, with_jobs, finish_audit, finish_work, finish}

module _ (crypto : Crypto) (key : String) (clocks : Clocks) (worker actor : String) (job : JobRow)
    (succeeded_flag : Bool) (result : Option Json) (error_code : Option String) where
  abbrev work : Exec Client Unit
  work = finish_work crypto key clocks worker actor job succeeded_flag result error_code

  abbrev rows_after : List JobRow → List JobRow
  rows_after jobs =
      settle_held worker job.id (settle succeeded_flag result error_code clocks.transaction_now)
        jobs

  abbrev updated : Client → Client
  updated client = with_jobs (λ _. rows_after client.db.jobs) client

  data Outcome (client : Client) (out : Result (Unit {0}) × Client) : Type 0 where
    lost :
        any (is_held worker job.id) client.db.jobs ≡ false
        → out ≡ (thrown (plain_error "Job lease was lost before completion"), updated client)
        → Outcome client out
    disappeared :
        any (is_held worker job.id) client.db.jobs ≡ true
        → out ≡ (thrown (plain_error "Completed job disappeared"), updated client)
        → Outcome client out
    recorded :
        (current : JobRow)
        → any (is_held worker job.id) client.db.jobs ≡ true
        → out
          ≡ append crypto key clocks
              (finish_audit crypto key clocks worker actor job current error_code)
              (updated client)
        → Outcome client out

  finish_work-Outcome : (client : Client) → Outcome client (work client)
  unfolding finish_work finish_metricops_job
  finish_work-Outcome client = elim (Bool-cases (any (is_held worker job.id) client.db.jobs)) [
    | inr free ↦ lost free (rw free)
    | inl held ↦
        elim (Option-cases (find (owned_job job.customer_id job.id) (rows_after client.db.jobs))) [
          | inl absent ↦ disappeared held (rw (held, absent))
          | inr (current, here) ↦ recorded current held (rw (held, here))
        ]
  ]

  Outcome-IsExtended :
      (client : Client) (out : Result (Unit {0}) × Client)
      → Outcome client out
      → IsExtended crypto key client out.1
  Outcome-IsExtended client out (lost free h) =
      rw h (IsExtended-same crypto key client (updated client) refl refl)
  Outcome-IsExtended client out (disappeared held h) =
      rw h (IsExtended-same crypto key client (updated client) refl refl)
  Outcome-IsExtended client out (recorded current held h) = rw h (
      IsExtended-trans crypto key client (updated client) _
        (IsExtended-same crypto key client (updated client) refl refl)
        (IsExtended-append crypto key clocks
          (finish_audit crypto key clocks worker actor job current error_code) (updated client)))

  -- Recording the end of an attempt, whatever its outcome, keeps a sound audit log sound.
  pub finish-IsSound :
      (pool : Pool)
      → IsSound crypto key pool.server
      → IsSound crypto key
          (finish crypto key clocks worker actor job succeeded_flag result error_code pool).1.server
  unfolding finish
  finish-IsSound pool s =
      with_tenant_transaction-IsSound crypto key
        (record { customer_id = job.customer_id; actor_id = actor }) work pool
        (Outcome-IsExtended (begun _ pool) _ (finish_work-Outcome (begun _ pool))) s

  Outcome-rows :
      (client client' : Client) (out : Result (Unit {0}) × Client)
      → out ≡ (ok tt, client')
      → Outcome client out
      → (any (is_held worker job.id) client.db.jobs ≡ true)
        × (client'.db.jobs ≡ rows_after client.db.jobs)
  unfolding append
  Outcome-rows client client' out e (lost free h) = cc (ap (λ p. p.0) e, ap (λ p. p.0) h)
  Outcome-rows client client' out e (disappeared held h) = cc (ap (λ p. p.0) e, ap (λ p. p.0) h)
  Outcome-rows client client' out e (recorded current held h) =
      (held, ap (λ p. p.1.db.jobs) (sym e ∙ h))

  -- When the end of an attempt was recorded, the job was running and its worker held the lease, and
  -- every row is as it was, or is that worker's running job and ended: it succeeded with the result;
  -- or it failed for good, no attempt being left; or it is queued again, due after 2 ^ attempts
  -- seconds but 300 at most.
  pub finish-Finished :
      (pool pool' : Pool)
      → finish crypto key clocks worker actor job succeeded_flag result error_code pool
        ≡ (ok tt, pool')
      → ((row : JobRow) × Memᴰ row pool.db.jobs × IsHeld worker job.id row)
        × RowWise
            (Finished worker job.id succeeded_flag result error_code clocks.transaction_now)
            pool.db.jobs
            pool'.db.jobs
  unfolding finish
  finish-Finished pool pool' h =
      let (returned, tables) =
        transaction_ok (record { customer_id = job.customer_id; actor_id = actor }) work pool pool'
          tt h in
      let (held, rows) =
        Outcome-rows (begun _ pool) _ _ returned (finish_work-Outcome (begun _ pool)) in
      (
        any-IsHeld worker job.id pool.db.jobs held,
        rw (tables, rows)
            (settle_held-Finished worker job.id result error_code clocks.transaction_now
              succeeded_flag pool.db.jobs),
      )

  Outcome-lost :
      (client : Client) (out : Result (Unit {0}) × Client)
      → any (is_held worker job.id) client.db.jobs ≡ false
      → Outcome client out
      → out ≡ (thrown (plain_error "Job lease was lost before completion"), updated client)
  Outcome-lost client out free (lost free' h) = h
  Outcome-lost client out free (disappeared held h) = absurd (cc (free, held))
  Outcome-lost client out free (recorded current held h) = absurd (cc (free, held))

  IsHeld-none :
      (jobs : List JobRow)
      → ((row : JobRow) → Memᴰ row jobs → ¬ IsHeld worker job.id row)
      → any (is_held worker job.id) jobs ≡ false
  IsHeld-none jobs unheld = elim (Bool-cases (any (is_held worker job.id) jobs)) [
    | inr free ↦ free
    | inl held ↦
        let (row, m, holds) = any-IsHeld worker job.id jobs held in absurd (unheld row m holds)
  ]

  -- A worker that does not hold the lease of a running job, or no longer, is refused and changes
  -- no table.
  pub finish_lost :
      (pool : Pool)
      → ((row : JobRow) → Memᴰ row pool.db.jobs → ¬ IsHeld worker job.id row)
      → ((finish crypto key clocks worker actor job succeeded_flag result error_code pool).0
          ≡ thrown (plain_error "Job lease was lost before completion"))
        × ((finish crypto key clocks worker actor job succeeded_flag result error_code pool).1.db
            ≡ pool.db)
  unfolding finish
  finish_lost pool unheld =
      let free = IsHeld-none pool.db.jobs unheld in
      let out = Outcome-lost (begun _ pool) _ free (finish_work-Outcome (begun _ pool)) in
      let (answer, tables, clients) =
        with_tenant_transaction-settled (record { customer_id = job.customer_id; actor_id = actor })
          work pool in
      (answer ∙ ap (λ p. p.0) out, tables ∙ ap (settled pool.db) out)
