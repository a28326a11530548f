-- ===== src/Jobs/Ending.antt =====
-- What finishing does to the rows of the table jobs.
use Prim.Native.Nat.{min}
use mathlib.Core.List.{Memᴰ}
use metricops_backend.Common.{
  ℕ, ◌+◌, ◌*◌, ◌^◌, ◌≤◌, ◌<◌, ◌≡◌, refl, String, Bool, true, false, List, [], ◌∷◌, Option, none,
  some, any, leb, string_eq, eq_iff, arith, ap, Bool-cases, inl, inr,
}
use metricops_backend.Common.Rows.{RowWise, no_rows, row_then}
use metricops_backend.Json.{Json}
use metricops_backend.Database.Tables.{JobRow, running, succeeded, failed, queued}
use metricops_backend.Jobs.Queue.{owned_by, is_held, stored_error, settle, settle_held}
use metricops_backend.Jobs.Table.{is_running_lem}

-- the job runs, and the worker holds its lease
pub record IsHeld (worker id : String) (job : JobRow) : Type 0 where
  pub same : job.id ≡ id
  pub runs : job.status ≡ running
  pub owner : job.lease_owner ≡ some worker

-- the row of a job whose attempt ended: it succeeded; or it failed and no attempt is left; or it
-- failed and waits for the next, 2 ^ attempts seconds but 300 at most
pub data Ending (succeeded_flag : Bool) (result : Option Json) (error_code : Option String)
    (now : ℕ) (job job' : JobRow) : Type 0 where
  completed :
      succeeded_flag ≡ true
      → job' ≡ record job {
        status = succeeded;
        result = result;
        error_code = none;
        lease_owner = none;
        lease_expires_at = none;
        completed_at = some now;
        updated_at = now;
      }
      → Ending succeeded_flag result error_code now job job'
  given_up :
      succeeded_flag ≡ false
      → job.max_attempts ≤ job.attempts
      → job' ≡ record job {
        status = failed;
        result = none;
        error_code = some (stored_error error_code);
        lease_owner = none;
        lease_expires_at = none;
        completed_at = some now;
        updated_at = now;
      }
      → Ending succeeded_flag result error_code now job job'
  retried :
      succeeded_flag ≡ false
      → job.attempts < job.max_attempts
      → (seconds : ℕ) → seconds ≤ 300
      → (2 ^ job.attempts ≤ 300 → seconds ≡ 2 ^ job.attempts)
      → job' ≡ record job {
        status = queued;
        result = none;
        error_code = some (stored_error error_code);
        available_at = now + seconds * 1000;
        lease_owner = none;
        lease_expires_at = none;
        completed_at = none;
        updated_at = now;
      }
      → Ending succeeded_flag result error_code now job job'

-- what finishing makes of a row: it leaves the row alone, or its running worker settles it
pub data Finished (worker id : String) (succeeded_flag : Bool) (result : Option Json)
    (error_code : Option String) (now : ℕ) (job job' : JobRow) : Type 0 where
  kept : job' ≡ job → Finished worker id succeeded_flag result error_code now job job'
  settled :
      IsHeld worker id job
      → Ending succeeded_flag result error_code now job job'
      → Finished worker id succeeded_flag result error_code now job job'

owned_by_lem : (worker : String) (o : Option String) → owned_by worker o ≡ true → o ≡ some worker
owned_by_lem worker none h = cc
owned_by_lem worker (some owner) h = ap some ((eq_iff owner worker).0 h)

is_held-IsHeld :
    (worker id : String) (job : JobRow) → is_held worker id job ≡ true → IsHeld worker id job
unfolding is_held
is_held-IsHeld worker id job h = record {
  same = ground (arith, eq_iff job.id id);
  runs = is_running_lem job.status (ground arith);
  owner = owned_by_lem worker job.lease_owner (ground arith);
}

-- a row that passes a test that some row passes
pub any-IsHeld :
    (worker id : String) (jobs : List JobRow)
    → any (is_held worker id) jobs ≡ true
    → (job : JobRow) × Memᴰ job jobs × IsHeld worker id job
any-IsHeld worker id [] h = absurd (cc h)
any-IsHeld worker id (job ∷ jobs) h = elim (Bool-cases (is_held worker id job)) [
  | inl held ↦ (job, Memᴰ.head refl, is_held-IsHeld worker id job held)
  | inr other ↦
      let (found, m, held) = any-IsHeld worker id jobs (ground arith) in (found, Memᴰ.tail m, held)
]

module _ (worker id : String) (result : Option Json) (error_code : Option String) (now : ℕ) where
  settle-Ending :
      (succeeded_flag : Bool) (job : JobRow)
      → Ending succeeded_flag result error_code now job
          (settle succeeded_flag result error_code now job)
  unfolding settle
  settle-Ending true job = completed refl refl
  settle-Ending false job = elim (Bool-cases (leb job.max_attempts job.attempts)) [
    | inl spent ↦ given_up refl (ground arith) (rw spent)
    | inr others ↦
        retried refl (ground arith) (min 300 (2 ^ job.attempts)) (omega arith)
          (λ h. omega (arith, h)) (rw others)
  ]

  pub settle_held-Finished :
      (succeeded_flag : Bool) (jobs : List JobRow)
      → RowWise
          (Finished worker id succeeded_flag result error_code now)
          jobs
          (settle_held worker id (settle succeeded_flag result error_code now) jobs)
  unfolding settle_held
  settle_held-Finished succeeded_flag [] = no_rows
  settle_held-Finished succeeded_flag (job ∷ jobs) =
      row_then job _ jobs _
        (elim (Bool-cases (is_held worker id job)) [
          | inl held ↦
              rw held
                (settled (is_held-IsHeld worker id job held) (settle-Ending succeeded_flag job))
          | inr other ↦ rw other (kept refl)
        ])
        (settle_held-Finished succeeded_flag jobs)
