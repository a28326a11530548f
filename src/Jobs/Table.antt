-- ===== src/Jobs/Table.antt =====
-- What claiming and finishing do to the rows of the table jobs.
use mathlib.Core.List.{Memᴰ}
use Prim.Native.Nat.{min, max}
use metricops_backend.Common.{
  ◌≤◌, ◌<◌, ◌+◌, ◌*◌, ◌⊎◌, Option, none, some, ℕ, ◌≡◌, refl, sym, ap, ◌∙◌, inl, inr, String, Bool,
  true, ◌&&◌, List, [], ◌∷◌, any, filter, take, zero, suc, Bool-cases, string_eq, eq_iff, arith,
}
use metricops_backend.Common.Rows.{RowWise, no_rows, row_then}
use metricops_backend.Database.Tables.{
  JobRow, JobStatus, queued, running, succeeded, failed, cancelled,
}
use metricops_backend.Jobs.Queue.{
  is_queued, is_running, has_expired, claimable, insert_job_by_age, order_by_age, candidates,
  claim_limit, has_id, lease, lease_all, claim_metricops_jobs,
}

-- the primary key
abbrev pub UniqueIds : List JobRow → Type 0
UniqueIds jobs = (a b : JobRow) → Memᴰ a jobs → Memᴰ b jobs → a.id ≡ b.id → a ≡ b

any-take :
    (p : JobRow → Bool) (n : ℕ) (jobs : List JobRow)
    → any p (take n jobs) ≡ true
    → any p jobs ≡ true
any-take p zero jobs h = cc
any-take p (suc n) [] h = cc
any-take p (suc n) (j ∷ jobs) h = ground (arith, any-take p n jobs)

any-insert :
    (p : JobRow → Bool) (j : JobRow) (jobs : List JobRow)
    → any p (insert_job_by_age j jobs) ≡ true
    → any p (j ∷ jobs) ≡ true
unfolding insert_job_by_age
any-insert p j [] h = h
any-insert p j (k ∷ jobs) h = ground (arith, any-insert p j jobs)

any-order_by_age :
    (p : JobRow → Bool) (jobs : List JobRow) → any p (order_by_age jobs) ≡ true → any p jobs ≡ true
unfolding order_by_age
any-order_by_age p [] h = h
any-order_by_age p (j ∷ jobs) h =
    ground (arith, any-order_by_age p jobs, any-insert p j (order_by_age jobs))

-- a row that passes the filter and has the key
any-filter :
    (p q : JobRow → Bool) (jobs : List JobRow)
    → any q (filter p jobs) ≡ true
    → (j : JobRow) × Memᴰ j jobs × (p j ≡ true) × (q j ≡ true)
any-filter p q [] h = absurd (cc h)
any-filter p q (j ∷ jobs) h = elim (Bool-cases (p j && q j)) [
  | inl taken ↦ (j, Memᴰ.head refl, ground arith, ground arith)
  | inr other ↦ let (k, m, a, b) = any-filter p q jobs (ground arith) in (k, Memᴰ.tail m, a, b)
]

-- a job that a worker may take: it is due, and it is queued or its lease ran out
pub record IsFree (now : ℕ) (job : JobRow) : Type 0 where
  pub due : job.available_at ≤ now
  pub free :
      (job.status ≡ queued)
      ⊎ ((job.status ≡ running) × ((t : ℕ) × (job.lease_expires_at ≡ some t) × (t < now)))

-- the row of a job that a worker took: it runs for that worker, for 5 to 300 seconds
pub record IsLeased (worker : String) (lease_seconds now : ℕ) (job job' : JobRow) : Type 0 where
  pub seconds : ℕ
  pub at_least : 5 ≤ seconds
  pub at_most : seconds ≤ 300
  pub as_asked : 5 ≤ lease_seconds → lease_seconds ≤ 300 → seconds ≡ lease_seconds
  pub taken : job' ≡ record job {
    status = running;
    attempts = job.attempts + 1;
    lease_owner = some worker;
    lease_expires_at = some (now + seconds * 1000);
    updated_at = now;
  }

-- what claiming makes of a row: it leaves the row alone, or the row was free and is leased
pub data Claimed (worker : String) (lease_seconds now : ℕ) (job job' : JobRow) : Type 0 where
  left_alone : job' ≡ job → Claimed worker lease_seconds now job job'
  leased :
      IsFree now job
      → IsLeased worker lease_seconds now job job'
      → Claimed worker lease_seconds now job job'

is_queued_lem : (s : JobStatus) → is_queued s ≡ true → s ≡ queued
is_queued_lem queued h = refl
is_queued_lem running h = cc
is_queued_lem succeeded h = cc
is_queued_lem failed h = cc
is_queued_lem cancelled h = cc

pub is_running_lem : (s : JobStatus) → is_running s ≡ true → s ≡ running
is_running_lem running h = refl
is_running_lem queued h = cc
is_running_lem succeeded h = cc
is_running_lem failed h = cc
is_running_lem cancelled h = cc

has_expired_lem :
    (now : ℕ) (o : Option ℕ) → has_expired now o ≡ true → (t : ℕ) × (o ≡ some t) × (t < now)
has_expired_lem now none h = absurd (cc h)
has_expired_lem now (some t) h = (t, refl, ground arith)

claimable-IsFree : (now : ℕ) (job : JobRow) → claimable now job ≡ true → IsFree now job
unfolding claimable
claimable-IsFree now job h = record {
  due = ground arith;
  free = elim (Bool-cases (is_queued job.status)) [
    | inl waits ↦ inl (is_queued_lem job.status waits)
    | inr other ↦ inr (
      is_running_lem job.status (ground arith),
      has_expired_lem now job.lease_expires_at (ground arith),
    )
  ];
}

lease-IsLeased :
    (worker : String) (lease_seconds now : ℕ) (job : JobRow)
    → IsLeased worker lease_seconds now job (lease worker lease_seconds now job)
unfolding lease
lease-IsLeased worker lease_seconds now job = record {
  seconds = min (max lease_seconds 5) 300;
  at_least = omega arith;
  at_most = omega arith;
  as_asked = λ h k. omega (arith, h, k);
  taken = refl;
}

module _ (worker : String) (limit lease_seconds now : ℕ) where
  candidate-claimable :
      (jobs : List JobRow) (job : JobRow)
      → UniqueIds jobs
      → Memᴰ job jobs
      → any (has_id job.id) (candidates limit now jobs) ≡ true
      → claimable now job ≡ true
  unfolding candidates
  candidate-claimable jobs job unique m h =
      let (other, m', free, same) = any-filter (claimable now) (has_id job.id) jobs (
        any-order_by_age (has_id job.id) (filter (claimable now) jobs)
          (any-take (has_id job.id) (claim_limit limit) _ h)) in
      ap (claimable now) (unique job other m m' (sym ((eq_iff other.id job.id).0 same))) ∙ free

  lease_all-Claimed :
      (chosen jobs : List JobRow)
      → ((job : JobRow)
          → Memᴰ job jobs
          → any (has_id job.id) chosen ≡ true
          → claimable now job ≡ true)
      → RowWise
          (Claimed worker lease_seconds now)
          jobs
          (lease_all worker lease_seconds now chosen jobs)
  unfolding lease_all
  lease_all-Claimed chosen [] f = no_rows
  lease_all-Claimed chosen (job ∷ jobs) f =
      row_then job _ jobs _
        (elim (Bool-cases (any (has_id job.id) chosen)) [
          | inl taken ↦ rw taken (
              leased (claimable-IsFree now job (f job (Memᴰ.head refl) taken))
                (lease-IsLeased worker lease_seconds now job))
          | inr other ↦ rw other (left_alone refl)
        ])
        (lease_all-Claimed chosen jobs (λ j m. f j (Memᴰ.tail m)))

  -- Where identifiers are unique, claiming leaves each row as it is, or the row was due and either
  -- queued or running under a lease that ran out, and now runs for the worker, for the seconds asked
  -- for between 5 and 300, with one attempt more and all else as it was.
  pub claim_metricops_jobs-Claimed :
      (jobs : List JobRow)
      → UniqueIds jobs
      → RowWise
          (Claimed worker lease_seconds now)
          jobs
          (claim_metricops_jobs worker limit lease_seconds now jobs).0
  unfolding claim_metricops_jobs
  claim_metricops_jobs-Claimed jobs unique =
      lease_all-Claimed (candidates limit now jobs) jobs
        (λ job m h. candidate-claimable jobs job unique m h)
