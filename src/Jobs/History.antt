-- ===== src/Jobs/History.antt =====
-- The table jobs through any sequence of queueing, claiming and finishing.
use mathlib.Core.List.{Memᴰ}
use metricops_backend.Common.{
  ◌<◌, ◌⊎◌, some, ℕ, ◌≡◌, refl, sym, ap, ◌∙◌, String, Bool, false, List, [], ◌∷◌, ◌++◌, Option, All,
  any, arith, inl, inr, ◌==◌, string_eq, eq_iff,
}
use metricops_backend.Common.Rows.{RowWise, no_rows, row_then}
use metricops_backend.Json.{Json}
use metricops_backend.Domain.Principal.{Principal}
use metricops_backend.Database.Tables.{JobRow, JobKind, queued, running}
use metricops_backend.Database.Transaction.{Crypto, Clocks}
use metricops_backend.Jobs.Queue.{claim_metricops_jobs, has_id, finish_metricops_job}
use metricops_backend.Jobs.{new_job}
use metricops_backend.Jobs.Table.{
  UniqueIds, IsFree, Claimed, left_alone, leased, claim_metricops_jobs-Claimed,
}
use metricops_backend.Jobs.Ending.{
  Ending, completed, given_up, retried, Finished, kept, settled, settle_held-Finished,
}
use metricops_backend.Jobs.WellFormed.{IsWellFormed, is_some, is_finished, new_job-IsWellFormed}

-- no identifier stands twice
abbrev pub Distinct : List JobRow → Type 0
Distinct [] = Unit
Distinct (job ∷ rest) = (any (has_id job.id) rest ≡ false) × Distinct rest

absent-Memᴰ :
    (id : String) (jobs : List JobRow) (job : JobRow)
    → any (has_id id) jobs ≡ false
    → Memᴰ job jobs
    → job.id ≡ id
    → ⊥
absent-Memᴰ id [] job h m same = elim m [ ]
absent-Memᴰ id (j ∷ jobs) job h (Memᴰ.head e) same =
    ground (arith, eq_iff j.id id, ap (λ x. x.id) e)
absent-Memᴰ id (j ∷ jobs) job h (Memᴰ.tail m) same = absent-Memᴰ id jobs job (ground arith) m same

pub Distinct-UniqueIds : (jobs : List JobRow) → Distinct jobs → UniqueIds jobs
Distinct-UniqueIds [] d a b m m' same = elim m [ ]
Distinct-UniqueIds (j ∷ jobs) d a b (Memᴰ.head e) (Memᴰ.head e') same = e ∙ sym e'
Distinct-UniqueIds (j ∷ jobs) d a b (Memᴰ.head e) (Memᴰ.tail m) same =
    absurd (absent-Memᴰ j.id jobs b d.0 m (sym same ∙ ap (λ x. x.id) e))
Distinct-UniqueIds (j ∷ jobs) d a b (Memᴰ.tail m) (Memᴰ.head e) same =
    absurd (absent-Memᴰ j.id jobs a d.0 m (same ∙ ap (λ x. x.id) e))
Distinct-UniqueIds (j ∷ jobs) d a b (Memᴰ.tail m) (Memᴰ.tail m') same =
    Distinct-UniqueIds jobs d.1 a b m m' same

any-snoc :
    (id : String) (jobs : List JobRow) (job : JobRow)
    → any (has_id id) jobs ≡ false
    → (job.id == id) ≡ false
    → any (has_id id) (jobs ++ job ∷ []) ≡ false
any-snoc id [] job h k = ground arith
any-snoc id (j ∷ jobs) job h k = ground (arith, any-snoc id jobs job)

Distinct-snoc :
    (jobs : List JobRow) (job : JobRow)
    → any (has_id job.id) jobs ≡ false
    → Distinct jobs
    → Distinct (jobs ++ job ∷ [])
Distinct-snoc [] job h d = (refl, tt)
Distinct-snoc (j ∷ jobs) job h d = (
  any-snoc j.id jobs job d.0 (ground (arith, eq_iff j.id job.id, eq_iff job.id j.id)),
  Distinct-snoc jobs job (ground arith) d.1,
)

-- a step on a row keeps its identifier, and what every row satisfies
abbrev pub SameId : JobRow → JobRow → Type 0
SameId a b = b.id ≡ a.id

any-RowWise :
    (id : String) (xs ys : List JobRow)
    → RowWise SameId xs ys
    → any (has_id id) ys ≡ any (has_id id) xs
any-RowWise id xs ys no_rows = refl
any-RowWise id xs ys (row_then a b xs' ys' r rs) = rw (r, any-RowWise id xs' ys' rs)

Distinct-RowWise : (xs ys : List JobRow) → RowWise SameId xs ys → Distinct xs → Distinct ys
Distinct-RowWise xs ys no_rows d = tt
Distinct-RowWise xs ys (row_then a b xs' ys' r rs) d =
    (rw (r, any-RowWise a.id xs' ys' rs) d.0, Distinct-RowWise xs' ys' rs d.1)

module _ {R Q : JobRow → JobRow → Type 0} where
  pub RowWise-map :
      (xs ys : List JobRow) → ((a b : JobRow) → R a b → Q a b) → RowWise R xs ys → RowWise Q xs ys
  RowWise-map xs ys f no_rows = no_rows
  RowWise-map xs ys f (row_then a b xs' ys' r rs) =
      row_then a b xs' ys' (f a b r) (RowWise-map xs' ys' f rs)

module _ (P : JobRow → Type 0) where
  abbrev Keeps : JobRow → JobRow → Type 0
  Keeps a b = P a → P b

  All-RowWise : (xs ys : List JobRow) → RowWise Keeps xs ys → All P xs → All P ys
  All-RowWise xs ys no_rows h = tt
  All-RowWise xs ys (row_then a b xs' ys' r rs) h = (r h.0, All-RowWise xs' ys' rs h.1)

  All-snoc : (xs : List JobRow) (x : JobRow) → All P xs → P x → All P (xs ++ x ∷ [])
  All-snoc [] x h p = (p, tt)
  All-snoc (y ∷ xs) x h p = (h.0, All-snoc xs x h.1 p)

not_finished :
    (now : ℕ) (job : JobRow) → IsFree now job → IsWellFormed job → is_some job.completed_at ≡ false
not_finished now job h w = w.completion ∙ over h.free
  where
    over :
        ((job.status ≡ queued)
          ⊎ ((job.status ≡ running) × ((t : ℕ) × (job.lease_expires_at ≡ some t) × (t < now))))
        → is_finished job.status ≡ false
    over (inl waits) = ap is_finished waits
    over (inr (runs, _)) = ap is_finished runs

module _ (worker : String) (lease_seconds now : ℕ) where
  Claimed-keeps :
      (a b : JobRow) → Claimed worker lease_seconds now a b → IsWellFormed a → IsWellFormed b
  Claimed-keeps a b (left_alone same) w = rw same w
  Claimed-keeps a b (leased free l) w = record {
    owner = rw l.taken;
    expiry = rw l.taken;
    completion = rw l.taken (not_finished now a free w);
  }

  Claimed-id : (a b : JobRow) → Claimed worker lease_seconds now a b → b.id ≡ a.id
  Claimed-id a b (left_alone same) = ap (λ j. j.id) same
  Claimed-id a b (leased free l) = ap (λ j. j.id) l.taken

module _ (worker id : String) (succeeded_flag : Bool) (result : Option Json)
    (error_code : Option String) (now : ℕ) where
  Ending-keeps : (a b : JobRow) → Ending succeeded_flag result error_code now a b → IsWellFormed b
  Ending-keeps a b (completed won e) = record { owner = rw e; expiry = rw e; completion = rw e }
  Ending-keeps a b (given_up lost spent e) = record {
    owner = rw e;
    expiry = rw e;
    completion = rw e;
  }
  Ending-keeps a b (retried lost more seconds few backoff e) = record {
    owner = rw e;
    expiry = rw e;
    completion = rw e;
  }

  Finished-keeps :
      (a b : JobRow)
      → Finished worker id succeeded_flag result error_code now a b
      → IsWellFormed a
      → IsWellFormed b
  Finished-keeps a b (kept same) w = rw same w
  Finished-keeps a b (settled held e) w = Ending-keeps a b e

  Ending-id : (a b : JobRow) → Ending succeeded_flag result error_code now a b → b.id ≡ a.id
  Ending-id a b (completed won e) = ap (λ j. j.id) e
  Ending-id a b (given_up lost spent e) = ap (λ j. j.id) e
  Ending-id a b (retried lost more seconds few backoff e) = ap (λ j. j.id) e

  Finished-id :
      (a b : JobRow) → Finished worker id succeeded_flag result error_code now a b → b.id ≡ a.id
  Finished-id a b (kept same) = ap (λ j. j.id) same
  Finished-id a b (settled held e) = Ending-id a b e

-- the tables that calls can leave, from the empty one; a new identifier is one that is not there
pub data Reached (crypto : Crypto) (key : String) : List JobRow → Type 0 where
  no_job : Reached crypto key []
  after_enqueue :
      (jobs : List JobRow) (clocks : Clocks) (principal : Principal) (kind : JobKind)
      (id connection_id idempotency_key : String)
      → Reached crypto key jobs
      → any (has_id id) jobs ≡ false
      → Reached crypto key
          (jobs ++ new_job crypto key clocks principal kind id connection_id idempotency_key ∷ [])
  after_claim :
      (jobs : List JobRow) (worker : String) (limit lease_seconds now : ℕ)
      → Reached crypto key jobs
      → Reached crypto key (claim_metricops_jobs worker limit lease_seconds now jobs).0
  after_finish :
      (jobs : List JobRow) (worker id : String) (succeeded_flag : Bool) (result : Option Json)
      (error_code : Option String) (now : ℕ)
      → Reached crypto key jobs
      → Reached crypto key
          (finish_metricops_job worker id succeeded_flag result error_code now jobs).0

new_job-id :
    (crypto : Crypto) (key : String) (clocks : Clocks) (principal : Principal) (kind : JobKind)
    (id connection_id idempotency_key : String)
    → (new_job crypto key clocks principal kind id connection_id idempotency_key).id ≡ id
unfolding new_job
new_job-id crypto key clocks principal kind id connection_id idempotency_key = refl

-- Through every sequence of queueing under new identifiers, claiming by any workers at any times
-- and finishing, identifiers stay unique, and every job has an owner and a lease exactly while it
-- runs and a time of completion exactly when it succeeded or failed.
pub Reached-IsWellFormed :
    (crypto : Crypto) (key : String) (jobs : List JobRow)
    → Reached crypto key jobs
    → Distinct jobs × All IsWellFormed jobs
unfolding finish_metricops_job
Reached-IsWellFormed crypto key jobs no_job = (tt, tt)
Reached-IsWellFormed crypto key jobs
      (after_enqueue old clocks principal kind id connection_id idempotency_key h fresh) =
    let (d, w) = Reached-IsWellFormed crypto key old h in
    let job = new_job crypto key clocks principal kind id connection_id idempotency_key in
    (
      Distinct-snoc old job
          (rw (new_job-id crypto key clocks principal kind id connection_id idempotency_key) fresh)
          d,
      All-snoc IsWellFormed old job w
          (new_job-IsWellFormed crypto key clocks principal kind id connection_id idempotency_key),
    )
Reached-IsWellFormed crypto key jobs (after_claim old worker limit lease_seconds now h) =
    let (d, w) = Reached-IsWellFormed crypto key old h in
    let rows =
      claim_metricops_jobs-Claimed worker limit lease_seconds now old (Distinct-UniqueIds old d) in
    (
      Distinct-RowWise old _ (RowWise-map old _ (Claimed-id worker lease_seconds now) rows) d,
      All-RowWise IsWellFormed old _
          (RowWise-map old _ (Claimed-keeps worker lease_seconds now) rows) w,
    )
Reached-IsWellFormed crypto key jobs
      (after_finish old worker id succeeded_flag result error_code now h) =
    let (d, w) = Reached-IsWellFormed crypto key old h in
    let rows = settle_held-Finished worker id result error_code now succeeded_flag old in
    (
      Distinct-RowWise old _
          (RowWise-map old _ (Finished-id worker id succeeded_flag result error_code now) rows) d,
      All-RowWise IsWellFormed old _
          (RowWise-map old _ (Finished-keeps worker id succeeded_flag result error_code now) rows)
          w,
    )
