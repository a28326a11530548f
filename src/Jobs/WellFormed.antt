-- ===== src/Jobs/WellFormed.antt =====
-- What every row of the table jobs satisfies, through every call on it.
use metricops_backend.Common.{
  ℕ, String, ◌≡◌, refl, Bool, true, false, Option, none, some, leb, Bool-cases, inl, inr,
}
use metricops_backend.Json.{Json}
use metricops_backend.Domain.Principal.{Principal}
use metricops_backend.Database.Tables.{JobRow, JobKind, JobStatus, succeeded, failed}
use metricops_backend.Database.Transaction.{Crypto, Clocks}
use metricops_backend.Jobs.Queue.{is_running, lease, settle}
use metricops_backend.Jobs.{new_job}

abbrev pub is_some : {A : Type 0} → Option A → Bool
is_some none = false
is_some (some a) = true

abbrev pub is_finished : JobStatus → Bool
is_finished succeeded = true
is_finished failed = true
is_finished _ = false

-- A row has an owner and a lease exactly while it is running, and a time of completion exactly
-- when it succeeded or failed.
pub record IsWellFormed (job : JobRow) : Type 0 where
  pub owner : is_some job.lease_owner ≡ is_running job.status
  pub expiry : is_some job.lease_expires_at ≡ is_running job.status
  pub completion : is_some job.completed_at ≡ is_finished job.status

pub new_job-IsWellFormed :
    (crypto : Crypto) (key : String) (clocks : Clocks) (principal : Principal) (kind : JobKind)
    (id connection_id idempotency_key : String)
    → IsWellFormed (new_job crypto key clocks principal kind id connection_id idempotency_key)
unfolding new_job
new_job-IsWellFormed crypto key clocks principal kind id connection_id idempotency_key = record {
  owner = refl;
  expiry = refl;
  completion = refl;
}

module _ (worker : String) (now : ℕ) where
  pub lease-IsWellFormed :
      (lease_seconds : ℕ) (job : JobRow)
      → is_some job.completed_at ≡ false
      → IsWellFormed (lease worker lease_seconds now job)
  unfolding lease
  lease-IsWellFormed lease_seconds job h = record { owner = refl; expiry = refl; completion = h }

  pub settle-IsWellFormed :
      (succeeded_flag : Bool) (result : Option Json) (error_code : Option String) (job : JobRow)
      → IsWellFormed (settle succeeded_flag result error_code now job)
  unfolding settle
  settle-IsWellFormed true result error_code job = record {
    owner = refl;
    expiry = refl;
    completion = refl;
  }
  settle-IsWellFormed false result error_code job =
      elim (Bool-cases (leb job.max_attempts job.attempts)) [
        | inl h ↦ rw h record { owner = refl; expiry = refl; completion = refl }
        | inr h ↦ rw h record { owner = refl; expiry = refl; completion = refl }
      ]
