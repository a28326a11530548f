-- ===== src/Jobs/Queue.antt =====
-- The two functions of migrations/002_durable_jobs.sql by which workers take jobs and give them
-- back, over the rows of the table jobs; `now` is `clock_timestamp()`.
use Prim.Native.Nat.{min, max}
use metricops_backend.Common.{
  ℕ, ◌+◌, ◌-◌, ◌*◌, ◌^◌, String, Bool, true, false, ◌&&◌, ◌||◌, List, [], ◌∷◌, Option, none, some,
  any, filter, take, ltb, leb, ◌==◌, nat_eq, string_eq, if◌then◌else◌,
}
use metricops_backend.Json.{Json}
use metricops_backend.Json.Printer.{key_lt}
use metricops_backend.Database.Tables.{
  JobRow, JobKind, connection_validate, aws_discover, JobStatus, queued, running, succeeded, failed,
}

abbrev pub same_kind : JobKind → JobKind → Bool
same_kind connection_validate connection_validate = true
same_kind aws_discover aws_discover = true
same_kind _ _ = false

abbrev pub is_running : JobStatus → Bool
is_running running = true
is_running _ = false

abbrev pub is_queued : JobStatus → Bool
is_queued queued = true
is_queued _ = false

-- `lease_expires_at < now`, which a null does not satisfy
abbrev pub has_expired : ℕ → Option ℕ → Bool
has_expired now none = false
has_expired now (some t) = ltb t now

unfoldable pub claimable : ℕ → JobRow → Bool
claimable now job =
    leb job.available_at now
    && (is_queued job.status || (is_running job.status && has_expired now job.lease_expires_at))

-- ORDER BY available_at, created_at, id
unfoldable pub comes_first : JobRow → JobRow → Bool
comes_first a b =
    ltb a.available_at b.available_at
    || (a.available_at == b.available_at
        && (ltb a.created_at b.created_at || (a.created_at == b.created_at && key_lt a.id b.id)))

unfoldable pub insert_job_by_age : JobRow → List JobRow → List JobRow
insert_job_by_age job [] = job ∷ []
insert_job_by_age job (other ∷ rest) =
    if comes_first other job then other ∷ insert_job_by_age job rest else job ∷ other ∷ rest

unfoldable pub order_by_age : List JobRow → List JobRow
order_by_age [] = []
order_by_age (job ∷ rest) = insert_job_by_age job (order_by_age rest)

-- LEAST(GREATEST(p_limit, 1), 20)
abbrev pub claim_limit : ℕ → ℕ
claim_limit limit = min (max limit 1) 20

unfoldable pub candidates : ℕ → ℕ → List JobRow → List JobRow
candidates limit now jobs = take (claim_limit limit) (order_by_age (filter (claimable now) jobs))

abbrev pub has_id : String → JobRow → Bool
has_id id job = job.id == id

unfoldable pub lease : String → ℕ → ℕ → JobRow → JobRow
lease worker lease_seconds now job = record job {
  status = running;
  attempts = job.attempts + 1;
  lease_owner = some worker;
  lease_expires_at = some (now + min (max lease_seconds 5) 300 * 1000);
  updated_at = now;
}

-- UPDATE … FROM candidates WHERE job.id = candidates.id, and the rows that it returns
unfoldable pub lease_all : String → ℕ → ℕ → List JobRow → List JobRow → List JobRow
lease_all worker lease_seconds now chosen [] = []
lease_all worker lease_seconds now chosen (job ∷ rest) =
    (if any (has_id job.id) chosen then lease worker lease_seconds now job else job)
    ∷ lease_all worker lease_seconds now chosen rest

unfoldable pub claim_metricops_jobs : String → ℕ → ℕ → ℕ → List JobRow → List JobRow × List JobRow
claim_metricops_jobs worker limit lease_seconds now jobs =
    let chosen = candidates limit now jobs in
    (
      lease_all worker lease_seconds now chosen jobs,
      lease_all worker lease_seconds now chosen (filter (λ job. any (has_id job.id) chosen) jobs),
    )

abbrev pub owned_by : String → Option String → Bool
owned_by worker none = false
owned_by worker (some owner) = owner == worker

unfoldable pub is_held : String → String → JobRow → Bool
is_held worker id job = job.id == id && is_running job.status && owned_by worker job.lease_owner

-- LEAST(300, 2 ^ attempts) seconds
abbrev pub backoff_ms : ℕ → ℕ
backoff_ms attempts = min 300 (2 ^ attempts) * 1000

-- `left(…, n)`, which counts characters
abbrev pub left : ℕ → String → String
left n String.[] = ""
left n (String.◌∷◌ c text) =
    let rest = left (n - 1) text in if n == 0 then "" else String.◌∷◌ c rest

-- `left(coalesce(p_error_code, 'JOB_FAILED'), 100)`
abbrev pub stored_error : Option String → String
stored_error none = "JOB_FAILED"
stored_error (some code) = left 100 code

unfoldable pub settle : Bool → Option Json → Option String → ℕ → JobRow → JobRow
settle succeeded_flag result error_code now job =
    let exhausted = leb job.max_attempts job.attempts in
    record job {
      status = if succeeded_flag then succeeded else if exhausted then failed else queued;
      result = if succeeded_flag then result else none;
      error_code = if succeeded_flag then none else some (stored_error error_code);
      available_at =
          if succeeded_flag || exhausted then job.available_at else now + backoff_ms job.attempts;
      lease_owner = none;
      lease_expires_at = none;
      completed_at = if succeeded_flag || exhausted then some now else none;
      updated_at = now;
    }

-- UPDATE … WHERE id = p_job AND status = 'running' AND lease_owner = p_worker
unfoldable pub settle_held : String → String → (JobRow → JobRow) → List JobRow → List JobRow
settle_held worker id f [] = []
settle_held worker id f (job ∷ rest) =
    (if is_held worker id job then f job else job) ∷ settle_held worker id f rest

unfoldable pub finish_metricops_job :
    String → String → Bool → Option Json → Option String → ℕ → List JobRow → List JobRow × Bool
finish_metricops_job worker id succeeded_flag result error_code now jobs = (
  settle_held worker id (settle succeeded_flag result error_code now) jobs,
  any (is_held worker id) jobs,
)
