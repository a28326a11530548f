-- ===== src/Worker/Maintenance.antt =====
-- operations/maintenance.ts, with the two functions of migrations/007 and 009 that it calls.
use metricops_backend.Common.{
  ℕ, ◌+◌, ◌*◌, ◌≤◌, String, ◌≡◌, refl, Bool, true, false, not, ◌&&◌, List, [], ◌∷◌, map, Option,
  none, some, ltb, filter, length, any, ◌==◌, string_eq, if◌then◌else◌, arith, codes, Bool-cases,
  inl, inr,
}
use metricops_backend.Domain.Principal.{Principal}
use metricops_backend.Database.Tables.{
  Db, WebhookReceiptRow, IdempotencyRow, RevokedSessionRow, JobRow, JobStatus, queued, running,
  succeeded, failed, cancelled, ResourceRow,
}
use metricops_backend.Database.Transaction.{Crypto, Clocks, Pool}
use metricops_backend.Audit.Chain.{IsSound}
use metricops_backend.Security.Sessions.{is_revoked, assert_active, token_hash}

-- received_at < clock_timestamp() - interval '24 hours'
abbrev pub old_receipt : ℕ → WebhookReceiptRow → Bool
old_receipt now row = ltb (row.received_at + 24 * 3600000) now

abbrev pub expired_record : ℕ → IdempotencyRow → Bool
expired_record now row = ltb row.expires_at now

abbrev pub expired_session : ℕ → RevokedSessionRow → Bool
expired_session now row = ltb row.expires_at now

abbrev is_ended : JobStatus → Bool
is_ended succeeded = true
is_ended failed = true
is_ended cancelled = true
is_ended queued = false
is_ended running = false

abbrev before : ℕ → Option ℕ → Bool
before now none = false
before now (some t) = ltb (t + 30 * 86400000) now

abbrev pub old_job : ℕ → JobRow → Bool
old_job now row = is_ended row.status && before now row.completed_at

abbrev is_deleted : ℕ → List JobRow → Option String → Bool
is_deleted now jobs none = false
is_deleted now jobs (some id) = any (λ job. job.id == id && old_job now job) jobs

-- ON DELETE SET NULL
abbrev unlink : ℕ → List JobRow → ResourceRow → ResourceRow
unlink now jobs row =
    if is_deleted now jobs row.last_discovery_job_id
    then record row { last_discovery_job_id = none }
    else row

pub record MaintenanceResult : Type 0 where
  pub webhook_receipts : ℕ
  pub idempotency_records : ℕ
  pub revoked_sessions : ℕ
  pub jobs : ℕ

unfoldable pub pruned : ℕ → Db → Db
pruned now db = record db {
  webhook_receipts = filter (λ row. not (old_receipt now row)) db.webhook_receipts;
  idempotency_records = filter (λ row. not (expired_record now row)) db.idempotency_records;
  revoked_sessions = filter (λ row. not (expired_session now row)) db.revoked_sessions;
  jobs = filter (λ row. not (old_job now row)) db.jobs;
  resources = map (unlink now db.jobs) db.resources;
}

-- one statement; `now` is `clock_timestamp()`
unfoldable pub run_maintenance : ℕ → Pool → MaintenanceResult × Pool
run_maintenance now pool = (
  record {
    webhook_receipts = length (filter (old_receipt now) pool.db.webhook_receipts);
    idempotency_records = length (filter (expired_record now) pool.db.idempotency_records);
    revoked_sessions = length (filter (expired_session now) pool.db.revoked_sessions);
    jobs = length (filter (old_job now) pool.db.jobs);
  },
  record pool { server = record pool.server { db = pruned now pool.db } },
)

any-filter :
    (hash customer_id : String) (now now' : ℕ) (rows : List RevokedSessionRow)
    → now ≤ now'
    → any (is_revoked hash customer_id now') (filter (λ row. not (expired_session now row)) rows)
      ≡ any (is_revoked hash customer_id now') rows
any-filter hash customer_id now now' [] h = refl
any-filter hash customer_id now now' (row ∷ rows) h =
    ground (arith, any-filter hash customer_id now now' rows h)

-- Maintenance lets no ended session live again: at any time from then on, a session is refused
-- exactly when it would have been refused without the maintenance.
pub run_maintenance-assert_active :
    (crypto : Crypto) (hmac_key : String) (first_16 : String → String) (clocks : Clocks) (now : ℕ)
    (principal : Principal) (pool : Pool)
    → now ≤ clocks.transaction_now
    → (assert_active crypto hmac_key first_16 clocks principal (run_maintenance now pool).1).0
      ≡ (assert_active crypto hmac_key first_16 clocks principal pool).0
unfolding run_maintenance pruned assert_active token_hash
run_maintenance-assert_active crypto hmac_key first_16 clocks now principal pool h =
    let live =
      is_revoked (crypto.sha256 (codes principal.token_id)) principal.customer_id
        clocks.transaction_now in
    let same =
      any-filter (crypto.sha256 (codes principal.token_id)) principal.customer_id now
        clocks.transaction_now pool.db.revoked_sessions h in
    elim (Bool-cases (any live pool.db.revoked_sessions)) [
      | inl over ↦ rw (same, over)
      | inr fine ↦ rw (same, fine)
    ]

-- The audit log is not pruned.
pub run_maintenance-IsSound :
    (crypto : Crypto) (hmac_key : String) (now : ℕ) (pool : Pool)
    → IsSound crypto hmac_key pool.server
    → IsSound crypto hmac_key (run_maintenance now pool).1.server
unfolding run_maintenance pruned
run_maintenance-IsSound crypto hmac_key now pool s = record {
  rising = s.rising;
  standing = s.standing;
}
