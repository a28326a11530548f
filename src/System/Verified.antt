-- ===== src/System/Verified.antt =====
-- A running system and the operator's verification of its audit log.
use metricops_backend.Common.{
  ◌⊎◌, inl, inr, ℕ, suc, ◌<◌, String, ◌≡◌, refl, Bool, List, [], ◌∷◌, some, length, arith,
}
use metricops_backend.Effects.{ok}
use metricops_backend.Database.Tables.{AuditRow}
use metricops_backend.Audit.{verify_from}
use metricops_backend.Audit.Chain.{Misspelled}
use metricops_backend.Alerts.Ingest.{WebhookRuntime}
use metricops_backend.Worker.{WorkerRuntime}
use metricops_backend.Http.Routes.{Schemas}
use metricops_backend.Operations.{
  check_expected, expected_hash, expected_by_position, Report, verify_audit_log,
}
use metricops_backend.Operations.Whole.{verify_audit_log-Report}
use metricops_backend.System.{App, ServerRuntime}
use metricops_backend.System.Kept.{Sound}
use metricops_backend.System.Steps.{Steps, Steps-Sound}

check_expected-none : (rows : List AuditRow) → check_expected [] rows ≡ ok []
unfolding check_expected expected_hash
check_expected-none [] = refl
check_expected-none (e ∷ rows) = check_expected-none rows

no_events-Sound :
    (runtime : ServerRuntime) (app : App) → app.pool.db.audit_events ≡ [] → Sound runtime app
unfolding verify_from
no_events-Sound runtime app empty = record {
  rising = rw empty (omega arith);
  standing = inl ([], rw empty);
}

module _ (runtime : ServerRuntime) (origins : List String) (schemas : Schemas)
    (webhooks : WebhookRuntime) (workers : WorkerRuntime) (start finish : App) where
  -- Whatever requests, webhook deliveries, claims, jobs and maintenance a system goes through from
  -- an empty audit log on, in whatever order and however they interleave and fail: the operator's
  -- verification of the log, in pages of any positive size and in more rounds than there are
  -- events, ends and accepts, and its report counts every event; or else an event of the log
  -- carries the digest of itself under another spelling of its customer or request, one that
  -- PostgreSQL gives back as the spelling in the log.
  pub running-verifies :
      (precedes : String → String → Bool) (n rounds : ℕ)
      → start.pool.db.audit_events ≡ []
      → Steps runtime origins schemas webhooks workers start finish
      → length finish.pool.db.audit_events < rounds
      → ((report : Report) × (verify_audit_log runtime.crypto precedes runtime.hmac_key
              (suc n)
              finish.pool.db.audit_events
              rounds
              []
            ≡ some (ok report))
          × (report.event_count ≡ length finish.pool.db.audit_events))
        ⊎ Misspelled runtime.crypto runtime.hmac_key finish.pool.db.audit_events
  unfolding expected_by_position
  running-verifies precedes n rounds empty steps enough =
      let s =
        Steps-Sound runtime origins schemas webhooks workers start finish steps
          (no_events-Sound runtime start empty) in
      elim s.standing [
        | inr m ↦ inr m
        | inl (heads, verified) ↦
            let (report, accepted, counted, _) =
              verify_audit_log-Report runtime.crypto precedes runtime.hmac_key n
                finish.pool.db.audit_events finish.pool.audit_sequence s.rising rounds enough []
                heads verified (check_expected-none finish.pool.db.audit_events) in
            inl (report, accepted, counted)
      ]
