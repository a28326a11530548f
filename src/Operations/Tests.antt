-- ===== src/Operations/Tests.antt =====
-- A log of two events, verified in pages of one.
use mathlib.Core.List.{Memᴰ}
use metricops_backend.Common.{
  ℕ, ◌<◌, ◌≡◌, ◌↔◌, String, refl, List, [], ◌∷◌, Option, none, some, arith, true, length, string_eq,
  nat_eq, Bool,
}
use metricops_backend.Json.{obj, end}
use metricops_backend.Json.Printer.{canonical_json}
use metricops_backend.Effects.{Result, ok}
use metricops_backend.Database.Tables.{empty_db, AuditRow}
use metricops_backend.Database.Transaction.{Client}
use metricops_backend.Database.Sample.{toy_crypto, noon, server_with}
use metricops_backend.Audit.{
  AuditInput, AuditAnchor, Heads, get, set, map_of, sort_anchors, append, sealed, newest, digest,
  event_body, verify_event, verify_from, anchor_of, verify_audit_events, insert_anchor,
}
use metricops_backend.Audit.Chain.{Rising}
use metricops_backend.Operations.{
  expected_by_position, expected_hash, set_expected, without, check_expected, audit_page,
  verify_page, verify_pages, verify_audit_log, Report, anchor_missing,
}
use metricops_backend.Operations.Whole.{
  verify_audit_log-ends, verify_audit_log_iff, verify_audit_log-Report, verify_audit_log-Records,
}

run : Unit {0}
unfolding append sealed newest digest event_body get set map_of sort_anchors insert_anchor
    verify_event verify_from canonical_json toy_crypto expected_by_position expected_hash
    set_expected without check_expected audit_page verify_page verify_pages verify_audit_log
    verify_audit_events
run = tt

abbrev signed_out : AuditInput
signed_out = record {
  customer_id = "acme";
  actor_id = "ann";
  action = "session.revoked";
  resource_type = "session";
  resource_id = "s1";
  request_id = "r1";
  occurred_at = none;
  details = some (obj end);
}

abbrev first_client : Client
first_client =
    (append toy_crypto "k" noon signed_out
      (record { server = server_with empty_db; settings = none })).1

abbrev log_rows : List AuditRow
log_rows = (append toy_crypto "k" noon signed_out first_client).1.db.audit_events

abbrev anchors_of : List AuditRow → List AuditAnchor
anchors_of [] = []
anchors_of (e ∷ rest) = anchor_of e ∷ anchors_of rest

abbrev wanted : List AuditAnchor
wanted = anchors_of first_client.db.audit_events

abbrev before : String → String → Bool
before a b = true

abbrev report_in : Option (Result Report) → ℕ
report_in (some (ok report)) = report.event_count
report_in _ = 99

abbrev two_events : ℕ
two_events = report_in (verify_audit_log toy_crypto before "k" 1 log_rows 3 wanted)

two_events_counted : two_events ≡ 2
unfolding run
two_events_counted = refl

-- the log that lost its first event, and with it an anchor that is expected
abbrev later_rows : List AuditRow → List AuditRow
later_rows [] = []
later_rows (e ∷ rest) = rest

truncated : verify_audit_log toy_crypto before "k" 1 [] 3 wanted ≡ some anchor_missing
unfolding run
truncated = refl

log_rows-Rising : Rising 0 log_rows 2
unfolding append sealed
log_rows-Rising = (omega arith, (omega arith, omega arith))

short : length log_rows < 3
unfolding append
short = omega arith

abbrev heads_in : Result Heads → Heads
heads_in (ok heads) = heads
heads_in _ = []

abbrev whole_heads : Heads
whole_heads = heads_in (verify_from toy_crypto "k" [] log_rows)

whole_verified : verify_from toy_crypto "k" [] log_rows ≡ ok whole_heads
unfolding run
whole_verified = refl

whole_checked : check_expected (expected_by_position wanted []) log_rows ≡ ok []
unfolding run
whole_checked = refl

verify_audit_log-ends_example :
    (r : Result Report) × (verify_audit_log toy_crypto before "k" 1 log_rows 3 wanted ≡ some r)
verify_audit_log-ends_example =
    verify_audit_log-ends toy_crypto before "k" 0 log_rows 2 log_rows-Rising 3 short wanted

verify_audit_log_iff_example :
    ((report : Report) × (verify_audit_log toy_crypto before "k" 1 log_rows 3 wanted
        ≡ some (ok report)))
    ↔ ((heads : Heads) × (verify_from toy_crypto "k" [] log_rows ≡ ok heads)
        × (check_expected (expected_by_position wanted []) log_rows ≡ ok []))
verify_audit_log_iff_example =
    verify_audit_log_iff toy_crypto before "k" 0 log_rows 2 log_rows-Rising 3 short wanted

verify_audit_log-Report_example :
    (report : Report) × (verify_audit_log toy_crypto before "k" 1 log_rows 3 wanted
      ≡ some (ok report))
    × (report.event_count ≡ length log_rows)
    × ((customer : String) → get whole_heads customer ≡ get (map_of report.anchors []) customer)
verify_audit_log-Report_example =
    verify_audit_log-Report toy_crypto before "k" 0 log_rows 2 log_rows-Rising 3 short wanted
      whole_heads whole_verified whole_checked

abbrev printed : Option (Result Report) → Report
printed (some (ok report)) = report
printed _ = record { event_count = 0; anchors = [] }

abbrev final : Report
final = printed (verify_audit_log toy_crypto before "k" 1 log_rows 3 wanted)

final_printed : verify_audit_log toy_crypto before "k" 1 log_rows 3 wanted ≡ some (ok final)
unfolding run
final_printed = refl

abbrev wanted_first : List AuditRow → AuditAnchor
wanted_first [] = record { customer_id = ""; sequence = 0; chain_hash = "" }
wanted_first (e ∷ rest) = anchor_of e

wanted_one : wanted ≡ wanted_first log_rows ∷ []
unfolding append
wanted_one = refl

verify_audit_log-Records_example :
    (e : AuditRow) × Memᴰ e log_rows
    × (e.customer_id ≡ (wanted_first log_rows).customer_id)
    × (e.sequence ≡ (wanted_first log_rows).sequence)
    × (e.chain_hash ≡ (wanted_first log_rows).chain_hash)
verify_audit_log-Records_example =
    verify_audit_log-Records toy_crypto before "k" 0 log_rows 2 log_rows-Rising 3 short wanted final
      (wanted_first log_rows) [] [] final_printed wanted_one refl
