-- ===== src/Operations.antt =====
-- operations/verify-audit.ts: the verification of the whole audit log from the command line, page
-- by page, against the anchors that an earlier run has printed.
pub mod Pages
pub mod Anchors
pub mod Rounds
pub mod Whole
mod Tests
use metricops_backend.Common.{
  ℕ, zero, suc, ◌+◌, ◌<◌, String, ◌≡◌, Bool, true, false, ◌&&◌, ◌||◌, not, List, [], ◌∷◌, Option,
  none, some, ltb, leb, ◌==◌, string_eq, nat_eq, if◌then◌else◌, length, take, filter, all,
}
use metricops_backend.Common.Order.{order_by}
use metricops_backend.Common.Patterns.{is_digit, between}
use metricops_backend.Common.{codes}
use metricops_backend.Json.{Json}
use metricops_backend.Domain.Errors.{plain_error}
use metricops_backend.Effects.{Result, ok, thrown, bind_result}
use metricops_backend.Database.Tables.{AuditRow}
use metricops_backend.Database.Transaction.{Crypto}
use metricops_backend.Audit.{AuditAnchor, verify_audit_events}

-- `Map<string, string>` from a position, which is a customer and a sequence, to a chain hash
abbrev pub Expected : Type 0
Expected = List AuditAnchor

abbrev pub stands_at : String → ℕ → AuditAnchor → Bool
stands_at customer sequence anchor = anchor.customer_id == customer && anchor.sequence == sequence

unfoldable pub expected_hash : Expected → String → ℕ → Option String
expected_hash [] customer sequence = none
expected_hash (anchor ∷ rest) customer sequence =
    if stands_at customer sequence anchor
    then some anchor.chain_hash
    else expected_hash rest customer sequence

-- `delete` of a position
unfoldable pub without : Expected → String → ℕ → Expected
without [] customer sequence = []
without (anchor ∷ rest) customer sequence =
    let left = without rest customer sequence in
    if stands_at customer sequence anchor then left else anchor ∷ left

-- `new Map(…)`: a later anchor of one position takes the place of an earlier one
unfoldable pub set_expected : Expected → AuditAnchor → Expected
set_expected [] anchor = anchor ∷ []
set_expected (old ∷ rest) anchor =
    if stands_at anchor.customer_id anchor.sequence old
    then anchor ∷ rest
    else old ∷ set_expected rest anchor

unfoldable pub expected_by_position : List AuditAnchor → Expected → Expected
expected_by_position [] expected = expected
expected_by_position (anchor ∷ rest) expected =
    expected_by_position rest (set_expected expected anchor)

abbrev pub anchor_mismatch : {A : Type 0} → Result A
anchor_mismatch =
    thrown (plain_error "Expected audit anchor does not match; possible audit tampering")

abbrev pub anchor_missing : {A : Type 0} → Result A
anchor_missing =
    thrown (plain_error "Expected audit anchor was not found; possible audit truncation")

-- one round of the loop over the events of a page
abbrev pub compare_expected : Option String → Expected → AuditRow → Result Expected
compare_expected none expected e = ok expected
compare_expected (some hash) expected e =
    if hash == e.chain_hash then ok (without expected e.customer_id e.sequence) else anchor_mismatch

unfoldable pub check_expected : Expected → List AuditRow → Result Expected
check_expected expected [] = ok expected
check_expected expected (e ∷ rest) =
    bind_result (compare_expected (expected_hash expected e.customer_id e.sequence) expected e)
      (λ left. check_expected left rest)

abbrev pub last_sequence : ℕ → List AuditRow → ℕ
last_sequence before [] = before
last_sequence before (e ∷ rest) = last_sequence e.sequence rest

abbrev pub by_sequence : AuditRow → AuditRow → Bool
by_sequence e f = ltb e.sequence f.sequence

abbrev pub is_after : ℕ → AuditRow → Bool
is_after sequence e = ltb sequence e.sequence

-- WHERE sequence > $1 ORDER BY sequence LIMIT page_size
unfoldable pub audit_page : ℕ → List AuditRow → ℕ → List AuditRow
audit_page page_size rows after_sequence =
    take page_size (order_by by_sequence (filter (is_after after_sequence) rows))

pub record Progress : Type 0 where
  pub anchors : List AuditAnchor
  pub after_sequence : ℕ
  pub event_count : ℕ
  pub expected : Expected

-- what is printed at the end, without the time
pub record Report : Type 0 where
  pub event_count : ℕ
  pub anchors : List AuditAnchor

abbrev pub report_of : Progress → Result Report
report_of progress = elim progress.expected [
  | [] ↦ ok (record { event_count = progress.event_count; anchors = progress.anchors })
  | anchor ∷ rest ↦ anchor_missing
]

module _ (crypto : Crypto) (precedes : String → String → Bool) (hmac_key : String) where
  unfoldable pub verify_page : Progress → List AuditRow → Result Progress
  verify_page progress events = bind_result (check_expected progress.expected events) (λ expected.
      bind_result (verify_audit_events crypto precedes events hmac_key progress.anchors) (λ anchors.
        ok (record {
          anchors = anchors;
          after_sequence = last_sequence progress.after_sequence events;
          event_count = progress.event_count + length events;
          expected = expected;
        })))

  module _ (page_size : ℕ) (rows : List AuditRow) where
    -- the body of `while (true)` on the page that was read; `again` is its next round
    abbrev pub on_page :
        List AuditRow → Progress → (Progress → Option (Result Report)) → Option (Result Report)
    on_page [] progress again = some (report_of progress)
    on_page (e ∷ rest) progress again = elim (verify_page progress (e ∷ rest)) [
      | ok progress' ↦ again progress'
      | thrown t ↦ some (thrown t)
    ]

    -- `none` when the rounds that were given are spent
    unfoldable pub verify_pages : ℕ → Progress → Option (Result Report)
    verify_pages zero progress = none
    verify_pages (suc rounds) progress =
        on_page (audit_page page_size rows progress.after_sequence) progress (verify_pages rounds)

    unfoldable pub verify_audit_log : ℕ → List AuditAnchor → Option (Result Report)
    verify_audit_log rounds expected = verify_pages rounds (record {
      anchors = [];
      after_sequence = 0;
      event_count = 0;
      expected = expected_by_position expected [];
    })

-- `LIMIT 10000`
abbrev pub page_limit : ℕ
page_limit = 10000
