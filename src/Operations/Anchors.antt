-- ===== src/Operations/Anchors.antt =====
-- The anchors that a run expects: which of them a list of events matches.
use mathlib.Core.List.{Memᴰ}
use metricops_backend.Common.{
  if◌then◌else◌, ℕ, String, ◌≡◌, refl, sym, ap, ◌∙◌, true, false, ◌&&◌, inl, inr, List, [], ◌∷◌,
  ◌++◌, Option, none, some, arith, ◌==◌, string_eq, nat_eq, eq_iff, Bool-cases, any,
}
use metricops_backend.Effects.{ok, Result-cases, ok-injective, bind_result}
use metricops_backend.Database.Tables.{AuditRow}
use metricops_backend.Audit.{AuditAnchor}
use metricops_backend.Operations.{
  Expected, stands_at, expected_hash, set_expected, expected_by_position, without, compare_expected,
  check_expected,
}

pub check_expected-append :
    (expected : Expected) (es fs : List AuditRow)
    → check_expected expected (es ++ fs)
      ≡ bind_result (check_expected expected es) (λ x. check_expected x fs)
unfolding check_expected
check_expected-append expected [] fs = refl
check_expected-append expected (e ∷ es) fs =
    elim (Result-cases
      (compare_expected (expected_hash expected e.customer_id e.sequence) expected e)) [
        | inl (left, done) ↦ rw done (check_expected-append left es fs)
        | inr (t, failed) ↦ rw failed
      ]

-- Some event of the list stands at the position and has the chain hash.
abbrev pub Records : List AuditRow → String → ℕ → String → Type 0
Records rows customer sequence hash =
    any (λ e. e.customer_id == customer && e.sequence == sequence && e.chain_hash == hash) rows
    ≡ true

expected_hash-without :
    (expected : Expected) (c c' : String) (s s' : ℕ)
    → (c == c' && s == s') ≡ false
    → expected_hash (without expected c s) c' s' ≡ expected_hash expected c' s'
unfolding expected_hash without
expected_hash-without [] c c' s s' h = refl
expected_hash-without (a ∷ expected) c c' s s' h = ground (
  arith,
  expected_hash-without expected c c' s s' h,
  eq_iff a.customer_id c,
  eq_iff a.customer_id c',
  eq_iff c c',
)

check_expected-Records-here :
    (expected left : Expected) (e : AuditRow) (rest : List AuditRow) (hash : String)
    → expected_hash expected e.customer_id e.sequence ≡ some hash
    → check_expected expected (e ∷ rest) ≡ ok left
    → e.chain_hash ≡ hash
unfolding check_expected
check_expected-Records-here expected left e rest hash h done =
    elim (Bool-cases (hash == e.chain_hash)) [
      | inl same ↦ sym ((eq_iff hash e.chain_hash).0 same)
      | inr other ↦ absurd (cc (rw (h, other) at done))
    ]

-- When every expected position is crossed out, the list records each of them.
pub check_expected-Records :
    (expected : Expected) (es : List AuditRow) (c : String) (s : ℕ) (hash : String)
    → check_expected expected es ≡ ok []
    → expected_hash expected c s ≡ some hash
    → Records es c s hash
unfolding check_expected expected_hash
check_expected-Records expected [] c s hash done h =
    absurd (cc (rw (ok-injective expected [] done) at h))
check_expected-Records expected (e ∷ es) c s hash done h =
    elim (Bool-cases (e.customer_id == c && e.sequence == s)) [
      | inl here ↦
          let at_c : e.customer_id ≡ c = ground (arith, eq_iff e.customer_id c) in
          let at_s : e.sequence ≡ s = ground arith in
          let found : expected_hash expected e.customer_id e.sequence ≡ some hash =
            rw (at_c, at_s) h in
          let same = check_expected-Records-here expected [] e es hash found done in
          ground (arith, eq_iff e.chain_hash hash)
      | inr there ↦
          elim (Result-cases
            (compare_expected (expected_hash expected e.customer_id e.sequence) expected e)) [
              | inr (t, failed) ↦ absurd (cc (rw failed at done))
              | inl (left, compared) ↦
                  let ih = check_expected-Records left es c s hash (rw compared at done) (
                    kept left (expected_hash expected e.customer_id e.sequence) there compared
                    ∙ h) in
                  ground arith
            ]
    ]
  where
    kept :
        (left : Expected) (o : Option String)
        → (e.customer_id == c && e.sequence == s) ≡ false
        → compare_expected o expected e ≡ ok left
        → expected_hash left c s ≡ expected_hash expected c s
    kept left none there compared =
        ap (λ x. expected_hash x c s) (sym (ok-injective expected left compared))
    kept left (some h') there compared = elim (Bool-cases (h' == e.chain_hash)) [
      | inr other ↦ absurd (cc (rw other at compared))
      | inl same ↦
          ap (λ x. expected_hash x c s)
            (sym
              (ok-injective (without expected e.customer_id e.sequence) left (rw same at compared)))
          ∙ expected_hash-without expected e.customer_id c e.sequence s there
    ]

-- the event that a list records at a position
pub Records-event :
    (rows : List AuditRow) (c : String) (s : ℕ) (hash : String)
    → Records rows c s hash
    → (e : AuditRow) × Memᴰ e rows × (e.customer_id ≡ c) × (e.sequence ≡ s) × (e.chain_hash ≡ hash)
Records-event [] c s hash h = absurd (cc h)
Records-event (e ∷ rows) c s hash h =
    elim (Bool-cases (e.customer_id == c && e.sequence == s && e.chain_hash == hash)) [
      | inl here ↦ (
        e,
        Memᴰ.head refl,
        ground (arith, eq_iff e.customer_id c),
        ground arith,
        ground (arith, eq_iff e.chain_hash hash),
      )
      | inr there ↦
          let (f, m, c', s', h') = Records-event rows c s hash (ground arith) in
          (f, Memᴰ.tail m, c', s', h')
    ]

expected_hash-set_expected :
    (expected : Expected) (a : AuditAnchor) (c : String) (s : ℕ)
    → expected_hash (set_expected expected a) c s
      ≡ (if stands_at c s a then some a.chain_hash else expected_hash expected c s)
unfolding expected_hash set_expected
expected_hash-set_expected [] a c s = refl
expected_hash-set_expected (b ∷ expected) a c s = ground (
  arith,
  expected_hash-set_expected expected a c s,
  eq_iff b.customer_id a.customer_id,
  eq_iff b.customer_id c,
  eq_iff a.customer_id c,
)

-- anchors at other positions leave what is expected at this one
expected_by_position-others :
    (anchors : List AuditAnchor) (expected : Expected) (c : String) (s : ℕ)
    → any (stands_at c s) anchors ≡ false
    → expected_hash (expected_by_position anchors expected) c s ≡ expected_hash expected c s
unfolding expected_by_position
expected_by_position-others [] expected c s h = refl
expected_by_position-others (a ∷ anchors) expected c s h =
    let other : stands_at c s a ≡ false = ground arith in
    expected_by_position-others anchors (set_expected expected a) c s (ground arith)
    ∙ expected_hash-set_expected expected a c s
    ∙ rw other

-- the last anchor of a position is what is expected there
pub expected_by_position-last :
    (a : AuditAnchor) (before after : List AuditAnchor) (expected : Expected)
    → any (stands_at a.customer_id a.sequence) after ≡ false
    → expected_hash (expected_by_position (before ++ a ∷ after) expected) a.customer_id a.sequence
      ≡ some a.chain_hash
unfolding expected_by_position
expected_by_position-last a [] after expected h =
    let own : stands_at a.customer_id a.sequence a ≡ true =
      ground (arith, eq_iff a.customer_id a.customer_id) in
    expected_by_position-others after (set_expected expected a) a.customer_id a.sequence h
    ∙ expected_hash-set_expected expected a a.customer_id a.sequence
    ∙ rw own
expected_by_position-last a (b ∷ before) after expected h =
    expected_by_position-last a before after (set_expected expected b) h
