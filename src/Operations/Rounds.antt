-- ===== src/Operations/Rounds.antt =====
-- The loop of the verification: one page of the log, and one round over it.
use metricops_backend.Common.{
  ℕ, suc, ◌+◌, ◌<◌, String, ◌≡◌, refl, sym, ap, ◌∙◌, Bool, inl, inr, List, [], ◌∷◌, ◌++◌, some,
  arith, length, take, length-append, nat_eq, string_eq,
}
use metricops_backend.Domain.Errors.{Thrown}
use metricops_backend.Effects.{ok, thrown, Result-cases, ok-injective, bind_result-ok}
use metricops_backend.Database.Tables.{AuditRow}
use metricops_backend.Database.Transaction.{Crypto}
use metricops_backend.Audit.{
  AuditAnchor, Heads, verify_from, verify_audit_events, map_of, sort_anchors,
}
use metricops_backend.Audit.Chain.{verify_from-append}
use metricops_backend.Audit.Agree.{
  Agree, Distinct, map_of-sort_anchors, Distinct-map_of, verify_from-Distinct, verify_from-Agree,
}
use metricops_backend.Operations.{
  Expected, check_expected, last_sequence, Progress, report_of, verify_page, on_page, verify_pages,
}
use metricops_backend.Operations.Pages.{
  drop, take-drop, length-drop, Left, audit_page-Left, Left-drop,
}
use metricops_backend.Operations.Anchors.{check_expected-append}

module _ (crypto : Crypto) (precedes : String → String → Bool) (key : String) (n : ℕ)
    (rows : List AuditRow) (upper : ℕ) where
  abbrev page_size : ℕ
  page_size = suc n

  -- The state of the loop, beside the heads that one verification of all events so far ends in.
  pub record At (progress : Progress) (heads : Heads) (todo : List AuditRow) : Type 0 where
    pub left : Left rows upper progress.after_sequence todo
    pub agree : Agree heads (map_of progress.anchors [])
    pub distinct : Distinct heads

  abbrev after_page : Progress → List AuditRow → Expected → List AuditAnchor → Progress
  after_page progress es expected anchors = record {
    anchors = anchors;
    after_sequence = last_sequence progress.after_sequence es;
    event_count = progress.event_count + length es;
    expected = expected;
  }

  -- a page that is accepted moves the loop to what is left
  pub At-page :
      (progress : Progress) (heads : Heads) (e : AuditRow) (todo : List AuditRow) (heads' : Heads)
      (expected : Expected)
      → At progress heads (e ∷ todo)
      → verify_from crypto key heads (e ∷ take n todo) ≡ ok heads'
      → check_expected progress.expected (e ∷ take n todo) ≡ ok expected
      → (progress' : Progress) × (verify_page crypto precedes key progress (e ∷ take n todo)
          ≡ ok progress')
        × At progress' heads' (drop n todo)
        × (progress'.expected ≡ expected)
        × (progress'.event_count ≡ progress.event_count + length (e ∷ take n todo))
  unfolding verify_page verify_audit_events
  At-page progress heads e todo heads' expected here verified checked =
      let (other, done, agree) =
        verify_from-Agree crypto key heads (map_of progress.anchors []) heads' (e ∷ take n todo)
          here.agree verified in
      let apart : Distinct other =
        verify_from-Distinct crypto key (map_of progress.anchors []) other (e ∷ take n todo)
          (Distinct-map_of progress.anchors [] tt) done in
      let back = map_of-sort_anchors precedes other apart in
      let progress' =
        after_page progress (e ∷ take n todo) expected (sort_anchors precedes other) in
      (
        progress',
        rw (checked, done),
        record {
          left = Left-drop rows upper progress.after_sequence page_size (e ∷ todo) here.left;
          agree = λ c. agree c ∙ sym (back c);
          distinct =
              verify_from-Distinct crypto key heads heads' (e ∷ take n todo) here.distinct verified;
        },
        refl,
        refl,
      )

  -- the rounds that are left suffice for what is left of the log
  abbrev pub Suffice : ℕ → List AuditRow → Type 0
  Suffice rounds todo = length todo < rounds

  pub Suffice-drop :
      (rounds : ℕ) (e : AuditRow) (todo : List AuditRow)
      → Suffice (suc rounds) (e ∷ todo)
      → Suffice rounds (drop n todo)
  Suffice-drop rounds e todo h = omega (arith, length-drop n todo)

  pub length-page :
      (todo : List AuditRow) → length (take n todo) + length (drop n todo) ≡ length todo
  length-page todo = sym (length-append (take n todo) (drop n todo)) ∙ ap length (take-drop n todo)

  -- the verification of what is left, and the comparison with what is expected, split at the page
  unfoldable pub Accepted : Heads → Expected → List AuditRow → Heads → Type 0
  Accepted heads expected todo heads' =
      (verify_from crypto key heads todo ≡ ok heads') × (check_expected expected todo ≡ ok [])

  pub Accepted-split :
      (heads heads' : Heads) (expected : Expected) (es fs : List AuditRow)
      → Accepted heads expected (es ++ fs) heads'
      → (mid : Heads) × (left : Expected) × (verify_from crypto key heads es ≡ ok mid)
        × (check_expected expected es ≡ ok left)
        × Accepted mid left fs heads'
  unfolding Accepted
  Accepted-split heads heads' expected es fs (verified, checked) =
      let (mid, v, v') =
        bind_result-ok (verify_from crypto key heads es) (λ h. verify_from crypto key h fs) heads'
          (sym (verify_from-append crypto key heads es fs) ∙ verified) in
      let (left, c, c') =
        bind_result-ok (check_expected expected es) (λ x. check_expected x fs) []
          (sym (check_expected-append expected es fs) ∙ checked) in
      (mid, left, v, c, (v', c'))

  pub Accepted-join :
      (heads mid heads' : Heads) (expected left : Expected) (es fs : List AuditRow)
      → verify_from crypto key heads es ≡ ok mid
      → check_expected expected es ≡ ok left
      → Accepted mid left fs heads'
      → Accepted heads expected (es ++ fs) heads'
  unfolding Accepted
  Accepted-join heads mid heads' expected left es fs v c (v', c') = (
    verify_from-append crypto key heads es fs ∙ rw v v',
    check_expected-append expected es fs ∙ rw c c',
  )

  pub after_sequence-page :
      (progress progress' : Progress) (e : AuditRow) (todo : List AuditRow)
      → verify_page crypto precedes key progress (e ∷ take n todo) ≡ ok progress'
      → last_sequence progress.after_sequence (e ∷ take n todo) ≡ progress'.after_sequence
  unfolding verify_page
  after_sequence-page progress progress' e todo h =
      let (expected, checked, rest) =
        bind_result-ok (check_expected progress.expected (e ∷ take n todo)) _ progress' h in
      let (anchors, done, last) =
        bind_result-ok (verify_audit_events crypto precedes (e ∷ take n todo) key progress.anchors)
          _ progress' rest in
      ap (λ p. p.after_sequence)
        (ok-injective (after_page progress (e ∷ take n todo) expected anchors) progress' last)

  -- a round that accepts its page goes on with the next one
  pub verify_pages-next :
      (rounds : ℕ) (progress progress' : Progress) (e : AuditRow) (todo : List AuditRow)
      → Left rows upper progress.after_sequence (e ∷ todo)
      → verify_page crypto precedes key progress (e ∷ take n todo) ≡ ok progress'
      → verify_pages crypto precedes key page_size rows (suc rounds) progress
        ≡ verify_pages crypto precedes key page_size rows rounds progress'
  unfolding verify_pages
  verify_pages-next rounds progress progress' e todo left paged =
      ap
        (λ page.
          on_page crypto precedes key page_size rows page progress
            (verify_pages crypto precedes key page_size rows rounds))
        (audit_page-Left rows upper progress.after_sequence page_size (e ∷ todo) left)
      ∙ rw (on_page, paged)

  -- a round that refuses its page is the last one
  pub verify_pages-refused :
      (rounds : ℕ) (progress : Progress) (t : Thrown) (e : AuditRow) (todo : List AuditRow)
      → Left rows upper progress.after_sequence (e ∷ todo)
      → verify_page crypto precedes key progress (e ∷ take n todo) ≡ thrown t
      → verify_pages crypto precedes key page_size rows (suc rounds) progress ≡ some (thrown t)
  unfolding verify_pages
  verify_pages-refused rounds progress t e todo left refused =
      ap
        (λ page.
          on_page crypto precedes key page_size rows page progress
            (verify_pages crypto precedes key page_size rows rounds))
        (audit_page-Left rows upper progress.after_sequence page_size (e ∷ todo) left)
      ∙ rw (on_page, refused)

  -- a round that finds no event prints what was gathered
  pub verify_pages-done :
      (rounds : ℕ) (progress : Progress)
      → Left rows upper progress.after_sequence []
      → verify_pages crypto precedes key page_size rows (suc rounds) progress
        ≡ some (report_of progress)
  unfolding verify_pages
  verify_pages-done rounds progress left =
      ap
        (λ page.
          on_page crypto precedes key page_size rows page progress
            (verify_pages crypto precedes key page_size rows rounds))
        (audit_page-Left rows upper progress.after_sequence page_size [] left)

  -- a page is refused unless it verifies and is as expected
  pub verify_page-ok :
      (progress progress' : Progress) (heads : Heads) (e : AuditRow) (todo : List AuditRow)
      → At progress heads (e ∷ todo)
      → verify_page crypto precedes key progress (e ∷ take n todo) ≡ ok progress'
      → (heads' : Heads) × (verify_from crypto key heads (e ∷ take n todo) ≡ ok heads')
        × (check_expected progress.expected (e ∷ take n todo) ≡ ok progress'.expected)
  unfolding verify_page verify_audit_events
  verify_page-ok progress progress' heads e todo here h =
      let (expected, checked, rest) =
        bind_result-ok (check_expected progress.expected (e ∷ take n todo)) _ progress' h in
      elim (Result-cases (verify_from crypto key (map_of progress.anchors []) (e ∷ take n todo))) [
        | inr (t, failed) ↦ absurd (cc (rw failed at rest))
        | inl (other, done) ↦
            let (heads', verified, _) =
              verify_from-Agree crypto key (map_of progress.anchors []) heads other
                (e ∷ take n todo) (λ c. sym (here.agree c)) done in
            let same : expected ≡ progress'.expected =
              ap (λ p. p.expected)
                (ok-injective
                  (after_page progress (e ∷ take n todo) expected (sort_anchors precedes other))
                  progress' (rw done at rest)) in
            (heads', verified, checked ∙ ap ok same)
      ]
