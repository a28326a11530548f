-- ===== src/Operations/Whole.antt =====
-- Verifying the log page by page is verifying it as a whole.
use mathlib.Core.List.{Memᴰ}
use metricops_backend.Common.{
  false, ◌++◌, ℕ, zero, suc, ◌+◌, ◌<◌, String, ◌≡◌, refl, sym, ap, ◌∙◌, Bool, inl, inr, ◌↔◌, List,
  [], ◌∷◌, some, arith, length, take, any, nat_eq, string_eq,
}
use metricops_backend.Effects.{Result, ok, thrown, Result-cases, ok-injective}
use metricops_backend.Database.Tables.{AuditRow}
use metricops_backend.Database.Transaction.{Crypto}
use metricops_backend.Audit.{AuditAnchor, Heads, get, verify_from, map_of}
use metricops_backend.Audit.Chain.{Rising}
use metricops_backend.Audit.Agree.{Agree}
use metricops_backend.Operations.{
  stands_at, Expected, expected_by_position, expected_hash, check_expected, Progress, Report,
  report_of, verify_page, verify_pages, verify_audit_log,
}
use metricops_backend.Operations.Pages.{drop, take-drop, Left, Left-start, Left-drop}
use metricops_backend.Operations.Anchors.{
  check_expected-Records, Records-event, expected_by_position-last,
}
use metricops_backend.Operations.Rounds.{
  At, At-page, Suffice, Suffice-drop, length-page, Accepted, Accepted-split, Accepted-join,
  after_sequence-page, verify_pages-next, verify_pages-refused, verify_pages-done, verify_page-ok,
}

module _ (crypto : Crypto) (precedes : String → String → Bool) (key : String) (n : ℕ)
    (rows : List AuditRow) (upper : ℕ) where
  verify_pages-accepts :
      (rounds : ℕ) (progress : Progress) (heads heads' : Heads) (todo : List AuditRow)
      → At crypto precedes key n rows upper progress heads todo
      → Suffice crypto precedes key n rows upper rounds todo
      → Accepted crypto precedes key n rows upper heads progress.expected todo heads'
      → (report : Report) × (verify_pages crypto precedes key (suc n) rows rounds progress
          ≡ some (ok report))
        × (report.event_count ≡ progress.event_count + length todo)
        × Agree heads' (map_of report.anchors [])
  unfolding Accepted verify_from check_expected
  verify_pages-accepts zero progress heads heads' todo here h accepted = absurd (omega (arith, h))
  verify_pages-accepts (suc rounds) progress heads heads' [] here h (verified, checked) = (
    record { event_count = progress.event_count; anchors = progress.anchors },
    verify_pages-done crypto precedes key n rows upper rounds progress here.left
        ∙ rw (ok-injective progress.expected [] checked),
    omega arith,
    λ c. ap (λ x. get x c) (sym (ok-injective heads heads' verified)) ∙ here.agree c,
  )
  verify_pages-accepts (suc rounds) progress heads heads' (e ∷ todo) here h accepted =
      let (mid, left, v, c, rest) =
        Accepted-split crypto precedes key n rows upper heads heads' progress.expected
          (e ∷ take n todo) (drop n todo) (rw (take-drop n todo) accepted) in
      let (progress', paged, there, same, counted) =
        At-page crypto precedes key n rows upper progress heads e todo mid left here v c in
      let (report, finished, total, agree) =
        verify_pages-accepts rounds progress' mid heads' (drop n todo) there
          (Suffice-drop crypto precedes key n rows upper rounds e todo h) (rw same rest) in
      (
        report,
        verify_pages-next crypto precedes key n rows upper rounds progress progress' e todo
              here.left paged
            ∙ finished,
        omega (arith, total, counted, length-page crypto precedes key n rows upper todo),
        agree,
      )

  verify_pages-Accepted :
      (rounds : ℕ) (progress : Progress) (heads : Heads) (todo : List AuditRow) (report : Report)
      → At crypto precedes key n rows upper progress heads todo
      → verify_pages crypto precedes key (suc n) rows rounds progress ≡ some (ok report)
      → (heads' : Heads) × Accepted crypto precedes key n rows upper heads progress.expected todo
          heads'
  unfolding Accepted verify_from check_expected verify_pages
  verify_pages-Accepted zero progress heads todo report here h = absurd (cc h)
  verify_pages-Accepted (suc rounds) progress heads [] report here h =
      (heads, (refl, ap ok (nothing_left progress.expected refl)))
    where
      nothing_left : (expected : Expected) → progress.expected ≡ expected → progress.expected ≡ []
      nothing_left [] e = e
      nothing_left (a ∷ rest) e = absurd (
          cc (
            rw e at (
              sym (verify_pages-done crypto precedes key n rows upper rounds progress here.left)
              ∙ h)))
  verify_pages-Accepted (suc rounds) progress heads (e ∷ todo) report here h =
      elim (Result-cases (verify_page crypto precedes key progress (e ∷ take n todo))) [
        | inr (t, refused) ↦ absurd (
            cc (
              sym (
                verify_pages-refused crypto precedes key n rows upper rounds progress t e todo
                  here.left refused)
              ∙ h))
        | inl (progress', paged) ↦
            let (mid, v, c) =
              verify_page-ok crypto precedes key n rows upper progress progress' heads e todo here
                paged in
            let (progress'', paged', there, same, counted) =
              At-page crypto precedes key n rows upper progress heads e todo mid progress'.expected
                here v c in
            let (heads', accepted) =
              verify_pages-Accepted rounds progress'' mid (drop n todo) report there (
                sym (
                  verify_pages-next crypto precedes key n rows upper rounds progress progress'' e
                    todo here.left paged')
                ∙ h) in
            (
              heads',
              rw (sym (take-drop n todo)) (
                  Accepted-join crypto precedes key n rows upper heads mid heads' progress.expected
                    progress'.expected (e ∷ take n todo) (drop n todo) v c
                    (rw (sym same) accepted)),
            )
      ]

  verify_pages-total :
      (rounds : ℕ) (progress : Progress) (todo : List AuditRow)
      → Left rows upper progress.after_sequence todo
      → Suffice crypto precedes key n rows upper rounds todo
      → (r : Result Report) × (verify_pages crypto precedes key (suc n) rows rounds progress
          ≡ some r)
  verify_pages-total zero progress todo left h = absurd (omega (arith, h))
  verify_pages-total (suc rounds) progress [] left h =
      (report_of progress, verify_pages-done crypto precedes key n rows upper rounds progress left)
  verify_pages-total (suc rounds) progress (e ∷ todo) left h =
      elim (Result-cases (verify_page crypto precedes key progress (e ∷ take n todo))) [
        | inr (t, refused) ↦ (
          thrown t,
          verify_pages-refused crypto precedes key n rows upper rounds progress t e todo left
              refused,
        )
        | inl (progress', paged) ↦
            let there : Left rows upper progress'.after_sequence (drop n todo) =
              rw
                (sym (
                  after_sequence-page crypto precedes key n rows upper progress progress' e todo
                    paged))
                (Left-drop rows upper progress.after_sequence (suc n) (e ∷ todo) left) in
            let (r, ends) =
              verify_pages-total rounds progress' (drop n todo) there
                (Suffice-drop crypto precedes key n rows upper rounds e todo h) in
            (
              r,
              verify_pages-next crypto precedes key n rows upper rounds progress progress' e todo
                    left paged
                  ∙ ends,
            )
      ]

  module _ (rising : Rising 0 rows upper) (rounds : ℕ) (enough : length rows < rounds)
      (expected : List AuditAnchor) where
    abbrev start : Progress
    start = record {
      anchors = [];
      after_sequence = 0;
      event_count = 0;
      expected = expected_by_position expected [];
    }

    At-start : At crypto precedes key n rows upper start [] rows
    unfolding map_of
    At-start = record { left = Left-start rows upper rising; agree = λ c. refl; distinct = tt }

    -- On a log whose sequences rise, the loop over its pages ends within one round more than there
    -- are events, for every page size of one event or more.
    pub verify_audit_log-ends :
        (r : Result Report) × (verify_audit_log crypto precedes key (suc n) rows rounds expected
          ≡ some r)
    unfolding verify_audit_log
    verify_audit_log-ends =
        verify_pages-total rounds start rows (Left-start rows upper rising) enough

    -- On a log whose sequences rise, and in rounds that suffice, the verification by pages accepts
    -- exactly when the chain of the whole log verifies from no anchor and every expected position
    -- is crossed out by an event that carries its hash.
    pub verify_audit_log_iff :
        ((report : Report) × (verify_audit_log crypto precedes key (suc n) rows rounds expected
            ≡ some (ok report)))
        ↔ ((heads : Heads) × (verify_from crypto key [] rows ≡ ok heads)
            × (check_expected (expected_by_position expected []) rows ≡ ok []))
    unfolding verify_audit_log Accepted
    verify_audit_log_iff = (
      λ h.
          let (heads, (verified, checked)) =
            verify_pages-Accepted rounds start [] rows h.0 At-start h.1 in
          (heads, verified, checked),
      λ h.
          let (report, done, _, _) =
            verify_pages-accepts rounds start [] h.0 rows At-start enough (h.1, h.2) in
          (report, done),
    )

    -- On a log whose sequences rise and whose chain verifies, with every expected position crossed
    -- out, the report counts all events, and its anchors are the heads of the whole chain.
    pub verify_audit_log-Report :
        (heads : Heads)
        → verify_from crypto key [] rows ≡ ok heads
        → check_expected (expected_by_position expected []) rows ≡ ok []
        → (report : Report) × (verify_audit_log crypto precedes key (suc n) rows rounds expected
            ≡ some (ok report))
          × (report.event_count ≡ length rows)
          × ((customer : String) → get heads customer ≡ get (map_of report.anchors []) customer)
    unfolding verify_audit_log Accepted
    verify_audit_log-Report heads verified checked =
        let (report, done, counted, agree) =
          verify_pages-accepts rounds start [] heads rows At-start enough (verified, checked) in
        (report, done, omega (arith, counted), agree)

    -- When the verification of a log whose sequences rise accepts, an expected anchor is in the log,
    -- unless a later one of the list names its customer and sequence too: an event stands at its
    -- customer and sequence, with its hash.
    pub verify_audit_log-Records :
        (report : Report) (anchor : AuditAnchor) (before after : List AuditAnchor)
        → verify_audit_log crypto precedes key (suc n) rows rounds expected ≡ some (ok report)
        → expected ≡ before ++ anchor ∷ after
        → any (stands_at anchor.customer_id anchor.sequence) after ≡ false
        → (e : AuditRow) × Memᴰ e rows
          × (e.customer_id ≡ anchor.customer_id)
          × (e.sequence ≡ anchor.sequence)
          × (e.chain_hash ≡ anchor.chain_hash)
    unfolding verify_audit_log Accepted
    verify_audit_log-Records report anchor before after accepted listed last =
        let (heads, (verified, checked)) =
          verify_pages-Accepted rounds start [] rows report At-start accepted in
        Records-event rows anchor.customer_id anchor.sequence anchor.chain_hash (
          check_expected-Records (expected_by_position expected []) rows anchor.customer_id
            anchor.sequence anchor.chain_hash checked
            (ap (λ x. expected_hash (expected_by_position x []) anchor.customer_id anchor.sequence)
                listed
              ∙ expected_by_position-last anchor before after [] last))
