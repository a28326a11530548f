-- ===== src/Operations/Pages.antt =====
-- The pages of a log whose sequences rise: a page is a run of it, and the next page goes on after.
use metricops_backend.Common.{
  ℕ, zero, suc, ◌≤◌, ◌≡◌, refl, ap, ◌∙◌, List, [], ◌∷◌, ◌++◌, arith, length, take, filter,
}
use metricops_backend.Common.Order.{order_by, insert_by}
use metricops_backend.Database.Tables.{AuditRow}
use metricops_backend.Audit.Chain.{Rising}
use metricops_backend.Operations.{last_sequence, by_sequence, is_after, audit_page}

abbrev pub drop : ℕ → List AuditRow → List AuditRow
drop zero es = es
drop (suc n) [] = []
drop (suc n) (e ∷ es) = drop n es

pub take-drop : (n : ℕ) (es : List AuditRow) → take n es ++ drop n es ≡ es
take-drop zero es = refl
take-drop (suc n) [] = refl
take-drop (suc n) (e ∷ es) = ap (λ x. e ∷ x) (take-drop n es)

pub length-drop : (n : ℕ) (es : List AuditRow) → length (drop n es) ≤ length es
length-drop zero es = omega arith
length-drop (suc n) [] = omega arith
length-drop (suc n) (e ∷ es) = omega (arith, length-drop n es)

Rising-lower :
    (lower lower' upper : ℕ) (es : List AuditRow)
    → lower' ≤ lower
    → Rising lower es upper
    → Rising lower' es upper
Rising-lower lower lower' upper [] h r = omega arith
Rising-lower lower lower' upper (e ∷ es) h r = (omega (arith, r.0), r.1)

pub last_sequence-least :
    (n lower upper : ℕ) (es : List AuditRow)
    → Rising lower es upper
    → lower ≤ last_sequence lower (take n es)
last_sequence-least zero lower upper es r = omega arith
last_sequence-least (suc n) lower upper [] r = omega arith
last_sequence-least (suc n) lower upper (e ∷ es) r =
    omega (arith, r.0, last_sequence-least n e.sequence upper es r.1)

pub Rising-drop :
    (n lower upper : ℕ) (es : List AuditRow)
    → Rising lower es upper
    → Rising (last_sequence lower (take n es)) (drop n es) upper
Rising-drop zero lower upper es r = r
Rising-drop (suc n) lower upper [] r = r
Rising-drop (suc n) lower upper (e ∷ es) r = Rising-drop n e.sequence upper es r.1

filter-all :
    (s lower upper : ℕ) (es : List AuditRow)
    → s ≤ lower
    → Rising lower es upper
    → filter (is_after s) es ≡ es
filter-all s lower upper [] h r = refl
filter-all s lower upper (e ∷ es) h r =
    ground (arith, r.0, filter-all s e.sequence upper es (omega (arith, r.0)) r.1)

filter-drop :
    (n lower upper : ℕ) (es : List AuditRow)
    → Rising lower es upper
    → filter (is_after (last_sequence lower (take n es))) es ≡ drop n es
filter-drop zero lower upper es r = filter-all lower lower upper es (omega arith) r
filter-drop (suc n) lower upper [] r = refl
filter-drop (suc n) lower upper (e ∷ es) r =
    ground
      (arith, filter-drop n e.sequence upper es r.1, last_sequence-least n e.sequence upper es r.1)

filter-filter :
    (s s' : ℕ) (es : List AuditRow)
    → s ≤ s'
    → filter (is_after s') es ≡ filter (is_after s') (filter (is_after s) es)
filter-filter s s' [] h = refl
filter-filter s s' (e ∷ es) h = ground (arith, filter-filter s s' es h)

order_by-Rising :
    (lower upper : ℕ) (es : List AuditRow) → Rising lower es upper → order_by by_sequence es ≡ es
order_by-Rising lower upper [] r = refl
order_by-Rising lower upper (e ∷ es) r =
    ap (insert_by by_sequence e) (order_by-Rising e.sequence upper es r.1) ∙ first es r.1
  where
    first : (fs : List AuditRow) → Rising e.sequence fs upper → insert_by by_sequence e fs ≡ e ∷ fs
    first [] q = refl
    first (f ∷ fs) q = ground (arith, q.0)

-- What is left of a log after a sequence: the rows above it, which rise.
pub record Left (rows : List AuditRow) (upper after_sequence : ℕ) (todo : List AuditRow)
    : Type 0 where
  pub above : filter (is_after after_sequence) rows ≡ todo
  pub rising : Rising after_sequence todo upper

module _ (rows : List AuditRow) (upper : ℕ) where
  pub Left-start : Rising 0 rows upper → Left rows upper 0 rows
  Left-start r = record { above = filter-all 0 0 upper rows (omega arith) r; rising = r }

  module _ (s n : ℕ) (todo : List AuditRow) (left : Left rows upper s todo) where
    -- the page that is read is a run of what is left
    pub audit_page-Left : audit_page n rows s ≡ take n todo
    unfolding audit_page
    audit_page-Left =
        ap (λ es. take n (order_by by_sequence es)) left.above
        ∙ ap (take n) (order_by-Rising s upper todo left.rising)

    pub Left-drop : Left rows upper (last_sequence s (take n todo)) (drop n todo)
    Left-drop = record {
      above =
          filter-filter s (last_sequence s (take n todo)) rows
            (last_sequence-least n s upper todo left.rising)
          ∙ ap (filter (is_after (last_sequence s (take n todo)))) left.above
          ∙ filter-drop n s upper todo left.rising;
      rising = Rising-drop n s upper todo left.rising;
    }
