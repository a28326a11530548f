-- ===== src/Incidents/Rows.antt =====
-- What an UPDATE of one incident leaves in the table.
use metricops_backend.Common.{
  ℕ, String, ◌≡◌, refl, Bool, true, false, List, [], ◌∷◌, Option, none, some, find, inl, inr, arith,
  string_eq, eq_iff, Bool-cases,
}
use metricops_backend.Database.Tables.{IncidentRow}
use metricops_backend.Incidents.{
  Action, acknowledge, resolve, TransitionInput, owned, moved, update_where,
}

abbrev pub map_row : (IncidentRow → IncidentRow) → Option IncidentRow → Option IncidentRow
map_row f none = none
map_row f (some row) = some (f row)

pub find-update_where_self :
    (p : IncidentRow → Bool) (f : IncidentRow → IncidentRow)
    → ((row : IncidentRow) → p (f row) ≡ p row)
    → (rows : List IncidentRow) → find p (update_where p f rows) ≡ map_row f (find p rows)
unfolding update_where
find-update_where_self p f keeps [] = refl
find-update_where_self p f keeps (row ∷ rows) =
    ground (arith, keeps row, find-update_where_self p f keeps rows)

pub find-update_where_other :
    (p q : IncidentRow → Bool) (f : IncidentRow → IncidentRow)
    → ((row : IncidentRow) → q (f row) ≡ q row)
    → ((row : IncidentRow) → p row ≡ true → q row ≡ false)
    → (rows : List IncidentRow) → find q (update_where p f rows) ≡ find q rows
unfolding update_where
find-update_where_other p q f keeps apart [] = refl
find-update_where_other p q f keeps apart (row ∷ rows) =
    ground (arith, keeps row, apart row, find-update_where_other p q f keeps apart rows)

pub owned-moved :
    (action : Action) (input : TransitionInput) (now : ℕ) (c i : String) (row : IncidentRow)
    → owned c i (moved action input now row) ≡ owned c i row
unfolding moved
owned-moved acknowledge input now c i row = refl
owned-moved resolve input now c i row = refl

pub owned_apart :
    (c i c' i' : String) (row : IncidentRow)
    → ¬ ((c ≡ c') × (i ≡ i'))
    → owned c i row ≡ true
    → owned c' i' row ≡ false
owned_apart c i c' i' row apart h = elim (Bool-cases (owned c' i' row)) [
  | inr other ↦ other
  | inl both ↦ absurd (
      apart (
        ground (arith, eq_iff row.customer_id c, eq_iff row.customer_id c'),
        ground (arith, eq_iff row.id i, eq_iff row.id i'),
      ))
]
