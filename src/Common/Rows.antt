-- ===== src/Common/Rows.antt =====
-- Two tables row for row, in one order.
use mathlib.Core.List.{List, [], ◌∷◌}

pub data RowWise {A : Type 0} (R : A → A → Type 0) : List A → List A → Type 0 where
  no_rows : RowWise R [] []
  row_then : (a b : A) (xs ys : List A) → R a b → RowWise R xs ys → RowWise R (a ∷ xs) (b ∷ ys)
