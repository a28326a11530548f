-- ===== src/Common/Order.antt =====
-- Sorting by a test, as ORDER BY does, and what it keeps.
use Prim.Native.Nat.{ℕ, zero, suc, ◌≤◌}
use metricops_backend.Common.Tests.{if◌then◌else◌}
use metricops_backend.Common.Lists.{length, take, filter, All}
use mathlib.Core.Path.{◌≡◌, refl}
use mathlib.Core.Bool.{Bool, true, false}
use mathlib.Core.List.{List, [], ◌∷◌}
use native.Mathlib.Omega.{arith}

module _ {A : Type 0} where
  abbrev pub insert_by : (A → A → Bool) → A → List A → List A
  insert_by comes_first x [] = x ∷ []
  insert_by comes_first x (y ∷ ys) =
      if comes_first y x then y ∷ insert_by comes_first x ys else x ∷ y ∷ ys

  abbrev pub order_by : (A → A → Bool) → List A → List A
  order_by comes_first [] = []
  order_by comes_first (x ∷ xs) = insert_by comes_first x (order_by comes_first xs)

  pub length-take : (n : ℕ) (xs : List A) → length (take n xs) ≤ n
  length-take zero xs = omega arith
  length-take (suc n) [] = omega arith
  length-take (suc n) (x ∷ xs) = omega (arith, length-take n xs)

  All-if :
      (P : A → Type 0) (b : Bool) (xs ys : List A)
      → (b ≡ true → All P xs)
      → (b ≡ false → All P ys)
      → All P (if b then xs else ys)
  All-if P true xs ys f g = f refl
  All-if P false xs ys f g = g refl

  module _ (P : A → Type 0) where
    pub All-take : (n : ℕ) (xs : List A) → All P xs → All P (take n xs)
    All-take zero xs h = tt
    All-take (suc n) [] h = tt
    All-take (suc n) (x ∷ xs) h = (h.0, All-take n xs h.1)

    All-insert_by :
        (comes_first : A → A → Bool) (x : A) (xs : List A)
        → P x
        → All P xs
        → All P (insert_by comes_first x xs)
    All-insert_by comes_first x [] p h = (p, tt)
    All-insert_by comes_first x (y ∷ ys) p h =
        All-if P (comes_first y x) _ _ (λ e. (h.0, All-insert_by comes_first x ys p h.1))
          (λ e. (p, h))

    pub All-order_by :
        (comes_first : A → A → Bool) (xs : List A) → All P xs → All P (order_by comes_first xs)
    All-order_by comes_first [] h = tt
    All-order_by comes_first (x ∷ xs) h =
        All-insert_by comes_first x (order_by comes_first xs) h.0 (All-order_by comes_first xs h.1)

  -- what a filter lets through passes its test
  pub All-filter : (p : A → Bool) (xs : List A) → All (λ x. p x ≡ true) (filter p xs)
  All-filter p [] = tt
  All-filter p (x ∷ xs) =
      All-if (λ y. p y ≡ true) (p x) _ _ (λ e. (e, All-filter p xs)) (λ e. All-filter p xs)

  pub All-map : (P Q : A → Type 0) (xs : List A) → ((x : A) → P x → Q x) → All P xs → All Q xs
  All-map P Q [] f h = tt
  All-map P Q (x ∷ xs) f h = (f x h.0, All-map P Q xs f h.1)
