-- ===== src/Json/Unique.antt =====
-- A JSON text determines its value: `stringify` is injective, also before a rest.
use mathlib.Core.Path.{ap₂}
use mathlib.Core.Logic.{dite}
use mathlib.Core.WellFounded.{Acc}
use mathlib.Core.List.{append_assoc}
use native.Mathlib.Decide.{dec_lt}
use metricops_backend.Common.{
  ℕ, String, ◌+◌, ◌/◌, ◌%◌, ◌<◌, ◌≡◌, ◌≢◌, refl, sym, ap, ◌∙◌, true, false, List, [], ◌∷◌, ◌++◌,
  arith, ◌==◌, nat_eq, if◌then◌else◌,
}
use metricops_backend.Json.{
  Json, null, bool, num, str, arr, obj, nil, cons, end, field, Items, Fields,
}
use metricops_backend.Json.Printer.{decimal_acc, decimal, quote, lt_wf, stringify}
use metricops_backend.Json.Scan.{is_digit, ends_digits, quote_unique, decimal_unique}
use metricops_backend.Json.Show.{
  show, show_items, show_more_items, show_fields, show_more_fields, stringify-show,
}

-- which kind of value a text that begins with this character writes
abbrev kind : ℕ → ℕ
kind c =
    if c == b'n'
    then 0
    else if c == b't'
    then 1
    else if c == b'f'
    then 2
    else if is_digit c
    then 3
    else if c == 0x22
    then 4
    else if c == b'['
    then 5
    else if c == b'{'
    then 6
    else 7

abbrev tag : Json → ℕ
tag null = 0
tag (bool true) = 1
tag (bool false) = 2
tag (num n) = 3
tag (str s) = 4
tag (arr xs) = 5
tag (obj fs) = 6

abbrev kind_of_text : List ℕ → ℕ
kind_of_text [] = 8
kind_of_text (c ∷ rest) = kind c

kind_of_text-decimal_acc :
    (n : ℕ) (w : Acc ◌<◌ n) (r : List ℕ) → kind_of_text (decimal_acc n w ++ r) ≡ 3
unfolding decimal_acc
kind_of_text-decimal_acc n (Acc.intro _ smaller) r =
    (elim (dec_lt 9 n)
      as (λ d.
        kind_of_text (
          dite d
            (λ h. decimal_acc (n / 10) (smaller (n / 10) (omega arith)) ++ (b'0' + n % 10) ∷ [])
            (λ _. (b'0' + n) ∷ [])
          ++ r)
        ≡ 3) [
          | yes big ↦ rw append_assoc (
              kind_of_text-decimal_acc (n / 10) (smaller (n / 10) (omega arith))
                ((b'0' + n % 10) ∷ r))
          | no small ↦ ground arith
        ])

kind_of_text-show : (v : Json) (r : List ℕ) → kind_of_text (show v r) ≡ tag v
unfolding show decimal quote
kind_of_text-show null r = refl
kind_of_text-show (bool true) r = refl
kind_of_text-show (bool false) r = refl
kind_of_text-show (num n) r = kind_of_text-decimal_acc n (lt_wf.apply n) r
kind_of_text-show (str s) r = refl
kind_of_text-show (arr xs) r = refl
kind_of_text-show (obj fs) r = refl

same_tag : (v w : Json) (r s : List ℕ) → show v r ≡ show w s → tag v ≡ tag w
same_tag v w r s h = sym (kind_of_text-show v r) ∙ ap kind_of_text h ∙ kind_of_text-show w s

abbrev drop_one : List ℕ → List ℕ
drop_one [] = []
drop_one (c ∷ rest) = rest

abbrev head_or_zero : List ℕ → ℕ
head_or_zero [] = 0
head_or_zero (x ∷ xs) = x

tag-lt : (v : Json) → tag v < 7
tag-lt null = omega arith
tag-lt (bool true) = omega arith
tag-lt (bool false) = omega arith
tag-lt (num n) = omega arith
tag-lt (str s) = omega arith
tag-lt (arr xs) = omega arith
tag-lt (obj fs) = omega arith

kind_of_text-show-ne : (v : Json) (r t : List ℕ) → kind_of_text t ≡ 7 → show v r ≢ t
kind_of_text-show-ne v r t k h =
    omega (arith, tag-lt v, kind_of_text-show v r, ap kind_of_text h, k)

ends_digits-more_items : (xs : Items) (r : List ℕ) → ends_digits (show_more_items xs r) ≡ true
unfolding show
ends_digits-more_items nil r = refl
ends_digits-more_items (cons x xs) r = refl

ends_digits-more_fields : (fs : Fields) (r : List ℕ) → ends_digits (show_more_fields fs r) ≡ true
unfolding show
ends_digits-more_fields end r = refl
ends_digits-more_fields (field k v fs) r = refl

quote-ne-brace : (k : String) (r s : List ℕ) → quote k ++ r ≢ b'}' ∷ s
unfolding quote
quote-ne-brace k r s h = omega (arith, ap head_or_zero h)

mutual
  unfolding show

  show_unique :
      (v w : Json) (r s : List ℕ)
      → ends_digits r ≡ true
      → ends_digits s ≡ true
      → show v r ≡ show w s
      → (v ≡ w) × (r ≡ s)
  show_unique null null r s hr hs h =
      (refl, ap drop_one (ap drop_one (ap drop_one (ap drop_one h))))
  show_unique (bool true) (bool true) r s hr hs h =
      (refl, ap drop_one (ap drop_one (ap drop_one (ap drop_one h))))
  show_unique (bool false) (bool false) r s hr hs h =
      (refl, ap drop_one (ap drop_one (ap drop_one (ap drop_one (ap drop_one h)))))
  show_unique (num m) (num n) r s hr hs h =
      let (same, rest) = decimal_unique m n r s hr hs h in (ap num same, rest)
  show_unique (str a) (str b) r s hr hs h =
      let (same, rest) = quote_unique a b r s h in (ap str same, rest)
  show_unique (arr xs) (arr ys) r s hr hs h =
      let (same, rest) = items_unique xs ys r s (ap drop_one h) in (ap arr same, rest)
  show_unique (obj fs) (obj gs) r s hr hs h =
      let (same, rest) = fields_unique fs gs r s (ap drop_one h) in (ap obj same, rest)
  show_unique v w r s hr hs h = absurd (ground (arith, same_tag v w r s h))

  items_unique :
      (xs ys : Items) (r s : List ℕ) → show_items xs r ≡ show_items ys s → (xs ≡ ys) × (r ≡ s)
  items_unique nil nil r s h = (refl, ap drop_one h)
  items_unique nil (cons y ys) r s h =
      absurd (kind_of_text-show-ne y (show_more_items ys s) (b']' ∷ r) refl (sym h))
  items_unique (cons x xs) nil r s h =
      absurd (kind_of_text-show-ne x (show_more_items xs r) (b']' ∷ s) refl h)
  items_unique (cons x xs) (cons y ys) r s h =
      let (same, rest) =
        show_unique x y (show_more_items xs r) (show_more_items ys s) (ends_digits-more_items xs r)
          (ends_digits-more_items ys s) h in
      let (more, after) = more_items_unique xs ys r s rest in (ap₂ cons same more, after)

  more_items_unique :
      (xs ys : Items) (r s : List ℕ)
      → show_more_items xs r ≡ show_more_items ys s
      → (xs ≡ ys) × (r ≡ s)
  more_items_unique nil nil r s h = (refl, ap drop_one h)
  more_items_unique nil (cons y ys) r s h = absurd (omega (arith, ap head_or_zero h))
  more_items_unique (cons x xs) nil r s h = absurd (omega (arith, ap head_or_zero h))
  more_items_unique (cons x xs) (cons y ys) r s h =
      let (same, rest) =
        show_unique x y (show_more_items xs r) (show_more_items ys s) (ends_digits-more_items xs r)
          (ends_digits-more_items ys s) (ap drop_one h) in
      let (more, after) = more_items_unique xs ys r s rest in (ap₂ cons same more, after)

  fields_unique :
      (fs gs : Fields) (r s : List ℕ) → show_fields fs r ≡ show_fields gs s → (fs ≡ gs) × (r ≡ s)
  fields_unique end end r s h = (refl, ap drop_one h)
  fields_unique end (field k v fs) r s h = absurd (quote-ne-brace k _ r (sym h))
  fields_unique (field k v fs) end r s h = absurd (quote-ne-brace k _ s h)
  fields_unique (field k v fs) (field j w gs) r s h =
      let (key, colon) =
        quote_unique k j (b':' ∷ show v (show_more_fields fs r))
          (b':' ∷ show w (show_more_fields gs s)) h in
      let (same, rest) =
        show_unique v w (show_more_fields fs r) (show_more_fields gs s)
          (ends_digits-more_fields fs r) (ends_digits-more_fields gs s) (ap drop_one colon) in
      let (more, after) = more_fields_unique fs gs r s rest in
      (λ i. field (key i) (same i) (more i), after)

  more_fields_unique :
      (fs gs : Fields) (r s : List ℕ)
      → show_more_fields fs r ≡ show_more_fields gs s
      → (fs ≡ gs) × (r ≡ s)
  more_fields_unique end end r s h = (refl, ap drop_one h)
  more_fields_unique end (field k v fs) r s h = absurd (omega (arith, ap head_or_zero h))
  more_fields_unique (field k v fs) end r s h = absurd (omega (arith, ap head_or_zero h))
  more_fields_unique (field k v fs) (field j w gs) r s h =
      let (key, colon) =
        quote_unique k j (b':' ∷ show v (show_more_fields fs r))
          (b':' ∷ show w (show_more_fields gs s)) (ap drop_one h) in
      let (same, rest) =
        show_unique v w (show_more_fields fs r) (show_more_fields gs s)
          (ends_digits-more_fields fs r) (ends_digits-more_fields gs s) (ap drop_one colon) in
      let (more, after) = more_fields_unique fs gs r s rest in
      (λ i. field (key i) (same i) (more i), after)

-- A JSON value is determined by the text that `stringify` writes for it.
pub stringify_unique : (v w : Json) → stringify v ≡ stringify w → v ≡ w
stringify_unique v w h =
    (show_unique v w [] [] refl refl
      (sym (stringify-show v []) ∙ ap (λ t. t ++ []) h ∙ stringify-show w [])).0
