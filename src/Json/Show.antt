-- ===== src/Json/Show.antt =====
-- The text of a JSON value before a given rest, and that it is what `stringify` writes.
use mathlib.Core.List.{append_assoc}
use metricops_backend.Common.{
  ℕ, ◌≡◌, refl, ap, ◌∙◌, true, false, List, [], ◌∷◌, ◌++◌, nat_eq, codes,
}
use metricops_backend.Json.{
  Json, null, bool, num, str, arr, obj, nil, cons, end, field, Items, Fields,
}
use metricops_backend.Json.Printer.{
  decimal, quote, join, stringify, stringify_items, stringify_fields,
}

unfoldable mutual
  pub show : Json → List ℕ → List ℕ
  show null r = codes "null" ++ r
  show (bool true) r = codes "true" ++ r
  show (bool false) r = codes "false" ++ r
  show (num n) r = decimal n ++ r
  show (str s) r = quote s ++ r
  show (arr xs) r = b'[' ∷ show_items xs r
  show (obj fs) r = b'{' ∷ show_fields fs r

  pub show_items : Items → List ℕ → List ℕ
  show_items nil r = b']' ∷ r
  show_items (cons x xs) r = show x (show_more_items xs r)

  pub show_more_items : Items → List ℕ → List ℕ
  show_more_items nil r = b']' ∷ r
  show_more_items (cons x xs) r = b',' ∷ show x (show_more_items xs r)

  pub show_fields : Fields → List ℕ → List ℕ
  show_fields end r = b'}' ∷ r
  show_fields (field k v fs) r = quote k ++ b':' ∷ show v (show_more_fields fs r)

  pub show_more_fields : Fields → List ℕ → List ℕ
  show_more_fields end r = b'}' ∷ r
  show_more_fields (field k v fs) r = b',' ∷ (quote k ++ b':' ∷ show v (show_more_fields fs r))

mutual
  unfolding show stringify

  stringify-append : (v : Json) (r : List ℕ) → stringify v ++ r ≡ show v r
  stringify-append null r = refl
  stringify-append (bool true) r = refl
  stringify-append (bool false) r = refl
  stringify-append (num n) r = refl
  stringify-append (str s) r = refl
  stringify-append (arr xs) r =
      ap (λ t. b'[' ∷ t) (append_assoc (join (stringify_items xs)) (b']' ∷ []) r ∙ join_items xs r)
  stringify-append (obj fs) r =
      ap (λ t. b'{' ∷ t)
        (append_assoc (join (stringify_fields fs)) (b'}' ∷ []) r ∙ join_fields fs r)

  join_items : (xs : Items) (r : List ℕ) → join (stringify_items xs) ++ b']' ∷ r ≡ show_items xs r
  join_items nil r = refl
  join_items (cons x nil) r = stringify-append x (b']' ∷ r)
  join_items (cons x (cons y ys)) r =
      append_assoc (stringify x) (b',' ∷ join (stringify_items (cons y ys))) (b']' ∷ r)
      ∙ stringify-append x (b',' ∷ (join (stringify_items (cons y ys)) ++ b']' ∷ r))
      ∙ ap (λ t. show x (b',' ∷ t)) (join_items (cons y ys) r)

  join_fields :
      (fs : Fields) (r : List ℕ) → join (stringify_fields fs) ++ b'}' ∷ r ≡ show_fields fs r
  join_fields end r = refl
  join_fields (field k v end) r =
      append_assoc (quote k) (b':' ∷ stringify v) (b'}' ∷ r)
      ∙ ap (λ t. quote k ++ b':' ∷ t) (stringify-append v (b'}' ∷ r))
  join_fields (field k v (field j w fs)) r =
      let rest = join (stringify_fields (field j w fs)) in
      append_assoc (quote k ++ b':' ∷ stringify v) (b',' ∷ rest) (b'}' ∷ r)
      ∙ append_assoc (quote k) (b':' ∷ stringify v) (b',' ∷ (rest ++ b'}' ∷ r))
      ∙ ap (λ t. quote k ++ b':' ∷ t)
          (stringify-append v (b',' ∷ (rest ++ b'}' ∷ r))
            ∙ ap (λ t. show v (b',' ∷ t)) (join_fields (field j w fs) r))

-- `stringify` writes what `show` shows before the empty text.
pub stringify-show : (v : Json) (r : List ℕ) → stringify v ++ r ≡ show v r
stringify-show v r = stringify-append v r
