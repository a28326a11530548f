-- ===== src/Json/Canonical.antt =====
-- `canonicalJson` writes the JSON text of the value whose objects have their keys in order.
use mathlib.Core.Path.{ap₂}
use metricops_backend.Common.{
  String, ◌≡◌, refl, sym, ap, ◌∙◌, true, false, List, [], ◌∷◌, ◌++◌, arith,
}
use metricops_backend.Json.{
  Json, null, bool, num, str, arr, obj, nil, cons, end, field, Items, Fields,
}
use metricops_backend.Json.Printer.{
  join, member_texts, insert_by_key, sort_by_key, stringify, stringify_items, stringify_fields,
  canonical_json, canonical_items, canonical_fields,
}
use metricops_backend.Json.Unique.{stringify_unique}

abbrev of_pairs : List (String × Json) → Fields
of_pairs [] = end
of_pairs ((k, v) ∷ rest) = field k v (of_pairs rest)

-- the value with the members of every object in the order of their keys
unfoldable mutual
  pub normal : Json → Json
  normal null = null
  normal (bool b) = bool b
  normal (num n) = num n
  normal (str s) = str s
  normal (arr xs) = arr (normal_items xs)
  normal (obj fs) = obj (of_pairs (sort_by_key (normal_fields fs)))

  pub normal_items : Items → Items
  normal_items nil = nil
  normal_items (cons x xs) = cons (normal x) (normal_items xs)

  pub normal_fields : Fields → List (String × Json)
  normal_fields end = []
  normal_fields (field k v fs) = (k, normal v) ∷ normal_fields fs

module _ {ℓ κ} {V : Type ℓ} {W : Type κ} (f : V → W) where
  abbrev map_values : List (String × V) → List (String × W)
  map_values [] = []
  map_values ((k, v) ∷ rest) = (k, f v) ∷ map_values rest

  map_values-insert_by_key :
      (k : String) (v : V) (l : List (String × V))
      → map_values (insert_by_key k v l) ≡ insert_by_key k (f v) (map_values l)
  unfolding insert_by_key
  map_values-insert_by_key k v [] = refl
  map_values-insert_by_key k v ((j, w) ∷ rest) = ground (arith, map_values-insert_by_key k v rest)

  map_values-sort_by_key :
      (l : List (String × V)) → map_values (sort_by_key l) ≡ sort_by_key (map_values l)
  unfolding sort_by_key
  map_values-sort_by_key [] = refl
  map_values-sort_by_key ((k, v) ∷ rest) =
      map_values-insert_by_key k v (sort_by_key rest)
      ∙ ap (insert_by_key k (f v)) (map_values-sort_by_key rest)

stringify_fields-of_pairs :
    (l : List (String × Json))
    → stringify_fields (of_pairs l) ≡ member_texts (map_values stringify l)
unfolding stringify
stringify_fields-of_pairs [] = refl
stringify_fields-of_pairs ((k, v) ∷ rest) = rw (stringify_fields-of_pairs rest)

mutual
  unfolding canonical_json stringify normal

  canonical : (v : Json) → canonical_json v ≡ stringify (normal v)
  canonical null = refl
  canonical (bool true) = refl
  canonical (bool false) = refl
  canonical (num n) = refl
  canonical (str s) = refl
  canonical (arr xs) = ap (λ t. b'[' ∷ (join t ++ b']' ∷ [])) (canonical-items xs)
  canonical (obj fs) =
      ap (λ t. b'{' ∷ (join t ++ b'}' ∷ []))
        (ap (λ l. member_texts (sort_by_key l)) (canonical-fields fs)
          ∙ ap member_texts (sym (map_values-sort_by_key stringify (normal_fields fs)))
          ∙ sym (stringify_fields-of_pairs (sort_by_key (normal_fields fs))))

  canonical-items : (xs : Items) → canonical_items xs ≡ stringify_items (normal_items xs)
  canonical-items nil = refl
  canonical-items (cons x xs) = ap₂ ◌∷◌ (canonical x) (canonical-items xs)

  canonical-fields : (fs : Fields) → canonical_fields fs ≡ map_values stringify (normal_fields fs)
  canonical-fields end = refl
  canonical-fields (field k v fs) = λ i. (k, canonical v i) ∷ canonical-fields fs i

-- Two values with one canonical text are the same up to the order of their objects' keys.
pub canonical_json_unique : (v w : Json) → canonical_json v ≡ canonical_json w → normal v ≡ normal w
canonical_json_unique v w h =
    stringify_unique (normal v) (normal w) (sym (canonical v) ∙ h ∙ canonical w)

-- The canonical text is the `JSON.stringify` text of the value with its keys in order.
pub canonical_json-stringify : (v : Json) → canonical_json v ≡ stringify (normal v)
canonical_json-stringify v = canonical v
