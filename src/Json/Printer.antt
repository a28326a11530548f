-- ===== src/Json/Printer.antt =====
-- The texts of JSON values, over code points: `JSON.stringify` without white space, and
-- `canonicalJson`, which writes the members of every object in the order of their keys.
use mathlib.Core.WellFounded.{Acc, WellFounded}
use mathlib.Core.Logic.{dite}
use native.Mathlib.Decide.{dec_lt}
use metricops_backend.Common.{
  ℕ, zero, suc, ◌+◌, ◌-◌, ◌/◌, ◌%◌, ◌<◌, String, ◌≡◌, refl, Bool, true, false, List, [], ◌∷◌, ◌++◌,
  arith, ltb, ◌==◌, nat_eq, if◌then◌else◌, codes, utf16,
}
use metricops_backend.Json.{
  Json, null, bool, num, str, arr, obj, nil, cons, end, field, Items, Fields,
}

Acc-below : (k n : ℕ) → n < k → Acc ◌<◌ n
Acc-below zero n h = elim h [ ]
Acc-below (suc k) n h = Acc.intro n (λ m hm. Acc-below k m (omega arith))

unfoldable pub lt_wf : WellFounded ◌<◌
unfolding Acc-below
lt_wf = record { apply = λ n. Acc-below (suc n) n (omega arith) }

unfoldable pub decimal_acc : (n : ℕ) → Acc ◌<◌ n → List ℕ
decimal_acc n (Acc.intro _ smaller) =
    dite (dec_lt 9 n)
      (λ h. decimal_acc (n / 10) (smaller (n / 10) (omega arith)) ++ (b'0' + n % 10) ∷ [])
      (λ _. (b'0' + n) ∷ [])

-- the decimal digits of a number
unfoldable pub decimal : ℕ → List ℕ
unfolding decimal_acc lt_wf dec_lt
decimal n = decimal_acc n (lt_wf.apply n)

abbrev pub hex_digit : ℕ → ℕ
hex_digit n = if ltb n 10 then b'0' + n else b'a' + (n - 10)

-- A character inside a JSON text: the quote, the backslash and control characters are escaped.
unfoldable pub escape : ℕ → List ℕ
escape c =
    if c == 0x22
    then 0x5c ∷ 0x22 ∷ []
    else if c == 0x5c
    then 0x5c ∷ 0x5c ∷ []
    else if c == 8
    then 0x5c ∷ b'b' ∷ []
    else if c == 9
    then 0x5c ∷ b't' ∷ []
    else if c == 10
    then 0x5c ∷ b'n' ∷ []
    else if c == 12
    then 0x5c ∷ b'f' ∷ []
    else if c == 13
    then 0x5c ∷ b'r' ∷ []
    else if ltb c 0x20
    then 0x5c ∷ b'u' ∷ b'0' ∷ b'0' ∷ hex_digit (c / 16) ∷ hex_digit (c % 16) ∷ []
    else c ∷ []

unfoldable pub escape_all : List ℕ → List ℕ
unfolding escape
escape_all [] = []
escape_all (c ∷ cs) = escape c ++ escape_all cs

unfoldable pub quote : String → List ℕ
unfolding escape_all
quote s = 0x22 ∷ (escape_all (codes s) ++ 0x22 ∷ [])

-- `parts.join(",")`
unfoldable pub join : List (List ℕ) → List ℕ
join [] = []
join (x ∷ []) = x
join (x ∷ y ∷ rest) = x ++ b',' ∷ join (y ∷ rest)

abbrev pub member_text : String → List ℕ → List ℕ
member_text key value = quote key ++ b':' ∷ value

unfoldable mutual
  unfolding quote decimal join

  pub stringify : Json → List ℕ
  stringify null = codes "null"
  stringify (bool true) = codes "true"
  stringify (bool false) = codes "false"
  stringify (num n) = decimal n
  stringify (str s) = quote s
  stringify (arr xs) = b'[' ∷ (join (stringify_items xs) ++ b']' ∷ [])
  stringify (obj fs) = b'{' ∷ (join (stringify_fields fs) ++ b'}' ∷ [])

  pub stringify_items : Items → List (List ℕ)
  stringify_items nil = []
  stringify_items (cons x xs) = stringify x ∷ stringify_items xs

  pub stringify_fields : Fields → List (List ℕ)
  stringify_fields end = []
  stringify_fields (field k v fs) = member_text k (stringify v) ∷ stringify_fields fs

-- `<` on lists of UTF-16 code units, the order of `Array.prototype.sort`
abbrev pub units_lt : List ℕ → List ℕ → Bool
units_lt xs [] = false
units_lt [] (y ∷ ys) = true
units_lt (x ∷ xs) (y ∷ ys) =
    let rest = units_lt xs ys in if ltb x y then true else if x == y then rest else false

abbrev pub key_lt : String → String → Bool
key_lt s t = units_lt (utf16 s) (utf16 t)

-- A stable sort by key, of keys with a value each.
module _ {ℓ} {V : Type ℓ} where
  unfoldable pub insert_by_key : String → V → List (String × V) → List (String × V)
  insert_by_key k v [] = (k, v) ∷ []
  insert_by_key k v ((j, w) ∷ rest) =
      if key_lt j k then (j, w) ∷ insert_by_key k v rest else (k, v) ∷ (j, w) ∷ rest

  unfoldable pub sort_by_key : List (String × V) → List (String × V)
  unfolding insert_by_key
  sort_by_key [] = []
  sort_by_key ((k, v) ∷ rest) = insert_by_key k v (sort_by_key rest)

abbrev pub member_texts : List (String × List ℕ) → List (List ℕ)
member_texts [] = []
member_texts ((k, t) ∷ rest) = member_text k t ∷ member_texts rest

unfoldable mutual
  unfolding quote decimal join sort_by_key

  pub canonical_json : Json → List ℕ
  canonical_json null = codes "null"
  canonical_json (bool true) = codes "true"
  canonical_json (bool false) = codes "false"
  canonical_json (num n) = decimal n
  canonical_json (str s) = quote s
  canonical_json (arr xs) = b'[' ∷ (join (canonical_items xs) ++ b']' ∷ [])
  canonical_json (obj fs) =
      b'{' ∷ (join (member_texts (sort_by_key (canonical_fields fs))) ++ b'}' ∷ [])

  pub canonical_items : Items → List (List ℕ)
  canonical_items nil = []
  canonical_items (cons x xs) = canonical_json x ∷ canonical_items xs

  pub canonical_fields : Fields → List (String × List ℕ)
  canonical_fields end = []
  canonical_fields (field k v fs) = (k, canonical_json v) ∷ canonical_fields fs

abbrev sample : Json
sample = obj (field "b" (arr (cons (num 120) (cons null nil))) (field "a" (str "x\"y") end))

stringify-sample : stringify sample ≡ codes "{\"b\":[120,null],\"a\":\"x\\\"y\"}"
unfolding stringify
stringify-sample = refl

canonical_sample : canonical_json sample ≡ codes "{\"a\":\"x\\\"y\",\"b\":[120,null]}"
unfolding canonical_json
canonical_sample = refl
