-- ===== src/Json/Scan.antt =====
-- Reading back the texts of strings and numbers: what is printed determines what was printed.
use mathlib.Core.WellFounded.{Acc}
use mathlib.Core.Logic.{dite}
use mathlib.Core.List.{append_assoc}
use mathlib.Core.Path.{ap₂}
use native.Mathlib.Decide.{dec_lt}
use metricops_backend.Common.{
  ℕ, ◌+◌, ◌-◌, ◌*◌, ◌/◌, ◌%◌, ◌<◌, String, ◌≡◌, ◌≢◌, refl, sym, ap, ◌∙◌, Bool, true, ◌&&◌, not,
  List, [], ◌∷◌, ◌++◌, Option, none, some, arith, ltb, leb, ◌==◌, nat_eq, if◌then◌else◌, codes,
  codes-injective,
}
use metricops_backend.Json.Printer.{
  lt_wf, decimal_acc, decimal, hex_digit, escape, escape_all, quote,
}

abbrev hex_value : ℕ → ℕ
hex_value c = if ltb c 58 then c - 48 else c - 87

abbrev short_escape : ℕ → ℕ
short_escape c =
    if c == b'b'
    then 8
    else if c == b't'
    then 9
    else if c == b'n'
    then 10
    else if c == b'f'
    then 12
    else if c == b'r'
    then 13
    else c

abbrev unescape_hex : List ℕ → Option (ℕ × List ℕ)
unescape_hex (a ∷ b ∷ c ∷ d ∷ rest) = some (hex_value c * 16 + hex_value d, rest)
unescape_hex _ = none

abbrev unescape_after : List ℕ → Option (ℕ × List ℕ)
unescape_after [] = none
unescape_after (c ∷ rest) = if c == b'u' then unescape_hex rest else some (short_escape c, rest)

-- the first character of a JSON string's inside, and what follows it
abbrev unescape : List ℕ → Option (ℕ × List ℕ)
unescape [] = none
unescape (c ∷ rest) = if c == 0x5c then unescape_after rest else some (c, rest)

hex_value-hex_digit : (n : ℕ) → n < 16 → hex_value (hex_digit n) ≡ n
hex_value-hex_digit n h = ground arith

unescape-escape : (c : ℕ) (r : List ℕ) → unescape (escape c ++ r) ≡ some (c, r)
unfolding escape
unescape-escape c r = ground arith

abbrev head_or_zero : List ℕ → ℕ
head_or_zero [] = 0
head_or_zero (x ∷ xs) = x

abbrev tail_of : List ℕ → List ℕ
tail_of [] = []
tail_of (x ∷ xs) = xs

head-escape-ne-quote : (c : ℕ) (r : List ℕ) → head_or_zero (escape c ++ r) ≢ 0x22
unfolding escape
head-escape-ne-quote c r = ground arith

some_pair :
    (a b : ℕ) (r s : List ℕ)
    → ◌≡◌ {A = Option (ℕ × List ℕ)} (some (a, r)) (some (b, s))
    → (a ≡ b) × (r ≡ s)
some_pair a b r s h = (cc, cc)

-- What a printed string is, and what follows it, can be read off.
escape_all_unique :
    (xs ys r s : List ℕ)
    → escape_all xs ++ 0x22 ∷ r ≡ escape_all ys ++ 0x22 ∷ s
    → (xs ≡ ys) × (r ≡ s)
unfolding escape_all
escape_all_unique [] [] r s h = (refl, ap tail_of h)
escape_all_unique [] (y ∷ ys) r s h = absurd (
    head-escape-ne-quote y (escape_all ys ++ 0x22 ∷ s)
      (sym (ap head_or_zero (h ∙ append_assoc (escape y) (escape_all ys) (0x22 ∷ s)))))
escape_all_unique (x ∷ xs) [] r s h = absurd (
    head-escape-ne-quote x (escape_all xs ++ 0x22 ∷ r)
      (ap head_or_zero (sym (append_assoc (escape x) (escape_all xs) (0x22 ∷ r)) ∙ h)))
escape_all_unique (x ∷ xs) (y ∷ ys) r s h =
    let (first, after) = some_pair x y (escape_all xs ++ 0x22 ∷ r) (escape_all ys ++ 0x22 ∷ s) (
      sym (unescape-escape x _)
      ∙ ap unescape (
          sym (append_assoc (escape x) (escape_all xs) _)
          ∙ h
          ∙ append_assoc (escape y) (escape_all ys) _)
      ∙ unescape-escape y _) in
    let (same, rest) = escape_all_unique xs ys r s after in (ap₂ ◌∷◌ first same, rest)

pub quote_unique : (a b : String) (r s : List ℕ) → quote a ++ r ≡ quote b ++ s → (a ≡ b) × (r ≡ s)
unfolding quote
quote_unique a b r s h =
    let (same, rest) = escape_all_unique (codes a) (codes b) r s (
      sym (append_assoc (escape_all (codes a)) (0x22 ∷ []) r)
      ∙ ap tail_of h
      ∙ append_assoc (escape_all (codes b)) (0x22 ∷ []) s) in
    (codes-injective a b same, rest)

abbrev pub is_digit : ℕ → Bool
is_digit c = leb b'0' c && leb c b'9'

-- the number that the leading digits write, and what follows them
abbrev read_digits : ℕ → List ℕ → ℕ × List ℕ
read_digits n [] = (n, [])
read_digits n (c ∷ rest) =
    let more = read_digits (n * 10 + (c - b'0')) rest in if is_digit c then more else (n, c ∷ rest)

read_digits_step :
    (n : ℕ) (r : List ℕ) → read_digits (n / 10) ((b'0' + n % 10) ∷ r) ≡ read_digits n r
read_digits_step n r =
    let digit : is_digit (b'0' + n % 10) ≡ true = ground arith in
    let value : n / 10 * 10 + (b'0' + n % 10 - b'0') ≡ n = omega arith in rw (digit, value)

read_digits-decimal_acc :
    (n : ℕ) (w : Acc ◌<◌ n) (r : List ℕ) → read_digits 0 (decimal_acc n w ++ r) ≡ read_digits n r
unfolding decimal_acc
read_digits-decimal_acc n (Acc.intro _ smaller) r =
    (elim (dec_lt 9 n)
      as (λ d.
        read_digits 0 (
          dite d
            (λ h. decimal_acc (n / 10) (smaller (n / 10) (omega arith)) ++ (b'0' + n % 10) ∷ [])
            (λ _. (b'0' + n) ∷ [])
          ++ r)
        ≡ read_digits n r) [
          | yes big ↦ rw append_assoc (
              read_digits-decimal_acc (n / 10) (smaller (n / 10) (omega arith))
                ((b'0' + n % 10) ∷ r)
              ∙ read_digits_step n r)
          | no small ↦ ground arith
        ])

-- a text that a number's digits cannot run on into
abbrev pub ends_digits : List ℕ → Bool
ends_digits [] = true
ends_digits (c ∷ rest) = not (is_digit c)

read_digits-end : (n : ℕ) (r : List ℕ) → ends_digits r ≡ true → read_digits n r ≡ (n, r)
read_digits-end n [] h = refl
read_digits-end n (c ∷ rest) h = ground arith

pub decimal_unique :
    (m n : ℕ) (r s : List ℕ)
    → ends_digits r ≡ true
    → ends_digits s ≡ true
    → decimal m ++ r ≡ decimal n ++ s
    → (m ≡ n) × (r ≡ s)
unfolding decimal
decimal_unique m n r s hr hs h =
    let e : (m, r) ≡ (n, s) =
      sym (read_digits-end m r hr)
      ∙ sym (read_digits-decimal_acc m (lt_wf.apply m) r)
      ∙ ap (read_digits 0) h
      ∙ read_digits-decimal_acc n (lt_wf.apply n) s
      ∙ read_digits-end n s hs in
    (ap (λ p. p.0) e, ap (λ p. p.1) e)
