-- ===== src/Common/Text.antt =====
-- Texts as lists of code points, for the code that walks them character by character.
use Prim.Native.Nat.{ℕ, ◌+◌, ◌-◌, ◌/◌, ◌%◌}
use Prim.Native.Char.{code}
use Prim.Native.String.{String}
use mathlib.Core.Path.{◌≡◌, refl, ap, ap₂}
use mathlib.Core.List.{List, [], ◌∷◌}
use metricops_backend.Common.Tests.{ltb, if◌then◌else◌}
use text.Mathlib.TextEquality.{Char-path}

-- `String` has its own `[]` and `∷`.
abbrev pub codes : String → List ℕ
codes String.[] = []
codes (String.◌∷◌ c s) = code c ∷ codes s

abbrev head_or_zero : List ℕ → ℕ
head_or_zero [] = 0
head_or_zero (x ∷ xs) = x

abbrev tail_of : List ℕ → List ℕ
tail_of [] = []
tail_of (x ∷ xs) = xs

-- Two texts with the same code points are the same text.
pub codes-injective : (s t : String) → codes s ≡ codes t → s ≡ t
codes-injective String.[] String.[] h = refl
codes-injective String.[] (String.◌∷◌ c t) h = cc
codes-injective (String.◌∷◌ c s) String.[] h = cc
codes-injective (String.◌∷◌ c s) (String.◌∷◌ d t) h =
    ap₂ String.◌∷◌ (Char-path c d (ap head_or_zero h)) (codes-injective s t (ap tail_of h))

-- The UTF-16 code units of a text, which JavaScript counts and compares.
abbrev pub utf16 : String → List ℕ
utf16 String.[] = []
utf16 (String.◌∷◌ c s) =
    let n = code c in
    if ltb n 0x10000
    then n ∷ utf16 s
    else (0xd800 + (n - 0x10000) / 1024) ∷ (0xdc00 + (n - 0x10000) % 1024) ∷ utf16 s

-- `slice(0, n)`: at most n code units, and no half of a pair
unfoldable pub slice_first : ℕ → String → String
slice_first n String.[] = ""
slice_first n (String.◌∷◌ c s) =
    let units : ℕ = if ltb (code c) 0x10000 then 1 else 2 in
    let rest = slice_first (n - units) s in if ltb n units then "" else String.◌∷◌ c rest
