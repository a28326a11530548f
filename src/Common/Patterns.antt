-- ===== src/Common/Patterns.antt =====
-- Regular expressions of the program, as tests on the code points of a text.
use Prim.Native.Nat.{ℕ, ◌+◌}
use Prim.Native.String.{String}
use mathlib.Core.Bool.{Bool, true, false, ◌&&◌, ◌||◌}
use mathlib.Core.List.{List, [], ◌∷◌}
use metricops_backend.Common.Tests.{leb, ◌==◌, nat_eq, if◌then◌else◌}
use metricops_backend.Common.Lists.{length, all}
use metricops_backend.Common.Text.{codes}

abbrev pub between : ℕ → ℕ → ℕ → Bool
between low high c = leb low c && leb c high

abbrev pub is_hex : ℕ → Bool
is_hex c = between 48 57 c || between 97 102 c || between 65 70 c

abbrev pub is_version : ℕ → Bool
is_version c = between 49 56 c

-- 8, 9, a and b, in either case
abbrev pub is_variant : ℕ → Bool
is_variant c = c == 56 || c == 57 || c == 97 || c == 98 || c == 65 || c == 66

abbrev pub is_dash : ℕ → Bool
is_dash c = c == 45

unfoldable pub matches : List (ℕ → Bool) → List ℕ → Bool
matches [] [] = true
matches (p ∷ ps) (c ∷ cs) = p c && matches ps cs
matches _ _ = false

abbrev uuid_pattern : List (ℕ → Bool)
uuid_pattern =
    is_hex ∷ is_hex ∷ is_hex ∷ is_hex ∷ is_hex ∷ is_hex ∷ is_hex ∷ is_hex ∷ is_dash ∷ is_hex
    ∷ is_hex ∷ is_hex ∷ is_hex ∷ is_dash ∷ is_version ∷ is_hex ∷ is_hex ∷ is_hex ∷ is_dash
    ∷ is_variant ∷ is_hex ∷ is_hex ∷ is_hex ∷ is_dash ∷ is_hex ∷ is_hex ∷ is_hex ∷ is_hex ∷ is_hex
    ∷ is_hex ∷ is_hex ∷ is_hex ∷ is_hex ∷ is_hex ∷ is_hex ∷ is_hex ∷ []

unfoldable pub is_uuid : String → Bool
is_uuid s = matches uuid_pattern (codes s)

abbrev pub is_digit : ℕ → Bool
is_digit c = between 48 57 c

abbrev pub is_lower : ℕ → Bool
is_lower c = between 97 122 c

abbrev pub is_upper : ℕ → Bool
is_upper c = between 65 90 c

abbrev pub is_letter : ℕ → Bool
is_letter c = is_lower c || is_upper c

abbrev pub is_alphanumeric : ℕ → Bool
is_alphanumeric c = is_letter c || is_digit c

-- `[…]{low,high}`
unfoldable pub is_run : (ℕ → Bool) → ℕ → ℕ → List ℕ → Bool
is_run p low high cs = leb low (length cs) && leb (length cs) high && all p cs

-- one character and then a run of others
unfoldable pub is_headed_run : (ℕ → Bool) → (ℕ → Bool) → ℕ → List ℕ → Bool
unfolding is_run
is_headed_run first p high [] = false
is_headed_run first p high (c ∷ cs) = first c && is_run p 0 high cs

-- `toLowerCase`, of the letters A to Z
abbrev pub lower : ℕ → ℕ
lower c = if is_upper c then c + 32 else c

unfoldable pub lower_all : List ℕ → List ℕ
lower_all [] = []
lower_all (c ∷ cs) = lower c ∷ lower_all cs

unfoldable pub same_codes : List ℕ → List ℕ → Bool
same_codes [] [] = true
same_codes (c ∷ cs) (d ∷ ds) = c == d && same_codes cs ds
same_codes _ _ = false
