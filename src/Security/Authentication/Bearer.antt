-- ===== src/Security/Authentication/Bearer.antt =====
-- security/authentication.ts: from the Authorization header to a principal. `verify` is
-- `jwtVerify` of the library jose with the issuer, the audience and the other options.
use metricops_backend.Common.{
  ℕ, String, Bool, ◌||◌, ◌&&◌, List, [], ◌∷◌, Option, none, some, ◌==◌, nat_eq, if◌then◌else◌,
  codes, all, length, leb,
}
use metricops_backend.Common.Patterns.{is_alphanumeric}
use metricops_backend.Domain.Errors.{unauthorized}
use metricops_backend.Domain.Principal.{Principal}
use metricops_backend.Effects.{Result, ok, thrown, bind_result}
use metricops_backend.Security.Authentication.{JwtPayload, claims_to_principal}

-- [A-Za-z0-9._~-]
abbrev pub is_token_part : ℕ → Bool
is_token_part c = is_alphanumeric c || c == 46 || c == 95 || c == 126 || c == 45

unfoldable pub strip_prefix : List ℕ → List ℕ → Option (List ℕ)
strip_prefix [] cs = some cs
strip_prefix (p ∷ ps) [] = none
strip_prefix (p ∷ ps) (c ∷ cs) = let rest = strip_prefix ps cs in if p == c then rest else none

abbrev token_in : Option (List ℕ) → Option (List ℕ)
token_in none = none
token_in (some cs) = if leb 1 (length cs) && all is_token_part cs then some cs else none

unfoldable pub bearer_token : Option String → Option (List ℕ)
bearer_token none = none
bearer_token (some header) = token_in (strip_prefix (codes "Bearer ") (codes header))

-- the `catch`: whatever fails is answered alike
abbrev or_refused : Result Principal → Result Principal
or_refused (ok principal) = ok principal
or_refused (thrown t) = thrown unauthorized

unfoldable pub authenticate : (List ℕ → Result JwtPayload) → Option String → Result Principal
authenticate verify header = elim (bearer_token header) [
  | none ↦ thrown unauthorized
  | some token ↦ or_refused (bind_result (verify token) claims_to_principal)
]
