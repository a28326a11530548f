-- ===== src/Security/Tests.antt =====
-- Claims of a token, and a session that is ended.
use metricops_backend.Common.{◌≡◌, refl, String, [], ◌∷◌, some, arith}
use metricops_backend.Common.Patterns.{is_uuid, matches}
use metricops_backend.Json.{num, str, arr, nil, cons}
use metricops_backend.Domain.Errors.{unauthorized}
use metricops_backend.Domain.Principal.{Principal, metrics_read}
use metricops_backend.Effects.{ok, thrown}
use metricops_backend.Database.Tables.{empty_db}
use metricops_backend.Database.Transaction.{Pool}
use metricops_backend.Database.Sample.{toy_crypto, noon, one_o_clock, ann, pool_with}
use metricops_backend.Security.Authentication.{
  JwtPayload, permission_of, add, collect, is_exclusive, principal_of, claims_to_principal,
}
use metricops_backend.Security.Authentication.Granted.{IsGranted, claims_to_principal-IsGranted}
use metricops_backend.Security.Sessions.{
  assert_active, revoke_current, revoke_current-assert_active,
}
use metricops_backend.Common.{ℕ, ◌*◌, ◌^◌, Bool, true, false, ◌⊎◌, List, Option, none, codes, any}
use metricops_backend.Common.Lists.{All}
use metricops_backend.Common.Patterns.{same_codes}
use metricops_backend.Effects.{Result}
use metricops_backend.Security.Egress.{
  Host, Address, ipv4, ipv6, Ipv4Network, parse_cidr, resolve_allowed, normalized, is_local,
  addresses_of, target_denied,
}
use metricops_backend.Security.Egress.Allowed.{IsAllowed, IsFirst, resolve_allowed-IsAllowed}

abbrev customer : String
customer = "123e4567-e89b-42d3-a456-426614174000"

abbrev payload : JwtPayload
payload = record {
  sub = some (str "ann");
  jti = some (str "t1");
  exp = some (num 1700009999);
  customer_id = some (str customer);
  permissions = some (arr (cons (str "metrics:read") (cons (str "root") nil)));
}

abbrev reader : Principal
reader = record {
  subject = "ann";
  customer_id = customer;
  permissions = metrics_read ∷ [];
  token_id = "t1";
  expires_at = 1700009999000;
}

accepted : claims_to_principal payload ≡ ok reader
unfolding claims_to_principal principal_of is_exclusive collect add permission_of is_uuid matches
accepted = refl

claims_to_principal-IsGranted_example : IsGranted payload reader
claims_to_principal-IsGranted_example = claims_to_principal-IsGranted payload reader accepted

abbrev start : Pool
start = pool_with empty_db

revoke_current-assert_active_example :
    (assert_active toy_crypto "k"
      (λ s. s)
      one_o_clock
      ann
      (revoke_current toy_crypto "k" (λ s. s) noon ann "r1" start).1).0
    ≡ thrown unauthorized
revoke_current-assert_active_example =
    revoke_current-assert_active toy_crypto "k" (λ s. s) noon ann "r1" start one_o_clock
      (λ row m same. elim m [ ]) (omega arith)

abbrev office : List Ipv4Network
office = record { network = 10 * 2 ^ 24; mask = 0xff000000 } ∷ []

read_cidr :
    parse_cidr (ipv4 10 1 2 3) (some 8) ≡ ok (record { network = 10 * 2 ^ 24; mask = 0xff000000 })
unfolding parse_cidr metricops_backend.Security.Egress.ipv4_to_number
read_cidr = refl

abbrev no_ip : Host → Option Address
no_ip host = none

abbrev two_addresses : Host → Result (List Address)
two_addresses host = ok (ipv4 10 0 0 5 ∷ ipv4 10 9 9 9 ∷ [])

abbrev mixed_addresses : Host → Result (List Address)
mixed_addresses host = ok (ipv4 10 0 0 5 ∷ ipv4 169 254 169 254 ∷ [])

reached :
    resolve_allowed no_ip two_addresses office [] (codes " DB.Internal. ") ≡ ok (ipv4 10 0 0 5)
unfolding resolve_allowed metricops_backend.Security.Egress.without_last_dot
    metricops_backend.Common.Patterns.lower_all metricops_backend.Security.Egress.trim_end
    metricops_backend.Security.Egress.trim_start same_codes
    metricops_backend.Security.Egress.ends_with metricops_backend.Security.Egress.choose
    metricops_backend.Security.Egress.allowed_of metricops_backend.Security.Egress.is_allowed_ipv4
    metricops_backend.Security.Egress.ipv4_to_number
reached = refl

mixed : resolve_allowed no_ip mixed_addresses office [] (codes "db.internal") ≡ target_denied
unfolding resolve_allowed metricops_backend.Security.Egress.without_last_dot
    metricops_backend.Common.Patterns.lower_all metricops_backend.Security.Egress.trim_end
    metricops_backend.Security.Egress.trim_start same_codes
    metricops_backend.Security.Egress.ends_with metricops_backend.Security.Egress.choose
    metricops_backend.Security.Egress.allowed_of metricops_backend.Security.Egress.is_allowed_ipv4
    metricops_backend.Security.Egress.ipv4_to_number
mixed = refl

local : resolve_allowed no_ip two_addresses office [] (codes "metadata.LOCALHOST.") ≡ target_denied
unfolding resolve_allowed metricops_backend.Security.Egress.without_last_dot
    metricops_backend.Common.Patterns.lower_all metricops_backend.Security.Egress.trim_end
    metricops_backend.Security.Egress.trim_start same_codes
    metricops_backend.Security.Egress.ends_with metricops_backend.Security.Egress.choose
    metricops_backend.Security.Egress.allowed_of metricops_backend.Security.Egress.is_allowed_ipv4
    metricops_backend.Security.Egress.ipv4_to_number
local = refl

resolve_allowed-IsAllowed_example :
    (is_local (normalized (codes " DB.Internal. ")) ≡ false)
    × ((addresses : List Address) × (addresses_of no_ip two_addresses
            (normalized (codes " DB.Internal. "))
          ≡ ok addresses)
        × IsFirst (ipv4 10 0 0 5) addresses
        × ((any (same_codes (normalized (codes " DB.Internal. "))) [] ≡ true)
            ⊎ All (IsAllowed office) addresses))
resolve_allowed-IsAllowed_example =
    resolve_allowed-IsAllowed no_ip two_addresses office [] (codes " DB.Internal. ") (ipv4 10 0 0 5)
      reached
