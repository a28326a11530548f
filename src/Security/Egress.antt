-- ===== src/Security/Egress.antt =====
-- security/egress-policy.ts: the addresses that the service may connect to. The runtime's readers
-- (`isIP`, `lookup`) are parameters, and so are the texts of addresses: an address is its octets.
pub mod Allowed
use Prim.Native.Nat.{bit_and}
use metricops_backend.Common.{
  ℕ, zero, suc, ◌+◌, ◌-◌, ◌*◌, ◌/◌, ◌%◌, ◌^◌, Bool, true, false, ◌&&◌, ◌||◌, List, [], ◌∷◌, Option,
  none, some, ltb, leb, ◌==◌, nat_eq, if◌then◌else◌, length, filter, any, codes,
}
use metricops_backend.Common.Patterns.{between, lower_all, same_codes}
use metricops_backend.Domain.Errors.{invalid, plain_error}
use metricops_backend.Effects.{Result, ok, thrown, bind_result}

-- a text, as its code points
abbrev pub Host : Type 0
Host = List ℕ

-- an address with its family: four octets, or the text of one of family 6
pub data Address : Type 0 where
  ipv4 : ℕ → ℕ → ℕ → ℕ → Address
  ipv6 : Host → Address

pub record Ipv4Network : Type 0 where
  pub network : ℕ
  pub mask : ℕ

abbrev pub is_octet : ℕ → Bool
is_octet value = leb value 255

-- `ipv4ToNumber`, of the octets
unfoldable pub ipv4_to_number : Address → Result ℕ
ipv4_to_number (ipv4 a b c d) =
    if is_octet a && is_octet b && is_octet c && is_octet d
    then ok ((a * 2 ^ 24 + b * 2 ^ 16 + c * 2 ^ 8 + d) % 2 ^ 32)
    else thrown (plain_error "Invalid IPv4 address")
ipv4_to_number (ipv6 text) = thrown (plain_error "Invalid IPv4 address")

abbrev pub mask_of : ℕ → ℕ
mask_of prefix = if prefix == 0 then 0 else 0xffffffff * 2 ^ (32 - prefix) % 2 ^ 32

abbrev invalid_cidr : {A : Type 0} → Result A
invalid_cidr = thrown (plain_error "Invalid IPv4 CIDR in CONNECTION_ALLOWED_CIDRS")

-- `parseCidr`, of what `isIP` and `Number` read in the two parts
unfoldable pub parse_cidr : Address → Option ℕ → Result Ipv4Network
parse_cidr (ipv6 text) prefix = invalid_cidr
parse_cidr (ipv4 a b c d) none = invalid_cidr
parse_cidr (ipv4 a b c d) (some prefix) =
    if ltb 32 prefix
    then invalid_cidr
    else bind_result (ipv4_to_number (ipv4 a b c d))
        (λ n. ok (record { network = bit_and n (mask_of prefix); mask = mask_of prefix }))

-- `isAllowedIpv4`
unfoldable pub is_allowed_ipv4 : List Ipv4Network → Address → Result Bool
is_allowed_ipv4 networks address =
    bind_result (ipv4_to_number address)
      (λ candidate. ok (any (λ n. bit_and candidate n.mask == n.network) networks))

-- the test of the `filter`: `family === 4 && …`
abbrev pub is_allowed : List Ipv4Network → Address → Result Bool
is_allowed networks (ipv6 text) = ok false
is_allowed networks (ipv4 a b c d) = is_allowed_ipv4 networks (ipv4 a b c d)

-- `addresses.filter(…)`, whose test may throw
unfoldable pub allowed_of : List Ipv4Network → List Address → Result (List Address)
allowed_of networks [] = ok []
allowed_of networks (address ∷ rest) = bind_result (is_allowed networks address) (λ kept.
    bind_result (allowed_of networks rest)
      (λ others. ok (if kept then address ∷ others else others)))

abbrev is_space : ℕ → Bool
is_space c =
    between 9 13 c
    || c == 32
    || c == 0xa0
    || c == 0x1680
    || between 0x2000 0x200a c
    || between 0x2028 0x2029 c
    || c == 0x202f
    || c == 0x205f
    || c == 0x3000
    || c == 0xfeff

unfoldable pub trim_start : Host → Host
trim_start [] = []
trim_start (c ∷ cs) = let rest = trim_start cs in if is_space c then rest else c ∷ cs

unfoldable pub trim_end : Host → Host
trim_end [] = []
trim_end (c ∷ cs) = elim (trim_end cs) [
  | [] ↦ if is_space c then [] else c ∷ []
  | d ∷ ds ↦ c ∷ d ∷ ds
]

-- `.replace(/\.$/, "")`
unfoldable pub without_last_dot : Host → Host
without_last_dot [] = []
without_last_dot (c ∷ []) = if c == 46 then [] else c ∷ []
without_last_dot (c ∷ d ∷ ds) = c ∷ without_last_dot (d ∷ ds)

abbrev pub normalized : Host → Host
normalized host = without_last_dot (lower_all (trim_end (trim_start host)))

unfoldable pub ends_with : Host → Host → Bool
ends_with word [] = same_codes [] word
ends_with word (c ∷ cs) = same_codes (c ∷ cs) word || ends_with word cs

-- the empty name, `localhost` and the names under it
abbrev pub is_local : Host → Bool
is_local [] = true
is_local (c ∷ cs) =
    same_codes (c ∷ cs) (codes "localhost") || ends_with (codes ".localhost") (c ∷ cs)

abbrev pub target_denied : {A : Type 0} → Result A
target_denied =
    thrown
      (invalid "CONNECTION_TARGET_DENIED" "The connection target is not permitted by egress policy")

abbrev pub dns_failed : {A : Type 0} → Result A
dns_failed = thrown (invalid "CONNECTION_DNS_FAILED" "The connection target could not be resolved")

-- `allowed[0]!.address`
abbrev first_of : List Address → Result Address
first_of [] = thrown (plain_error "Cannot read properties of undefined (reading 'address')")
first_of (address ∷ rest) = ok address

-- what `resolveAllowed` does with a name's addresses
unfoldable pub choose : List Ipv4Network → List Host → Host → List Address → Result Address
choose networks hosts name [] = dns_failed
choose networks hosts name (address ∷ rest) =
    if any (same_codes name) hosts
    then ok address
    else bind_result (allowed_of networks (address ∷ rest)) (λ allowed.
      if length allowed == length (address ∷ rest) then first_of allowed else target_denied)

module _ (is_ip : Host → Option Address) (lookup : Host → Result (List Address)) where
  abbrev pub addresses_of : Host → Result (List Address)
  addresses_of name = elim (is_ip name) [
    | some address ↦ ok (address ∷ [])
    | none ↦ elim (lookup name) [ ok addresses ↦ ok addresses | thrown _ ↦ dns_failed ]
  ]

  -- `EgressPolicy.resolveAllowed`, with the hosts of the policy in lower case
  unfoldable pub resolve_allowed : List Ipv4Network → List Host → Host → Result Address
  resolve_allowed networks hosts host =
      if is_local (normalized host)
      then target_denied
      else bind_result (addresses_of (normalized host)) (choose networks hosts (normalized host))
