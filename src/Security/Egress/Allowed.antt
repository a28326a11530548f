-- ===== src/Security/Egress/Allowed.antt =====
-- What the egress policy lets through.
use Prim.Native.Nat.{bit_and}
use mathlib.Core.List.{Memᴰ}
use metricops_backend.Common.{
  ℕ, ◌+◌, ◌*◌, ◌^◌, ◌%◌, refl, ◌&&◌, ◌≤◌, ◌≡◌, sym, ap, ◌∙◌, true, false, inl, inr, ◌⊎◌, List, [],
  ◌∷◌, Option, arith, ◌==◌, nat_eq, length, any, Bool-cases,
}
use metricops_backend.Common.Lists.{All}
use metricops_backend.Common.Order.{All-map}
use metricops_backend.Common.Patterns.{same_codes}
use metricops_backend.Effects.{Result, ok, bind_result-ok, ok-injective}
use metricops_backend.Security.Egress.{
  Host, Address, ipv4, ipv6, Ipv4Network, is_octet, ipv4_to_number, is_allowed_ipv4, is_allowed,
  allowed_of, normalized, is_local, choose, addresses_of, resolve_allowed,
}

-- an address that the filter keeps
abbrev Passes : List Ipv4Network → Address → Type 0
Passes networks address = is_allowed networks address ≡ ok true

-- an IPv4 address in an allowed network: the bits that the network's mask leaves are the network's
pub data IsAllowed (networks : List Ipv4Network) : Address → Type 0 where
  in_network :
      (a b c d : ℕ) (n : Ipv4Network)
      → (a ≤ 255) × (b ≤ 255) × (c ≤ 255) × (d ≤ 255)
      → Memᴰ n networks
      → bit_and (a * 2 ^ 24 + b * 2 ^ 16 + c * 2 ^ 8 + d) n.mask ≡ n.network
      → IsAllowed networks (ipv4 a b c d)

matching :
    (number : ℕ) (networks : List Ipv4Network)
    → any (λ n. bit_and number n.mask == n.network) networks ≡ true
    → (n : Ipv4Network) × Memᴰ n networks × (bit_and number n.mask ≡ n.network)
matching number [] h = absurd (cc h)
matching number (n ∷ networks) h = elim (Bool-cases (bit_and number n.mask == n.network)) [
  | inl here ↦ (n, Memᴰ.head refl, ground arith)
  | inr there ↦
      let (found, m, same) = matching number networks (ground arith) in (found, Memᴰ.tail m, same)
]

no_wrap :
    (a b c d : ℕ)
    → a ≤ 255
    → b ≤ 255
    → c ≤ 255
    → d ≤ 255
    → (a * 2 ^ 24 + b * 2 ^ 16 + c * 2 ^ 8 + d) % 2 ^ 32 ≡ a * 2 ^ 24 + b * 2 ^ 16 + c * 2 ^ 8 + d
no_wrap a b c d i j k l = omega (arith, i, j, k, l)

Passes-IsAllowed :
    (networks : List Ipv4Network) (address : Address)
    → Passes networks address
    → IsAllowed networks address
unfolding is_allowed_ipv4 ipv4_to_number
Passes-IsAllowed networks (ipv6 text) h = absurd (cc (ok-injective false true h))
Passes-IsAllowed networks (ipv4 a b c d) h =
    elim (Bool-cases (is_octet a && is_octet b && is_octet c && is_octet d)) [
      | inr wide ↦ absurd (cc (rw wide at h))
      | inl octets ↦
          let i : a ≤ 255 = ground arith in
          let j : b ≤ 255 = ground arith in
          let k : c ≤ 255 = ground arith in
          let l : d ≤ 255 = ground arith in
          let (n, m, same) =
            matching (a * 2 ^ 24 + b * 2 ^ 16 + c * 2 ^ 8 + d) networks
              (ok-injective _ true (rw (octets, no_wrap a b c d i j k l) at h)) in
          in_network a b c d n (i, j, k, l) m same
    ]

allowed_of-length :
    (networks : List Ipv4Network) (addresses allowed : List Address)
    → allowed_of networks addresses ≡ ok allowed
    → length allowed ≤ length addresses
unfolding allowed_of
allowed_of-length networks [] allowed h = rw (sym (ok-injective [] allowed h)) (omega arith)
allowed_of-length networks (address ∷ rest) allowed h =
    let (kept, _, h') = bind_result-ok (is_allowed networks address) _ allowed h in
    let (others, done, last) = bind_result-ok (allowed_of networks rest) _ allowed h' in
    let few = allowed_of-length networks rest others done in
    elim (Bool-cases kept) [
      | inl e ↦
          rw (sym (ok-injective (address ∷ others) allowed (rw e at last))) (omega (arith, few))
      | inr e ↦ rw (sym (ok-injective others allowed (rw e at last))) (omega (arith, few))
    ]

-- A filter that drops nothing keeps the list, and all of it passed the test.
allowed_of-All :
    (networks : List Ipv4Network) (addresses allowed : List Address)
    → allowed_of networks addresses ≡ ok allowed
    → length allowed ≡ length addresses
    → (addresses ≡ allowed) × All (Passes networks) addresses
unfolding allowed_of
allowed_of-All networks [] allowed h n = (ok-injective [] allowed h, tt)
allowed_of-All networks (address ∷ rest) allowed h n =
    let (kept, passed, h') = bind_result-ok (is_allowed networks address) _ allowed h in
    let (others, done, last) = bind_result-ok (allowed_of networks rest) _ allowed h' in
    elim (Bool-cases kept) [
      | inl e ↦
          let same : address ∷ others ≡ allowed =
            ok-injective (address ∷ others) allowed (rw e at last) in
          let m : length others ≡ length rest = omega (arith, n, ap length same) in
          let (ih, all_of) = allowed_of-All networks rest others done m in
          (ap (λ xs. address ∷ xs) ih ∙ same, (passed ∙ ap ok e, all_of))
      | inr e ↦
          let same : others ≡ allowed = ok-injective others allowed (rw e at last) in
          absurd (omega (arith, n, ap length same, allowed_of-length networks rest others done))
    ]

-- the address is the first of the list
abbrev pub IsFirst : Address → List Address → Type 0
IsFirst address [] = ⊥
IsFirst address (first ∷ rest) = first ≡ address

module _ (networks : List Ipv4Network) (hosts : List Host) (name : Host) where
  choose-IsAllowed :
      (addresses : List Address) (address : Address)
      → choose networks hosts name addresses ≡ ok address
      → IsFirst address addresses
        × ((any (same_codes name) hosts ≡ true) ⊎ All (IsAllowed networks) addresses)
  unfolding choose
  choose-IsAllowed [] address h = absurd (cc h)
  choose-IsAllowed (first ∷ rest) address h = elim (Bool-cases (any (same_codes name) hosts)) [
    | inl listed ↦ (ok-injective first address (rw listed at h), inl listed)
    | inr unlisted ↦
        let (allowed, done, h') =
          bind_result-ok (allowed_of networks (first ∷ rest)) _ address (rw unlisted at h) in
        elim (Bool-cases (length allowed == length (first ∷ rest))) [
          | inr some_dropped ↦ absurd (cc (rw some_dropped at h'))
          | inl n ↦
              let (same, all_of) =
                allowed_of-All networks (first ∷ rest) allowed done (ground arith) in
              (
                ok-injective first address (rw (n, sym same) at h'),
                inr (All-map _ _ (first ∷ rest) (Passes-IsAllowed networks) all_of),
              )
        ]
  ]

module _ (is_ip : Host → Option Address) (lookup : Host → Result (List Address)) where
  -- An address that `resolveAllowed` answers is the first of those that the name has, the name is
  -- not a local one, and it is listed in the policy or every one of its addresses is an IPv4
  -- address in an allowed network.
  pub resolve_allowed-IsAllowed :
      (networks : List Ipv4Network) (hosts : List Host) (host : Host) (address : Address)
      → resolve_allowed is_ip lookup networks hosts host ≡ ok address
      → (is_local (normalized host) ≡ false)
        × ((addresses : List Address) × (addresses_of is_ip lookup (normalized host) ≡ ok addresses)
            × IsFirst address addresses
            × ((any (same_codes (normalized host)) hosts ≡ true)
                ⊎ All (IsAllowed networks) addresses))
  unfolding resolve_allowed
  resolve_allowed-IsAllowed networks hosts host address h =
      elim (Bool-cases (is_local (normalized host))) [
        | inl local ↦ absurd (cc (rw local at h))
        | inr remote ↦
            let (addresses, found, chosen) =
              bind_result-ok (addresses_of is_ip lookup (normalized host)) _ address
                (rw remote at h) in
            let (leading, why) =
              choose-IsAllowed networks hosts (normalized host) addresses address chosen in
            (remote, (addresses, found, leading, why))
      ]
