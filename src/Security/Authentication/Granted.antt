-- ===== src/Security/Authentication/Granted.antt =====
-- Which permissions a principal has.
use metricops_backend.Common.{
  length, ℕ, ◌≤◌, String, ◌≡◌, refl, sym, ap, ◌∙◌, Bool, true, false, ◌||◌, List, [], ◌∷◌, ◌++◌,
  Option, none, some, any, find, ltb, ◌==◌, string_eq, nat_eq, eq_iff, arith, Bool-cases,
  Option-cases, inl, inr,
}
use metricops_backend.Common.Patterns.{is_uuid}
use metricops_backend.Json.{Json, null, bool, num, str, arr, obj, Items, nil, cons}
use metricops_backend.Domain.Principal.{
  Permission, permission_text, same_permission, Principal, has_permission, platform_admin,
  connection_read, connection_write, connection_validate, job_read, resource_read, resource_write,
  resource_discover, metrics_read, alert_read, incident_read, incident_write, report_read,
  audit_read,
}
use metricops_backend.Effects.{ok, ok-injective}
use metricops_backend.Security.Authentication.{
  JwtPayload, permission_of, add, add_known, add_value, collect, uuid_text, short_list,
  is_exclusive, principal_of, claims_to_principal, spells, known_permissions, size,
}

-- a permission is among the texts of a list
unfoldable pub names : Permission → Items → Bool
names permission nil = false
names permission (cons (str text) rest) =
    permission_text permission == text || names permission rest
names permission (cons _ rest) = names permission rest

any-snoc :
    (p : Permission → Bool) (set : List Permission) (x : Permission)
    → any p (set ++ x ∷ []) ≡ (any p set || p x)
any-snoc p [] x = ground arith
any-snoc p (y ∷ set) x = ground (arith, any-snoc p set x)

find-spells :
    (text : String) (permission : Permission) (all : List Permission)
    → find (spells text) all ≡ some permission
    → permission_text permission ≡ text
find-spells text permission [] h = absurd (cc h)
find-spells text permission (p ∷ all) h = elim (Bool-cases (permission_text p == text)) [
  | inl e ↦
      ap permission_text (sym (some_same p permission (rw e at h)))
      ∙ (eq_iff (permission_text p) text).0 e
  | inr e ↦ find-spells text permission all (rw e at h)
]
  where
    some_same : (a b : Permission) → some a ≡ some b → a ≡ b
    some_same a b e = ap (λ o. elim o [ none ↦ a | some x ↦ x ]) e

permission_of_sound :
    (text : String) (permission : Permission)
    → permission_of text ≡ some permission
    → permission_text permission ≡ text
unfolding permission_of
permission_of_sound text permission h = find-spells text permission known_permissions h

permission_of-permission_text :
    (permission : Permission) → permission_of (permission_text permission) ≡ some permission
unfolding permission_of
permission_of-permission_text connection_read = refl
permission_of-permission_text connection_write = refl
permission_of-permission_text connection_validate = refl
permission_of-permission_text job_read = refl
permission_of-permission_text resource_read = refl
permission_of-permission_text resource_write = refl
permission_of-permission_text resource_discover = refl
permission_of-permission_text metrics_read = refl
permission_of-permission_text alert_read = refl
permission_of-permission_text incident_read = refl
permission_of-permission_text incident_write = refl
permission_of-permission_text report_read = refl
permission_of-permission_text audit_read = refl
permission_of-permission_text platform_admin = refl

any-same :
    (q r : Permission) (set : List Permission)
    → permission_text q ≡ permission_text r
    → any (same_permission q) set ≡ any (same_permission r) set
any-same q r [] e = refl
any-same q r (p ∷ set) e = rw (e, any-same q r set e)

any-add :
    (q r : Permission) (set : List Permission)
    → any (same_permission q) (add r set)
      ≡ (any (same_permission q) set || permission_text q == permission_text r)
unfolding add
any-add q r set = elim (Bool-cases (any (same_permission r) set)) [
  | inr fresh ↦ rw fresh (any-snoc (same_permission q) set r)
  | inl there ↦ elim (Bool-cases (permission_text q == permission_text r)) [
    | inr other ↦ rw (there, other) (ground arith)
    | inl e ↦
        let old : any (same_permission q) set ≡ true =
          any-same q r set ((eq_iff (permission_text q) (permission_text r)).0 e) ∙ there in
        rw (there, e, old)
  ]
]

any-add_text :
    (q : Permission) (text : String) (set : List Permission)
    → any (same_permission q) (add_known (permission_of text) set)
      ≡ (any (same_permission q) set || permission_text q == text)
any-add_text q text set = elim (Option-cases (permission_of text)) [
  | inr (r, h) ↦ rw h (any-add q r set ∙ rw (permission_of_sound text r h))
  | inl unknown ↦ elim (Bool-cases (permission_text q == text)) [
    | inr other ↦ rw (unknown, other) (ground arith)
    | inl e ↦ absurd (
        cc (
          sym unknown
          ∙ ap permission_of (sym ((eq_iff (permission_text q) text).0 e))
          ∙ permission_of-permission_text q))
  ]
]

any-add_value :
    (q : Permission) (value : Json) (set : List Permission)
    → any (same_permission q) (add_value value set)
      ≡ (any (same_permission q) set || names q (cons value nil))
unfolding names
any-add_value q (str text) set = any-add_text q text set ∙ ground arith
any-add_value q null set = ground arith
any-add_value q (bool b) set = ground arith
any-add_value q (num n) set = ground arith
any-add_value q (arr items) set = ground arith
any-add_value q (obj fields) set = ground arith

names-cons :
    (q : Permission) (value : Json) (rest : Items)
    → names q (cons value rest) ≡ (names q (cons value nil) || names q rest)
unfolding names
names-cons q (str text) rest = ground arith
names-cons q null rest = refl
names-cons q (bool b) rest = refl
names-cons q (num n) rest = refl
names-cons q (arr items) rest = refl
names-cons q (obj fields) rest = refl

any-collect :
    (q : Permission) (items : Items) (set : List Permission)
    → any (same_permission q) (collect items set) ≡ (any (same_permission q) set || names q items)
unfolding collect
any-collect q nil set = unfold names in ground arith
any-collect q (cons value rest) set =
    any-collect q rest (add_value value set)
    ∙ rw (any-add_value q value set, names-cons q value rest) (ground arith)

-- What a token that is accepted gives: its customer is a UUID, a permission is had exactly if the
-- token's list names it, and the platform's administrator has no other one.
pub record IsGranted (payload : JwtPayload) (principal : Principal) : Type 0 where
  pub items : Items
  pub listed : payload.permissions ≡ some (arr items)
  pub customer : payload.customer_id ≡ some (str principal.customer_id)
  pub customer_is_uuid : is_uuid principal.customer_id ≡ true
  pub granted : (q : Permission) → has_permission principal q ≡ names q items
  pub exclusive : has_permission principal platform_admin ≡ true → length principal.permissions ≤ 1

some-injective : {A : Type 0} (a b : A) → some a ≡ some b → a ≡ b
some-injective a b e = ap (λ o. elim o [ none ↦ a | some x ↦ x ]) e

uuid_text_lem :
    (claim : Option Json) (id : String)
    → uuid_text claim ≡ some id
    → (claim ≡ some (str id)) × (is_uuid id ≡ true)
uuid_text_lem (some (str s)) id h = elim (Bool-cases (is_uuid s)) [
  | inl e ↦
      let same = some-injective s id (rw e at h) in
      (ap (λ x. some (str x)) same, ap is_uuid (sym same) ∙ e)
  | inr e ↦ absurd (cc (rw e at h))
]
uuid_text_lem none id h = absurd (cc h)
uuid_text_lem (some null) id h = absurd (cc h)
uuid_text_lem (some (bool b)) id h = absurd (cc h)
uuid_text_lem (some (num n)) id h = absurd (cc h)
uuid_text_lem (some (arr items)) id h = absurd (cc h)
uuid_text_lem (some (obj fields)) id h = absurd (cc h)

short_list_lem :
    (claim : Option Json) (items : Items) → short_list claim ≡ some items → claim ≡ some (arr items)
short_list_lem (some (arr xs)) items h = elim (Bool-cases (ltb 100 (size xs))) [
  | inl e ↦ absurd (cc (rw e at h))
  | inr e ↦ ap (λ x. some (arr x)) (some-injective xs items (rw e at h))
]
short_list_lem none items h = absurd (cc h)
short_list_lem (some null) items h = absurd (cc h)
short_list_lem (some (bool b)) items h = absurd (cc h)
short_list_lem (some (num n)) items h = absurd (cc h)
short_list_lem (some (str s)) items h = absurd (cc h)
short_list_lem (some (obj fields)) items h = absurd (cc h)

-- what a principal was made of
record IsMade (customer : Option String) (list : Option Items) (principal : Principal)
    : Type 0 where
  items : Items
  list_is : list ≡ some items
  customer_is : customer ≡ some principal.customer_id
  set_is : principal.permissions ≡ collect items []
  exclusive : is_exclusive principal.permissions ≡ true

principal_of-IsMade :
    (sub jti : Option String) (exp : Option ℕ) (customer : Option String) (list : Option Items)
    (principal : Principal)
    → principal_of sub jti exp customer list ≡ ok principal
    → IsMade customer list principal
unfolding principal_of
principal_of-IsMade (some sub) (some jti) (some exp) (some customer) (some items) principal h =
    elim (Bool-cases (is_exclusive (collect items []))) [
      | inr e ↦ absurd (cc (rw e at h))
      | inl e ↦
          let same = ok-injective _ principal (rw e at h) in
          record {
            items = items;
            list_is = refl;
            customer_is = ap (λ p. some p.customer_id) same;
            set_is = ap (λ p. p.permissions) (sym same);
            exclusive = ap (λ p. is_exclusive p.permissions) (sym same) ∙ e;
          }
    ]
principal_of-IsMade none jti exp customer list principal h = absurd (cc h)
principal_of-IsMade (some sub) none exp customer list principal h = absurd (cc h)
principal_of-IsMade (some sub) (some jti) none customer list principal h = absurd (cc h)
principal_of-IsMade (some sub) (some jti) (some exp) none list principal h = absurd (cc h)
principal_of-IsMade (some sub) (some jti) (some exp) (some customer) none principal h =
    absurd (cc h)

alone :
    (set : List Permission)
    → is_exclusive set ≡ true
    → any (same_permission platform_admin) set ≡ true
    → length set ≤ 1
unfolding is_exclusive
alone set h there = ground arith

-- Claims that are accepted name a UUID as customer and give exactly the known permissions that
-- the token's list names, the platform administrator's only on its own.
pub claims_to_principal-IsGranted :
    (payload : JwtPayload) (principal : Principal)
    → claims_to_principal payload ≡ ok principal
    → IsGranted payload principal
unfolding claims_to_principal has_permission
claims_to_principal-IsGranted payload principal h =
    let made = principal_of-IsMade _ _ _ _ _ principal h in
    let (customer, is_id) =
      uuid_text_lem payload.customer_id principal.customer_id made.customer_is in
    record {
      items = made.items;
      listed = short_list_lem payload.permissions made.items made.list_is;
      customer = customer;
      customer_is_uuid = is_id;
      granted = λ q. ap (any (same_permission q)) made.set_is ∙ any-collect q made.items [];
      exclusive = alone principal.permissions made.exclusive;
    }
