-- ===== src/Metrics/Targets.antt =====
-- The targets that queries are sent to.

use metricops_backend.Common.{
  String, ◌≡◌, refl, sym, ap, ◌∙◌, Bool, true, false, ◌&&◌, inl, inr, List, [], ◌∷◌, Option, none,
  some, ◌==◌, nat_eq, string_eq, eq_iff, arith, find, Bool-cases, Option-cases,
}
use metricops_backend.Effects.{ok, ok-injective}
use metricops_backend.Database.Tables.{Db, ResourceRow, ConnectionRow}
use metricops_backend.Metrics.Execute.{
  is_selector, queryable, owned_resource, joins, Target, admit_target, target_in, with_selector,
}

find-true : {A : Type 0} (p : A → Bool) (xs : List A) (x : A) → find p xs ≡ some x → p x ≡ true
find-true p [] x h = absurd (cc h)
find-true p (y ∷ xs) x h = elim (Bool-cases (p y)) [
  | inl here ↦ rw (sym (some-injective y x (rw here at h))) here
  | inr other ↦ find-true p xs x (rw other at h)
]
  where
    some-injective : {A : Type 0} (a b : A) → some a ≡ some b → a ≡ b
    some-injective a b e = ap (λ o. elim o [ none ↦ a | some z ↦ z ]) e

-- What a query may be sent to and asked for: an enabled Prometheus connection of the customer, and
-- a selector that has no character with a meaning in the query language.
pub record IsSafe (customer_id : String) (target : Target) : Type 0 where
  pub plain : is_selector target.selector ≡ true
  pub usable : queryable target.connection ≡ true
  pub own : target.connection.customer_id ≡ customer_id

with_selector-IsSafe :
    (customer_id : String) (connection : ConnectionRow) (selector : Option String) (target : Target)
    → queryable connection ≡ true
    → connection.customer_id ≡ customer_id
    → with_selector connection selector ≡ ok target
    → IsSafe customer_id target
with_selector-IsSafe customer_id connection none target usable own h = absurd (cc h)
with_selector-IsSafe customer_id connection (some selector) target usable own h =
    elim (Bool-cases (is_selector selector)) [
      | inr odd ↦ absurd (cc (rw odd at h))
      | inl plain ↦
          rw
            (sym (
              ok-injective (record { connection = connection; selector = selector }) target
                (rw plain at h)))
            (record { plain = plain; usable = usable; own = own })
    ]

admit_target-IsSafe :
    (customer_id : String) (resource : ResourceRow) (found : Option ConnectionRow) (target : Target)
    → resource.customer_id ≡ customer_id
    → ((connection : ConnectionRow) → found ≡ some connection → joins resource connection ≡ true)
    → admit_target resource found ≡ ok target
    → IsSafe customer_id target
unfolding admit_target
admit_target-IsSafe customer_id resource none target own joined h =
    elim (Bool-cases (resource.resource_type == "linux_host")) [
      | inl linux ↦ absurd (cc (rw (admit_target, linux) at h))
      | inr other ↦ absurd (cc (rw (admit_target, other) at h))
    ]
admit_target-IsSafe customer_id resource (some connection) target own joined h =
    elim (Bool-cases (resource.resource_type == "linux_host")) [
      | inr other ↦ absurd (cc (rw (admit_target, other) at h))
      | inl linux ↦ elim (Bool-cases (queryable connection)) [
        | inr off ↦ absurd (cc (rw (admit_target, linux, off) at h))
        | inl usable ↦
            with_selector-IsSafe customer_id connection resource.monitoring_selector target usable
              (joins-customer resource.monitoring_connection_id (joined connection refl) ∙ own)
              (rw (admit_target, linux, usable) at h)
      ]
    ]
  where
    joins-customer :
        (o : Option String)
        → (elim o [
          | none ↦ false
          | some id ↦ connection.customer_id == resource.customer_id && connection.id == id
        ])
          ≡ true
        → connection.customer_id ≡ resource.customer_id
    joins-customer none e = absurd (cc e)
    joins-customer (some id) e = ground (arith, eq_iff connection.customer_id resource.customer_id)

-- Every target that the tables give to a query is a safe one.
pub target_in-IsSafe :
    (customer_id id : String) (db : Db) (target : Target)
    → target_in customer_id id db ≡ ok target
    → IsSafe customer_id target
unfolding target_in
target_in-IsSafe customer_id id db target h =
    elim (Option-cases (find (owned_resource customer_id id) db.resources)) [
      | inl absent ↦ absurd (cc (rw (target_in, absent) at h))
      | inr (resource, found) ↦
          let owned = find-true (owned_resource customer_id id) db.resources resource found in
          admit_target-IsSafe customer_id resource (find (joins resource) db.connections) target
            (ground (arith, eq_iff resource.customer_id customer_id))
            (λ connection e. find-true (joins resource) db.connections connection e)
            (rw (target_in, found) at h)
    ]
