-- ===== src/Metrics/Limit.antt =====
-- At most four queries run for a customer, however starts and ends interleave.
use metricops_backend.Common.{
  ℕ, ◌+◌, ◌≤◌, String, ◌≡◌, refl, sym, ap, ◌∙◌, List, [], ◌∷◌, ◌++◌, none, some, leb, ◌==◌,
  string_eq, eq_iff, eq_refl, if◌then◌else◌, arith, Bool-cases, inl, inr,
}
use metricops_backend.Effects.{ok, ok-injective}
use metricops_backend.Metrics.{Active, get, set, delete, or_default, enter, leave}

-- how many of the running queries are a customer's
unfoldable pub count : String → List String → ℕ
count customer [] = 0
count customer (c ∷ rest) = (if c == customer then 1 else 0) + count customer rest

abbrev pub active_of : String → Active → ℕ
active_of customer active = or_default 0 (get customer active)

get-set :
    (c customer : String) (n : ℕ) (active : Active)
    → get c (set customer n active) ≡ (if customer == c then some n else get c active)
unfolding get set
get-set c customer n [] = refl
get-set c customer n (entry ∷ rest) =
    ground (
      arith,
      get-set c customer n rest,
      eq_iff entry.0 customer,
      eq_iff entry.0 c,
      eq_iff customer c,
    )

get-delete :
    (c customer : String) (active : Active)
    → get c (delete customer active) ≡ (if customer == c then none else get c active)
unfolding get delete
get-delete c customer [] = ground arith
get-delete c customer (entry ∷ rest) = ground (
  arith,
  get-delete c customer rest,
  eq_iff entry.0 customer,
  eq_iff entry.0 c,
  eq_iff customer c,
)

-- the customers whose queries run, with the map as the service keeps it, after any sequence of
-- queries that were let in and queries that ended
pub data Running : Active → List String → Type 0 where
  idle : Running [] []
  started :
      (active active' : Active) (running : List String) (customer : String)
      → Running active running
      → enter customer active ≡ ok active'
      → Running active' (customer ∷ running)
  ended :
      (active : Active) (before after : List String) (customer : String)
      → Running active (before ++ customer ∷ after)
      → Running (leave customer active) (before ++ after)

count-append : (c : String) (xs ys : List String) → count c (xs ++ ys) ≡ count c xs + count c ys
unfolding count
count-append c [] ys = omega arith
count-append c (x ∷ xs) ys = omega (arith, count-append c xs ys)

active_of-enter :
    (c customer : String) (active active' : Active)
    → enter customer active ≡ ok active'
    → (active_of customer active + 1 ≤ 4)
      × (active_of c active' ≡ (if customer == c then 1 else 0) + active_of c active)
unfolding enter
active_of-enter c customer active active' h =
    elim (Bool-cases (leb 4 (active_of customer active))) [
      | inl full ↦ absurd (cc (rw full at h))
      | inr room ↦
          let same : set customer (active_of customer active + 1) active ≡ active' =
            ok-injective _ active' (rw room at h) in
          (
            ground arith,
            ap (active_of c) (sym same)
                ∙ ap (or_default 0) (get-set c customer (active_of customer active + 1) active)
                ∙ own c customer active,
          )
    ]
  where
    own :
        (c customer : String) (active : Active)
        → or_default 0
            (if customer == c then some (active_of customer active + 1) else get c active)
          ≡ (if customer == c then 1 else 0) + active_of c active
    own c customer active = elim (Bool-cases (customer == c)) [
      | inr other ↦ rw other (omega arith)
      | inl e ↦ rw (e, (eq_iff customer c).0 e) (omega arith)
    ]

active_of-leave :
    (c customer : String) (active : Active) (n : ℕ)
    → active_of customer active ≡ n + 1
    → active_of c active ≡ (if customer == c then 1 else 0) + active_of c (leave customer active)
unfolding leave
active_of-leave c customer active n h =
    ground (arith, get-set c customer n active, get-delete c customer active, eq_iff customer c, h)

count-cons :
    (c customer : String) (rest : List String)
    → count c (customer ∷ rest) ≡ (if customer == c then 1 else 0) + count c rest
unfolding count
count-cons c customer rest = refl

one_if_same : (c : String) → ◌≡◌ {A = ℕ} (if c == c then 1 else 0) 1
one_if_same c = rw (eq_refl c)

ended_count :
    (c customer : String) (before after : List String)
    → count c (before ++ customer ∷ after)
      ≡ (if customer == c then 1 else 0) + count c (before ++ after)
ended_count c customer before after = omega (
  arith,
  count-append c before (customer ∷ after),
  count-cons c customer after,
  count-append c before after,
)

-- In every reachable state the map holds for each customer the number of its queries that run,
-- and that is at most four.
pub Running-IsBounded :
    (active : Active) (running : List String) (c : String)
    → Running active running
    → (active_of c active ≡ count c running) × (count c running ≤ 4)
unfolding get count
Running-IsBounded active running c idle = (refl, omega arith)
Running-IsBounded active running c (started old _ rest customer r h) =
    let (same, bound) = Running-IsBounded old rest c r in
    let (room, now) = active_of-enter c customer old active h in
    let counted = count-cons c customer rest in
    elim (Bool-cases (customer == c)) [
      | inr other ↦
          let now' = rw other at now in
          let counted' = rw other at counted in
          (omega (arith, same, now', counted'), omega (arith, bound, counted'))
      | inl e ↦
          let now' = rw e at now in
          let counted' = rw e at counted in
          let room' = rw ((eq_iff customer c).0 e) at room in
          (omega (arith, same, now', counted'), omega (arith, same, room', counted'))
    ]
Running-IsBounded active running c (ended old before after customer r) =
    let (same, bound) = Running-IsBounded old (before ++ customer ∷ after) c r in
    let (own, fits) = Running-IsBounded old (before ++ customer ∷ after) customer r in
    let there = ended_count customer customer before after in
    let left = active_of-leave c customer old (count customer (before ++ after)) (
      own
      ∙ there
      ∙ ap (λ n. n + count customer (before ++ after)) (one_if_same customer)
      ∙ omega arith) in
    let counted = ended_count c customer before after in
    (omega (arith, same, left, counted), omega (arith, bound, counted))
