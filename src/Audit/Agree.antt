-- ===== src/Audit/Agree.antt =====
-- Heads matter to the verifier only by what they say of each customer: sorting the anchors and
-- building a map of them again changes nothing.
use metricops_backend.Common.{
  String, ◌≡◌, refl, sym, ap, ◌∙◌, Bool, false, inl, inr, List, [], ◌∷◌, Option, none, some, arith,
  ◌==◌, string_eq, eq_iff, if◌then◌else◌, Bool-cases,
}
use metricops_backend.Effects.{ok, Result-cases, ok-injective}
use metricops_backend.Database.Tables.{AuditRow}
use metricops_backend.Database.Transaction.{Crypto}
use metricops_backend.Audit.{
  AuditAnchor, Heads, get, set, anchor_of, verify_event, verify_from, map_of, insert_anchor,
  sort_anchors,
}
use metricops_backend.Audit.Chain.{get-set, verify_event-get}

abbrev pub Agree : Heads → Heads → Type 0
Agree heads heads' = (c : String) → get heads c ≡ get heads' c

-- no customer stands twice
abbrev pub Distinct : Heads → Type 0
Distinct [] = Unit
Distinct (anchor ∷ rest) = (get rest anchor.customer_id ≡ none) × Distinct rest

abbrev or_else : Option AuditAnchor → Option AuditAnchor → Option AuditAnchor
or_else none b = b
or_else (some a) b = some a

get-map_of :
    (xs heads : Heads) (c : String)
    → Distinct xs
    → get (map_of xs heads) c ≡ or_else (get xs c) (get heads c)
unfolding map_of get
get-map_of [] heads c d = refl
get-map_of (a ∷ xs) heads c d = elim (Bool-cases (a.customer_id == c)) [
  | inl e ↦
      let absent : get xs c ≡ none = ap (get xs) (sym ((eq_iff a.customer_id c).0 e)) ∙ d.0 in
      get-map_of xs (set heads a) c d.1 ∙ rw (e, absent, get-set heads a c, e)
  | inr e ↦ get-map_of xs (set heads a) c d.1 ∙ rw (e, get-set heads a c, e)
]

get-insert_anchor :
    (precedes : String → String → Bool) (a : AuditAnchor) (xs : Heads) (c : String)
    → get xs a.customer_id ≡ none
    → get (insert_anchor precedes a xs) c ≡ (if a.customer_id == c then some a else get xs c)
unfolding insert_anchor get
get-insert_anchor precedes a [] c h = refl
get-insert_anchor precedes a (b ∷ xs) c h = ground (
  arith,
  get-insert_anchor precedes a xs c,
  eq_iff b.customer_id c,
  eq_iff a.customer_id c,
  eq_iff b.customer_id a.customer_id,
)

get-sort_anchors :
    (precedes : String → String → Bool) (xs : Heads) (c : String)
    → Distinct xs
    → get (sort_anchors precedes xs) c ≡ get xs c
unfolding sort_anchors get
get-sort_anchors precedes [] c d = refl
get-sort_anchors precedes (a ∷ xs) c d =
    get-insert_anchor precedes a (sort_anchors precedes xs) c
      (get-sort_anchors precedes xs a.customer_id d.1 ∙ d.0)
    ∙ rw (get-sort_anchors precedes xs c d.1)

Distinct-insert_anchor :
    (precedes : String → String → Bool) (a : AuditAnchor) (xs : Heads)
    → get xs a.customer_id ≡ none
    → Distinct xs
    → Distinct (insert_anchor precedes a xs)
unfolding insert_anchor get
Distinct-insert_anchor precedes a [] h d = (refl, tt)
Distinct-insert_anchor precedes a (b ∷ xs) h d =
    elim (Bool-cases (precedes b.customer_id a.customer_id)) [
      | inr after ↦ rw after (h, d)
      | inl before ↦ elim (Bool-cases (b.customer_id == a.customer_id)) [
        | inl e ↦ absurd (cc (rw e at h))
        | inr e ↦
            let rest : get xs a.customer_id ≡ none = rw e at h in
            let other : (a.customer_id == b.customer_id) ≡ false =
              ground
                (arith, eq_iff a.customer_id b.customer_id, eq_iff b.customer_id a.customer_id) in
            rw before (
              get-insert_anchor precedes a xs b.customer_id rest ∙ rw (other, d.0),
              Distinct-insert_anchor precedes a xs rest d.1,
            )
      ]
    ]

Distinct-sort_anchors :
    (precedes : String → String → Bool) (xs : Heads)
    → Distinct xs
    → Distinct (sort_anchors precedes xs)
unfolding sort_anchors
Distinct-sort_anchors precedes [] d = tt
Distinct-sort_anchors precedes (a ∷ xs) d =
    Distinct-insert_anchor precedes a (sort_anchors precedes xs)
      (get-sort_anchors precedes xs a.customer_id d.1 ∙ d.0) (Distinct-sort_anchors precedes xs d.1)

Distinct-set : (heads : Heads) (a : AuditAnchor) → Distinct heads → Distinct (set heads a)
unfolding set get
Distinct-set [] a d = (refl, tt)
Distinct-set (b ∷ heads) a d = elim (Bool-cases (b.customer_id == a.customer_id)) [
  | inl e ↦ rw e (ap (get heads) (sym ((eq_iff b.customer_id a.customer_id).0 e)) ∙ d.0, d.1)
  | inr e ↦
      let other : (a.customer_id == b.customer_id) ≡ false =
        ground (arith, eq_iff a.customer_id b.customer_id, eq_iff b.customer_id a.customer_id) in
      rw e (get-set heads a b.customer_id ∙ rw (other, d.0), Distinct-set heads a d.1)
]

-- the anchors that a page ends with, taken as the next page's heads
pub map_of-sort_anchors :
    (precedes : String → String → Bool) (heads : Heads)
    → Distinct heads
    → Agree (map_of (sort_anchors precedes heads) []) heads
unfolding get
map_of-sort_anchors precedes heads d c =
    get-map_of (sort_anchors precedes heads) [] c (Distinct-sort_anchors precedes heads d)
    ∙ ap (λ o. or_else o none) (get-sort_anchors precedes heads c d)
    ∙ or_else_none (get heads c)
  where
    or_else_none : (o : Option AuditAnchor) → or_else o none ≡ o
    or_else_none none = refl
    or_else_none (some a) = refl

pub Distinct-map_of : (xs heads : Heads) → Distinct heads → Distinct (map_of xs heads)
unfolding map_of
Distinct-map_of [] heads d = d
Distinct-map_of (a ∷ xs) heads d = Distinct-map_of xs (set heads a) (Distinct-set heads a d)

module _ (crypto : Crypto) (key : String) where
  verify_event-set :
      (heads heads' : Heads) (e : AuditRow)
      → verify_event crypto key heads e ≡ ok heads'
      → set heads (anchor_of e) ≡ heads'
  unfolding verify_event
  verify_event-set heads heads' e h = ground arith

  pub verify_from-Distinct :
      (heads heads' : Heads) (es : List AuditRow)
      → Distinct heads
      → verify_from crypto key heads es ≡ ok heads'
      → Distinct heads'
  unfolding verify_from
  verify_from-Distinct heads heads' [] d h = rw (← ok-injective heads heads' h) d
  verify_from-Distinct heads heads' (e ∷ es) d h =
      elim (Result-cases (verify_event crypto key heads e)) [
        | inr (t, failed) ↦ absurd (cc (rw (failed, verify_from) at h))
        | inl (mid, done) ↦
            verify_from-Distinct mid heads' es
              (rw (← verify_event-set heads mid e done) (Distinct-set heads (anchor_of e) d))
              (rw (done, verify_from) at h)
      ]

  verify_event-Agree :
      (heads other heads' : Heads) (e : AuditRow)
      → Agree heads other
      → verify_event crypto key heads e ≡ ok heads'
      → verify_event crypto key other e ≡ ok (set other (anchor_of e))
  unfolding verify_event
  verify_event-Agree heads other heads' e agree h = ground (arith, agree e.customer_id)

  -- Heads that agree are verified from alike, and end in heads that agree.
  pub verify_from-Agree :
      (heads other heads' : Heads) (es : List AuditRow)
      → Agree heads other
      → verify_from crypto key heads es ≡ ok heads'
      → (other' : Heads) × (verify_from crypto key other es ≡ ok other') × Agree heads' other'
  unfolding verify_from
  verify_from-Agree heads other heads' [] agree h =
      (other, refl, λ c. ap (λ x. get x c) (sym (ok-injective heads heads' h)) ∙ agree c)
  verify_from-Agree heads other heads' (e ∷ es) agree h =
      elim (Result-cases (verify_event crypto key heads e)) [
        | inr (t, failed) ↦ absurd (cc (rw (failed, verify_from) at h))
        | inl (mid, done) ↦
            let done' = verify_event-Agree heads other mid e agree done in
            let alike : Agree mid (set other (anchor_of e)) = λ c. rw (
              verify_event-get crypto key heads mid e c done,
              get-set other (anchor_of e) c,
              agree c,
            ) in
            let (other', verified, agree') =
              verify_from-Agree mid (set other (anchor_of e)) heads' es alike
                (rw (done, verify_from) at h) in
            (other', rw (done', verify_from) verified, agree')
      ]
