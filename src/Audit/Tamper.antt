-- ===== src/Audit/Tamper.antt =====
-- Two accepted logs that leave a customer the same head hold the same events for the customer,
-- or else they show two texts with one digest.
use mathlib.Core.Path.{subst}
use native.Mathlib.Decide.{ℕ_discrete}
use metricops_backend.Common.{
  ℕ, zero, suc, String, ◌≡◌, ◌≢◌, refl, sym, ap, ◌∙◌, true, ◌⊎◌, inl, inr, List, [], ◌∷◌, Option,
  none, some, arith, ◌==◌, string_eq, eq_iff, if◌then◌else◌, Bool-cases,
}
use metricops_backend.Common.Dates.{to_iso_string}
use metricops_backend.Json.{Json, null, str, obj, end, field, Fields}
use metricops_backend.Json.Printer.{canonical_json, sort_by_key}
use metricops_backend.Json.Canonical.{normal, canonical_json_unique}
use metricops_backend.Effects.{ok, Result-cases}
use metricops_backend.Database.Tables.{AuditRow}
use metricops_backend.Database.Transaction.{Crypto}
use metricops_backend.Audit.{
  Heads, get, hash_of, same_hash, event_body, nullable, digest, verify_event, verify_from,
}
use metricops_backend.Audit.Chain.{verify_event-get, same_hash_iff}

-- What the digest of an event covers: all of its columns but the sequence; its time as the
-- program writes it, and its details up to the order of members.
pub record SameContent (e f : AuditRow) : Type 0 where
  pub id : e.id ≡ f.id
  pub customer : e.customer_id ≡ f.customer_id
  pub actor : e.actor_id ≡ f.actor_id
  pub action : e.action ≡ f.action
  pub resource_type : e.resource_type ≡ f.resource_type
  pub resource_id : e.resource_id ≡ f.resource_id
  pub request : e.request_id ≡ f.request_id
  pub occurred : to_iso_string e.occurred_at ≡ to_iso_string f.occurred_at
  pub details : normal e.details ≡ normal f.details
  pub previous : e.previous_hash ≡ f.previous_hash

abbrev value_at : ℕ → Fields → Json
value_at n end = null
value_at zero (field k v fs) = v
value_at (suc n) (field k v fs) = value_at n fs

abbrev members : Json → Fields
members (obj fs) = fs
members _ = end

abbrev text_of : Json → String
text_of (str s) = s
text_of _ = ""

abbrev hash_text : Json → Option String
hash_text (str s) = some s
hash_text _ = none

hash_text-nullable : (o : Option String) → hash_text (normal (nullable o)) ≡ o
unfolding normal
hash_text-nullable none = refl
hash_text-nullable (some s) = refl

module _ (e f : AuditRow) (h : normal (event_body e) ≡ normal (event_body f)) where
  text_at :
      (n : ℕ)
      → text_of (value_at n (members (normal (event_body e))))
        ≡ text_of (value_at n (members (normal (event_body f))))
  text_at n = ap (λ v. text_of (value_at n (members v))) h

  normal_body : SameContent e f
  unfolding normal event_body sort_by_key
  normal_body = record {
    action = text_at 0;
    actor = text_at 1;
    customer = text_at 2;
    details = ap (λ v. value_at 3 (members v)) h;
    id = text_at 4;
    occurred = text_at 5;
    previous =
        sym (hash_text-nullable e.previous_hash)
        ∙ ap (λ v. hash_text (value_at 6 (members v))) h
        ∙ hash_text-nullable f.previous_hash;
    request = text_at 7;
    resource_id = text_at 8;
    resource_type = text_at 9;
  }

-- one customer's events, the newest first, before a given rest
unfoldable pub history : String → List AuditRow → List AuditRow → List AuditRow
history c older [] = older
history c older (e ∷ es) = history c (if e.customer_id == c then e ∷ older else older) es

abbrev pub SameEvents : List AuditRow → List AuditRow → Type 0
SameEvents [] [] = Unit
SameEvents (e ∷ es) (f ∷ fs) = SameContent e f × (e.chain_hash ≡ f.chain_hash) × SameEvents es fs
SameEvents _ _ = ⊥

Text-discrete : Discrete (List ℕ)
Text-discrete = hlevel ℕ_discrete

module _ (crypto : Crypto) (key : String) where
  -- two texts with one digest
  pub record Collision : Type 0 where
    pub first : List ℕ
    pub second : List ℕ
    pub distinct : first ≢ second
    pub collide : crypto.hmac key first ≡ crypto.hmac key second

  abbrev Linked : List AuditRow → Option String → Type 0
  Linked [] head = head ≡ none
  Linked (e ∷ older) head =
      (head ≡ some e.chain_hash)
      × (digest crypto key e ≡ e.chain_hash)
      × Linked older e.previous_hash

  verify_event_facts :
      (heads heads' : Heads) (e : AuditRow)
      → verify_event crypto key heads e ≡ ok heads'
      → (same_hash (hash_of (get heads e.customer_id)) e.previous_hash ≡ true)
        × (digest crypto key e ≡ e.chain_hash)
  unfolding verify_event
  verify_event_facts heads heads' e h =
      (ground arith, ground (arith, eq_iff (digest crypto key e) e.chain_hash))

  verify_event-Linked :
      (heads heads' : Heads) (e : AuditRow) (c : String) (older : List AuditRow)
      → verify_event crypto key heads e ≡ ok heads'
      → Linked older (hash_of (get heads c))
      → Linked (if e.customer_id == c then e ∷ older else older) (hash_of (get heads' c))
  verify_event-Linked heads heads' e c older h l = elim (Bool-cases (e.customer_id == c)) [
    | inl same ↦
        let (linked, sealed_by) = verify_event_facts heads heads' e h in
        let here : e.customer_id ≡ c = (eq_iff e.customer_id c).0 same in
        rw (same, verify_event-get crypto key heads heads' e c h, same)
          (
            refl,
            sealed_by,
            subst (Linked older)
                (ap (λ x. hash_of (get heads x)) (sym here) ∙ same_hash_iff _ _ linked) l,
          )
    | inr other ↦ rw (other, verify_event-get crypto key heads heads' e c h, other) l
  ]

  verify_from-Linked :
      (heads heads' : Heads) (es : List AuditRow) (c : String) (older : List AuditRow)
      → verify_from crypto key heads es ≡ ok heads'
      → Linked older (hash_of (get heads c))
      → Linked (history c older es) (hash_of (get heads' c))
  unfolding verify_from history
  verify_from-Linked heads heads' [] c older h l =
      let same : heads ≡ heads' = cc in subst (λ x. Linked older (hash_of (get x c))) same l
  verify_from-Linked heads heads' (e ∷ es) c older h l =
      elim (Result-cases (verify_event crypto key heads e)) [
        | inl (mid, done) ↦
            verify_from-Linked mid heads' es c _ (rw (done, verify_from) at h)
              (verify_event-Linked heads mid e c older done l)
        | inr (t, failed) ↦ cc (rw (failed, verify_from) at h)
      ]

  Collision-digest :
      (e f : AuditRow)
      → canonical_json (event_body e) ≢ canonical_json (event_body f)
      → digest crypto key e ≡ digest crypto key f
      → Collision
  unfolding digest
  Collision-digest e f differ same = record {
    first = canonical_json (event_body e);
    second = canonical_json (event_body f);
    distinct = differ;
    collide = same;
  }

  Linked-unique :
      (es fs : List AuditRow) (head : Option String)
      → Linked es head
      → Linked fs head
      → SameEvents es fs ⊎ Collision
  Linked-unique [] [] head l m = inl tt
  Linked-unique [] (f ∷ fs) head l m = cc (l, m.0)
  Linked-unique (e ∷ es) [] head l m = cc (m, l.0)
  Linked-unique (e ∷ es) (f ∷ fs) head l m =
      let hash : e.chain_hash ≡ f.chain_hash = cc (l.0, m.0) in
      elim (Text-discrete (canonical_json (event_body e)) (canonical_json (event_body f))) [
        | yes same ↦
            let content =
              normal_body e f (canonical_json_unique (event_body e) (event_body f) same) in
            elim (Linked-unique es fs e.previous_hash l.2
              (subst (Linked fs) (sym content.previous) m.2)) [
                | inl rest ↦ inl (content, hash, rest)
                | inr collision ↦ inr collision
              ]
        | no differ ↦ inr (Collision-digest e f differ (l.1 ∙ hash ∙ sym m.1))
      ]

  -- If two logs verify with one key from no anchor, and leave a customer the same chain hash (or
  -- none), then the customer's events in both agree one by one in all that the digest covers and
  -- in their hashes, or else two different texts with the same HMAC are at hand.
  pub verify_from_unique :
      (es fs : List AuditRow) (heads heads' : Heads) (c : String)
      → verify_from crypto key [] es ≡ ok heads
      → verify_from crypto key [] fs ≡ ok heads'
      → hash_of (get heads c) ≡ hash_of (get heads' c)
      → SameEvents (history c [] es) (history c [] fs) ⊎ Collision
  unfolding get
  verify_from_unique es fs heads heads' c h k same =
      Linked-unique (history c [] es) (history c [] fs) (hash_of (get heads c))
        (verify_from-Linked [] heads es c [] h refl)
        (subst (Linked (history c [] fs)) (sym same) (verify_from-Linked [] heads' fs c [] k refl))
