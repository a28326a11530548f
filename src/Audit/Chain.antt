-- ===== src/Audit/Chain.antt =====
-- The audit log that `append` writes is one that `verifyAuditEvents` accepts, unless an event was
-- digested under a spelling of its customer or request that the table does not keep.
use mathlib.Core.List.{Memᴰ}
use metricops_backend.Common.{
  Bool-cases, ◌⊎◌, ◌≢◌, false, ℕ, ◌+◌, ◌≤◌, ◌<◌, String, ◌≡◌, refl, sym, ap, ◌∙◌, true, inl, inr,
  List, [], ◌∷◌, ◌++◌, Option, none, some, arith, ◌==◌, string_eq, eq_iff, eq_refl, if◌then◌else◌,
}
use metricops_backend.Effects.{ok, Result-cases, bind_result}
use metricops_backend.Database.Tables.{AuditRow}
use metricops_backend.Database.Transaction.{Crypto, Clocks, Client, Server}
use metricops_backend.Audit.{
  AuditInput, AuditAnchor, Heads, get, set, hash_of, anchor_of, same_hash, event_body, digest,
  uuid_text, verify_event, verify_from, newest, chain_hash_of, sealed, append,
}

-- sequences rise along the list and end at most at `upper`
abbrev pub Rising : ℕ → List AuditRow → ℕ → Type 0
Rising lower [] upper = lower ≤ upper
Rising lower (e ∷ rest) upper = (lower < e.sequence) × Rising e.sequence rest upper

Rising-append :
    (lower upper : ℕ) (es : List AuditRow) (e : AuditRow)
    → e.sequence ≡ upper + 1
    → Rising lower es upper
    → Rising lower (es ++ e ∷ []) (upper + 1)
Rising-append lower upper [] e h r = (omega arith, omega arith)
Rising-append lower upper (f ∷ es) e h r = (r.0, Rising-append f.sequence upper es e h r.1)

pub get-set :
    (heads : Heads) (a : AuditAnchor) (c : String)
    → get (set heads a) c ≡ (if a.customer_id == c then some a else get heads c)
unfolding get set
get-set [] a c = refl
get-set (b ∷ heads) a c = ground (
  arith,
  get-set heads a c,
  eq_iff b.customer_id a.customer_id,
  eq_iff b.customer_id c,
  eq_iff a.customer_id c,
)

pub same_hash_iff : (a b : Option String) → same_hash a b ≡ true → a ≡ b
same_hash_iff none none h = refl
same_hash_iff (some a) (some b) h = ap some ((eq_iff a b).0 h)
same_hash_iff none (some b) h = cc
same_hash_iff (some a) none h = cc

pub same_hash_refl : (a : Option String) → same_hash a a ≡ true
same_hash_refl none = refl
same_hash_refl (some a) = eq_refl a

abbrev Above : ℕ → Option AuditRow → Type 0
Above lower none = Unit
Above lower (some f) = lower < f.sequence

-- the newest event within a list lies above its lower bound
newest-Above :
    (c : String) (lower upper : ℕ) (es : List AuditRow)
    → Rising lower es upper
    → Above lower (newest c es)
unfolding newest
newest-Above c lower upper [] r = tt
newest-Above c lower upper (e ∷ es) r = ground (arith, newest-Above c e.sequence upper es r.1)

Memᴰ-left : (e : AuditRow) (xs ys : List AuditRow) → Memᴰ e xs → Memᴰ e (xs ++ ys)
Memᴰ-left e [] ys m = elim m [ ]
Memᴰ-left e (x ∷ xs) ys (Memᴰ.head h) = Memᴰ.head h
Memᴰ-left e (x ∷ xs) ys (Memᴰ.tail m) = Memᴰ.tail (Memᴰ-left e xs ys m)

Memᴰ-last : (xs : List AuditRow) (e : AuditRow) → Memᴰ e (xs ++ e ∷ [])
Memᴰ-last [] e = Memᴰ.head refl
Memᴰ-last (x ∷ xs) e = Memᴰ.tail (Memᴰ-last xs e)

pub neq_of : (a b : String) → (a == b) ≡ false → a ≢ b
neq_of a b h = ground (arith, eq_iff a b)

module _ (crypto : Crypto) (key : String) where
  -- Verifying one list after another is verifying them in turn.
  pub verify_from-append :
      (heads : Heads) (es fs : List AuditRow)
      → verify_from crypto key heads (es ++ fs)
        ≡ bind_result (verify_from crypto key heads es) (λ h. verify_from crypto key h fs)
  unfolding verify_from
  verify_from-append heads [] fs = refl
  verify_from-append heads (e ∷ es) fs = elim (Result-cases (verify_event crypto key heads e)) [
    | inl (heads', done) ↦ rw (done, verify_from) (verify_from-append heads' es fs)
    | inr (t, failed) ↦ rw (failed, verify_from)
  ]

  -- After an accepted event the customer's head is that event, and the others are as before.
  pub verify_event-get :
      (heads heads' : Heads) (e : AuditRow) (c : String)
      → verify_event crypto key heads e ≡ ok heads'
      → get heads' c ≡ (if e.customer_id == c then some (anchor_of e) else get heads c)
  unfolding verify_event
  verify_event-get heads heads' e c h = ground (arith, get-set heads (anchor_of e) c)

  -- the head after an accepted list is the newest event, or the head before it
  abbrev head_after : Option AuditRow → Option String → Option String
  head_after none before = before
  head_after (some e) before = some e.chain_hash

  verify_from-hash :
      (heads heads' : Heads) (es : List AuditRow) (c : String) (lower upper : ℕ)
      → Rising lower es upper
      → verify_from crypto key heads es ≡ ok heads'
      → hash_of (get heads' c) ≡ head_after (newest c es) (hash_of (get heads c))
  unfolding verify_from newest
  verify_from-hash heads heads' [] c lower upper r h = cc
  verify_from-hash heads heads' (e ∷ es) c lower upper r h =
      elim (Result-cases (verify_event crypto key heads e)) [
        | inl (mid, done) ↦
            let rest : verify_from crypto key mid es ≡ ok heads' = rw (done, verify_from) at h in
            let ih = verify_from-hash mid heads' es c e.sequence upper r.1 rest in
            ground (
              arith,
              ih,
              verify_event-get heads mid e c done,
              newest-Above c e.sequence upper es r.1,
            )
        | inr (t, failed) ↦ cc (rw (failed, verify_from) at h)
      ]

  head_after-none : (o : Option AuditRow) → head_after o none ≡ chain_hash_of o
  head_after-none none = refl
  head_after-none (some e) = refl

  -- an event that links to the newest one of its customer and carries its digest is accepted
  verify_event-linked :
      (heads : Heads) (es : List AuditRow) (upper : ℕ) (e : AuditRow)
      → Rising 0 es upper
      → verify_from crypto key [] es ≡ ok heads
      → e.previous_hash ≡ chain_hash_of (newest e.customer_id es)
      → e.chain_hash ≡ digest crypto key e
      → verify_event crypto key heads e ≡ ok (set heads (anchor_of e))
  unfolding verify_event get
  verify_event-linked heads es upper e r h linked sealed_by =
      let head : hash_of (get heads e.customer_id) ≡ e.previous_hash =
        verify_from-hash [] heads es e.customer_id 0 upper r h
        ∙ head_after-none (newest e.customer_id es)
        ∙ sym linked in
      rw (
        head,
        same_hash_refl e.previous_hash,
        (eq_iff (digest crypto key e) e.chain_hash).1 (sym sealed_by),
      )

  -- The events verify from no anchor at all, which leaves these heads.
  abbrev pub Accepted : List AuditRow → Type 0
  Accepted events = (heads : Heads) × (verify_from crypto key [] events ≡ ok heads)

  -- An event of the log carries the digest of itself under another spelling of its customer or
  -- request, one that its uuid columns did not keep.
  pub record Misspelled (events : List AuditRow) : Type 0 where
    pub event : AuditRow
    pub logged : Memᴰ event events
    pub customer : String
    pub request : String
    pub same_customer : uuid_text customer ≡ event.customer_id
    pub same_request : uuid_text request ≡ event.request_id
    pub respelled : (customer ≢ event.customer_id) ⊎ (request ≢ event.request_id)
    pub digested :
        event.chain_hash
        ≡ digest crypto key (record event { customer_id = customer; request_id = request })

  -- The audit table of a server: its sequences rise up to the last one drawn, and its events are
  -- accepted, unless one was digested under a spelling that the table does not keep.
  pub record IsSound (server : Server) : Type 0 where
    pub rising : Rising 0 server.db.audit_events server.audit_sequence
    pub standing : Accepted server.db.audit_events ⊎ Misspelled server.db.audit_events

  Misspelled-append :
      (events : List AuditRow) (e : AuditRow) → Misspelled events → Misspelled (events ++ e ∷ [])
  Misspelled-append events e m = record {
    event = m.event;
    logged = Memᴰ-left m.event events (e ∷ []) m.logged;
    customer = m.customer;
    request = m.request;
    same_customer = m.same_customer;
    same_request = m.same_request;
    respelled = m.respelled;
    digested = m.digested;
  }

  module _ (clocks : Clocks) (input : AuditInput) where
    -- the inserted row carries the digest of its event in the caller's spelling
    sealed-digest :
        (server : Server)
        → (sealed crypto key clocks input server).chain_hash
          ≡ digest crypto key (record (sealed crypto key clocks input server) {
            customer_id = input.customer_id;
            request_id = input.request_id;
          })
    unfolding sealed digest event_body
    sealed-digest server = refl

    sealed-customer :
        (server : Server)
        → (sealed crypto key clocks input server).customer_id ≡ uuid_text input.customer_id
    unfolding sealed
    sealed-customer server = refl

    sealed-request :
        (server : Server)
        → (sealed crypto key clocks input server).request_id ≡ uuid_text input.request_id
    unfolding sealed
    sealed-request server = refl

    sealed-linked :
        (server : Server)
        → (sealed crypto key clocks input server).previous_hash
          ≡ chain_hash_of
              (newest (sealed crypto key clocks input server).customer_id server.db.audit_events)
    unfolding sealed
    sealed-linked server = refl

    sealed-Accepted :
        (server : Server) (heads : Heads)
        → Rising 0 server.db.audit_events server.audit_sequence
        → verify_from crypto key [] server.db.audit_events ≡ ok heads
        → (sealed crypto key clocks input server).chain_hash
          ≡ digest crypto key (sealed crypto key clocks input server)
        → Accepted (server.db.audit_events ++ sealed crypto key clocks input server ∷ [])
    unfolding verify_from
    sealed-Accepted server heads rising verified own =
        let e = sealed crypto key clocks input server in
        (
          set heads (anchor_of e),
          verify_from-append [] server.db.audit_events (e ∷ [])
              ∙ ap (λ r. bind_result r (λ h. verify_from crypto key h (e ∷ []))) verified
              ∙ rw (
                verify_event-linked heads server.db.audit_events server.audit_sequence e rising
                    verified (sealed-linked server) own,
                verify_from,
              ),
        )

    -- a new event is one of the two
    sealed-standing :
        (server : Server)
        → ((sealed crypto key clocks input server).chain_hash
            ≡ digest crypto key (sealed crypto key clocks input server))
          ⊎ Misspelled (server.db.audit_events ++ sealed crypto key clocks input server ∷ [])
    sealed-standing server =
        let e = sealed crypto key clocks input server in
        elim (Bool-cases (input.customer_id == e.customer_id)) [
          | inr other ↦ inr (misspelled (inl (neq_of input.customer_id e.customer_id other)))
          | inl c ↦ elim (Bool-cases (input.request_id == e.request_id)) [
            | inr other ↦ inr (misspelled (inr (neq_of input.request_id e.request_id other)))
            | inl r ↦ inl (
                sealed-digest server
                ∙ ap
                    (λ x.
                      digest crypto key
                        (record e { customer_id = x; request_id = input.request_id }))
                    ((eq_iff input.customer_id e.customer_id).0 c)
                ∙ ap (λ x. digest crypto key (record e { request_id = x }))
                    ((eq_iff input.request_id e.request_id).0 r))
          ]
        ]
      where
        misspelled :
            ((input.customer_id ≢ (sealed crypto key clocks input server).customer_id)
              ⊎ (input.request_id ≢ (sealed crypto key clocks input server).request_id))
            → Misspelled (server.db.audit_events ++ sealed crypto key clocks input server ∷ [])
        misspelled respelled = record {
          event = sealed crypto key clocks input server;
          logged = Memᴰ-last server.db.audit_events (sealed crypto key clocks input server);
          customer = input.customer_id;
          request = input.request_id;
          same_customer = sym (sealed-customer server);
          same_request = sym (sealed-request server);
          respelled = respelled;
          digested = sealed-digest server;
        }

    -- `append` keeps the audit log one that is accepted, or holds an event under another spelling.
    pub append-IsSound :
        (client : Client)
        → IsSound client.server
        → IsSound (append crypto key clocks input client).1.server
    unfolding append
    append-IsSound client s = record {
      rising =
          Rising-append 0 client.audit_sequence client.db.audit_events
            (sealed crypto key clocks input client.server) (unfold sealed in refl) s.rising;
      standing = elim s.standing [
        | inr m ↦ inr (
            Misspelled-append client.db.audit_events (sealed crypto key clocks input client.server)
              m)
        | inl accepted ↦ elim (sealed-standing client.server) [
          | inr m ↦ inr m
          | inl own ↦ inl (sealed-Accepted client.server accepted.0 s.rising accepted.1 own)
        ]
      ];
    }
