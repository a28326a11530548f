-- ===== src/Alerts/Replay.antt =====
-- A delivery that is accepted was signed in time, and is accepted once.
use metricops_backend.Common.{
  ℕ, ◌+◌, ◌*◌, ◌≤◌, String, ◌≡◌, refl, sym, ap, ◌∙◌, inl, inr, true, false, List, Option, none,
  some, any, arith, Bool-cases, Option-cases, ◌==◌, string_eq, nat_eq,
}
use metricops_backend.Json.{Json}
use metricops_backend.Domain.Errors.{Thrown}
use metricops_backend.Effects.{Exec, Result, ok, thrown, ok-injective}
use metricops_backend.Database.Transaction.{Crypto, Clocks, Pool}
use metricops_backend.Database.Atomic.{begun, transaction_ok, unchanged}
use metricops_backend.Alerts.Signature.{
  WebhookEnvelope, WebhookHeaders, is_outside, parse_timestamp, parse_nonce, envelope_of,
  parse_webhook_envelope,
}
use metricops_backend.Alerts.Ingest.{
  WebhookRuntime, has_receipt, ingest_work, context, ingest, replayed_delivery,
}
use metricops_backend.Alerts.Delivery.{
  IsAuthentic, Delivery, turned_away, worked_on, run-Delivery, run, after_read, after_read-db,
}
use metricops_backend.Alerts.Kept.{ingest_work-receipt, ingest_work-known}

-- the parts of an envelope
envelope_parts :
    (stamp : Option ℕ) (word : Option String) (code : Option (List ℕ)) (envelope : WebhookEnvelope)
    → envelope_of stamp word code ≡ ok envelope
    → (stamp ≡ some envelope.timestamp) × (word ≡ some envelope.nonce)
unfolding envelope_of
envelope_parts (some t) (some n) (some s) envelope h =
    let e = ok-injective _ envelope h in (ap (λ x. some x.timestamp) e, ap (λ x. some x.nonce) e)
envelope_parts none word code envelope h = absurd (cc h)
envelope_parts (some t) none code envelope h = absurd (cc h)
envelope_parts (some t) (some n) none envelope h = absurd (cc h)

in_window :
    (integer_of : String → Option ℕ) (now : ℕ) (text : Option String) (timestamp : ℕ)
    → parse_timestamp integer_of now text ≡ some timestamp
    → is_outside now timestamp ≡ false
unfolding parse_timestamp
in_window integer_of now none timestamp h = absurd (cc h)
in_window integer_of now (some text) timestamp h = elim (Bool-cases (text == "")) [
  | inl empty ↦ absurd (cc (rw empty at h))
  | inr full ↦ elim (Option-cases (integer_of text)) [
    | inl bad ↦ absurd (cc (rw (full, bad) at h))
    | inr (n, read) ↦ elim (Bool-cases (is_outside now n)) [
      | inl out ↦ absurd (cc (rw (full, read, out) at h))
      | inr fits ↦
          let same : some n ≡ some timestamp = rw (full, read, fits) at h in
          ap (is_outside now) (sym (ap (or_zero) same)) ∙ fits
    ]
  ]
]
  where
    or_zero : Option ℕ → ℕ
    or_zero none = 0
    or_zero (some n) = n

some-injective : {A : Type 0} (a b : A) → some a ≡ some b → a ≡ b
some-injective a b e = ap (λ o. elim o [ none ↦ a | some x ↦ x ]) e

module _ (crypto : Crypto) (hmac_key : String) (runtime : WebhookRuntime)
    (customer_id connection_id : String) where
  -- what an accepted delivery had
  pub record IsAccepted (clocks : Clocks) (meanwhile : Pool → Pool) (headers : WebhookHeaders)
      (body : List ℕ) (request_id : String) (pool pool' : Pool) : Type 0 where
    pub envelope : WebhookEnvelope
    pub authentic :
        IsAuthentic crypto hmac_key runtime clocks customer_id connection_id meanwhile headers body
          request_id pool envelope
    pub late : envelope.timestamp * 1000 ≤ clocks.date_now + 300000
    pub early : clocks.date_now ≤ envelope.timestamp * 1000 + 300000
    pub noted :
        any
          (has_receipt crypto clocks runtime.is_zod_uuid customer_id connection_id envelope.nonce)
          pool'.db.webhook_receipts
        ≡ true

  within :
      (now timestamp : ℕ)
      → is_outside now timestamp ≡ false
      → (timestamp * 1000 ≤ now + 300000) × (now ≤ timestamp * 1000 + 300000)
  unfolding is_outside
  within now timestamp h = ground arith

  module _ (clocks : Clocks) (meanwhile : Pool → Pool) (headers : WebhookHeaders) (body : List ℕ)
      (request_id : String) where
    abbrev first : Exec Pool Json
    first =
        run crypto hmac_key runtime clocks customer_id connection_id meanwhile headers body
          request_id

    IsAccepted-Delivery :
        (pool pool' : Pool) (view : Json) (out : Result Json × Pool)
        → out ≡ (ok view, pool')
        → Delivery crypto hmac_key runtime clocks customer_id connection_id meanwhile headers body
            request_id pool out
        → IsAccepted clocks meanwhile headers body request_id pool pool'
    unfolding parse_webhook_envelope
    IsAccepted-Delivery pool pool' view out e (turned_away t p same from h) =
        absurd (cc (ap (λ x. x.0) (sym h ∙ e)))
    IsAccepted-Delivery pool pool' view out e (worked_on envelope alerts authentic h) =
        let (returned, tables) =
          transaction_ok (context crypto clocks runtime.is_zod_uuid customer_id connection_id)
            (ingest_work crypto clocks runtime.is_zod_uuid customer_id connection_id hmac_key
              envelope alerts request_id)
            (meanwhile (
              after_read crypto hmac_key runtime clocks customer_id connection_id meanwhile headers
                body request_id pool))
            pool' view (sym h ∙ e) in
        let (at, word) = envelope_parts _ _ _ envelope authentic.parsed in
        let (late, early) =
          within clocks.date_now envelope.timestamp (
            in_window runtime.integer_of clocks.date_now headers.timestamp envelope.timestamp at) in
        record {
          envelope = envelope;
          authentic = authentic;
          late = late;
          early = early;
          noted = rw tables (
              ingest_work-receipt crypto clocks runtime.is_zod_uuid customer_id connection_id
                hmac_key envelope alerts request_id _ _ view returned);
        }

    -- A delivery that is accepted has a timestamp within five minutes of the clock and the
    -- signature of its body under the secret of the stored source, and leaves its receipt.
    pub ingest-IsAccepted :
        (pool pool' : Pool) (view : Json)
        → ingest crypto hmac_key runtime clocks customer_id connection_id meanwhile headers body
            request_id pool
          ≡ (ok view, pool')
        → IsAccepted clocks meanwhile headers body request_id pool pool'
    ingest-IsAccepted pool pool' view e = IsAccepted-Delivery pool pool' view _ e (
        run-Delivery crypto hmac_key runtime clocks customer_id connection_id meanwhile headers body
          request_id pool)

    nonce_of :
        (envelope : WebhookEnvelope)
        → parse_webhook_envelope runtime.integer_of clocks.date_now headers ≡ ok envelope
        → parse_nonce headers.nonce ≡ some envelope.nonce
    unfolding parse_webhook_envelope
    nonce_of envelope h = (envelope_parts _ _ _ envelope h).1

    -- a delivery whose receipt is there is not worked on
    refused_Delivery :
        (pool : Pool) (nonce : String) (out : Result Json × Pool)
        → parse_nonce headers.nonce ≡ some nonce
        → any
            (has_receipt crypto clocks runtime.is_zod_uuid customer_id connection_id nonce)
            pool.db.webhook_receipts
          ≡ true
        → ((p : Pool) → (meanwhile p).db ≡ p.db)
        → Delivery crypto hmac_key runtime clocks customer_id connection_id meanwhile headers body
            request_id pool out
        → ((e : Thrown) × (out.0 ≡ thrown e)) × (out.1.db ≡ pool.db)
    refused_Delivery pool nonce out named there quiet (turned_away t p same from h) =
        rw h ((t, refl), same)
    refused_Delivery pool nonce out named there quiet (worked_on envelope alerts authentic h) =
        let before =
          after_read crypto hmac_key runtime clocks customer_id connection_id meanwhile headers body
            request_id pool in
        let same_db : (meanwhile before).db ≡ pool.db =
          quiet before
          ∙ after_read-db crypto hmac_key runtime clocks customer_id connection_id meanwhile headers
              body request_id pool in
        let same_nonce : nonce ≡ envelope.nonce =
          some-injective nonce envelope.nonce (sym named ∙ nonce_of envelope authentic.parsed) in
        let known : any
              (has_receipt crypto clocks runtime.is_zod_uuid customer_id connection_id
                envelope.nonce)
              (meanwhile before).db.webhook_receipts
            ≡ true =
          rw (same_db, sym same_nonce) there in
        let (answer, tables) =
          unchanged (context crypto clocks runtime.is_zod_uuid customer_id connection_id)
            (ingest_work crypto clocks runtime.is_zod_uuid customer_id connection_id hmac_key
              envelope alerts request_id)
            (meanwhile before) (thrown replayed_delivery)
            (ingest_work-known crypto clocks runtime.is_zod_uuid customer_id connection_id hmac_key
              envelope alerts request_id (begun _ (meanwhile before)) known) in
        rw h ((replayed_delivery, answer), tables ∙ same_db)

  module _ (clocks : Clocks) (meanwhile : Pool → Pool) (headers : WebhookHeaders) (body : List ℕ)
      (request_id : String) where
    -- A delivery whose nonce was accepted before is not accepted again, whatever its other headers,
    -- its body and its time are, where no other request comes in between: it is answered an error,
    -- and it changes no table.
    pub ingest-replay :
        (pool pool' : Pool) (view : Json) (clocks' : Clocks) (meanwhile' : Pool → Pool)
        (headers' : WebhookHeaders) (body' : List ℕ) (request_id' : String)
        → ingest crypto hmac_key runtime clocks customer_id connection_id meanwhile headers body
            request_id pool
          ≡ (ok view, pool')
        → headers'.nonce ≡ headers.nonce
        → ((p : Pool) → (meanwhile' p).db ≡ p.db)
        → ((e : Thrown) × ((ingest crypto hmac_key runtime clocks' customer_id connection_id
                meanwhile' headers' body' request_id' pool').0
              ≡ thrown e))
          × ((ingest crypto hmac_key runtime clocks' customer_id connection_id meanwhile' headers'
                body' request_id' pool').1.db
              ≡ pool'.db)
    ingest-replay pool pool' view clocks' meanwhile' headers' body' request_id' e same_nonce quiet =
        let a = ingest-IsAccepted clocks meanwhile headers body request_id pool pool' view e in
        refused_Delivery clocks' meanwhile' headers' body' request_id' pool' a.envelope.nonce _
          (ap parse_nonce same_nonce
            ∙ nonce_of clocks meanwhile headers body request_id a.envelope a.authentic.parsed)
          a.noted quiet
          (run-Delivery crypto hmac_key runtime clocks' customer_id connection_id meanwhile'
            headers' body' request_id' pool')
