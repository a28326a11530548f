-- ===== src/Alerts/Delivery.antt =====
-- How a delivery can end: refused with the tables as they were, or worked on in its transaction
-- after its signature held.
use metricops_backend.Common.{
  ℕ, String, ◌≡◌, refl, sym, ◌∙◌, true, List, find, Bool-cases, ◌⊎◌, inl, inr, codes,
}
use metricops_backend.Common.Patterns.{same_codes}
use metricops_backend.Json.{Json}
use metricops_backend.Domain.Errors.{Thrown}
use metricops_backend.Effects.{Exec, Result, ok, thrown, Result-cases}
use metricops_backend.Database.Transaction.{Crypto, Clocks, Pool, with_tenant_transaction}
use metricops_backend.Database.Atomic.{unchanged}
use metricops_backend.Alerts.Signature.{
  WebhookEnvelope, WebhookHeaders, parse_webhook_envelope, signed_bytes, verify_webhook_signature,
}
use metricops_backend.Alerts.Instances.{Alert}
use metricops_backend.Alerts.Ingest.{
  WebhookRuntime, secret_ref_of, is_source, read_secret_ref, or_unauthorized, parsed_alerts,
  ingest_work, context, ingest,
}

or_unauthorized_ok : (r : Result String) (key : String) → or_unauthorized r ≡ ok key → r ≡ ok key
or_unauthorized_ok (ok k) key h = h
or_unauthorized_ok (thrown e) key h = cc

module _ (crypto : Crypto) (hmac_key : String) (runtime : WebhookRuntime) (clocks : Clocks)
    (customer_id connection_id : String) (meanwhile : Pool → Pool) (headers : WebhookHeaders)
    (body : List ℕ) (request_id : String) where
  abbrev read : Exec Pool String
  read =
      with_tenant_transaction (context crypto clocks runtime.is_zod_uuid customer_id connection_id)
        (read_secret_ref crypto clocks runtime.is_zod_uuid customer_id connection_id)

  abbrev pub write : WebhookEnvelope → List Alert → Exec Pool Json
  write envelope alerts =
      with_tenant_transaction (context crypto clocks runtime.is_zod_uuid customer_id connection_id)
        (ingest_work crypto clocks runtime.is_zod_uuid customer_id connection_id hmac_key envelope
          alerts request_id)

  abbrev pub run : Exec Pool Json
  run =
      ingest crypto hmac_key runtime clocks customer_id connection_id meanwhile headers body
        request_id

  -- the pool after the first transaction
  abbrev pub after_read : Pool → Pool
  after_read pool = (read pool).1

  -- what let a delivery through: the envelope of its headers, and the key of the source that the
  -- tables name, under which the signature is that of the body
  pub record IsAuthentic (pool : Pool) (envelope : WebhookEnvelope) : Type 0 where
    pub parsed : parse_webhook_envelope runtime.integer_of clocks.date_now headers ≡ ok envelope
    pub ref : String
    pub stored :
        secret_ref_of crypto clocks runtime.is_zod_uuid customer_id connection_id (
          find
            (is_source crypto clocks runtime.is_zod_uuid customer_id connection_id)
            pool.db.connections)
        ≡ ok ref
    pub key : String
    pub secret : runtime.webhook_secret ref ≡ ok key
    pub signed :
        same_codes envelope.signature (codes (crypto.hmac key (signed_bytes envelope body))) ≡ true

  pub data Delivery (pool : Pool) (out : Result Json × Pool) : Type 0 where
    turned_away :
        (e : Thrown) (pool' : Pool)
        → pool'.db ≡ pool.db
        → (pool' ≡ pool) ⊎ (pool' ≡ after_read pool)
        → out ≡ (thrown e, pool')
        → Delivery pool out
    worked_on :
        (envelope : WebhookEnvelope) (alerts : List Alert)
        → IsAuthentic pool envelope
        → out ≡ write envelope alerts (meanwhile (after_read pool))
        → Delivery pool out

  pub after_read-db : (pool : Pool) → (after_read pool).db ≡ pool.db
  unfolding read_secret_ref
  after_read-db pool =
      (unchanged (context crypto clocks runtime.is_zod_uuid customer_id connection_id)
        (read_secret_ref crypto clocks runtime.is_zod_uuid customer_id connection_id) pool _ refl).1

  read-result :
      (pool : Pool)
      → (read pool).0
        ≡ secret_ref_of crypto clocks runtime.is_zod_uuid customer_id connection_id (
            find
              (is_source crypto clocks runtime.is_zod_uuid customer_id connection_id)
              pool.db.connections)
  unfolding read_secret_ref
  read-result pool =
      (unchanged (context crypto clocks runtime.is_zod_uuid customer_id connection_id)
        (read_secret_ref crypto clocks runtime.is_zod_uuid customer_id connection_id) pool _ refl).0

  signature_held :
      (envelope : WebhookEnvelope) (key : String) (u : Unit {0})
      → verify_webhook_signature crypto envelope body key ≡ ok u
      → same_codes envelope.signature (codes (crypto.hmac key (signed_bytes envelope body))) ≡ true
  unfolding verify_webhook_signature
  signature_held envelope key u h =
      elim (Bool-cases
        (same_codes envelope.signature (codes (crypto.hmac key (signed_bytes envelope body))))) [
          | inl held ↦ held
          | inr other ↦ absurd (cc (rw other at h))
        ]

  pub run-Delivery : (pool : Pool) → Delivery pool (run pool)
  unfolding ingest
  run-Delivery pool =
      elim (Result-cases (parse_webhook_envelope runtime.integer_of clocks.date_now headers)) [
        | inr (e, p) ↦ turned_away e pool refl (inl refl) (rw p)
        | inl (envelope, p) ↦ elim (Result-cases (read pool).0) [
          | inr (e, r) ↦ turned_away e (after_read pool) (after_read-db pool) (inr refl) (rw (p, r))
          | inl (ref, r) ↦ elim (Result-cases (or_unauthorized (runtime.webhook_secret ref))) [
            | inr (e, k) ↦
                turned_away e (after_read pool) (after_read-db pool) (inr refl) (rw (p, r, k))
            | inl (key, k) ↦
                elim (Result-cases (verify_webhook_signature crypto envelope body key)) [
                  | inr (e, v) ↦
                      turned_away e (after_read pool) (after_read-db pool) (inr refl)
                        (rw (p, r, k, v))
                  | inl (u, v) ↦
                      elim (Result-cases
                        (parsed_alerts runtime.payload_schema (runtime.parse_json body))) [
                          | inr (e, a) ↦
                              turned_away e (after_read pool) (after_read-db pool) (inr refl)
                                (rw (p, r, k, v, a))
                          | inl (alerts, a) ↦
                              worked_on envelope alerts
                                (record {
                                  parsed = p;
                                  ref = ref;
                                  stored = sym (read-result pool) ∙ r;
                                  key = key;
                                  secret = or_unauthorized_ok (runtime.webhook_secret ref) key k;
                                  signed = signature_held envelope key u v;
                                })
                                (rw (p, r, k, v, a))
                        ]
                ]
          ]
        ]
      ]
