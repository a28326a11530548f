-- ===== src/Alerts/Processed.antt =====
-- What a delivery leaves of incidents.
use metricops_backend.Common.{
  String, ◌≡◌, refl, ap, Bool, true, false, List, [], ◌∷◌, any, arith, Bool-cases, inl, inr,
}
use metricops_backend.Json.{Json}
use metricops_backend.Effects.{Exec, ok, Result-cases}
use metricops_backend.Database.Transaction.{Crypto, Clocks, Client}
use metricops_backend.Audit.{append}
use metricops_backend.Alerts.Signature.{WebhookEnvelope}
use metricops_backend.Alerts.Instances.{Alert, is_firing, has_invalid_time}
use metricops_backend.Alerts.Ingest.{
  Counts, opens, record_alert, open_incidents, close_incidents, process_alert, process_alerts,
  take_receipt, has_receipt, ingest_work,
}
use metricops_backend.Alerts.OneActive.{
  active_count, OneActive, open_incidents-OneActive, open_incidents_active, close_incidents-count,
  close_incidents_none, close_incidents_same,
}

module _ (crypto : Crypto) (clocks : Clocks) (is_zod_uuid : String → Bool)
    (customer_id connection_id : String) where
  -- the identifier of the alert's row
  abbrev pub row_id : Alert → Client → String
  row_id alert client =
      (record_alert crypto clocks is_zod_uuid customer_id connection_id alert client).1

  -- What an alert that was processed leaves: no alert has two active incidents, its own has one if
  -- it fires and is critical, and none if it is resolved.
  pub record IsProcessed (alert : Alert) (client client' : Client) : Type 0 where
    pub one_active : OneActive client'.db.incidents
    pub opened :
        opens crypto clocks is_zod_uuid customer_id connection_id alert ≡ true
        → active_count customer_id (row_id alert client) client'.db.incidents ≡ 1
    pub closed :
        is_firing alert.status ≡ false
        → active_count customer_id (row_id alert client) client'.db.incidents ≡ 0

  abbrev recorded : Alert → Client → Client
  recorded alert client =
      (record_alert crypto clocks is_zod_uuid customer_id connection_id alert client).0

  abbrev opened_client : Alert → Client → Client
  opened_client alert client =
      (open_incidents crypto clocks is_zod_uuid customer_id connection_id alert
        (row_id alert client) (recorded alert client)).0

  abbrev closed_client : Alert → Client → Client
  closed_client alert client =
      (close_incidents crypto clocks is_zod_uuid customer_id connection_id alert
        (row_id alert client) (opened_client alert client)).0

  recorded-incidents :
      (alert : Alert) (client : Client) → (recorded alert client).db.incidents ≡ client.db.incidents
  unfolding record_alert
  recorded-incidents alert client = refl

  opened-OneActive :
      (alert : Alert) (client : Client)
      → OneActive client.db.incidents
      → OneActive (opened_client alert client).db.incidents
  opened-OneActive alert client one =
      open_incidents-OneActive crypto clocks is_zod_uuid customer_id connection_id alert
        (row_id alert client) (recorded alert client)
        (λ c a. rw (recorded-incidents alert client) (one c a))

  closed-OneActive :
      (alert : Alert) (client : Client)
      → OneActive client.db.incidents
      → OneActive (closed_client alert client).db.incidents
  closed-OneActive alert client one c a = omega (
    arith,
    opened-OneActive alert client one c a,
    close_incidents-count crypto clocks is_zod_uuid customer_id connection_id alert
        (row_id alert client) c a (opened_client alert client),
  )

  closed-IsProcessed :
      (alert : Alert) (client : Client)
      → OneActive client.db.incidents
      → IsProcessed alert client (closed_client alert client)
  closed-IsProcessed alert client one = record {
    one_active = closed-OneActive alert client one;
    opened = λ critical_alert.
        let fires : is_firing alert.status ≡ true = ground arith in
        let same =
          close_incidents_same crypto clocks is_zod_uuid customer_id connection_id alert
            (row_id alert client) (opened_client alert client) fires in
        let there =
          open_incidents_active crypto clocks is_zod_uuid customer_id connection_id alert
            (row_id alert client) (recorded alert client) critical_alert in
        let bound = opened-OneActive alert client one customer_id (row_id alert client) in
        rw same (omega (arith, there, bound));
    closed = λ over.
        close_incidents_none crypto clocks is_zod_uuid customer_id connection_id alert
          (row_id alert client) (opened_client alert client) over;
  }

  -- An alert that is processed, where no alert has two active incidents, leaves it so; one that
  -- fires and is critical then has one active incident, and one that is resolved has none.
  pub process_alert-IsProcessed :
      (alert : Alert) (counts counts' : Counts) (client client' : Client)
      → OneActive client.db.incidents
      → process_alert crypto clocks is_zod_uuid customer_id connection_id alert counts client
        ≡ (ok counts', client')
      → IsProcessed alert client client'
  unfolding process_alert
  process_alert-IsProcessed alert counts counts' client client' one h =
      elim (Bool-cases (has_invalid_time clocks.date_now alert)) [
        | inl bad ↦ absurd (cc (ap (λ p. p.0) (rw bad at h)))
        | inr fine ↦
            let e : (_, closed_client alert client) ≡ (ok counts', client') = rw fine at h in
            rw (← ap (λ p. p.1) e) (closed-IsProcessed alert client one)
      ]

  process_alert-OneActive :
      (alert : Alert) (counts : Counts) (client : Client)
      → OneActive client.db.incidents
      → OneActive
          (process_alert crypto clocks is_zod_uuid customer_id connection_id alert counts
            client).1.db.incidents
  unfolding process_alert
  process_alert-OneActive alert counts client one =
      elim (Bool-cases (has_invalid_time clocks.date_now alert)) [
        | inl bad ↦ rw bad one
        | inr fine ↦ rw fine (closed-OneActive alert client one)
      ]

  process_alerts-OneActive :
      (alerts : List Alert) (counts : Counts) (client : Client)
      → OneActive client.db.incidents
      → OneActive
          (process_alerts crypto clocks is_zod_uuid customer_id connection_id alerts counts
            client).1.db.incidents
  unfolding process_alerts
  process_alerts-OneActive [] counts client one = one
  process_alerts-OneActive (alert ∷ rest) counts client one =
      let kept = process_alert-OneActive alert counts client one in
      elim (Result-cases
        (process_alert crypto clocks is_zod_uuid customer_id connection_id alert counts client).0) [
          | inr (t, h) ↦ rw h kept
          | inl (counts', h) ↦ rw h (process_alerts-OneActive rest counts' _ kept)
        ]

  abbrev work : String → WebhookEnvelope → List Alert → String → Exec Client Json
  work hmac_key envelope alerts request_id =
      ingest_work crypto clocks is_zod_uuid customer_id connection_id hmac_key envelope alerts
        request_id

  take_receipt-incidents :
      (envelope : WebhookEnvelope) (client : Client)
      → (take_receipt crypto clocks is_zod_uuid customer_id connection_id envelope
          client).1.db.incidents
        ≡ client.db.incidents
  unfolding take_receipt
  take_receipt-incidents envelope client =
      elim (Bool-cases (
        any (has_receipt crypto clocks is_zod_uuid customer_id connection_id envelope.nonce)
          client.db.webhook_receipts)) [ inl known ↦ rw known | inr fresh ↦ rw fresh ]

  pub ingest_work-OneActive :
      (hmac_key : String) (envelope : WebhookEnvelope) (alerts : List Alert) (request_id : String)
      (client : Client)
      → OneActive client.db.incidents
      → OneActive (work hmac_key envelope alerts request_id client).1.db.incidents
  unfolding ingest_work append
  ingest_work-OneActive hmac_key envelope alerts request_id client one =
      let taken =
        (take_receipt crypto clocks is_zod_uuid customer_id connection_id envelope client).1 in
      let one_taken : OneActive taken.db.incidents =
        λ c a. rw (take_receipt-incidents envelope client) (one c a) in
      let counts : Counts = record { created = 0; resolved = 0 } in
      let one_processed = process_alerts-OneActive alerts counts taken one_taken in
      elim (Result-cases
        (take_receipt crypto clocks is_zod_uuid customer_id connection_id envelope client).0) [
          | inr (t, h) ↦ rw h one_taken
          | inl (u, h) ↦
              elim (Result-cases
                (process_alerts crypto clocks is_zod_uuid customer_id connection_id alerts counts
                  taken).0) [
                    | inr (t, k) ↦ rw (h, k) one_processed
                    | inl (counts', k) ↦ rw (h, k) one_processed
                  ]
        ]
