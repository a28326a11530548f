-- ===== src/Alerts/Kept.antt =====
-- What the loop over the alerts leaves alone, and the audit log of a delivery.
use metricops_backend.Common.{
  String, ◌≡◌, refl, sym, ap, ◌∙◌, Bool, true, List, [], ◌∷◌, ◌++◌, any, arith, Bool-cases, inl,
  inr, not, ◌&&◌, string_eq, eq_refl,
}
use metricops_backend.Json.{Json}
use metricops_backend.Effects.{Result, ok, thrown, Result-cases}
use metricops_backend.Database.Tables.{WebhookReceiptRow}
use metricops_backend.Database.Transaction.{Crypto, Clocks, Client}
use metricops_backend.Audit.{append}
use metricops_backend.Audit.Committed.{
  IsExtended, IsExtended-refl, IsExtended-same, IsExtended-trans, IsExtended-append,
}
use metricops_backend.Alerts.Signature.{WebhookEnvelope}
use metricops_backend.Alerts.Instances.{Alert, is_active_of, is_firing, has_invalid_time}
use metricops_backend.Alerts.Ingest.{
  Counts, opens, record_alert, insert_incident, open_incidents, close_incidents, process_alert,
  process_alerts, has_receipt, with_receipt, take_receipt, replayed_delivery, accepted_view,
  accepted_audit, ingest_work,
}

-- the receipts and the audit log stand as they were
pub record IsKept (client client' : Client) : Type 0 where
  pub receipts : client'.db.webhook_receipts ≡ client.db.webhook_receipts
  pub events : client'.db.audit_events ≡ client.db.audit_events
  pub sequence : client'.audit_sequence ≡ client.audit_sequence

IsKept-trans : (a b c : Client) → IsKept a b → IsKept b c → IsKept a c
IsKept-trans a b c p q = record {
  receipts = q.receipts ∙ p.receipts;
  events = q.events ∙ p.events;
  sequence = q.sequence ∙ p.sequence;
}

abbrev kept_refl : (client : Client) → IsKept client client
kept_refl client = record { receipts = refl; events = refl; sequence = refl }

module _ (crypto : Crypto) (clocks : Clocks) (is_zod_uuid : String → Bool)
    (customer_id connection_id : String) where
  record_alert-IsKept :
      (alert : Alert) (client : Client)
      → IsKept client
          (record_alert crypto clocks is_zod_uuid customer_id connection_id alert client).0
  unfolding record_alert
  record_alert-IsKept alert client = record { receipts = refl; events = refl; sequence = refl }

  open_incidents-IsKept :
      (alert : Alert) (alert_id : String) (client : Client)
      → IsKept client
          (open_incidents crypto clocks is_zod_uuid customer_id connection_id alert alert_id
            client).0
  unfolding open_incidents insert_incident
  open_incidents-IsKept alert alert_id client =
      elim (Bool-cases (
        opens crypto clocks is_zod_uuid customer_id connection_id alert
        && not (any (is_active_of customer_id alert_id) client.db.incidents))) [
          | inl fresh ↦ rw fresh record { receipts = refl; events = refl; sequence = refl }
          | inr other ↦ rw other (kept_refl client)
        ]

  close_incidents-IsKept :
      (alert : Alert) (alert_id : String) (client : Client)
      → IsKept client
          (close_incidents crypto clocks is_zod_uuid customer_id connection_id alert alert_id
            client).0
  unfolding close_incidents
  close_incidents-IsKept alert alert_id client = elim (Bool-cases (is_firing alert.status)) [
    | inl fires ↦ rw fires (kept_refl client)
    | inr over ↦ rw over record { receipts = refl; events = refl; sequence = refl }
  ]

  process_alert-IsKept :
      (alert : Alert) (counts : Counts) (client : Client)
      → IsKept client
          (process_alert crypto clocks is_zod_uuid customer_id connection_id alert counts client).1
  unfolding process_alert
  process_alert-IsKept alert counts client =
      let (recorded, alert_id) =
        record_alert crypto clocks is_zod_uuid customer_id connection_id alert client in
      let (opened, created) =
        open_incidents crypto clocks is_zod_uuid customer_id connection_id alert alert_id
          recorded in
      elim (Bool-cases (has_invalid_time clocks.date_now alert)) [
        | inl bad ↦ rw bad (kept_refl client)
        | inr fine ↦ rw fine (
            IsKept-trans client recorded _ (record_alert-IsKept alert client) (
              IsKept-trans recorded opened _ (open_incidents-IsKept alert alert_id recorded)
                (close_incidents-IsKept alert alert_id opened)))
      ]

  process_alerts-IsKept :
      (alerts : List Alert) (counts : Counts) (client : Client)
      → IsKept client
          (process_alerts crypto clocks is_zod_uuid customer_id connection_id alerts counts
            client).1
  unfolding process_alerts
  process_alerts-IsKept [] counts client = kept_refl client
  process_alerts-IsKept (alert ∷ rest) counts client =
      let kept = process_alert-IsKept alert counts client in
      elim (Result-cases
        (process_alert crypto clocks is_zod_uuid customer_id connection_id alert counts client).0) [
          | inr (t, h) ↦ rw h kept
          | inl (counts', h) ↦
              rw h (IsKept-trans client _ _ kept (process_alerts-IsKept rest counts' _))
        ]

  abbrev no_counts : Counts
  no_counts = record { created = 0; resolved = 0 }

  abbrev processed : List Alert → Client → Result Counts × Client
  processed alerts client =
      process_alerts crypto clocks is_zod_uuid customer_id connection_id alerts no_counts client

  -- how the work of the second transaction ends
  data Outcome (hmac_key : String) (envelope : WebhookEnvelope) (alerts : List Alert)
      (request_id : String) (client : Client) (out : Result Json × Client) : Type 0 where
    known :
        any
            (has_receipt crypto clocks is_zod_uuid customer_id connection_id envelope.nonce)
            client.db.webhook_receipts
          ≡ true
        → out ≡ (thrown replayed_delivery, client)
        → Outcome hmac_key envelope alerts request_id client out
    failed :
        (e : _)
        → out ≡ (
          thrown e,
          (processed alerts
              (with_receipt crypto clocks is_zod_uuid customer_id connection_id envelope client)).1,
        )
        → Outcome hmac_key envelope alerts request_id client out
    done :
        (counts : Counts)
        → out ≡ (
          ok (accepted_view crypto clocks is_zod_uuid customer_id connection_id alerts counts),
          (append crypto hmac_key clocks
              (accepted_audit crypto clocks is_zod_uuid customer_id connection_id alerts counts
                request_id)
              (processed alerts (
                with_receipt crypto clocks is_zod_uuid customer_id connection_id envelope
                  client)).1).1,
        )
        → Outcome hmac_key envelope alerts request_id client out

  ingest_work-Outcome :
      (hmac_key : String) (envelope : WebhookEnvelope) (alerts : List Alert) (request_id : String)
      (client : Client)
      → Outcome hmac_key envelope alerts request_id client (
          ingest_work crypto clocks is_zod_uuid customer_id connection_id hmac_key envelope alerts
            request_id client)
  unfolding ingest_work take_receipt append
  ingest_work-Outcome hmac_key envelope alerts request_id client =
      elim (Bool-cases (
        any (has_receipt crypto clocks is_zod_uuid customer_id connection_id envelope.nonce)
          client.db.webhook_receipts)) [
            | inl there ↦ known there (rw there)
            | inr fresh ↦
                elim (Result-cases
                  (processed alerts (
                    with_receipt crypto clocks is_zod_uuid customer_id connection_id envelope
                      client)).0) [
                        | inr (e, h) ↦ failed e (rw (fresh, h))
                        | inl (counts, h) ↦ done counts (rw (fresh, h))
                      ]
          ]

  with_receipt-IsExtended :
      (hmac_key : String) (envelope : WebhookEnvelope) (alerts : List Alert) (client : Client)
      → IsExtended crypto hmac_key client
          (processed alerts
            (with_receipt crypto clocks is_zod_uuid customer_id connection_id envelope client)).1
  with_receipt-IsExtended hmac_key envelope alerts client =
      let taken =
        with_receipt crypto clocks is_zod_uuid customer_id connection_id envelope client in
      let kept = process_alerts-IsKept alerts no_counts taken in
      IsExtended-same crypto hmac_key client (processed alerts taken).1 kept.events kept.sequence

  Outcome-IsExtended :
      (hmac_key : String) (envelope : WebhookEnvelope) (alerts : List Alert) (request_id : String)
      (client : Client) (out : Result Json × Client)
      → Outcome hmac_key envelope alerts request_id client out
      → IsExtended crypto hmac_key client out.1
  Outcome-IsExtended hmac_key envelope alerts request_id client out (known there h) =
      rw h (IsExtended-refl crypto hmac_key client)
  Outcome-IsExtended hmac_key envelope alerts request_id client out (failed e h) =
      rw h (with_receipt-IsExtended hmac_key envelope alerts client)
  Outcome-IsExtended hmac_key envelope alerts request_id client out (done counts h) = rw h (
      IsExtended-trans crypto hmac_key client _ _
        (with_receipt-IsExtended hmac_key envelope alerts client)
        (IsExtended-append crypto hmac_key clocks
          (accepted_audit crypto clocks is_zod_uuid customer_id connection_id alerts counts
            request_id)
          (processed alerts
            (with_receipt crypto clocks is_zod_uuid customer_id connection_id envelope client)).1))

  -- the second transaction keeps the audit log sound
  pub ingest_work-IsExtended :
      (hmac_key : String) (envelope : WebhookEnvelope) (alerts : List Alert) (request_id : String)
      (client : Client)
      → IsExtended crypto hmac_key client
          (ingest_work crypto clocks is_zod_uuid customer_id connection_id hmac_key envelope alerts
            request_id client).1
  ingest_work-IsExtended hmac_key envelope alerts request_id client =
      Outcome-IsExtended hmac_key envelope alerts request_id client _
        (ingest_work-Outcome hmac_key envelope alerts request_id client)

  any-snoc_true :
      (p : WebhookReceiptRow → Bool) (rows : List WebhookReceiptRow) (row : WebhookReceiptRow)
      → p row ≡ true
      → any p (rows ++ row ∷ []) ≡ true
  any-snoc_true p [] row h = ground arith
  any-snoc_true p (r ∷ rows) row h = ground (arith, any-snoc_true p rows row h)

  Outcome-receipt :
      (hmac_key : String) (envelope : WebhookEnvelope) (alerts : List Alert) (request_id : String)
      (client client' : Client) (view : Json) (out : Result Json × Client)
      → out ≡ (ok view, client')
      → Outcome hmac_key envelope alerts request_id client out
      → any
          (has_receipt crypto clocks is_zod_uuid customer_id connection_id envelope.nonce)
          client'.db.webhook_receipts
        ≡ true
  unfolding append
  Outcome-receipt hmac_key envelope alerts request_id client client' view out e (known there h) =
      absurd (cc (ap (λ p. p.0) (sym h ∙ e)))
  Outcome-receipt hmac_key envelope alerts request_id client client' view out e (failed t h) =
      absurd (cc (ap (λ p. p.0) (sym h ∙ e)))
  Outcome-receipt hmac_key envelope alerts request_id client client' view out e (done counts h) =
      let taken =
        with_receipt crypto clocks is_zod_uuid customer_id connection_id envelope client in
      rw
        (
          ap (λ p. p.1.db.webhook_receipts) (sym e ∙ h),
          (process_alerts-IsKept alerts no_counts taken).receipts,
        )
        (any-snoc_true _ client.db.webhook_receipts _
          (rw (eq_refl customer_id, eq_refl connection_id, eq_refl envelope.nonce)))

  -- a delivery that was worked on leaves its receipt
  pub ingest_work-receipt :
      (hmac_key : String) (envelope : WebhookEnvelope) (alerts : List Alert) (request_id : String)
      (client client' : Client) (view : Json)
      → ingest_work crypto clocks is_zod_uuid customer_id connection_id hmac_key envelope alerts
          request_id client
        ≡ (ok view, client')
      → any
          (has_receipt crypto clocks is_zod_uuid customer_id connection_id envelope.nonce)
          client'.db.webhook_receipts
        ≡ true
  ingest_work-receipt hmac_key envelope alerts request_id client client' view e =
      Outcome-receipt hmac_key envelope alerts request_id client client' view _ e
        (ingest_work-Outcome hmac_key envelope alerts request_id client)

  -- one whose nonce is there is refused
  pub ingest_work-known :
      (hmac_key : String) (envelope : WebhookEnvelope) (alerts : List Alert) (request_id : String)
      (client : Client)
      → any
          (has_receipt crypto clocks is_zod_uuid customer_id connection_id envelope.nonce)
          client.db.webhook_receipts
        ≡ true
      → ingest_work crypto clocks is_zod_uuid customer_id connection_id hmac_key envelope alerts
          request_id client
        ≡ (thrown replayed_delivery, client)
  unfolding ingest_work take_receipt
  ingest_work-known hmac_key envelope alerts request_id client there = rw there
