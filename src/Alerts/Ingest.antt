-- ===== src/Alerts/Ingest.antt =====
-- alerts/alertmanager-service.ts: `ingest`. The secret's file is read by code outside of the
-- repository's sources, `webhook_secret`; `parse_json` is `JSON.parse` of the body's text and
-- `payload_schema` the schema of http/schemas.ts, which throws its issues as a `ZodError`.
use metricops_backend.Common.{
  ℕ, ◌+◌, ◌*◌, String, Bool, true, false, not, ◌&&◌, List, [], ◌∷◌, ◌++◌, Option, none, some, any,
  find, length, ◌==◌, nat_eq, string_eq, if◌then◌else◌,
}
use metricops_backend.Json.{Json, num, str, obj, end, field}
use metricops_backend.Domain.Errors.{
  Thrown, app_error, zod_error, coded_error, plain_error, unauthorized, invalid, conflict,
}
use metricops_backend.Effects.{Exec, Result, ok, thrown, pure, lift, modify, ◌>>=◌, ◌>>◌}
use metricops_backend.Database.Tables.{
  ConnectionRow, ConnectionKind, alertmanager_webhook, ConnectionStatus, disabled,
  WebhookReceiptRow,
}
use metricops_backend.Database.Transaction.{
  Crypto, Clocks, Client, Pool, TenantContext, with_tenant_transaction,
}
use metricops_backend.Audit.{AuditInput, append}
use metricops_backend.Alerts.Signature.{
  WebhookEnvelope, WebhookHeaders, parse_webhook_envelope, verify_webhook_signature,
}
use metricops_backend.Alerts.Instances.{
  Alert, member, normalize_severity, has_invalid_time, is_active_of, is_firing, is_critical,
  resource_of, upsert_instance, alert_event, new_incident, incident_event, recover_all,
  recovery_events,
}

pub record Counts : Type 0 where
  pub created : ℕ
  pub resolved : ℕ

abbrev pub invalid_alert_time : Thrown
invalid_alert_time = invalid "INVALID_ALERT_TIME" "An alert contains invalid timestamps"

abbrev pub replayed_delivery : Thrown
replayed_delivery = conflict "WEBHOOK_REPLAYED" "The webhook delivery was already processed"

abbrev pub invalid_payload : Thrown
invalid_payload = invalid "INVALID_WEBHOOK_PAYLOAD" "The webhook payload is invalid"

abbrev is_disabled : ConnectionStatus → Bool
is_disabled disabled = true
is_disabled _ = false

abbrev is_webhook : ConnectionKind → Bool
is_webhook alertmanager_webhook = true
is_webhook _ = false

module _ (crypto : Crypto) (clocks : Clocks) (is_zod_uuid : String → Bool)
    (customer_id connection_id : String) where
  -- the alert's row and its event, and the row's identifier
  unfoldable pub record_alert : Alert → Client → Client × String
  record_alert alert client =
      let (rows, alert_id) =
        upsert_instance crypto clocks is_zod_uuid customer_id connection_id alert
          (resource_of crypto clocks is_zod_uuid customer_id connection_id alert
            client.db.resources)
          (crypto.random_uuid client.drawn) client.db.alert_instances in
      (
        record client {
          server = record client.server {
            drawn = client.drawn + 2;
            db = record client.db {
              alert_instances = rows;
              alert_events =
                  client.db.alert_events
                  ++ alert_event crypto clocks is_zod_uuid customer_id connection_id alert alert_id
                      (crypto.random_uuid (client.drawn + 1))
                    ∷ [];
            };
          };
        },
        alert_id,
      )

  unfoldable pub insert_incident : Alert → String → Client → Client
  insert_incident alert alert_id client = record client {
    server = record client.server {
      drawn = client.drawn + 2;
      db = record client.db {
        incidents =
            client.db.incidents
            ++ new_incident crypto clocks is_zod_uuid customer_id connection_id alert
                (resource_of crypto clocks is_zod_uuid customer_id connection_id alert
                  client.db.resources)
                alert_id (crypto.random_uuid client.drawn)
              ∷ [];
        incident_events =
            client.db.incident_events
            ++ incident_event crypto clocks is_zod_uuid customer_id connection_id
                (crypto.random_uuid client.drawn) "created"
                (obj (field "alertId" (str alert_id) end)) (crypto.random_uuid (client.drawn + 1))
              ∷ [];
      };
    };
  }

  abbrev pub opens : Alert → Bool
  opens alert =
      is_firing alert.status && is_critical (normalize_severity (member "severity" alert.labels))

  -- a critical alert that fires opens an incident, unless one is active
  unfoldable pub open_incidents : Alert → String → Client → Client × ℕ
  open_incidents alert alert_id client =
      if opens alert && not (any (is_active_of customer_id alert_id) client.db.incidents)
      then (insert_incident alert alert_id client, 1)
      else (client, 0)

  -- an alert that is resolved closes the active incidents
  unfoldable pub close_incidents : Alert → String → Client → Client × ℕ
  close_incidents alert alert_id client =
      let (rows, ids) =
        recover_all crypto clocks is_zod_uuid customer_id connection_id alert alert_id
          client.db.incidents in
      if is_firing alert.status then (client, 0) else (
        record client {
          server = record client.server {
            drawn = client.drawn + length ids;
            db = record client.db {
              incidents = rows;
              incident_events =
                  client.db.incident_events
                  ++ recovery_events crypto clocks is_zod_uuid customer_id connection_id ids
                      client.drawn;
            };
          };
        },
        length ids,
      )

  -- one round of the loop over the alerts
  unfoldable pub process_alert : Alert → Counts → Exec Client Counts
  process_alert alert counts client =
      let (recorded, alert_id) = record_alert alert client in
      let (opened, created) = open_incidents alert alert_id recorded in
      let (closed, resolved) = close_incidents alert alert_id opened in
      if has_invalid_time clocks.date_now alert then (thrown invalid_alert_time, client) else (
        ok (record { created = counts.created + created; resolved = counts.resolved + resolved }),
        closed,
      )

  unfoldable pub process_alerts : List Alert → Counts → Exec Client Counts
  process_alerts [] counts = pure counts
  process_alerts (alert ∷ rest) counts =
      process_alert alert counts >>= λ counts'. process_alerts rest counts'

  abbrev pub has_receipt : String → WebhookReceiptRow → Bool
  has_receipt nonce row =
      row.customer_id == customer_id && row.connection_id == connection_id && row.nonce == nonce

  abbrev pub with_receipt : WebhookEnvelope → Client → Client
  with_receipt envelope client = record client {
    server = record client.server {
      db = record client.db {
        webhook_receipts =
            client.db.webhook_receipts
            ++ (record {
              customer_id = customer_id;
              connection_id = connection_id;
              nonce = envelope.nonce;
              signature_timestamp = envelope.timestamp * 1000;
              received_at = clocks.transaction_now;
            })
              ∷ [];
      };
    };
  }

  -- INSERT INTO webhook_receipts … ON CONFLICT DO NOTHING, and the test of its count of rows
  unfoldable pub take_receipt : WebhookEnvelope → Exec Client Unit
  take_receipt envelope client =
      if any (has_receipt envelope.nonce) client.db.webhook_receipts
      then (thrown replayed_delivery, client)
      else (ok tt, with_receipt envelope client)

  abbrev pub accepted_view : List Alert → Counts → Json
  accepted_view alerts counts = obj (
      field "accepted" (num (length alerts)) (
        field "incidentsCreated" (num counts.created)
          (field "incidentsResolved" (num counts.resolved) end)))

  abbrev pub accepted_audit : List Alert → Counts → String → AuditInput
  accepted_audit alerts counts request_id = record {
    customer_id = customer_id;
    actor_id = "alertmanager-webhook";
    action = "alertmanager.webhook.accepted";
    resource_type = "connection";
    resource_id = connection_id;
    request_id = request_id;
    occurred_at = none;
    details = some (
        obj (
          field "alerts" (num (length alerts)) (
            field "incidentsCreated" (num counts.created)
              (field "incidentsResolved" (num counts.resolved) end))));
  }

  -- the work of the second transaction
  unfoldable pub ingest_work : String → WebhookEnvelope → List Alert → String → Exec Client Json
  ingest_work hmac_key envelope alerts request_id = do
    take_receipt envelope
    counts ← process_alerts alerts (record { created = 0; resolved = 0 })
    append crypto hmac_key clocks (accepted_audit alerts counts request_id)
    pure (accepted_view alerts counts)

  abbrev pub is_source : ConnectionRow → Bool
  is_source row =
      row.customer_id == customer_id
      && row.id == connection_id
      && is_webhook row.kind
      && not (is_disabled row.status)

  abbrev pub secret_ref_of : Option ConnectionRow → Result String
  secret_ref_of none = thrown unauthorized
  secret_ref_of (some row) = elim row.secret_ref [
    | none ↦ thrown unauthorized
    | some ref ↦ if ref == "" then thrown unauthorized else ok ref
  ]

  -- the work of the first transaction
  unfoldable pub read_secret_ref : Exec Client String
  read_secret_ref client = (secret_ref_of (find is_source client.db.connections), client)

  abbrev pub context : TenantContext
  context = record { customer_id = customer_id; actor_id = "alertmanager-webhook" }

abbrev pub or_unauthorized : Result String → Result String
or_unauthorized (ok key) = ok key
or_unauthorized (thrown e) = thrown unauthorized

-- the `catch` round the parsing
abbrev pub or_invalid_payload : Result (List Alert) → Result (List Alert)
or_invalid_payload (ok alerts) = ok alerts
or_invalid_payload (thrown (zod_error issues)) = thrown (zod_error issues)
or_invalid_payload (thrown (app_error e)) = thrown invalid_payload
or_invalid_payload (thrown (coded_error e)) = thrown invalid_payload
or_invalid_payload (thrown (plain_error e)) = thrown invalid_payload

abbrev pub parsed_alerts : (Json → Result (List Alert)) → Option Json → Result (List Alert)
parsed_alerts payload_schema none = thrown invalid_payload
parsed_alerts payload_schema (some payload) = or_invalid_payload (payload_schema payload)

-- what a delivery brings, and what the service calls that is not in the repository's sources
pub record WebhookRuntime : Type 0 where
  pub integer_of : String → Option ℕ
  pub is_zod_uuid : String → Bool
  pub webhook_secret : String → Result String
  pub parse_json : List ℕ → Option Json
  pub payload_schema : Json → Result (List Alert)

module _ (crypto : Crypto) (hmac_key : String) (runtime : WebhookRuntime) (clocks : Clocks)
    (customer_id connection_id : String) where
  -- `meanwhile` is what other requests change between the two transactions.
  unfoldable pub ingest : (Pool → Pool) → WebhookHeaders → List ℕ → String → Exec Pool Json
  ingest meanwhile headers body request_id = do
    envelope ← lift (parse_webhook_envelope runtime.integer_of clocks.date_now headers)
    secret_ref ←
        with_tenant_transaction
          (context crypto clocks runtime.is_zod_uuid customer_id connection_id)
          (read_secret_ref crypto clocks runtime.is_zod_uuid customer_id connection_id)
    key ← lift (or_unauthorized (runtime.webhook_secret secret_ref))
    lift (verify_webhook_signature crypto envelope body key)
    alerts ← lift (parsed_alerts runtime.payload_schema (runtime.parse_json body))
    modify meanwhile
    with_tenant_transaction (context crypto clocks runtime.is_zod_uuid customer_id connection_id) (
        ingest_work crypto clocks runtime.is_zod_uuid customer_id connection_id hmac_key envelope
          alerts request_id)
