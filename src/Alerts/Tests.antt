-- ===== src/Alerts/Tests.antt =====
-- A concrete delivery, and the same one again.
use metricops_backend.Common.{◌≡◌, refl, String, [], ◌∷◌, none, some, arith, slice_first}
use metricops_backend.Json.{Json, null, obj, end}
use metricops_backend.Json.Printer.{stringify}
use metricops_backend.Common.Patterns.{is_uuid, matches, is_run, lower_all, same_codes}
use metricops_backend.Domain.Errors.{Thrown}
use metricops_backend.Effects.{Result, ok, thrown}
use metricops_backend.Database.Tables.{
  empty_db, ConnectionRow, alertmanager_webhook, healthy, firing,
}
use metricops_backend.Database.Transaction.{Crypto, Client, Pool, with_tenant_transaction}
use metricops_backend.Database.Atomic.{begun}
use metricops_backend.Database.Sample.{toy_crypto, noon, pool_with}
use metricops_backend.Audit.{append, sealed, newest, digest, event_body}
use metricops_backend.Alerts.Signature.{
  WebhookHeaders, is_outside, parse_timestamp, parse_nonce, parse_signature_codes, envelope_of,
  parse_webhook_envelope, verify_webhook_signature,
}
use metricops_backend.Alerts.Instances.{
  Alert, member, normalize_severity, title_of, summary_of, has_invalid_time, resource_of,
  new_instance, updated_instance, upsert_instance, alert_event, new_incident, recovered,
  recover_all, recovery_events,
}
use metricops_backend.Alerts.Ingest.{
  Counts, WebhookRuntime, record_alert, insert_incident, open_incidents, close_incidents,
  process_alert, process_alerts, take_receipt, ingest_work, read_secret_ref, ingest,
}
use metricops_backend.Alerts.OneActive.{active_count, OneActive}
use metricops_backend.Alerts.Processed.{IsProcessed, process_alert-IsProcessed}
use metricops_backend.Alerts.Replay.{IsAccepted, ingest-IsAccepted, ingest-replay}
use metricops_backend.Alerts.Invariants.{ingest-OneActive}

deliveries : Unit {0}
unfolding is_uuid matches is_run lower_all same_codes is_outside parse_timestamp parse_nonce
    parse_signature_codes envelope_of parse_webhook_envelope verify_webhook_signature member
    normalize_severity title_of summary_of has_invalid_time resource_of new_instance
    updated_instance upsert_instance alert_event new_incident recovered recover_all recovery_events
    record_alert insert_incident open_incidents close_incidents process_alert process_alerts
    take_receipt ingest_work read_secret_ref ingest append sealed newest digest event_body
    with_tenant_transaction toy_crypto stringify slice_first
deliveries = tt

-- a digest of 64 zeros for each text
abbrev zeros : String
zeros = "0000000000000000000000000000000000000000000000000000000000000000"

abbrev crypto : Crypto
crypto = record { hmac = λ key text. zeros; sha256 = λ text. zeros; random_uuid = λ n. "id" }

abbrev outage : Alert
outage = record {
  status = firing;
  labels = ("severity", "critical") ∷ ("alertname", "DiskFull") ∷ [];
  annotations = [];
  starts_at = 1700000000000;
  ends_at = none;
  fingerprint = "abc";
}

abbrev runtime : WebhookRuntime
runtime = record {
  integer_of = λ text. some 1700000000;
  is_zod_uuid = is_uuid;
  webhook_secret = λ ref. ok "k";
  parse_json = λ body. some null;
  payload_schema = λ payload. ok (outage ∷ []);
}

abbrev headers : WebhookHeaders
headers = record {
  timestamp = some "1700000000";
  nonce = some "123e4567-e89b-42d3-a456-426614174000";
  signature = some "v1=0000000000000000000000000000000000000000000000000000000000000000";
}

abbrev source : ConnectionRow
source = record {
  id = "c1";
  customer_id = "acme";
  name = "alerts";
  kind = alertmanager_webhook;
  configuration = obj end;
  secret_ref = some "file:alerts";
  status = healthy;
  last_validated_at = none;
  created_by = "ann";
  created_at = 1690000000000;
  updated_at = 1690000000000;
}

abbrev start : Pool
start = pool_with (record empty_db { connections = source ∷ [] })

abbrev after : Pool
after = (ingest crypto "k" runtime noon "acme" "c1" (λ p. p) headers [] "r1" start).1

abbrev answer : Result Json → Json
answer (ok v) = v
answer (thrown e) = null

abbrev view : Json
view = answer (ingest crypto "k" runtime noon "acme" "c1" (λ p. p) headers [] "r1" start).0

accepted :
    ingest crypto "k" runtime noon "acme" "c1" (λ p. p) headers [] "r1" start ≡ (ok view, after)
unfolding deliveries
accepted = refl

ingest-IsAccepted_example :
    IsAccepted crypto "k" runtime "acme" "c1" noon (λ p. p) headers [] "r1" start after
ingest-IsAccepted_example =
    ingest-IsAccepted crypto "k" runtime "acme" "c1" noon (λ p. p) headers [] "r1" start after view
      accepted

ingest-replay_example :
    ((e : Thrown) × ((ingest crypto "k" runtime noon "acme" "c1"
          (λ p. p)
          headers
          (0 ∷ [])
          "r2"
          after).0
        ≡ thrown e))
    × ((ingest crypto "k" runtime noon "acme" "c1" (λ p. p) headers (0 ∷ []) "r2" after).1.db
        ≡ after.db)
ingest-replay_example =
    ingest-replay crypto "k" runtime "acme" "c1" noon (λ p. p) headers [] "r1" start after view noon
      (λ p. p) headers (0 ∷ []) "r2" accepted refl (λ p. refl)

nothing_active : OneActive []
unfolding active_count
nothing_active = λ c a. omega arith

ingest-OneActive_example :
    OneActive
      (ingest crypto "k" runtime noon "acme" "c1" (λ p. p) headers [] "r1" start).1.db.incidents
ingest-OneActive_example =
    ingest-OneActive crypto "k" runtime noon "acme" "c1" (λ p. p) headers [] "r1" start
      (λ p one. one) nothing_active

abbrev no_counts : Counts
no_counts = record { created = 0; resolved = 0 }

abbrev client : Client
client = begun (record { customer_id = "acme"; actor_id = "alertmanager-webhook" }) start

abbrev one_created : Counts
one_created = record { created = 1; resolved = 0 }

abbrev worked : Client
worked = (process_alert crypto noon is_uuid "acme" "c1" outage no_counts client).1

processed :
    process_alert crypto noon is_uuid "acme" "c1" outage no_counts client ≡ (ok one_created, worked)
unfolding deliveries
processed = refl

process_alert-IsProcessed_example : IsProcessed crypto noon is_uuid "acme" "c1" outage client worked
process_alert-IsProcessed_example =
    process_alert-IsProcessed crypto noon is_uuid "acme" "c1" outage no_counts one_created client
      worked nothing_active processed
