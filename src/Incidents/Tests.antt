-- ===== src/Incidents/Tests.antt =====
-- Transitions of a concrete incident.
use metricops_backend.Common.{ℕ, ◌≡◌, refl, [], ◌∷◌, none, some, arith}
use metricops_backend.Json.{Json, null}
use metricops_backend.Json.Printer.{stringify}
use metricops_backend.Effects.{Result, ok, thrown}
use metricops_backend.Database.Tables.{empty_db, IncidentRow, open_incident}
use metricops_backend.Database.Transaction.{Pool, with_tenant_transaction}
use metricops_backend.Database.Sample.{toy_crypto, noon, one_o_clock, ann, pool_with}
use metricops_backend.Audit.{append, sealed, newest, digest, event_body}
use metricops_backend.Idempotency.{find_prior, replay, save_response}
use metricops_backend.Incidents.{
  acknowledge, resolve, TransitionInput, request_json, camelize_incident, admit, moved,
  update_where, log_event, perform, attempt, transition_work, transition, version_conflict,
}
use metricops_backend.Incidents.Lifecycle.{IsAdvanced, transition-IsAdvanced}
use metricops_backend.Incidents.Retry.{transition-retry, transition-stale}

incidents : Unit {0}
unfolding transition transition_work attempt perform admit moved update_where log_event append
    sealed newest digest event_body find_prior save_response replay request_json camelize_incident
    with_tenant_transaction toy_crypto stringify
incidents = tt

abbrev outage : IncidentRow
outage = record {
  id = "i1";
  customer_id = "acme";
  alert_instance_id = "a1";
  resource_id = none;
  title = "disk full";
  severity = "critical";
  status = open_incident;
  assignee = none;
  resolution = none;
  detected_at = 1699999999000;
  acknowledged_at = none;
  resolved_at = none;
  version = 1;
  created_at = 1699999999000;
  updated_at = 1699999999000;
}

abbrev start : Pool
start = pool_with (record empty_db { incidents = outage ∷ [] })

abbrev at_version : ℕ → TransitionInput
at_version n = record { version = n; assignee = some "ann"; resolution = none }

abbrev after : Pool
after = (transition toy_crypto "k" noon ann acknowledge (at_version 1) "i1" "key1" "r1" start).1

abbrev answer : Result Json → Json
answer (ok v) = v
answer (thrown e) = null

abbrev view : Json
view =
    answer (transition toy_crypto "k" noon ann acknowledge (at_version 1) "i1" "key1" "r1" start).0

made :
    transition toy_crypto "k" noon ann acknowledge (at_version 1) "i1" "key1" "r1" start
    ≡ (ok view, after)
unfolding incidents
made = refl

nothing_saved :
    find_prior
      (record {
        customer_id = "acme";
        operation = "incident.acknowledge";
        idempotency_key = "key1";
      })
      1700000000000
      []
    ≡ none
unfolding find_prior
nothing_saved = refl

transition-IsAdvanced_example :
    IsAdvanced toy_crypto "k" noon ann acknowledge
      (at_version 1)
      "i1"
      "key1"
      "r1"
      start.db
      after.db
      view
transition-IsAdvanced_example =
    transition-IsAdvanced toy_crypto "k" noon ann acknowledge (at_version 1) "i1" "key1" "r1" start
      after view nothing_saved made

transition-retry_example :
    ((transition toy_crypto "k" one_o_clock ann acknowledge (at_version 1) "i1" "key1" "r2" after).0
      ≡ ok view)
    × ((transition toy_crypto "k" one_o_clock ann acknowledge
          (at_version 1)
          "i1"
          "key1"
          "r2"
          after).1.db
        ≡ after.db)
unfolding incidents
transition-retry_example =
    transition-retry toy_crypto "k" ann noon acknowledge (at_version 1) "i1" "key1" "r1" start after
      view one_o_clock (at_version 1) "i1" "r2" nothing_saved made (omega arith)

nothing_saved_after :
    find_prior
      (record { customer_id = "acme"; operation = "incident.resolve"; idempotency_key = "key2" })
      1700003600000
      after.db.idempotency_records
    ≡ none
unfolding incidents
nothing_saved_after = refl

transition-stale_example :
    ((transition toy_crypto "k" one_o_clock
        (record ann { subject = "bob" })
        resolve
        (at_version 1)
        "i1"
        "key2"
        "r2"
        after).0
      ≡ thrown version_conflict)
    × ((transition toy_crypto "k" one_o_clock
          (record ann { subject = "bob" })
          resolve
          (at_version 1)
          "i1"
          "key2"
          "r2"
          after).1.db
        ≡ after.db)
transition-stale_example =
    transition-stale toy_crypto "k" ann noon acknowledge (at_version 1) "i1" "key1" "r1" start after
      view one_o_clock "bob" resolve (at_version 1) "key2" "r2" nothing_saved made refl
      nothing_saved_after
