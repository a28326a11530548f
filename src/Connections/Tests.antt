-- ===== src/Connections/Tests.antt =====
-- A concrete connection, created and validated.
use metricops_backend.Common.{◌≡◌, refl, [], ◌∷◌, none, arith, true, if◌then◌else◌, ◌==◌, string_eq}
use metricops_backend.Json.{Json, null, obj, end}
use metricops_backend.Json.Printer.{stringify}
use metricops_backend.Domain.Errors.{idempotency_key_reused}
use metricops_backend.Effects.{Result, ok, thrown}
use metricops_backend.Database.Tables.{empty_db, ConnectionRow, prometheus, pending}
use metricops_backend.Database.Transaction.{Pool, with_tenant_transaction}
use metricops_backend.Database.Sample.{toy_crypto, noon, one_o_clock, ann, pool_with}
use metricops_backend.Audit.{append, sealed, newest, digest, event_body}
use metricops_backend.Idempotency.{find_prior, replay, save_response}
use metricops_backend.Idempotency.Keyed.{keyed}
use metricops_backend.Connections.{
  ConnectionCheck, Registry, register, get_connector, connection_view, CreateConnectionInput,
  input_json, listed, validated, update_connection, check_view, new_connection, create_body,
  create_hash, create_connection, read_connection, record_check, validate_connection,
}
use metricops_backend.Connections.Creation.{create_connection-retry}
use metricops_backend.Connections.Validation.{IsValidated, validate_connection-IsValidated}

connections_run : Unit {0}
unfolding register get_connector connection_view input_json listed validated update_connection
    check_view new_connection create_body create_connection read_connection record_check
    validate_connection keyed find_prior replay save_response append sealed newest digest event_body
    with_tenant_transaction toy_crypto stringify
connections_run = tt

abbrev input : CreateConnectionInput
input = record { name = "metrics"; kind = prometheus; configuration = obj end; secret_ref = none }

abbrev start : Pool
start = pool_with empty_db

abbrev after : Pool
after = (create_connection toy_crypto "k" noon ann input "key1" "r1" start).1

abbrev answer : Result Json → Json
answer (ok v) = v
answer (thrown e) = null

abbrev view : Json
view = answer (create_connection toy_crypto "k" noon ann input "key1" "r1" start).0

made : create_connection toy_crypto "k" noon ann input "key1" "r1" start ≡ (ok view, after)
unfolding connections_run
made = refl

nothing_saved :
    find_prior
      (record { customer_id = "acme"; operation = "connection.create"; idempotency_key = "key1" })
      1700000000000
      []
    ≡ none
unfolding find_prior
nothing_saved = refl

create_connection-retry_example :
    ((create_connection toy_crypto "k" one_o_clock
        (record ann { subject = "bob" })
        (record input { name = "other" })
        "key1"
        "r2"
        after).0
      ≡ (if create_hash toy_crypto "k" noon ann input
            == create_hash toy_crypto "k" noon ann (record input { name = "other" })
          then ok view
          else thrown idempotency_key_reused))
    × ((create_connection toy_crypto "k" one_o_clock
          (record ann { subject = "bob" })
          (record input { name = "other" })
          "key1"
          "r2"
          after).1.db
        ≡ after.db)
create_connection-retry_example =
    create_connection-retry toy_crypto "k" noon ann input "key1" "r1" start after view "bob"
      one_o_clock (record input { name = "other" }) "r2" nothing_saved made (omega arith)

abbrev stored : ConnectionRow
stored = record {
  id = "c1";
  customer_id = "acme";
  name = "metrics";
  kind = prometheus;
  configuration = obj end;
  secret_ref = none;
  status = pending;
  last_validated_at = none;
  created_by = "ann";
  created_at = 1690000000000;
  updated_at = 1690000000000;
}

abbrev reachable : ConnectionCheck
reachable = record {
  is_healthy = true;
  checked_at = 1700000000050;
  latency_ms = 12;
  metadata = obj end;
  error_code = none;
}

abbrev registry : Registry
registry = (prometheus, (λ row. ok reachable)) ∷ []

abbrev known : Pool
known = pool_with (record empty_db { connections = stored ∷ [] })

abbrev checked : Pool
checked = (validate_connection toy_crypto "k" noon ann registry (λ p. p) "c1" "r1" known).1

validated_known :
    validate_connection toy_crypto "k" noon ann registry (λ p. p) "c1" "r1" known
    ≡ (ok (check_view "c1" reachable), checked)
unfolding connections_run
validated_known = refl

validate_connection-IsValidated_example :
    IsValidated toy_crypto "k" noon ann registry
      (λ p. p)
      "c1"
      "r1"
      known
      checked
      (check_view "c1" reachable)
validate_connection-IsValidated_example =
    validate_connection-IsValidated toy_crypto "k" noon ann registry (λ p. p) "c1" "r1" known
      checked (check_view "c1" reachable) validated_known
