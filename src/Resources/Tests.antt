-- ===== src/Resources/Tests.antt =====
-- A concrete resource, and two that were created within a millisecond.
use metricops_backend.Common.{
  ◌*◌, ◌/◌, ◌≤◌, ◌≡◌, refl, [], ◌∷◌, none, some, arith, false, length, All, if◌then◌else◌, ◌==◌,
  string_eq,
}
use metricops_backend.Json.{Json, null, obj, end}
use metricops_backend.Json.Printer.{stringify}
use metricops_backend.Domain.Errors.{idempotency_key_reused}
use metricops_backend.Effects.{Result, ok, thrown}
use metricops_backend.Database.Tables.{empty_db, ResourceRow}
use metricops_backend.Database.Transaction.{Pool, with_tenant_transaction}
use metricops_backend.Database.Sample.{toy_crypto, noon, one_o_clock, ann, pool_with}
use metricops_backend.Audit.{append, sealed, newest, digest, event_body}
use metricops_backend.Idempotency.{find_prior, replay, save_response}
use metricops_backend.Idempotency.Keyed.{keyed}
use metricops_backend.Resources.{
  CreateResourceInput, input_json, resource_view, is_before, comes_first, fetched, cursor_of, page,
  new_resource, is_monitorable, admit, create_body, create_hash, create_resource,
}
use metricops_backend.Resources.Pages.{IsBehind, page-IsBehind, is_before-comes_first, page-skips}
use metricops_backend.Resources.Creation.{create_resource-retry}

resources_run : Unit {0}
unfolding input_json resource_view is_before comes_first fetched cursor_of page new_resource
    is_monitorable admit create_body create_resource keyed find_prior replay save_response append
    sealed newest digest event_body with_tenant_transaction toy_crypto stringify
resources_run = tt

abbrev input : CreateResourceInput
input = record {
  provider_id = "i-1";
  resource_type = "linux_host";
  name = "web";
  environment = "production";
  criticality = "high";
  data_classification = "internal";
  monitoring_connection_id = none;
  monitoring_selector = none;
  tags = obj end;
  source = "manual";
}

abbrev start : Pool
start = pool_with empty_db

abbrev after : Pool
after = (create_resource toy_crypto "k" noon 0 ann input "key1" "r1" start).1

abbrev answer : Result Json → Json
answer (ok v) = v
answer (thrown e) = null

abbrev view : Json
view = answer (create_resource toy_crypto "k" noon 0 ann input "key1" "r1" start).0

made : create_resource toy_crypto "k" noon 0 ann input "key1" "r1" start ≡ (ok view, after)
unfolding resources_run
made = refl

nothing_saved :
    find_prior
      (record { customer_id = "acme"; operation = "resource.create"; idempotency_key = "key1" })
      1700000000000
      []
    ≡ none
unfolding find_prior
nothing_saved = refl

create_resource-retry_example :
    ((create_resource toy_crypto "k" one_o_clock 5
        (record ann { subject = "bob" })
        (record input { name = "other" })
        "key1"
        "r2"
        after).0
      ≡ (if create_hash toy_crypto "k" noon 0 ann input
            == create_hash toy_crypto "k" noon 0 ann (record input { name = "other" })
          then ok view
          else thrown idempotency_key_reused))
    × ((create_resource toy_crypto "k" one_o_clock 5
          (record ann { subject = "bob" })
          (record input { name = "other" })
          "key1"
          "r2"
          after).1.db
        ≡ after.db)
create_resource-retry_example =
    create_resource-retry toy_crypto "k" noon 0 ann input "key1" "r1" start after view "bob"
      one_o_clock 5 (record input { name = "other" }) "r2" nothing_saved made (omega arith)

abbrev early : ResourceRow
early = record {
  id = "a";
  customer_id = "acme";
  provider_id = "i-1";
  resource_type = "aws_ec2";
  name = "web";
  environment = "production";
  criticality = "high";
  data_classification = "internal";
  monitoring_connection_id = none;
  monitoring_selector = none;
  tags = obj end;
  source = "aws:c1";
  last_discovered_at = none;
  last_telemetry_at = none;
  last_discovery_job_id = none;
  is_missing = false;
  version = 1;
  created_by = "ann";
  created_at = 1700000000123456;
  updated_at = 1700000000123456;
}

-- inserted by the same transaction
abbrev second_row : ResourceRow
second_row = record early { id = "b"; provider_id = "i-2" }

-- a listing in pages of one row shows the second row, and then nothing
shown_once :
    page "acme" 1 none (early ∷ second_row ∷ []) ≡ (second_row ∷ [], some (cursor_of second_row))
unfolding resources_run
shown_once = refl

then_nothing : page "acme" 1 (some (cursor_of second_row)) (early ∷ second_row ∷ []) ≡ ([], none)
unfolding resources_run
then_nothing = refl

page-IsBehind_example :
    (length (page "acme" 1 (some (cursor_of early)) (early ∷ second_row ∷ [])).0 ≤ 1)
    × All
        (IsBehind "acme" (some (cursor_of early)))
        (page "acme" 1 (some (cursor_of early)) (early ∷ second_row ∷ [])).0
page-IsBehind_example = page-IsBehind "acme" 1 (some (cursor_of early)) (early ∷ second_row ∷ [])

page-skips_example :
    All
      (λ row. row.created_at ≤ second_row.created_at / 1000 * 1000)
      (page "acme" 1 (some (cursor_of second_row)) (early ∷ second_row ∷ [])).0
page-skips_example = page-skips "acme" 1 second_row (early ∷ second_row ∷ [])

is_before-comes_first_example :
    is_before (some (cursor_of (record early { created_at = 1700000000123000 }))) early
    ≡ comes_first (record early { created_at = 1700000000123000 }) early
is_before-comes_first_example =
    is_before-comes_first (record early { created_at = 1700000000123000 }) early (omega arith)
