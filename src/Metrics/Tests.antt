-- ===== src/Metrics/Tests.antt =====
-- Queries of two customers.
use metricops_backend.Common.{
  ℕ, String, ◌≤◌, ◌≡◌, refl, false, List, [], ◌∷◌, none, some, length, All, if◌then◌else◌,
}
use metricops_backend.Common.Patterns.{is_run}
use metricops_backend.Json.{Json, num, str, arr, obj, nil, cons, end, field}
use metricops_backend.Effects.{ok, thrown}
use metricops_backend.Database.Tables.{
  Db, ConnectionRow, ResourceRow, prometheus, healthy, empty_db,
}
use metricops_backend.Database.Sample.{toy_crypto, noon, ann, pool_with}
use metricops_backend.Metrics.Prometheus.{
  MetricSeries, normalize_prometheus_matrix, count_items, read_all_series, read_series,
  read_samples, read_sample, read_labels, read_label, is_label_name,
}
use metricops_backend.Metrics.Bounds.{
  total_samples, IsBounded, normalize_prometheus_matrix-IsBounded,
}
use metricops_backend.Metrics.Execute.{
  QueryRange, MetricsQueryInput, host_up, Target, queryable, target_in, admit_target, is_selector,
  target_in, admit_target, is_selector, execute, ask, upstream_failed,
}
use metricops_backend.Metrics.Targets.{IsSafe}
use metricops_backend.Metrics.Asked.{execute-only_safe}
use metricops_backend.Metrics.{Active, get, set, enter, leave}
use metricops_backend.Metrics.Limit.{
  Running, idle, started, ended, count, active_of, Running-IsBounded,
}

abbrev two : Active
two = ("acme", 1) ∷ ("other", 1) ∷ []

history : Running (leave "acme" two) ("other" ∷ [])
unfolding enter get set
history = ended two ("other" ∷ []) [] "acme" (
    started (("acme", 1) ∷ []) two ("acme" ∷ []) "other"
      (started [] (("acme", 1) ∷ []) [] "acme" idle refl) refl)

Running-IsBounded_example :
    (active_of "other" (leave "acme" two) ≡ count "other" ("other" ∷ []))
    × (count "other" ("other" ∷ []) ≤ 4)
Running-IsBounded_example = Running-IsBounded (leave "acme" two) ("other" ∷ []) "other" history

normalizing : Unit {0}
unfolding normalize_prometheus_matrix count_items read_all_series read_series read_samples
    read_sample read_labels read_label is_label_name total_samples
normalizing = tt

-- one series with one sample
abbrev payload : Json
payload = obj (
    field "status" (str "success") (
      field "data"
        (obj (
          field "resultType" (str "matrix") (
            field "result"
              (arr (
                cons
                  (obj (
                    field "metric" (obj (field "instance" (str "web") end)) (
                      field "values"
                        (arr (cons (arr (cons (num 1700000000) (cons (str "1") nil))) nil)) end)))
                  nil))
              end)))
        end))

abbrev one_series : List MetricSeries
one_series =
    (record {
      labels = ("instance", "web") ∷ [];
      values = (record { timestamp = 1700000000; value = "1" }) ∷ [];
    })
    ∷ []

payload_read : normalize_prometheus_matrix payload ≡ ok one_series
unfolding normalizing
payload_read = refl

normalize_prometheus_matrix-IsBounded_example :
    (length one_series ≤ 100) × (total_samples one_series ≤ 5000) × All IsBounded one_series
normalize_prometheus_matrix-IsBounded_example =
    normalize_prometheus_matrix-IsBounded payload one_series payload_read

abbrev last_day : MetricsQueryInput
last_day = record {
  resource_id = "r1";
  query_id = host_up;
  start = "2023-11-13T00:00:00Z";
  end_text = "2023-11-14T00:00:00Z";
  step_seconds = 60;
}

abbrev open_backend : QueryRange
open_backend connection text start end_time step = ok one_series

abbrev wary_backend : QueryRange
wary_backend connection text start end_time step =
    if queryable connection then ok one_series else thrown upstream_failed

abbrev midnight : String → ℕ
midnight text = 1700000000000

backends_agree :
    (target : Target)
    → IsSafe ann.customer_id target
    → ask toy_crypto "k" noon midnight open_backend ann last_day target
      ≡ ask toy_crypto "k" noon midnight wary_backend ann last_day target
backends_agree target safe = rw safe.usable

abbrev backend_row : ConnectionRow
backend_row = record {
  id = "c1";
  customer_id = "acme";
  name = "metrics";
  kind = prometheus;
  configuration = obj end;
  secret_ref = none;
  status = healthy;
  last_validated_at = none;
  created_by = "ann";
  created_at = 1690000000000;
  updated_at = 1690000000000;
}

abbrev host_row : ResourceRow
host_row = record {
  id = "r1";
  customer_id = "acme";
  provider_id = "web";
  resource_type = "linux_host";
  name = "web";
  environment = "production";
  criticality = "high";
  data_classification = "internal";
  monitoring_connection_id = some "c1";
  monitoring_selector = some "web:9100";
  tags = obj end;
  source = "manual";
  last_discovered_at = none;
  last_telemetry_at = none;
  last_discovery_job_id = none;
  is_missing = false;
  version = 1;
  created_by = "ann";
  created_at = 1690000000000000;
  updated_at = 1690000000000000;
}

abbrev monitored : Db
monitored = record empty_db { connections = backend_row ∷ []; resources = host_row ∷ [] }

web_target :
    target_in "acme" "r1" monitored
    ≡ ok (record { connection = backend_row; selector = "web:9100" })
unfolding target_in admit_target is_selector is_run
web_target = refl

execute-only_safe_example :
    execute toy_crypto "k" noon midnight open_backend ann last_day "req" (pool_with monitored)
    ≡ execute toy_crypto "k" noon midnight wary_backend ann last_day "req" (pool_with monitored)
execute-only_safe_example =
    execute-only_safe toy_crypto "k" noon midnight ann last_day "req" open_backend wary_backend
      (pool_with monitored) backends_agree
