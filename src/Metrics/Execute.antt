-- ===== src/Metrics/Execute.antt =====
-- metrics/metrics-service.ts: what a query reads and asks of the metrics backend.
use Prim.Native.String
use metricops_backend.Common.{
  ℕ, ◌*◌, String, ◌≡◌, Bool, true, false, not, ◌&&◌, ◌||◌, inl, inr, List, [], ◌∷◌, ◌++◌, map,
  Option, none, some, ◌==◌, nat_eq, string_eq, if◌then◌else◌, find, codes,
}
use metricops_backend.Common.Patterns.{is_run, is_alphanumeric}
use metricops_backend.Json.{Json, num, str, arr, obj, Items, nil, cons, end, field, Fields}
use metricops_backend.Domain.Errors.{Thrown, app, invalid, not_found}
use metricops_backend.Domain.Principal.{Principal}
use metricops_backend.Effects.{Exec, Result, ok, thrown, lift, ◌>>=◌, Result-cases}
use metricops_backend.Database.Tables.{
  Db, ResourceRow, ConnectionRow, ConnectionKind, prometheus, ConnectionStatus, disabled,
}
use metricops_backend.Database.Transaction.{
  Crypto, Clocks, Client, Pool, TenantContext, with_tenant_transaction,
}
use metricops_backend.Database.Atomic.{begun}
use metricops_backend.Audit.{AuditInput, append}
use metricops_backend.Audit.Chain.{IsSound}
use metricops_backend.Audit.Committed.{
  IsExtended, IsExtended-refl, IsExtended-append, with_tenant_transaction-IsSound,
}
use metricops_backend.Metrics.{
  Active, DataState, no_data, stale, available, data_state, enter, leave,
}
use metricops_backend.Metrics.Prometheus.{MetricSeries, MetricSample}

pub data QueryId : Type 0 where
  host_up host_cpu_utilization host_memory_utilization : QueryId

abbrev pub query_text : QueryId → String
query_text host_up = "host.up"
query_text host_cpu_utilization = "host.cpu.utilization"
query_text host_memory_utilization = "host.memory.utilization"

pub record MetricsQueryInput : Type 0 where
  pub resource_id : String
  pub query_id : QueryId
  pub start : String
  pub end_text : String
  pub step_seconds : ℕ

infixr 30 ◌<+>◌
abbrev ◌<+>◌ : String → String → String
a <+> b = String.◌++◌ a b

unfoldable pub template : QueryId → String → String
template host_up selector = "up{instance=\"" <+> selector <+> "\"}"
template host_cpu_utilization selector =
    "100-(avg by(instance)(rate(node_cpu_seconds_total{mode=\"idle\",instance=\"" <+> selector
    <+> "\"}[5m]))*100)"
template host_memory_utilization selector =
    "(1-(node_memory_MemAvailable_bytes{instance=\"" <+> selector
    <+> "\"}/node_memory_MemTotal_bytes{instance=\"" <+> selector <+> "\"}))*100"

-- [A-Za-z0-9._:-]
abbrev pub is_selector_part : ℕ → Bool
is_selector_part c = is_alphanumeric c || c == 46 || c == 95 || c == 58 || c == 45

unfoldable pub is_selector : String → Bool
is_selector selector = is_run is_selector_part 1 253 (codes selector)

abbrev pub unsupported_template : Thrown
unsupported_template =
    invalid "UNSUPPORTED_METRIC_TEMPLATE" "The metric template does not support this resource type"

abbrev pub connection_unavailable : Thrown
connection_unavailable =
    invalid "METRICS_CONNECTION_UNAVAILABLE"
      "The resource does not have an available Prometheus connection"

abbrev pub stored_selector_invalid : Thrown
stored_selector_invalid =
    app 500 "INVALID_STORED_SELECTOR" "Stored resource monitoring configuration is invalid"

abbrev pub upstream_failed : Thrown
upstream_failed =
    app 424 "METRICS_UPSTREAM_FAILED" "The metrics backend could not complete the bounded query"

abbrev pub is_prometheus : ConnectionKind → Bool
is_prometheus prometheus = true
is_prometheus _ = false

abbrev pub is_disabled : ConnectionStatus → Bool
is_disabled disabled = true
is_disabled _ = false

abbrev pub queryable : ConnectionRow → Bool
queryable row = is_prometheus row.kind && not (is_disabled row.status)

abbrev pub owned_resource : String → String → ResourceRow → Bool
owned_resource customer_id id row = row.customer_id == customer_id && row.id == id

-- c.customer_id = r.customer_id AND c.id = r.monitoring_connection_id
abbrev pub joins : ResourceRow → ConnectionRow → Bool
joins resource row = elim resource.monitoring_connection_id [
  | none ↦ false
  | some id ↦ row.customer_id == resource.customer_id && row.id == id
]

pub record Target : Type 0 where
  pub connection : ConnectionRow
  pub selector : String

abbrev pub with_selector : ConnectionRow → Option String → Result Target
with_selector connection none = thrown connection_unavailable
with_selector connection (some selector) =
    if is_selector selector
    then ok (record { connection = connection; selector = selector })
    else thrown stored_selector_invalid

-- the guards on the joined row
unfoldable pub admit_target : ResourceRow → Option ConnectionRow → Result Target
admit_target resource none =
    if resource.resource_type == "linux_host"
    then thrown connection_unavailable
    else thrown unsupported_template
admit_target resource (some connection) =
    if not (resource.resource_type == "linux_host")
    then thrown unsupported_template
    else if not (queryable connection)
    then thrown connection_unavailable
    else with_selector connection resource.monitoring_selector

unfoldable pub target_in : String → String → Db → Result Target
target_in customer_id id db = elim (find (owned_resource customer_id id) db.resources) [
  | none ↦ thrown (not_found "Resource")
  | some resource ↦ admit_target resource (find (joins resource) db.connections)
]

abbrev pub state_text : DataState → String
state_text no_data = "no_data"
state_text stale = "stale"
state_text available = "available"

abbrev labels_json : List (String × String) → Fields
labels_json [] = end
labels_json (label ∷ rest) = field label.0 (str label.1) (labels_json rest)

abbrev values_json : List MetricSample → Items
values_json [] = nil
values_json (sample ∷ rest) =
    cons (obj (field "timestamp" (num sample.timestamp) (field "value" (str sample.value) end)))
      (values_json rest)

abbrev series_json : List MetricSeries → Items
series_json [] = nil
series_json (series ∷ rest) =
    cons
      (obj (
        field "labels" (obj (labels_json series.labels))
          (field "values" (arr (values_json series.values)) end)))
      (series_json rest)

-- the times of all samples, in milliseconds
unfoldable pub sample_times : List MetricSeries → List ℕ
sample_times [] = []
sample_times (series ∷ rest) =
    map (λ sample. sample.timestamp * 1000) series.values ++ sample_times rest

-- The connector's `queryRange` reaches the monitored system: a function of the connection, the
-- query, the times in milliseconds and the step.
abbrev pub QueryRange : Type 0
QueryRange = ConnectionRow → String → ℕ → ℕ → ℕ → Result (List MetricSeries)

-- `read_date` is `new Date(text).getTime()` of the texts that the schema lets through.
module _ (crypto : Crypto) (hmac_key : String) (clocks : Clocks) (read_date : String → ℕ)
    (query_range : QueryRange) (principal : Principal) where
  abbrev pub requested_audit : MetricsQueryInput → String → AuditInput
  requested_audit input request_id = record {
    customer_id = principal.customer_id;
    actor_id = principal.subject;
    action = "metrics.query.requested";
    resource_type = "resource";
    resource_id = input.resource_id;
    request_id = request_id;
    occurred_at = none;
    details = some (
        obj (
          field "queryId" (str (query_text input.query_id)) (
            field "start" (str input.start) (
              field "end" (str input.end_text)
                (field "stepSeconds" (num input.step_seconds) end)))));
  }

  unfoldable pub target_work : MetricsQueryInput → String → Exec Client Target
  target_work input request_id client =
      elim (target_in principal.customer_id input.resource_id client.db) [
        | thrown t ↦ (thrown t, client)
        | ok target ↦
            (ok target, (append crypto hmac_key clocks (requested_audit input request_id) client).1)
      ]

  abbrev pub context : TenantContext
  context = record { customer_id = principal.customer_id; actor_id = principal.subject }

  unfoldable pub answer_of : MetricsQueryInput → List MetricSeries → Json
  answer_of input series = obj (
      field "resourceId" (str input.resource_id) (
        field "queryId" (str (query_text input.query_id)) (
          field "start" (str input.start) (
            field "end" (str input.end_text) (
              field "stepSeconds" (num input.step_seconds) (
                field "dataState"
                  (str (
                    state_text (
                      data_state (read_date input.end_text) (input.step_seconds * 1000)
                        (sample_times series))))
                  (field "series" (arr (series_json series)) end)))))))

  -- any failure of the backend is answered alike
  abbrev pub answer : MetricsQueryInput → Result (List MetricSeries) → Result Json
  answer input (ok series) = ok (answer_of input series)
  answer input (thrown t) = thrown upstream_failed

  abbrev pub ask : MetricsQueryInput → Target → Result (List MetricSeries)
  ask input target =
      query_range target.connection (template input.query_id target.selector)
        (read_date input.start) (read_date input.end_text) input.step_seconds

  unfoldable pub execute : MetricsQueryInput → String → Exec Pool Json
  execute input request_id = do
    target ← with_tenant_transaction context (target_work input request_id)
    lift (answer input (ask input target))

  abbrev with_active : Result Active → MetricsQueryInput → String → Exec (Active × Pool) Json
  with_active (thrown t) input request_id state = (thrown t, state)
  with_active (ok active) input request_id state =
      let (result, pool) = execute input request_id state.1 in
      (result, (leave principal.customer_id active, pool))

  -- `query`, where no other query of the customer starts or ends before this one is answered
  unfoldable pub query : MetricsQueryInput → String → Exec (Active × Pool) Json
  query input request_id state =
      with_active (enter principal.customer_id state.0) input request_id state

  target_work-IsExtended :
      (input : MetricsQueryInput) (request_id : String) (client : Client)
      → IsExtended crypto hmac_key client (target_work input request_id client).1
  unfolding target_work
  target_work-IsExtended input request_id client =
      elim (Result-cases (target_in principal.customer_id input.resource_id client.db)) [
        | inr (t, failed) ↦ rw (target_work, failed) (IsExtended-refl crypto hmac_key client)
        | inl (target, found) ↦
            rw (target_work, found)
              (IsExtended-append crypto hmac_key clocks (requested_audit input request_id) client)
      ]

  -- the state after a query is the state after its transaction
  execute-state :
      (input : MetricsQueryInput) (request_id : String) (pool : Pool)
      → (execute input request_id pool).1
        ≡ (with_tenant_transaction context (target_work input request_id) pool).1
  unfolding execute
  execute-state input request_id pool =
      elim (Result-cases (with_tenant_transaction context (target_work input request_id) pool).0) [
        | inr (t, failed) ↦ rw failed
        | inl (target, done) ↦ rw done
      ]

  pub execute-IsSound :
      (input : MetricsQueryInput) (request_id : String) (pool : Pool)
      → IsSound crypto hmac_key pool.server
      → IsSound crypto hmac_key (execute input request_id pool).1.server
  execute-IsSound input request_id pool s = rw (execute-state input request_id pool) (
      with_tenant_transaction-IsSound crypto hmac_key context (target_work input request_id) pool
        (target_work-IsExtended input request_id (begun context pool)) s)

  -- A query keeps a sound audit log sound, however it ends.
  pub query-IsSound :
      (input : MetricsQueryInput) (request_id : String) (state : Active × Pool)
      → IsSound crypto hmac_key state.1.server
      → IsSound crypto hmac_key (query input request_id state).1.1.server
  unfolding query
  query-IsSound input request_id state s =
      elim (Result-cases (enter principal.customer_id state.0)) [
        | inr (t, full) ↦ rw full s
        | inl (active, free) ↦ rw free (execute-IsSound input request_id state.1 s)
      ]
