-- ===== src/Reports.antt =====
-- reports/operations-report-service.ts: how many alerts and incidents of each severity and status
-- began in a period, and what is still active.
pub mod Counts
mod Tests
use Prim.Native.String
use metricops_backend.Common.{
  ℕ, ◌+◌, String, ◌≡◌, refl, ◌∙◌, Bool, true, false, not, ◌&&◌, List, [], ◌∷◌, map, Option, none,
  some, ltb, leb, ◌==◌, string_eq, eq_iff, filter, length, if◌then◌else◌, arith, Bool-cases, inl,
  inr,
}
use metricops_backend.Common.Dates.{to_iso_string}
use metricops_backend.Json.{Json, num, str, arr, obj, end, field, Items, nil, cons}
use metricops_backend.Json.Printer.{key_lt}
use metricops_backend.Domain.Principal.{Principal}
use metricops_backend.Effects.{Exec, ok, gets, pure, ◌>>=◌, ◌>>◌}
use metricops_backend.Database.Tables.{Db, AlertInstanceRow, IncidentRow}
use metricops_backend.Database.Transaction.{
  Crypto, Clocks, Client, Pool, TenantContext, with_tenant_transaction,
}
use metricops_backend.Database.Atomic.{begun}
use metricops_backend.Audit.{AuditInput, append}
use metricops_backend.Audit.Chain.{IsSound}
use metricops_backend.Audit.Committed.{IsExtended-append, with_tenant_transaction-IsSound}
use metricops_backend.Alerts.Instances.{severity_text}
use metricops_backend.Incidents.{status_text, is_over}
use metricops_backend.Incidents.Lists.{alert_status_text}

-- a row of `SELECT severity, status, count(*) … GROUP BY severity, status`
pub record Group : Type 0 where
  pub severity : String
  pub status : String
  pub count : ℕ

abbrev group_before : String → String → Group → Bool
group_before severity status g =
    if g.severity == severity then key_lt g.status status else key_lt g.severity severity

-- one more row in its group, the groups ordered by severity and status
unfoldable pub counted : String → String → List Group → List Group
counted severity status [] = (record { severity = severity; status = status; count = 1 }) ∷ []
counted severity status (g ∷ groups) =
    let rest = counted severity status groups in
    if g.severity == severity && g.status == status
    then record g { count = g.count + 1 } ∷ groups
    else if group_before severity status g
    then g ∷ rest
    else (record { severity = severity; status = status; count = 1 }) ∷ g ∷ groups

unfoldable pub grouped : List (String × String) → List Group
grouped [] = []
grouped ((severity, status) ∷ rest) = counted severity status (grouped rest)

-- `>= $2 AND < $3`
abbrev pub within : ℕ → ℕ → ℕ → Bool
within start end_time t = leb start t && ltb t end_time

abbrev pub alert_in : String → ℕ → ℕ → AlertInstanceRow → Bool
alert_in customer_id start end_time row =
    row.customer_id == customer_id && within start end_time row.starts_at

abbrev pub incident_in : String → ℕ → ℕ → IncidentRow → Bool
incident_in customer_id start end_time row =
    row.customer_id == customer_id && within start end_time row.detected_at

abbrev pub active_of : String → IncidentRow → Bool
active_of customer_id row = row.customer_id == customer_id && not (is_over row.status)

abbrev pub alert_group : AlertInstanceRow → String × String
alert_group row = (severity_text row.severity, alert_status_text row.status)

abbrev pub incident_group : IncidentRow → String × String
incident_group row = (row.severity, status_text row.status)

unfoldable pub alert_groups : String → ℕ → ℕ → List AlertInstanceRow → List Group
alert_groups customer_id start end_time rows =
    grouped (map alert_group (filter (alert_in customer_id start end_time) rows))

unfoldable pub incident_groups : String → ℕ → ℕ → List IncidentRow → List Group
incident_groups customer_id start end_time rows =
    grouped (map incident_group (filter (incident_in customer_id start end_time) rows))

-- the times of one column beside the detection, where there is one
abbrev pub spans : (IncidentRow → Option ℕ) → List IncidentRow → List (ℕ × ℕ)
spans at_time [] = []
spans at_time (row ∷ rows) = elim (at_time row) [
  | none ↦ spans at_time rows
  | some t ↦ (row.detected_at, t) ∷ spans at_time rows
]

abbrev groups_json : List Group → Items
groups_json [] = nil
groups_json (g ∷ rest) =
    cons
      (obj (
        field "severity" (str g.severity)
          (field "status" (str g.status) (field "count" (num g.count) end))))
      (groups_json rest)

-- `mean_time` is PostgreSQL's average of the intervals, in seconds, read by `nullableNumber`.
module _ (crypto : Crypto) (hmac_key : String) (clocks : Clocks) (mean_time : List (ℕ × ℕ) → Json)
    (principal : Principal) where
  unfoldable pub report_of : ℕ → ℕ → Db → Json
  report_of start end_time db =
      let found = filter (incident_in principal.customer_id start end_time) db.incidents in
      let acknowledged = spans (λ row. row.acknowledged_at) found in
      let resolved = spans (λ row. row.resolved_at) found in
      obj (
        field "period"
          (obj (
            field "start" (str (to_iso_string start))
              (field "end" (str (to_iso_string end_time)) end)))
          (field "alerts"
            (arr
              (groups_json (alert_groups principal.customer_id start end_time db.alert_instances)))
            (field "incidents"
              (arr
                (groups_json (incident_groups principal.customer_id start end_time db.incidents)))
              (field "serviceLevels"
                (obj (
                  field "acknowledgedCount" (num (length acknowledged)) (
                    field "resolvedCount" (num (length resolved)) (
                      field "meanTimeToAcknowledgeSeconds" (mean_time acknowledged)
                        (field "meanTimeToResolveSeconds" (mean_time resolved) end)))))
                (field "currentlyActiveIncidents"
                  (num (length (filter (active_of principal.customer_id) db.incidents))) end)))))

  abbrev pub generated_audit : ℕ → ℕ → String → AuditInput
  generated_audit start end_time request_id = record {
    customer_id = principal.customer_id;
    actor_id = principal.subject;
    action = "operations_report.generated";
    resource_type = "report";
    resource_id = String.◌++◌ (to_iso_string start) (String.◌++◌ "/" (to_iso_string end_time));
    request_id = request_id;
    occurred_at = none;
    details = some (
        obj (
          field "start" (str (to_iso_string start))
            (field "end" (str (to_iso_string end_time)) end)));
  }

  unfoldable pub generate_work : ℕ → ℕ → String → Exec Client Json
  generate_work start end_time request_id = do
    report ← gets (λ c. report_of start end_time c.db)
    append crypto hmac_key clocks (generated_audit start end_time request_id)
    pure report

  abbrev pub context : TenantContext
  context = record { customer_id = principal.customer_id; actor_id = principal.subject }

  unfoldable pub generate : ℕ → ℕ → String → Exec Pool Json
  generate start end_time request_id =
      with_tenant_transaction context (generate_work start end_time request_id)

  -- A report keeps a sound audit log sound.
  pub generate-IsSound :
      (start end_time : ℕ) (request_id : String) (pool : Pool)
      → IsSound crypto hmac_key pool.server
      → IsSound crypto hmac_key (generate start end_time request_id pool).1.server
  unfolding generate generate_work append
  generate-IsSound start end_time request_id pool s =
      with_tenant_transaction-IsSound crypto hmac_key context
        (generate_work start end_time request_id) pool
        (IsExtended-append crypto hmac_key clocks (generated_audit start end_time request_id)
          (begun context pool))
        s
