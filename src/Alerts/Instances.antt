-- ===== src/Alerts/Instances.antt =====
-- alerts/alertmanager-service.ts: what one alert of a delivery does to the tables.
use metricops_backend.Common.{
  ℕ, ◌+◌, String, Bool, true, false, not, ◌&&◌, ◌||◌, List, [], ◌∷◌, Option, none, some, any, ltb,
  ◌==◌, nat_eq, string_eq, if◌then◌else◌, codes, slice_first,
}
use metricops_backend.Common.Patterns.{lower_all, same_codes}
use metricops_backend.Json.{Json, str, obj, end, field}
use metricops_backend.Database.Tables.{
  ResourceRow, AlertStatus, firing, alert_resolved, AlertSeverity, info, warning, critical,
  AlertInstanceRow, AlertEventRow, IncidentRow, IncidentEventRow, IncidentStatus, open_incident,
  resolved, closed,
}
use metricops_backend.Database.Transaction.{Crypto, Clocks}

-- an alert of the parsed payload
pub record Alert : Type 0 where
  pub status : AlertStatus
  pub labels : List (String × String)
  pub annotations : List (String × String)
  pub starts_at : ℕ
  pub ends_at : Option ℕ
  pub fingerprint : String

-- the member of an object, and an empty text in place of none, as `||` takes both
unfoldable pub member : String → List (String × String) → String
member key [] = ""
member key (entry ∷ rest) = if entry.0 == key then entry.1 else member key rest

abbrev pub or_text : String → String → String
or_text a b = if a == "" then b else a

-- No other letter becomes one of these words by `toLowerCase`.
unfoldable pub normalize_severity : String → AlertSeverity
normalize_severity value =
    let word = lower_all (codes value) in
    if same_codes word (codes "critical")
    then critical
    else if same_codes word (codes "warning") || same_codes word (codes "warn")
    then warning
    else info

abbrev pub severity_text : AlertSeverity → String
severity_text info = "info"
severity_text warning = "warning"
severity_text critical = "critical"

unfoldable pub title_of : Alert → String
title_of alert = slice_first 300 (
    or_text (member "summary" alert.annotations)
      (or_text (member "alertname" alert.labels) "Monitoring alert"))

unfoldable pub summary_of : Alert → String
summary_of alert =
    slice_first 2000
      (or_text (member "description" alert.annotations) (member "summary" alert.annotations))

abbrev pub ends_early : ℕ → Option ℕ → Bool
ends_early starts_at none = false
ends_early starts_at (some ends_at) = ltb ends_at starts_at

unfoldable pub has_invalid_time : ℕ → Alert → Bool
has_invalid_time now alert =
    ltb (now + 300000) alert.starts_at || ends_early alert.starts_at alert.ends_at

abbrev pub or_now : ℕ → Option ℕ → ℕ
or_now now none = now
or_now now (some t) = t

abbrev pub occurred_at : ℕ → Alert → ℕ
occurred_at now alert = elim alert.status [
  | firing ↦ alert.starts_at
  | alert_resolved ↦ or_now now alert.ends_at
]

-- status NOT IN ('resolved', 'closed')
abbrev pub is_active : IncidentStatus → Bool
is_active resolved = false
is_active closed = false
is_active _ = true

abbrev pub is_active_of : String → String → IncidentRow → Bool
is_active_of customer_id alert_id row =
    row.customer_id == customer_id && row.alert_instance_id == alert_id && is_active row.status

abbrev pub is_firing : AlertStatus → Bool
is_firing firing = true
is_firing alert_resolved = false

abbrev pub is_critical : AlertSeverity → Bool
is_critical critical = true
is_critical _ = false

-- coalesce(excluded.resource_id, alert_instances.resource_id)
abbrev coalesce : Option String → Option String → Option String
coalesce none b = b
coalesce (some a) b = some a

module _ (crypto : Crypto) (clocks : Clocks) (is_zod_uuid : String → Bool)
    (customer_id connection_id : String) where
  abbrev pub owned_resource : String → ResourceRow → Bool
  owned_resource id row = row.customer_id == customer_id && row.id == id

  -- the resource that a label names, if it is the customer's
  unfoldable pub resource_of : Alert → List ResourceRow → Option String
  resource_of alert rows =
      let candidate = member "metricops_resource_id" alert.labels in
      if not (candidate == "") && is_zod_uuid candidate && any (owned_resource candidate) rows
      then some candidate
      else none

  abbrev pub same_instance : String → AlertInstanceRow → Bool
  same_instance fingerprint row =
      row.customer_id == customer_id
      && row.connection_id == connection_id
      && row.fingerprint == fingerprint

  unfoldable pub new_instance : Alert → Option String → String → AlertInstanceRow
  new_instance alert resource_id id = record {
    id = id;
    customer_id = customer_id;
    connection_id = connection_id;
    fingerprint = alert.fingerprint;
    status = alert.status;
    severity = normalize_severity (member "severity" alert.labels);
    title = title_of alert;
    summary = summary_of alert;
    labels = alert.labels;
    resource_id = resource_id;
    starts_at = alert.starts_at;
    ends_at = alert.ends_at;
    last_received_at = clocks.transaction_now;
    created_at = clocks.transaction_now;
    updated_at = clocks.transaction_now;
  }

  -- ON CONFLICT … DO UPDATE SET
  unfoldable pub updated_instance : Alert → Option String → AlertInstanceRow → AlertInstanceRow
  updated_instance alert resource_id row = record row {
    status = alert.status;
    severity = normalize_severity (member "severity" alert.labels);
    title = title_of alert;
    summary = summary_of alert;
    labels = alert.labels;
    resource_id = coalesce resource_id row.resource_id;
    starts_at = alert.starts_at;
    ends_at = alert.ends_at;
    last_received_at = clocks.transaction_now;
    updated_at = clocks.transaction_now;
  }

  -- the rows, and the identifier that RETURNING gives
  unfoldable pub upsert_instance :
      Alert → Option String → String → List AlertInstanceRow → List AlertInstanceRow × String
  upsert_instance alert resource_id id [] = (new_instance alert resource_id id ∷ [], id)
  upsert_instance alert resource_id id (row ∷ rows) =
      let (rest, returned) = upsert_instance alert resource_id id rows in
      if same_instance alert.fingerprint row
      then (updated_instance alert resource_id row ∷ rows, row.id)
      else (row ∷ rest, returned)

  unfoldable pub alert_event : Alert → String → String → AlertEventRow
  alert_event alert alert_id id = record {
    id = id;
    customer_id = customer_id;
    alert_instance_id = alert_id;
    event_type = alert.status;
    occurred_at = occurred_at clocks.date_now alert;
    payload = obj (
        field "severity" (str (severity_text (normalize_severity (member "severity" alert.labels))))
          (field "title" (str (title_of alert)) end));
  }

  unfoldable pub new_incident : Alert → Option String → String → String → IncidentRow
  new_incident alert resource_id alert_id id = record {
    id = id;
    customer_id = customer_id;
    alert_instance_id = alert_id;
    resource_id = resource_id;
    title = title_of alert;
    severity = "critical";
    status = open_incident;
    assignee = none;
    resolution = none;
    detected_at = alert.starts_at;
    acknowledged_at = none;
    resolved_at = none;
    version = 1;
    created_at = clocks.transaction_now;
    updated_at = clocks.transaction_now;
  }

  abbrev pub incident_event : String → String → Json → String → IncidentEventRow
  incident_event incident_id event_type details id = record {
    id = id;
    customer_id = customer_id;
    incident_id = incident_id;
    actor_id = "alertmanager-webhook";
    event_type = event_type;
    details = details;
  }

  -- SET status = 'resolved', resolved_at, updated_at, version
  unfoldable pub recovered : Alert → IncidentRow → IncidentRow
  recovered alert row = record row {
    status = resolved;
    resolved_at = some (or_now clocks.date_now alert.ends_at);
    updated_at = clocks.transaction_now;
    version = row.version + 1;
  }

  -- UPDATE incidents … WHERE they are active, with the identifiers that RETURNING gives
  unfoldable pub recover_all : Alert → String → List IncidentRow → List IncidentRow × List String
  recover_all alert alert_id [] = ([], [])
  recover_all alert alert_id (row ∷ rows) =
      let (rest, ids) = recover_all alert alert_id rows in
      if is_active_of customer_id alert_id row
      then (recovered alert row ∷ rest, row.id ∷ ids)
      else (row ∷ rest, ids)

  -- one event for each resolved incident; `drawn` identifiers were drawn before
  unfoldable pub recovery_events : List String → ℕ → List IncidentEventRow
  recovery_events [] drawn = []
  recovery_events (incident_id ∷ rest) drawn =
      incident_event incident_id "resolved" (obj (field "reason" (str "monitoring_recovered") end))
        (crypto.random_uuid drawn)
      ∷ recovery_events rest (drawn + 1)
