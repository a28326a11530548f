-- ===== src/Reports/Tests.antt =====
-- A report on two alerts and an incident.
use metricops_backend.Common.{◌≡◌, String, refl, List, [], ◌∷◌, none, length, filter}
use metricops_backend.Database.Tables.{
  AlertInstanceRow, IncidentRow, firing, warning, open_incident,
}
use metricops_backend.Reports.{counted, grouped, alert_groups, incident_groups}
use metricops_backend.Reports.Counts.{
  count_in, total, in_alerts, in_alert_group, in_incidents, in_incident_group, report_groups-counts,
}

abbrev three_rows : List (String × String)
three_rows = ("warning", "open") ∷ ("critical", "open") ∷ ("warning", "open") ∷ []

two_warnings : count_in "warning" "open" (grouped three_rows) ≡ 2
unfolding count_in grouped counted
two_warnings = refl

abbrev alert : AlertInstanceRow
alert = record {
  id = "a1";
  customer_id = "acme";
  connection_id = "c1";
  fingerprint = "f1";
  status = firing;
  severity = warning;
  title = "Disk";
  summary = "Disk is full";
  labels = [];
  resource_id = none;
  starts_at = 1000;
  ends_at = none;
  last_received_at = 1000;
  created_at = 1000;
  updated_at = 1000;
}

-- one in the period, one at its end, and one of another customer
abbrev alerts : List AlertInstanceRow
alerts = alert ∷ record alert { starts_at = 2000 } ∷ record alert { customer_id = "other" } ∷ []

abbrev incident : IncidentRow
incident = record {
  id = "i1";
  customer_id = "acme";
  alert_instance_id = "a1";
  resource_id = none;
  title = "Disk";
  severity = "warning";
  status = open_incident;
  assignee = none;
  resolution = none;
  detected_at = 1500;
  acknowledged_at = none;
  resolved_at = none;
  version = 1;
  created_at = 1500;
  updated_at = 1500;
}

one_alert : total (alert_groups "acme" 1000 2000 alerts) ≡ 1
unfolding alert_groups grouped counted
one_alert = refl

report_groups-counts_example :
    ((count_in "warning" "firing" (alert_groups "acme" 1000 2000 alerts)
        ≡ length (filter (in_alert_group "acme" 1000 2000 "warning" "firing") alerts))
      × (total (alert_groups "acme" 1000 2000 alerts)
          ≡ length (filter (in_alerts "acme" 1000 2000 "warning" "firing") alerts)))
    × ((count_in "warning" "firing" (incident_groups "acme" 1000 2000 (incident ∷ []))
          ≡ length (filter (in_incident_group "acme" 1000 2000 "warning" "firing") (incident ∷ [])))
        × (total (incident_groups "acme" 1000 2000 (incident ∷ []))
            ≡ length (filter (in_incidents "acme" 1000 2000 "warning" "firing") (incident ∷ []))))
report_groups-counts_example =
    report_groups-counts "acme" 1000 2000 "warning" "firing" alerts (incident ∷ [])
