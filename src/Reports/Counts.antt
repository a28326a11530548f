-- ===== src/Reports/Counts.antt =====
-- What the groups of a report count.
use metricops_backend.Common.{
  ℕ, ◌+◌, String, ◌≡◌, refl, ◌∙◌, Bool, ◌&&◌, List, [], ◌∷◌, map, filter, length, ltb, leb, ◌==◌,
  string_eq, if◌then◌else◌, arith, eq_iff,
}
use metricops_backend.Database.Tables.{AlertInstanceRow, IncidentRow}
use metricops_backend.Alerts.Instances.{severity_text}
use metricops_backend.Incidents.{status_text}
use metricops_backend.Incidents.Lists.{alert_status_text}
use metricops_backend.Reports.{
  Group, counted, grouped, alert_in, incident_in, alert_group, incident_group, alert_groups,
  incident_groups,
}

-- the count of one group, and of all groups
unfoldable pub count_in : String → String → List Group → ℕ
count_in severity status [] = 0
count_in severity status (g ∷ groups) =
    (if g.severity == severity && g.status == status then g.count else 0)
    + count_in severity status groups

abbrev pub total : List Group → ℕ
total [] = 0
total (g ∷ groups) = g.count + total groups

total-counted :
    (severity status : String) (groups : List Group)
    → total (counted severity status groups) ≡ total groups + 1
unfolding counted
total-counted severity status [] = omega arith
total-counted severity status (g ∷ groups) = ground (arith, total-counted severity status groups)

count_in-counted :
    (severity status severity' status' : String) (groups : List Group)
    → count_in severity' status' (counted severity status groups)
      ≡ (if severity == severity' && status == status' then 1 else 0)
        + count_in severity' status' groups
unfolding counted count_in
count_in-counted severity status severity' status' [] = refl
count_in-counted severity status severity' status' (g ∷ groups) = ground (
  arith,
  count_in-counted severity status severity' status' groups,
  eq_iff g.severity severity,
  eq_iff g.severity severity',
  eq_iff severity severity',
  eq_iff g.status status,
  eq_iff g.status status',
  eq_iff status status',
)

-- Grouping loses no row and counts each in its own group: the counts of all groups make up the
-- number of rows, and a group's count is the number of rows with its severity and status.
grouped-counts :
    (rows : List (String × String)) (severity status : String)
    → (total (grouped rows) ≡ length rows)
      × (count_in severity status (grouped rows)
          ≡ length (filter (λ row. row.0 == severity && row.1 == status) rows))
unfolding grouped count_in
grouped-counts [] severity status = (refl, refl)
grouped-counts ((severity', status') ∷ rows) severity status =
    let (all_rows, own_rows) = grouped-counts rows severity status in
    (
      total-counted severity' status' (grouped rows) ∙ omega (arith, all_rows),
      count_in-counted severity' status' severity status (grouped rows) ∙ ground (arith, own_rows),
    )

-- counting what a filter kept of the projected rows is counting the rows
module _ {A : Type 0} (p g : A → Bool) (f : A → String × String) (severity status : String) where
  length-filter-map :
      ((row : A) → g row ≡ (p row && ((f row).0 == severity && (f row).1 == status)))
      → (rows : List A)
      → length (filter (λ r. r.0 == severity && r.1 == status) (map f (filter p rows)))
        ≡ length (filter g rows)
  length-filter-map same [] = refl
  length-filter-map same (row ∷ rows) = ground (arith, same row, length-filter-map same rows)

length-map-filter :
    {A : Type 0} (p g : A → Bool) (f : A → String × String)
    → ((row : A) → g row ≡ p row)
    → (rows : List A) → length (map f (filter p rows)) ≡ length (filter g rows)
length-map-filter p g f same [] = refl
length-map-filter p g f same (row ∷ rows) =
    ground (arith, same row, length-map-filter p g f same rows)

module _ (customer_id : String) (start end_time : ℕ) (severity status : String) where
  -- an alert of the customer that started in the period, and one of a severity and a status
  abbrev pub in_alerts : AlertInstanceRow → Bool
  in_alerts row =
      row.customer_id == customer_id && leb start row.starts_at && ltb row.starts_at end_time

  abbrev pub in_alert_group : AlertInstanceRow → Bool
  in_alert_group row =
      in_alerts row
      && (severity_text row.severity == severity && alert_status_text row.status == status)

  -- an incident of the customer that was detected in the period, and one of a severity and a status
  abbrev pub in_incidents : IncidentRow → Bool
  in_incidents row =
      row.customer_id == customer_id && leb start row.detected_at && ltb row.detected_at end_time

  abbrev pub in_incident_group : IncidentRow → Bool
  in_incident_group row =
      in_incidents row && (row.severity == severity && status_text row.status == status)

  -- The groups of a report count, for each severity and status, the customer's alerts that started
  -- in the period and the customer's incidents that were detected in it, from its start on and
  -- before its end; and they count nothing else: together they make up those alerts and incidents.
  pub report_groups-counts :
      (alerts : List AlertInstanceRow) (incidents : List IncidentRow)
      → ((count_in severity status (alert_groups customer_id start end_time alerts)
            ≡ length (filter in_alert_group alerts))
          × (total (alert_groups customer_id start end_time alerts)
              ≡ length (filter in_alerts alerts)))
        × ((count_in severity status (incident_groups customer_id start end_time incidents)
              ≡ length (filter in_incident_group incidents))
            × (total (incident_groups customer_id start end_time incidents)
                ≡ length (filter in_incidents incidents)))
  unfolding alert_groups incident_groups
  report_groups-counts alerts incidents =
      let chosen = alert_in customer_id start end_time in
      let detected = incident_in customer_id start end_time in
      let (all_alerts, own_alerts) =
        grouped-counts (map alert_group (filter chosen alerts)) severity status in
      let (all_incidents, own_incidents) =
        grouped-counts (map incident_group (filter detected incidents)) severity status in
      (
        (
          own_alerts
              ∙ length-filter-map chosen in_alert_group alert_group severity status
                  (λ row. ground arith) alerts,
          all_alerts ∙ length-map-filter chosen in_alerts alert_group (λ row. ground arith) alerts,
        ),
        (
          own_incidents
              ∙ length-filter-map detected in_incident_group incident_group severity status
                  (λ row. ground arith) incidents,
          all_incidents
              ∙ length-map-filter detected in_incidents incident_group (λ row. ground arith)
                  incidents,
        ),
      )
