-- ===== src/Incidents/Lists.antt =====
-- incidents/incident-service.ts: the alerts and the incidents of a customer, the last changed first.
use metricops_backend.Common.{
  ℕ, ◌≤◌, String, ◌≡◌, Bool, true, ◌&&◌, ◌||◌, List, [], ◌∷◌, map, some, ltb, ◌==◌, nat_eq,
  string_eq, filter, take, length, All,
}
use metricops_backend.Common.Order.{order_by, length-take, All-take, All-order_by, All-filter}
use metricops_backend.Json.{Json, str, obj, end, field, Fields}
use metricops_backend.Json.Printer.{key_lt}
use metricops_backend.Domain.Principal.{Principal}
use metricops_backend.Effects.{Exec, gets}
use metricops_backend.Database.Tables.{
  AlertInstanceRow, IncidentRow, AlertStatus, firing, alert_resolved,
}
use metricops_backend.Database.Transaction.{Pool, TenantContext, with_tenant_transaction}
use metricops_backend.Audit.{nullable}
use metricops_backend.Alerts.Instances.{severity_text}
use metricops_backend.Incidents.{iso, camelize_incident}

abbrev pub alert_status_text : AlertStatus → String
alert_status_text firing = "firing"
alert_status_text alert_resolved = "resolved"

abbrev labels_json : List (String × String) → Fields
labels_json [] = end
labels_json (entry ∷ rest) = field entry.0 (str entry.1) (labels_json rest)

unfoldable pub camelize_alert : AlertInstanceRow → Json
camelize_alert row = obj (
    field "id" (str row.id) (
      field "connectionId" (str row.connection_id) (
        field "fingerprint" (str row.fingerprint) (
          field "status" (str (alert_status_text row.status)) (
            field "severity" (str (severity_text row.severity)) (
              field "title" (str row.title) (
                field "summary" (str row.summary) (
                  field "labels" (obj (labels_json row.labels)) (
                    field "resourceId" (nullable row.resource_id) (
                      field "startsAt" (iso (some row.starts_at)) (
                        field "endsAt" (iso row.ends_at) (
                          field "lastReceivedAt" (iso (some row.last_received_at)) (
                            field "createdAt" (iso (some row.created_at))
                              (field "updatedAt" (iso (some row.updated_at)) end))))))))))))))

-- ORDER BY updated_at DESC, id DESC
abbrev pub alert_changed_later : AlertInstanceRow → AlertInstanceRow → Bool
alert_changed_later a b =
    ltb b.updated_at a.updated_at || (a.updated_at == b.updated_at && key_lt b.id a.id)

abbrev pub incident_changed_later : IncidentRow → IncidentRow → Bool
incident_changed_later a b =
    ltb b.updated_at a.updated_at || (a.updated_at == b.updated_at && key_lt b.id a.id)

abbrev pub alert_of_tenant : String → AlertInstanceRow → Bool
alert_of_tenant customer_id row = row.customer_id == customer_id

abbrev pub incident_of_tenant : String → IncidentRow → Bool
incident_of_tenant customer_id row = row.customer_id == customer_id

unfoldable pub listed_alerts : String → ℕ → List AlertInstanceRow → List AlertInstanceRow
listed_alerts customer_id limit rows =
    take limit (order_by alert_changed_later (filter (alert_of_tenant customer_id) rows))

unfoldable pub listed_incidents : String → ℕ → List IncidentRow → List IncidentRow
listed_incidents customer_id limit rows =
    take limit (order_by incident_changed_later (filter (incident_of_tenant customer_id) rows))

abbrev context : Principal → TenantContext
context principal = record { customer_id = principal.customer_id; actor_id = principal.subject }

unfoldable pub list_alerts : Principal → ℕ → Exec Pool (List Json)
list_alerts principal limit = with_tenant_transaction (context principal) (
    gets (λ c. map camelize_alert (listed_alerts principal.customer_id limit c.db.alert_instances)))

unfoldable pub list_incidents : Principal → ℕ → Exec Pool (List Json)
list_incidents principal limit = with_tenant_transaction (context principal) (
    gets (λ c. map camelize_incident (listed_incidents principal.customer_id limit c.db.incidents)))

-- At most so many alerts are listed, and all are the customer's.
pub listed_alerts-of_tenant :
    (customer_id : String) (limit : ℕ) (rows : List AlertInstanceRow)
    → (length (listed_alerts customer_id limit rows) ≤ limit)
      × All (λ row. alert_of_tenant customer_id row ≡ true) (listed_alerts customer_id limit rows)
unfolding listed_alerts
listed_alerts-of_tenant customer_id limit rows = (
  length-take limit (order_by alert_changed_later (filter (alert_of_tenant customer_id) rows)),
  All-take _ limit _
      (All-order_by _ alert_changed_later _ (All-filter (alert_of_tenant customer_id) rows)),
)
