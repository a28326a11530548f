-- ===== src/Audit/Query.antt =====
-- audit/audit-query-service.ts: the events of a customer, the newest first.
use metricops_backend.Common.{
  ℕ, ◌≤◌, String, ◌≡◌, Bool, true, List, map, ltb, ◌==◌, string_eq, filter, take, length, All,
}
use metricops_backend.Common.Dates.{to_iso_string}
use metricops_backend.Common.Order.{order_by, length-take, All-take, All-order_by, All-filter}
use metricops_backend.Json.{Json, str, obj, end, field}
use metricops_backend.Domain.Principal.{Principal}
use metricops_backend.Effects.{Exec, gets}
use metricops_backend.Database.Tables.{AuditRow}
use metricops_backend.Database.Transaction.{Pool, with_tenant_transaction}
use metricops_backend.Audit.{nullable}

-- ORDER BY sequence DESC
abbrev pub newest_first : AuditRow → AuditRow → Bool
newest_first e f = ltb f.sequence e.sequence

abbrev pub of_tenant : String → AuditRow → Bool
of_tenant customer_id e = e.customer_id == customer_id

unfoldable pub listed_events : String → ℕ → List AuditRow → List AuditRow
listed_events customer_id limit rows =
    take limit (order_by newest_first (filter (of_tenant customer_id) rows))

-- `spell` is `String` of a sequence: its decimal digits
unfoldable pub audit_event_view : (ℕ → String) → AuditRow → Json
audit_event_view spell e = obj (
    field "sequence" (str (spell e.sequence)) (
      field "id" (str e.id) (
        field "actorId" (str e.actor_id) (
          field "action" (str e.action) (
            field "resourceType" (str e.resource_type) (
              field "resourceId" (str e.resource_id) (
                field "requestId" (str e.request_id) (
                  field "occurredAt" (str (to_iso_string e.occurred_at)) (
                    field "details" e.details (
                      field "previousHash" (nullable e.previous_hash)
                        (field "chainHash" (str e.chain_hash) end)))))))))))

unfoldable pub list_audit_events : (ℕ → String) → Principal → ℕ → Exec Pool (List Json)
list_audit_events spell principal limit =
    with_tenant_transaction
      (record { customer_id = principal.customer_id; actor_id = principal.subject })
      (gets (λ c.
        map (audit_event_view spell) (listed_events principal.customer_id limit c.db.audit_events)))

-- At most so many events are listed, and all are the customer's.
pub listed_events-of_tenant :
    (customer_id : String) (limit : ℕ) (rows : List AuditRow)
    → (length (listed_events customer_id limit rows) ≤ limit)
      × All (λ e. of_tenant customer_id e ≡ true) (listed_events customer_id limit rows)
unfolding listed_events
listed_events-of_tenant customer_id limit rows = (
  length-take limit (order_by newest_first (filter (of_tenant customer_id) rows)),
  All-take _ limit _ (All-order_by _ newest_first _ (All-filter (of_tenant customer_id) rows)),
)
