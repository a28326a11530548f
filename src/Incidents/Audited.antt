-- ===== src/Incidents/Audited.antt =====
-- Transitions keep the audit log sound.
use metricops_backend.Common.{String, refl}
use metricops_backend.Json.{Json}
use metricops_backend.Domain.Principal.{Principal}
use metricops_backend.Effects.{Result}
use metricops_backend.Database.Tables.{IncidentRow}
use metricops_backend.Database.Transaction.{Crypto, Clocks, Client, Pool}
use metricops_backend.Database.Atomic.{begun}
use metricops_backend.Audit.Chain.{IsSound}
use metricops_backend.Audit.Committed.{
  IsExtended, IsExtended-refl, IsExtended-same, IsExtended-trans, IsExtended-append,
  with_tenant_transaction-IsSound,
}
use metricops_backend.Incidents.{
  Action, TransitionInput, owned, moved, update_where, with_incidents, log_event, audit_input,
  transition_work, transition,
}
use metricops_backend.Incidents.Outcome.{
  recorded, completed, Outcome, replayed, missing, refused, blocked, performed,
  transition_work-Outcome,
}

module _ (crypto : Crypto) (hmac_key : String) (clocks : Clocks) (principal : Principal)
    (action : Action) (input : TransitionInput)
    (incident_id idempotency_key request_id : String) where
  abbrev before_audit : Client → Client
  before_audit client = log_event crypto hmac_key clocks principal action input incident_id (
      with_incidents
        (update_where (owned principal.customer_id incident_id)
          (moved action input clocks.transaction_now))
        client)

  before_audit-IsExtended :
      (client : Client) → IsExtended crypto hmac_key client (before_audit client)
  unfolding log_event
  before_audit-IsExtended client =
      IsExtended-same crypto hmac_key client (before_audit client) refl refl

  recorded-IsExtended :
      (row : IncidentRow) (client : Client)
      → IsExtended crypto hmac_key client (
          recorded crypto hmac_key clocks principal action input incident_id idempotency_key
            request_id row client)
  recorded-IsExtended row client =
      IsExtended-trans crypto hmac_key client (before_audit client) _
        (before_audit-IsExtended client)
        (IsExtended-append crypto hmac_key clocks
          (audit_input crypto hmac_key clocks principal action incident_id request_id
            (moved action input clocks.transaction_now row))
          (before_audit client))

  completed-IsExtended :
      (row : IncidentRow) (client : Client)
      → IsExtended crypto hmac_key client (
          completed crypto hmac_key clocks principal action input incident_id idempotency_key
            request_id row client)
  completed-IsExtended row client =
      IsExtended-trans crypto hmac_key client _ _ (recorded-IsExtended row client) (
        IsExtended-same crypto hmac_key
          (recorded crypto hmac_key clocks principal action input incident_id idempotency_key
            request_id row client)
          _ refl refl)

  Outcome-IsExtended :
      (client : Client) (out : Result Json × Client)
      → Outcome crypto hmac_key clocks principal action input incident_id idempotency_key request_id
          client out
      → IsExtended crypto hmac_key client out.1
  Outcome-IsExtended client out (replayed prior found h) =
      rw h (IsExtended-refl crypto hmac_key client)
  Outcome-IsExtended client out (missing absent h) = rw h (IsExtended-refl crypto hmac_key client)
  Outcome-IsExtended client out (refused row t found no_guard h) =
      rw h (IsExtended-refl crypto hmac_key client)
  Outcome-IsExtended client out (blocked row taken h) = rw h (recorded-IsExtended row client)
  Outcome-IsExtended client out (performed row a fresh free h) =
      rw h (completed-IsExtended row client)

  -- Every transition, whatever its outcome, keeps a sound audit log sound.
  pub transition-IsSound :
      (pool : Pool)
      → IsSound crypto hmac_key pool.server
      → IsSound crypto hmac_key
          (transition crypto hmac_key clocks principal action input incident_id idempotency_key
            request_id pool).1.server
  unfolding transition
  transition-IsSound pool s =
      with_tenant_transaction-IsSound crypto hmac_key
        (record { customer_id = principal.customer_id; actor_id = principal.subject })
        (transition_work crypto hmac_key clocks principal action input incident_id idempotency_key
          request_id)
        pool
        (Outcome-IsExtended (begun _ pool) _ (
          transition_work-Outcome crypto hmac_key clocks principal action input incident_id
            idempotency_key request_id (begun _ pool)))
        s
