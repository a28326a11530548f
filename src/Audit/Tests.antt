-- ===== src/Audit/Tests.antt =====
-- A concrete audit log of two events, and one that was tampered with.
use metricops_backend.Common.{◌≡◌, ◌⊎◌, refl, List, [], ◌∷◌, none, some}
use metricops_backend.Json.{num, str, obj, end, field}
use metricops_backend.Json.Printer.{canonical_json}
use metricops_backend.Effects.{Result, ok, thrown}
use metricops_backend.Database.Tables.{empty_db, AuditRow}
use metricops_backend.Database.Transaction.{Client, TenantContext, with_tenant_transaction}
use metricops_backend.Database.Atomic.{begun, settled, with_tenant_transaction-settled}
use metricops_backend.Database.Sample.{toy_crypto, noon, server_with, pool_with}
use metricops_backend.Audit.{
  AuditInput, Heads, get, set, append, sealed, newest, digest, event_body, verify_event,
  verify_from, digest_failed,
}
use metricops_backend.Audit.Tamper.{Collision, SameEvents, history, verify_from_unique}

log : Unit {0}
unfolding append sealed newest digest event_body get set verify_event verify_from canonical_json
    toy_crypto
log = tt

abbrev signed_in : AuditInput
signed_in = record {
  customer_id = "acme";
  actor_id = "ann";
  action = "session.revoked";
  resource_type = "session";
  resource_id = "s1";
  request_id = "r1";
  occurred_at = none;
  details = some (obj (field "b" (num 2) (field "a" (str "x") end)));
}

abbrev empty_client : Client
empty_client = record { server = server_with empty_db; settings = none }

abbrev once : Client
once = (append toy_crypto "k" noon signed_in empty_client).1

abbrev twice : Client
twice = (append toy_crypto "k" noon signed_in once).1

abbrev heads_of : Result Heads → Heads
heads_of (ok heads) = heads
heads_of (thrown e) = []

abbrev heads : Heads
heads = heads_of (verify_from toy_crypto "k" [] twice.db.audit_events)

accepted : verify_from toy_crypto "k" [] twice.db.audit_events ≡ ok heads
unfolding log
accepted = refl

abbrev forge : List AuditRow → List AuditRow
forge [] = []
forge (e ∷ es) = record e { actor_id = "eve" } ∷ es

forged : verify_from toy_crypto "k" [] (forge twice.db.audit_events) ≡ digest_failed
unfolding log
forged = refl

verify_from_unique_example :
    SameEvents (history "acme" [] twice.db.audit_events) (history "acme" [] twice.db.audit_events)
    ⊎ Collision toy_crypto "k"
verify_from_unique_example =
    verify_from_unique toy_crypto "k" twice.db.audit_events twice.db.audit_events heads heads "acme"
      accepted accepted refl

abbrev tenant : TenantContext
tenant = record { customer_id = "acme"; actor_id = "ann" }

with_tenant_transaction-settled_example :
    ((with_tenant_transaction tenant (append toy_crypto "k" noon signed_in) (pool_with empty_db)).0
      ≡ (append toy_crypto "k" noon signed_in (begun tenant (pool_with empty_db))).0)
    × ((with_tenant_transaction tenant
          (append toy_crypto "k" noon signed_in)
          (pool_with empty_db)).1.db
        ≡ settled empty_db
            (append toy_crypto "k" noon signed_in (begun tenant (pool_with empty_db))))
    × ((with_tenant_transaction tenant
          (append toy_crypto "k" noon signed_in)
          (pool_with empty_db)).1.leased
        ≡ 0)
with_tenant_transaction-settled_example =
    with_tenant_transaction-settled tenant (append toy_crypto "k" noon signed_in)
      (pool_with empty_db)
