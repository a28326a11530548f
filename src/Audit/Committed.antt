-- ===== src/Audit/Committed.antt =====
-- The audit log across transactions, committed and rolled back.
use metricops_backend.Common.{ℕ, ◌+◌, ◌≤◌, ◌≡◌, String, List, [], ◌∷◌, arith}
use metricops_backend.Effects.{Exec, Result, ok, thrown}
use metricops_backend.Database.Tables.{AuditRow}
use metricops_backend.Database.Transaction.{
  Crypto, Clocks, Client, Pool, TenantContext, finish, with_tenant_transaction,
}
use metricops_backend.Database.Atomic.{begun}
use metricops_backend.Audit.{AuditInput, append}
use metricops_backend.Audit.Chain.{Rising, IsSound}

Rising-mono :
    (lower upper upper' : ℕ) (es : List AuditRow)
    → upper ≤ upper'
    → Rising lower es upper
    → Rising lower es upper'
Rising-mono lower upper upper' [] h r = omega arith
Rising-mono lower upper upper' (e ∷ es) h r = (r.0, Rising-mono e.sequence upper upper' es h r.1)

module _ (crypto : Crypto) (key : String) where
  -- a step inside a transaction keeps the log sound and takes no sequence value back
  pub record IsExtended (client client' : Client) : Type 0 where
    pub sound : IsSound crypto key client.server → IsSound crypto key client'.server
    pub forward : client.audit_sequence ≤ client'.audit_sequence

  pub IsExtended-refl : (client : Client) → IsExtended client client
  IsExtended-refl client = record { sound = λ s. s; forward = omega arith }

  -- a step that leaves the audit log and its sequence alone
  pub IsExtended-same :
      (client client' : Client)
      → client'.db.audit_events ≡ client.db.audit_events
      → client'.audit_sequence ≡ client.audit_sequence
      → IsExtended client client'
  IsExtended-same client client' events sequence = record {
    sound =
        λ s. record { rising = rw (events, sequence) s.rising; standing = rw events s.standing };
    forward = omega arith;
  }

  pub IsExtended-trans : (a b c : Client) → IsExtended a b → IsExtended b c → IsExtended a c
  IsExtended-trans a b c p q = record {
    sound = λ s. q.sound (p.sound s);
    forward = omega (arith, p.forward, q.forward);
  }

  pub IsExtended-append :
      (clocks : Clocks) (input : AuditInput) (client : Client)
      → IsExtended client (append crypto key clocks input client).1
  unfolding append
  IsExtended-append clocks input client = record {
    sound = λ s. metricops_backend.Audit.Chain.append-IsSound crypto key clocks input client s;
    forward = omega arith;
  }

  -- a transaction that is finished by hand: committed if its work returned, else rolled back to
  -- the tables that its client saw at first
  pub finish-IsSound :
      {A : Type 0} (leased : ℕ) (client : Client) (out : Result A × Client)
      → IsExtended client out.1
      → IsSound crypto key client.server
      → IsSound crypto key (finish client.db leased out).1.server
  finish-IsSound leased client (ok a, c) x s = x.sound s
  finish-IsSound leased client (thrown e, c) x s = record {
    rising =
        Rising-mono 0 client.audit_sequence c.audit_sequence client.db.audit_events x.forward
          s.rising;
    standing = s.standing;
  }

  module _ {A : Type 0} (context : TenantContext) (work : Exec Client A) where
    -- A transaction whose work only appends to the audit log leaves a sound log, also when it
    -- rolls back and the sequence values that it drew are lost.
    pub with_tenant_transaction-IsSound :
        (pool : Pool)
        → IsExtended (begun context pool) (work (begun context pool)).1
        → IsSound crypto key pool.server
        → IsSound crypto key (with_tenant_transaction context work pool).1.server
    unfolding with_tenant_transaction
    with_tenant_transaction-IsSound pool x s =
        finish-IsSound (pool.leased + 1) (begun context pool) (work (begun context pool)) x s
