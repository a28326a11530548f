-- ===== src/Resources/Creation.antt =====
-- Creating resources.
use metricops_backend.Common.{
  ℕ, ◌+◌, ◌<◌, String, ◌≡◌, refl, none, Bool-cases, inl, inr, ◌==◌, string_eq, if◌then◌else◌,
}
use metricops_backend.Json.{Json}
use metricops_backend.Domain.Errors.{idempotency_key_reused}
use metricops_backend.Domain.Principal.{Principal}
use metricops_backend.Effects.{ok, thrown, Result-cases}
use metricops_backend.Database.Transaction.{Crypto, Clocks, Client, Pool}
use metricops_backend.Database.Atomic.{begun}
use metricops_backend.Audit.{append}
use metricops_backend.Audit.Chain.{IsSound}
use metricops_backend.Audit.Committed.{
  IsExtended, IsExtended-refl, IsExtended-same, IsExtended-trans, IsExtended-append,
  with_tenant_transaction-IsSound,
}
use metricops_backend.Idempotency.{find_prior, a_day}
use metricops_backend.Idempotency.Keyed.{keyed, keyed-retry, keyed-IsExtended}
use metricops_backend.Resources.{
  CreateResourceInput, context, is_monitorable, admit, insert_row, created_audit, create_body,
  create_key, create_hash, create_resource,
}

module _ (crypto : Crypto) (key : String) (clocks : Clocks) (micros : ℕ) (principal : Principal)
    (input : CreateResourceInput) (idempotency_key request_id : String) where
  create_body-records :
      (client : Client)
      → (create_body crypto key clocks micros principal input request_id
          client).1.db.idempotency_records
        ≡ client.db.idempotency_records
  unfolding create_body append
  create_body-records client =
      elim (Bool-cases
        (is_monitorable crypto key clocks micros principal input client.db.connections)) [
          | inr no_target ↦ rw no_target
          | inl usable ↦
              elim (Result-cases (admit crypto key clocks micros principal input client)) [
                | inl (u, h) ↦ rw (usable, h)
                | inr (e, h) ↦ rw (usable, h)
              ]
        ]

  abbrev drawn_only : Client → Client
  drawn_only client = record client { server = record client.server { drawn = client.drawn + 1 } }

  create_body-IsExtended :
      (client : Client)
      → IsExtended crypto key client
          (create_body crypto key clocks micros principal input request_id client).1
  unfolding create_body
  create_body-IsExtended client =
      elim (Bool-cases
        (is_monitorable crypto key clocks micros principal input client.db.connections)) [
          | inr no_target ↦ rw no_target (IsExtended-refl crypto key client)
          | inl usable ↦
              elim (Result-cases (admit crypto key clocks micros principal input client)) [
                | inr (e, h) ↦
                    rw (usable, h) (IsExtended-same crypto key client (drawn_only client) refl refl)
                | inl (u, h) ↦
                    rw (usable, h)
                      (IsExtended-trans crypto key client
                        (insert_row crypto key clocks micros principal input client) _
                        (IsExtended-same crypto key client
                          (insert_row crypto key clocks micros principal input client) refl refl)
                        (IsExtended-append crypto key clocks
                          (created_audit crypto key clocks micros principal input
                            (crypto.random_uuid client.drawn) request_id)
                          (insert_row crypto key clocks micros principal input client)))
              ]
        ]

  -- Creating a resource, whatever its outcome, keeps a sound audit log sound.
  pub create_resource-IsSound :
      (pool : Pool)
      → IsSound crypto key pool.server
      → IsSound crypto key
          (create_resource crypto key clocks micros principal input idempotency_key request_id
            pool).1.server
  unfolding create_resource
  create_resource-IsSound pool s =
      with_tenant_transaction-IsSound crypto key (context crypto key clocks micros principal)
        (keyed (create_key crypto key clocks micros principal idempotency_key)
          (create_hash crypto key clocks micros principal input) 201 clocks.transaction_now
          (create_body crypto key clocks micros principal input request_id))
        pool
        (keyed-IsExtended _ _ _ _ _ crypto key (begun _ pool)
          (create_body-IsExtended (begun _ pool)))
        s

  -- Within a day of a resource's creation under a key with no live record, a request of the
  -- customer under the same key changes no table, and is answered the saved view if its digest is
  -- the same and refused if it is not.
  pub create_resource-retry :
      (pool pool' : Pool) (view : Json) (subject' : String) (clocks' : Clocks) (micros' : ℕ)
      (input' : CreateResourceInput) (request_id' : String)
      → find_prior
          (create_key crypto key clocks micros principal idempotency_key)
          clocks.transaction_now
          pool.db.idempotency_records
        ≡ none
      → create_resource crypto key clocks micros principal input idempotency_key request_id pool
        ≡ (ok view, pool')
      → clocks'.transaction_now < clocks.transaction_now + a_day
      → ((create_resource crypto key clocks' micros'
            (record principal { subject = subject' })
            input'
            idempotency_key
            request_id'
            pool').0
          ≡ (if create_hash crypto key clocks micros principal input
                == create_hash crypto key clocks micros principal input'
              then ok view
              else thrown idempotency_key_reused))
        × ((create_resource crypto key clocks' micros'
              (record principal { subject = subject' })
              input'
              idempotency_key
              request_id'
              pool').1.db
            ≡ pool'.db)
  unfolding create_resource
  create_resource-retry pool pool' view subject' clocks' micros' input' request_id' fresh h soon =
      keyed-retry _ _ _ _ (create_body crypto key clocks micros principal input request_id) _ _ pool
        pool' view _ _ _ _ (create_body-records (begun _ pool)) fresh h soon
