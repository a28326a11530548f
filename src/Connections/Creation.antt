-- ===== src/Connections/Creation.antt =====
-- Creating and listing connections.
use metricops_backend.Common.{
  ℕ, ◌+◌, ◌≤◌, ◌<◌, String, ◌≡◌, refl, true, List, none, any, filter, length, All, Bool-cases, inl,
  inr, ◌==◌, string_eq, if◌then◌else◌,
}
use metricops_backend.Common.Order.{order_by, length-take, All-take, All-order_by, All-filter}
use metricops_backend.Json.{Json}
use metricops_backend.Domain.Errors.{idempotency_key_reused}
use metricops_backend.Domain.Principal.{Principal}
use metricops_backend.Effects.{ok, thrown}
use metricops_backend.Database.Tables.{ConnectionRow}
use metricops_backend.Database.Transaction.{Crypto, Clocks, Client, Pool}
use metricops_backend.Database.Atomic.{begun}
use metricops_backend.Audit.{append}
use metricops_backend.Audit.Chain.{IsSound}
use metricops_backend.Audit.Committed.{
  IsExtended, IsExtended-same, IsExtended-trans, IsExtended-append, with_tenant_transaction-IsSound,
}
use metricops_backend.Idempotency.{find_prior, a_day}
use metricops_backend.Idempotency.Keyed.{keyed, keyed-retry, keyed-IsExtended}
use metricops_backend.Connections.{
  CreateConnectionInput, of_customer, newer, listed, context, same_name, insert_row, created_audit,
  create_body, create_key, create_hash, create_connection,
}

-- A listing holds at most as many rows as asked for, and only rows of the customer.
listed-IsOwned :
    (customer_id : String) (limit : ℕ) (rows : List ConnectionRow)
    → (length (listed customer_id limit rows) ≤ limit)
      × All (λ row. of_customer customer_id row ≡ true) (listed customer_id limit rows)
unfolding listed
listed-IsOwned customer_id limit rows = (
  length-take limit (order_by newer (filter (of_customer customer_id) rows)),
  All-take _ limit (order_by newer (filter (of_customer customer_id) rows)) (
      All-order_by _ newer (filter (of_customer customer_id) rows)
        (All-filter (of_customer customer_id) rows)),
)

module _ (crypto : Crypto) (key : String) (clocks : Clocks) (principal : Principal)
    (input : CreateConnectionInput) (idempotency_key request_id : String) where
  create_body-records :
      (client : Client)
      → (create_body crypto key clocks principal input request_id client).1.db.idempotency_records
        ≡ client.db.idempotency_records
  unfolding create_body append
  create_body-records client =
      elim (Bool-cases
        (any (same_name crypto key clocks principal input.name) client.db.connections)) [
          | inl taken ↦ rw taken
          | inr free ↦ rw free
        ]

  abbrev drawn_only : Client → Client
  drawn_only client = record client { server = record client.server { drawn = client.drawn + 1 } }

  create_body-IsExtended :
      (client : Client)
      → IsExtended crypto key client
          (create_body crypto key clocks principal input request_id client).1
  unfolding create_body
  create_body-IsExtended client =
      elim (Bool-cases
        (any (same_name crypto key clocks principal input.name) client.db.connections)) [
          | inl taken ↦ rw taken (IsExtended-same crypto key client (drawn_only client) refl refl)
          | inr free ↦ rw free (
              IsExtended-trans crypto key client
                (insert_row crypto key clocks principal input client) _
                (IsExtended-same crypto key client
                  (insert_row crypto key clocks principal input client) refl refl)
                (IsExtended-append crypto key clocks
                  (created_audit crypto key clocks principal input (crypto.random_uuid client.drawn)
                    request_id)
                  (insert_row crypto key clocks principal input client)))
        ]

  -- Creating a connection, whatever its outcome, keeps a sound audit log sound.
  pub create_connection-IsSound :
      (pool : Pool)
      → IsSound crypto key pool.server
      → IsSound crypto key
          (create_connection crypto key clocks principal input idempotency_key request_id
            pool).1.server
  unfolding create_connection
  create_connection-IsSound pool s =
      with_tenant_transaction-IsSound crypto key (context crypto key clocks principal)
        (keyed (create_key crypto key clocks principal idempotency_key)
          (create_hash crypto key clocks principal input) 201 clocks.transaction_now
          (create_body crypto key clocks principal input request_id))
        pool
        (keyed-IsExtended _ _ _ _ _ crypto key (begun _ pool)
          (create_body-IsExtended (begun _ pool)))
        s

  -- Within a day of a connection's creation under a key with no live record, a request of the
  -- customer under the same key changes no table, and is answered the saved view if its digest is
  -- the same and refused if it is not.
  pub create_connection-retry :
      (pool pool' : Pool) (view : Json) (subject' : String) (clocks' : Clocks)
      (input' : CreateConnectionInput) (request_id' : String)
      → find_prior
          (create_key crypto key clocks principal idempotency_key)
          clocks.transaction_now
          pool.db.idempotency_records
        ≡ none
      → create_connection crypto key clocks principal input idempotency_key request_id pool
        ≡ (ok view, pool')
      → clocks'.transaction_now < clocks.transaction_now + a_day
      → ((create_connection crypto key clocks'
            (record principal { subject = subject' })
            input'
            idempotency_key
            request_id'
            pool').0
          ≡ (if create_hash crypto key clocks principal input
                == create_hash crypto key clocks principal input'
              then ok view
              else thrown idempotency_key_reused))
        × ((create_connection crypto key clocks'
              (record principal { subject = subject' })
              input'
              idempotency_key
              request_id'
              pool').1.db
            ≡ pool'.db)
  unfolding create_connection
  create_connection-retry pool pool' view subject' clocks' input' request_id' fresh h soon =
      keyed-retry _ _ _ _ (create_body crypto key clocks principal input request_id) _ _ pool pool'
        view _ _ _ _ (create_body-records (begun _ pool)) fresh h soon
