-- ===== src/Discovery/Audited.antt =====
-- Discoveries keep the audit log sound.
use metricops_backend.Common.{ℕ, String, refl, List, length, find, Option-cases, inl, inr}
use metricops_backend.Json.{Json}
use metricops_backend.Effects.{Exec, Result, Result-cases}
use metricops_backend.Database.Transaction.{Crypto, Clocks, Client, Pool, with_tenant_transaction}
use metricops_backend.Database.Atomic.{begun}
use metricops_backend.Audit.Chain.{IsSound}
use metricops_backend.Audit.Committed.{
  IsExtended, IsExtended-refl, IsExtended-same, IsExtended-trans, IsExtended-append,
  with_tenant_transaction-IsSound,
}
use metricops_backend.Discovery.{
  DiscoveredResource, AwsConfiguration, is_account, context, read_configuration, completed_audit,
  rows_after, with_rows, take_over, discover,
}

module _ (crypto : Crypto) (key : String) (clocks : Clocks) (micros : ℕ)
    (parse_configuration : Json → Result AwsConfiguration)
    (inventory : AwsConfiguration → String → Result (List DiscoveredResource))
    (customer_id connection_id job_id actor_id : String) where
  abbrev reading : Exec Client AwsConfiguration
  reading =
      read_configuration crypto key clocks micros parse_configuration inventory customer_id
        connection_id

  read_configuration-same : (client : Client) → IsExtended crypto key client (reading client).1
  unfolding read_configuration
  read_configuration-same client =
      elim (Option-cases (find (is_account customer_id connection_id) client.db.connections)) [
        | inl absent ↦ rw absent (IsExtended-refl crypto key client)
        | inr (row, here) ↦ rw here (IsExtended-refl crypto key client)
      ]

  take_over-IsExtended :
      (configuration : AwsConfiguration) (resources : List DiscoveredResource) (client : Client)
      → IsExtended crypto key client
          (take_over crypto key clocks micros parse_configuration inventory configuration resources
            customer_id connection_id job_id actor_id client).1
  unfolding take_over
  take_over-IsExtended configuration resources client =
      let (rows, missing) =
        rows_after crypto key clocks micros parse_configuration inventory resources customer_id
          connection_id job_id actor_id client in
      let updated =
        with_rows crypto key clocks micros parse_configuration inventory rows (length resources)
          client in
      IsExtended-trans crypto key client updated _
        (IsExtended-same crypto key client updated refl refl)
        (IsExtended-append crypto key clocks
          (completed_audit crypto key clocks micros parse_configuration inventory configuration
            (length resources) missing customer_id connection_id job_id actor_id)
          updated)

  abbrev read : Exec Pool AwsConfiguration
  read =
      with_tenant_transaction
        (context crypto key clocks micros parse_configuration inventory customer_id actor_id)
        reading

  read-IsSound :
      (pool : Pool) → IsSound crypto key pool.server → IsSound crypto key (read pool).1.server
  read-IsSound pool s =
      with_tenant_transaction-IsSound crypto key _ reading pool
        (read_configuration-same (begun _ pool)) s

  -- Where what other requests do meanwhile keeps the audit log sound, a discovery,
  -- whatever its outcome, keeps it sound too.
  pub discover-IsSound :
      (meanwhile : Pool → Pool) (pool : Pool)
      → ((p : Pool) → IsSound crypto key p.server → IsSound crypto key (meanwhile p).server)
      → IsSound crypto key pool.server
      → IsSound crypto key
          (discover crypto key clocks micros parse_configuration inventory meanwhile customer_id
            connection_id job_id actor_id pool).1.server
  unfolding discover
  discover-IsSound meanwhile pool others s = elim (Result-cases (read pool).0) [
    | inr (t, h) ↦ rw h (read-IsSound pool s)
    | inl (configuration, h) ↦ elim (Result-cases (inventory configuration customer_id)) [
      | inr (t, k) ↦ rw (h, k) (read-IsSound pool s)
      | inl (resources, k) ↦
          rw (h, k)
            (with_tenant_transaction-IsSound crypto key _
              (take_over crypto key clocks micros parse_configuration inventory configuration
                resources customer_id connection_id job_id actor_id)
              (meanwhile (read pool).1)
              (take_over-IsExtended configuration resources (begun _ (meanwhile (read pool).1)))
              (others (read pool).1 (read-IsSound pool s)))
    ]
  ]
