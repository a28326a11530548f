-- ===== src/Alerts/Invariants.antt =====
-- Deliveries keep the audit log sound, and at most one incident of an alert active.
use metricops_backend.Common.{ℕ, String, inl, inr, List}
use metricops_backend.Json.{Json}
use metricops_backend.Effects.{Result, ok, thrown}
use metricops_backend.Database.Tables.{Db}
use metricops_backend.Database.Transaction.{Crypto, Clocks, Client, Pool}
use metricops_backend.Database.Atomic.{begun, with_tenant_transaction-settled, settled}
use metricops_backend.Audit.Chain.{IsSound}
use metricops_backend.Audit.Committed.{IsExtended-refl, with_tenant_transaction-IsSound}
use metricops_backend.Alerts.Signature.{WebhookHeaders}
use metricops_backend.Alerts.Ingest.{WebhookRuntime, ingest_work, read_secret_ref, context, ingest}
use metricops_backend.Alerts.OneActive.{OneActive}
use metricops_backend.Alerts.Processed.{ingest_work-OneActive}
use metricops_backend.Alerts.Delivery.{
  Delivery, turned_away, worked_on, run-Delivery, after_read, after_read-db,
}
use metricops_backend.Alerts.Kept.{ingest_work-IsExtended}

module _ (crypto : Crypto) (hmac_key : String) (runtime : WebhookRuntime) (clocks : Clocks)
    (customer_id connection_id : String) (meanwhile : Pool → Pool) (headers : WebhookHeaders)
    (body : List ℕ) (request_id : String) where
  abbrev before : Pool → Pool
  before pool =
      after_read crypto hmac_key runtime clocks customer_id connection_id meanwhile headers body
        request_id pool

  before-IsSound :
      (pool : Pool)
      → IsSound crypto hmac_key pool.server
      → IsSound crypto hmac_key (before pool).server
  unfolding read_secret_ref
  before-IsSound pool s =
      with_tenant_transaction-IsSound crypto hmac_key _
        (read_secret_ref crypto clocks runtime.is_zod_uuid customer_id connection_id) pool
        (IsExtended-refl crypto hmac_key (begun _ pool)) s

  Delivery-IsSound :
      (pool : Pool) (out : Result Json × Pool)
      → ((p : Pool)
          → IsSound crypto hmac_key p.server
          → IsSound crypto hmac_key (meanwhile p).server)
      → IsSound crypto hmac_key pool.server
      → Delivery crypto hmac_key runtime clocks customer_id connection_id meanwhile headers body
          request_id pool out
      → IsSound crypto hmac_key out.1.server
  Delivery-IsSound pool out others s (turned_away t p same (inl from) h) = rw (h, from) s
  Delivery-IsSound pool out others s (turned_away t p same (inr from) h) =
      rw (h, from) (before-IsSound pool s)
  Delivery-IsSound pool out others s (worked_on envelope alerts authentic h) = rw h (
      with_tenant_transaction-IsSound crypto hmac_key _
        (ingest_work crypto clocks runtime.is_zod_uuid customer_id connection_id hmac_key envelope
          alerts request_id)
        (meanwhile (before pool))
        (ingest_work-IsExtended crypto clocks runtime.is_zod_uuid customer_id connection_id hmac_key
          envelope alerts request_id (begun _ (meanwhile (before pool))))
        (others (before pool) (before-IsSound pool s)))

  -- Where what other requests do meanwhile keeps the audit log sound, a delivery,
  -- whatever its outcome, keeps it sound too.
  pub ingest-IsSound :
      (pool : Pool)
      → ((p : Pool)
          → IsSound crypto hmac_key p.server
          → IsSound crypto hmac_key (meanwhile p).server)
      → IsSound crypto hmac_key pool.server
      → IsSound crypto hmac_key
          (ingest crypto hmac_key runtime clocks customer_id connection_id meanwhile headers body
            request_id pool).1.server
  ingest-IsSound pool others s = Delivery-IsSound pool _ others s (
      run-Delivery crypto hmac_key runtime clocks customer_id connection_id meanwhile headers body
        request_id pool)

  settled-OneActive :
      (db : Db) (out : Result Json × Client)
      → OneActive db.incidents
      → OneActive out.1.db.incidents
      → OneActive (settled db out).incidents
  settled-OneActive db (ok a, client) one one' = one'
  settled-OneActive db (thrown e, client) one one' = one

  Delivery-OneActive :
      (pool : Pool) (out : Result Json × Pool)
      → ((p : Pool) → OneActive p.db.incidents → OneActive (meanwhile p).db.incidents)
      → OneActive pool.db.incidents
      → Delivery crypto hmac_key runtime clocks customer_id connection_id meanwhile headers body
          request_id pool out
      → OneActive out.1.db.incidents
  Delivery-OneActive pool out others one (turned_away t p same from h) c a = rw (h, same) (one c a)
  Delivery-OneActive pool out others one (worked_on envelope alerts authentic h) c a =
      let middle = meanwhile (before pool) in
      let one_before : OneActive (before pool).db.incidents = λ c' a'.
        rw
          (after_read-db crypto hmac_key runtime clocks customer_id connection_id meanwhile headers
            body request_id pool)
          (one c' a') in
      let one_middle = others (before pool) one_before in
      let (answer, tables, clients) =
        with_tenant_transaction-settled
          (context crypto clocks runtime.is_zod_uuid customer_id connection_id)
          (ingest_work crypto clocks runtime.is_zod_uuid customer_id connection_id hmac_key envelope
            alerts request_id)
          middle in
      let client =
        begun (context crypto clocks runtime.is_zod_uuid customer_id connection_id) middle in
      rw (h, tables)
        (settled-OneActive middle.db
          (ingest_work crypto clocks runtime.is_zod_uuid customer_id connection_id hmac_key envelope
            alerts request_id client)
          one_middle
          (ingest_work-OneActive crypto clocks runtime.is_zod_uuid customer_id connection_id
            hmac_key envelope alerts request_id client one_middle)
          c a)

  -- Where no alert has two active incidents, and what other requests do meanwhile keeps that, no
  -- alert has two after a delivery, whatever its outcome.
  pub ingest-OneActive :
      (pool : Pool)
      → ((p : Pool) → OneActive p.db.incidents → OneActive (meanwhile p).db.incidents)
      → OneActive pool.db.incidents
      → OneActive
          (ingest crypto hmac_key runtime clocks customer_id connection_id meanwhile headers body
            request_id pool).1.db.incidents
  ingest-OneActive pool others one = Delivery-OneActive pool _ others one (
      run-Delivery crypto hmac_key runtime clocks customer_id connection_id meanwhile headers body
        request_id pool)
