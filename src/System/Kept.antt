-- ===== src/System/Kept.antt =====
-- Every service behind the routes keeps the audit log sound.
use metricops_backend.Common.{ℕ, String, Option, find, inl, inr, Option-cases}
use metricops_backend.Domain.Principal.{Principal}
use metricops_backend.Effects.{Result, ok, thrown}
use metricops_backend.Database.Transaction.{
  Clocks, Client, Pool, TenantContext, with_tenant_transaction,
}
use metricops_backend.Database.Atomic.{begun}
use metricops_backend.Database.Tables.{connection_validate, aws_discover}
use metricops_backend.Audit.Chain.{IsSound}
use metricops_backend.Audit.Committed.{IsExtended-refl, with_tenant_transaction-IsSound}
use metricops_backend.Audit.Query.{list_audit_events}
use metricops_backend.Security.Sessions.{revoke_current-IsSound}
use metricops_backend.Connections.{list_connections}
use metricops_backend.Connections.Creation.{create_connection-IsSound}
use metricops_backend.Jobs.{
  get_job, enqueue_connection_validation, enqueue_aws_discovery, owned_job,
}
use metricops_backend.Jobs.Retry.{enqueue-IsSound}
use metricops_backend.Resources.{list_resources, Cursor}
use metricops_backend.Resources.Creation.{create_resource-IsSound}
use metricops_backend.Metrics.Execute.{query-IsSound}
use metricops_backend.Incidents.{acknowledge, resolve, acknowledge_incident, resolve_incident}
use metricops_backend.Incidents.Audited.{transition-IsSound}
use metricops_backend.Incidents.Lists.{list_alerts, list_incidents}
use metricops_backend.Reports.{generate-IsSound}
use metricops_backend.Customers.{create_customer-IsSound}
use metricops_backend.Http.Preserved.{Preserves}
use metricops_backend.System.{App, ServerRuntime, metricops, cursor_in, page_at}

abbrev pub Sound : ServerRuntime → App → Type 0
Sound runtime app = IsSound runtime.crypto runtime.hmac_key app.pool.server

module _ (runtime : ServerRuntime) (clocks : Clocks) (micros : ℕ) where
  -- a transaction that only reads
  read-Sound :
      {A : Type 0} (context : TenantContext) (f : Client → Result A) (pool : Pool)
      → IsSound runtime.crypto runtime.hmac_key pool.server
      → IsSound runtime.crypto runtime.hmac_key
          (with_tenant_transaction context (λ c. (f c, c)) pool).1.server
  read-Sound context f pool s =
      with_tenant_transaction-IsSound runtime.crypto runtime.hmac_key context (λ c. (f c, c)) pool
        (IsExtended-refl runtime.crypto runtime.hmac_key (begun context pool)) s

  get_job-Sound :
      (principal : Principal) (job_id : String) (pool : Pool)
      → IsSound runtime.crypto runtime.hmac_key pool.server
      → IsSound runtime.crypto runtime.hmac_key
          (get_job runtime.crypto runtime.hmac_key clocks principal job_id pool).1.server
  unfolding get_job
  get_job-Sound principal job_id pool s =
      with_tenant_transaction-IsSound runtime.crypto runtime.hmac_key _ _ pool
        (elim (Option-cases (find (owned_job principal.customer_id job_id) pool.db.jobs)) [
          | inl absent ↦ rw absent (IsExtended-refl runtime.crypto runtime.hmac_key (begun _ pool))
          | inr (job, found) ↦
              rw found (IsExtended-refl runtime.crypto runtime.hmac_key (begun _ pool))
        ])
        s

  list_resources-Sound :
      (principal : Principal) (limit : ℕ) (cursor : Result (Option Cursor)) (app : App)
      → Sound runtime app
      → Sound runtime (page_at runtime clocks micros principal limit cursor app).1
  unfolding list_resources
  list_resources-Sound principal limit (thrown t) app s = s
  list_resources-Sound principal limit (ok cursor) app s = read-Sound _ _ app.pool s

  pub metricops-Sound : Preserves (Sound runtime) (metricops runtime clocks micros)
  unfolding metricops list_connections list_alerts list_incidents list_audit_events
      enqueue_connection_validation enqueue_aws_discovery acknowledge_incident resolve_incident
  metricops-Sound = record {
    random_uuid = λ app s. record { rising = s.rising; standing = s.standing };
    list_connections = λ p limit app s. read-Sound _ _ app.pool s;
    create_connection = λ p input key id app s.
        create_connection-IsSound runtime.crypto runtime.hmac_key clocks p input key id app.pool s;
    enqueue_validation = λ p c key id app s.
        enqueue-IsSound runtime.crypto runtime.hmac_key connection_validate c key p clocks id
          app.pool s;
    enqueue_discovery = λ p c key id app s.
        enqueue-IsSound runtime.crypto runtime.hmac_key aws_discover c key p clocks id app.pool s;
    get_job = λ p j app s. get_job-Sound p j app.pool s;
    create_resource = λ p input key id app s.
        create_resource-IsSound runtime.crypto runtime.hmac_key clocks micros p input key id
          app.pool s;
    list_resources =
        λ p limit cursor app s. list_resources-Sound p limit (cursor_in runtime cursor) app s;
    query_metrics = λ p input id app s.
        query-IsSound runtime.crypto runtime.hmac_key clocks runtime.read_date runtime.query_range p
          input id (app.active, app.pool) s;
    list_alerts = λ p limit app s. read-Sound _ _ app.pool s;
    list_incidents = λ p limit app s. read-Sound _ _ app.pool s;
    acknowledge = λ p i version assignee key id app s.
        transition-IsSound runtime.crypto runtime.hmac_key clocks p acknowledge _ i key id app.pool
          s;
    resolve = λ p i version resolution key id app s.
        transition-IsSound runtime.crypto runtime.hmac_key clocks p resolve _ i key id app.pool s;
    report = λ p start end_time id app s.
        generate-IsSound runtime.crypto runtime.hmac_key clocks runtime.mean_time p start end_time
          id app.pool s;
    list_audit = λ p limit app s. read-Sound _ _ app.pool s;
    create_customer = λ p name id app s.
        create_customer-IsSound runtime.crypto runtime.hmac_key clocks p name id app.pool s;
    revoke_current = λ p id app s.
        revoke_current-IsSound runtime.crypto runtime.hmac_key runtime.first_16 clocks p id app.pool
          s;
  }
