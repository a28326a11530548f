-- ===== src/Lib.antt =====
-- A model of the metricops backend: an HTTP service over PostgreSQL that keeps, for each customer,
-- monitored connections, resources, jobs and incidents, and a chained log of audit events.
--
-- The parts and their files (paths are the repository's):
--   Common      lists, texts, dates and sorting that the other modules share
--   Json        JSON values, JSON.stringify, and canonicalJson of src/audit/audit-service.ts
--   Effects     code that may throw and changes a state
--   Domain      src/domain/errors.ts, src/domain/principal.ts, src/security/authorization.ts
--   Database    the tables of migrations/, withTenantTransaction of src/database/transaction.ts
--   Audit       src/audit/audit-service.ts: AuditService.append is `append`, verifyAuditEvents is
--               `verify_audit_events`
--   Idempotency the table idempotency_records as the services use it; `keyed` is what the two
--               `create` methods do around their insertions
--   Incidents   src/incidents/incident-service.ts: `transition`, and the two calls of it
--   Jobs        src/jobs/job-service.ts, and in Jobs/Queue the functions claim_metricops_jobs and
--               finish_metricops_job of migrations/002_durable_jobs.sql
--   Connections src/connections/connection-service.ts, connector-registry.ts and types.ts
--   Resources   src/resources/resource-service.ts: creating and paging
--   Discovery   src/aws/aws-discovery-service.ts, over a parameter for the account's inventory, and
--               in Discovery/Inventory src/aws/aws-inventory-provider.ts, over the AWS clients' pages
--   Alerts      src/alerts/webhook-signature.ts and alertmanager-service.ts: `ingest`
--   Security    src/security/authentication.ts, where jwtVerify is a parameter,
--               src/security/session-service.ts, and in Security/Egress
--               src/security/egress-policy.ts, where isIP and lookup are parameters
--   Metrics     src/metrics/metrics-service.ts (`query`, `execute`, and the limit per customer), and in
--               Metrics/Prometheus normalizePrometheusMatrix of src/connections/prometheus-connector.ts
--   Customers   src/customers/customer-service.ts
--   Reports     src/reports/operations-report-service.ts
--   Audit/Query and Incidents/Lists  src/audit/audit-query-service.ts, and the two lists of
--               src/incidents/incident-service.ts
--   Operations  src/operations/verify-audit.ts: the loop over the pages of the log is
--               `verify_pages`, its body `verify_page`
--   Worker      processJob of src/worker.ts, and src/operations/maintenance.ts
--   Http        src/http/application.ts: the routes are a data type, `prepare` is what runs before a
--               handler, `handle` the handlers, `error_response` the error handler, and `respond` the
--               chain of them; the services are an interface, the record `Services`
--   System      the services that main.ts puts behind that interface, and the steps of a
--               running system, whose requests, deliveries and jobs interleave
--
-- A service's method is a function on the pool: it opens a transaction, whose work is a function
-- on a client that answers or throws and gives the changed tables back either way; the
-- transaction keeps the tables of work that answered and drops those of work that threw. Methods
-- write to the audit log inside their transaction, so a change and its audit event stand or fall
-- together. Jobs are queued by requests and run by workers, which validate connections.
--
-- What the model takes as given:
--   * Transactions run one after another. The advisory lock of `append`, SKIP LOCKED and row locks
--     have no effect then. BEGIN, COMMIT and ROLLBACK do not fail, and a sequence's values and
--     drawn identifiers are not given back by a rollback.
--   * Every query names its customer; row-level security, which asks for the same, is left out.
--   * Digests, random identifiers and clocks are parameters. Times are milliseconds since 1970,
--     but those of resources microseconds, as the column keeps them. Identifiers are texts in
--     PostgreSQL's canonical spelling, but for the customer and the request that `append` is
--     given: it digests the caller's spelling and stores PostgreSQL's. Numbers in JSON are natural,
--     so a sample that is not finite and a fraction of a second do not occur. A text is a sequence
--     of characters, so `slice` leaves out a surrogate pair that it would cut, and `toLowerCase` is
--     that of the letters A to Z.
--   * Third-party code (express, zod, jose, the AWS clients, the monitored systems) is not in the
--     repository: a connector is a function of the row that it is given.
--   * A request is answered before the next one starts, but for the deliveries and jobs that wait
--     for another system: between their transactions other steps come in.
-- The functions recur on lists and texts, and an AWS listing is the list of its pages, which ends;
-- only the loop over the pages of the log takes a number of rounds, and it is proved that one round
-- more than there are events is enough.
--
-- Not modelled: the shapes that zod checks, the assumed AWS role, the cursor's signed text,
-- configuration and the worker's loop; the rate limit, the health routes and the route of the
-- telemetry; and connectors, telemetry, backup, migration and start-up, which are I/O.
pub mod Alerts
pub mod Audit
pub mod Common
pub mod Connections
pub mod Customers
pub mod Database
pub mod Discovery
pub mod Domain
pub mod Effects
pub mod Http
pub mod Idempotency
pub mod Incidents
pub mod Jobs
pub mod Json
pub mod Metrics
pub mod Operations
pub mod Reports
pub mod Resources
pub mod Security
pub mod System
pub mod Worker
