-- ===== src/Database/Tables.antt =====
-- The rows of the tables that the services read and write (migrations/001, 002, 004, 005, 007
-- and 008). Times are milliseconds since 1970; a nullable column is an `Option`. Identifiers of
-- type uuid are texts in PostgreSQL's canonical spelling.
use metricops_backend.Common.{ℕ, String, Bool, List, [], Option}
use metricops_backend.Json.{Json}

pub data ConnectionKind : Type 0 where
  postgresql mysql prometheus alertmanager_webhook aws_assume_role : ConnectionKind

pub data ConnectionStatus : Type 0 where
  pending healthy unhealthy disabled : ConnectionStatus

pub record ConnectionRow : Type 0 where
  pub id : String
  pub customer_id : String
  pub name : String
  pub kind : ConnectionKind
  pub configuration : Json
  pub secret_ref : Option String
  pub status : ConnectionStatus
  pub last_validated_at : Option ℕ
  pub created_by : String
  pub created_at : ℕ
  pub updated_at : ℕ

pub record IdempotencyRow : Type 0 where
  pub customer_id : String
  pub operation : String
  pub idempotency_key : String
  pub request_hash : String
  pub response_status : ℕ
  pub response_body : Json
  pub expires_at : ℕ

pub record AuditRow : Type 0 where
  pub sequence : ℕ
  pub id : String
  pub customer_id : String
  pub actor_id : String
  pub action : String
  pub resource_type : String
  pub resource_id : String
  pub request_id : String
  pub occurred_at : ℕ
  pub details : Json
  pub previous_hash : Option String
  pub chain_hash : String

pub record RevokedSessionRow : Type 0 where
  pub token_hash : String
  pub customer_id : String
  pub subject_id : String
  pub expires_at : ℕ

pub data JobKind : Type 0 where
  connection_validate aws_discover : JobKind

pub data JobStatus : Type 0 where
  queued running succeeded failed cancelled : JobStatus

pub record JobRow : Type 0 where
  pub id : String
  pub customer_id : String
  pub kind : JobKind
  pub status : JobStatus
  pub connection_id : String  -- `payload.connectionId`
  pub result : Option Json
  pub error_code : Option String
  pub idempotency_key : String
  pub attempts : ℕ
  pub max_attempts : ℕ
  pub available_at : ℕ
  pub lease_owner : Option String
  pub lease_expires_at : Option ℕ
  pub created_by : String
  pub created_at : ℕ
  pub updated_at : ℕ
  pub completed_at : Option ℕ

pub data IncidentStatus : Type 0 where
  open_incident acknowledged investigating mitigating monitoring resolved closed : IncidentStatus

pub record IncidentRow : Type 0 where
  pub id : String
  pub customer_id : String
  pub alert_instance_id : String
  pub resource_id : Option String
  pub title : String
  pub severity : String
  pub status : IncidentStatus
  pub assignee : Option String
  pub resolution : Option String
  pub detected_at : ℕ
  pub acknowledged_at : Option ℕ
  pub resolved_at : Option ℕ
  pub version : ℕ
  pub created_at : ℕ
  pub updated_at : ℕ

pub record IncidentEventRow : Type 0 where
  pub id : String
  pub customer_id : String
  pub incident_id : String
  pub actor_id : String
  pub event_type : String
  pub details : Json

-- The times of a resource are microseconds, the precision of timestamptz, on which paging
-- depends. The enumerations that the services only pass on are texts.
pub record ResourceRow : Type 0 where
  pub id : String
  pub customer_id : String
  pub provider_id : String
  pub resource_type : String
  pub name : String
  pub environment : String
  pub criticality : String
  pub data_classification : String
  pub monitoring_connection_id : Option String
  pub monitoring_selector : Option String
  pub tags : Json
  pub source : String
  pub last_discovered_at : Option ℕ
  pub last_telemetry_at : Option ℕ
  pub last_discovery_job_id : Option String
  pub is_missing : Bool
  pub version : ℕ
  pub created_by : String
  pub created_at : ℕ
  pub updated_at : ℕ

pub record CustomerRow : Type 0 where
  pub id : String
  pub name : String

pub record WebhookReceiptRow : Type 0 where
  pub customer_id : String
  pub connection_id : String
  pub nonce : String
  pub signature_timestamp : ℕ
  pub received_at : ℕ

pub data AlertStatus : Type 0 where
  firing alert_resolved : AlertStatus

pub data AlertSeverity : Type 0 where
  info warning critical : AlertSeverity

pub record AlertInstanceRow : Type 0 where
  pub id : String
  pub customer_id : String
  pub connection_id : String
  pub fingerprint : String
  pub status : AlertStatus
  pub severity : AlertSeverity
  pub title : String
  pub summary : String
  pub labels : List (String × String)
  pub resource_id : Option String
  pub starts_at : ℕ
  pub ends_at : Option ℕ
  pub last_received_at : ℕ
  pub created_at : ℕ
  pub updated_at : ℕ

pub record AlertEventRow : Type 0 where
  pub id : String
  pub customer_id : String
  pub alert_instance_id : String
  pub event_type : AlertStatus
  pub occurred_at : ℕ
  pub payload : Json

pub record Db : Type 0 where
  pub customers : List CustomerRow
  pub connections : List ConnectionRow
  pub idempotency_records : List IdempotencyRow
  pub audit_events : List AuditRow
  pub revoked_sessions : List RevokedSessionRow
  pub jobs : List JobRow
  pub resources : List ResourceRow
  pub webhook_receipts : List WebhookReceiptRow
  pub alert_instances : List AlertInstanceRow
  pub alert_events : List AlertEventRow
  pub incidents : List IncidentRow
  pub incident_events : List IncidentEventRow

abbrev pub empty_db : Db
empty_db = record {
  customers = [];
  connections = [];
  idempotency_records = [];
  audit_events = [];
  revoked_sessions = [];
  jobs = [];
  resources = [];
  webhook_receipts = [];
  alert_instances = [];
  alert_events = [];
  incidents = [];
  incident_events = [];
}
