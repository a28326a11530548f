-- ===== src/Domain/Principal.antt =====
-- domain/principal.ts and security/authorization.ts. The fourteen permissions are a data type;
-- `permission_text` is how a token spells them.
use metricops_backend.Common.{ℕ, String, Bool, true, false, List, any, ◌==◌, string_eq}
use metricops_backend.Domain.Errors.{forbidden}
use metricops_backend.Effects.{Result, ok, thrown}

pub data Permission : Type 0 where
  connection_read connection_write connection_validate job_read : Permission
  resource_read resource_write resource_discover metrics_read : Permission
  alert_read incident_read incident_write report_read audit_read platform_admin : Permission

abbrev pub permission_text : Permission → String
permission_text connection_read = "connection:read"
permission_text connection_write = "connection:write"
permission_text connection_validate = "connection:validate"
permission_text job_read = "job:read"
permission_text resource_read = "resource:read"
permission_text resource_write = "resource:write"
permission_text resource_discover = "resource:discover"
permission_text metrics_read = "metrics:read"
permission_text alert_read = "alert:read"
permission_text incident_read = "incident:read"
permission_text incident_write = "incident:write"
permission_text report_read = "report:read"
permission_text audit_read = "audit:read"
permission_text platform_admin = "platform:admin"

pub record Principal : Type 0 where
  pub subject : String
  pub customer_id : String
  pub permissions : List Permission
  pub token_id : String
  pub expires_at : ℕ

abbrev pub same_permission : Permission → Permission → Bool
same_permission a b = permission_text a == permission_text b

unfoldable pub has_permission : Principal → Permission → Bool
has_permission principal permission = any (same_permission permission) principal.permissions

unfoldable pub authorize : Principal → Permission → Result (Unit {0})
unfolding has_permission
authorize principal permission = elim (has_permission principal permission) [
  | true ↦ ok tt
  | false ↦ thrown forbidden
]
