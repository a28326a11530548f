-- ===== src/Security/Authentication.antt =====
-- security/authentication.ts: from the claims of a verified token to a principal.
pub mod Granted
pub mod Bearer
use metricops_backend.Common.{
  ℕ, ◌*◌, String, Bool, true, false, not, ◌&&◌, ◌||◌, List, [], ◌∷◌, ◌++◌, Option, none, some, any,
  find, length, leb, ltb, ◌==◌, nat_eq, string_eq, if◌then◌else◌, codes, utf16,
}
use metricops_backend.Common.Patterns.{is_uuid}
use metricops_backend.Json.{Json, null, bool, num, str, arr, obj, Items, nil, cons}
use metricops_backend.Domain.Errors.{unauthorized}
use metricops_backend.Domain.Principal.{
  Permission, permission_text, same_permission, Principal, connection_read, connection_write,
  connection_validate, job_read, resource_read, resource_write, resource_discover, metrics_read,
  alert_read, incident_read, incident_write, report_read, audit_read, platform_admin,
}
use metricops_backend.Effects.{Result, ok, thrown}

-- `knownPermissions`
abbrev pub known_permissions : List Permission
known_permissions =
    connection_read ∷ connection_write ∷ connection_validate ∷ job_read ∷ resource_read
    ∷ resource_write ∷ resource_discover ∷ metrics_read ∷ alert_read ∷ incident_read
    ∷ incident_write ∷ report_read ∷ audit_read ∷ platform_admin ∷ []

abbrev pub spells : String → Permission → Bool
spells text permission = permission_text permission == text

unfoldable pub permission_of : String → Option Permission
permission_of text = find (spells text) known_permissions

-- the claims that are read; one that is missing is `none`
pub record JwtPayload : Type 0 where
  pub sub : Option Json
  pub jti : Option Json
  pub exp : Option Json
  pub customer_id : Option Json
  pub permissions : Option Json

-- `Set.prototype.add`
unfoldable pub add : Permission → List Permission → List Permission
add permission set = if any (same_permission permission) set then set else set ++ permission ∷ []

abbrev pub add_known : Option Permission → List Permission → List Permission
add_known none set = set
add_known (some permission) set = add permission set

-- one round of the loop over `rawPermissions`
abbrev pub add_value : Json → List Permission → List Permission
add_value (str text) set = add_known (permission_of text) set
add_value _ set = set

unfoldable pub collect : Items → List Permission → List Permission
collect nil set = set
collect (cons value rest) set = collect rest (add_value value set)

abbrev pub size : Items → ℕ
size nil = 0
size (cons value rest) = Prim.Native.Nat.suc (size rest)

-- `typeof value === "string"` and at most so many code units
abbrev pub short_text : ℕ → Option Json → Option String
short_text bound (some (str s)) = if ltb bound (length (utf16 s)) then none else some s
short_text bound _ = none

abbrev pub number : Option Json → Option ℕ
number (some (num n)) = some n
number _ = none

abbrev pub uuid_text : Option Json → Option String
uuid_text (some (str s)) = if is_uuid s then some s else none
uuid_text _ = none

abbrev pub short_list : Option Json → Option Items
short_list (some (arr items)) = if ltb 100 (size items) then none else some items
short_list _ = none

-- the platform's administrator has no other permission
unfoldable pub is_exclusive : List Permission → Bool
is_exclusive set = not (any (same_permission platform_admin) set && ltb 1 (length set))

unfoldable pub principal_of :
    Option String → Option String → Option ℕ → Option String → Option Items → Result Principal
principal_of (some sub) (some jti) (some exp) (some customer_id) (some items) =
    let set = collect items [] in
    if is_exclusive set
    then ok (record {
      subject = sub;
      customer_id = customer_id;
      permissions = set;
      token_id = jti;
      expires_at = exp * 1000;
    })
    else thrown unauthorized
principal_of _ _ _ _ _ = thrown unauthorized

unfoldable pub claims_to_principal : JwtPayload → Result Principal
claims_to_principal payload =
    principal_of (short_text 200 payload.sub) (short_text 512 payload.jti) (number payload.exp)
      (uuid_text payload.customer_id) (short_list payload.permissions)
