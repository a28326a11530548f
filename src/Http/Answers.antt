-- ===== src/Http/Answers.antt =====
-- http/application.ts: what is answered, also to what was thrown.
use metricops_backend.Common.{
  ℕ, String, ◌≡◌, refl, Bool, true, ◌||◌, Option, none, some, leb, ◌==◌, nat_eq, string_eq,
  if◌then◌else◌, codes, inl, inr, Bool-cases,
}
use Prim.Native.String
use metricops_backend.Common.Patterns.{is_upper, is_digit, is_run}
use metricops_backend.Json.{Json, null, num, str, arr, obj, Items, nil, cons, Fields, end, field}
use metricops_backend.Domain.Errors.{
  AppError, Thrown, app_error, zod_error, coded_error, plain_error,
}
use metricops_backend.Metrics.Prometheus.{property}

-- the status, the Location header if one is set, the JSON body if there is one, and the code that
-- is written to the log with "request failed"
pub record Response : Type 0 where
  pub status : ℕ
  pub location : Option String
  pub body : Option Json
  pub logged : Option String

unfoldable pub data_response : ℕ → String → Json → Response
data_response status request_id value = record {
  status = status;
  location = none;
  body = some (obj (field "data" value (field "requestId" (str request_id) end)));
  logged = none;
}

-- [A-Z0-9_]
abbrev pub is_code_part : ℕ → Bool
is_code_part c = is_upper c || is_digit c || c == 95

abbrev pub safe_code : String → String
safe_code code = if is_run is_code_part 1 40 (codes code) then code else "UNEXPECTED"

-- an `AppError` has a `code` too
unfoldable pub safe_internal_error_code : Thrown → String
safe_internal_error_code (app_error e) = safe_code e.code
safe_internal_error_code (coded_error code) = safe_code code
safe_internal_error_code (zod_error issues) = "UNEXPECTED"
safe_internal_error_code (plain_error message) = "UNEXPECTED"

abbrev pub fixed : ℕ → String → String → AppError
fixed status code message = record {
  status_code = status;
  code = code;
  message = message;
  details = none;
}

abbrev pub internal_error : AppError
internal_error = fixed 500 "INTERNAL_ERROR" "An unexpected error occurred"

abbrev pub resource_conflict : AppError
resource_conflict =
    fixed 409 "RESOURCE_CONFLICT" "A resource with the same unique values already exists"

-- `spell` is the text of a number: the index of an item in a path
module _ (spell : ℕ → String) where
  abbrev path_part : Json → String
  path_part (str s) = s
  path_part (num n) = spell n
  path_part _ = ""

  -- `path.join(".")`
  unfoldable pub join_path : Items → String
  join_path nil = ""
  join_path (cons part nil) = path_part part
  join_path (cons part (cons next rest)) =
      String.◌++◌ (path_part part) (String.◌++◌ "." (join_path (cons next rest)))

  abbrev path_text : Option Json → String
  path_text (some (arr parts)) = join_path parts
  path_text _ = ""

  abbrev code_of : Option Json → Json
  code_of none = null
  code_of (some code) = code

  abbrev issue_field : Json → Json
  issue_field (obj issue) = obj (
      field "path" (str (path_text (property "path" issue)))
        (field "code" (code_of (property "code" issue)) end))
  issue_field _ = null

  unfoldable pub issue_fields : Items → Items
  issue_fields nil = nil
  issue_fields (cons issue rest) = cons (issue_field issue) (issue_fields rest)

  abbrev issues_of : Json → Items
  issues_of (arr issues) = issues
  issues_of _ = nil

  abbrev pub validation_failed : Json → AppError
  validation_failed issues = record {
    status_code = 400;
    code = "VALIDATION_FAILED";
    message = "The request is invalid";
    details = some (obj (field "fields" (arr (issue_fields (issues_of issues))) end));
  }

  -- the `AppError` that a thrown value is answered as
  unfoldable pub to_app_error : Thrown → AppError
  to_app_error (app_error e) = e
  to_app_error (zod_error issues) = validation_failed issues
  to_app_error (coded_error code) = if code == "23505" then resource_conflict else internal_error
  to_app_error (plain_error message) = internal_error

  abbrev details_field : Option Json → Fields
  details_field none = end
  details_field (some details) = field "details" details end

  -- `errorHandler`
  unfoldable pub error_response : String → Thrown → Response
  error_response request_id t =
      let e = to_app_error t in
      record {
        status = e.status_code;
        location = none;
        body = some (
            obj (
              field "error"
                (obj (
                  field "code" (str e.code)
                    (field "message" (str e.message) (details_field e.details))))
                (field "requestId" (str request_id) end)));
        logged = if leb 500 e.status_code then some (safe_internal_error_code t) else none;
      }

abbrev IsSafeCode : String → Type 0
IsSafeCode code = is_run is_code_part 1 40 (codes code) ≡ true

safe_code-safe : (code : String) → IsSafeCode (safe_code code)
unfolding is_run
safe_code-safe code = elim (Bool-cases (is_run is_code_part 1 40 (codes code))) [
  | inl good ↦ rw good good
  | inr odd ↦ rw odd refl
]

-- The code in the log has 1 to 40 capital letters, digits and underscores, whatever was thrown.
pub safe_internal_error_code-safe :
    (t : Thrown) → is_run is_code_part 1 40 (codes (safe_internal_error_code t)) ≡ true
unfolding safe_internal_error_code is_run
safe_internal_error_code-safe (app_error e) = safe_code-safe e.code
safe_internal_error_code-safe (coded_error code) = safe_code-safe code
safe_internal_error_code-safe (zod_error issues) = refl
safe_internal_error_code-safe (plain_error message) = refl
