-- ===== src/Domain/Errors.antt =====
-- domain/errors.ts: what the program throws.
use Prim.Native.String
use metricops_backend.Common.{ℕ, String, Option, none}
use metricops_backend.Json.{Json}

pub record AppError : Type 0 where
  pub status_code : ℕ
  pub code : String
  pub message : String
  pub details : Option Json

-- A thrown value: an `AppError`, a `ZodError` with its issues, an error object with a `code`
-- (PostgreSQL's SQLSTATE), or any other `Error` with its message.
pub data Thrown : Type 0 where
  app_error : AppError → Thrown
  zod_error : Json → Thrown
  coded_error : String → Thrown
  plain_error : String → Thrown

abbrev pub app : ℕ → String → String → Thrown
app status code message =
    app_error (record { status_code = status; code = code; message = message; details = none })

abbrev pub unauthorized : Thrown
unauthorized = app 401 "AUTHENTICATION_REQUIRED" "Authentication is required"

abbrev pub forbidden : Thrown
forbidden = app 403 "PERMISSION_DENIED" "You do not have permission to perform this action"

abbrev pub not_found : String → Thrown
not_found resource = app 404 "NOT_FOUND" (String.◌++◌ resource " was not found")

abbrev pub conflict : String → String → Thrown
conflict code message = app 409 code message

abbrev pub invalid : String → String → Thrown
invalid code message = app 400 code message

-- the answers to a reused idempotency key and to a unique index that a row would break
abbrev pub idempotency_key_reused : Thrown
idempotency_key_reused =
    conflict "IDEMPOTENCY_KEY_REUSED" "The idempotency key was already used for a different request"

abbrev pub unique_violation : Thrown
unique_violation = coded_error "23505"
