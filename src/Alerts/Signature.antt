-- ===== src/Alerts/Signature.antt =====
-- alerts/webhook-signature.ts: the three headers of a delivery, and the test of its signature.
-- `integer_of` is the non-negative integer that `Number` makes of a text, if it makes one; a
-- negative one is outside of the window of time whatever it is.
use metricops_backend.Common.{
  ℕ, ◌+◌, ◌*◌, String, Bool, ◌&&◌, ◌||◌, List, ◌∷◌, ◌++◌, Option, none, some, ltb, ◌==◌, nat_eq,
  string_eq, if◌then◌else◌, codes,
}
use metricops_backend.Common.Patterns.{is_uuid, is_hex, is_run, lower_all, same_codes}
use metricops_backend.Json.Printer.{decimal}
use metricops_backend.Domain.Errors.{unauthorized}
use metricops_backend.Effects.{Result, ok, thrown}
use metricops_backend.Database.Transaction.{Crypto}

-- the signature is the code points of its hexadecimal digits
pub record WebhookEnvelope : Type 0 where
  pub timestamp : ℕ
  pub nonce : String
  pub signature : List ℕ

-- the headers x-metricops-timestamp, x-metricops-nonce and x-metricops-signature
pub record WebhookHeaders : Type 0 where
  pub timestamp : Option String
  pub nonce : Option String
  pub signature : Option String

-- `Math.abs(now / 1000 - timestamp) > 300`, in milliseconds
unfoldable pub is_outside : ℕ → ℕ → Bool
is_outside now timestamp =
    ltb (timestamp * 1000 + 300000) now || ltb (now + 300000) (timestamp * 1000)

-- `!timestampText || !Number.isInteger(timestamp) || …`
unfoldable pub parse_timestamp : (String → Option ℕ) → ℕ → Option String → Option ℕ
parse_timestamp integer_of now none = none
parse_timestamp integer_of now (some text) =
    if text == ""
    then none
    else elim (integer_of text) [ none ↦ none | some n ↦ if is_outside now n then none else some n ]

unfoldable pub parse_nonce : Option String → Option String
parse_nonce none = none
parse_nonce (some text) = if is_uuid text then some text else none

-- `/^v1=[0-9a-f]{64}$/i`, `slice(3)` and `toLowerCase()`, on code points
unfoldable pub parse_signature_codes : List ℕ → Option (List ℕ)
parse_signature_codes (v ∷ one ∷ equals ∷ digits) =
    if (v == 118 || v == 86) && one == 49 && equals == 61 && is_run is_hex 64 64 digits
    then some (lower_all digits)
    else none
parse_signature_codes _ = none

abbrev parse_signature : Option String → Option (List ℕ)
parse_signature none = none
parse_signature (some text) = parse_signature_codes (codes text)

unfoldable pub envelope_of : Option ℕ → Option String → Option (List ℕ) → Result WebhookEnvelope
envelope_of (some timestamp) (some nonce) (some signature) =
    ok (record { timestamp = timestamp; nonce = nonce; signature = signature })
envelope_of _ _ _ = thrown unauthorized

unfoldable pub parse_webhook_envelope :
    (String → Option ℕ) → ℕ → WebhookHeaders → Result WebhookEnvelope
parse_webhook_envelope integer_of now headers =
    envelope_of (parse_timestamp integer_of now headers.timestamp) (parse_nonce headers.nonce)
      (parse_signature headers.signature)

-- the bytes that are signed: `${timestamp}.${nonce}.` and the body
abbrev pub signed_bytes : WebhookEnvelope → List ℕ → List ℕ
signed_bytes envelope body = decimal envelope.timestamp ++ 46 ∷ (codes envelope.nonce ++ 46 ∷ body)

-- Both digests are compared byte for byte, here by their hexadecimal digits.
unfoldable pub verify_webhook_signature :
    Crypto → WebhookEnvelope → List ℕ → String → Result (Unit {0})
verify_webhook_signature crypto envelope body key =
    if same_codes envelope.signature (codes (crypto.hmac key (signed_bytes envelope body)))
    then ok tt
    else thrown unauthorized
