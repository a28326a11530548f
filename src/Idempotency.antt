-- ===== src/Idempotency.antt =====
-- The table idempotency_records, as connections/connection-service.ts,
-- resources/resource-service.ts and incidents/incident-service.ts read and write it.
pub mod Saved
pub mod Keyed
use metricops_backend.Common.{
  ℕ, ◌+◌, String, Bool, true, false, ◌&&◌, List, [], ◌∷◌, ◌++◌, Option, none, some, any, find, ltb,
  ◌==◌, string_eq, if◌then◌else◌,
}
use metricops_backend.Json.{Json}
use metricops_backend.Domain.Errors.{idempotency_key_reused, unique_violation}
use metricops_backend.Effects.{Exec, Result, ok, thrown}
use metricops_backend.Database.Tables.{IdempotencyRow, Db}
use metricops_backend.Database.Transaction.{Client, Server}

-- the primary key of a row
pub record RequestKey : Type 0 where
  pub customer_id : String
  pub operation : String
  pub idempotency_key : String

unfoldable pub has_key : RequestKey → IdempotencyRow → Bool
has_key k row =
    row.customer_id == k.customer_id
    && row.operation == k.operation
    && row.idempotency_key == k.idempotency_key

abbrev pub is_live : ℕ → IdempotencyRow → Bool
is_live now row = ltb now row.expires_at

-- SELECT … WHERE customer_id, operation and idempotency_key match AND expires_at > now()
unfoldable pub find_prior : RequestKey → ℕ → List IdempotencyRow → Option IdempotencyRow
find_prior k now rows = find (λ row. has_key k row && is_live now row) rows

-- The answer to a request whose key was used: the stored one, or a conflict if the request differs.
unfoldable pub replay : String → IdempotencyRow → Result Json
replay request_hash row =
    if row.request_hash == request_hash then ok row.response_body else thrown idempotency_key_reused

abbrev pub a_day : ℕ
a_day = 86400000

abbrev pub record_of : RequestKey → String → ℕ → Json → ℕ → IdempotencyRow
record_of k request_hash response_status response_body now = record {
  customer_id = k.customer_id;
  operation = k.operation;
  idempotency_key = k.idempotency_key;
  request_hash = request_hash;
  response_status = response_status;
  response_body = response_body;
  expires_at = now + a_day;
}

abbrev pub with_records : List IdempotencyRow → Client → Client
with_records rows client = record client {
  server = record client.server { db = record client.db { idempotency_records = rows } };
}

-- INSERT INTO idempotency_records: refused where the primary key is there, expired or not
unfoldable pub save_response : RequestKey → String → ℕ → Json → ℕ → Exec Client Unit
unfolding has_key
save_response k request_hash response_status response_body now client =
    if any (has_key k) client.db.idempotency_records then (thrown unique_violation, client) else (
      ok tt,
      with_records
          (client.db.idempotency_records
            ++ record_of k request_hash response_status response_body now ∷ [])
          client,
    )
