-- ===== src/Database/Sample.antt =====
-- Concrete values for tests: digests by a checksum, clocks, an empty server.
use Prim.Native.String
use metricops_backend.Common.{ℕ, ◌+◌, ◌*◌, ◌%◌, List, [], ◌∷◌}
use metricops_backend.Common.Dates.{to_iso_string}
use metricops_backend.Domain.Principal.{Principal, incident_write}
use metricops_backend.Database.Tables.{Db}
use metricops_backend.Database.Transaction.{Crypto, Clocks, Server, Pool}

checksum : ℕ → List ℕ → ℕ
checksum n [] = n
checksum n (c ∷ cs) = checksum ((n * 31 + c) % 1000000007) cs

-- The digests are checksums, written out as times; the identifiers are numbered the same way.
unfoldable pub toy_crypto : Crypto
unfolding checksum to_iso_string
toy_crypto = record {
  hmac = λ key text. String.◌++◌ key (to_iso_string (checksum 7 text));
  sha256 = λ text. to_iso_string (checksum 11 text);
  random_uuid = to_iso_string;
}

abbrev pub noon : Clocks
noon = record { transaction_now = 1700000000000; date_now = 1700000000123 }

abbrev pub one_o_clock : Clocks
one_o_clock = record { transaction_now = 1700003600000; date_now = 1700003600456 }

abbrev pub ann : Principal
ann = record {
  subject = "ann";
  customer_id = "acme";
  permissions = incident_write ∷ [];
  token_id = "t1";
  expires_at = 1700009999000;
}

abbrev pub server_with : Db → Server
server_with db = record { db = db; audit_sequence = 0; drawn = 0 }

abbrev pub pool_with : Db → Pool
pool_with db = record { server = server_with db; leased = 0 }
