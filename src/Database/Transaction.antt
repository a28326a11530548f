-- ===== src/Database/Transaction.antt =====
-- database/transaction.ts. Transactions run one after another; a query that fails throws from
-- the work that makes it. A sequence's values and the identifiers that were drawn are not given
-- back when a transaction rolls back.
use metricops_backend.Common.{ℕ, ◌+◌, ◌-◌, String, Option, none, some, List}
use metricops_backend.Effects.{Exec, Result, ok, thrown}
use metricops_backend.Database.Tables.{Db}

-- node:crypto: `createHmac("sha256", key).update(text).digest("hex")`, `createHash("sha256")`
-- over a text, in hexadecimal, and the n-th `randomUUID()`.
pub record Crypto : Type 0 where
  pub hmac : String → List ℕ → String
  pub sha256 : List ℕ → String
  pub random_uuid : ℕ → String

-- `now()` of the transaction, and `Date.now()` of the program
pub record Clocks : Type 0 where
  pub transaction_now : ℕ
  pub date_now : ℕ

pub record Server : Type 0 where
  pub db : Db
  pub audit_sequence : ℕ  -- the last value of audit_events.sequence
  pub drawn : ℕ  -- how many identifiers were drawn

pub record TenantContext : Type 0 where
  pub customer_id : String
  pub actor_id : String

-- A client inside a transaction, with its local settings `app.current_customer_id` and
-- `app.current_actor_id`.
pub record Client : Type 0 where
  pub server : Server
  pub open server use *
  pub settings : Option TenantContext

pub record Pool : Type 0 where
  pub server : Server
  pub open server use *
  pub leased : ℕ  -- clients that are connected and not released

abbrev pub connect : Pool → Client × ℕ
connect pool = (record { server = pool.server; settings = none }, pool.leased + 1)

-- `set_config(…, true)` sets for the transaction alone
abbrev pub set_config : TenantContext → Client → Client
set_config context client = record client { settings = some context }

abbrev commit : Client → Client
commit client = record client { settings = none }

-- back to the tables that BEGIN saw
abbrev rollback : Db → Client → Client
rollback before client = record { server = record client.server { db = before }; settings = none }

abbrev release : Client → ℕ → Pool
release client leased = record { server = client.server; leased = leased - 1 }

module _ {A : Type 0} where
  abbrev pub finish : Db → ℕ → Result A × Client → Result A × Pool
  finish before leased (ok result, client) = (ok result, release (commit client) leased)
  finish before leased (thrown e, client) = (thrown e, release (rollback before client) leased)

  unfoldable pub with_tenant_transaction : TenantContext → Exec Client A → Exec Pool A
  with_tenant_transaction context work pool =
      let (client, leased) = connect pool in
      finish pool.db leased (work (set_config context client))
