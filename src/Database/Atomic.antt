-- ===== src/Database/Atomic.antt =====
-- What `with_tenant_transaction` guarantees of any work that it runs.
use metricops_backend.Common.{◌≡◌, refl, sym, ap, ◌∙◌, some, arith}
use metricops_backend.Domain.Errors.{Thrown}
use metricops_backend.Effects.{Exec, Result, ok, thrown}
use metricops_backend.Database.Tables.{Db}
use metricops_backend.Database.Transaction.{Client, Pool, TenantContext, with_tenant_transaction}

-- the state in which a transaction's work starts
abbrev pub begun : TenantContext → Pool → Client
begun context pool = record { server = pool.server; settings = some context }

-- What stands in the tables afterwards: the work's tables if it returned, else the former ones.
abbrev pub settled : {A : Type 0} → Db → Result A × Client → Db
settled before (ok a, client) = client.db
settled before (thrown e, client) = before

module _ {A : Type 0} where
  finish_cases :
      (context : TenantContext) (work : Exec Client A) (pool : Pool) (r : Result A) (c : Client)
      → work (begun context pool) ≡ (r, c)
      → ((with_tenant_transaction context work pool).0 ≡ r)
        × ((with_tenant_transaction context work pool).1.db ≡ settled pool.db (r, c))
        × ((with_tenant_transaction context work pool).1.leased ≡ pool.leased)
  unfolding with_tenant_transaction
  finish_cases context work pool (ok a) c h = rw h (refl, refl, omega arith)
  finish_cases context work pool (thrown e) c h = rw h (refl, refl, omega arith)

  -- Whatever the work does, the transaction answers what it answered, leaves its tables if it
  -- returned and the former tables if it threw, and gives its client back to the pool.
  pub with_tenant_transaction-settled :
      (context : TenantContext) (work : Exec Client A) (pool : Pool)
      → ((with_tenant_transaction context work pool).0 ≡ (work (begun context pool)).0)
        × ((with_tenant_transaction context work pool).1.db
            ≡ settled pool.db (work (begun context pool)))
        × ((with_tenant_transaction context work pool).1.leased ≡ pool.leased)
  with_tenant_transaction-settled context work pool =
      finish_cases context work pool (work (begun context pool)).0 (work (begun context pool)).1
        refl

  -- inversion of a transaction that returned: the work returned, and its tables stand
  pub transaction_ok :
      (context : TenantContext) (work : Exec Client A) (pool pool' : Pool) (a : A)
      → with_tenant_transaction context work pool ≡ (ok a, pool')
      → (work (begun context pool) ≡ (ok a, (work (begun context pool)).1))
        × (pool'.db ≡ (work (begun context pool)).1.db)
  transaction_ok context work pool pool' a h =
      let (result, tables, clients) = with_tenant_transaction-settled context work pool in
      let returned : (work (begun context pool)).0 ≡ ok a = sym result ∙ ap (λ p. p.0) h in
      (
        λ i. (returned i, (work (begun context pool)).1),
        sym (ap (λ p. p.1.db) h)
            ∙ tables
            ∙ ap (λ r. settled pool.db (r, (work (begun context pool)).1)) returned,
      )

  -- inversion of a transaction that threw: the work threw, and the tables are the former ones
  pub transaction_thrown :
      (context : TenantContext) (work : Exec Client A) (pool pool' : Pool) (e : Thrown)
      → with_tenant_transaction context work pool ≡ (thrown e, pool')
      → ((work (begun context pool)).0 ≡ thrown e) × (pool'.db ≡ pool.db)
  transaction_thrown context work pool pool' e h =
      let (result, tables, clients) = with_tenant_transaction-settled context work pool in
      let failed : (work (begun context pool)).0 ≡ thrown e = sym result ∙ ap (λ p. p.0) h in
      (
        failed,
        sym (ap (λ p. p.1.db) h)
            ∙ tables
            ∙ ap (λ r. settled pool.db (r, (work (begun context pool)).1)) failed,
      )

  -- a transaction whose work leaves its client alone leaves the tables alone
  pub unchanged :
      (context : TenantContext) (work : Exec Client A) (pool : Pool) (r : Result A)
      → work (begun context pool) ≡ (r, begun context pool)
      → ((with_tenant_transaction context work pool).0 ≡ r)
        × ((with_tenant_transaction context work pool).1.db ≡ pool.db)
  unchanged context work pool (ok a) h =
      let (result, tables, clients) = with_tenant_transaction-settled context work pool in
      (result ∙ ap (λ p. p.0) h, tables ∙ ap (settled pool.db) h)
  unchanged context work pool (thrown e) h =
      let (result, tables, clients) = with_tenant_transaction-settled context work pool in
      (result ∙ ap (λ p. p.0) h, tables ∙ ap (settled pool.db) h)
