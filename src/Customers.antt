-- ===== src/Customers.antt =====
-- customers/customer-service.ts: a new customer, in a transaction of its own.
use metricops_backend.Common.{
  ◌+◌, String, refl, Bool, [], ◌∷◌, ◌++◌, none, some, any, ◌==◌, string_eq, if◌then◌else◌, inl, inr,
  Bool-cases,
}
use metricops_backend.Json.{Json, str, obj, end, field}
use metricops_backend.Domain.Errors.{unique_violation}
use metricops_backend.Domain.Principal.{Principal}
use metricops_backend.Effects.{Exec, ok, thrown}
use metricops_backend.Database.Tables.{CustomerRow}
use metricops_backend.Database.Transaction.{
  Crypto, Clocks, Client, Pool, TenantContext, connect, set_config, finish,
}
use metricops_backend.Audit.{AuditInput, append}
use metricops_backend.Audit.Chain.{IsSound}
use metricops_backend.Audit.Committed.{
  IsExtended, IsExtended-refl, finish-IsSound, IsExtended-same, IsExtended-trans, IsExtended-append,
}

abbrev pub has_id : String → CustomerRow → Bool
has_id id row = row.id == id

abbrev pub customer_view : String → String → Json
customer_view id name =
    obj (field "id" (str id) (field "name" (str name) (field "status" (str "active") end)))

module _ (crypto : Crypto) (hmac_key : String) (clocks : Clocks) (principal : Principal) where
  abbrev pub created_audit : String → String → String → AuditInput
  created_audit id name request_id = record {
    customer_id = id;
    actor_id = principal.subject;
    action = "customer.created";
    resource_type = "customer";
    resource_id = id;
    request_id = request_id;
    occurred_at = none;
    details = some (obj (field "name" (str name) end));
  }

  -- Only `app.current_customer_id` is set, and only once the row is inserted; the actor's setting
  -- stays empty.
  abbrev pub tenant_of : String → TenantContext
  tenant_of id = record { customer_id = id; actor_id = "" }

  abbrev pub insert_customer : String → String → Client → Client
  insert_customer id name client = record client {
    server = record client.server {
      db = record client.db {
        customers = client.db.customers ++ (record { id = id; name = name }) ∷ [];
      };
    };
  }

  unfoldable pub create_work : String → String → String → Exec Client Json
  create_work id name request_id client =
      if any (has_id id) client.db.customers then (thrown unique_violation, client) else (
        ok (customer_view id name),
        (append crypto hmac_key clocks (created_audit id name request_id)
            (set_config (tenant_of id) (insert_customer id name client))).1,
      )

  -- the identifier is drawn before the transaction begins
  abbrev pub drawing : Pool → Pool
  drawing pool = record pool { server = record pool.server { drawn = pool.drawn + 1 } }

  unfoldable pub create_customer : String → String → Exec Pool Json
  create_customer name request_id pool =
      let id = crypto.random_uuid pool.drawn in
      let (client, leased) = connect (drawing pool) in
      finish pool.db leased (create_work id name request_id client)

  create_work-IsExtended :
      (id name request_id : String) (client : Client)
      → IsExtended crypto hmac_key client (create_work id name request_id client).1
  unfolding create_work
  create_work-IsExtended id name request_id client =
      elim (Bool-cases (any (has_id id) client.db.customers)) [
        | inl taken ↦ rw taken (IsExtended-refl crypto hmac_key client)
        | inr free ↦
            let inserted = set_config (tenant_of id) (insert_customer id name client) in
            rw free (
              IsExtended-trans crypto hmac_key client inserted _
                (IsExtended-same crypto hmac_key client inserted refl refl)
                (IsExtended-append crypto hmac_key clocks (created_audit id name request_id)
                  inserted))
      ]

  -- Creating a customer keeps a sound audit log sound.
  pub create_customer-IsSound :
      (name request_id : String) (pool : Pool)
      → IsSound crypto hmac_key pool.server
      → IsSound crypto hmac_key (create_customer name request_id pool).1.server
  unfolding create_customer
  create_customer-IsSound name request_id pool s =
      finish-IsSound crypto hmac_key (pool.leased + 1) (connect (drawing pool)).0
        (create_work (crypto.random_uuid pool.drawn) name request_id (connect (drawing pool)).0)
        (create_work-IsExtended (crypto.random_uuid pool.drawn) name request_id
          (connect (drawing pool)).0)
        (record { rising = s.rising; standing = s.standing })
