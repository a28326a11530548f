-- ===== src/Security/Sessions.antt =====
-- security/session-service.ts: sessions that were ended before their token expires.
use mathlib.Core.List.{Memᴰ}
use metricops_backend.Common.{
  Bool-cases, inl, inr, eq_iff, ℕ, ◌<◌, String, ◌≡◌, refl, Bool, true, false, ◌&&◌, List, [], ◌∷◌,
  ◌++◌, none, any, ltb, codes, ◌==◌, string_eq, eq_refl, if◌then◌else◌, arith,
}
use metricops_backend.Domain.Errors.{unauthorized}
use metricops_backend.Domain.Principal.{Principal}
use metricops_backend.Effects.{Exec, ok, thrown, modify, ◌>>◌}
use metricops_backend.Database.Tables.{RevokedSessionRow}
use metricops_backend.Database.Transaction.{
  Crypto, Clocks, Client, Pool, TenantContext, with_tenant_transaction,
}
use metricops_backend.Database.Atomic.{begun}
use metricops_backend.Audit.{AuditInput, append}
use metricops_backend.Audit.Chain.{IsSound}
use metricops_backend.Audit.Committed.{
  IsExtended-same, IsExtended-trans, IsExtended-append, with_tenant_transaction-IsSound,
}

abbrev pub has_hash : String → RevokedSessionRow → Bool
has_hash hash row = row.token_hash == hash

abbrev pub is_revoked : String → String → ℕ → RevokedSessionRow → Bool
is_revoked hash customer_id now row =
    row.token_hash == hash && row.customer_id == customer_id && ltb now row.expires_at

-- `first_16` takes the first sixteen characters of a text: `slice(0, 16)`
module _ (crypto : Crypto) (hmac_key : String) (first_16 : String → String) (clocks : Clocks) where
  unfoldable pub token_hash : String → String
  token_hash token_id = crypto.sha256 (codes token_id)

  -- one statement outside a transaction
  unfoldable pub assert_active : Principal → Exec Pool Unit
  assert_active principal pool =
      if any
        (is_revoked (token_hash principal.token_id) principal.customer_id clocks.transaction_now)
        pool.db.revoked_sessions
      then (thrown unauthorized, pool)
      else (ok tt, pool)

  -- ON CONFLICT (token_hash) DO NOTHING
  unfoldable pub insert_revoked : Principal → List RevokedSessionRow → List RevokedSessionRow
  insert_revoked principal rows =
      if any (has_hash (token_hash principal.token_id)) rows
      then rows
      else rows
        ++ (record {
          token_hash = token_hash principal.token_id;
          customer_id = principal.customer_id;
          subject_id = principal.subject;
          expires_at = principal.expires_at;
        })
          ∷ []

  abbrev with_revoked : (List RevokedSessionRow → List RevokedSessionRow) → Client → Client
  with_revoked f client = record client {
    server = record client.server {
      db = record client.db { revoked_sessions = f client.db.revoked_sessions };
    };
  }

  abbrev revoked_audit : Principal → String → AuditInput
  revoked_audit principal request_id = record {
    customer_id = principal.customer_id;
    actor_id = principal.subject;
    action = "session.revoked";
    resource_type = "session";
    resource_id = first_16 (token_hash principal.token_id);
    request_id = request_id;
    occurred_at = none;
    details = none;
  }

  unfoldable pub revoke_work : Principal → String → Exec Client Unit
  revoke_work principal request_id = do
    modify (with_revoked (insert_revoked principal))
    append crypto hmac_key clocks (revoked_audit principal request_id)

  abbrev context : Principal → TenantContext
  context principal = record { customer_id = principal.customer_id; actor_id = principal.subject }

  unfoldable pub revoke_current : Principal → String → Exec Pool Unit
  revoke_current principal request_id =
      with_tenant_transaction (context principal) (revoke_work principal request_id)

any-snoc_true :
    (p : RevokedSessionRow → Bool) (rows : List RevokedSessionRow) (row : RevokedSessionRow)
    → p row ≡ true
    → any p (rows ++ row ∷ []) ≡ true
any-snoc_true p [] row h = ground arith
any-snoc_true p (r ∷ rows) row h = ground (arith, any-snoc_true p rows row h)

module _ (crypto : Crypto) (hmac_key : String) (first_16 : String → String) (clocks : Clocks)
    (principal : Principal) (request_id : String) where
  insert_revoked-is_revoked :
      (now : ℕ) (rows : List RevokedSessionRow)
      → any (has_hash (token_hash crypto hmac_key first_16 clocks principal.token_id)) rows ≡ false
      → now < principal.expires_at
      → any
          (is_revoked
            (token_hash crypto hmac_key first_16 clocks principal.token_id)
            principal.customer_id
            now)
          (insert_revoked crypto hmac_key first_16 clocks principal rows)
        ≡ true
  unfolding insert_revoked
  insert_revoked-is_revoked now rows fresh h =
      let live : ltb now principal.expires_at ≡ true = ground arith in
      rw fresh (
        any-snoc_true _ rows _ (
          rw (
            eq_refl (token_hash crypto hmac_key first_16 clocks principal.token_id),
            eq_refl principal.customer_id,
            live,
          )))

  -- the record of the token is already there, and it holds for the customer at that time
  recorded-is_revoked :
      (hash : String) (now : ℕ) (rows : List RevokedSessionRow)
      → ((row : RevokedSessionRow)
          → Memᴰ row rows
          → row.token_hash ≡ hash
          → (row.customer_id ≡ principal.customer_id) × (now < row.expires_at))
      → any (has_hash hash) rows ≡ true
      → any (is_revoked hash principal.customer_id now) rows ≡ true
  recorded-is_revoked hash now [] own h = h
  recorded-is_revoked hash now (row ∷ rows) own h = elim (Bool-cases (row.token_hash == hash)) [
    | inl same ↦
        let (of_customer, lasts) = own row (Memᴰ.head refl) ((eq_iff row.token_hash hash).0 same) in
        ground (arith, of_customer, lasts, eq_iff row.customer_id principal.customer_id)
    | inr other ↦
        let rest = recorded-is_revoked hash now rows (λ r m. own r (Memᴰ.tail m)) (ground arith) in
        ground (arith, rest)
  ]

  -- After a session was ended, a request with its token that comes before the token expires is
  -- refused, unless the tables held a record of the token's hash before that belongs to another
  -- customer or expires too early.
  pub revoke_current-assert_active :
      (pool : Pool) (clocks' : Clocks)
      → ((row : RevokedSessionRow)
          → Memᴰ row pool.db.revoked_sessions
          → row.token_hash ≡ token_hash crypto hmac_key first_16 clocks principal.token_id
          → (row.customer_id ≡ principal.customer_id) × (clocks'.transaction_now < row.expires_at))
      → clocks'.transaction_now < principal.expires_at
      → (assert_active crypto hmac_key first_16 clocks' principal
          (revoke_current crypto hmac_key first_16 clocks principal request_id pool).1).0
        ≡ thrown unauthorized
  unfolding assert_active revoke_current revoke_work append with_tenant_transaction token_hash
      insert_revoked
  revoke_current-assert_active pool clocks' own h =
      let hash = token_hash crypto hmac_key first_16 clocks principal.token_id in
      elim (Bool-cases (any (has_hash hash) pool.db.revoked_sessions)) [
        | inr fresh ↦
            rw (insert_revoked-is_revoked clocks'.transaction_now pool.db.revoked_sessions fresh h)
        | inl there ↦ rw (
          there,
          recorded-is_revoked hash clocks'.transaction_now pool.db.revoked_sessions own there,
        )
      ]

  -- Ending a session keeps a sound audit log sound.
  pub revoke_current-IsSound :
      (pool : Pool)
      → IsSound crypto hmac_key pool.server
      → IsSound crypto hmac_key
          (revoke_current crypto hmac_key first_16 clocks principal request_id pool).1.server
  unfolding revoke_current revoke_work
  revoke_current-IsSound pool s =
      let client = begun (context crypto hmac_key first_16 clocks principal) pool in
      let updated =
        with_revoked crypto hmac_key first_16 clocks
          (insert_revoked crypto hmac_key first_16 clocks principal) client in
      with_tenant_transaction-IsSound crypto hmac_key
        (context crypto hmac_key first_16 clocks principal)
        (revoke_work crypto hmac_key first_16 clocks principal request_id) pool
        (IsExtended-trans crypto hmac_key client updated _
          (IsExtended-same crypto hmac_key client updated refl refl)
          (IsExtended-append crypto hmac_key clocks
            (revoked_audit crypto hmac_key first_16 clocks principal request_id) updated))
        s
