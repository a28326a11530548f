-- ===== src/Idempotency/Keyed.antt =====
-- A request that is made once for its key: what connections/connection-service.ts and
-- resources/resource-service.ts do around the insertions of their `create`.
use metricops_backend.Common.{
  ℕ, ◌+◌, ◌<◌, String, ◌≡◌, refl, sym, ap, ◌∙◌, true, false, [], ◌∷◌, ◌++◌, none, some, any,
  Option-cases, Bool-cases, inl, inr, ◌==◌, string_eq, if◌then◌else◌,
}
use metricops_backend.Json.{Json}
use metricops_backend.Domain.Errors.{Thrown, unique_violation, idempotency_key_reused}
use metricops_backend.Effects.{
  Exec, Result, ok, thrown, Result-cases, ok-injective, ◌>>=◌, ◌>>◌, pure,
}
use metricops_backend.Database.Tables.{IdempotencyRow}
use metricops_backend.Database.Transaction.{
  Crypto, Client, Pool, TenantContext, with_tenant_transaction,
}
use metricops_backend.Database.Atomic.{begun, transaction_ok, unchanged}
use metricops_backend.Audit.Committed.{
  IsExtended, IsExtended-refl, IsExtended-same, IsExtended-trans,
}
use metricops_backend.Idempotency.{
  RequestKey, has_key, find_prior, replay, a_day, record_of, with_records, save_response,
}
use metricops_backend.Idempotency.Saved.{find_prior-saved}

-- the stored answer, or the work and its answer stored
unfoldable pub keyed : RequestKey → String → ℕ → ℕ → Exec Client Json → Exec Client Json
keyed k request_hash response_status now body client =
    elim (find_prior k now client.db.idempotency_records) [
      | some prior ↦ (replay request_hash prior, client)
      | none ↦
          (do view ← body; save_response k request_hash response_status view now; pure view) client
    ]

module _ (k : RequestKey) (request_hash : String) (response_status now : ℕ)
    (body : Exec Client Json) where
  -- how a keyed request ends
  pub data Outcome (client : Client) (out : Result Json × Client) : Type 0 where
    replayed :
        (prior : IdempotencyRow)
        → find_prior k now client.db.idempotency_records ≡ some prior
        → out ≡ (replay request_hash prior, client)
        → Outcome client out
    failed :
        (e : Thrown)
        → (body client).0 ≡ thrown e
        → out ≡ (thrown e, (body client).1)
        → Outcome client out
    blocked :
        any (has_key k) (body client).1.db.idempotency_records ≡ true
        → out ≡ (thrown unique_violation, (body client).1)
        → Outcome client out
    made :
        (view : Json)
        → find_prior k now client.db.idempotency_records ≡ none
        → (body client).0 ≡ ok view
        → any (has_key k) (body client).1.db.idempotency_records ≡ false
        → out ≡ (
          ok view,
          with_records
              ((body client).1.db.idempotency_records
                ++ record_of k request_hash response_status view now ∷ [])
              (body client).1,
        )
        → Outcome client out

  pub keyed-Outcome :
      (client : Client) → Outcome client (keyed k request_hash response_status now body client)
  unfolding keyed save_response
  keyed-Outcome client = elim (Option-cases (find_prior k now client.db.idempotency_records)) [
    | inr (prior, found) ↦ replayed prior found (rw (found, keyed))
    | inl fresh ↦ elim (Result-cases (body client).0) [
      | inr (e, h) ↦ failed e h (rw (fresh, keyed, h))
      | inl (view, h) ↦ elim (Bool-cases (any (has_key k) (body client).1.db.idempotency_records)) [
        | inl taken ↦ blocked taken (rw (fresh, keyed, h, taken))
        | inr free ↦ made view fresh h free (rw (fresh, keyed, h, free))
      ]
    ]
  ]

  module _ (crypto : Crypto) (key : String) where
    Outcome-IsExtended :
        (client : Client) (out : Result Json × Client)
        → IsExtended crypto key client (body client).1
        → Outcome client out
        → IsExtended crypto key client out.1
    Outcome-IsExtended client out x (replayed prior found h) =
        rw h (IsExtended-refl crypto key client)
    Outcome-IsExtended client out x (failed e t h) = rw h x
    Outcome-IsExtended client out x (blocked taken h) = rw h x
    Outcome-IsExtended client out x (made view fresh returned free h) = rw h (
        IsExtended-trans crypto key client (body client).1 _ x
          (IsExtended-same crypto key (body client).1 _ refl refl))

    -- a keyed request keeps what its body keeps of the audit log
    pub keyed-IsExtended :
        (client : Client)
        → IsExtended crypto key client (body client).1
        → IsExtended crypto key client (keyed k request_hash response_status now body client).1
    keyed-IsExtended client x = Outcome-IsExtended client _ x (keyed-Outcome client)

  made_row :
      (client client' : Client) (view : Json) (out : Result Json × Client)
      → (body client).1.db.idempotency_records ≡ client.db.idempotency_records
      → out ≡ (ok view, client')
      → find_prior k now client.db.idempotency_records ≡ none
      → Outcome client out
      → (any (has_key k) client.db.idempotency_records ≡ false)
        × (client'.db.idempotency_records
            ≡ client.db.idempotency_records
              ++ record_of k request_hash response_status view now ∷ [])
  made_row client client' view out kept e fresh (replayed prior found h) = cc (fresh, found)
  made_row client client' view out kept e fresh (failed t thrown_by h) =
      cc (ap (λ p. p.0) e, ap (λ p. p.0) h)
  made_row client client' view out kept e fresh (blocked taken h) =
      cc (ap (λ p. p.0) e, ap (λ p. p.0) h)
  made_row client client' view out kept e fresh (made view' no_prior returned free h) =
      let same : view' ≡ view = ok-injective view' view (ap (λ p. p.0) (sym h ∙ e)) in
      (rw kept at free, ap (λ p. p.1.db.idempotency_records) (sym e ∙ h) ∙ rw (kept, same))

  -- A keyed request that was made is made once: within a day, a request under the same key, with
  -- whatever body, is answered the saved view, or refused if its hash differs, and changes nothing.
  pub keyed-retry :
      (context context' : TenantContext) (pool pool' : Pool) (view : Json) (request_hash' : String)
      (response_status' now' : ℕ) (body' : Exec Client Json)
      → (body (begun context pool)).1.db.idempotency_records ≡ pool.db.idempotency_records
      → find_prior k now pool.db.idempotency_records ≡ none
      → with_tenant_transaction context (keyed k request_hash response_status now body) pool
        ≡ (ok view, pool')
      → now' < now + a_day
      → ((with_tenant_transaction context'
            (keyed k request_hash' response_status' now' body')
            pool').0
          ≡ (if request_hash == request_hash' then ok view else thrown idempotency_key_reused))
        × ((with_tenant_transaction context'
              (keyed k request_hash' response_status' now' body')
              pool').1.db
            ≡ pool'.db)
  keyed-retry context context' pool pool' view request_hash' response_status' now' body' kept fresh
        h soon =
      let (returned, tables) =
        transaction_ok context (keyed k request_hash response_status now body) pool pool' view h in
      let (free, rows) =
        made_row (begun context pool) _ view _ kept returned fresh
          (keyed-Outcome (begun context pool)) in
      let found : find_prior k now' pool'.db.idempotency_records
          ≡ some (record_of k request_hash response_status view now) =
        ap (λ d. find_prior k now' d.idempotency_records) tables
        ∙ ap (find_prior k now') rows
        ∙ find_prior-saved k request_hash response_status view now now' pool.db.idempotency_records
            free soon in
      unchanged context' (keyed k request_hash' response_status' now' body') pool' _
        (unfold keyed replay in rw (found, keyed))
