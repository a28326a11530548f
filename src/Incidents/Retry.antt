-- ===== src/Incidents/Retry.antt =====
-- Retries and races: a transition is made once for its key and once for a version.
use metricops_backend.Common.{
  ◌+◌, ◌<◌, String, ◌≡◌, ◌≢◌, sym, ap, ◌∙◌, false, [], ◌∷◌, ◌++◌, none, some, any, find, arith,
  ◌==◌, string_eq, if◌then◌else◌,
}
use metricops_backend.Json.{Json}
use metricops_backend.Domain.Errors.{idempotency_key_reused}
use metricops_backend.Domain.Principal.{Principal}
use metricops_backend.Effects.{Exec, Result, ok, thrown, ok-injective}
use metricops_backend.Database.Tables.{IncidentRow}
use metricops_backend.Database.Transaction.{Crypto, Clocks, Client, Pool, TenantContext}
use metricops_backend.Database.Atomic.{begun, transaction_ok, unchanged}
use metricops_backend.Idempotency.{RequestKey, has_key, find_prior, replay, a_day, record_of}
use metricops_backend.Idempotency.Saved.{find_prior-saved}
use metricops_backend.Incidents.{
  Action, acknowledge, resolve, TransitionInput, camelize_incident, owned, admit, attempt,
  version_conflict, request_key, request_hash, transition_work, transition,
}
use metricops_backend.Incidents.Outcome.{
  updated, completed, Outcome, replayed, missing, refused, blocked, performed,
  transition_work-Outcome,
}
use metricops_backend.Incidents.Lifecycle.{transition-IsAdvanced}

module _ (crypto : Crypto) (hmac_key : String) (principal : Principal) where
  abbrev context : TenantContext
  context = record { customer_id = principal.customer_id; actor_id = principal.subject }

  abbrev key_of : Clocks → Action → String → RequestKey
  key_of clocks action idempotency_key =
      request_key crypto hmac_key clocks principal action idempotency_key

  abbrev hash_of : Clocks → String → TransitionInput → String
  hash_of clocks incident_id input = request_hash crypto hmac_key clocks principal incident_id input

  refused_unchanged :
      (who : Principal) (action : Action) (input : TransitionInput) (clocks : Clocks)
      (row : IncidentRow) (incident_id idempotency_key request_id : String) (pool : Pool)
      → find_prior
          (request_key crypto hmac_key clocks who action idempotency_key)
          clocks.transaction_now
          pool.db.idempotency_records
        ≡ none
      → find (owned who.customer_id incident_id) pool.db.incidents ≡ some row
      → admit action input row ≡ thrown version_conflict
      → ((transition crypto hmac_key clocks who action input incident_id idempotency_key request_id
            pool).0
          ≡ thrown version_conflict)
        × ((transition crypto hmac_key clocks who action input incident_id idempotency_key
              request_id pool).1.db
            ≡ pool.db)
  unfolding transition
  refused_unchanged who action input clocks row incident_id idempotency_key request_id pool fresh
        found refusal =
      unchanged (record { customer_id = who.customer_id; actor_id = who.subject })
        (transition_work crypto hmac_key clocks who action input incident_id idempotency_key
          request_id)
        pool (thrown version_conflict)
        (unfold transition_work attempt in rw (fresh, transition_work, found, refusal))

  module _ (clocks : Clocks) (action : Action) (input : TransitionInput)
      (incident_id idempotency_key request_id : String) where
    saved_row :
        (client client' : Client) (view : Json) (out : Result Json × Client)
        → out ≡ (ok view, client')
        → find_prior
            (key_of clocks action idempotency_key)
            clocks.transaction_now
            client.db.idempotency_records
          ≡ none
        → Outcome crypto hmac_key clocks principal action input incident_id idempotency_key
            request_id client out
        → (any (has_key (key_of clocks action idempotency_key)) client.db.idempotency_records
            ≡ false)
          × (client'.db.idempotency_records
              ≡ client.db.idempotency_records
                ++ record_of
                    (key_of clocks action idempotency_key)
                    (hash_of clocks incident_id input)
                    200
                    view
                    clocks.transaction_now
                  ∷ [])
    saved_row client client' view out e fresh (replayed prior found h) = cc (fresh, found)
    saved_row client client' view out e fresh (missing absent h) =
        cc (ap (λ p. p.0) e, ap (λ p. p.0) h)
    saved_row client client' view out e fresh (refused row t found no_guard h) =
        cc (ap (λ p. p.0) e, ap (λ p. p.0) h)
    saved_row client client' view out e fresh (blocked row taken h) =
        cc (ap (λ p. p.0) e, ap (λ p. p.0) h)
    saved_row client client' view out e fresh (performed row a no_prior free h) =
        let same : (
          ok (
              camelize_incident (
                updated crypto hmac_key clocks principal action input incident_id idempotency_key
                  request_id row)),
          completed crypto hmac_key clocks principal action input incident_id idempotency_key
              request_id row client,
        )
            ≡ (ok view, client') =
          sym h ∙ e in
        (
          free,
          ap (λ p. p.1.db.idempotency_records) (sym same)
              ∙ ap
                  (λ v.
                    client.db.idempotency_records
                    ++ record_of (key_of clocks action idempotency_key)
                        (hash_of clocks incident_id input) 200 v clocks.transaction_now
                      ∷ [])
                  (ok-injective _ view (ap (λ p. p.0) same)),
        )

    abbrev run : Exec Pool Json
    run =
        transition crypto hmac_key clocks principal action input incident_id idempotency_key
          request_id

    saved_after :
        (pool pool' : Pool) (view : Json)
        → find_prior
            (key_of clocks action idempotency_key)
            clocks.transaction_now
            pool.db.idempotency_records
          ≡ none
        → run pool ≡ (ok view, pool')
        → (any (has_key (key_of clocks action idempotency_key)) pool.db.idempotency_records ≡ false)
          × (pool'.db.idempotency_records
              ≡ pool.db.idempotency_records
                ++ record_of
                    (key_of clocks action idempotency_key)
                    (hash_of clocks incident_id input)
                    200
                    view
                    clocks.transaction_now
                  ∷ [])
    unfolding transition
    saved_after pool pool' view fresh h =
        let work =
          transition_work crypto hmac_key clocks principal action input incident_id idempotency_key
            request_id in
        let (done, tables) = transaction_ok context work pool pool' view h in
        let (free, rows) =
          saved_row (begun context pool) (work (begun context pool)).1 view
            (work (begun context pool)) done fresh
            (transition_work-Outcome crypto hmac_key clocks principal action input incident_id
              idempotency_key request_id (begun context pool)) in
        (free, ap (λ db. db.idempotency_records) tables ∙ rows)

    -- Straight after a transition that was made, and within a day of it, the user's same action under
    -- the same key changes no table, whatever incident and version it names. It is answered the
    -- saved view if it asks for the same thing, that is, has the same request hash, and is refused
    -- as a reused key otherwise.
    pub transition-retry :
        (pool pool' : Pool) (view : Json) (clocks' : Clocks) (input' : TransitionInput)
        (incident_id' request_id' : String)
        → find_prior
            (key_of clocks action idempotency_key)
            clocks.transaction_now
            pool.db.idempotency_records
          ≡ none
        → run pool ≡ (ok view, pool')
        → clocks'.transaction_now < clocks.transaction_now + a_day
        → ((transition crypto hmac_key clocks' principal action input' incident_id' idempotency_key
              request_id' pool').0
            ≡ (if hash_of clocks incident_id input == hash_of clocks' incident_id' input'
                then ok view
                else thrown idempotency_key_reused))
          × ((transition crypto hmac_key clocks' principal action input' incident_id'
                idempotency_key request_id' pool').1.db
              ≡ pool'.db)
    unfolding transition
    transition-retry pool pool' view clocks' input' incident_id' request_id' fresh h soon =
        let (free, rows) = saved_after pool pool' view fresh h in
        let prior =
          record_of (key_of clocks action idempotency_key) (hash_of clocks incident_id input) 200
            view clocks.transaction_now in
        let found : find_prior (key_of clocks' action idempotency_key) clocks'.transaction_now
              pool'.db.idempotency_records
            ≡ some prior =
          rw rows (
            find_prior-saved (key_of clocks action idempotency_key)
              (hash_of clocks incident_id input) 200 view clocks.transaction_now
              clocks'.transaction_now pool.db.idempotency_records free soon) in
        unchanged context
          (transition_work crypto hmac_key clocks' principal action input' incident_id'
            idempotency_key request_id')
          pool' _ (unfold transition_work replay in rw (found, transition_work))

    admit_stale :
        (action' : Action) (input' : TransitionInput) (row : IncidentRow)
        → row.version ≢ input'.version
        → admit action' input' row ≡ thrown version_conflict
    unfolding admit
    admit_stale acknowledge input' row h = ground arith
    admit_stale resolve input' row h = ground arith

    -- Straight after a transition that was made at a version, any other request (of any user of the
    -- customer, for either action, under a key with no live record) that names the same version of
    -- the incident is refused with a version conflict and changes no table.
    pub transition-stale :
        (pool pool' : Pool) (view : Json) (clocks' : Clocks) (subject' : String) (action' : Action)
        (input' : TransitionInput) (idempotency_key' request_id' : String)
        → find_prior
            (key_of clocks action idempotency_key)
            clocks.transaction_now
            pool.db.idempotency_records
          ≡ none
        → run pool ≡ (ok view, pool')
        → input'.version ≡ input.version
        → find_prior
            (key_of clocks' action' idempotency_key')
            clocks'.transaction_now
            pool'.db.idempotency_records
          ≡ none
        → ((transition crypto hmac_key clocks'
              (record principal { subject = subject' })
              action'
              input'
              incident_id
              idempotency_key'
              request_id'
              pool').0
            ≡ thrown version_conflict)
          × ((transition crypto hmac_key clocks'
                (record principal { subject = subject' })
                action'
                input'
                incident_id
                idempotency_key'
                request_id'
                pool').1.db
              ≡ pool'.db)
    unfolding transition
    transition-stale pool pool' view clocks' subject' action' input' idempotency_key' request_id'
          fresh h same fresh' =
        let a =
          transition-IsAdvanced crypto hmac_key clocks principal action input incident_id
            idempotency_key request_id pool pool' view fresh h in
        let stale : a.row'.version ≢ input'.version = omega (arith, a.version, a.expected, same) in
        refused_unchanged (record principal { subject = subject' }) action' input' clocks' a.row'
          incident_id idempotency_key' request_id' pool' fresh' a.stored
          (admit_stale action' input' a.row' stale)
