-- ===== src/Incidents/Lifecycle.antt =====
-- The life of an incident: which transitions are made, and what each one changes.
use mathlib.Core.Path.{subst, subst₂}
use metricops_backend.Common.{
  ℕ, ◌+◌, String, ◌≡◌, refl, sym, ap, ◌∙◌, List, none, some, find, length, length-snoc, arith,
}
use metricops_backend.Json.{Json}
use metricops_backend.Domain.Principal.{Principal}
use metricops_backend.Effects.{Exec, Result, ok, ok-injective}
use metricops_backend.Database.Tables.{
  Db, IncidentRow, IncidentStatus, open_incident, acknowledged, investigating, mitigating,
  monitoring, resolved,
}
use metricops_backend.Database.Transaction.{Crypto, Clocks, Client, Pool, TenantContext}
use metricops_backend.Database.Atomic.{begun, transaction_ok}
use metricops_backend.Audit.{append}
use metricops_backend.Idempotency.{find_prior}
use metricops_backend.Incidents.{
  Action, acknowledge, resolve, TransitionInput, camelize_incident, owned, admit, moved,
  update_where, log_event, transition_work, transition, request_key,
}
use metricops_backend.Incidents.Outcome.{
  updated, completed, IsAdmitted, Outcome, replayed, missing, refused, blocked, performed,
  transition_work-Outcome,
}
use metricops_backend.Incidents.Rows.{
  map_row, find-update_where_self, find-update_where_other, owned-moved, owned_apart,
}

-- an incident is acknowledged only when it is open, and resolved only before it is over
pub data IsLegal : Action → IncidentStatus → Type 0 where
  from_open : IsLegal acknowledge open_incident
  resolve_open : IsLegal resolve open_incident
  resolve_acknowledged : IsLegal resolve acknowledged
  resolve_investigating : IsLegal resolve investigating
  resolve_mitigating : IsLegal resolve mitigating
  resolve_monitoring : IsLegal resolve monitoring

abbrev pub target : Action → IncidentStatus
target acknowledge = acknowledged
target resolve = resolved

IsLegal-of_status :
    (action : Action) (s : IncidentStatus) (input : TransitionInput) (row : IncidentRow)
    → row.status ≡ s
    → admit action input row ≡ ok tt
    → IsLegal action s
unfolding admit
IsLegal-of_status acknowledge open_incident input row e h = from_open
IsLegal-of_status resolve open_incident input row e h = resolve_open
IsLegal-of_status resolve acknowledged input row e h = resolve_acknowledged
IsLegal-of_status resolve investigating input row e h = resolve_investigating
IsLegal-of_status resolve mitigating input row e h = resolve_mitigating
IsLegal-of_status resolve monitoring input row e h = resolve_monitoring
IsLegal-of_status action s input row e h = absurd (ground arith)

admit_version :
    (action : Action) (input : TransitionInput) (row : IncidentRow)
    → admit action input row ≡ ok tt
    → row.version ≡ input.version
unfolding admit
admit_version acknowledge input row h = ground arith
admit_version resolve input row h = ground arith

moved_fields :
    (action : Action) (input : TransitionInput) (now : ℕ) (row : IncidentRow)
    → ((moved action input now row).status ≡ target action)
      × ((moved action input now row).version ≡ row.version + 1)
unfolding moved
moved_fields acknowledge input now row = (refl, refl)
moved_fields resolve input now row = (refl, refl)

module _ (crypto : Crypto) (hmac_key : String) (clocks : Clocks) (principal : Principal)
    (action : Action) (input : TransitionInput)
    (incident_id idempotency_key request_id : String) where
  -- What a transition that is made has changed between two states of the tables.
  pub record IsAdvanced (db db' : Db) (view : Json) : Type 0 where
    pub row : IncidentRow
    pub found : find (owned principal.customer_id incident_id) db.incidents ≡ some row
    pub expected : row.version ≡ input.version
    pub legal : IsLegal action row.status
    pub row' : IncidentRow
    pub stored : find (owned principal.customer_id incident_id) db'.incidents ≡ some row'
    pub status : row'.status ≡ target action
    pub version : row'.version ≡ row.version + 1
    pub shown : view ≡ camelize_incident row'
    pub others :
        (c i : String)
        → ¬ ((principal.customer_id ≡ c) × (incident_id ≡ i))
        → find (owned c i) db'.incidents ≡ find (owned c i) db.incidents
    pub events : length db'.incident_events ≡ length db.incident_events + 1
    pub audited : length db'.audit_events ≡ length db.audit_events + 1

  abbrev updates : List IncidentRow → List IncidentRow
  updates =
      update_where (owned principal.customer_id incident_id)
        (moved action input clocks.transaction_now)

  incidents-completed :
      (row : IncidentRow) (client : Client)
      → ((completed crypto hmac_key clocks principal action input incident_id idempotency_key
            request_id row client).db.incidents
          ≡ updates client.db.incidents)
        × (length
              (completed crypto hmac_key clocks principal action input incident_id idempotency_key
                request_id row client).db.incident_events
            ≡ length client.db.incident_events + 1)
        × (length
              (completed crypto hmac_key clocks principal action input incident_id idempotency_key
                request_id row client).db.audit_events
            ≡ length client.db.audit_events + 1)
  unfolding append log_event
  incidents-completed row client = (refl, length-snoc _ _, length-snoc _ _)

  completed-IsAdvanced :
      (row : IncidentRow) (client : Client)
      → IsAdmitted crypto hmac_key clocks principal action input incident_id idempotency_key
          request_id client row
      → IsAdvanced client.db
          (completed crypto hmac_key clocks principal action input incident_id idempotency_key
            request_id row client).db
          (camelize_incident (moved action input clocks.transaction_now row))
  completed-IsAdvanced row client a =
      let (rows, events, audited) = incidents-completed row client in
      record {
        row = row;
        found = a.found;
        expected = admit_version action input row a.passed;
        legal = IsLegal-of_status action row.status input row refl a.passed;
        row' = moved action input clocks.transaction_now row;
        stored =
            ap (find (owned principal.customer_id incident_id)) rows
            ∙ find-update_where_self (owned principal.customer_id incident_id)
                (moved action input clocks.transaction_now)
                (owned-moved action input clocks.transaction_now principal.customer_id incident_id)
                client.db.incidents
            ∙ ap (map_row (moved action input clocks.transaction_now)) a.found;
        status = (moved_fields action input clocks.transaction_now row).0;
        version = (moved_fields action input clocks.transaction_now row).1;
        shown = refl;
        others = λ c i apart.
            ap (find (owned c i)) rows
            ∙ find-update_where_other (owned principal.customer_id incident_id) (owned c i)
                (moved action input clocks.transaction_now)
                (owned-moved action input clocks.transaction_now c i)
                (λ r. owned_apart principal.customer_id incident_id c i r apart)
                client.db.incidents;
        events = events;
        audited = audited;
      }

  abbrev context : TenantContext
  context = record { customer_id = principal.customer_id; actor_id = principal.subject }

  abbrev run : Exec Pool Json
  run =
      transition crypto hmac_key clocks principal action input incident_id idempotency_key
        request_id

  abbrev work : Exec Client Json
  work =
      transition_work crypto hmac_key clocks principal action input incident_id idempotency_key
        request_id

  Outcome-IsAdvanced :
      (client client' : Client) (view : Json) (out : Result Json × Client)
      → out ≡ (ok view, client')
      → find_prior
          (request_key crypto hmac_key clocks principal action idempotency_key)
          clocks.transaction_now
          client.db.idempotency_records
        ≡ none
      → Outcome crypto hmac_key clocks principal action input incident_id idempotency_key request_id
          client out
      → IsAdvanced client.db client'.db view
  Outcome-IsAdvanced client client' view out e fresh (replayed prior found h) = cc (fresh, found)
  Outcome-IsAdvanced client client' view out e fresh (missing absent h) =
      cc (ap (λ p. p.0) e, ap (λ p. p.0) h)
  Outcome-IsAdvanced client client' view out e fresh (refused row t found no_guard h) =
      cc (ap (λ p. p.0) e, ap (λ p. p.0) h)
  Outcome-IsAdvanced client client' view out e fresh (blocked row taken h) =
      cc (ap (λ p. p.0) e, ap (λ p. p.0) h)
  Outcome-IsAdvanced client client' view out e fresh (performed row a no_prior free h) =
      let same : (
        ok (
            camelize_incident (
              updated crypto hmac_key clocks principal action input incident_id idempotency_key
                request_id row)),
        completed crypto hmac_key clocks principal action input incident_id idempotency_key
            request_id row client,
      )
          ≡ (ok view, client') =
        sym h ∙ e in
      subst₂ (λ v c. IsAdvanced client.db c.db v) (ok-injective _ view (ap (λ p. p.0) same))
        (ap (λ p. p.1) same) (completed-IsAdvanced row client a)

  -- A transition that succeeds, under a key with no live record, has found the caller's incident at
  -- the version that the request names and in a status from which the action is legal. It leaves
  -- that incident in the action's status with the next version, answers its view, adds one incident
  -- event and one audit event, and leaves every other incident as it was.
  pub transition-IsAdvanced :
      (pool pool' : Pool) (view : Json)
      → find_prior
          (request_key crypto hmac_key clocks principal action idempotency_key)
          clocks.transaction_now
          pool.db.idempotency_records
        ≡ none
      → run pool ≡ (ok view, pool')
      → IsAdvanced pool.db pool'.db view
  unfolding transition
  transition-IsAdvanced pool pool' view fresh h =
      let (done, tables) = transaction_ok context work pool pool' view h in
      subst (λ db. IsAdvanced pool.db db view) (sym tables)
        (Outcome-IsAdvanced (begun context pool) (work (begun context pool)).1 view
          (work (begun context pool)) done fresh
          (transition_work-Outcome crypto hmac_key clocks principal action input incident_id
            idempotency_key request_id (begun context pool)))
