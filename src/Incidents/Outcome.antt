-- ===== src/Incidents/Outcome.antt =====
-- How a transition's work can end, with the state that it leaves.
use metricops_backend.Common.{
  String, ◌≡◌, true, false, ◌⊎◌, inl, inr, [], ◌∷◌, ◌++◌, none, some, any, find, Bool-cases,
  Option-cases,
}
use metricops_backend.Json.{Json}
use metricops_backend.Domain.Errors.{Thrown, not_found, unique_violation}
use metricops_backend.Domain.Principal.{Principal}
use metricops_backend.Effects.{Exec, Result, ok, thrown, Result-cases}
use metricops_backend.Database.Tables.{IncidentRow}
use metricops_backend.Database.Transaction.{Crypto, Clocks, Client}
use metricops_backend.Audit.{append}
use metricops_backend.Idempotency.{
  RequestKey, has_key, find_prior, replay, record_of, with_records, save_response,
}
use metricops_backend.Incidents.{
  Action, TransitionInput, camelize_incident, owned, admit, moved, update_where, with_incidents,
  log_event, audit_input, request_key, request_hash, perform, attempt, transition_work,
}

module _ (crypto : Crypto) (hmac_key : String) (clocks : Clocks) (principal : Principal)
    (action : Action) (input : TransitionInput)
    (incident_id idempotency_key request_id : String) where
  abbrev key : RequestKey
  key = request_key crypto hmac_key clocks principal action idempotency_key

  abbrev hash : String
  hash = request_hash crypto hmac_key clocks principal incident_id input

  -- the row that the UPDATE leaves
  abbrev pub updated : IncidentRow → IncidentRow
  updated row = moved action input clocks.transaction_now row

  -- the client after the UPDATE, the incident event and the audit event
  abbrev pub recorded : IncidentRow → Client → Client
  recorded row client =
      (append crypto hmac_key clocks
        (audit_input crypto hmac_key clocks principal action incident_id request_id (updated row))
        (log_event crypto hmac_key clocks principal action input incident_id (
          with_incidents
            (update_where (owned principal.customer_id incident_id)
              (moved action input clocks.transaction_now))
            client))).1

  -- and after the response was saved
  abbrev pub completed : IncidentRow → Client → Client
  completed row client =
      with_records
        (client.db.idempotency_records
          ++ record_of key hash 200 (camelize_incident (updated row)) clocks.transaction_now ∷ [])
        (recorded row client)

  -- the row that a fresh request works on passes the guards
  pub record IsAdmitted (client : Client) (row : IncidentRow) : Type 0 where
    pub found : find (owned principal.customer_id incident_id) client.db.incidents ≡ some row
    pub passed : admit action input row ≡ ok tt

  pub data Outcome (client : Client) (out : Result Json × Client) : Type 0 where
    replayed :
        (prior : _)
        → find_prior key clocks.transaction_now client.db.idempotency_records ≡ some prior
        → out ≡ (replay hash prior, client)
        → Outcome client out
    missing :
        find (owned principal.customer_id incident_id) client.db.incidents ≡ none
        → out ≡ (thrown (not_found "Incident"), client)
        → Outcome client out
    refused :
        (row : IncidentRow) (e : Thrown)
        → find (owned principal.customer_id incident_id) client.db.incidents ≡ some row
        → admit action input row ≡ thrown e
        → out ≡ (thrown e, client)
        → Outcome client out
    blocked :
        (row : IncidentRow)
        → any (has_key key) client.db.idempotency_records ≡ true
        → out ≡ (thrown unique_violation, recorded row client)
        → Outcome client out
    performed :
        (row : IncidentRow)
        → IsAdmitted client row
        → find_prior key clocks.transaction_now client.db.idempotency_records ≡ none
        → any (has_key key) client.db.idempotency_records ≡ false
        → out ≡ (ok (camelize_incident (updated row)), completed row client)
        → Outcome client out

  perform_blocked :
      (client : Client) (row : IncidentRow)
      → any (has_key key) client.db.idempotency_records ≡ true
      → perform crypto hmac_key clocks principal action input incident_id idempotency_key request_id
          row client
        ≡ (thrown unique_violation, recorded row client)
  unfolding perform save_response append log_event
  perform_blocked client row h = rw h

  perform-completed :
      (client : Client) (row : IncidentRow)
      → any (has_key key) client.db.idempotency_records ≡ false
      → perform crypto hmac_key clocks principal action input incident_id idempotency_key request_id
          row client
        ≡ (ok (camelize_incident (updated row)), completed row client)
  unfolding perform save_response append log_event
  perform-completed client row h = rw h

  abbrev work : Exec Client Json
  work =
      transition_work crypto hmac_key clocks principal action input incident_id idempotency_key
        request_id

  present :
      (client : Client) (row : IncidentRow)
      → find_prior key clocks.transaction_now client.db.idempotency_records ≡ none
      → find (owned principal.customer_id incident_id) client.db.incidents ≡ some row
      → ((u : Unit {0}) × (admit action input row ≡ ok u))
        ⊎ ((e : Thrown) × (admit action input row ≡ thrown e))
      → Outcome client (work client)
  unfolding transition_work attempt
  present client row fresh found (inr (e, refusal)) =
      refused row e found refusal (rw (fresh, transition_work, found, refusal))
  present client row fresh found (inl (u, passed)) =
      elim (Bool-cases (any (has_key key) client.db.idempotency_records)) [
        | inl taken ↦
            blocked row taken
              (rw (fresh, transition_work, found, passed) (perform_blocked client row taken))
        | inr free ↦
            performed row (record { found = found; passed = passed }) fresh free
              (rw (fresh, transition_work, found, passed) (perform-completed client row free))
      ]

  pub transition_work-Outcome : (client : Client) → Outcome client (work client)
  unfolding transition_work attempt
  transition_work-Outcome client =
      elim (Option-cases (find_prior key clocks.transaction_now client.db.idempotency_records)) [
        | inr (prior, found) ↦ replayed prior found (rw (found, transition_work))
        | inl fresh ↦
            elim (Option-cases
              (find (owned principal.customer_id incident_id) client.db.incidents)) [
                | inl absent ↦ missing absent (rw (fresh, transition_work, absent))
                | inr (row, found) ↦
                    present client row fresh found (Result-cases (admit action input row))
              ]
      ]
