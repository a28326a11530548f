-- ===== src/Connections/Validation.antt =====
-- The two transactions of a validation, with the connector between them.
use mathlib.Core.Path.{subst}
use metricops_backend.Common.{
  if◌then◌else◌, ℕ, ◌≢◌, ◌⊎◌, Bool, true, false, none, List, [], ◌∷◌, Option, Bool-cases, ◌==◌,
  eq_iff, String, ◌≡◌, refl, sym, ap, ◌∙◌, inl, inr, some, find, Option-cases, string_eq,
}
use metricops_backend.Common.Rows.{RowWise, no_rows, row_then}
use metricops_backend.Common.Dates.{to_iso_string}
use metricops_backend.Json.{Json, num, str, bool, obj, Fields, end, field}
use metricops_backend.Domain.Principal.{Principal}
use metricops_backend.Effects.{Exec, ok, Result-cases, ok-injective}
use metricops_backend.Database.Tables.{ConnectionRow, ConnectionStatus, healthy, unhealthy}
use metricops_backend.Database.Transaction.{Crypto, Clocks, Client, Pool, with_tenant_transaction}
use metricops_backend.Database.Atomic.{begun, transaction_ok}
use metricops_backend.Audit.{append}
use metricops_backend.Audit.Chain.{IsSound, neq_of}
use metricops_backend.Audit.Committed.{
  IsExtended, IsExtended-refl, IsExtended-same, IsExtended-trans, IsExtended-append,
  with_tenant_transaction-IsSound,
}
use metricops_backend.Connections.{
  ConnectionCheck, Connector, Registry, get_connector, owned_connection, validated,
  update_connection, check_status, error_field, check_view, with_connections, context,
  validated_audit, read_connection, record_check, validate_connection,
}

-- what recording a check makes of a row: another connection stays, and the checked one is healthy or
-- unhealthy as the check says
pub data Recorded (customer_id id : String) (check : ConnectionCheck) (now : ℕ)
    (row row' : ConnectionRow) : Type 0 where
  not_this :
      (row.customer_id ≢ customer_id) ⊎ (row.id ≢ id)
      → row' ≡ row
      → Recorded customer_id id check now row row'
  recorded :
      row.customer_id ≡ customer_id
      → row.id ≡ id
      → (status : ConnectionStatus)
      → ((check.is_healthy ≡ true) × (status ≡ healthy))
        ⊎ ((check.is_healthy ≡ false) × (status ≡ unhealthy))
      → row' ≡ record row {
        status = status;
        last_validated_at = some check.checked_at;
        updated_at = now;
      }
      → Recorded customer_id id check now row row'

-- the answer to a validation: the check's fields, and its error's code where there is one
pub record IsAnswer (id : String) (check : ConnectionCheck) (view : Json) : Type 0 where
  pub error : Fields
  pub without_error : check.error_code ≡ none → error ≡ end
  pub with_error :
      (code : String)
      → check.error_code ≡ some code
      → code ≢ ""
      → error ≡ field "errorCode" (str code) end
  pub answer :
      view
      ≡ obj (
          field "connectionId" (str id) (
            field "healthy" (bool check.is_healthy) (
              field "checkedAt" (str (to_iso_string check.checked_at)) (
                field "latencyMs" (num check.latency_ms) (field "metadata" check.metadata error)))))

error_code-shown :
    (o : Option String) (code : String)
    → o ≡ some code
    → code ≢ ""
    → error_field o ≡ field "errorCode" (str code) end
error_code-shown none code h other = absurd (cc h)
error_code-shown (some c) code h other =
    let same : c ≡ code = ap (λ o. elim o [ none ↦ c | some x ↦ x ]) h in
    elim (Bool-cases (c == "")) [
      | inl empty ↦ absurd (other (sym same ∙ (eq_iff c "").0 empty))
      | inr filled ↦ rw (filled, same)
    ]

check_view-IsAnswer :
    (id : String) (check : ConnectionCheck) → IsAnswer id check (check_view id check)
unfolding check_view
check_view-IsAnswer id check = record {
  error = error_field check.error_code;
  without_error = λ h. rw h;
  with_error = λ code h other. error_code-shown check.error_code code h other;
  answer = refl;
}

recorded_status :
    (b : Bool)
    → ((b ≡ true) × (check_status b ≡ healthy)) ⊎ ((b ≡ false) × (check_status b ≡ unhealthy))
recorded_status true = inl (refl, refl)
recorded_status false = inr (refl, refl)

module _ (customer_id id : String) (check : ConnectionCheck) (now : ℕ) where
  validated-Recorded :
      (row : ConnectionRow)
      → Recorded customer_id id check now row
          (if owned_connection customer_id id row then validated check now row else row)
  unfolding validated
  validated-Recorded row = elim (Bool-cases (row.customer_id == customer_id)) [
    | inr foreign ↦ rw foreign (not_this (inl (neq_of row.customer_id customer_id foreign)) refl)
    | inl own ↦ elim (Bool-cases (row.id == id)) [
      | inr other ↦ rw (own, other) (not_this (inr (neq_of row.id id other)) refl)
      | inl same ↦
          rw (own, same)
            (recorded ((eq_iff row.customer_id customer_id).0 own) ((eq_iff row.id id).0 same)
              (check_status check.is_healthy) (recorded_status check.is_healthy) refl)
    ]
  ]

  update_connection-Recorded :
      (rows : List ConnectionRow)
      → RowWise
          (Recorded customer_id id check now)
          rows
          (update_connection customer_id id (validated check now) rows)
  unfolding update_connection
  update_connection-Recorded [] = no_rows
  update_connection-Recorded (row ∷ rows) =
      row_then row _ rows _ (validated-Recorded row) (update_connection-Recorded rows)

module _ (crypto : Crypto) (key : String) (clocks : Clocks) (principal : Principal)
    (registry : Registry) (meanwhile : Pool → Pool) (id request_id : String) where
  abbrev read : Exec Pool ConnectionRow
  read =
      with_tenant_transaction (context crypto key clocks principal)
        (read_connection crypto key clocks principal id)

  abbrev write : ConnectionCheck → Exec Pool Unit
  write check =
      with_tenant_transaction (context crypto key clocks principal)
        (record_check crypto key clocks principal id request_id check)

  abbrev run : Exec Pool Json
  run = validate_connection crypto key clocks principal registry meanwhile id request_id

  -- the first transaction reads the row that is there
  read_found :
      (pool pool' : Pool) (row : ConnectionRow)
      → read pool ≡ (ok row, pool')
      → (find (owned_connection principal.customer_id id) pool.db.connections ≡ some row)
        × (pool'.db ≡ pool.db)
  unfolding read_connection
  read_found pool pool' row h =
      let (returned, tables) =
        transaction_ok (context crypto key clocks principal)
          (read_connection crypto key clocks principal id) pool pool' row h in
      elim (Option-cases (find (owned_connection principal.customer_id id) pool.db.connections)) [
        | inl absent ↦ absurd (cc (ap (λ p. p.0) (rw absent at returned)))
        | inr (row', here) ↦
            (here ∙ ap some (ok-injective row' row (ap (λ p. p.0) (rw here at returned))), tables)
      ]

  write-connections :
      (check : ConnectionCheck) (pool : Pool)
      → ((write check pool).0 ≡ ok tt)
        × ((write check pool).1.db.connections
            ≡ update_connection principal.customer_id id
                (validated check clocks.transaction_now)
                pool.db.connections)
  unfolding record_check append with_tenant_transaction
  write-connections check pool = (refl, refl)

  -- What a validation that answered leaves: the row was there, its kind's connector made the check
  -- that is answered, and that check is recorded in the tables as they then were.
  pub record IsValidated (pool pool' : Pool) (view : Json) : Type 0 where
    pub row : ConnectionRow
    pub found : find (owned_connection principal.customer_id id) pool.db.connections ≡ some row
    pub connector : Connector
    pub of_kind : get_connector row.kind registry ≡ ok connector
    pub check : ConnectionCheck
    pub checked : connector row ≡ ok check
    pub answered : IsAnswer id check view
    pub between : Pool
    pub same_tables : between.db ≡ pool.db
    pub stored :
        RowWise
          (Recorded principal.customer_id id check clocks.transaction_now)
          (meanwhile between).db.connections
          pool'.db.connections

  checked_run :
      (pool pool' : Pool) (view : Json) (row : ConnectionRow) (connector : Connector)
      (check : ConnectionCheck)
      → (read pool).0 ≡ ok row
      → get_connector row.kind registry ≡ ok connector
      → connector row ≡ ok check
      → run pool ≡ (ok view, pool')
      → IsValidated pool pool' view
  unfolding validate_connection
  checked_run pool pool' view row connector check h of_kind checked e =
      let (found, tables) = read_found pool (read pool).1 row (λ i. (h i, (read pool).1)) in
      let (done, stored) = write-connections check (meanwhile (read pool).1) in
      let e' : (ok (check_view id check), (write check (meanwhile (read pool).1)).1)
          ≡ (ok view, pool') =
        rw (h, of_kind, checked, done) at e in
      record {
        row = row;
        found = found;
        connector = connector;
        of_kind = of_kind;
        check = check;
        checked = checked;
        answered =
            subst (IsAnswer id check) (ok-injective (check_view id check) view (ap (λ p. p.0) e'))
              (check_view-IsAnswer id check);
        between = (read pool).1;
        same_tables = tables;
        stored =
            subst
              (RowWise (Recorded principal.customer_id id check clocks.transaction_now)
                (meanwhile (read pool).1).db.connections)
              (sym stored ∙ ap (λ p. p.1.db.connections) e')
              (update_connection-Recorded principal.customer_id id check clocks.transaction_now
                (meanwhile (read pool).1).db.connections);
      }

  -- A validation that answers found the connection, ran the connector of its kind on the row that
  -- it read, and answers that check. In the tables as they stand after what other requests did
  -- meanwhile, the connection becomes healthy or unhealthy as the check says and keeps the check's
  -- time, and no other row changes.
  pub validate_connection-IsValidated :
      (pool pool' : Pool) (view : Json) → run pool ≡ (ok view, pool') → IsValidated pool pool' view
  unfolding validate_connection
  validate_connection-IsValidated pool pool' view e = elim (Result-cases (read pool).0) [
    | inr (t, h) ↦ absurd (cc (ap (λ p. p.0) (rw h at e)))
    | inl (row, h) ↦ elim (Result-cases (get_connector row.kind registry)) [
      | inr (t, k) ↦ absurd (cc (ap (λ p. p.0) (rw (h, k) at e)))
      | inl (connector, k) ↦ elim (Result-cases (connector row)) [
        | inr (t, c) ↦ absurd (cc (ap (λ p. p.0) (rw (h, k, c) at e)))
        | inl (check, c) ↦ checked_run pool pool' view row connector check h k c e
      ]
    ]
  ]

  read_connection-same :
      (client : Client)
      → IsExtended crypto key client (read_connection crypto key clocks principal id client).1
  unfolding read_connection
  read_connection-same client = IsExtended-refl crypto key client

  record_check-IsExtended :
      (check : ConnectionCheck) (client : Client)
      → IsExtended crypto key client
          (record_check crypto key clocks principal id request_id check client).1
  unfolding record_check
  record_check-IsExtended check client =
      let updated =
        with_connections
          (update_connection principal.customer_id id (validated check clocks.transaction_now))
          client in
      IsExtended-trans crypto key client updated _
        (IsExtended-same crypto key client updated refl refl)
        (IsExtended-append crypto key clocks
          (validated_audit crypto key clocks principal id request_id check) updated)

  read-IsSound :
      (pool : Pool) → IsSound crypto key pool.server → IsSound crypto key (read pool).1.server
  read-IsSound pool s =
      with_tenant_transaction-IsSound crypto key (context crypto key clocks principal)
        (read_connection crypto key clocks principal id) pool (read_connection-same (begun _ pool))
        s

  write-IsSound :
      (check : ConnectionCheck) (pool : Pool)
      → IsSound crypto key pool.server
      → IsSound crypto key (write check pool).1.server
  write-IsSound check pool s =
      with_tenant_transaction-IsSound crypto key (context crypto key clocks principal)
        (record_check crypto key clocks principal id request_id check) pool
        (record_check-IsExtended check (begun _ pool)) s

  -- Where what other requests do meanwhile keeps the audit log sound, a validation,
  -- whatever its outcome, keeps it sound too.
  pub validate_connection-IsSound :
      (pool : Pool)
      → ((p : Pool) → IsSound crypto key p.server → IsSound crypto key (meanwhile p).server)
      → IsSound crypto key pool.server
      → IsSound crypto key (run pool).1.server
  unfolding validate_connection
  validate_connection-IsSound pool others s = elim (Result-cases (read pool).0) [
    | inr (t, h) ↦ rw h (read-IsSound pool s)
    | inl (row, h) ↦ elim (Result-cases (get_connector row.kind registry)) [
      | inr (t, k) ↦ rw (h, k) (read-IsSound pool s)
      | inl (connector, k) ↦ elim (Result-cases (connector row)) [
        | inr (t, c) ↦ rw (h, k, c) (read-IsSound pool s)
        | inl (check, c) ↦
            rw (h, k, c, (write-connections check (meanwhile (read pool).1)).0)
              (write-IsSound check (meanwhile (read pool).1)
                (others (read pool).1 (read-IsSound pool s)))
      ]
    ]
  ]
