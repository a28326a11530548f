-- ===== src/Alerts/OneActive.antt =====
-- At most one incident of an alert is active, and which one alert leaves.
use metricops_backend.Common.{
  ℕ, ◌+◌, ◌≤◌, String, ◌≡◌, refl, ◌∙◌, Bool, true, false, ◌&&◌, List, [], ◌∷◌, ◌++◌, any, arith,
  ◌==◌, string_eq, eq_iff, eq_refl, if◌then◌else◌, Bool-cases, inl, inr,
}
use metricops_backend.Database.Tables.{IncidentRow}
use metricops_backend.Database.Transaction.{Crypto, Clocks, Client}
use metricops_backend.Alerts.Instances.{
  Alert, is_active_of, is_firing, new_incident, recovered, recover_all,
}
use metricops_backend.Alerts.Ingest.{opens, insert_incident, open_incidents, close_incidents}

-- how many incidents of a customer's alert are active
unfoldable pub active_count : String → String → List IncidentRow → ℕ
active_count customer_id alert_id [] = 0
active_count customer_id alert_id (row ∷ rows) =
    (if is_active_of customer_id alert_id row then 1 else 0)
    + active_count customer_id alert_id rows

-- what the index incidents_one_active_per_alert_idx demands of the table
abbrev pub OneActive : List IncidentRow → Type 0
OneActive rows = (customer_id alert_id : String) → active_count customer_id alert_id rows ≤ 1

active_count-snoc :
    (c a : String) (rows : List IncidentRow) (row : IncidentRow)
    → active_count c a (rows ++ row ∷ [])
      ≡ active_count c a rows + (if is_active_of c a row then 1 else 0)
unfolding active_count
active_count-snoc c a [] row = omega arith
active_count-snoc c a (r ∷ rows) row = omega (arith, active_count-snoc c a rows row)

active_count_none :
    (c a : String) (rows : List IncidentRow)
    → any (is_active_of c a) rows ≡ false
    → active_count c a rows ≡ 0
unfolding active_count
active_count_none c a [] h = refl
active_count_none c a (row ∷ rows) h = ground (arith, active_count_none c a rows)

active_count_some :
    (c a : String) (rows : List IncidentRow)
    → any (is_active_of c a) rows ≡ true
    → 1 ≤ active_count c a rows
unfolding active_count
active_count_some c a [] h = cc
active_count_some c a (row ∷ rows) h = ground (arith, active_count_some c a rows)

module _ (crypto : Crypto) (clocks : Clocks) (is_zod_uuid : String → Bool)
    (customer_id connection_id : String) where
  active_count-recover_all :
      (alert : Alert) (alert_id c a : String) (rows : List IncidentRow)
      → active_count c a
          (recover_all crypto clocks is_zod_uuid customer_id connection_id alert alert_id rows).0
        ≤ active_count c a rows
  unfolding active_count recover_all recovered
  active_count-recover_all alert alert_id c a [] = omega arith
  active_count-recover_all alert alert_id c a (row ∷ rows) =
      ground (arith, active_count-recover_all alert alert_id c a rows)

  active_count-recover_all_own :
      (alert : Alert) (alert_id : String) (rows : List IncidentRow)
      → active_count customer_id alert_id
          (recover_all crypto clocks is_zod_uuid customer_id connection_id alert alert_id rows).0
        ≡ 0
  unfolding active_count recover_all recovered
  active_count-recover_all_own alert alert_id [] = refl
  active_count-recover_all_own alert alert_id (row ∷ rows) =
      ground (arith, active_count-recover_all_own alert alert_id rows)

  -- the new incident counts for its own alert only
  new_incident-active :
      (alert : Alert) (resource_id : _) (alert_id id c a : String)
      → is_active_of c a (
          new_incident crypto clocks is_zod_uuid customer_id connection_id alert resource_id
            alert_id id)
        ≡ (customer_id == c && alert_id == a)
  unfolding new_incident
  new_incident-active alert resource_id alert_id id c a = ground arith

  insert_incident-count :
      (alert : Alert) (alert_id c a : String) (client : Client)
      → active_count c a
          (insert_incident crypto clocks is_zod_uuid customer_id connection_id alert alert_id
            client).db.incidents
        ≡ active_count c a client.db.incidents
          + (if customer_id == c && alert_id == a then 1 else 0)
  unfolding insert_incident
  insert_incident-count alert alert_id c a client =
      active_count-snoc c a client.db.incidents _
      ∙ rw (new_incident-active alert _ alert_id (crypto.random_uuid client.drawn) c a)

  insert_incident-OneActive :
      (alert : Alert) (alert_id : String) (client : Client)
      → any (is_active_of customer_id alert_id) client.db.incidents ≡ false
      → OneActive client.db.incidents
      → OneActive
          (insert_incident crypto clocks is_zod_uuid customer_id connection_id alert alert_id
            client).db.incidents
  insert_incident-OneActive alert alert_id client none_active one c a =
      let counted = insert_incident-count alert alert_id c a client in
      let own = active_count_none customer_id alert_id client.db.incidents none_active in
      elim (Bool-cases (customer_id == c && alert_id == a)) [
        | inr other ↦ let counted' = rw other at counted in omega (arith, counted', one c a)
        | inl e ↦
            let counted' = rw e at counted in
            let same_customer : customer_id ≡ c = ground (arith, eq_iff customer_id c) in
            let same_alert : alert_id ≡ a = ground (arith, eq_iff alert_id a) in
            let none_here : active_count c a client.db.incidents ≡ 0 =
              rw (same_customer, same_alert) at own in
            omega (arith, counted', none_here)
      ]

  pub open_incidents-OneActive :
      (alert : Alert) (alert_id : String) (client : Client)
      → OneActive client.db.incidents
      → OneActive
          (open_incidents crypto clocks is_zod_uuid customer_id connection_id alert alert_id
            client).0.db.incidents
  unfolding open_incidents
  open_incidents-OneActive alert alert_id client one =
      elim (Bool-cases (opens crypto clocks is_zod_uuid customer_id connection_id alert)) [
        | inr other ↦ rw other one
        | inl critical_alert ↦
            elim (Bool-cases (any (is_active_of customer_id alert_id) client.db.incidents)) [
              | inl there ↦ rw (critical_alert, there) one
              | inr free ↦
                  rw (critical_alert, free)
                    (insert_incident-OneActive alert alert_id client free one)
            ]
      ]

  -- a critical alert that fires leaves an active incident
  pub open_incidents_active :
      (alert : Alert) (alert_id : String) (client : Client)
      → opens crypto clocks is_zod_uuid customer_id connection_id alert ≡ true
      → 1
        ≤ active_count customer_id alert_id
            (open_incidents crypto clocks is_zod_uuid customer_id connection_id alert alert_id
              client).0.db.incidents
  unfolding open_incidents
  open_incidents_active alert alert_id client critical_alert =
      elim (Bool-cases (any (is_active_of customer_id alert_id) client.db.incidents)) [
        | inl there ↦
            rw (critical_alert, there)
              (active_count_some customer_id alert_id client.db.incidents there)
        | inr free ↦
            let counted = insert_incident-count alert alert_id customer_id alert_id client in
            let counted' = rw (eq_refl customer_id, eq_refl alert_id) at counted in
            rw (critical_alert, free) (omega (arith, counted'))
      ]

  pub close_incidents-count :
      (alert : Alert) (alert_id c a : String) (client : Client)
      → active_count c a
          (close_incidents crypto clocks is_zod_uuid customer_id connection_id alert alert_id
            client).0.db.incidents
        ≤ active_count c a client.db.incidents
  unfolding close_incidents
  close_incidents-count alert alert_id c a client = elim (Bool-cases (is_firing alert.status)) [
    | inl fires ↦ rw fires (omega arith)
    | inr over ↦ rw over (active_count-recover_all alert alert_id c a client.db.incidents)
  ]

  pub close_incidents_none :
      (alert : Alert) (alert_id : String) (client : Client)
      → is_firing alert.status ≡ false
      → active_count customer_id alert_id
          (close_incidents crypto clocks is_zod_uuid customer_id connection_id alert alert_id
            client).0.db.incidents
        ≡ 0
  unfolding close_incidents
  close_incidents_none alert alert_id client over =
      rw over (active_count-recover_all_own alert alert_id client.db.incidents)

  pub close_incidents_same :
      (alert : Alert) (alert_id : String) (client : Client)
      → is_firing alert.status ≡ true
      → (close_incidents crypto clocks is_zod_uuid customer_id connection_id alert alert_id
          client).0
        ≡ client
  unfolding close_incidents
  close_incidents_same alert alert_id client fires = rw fires
