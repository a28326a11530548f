-- ===== src/Discovery/Marked.antt =====
-- What a discovery leaves in the table resources.
use metricops_backend.Common.{
  ℕ, ◌+◌, String, ◌≡◌, refl, ◌∙◌, Bool, true, false, not, ◌&&◌, List, [], ◌∷◌, filter, any, All,
  string_eq, eq_refl, arith, Bool-cases, inl, inr,
}
use metricops_backend.Database.Tables.{ResourceRow}
use metricops_backend.Discovery.{
  DiscoveredResource, of_source, is_job, inserted, refreshed, same_resource, upsert, upsert_all,
  is_gone, mark_missing,
}

module _ (customer_id source job_id actor_id : String) (now : ℕ) where
  abbrev pub is_foreign : ResourceRow → Bool
  is_foreign row = not (of_source customer_id source row)

  -- a row of the source is active only if this job discovered it
  abbrev pub IsCurrent : ResourceRow → Type 0
  IsCurrent row =
      of_source customer_id source row ≡ true
      → row.is_missing ≡ false
      → is_job job_id row.last_discovery_job_id ≡ true

  mark_missing-IsCurrent :
      (rows : List ResourceRow)
      → All IsCurrent (mark_missing customer_id source job_id actor_id now rows).0
  unfolding mark_missing is_gone
  mark_missing-IsCurrent [] = tt
  mark_missing-IsCurrent (row ∷ rows) =
      elim (Bool-cases (is_gone customer_id source job_id actor_id now row)) [
        | inl gone ↦ rw gone ((λ h k. cc), mark_missing-IsCurrent rows)
        | inr stays ↦ rw stays ((λ h k. ground arith), mark_missing-IsCurrent rows)
      ]

  mark_missing-foreign :
      (rows : List ResourceRow)
      → filter is_foreign (mark_missing customer_id source job_id actor_id now rows).0
        ≡ filter is_foreign rows
  unfolding mark_missing is_gone
  mark_missing-foreign [] = refl
  mark_missing-foreign (row ∷ rows) = ground (arith, mark_missing-foreign rows)

  inserted-own :
      (resource : DiscoveredResource) (id : String)
      → is_foreign (inserted customer_id source job_id actor_id now resource id) ≡ false
  unfolding inserted
  inserted-own resource id = rw (eq_refl customer_id, eq_refl source)

  upsert-foreign :
      (resource : DiscoveredResource) (id : String) (rows : List ResourceRow)
      → filter is_foreign (upsert customer_id source job_id actor_id now resource id rows)
        ≡ filter is_foreign rows
  unfolding upsert refreshed
  upsert-foreign resource id [] = rw (inserted-own resource id)
  upsert-foreign resource id (row ∷ rows) = ground (arith, upsert-foreign resource id rows)

  upsert_all-foreign :
      (random_uuid : ℕ → String) (resources : List DiscoveredResource) (drawn : ℕ)
      (rows : List ResourceRow)
      → filter is_foreign
          (upsert_all customer_id source job_id actor_id now random_uuid resources drawn rows)
        ≡ filter is_foreign rows
  unfolding upsert_all
  upsert_all-foreign random_uuid [] drawn rows = refl
  upsert_all-foreign random_uuid (resource ∷ rest) drawn rows =
      upsert_all-foreign random_uuid rest (drawn + 1) _
      ∙ upsert-foreign resource (random_uuid drawn) rows

  -- After the resources of a discovery were taken over and the others marked, a row of the source
  -- is active only if this job discovered it, and the rows of other customers and sources stand as
  -- before, in their order.
  pub discovery-IsCurrent :
      (random_uuid : ℕ → String) (resources : List DiscoveredResource) (drawn : ℕ)
      (rows : List ResourceRow)
      → All IsCurrent
          (mark_missing customer_id source job_id actor_id now
            (upsert_all customer_id source job_id actor_id now random_uuid resources drawn rows)).0
        × (filter is_foreign
              (mark_missing customer_id source job_id actor_id now (
                upsert_all customer_id source job_id actor_id now random_uuid resources drawn
                  rows)).0
            ≡ filter is_foreign rows)
  discovery-IsCurrent random_uuid resources drawn rows = (
    mark_missing-IsCurrent _,
    mark_missing-foreign _ ∙ upsert_all-foreign random_uuid resources drawn rows,
  )

  -- a row that shows the resource, discovered by this job and active
  abbrev pub shows : DiscoveredResource → ResourceRow → Bool
  shows resource row =
      same_resource customer_id source job_id actor_id now resource row
      && not row.is_missing
      && is_job job_id row.last_discovery_job_id

  upsert-shows :
      (resource : DiscoveredResource) (id : String) (rows : List ResourceRow)
      → any (shows resource) (upsert customer_id source job_id actor_id now resource id rows) ≡ true
  unfolding upsert refreshed inserted
  upsert-shows resource id [] =
      rw (eq_refl customer_id, eq_refl source, eq_refl resource.provider_id, eq_refl job_id)
  upsert-shows resource id (row ∷ rows) =
      ground (arith, upsert-shows resource id rows, eq_refl job_id)

  upsert-keeps_shows :
      (resource other : DiscoveredResource) (id : String) (rows : List ResourceRow)
      → any (shows other) rows ≡ true
      → any (shows other) (upsert customer_id source job_id actor_id now resource id rows) ≡ true
  unfolding upsert refreshed
  upsert-keeps_shows resource other id [] h = cc
  upsert-keeps_shows resource other id (row ∷ rows) h =
      ground (arith, upsert-keeps_shows resource other id rows, eq_refl job_id)

  mark_missing-keeps_shows :
      (other : DiscoveredResource) (rows : List ResourceRow)
      → any (shows other) rows ≡ true
      → any (shows other) (mark_missing customer_id source job_id actor_id now rows).0 ≡ true
  unfolding mark_missing is_gone
  mark_missing-keeps_shows other [] h = cc
  mark_missing-keeps_shows other (row ∷ rows) h =
      ground (arith, mark_missing-keeps_shows other rows)

  upsert_all-keeps_shows :
      (random_uuid : ℕ → String) (resources : List DiscoveredResource) (other : DiscoveredResource)
      (drawn : ℕ) (rows : List ResourceRow)
      → any (shows other) rows ≡ true
      → any
          (shows other)
          (upsert_all customer_id source job_id actor_id now random_uuid resources drawn rows)
        ≡ true
  unfolding upsert_all
  upsert_all-keeps_shows random_uuid [] other drawn rows h = h
  upsert_all-keeps_shows random_uuid (resource ∷ rest) other drawn rows h =
      upsert_all-keeps_shows random_uuid rest other (drawn + 1) _
        (upsert-keeps_shows resource other (random_uuid drawn) rows h)

  -- Each resource that a discovery found is shown afterwards by an active row of the source that
  -- this job discovered.
  pub discovery-shows :
      (random_uuid : ℕ → String) (resources : List DiscoveredResource) (drawn : ℕ)
      (rows : List ResourceRow)
      → All
          (λ resource.
            any
              (shows resource)
              (mark_missing customer_id source job_id actor_id now (
                upsert_all customer_id source job_id actor_id now random_uuid resources drawn
                  rows)).0
            ≡ true)
          resources
  unfolding upsert_all
  discovery-shows random_uuid [] drawn rows = tt
  discovery-shows random_uuid (resource ∷ rest) drawn rows = (
    mark_missing-keeps_shows resource _ (
        upsert_all-keeps_shows random_uuid rest resource (drawn + 1) _
          (upsert-shows resource (random_uuid drawn) rows)),
    discovery-shows random_uuid rest (drawn + 1)
        (upsert customer_id source job_id actor_id now resource (random_uuid drawn) rows),
  )
