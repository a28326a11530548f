-- ===== src/Jobs/Retry.antt =====
-- Queueing the same job again, and what queueing does to the audit log.
use metricops_backend.Common.{
  ℕ, ◌+◌, String, ◌≡◌, ◌≢◌, refl, sym, ap, ◌∙◌, Bool, true, false, ◌&&◌, List, [], ◌∷◌, ◌++◌,
  Option, none, some, find, arith, ◌==◌, string_eq, eq_iff, eq_refl, if◌then◌else◌, Option-cases,
  inl, inr,
}
use metricops_backend.Json.{Json}
use metricops_backend.Domain.Errors.{not_found}
use metricops_backend.Domain.Principal.{Principal}
use metricops_backend.Effects.{Exec, Result, ok, thrown, ok-injective}
use metricops_backend.Database.Tables.{
  Db, ConnectionRow, JobRow, JobKind, connection_validate, aws_discover,
}
use metricops_backend.Database.Transaction.{Crypto, Clocks, Client, Pool}
use metricops_backend.Database.Atomic.{begun, transaction_ok, unchanged}
use metricops_backend.Audit.{append}
use metricops_backend.Audit.Chain.{IsSound}
use metricops_backend.Audit.Committed.{
  IsExtended, IsExtended-refl, IsExtended-same, IsExtended-trans, IsExtended-append,
  with_tenant_transaction-IsSound,
}
use metricops_backend.Jobs.Queue.{same_kind}
use metricops_backend.Jobs.{
  job_view, is_target, has_key, existing_job, new_job, queued_audit, with_jobs, draw_id, insert_job,
  enqueue_work, context, enqueue,
}

-- a row that is added after a search that failed is what the search finds next
pub find-snoc :
    (p : JobRow → Bool) (jobs : List JobRow) (job : JobRow)
    → find p jobs ≡ none
    → p job ≡ true
    → find p (jobs ++ job ∷ []) ≡ some job
find-snoc p [] job h k = ground arith
find-snoc p (j ∷ jobs) job h k = ground (arith, find-snoc p jobs job)

same_kind_refl : (kind : JobKind) → same_kind kind kind ≡ true
same_kind_refl connection_validate = refl
same_kind_refl aws_discover = refl

module _ (crypto : Crypto) (key : String) (kind : JobKind)
    (connection_id idempotency_key : String) where
  module _ (principal : Principal) (clocks : Clocks) (request_id : String) where
    -- the job that a client would insert, and the client after it
    abbrev inserted_job : Client → JobRow
    inserted_job client =
        new_job crypto key clocks principal kind (crypto.random_uuid client.drawn) connection_id
          idempotency_key

    abbrev with_job : Client → Client
    with_job client =
        with_jobs (λ jobs. jobs ++ inserted_job client ∷ [])
          (draw_id crypto key clocks principal client)

    abbrev inserted : Client → Client
    inserted client =
        (append crypto key clocks
          (queued_audit crypto key clocks principal kind (crypto.random_uuid client.drawn)
            connection_id request_id)
          (with_job client)).1

    pub data Outcome (client : Client) (out : Result Json × Client) : Type 0 where
      missing :
          find (is_target kind principal.customer_id connection_id) client.db.connections ≡ none
          → out ≡ (thrown (not_found "Connection"), client)
          → Outcome client out
      found :
          (target : ConnectionRow) (job : JobRow)
          → find (is_target kind principal.customer_id connection_id) client.db.connections
            ≡ some target
          → find (has_key kind principal.customer_id idempotency_key) client.db.jobs ≡ some job
          → out ≡ (existing_job connection_id job, client)
          → Outcome client out
      added :
          (target : ConnectionRow)
          → find (is_target kind principal.customer_id connection_id) client.db.connections
            ≡ some target
          → find (has_key kind principal.customer_id idempotency_key) client.db.jobs ≡ none
          → out ≡ (ok (job_view (inserted_job client)), inserted client)
          → Outcome client out

    abbrev work : Exec Client Json
    work = enqueue_work crypto key clocks principal kind connection_id idempotency_key request_id

    enqueue_work-Outcome : (client : Client) → Outcome client (work client)
    unfolding enqueue_work insert_job append
    enqueue_work-Outcome client =
        elim (Option-cases
          (find (is_target kind principal.customer_id connection_id) client.db.connections)) [
            | inl absent ↦ missing absent (rw absent)
            | inr (target, here) ↦
                elim (Option-cases
                  (find (has_key kind principal.customer_id idempotency_key) client.db.jobs)) [
                    | inr (job, old) ↦ found target job here old (rw (here, old))
                    | inl free ↦ added target here free (rw (here, free))
                  ]
          ]

    Outcome-IsExtended :
        (client : Client) (out : Result Json × Client)
        → Outcome client out
        → IsExtended crypto key client out.1
    Outcome-IsExtended client out (missing absent h) = rw h (IsExtended-refl crypto key client)
    Outcome-IsExtended client out (found target job here old h) =
        rw h (IsExtended-refl crypto key client)
    Outcome-IsExtended client out (added target here free h) = rw h (
        IsExtended-trans crypto key client (with_job client) _
          (IsExtended-same crypto key client (with_job client) refl refl)
          (IsExtended-append crypto key clocks
            (queued_audit crypto key clocks principal kind (crypto.random_uuid client.drawn)
              connection_id request_id)
            (with_job client)))

    -- Queueing a job, whatever its outcome, keeps a sound audit log sound.
    pub enqueue-IsSound :
        (pool : Pool)
        → IsSound crypto key pool.server
        → IsSound crypto key
            (enqueue crypto key clocks principal kind connection_id idempotency_key request_id
              pool).1.server
    unfolding enqueue
    enqueue-IsSound pool s =
        with_tenant_transaction-IsSound crypto key (context crypto key clocks principal) work pool
          (Outcome-IsExtended (begun _ pool) _ (enqueue_work-Outcome (begun _ pool))) s

  -- what stands in the tables after a job was queued, or found to be queued
  record IsQueued (principal : Principal) (db : Db) (view : Json) : Type 0 where
    target : ConnectionRow
    usable : find (is_target kind principal.customer_id connection_id) db.connections ≡ some target
    job : JobRow
    stored : find (has_key kind principal.customer_id idempotency_key) db.jobs ≡ some job
    same : job.connection_id ≡ connection_id
    viewed : job_view job ≡ view

  existing_same :
      (job : JobRow) (view : Json)
      → existing_job connection_id job ≡ ok view
      → (job.connection_id ≡ connection_id) × (job_view job ≡ view)
  unfolding existing_job
  existing_same job view h =
      elim (metricops_backend.Common.Bool-cases (job.connection_id == connection_id)) [
        | inl e ↦ ((eq_iff job.connection_id connection_id).0 e, ok-injective _ view (rw e at h))
        | inr e ↦ absurd (cc (rw e at h))
      ]

  module _ (principal : Principal) (clocks : Clocks) (request_id : String) where
    again :
        (client : Client) (target : ConnectionRow) (job : JobRow) (view : Json)
        → find (is_target kind principal.customer_id connection_id) client.db.connections
          ≡ some target
        → find (has_key kind principal.customer_id idempotency_key) client.db.jobs ≡ some job
        → job.connection_id ≡ connection_id
        → job_view job ≡ view
        → work principal clocks request_id client ≡ (ok view, client)
    unfolding enqueue_work existing_job
    again client target job view here old same viewed =
        rw (here, old, (eq_iff job.connection_id connection_id).1 same, viewed)

  module _ (principal : Principal) (clocks : Clocks) (request_id : String) where
    inserted_job-has_key :
        (client : Client)
        → has_key kind principal.customer_id idempotency_key
            (inserted_job principal clocks request_id client)
          ≡ true
    unfolding new_job has_key
    inserted_job-has_key client =
        rw (eq_refl principal.customer_id, same_kind_refl kind, eq_refl idempotency_key)

    inserted-jobs :
        (client : Client)
        → (inserted principal clocks request_id client).db.jobs
          ≡ client.db.jobs ++ inserted_job principal clocks request_id client ∷ []
    unfolding append
    inserted-jobs client = refl

    inserted-connections :
        (client : Client)
        → (inserted principal clocks request_id client).db.connections ≡ client.db.connections
    unfolding append
    inserted-connections client = refl

    inserted_job-connection :
        (client : Client)
        → (inserted_job principal clocks request_id client).connection_id ≡ connection_id
    unfolding new_job
    inserted_job-connection client = refl

    Outcome-IsQueued :
        (client client' : Client) (view : Json) (out : Result Json × Client)
        → out ≡ (ok view, client')
        → Outcome principal clocks request_id client out
        → IsQueued principal client'.db view
    Outcome-IsQueued client client' view out e (missing absent h) =
        cc (ap (λ p. p.0) e, ap (λ p. p.0) h)
    Outcome-IsQueued client client' view out e (found target job here old h) =
        let at_end : client ≡ client' = ap (λ p. p.1) (sym h ∙ e) in
        let (same, viewed) = existing_same job view (ap (λ p. p.0) (sym h ∙ e)) in
        record {
          target = target;
          usable = rw at_end at here;
          job = job;
          stored = rw at_end at old;
          same = same;
          viewed = viewed;
        }
    Outcome-IsQueued client client' view out e (added target here free h) =
        let at_end : inserted principal clocks request_id client ≡ client' =
          ap (λ p. p.1) (sym h ∙ e) in
        record {
          target = target;
          usable = rw (sym at_end, inserted-connections client) here;
          job = inserted_job principal clocks request_id client;
          stored =
              rw (sym at_end, inserted-jobs client)
                (find-snoc (has_key kind principal.customer_id idempotency_key) client.db.jobs
                  (inserted_job principal clocks request_id client) free
                  (inserted_job-has_key client));
          same = inserted_job-connection client;
          viewed = ok-injective _ view (ap (λ p. p.0) (sym h ∙ e));
        }

    -- Straight after a job was queued, or found under its key, queueing the same kind of job for the
    -- same connection under the same key, by any user of the customer and at any time, is answered
    -- the same view and changes no table.
    pub enqueue-retry :
        (pool pool' : Pool) (view : Json) (subject' : String) (clocks' : Clocks)
        (request_id' : String)
        → enqueue crypto key clocks principal kind connection_id idempotency_key request_id pool
          ≡ (ok view, pool')
        → ((enqueue crypto key clocks'
              (record principal { subject = subject' })
              kind
              connection_id
              idempotency_key
              request_id'
              pool').0
            ≡ ok view)
          × ((enqueue crypto key clocks'
                (record principal { subject = subject' })
                kind
                connection_id
                idempotency_key
                request_id'
                pool').1.db
              ≡ pool'.db)
    unfolding enqueue
    enqueue-retry pool pool' view subject' clocks' request_id' h =
        let (returned, tables) =
          transaction_ok (context crypto key clocks principal) (work principal clocks request_id)
            pool pool' view h in
        let q =
          Outcome-IsQueued (begun _ pool) _ view _ returned
            (enqueue_work-Outcome principal clocks request_id (begun _ pool)) in
        unchanged (context crypto key clocks' (record principal { subject = subject' }))
          (work (record principal { subject = subject' }) clocks' request_id') pool' (ok view)
          (again (record principal { subject = subject' }) clocks' request_id' (begun _ pool')
            q.target q.job view
            (ap (λ d. find (is_target kind principal.customer_id connection_id) d.connections)
                tables
              ∙ q.usable)
            (ap (λ d. find (has_key kind principal.customer_id idempotency_key) d.jobs) tables
              ∙ q.stored)
            q.same q.viewed)
