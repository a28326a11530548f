-- ===== src/Http/Preserved.antt =====
-- What holds of the state whatever requests come, when every service keeps it.
use metricops_backend.Common.{
  ℕ, String, not, ◌&&◌, inl, inr, List, [], ◌∷◌, Option, none, some, ◌==◌, string_eq, Bool-cases,
}
use metricops_backend.Json.{Json}
use metricops_backend.Domain.Principal.{Principal}
use metricops_backend.Effects.{Exec, Result, ok, thrown, continue}
use metricops_backend.Connections.{CreateConnectionInput}
use metricops_backend.Resources.{CreateResourceInput}
use metricops_backend.Incidents.{TransitionInput}
use metricops_backend.Metrics.Execute.{MetricsQueryInput}
use metricops_backend.Http.Answers.{Response}
use metricops_backend.Http.Routes.{
  Route, get_connections, post_connections, post_validation_jobs, post_discovery_jobs,
  get_job_by_id, post_resources, get_resources, post_metrics_query, get_alerts, get_incidents,
  post_acknowledge, post_resolve, get_operations_report, get_audit_events, post_customers,
  post_revoke, no_route, HttpRequest, Schemas, Services, text_of, no_resolution, resolution_of,
}
use metricops_backend.Http.Application.{
  handle, prepare, assign_request_id, respond, serve, caught, handled, parse_uuid,
  parse_metrics_query, parse_report_period, require_idempotency_key,
}

-- a service keeps a property of the state, also when it throws
abbrev pub Keeps : {S A : Type 0} → (S → Type 0) → Exec S A → Type 0
Keeps {S} P op = (s : S) → P s → P (op s).1

pub record Preserves {S : Type 0} (P : S → Type 0) (services : Services S) : Type 0 where
  pub random_uuid : (s : S) → P s → P (services.random_uuid s).1
  pub list_connections : (p : Principal) (limit : ℕ) → Keeps P (services.list_connections p limit)
  pub create_connection :
      (p : Principal) (input : CreateConnectionInput) (key id : String)
      → Keeps P (services.create_connection p input key id)
  pub enqueue_validation :
      (p : Principal) (c key id : String) → Keeps P (services.enqueue_validation p c key id)
  pub enqueue_discovery :
      (p : Principal) (c key id : String) → Keeps P (services.enqueue_discovery p c key id)
  pub get_job : (p : Principal) (j : String) → Keeps P (services.get_job p j)
  pub create_resource :
      (p : Principal) (input : CreateResourceInput) (key id : String)
      → Keeps P (services.create_resource p input key id)
  pub list_resources :
      (p : Principal) (limit : ℕ) (cursor : Option String)
      → Keeps P (services.list_resources p limit cursor)
  pub query_metrics :
      (p : Principal) (input : MetricsQueryInput) (id : String)
      → Keeps P (services.query_metrics p input id)
  pub list_alerts : (p : Principal) (limit : ℕ) → Keeps P (services.list_alerts p limit)
  pub list_incidents : (p : Principal) (limit : ℕ) → Keeps P (services.list_incidents p limit)
  pub acknowledge :
      (p : Principal) (i : String) (version : ℕ) (assignee : Option String) (key id : String)
      → Keeps P (services.acknowledge p i version assignee key id)
  pub resolve :
      (p : Principal) (i : String) (version : ℕ) (resolution key id : String)
      → Keeps P (services.resolve p i version resolution key id)
  pub report :
      (p : Principal) (start end_time : ℕ) (id : String)
      → Keeps P (services.report p start end_time id)
  pub list_audit : (p : Principal) (limit : ℕ) → Keeps P (services.list_audit p limit)
  pub create_customer :
      (p : Principal) (name id : String) → Keeps P (services.create_customer p name id)
  pub revoke_current : (p : Principal) (id : String) → Keeps P (services.revoke_current p id)

module _ {S : Type 0} (P : S → Type 0) where
  -- a check that may throw, and what follows it
  step :
      {A B : Type 0} (r : Result A) (f : A → Exec S B) (s : S)
      → P s
      → ((a : A) → P (f a s).1)
      → P (continue r f s).1
  step (ok a) f s h next = next a
  step (thrown t) f s h next = h

  -- a service's answer that is wrapped in a response
  run :
      {A B : Type 0} (op : Exec S A) (f : A → B) (s : S)
      → P (op s).1
      → P (continue (op s).0 (λ a s'. (ok (f a), s')) (op s).1).1
  run {A = A} op f s h = wrapped (op s).0
    where
      wrapped : (r : Result A) → P (continue r (λ a s'. (ok (f a), s')) (op s).1).1
      wrapped (ok a) = h
      wrapped (thrown t) = h

  module _ (spell : ℕ → String) (origins : List String) (schemas : Schemas) (services : Services S)
      (now : ℕ) (keeps : Preserves P services) where
    handle-Keeps :
        (request : HttpRequest) (id : String) (p : Principal) (body : Option Json) (route : Route)
        (s : S)
        → P s
        → P (handle schemas services now request id p body route s).1
    unfolding handle
    handle-Keeps request id p body get_connections s h =
        step (schemas.list_limit request.limit) _ s h (λ limit.
          run (services.list_connections p limit) _ s (keeps.list_connections p limit s h))
    handle-Keeps request id p body post_connections s h =
        step (require_idempotency_key schemas request.idempotency_key) _ s h (λ key.
          step (schemas.create_connection body) _ s h (λ input.
            run (services.create_connection p input key id) _ s
              (keeps.create_connection p input key id s h)))
    handle-Keeps request id p body (post_validation_jobs c) s h =
        step (parse_uuid schemas c) _ s h (λ c'.
          step (require_idempotency_key schemas request.idempotency_key) _ s h (λ key.
            run (services.enqueue_validation p c' key id) _ s
              (keeps.enqueue_validation p c' key id s h)))
    handle-Keeps request id p body (post_discovery_jobs c) s h =
        step (parse_uuid schemas c) _ s h (λ c'.
          step (require_idempotency_key schemas request.idempotency_key) _ s h (λ key.
            run (services.enqueue_discovery p c' key id) _ s
              (keeps.enqueue_discovery p c' key id s h)))
    handle-Keeps request id p body (get_job_by_id j) s h =
        step (parse_uuid schemas j) _ s h
          (λ j'. run (services.get_job p j') _ s (keeps.get_job p j' s h))
    handle-Keeps request id p body post_resources s h =
        step (require_idempotency_key schemas request.idempotency_key) _ s h (λ key.
          step (schemas.create_resource body) _ s h (λ input.
            run (services.create_resource p input key id) _ s
              (keeps.create_resource p input key id s h)))
    handle-Keeps request id p body get_resources s h =
        step (schemas.list_limit request.limit) _ s h (λ limit.
          run (services.list_resources p limit (text_of request.cursor)) _ s
            (keeps.list_resources p limit (text_of request.cursor) s h))
    handle-Keeps request id p body post_metrics_query s h =
        step (parse_metrics_query schemas now body) _ s h (λ input.
          run (services.query_metrics p input id) _ s (keeps.query_metrics p input id s h))
    handle-Keeps request id p body get_alerts s h =
        step (schemas.list_limit request.limit) _ s h
          (λ limit. run (services.list_alerts p limit) _ s (keeps.list_alerts p limit s h))
    handle-Keeps request id p body get_incidents s h =
        step (schemas.list_limit request.limit) _ s h
          (λ limit. run (services.list_incidents p limit) _ s (keeps.list_incidents p limit s h))
    handle-Keeps request id p body (post_acknowledge i) s h =
        step (parse_uuid schemas i) _ s h (λ i'.
          step (require_idempotency_key schemas request.idempotency_key) _ s h (λ key.
            step (schemas.incident_transition body) _ s h (λ (input : TransitionInput).
              step (no_resolution input.resolution) _ s h (λ u.
                run (services.acknowledge p i' input.version input.assignee key id) _ s
                  (keeps.acknowledge p i' input.version input.assignee key id s h)))))
    handle-Keeps request id p body (post_resolve i) s h = step (parse_uuid schemas i) _ s h (λ i'.
        step (require_idempotency_key schemas request.idempotency_key) _ s h (λ key.
          step (schemas.incident_transition body) _ s h (λ (input : TransitionInput).
            step (resolution_of input.resolution) _ s h (λ resolution.
              run (services.resolve p i' input.version resolution key id) _ s
                (keeps.resolve p i' input.version resolution key id s h)))))
    handle-Keeps request id p body get_operations_report s h =
        step (parse_report_period schemas now request.start request.end_time) _ s h
          (λ (period : ℕ × ℕ).
            run (services.report p period.0 period.1 id) _ s
              (keeps.report p period.0 period.1 id s h))
    handle-Keeps request id p body get_audit_events s h =
        step (schemas.list_limit request.limit) _ s h
          (λ limit. run (services.list_audit p limit) _ s (keeps.list_audit p limit s h))
    handle-Keeps request id p body post_customers s h =
        step (schemas.create_customer body) _ s h (λ name.
          run (services.create_customer p name id) _ s (keeps.create_customer p name id s h))
    handle-Keeps request id p body post_revoke s h =
        run (services.revoke_current p id) _ s (keeps.revoke_current p id s h)
    handle-Keeps request id p body no_route s h = h

    assign_request_id-Keeps :
        (supplied : Option String) (s : S)
        → P s
        → P (assign_request_id spell origins schemas services now supplied s).1
    unfolding assign_request_id
    assign_request_id-Keeps none s h = keeps.random_uuid s h
    assign_request_id-Keeps (some supplied) s h =
        elim (Bool-cases (not (supplied == "") && schemas.uuid supplied)) [
          | inl given ↦ rw (assign_request_id, given) h
          | inr other ↦ rw (assign_request_id, other) (keeps.random_uuid s h)
        ]

    handled-Keeps :
        (route : Route) (request : HttpRequest) (id : String)
        (prepared : Result (Principal × Option Json))
        → Keeps P (handled spell origins schemas services now route request id prepared)
    handled-Keeps route request id (thrown t) s h = h
    handled-Keeps route request id (ok prepared) s h =
        handle-Keeps request id prepared.0 prepared.1 route s h

    caught-Keeps :
        (id : String) (out : Result Response × S)
        → P out.1
        → P (caught spell origins schemas services now id out).1
    caught-Keeps id (ok response, s) h = h
    caught-Keeps id (thrown t, s) h = h

    -- What every service keeps, every request keeps, however it is answered.
    pub respond-Keeps :
        (route : Route) (request : HttpRequest) (s : S)
        → P s
        → P (respond spell origins schemas services now route request s).1
    unfolding respond
    respond-Keeps route request s h =
        let start = assign_request_id spell origins schemas services now request.request_id s in
        caught-Keeps start.0
          (handled spell origins schemas services now route request start.0
            (prepare spell origins schemas services now route request start.1) start.1)
          (handled-Keeps route request start.0
            (prepare spell origins schemas services now route request start.1) start.1
            (assign_request_id-Keeps request.request_id s h))

    -- What every service keeps, a run of requests keeps.
    pub serve-Keeps :
        (calls : List (Route × HttpRequest)) (s : S)
        → P s
        → P (serve spell origins schemas services now calls s).1
    unfolding serve
    serve-Keeps [] s h = h
    serve-Keeps (call ∷ rest) s h =
        serve-Keeps rest (respond spell origins schemas services now call.0 call.1 s).1
          (respond-Keeps call.0 call.1 s h)
