-- ===== src/Http/Guarded.antt =====
-- What must be in order before a request behind authentication changes anything.
use metricops_backend.Common.{
  ℕ, String, ◌≡◌, refl, sym, ap, ◌∙◌, Bool, true, false, ◌⊎◌, inl, inr, List, Option, none, some,
  string_eq, Bool-cases, arith,
}
use metricops_backend.Json.{Json}
use metricops_backend.Domain.Principal.{Permission, Principal, has_permission, authorize}
use metricops_backend.Effects.{Exec, Result, ok, thrown, bind_result-ok, ok-injective, continue}
use metricops_backend.Http.Answers.{Response}
use metricops_backend.Http.Routes.{
  Route, get_connections, post_connections, post_validation_jobs, post_discovery_jobs,
  get_job_by_id, post_resources, get_resources, post_metrics_query, get_alerts, get_incidents,
  post_acknowledge, post_resolve, get_operations_report, get_audit_events, post_customers,
  post_revoke, no_route, required, HttpRequest, Schemas, Services,
}
use metricops_backend.Http.Application.{
  handle, prepare, permitted, allow_origin, assign_request_id, respond, caught, handled, parse_uuid,
  require_idempotency_key,
}

-- the routes that the program makes safe to repeat
unfoldable pub takes_key : Route → Bool
takes_key post_connections = true
takes_key (post_validation_jobs id) = true
takes_key (post_discovery_jobs id) = true
takes_key post_resources = true
takes_key (post_acknowledge id) = true
takes_key (post_resolve id) = true
takes_key _ = false

module _ {S : Type 0} (schemas : Schemas) (services : Services S) where
  -- A known caller with a live session and the route's permission, and an idempotency key where
  -- the route takes one.
  pub record IsGuarded (route : Route) (request : HttpRequest) (s : S) : Type 0 where
    pub principal : Principal
    pub authenticated : services.authenticate request.authorization ≡ ok principal
    pub active : services.assert_active principal s ≡ ok tt
    pub allowed : (p : Permission) → required route ≡ some p → has_permission principal p ≡ true
    pub keyed :
        takes_key route ≡ true
        → (key : String) × (request.idempotency_key ≡ some key) × (schemas.uuid key ≡ true)

  permitted-allowed :
      (o : Option Permission) (principal : Principal)
      → permitted o principal ≡ ok tt
      → (p : Permission) → o ≡ some p
      → has_permission principal p ≡ true
  unfolding authorize
  permitted-allowed none principal h p e = absurd (cc e)
  permitted-allowed (some q) principal h p e = elim (Bool-cases (has_permission principal q)) [
    | inl held ↦ rw (sym (some-injective q p e)) held
    | inr missing ↦ absurd (cc (rw (authorize, missing) at h))
  ]
    where
      some-injective : {A : Type 0} (a b : A) → some a ≡ some b → a ≡ b
      some-injective a b e' = ap (λ x. elim x [ none ↦ a | some z ↦ z ]) e'

  Keyed : HttpRequest → Type 0
  Keyed request = (key : String) × (request.idempotency_key ≡ some key) × (schemas.uuid key ≡ true)

  require_idempotency_key-Keyed :
      (request : HttpRequest) (key : String)
      → require_idempotency_key schemas request.idempotency_key ≡ ok key
      → Keyed request
  unfolding Keyed require_idempotency_key
  require_idempotency_key-Keyed request key h = supplied_key request.idempotency_key h
    where
      supplied_key :
          (supplied : Option String)
          → require_idempotency_key schemas supplied ≡ ok key
          → (k : String) × (supplied ≡ some k) × (schemas.uuid k ≡ true)
      supplied_key none e = absurd (cc e)
      supplied_key (some k) e = (k, refl, ground (arith, e))

  module _ (now : ℕ) where
    -- a check that may throw before the key is asked for
    step :
        {A B : Type 0} {Q : Type 0} (r : Result A) (f : A → Exec S B) (s : S)
        → ((a : A) → r ≡ ok a → ((f a s).1 ≡ s) ⊎ Q)
        → ((continue r f s).1 ≡ s) ⊎ Q
    step (ok a) f s next = next a refl
    step (thrown t) f s next = inl refl

    handle-Keyed :
        (request : HttpRequest) (id : String) (p : Principal) (body : Option Json) (route : Route)
        (s : S)
        → takes_key route ≡ true
        → ((handle schemas services now request id p body route s).1 ≡ s) ⊎ Keyed request
    unfolding handle takes_key
    handle-Keyed request id p body post_connections s h =
        step (require_idempotency_key schemas request.idempotency_key) _ s
          (λ key e. inr (require_idempotency_key-Keyed request key e))
    handle-Keyed request id p body (post_validation_jobs c) s h =
        step (parse_uuid schemas c) _ s (λ c' _.
          step (require_idempotency_key schemas request.idempotency_key) _ s
            (λ key e. inr (require_idempotency_key-Keyed request key e)))
    handle-Keyed request id p body (post_discovery_jobs c) s h =
        step (parse_uuid schemas c) _ s (λ c' _.
          step (require_idempotency_key schemas request.idempotency_key) _ s
            (λ key e. inr (require_idempotency_key-Keyed request key e)))
    handle-Keyed request id p body post_resources s h =
        step (require_idempotency_key schemas request.idempotency_key) _ s
          (λ key e. inr (require_idempotency_key-Keyed request key e))
    handle-Keyed request id p body (post_acknowledge i) s h =
        step (parse_uuid schemas i) _ s (λ i' _.
          step (require_idempotency_key schemas request.idempotency_key) _ s
            (λ key e. inr (require_idempotency_key-Keyed request key e)))
    handle-Keyed request id p body (post_resolve i) s h = step (parse_uuid schemas i) _ s (λ i' _.
        step (require_idempotency_key schemas request.idempotency_key) _ s
          (λ key e. inr (require_idempotency_key-Keyed request key e)))
    handle-Keyed request id p body get_connections s h = absurd (cc h)
    handle-Keyed request id p body (get_job_by_id j) s h = absurd (cc h)
    handle-Keyed request id p body get_resources s h = absurd (cc h)
    handle-Keyed request id p body post_metrics_query s h = absurd (cc h)
    handle-Keyed request id p body get_alerts s h = absurd (cc h)
    handle-Keyed request id p body get_incidents s h = absurd (cc h)
    handle-Keyed request id p body get_operations_report s h = absurd (cc h)
    handle-Keyed request id p body get_audit_events s h = absurd (cc h)
    handle-Keyed request id p body post_customers s h = absurd (cc h)
    handle-Keyed request id p body post_revoke s h = absurd (cc h)
    handle-Keyed request id p body no_route s h = absurd (cc h)

    keyed_when :
        {T : Type 0} {Q : Type 0} (b : Bool) (x : T) (y : T)
        → (b ≡ true → (x ≡ y) ⊎ Q)
        → (x ≡ y) ⊎ (b ≡ true → Q)
    keyed_when true x y f = elim (f refl) [ inl same ↦ inl same | inr q ↦ inr (λ _. q) ]
    keyed_when false x y f = inr (λ e. absurd (cc e))

    module _ (spell : ℕ → String) (origins : List String) (route : Route)
        (request : HttpRequest) where
      -- what a request that is let through to its handler has shown
      prepare-ok :
          (s : S) (principal : Principal) (body : Option Json)
          → prepare spell origins schemas services now route request s ≡ ok (principal, body)
          → (services.authenticate request.authorization ≡ ok principal)
            × (services.assert_active principal s ≡ ok tt)
            × (permitted (required route) principal ≡ ok tt)
      unfolding prepare
      prepare-ok s principal body h =
          let (u, from_origin, h1) =
            bind_result-ok (allow_origin origins request.origin) _ (principal, body) h in
          let (read, parsed, h2) = bind_result-ok request.body _ (principal, body) h1 in
          let (known, authentic, h3) =
            bind_result-ok (services.authenticate request.authorization) _ (principal, body) h2 in
          let (v, live, h4) =
            bind_result-ok (services.assert_active known s) _ (principal, body) h3 in
          let (w, allowed, h5) =
            bind_result-ok (permitted (required route) known) _ (principal, body) h4 in
          let same : known ≡ principal =
            ap (λ q. q.0) (ok-injective (known, read) (principal, body) h5) in
          (authentic ∙ ap ok same, rw (sym same) live, rw (sym same) allowed)

      caught-state :
          (id : String) (out : Result Response × S)
          → (caught spell origins schemas services now id out).1 ≡ out.1
      caught-state id (ok response, s) = refl
      caught-state id (thrown t, s) = refl

      handled-IsGuarded :
          (id : String) (s : S) (prepared : Result (Principal × Option Json))
          → prepare spell origins schemas services now route request s ≡ prepared
          → ((handled spell origins schemas services now route request id prepared s).1 ≡ s)
            ⊎ IsGuarded route request s
      unfolding Keyed
      handled-IsGuarded id s (thrown t) h = inl refl
      handled-IsGuarded id s (ok (principal, body)) h =
          let (authenticated, active, allowed) = prepare-ok s principal body h in
          elim (keyed_when (takes_key route)
            (handle schemas services now request id principal body route s).1 s
            (handle-Keyed request id principal body route s)) [
              | inl same ↦ inl same
              | inr keyed ↦ inr (record {
                principal = principal;
                authenticated = authenticated;
                active = active;
                allowed = permitted-allowed (required route) principal allowed;
                keyed = keyed;
              })
            ]

      -- A request behind authentication changes nothing (past the identifier that it may be given)
      -- unless its caller is known, the session is live, the caller has the route's permission,
      -- and an idempotency key that is a UUID comes with it where the route takes one.
      pub respond-IsGuarded :
          (s : S)
          → ((respond spell origins schemas services now route request s).1
              ≡ (assign_request_id spell origins schemas services now request.request_id s).1)
            ⊎ IsGuarded route request
                (assign_request_id spell origins schemas services now request.request_id s).1
      unfolding respond
      respond-IsGuarded s =
          let start = assign_request_id spell origins schemas services now request.request_id s in
          let prepared = prepare spell origins schemas services now route request start.1 in
          elim (handled-IsGuarded start.0 start.1 prepared refl) [
            | inl same ↦ inl (
                caught-state start.0 (
                  handled spell origins schemas services now route request start.0 prepared start.1)
                ∙ same)
            | inr guarded ↦ inr guarded
          ]
