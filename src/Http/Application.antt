-- ===== src/Http/Application.antt =====
-- http/application.ts: the handlers, and the chain of what runs for a request.
use Prim.Native.String
use metricops_backend.Common.{
  ℕ, String, not, ◌&&◌, ◌||◌, List, [], ◌∷◌, Option, none, some, any, ◌==◌, string_eq,
  if◌then◌else◌,
}
use metricops_backend.Json.{Json, null, str, obj}
use metricops_backend.Domain.Errors.{forbidden, zod_error}
use metricops_backend.Domain.Principal.{Permission, Principal, authorize}
use metricops_backend.Effects.{
  Exec, Result, ok, thrown, bind_result, lift, pure, throw, ◌>>=◌, ◌>>◌,
}
use metricops_backend.Metrics.Execute.{MetricsQueryInput}
use metricops_backend.Http.Answers.{Response, data_response, error_response}
use metricops_backend.Http.Queries.{metrics_query_issues, operations_report_issues, refined}
use metricops_backend.Http.Routes.{
  Route, get_connections, post_connections, post_validation_jobs, post_discovery_jobs,
  get_job_by_id, post_resources, get_resources, post_metrics_query, get_alerts, get_incidents,
  post_acknowledge, post_resolve, get_operations_report, get_audit_events, post_customers,
  post_revoke, no_route, required, HttpRequest, Schemas, Services, key_required, route_not_found,
  resolution_of, no_resolution, text_of, append_field, id_of,
}

module _ (schemas : Schemas) where
  -- `requireIdempotencyKey`, and the same lines in three handlers
  unfoldable pub require_idempotency_key : Option String → Result String
  require_idempotency_key none = thrown key_required
  require_idempotency_key (some key) =
      if key == "" || not (schemas.uuid key) then thrown key_required else ok key

  -- `uuidSchema.parse`
  unfoldable pub parse_uuid : String → Result String
  parse_uuid id = if schemas.uuid id then ok id else thrown (zod_error schemas.uuid_issues)

  -- a metrics query's shape, and then its refinements
  unfoldable pub parse_metrics_query : ℕ → Option Json → Result MetricsQueryInput
  parse_metrics_query now body = bind_result (schemas.metrics_query body) (λ input.
      refined
        (metrics_query_issues now (schemas.read_date input.start) (schemas.read_date input.end_text)
          input.step_seconds)
        input)

  unfoldable pub parse_report_period : ℕ → Option Json → Option Json → Result (ℕ × ℕ)
  parse_report_period now start end_time =
      bind_result (schemas.report_period start end_time) (λ period.
        refined
          (operations_report_issues now (schemas.read_date period.0) (schemas.read_date period.1))
          (schemas.read_date period.0, schemas.read_date period.1))

  module _ {S : Type 0} (services : Services S) (now : ℕ) (request : HttpRequest)
      (request_id : String) (principal : Principal) (body : Option Json) where
    abbrev answered : ℕ → Exec S Json → Exec S Response
    answered status work = do value ← work; pure (data_response status request_id value)

    -- `response.status(202).location(…)`
    abbrev queued_at : Exec S Json → Exec S Response
    queued_at work = do
      value ← work
      pure (record (data_response 202 request_id value) {
        location = some (String.◌++◌ "/api/v1/jobs/" (id_of value));
      })

    abbrev with_key : (String → Exec S Response) → Exec S Response
    with_key next = do key ← lift (require_idempotency_key request.idempotency_key); next key

    abbrev with_limit : (ℕ → Exec S Json) → Exec S Response
    with_limit next = do limit ← lift (schemas.list_limit request.limit); answered 200 (next limit)

    -- the handler of each route
    unfoldable pub handle : Route → Exec S Response
    handle get_connections = with_limit (services.list_connections principal)
    handle post_connections = with_key (λ key. do
      input ← lift (schemas.create_connection body)
      answered 201 (services.create_connection principal input key request_id))
    handle (post_validation_jobs id) = do
      connection_id ← lift (parse_uuid id)
      with_key
          (λ key. queued_at (services.enqueue_validation principal connection_id key request_id))
    handle (post_discovery_jobs id) = do
      connection_id ← lift (parse_uuid id)
      with_key
          (λ key. queued_at (services.enqueue_discovery principal connection_id key request_id))
    handle (get_job_by_id id) = do
      job_id ← lift (parse_uuid id)
      answered 200 (services.get_job principal job_id)
    handle post_resources = with_key (λ key. do
      input ← lift (schemas.create_resource body)
      answered 201 (services.create_resource principal input key request_id))
    handle get_resources = do
      limit ← lift (schemas.list_limit request.limit)
      fields ← services.list_resources principal limit (text_of request.cursor)
      pure (record (data_response 200 request_id null) {
        body = some (obj (append_field fields "requestId" (str request_id)));
      })
    handle post_metrics_query = do
      input ← lift (parse_metrics_query now body)
      answered 200 (services.query_metrics principal input request_id)
    handle get_alerts = with_limit (services.list_alerts principal)
    handle get_incidents = with_limit (services.list_incidents principal)
    handle (post_acknowledge id) = do
      incident_id ← lift (parse_uuid id)
      with_key (λ key. do
        input ← lift (schemas.incident_transition body)
        lift (no_resolution input.resolution)
        answered 200 (
            services.acknowledge principal incident_id input.version input.assignee key request_id))
    handle (post_resolve id) = do
      incident_id ← lift (parse_uuid id)
      with_key (λ key. do
        input ← lift (schemas.incident_transition body)
        resolution ← lift (resolution_of input.resolution)
        answered 200
            (services.resolve principal incident_id input.version resolution key request_id))
    handle get_operations_report = do
      period ← lift (parse_report_period now request.start request.end_time)
      answered 200 (services.report principal period.0 period.1 request_id)
    handle get_audit_events = with_limit (services.list_audit principal)
    handle post_customers = do
      name ← lift (schemas.create_customer body)
      answered 201 (services.create_customer principal name request_id)
    handle post_revoke = do
      services.revoke_current principal request_id
      pure (record { status = 204; location = none; body = none; logged = none })
    handle no_route = throw route_not_found

abbrev pub allow_origin : List String → Option String → Result (Unit {0})
allow_origin origins none = ok tt
allow_origin origins (some origin) =
    if origin == "" || any (λ o. o == origin) origins then ok tt else thrown forbidden

abbrev pub permitted : Option Permission → Principal → Result (Unit {0})
permitted none principal = ok tt
permitted (some permission) principal = authorize principal permission

-- `origins` are `config.corsOrigins`, `spell` the text of a number
module _ (spell : ℕ → String) (origins : List String) (schemas : Schemas) {S : Type 0}
    (services : Services S) (now : ℕ) where
  -- the caller's identifier of the request, or a new one
  unfoldable pub assign_request_id : Option String → S → String × S
  assign_request_id none s = services.random_uuid s
  assign_request_id (some supplied) s =
      if not (supplied == "") && schemas.uuid supplied
      then (supplied, s)
      else services.random_uuid s

  -- what is read and checked before a handler runs
  unfoldable pub prepare : Route → HttpRequest → S → Result (Principal × Option Json)
  prepare route request s = bind_result (allow_origin origins request.origin) (λ _.
      bind_result request.body (λ body.
        bind_result (services.authenticate request.authorization) (λ principal.
          bind_result (services.assert_active principal s)
            (λ _. bind_result (permitted (required route) principal) (λ _. ok (principal, body))))))

  abbrev pub handled :
      Route → HttpRequest → String → Result (Principal × Option Json) → Exec S Response
  handled route request request_id (thrown t) s = (thrown t, s)
  handled route request request_id (ok prepared) s =
      handle schemas services now request request_id prepared.0 prepared.1 route s

  -- `errorHandler` at the end of the chain
  abbrev pub caught : String → Result Response × S → Response × S
  caught request_id (ok response, s) = (response, s)
  caught request_id (thrown t, s) = (error_response spell request_id t, s)

  unfoldable pub respond : Route → HttpRequest → S → Response × S
  respond route request s =
      let (request_id, s') = assign_request_id request.request_id s in
      caught request_id (handled route request request_id (prepare route request s') s')

  -- requests that are answered one after another
  unfoldable pub serve : List (Route × HttpRequest) → S → List Response × S
  serve [] s = ([], s)
  serve (call ∷ rest) s =
      let (response, s') = respond call.0 call.1 s in
      let (responses, s'') = serve rest s' in (response ∷ responses, s'')
