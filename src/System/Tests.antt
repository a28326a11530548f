-- ===== src/System/Tests.antt =====
-- A platform administrator creates a customer, and the log is verified.
use metricops_backend.Common.{
  ◌<◌, ◌≡◌, ◌⊎◌, String, refl, true, [], ◌∷◌, none, some, arith, length, codes,
}
use metricops_backend.Common.Patterns.{is_uuid, matches}
use metricops_backend.Json.{null, str, num, arr, obj, nil, cons, end}
use metricops_backend.Json.Printer.{canonical_json}
use metricops_backend.Domain.Errors.{plain_error, unauthorized}
use metricops_backend.Domain.Principal.{authorize, has_permission}
use metricops_backend.Effects.{Result, ok, thrown}
use metricops_backend.Database.Tables.{empty_db, Db}
use metricops_backend.Database.Sample.{toy_crypto, noon, one_o_clock, ann, pool_with}
use metricops_backend.Audit.{
  append, sealed, newest, digest, event_body, get, set, verify_event, verify_from, digest_failed,
}
use metricops_backend.Audit.Chain.{Misspelled}
use metricops_backend.Security.Authentication.{
  JwtPayload, permission_of, add, collect, is_exclusive, principal_of, claims_to_principal,
}
use metricops_backend.Security.Authentication.Bearer.{strip_prefix, bearer_token, authenticate}
use metricops_backend.Security.Sessions.{assert_active, token_hash}
use metricops_backend.Customers.{create_work, create_customer}
use metricops_backend.Alerts.Ingest.{WebhookRuntime}
use metricops_backend.Worker.{WorkerRuntime}
use metricops_backend.Worker.Maintenance.{run_maintenance, run_maintenance-assert_active}
use metricops_backend.Operations.{Report, verify_audit_log}
use metricops_backend.Http.Answers.{Response, data_response}
use metricops_backend.Http.Routes.{post_customers, HttpRequest, Schemas, required}
use metricops_backend.Http.Application.{handle, assign_request_id, prepare, respond}
use metricops_backend.Http.Guarded.{IsGuarded, respond-IsGuarded}
use metricops_backend.System.{App, ServerRuntime, metricops}
use metricops_backend.System.Steps.{Steps, done, next, request}
use metricops_backend.System.Verified.{running-verifies}

creation : Unit {0}
unfolding is_uuid get set verify_event verify_from matches authorize has_permission append sealed
    newest digest event_body canonical_json toy_crypto permission_of add collect is_exclusive
    principal_of claims_to_principal strip_prefix bearer_token authenticate assert_active token_hash
    create_work create_customer required handle data_response assign_request_id prepare respond
    metricops
creation = tt

abbrev customer : String
customer = "123e4567-e89b-42d3-a456-426614174000"

abbrev administrator : JwtPayload
administrator = record {
  sub = some (str "root");
  jti = some (str "t1");
  exp = some (num 1700009999);
  customer_id = some (str customer);
  permissions = some (arr (cons (str "platform:admin") nil));
}

abbrev runtime : ServerRuntime
runtime = record {
  crypto = toy_crypto;
  hmac_key = "k";
  first_16 = λ text. text;
  spell = λ n. "0";
  verify_token = λ token. ok administrator;
  read_date = λ text. 0;
  query_range = λ connection text start end_time step. ok [];
  mean_time = λ spans. null;
  encode_cursor = λ cursor. cursor.id;
  decode_cursor = λ text. thrown (plain_error "no cursor");
}

abbrev refused : {A : Type 0} → Result A
refused = thrown (plain_error "not of the shape")

abbrev schemas : Schemas
schemas = record {
  uuid = is_uuid;
  list_limit = λ limit. ok 50;
  create_connection = λ body. refused;
  create_resource = λ body. refused;
  metrics_query = λ body. refused;
  incident_transition = λ body. refused;
  report_period = λ start end_time. refused;
  create_customer = λ body. ok "Acme";
  read_date = λ text. 0;
  uuid_issues = null;
}

abbrev webhooks : WebhookRuntime
webhooks = record {
  integer_of = λ text. none;
  is_zod_uuid = is_uuid;
  webhook_secret = λ ref. refused;
  parse_json = λ body. none;
  payload_schema = λ payload. refused;
}

abbrev workers : WorkerRuntime
workers = record {
  registry = [];
  parse_configuration = λ configuration. refused;
  inventory = λ configuration id. refused;
}

abbrev call : HttpRequest
call = record {
  request_id = some customer;
  origin = none;
  authorization = some "Bearer abc";
  idempotency_key = none;
  body = ok (some (obj end));
  limit = none;
  cursor = none;
  start = none;
  end_time = none;
}

abbrev empty_app : App
empty_app = record { pool = pool_with empty_db; active = [] }

abbrev created : Response × App
created =
    respond runtime.spell [] schemas (metricops runtime noon 0) 0 post_customers call empty_app

created_status : created.0.status ≡ 201
unfolding creation
created_status = refl

one_event : length created.1.pool.db.audit_events ≡ 1
unfolding creation
one_event = refl

ran : Steps runtime [] schemas webhooks workers empty_app created.1
ran =
    next empty_app created.1 created.1 (request noon 0 0 post_customers call empty_app)
      (done created.1)

few : length created.1.pool.db.audit_events < 2
few = rw one_event (omega arith)

running-verifies_example :
    ((report : Report) × (verify_audit_log toy_crypto
          (λ a b. true)
          "k"
          10000
          created.1.pool.db.audit_events
          2
          []
        ≡ some (ok report))
      × (report.event_count ≡ length created.1.pool.db.audit_events))
    ⊎ Misspelled toy_crypto "k" created.1.pool.db.audit_events
running-verifies_example =
    running-verifies runtime [] schemas webhooks workers empty_app created.1 (λ a b. true) 9999 2
      refl ran few

-- a request whose identifier is spelled in capitals leaves a log that is refused
abbrev capitals : Response × App
capitals =
    respond runtime.spell [] schemas (metricops runtime noon 0) 0 post_customers
      (record call { request_id = some "123E4567-E89B-42D3-A456-426614174000" }) empty_app

capitals_status : capitals.0.status ≡ 201
unfolding creation
capitals_status = refl

capitals_refused : verify_from toy_crypto "k" [] capitals.1.pool.db.audit_events ≡ digest_failed
unfolding creation
capitals_refused = refl

respond-IsGuarded_example :
    (created.1
      ≡ (assign_request_id runtime.spell [] schemas
          (metricops runtime noon 0)
          0
          call.request_id
          empty_app).1)
    ⊎ IsGuarded schemas
        (metricops runtime noon 0)
        post_customers
        call
        (assign_request_id runtime.spell [] schemas
          (metricops runtime noon 0)
          0
          call.request_id
          empty_app).1
respond-IsGuarded_example =
    respond-IsGuarded schemas (metricops runtime noon 0) 0 runtime.spell [] post_customers call
      empty_app

-- ann's ended session, in tables that are pruned
abbrev ended : Db
ended = record empty_db {
  revoked_sessions =
      (record {
        token_hash = toy_crypto.sha256 (codes "t1");
        customer_id = "acme";
        subject_id = "ann";
        expires_at = 1700009999000;
      })
      ∷ [];
}

still_refused :
    (assert_active toy_crypto "k" (λ text. text) one_o_clock ann (pool_with ended)).0
    ≡ thrown unauthorized
unfolding creation
still_refused = refl

run_maintenance-assert_active_example :
    (assert_active toy_crypto "k"
      (λ text. text)
      one_o_clock
      ann
      (run_maintenance 1700000000000 (pool_with ended)).1).0
    ≡ (assert_active toy_crypto "k" (λ text. text) one_o_clock ann (pool_with ended)).0
run_maintenance-assert_active_example =
    run_maintenance-assert_active toy_crypto "k" (λ text. text) one_o_clock 1700000000000 ann
      (pool_with ended) (omega arith)
