-- ===== src/System.antt =====
-- http/application.ts, server.ts and worker.ts together: the services behind the routes, and the
-- steps that a running system takes.
pub mod Kept
pub mod Steps
pub mod Verified
mod Tests
use metricops_backend.Common.{
  ℕ, ◌+◌, String, Bool, List, [], ◌∷◌, map, Option, none, some, ◌==◌, string_eq, if◌then◌else◌,
}
use metricops_backend.Json.{Json, null, str, arr, Items, nil, cons, Fields, end, field}
use metricops_backend.Domain.Principal.{Principal}
use metricops_backend.Effects.{Exec, Result, ok, thrown, bind_result}
use metricops_backend.Database.Transaction.{Crypto, Clocks, Pool}
use metricops_backend.Security.Authentication.{JwtPayload}
use metricops_backend.Security.Authentication.Bearer.{authenticate}
use metricops_backend.Security.Sessions.{assert_active, revoke_current}
use metricops_backend.Connections.{list_connections, create_connection}
use metricops_backend.Jobs.{enqueue_connection_validation, enqueue_aws_discovery, get_job}
use metricops_backend.Resources.{create_resource, list_resources, Cursor}
use metricops_backend.Metrics.{Active}
use metricops_backend.Metrics.Execute.{QueryRange, query}
use metricops_backend.Incidents.{acknowledge_incident, resolve_incident}
use metricops_backend.Incidents.Lists.{list_alerts, list_incidents}
use metricops_backend.Reports.{generate}
use metricops_backend.Audit.Query.{list_audit_events}
use metricops_backend.Customers.{create_customer}
use metricops_backend.Http.Routes.{Services}

-- the tables with their connections, and the queries that run
pub record App : Type 0 where
  pub pool : Pool
  pub active : Active

-- what the services reach outside of the sources: keys, digests, libraries and other systems
pub record ServerRuntime : Type 0 where
  pub crypto : Crypto
  pub hmac_key : String
  pub first_16 : String → String
  pub spell : ℕ → String
  pub verify_token : List ℕ → Result JwtPayload
  pub read_date : String → ℕ
  pub query_range : QueryRange
  pub mean_time : List (ℕ × ℕ) → Json
  pub encode_cursor : Cursor → String
  pub decode_cursor : String → Result Cursor

abbrev pub on_pool : {A : Type 0} → Exec Pool A → Exec App A
on_pool op app = let (result, pool) = op app.pool in (result, record app { pool = pool })

abbrev items_of : List Json → Items
items_of [] = nil
items_of (x ∷ xs) = cons x (items_of xs)

-- an operation that lists, with its rows as a JSON array
abbrev pub as_array : Result (List Json) → Result Json
as_array (ok rows) = ok (arr (items_of rows))
as_array (thrown t) = thrown t

abbrev pub listing : Exec Pool (List Json) → Exec App Json
listing op app = let (rows, pool) = op app.pool in (as_array rows, record app { pool = pool })

module _ (runtime : ServerRuntime) where
  -- `cursorText ? decodeCursor(cursorText) : null`
  unfoldable pub cursor_in : Option String → Result (Option Cursor)
  cursor_in none = ok none
  cursor_in (some text) =
      if text == ""
      then ok none
      else bind_result (runtime.decode_cursor text) (λ cursor. ok (some cursor))

  abbrev next_cursor : Option Cursor → Json
  next_cursor none = null
  next_cursor (some cursor) = str (runtime.encode_cursor cursor)

  abbrev pub page_fields : Result (List Json × Option Cursor) → Result Fields
  page_fields (ok found) =
      ok (field "data" (arr (items_of found.0)) (field "nextCursor" (next_cursor found.1) end))
  page_fields (thrown t) = thrown t

  module _ (clocks : Clocks) (micros : ℕ) where
    abbrev pub page_at : Principal → ℕ → Result (Option Cursor) → Exec App Fields
    page_at principal limit (thrown t) app = (thrown t, app)
    page_at principal limit (ok cursor) app =
        let (found, pool) =
          list_resources runtime.crypto runtime.hmac_key clocks micros principal limit cursor
            app.pool in
        (page_fields found, record app { pool = pool })

    abbrev pub run_query : Result Json × (Active × Pool) → Result Json × App
    run_query (result, state) = (result, record { pool = state.1; active = state.0 })

    unfoldable pub metricops : Services App
    metricops = record {
      random_uuid = λ app. (
        runtime.crypto.random_uuid app.pool.drawn,
        record app {
          pool = record app.pool { server = record app.pool.server { drawn = app.pool.drawn + 1 } };
        },
      );
      authenticate = authenticate runtime.verify_token;
      assert_active = λ p app.
          (assert_active runtime.crypto runtime.hmac_key runtime.first_16 clocks p app.pool).0;
      list_connections =
          λ p limit. listing (list_connections runtime.crypto runtime.hmac_key clocks p limit);
      create_connection = λ p input key id.
          on_pool (create_connection runtime.crypto runtime.hmac_key clocks p input key id);
      enqueue_validation = λ p c key id.
          on_pool (enqueue_connection_validation runtime.crypto runtime.hmac_key clocks p c key id);
      enqueue_discovery = λ p c key id.
          on_pool (enqueue_aws_discovery runtime.crypto runtime.hmac_key clocks p c key id);
      get_job = λ p j. on_pool (get_job runtime.crypto runtime.hmac_key clocks p j);
      create_resource = λ p input key id.
          on_pool (create_resource runtime.crypto runtime.hmac_key clocks micros p input key id);
      list_resources = λ p limit cursor. page_at p limit (cursor_in cursor);
      query_metrics = λ p input id app. run_query (
          query runtime.crypto runtime.hmac_key clocks runtime.read_date runtime.query_range p input
            id (app.active, app.pool));
      list_alerts = λ p limit. listing (list_alerts p limit);
      list_incidents = λ p limit. listing (list_incidents p limit);
      acknowledge = λ p i version assignee key id.
          on_pool (
            acknowledge_incident runtime.crypto runtime.hmac_key clocks p i version assignee key
              id);
      resolve = λ p i version resolution key id.
          on_pool
            (resolve_incident runtime.crypto runtime.hmac_key clocks p i version resolution key id);
      report = λ p start end_time id.
          on_pool
            (generate runtime.crypto runtime.hmac_key clocks runtime.mean_time p start end_time id);
      list_audit = λ p limit. listing (list_audit_events runtime.spell p limit);
      create_customer =
          λ p name id. on_pool (create_customer runtime.crypto runtime.hmac_key clocks p name id);
      revoke_current = λ p id.
          on_pool (revoke_current runtime.crypto runtime.hmac_key runtime.first_16 clocks p id);
    }
