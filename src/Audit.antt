-- ===== src/Audit.antt =====
-- audit/audit-service.ts: the chain of audit events, one for each customer, and its verifier.
pub mod Chain
pub mod Tamper
pub mod Committed
pub mod Agree
pub mod Query
mod Tests
use Prim.Native.Char.{Char, char, code}
use metricops_backend.Common.{
  ℕ, ◌+◌, String, Bool, true, false, List, [], ◌∷◌, ◌++◌, map, Option, none, some, ltb, ◌==◌,
  string_eq, nat_eq, if◌then◌else◌,
}
use metricops_backend.Common.Dates.{to_iso_string}
use metricops_backend.Json.{Json, null, str, obj, end, field}
use metricops_backend.Json.Printer.{canonical_json}
use metricops_backend.Domain.Errors.{plain_error}
use metricops_backend.Effects.{Exec, Result, ok, thrown}
use metricops_backend.Database.Tables.{AuditRow, Db}
use metricops_backend.Database.Transaction.{Crypto, Clocks, Client, Server}

pub record AuditInput : Type 0 where
  pub customer_id : String
  pub actor_id : String
  pub action : String
  pub resource_type : String
  pub resource_id : String
  pub request_id : String
  pub occurred_at : Option ℕ
  pub details : Option Json

pub record AuditAnchor : Type 0 where
  pub customer_id : String
  pub sequence : ℕ
  pub chain_hash : String

abbrev pub nullable : Option String → Json
nullable none = null
nullable (some s) = str s

-- The object that is digested: every column of an event but its sequence and its own hash.
unfoldable pub event_body : AuditRow → Json
event_body e = obj (
    field "id" (str e.id) (
      field "customerId" (str e.customer_id) (
        field "actorId" (str e.actor_id) (
          field "action" (str e.action) (
            field "resourceType" (str e.resource_type) (
              field "resourceId" (str e.resource_id) (
                field "requestId" (str e.request_id) (
                  field "occurredAt" (str (to_iso_string e.occurred_at)) (
                    field "details" e.details
                      (field "previousHash" (nullable e.previous_hash) end))))))))))

abbrev pub same_hash : Option String → Option String → Bool
same_hash none none = true
same_hash (some a) (some b) = a == b
same_hash _ _ = false

-- `Map<string, AuditAnchor>` by customer, in the order in which the customers came
abbrev pub Heads : Type 0
Heads = List AuditAnchor

unfoldable pub get : Heads → String → Option AuditAnchor
get [] customer = none
get (anchor ∷ rest) customer =
    if anchor.customer_id == customer then some anchor else get rest customer

unfoldable pub set : Heads → AuditAnchor → Heads
set [] anchor = anchor ∷ []
set (old ∷ rest) anchor =
    if old.customer_id == anchor.customer_id then anchor ∷ rest else old ∷ set rest anchor

abbrev pub hash_of : Option AuditAnchor → Option String
hash_of none = none
hash_of (some anchor) = some anchor.chain_hash

abbrev pub anchor_of : AuditRow → AuditAnchor
anchor_of e = record {
  customer_id = e.customer_id;
  sequence = e.sequence;
  chain_hash = e.chain_hash;
}

abbrev pub linkage_failed : {A : Type 0} → Result A
linkage_failed = thrown (plain_error "Audit chain linkage verification failed")

abbrev pub digest_failed : {A : Type 0} → Result A
digest_failed = thrown (plain_error "Audit chain digest verification failed")

module _ (crypto : Crypto) (hmac_key : String) where
  unfoldable pub digest : AuditRow → String
  digest e = crypto.hmac hmac_key (canonical_json (event_body e))

  -- one round of the loop of `verifyAuditEvents`
  unfoldable pub verify_event : Heads → AuditRow → Result Heads
  verify_event heads e =
      if same_hash (hash_of (get heads e.customer_id)) e.previous_hash
      then (if digest e == e.chain_hash then ok (set heads (anchor_of e)) else digest_failed)
      else linkage_failed

  unfoldable pub verify_from : Heads → List AuditRow → Result Heads
  verify_from heads [] = ok heads
  verify_from heads (e ∷ rest) = elim (verify_event heads e) [
    | ok heads' ↦ verify_from heads' rest
    | thrown t ↦ thrown t
  ]

-- `new Map(initial.map(…))`: a later anchor of one customer takes the place of an earlier one
unfoldable pub map_of : List AuditAnchor → Heads → Heads
map_of [] heads = heads
map_of (anchor ∷ rest) heads = map_of rest (set heads anchor)

-- `sort` of the anchors by customer; `precedes a b` is `a.localeCompare(b) < 0`
unfoldable pub insert_anchor :
    (String → String → Bool) → AuditAnchor → List AuditAnchor → List AuditAnchor
insert_anchor precedes anchor [] = anchor ∷ []
insert_anchor precedes anchor (other ∷ rest) =
    if precedes other.customer_id anchor.customer_id
    then other ∷ insert_anchor precedes anchor rest
    else anchor ∷ other ∷ rest

unfoldable pub sort_anchors : (String → String → Bool) → List AuditAnchor → List AuditAnchor
unfolding insert_anchor
sort_anchors precedes [] = []
sort_anchors precedes (anchor ∷ rest) = insert_anchor precedes anchor (sort_anchors precedes rest)

abbrev pub sorted_anchors : (String → String → Bool) → Result Heads → Result (List AuditAnchor)
sorted_anchors precedes (ok heads) = ok (sort_anchors precedes heads)
sorted_anchors precedes (thrown t) = thrown t

unfoldable pub verify_audit_events :
    Crypto
    → (String → String → Bool)
    → List AuditRow
    → String
    → List AuditAnchor
    → Result (List AuditAnchor)
verify_audit_events crypto precedes events hmac_key initial =
    sorted_anchors precedes (verify_from crypto hmac_key (map_of initial []) events)

-- ORDER BY sequence DESC LIMIT 1, among the events of one customer
abbrev pub later : AuditRow → Option AuditRow → AuditRow
later e none = e
later e (some f) = if ltb e.sequence f.sequence then f else e

unfoldable pub newest : String → List AuditRow → Option AuditRow
newest customer [] = none
newest customer (e ∷ rest) =
    let best = newest customer rest in
    if e.customer_id == customer then some (later e best) else best

abbrev pub chain_hash_of : Option AuditRow → Option String
chain_hash_of none = none
chain_hash_of (some e) = some e.chain_hash

abbrev pub or_else : {A : Type 0} → Option A → A → A
or_else none d = d
or_else (some a) d = a

-- What a uuid column gives back of a text: PostgreSQL writes the digits A to F in lower case.
abbrev uuid_digit : Char → Char
uuid_digit c =
    if code c == 65
    then char 97 tt
    else if code c == 66
    then char 98 tt
    else if code c == 67
    then char 99 tt
    else if code c == 68
    then char 100 tt
    else if code c == 69
    then char 101 tt
    else if code c == 70
    then char 102 tt
    else c

abbrev pub uuid_text : String → String
uuid_text String.[] = ""
uuid_text (String.◌∷◌ c s) = String.◌∷◌ (uuid_digit c) (uuid_text s)

module _ (crypto : Crypto) (hmac_key : String) (clocks : Clocks) where
  -- the event that is digested, in the caller's spelling of its customer and request, its chain
  -- hash still empty
  abbrev pub draft : AuditInput → Server → AuditRow
  draft input server = record {
    sequence = server.audit_sequence + 1;
    id = crypto.random_uuid server.drawn;
    customer_id = input.customer_id;
    actor_id = input.actor_id;
    action = input.action;
    resource_type = input.resource_type;
    resource_id = input.resource_id;
    request_id = input.request_id;
    occurred_at = or_else input.occurred_at clocks.date_now;
    details = or_else input.details (obj end);
    previous_hash = chain_hash_of (newest (uuid_text input.customer_id) server.db.audit_events);
    chain_hash = "";
  }

  -- the row that is inserted, as it is read again: its customer and request stand in uuid columns
  unfoldable pub sealed : AuditInput → Server → AuditRow
  sealed input server =
      let e = draft input server in
      record e {
        customer_id = uuid_text e.customer_id;
        request_id = uuid_text e.request_id;
        chain_hash = digest crypto hmac_key e;
      }

  -- `append`: the advisory lock has no effect where transactions run one after another
  unfoldable pub append : AuditInput → Exec Client Unit
  append input client = (
    ok tt,
    record client {
      server = record {
        db = record client.db {
          audit_events = client.db.audit_events ++ sealed input client.server ∷ [];
        };
        audit_sequence = client.audit_sequence + 1;
        drawn = client.drawn + 1;
      };
    },
  )
