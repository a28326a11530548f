-- ===== src/Resources/Pages.antt =====
-- The pages of a listing, and what a cursor in milliseconds does to them.
use metricops_backend.Json.Printer.{key_lt}
use metricops_backend.Common.{
  ◌<◌, ◌⊎◌, inl, inr, none, ltb, eq_iff, Bool-cases, ℕ, ◌+◌, ◌*◌, ◌/◌, ◌≤◌, String, ◌≡◌, true, List,
  Option, some, filter, take, length, All, nat_eq, string_eq, arith,
}
use metricops_backend.Common.Order.{
  order_by, length-take, All-take, All-order_by, All-filter, All-map,
}
use metricops_backend.Database.Tables.{ResourceRow}
use metricops_backend.Resources.{Cursor, is_before, comes_first, on_page, fetched, cursor_of, page}

on_page-All :
    (customer_id : String) (limit : ℕ) (cursor : Option Cursor) (rows : List ResourceRow)
    → All (λ row. on_page customer_id cursor row ≡ true) (page customer_id limit cursor rows).0
unfolding page fetched
on_page-All customer_id limit cursor rows =
    let found = order_by comes_first (filter (on_page customer_id cursor) rows) in
    All-take _ limit (take (limit + 1) found) (
      All-take _ (limit + 1) found (
        All-order_by _ comes_first (filter (on_page customer_id cursor) rows)
          (All-filter (on_page customer_id cursor) rows)))

-- A row that a page may hold: it is the customer's, and behind the cursor, if there is one: created
-- before its time, or at its time under a smaller identifier. The cursor's time is in milliseconds, a
-- row's in microseconds.
abbrev pub IsBehind : String → Option Cursor → ResourceRow → Type 0
IsBehind customer_id none row = row.customer_id ≡ customer_id
IsBehind customer_id (some cursor) row =
    (row.customer_id ≡ customer_id)
    × ((row.created_at < cursor.created_at * 1000)
        ⊎ ((row.created_at ≡ cursor.created_at * 1000) × (key_lt row.id cursor.id ≡ true)))

on_page-IsBehind :
    (customer_id : String) (cursor : Option Cursor) (row : ResourceRow)
    → on_page customer_id cursor row ≡ true
    → IsBehind customer_id cursor row
unfolding is_before
on_page-IsBehind customer_id none row h = ground (arith, eq_iff row.customer_id customer_id)
on_page-IsBehind customer_id (some cursor) row h = (
  ground (arith, eq_iff row.customer_id customer_id),
  elim (Bool-cases (ltb row.created_at (cursor.created_at * 1000))) [
    | inl earlier ↦ inl (ground arith)
    | inr late ↦ inr (ground arith, ground arith)
  ],
)

-- A page holds at most as many rows as asked for, and every one of them belongs to the customer and
-- lies behind the cursor: created before its time, or at its time under a smaller identifier.
pub page-IsBehind :
    (customer_id : String) (limit : ℕ) (cursor : Option Cursor) (rows : List ResourceRow)
    → (length (page customer_id limit cursor rows).0 ≤ limit)
      × All (IsBehind customer_id cursor) (page customer_id limit cursor rows).0
unfolding page
page-IsBehind customer_id limit cursor rows = (
  length-take limit (fetched customer_id limit cursor rows),
  All-map _ _ (page customer_id limit cursor rows).0 (on_page-IsBehind customer_id cursor)
      (on_page-All customer_id limit cursor rows),
)

-- Where the last row of a page was created on a whole millisecond, its cursor accepts exactly the
-- rows that the order puts after it.
pub is_before-comes_first :
    (last row : ResourceRow)
    → last.created_at / 1000 * 1000 ≡ last.created_at
    → is_before (some (cursor_of last)) row ≡ comes_first last row
unfolding is_before comes_first cursor_of
is_before-comes_first last row h = ground (arith, h)

is_before-bound :
    (customer_id : String) (last row : ResourceRow)
    → on_page customer_id (some (cursor_of last)) row ≡ true
    → row.created_at ≤ last.created_at / 1000 * 1000
unfolding is_before cursor_of
is_before-bound customer_id last row h = ground arith

-- The cursor behind a row holds its time cut to the millisecond, so the next page has no row
-- created past the beginning of that millisecond, also none that the order puts after the row.
pub page-skips :
    (customer_id : String) (limit : ℕ) (last : ResourceRow) (rows : List ResourceRow)
    → All
        (λ row. row.created_at ≤ last.created_at / 1000 * 1000)
        (page customer_id limit (some (cursor_of last)) rows).0
page-skips customer_id limit last rows =
    All-map _ _ (page customer_id limit (some (cursor_of last)) rows).0
      (is_before-bound customer_id last)
      (on_page-All customer_id limit (some (cursor_of last)) rows)
