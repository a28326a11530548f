-- ===== src/Idempotency/Saved.antt =====
-- A saved response is found again, until it expires.
use metricops_backend.Common.{
  ℕ, ◌+◌, ◌<◌, String, ◌≡◌, Bool, true, false, ◌&&◌, List, [], ◌∷◌, ◌++◌, some, any, find, arith,
  eq_refl,
}
use metricops_backend.Json.{Json}
use metricops_backend.Database.Tables.{IdempotencyRow}
use metricops_backend.Idempotency.{RequestKey, has_key, is_live, find_prior, a_day, record_of}

has_key-record_of :
    (k : RequestKey) (hash : String) (status : ℕ) (body : Json) (now : ℕ)
    → has_key k (record_of k hash status body now) ≡ true
unfolding has_key
has_key-record_of k hash status body now =
    rw (eq_refl k.customer_id, eq_refl k.operation, eq_refl k.idempotency_key)

find-snoc :
    (p q : IdempotencyRow → Bool) (rows : List IdempotencyRow) (row : IdempotencyRow)
    → any p rows ≡ false
    → (p row && q row) ≡ true
    → find (λ r. p r && q r) (rows ++ row ∷ []) ≡ some row
find-snoc p q [] row h k = rw k
find-snoc p q (r ∷ rows) row h k = ground (arith, find-snoc p q rows row)

-- A response saved under a free key is what a request under that key finds within a day.
pub find_prior-saved :
    (k : RequestKey) (hash : String) (status : ℕ) (body : Json) (now later : ℕ)
    (rows : List IdempotencyRow)
    → any (has_key k) rows ≡ false
    → later < now + a_day
    → find_prior k later (rows ++ record_of k hash status body now ∷ [])
      ≡ some (record_of k hash status body now)
unfolding find_prior
find_prior-saved k hash status body now later rows h fits =
    let live : is_live later (record_of k hash status body now) ≡ true = ground arith in
    find-snoc (has_key k) (is_live later) rows (record_of k hash status body now) h
      (rw (has_key-record_of k hash status body now, live))
