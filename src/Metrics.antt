-- ===== src/Metrics.antt =====
-- metrics/metrics-service.ts: the limit on the queries that run for a customer at a time, and how
-- fresh an answer is. The query itself goes to the monitored system.
pub mod Limit
pub mod Prometheus
pub mod Execute
pub mod Bounds
pub mod Targets
pub mod Asked
mod Tests
use metricops_backend.Common.{
  ℕ, ◌+◌, ◌-◌, ◌*◌, String, Bool, true, false, List, [], ◌∷◌, map, Option, none, some, leb, ltb,
  ◌==◌, string_eq, if◌then◌else◌,
}
use metricops_backend.Domain.Errors.{Thrown, app}
use metricops_backend.Effects.{Result, ok, thrown}

-- `activeByCustomer: Map<string, number>`
abbrev pub Active : Type 0
Active = List (String × ℕ)

unfoldable pub get : String → Active → Option ℕ
get customer [] = none
get customer (entry ∷ rest) = if entry.0 == customer then some entry.1 else get customer rest

unfoldable pub set : String → ℕ → Active → Active
set customer n [] = (customer, n) ∷ []
set customer n (entry ∷ rest) =
    if entry.0 == customer then (customer, n) ∷ rest else entry ∷ set customer n rest

unfoldable pub delete : String → Active → Active
delete customer [] = []
delete customer (entry ∷ rest) =
    if entry.0 == customer then delete customer rest else entry ∷ delete customer rest

-- `??`
abbrev pub or_default : ℕ → Option ℕ → ℕ
or_default d none = d
or_default d (some n) = n

abbrev pub too_many : Thrown
too_many =
    app 429 "METRICS_CONCURRENCY_LIMIT" "Too many metrics queries are active for this customer"

-- `query` up to the call of `execute`
unfoldable pub enter : String → Active → Result Active
enter customer active =
    let n = or_default 0 (get customer active) in
    if leb 4 n then thrown too_many else ok (set customer (n + 1) active)

-- its `finally`
unfoldable pub leave : String → Active → Active
leave customer active =
    let remaining = or_default 1 (get customer active) - 1 in
    if leb remaining 0 then delete customer active else set customer remaining active

pub data DataState : Type 0 where
  no_data stale available : DataState

-- `Math.max(...timestamps)`, in whole seconds
unfoldable pub latest : List ℕ → Option ℕ
latest [] = none
latest (t ∷ rest) = elim (latest rest) [ none ↦ some t | some u ↦ some (if ltb t u then u else t) ]

-- `end` in seconds: `latest < end - stepSeconds * 2`, whose right side may be below 0
unfoldable pub data_state : ℕ → ℕ → List ℕ → DataState
data_state end_seconds step_seconds timestamps = elim (latest timestamps) [
  | none ↦ no_data
  | some t ↦ if ltb (t + step_seconds * 2) end_seconds then stale else available
]
