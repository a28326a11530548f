-- ===== src/Http/Queries.antt =====
-- http/schemas.ts: the checks of its own that two query schemas make of the times. The issues are
-- what zod collects from them.
use metricops_backend.Common.{
  ℕ, ◌+◌, ◌*◌, ◌≤◌, ◌<◌, String, ◌≡◌, Bool, true, false, List, [], ◌∷◌, ◌++◌, ltb, leb, arith,
}
use native.Mathlib.Nat.{le_of_mul-le-mul_right}
use metricops_backend.Json.{Json, str, arr, obj, nil, cons, end, field, Items}
use metricops_backend.Domain.Errors.{zod_error}
use metricops_backend.Effects.{Result, ok, thrown}

pub data Issue : Type 0 where
  end_before_start range_exceeded end_in_future point_budget_exceeded : Issue

abbrev pub issue_when : Bool → Issue → List Issue
issue_when true issue = issue ∷ []
issue_when false issue = []

-- `superRefine` of the metrics query; the times are milliseconds, the step seconds
unfoldable pub metrics_query_issues : ℕ → ℕ → ℕ → ℕ → List Issue
metrics_query_issues now start end_time step_seconds =
    issue_when (leb end_time start) end_before_start
    ++ issue_when (ltb (start + 86400000) end_time) range_exceeded
    ++ issue_when (ltb (now + 60000) end_time) end_in_future
    ++ issue_when (ltb (start + 2000 * (step_seconds * 1000)) end_time) point_budget_exceeded

-- `superRefine` of the operations report's period
unfoldable pub operations_report_issues : ℕ → ℕ → ℕ → List Issue
operations_report_issues now start end_time =
    issue_when (leb end_time start) end_before_start
    ++ issue_when (ltb (start + 90 * 86400000) end_time) range_exceeded
    ++ issue_when (ltb (now + 60000) end_time) end_in_future

abbrev issue_path : Issue → String
issue_path point_budget_exceeded = "stepSeconds"
issue_path _ = "end"

abbrev issue_json : Issue → Json
issue_json issue =
    obj (field "path" (arr (cons (str (issue_path issue)) nil)) (field "code" (str "custom") end))

abbrev issues_json : List Issue → Items
issues_json [] = nil
issues_json (issue ∷ rest) = cons (issue_json issue) (issues_json rest)

-- a parse throws when its refinements found anything
unfoldable pub refined : {A : Type 0} → List Issue → A → Result A
refined [] a = ok a
refined (issue ∷ rest) a = thrown (zod_error (arr (issues_json (issue ∷ rest))))

-- A metrics query that passes has its end after its start and at most a minute ahead, spans at
-- most a day, and asks for at most 2001 points, one at every step from its start on.
pub metrics_query_issues-bounded :
    (now start end_time step_seconds : ℕ)
    → metrics_query_issues now start end_time step_seconds ≡ []
    → (start < end_time)
      × (end_time ≤ now + 60000)
      × (end_time ≤ start + 86400000)
      × ((points : ℕ)
          → start + points * (step_seconds * 1000) ≤ end_time
          → 0 < step_seconds
          → points ≤ 2000)
unfolding metrics_query_issues
metrics_query_issues-bounded now start end_time step_seconds h = (
  ground arith,
  ground arith,
  ground arith,
  λ points reached positive.
      points_bounded points (step_seconds * 1000) (omega (arith, positive)) (ground arith),
)
  where
    points_bounded : (points step : ℕ) → 0 < step → points * step ≤ 2000 * step → points ≤ 2000
    points_bounded points step positive h = le_of_mul-le-mul_right h positive
