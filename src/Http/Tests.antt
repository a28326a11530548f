-- ===== src/Http/Tests.antt =====
-- Times of queries, and codes in the log.
use metricops_backend.Common.{ℕ, ◌+◌, ◌*◌, ◌≤◌, ◌<◌, ◌≡◌, refl, true, codes, []}
use metricops_backend.Common.Patterns.{is_run}
use metricops_backend.Domain.Errors.{coded_error}
use metricops_backend.Http.Answers.{
  is_code_part, safe_internal_error_code, safe_internal_error_code-safe,
}
use metricops_backend.Http.Queries.{metrics_query_issues, metrics_query_issues-bounded}

-- an hour in steps of a minute
an_hour : metrics_query_issues 1700000000000 1699990000000 1699993600000 60 ≡ []
unfolding metrics_query_issues
an_hour = refl

metrics_query_issues-bounded_example :
    (1699990000000 < 1699993600000)
    × (1699993600000 ≤ 1700000000000 + 60000)
    × (1699993600000 ≤ 1699990000000 + 86400000)
    × ((points : ℕ) → 1699990000000 + points * (60 * 1000) ≤ 1699993600000 → 0 < 60 → points ≤ 2000)
metrics_query_issues-bounded_example =
    metrics_query_issues-bounded 1700000000000 1699990000000 1699993600000 60 an_hour

shouted : safe_internal_error_code (coded_error "connection refused") ≡ "UNEXPECTED"
unfolding safe_internal_error_code is_run
shouted = refl

safe_internal_error_code-safe_example :
    is_run is_code_part 1 40 (codes (safe_internal_error_code (coded_error "ECONNREFUSED"))) ≡ true
safe_internal_error_code-safe_example = safe_internal_error_code-safe (coded_error "ECONNREFUSED")
