-- ===== src/Metrics/Asked.antt =====
-- What a query can ask of the metrics backend.
use metricops_backend.Common.{ℕ, String, ◌≡◌, refl, sym, ◌∙◌, inl, inr, List}
use metricops_backend.Domain.Principal.{Principal}
use metricops_backend.Effects.{Result, ok, thrown, Result-cases, continue, lift}
use metricops_backend.Database.Transaction.{Crypto, Clocks, Client, Pool, with_tenant_transaction}
use metricops_backend.Database.Atomic.{begun, with_tenant_transaction-settled}
use metricops_backend.Metrics.Prometheus.{MetricSeries}
use metricops_backend.Metrics.Execute.{
  QueryRange, MetricsQueryInput, Target, target_in, target_work, execute, ask, context, answer,
  answer_of,
}
use metricops_backend.Metrics.Targets.{IsSafe, target_in-IsSafe}

module _ (crypto : Crypto) (hmac_key : String) (clocks : Clocks) (read_date : String → ℕ)
    (principal : Principal) (input : MetricsQueryInput) (request_id : String) where
  module _ (query_range : QueryRange) where
    abbrev work : Client → Result Target × Client
    work = target_work crypto hmac_key clocks read_date query_range principal input request_id

    abbrev found : Pool → Result Target × Pool
    found pool =
        with_tenant_transaction (context crypto hmac_key clocks read_date query_range principal)
          work pool

    target_work-target_in :
        (client : Client)
        → (work client).0 ≡ target_in principal.customer_id input.resource_id client.db
    unfolding target_work
    target_work-target_in client =
        elim (Result-cases (target_in principal.customer_id input.resource_id client.db)) [
          | inl (target, here) ↦ rw (target_work, here)
          | inr (t, failed) ↦ rw (target_work, failed)
        ]

    found-IsSafe :
        (pool : Pool) (target : Target)
        → (found pool).0 ≡ ok target
        → IsSafe principal.customer_id target
    found-IsSafe pool target h =
        let (same, _, _) =
          with_tenant_transaction-settled
            (context crypto hmac_key clocks read_date query_range principal) work pool in
        target_in-IsSafe principal.customer_id input.resource_id pool.db target
          (sym (target_work-target_in (begun _ pool)) ∙ sym same ∙ h)

  -- Two metrics backends that answer alike to queries for safe targets (an enabled Prometheus
  -- connection of the principal's own customer, and a selector free of characters with a meaning
  -- in the query language) give the same answer and the same tables: no other query is asked.
  pub execute-only_safe :
      (query_range query_range' : QueryRange) (pool : Pool)
      → ((target : Target)
          → IsSafe principal.customer_id target
          → ask crypto hmac_key clocks read_date query_range principal input target
            ≡ ask crypto hmac_key clocks read_date query_range' principal input target)
      → execute crypto hmac_key clocks read_date query_range principal input request_id pool
        ≡ execute crypto hmac_key clocks read_date query_range' principal input request_id pool
  unfolding execute target_work answer_of
  execute-only_safe query_range query_range' pool alike =
      same_answer (found query_range pool) (found-IsSafe query_range pool)
    where
      read_alike :
          (r : Result (List MetricSeries))
          → answer crypto hmac_key clocks read_date query_range principal input r
            ≡ answer crypto hmac_key clocks read_date query_range' principal input r
      read_alike (ok series) = refl
      read_alike (thrown t) = refl

      same_answer :
          (out : Result Target × Pool)
          → ((target : Target) → out.0 ≡ ok target → IsSafe principal.customer_id target)
          → continue out.0
              (λ target. lift (
                answer crypto hmac_key clocks read_date query_range principal input
                  (ask crypto hmac_key clocks read_date query_range principal input target)))
              out.1
            ≡ continue out.0
                (λ target. lift (
                  answer crypto hmac_key clocks read_date query_range' principal input
                    (ask crypto hmac_key clocks read_date query_range' principal input target)))
                out.1
      same_answer (thrown t, pool') safe = refl
      same_answer (ok target, pool') safe = rw (alike target (safe target refl)) (λ i. (
        read_alike (ask crypto hmac_key clocks read_date query_range' principal input target) i,
        pool',
      ))
