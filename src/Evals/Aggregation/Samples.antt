-- ===== src/Evals/Aggregation/Samples.antt =====
-- The counts of an aggregate.
use mathlib.Core.Path.{subst}
use pufferlab.Prelude.{
  ℕ, ◌+◌, ◌-◌, ◌≤◌, ◌≡◌, refl, Bool, not, Option, List, [], ◌∷◌, ◌==◌, arith, length, count_if,
  distinct, is_some,
}
use pufferlab.Prelude.Result.{ok, raise_if, >>=-eq-ok}
use pufferlab.Prelude.Sort.{length-sort}
use pufferlab.Evals.Float.{Float}
use pufferlab.Evals.Models.{
  repeated_query_ids, QueryMetrics, QueryOutcome, MetricSummary, EvaluationAggregate,
  check_aggregate,
}
use pufferlab.Evals.Pairing.{ids_of, field_of}
use pufferlab.Evals.Aggregation.{
  metric_values, latencies, is_completed, is_failed, is_judged, linear_percentile, mean,
  mean_metric, rate, aggregate_outcomes,
}

module _ {F : Type 0} where
  -- A defined value has samples, and an undefined one has none.
  abbrev pub HasSamples : MetricSummary F → ℕ → Type 0
  HasSamples s n = (s.sample_count ≡ n) × (is_some s.value ≡ not (n == 0))

  count_le : (p : QueryOutcome F → Bool) (os : List (QueryOutcome F)) → count_if p os ≤ length os
  count_le p [] = omega arith
  count_le p (o ∷ os) = ground (arith, count_le p os)

  length-metric_values :
      (getter : QueryMetrics F → Option F) (os : List (QueryOutcome F))
      → length (metric_values getter os) ≡ count_if (λ o. is_some (field_of getter o.metrics)) os
  length-metric_values getter [] = refl
  length-metric_values getter (o ∷ os) = ground (arith, length-metric_values getter os)

  count-failed :
      (os : List (QueryOutcome F)) → count_if is_completed os + count_if is_failed os ≡ length os
  count-failed [] = refl
  count-failed (o ∷ os) = ground (arith, count-failed os)

  length-latencies :
      (os : List (QueryOutcome F)) → length (latencies os) ≡ count_if (λ o. is_some o.latency_ms) os
  length-latencies [] = refl
  length-latencies (o ∷ os) = ground (arith, length-latencies os)

module _ {F : Type 0} ⦃f : Float F⦄ where
  mean-HasSamples :
      (values : List F) (s : MetricSummary F) → mean values ≡ ok s → HasSamples s (length values)
  mean-HasSamples values s h = ground arith

  rate-HasSamples : (n d : ℕ) (s : MetricSummary F) → rate n d ≡ ok s → HasSamples s d
  rate-HasSamples n d s h = ground arith

  percentile-HasSamples :
      (values : List F) (p : F) (s : MetricSummary F)
      → linear_percentile values p ≡ ok s
      → HasSamples s (length values)
  unfolding linear_percentile
  percentile-HasSamples values p s h = ground (arith, length-sort f.lt values)

  check_aggregate-ok : (x a : EvaluationAggregate F) → check_aggregate x ≡ ok a → a ≡ x
  check_aggregate-ok x a h = ground arith

  -- The counts of an aggregate `a`, and the samples of its values.
  abbrev pub IsCounted : List (QueryOutcome F) → EvaluationAggregate F → Type 0
  IsCounted outcomes a =
      (a.attempted_queries ≡ length outcomes)
      × (a.failed_queries ≡ count_if is_failed outcomes)
      × (a.completed_queries + a.failed_queries ≡ a.attempted_queries)
      × HasSamples a.ndcg_at_10 (count_if is_judged outcomes)
      × HasSamples a.recall_at_50
          (count_if (λ o. is_some (field_of (λ m. m.recall_at_50) o.metrics)) outcomes)
      × HasSamples a.mrr_at_10
          (count_if (λ o. is_some (field_of (λ m. m.mrr_at_10) o.metrics)) outcomes)
      × HasSamples a.latency_p50_ms (count_if (λ o. is_some o.latency_ms) outcomes)
      × HasSamples a.latency_p95_ms (count_if (λ o. is_some o.latency_ms) outcomes)
      × HasSamples a.error_rate (length outcomes)
      × HasSamples a.coverage_rate (length outcomes)
      × HasSamples a.quality_coverage_rate (length outcomes)

  -- An aggregate counts each attempt once: it completed or it failed. Each of its values has the
  -- number of samples that it is made of, the outcomes that have the metric, the observed durations
  -- or all attempts, and is absent exactly when there is none.
  pub aggregate_outcomes-HasSamples :
      (outcomes : List (QueryOutcome F)) (a : EvaluationAggregate F)
      → aggregate_outcomes outcomes ≡ ok a
      → IsCounted outcomes a
  unfolding aggregate_outcomes
  aggregate_outcomes-HasSamples outcomes a h =
      let (_, _, h1) =
        >>=-eq-ok (raise_if (not (distinct (ids_of outcomes))) repeated_query_ids) _ h in
      let attempted = length outcomes in
      let completed = count_if is_completed outcomes in
      let (ndcg, e1, h2) = >>=-eq-ok (mean_metric outcomes (λ m. m.ndcg_at_10)) _ h1 in
      let (recall, e2, h3) = >>=-eq-ok (mean_metric outcomes (λ m. m.recall_at_50)) _ h2 in
      let (mrr, e3, h4) = >>=-eq-ok (mean_metric outcomes (λ m. m.mrr_at_10)) _ h3 in
      let (p50, e4, h5) = >>=-eq-ok (linear_percentile (latencies outcomes) f.half) _ h4 in
      let (p95, e5, h6) = >>=-eq-ok (linear_percentile (latencies outcomes) f.p95) _ h5 in
      let (er, e6, h7) = >>=-eq-ok (rate (attempted - completed) attempted) _ h6 in
      let (cr, e7, h8) = >>=-eq-ok (rate completed attempted) _ h7 in
      let (qr, e8, h9) = >>=-eq-ok (rate (count_if is_judged outcomes) attempted) _ h8 in
      let s1 = mean-HasSamples (metric_values (λ m. m.ndcg_at_10) outcomes) ndcg e1 in
      let s2 = mean-HasSamples (metric_values (λ m. m.recall_at_50) outcomes) recall e2 in
      let s3 = mean-HasSamples (metric_values (λ m. m.mrr_at_10) outcomes) mrr e3 in
      let s4 = percentile-HasSamples (latencies outcomes) f.half p50 e4 in
      let s5 = percentile-HasSamples (latencies outcomes) f.p95 p95 e5 in
      let s6 = rate-HasSamples (attempted - completed) attempted er e6 in
      let s7 = rate-HasSamples completed attempted cr e7 in
      let s8 = rate-HasSamples (count_if is_judged outcomes) attempted qr e8 in
      let same = check_aggregate-ok _ a h9 in
      let l1 = length-metric_values (λ m. m.ndcg_at_10) outcomes in
      let l4 = length-latencies outcomes in
      let all = count-failed outcomes in
      rw same (
        refl,
        omega (arith, all),
        omega (arith, all),
        subst (HasSamples ndcg) l1 s1,
        subst (HasSamples recall) (length-metric_values (λ m. m.recall_at_50) outcomes) s2,
        subst (HasSamples mrr) (length-metric_values (λ m. m.mrr_at_10) outcomes) s3,
        subst (HasSamples p50) l4 s4,
        subst (HasSamples p95) l4 s5,
        s6,
        s7,
        s8,
      )
