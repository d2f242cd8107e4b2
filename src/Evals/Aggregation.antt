-- ===== src/Evals/Aggregation.antt =====
-- evals/aggregation.py: means, percentiles and rates of the outcomes of one configuration.
pub mod Samples
use pufferlab.Prelude.{
  ℕ, zero, suc, ◌+◌, ◌-◌, Bool, true, false, not, ◌&&◌, Option, none, some, List, [], ◌∷◌, ◌==◌,
  map, if◌then◌else◌, is_some, some_of, filter_map, count_if, length, get_elem?, distinct,
}
use pufferlab.Prelude.Result.{Result, ok, err, ◌>>=◌, ◌>>◌, raise_if}
use pufferlab.Prelude.Sort.{sort}
use pufferlab.Evals.Float.{Float, is_unit, is_duration}
use pufferlab.Evals.Models.{
  EvalError, bad_percentile, bad_sample, repeated_query_ids, QueryMetrics, QueryOutcome,
  MetricSummary, EvaluationAggregate, check_summary, check_aggregate,
}
use pufferlab.Evals.Pairing.{ids_of, field_of}

abbrev pub no_samples : {F : Type 0} → MetricSummary F
no_samples = record { value = none; sample_count = 0 }

-- `[value for outcome in outcomes ... if value is not None]`
abbrev pub metric_values :
    {F : Type 0} → (QueryMetrics F → Option F) → List (QueryOutcome F) → List F
metric_values getter [] = []
metric_values getter (outcome ∷ rest) =
    let values = metric_values getter rest in
    elim (field_of getter outcome.metrics) [ none ↦ values | some value ↦ value ∷ values ]

abbrev pub latencies : {F : Type 0} → List (QueryOutcome F) → List F
latencies [] = []
latencies (outcome ∷ rest) =
    let values = latencies rest in
    elim outcome.latency_ms [ none ↦ values | some value ↦ value ∷ values ]

abbrev pub is_completed : {F : Type 0} → QueryOutcome F → Bool
is_completed outcome = is_some outcome.metrics

-- `outcome.metrics is None`
abbrev pub is_failed : {F : Type 0} → QueryOutcome F → Bool
is_failed outcome = not (is_some outcome.metrics)

abbrev pub is_judged : {F : Type 0} → QueryOutcome F → Bool
is_judged outcome = is_some (field_of (λ m. m.ndcg_at_10) outcome.metrics)

abbrev pub or_nought : {F : Type 0} → F → Option F → F
or_nought nought none = nought
or_nought nought (some x) = x

module _ {F : Type 0} ⦃f : Float F⦄ where
  -- `ordered[index]`; the index of a percentile is in range.
  abbrev pub item : List F → ℕ → F
  item ordered index = or_nought f.nought (get_elem? ordered index)

  abbrev pub interpolate : List F → F → F
  interpolate ordered percentile =
      let position = f.mul (f.of_nat (length ordered - 1)) percentile in
      let lower_index = f.floor position in
      let upper_index = f.ceil position in
      let fraction = f.sub position (f.of_nat lower_index) in
      f.add (item ordered lower_index)
        (f.mul fraction (f.sub (item ordered upper_index) (item ordered lower_index)))

  unfoldable pub linear_percentile : List F → F → Result EvalError (MetricSummary F)
  unfolding sort
  linear_percentile values percentile = do
    raise_if (not (is_unit percentile)) bad_percentile
    raise_if (some_of (λ value. not (is_duration value)) values) bad_sample
    let ordered = sort f.lt values
    if length values == 0
        then ok no_samples
        else check_summary (record {
          value = some (interpolate ordered percentile);
          sample_count = length ordered;
        })

  -- `_mean_metric` of the values that its getter finds.
  abbrev pub mean : List F → Result EvalError (MetricSummary F)
  mean values =
      if length values == 0
      then ok no_samples
      else check_summary (record {
        value = some (f.div (f.fsum values) (f.of_nat (length values)));
        sample_count = length values;
      })

  abbrev pub mean_metric :
      List (QueryOutcome F) → (QueryMetrics F → Option F) → Result EvalError (MetricSummary F)
  mean_metric outcomes getter = mean (metric_values getter outcomes)

  -- `_rate`
  abbrev pub rate : ℕ → ℕ → Result EvalError (MetricSummary F)
  rate numerator denominator =
      if denominator == 0
      then ok no_samples
      else check_summary
          (record { value = some (f.ratio numerator denominator); sample_count = denominator })

  unfoldable pub aggregate_outcomes :
      List (QueryOutcome F) → Result EvalError (EvaluationAggregate F)
  unfolding linear_percentile
  aggregate_outcomes outcomes = do
    raise_if (not (distinct (ids_of outcomes))) repeated_query_ids
    let attempted = length outcomes
    let completed = count_if is_completed outcomes
    let failed = attempted - completed
    let quality_samples = count_if is_judged outcomes
    ndcg ← mean_metric outcomes (λ m. m.ndcg_at_10)
    recall ← mean_metric outcomes (λ m. m.recall_at_50)
    mrr ← mean_metric outcomes (λ m. m.mrr_at_10)
    p50 ← linear_percentile (latencies outcomes) f.half
    p95 ← linear_percentile (latencies outcomes) f.p95
    error_rate ← rate failed attempted
    coverage_rate ← rate completed attempted
    quality_rate ← rate quality_samples attempted
    check_aggregate (record {
      ndcg_at_10 = ndcg;
      recall_at_50 = recall;
      mrr_at_10 = mrr;
      latency_p50_ms = p50;
      latency_p95_ms = p95;
      error_rate = error_rate;
      coverage_rate = coverage_rate;
      quality_coverage_rate = quality_rate;
      attempted_queries = attempted;
      completed_queries = completed;
      failed_queries = failed;
    })
