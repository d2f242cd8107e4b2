-- ===== src/Jobs/Runner/Finalize.antt =====
-- `finalize_durable_outcomes`: the summaries of a run, from its durable outcomes alone.
use Prim.Native.String.{String}
use pufferlab.Prelude.{
  ℕ, Bool, true, false, not, ◌&&◌, ◌||◌, none, some, List, [], ◌∷◌, ◌++◌, ltb, ◌==◌, map, keep,
  some_of, is_some, if◌then◌else◌,
}
use pufferlab.Prelude.Result.{Result, ok, ◌>>=◌, ◌>>◌, raise_if, traverse}
use pufferlab.Prelude.Sort.{sort}
use pufferlab.Persistence.Records.{
  MetricName, MetricAggregate, ConfigRunSummary, ApiErrorCode, configuration_required, not_found,
  namespace_not_ready, provider_error, rate_limited, run_conflict, internal_error, EvalRun,
  QueryOutcome, config_ids,
}
use pufferlab.Evals.Float.{Float}
use pufferlab.Evals.Models.{
  no_positive_qrels, QueryMetrics, MetricSummary, EvaluationAggregate, check_metrics, check_attempt,
  holds?,
}
use pufferlab.Evals.Models.{QueryOutcome as EvaluatedQueryOutcome}
use pufferlab.Evals.Aggregation.{aggregate_outcomes}
use pufferlab.Jobs.Runner.{
  EvalSuccessPayload, EvalOutcomePayload, success, failure, RunnerError, another_run,
  duplicate_identities, inexact_coverage, invalid_aggregate, of_evals, PayloadCodec,
  decode_outcome_payload,
}

-- `payload.code.value`
abbrev pub error_code_value : ApiErrorCode → String
error_code_value ApiErrorCode.validation_error = "validation_error"
error_code_value configuration_required = "configuration_required"
error_code_value not_found = "not_found"
error_code_value namespace_not_ready = "namespace_not_ready"
error_code_value provider_error = "provider_error"
error_code_value rate_limited = "rate_limited"
error_code_value run_conflict = "run_conflict"
error_code_value internal_error = "internal_error"

-- A config with a query.
abbrev pub Pair : Type 0
Pair = ℕ × ℕ

abbrev pub has_pair : ℕ → ℕ → List Pair → Bool
has_pair config query [] = false
has_pair config query ((x, y) ∷ pairs) = x == config && y == query || has_pair config query pairs

abbrev pub distinct_pairs : List Pair → Bool
distinct_pairs [] = true
distinct_pairs ((x, y) ∷ pairs) = not (has_pair x y pairs) && distinct_pairs pairs

abbrev pub is_pair_subset : List Pair → List Pair → Bool
is_pair_subset [] all = true
is_pair_subset ((x, y) ∷ pairs) all = has_pair x y all && is_pair_subset pairs all

-- `{(config_id, query_id) for config_id in config_ids for query_id in query_ids}`
abbrev pub product : List ℕ → List ℕ → List Pair
product [] queries = []
product (config ∷ configs) queries =
    map (λ query. (config, query)) queries ++ product configs queries

abbrev pub pair_of : {P : Type 0} → QueryOutcome P → Pair
pair_of outcome = (outcome.config_id, outcome.query_id)

abbrev pub by_query_id : {P : Type 0} → QueryOutcome P → QueryOutcome P → Bool
by_query_id a b = ltb a.query_id b.query_id

module _ {F P : Type 0} ⦃f : Float F⦄ (c : PayloadCodec F P) where
  -- `_engine_metrics`
  abbrev pub engine_metrics : EvalSuccessPayload F → Result RunnerError (QueryMetrics F)
  engine_metrics payload = of_evals (
      check_metrics (record {
        ndcg_at_10 = payload.metrics.ndcg_at_10;
        recall_at_50 = payload.metrics.recall_at_50;
        mrr_at_10 = payload.metrics.mrr_at_10;
        warnings =
            if is_some payload.metrics.ndcg_at_10
            then []
            else record { code = no_positive_qrels } ∷ [];
      }))

  abbrev pub evaluated : ℕ → EvalOutcomePayload F → Result RunnerError (EvaluatedQueryOutcome F)
  evaluated query_id (success payload) = do
    metrics ← engine_metrics payload
    of_evals (
        check_attempt (record {
          query_id = query_id;
          metrics = some metrics;
          latency_ms = payload.total_client_wall_latency_ms;
          error_code = none;
        }))
  evaluated query_id (failure payload) = of_evals (
      check_attempt (record {
        query_id = query_id;
        metrics = none;
        latency_ms = some payload.total_client_wall_latency_ms;
        error_code = some (error_code_value payload.code);
      }))

  abbrev pub evaluate_outcome : QueryOutcome P → Result RunnerError (EvaluatedQueryOutcome F)
  evaluate_outcome outcome = do
    payload ← decode_outcome_payload c outcome
    evaluated outcome.query_id payload

  -- `MetricAggregate` with its validator
  abbrev metric_aggregate : (MetricName × MetricSummary F) → Result RunnerError (MetricAggregate F)
  metric_aggregate (name, summary) = do
    raise_if (not (holds? f.is_finite summary.value)) invalid_aggregate
    raise_if (not (is_some summary.value) && not (summary.sample_count == 0)) invalid_aggregate
    raise_if (is_some summary.value && summary.sample_count == 0) invalid_aggregate
    ok (record { name = name; value = summary.value; sample_count = summary.sample_count })

  -- `named_metrics`, in the order of `_SUMMARY_METRIC_ORDER`
  abbrev named_metrics : EvaluationAggregate F → List (MetricName × MetricSummary F)
  named_metrics a =
      (MetricName.ndcg_at_10, a.ndcg_at_10)
      ∷ (MetricName.recall_at_50, a.recall_at_50)
      ∷ (MetricName.mrr_at_10, a.mrr_at_10)
      ∷ (MetricName.latency_p50_ms, a.latency_p50_ms)
      ∷ (MetricName.latency_p95_ms, a.latency_p95_ms)
      ∷ (MetricName.error_rate, a.error_rate)
      ∷ []

  abbrev pub metric_aggregates :
      EvaluationAggregate F → Result RunnerError (List (MetricAggregate F))
  metric_aggregates a = traverse metric_aggregate (named_metrics a)

  abbrev pub config_summary :
      ℕ → EvaluationAggregate F → List (MetricAggregate F) → ConfigRunSummary F
  config_summary config_id a metrics = record {
    config_id = config_id;
    metrics = metrics;
    completed_queries = a.completed_queries;
    failed_queries = a.failed_queries;
  }

  -- The outcomes of one config, by query.
  abbrev pub outcomes_of : List (QueryOutcome P) → ℕ → List (QueryOutcome P)
  outcomes_of outcomes config_id =
      sort by_query_id (keep (λ outcome. outcome.config_id == config_id) outcomes)

  unfoldable pub summarize : List (QueryOutcome P) → ℕ → Result RunnerError (ConfigRunSummary F)
  unfolding aggregate_outcomes decode_outcome_payload sort
  summarize outcomes config_id = do
    evaluated ← traverse evaluate_outcome (outcomes_of outcomes config_id)
    aggregate ← of_evals (aggregate_outcomes evaluated)
    metrics ← metric_aggregates aggregate
    ok (config_summary config_id aggregate metrics)

  unfoldable pub finalize_durable_outcomes :
      EvalRun F → List (QueryOutcome P) → List ℕ → Result RunnerError (List (ConfigRunSummary F))
  unfolding summarize
  finalize_durable_outcomes run outcomes query_ids = do
    let expected = product (config_ids run) query_ids
    raise_if (some_of (λ outcome. not (outcome.run_id == run.id)) outcomes) another_run
    let actual = map pair_of outcomes
    raise_if (not (distinct_pairs actual)) duplicate_identities
    raise_if (not (is_pair_subset actual expected && is_pair_subset expected actual))
        inexact_coverage
    traverse (summarize outcomes) (config_ids run)
