-- ===== src/Evals/Gates.antt =====
-- evals/gates.py: the evaluation gate. Types are checked by the model's types, and a set of query
-- ids is a list without repetition.
pub mod Verdict
use Prim.Native.String.{String}
use text.Mathlib.Text.{◌==◌ as str_eq}
use pufferlab.Prelude.{
  ℕ, zero, suc, ◌+◌, ◌-◌, Bool, true, false, not, ◌&&◌, ◌||◌, Option, none, some, List, [], ◌∷◌,
  ◌==◌, ltb, leb, map, if◌then◌else◌, is_some, some_of, every, keep, take, contains, distinct,
  length, count_if,
}
use pufferlab.Prelude.Result.{Result, ok, err, ◌>>=◌, ◌>>◌, raise_if, traverse, is_ok}
use pufferlab.Prelude.Sort.{sort}
use pufferlab.Evals.Float.{Float, is_unit, is_signed_unit, is_duration}
use pufferlab.Evals.Models.{
  EvalError, gate_delta_out_of_range, QueryMetrics, QueryOutcome, PairedQueryDelta, is_paired,
  check_metrics, holds?,
}
use pufferlab.Evals.Pairing.{paired_deltas, ids_of}
use pufferlab.Evals.Aggregation.{is_failed}
use pufferlab.Evals.Report.{
  GateMetricName, ndcg_at_10, recall_at_50, mrr_at_10, GatePolicy, GateQueryViolation, GateReport,
  canonical_query_count, max_query_violations, GateCandidateErrorRateCheck,
  GatePairedQueryCoverageCheck, GateAggregateDeltaCheck, GatePerQueryDropCheck, violation_lt,
  verdict_of, is_valid_policy, is_valid_error_rate, is_valid_coverage, is_valid_aggregate,
  is_valid_per_query, is_valid_report,
}

pub data GateEvaluationErrorCode : Type 0 where
  invalid_policy invalid_binding invalid_query_catalog : GateEvaluationErrorCode
  invalid_baseline_evidence invalid_candidate_evidence : GateEvaluationErrorCode
  zero_paired_queries : GateEvaluationErrorCode

-- How an evaluation ends without a report: by a code, by an error of the pairing, or because
-- pydantic refuses a part of the report.
pub data GateFailure : Type 0 where
  refused : GateEvaluationErrorCode → GateFailure
  raised : EvalError → GateFailure
  report_invalid : GateFailure

abbrev pub lift : {A : Type 0} → Result EvalError A → Result GateFailure A
lift (ok a) = ok a
lift (err e) = err (raised e)

abbrev pub validated : {A : Type 0} → Bool → A → Result GateFailure A
validated true a = ok a
validated false a = err report_invalid

abbrev pub has_error_code : Option String → Bool
has_error_code none = false
has_error_code (some text) = not (str_eq text "")

-- `_validated_expected_query_ids`
abbrev pub valid_query_ids : List ℕ → Bool
valid_query_ids ids = length ids == canonical_query_count && distinct ids

module _ {F : Type 0} ⦃f : Float F⦄ where
  -- `_valid_metrics`: what `QueryMetrics` checks.
  abbrev pub valid_metrics : QueryMetrics F → Bool
  valid_metrics m = is_ok (check_metrics m)

  abbrev pub valid_result : Option (QueryMetrics F) → Option String → Bool
  valid_result none error_code = has_error_code error_code
  valid_result (some metrics) error_code = not (is_some error_code) && valid_metrics metrics

  -- `_valid_outcome`
  abbrev pub valid_outcome : QueryOutcome F → Bool
  valid_outcome o = holds? is_duration o.latency_ms && valid_result o.metrics o.error_code

  -- `_validated_outcomes`
  unfoldable pub valid_outcomes : List ℕ → List (QueryOutcome F) → Bool
  valid_outcomes expected outcomes =
      length outcomes == canonical_query_count
      && every valid_outcome outcomes
      && distinct (ids_of outcomes)
      && every (λ id. contains id expected) (ids_of outcomes)
      && every (λ id. contains id (ids_of outcomes)) expected

  abbrev pub metric_value : GateMetricName → PairedQueryDelta F → Option F
  metric_value ndcg_at_10 d = d.ndcg_delta
  metric_value recall_at_50 d = d.recall_delta
  metric_value mrr_at_10 d = d.mrr_delta

  abbrev pub in_range : Option F → Result EvalError F
  in_range none = err gate_delta_out_of_range
  in_range (some value) = if is_signed_unit value then ok value else err gate_delta_out_of_range

  -- `_metric_delta`
  abbrev pub metric_delta : GateMetricName → PairedQueryDelta F → Result EvalError F
  metric_delta metric d = in_range (metric_value metric d)

  -- The violations before they are sorted: `zip(paired, metric_deltas)`, filtered.
  abbrev pub violations_of : F → List (PairedQueryDelta F) → List F → List (GateQueryViolation F)
  violations_of drop [] deltas = []
  violations_of drop (d ∷ ds) [] = []
  violations_of drop (d ∷ ds) (observed ∷ deltas) =
      let rest = violations_of drop ds deltas in
      if f.lt observed (f.neg drop)
      then record { query_id = d.query_id; observed_delta = observed } ∷ rest
      else rest

  -- The four checks, and the report that holds them.
  abbrev pub error_rate_check : GatePolicy F → ℕ → GateCandidateErrorRateCheck F
  error_rate_check policy failed =
      let observed = f.ratio failed canonical_query_count in
      record {
        passed = f.le observed policy.max_error_rate;
        failed_candidate_queries = failed;
        observed_error_rate = observed;
        max_error_rate = policy.max_error_rate;
      }

  abbrev pub coverage_check : GatePolicy F → ℕ → GatePairedQueryCoverageCheck
  coverage_check policy paired = record {
    passed = leb policy.min_paired_queries paired;
    paired_query_count = paired;
    excluded_query_count = canonical_query_count - paired;
    min_paired_queries = policy.min_paired_queries;
  }

  abbrev pub aggregate_check : GatePolicy F → ℕ → F → GateAggregateDeltaCheck F
  aggregate_check policy paired observed = record {
    passed = f.le policy.min_delta observed;
    metric = policy.metric;
    paired_query_count = paired;
    observed_mean_delta = observed;
    min_delta = policy.min_delta;
  }

  abbrev pub drop_check : GatePolicy F → ℕ → List (GateQueryViolation F) → GatePerQueryDropCheck F
  drop_check policy paired violations = record {
    passed = length violations == 0;
    metric = policy.metric;
    paired_query_count = paired;
    max_query_drop = policy.max_query_drop;
    violating_query_count = length violations;
    violations = take max_query_violations violations;
  }

  -- The report on the paired rows and their deltas.
  unfoldable pub report_on :
      ℕ
      → ℕ
      → ℕ
      → GatePolicy F
      → ℕ
      → List (PairedQueryDelta F)
      → List F
      → Result GateFailure (GateReport F)
  unfolding sort is_valid_error_rate is_valid_coverage is_valid_aggregate is_valid_per_query
      is_valid_report
  report_on run_id baseline_id candidate_id policy failed paired deltas = do
    let observed_mean_delta = f.div (f.fsum deltas) (f.of_nat (length deltas))
    let violations = sort violation_lt (violations_of policy.max_query_drop paired deltas)
    let count = length paired
    error_rate ←
        validated (is_valid_error_rate (error_rate_check policy failed))
          (error_rate_check policy failed)
    coverage ←
        validated (is_valid_coverage (coverage_check policy count)) (coverage_check policy count)
    aggregate ←
        validated (is_valid_aggregate (aggregate_check policy count observed_mean_delta))
          (aggregate_check policy count observed_mean_delta)
    per_query ←
        validated (is_valid_per_query (drop_check policy count violations))
          (drop_check policy count violations)
    let report : GateReport F = record {
      verdict =
          verdict_of (error_rate.passed && coverage.passed && aggregate.passed && per_query.passed);
      run_id = run_id;
      baseline_config_id = baseline_id;
      candidate_config_id = candidate_id;
      metric = policy.metric;
      error_rate = error_rate;
      coverage = coverage;
      aggregate = aggregate;
      per_query = per_query;
    }
    validated (is_valid_report report) report

  -- `evaluate_gate`, with `_evaluate_gate_result`
  unfoldable pub evaluate_gate :
      ℕ
      → ℕ
      → ℕ
      → List ℕ
      → List (QueryOutcome F)
      → List (QueryOutcome F)
      → GatePolicy F
      → Result GateFailure (GateReport F)
  unfolding report_on paired_deltas is_valid_policy valid_outcomes
  evaluate_gate run_id baseline_id candidate_id expected baseline candidate policy = do
    raise_if (baseline_id == candidate_id) (refused invalid_binding)
    raise_if (not (is_valid_policy policy)) (refused invalid_policy)
    raise_if (not (valid_query_ids expected)) (refused invalid_query_catalog)
    raise_if (not (valid_outcomes expected baseline)) (refused invalid_baseline_evidence)
    raise_if (not (valid_outcomes expected candidate)) (refused invalid_candidate_evidence)
    deltas ← lift (paired_deltas baseline candidate)
    let paired = keep (λ d. is_paired d.status) deltas
    raise_if (length paired == 0) (refused zero_paired_queries)
    metric_deltas ← lift (traverse (metric_delta policy.metric) paired)
    report_on run_id baseline_id candidate_id policy (count_if is_failed candidate) paired
        metric_deltas
