-- ===== src/Evals/Models.antt =====
-- evals/models.py: the values of the evaluation engine. A constructor function checks what
-- `__post_init__` checks; the checks of types and of negative counts are the types of the model.
-- A query id and a document id are numbers: `str` of an UUID has a fixed width, so it has the order
-- of the numbers.
use Prim.Native.String.{String}
use text.Mathlib.Text.{◌==◌ as str_eq}
use pufferlab.Prelude.{
  ℕ, ◌+◌, Bool, true, false, not, ◌&&◌, ◌||◌, Option, none, some, List, ◌==◌, is_some, some_of,
}
use pufferlab.Prelude.Result.{Result, ok, ◌>>◌, raise_if}
use pufferlab.Evals.Float.{Float, is_unit, is_duration}

-- The errors that this code raises, by their messages.
pub data EvalError : Type 0 where
  mixed_metrics null_without_warning defined_with_warning metric_out_of_range : EvalError
  metrics_and_error empty_error_code bad_latency : EvalError
  aggregate_not_finite null_with_samples value_without_samples bad_counts : EvalError
  delta_not_finite paired_without_deltas deltas_without_pair : EvalError
  conflicting_qrels bad_percentile bad_sample repeated_query_ids : EvalError
  repeated_baseline_ids repeated_candidate_ids missing_deltas gate_delta_out_of_range : EvalError

pub data EvaluationWarningCode : Type 0 where
  no_positive_qrels duplicate_qrel duplicate_retrieved_document : EvaluationWarningCode

-- The message of a warning is a constant that its code determines, and it is not modelled.
pub record EvaluationWarning : Type 0 where
  pub code : EvaluationWarningCode

pub record Judgment : Type 0 where
  pub document_id : ℕ
  pub relevance_grade : ℕ

pub record QueryMetrics (F : Type 0) : Type 0 where
  pub ndcg_at_10 : Option F
  pub recall_at_50 : Option F
  pub mrr_at_10 : Option F
  pub warnings : List EvaluationWarning

pub record QueryOutcome (F : Type 0) : Type 0 where
  pub query_id : ℕ
  pub metrics : Option (QueryMetrics F)
  pub latency_ms : Option F
  pub error_code : Option String

pub record MetricSummary (F : Type 0) : Type 0 where
  pub value : Option F
  pub sample_count : ℕ

pub record EvaluationAggregate (F : Type 0) : Type 0 where
  pub ndcg_at_10 : MetricSummary F
  pub recall_at_50 : MetricSummary F
  pub mrr_at_10 : MetricSummary F
  pub latency_p50_ms : MetricSummary F
  pub latency_p95_ms : MetricSummary F
  pub error_rate : MetricSummary F
  pub coverage_rate : MetricSummary F
  pub quality_coverage_rate : MetricSummary F
  pub attempted_queries : ℕ
  pub completed_queries : ℕ
  pub failed_queries : ℕ

pub data PairStatus : Type 0 where
  paired baseline_missing candidate_missing baseline_failed candidate_failed : PairStatus
  both_failed no_positive_qrels : PairStatus

pub record PairedQueryDelta (F : Type 0) : Type 0 where
  pub query_id : ℕ
  pub status : PairStatus
  pub baseline_metrics : Option (QueryMetrics F)
  pub candidate_metrics : Option (QueryMetrics F)
  pub ndcg_delta : Option F
  pub recall_delta : Option F
  pub mrr_delta : Option F
  pub latency_delta_ms : Option F

abbrev pub is_paired : PairStatus → Bool
is_paired paired = true
is_paired _ = false

abbrev pub is_no_positive : EvaluationWarning → Bool
is_no_positive w = elim w.code [
  | no_positive_qrels ↦ true
  | duplicate_qrel ↦ false
  | duplicate_retrieved_document ↦ false
]

-- The check `p` of a value that may be absent.
abbrev pub holds? : {F : Type 0} → (F → Bool) → Option F → Bool
holds? p none = true
holds? p (some x) = p x

abbrev pub all_present : {F : Type 0} → Option F → Option F → Option F → Bool
all_present a b c = is_some a && is_some b && is_some c

abbrev pub all_absent : {F : Type 0} → Option F → Option F → Option F → Bool
all_absent a b c = not (is_some a) && not (is_some b) && not (is_some c)

abbrev is_empty_text : Option String → Bool
is_empty_text none = false
is_empty_text (some text) = str_eq text ""

module _ {F : Type 0} ⦃f : Float F⦄ where
  abbrev pub check_metrics : QueryMetrics F → Result EvalError (QueryMetrics F)
  check_metrics m = do
    let present = all_present m.ndcg_at_10 m.recall_at_50 m.mrr_at_10
    let absent = all_absent m.ndcg_at_10 m.recall_at_50 m.mrr_at_10
    let has_no_qrel_warning = some_of is_no_positive m.warnings
    raise_if (not present && not absent) mixed_metrics
    raise_if (absent && not has_no_qrel_warning) null_without_warning
    raise_if (present && has_no_qrel_warning) defined_with_warning
    raise_if
        (not (
          holds? is_unit m.ndcg_at_10
          && holds? is_unit m.recall_at_50
          && holds? is_unit m.mrr_at_10))
        metric_out_of_range
    ok m

  abbrev pub check_summary : MetricSummary F → Result EvalError (MetricSummary F)
  check_summary s = do
    raise_if (not (holds? f.is_finite s.value)) aggregate_not_finite
    raise_if (not (is_some s.value) && not (s.sample_count == 0)) null_with_samples
    raise_if (is_some s.value && s.sample_count == 0) value_without_samples
    ok s

  abbrev pub check_aggregate : EvaluationAggregate F → Result EvalError (EvaluationAggregate F)
  check_aggregate a = do
    raise_if (not (a.completed_queries + a.failed_queries == a.attempted_queries)) bad_counts
    ok a

  abbrev pub check_delta : PairedQueryDelta F → Result EvalError (PairedQueryDelta F)
  check_delta d = do
    raise_if
        (not (
          holds? f.is_finite d.ndcg_delta
          && holds? f.is_finite d.recall_delta
          && holds? f.is_finite d.mrr_delta
          && holds? f.is_finite d.latency_delta_ms))
        delta_not_finite
    raise_if (is_paired d.status && not (all_present d.ndcg_delta d.recall_delta d.mrr_delta))
        paired_without_deltas
    raise_if (not (is_paired d.status) && not (all_absent d.ndcg_delta d.recall_delta d.mrr_delta))
        deltas_without_pair
    ok d

  -- `__post_init__` of `QueryOutcome`
  abbrev pub check_attempt : QueryOutcome F → Result EvalError (QueryOutcome F)
  check_attempt o = do
    raise_if
        (is_some o.metrics && is_some o.error_code
          || not (is_some o.metrics) && not (is_some o.error_code))
        metrics_and_error
    raise_if (is_empty_text o.error_code) empty_error_code
    raise_if (not (holds? is_duration o.latency_ms)) bad_latency
    ok o
