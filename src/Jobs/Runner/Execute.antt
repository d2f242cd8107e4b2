-- ===== src/Jobs/Runner/Execute.antt =====
-- `EvaluationOutcomeExecutor`: one work item is searched and evaluated, and gives a durable outcome.
-- The search backend, the clock and the identifiers are parameters.
use Prim.Native.String.{String}
use pufferlab.Prelude.{
  ℕ, Bool, false, not, ◌||◌, Option, none, some, List, [], ◌∷◌, ◌++◌, ◌==◌, map, take,
  if◌then◌else◌,
}
use pufferlab.Prelude.Result.{Result, ok, err, ◌>>=◌, ◌>>◌, raise_if}
use pufferlab.Persistence.Records.{DateTime, ApiErrorCode, perf_counter, QueryOutcome}
use pufferlab.Evals.Float.{Float}
use pufferlab.Evals.Models.{
  EvaluationWarning, EvaluationWarningCode, no_positive_qrels, duplicate_qrel,
  duplicate_retrieved_document, Judgment, QueryMetrics,
}
use pufferlab.Evals.Metrics.{evaluate_ranking}
use pufferlab.Jobs.Loop.{QueryWorkItem}
use pufferlab.Jobs.Runner.{
  StageTiming, PerQueryMetrics, EvalOutcomeWarning, EvalSuccessPayload, EvalFailurePayload,
  EvalOutcomePayload, success, failure, RunnerError, unknown_query, work_item_mismatch,
  config_mismatch, invalid_payload, search_exception, of_evals, PayloadCodec, is_valid_success,
  is_valid_failure, is_valid_outcome_payload, status_of_payload,
}

-- `qrels` are the judgments of the query; `filters` is the text of its filter.
pub record JudgedQuery : Type 0 where
  pub id : ℕ
  pub text : String
  pub filters : Option String
  pub qrels : List Judgment

pub record ConfigSearchResult (F : Type 0) : Type 0 where
  pub config_id : ℕ
  pub hits : List ℕ
  pub timings : List (StageTiming F)
  pub candidate_counts : List (String × ℕ)
  pub warnings : List EvalOutcomeWarning
  pub trace_id : ℕ

pub record SearchExecuteResult (F : Type 0) : Type 0 where
  pub config_id : ℕ
  pub query_id : Option ℕ
  pub result : ConfigSearchResult F

-- What a search is asked for; the provenance and the expected documents keep their defaults.
pub record SearchExecuteRequest : Type 0 where
  pub namespace : String
  pub query_text : String
  pub config_id : ℕ
  pub query_id : Option ℕ
  pub filter_override : Option String
  pub debug_provenance : Bool

-- The details of a `SearchError` or of a `ProviderError`.
pub record SearchFailure : Type 0 where
  pub code : ApiErrorCode
  pub message : String
  pub retryable : Bool
  pub operation : String

-- How `search_one` ends: with an execution, with an expected error, or with another exception.
pub data Searched (F : Type 0) : Type 0 where
  found : SearchExecuteResult F → Searched F
  refused : SearchFailure → Searched F
  raised : ℕ → Searched F

-- What one execution takes from its environment.
pub record Execution (F : Type 0) : Type 0 where
  pub namespace : String
  pub search_one : SearchExecuteRequest → Searched F
  pub started : F
  pub finished : F
  pub now : DateTime
  pub trace_id : ℕ
  -- The messages of the engine's warnings
  pub message_of : EvaluationWarningCode → String

abbrev code_value : EvaluationWarningCode → String
code_value no_positive_qrels = "no_positive_qrels"
code_value duplicate_qrel = "duplicate_qrel"
code_value duplicate_retrieved_document = "duplicate_retrieved_document"

-- `execution.query_id == item.query_id`
abbrev pub is_query : Option ℕ → ℕ → Bool
is_query none id = false
is_query (some query) id = query == id

abbrev pub query_of : List JudgedQuery → ℕ → Option JudgedQuery
query_of [] id = none
query_of (query ∷ queries) id =
    let rest = query_of queries id in if query.id == id then some query else rest

abbrev pub or_unknown : {A : Type 0} → Option A → Result RunnerError A
or_unknown none = err unknown_query
or_unknown (some a) = ok a

module _ {F P : Type 0} ⦃f : Float F⦄ (c : PayloadCodec F P) (run_id : ℕ) (env : Execution F)
    (item : QueryWorkItem) where
  -- `max(0.0, (clock() - started) * 1000.0)`
  abbrev pub elapsed_ms : F
  elapsed_ms =
      let elapsed = f.mul (f.sub env.finished env.started) (f.of_nat 1000) in
      if f.lt f.nought elapsed then elapsed else f.nought

  -- `_contract_metrics`
  abbrev pub contract_metrics : QueryMetrics F → PerQueryMetrics F
  contract_metrics m = record {
    ndcg_at_10 = m.ndcg_at_10;
    recall_at_50 = m.recall_at_50;
    mrr_at_10 = m.mrr_at_10;
  }

  -- The outcome of a payload that pydantic accepts, with its status.
  abbrev pub outcome_of_payload : EvalOutcomePayload F → Result RunnerError (QueryOutcome P)
  outcome_of_payload payload = do
    raise_if (not (is_valid_outcome_payload payload)) invalid_payload
    ok (record {
      run_id = run_id;
      config_id = item.config_id;
      query_id = item.query_id;
      status = status_of_payload payload;
      payload = c.dump payload;
      created_at = env.now;
    })

  abbrev pub failure_payload : SearchFailure → EvalFailurePayload F
  failure_payload error = record {
    code = error.code;
    message = error.message;
    retryable = error.retryable;
    operation = error.operation;
    trace_id = env.trace_id;
    total_client_wall_latency_ms = elapsed_ms;
  }

  -- `_failed_outcome`
  abbrev pub failed_outcome : SearchFailure → Result RunnerError (QueryOutcome P)
  failed_outcome error = outcome_of_payload (failure (failure_payload error))

  abbrev engine_warning : EvaluationWarning → EvalOutcomeWarning
  engine_warning w = record { code = code_value w.code; message = env.message_of w.code }

  abbrev pub success_payload : List ℕ → QueryMetrics F → ConfigSearchResult F → EvalSuccessPayload F
  success_payload ranked judged result = record {
    ranked_document_ids = ranked;
    metrics = contract_metrics judged;
    timing_source = perf_counter;
    total_client_wall_latency_ms = some elapsed_ms;
    stage_timings = result.timings;
    candidate_counts = result.candidate_counts;
    warnings = map engine_warning judged.warnings ++ result.warnings;
    trace_id = some result.trace_id;
  }

  abbrev pub judged_outcome :
      JudgedQuery → SearchExecuteResult F → Result RunnerError (QueryOutcome P)
  judged_outcome query execution = do
    raise_if
        (not (execution.config_id == item.config_id)
          || not (is_query execution.query_id item.query_id))
        work_item_mismatch
    let result = execution.result
    raise_if (not (result.config_id == item.config_id)) config_mismatch
    let ranked = take 50 result.hits
    judged ← of_evals (evaluate_ranking ranked query.qrels)
    outcome_of_payload (success (success_payload ranked judged result))

  abbrev pub after_search : JudgedQuery → Searched F → Result RunnerError (QueryOutcome P)
  after_search query (found execution) = judged_outcome query execution
  after_search query (refused error) = failed_outcome error
  after_search query (raised exception) = err (search_exception exception)

  abbrev pub request : JudgedQuery → SearchExecuteRequest
  request query = record {
    namespace = env.namespace;
    query_text = query.text;
    config_id = item.config_id;
    query_id = some query.id;
    filter_override = query.filters;
    debug_provenance = false;
  }

  -- `__call__`
  unfoldable pub execute : List JudgedQuery → Result RunnerError (QueryOutcome P)
  unfolding evaluate_ranking is_valid_success is_valid_failure
  execute queries = do
    query ← or_unknown (query_of queries item.query_id)
    after_search query (env.search_one (request query))
