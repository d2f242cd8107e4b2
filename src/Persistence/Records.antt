-- ===== src/Persistence/Records.antt =====
-- contracts/evals.py, contracts/errors.py and persistence/types.py: the durable values.
-- `F` is the type of the metric values. A UUID is its 128-bit number: `str` of a UUID has a fixed
-- width, so numbers and texts have the same equality and order.
use Prim.Native.String.{String}
use text.Mathlib.Text.{◌==◌ as str_eq}
use pufferlab.Prelude.{ℕ, ◌≡◌, Bool, true, false, ◌&&◌, Option, List, ◌∷◌, arith, ◌==◌}
use pufferlab.Prelude.Int.{ℤ}

-- An instant in microseconds; `aware` is false where the datetime carries no UTC offset.
pub record DateTime : Type 0 where
  pub instant : ℕ
  pub aware : Bool

pub data EvalRunStatus : Type 0 where
  queued running completed failed cancelled interrupted : EvalRunStatus

abbrev pub same_status : EvalRunStatus → EvalRunStatus → Bool
same_status queued queued = true
same_status running running = true
same_status completed completed = true
same_status failed failed = true
same_status cancelled cancelled = true
same_status interrupted interrupted = true
same_status _ _ = false

-- `_TERMINAL_STATUSES`
abbrev pub is_terminal : EvalRunStatus → Bool
is_terminal queued = false
is_terminal running = false
is_terminal _ = true

-- `target in _ALLOWED_TRANSITIONS.get(current, set())`
abbrev pub is_allowed : EvalRunStatus → EvalRunStatus → Bool
is_allowed queued running = true
is_allowed queued failed = true
is_allowed queued cancelled = true
is_allowed running completed = true
is_allowed running failed = true
is_allowed running cancelled = true
is_allowed running interrupted = true
is_allowed _ _ = false

pub data MetricName : Type 0 where
  ndcg_at_10 recall_at_50 mrr_at_10 latency_p50_ms latency_p95_ms error_rate : MetricName

pub record MetricAggregate (F : Type 0) : Type 0 where
  pub name : MetricName
  pub value : Option F
  pub sample_count : ℕ

pub record ConfigRunSummary (F : Type 0) : Type 0 where
  pub config_id : ℕ
  pub metrics : List (MetricAggregate F)
  pub completed_queries : ℕ
  pub failed_queries : ℕ

pub data ApiErrorCode : Type 0 where
  validation_error configuration_required not_found namespace_not_ready : ApiErrorCode
  provider_error rate_limited run_conflict internal_error : ApiErrorCode

-- `details` is the text of its JSON value.
pub record ApiErrorDetail : Type 0 where
  pub code : ApiErrorCode
  pub message : String
  pub retryable : Bool
  pub trace_id : ℕ
  pub details : String

pub data TimingSource : Type 0 where
  perf_counter synthetic_unavailable : TimingSource

pub record RunEnvironment : Type 0 where
  pub pufferlab_git_revision : String
  pub turbopuffer_region : String
  pub python_version : String
  pub platform : String
  pub max_concurrency : ℕ
  pub warmup_query_count : ℕ
  pub timing_source : TimingSource
  pub query_embedding_cache_enabled : Bool

pub record QuerySetSummary : Type 0 where
  pub id : ℕ
  pub name : String
  pub version : String
  pub query_count : ℕ
  pub content_hash : String

-- `value.query_set != expected_summary`, negated.
abbrev pub same_summary : QuerySetSummary → QuerySetSummary → Bool
same_summary a b =
    a.id == b.id
    && str_eq a.name b.name
    && str_eq a.version b.version
    && a.query_count == b.query_count
    && str_eq a.content_hash b.content_hash

pub record QuerySet : Type 0 where
  pub id : ℕ
  pub name : String
  pub version : String
  pub dataset_version_id : ℕ
  pub query_count : ℕ
  pub content_hash : String
  pub created_at : DateTime

-- The catalog fields of a retrieval config; `spec` is the text of its retrieval fields.
pub record RetrievalConfig : Type 0 where
  pub id : ℕ
  pub revision : ℕ
  pub name : String
  pub dataset_version_id : ℕ
  pub spec : String
  pub config_hash : String
  pub created_at : DateTime

pub record EvalRun (F : Type 0) : Type 0 where
  pub id : ℕ
  pub status : EvalRunStatus
  pub query_set : QuerySetSummary
  pub baseline_config_id : ℕ
  pub candidate_config_ids : List ℕ
  pub summaries : List (ConfigRunSummary F)
  pub completed_queries : ℕ
  pub total_queries : ℕ
  pub random_seed : ℤ
  pub environment : RunEnvironment
  pub created_at : DateTime
  pub started_at : Option DateTime
  pub completed_at : Option DateTime
  pub error : Option ApiErrorDetail

-- `[run.baseline_config_id, *run.candidate_config_ids]`
abbrev pub config_ids : {F : Type 0} → EvalRun F → List ℕ
config_ids run = run.baseline_config_id ∷ run.candidate_config_ids

pub data QueryOutcomeStatus : Type 0 where
  succeeded failed : QueryOutcomeStatus

abbrev pub same_outcome_status : QueryOutcomeStatus → QueryOutcomeStatus → Bool
same_outcome_status QueryOutcomeStatus.succeeded QueryOutcomeStatus.succeeded = true
same_outcome_status QueryOutcomeStatus.failed QueryOutcomeStatus.failed = true
same_outcome_status _ _ = false

-- `P` is the type of the payload, which the evaluation layer owns.
pub record QueryOutcome (P : Type 0) : Type 0 where
  pub run_id : ℕ
  pub config_id : ℕ
  pub query_id : ℕ
  pub status : QueryOutcomeStatus
  pub payload : P
  pub created_at : DateTime

pub same_status→eq : (a b : EvalRunStatus) → same_status a b ≡ true → a ≡ b
same_status→eq a b h = ground arith
