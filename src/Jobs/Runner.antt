-- ===== src/Jobs/Runner.antt =====
-- jobs/eval_runner.py: the durable payload of an attempt, and the codecs between payloads and
-- outcomes. The payload models are those of contracts/evals.py and contracts/search.py.
pub mod Execute
pub mod Finalize
pub mod Counts
pub mod Coverage
pub mod Completes
pub mod Attempts
use Prim.Native.String.{String, count, [] as no_text, ◌∷◌ as text_cons}
use Prim.Native.Char.{code}
use text.Mathlib.Text.{◌==◌ as str_eq}
use pufferlab.Prelude.{
  ℕ, ◌≡◌, Bool, true, false, not, ◌&&◌, ◌||◌, Option, none, some, List, [], ◌∷◌, leb, ◌==◌, is_some,
  some_of, every, length, distinct, map,
}
use pufferlab.Prelude.Result.{Result, ok, err, ◌>>=◌, ◌>>◌, raise_if}
use pufferlab.Persistence.Records.{
  DateTime, ApiErrorCode, validation_error, configuration_required, not_found, namespace_not_ready,
  provider_error, rate_limited, run_conflict, internal_error, TimingSource, perf_counter,
  synthetic_unavailable, QueryOutcomeStatus, succeeded, QueryOutcome, same_outcome_status,
}
use pufferlab.Evals.Float.{Float, is_unit, is_duration}
use pufferlab.Evals.Models.{EvalError, holds?, all_present, all_absent}

pub data TimingStage : Type 0 where
  embed turbopuffer provenance_probe fusion rerank total : TimingStage

abbrev pub stage_number : TimingStage → ℕ
stage_number embed = 0
stage_number turbopuffer = 1
stage_number provenance_probe = 2
stage_number fusion = 3
stage_number rerank = 4
stage_number total = 5

-- `measurement` has one value.
pub record StageTiming (F : Type 0) : Type 0 where
  pub stage : TimingStage
  pub duration_ms : F

pub record PerQueryMetrics (F : Type 0) : Type 0 where
  pub ndcg_at_10 : Option F
  pub recall_at_50 : Option F
  pub mrr_at_10 : Option F

pub record EvalOutcomeWarning : Type 0 where
  pub code : String
  pub message : String

pub record EvalSuccessPayload (F : Type 0) : Type 0 where
  pub ranked_document_ids : List ℕ
  pub metrics : PerQueryMetrics F
  pub timing_source : TimingSource
  pub total_client_wall_latency_ms : Option F
  pub stage_timings : List (StageTiming F)
  -- The items of the dict, each key once.
  pub candidate_counts : List (String × ℕ)
  pub warnings : List EvalOutcomeWarning
  pub trace_id : Option ℕ

pub record EvalFailurePayload (F : Type 0) : Type 0 where
  pub code : ApiErrorCode
  pub message : String
  pub retryable : Bool
  pub operation : String
  pub trace_id : ℕ
  pub total_client_wall_latency_ms : F

pub data EvalOutcomePayload (F : Type 0) : Type 0 where
  success : EvalSuccessPayload F → EvalOutcomePayload F
  failure : EvalFailurePayload F → EvalOutcomePayload F

-- The errors of this module; the number is an exception of the search.
pub data RunnerError : Type 0 where
  unknown_query work_item_mismatch config_mismatch invalid_payload : RunnerError
  another_run duplicate_identities inexact_coverage status_mismatch invalid_aggregate : RunnerError
  evaluation_error : EvalError → RunnerError
  search_exception : ℕ → RunnerError

abbrev pub of_evals : {A : Type 0} → Result EvalError A → Result RunnerError A
of_evals (ok a) = ok a
of_evals (err e) = err (evaluation_error e)

abbrev is_lower : ℕ → Bool
is_lower c = leb 97 c && leb c 122

abbrev is_code_char : ℕ → Bool
is_code_char c = is_lower c || leb 48 c && leb c 57 || c == 95

code_chars : String → Bool
code_chars no_text = true
code_chars (text_cons c s) = is_code_char (code c) && code_chars s

-- `^[a-z][a-z0-9_]*$`
unfoldable pub matches_code : String → Bool
unfolding code_chars
matches_code no_text = false
matches_code (text_cons c s) = is_lower (code c) && code_chars s

abbrev between : ℕ → ℕ → ℕ → Bool
between low high n = leb low n && leb n high

abbrev pub is_valid_warning : EvalOutcomeWarning → Bool
is_valid_warning w =
    between 1 64 (count w.code) && matches_code w.code && between 1 512 (count w.message)

-- `warning.code == "no_positive_qrels"`
abbrev pub is_no_qrels : EvalOutcomeWarning → Bool
is_no_qrels w = str_eq w.code "no_positive_qrels"

abbrev is_total : TimingStage → Bool
is_total stage = stage_number stage == 5

abbrev is_nil : {A : Type 0} → List A → Bool
is_nil [] = true
is_nil (_ ∷ _) = false

module _ {F : Type 0} ⦃f : Float F⦄ where
  -- A field with `ge=0` and no infinity is a duration, one with `le=1` too is of the unit interval.
  abbrev pub is_valid_metrics : PerQueryMetrics F → Bool
  is_valid_metrics m =
      holds? is_unit m.ndcg_at_10
      && holds? is_unit m.recall_at_50
      && holds? is_unit m.mrr_at_10
      && (all_present m.ndcg_at_10 m.recall_at_50 m.mrr_at_10
          || all_absent m.ndcg_at_10 m.recall_at_50 m.mrr_at_10)

  -- The bounds of the fields of `EvalSuccessPayload`.
  abbrev has_valid_fields : EvalSuccessPayload F → Bool
  has_valid_fields p =
      leb (length p.ranked_document_ids) 50
      && is_valid_metrics p.metrics
      && holds? is_duration p.total_client_wall_latency_ms
      && leb (length p.stage_timings) 10
      && every (λ (t : StageTiming F). is_duration t.duration_ms) p.stage_timings
      && leb (length p.candidate_counts) 10
      && leb (length p.warnings) 20
      && every is_valid_warning p.warnings

  -- What a timing source says of the measurements.
  abbrev has_measurements : TimingSource → EvalSuccessPayload F → Bool
  has_measurements perf_counter p = is_some p.total_client_wall_latency_ms && is_some p.trace_id
  has_measurements synthetic_unavailable p =
      not (is_some p.total_client_wall_latency_ms)
      && is_nil p.stage_timings
      && is_nil p.candidate_counts
      && not (is_some p.trace_id)

  -- `validate_evidence`
  abbrev has_valid_evidence : EvalSuccessPayload F → Bool
  has_valid_evidence p =
      let stages = map (λ (t : StageTiming F). t.stage) p.stage_timings in
      distinct p.ranked_document_ids
      && not (some_of (λ (named : String × ℕ). str_eq named.0 "") p.candidate_counts)
      && distinct (map stage_number stages)
      && not (some_of is_total stages)
      && (is_some p.metrics.ndcg_at_10 && not (some_of is_no_qrels p.warnings)
          || not (is_some p.metrics.ndcg_at_10) && some_of is_no_qrels p.warnings)
      && has_measurements p.timing_source p

  unfoldable pub is_valid_success : EvalSuccessPayload F → Bool
  unfolding matches_code
  is_valid_success p = has_valid_fields p && has_valid_evidence p

  unfoldable pub is_valid_failure : EvalFailurePayload F → Bool
  is_valid_failure p =
      leb 1 (count p.message)
      && leb 1 (count p.operation)
      && is_duration p.total_client_wall_latency_ms

  abbrev pub is_valid_outcome_payload : EvalOutcomePayload F → Bool
  is_valid_outcome_payload (success p) = is_valid_success p
  is_valid_outcome_payload (failure p) = is_valid_failure p

-- `_PAYLOAD_ADAPTER`: `P` is the JSON value of a payload; `none` for a value of another shape.
pub record PayloadCodec (F P : Type 0) : Type 0 where
  pub dump : EvalOutcomePayload F → P
  pub parse : P → Option (EvalOutcomePayload F)

abbrev pub status_of_payload : {F : Type 0} → EvalOutcomePayload F → QueryOutcomeStatus
status_of_payload (success p) = QueryOutcomeStatus.succeeded
status_of_payload (failure p) = QueryOutcomeStatus.failed

abbrev pub or_invalid_payload : {A : Type 0} → Option A → Result RunnerError A
or_invalid_payload none = err invalid_payload
or_invalid_payload (some a) = ok a

module _ {F P : Type 0} ⦃f : Float F⦄ (c : PayloadCodec F P) where
  -- A valid payload that is written is read back.
  pub record IsFaithfulPayload : Type 0 where
    pub parse-dump :
        (p : EvalOutcomePayload F) → is_valid_outcome_payload p ≡ true → c.parse (c.dump p) ≡ some p

  unfoldable pub decode_outcome_payload : QueryOutcome P → Result RunnerError (EvalOutcomePayload F)
  unfolding is_valid_success is_valid_failure
  decode_outcome_payload outcome = do
    payload ← or_invalid_payload (c.parse outcome.payload)
    raise_if (not (is_valid_outcome_payload payload)) invalid_payload
    raise_if (not (same_outcome_status outcome.status (status_of_payload payload))) status_mismatch
    ok payload
