-- ===== src/Jobs/Runner/Attempts.antt =====
-- The outcomes that `EvaluationOutcomeExecutor` makes are those that `finalize_durable_outcomes`
-- reads.
use mathlib.Core.Path.{subst}
use text.Mathlib.Text.{◌==◌ as str_eq}
use pufferlab.Prelude.{
  &&-true, ℕ, ◌≡◌, refl, ap, ◌∙◌, true, false, not, ◌||◌, ◌==◌, Option, none, some, List, [], ◌∷◌,
  is_some, if◌then◌else◌, arith, take,
}
use pufferlab.Prelude.Result.{◌>>=◌, ok, raise_if, >>=-eq-ok, ok-injective}
use pufferlab.Persistence.Records.{ApiErrorCode, QueryOutcome, same_outcome_status}
use pufferlab.Evals.Float.{Float, is_unit, is_duration}
use pufferlab.Evals.Models.{QueryMetrics, check_metrics, holds?, no_positive_qrels}
use pufferlab.Evals.Models.{QueryOutcome as EvaluatedQueryOutcome}
use pufferlab.Evals.Metrics.{evaluate_ranking}
use pufferlab.Jobs.Loop.{QueryWorkItem}
use pufferlab.Jobs.Runner.{
  EvalSuccessPayload, EvalOutcomePayload, success, failure, work_item_mismatch, config_mismatch,
  invalid_payload, of_evals, PayloadCodec, IsFaithfulPayload, is_valid_metrics, is_valid_success,
  is_valid_failure, is_valid_outcome_payload, status_of_payload, decode_outcome_payload,
}
use pufferlab.Jobs.Runner.Finalize.{error_code_value, engine_metrics, evaluated, evaluate_outcome}
use pufferlab.Jobs.Runner.Execute.{
  JudgedQuery, SearchExecuteResult, Searched, found, refused, raised, Execution, or_unknown,
  is_query, request, query_of, outcome_of_payload, judged_outcome, after_search, execute,
  success_payload, failure_payload,
}

-- The name of an error code is not empty.
error_code_value-named : (code : ApiErrorCode) → str_eq (error_code_value code) "" ≡ false
error_code_value-named ApiErrorCode.validation_error = refl
error_code_value-named ApiErrorCode.configuration_required = refl
error_code_value-named ApiErrorCode.not_found = refl
error_code_value-named ApiErrorCode.namespace_not_ready = refl
error_code_value-named ApiErrorCode.provider_error = refl
error_code_value-named ApiErrorCode.rate_limited = refl
error_code_value-named ApiErrorCode.run_conflict = refl
error_code_value-named ApiErrorCode.internal_error = refl

module _ {F P : Type 0} ⦃f : Float F⦄ (c : PayloadCodec F P) where
  -- The metrics that the engine makes of three values.
  remade : Option F → Option F → Option F → QueryMetrics F
  remade x y z = record {
    ndcg_at_10 = x;
    recall_at_50 = y;
    mrr_at_10 = z;
    warnings = if is_some x then [] else record { code = no_positive_qrels } ∷ [];
  }

  remade-valid :
      (x y z : Option F)
      → is_valid_metrics (record { ndcg_at_10 = x; recall_at_50 = y; mrr_at_10 = z }) ≡ true
      → check_metrics (remade x y z) ≡ ok (remade x y z)
  unfolding remade
  remade-valid none none none h = refl
  remade-valid (some x) (some y) (some z) h =
      let u : is_unit x ≡ true = ground arith in
      let v : is_unit y ≡ true = ground arith in
      let w : is_unit z ≡ true = ground arith in rw (u, v, w) refl
  remade-valid none none (some z) h = ground arith
  remade-valid none (some y) z h = ground arith
  remade-valid (some x) none z h = ground arith
  remade-valid (some x) (some y) none h = ground arith

  engine_metrics-valid :
      (p : EvalSuccessPayload F)
      → is_valid_metrics p.metrics ≡ true
      → (m : QueryMetrics F) × (engine_metrics c p ≡ ok m)
  unfolding remade
  engine_metrics-valid p h = (
    _,
    ap of_evals (remade-valid p.metrics.ndcg_at_10 p.metrics.recall_at_50 p.metrics.mrr_at_10 h),
  )

  -- What the engine asks of a payload.
  is_valid_success-fields :
      (p : EvalSuccessPayload F)
      → is_valid_success p ≡ true
      → (is_valid_metrics p.metrics ≡ true)
        × (holds? is_duration p.total_client_wall_latency_ms ≡ true)
  unfolding is_valid_success
  is_valid_success-fields p h =
      let three =
        &&-true _ _
          (&&-true _ _
            (&&-true _ _ (&&-true _ _ (&&-true _ _ (&&-true _ _ (&&-true _ _ h).0).0).0).0).0).0 in
      ((&&-true _ _ three.0).1, three.1)

  -- A valid payload is an attempt of the engine.
  evaluated-valid :
      (query : ℕ) (p : EvalOutcomePayload F)
      → is_valid_outcome_payload p ≡ true
      → (e : EvaluatedQueryOutcome F) × (evaluated c query p ≡ ok e)
  unfolding is_valid_success is_valid_failure
  evaluated-valid query (success p) h =
      let (m, e) = engine_metrics-valid p (is_valid_success-fields p h).0 in
      (
        record {
          query_id = query;
          metrics = some m;
          latency_ms = p.total_client_wall_latency_ms;
          error_code = none;
        },
        rw (e, (is_valid_success-fields p h).1) refl,
      )
  evaluated-valid query (failure p) h =
      let long : is_duration p.total_client_wall_latency_ms ≡ true = ground arith in
      (
        record {
          query_id = query;
          metrics = none;
          latency_ms = some p.total_client_wall_latency_ms;
          error_code = some (error_code_value p.code);
        },
        rw (error_code_value-named p.code, long) refl,
      )

  -- An outcome of a work item: it is the item's, it is decoded, and its payload is an attempt of
  -- the engine.
  pub record IsAttempt (run : ℕ) (item : QueryWorkItem) (outcome : QueryOutcome P) : Type 0 where
    pub run_id : outcome.run_id ≡ run
    pub config_id : outcome.config_id ≡ item.config_id
    pub query_id : outcome.query_id ≡ item.query_id
    pub payload : EvalOutcomePayload F
    pub decoded : decode_outcome_payload c outcome ≡ ok payload
    pub attempt : EvaluatedQueryOutcome F
    pub counted : evaluate_outcome c outcome ≡ ok attempt

  same_status_of :
      (p : EvalOutcomePayload F)
      → same_outcome_status (status_of_payload p) (status_of_payload p) ≡ true
  same_status_of (success p) = refl
  same_status_of (failure p) = refl

  module _ (faithful : IsFaithfulPayload c) (run_id : ℕ) (env : Execution F)
      (item : QueryWorkItem) where
    made : EvalOutcomePayload F → QueryOutcome P
    made payload = record {
      run_id = run_id;
      config_id = item.config_id;
      query_id = item.query_id;
      status = status_of_payload payload;
      payload = c.dump payload;
      created_at = env.now;
    }

    made-IsAttempt :
        (payload : EvalOutcomePayload F)
        → is_valid_outcome_payload payload ≡ true
        → IsAttempt run_id item (made payload)
    unfolding made decode_outcome_payload
    made-IsAttempt payload valid =
        let decoded : decode_outcome_payload c (made payload) ≡ ok payload =
          rw (faithful.parse-dump payload valid, valid, same_status_of payload) refl in
        let (attempt, e) = evaluated-valid item.query_id payload valid in
        record {
          run_id = refl;
          config_id = refl;
          query_id = refl;
          payload = payload;
          decoded = decoded;
          attempt = attempt;
          counted = ap (λ r. r >>= evaluated c item.query_id) decoded ∙ e;
        }

    outcome_of_payload-IsAttempt :
        (payload : EvalOutcomePayload F) (outcome : QueryOutcome P)
        → outcome_of_payload c run_id env item payload ≡ ok outcome
        → IsAttempt run_id item outcome
    unfolding made
    outcome_of_payload-IsAttempt payload outcome h =
        let (_, valid, h1) =
          >>=-eq-ok (raise_if (not (is_valid_outcome_payload payload)) invalid_payload) _ h in
        subst (IsAttempt run_id item) (ok-injective h1) (made-IsAttempt payload (ground arith))

    judged_outcome-IsAttempt :
        (query : JudgedQuery) (execution : SearchExecuteResult F) (outcome : QueryOutcome P)
        → judged_outcome c run_id env item query execution ≡ ok outcome
        → IsAttempt run_id item outcome
    unfolding evaluate_ranking
    judged_outcome-IsAttempt query execution outcome h =
        let (_, _, h1) =
          >>=-eq-ok
            (raise_if
              (not (execution.config_id == item.config_id)
                || not (is_query execution.query_id item.query_id))
              work_item_mismatch)
            _ h in
        let (_, _, h2) =
          >>=-eq-ok (raise_if (not (execution.result.config_id == item.config_id)) config_mismatch)
            _ h1 in
        let ranked = take 50 execution.result.hits in
        let (judged, _, h3) = >>=-eq-ok (of_evals (evaluate_ranking ranked query.qrels)) _ h2 in
        outcome_of_payload-IsAttempt
          (success (success_payload c run_id env item ranked judged execution.result)) outcome h3

    after_search-IsAttempt :
        (query : JudgedQuery) (searched : Searched F) (outcome : QueryOutcome P)
        → after_search c run_id env item query searched ≡ ok outcome
        → IsAttempt run_id item outcome
    after_search-IsAttempt query (found execution) outcome h =
        judged_outcome-IsAttempt query execution outcome h
    after_search-IsAttempt query (refused error) outcome h =
        outcome_of_payload-IsAttempt (failure (failure_payload c run_id env item error)) outcome h
    after_search-IsAttempt query (raised exception) outcome h = cc

    -- An outcome that the executor returns is that of its run and of its work item, the codec
    -- decodes it, and finalization reads its payload as an attempt of the evaluation engine,
    -- however the search ended. A valid payload that is written is read back.
    pub execute-IsAttempt :
        (queries : List JudgedQuery) (outcome : QueryOutcome P)
        → execute c run_id env item queries ≡ ok outcome
        → IsAttempt run_id item outcome
    unfolding execute
    execute-IsAttempt queries outcome h =
        let (query, _, h1) = >>=-eq-ok (or_unknown (query_of queries item.query_id)) _ h in
        after_search-IsAttempt query (env.search_one (request c run_id env item query)) outcome h1
