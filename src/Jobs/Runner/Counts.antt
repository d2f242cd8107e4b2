-- ===== src/Jobs/Runner/Counts.antt =====
-- The summaries of `finalize_durable_outcomes` count the durable outcomes of their configs.
use mathlib.Core.Path.{subst}
use pufferlab.Prelude.{
  ℕ, suc, ◌+◌, ◌≡◌, refl, sym, ap, ◌∙◌, true, not, ◌&&◌, List, [], ◌∷◌, ◌==◌, keep, length,
  count_if, count_if-keep, arith,
}
use pufferlab.Prelude.Result.{
  Result, ok, err, raise_if, traverse, >>=-eq-ok, ok-injective, Gives, gives_nil, gives_cons,
  traverse-Gives,
}
use pufferlab.Prelude.Sort.{count_if-sort, length-sort}
use pufferlab.Persistence.Records.{
  MetricAggregate, ConfigRunSummary, QueryOutcomeStatus, QueryOutcome, same_outcome_status,
}
use pufferlab.Evals.Float.{Float}
use pufferlab.Evals.Models.{EvalError, EvaluationAggregate}
use pufferlab.Evals.Models.{QueryOutcome as EvaluatedQueryOutcome}
use pufferlab.Evals.Aggregation.{aggregate_outcomes, is_failed}
use pufferlab.Evals.Aggregation.Samples.{aggregate_outcomes-HasSamples}
use pufferlab.Jobs.Runner.{
  EvalOutcomePayload, success, failure, status_mismatch, invalid_payload, of_evals, PayloadCodec,
  decode_outcome_payload, status_of_payload, or_invalid_payload, is_valid_outcome_payload,
}
use pufferlab.Jobs.Runner.Finalize.{
  by_query_id, engine_metrics, evaluated, evaluate_outcome, config_summary, metric_aggregates,
  outcomes_of, summarize,
}

-- How many outcomes of a config have a status.
abbrev pub status_count : {P : Type 0} → ℕ → QueryOutcomeStatus → List (QueryOutcome P) → ℕ
status_count config status outcomes =
    count_if (λ outcome. outcome.config_id == config && same_outcome_status outcome.status status)
      outcomes

count_status :
    {P : Type 0} (xs : List (QueryOutcome P))
    → count_if (λ o. same_outcome_status o.status QueryOutcomeStatus.succeeded) xs
        + count_if (λ o. same_outcome_status o.status QueryOutcomeStatus.failed) xs
      ≡ length xs
count_status [] = refl
count_status (x ∷ xs) = ground (arith, count_status xs)

module _ {F P : Type 0} ⦃f : Float F⦄ (c : PayloadCodec F P) where
  of_evals-ok : {A : Type 0} (r : Result EvalError A) (a : A) → of_evals r ≡ ok a → r ≡ ok a
  of_evals-ok (ok x) a h = cc
  of_evals-ok (err e) a h = cc

  evaluated-status :
      (query : ℕ) (payload : EvalOutcomePayload F) (e : EvaluatedQueryOutcome F)
      → evaluated c query payload ≡ ok e
      → is_failed e ≡ same_outcome_status (status_of_payload payload) QueryOutcomeStatus.failed
  evaluated-status query (failure payload) e h = ground arith
  evaluated-status query (success payload) e h =
      let (metrics, _, h1) = >>=-eq-ok (engine_metrics c payload) _ h in ground arith

  same_status_failed :
      (a b : QueryOutcomeStatus)
      → same_outcome_status a b ≡ true
      → same_outcome_status b QueryOutcomeStatus.failed
        ≡ same_outcome_status a QueryOutcomeStatus.failed
  same_status_failed a b h = ground arith

  -- An evaluated attempt failed where its durable outcome did.
  evaluate_outcome-status :
      (outcome : QueryOutcome P) (e : EvaluatedQueryOutcome F)
      → evaluate_outcome c outcome ≡ ok e
      → is_failed e ≡ same_outcome_status outcome.status QueryOutcomeStatus.failed
  unfolding decode_outcome_payload
  evaluate_outcome-status outcome e h =
      let (payload, decoded, h1) = >>=-eq-ok (decode_outcome_payload c outcome) _ h in
      let (raw, _, d1) = >>=-eq-ok (or_invalid_payload (c.parse outcome.payload)) _ decoded in
      let (_, _, d2) =
        >>=-eq-ok (raise_if (not (is_valid_outcome_payload raw)) invalid_payload) _ d1 in
      let (_, matched, d3) =
        >>=-eq-ok
          (raise_if (not (same_outcome_status outcome.status (status_of_payload raw)))
            status_mismatch)
          _ d2 in
      evaluated-status outcome.query_id payload e h1
      ∙ ap (λ p. same_outcome_status (status_of_payload p) QueryOutcomeStatus.failed)
          (sym (ok-injective d3))
      ∙ same_status_failed outcome.status (status_of_payload raw) (ground arith)

  Gives-length :
      (os : List (QueryOutcome P)) (es : List (EvaluatedQueryOutcome F))
      → Gives (evaluate_outcome c) os es
      → length es ≡ length os
  Gives-length [] [] gives_nil = refl
  Gives-length [] (e ∷ es) g = elim g [ ]
  Gives-length (o ∷ os) [] g = elim g [ ]
  Gives-length (o ∷ os) (e ∷ es) (gives_cons h g) = ap suc (Gives-length os es g)

  Gives-failed :
      (os : List (QueryOutcome P)) (es : List (EvaluatedQueryOutcome F))
      → Gives (evaluate_outcome c) os es
      → count_if is_failed es
        ≡ count_if (λ o. same_outcome_status o.status QueryOutcomeStatus.failed) os
  Gives-failed [] [] gives_nil = refl
  Gives-failed [] (e ∷ es) g = elim g [ ]
  Gives-failed (o ∷ os) [] g = elim g [ ]
  Gives-failed (o ∷ os) (e ∷ es) (gives_cons h g) =
      ground (arith, evaluate_outcome-status o e h, Gives-failed os es g)

  -- What a summary of a config says of the outcomes.
  pub record IsSummary (outcomes : List (QueryOutcome P)) (config : ℕ) (s : ConfigRunSummary F)
      : Type 0 where
    pub config_id : s.config_id ≡ config
    pub succeeded : s.completed_queries ≡ status_count config QueryOutcomeStatus.succeeded outcomes
    pub failed : s.failed_queries ≡ status_count config QueryOutcomeStatus.failed outcomes
    pub together :
        s.completed_queries + s.failed_queries
        ≡ length (keep (λ outcome. outcome.config_id == config) outcomes)

  counts-IsSummary :
      (outcomes : List (QueryOutcome P)) (config : ℕ) (es : List (EvaluatedQueryOutcome F))
      (a : EvaluationAggregate F) (metrics : List (MetricAggregate F))
      → Gives (evaluate_outcome c) (outcomes_of c outcomes config) es
      → aggregate_outcomes es ≡ ok a
      → IsSummary outcomes config (config_summary c config a metrics)
  counts-IsSummary outcomes config es a metrics g h =
      let kept = keep (λ (o : QueryOutcome P). o.config_id == config) outcomes in
      let is_bad = λ (o : QueryOutcome P). same_outcome_status o.status QueryOutcomeStatus.failed in
      let is_good =
        λ (o : QueryOutcome P). same_outcome_status o.status QueryOutcomeStatus.succeeded in
      let counted = aggregate_outcomes-HasSamples es a h in
      let attempted = counted.0 in
      let failures = counted.1 in
      let total = counted.2 in
      let bad =
        Gives-failed (outcomes_of c outcomes config) es g ∙ count_if-sort by_query_id is_bad kept in
      let all = Gives-length (outcomes_of c outcomes config) es g ∙ length-sort by_query_id kept in
      let chosen = λ (o : QueryOutcome P). o.config_id == config in
      record {
        config_id = refl;
        succeeded = omega (
          arith,
          attempted,
          failures,
          total,
          bad,
          all,
          count_status kept,
          count_if-keep chosen is_good outcomes,
        );
        failed = omega (arith, failures, bad, count_if-keep chosen is_bad outcomes);
        together = omega (arith, attempted, total, all);
      }

  pub summarize-IsSummary :
      (outcomes : List (QueryOutcome P)) (config : ℕ) (s : ConfigRunSummary F)
      → summarize c outcomes config ≡ ok s
      → IsSummary outcomes config s
  unfolding summarize
  summarize-IsSummary outcomes config s h =
      let (es, each, h1) =
        >>=-eq-ok (traverse (evaluate_outcome c) (outcomes_of c outcomes config)) _ h in
      let (a, e, h2) = >>=-eq-ok (of_evals (aggregate_outcomes es)) _ h1 in
      let (metrics, _, h3) = >>=-eq-ok (metric_aggregates c a) _ h2 in
      subst (IsSummary outcomes config) (ok-injective h3) (
        counts-IsSummary outcomes config es a metrics
          (traverse-Gives (evaluate_outcome c) (outcomes_of c outcomes config) es each)
          (of_evals-ok (aggregate_outcomes es) a e))
