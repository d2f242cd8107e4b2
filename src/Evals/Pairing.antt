-- ===== src/Evals/Pairing.antt =====
-- evals/pairing.py: the deltas of each query, and their order.
pub mod Rows
pub mod Comparison
pub mod Order
use pufferlab.Prelude.{
  ℕ, zero, suc, ◌+◌, Bool, true, false, not, ◌&&◌, ◌||◌, Option, none, some, List, [], ◌∷◌, ◌++◌,
  ◌==◌, ltb, map, if◌then◌else◌, is_some, some_of, keep, take, contains, distinct,
}
use pufferlab.Prelude.Result.{Result, ok, err, ◌>>=◌, ◌>>◌, raise_if, traverse}
use pufferlab.Prelude.Sort.{sort}
use pufferlab.Evals.Float.{Float}
use pufferlab.Evals.Models.{
  EvalError, repeated_baseline_ids, repeated_candidate_ids, repeated_query_ids, missing_deltas,
  QueryMetrics, QueryOutcome, PairStatus, paired, baseline_missing, candidate_missing,
  baseline_failed, candidate_failed, both_failed, no_positive_qrels, PairedQueryDelta, is_paired,
  check_delta,
}

abbrev pub by_id : {F : Type 0} → ℕ → List (QueryOutcome F) → Option (QueryOutcome F)
by_id query_id [] = none
by_id query_id (outcome ∷ rest) =
    if outcome.query_id == query_id then some outcome else by_id query_id rest

abbrev pub ids_of : {F : Type 0} → List (QueryOutcome F) → List ℕ
ids_of outcomes = map (λ outcome. outcome.query_id) outcomes

abbrev pub metrics_of : {F : Type 0} → Option (QueryOutcome F) → Option (QueryMetrics F)
metrics_of none = none
metrics_of (some outcome) = outcome.metrics

abbrev pub latency_of : {F : Type 0} → Option (QueryOutcome F) → Option F
latency_of none = none
latency_of (some outcome) = outcome.latency_ms

-- `metrics.ndcg_at_10 is None` of metrics that are there.
abbrev pub pair_metrics : {F : Type 0} → QueryMetrics F → QueryMetrics F → PairStatus
pair_metrics baseline candidate =
    if not (is_some baseline.ndcg_at_10) || not (is_some candidate.ndcg_at_10)
    then no_positive_qrels
    else paired

abbrev pub pair_attempts :
    {F : Type 0} → Option (QueryMetrics F) → Option (QueryMetrics F) → PairStatus
pair_attempts none none = both_failed
pair_attempts none (some _) = baseline_failed
pair_attempts (some _) none = candidate_failed
pair_attempts (some baseline) (some candidate) = pair_metrics baseline candidate

abbrev pub pair_status :
    {F : Type 0} → Option (QueryOutcome F) → Option (QueryOutcome F) → PairStatus
pair_status none candidate = baseline_missing
pair_status (some baseline) none = candidate_missing
pair_status (some baseline) (some candidate) = pair_attempts baseline.metrics candidate.metrics

-- A field of metrics that may be absent.
abbrev pub field_of :
    {F : Type 0} → (QueryMetrics F → Option F) → Option (QueryMetrics F) → Option F
field_of getter none = none
field_of getter (some metrics) = getter metrics

-- `sorted(baseline_by_id.keys() | candidate_by_id.keys(), key=str)`
abbrev pub all_ids : {F : Type 0} → List (QueryOutcome F) → List (QueryOutcome F) → List ℕ
all_ids baseline candidate =
    ids_of baseline ++ keep (λ id. not (contains id (ids_of baseline))) (ids_of candidate)

pub data Direction : Type 0 where
  regressions gains : Direction

module _ {F : Type 0} ⦃f : Float F⦄ where
  -- `_delta`
  abbrev pub delta : Option F → Option F → Option F
  delta (some candidate) (some baseline) = some (f.sub candidate baseline)
  delta none _ = none
  delta (some _) none = none

  -- `_pair_one` before the checks of its result.
  abbrev pub raw_pair : ℕ → Option (QueryOutcome F) → Option (QueryOutcome F) → PairedQueryDelta F
  raw_pair query_id baseline candidate =
      let b = metrics_of baseline in
      let c = metrics_of candidate in
      let status = pair_status baseline candidate in
      let quality = λ (getter : QueryMetrics F → Option F).
        if is_paired status then delta (field_of getter c) (field_of getter b) else none in
      record {
        query_id = query_id;
        status = status;
        baseline_metrics = b;
        candidate_metrics = c;
        ndcg_delta = quality λ m. m.ndcg_at_10;
        recall_delta = quality λ m. m.recall_at_50;
        mrr_delta = quality λ m. m.mrr_at_10;
        latency_delta_ms = delta (latency_of candidate) (latency_of baseline);
      }

  unfoldable pub pair_one :
      ℕ → Option (QueryOutcome F) → Option (QueryOutcome F) → Result EvalError (PairedQueryDelta F)
  pair_one query_id baseline candidate = check_delta (raw_pair query_id baseline candidate)

  unfoldable pub paired_deltas :
      List (QueryOutcome F) → List (QueryOutcome F) → Result EvalError (List (PairedQueryDelta F))
  unfolding pair_one sort
  paired_deltas baseline candidate = do
    raise_if (not (distinct (ids_of baseline))) repeated_baseline_ids
    raise_if (not (distinct (ids_of candidate))) repeated_candidate_ids
    traverse (λ id. pair_one id (by_id id baseline) (by_id id candidate))
        (sort ltb (all_ids baseline candidate))

  -- `key=lambda delta: (delta.ndcg_delta, delta.mrr_delta, str(delta.query_id))`, as `<` of tuples:
  -- the first parts that differ decide.
  abbrev pub part_lt : Option F → Option F → Bool → Bool
  part_lt (some a) (some b) rest = if f.same a b then rest else f.lt a b
  part_lt _ _ rest = rest

  abbrev pub delta_lt : PairedQueryDelta F → PairedQueryDelta F → Bool
  delta_lt a b =
      part_lt a.ndcg_delta b.ndcg_delta
        (part_lt a.mrr_delta b.mrr_delta (ltb a.query_id b.query_id))

  -- `sorted(..., reverse=True)` keeps the order of equal items, as a sort by the flipped test does.
  abbrev pub sort_in : Direction → List (PairedQueryDelta F) → List (PairedQueryDelta F)
  sort_in regressions deltas = sort delta_lt deltas
  sort_in gains deltas = sort (λ a b. delta_lt b a) deltas

  abbrev pub limited : Option ℕ → List (PairedQueryDelta F) → List (PairedQueryDelta F)
  limited none deltas = deltas
  limited (some limit) deltas = take limit deltas

  unfoldable pub order_quality_deltas :
      List (PairedQueryDelta F)
      → Direction
      → Option ℕ
      → Result EvalError (List (PairedQueryDelta F))
  unfolding sort
  order_quality_deltas deltas order limit = do
    raise_if (not (distinct (map (λ d. d.query_id) deltas))) repeated_query_ids
    let kept = keep (λ d. is_paired d.status) deltas
    raise_if (some_of (λ d. not (is_some d.ndcg_delta) || not (is_some d.mrr_delta)) kept)
        missing_deltas
    ok (limited limit (sort_in order kept))

  abbrev pub select_query_subset :
      List (PairedQueryDelta F) → Direction → ℕ → Result EvalError (List ℕ)
  select_query_subset deltas order limit =
      order_quality_deltas deltas order (some limit) >>= λ ordered.
      ok (map (λ d. d.query_id) ordered)
