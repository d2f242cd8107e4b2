-- ===== src/Evals/Metrics.antt =====
-- evals/metrics.py: NDCG@10, Recall@50 and MRR@10 of one ranking.
pub mod Judged
pub mod Reciprocal
use pufferlab.Prelude.{
  ℕ, zero, suc, ◌+◌, ◌-◌, ◌*◌, Bool, true, false, not, ◌&&◌, Option, none, some, List, [], ◌∷◌,
  ◌++◌, ◌==◌, ltb, map, if◌then◌else◌, is_some, some_of, keep, take, length, contains, count_if,
}
use pufferlab.Prelude.Result.{Result, ok, err, ◌>>=◌, ◌>>◌, raise_if}
use pufferlab.Prelude.Sort.{sort}
use pufferlab.Evals.Float.{Float}
use pufferlab.Evals.Models.{
  EvalError, conflicting_qrels, EvaluationWarning, EvaluationWarningCode, duplicate_qrel,
  duplicate_retrieved_document, Judgment, QueryMetrics, check_metrics,
}

abbrev pub ndcg_cutoff : ℕ
ndcg_cutoff = 10

abbrev pub recall_cutoff : ℕ
recall_cutoff = 50

abbrev pub mrr_cutoff : ℕ
mrr_cutoff = 10

abbrev pub warn : EvaluationWarningCode → EvaluationWarning
warn code = record { code = code }

-- `grades`, in the order of its keys.
abbrev pub grade_of : ℕ → List Judgment → Option ℕ
grade_of id [] = none
grade_of id (j ∷ js) = if j.document_id == id then some j.relevance_grade else grade_of id js

pub record Normalized : Type 0 where
  pub grades : List Judgment
  pub warned_ids : List ℕ

-- One round of the loop of `_normalize_judgments`. Each warning is for one of `warned_ids`.
abbrev pub normalize_one : Judgment → Normalized → Option ℕ → Result EvalError Normalized
normalize_one j n none = ok (record n { grades = n.grades ++ j ∷ [] })
normalize_one j n (some prior_grade) =
    if not (prior_grade == j.relevance_grade)
    then err conflicting_qrels
    else ok (record n {
      warned_ids =
          if contains j.document_id n.warned_ids
          then n.warned_ids
          else n.warned_ids ++ j.document_id ∷ [];
    })

unfoldable pub normalize_from : List Judgment → Normalized → Result EvalError Normalized
normalize_from [] n = ok n
normalize_from (j ∷ js) n =
    normalize_one j n (grade_of j.document_id n.grades) >>= λ n'. normalize_from js n'

-- `_normalize_judgments`
abbrev pub normalize_judgments : List Judgment → Result EvalError Normalized
normalize_judgments judgments = normalize_from judgments (record { grades = []; warned_ids = [] })

abbrev pub is_positive : Judgment → Bool
is_positive j = ltb 0 j.relevance_grade

abbrev pub grades_of : List Judgment → List ℕ
grades_of js = map (λ j. j.relevance_grade) js

abbrev pub ids_of : List Judgment → List ℕ
ids_of js = map (λ j. j.document_id) js

-- `max`
abbrev pub maximum : List ℕ → ℕ
maximum [] = 0
maximum (x ∷ xs) = let m = maximum xs in if ltb m x then x else m

abbrev pub or_zero : Option ℕ → ℕ
or_zero none = 0
or_zero (some n) = n

-- `ranked_grades`: a repeated document has the grade 0.
abbrev pub ranked_grades : List Judgment → List ℕ → List ℕ → List ℕ
ranked_grades grades seen [] = []
ranked_grades grades seen (id ∷ ids) =
    if contains id seen
    then 0 ∷ ranked_grades grades seen ids
    else or_zero (grade_of id grades) ∷ ranked_grades grades (id ∷ seen) ids

abbrev pub has_duplicate : List ℕ → List ℕ → Bool
has_duplicate seen [] = false
has_duplicate seen (id ∷ ids) = if contains id seen then true else has_duplicate (id ∷ seen) ids

-- `{id for id in ids if id in relevant_ids}`: each id once.
abbrev pub retrieved_relevant : List ℕ → List ℕ → List ℕ
retrieved_relevant relevant [] = []
retrieved_relevant relevant (id ∷ ids) =
    let rest = retrieved_relevant relevant ids in
    if contains id relevant && not (contains id rest) then id ∷ rest else rest

-- `next((rank for rank, id in enumerate(ids, start=rank) if id in relevant_ids), None)`
abbrev pub first_relevant_rank : List ℕ → ℕ → List ℕ → Option ℕ
first_relevant_rank relevant rank [] = none
first_relevant_rank relevant rank (id ∷ ids) =
    if contains id relevant then some rank else first_relevant_rank relevant (rank + 1) ids

abbrev pub relevant_ids : Normalized → List ℕ
relevant_ids n = ids_of (keep is_positive n.grades)

abbrev pub qrel_warnings : Normalized → List EvaluationWarning
qrel_warnings n = map (λ _. warn duplicate_qrel) n.warned_ids

module _ {F : Type 0} ⦃f : Float F⦄ where
  -- `_scaled_exponential_gain`
  abbrev pub scaled_exponential_gain : ℕ → ℕ → F
  scaled_exponential_gain grade maximum_grade =
      let scaled_power =
        if ltb 1074 (maximum_grade - grade) then f.nought else f.exp2_neg (maximum_grade - grade) in
      let scaled_offset = if ltb 1074 maximum_grade then f.nought else f.exp2_neg maximum_grade in
      f.sub scaled_power scaled_offset

  -- The terms of the sums over `enumerate(grades, start=rank)`, of the grades that are positive.
  abbrev pub gains : ℕ → ℕ → List ℕ → List F
  gains maximum_grade rank [] = []
  gains maximum_grade rank (grade ∷ grades) =
      let rest = gains maximum_grade (rank + 1) grades in
      if ltb 0 grade
      then f.mul (scaled_exponential_gain grade maximum_grade) (f.discount rank) ∷ rest
      else rest

  abbrev pub reciprocal_rank : Option ℕ → F
  reciprocal_rank none = f.nought
  reciprocal_rank (some rank) = f.ratio 1 rank

  abbrev pub dcg : List ℕ → Normalized → F
  dcg ranked n = f.fsum (
      gains (maximum (grades_of (keep is_positive n.grades))) 1
        (take ndcg_cutoff (ranked_grades n.grades [] ranked)))

  abbrev pub ideal_dcg : Normalized → F
  ideal_dcg n =
      let positive = grades_of (keep is_positive n.grades) in
      f.fsum (gains (maximum positive) 1 (take ndcg_cutoff (sort (λ a b. ltb b a) positive)))

  -- The metrics of a query with no positive qrels, and of one that has some.
  abbrev pub undefined_metrics : Normalized → QueryMetrics F
  undefined_metrics n = record {
    ndcg_at_10 = none;
    recall_at_50 = none;
    mrr_at_10 = none;
    warnings = qrel_warnings n ++ warn EvaluationWarningCode.no_positive_qrels ∷ [];
  }

  abbrev pub defined_metrics : List ℕ → Normalized → QueryMetrics F
  defined_metrics ranked n =
      let relevant = relevant_ids n in
      let retrieved = retrieved_relevant relevant (take recall_cutoff ranked) in
      record {
        ndcg_at_10 = some (f.div (dcg ranked n) (ideal_dcg n));
        recall_at_50 = some (f.ratio (length retrieved) (length relevant));
        mrr_at_10 =
            some (reciprocal_rank (first_relevant_rank relevant 1 (take mrr_cutoff ranked)));
        warnings =
            if has_duplicate [] ranked
            then qrel_warnings n ++ warn duplicate_retrieved_document ∷ []
            else qrel_warnings n;
      }

  -- `evaluate_ranking` of judgments that are normalized.
  abbrev pub evaluate_judged : List ℕ → Normalized → Result EvalError (QueryMetrics F)
  evaluate_judged ranked n =
      if length (keep is_positive n.grades) == 0
      then check_metrics (undefined_metrics n)
      else check_metrics (defined_metrics ranked n)

  unfoldable pub evaluate_ranking : List ℕ → List Judgment → Result EvalError (QueryMetrics F)
  unfolding normalize_from sort
  evaluate_ranking ranked judgments =
      normalize_judgments judgments >>= λ n. evaluate_judged ranked n
