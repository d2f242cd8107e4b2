-- ===== src/Examples/Evals.antt =====
-- The evaluation engine on thousandths: a type of numbers that stands for the floats.
use pufferlab.Prelude.{
  arith, not, All, ℕ, zero, suc, ◌+◌, ◌-◌, ◌*◌, ◌/◌, ◌^◌, ◌≡◌, refl, Bool, true, false, Option,
  none, some, List, [], ◌∷◌, ◌==◌, ltb, leb, map, get_elem?, is_some, some_of, if◌then◌else◌,
}
use pufferlab.Prelude.Int.{ℤ, pos, negsuc}
use pufferlab.Prelude.Result.{Result, ok, err}
use pufferlab.Evals.Float.{Float}
use pufferlab.Evals.Models.{
  QueryOutcome, QueryMetrics, MetricSummary, EvaluationAggregate, Judgment, PairedQueryDelta,
}
use pufferlab.Evals.Metrics.{evaluate_ranking, is_positive}
use pufferlab.Evals.Metrics.Judged.{IsRecall, evaluate_ranking-present, evaluate_ranking-IsRecall}
use pufferlab.Evals.Metrics.Reciprocal.{IsReciprocal, evaluate_ranking-IsReciprocal}
use pufferlab.Evals.Pairing.Rows.{IsPairing, paired_deltas-rows}
use pufferlab.Evals.Aggregation.Samples.{IsCounted, aggregate_outcomes-HasSamples}
use pufferlab.Evals.Gates.Verdict.{IsDecided, evaluate_gate-verdict}
use pufferlab.Evals.Pairing.{paired_deltas, order_quality_deltas, regressions, gains}
use pufferlab.Evals.Pairing.Comparison.{IsOrdered, HasFiniteDeltas}
use pufferlab.Evals.Pairing.Order.{IsOrdering, order_quality_deltas-IsOrdering}
use pufferlab.Evals.Aggregation.{aggregate_outcomes}
use pufferlab.Evals.Report.{GatePolicy, GateReport, ndcg_at_10, passed, policy_failed}
use pufferlab.Evals.Gates.{
  evaluate_gate, error_rate_check, coverage_check, aggregate_check, drop_check,
}

abbrev difference : ℕ → ℕ → ℤ
difference a b = if leb b a then pos (a - b) else negsuc (b - a - 1)

abbrev int_lt : ℤ → ℤ → Bool
int_lt (pos a) (pos b) = ltb a b
int_lt (pos a) (negsuc b) = false
int_lt (negsuc a) (pos b) = true
int_lt (negsuc a) (negsuc b) = ltb b a

abbrev int_same : ℤ → ℤ → Bool
int_same (pos a) (pos b) = a == b
int_same (negsuc a) (negsuc b) = a == b
int_same _ _ = false

abbrev int_le : ℤ → ℤ → Bool
int_le a b = if int_same a b then true else int_lt a b

abbrev int_neg : ℤ → ℤ
int_neg (pos zero) = pos 0
int_neg (pos (suc n)) = negsuc n
int_neg (negsuc n) = pos (n + 1)

abbrev int_add : ℤ → ℤ → ℤ
int_add (pos a) (pos b) = pos (a + b)
int_add (pos a) (negsuc b) = difference a (b + 1)
int_add (negsuc a) (pos b) = difference b (a + 1)
int_add (negsuc a) (negsuc b) = negsuc (a + b + 1)

-- An operation on magnitudes, with the sign of a product.
abbrev signed : (ℕ → ℕ → ℕ) → ℤ → ℤ → ℤ
signed op (pos a) (pos b) = pos (op a b)
signed op (pos a) (negsuc b) = int_neg (pos (op a (b + 1)))
signed op (negsuc a) (pos b) = int_neg (pos (op (a + 1) b))
signed op (negsuc a) (negsuc b) = pos (op (a + 1) (b + 1))

abbrev magnitude : ℤ → ℕ
magnitude (pos a) = a
magnitude (negsuc a) = a + 1

abbrev int_sum : List ℤ → ℤ
int_sum [] = pos 0
int_sum (x ∷ xs) = int_add x (int_sum xs)

abbrev or_default : Option ℕ → ℕ
or_default none = 0
or_default (some n) = n

-- `1 / log2 (rank + 1)` for the ranks 1 to 10.
abbrev discounts : List ℕ
discounts = 1000 ∷ 630 ∷ 500 ∷ 430 ∷ 386 ∷ 356 ∷ 333 ∷ 315 ∷ 301 ∷ 289 ∷ []

instance abbrev pub thousandths : Float ℤ
thousandths = record {
  nought = pos 0;
  one = pos 1000;
  le = int_le;
  lt = int_lt;
  same = int_same;
  is_finite = λ _. true;
  neg = int_neg;
  add = int_add;
  sub = λ a b. int_add a (int_neg b);
  mul = signed λ a b. a * b / 1000;
  div = signed λ a b. a * 1000 / b;
  of_nat = λ n. pos (1000 * n);
  ratio = λ a b. pos (1000 * a / b);
  exp2_neg = λ n. pos (1000 / 2 ^ n);
  discount = λ rank. pos (or_default (get_elem? discounts (rank - 1)));
  fsum = int_sum;
  sum = int_sum;
  floor = λ x. magnitude x / 1000;
  ceil = λ x. (magnitude x + 999) / 1000;
  half = pos 500;
  p95 = pos 950;
}

abbrev pub judgments : List Judgment
judgments =
    record { document_id = 1; relevance_grade = 2 }
    ∷ record { document_id = 2; relevance_grade = 1 }
    ∷ record { document_id = 1; relevance_grade = 2 }
    ∷ record { document_id = 3; relevance_grade = 0 }
    ∷ []

abbrev ranked : List ℕ
ranked = 4 ∷ 1 ∷ 1 ∷ 3 ∷ []

abbrev no_metrics : QueryMetrics ℤ
no_metrics = record { ndcg_at_10 = none; recall_at_50 = none; mrr_at_10 = none; warnings = [] }

abbrev metrics_or : {E : Type 0} → Result E (QueryMetrics ℤ) → QueryMetrics ℤ
metrics_or (ok m) = m
metrics_or (err _) = no_metrics

abbrev measured : QueryMetrics ℤ
measured = metrics_or (evaluate_ranking ranked judgments)

measured-ok : evaluate_ranking ranked judgments ≡ ok measured
unfolding evaluate_ranking
measured-ok = refl

measured-recall : measured.recall_at_50 ≡ some (pos 500)
unfolding evaluate_ranking
measured-recall = refl

measured-mrr : measured.mrr_at_10 ≡ some (pos 500)
unfolding evaluate_ranking
measured-mrr = refl

evaluate_ranking-present_example : is_some measured.recall_at_50 ≡ some_of is_positive judgments
evaluate_ranking-present_example = evaluate_ranking-present ranked judgments measured measured-ok

evaluate_ranking-IsRecall_example : IsRecall ranked judgments (pos 500)
evaluate_ranking-IsRecall_example =
    evaluate_ranking-IsRecall ranked judgments measured (pos 500) measured-ok measured-recall

abbrev quality : ℕ → QueryMetrics ℤ
quality n = record {
  ndcg_at_10 = some (pos n);
  recall_at_50 = some (pos n);
  mrr_at_10 = some (pos n);
  warnings = [];
}

abbrev attempt : ℕ → Option (QueryMetrics ℤ) → QueryOutcome ℤ
attempt id metrics = record {
  query_id = id;
  metrics = metrics;
  latency_ms = some (pos 1000);
  error_code = elim metrics [ none ↦ some "timeout" | some _ ↦ none ];
}

-- `n` attempts, of the queries n, ..., 1.
abbrev attempts : ℕ → ℕ → List (QueryOutcome ℤ)
attempts value zero = []
attempts value (suc n) = attempt (n + 1) (some (quality value)) ∷ attempts value n

abbrev ids : ℕ → List ℕ
ids zero = []
ids (suc n) = (n + 1) ∷ ids n

-- The last query of the candidate failed.
abbrev candidate : List (QueryOutcome ℤ)
candidate = attempt 50 none ∷ attempts 600 49

abbrev baseline : List (QueryOutcome ℤ)
baseline = attempts 500 50

abbrev rows_or : {E A : Type 0} → Result E (List A) → List A
rows_or (ok rows) = rows
rows_or (err _) = []

abbrev left : List (QueryOutcome ℤ)
left = attempt 3 (some (quality 500)) ∷ attempt 1 none ∷ []

abbrev right : List (QueryOutcome ℤ)
right = attempt 2 (some (quality 400)) ∷ attempt 3 (some (quality 300)) ∷ []

abbrev rows : List (PairedQueryDelta ℤ)
rows = rows_or (paired_deltas left right)

rows-ok : paired_deltas left right ≡ ok rows
unfolding paired_deltas
rows-ok = refl

rows-ids : map (λ row. row.query_id) rows ≡ 1 ∷ 2 ∷ 3 ∷ []
unfolding paired_deltas
rows-ids = refl

paired_deltas-rows_example : IsPairing left right rows
paired_deltas-rows_example = paired_deltas-rows left right rows rows-ok

abbrev summary : MetricSummary ℤ
summary = record { value = none; sample_count = 0 }

abbrev aggregate_or : {E : Type 0} → Result E (EvaluationAggregate ℤ) → EvaluationAggregate ℤ
aggregate_or (ok a) = a
aggregate_or (err _) = record {
  ndcg_at_10 = summary;
  recall_at_50 = summary;
  mrr_at_10 = summary;
  latency_p50_ms = summary;
  latency_p95_ms = summary;
  error_rate = summary;
  coverage_rate = summary;
  quality_coverage_rate = summary;
  attempted_queries = 0;
  completed_queries = 0;
  failed_queries = 0;
}

abbrev aggregate : EvaluationAggregate ℤ
aggregate = aggregate_or (aggregate_outcomes left)

aggregate-ok : aggregate_outcomes left ≡ ok aggregate
unfolding aggregate_outcomes
aggregate-ok = refl

aggregate_outcomes-HasSamples_example : IsCounted left aggregate
aggregate_outcomes-HasSamples_example = aggregate_outcomes-HasSamples left aggregate aggregate-ok

abbrev policy : GatePolicy ℤ
policy = record {
  metric = ndcg_at_10;
  min_delta = pos 50;
  max_query_drop = pos 200;
  max_error_rate = pos 20;
  min_paired_queries = 49;
}

abbrev report_or : {E : Type 0} → GateReport ℤ → Result E (GateReport ℤ) → GateReport ℤ
report_or other (ok report) = report
report_or other (err _) = other

abbrev no_report : GateReport ℤ
no_report = record {
  verdict = policy_failed;
  run_id = 0;
  baseline_config_id = 0;
  candidate_config_id = 0;
  metric = ndcg_at_10;
  error_rate = error_rate_check policy 0;
  coverage = coverage_check policy 0;
  aggregate = aggregate_check policy 0 (pos 0);
  per_query = drop_check policy 0 [];
}

abbrev report : GateReport ℤ
report = report_or no_report (evaluate_gate 1 2 3 (ids 50) baseline candidate policy)

report-ok : evaluate_gate 1 2 3 (ids 50) baseline candidate policy ≡ ok report
unfolding evaluate_gate
report-ok = refl

report-verdict : report.verdict ≡ passed
unfolding evaluate_gate
report-verdict = refl

evaluate_gate-verdict_example : IsDecided baseline candidate policy report.verdict
evaluate_gate-verdict_example =
    evaluate_gate-verdict 1 2 3 (ids 50) baseline candidate policy report report-ok

evaluate_ranking-IsReciprocal_example : IsReciprocal ranked judgments (pos 500)
evaluate_ranking-IsReciprocal_example =
    evaluate_ranking-IsReciprocal ranked judgments measured (pos 500) measured-ok measured-mrr

int_same_sym : (x y : ℤ) → int_same x y ≡ int_same y x
int_same_sym (pos a) (pos b) = ground arith
int_same_sym (negsuc a) (negsuc b) = ground arith
int_same_sym (pos a) (negsuc b) = refl
int_same_sym (negsuc a) (pos b) = refl

int_same_trans : (x y z : ℤ) → int_same x y ≡ true → int_same y z ≡ true → int_same x z ≡ true
int_same_trans x y z h k = ground arith

int_lt_same : (x y : ℤ) → int_lt x y ≡ true → int_same x y ≡ false
int_lt_same x y h = ground arith

int_lt_total : (x y : ℤ) → int_same x y ≡ false → int_lt x y ≡ not (int_lt y x)
int_lt_total x y h = ground arith

int_lt_trans : (x y z : ℤ) → int_lt x y ≡ true → int_lt y z ≡ true → int_lt x z ≡ true
int_lt_trans x y z h k = ground arith

int_same_lt : (x y z : ℤ) → int_same x y ≡ true → int_lt y z ≡ true → int_lt x z ≡ true
int_same_lt x y z h k = ground arith

int_lt_same_right : (x y z : ℤ) → int_lt x y ≡ true → int_same y z ≡ true → int_lt x z ≡ true
int_lt_same_right x y z h k = ground arith

thousandths-IsOrdered : IsOrdered ℤ
thousandths-IsOrdered = record {
  same_sym = λ x y. int_same_sym x y;
  same_trans = λ x y z h k. int_same_trans x y z h k;
  lt_same = λ x y h. int_lt_same x y h;
  lt_total = λ x y p q h. int_lt_total x y h;
  lt_trans = λ x y z h k. int_lt_trans x y z h k;
  same_lt = λ x y z h k. int_same_lt x y z h k;
  lt_same_right = λ x y z h k. int_lt_same_right x y z h k;
}

abbrev deltas : List (PairedQueryDelta ℤ)
deltas = rows_or (
    paired_deltas (attempt 3 (some (quality 500)) ∷ attempt 1 (some (quality 500)) ∷ [])
      (attempt 3 (some (quality 600)) ∷ attempt 1 (some (quality 300)) ∷ []))

abbrev ordered : List (PairedQueryDelta ℤ)
ordered = rows_or (order_quality_deltas deltas regressions none)

ordered-ok : order_quality_deltas deltas regressions none ≡ ok ordered
unfolding paired_deltas order_quality_deltas
ordered-ok = refl

ordered-ids : map (λ row. row.query_id) ordered ≡ 1 ∷ 3 ∷ []
unfolding paired_deltas order_quality_deltas
ordered-ids = refl

deltas-HasFiniteDeltas : All HasFiniteDeltas deltas
unfolding paired_deltas
deltas-HasFiniteDeltas = ((refl, refl), ((refl, refl), tt))

order_quality_deltas-IsOrdering_example : IsOrdering deltas
order_quality_deltas-IsOrdering_example =
    order_quality_deltas-IsOrdering thousandths-IsOrdered deltas regressions none ordered
      deltas-HasFiniteDeltas ordered-ok

best_gain :
    map (λ row. row.query_id) (rows_or (order_quality_deltas deltas gains (some 1))) ≡ 3 ∷ []
unfolding paired_deltas order_quality_deltas
best_gain = refl
