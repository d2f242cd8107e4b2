-- ===== src/Evals/Gates/Verdict.antt =====
-- The verdict of a gate report.
use pufferlab.Prelude.{
  ℕ, suc, ◌≡◌, refl, sym, ap, ◌∙◌, Bool, true, false, not, ◌&&◌, List, [], ◌∷◌, ◌==◌, arith, leb,
  length, keep, count_if, some_of,
}
use pufferlab.Prelude.Result.{Result, ok, err, raise_if, traverse, >>=-eq-ok, ok-injective}
use pufferlab.Prelude.Sort.{sort, length-sort}
use pufferlab.Evals.Float.{Float}
use pufferlab.Evals.Models.{EvalError, QueryOutcome, PairedQueryDelta, is_paired}
use pufferlab.Evals.Aggregation.{is_failed}
use pufferlab.Evals.Pairing.{paired_deltas}
use pufferlab.Evals.Report.{
  GatePolicy, GateReport, GateVerdict, canonical_query_count, violation_lt, verdict_of,
  is_valid_policy, is_valid_error_rate, is_valid_coverage, is_valid_aggregate, is_valid_per_query,
}
use pufferlab.Evals.Gates.{
  refused, invalid_binding, invalid_policy, invalid_query_catalog, invalid_baseline_evidence,
  invalid_candidate_evidence, zero_paired_queries, lift, validated, valid_query_ids, valid_outcomes,
  metric_delta, violations_of, report_on, evaluate_gate, error_rate_check, coverage_check,
  aggregate_check, drop_check,
}

validated-ok : {A : Type 0} (b : Bool) (a a' : A) → validated b a ≡ ok a' → a' ≡ a
validated-ok true a a' h = sym (ok-injective h)
validated-ok false a a' h = cc

lift-ok : {A : Type 0} (r : Result EvalError A) (a : A) → lift r ≡ ok a → r ≡ ok a
lift-ok (ok b) a h = ground arith
lift-ok (err e) a h = ground arith

length-traverse :
    {A B : Type 0} (g : A → Result EvalError B) (xs : List A) (ys : List B)
    → traverse g xs ≡ ok ys
    → length ys ≡ length xs
length-traverse g [] ys h = ground arith
length-traverse g (x ∷ xs) ys h =
    let (y, _, h1) = >>=-eq-ok (g x) _ h in
    let (rest, e, h2) = >>=-eq-ok (traverse g xs) _ h1 in
    ap length (sym (ok-injective h2)) ∙ ap suc (length-traverse g xs rest e)

module _ {F : Type 0} ⦃f : Float F⦄ where
  -- No delta is under the negated bound.
  abbrev pub no_drop : F → List F → Bool
  no_drop drop deltas = not (some_of (λ d. f.lt d (f.neg drop)) deltas)

  -- The four conditions of a policy, on the evidence itself.
  abbrev pub meets : GatePolicy F → List (QueryOutcome F) → List F → Bool
  meets policy candidate deltas =
      f.le (f.ratio (count_if is_failed candidate) canonical_query_count) policy.max_error_rate
      && leb policy.min_paired_queries (length deltas)
      && f.le policy.min_delta (f.div (f.fsum deltas) (f.of_nat (length deltas)))
      && no_drop policy.max_query_drop deltas

  no_violations :
      (drop : F) (paired : List (PairedQueryDelta F)) (deltas : List F)
      → length deltas ≡ length paired
      → (length (violations_of drop paired deltas) == 0) ≡ no_drop drop deltas
  no_violations drop [] [] e = refl
  no_violations drop [] (x ∷ deltas) e = ground arith
  no_violations drop (d ∷ ds) [] e = ground arith
  no_violations drop (d ∷ ds) (x ∷ deltas) e = ground (arith, no_violations drop ds deltas)

  report_on-verdict :
      (run_id baseline_id candidate_id failed : ℕ) (policy : GatePolicy F)
      (paired : List (PairedQueryDelta F)) (deltas : List F) (report : GateReport F)
      → report_on run_id baseline_id candidate_id policy failed paired deltas ≡ ok report
      → report.verdict
        ≡ verdict_of (
            f.le (f.ratio failed canonical_query_count) policy.max_error_rate
            && leb policy.min_paired_queries (length paired)
            && f.le policy.min_delta (f.div (f.fsum deltas) (f.of_nat (length deltas)))
            && length (sort violation_lt (violations_of policy.max_query_drop paired deltas)) == 0)
  unfolding report_on
  report_on-verdict run_id baseline_id candidate_id failed policy paired deltas report h =
      let count = length paired in
      let mean = f.div (f.fsum deltas) (f.of_nat (length deltas)) in
      let violations = sort violation_lt (violations_of policy.max_query_drop paired deltas) in
      let e = error_rate_check policy failed in
      let c = coverage_check policy count in
      let a = aggregate_check policy count mean in
      let d = drop_check policy count violations in
      let (e', v1, h1) = >>=-eq-ok (validated (is_valid_error_rate e) e) _ h in
      let (c', v2, h2) = >>=-eq-ok (validated (is_valid_coverage c) c) _ h1 in
      let (a', v3, h3) = >>=-eq-ok (validated (is_valid_aggregate a) a) _ h2 in
      let (d', v4, h4) = >>=-eq-ok (validated (is_valid_per_query d) d) _ h3 in
      let passed = ap (λ (x : GateReport F). x.verdict) (validated-ok _ _ report h4) in
      passed
      ∙ ap verdict_of (
          ap (λ x. x.passed && c'.passed && a'.passed && d'.passed) (validated-ok _ e e' v1)
          ∙ ap (λ x. e.passed && x.passed && a'.passed && d'.passed) (validated-ok _ c c' v2)
          ∙ ap (λ x. e.passed && c.passed && x.passed && d'.passed) (validated-ok _ a a' v3)
          ∙ ap (λ x. e.passed && c.passed && a.passed && x.passed) (validated-ok _ d d' v4))

  meets-eq :
      (policy : GatePolicy F) (candidate : List (QueryOutcome F))
      (paired : List (PairedQueryDelta F)) (deltas : List F)
      → length deltas ≡ length paired
      → (f.le (f.ratio (count_if is_failed candidate) canonical_query_count) policy.max_error_rate
          && leb policy.min_paired_queries (length paired)
          && f.le policy.min_delta (f.div (f.fsum deltas) (f.of_nat (length deltas)))
          && length (sort violation_lt (violations_of policy.max_query_drop paired deltas)) == 0)
        ≡ meets policy candidate deltas
  meets-eq policy candidate paired deltas e =
      let vs = violations_of policy.max_query_drop paired deltas in
      rw (length-sort violation_lt vs, no_violations policy.max_query_drop paired deltas e, e) refl

  -- The verdict that the four conditions give on the paired deltas of the metric of the policy.
  abbrev pub IsDecided :
      List (QueryOutcome F) → List (QueryOutcome F) → GatePolicy F → GateVerdict → Type 0
  IsDecided baseline candidate policy verdict =
      (rows : List (PairedQueryDelta F)) × (deltas : List F) × (paired_deltas baseline candidate
        ≡ ok rows)
      × (traverse (metric_delta policy.metric) (keep (λ d. is_paired d.status) rows) ≡ ok deltas)
      × (verdict ≡ verdict_of (meets policy candidate deltas))

  -- The verdict of a report that evaluate_gate returns is the one that the four inclusive
  -- conditions of the policy give on the evidence: the rate of failed candidates, the number of
  -- paired queries, the mean of the paired deltas, and no paired delta under the negated bound.
  pub evaluate_gate-verdict :
      (run_id baseline_id candidate_id : ℕ) (expected : List ℕ)
      (baseline candidate : List (QueryOutcome F)) (policy : GatePolicy F) (report : GateReport F)
      → evaluate_gate run_id baseline_id candidate_id expected baseline candidate policy ≡ ok report
      → IsDecided baseline candidate policy report.verdict
  unfolding evaluate_gate
  evaluate_gate-verdict run_id baseline_id candidate_id expected baseline candidate policy report
        h =
      let (_, _, h1) =
        >>=-eq-ok (raise_if (baseline_id == candidate_id) (refused invalid_binding)) _ h in
      let (_, _, h2) =
        >>=-eq-ok (raise_if (not (is_valid_policy policy)) (refused invalid_policy)) _ h1 in
      let (_, _, h3) =
        >>=-eq-ok (raise_if (not (valid_query_ids expected)) (refused invalid_query_catalog)) _
          h2 in
      let (_, _, h4) =
        >>=-eq-ok
          (raise_if (not (valid_outcomes expected baseline)) (refused invalid_baseline_evidence)) _
          h3 in
      let (_, _, h5) =
        >>=-eq-ok
          (raise_if (not (valid_outcomes expected candidate)) (refused invalid_candidate_evidence))
          _ h4 in
      let (rows, r, h6) = >>=-eq-ok (lift (paired_deltas baseline candidate)) _ h5 in
      let paired = keep (λ d. is_paired d.status) rows in
      let (_, _, h7) =
        >>=-eq-ok (raise_if (length paired == 0) (refused zero_paired_queries)) _ h6 in
      let (deltas, d, h8) = >>=-eq-ok (lift (traverse (metric_delta policy.metric) paired)) _ h7 in
      let found = lift-ok (traverse (metric_delta policy.metric) paired) deltas d in
      let same = length-traverse (metric_delta policy.metric) paired deltas found in
      let drop = policy.max_query_drop in
      (
        rows,
        deltas,
        lift-ok (paired_deltas baseline candidate) rows r,
        found,
        report_on-verdict run_id baseline_id candidate_id (count_if is_failed candidate) policy
              paired deltas report h8
            ∙ ap verdict_of (meets-eq policy candidate paired deltas same),
      )
