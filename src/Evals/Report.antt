-- ===== src/Evals/Report.antt =====
-- contracts/gates.py: the policy and the report of the evaluation gate, with their validators. A
-- number that pydantic bounds by 0 from below is a natural number.
use pufferlab.Prelude.{
  ℕ, ◌+◌, ◌-◌, Bool, true, false, not, ◌&&◌, List, [], ◌∷◌, ◌==◌, ltb, leb, map, if◌then◌else◌,
  some_of, every, length, distinct, min,
}
use pufferlab.Evals.Float.{Float, is_unit, is_signed_unit}

abbrev pub canonical_query_count : ℕ
canonical_query_count = 50

abbrev pub max_query_violations : ℕ
max_query_violations = 10

pub data GateMetricName : Type 0 where
  ndcg_at_10 recall_at_50 mrr_at_10 : GateMetricName

abbrev pub same_metric : GateMetricName → GateMetricName → Bool
same_metric ndcg_at_10 ndcg_at_10 = true
same_metric recall_at_50 recall_at_50 = true
same_metric mrr_at_10 mrr_at_10 = true
same_metric _ _ = false

pub data GateVerdict : Type 0 where
  passed policy_failed : GateVerdict

abbrev pub verdict_of : Bool → GateVerdict
verdict_of true = passed
verdict_of false = policy_failed

abbrev pub same_verdict : GateVerdict → GateVerdict → Bool
same_verdict passed passed = true
same_verdict policy_failed policy_failed = true
same_verdict _ _ = false

abbrev pub same_test : Bool → Bool → Bool
same_test true b = b
same_test false b = not b

pub record GatePolicy (F : Type 0) : Type 0 where
  pub metric : GateMetricName
  pub min_delta : F
  pub max_query_drop : F
  pub max_error_rate : F
  pub min_paired_queries : ℕ

pub record GateQueryViolation (F : Type 0) : Type 0 where
  pub query_id : ℕ
  pub observed_delta : F

pub record GateCandidateErrorRateCheck (F : Type 0) : Type 0 where
  pub passed : Bool
  pub failed_candidate_queries : ℕ
  pub observed_error_rate : F
  pub max_error_rate : F

pub record GatePairedQueryCoverageCheck : Type 0 where
  pub passed : Bool
  pub paired_query_count : ℕ
  pub excluded_query_count : ℕ
  pub min_paired_queries : ℕ

pub record GateAggregateDeltaCheck (F : Type 0) : Type 0 where
  pub passed : Bool
  pub metric : GateMetricName
  pub paired_query_count : ℕ
  pub observed_mean_delta : F
  pub min_delta : F

pub record GatePerQueryDropCheck (F : Type 0) : Type 0 where
  pub passed : Bool
  pub metric : GateMetricName
  pub paired_query_count : ℕ
  pub max_query_drop : F
  pub violating_query_count : ℕ
  pub violations : List (GateQueryViolation F)

-- The tuple of the checks is the four fields.
pub record GateReport (F : Type 0) : Type 0 where
  pub verdict : GateVerdict
  pub run_id : ℕ
  pub baseline_config_id : ℕ
  pub candidate_config_id : ℕ
  pub metric : GateMetricName
  pub error_rate : GateCandidateErrorRateCheck F
  pub coverage : GatePairedQueryCoverageCheck
  pub aggregate : GateAggregateDeltaCheck F
  pub per_query : GatePerQueryDropCheck F

-- `CanonicalQueryCount`
abbrev pub is_query_count : ℕ → Bool
is_query_count n = leb 1 n && leb n canonical_query_count

unfoldable pub is_valid_coverage : GatePairedQueryCoverageCheck → Bool
is_valid_coverage c =
    is_query_count c.paired_query_count
    && leb c.excluded_query_count (canonical_query_count - 1)
    && is_query_count c.min_paired_queries
    && c.paired_query_count + c.excluded_query_count == canonical_query_count
    && same_test c.passed (leb c.min_paired_queries c.paired_query_count)

module _ {F : Type 0} ⦃f : Float F⦄ where
  -- `key=lambda violation: (violation.observed_delta, str(violation.query_id))`
  abbrev pub violation_lt : GateQueryViolation F → GateQueryViolation F → Bool
  violation_lt a b =
      if f.same a.observed_delta b.observed_delta
      then ltb a.query_id b.query_id
      else f.lt a.observed_delta b.observed_delta

  -- The bounds of the fields of a policy.
  unfoldable pub is_valid_policy : GatePolicy F → Bool
  is_valid_policy p =
      is_signed_unit p.min_delta
      && is_unit p.max_query_drop
      && is_unit p.max_error_rate
      && is_query_count p.min_paired_queries

  unfoldable pub is_valid_error_rate : GateCandidateErrorRateCheck F → Bool
  is_valid_error_rate c =
      let expected_rate = f.ratio c.failed_candidate_queries canonical_query_count in
      leb c.failed_candidate_queries canonical_query_count
      && is_unit c.observed_error_rate
      && is_unit c.max_error_rate
      && f.same c.observed_error_rate expected_rate
      && same_test c.passed (f.le expected_rate c.max_error_rate)

  unfoldable pub is_valid_aggregate : GateAggregateDeltaCheck F → Bool
  is_valid_aggregate c =
      is_query_count c.paired_query_count
      && is_signed_unit c.observed_mean_delta
      && is_signed_unit c.min_delta
      && same_test c.passed (f.le c.min_delta c.observed_mean_delta)

  -- `self.violations == sorted(self.violations)`: a stable sort keeps a list that is in order.
  abbrev pub is_ordered : List (GateQueryViolation F) → Bool
  is_ordered [] = true
  is_ordered (v ∷ vs) = not (some_of (λ w. violation_lt w v) vs) && is_ordered vs

  unfoldable pub is_valid_per_query : GatePerQueryDropCheck F → Bool
  is_valid_per_query c =
      is_query_count c.paired_query_count
      && is_unit c.max_query_drop
      && leb c.violating_query_count canonical_query_count
      && every (λ v. is_signed_unit v.observed_delta) c.violations
      && length c.violations == min c.violating_query_count max_query_violations
      && leb c.violating_query_count c.paired_query_count
      && distinct (map (λ v. v.query_id) c.violations)
      && same_test c.passed (c.violating_query_count == 0)
      && not (some_of (λ v. f.le (f.neg c.max_query_drop) v.observed_delta) c.violations)
      && is_ordered c.violations

  abbrev pub all_passed : GateReport F → Bool
  all_passed r =
      r.error_rate.passed && r.coverage.passed && r.aggregate.passed && r.per_query.passed

  -- `validate_report`
  unfoldable pub is_valid_report : GateReport F → Bool
  is_valid_report r =
      not (r.baseline_config_id == r.candidate_config_id)
      && leb r.error_rate.failed_candidate_queries r.coverage.excluded_query_count
      && same_metric r.aggregate.metric r.metric
      && same_metric r.per_query.metric r.metric
      && r.coverage.paired_query_count == r.aggregate.paired_query_count
      && r.aggregate.paired_query_count == r.per_query.paired_query_count
      && same_verdict r.verdict (verdict_of (all_passed r))
