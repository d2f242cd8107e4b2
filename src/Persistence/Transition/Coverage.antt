-- ===== src/Persistence/Transition/Coverage.antt =====
-- `_validate_completion_summaries`: what its success says of the durable outcomes.
use pufferlab.Prelude.{
  ℕ, ◌+◌, ◌≡◌, true, Option, none, some, List, [], ◌∷◌, map, arith, All, same_list→eq,
}
use pufferlab.Prelude.Result.{ok}
use pufferlab.Persistence.Records.{ConfigRunSummary, QueryOutcomeStatus}
use pufferlab.Persistence.Rows.{EvalRunRow, RunConfigRow, QueryOutcomeRow, Db}
use pufferlab.Persistence.Selects.{run_config_ids, outcome_count}
use pufferlab.Persistence.Transition.{all_exact, validate_completion_summaries}

module _ {T : Type 0} where
  -- Every config of the run has as many durable outcomes as the run has queries.
  abbrev pub IsCovered : List RunConfigRow → List (QueryOutcomeRow T) → ℕ → ℕ → Type 0
  IsCovered run_configs outcomes run total =
      All
        (λ id.
          outcome_count run id QueryOutcomeStatus.succeeded outcomes
            + outcome_count run id QueryOutcomeStatus.failed outcomes
          ≡ total)
        (run_config_ids run run_configs)

  module _ {F : Type 0} (db : Db T) (row : EvalRunRow T) where
    all_exact-All :
        (summaries : List (ConfigRunSummary F))
        → all_exact db row summaries ≡ true
        → All
            (λ id.
              outcome_count row.id id QueryOutcomeStatus.succeeded db.outcomes
                + outcome_count row.id id QueryOutcomeStatus.failed db.outcomes
              ≡ row.total_queries)
            (map (λ summary. summary.config_id) summaries)
    unfolding all_exact
    all_exact-All [] h = tt
    all_exact-All (s ∷ rest) h = (ground arith, all_exact-All rest (ground arith))

    same_ids :
        (summaries : List (ConfigRunSummary F))
        → validate_completion_summaries db row (some summaries) ≡ ok tt
        → (map (λ summary. summary.config_id) summaries ≡ run_config_ids row.id db.run_configs)
          × (all_exact db row summaries ≡ true)
    unfolding validate_completion_summaries
    same_ids summaries h =
        let ids = map (λ (s : ConfigRunSummary F). s.config_id) summaries in
        let stored = run_config_ids row.id db.run_configs in
        (same_list→eq ids stored (ground arith), ground arith)

    pub validate-IsCovered :
        (summaries : Option (List (ConfigRunSummary F)))
        → validate_completion_summaries db row summaries ≡ ok tt
        → IsCovered db.run_configs db.outcomes row.id row.total_queries
    unfolding validate_completion_summaries
    validate-IsCovered none h = cc
    validate-IsCovered (some summaries) h =
        let (ids, exact) = same_ids summaries h in rw ids at (all_exact-All summaries exact)
