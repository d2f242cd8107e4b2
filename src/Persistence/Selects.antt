-- ===== src/Persistence/Selects.antt =====
-- The selections of persistence/repository.py over the run tables.
use pufferlab.Prelude.{
  ℕ, Bool, true, false, not, ◌&&◌, Option, none, some, List, [], ◌∷◌, map, ltb, ◌==◌, if◌then◌else◌,
  is_some, keep, count_if, contains,
}
use pufferlab.Prelude.Result.{ok, err}
use pufferlab.Prelude.Sort.{sort}
use pufferlab.Persistence.Errors.{PersistenceError, record_not_found, Checked}
use pufferlab.Persistence.Records.{QueryOutcomeStatus, same_outcome_status}
use pufferlab.Persistence.Rows.{EvalRunRow, RunConfigRow, QueryOutcomeRow, Db, find}

abbrev pub or_missing : {A : Type 0} → PersistenceError → Option A → Checked A
or_missing e none = err e
or_missing e (some a) = ok a

abbrev pub is_none : {A : Type 0} → Option A → Bool
is_none o = not (is_some o)

abbrev pub is_empty : {A : Type 0} → List A → Bool
is_empty [] = true
is_empty (_ ∷ _) = false

abbrev pub run_config_count : ℕ → List RunConfigRow → ℕ
run_config_count run rows = count_if (λ row. row.run_id == run) rows

-- The config ids that are bound to a run, in the order of their ordinals.
unfoldable pub run_config_ids : ℕ → List RunConfigRow → List ℕ
unfolding sort
run_config_ids run rows =
    map (λ row. row.config_id)
      (sort (λ a b. ltb a.ordinal b.ordinal) (keep (λ row. row.run_id == run) rows))

module _ {T : Type 0} where
  abbrev pub is_run : ℕ → EvalRunRow T → Bool
  is_run id row = row.id == id

  abbrev pub is_outcome_of : ℕ → ℕ → ℕ → QueryOutcomeRow T → Bool
  is_outcome_of run config query row =
      row.run_id == run && row.config_id == config && row.query_id == query

  -- `_require_run`
  abbrev pub require_run : Db T → ℕ → Checked (EvalRunRow T)
  require_run db id = or_missing record_not_found (find (is_run id) db.runs)

  -- The distinct query ids of a run's outcome rows.
  abbrev pub outcome_query_ids : ℕ → List (QueryOutcomeRow T) → List ℕ
  outcome_query_ids run [] = []
  outcome_query_ids run (row ∷ rows) =
      let rest = outcome_query_ids run rows in
      if row.run_id == run && not (contains row.query_id rest) then row.query_id ∷ rest else rest

  -- The number of outcome rows of one query of a run.
  abbrev pub outcomes_of_query : ℕ → List (QueryOutcomeRow T) → ℕ → ℕ
  outcomes_of_query run rows query =
      count_if (λ row. row.run_id == run && row.query_id == query) rows

  -- `_completed_query_count`
  unfoldable pub completed_query_count : List RunConfigRow → List (QueryOutcomeRow T) → ℕ → ℕ
  completed_query_count run_configs outcomes run =
      let config_count = run_config_count run run_configs in
      if config_count == 0
      then 0
      else count_if (λ query. outcomes_of_query run outcomes query == config_count)
          (outcome_query_ids run outcomes)

  -- The durable outcomes of one config of a run with one status.
  abbrev pub outcome_count : ℕ → ℕ → QueryOutcomeStatus → List (QueryOutcomeRow T) → ℕ
  outcome_count run config status rows =
      count_if
        (λ row.
          row.run_id == run && (row.config_id == config && same_outcome_status row.status status))
        rows
