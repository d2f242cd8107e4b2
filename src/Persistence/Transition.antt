-- ===== src/Persistence/Transition.antt =====
-- `_validate_completion_summaries` and `_transition_row` of persistence/repository.py.
pub mod Lifecycle
pub mod Coverage
use pufferlab.Prelude.{
  ℕ, ◌+◌, Bool, true, false, not, ◌&&◌, Option, none, some, List, [], ◌∷◌, map, ◌==◌, if◌then◌else◌,
  is_some, distinct, same_list,
}
use pufferlab.Prelude.Result.{ok, err, ◌>>=◌, ◌>>◌, raise_if}
use pufferlab.Persistence.Errors.{invalid_run_transition, validation_error, Checked}
use pufferlab.Persistence.Records.{
  DateTime, ConfigRunSummary, ApiErrorDetail, EvalRunStatus, running, completed, failed, EvalRun,
  QueryOutcomeStatus, same_status, is_terminal, is_allowed,
}
use pufferlab.Persistence.Codec.{Codecs, canonical_utc?, canonical_run}
use pufferlab.Persistence.Rows.{EvalRunRow, Db, decode_run_row}
use pufferlab.Persistence.Selects.{is_none, run_config_ids, outcome_count}

module _ {T : Type 0} where
  -- One round of the last loop of `_validate_completion_summaries`.
  abbrev pub has_exact_counts : {F : Type 0} → Db T → EvalRunRow T → ConfigRunSummary F → Bool
  has_exact_counts db row summary =
      summary.completed_queries
        == outcome_count row.id summary.config_id QueryOutcomeStatus.succeeded db.outcomes
      && summary.failed_queries
        == outcome_count row.id summary.config_id QueryOutcomeStatus.failed db.outcomes
      && summary.completed_queries + summary.failed_queries == row.total_queries

  unfoldable pub all_exact : {F : Type 0} → Db T → EvalRunRow T → List (ConfigRunSummary F) → Bool
  all_exact db row [] = true
  all_exact db row (summary ∷ rest) = has_exact_counts db row summary && all_exact db row rest

  -- `_validate_completion_summaries`
  unfoldable pub validate_completion_summaries :
      {F : Type 0} → Db T → EvalRunRow T → Option (List (ConfigRunSummary F)) → Checked (Unit {0})
  validate_completion_summaries db row none = err invalid_run_transition
  validate_completion_summaries db row (some summaries) = do
    let summary_ids = map (λ summary. summary.config_id) summaries
    raise_if (not (distinct summary_ids)) validation_error
    raise_if (not (same_list summary_ids (run_config_ids row.id db.run_configs))) validation_error
    raise_if (not (all_exact db row summaries)) validation_error

-- `error is not None`, checked and normalized.
abbrev pub checked_error :
    {F P T : Type 0} → Codecs F P T → Option ApiErrorDetail → Checked (Unit {0})
checked_error c none = ok tt
checked_error c (some e) = raise_if (not (c.is_valid_error e)) validation_error

abbrev pub replaced {ℓ} : {A : Type ℓ} → Option A → A → A
replaced none old = old
replaced (some new) old = new

module _ {F P T : Type 0} (c : Codecs F P T) where
  -- The `model_copy` of `_transition_row`.
  abbrev pub updated_run :
      EvalRun F
      → EvalRunStatus
      → DateTime
      → Option (List (ConfigRunSummary F))
      → Option ApiErrorDetail
      → EvalRun F
  updated_run current target at summaries error = record current {
    status = target;
    started_at = if same_status target running then some at else current.started_at;
    completed_at = if is_terminal target then some at else current.completed_at;
    summaries = replaced summaries current.summaries;
    error = if same_status target failed then error else current.error;
  }

  unfoldable pub transition_row :
      EvalRunRow T
      → EvalRunStatus
      → DateTime
      → Option (List (ConfigRunSummary F))
      → Option ApiErrorDetail
      → Checked (EvalRun F × EvalRunRow T)
  unfolding canonical_utc? canonical_run
  transition_row row target at summaries error = do
    current ← decode_run_row c row
    raise_if (not (is_allowed current.status target)) invalid_run_transition
    raise_if
        (same_status target completed && not (current.completed_queries == current.total_queries))
        invalid_run_transition
    raise_if (same_status target failed && is_none error) validation_error
    raise_if (is_some error && not (same_status target failed)) validation_error
    checked_error c error
    let updated = updated_run current target at summaries error
    started_at ← canonical_utc? updated.started_at
    completed_at ← canonical_utc? updated.completed_at
    payload ← canonical_run c updated
    ok (
      updated,
      record row {
        status = target;
        started_at = started_at;
        completed_at = completed_at;
        payload_json = payload;
      },
    )
