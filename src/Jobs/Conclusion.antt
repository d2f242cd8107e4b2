-- ===== src/Jobs/Conclusion.antt =====
-- The end of `_run_claimed` of jobs/manager.py: the run is completed, cancelled or failed.
pub mod Kept
pub mod Valid
pub mod Released
pub mod Complete
pub mod Terminal
use pufferlab.Prelude.{ℕ, Bool, true, false, Option, none, some, List, [], ◌∷◌, if◌then◌else◌}
use pufferlab.Prelude.Result.{Result, ok, err}
use pufferlab.Persistence.Errors.{PersistenceError, Checked}
use pufferlab.Persistence.Records.{
  DateTime, ApiErrorDetail, ConfigRunSummary, EvalRunStatus, running, failed, cancelled, EvalRun,
  QueryOutcome, same_status,
}
use pufferlab.Persistence.Codec.{Codecs}
use pufferlab.Persistence.Rows.{Db}
use pufferlab.Persistence.Runs.{get_run, transition_run, complete_run}
use pufferlab.Persistence.Runs.History.{history}
use pufferlab.Persistence.Reads.{list_outcomes, max_outcome_rows}
use pufferlab.Jobs.Loop.{
  Failure, persistence, finalize_error, wait_error, Meanwhile, Job, LoopEnd, broke, threw, waiting,
  Wake, begin, pass, has_inflight, loop, QueryWorkItem,
}

-- What the end of a job takes from its environment.
pub record Surroundings (F P : Type 0) : Type 0 where
  pub finalize : EvalRun F → List (QueryOutcome P) → Result ℕ (List (ConfigRunSummary F))
  pub while_finalizing : Meanwhile F P
  pub while_gathering : Meanwhile F P
  -- The exception of the wait for the cancelled tasks, where it is itself cancelled.
  pub gather_error : Option ℕ
  pub cancelled_at : DateTime
  pub completed_at : DateTime
  pub failed_at : DateTime
  -- `_execution_failed_error()`
  pub execution_failed : ApiErrorDetail

pub data JobEnd (F T : Type 0) : Type 0 where
  returned_run : EvalRun F → Db T → JobEnd F T
  raised_failure : Failure → Db T → JobEnd F T
  unfinished : JobEnd F T

module _ {F P T : Type 0} (c : Codecs F P T) (around : Surroundings F P) where
  abbrev marked_failed : Failure → Db T → Checked (EvalRun F × Db T) → JobEnd F T
  marked_failed e db (ok (_, db')) = raised_failure e db'
  marked_failed e db (err second) = raised_failure (persistence second) db

  abbrev mark_failed : ℕ → Failure → Db T → Checked (EvalRun F) → JobEnd F T
  mark_failed run_id e db (err second) = raised_failure (persistence second) db
  mark_failed run_id e db (ok current) =
      if same_status current.status running
      then marked_failed e db
          (transition_run c run_id failed around.failed_at none (some around.execution_failed) db)
      else raised_failure e db

  abbrev gathered : ℕ → Failure → Job T → Option ℕ → JobEnd F T
  gathered run_id e job none = mark_failed run_id e job.db (get_run c job.db run_id)
  gathered run_id e job (some second) = raised_failure (wait_error second) job.db

  -- `except BaseException`
  unfoldable pub fail_run : ℕ → Failure → Job T → JobEnd F T
  fail_run run_id e job =
      if has_inflight job
      then gathered run_id e (pass c around.while_gathering job) around.gather_error
      else mark_failed run_id e job.db (get_run c job.db run_id)

  abbrev ended : ℕ → Job T → Checked (EvalRun F × Db T) → JobEnd F T
  ended run_id job (ok (run, db')) = returned_run run db'
  ended run_id job (err e) = fail_run run_id (persistence e) job

  abbrev finalized : ℕ → Job T → Result ℕ (List (ConfigRunSummary F)) → JobEnd F T
  finalized run_id job (err e) = fail_run run_id (finalize_error e) job
  finalized run_id job (ok summaries) =
      ended run_id job (complete_run c run_id summaries around.completed_at job.db)

  abbrev summarized : ℕ → Job T → Checked (EvalRun F) → Checked (List (QueryOutcome P)) → JobEnd F T
  summarized run_id job (ok run) (ok outcomes) =
      finalized run_id (pass c around.while_finalizing job) (around.finalize run outcomes)
  summarized run_id job (err e) outcomes = fail_run run_id (persistence e) job
  summarized run_id job (ok run) (err e) = fail_run run_id (persistence e) job

  abbrev after_break : ℕ → Job T → Option Failure → JobEnd F T
  after_break run_id job (some e) = fail_run run_id e job
  after_break run_id job none =
      if job.cancellation_requested
      then ended run_id job (transition_run c run_id cancelled around.cancelled_at none none job.db)
      else summarized run_id job (get_run c job.db run_id)
          (list_outcomes c run_id none max_outcome_rows job.db)

  unfoldable pub conclude : ℕ → LoopEnd T → JobEnd F T
  unfolding fail_run
  conclude run_id (broke job) = after_break run_id job job.first_failure
  conclude run_id (threw e job) = fail_run run_id e job
  conclude run_id (waiting job) = unfinished

  -- `_run_claimed`
  unfoldable pub run_claimed : ℕ → ℕ → List QueryWorkItem → List (Wake F P) → Db T → JobEnd F T
  unfolding conclude loop
  run_claimed run_id max_concurrency items wakes db =
      conclude run_id (loop c run_id max_concurrency items wakes (begin db))
