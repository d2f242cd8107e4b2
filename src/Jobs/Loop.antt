-- ===== src/Jobs/Loop.antt =====
-- `_run_claimed` of jobs/manager.py. The coroutine runs from one `await` to the next; what it awaits
-- is the environment's: which tasks are done and with what result, what `on_progress` and `finalize`
-- do, whether cancellation was requested, and which repository calls others made meanwhile.
pub mod Bounds
pub mod Settling
pub mod Accounting
pub mod Completion
pub mod Progress
use pufferlab.Prelude.{
  ℕ, zero, suc, ◌+◌, Bool, true, false, not, ◌&&◌, ◌||◌, Option, none, some, List, [], ◌∷◌, ◌++◌,
  ltb, ◌==◌, if◌then◌else◌, is_some, length, drop,
}
use pufferlab.Prelude.Result.{Result, ok, err, ◌>>=◌}
use pufferlab.Prelude.Sort.{sort}
use pufferlab.Persistence.Errors.{PersistenceError, Checked}
use pufferlab.Persistence.Records.{
  DateTime, ApiErrorDetail, ConfigRunSummary, EvalRunStatus, running, failed, cancelled, EvalRun,
  QueryOutcome, same_status,
}
use pufferlab.Persistence.Codec.{Codecs}
use pufferlab.Persistence.Rows.{Db}
use pufferlab.Persistence.Runs.{get_run, transition_run, complete_run, record_outcome}
use pufferlab.Persistence.Runs.History.{Call, history}

pub record QueryWorkItem : Type 0 where
  pub config_id : ℕ
  pub query_id : ℕ

-- Why a job fails; the numbers stand for exceptions of code that the job calls.
pub data Failure : Type 0 where
  task_error progress_error finalize_error wait_error : ℕ → Failure
  another_run identity_mismatch : Failure
  persistence : PersistenceError → Failure

pub data TaskResult (P : Type 0) : Type 0 where
  returned : QueryOutcome P → TaskResult P
  raised : Failure → TaskResult P

-- What happens elsewhere while the job is suspended.
pub record Meanwhile (F P : Type 0) : Type 0 where
  pub cancels : Bool
  pub calls : List (Call F P)

-- A done task: its index, its result, and how the `await` of its progress callback ends.
pub record Done (F P : Type 0) : Type 0 where
  pub index : ℕ
  pub outcome : TaskResult P
  pub progress : Option Failure
  pub meanwhile : Meanwhile F P

-- How `asyncio.wait` ends: with the tasks that are done, or by an exception.
pub data Wake (F P : Type 0) : Type 0 where
  woke : Meanwhile F P → List (Done F P) → Wake F P
  killed : Meanwhile F P → ℕ → Wake F P

pub record Job (T : Type 0) : Type 0 where
  pub next_index : ℕ
  pub inflight : List (ℕ × QueryWorkItem)
  pub first_failure : Option Failure
  pub cancellation_requested : Bool
  pub db : Db T

-- `inflight.pop(task)`
abbrev pub item_at : ℕ → List (ℕ × QueryWorkItem) → Option QueryWorkItem
item_at index [] = none
item_at index ((i, item) ∷ rest) = if i == index then some item else item_at index rest

abbrev pub remove_at : ℕ → List (ℕ × QueryWorkItem) → List (ℕ × QueryWorkItem)
remove_at index [] = []
remove_at index ((i, item) ∷ rest) = if i == index then rest else (i, item) ∷ remove_at index rest

module _ {T : Type 0} where
  abbrev pub begin : Db T → Job T
  begin db = record {
    next_index = 0;
    inflight = [];
    first_failure = none;
    cancellation_requested = false;
    db = db;
  }

  -- The first three tests of the inner `while`.
  abbrev pub may_start : ℕ → Job T → Bool
  may_start max_concurrency job =
      not (is_some job.first_failure)
      && not job.cancellation_requested
      && ltb (length job.inflight) max_concurrency

  abbrev pub start_item : QueryWorkItem → Job T → Job T
  start_item item job = record job {
    next_index = job.next_index + 1;
    inflight = job.inflight ++ (job.next_index, item) ∷ [];
  }

  -- The inner `while` over `work_items[next_index:]`.
  pub fill_from : ℕ → List QueryWorkItem → Job T → Job T
  fill_from max_concurrency [] job = job
  fill_from max_concurrency (item ∷ rest) job = elim (may_start max_concurrency job) [
    | true ↦ fill_from max_concurrency rest (start_item item job)
    | false ↦ job
  ]

  unfoldable pub fill : ℕ → List QueryWorkItem → Job T → Job T
  unfolding fill_from
  fill max_concurrency items job = fill_from max_concurrency (drop job.next_index items) job

  -- `if first_failure is None: first_failure = error`
  abbrev pub fail : Failure → Job T → Job T
  fail e job = record job {
    first_failure = elim job.first_failure [ none ↦ some e | some first ↦ some first ];
  }

  abbrev pub fail? : Option Failure → Job T → Job T
  fail? none job = job
  fail? (some e) job = fail e job

-- How the outer `while` ends: by `break`, by an exception of the wait, or not yet.
pub data LoopEnd (T : Type 0) : Type 0 where
  broke : Job T → LoopEnd T
  threw : Failure → Job T → LoopEnd T
  waiting : Job T → LoopEnd T

abbrev pub has_inflight : {T : Type 0} → Job T → Bool
has_inflight job = elim job.inflight [ [] ↦ false | _ ∷ _ ↦ true ]

-- `key=lambda completed: inflight[completed][0]`
abbrev pub by_index : {F P : Type 0} → Done F P → Done F P → Bool
by_index a b = ltb a.index b.index

module _ {F P T : Type 0} (c : Codecs F P T) where
  abbrev pub pass : Meanwhile F P → Job T → Job T
  pass m job = record job {
    cancellation_requested = job.cancellation_requested || m.cancels;
    db = history c m.calls job.db;
  }

  -- `record_outcome` returned or raised; the progress callback is awaited after a success.
  abbrev pub stored_outcome : Done F P → Job T → Checked (EvalRun F × Db T) → Job T
  stored_outcome d job (ok (_, db')) = fail? d.progress (pass d.meanwhile (record job { db = db' }))
  stored_outcome d job (err e) = fail (persistence e) job

  abbrev pub check_outcome : ℕ → Done F P → QueryWorkItem → QueryOutcome P → Job T → Job T
  check_outcome run_id d item outcome job =
      if not (outcome.run_id == run_id)
      then fail another_run job
      else if not (outcome.config_id == item.config_id && outcome.query_id == item.query_id)
      then fail identity_mismatch job
      else stored_outcome d job (record_outcome c outcome job.db)

  abbrev pub settle_result : ℕ → Done F P → QueryWorkItem → TaskResult P → Job T → Job T
  settle_result run_id d item (raised e) job = fail e job
  settle_result run_id d item (returned outcome) job = check_outcome run_id d item outcome job

  abbrev pub settle_item : ℕ → Done F P → Option QueryWorkItem → Job T → Job T
  settle_item run_id d none job = job
  settle_item run_id d (some item) job =
      settle_result run_id d item d.outcome
        (record job { inflight = remove_at d.index job.inflight })

  -- One round of the `for`; an index that is not in flight is no task of this job.
  unfoldable pub settle_done : ℕ → Done F P → Job T → Job T
  settle_done run_id d job = settle_item run_id d (item_at d.index job.inflight) job

  unfoldable pub settle_all : ℕ → List (Done F P) → Job T → Job T
  unfolding settle_done
  settle_all run_id [] job = job
  settle_all run_id (d ∷ ds) job = settle_all run_id ds (settle_done run_id d job)

  unfoldable pub loop : ℕ → ℕ → List QueryWorkItem → List (Wake F P) → Job T → LoopEnd T
  unfolding fill settle_all sort
  loop run_id max_concurrency items [] job =
      let filled = fill max_concurrency items job in
      if has_inflight filled then waiting filled else broke filled
  loop run_id max_concurrency items (woke m done ∷ wakes) job =
      let filled = fill max_concurrency items job in
      let rest =
        loop run_id max_concurrency items wakes
          (settle_all run_id (sort by_index done) (pass m filled)) in
      if has_inflight filled then rest else broke filled
  loop run_id max_concurrency items (killed m e ∷ wakes) job =
      let filled = fill max_concurrency items job in
      if has_inflight filled then threw (wait_error e) (pass m filled) else broke filled
