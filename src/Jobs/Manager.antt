-- ===== src/Jobs/Manager.antt =====
-- The state and the methods of `RunJobManager` of jobs/manager.py. A task that the event loop holds
-- is an active job here; it runs as in `Jobs.Conclusion`, and `finish` is its `finally` clause.
pub mod Entries
pub mod Active
pub mod Claim
use pufferlab.Prelude.{
  ℕ, Bool, true, false, not, ◌&&◌, ◌||◌, Option, none, some, List, [], ◌∷◌, ◌++◌, ltb, ◌==◌, map,
  if◌then◌else◌, some_of, keep,
}
use pufferlab.Prelude.Result.{Result, ok, err, ◌>>=◌, ◌>>◌, raise_if}
use pufferlab.Persistence.Errors.{PersistenceError, validation_error, Checked}
use pufferlab.Persistence.Records.{
  DateTime, EvalRunStatus, queued, running, cancelled, EvalRun, same_status,
}
use pufferlab.Persistence.Codec.{Codecs}
use pufferlab.Persistence.Rows.{Db}
use pufferlab.Persistence.Runs.{get_run, transition_run, claim_queued_run, interrupt_stale_runs}
use pufferlab.Persistence.Runs.History.{Call, history}
use pufferlab.Jobs.Loop.{QueryWorkItem}

-- A value of `_active` with its key, and what its task was made with.
pub record ActiveJob : Type 0 where
  pub run_id : ℕ
  pub work_items : List QueryWorkItem
  pub max_concurrency : ℕ
  pub cancellation_requested : Bool

pub record Manager (T : Type 0) : Type 0 where
  pub active : List ActiveJob
  pub db : Db T

-- A `ValueError`, or an error of the repository.
pub data StartError : Type 0 where
  bad_concurrency : StartError
  rejected : PersistenceError → StartError

-- How `cancel` ends at once: it waits for an active job, or it has an answer.
pub data Cancelled (F T : Type 0) : Type 0 where
  awaits : Manager T → Cancelled F T
  answered : EvalRun F → Manager T → Cancelled F T

abbrev pub lift : {A : Type 0} → Checked A → Result StartError A
lift (ok a) = ok a
lift (err e) = err (rejected e)

abbrev pub same_item : QueryWorkItem → QueryWorkItem → Bool
same_item a b = a.config_id == b.config_id && a.query_id == b.query_id

-- `len(set(work_items)) == len(work_items)`
abbrev pub distinct_items : List QueryWorkItem → Bool
distinct_items [] = true
distinct_items (item ∷ items) = not (some_of (same_item item) items) && distinct_items items

-- `run_id in self._active`
abbrev pub is_active : ℕ → List ActiveJob → Bool
is_active run_id active = some_of (λ (job : ActiveJob). job.run_id == run_id) active

abbrev pub request_cancellation : ActiveJob → ActiveJob
request_cancellation job = record job { cancellation_requested = true }

abbrev pub set_cancellation : ℕ → List ActiveJob → List ActiveJob
set_cancellation run_id [] = []
set_cancellation run_id (job ∷ jobs) =
    let rest = set_cancellation run_id jobs in
    if job.run_id == run_id then request_cancellation job ∷ rest else job ∷ rest

module _ {T : Type 0} where
  -- `_schedule_claimed`: the key is new, or its value is replaced.
  abbrev pub schedule_claimed : ℕ → List QueryWorkItem → ℕ → Manager T → Manager T
  schedule_claimed run_id work_items max_concurrency m = record m {
    active =
        keep (λ (job : ActiveJob). not (job.run_id == run_id)) m.active
        ++ record {
          run_id = run_id;
          work_items = work_items;
          max_concurrency = max_concurrency;
          cancellation_requested = false;
        }
          ∷ [];
  }

  -- `self._active.pop(run_id, None)`
  abbrev pub finish : ℕ → Manager T → Manager T
  finish run_id m = record m {
    active = keep (λ (job : ActiveJob). not (job.run_id == run_id)) m.active;
  }

  -- The loop of `close`; then it awaits every task.
  abbrev pub close : Manager T → Manager T
  close m = record m { active = map request_cancellation m.active }

module _ {F P T : Type 0} (c : Codecs F P T) where
  unfoldable pub validate_start :
      ℕ → List QueryWorkItem → ℕ → EvalRunStatus → Manager T → Result StartError (EvalRun F)
  validate_start run_id work_items max_concurrency expected_status m = do
    raise_if (ltb max_concurrency 1) bad_concurrency
    raise_if (is_active run_id m.active) (rejected validation_error)
    raise_if (not (distinct_items work_items)) (rejected validation_error)
    run ← lift (get_run c m.db run_id)
    raise_if (not (same_status run.status expected_status)) (rejected validation_error)
    raise_if (not (run.environment.max_concurrency == max_concurrency)) (rejected validation_error)
    ok run

  unfoldable pub start :
      ℕ → List QueryWorkItem → ℕ → DateTime → Manager T → Result StartError (Manager T)
  unfolding validate_start
  start run_id work_items max_concurrency at m = do
    _ ← validate_start run_id work_items max_concurrency queued m
    claimed ← lift (claim_queued_run c run_id at m.db)
    ok (schedule_claimed claimed.0.id work_items max_concurrency (record m { db = claimed.1 }))

  unfoldable pub start_claimed :
      ℕ → List QueryWorkItem → ℕ → Manager T → Result StartError (Manager T)
  unfolding validate_start
  start_claimed run_id work_items max_concurrency m = do
    claimed ← validate_start run_id work_items max_concurrency running m
    ok (schedule_claimed claimed.id work_items max_concurrency m)

  abbrev pub cancel_written : Manager T → EvalRun F × Db T → Cancelled F T
  cancel_written m (run, db) = answered run (record m { db = db })

  -- `cancel` of a run that has no active job here.
  abbrev pub cancel_idle : ℕ → DateTime → Manager T → EvalRun F → Checked (Cancelled F T)
  cancel_idle run_id at m run =
      if same_status run.status queued || same_status run.status running
      then (transition_run c run_id cancelled at none none m.db >>= λ pair.
          ok (cancel_written m pair))
      else ok (answered run m)

  unfoldable pub cancel : ℕ → DateTime → Manager T → Checked (Cancelled F T)
  cancel run_id at m =
      if is_active run_id m.active
      then ok (awaits (record m { active = set_cancellation run_id m.active }))
      else get_run c m.db run_id >>= cancel_idle run_id at m

  abbrev pub recover_startup : DateTime → Manager T → Checked (List ℕ × Manager T)
  recover_startup at m =
      interrupt_stale_runs c at m.db >>= λ pair. ok (pair.0, record m { db = pair.1 })

-- What may happen to a manager, in any order: a call of a method, the end of a task, or a call of
-- the repository by others. A call that raises leaves the manager as it was.
pub data Event (F P : Type 0) : Type 0 where
  starts : ℕ → List QueryWorkItem → ℕ → DateTime → Event F P
  starts_claimed : ℕ → List QueryWorkItem → ℕ → Event F P
  cancels : ℕ → DateTime → Event F P
  closes : Event F P
  ends : ℕ → Event F P
  recovers : DateTime → Event F P
  others : List (Call F P) → Event F P

abbrev pub or_same : {E T : Type 0} → Manager T → Result E (Manager T) → Manager T
or_same m (ok m') = m'
or_same m (err _) = m

abbrev pub after_cancel : {F T : Type 0} → Manager T → Checked (Cancelled F T) → Manager T
after_cancel m (ok (awaits m')) = m'
after_cancel m (ok (answered _ m')) = m'
after_cancel m (err _) = m

abbrev pub after_recovery : {T : Type 0} → Manager T → Checked (List ℕ × Manager T) → Manager T
after_recovery m (ok (_, m')) = m'
after_recovery m (err _) = m

module _ {F P T : Type 0} (c : Codecs F P T) where
  unfoldable pub happen : Event F P → Manager T → Manager T
  unfolding start start_claimed cancel
  happen (starts run_id items max_concurrency at) m =
      or_same m (start c run_id items max_concurrency at m)
  happen (starts_claimed run_id items max_concurrency) m =
      or_same m (start_claimed c run_id items max_concurrency m)
  happen (cancels run_id at) m = after_cancel m (cancel c run_id at m)
  happen closes m = close m
  happen (ends run_id) m = finish run_id m
  happen (recovers at) m = after_recovery m (recover_startup c at m)
  happen (others calls) m = record m { db = history c calls m.db }

  unfoldable pub happen_all : List (Event F P) → Manager T → Manager T
  unfolding happen
  happen_all [] m = m
  happen_all (e ∷ es) m = happen_all es (happen e m)
