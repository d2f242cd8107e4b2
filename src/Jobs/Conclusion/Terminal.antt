-- ===== src/Jobs/Conclusion/Terminal.antt =====
-- A job whose tasks go on finishing ends, and its run ends with it.
use pufferlab.Prelude.{ℕ, ◌≤◌, ◌≡◌, refl, true, false, Option, none, some, List, length, arith}
use pufferlab.Persistence.Records.{EvalRunStatus, running, same_status, is_terminal, is_allowed}
use pufferlab.Persistence.Codec.{Codecs, IsFaithful}
use pufferlab.Persistence.Rows.{EvalRunRow, Db, find}
use pufferlab.Persistence.Selects.{is_run}
use pufferlab.Persistence.Runs.Invariant.{IsValid}
use pufferlab.Persistence.Runs.History.{Call, perform, perform-IsValid}
use pufferlab.Persistence.Runs.Machine.{State, Step, moved, Moves, status?, status_of}
use pufferlab.Persistence.Runs.Machine.Refinement.{perform-Moves}
use pufferlab.Jobs.Loop.{QueryWorkItem, Wake, begin}
use pufferlab.Jobs.Loop.Progress.{IsLive, loop-is_over}
use pufferlab.Jobs.Conclusion.{
  Surroundings, JobEnd, returned_run, raised_failure, unfinished, run_claimed,
}
use pufferlab.Jobs.Conclusion.Released.{
  IsReleased, IsCancelledOnce, is_running_row, run_claimed-IsReleased,
}
use pufferlab.Jobs.Conclusion.Kept.{Leaves, run_claimed-Leaves}
use mathlib.Core.Logic.{inl, inr}

-- The run was claimed at some time.
abbrev IsStarted : State → Type 0
IsStarted none = ⊥
IsStarted (some EvalRunStatus.queued) = ⊥
IsStarted (some _) = Unit {0}

abbrev IsTerminal : State → Type 0
IsTerminal none = ⊥
IsTerminal (some status) = is_terminal status ≡ true

-- The job returned or raised, and left its run in a terminal status.
abbrev pub IsEnded : {F T : Type 0} → ℕ → JobEnd F T → Type 0
IsEnded id (returned_run _ db) = IsTerminal (status_of id db)
IsEnded id (raised_failure _ db) = IsTerminal (status_of id db)
IsEnded id unfinished = ⊥

target-IsStarted :
    (current target : EvalRunStatus) → is_allowed current target ≡ true → IsStarted (some target)
target-IsStarted current EvalRunStatus.queued allowed = ground arith
target-IsStarted current _ allowed = tt

Step-IsStarted : {s t : State} → Step s t → IsStarted s → IsStarted t
Step-IsStarted Step.created h = h
Step-IsStarted (moved {current} {target} allowed) h = target-IsStarted current target allowed

Moves-IsStarted : {s t : State} → Moves s t → IsStarted s → IsStarted t
Moves-IsStarted (inl e) h = rw e h
Moves-IsStarted (inr step) h = Step-IsStarted step h

status-IsTerminal :
    (status : EvalRunStatus)
    → IsStarted (some status)
    → same_status status running ≡ false
    → is_terminal status ≡ true
status-IsTerminal EvalRunStatus.queued started other = elim started [ ]
status-IsTerminal running started other = ground arith
status-IsTerminal _ started other = refl

row-IsTerminal :
    {T : Type 0} (found : Option (EvalRunRow T))
    → IsStarted (status? found)
    → is_running_row found ≡ false
    → IsTerminal (status? found)
row-IsTerminal none started other = started
row-IsTerminal (some row) started other = status-IsTerminal row.status started other

-- The tables in which a job runs.
record Claimed {F P T : Type 0} (c : Codecs F P T) (id : ℕ) (db : Db T) : Type 0 where
  valid : IsValid c db
  started : IsStarted (status_of id db)

module _ {F P T : Type 0} (c : Codecs F P T) (faithful : IsFaithful c) (around : Surroundings F P)
    (id : ℕ) where
  perform-Claimed :
      (call : Call F P) (db : Db T) → Claimed c id db → Claimed c id (perform c call db)
  perform-Claimed call db h = record {
    valid = perform-IsValid c faithful call db h.valid;
    started = Moves-IsStarted (perform-Moves c faithful id call db h.valid) h.started;
  }

  IsEnded-join : (end : JobEnd F T) → Leaves (Claimed c id) end → IsReleased id end → IsEnded id end
  IsEnded-join (returned_run run db) kept released =
      row-IsTerminal (find (is_run id) db.runs) kept.started released
  IsEnded-join (raised_failure e db) kept released =
      row-IsTerminal (find (is_run id) db.runs) kept.started released
  IsEnded-join unfinished kept released = kept

  -- A job on a running run ends, and then its run has a terminal status, whatever other repository
  -- calls ran meanwhile, if each wake of its wait finds a task of the job done and there are at
  -- least as many wakes as work items. A cancellation may end the wait early, if it does not also
  -- cancel the wait for the cancelled tasks. The run tables were valid, a written value is read
  -- back, the time of the failure has an offset and the error detail of a failed job is valid.
  pub run_claimed-IsEnded :
      (max_concurrency : ℕ) (items : List QueryWorkItem) (wakes : List (Wake F P)) (db : Db T)
      → IsValid c db
      → status_of id db ≡ some running
      → around.failed_at.aware ≡ true
      → c.is_valid_error around.execution_failed ≡ true
      → IsCancelledOnce around wakes
      → IsLive max_concurrency items c id wakes (begin db)
      → length items ≤ length wakes
      → IsEnded id (run_claimed c around id max_concurrency items wakes db)
  run_claimed-IsEnded max_concurrency items wakes db valid claimed aware valid_error once live
        enough =
      let over = loop-is_over max_concurrency items c id wakes db live enough in
      let start : Claimed c id db = record { valid = valid; started = rw claimed tt } in
      IsEnded-join (run_claimed c around id max_concurrency items wakes db)
        (run_claimed-Leaves c (Claimed c id) perform-Claimed around id max_concurrency items wakes
          db over start)
        (run_claimed-IsReleased c faithful around id aware valid_error max_concurrency items wakes
          db once valid)
