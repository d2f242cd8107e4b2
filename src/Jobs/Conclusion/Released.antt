-- ===== src/Jobs/Conclusion/Released.antt =====
-- A job that ended does not leave its run in the status `running`.
use pufferlab.Prelude.{
  ℕ, ◌≡◌, refl, ◌∙◌, Bool, true, false, Option, none, some, List, arith, if◌then◌else◌, Bool-cases,
  inl, inr, ◌⊎◌, [], ◌∷◌, every,
}
use pufferlab.Prelude.Result.{Result, ok, err, is_ok, is_ok-eq}
use pufferlab.Prelude.Sort.{sort}
use pufferlab.Persistence.Errors.{Checked}
use pufferlab.Persistence.Records.{
  DateTime, ApiErrorDetail, ConfigRunSummary, EvalRunStatus, running, completed, failed, cancelled,
  EvalRun, QueryOutcome, same_status, same_status→eq,
}
use pufferlab.Persistence.Codec.{Codecs, IsFaithful}
use pufferlab.Persistence.Rows.{EvalRunRow, Db, find}
use pufferlab.Persistence.Rows.Agreement.{Agrees, Agrees-decode_run_row}
use pufferlab.Persistence.Selects.{is_run, require_run}
use pufferlab.Persistence.Transition.{transition_row}
use pufferlab.Persistence.Transition.Lifecycle.{transition_row-Changed}
use pufferlab.Persistence.Runs.{get_run, transition_run}
use pufferlab.Persistence.Runs.Tables.{find-write_self}
use pufferlab.Persistence.Runs.Invariant.{IsValid, transition_run-steps, require_run-RowIsValid}
use pufferlab.Persistence.Runs.History.{history-IsValid}
use pufferlab.Persistence.Reads.{list_outcomes, max_outcome_rows}
use pufferlab.Jobs.Loop.{
  QueryWorkItem, Failure, persistence, finalize_error, Job, LoopEnd, broke, threw, waiting, Wake,
  begin, pass, has_inflight, loop, Meanwhile, woke, killed, fill, settle_all, by_index, wait_error,
}
use pufferlab.Jobs.Conclusion.{
  Surroundings, JobEnd, returned_run, raised_failure, unfinished, marked_failed, mark_failed,
  gathered, fail_run, ended, finalized, summarized, after_break, conclude, run_claimed,
}
use pufferlab.Jobs.Conclusion.Valid.{loop-IsValid}
use pufferlab.Jobs.Loop.Bounds.{Holds}

abbrev pub is_running_row : {T : Type 0} → Option (EvalRunRow T) → Bool
is_running_row none = false
is_running_row (some row) = same_status row.status running

-- The run with the identifier `id` has the status `running`.
abbrev pub is_running : {T : Type 0} → Db T → ℕ → Bool
is_running db id = is_running_row (find (is_run id) db.runs)

-- The job ended, and it left its run in another status.
abbrev pub IsReleased : {F T : Type 0} → ℕ → JobEnd F T → Type 0
IsReleased id (returned_run _ db) = is_running db id ≡ false
IsReleased id (raised_failure _ db) = is_running db id ≡ false
IsReleased id unfinished = Unit

abbrev pub is_woke : {F P : Type 0} → Wake F P → Bool
is_woke (woke _ _) = true
is_woke (killed _ _) = false

-- The wait of the job is not cancelled, or the wait for its cancelled tasks is not.
abbrev pub IsCancelledOnce : {F P : Type 0} → Surroundings F P → List (Wake F P) → Type 0
IsCancelledOnce around wakes = (every is_woke wakes ≡ true) ⊎ (around.gather_error ≡ none)

-- No task is in flight after the loop, or the wait for the cancelled ones returns.
abbrev pub IsGathered : {F P T : Type 0} → Surroundings F P → Job T → Type 0
IsGathered around job = (has_inflight job ≡ false) ⊎ (around.gather_error ≡ none)

abbrev pub LoopIsGathered : {F P T : Type 0} → Surroundings F P → LoopEnd T → Type 0
LoopIsGathered around (broke job) = IsGathered around job
LoopIsGathered around (threw _ job) = IsGathered around job
LoopIsGathered around (waiting _) = Unit

module _ {F P T : Type 0} (c : Codecs F P T) (around : Surroundings F P) (id : ℕ)
    (max_concurrency : ℕ) (items : List QueryWorkItem) where
  if-IsGathered :
      (job : Job T) (x : LoopEnd T)
      → LoopIsGathered around x
      → LoopIsGathered around (if has_inflight job then x else broke job)
  if-IsGathered job x h = elim (Bool-cases (has_inflight job)) [
    | inl busy ↦ rw busy h
    | inr idle ↦ rw idle (inl idle)
  ]

  IsCancelledOnce-rest :
      (wake : Wake F P) (wakes : List (Wake F P))
      → IsCancelledOnce around (wake ∷ wakes)
      → IsCancelledOnce around wakes
  IsCancelledOnce-rest wake wakes (inl h) = inl (ground arith)
  IsCancelledOnce-rest wake wakes (inr h) = inr h

  killed-IsGathered :
      (m : Meanwhile F P) (e : ℕ) (wakes : List (Wake F P)) (job : Job T)
      → IsCancelledOnce around (killed m e ∷ wakes)
      → IsGathered around job
  killed-IsGathered m e wakes job (inl h) = absurd (ground arith)
  killed-IsGathered m e wakes job (inr h) = inr h

  pub loop-IsGathered :
      (wakes : List (Wake F P)) (job : Job T)
      → IsCancelledOnce around wakes
      → LoopIsGathered around (loop c id max_concurrency items wakes job)
  unfolding loop
  loop-IsGathered [] job once =
      let filled = fill max_concurrency items job in if-IsGathered filled (waiting filled) tt
  loop-IsGathered (woke m done ∷ wakes) job once =
      let filled = fill max_concurrency items job in
      let settled = settle_all c id (sort by_index done) (pass c m filled) in
      if-IsGathered filled (loop c id max_concurrency items wakes settled)
        (loop-IsGathered wakes settled (IsCancelledOnce-rest (woke m done) wakes once))
  loop-IsGathered (killed m e ∷ wakes) job once =
      let filled = fill max_concurrency items job in
      if-IsGathered filled (threw (wait_error e) (pass c m filled))
        (killed-IsGathered m e wakes (pass c m filled) once)

module _ {F P T : Type 0} (c : Codecs F P T) (faithful : IsFaithful c) where
  transition_row-failed :
      (row : EvalRunRow T) (v : EvalRun F) (at : DateTime) (e : ApiErrorDetail)
      → Agrees c row v
      → v.status ≡ running
      → at.aware ≡ true
      → c.is_valid_error e ≡ true
      → is_ok (transition_row c row failed at none (some e)) ≡ true
  unfolding transition_row
  transition_row-failed row v at e a s t u = rw (Agrees-decode_run_row c row v a) (ground arith)

  transition_run-is_running :
      (id : ℕ) (target : EvalRunStatus) (at : DateTime)
      (summaries : Option (List (ConfigRunSummary F))) (error : Option ApiErrorDetail)
      (db db' : Db T) (run : EvalRun F)
      → IsValid c db
      → same_status target running ≡ false
      → transition_run c id target at summaries error db ≡ ok (run, db')
      → is_running db' id ≡ false
  transition_run-is_running id target at summaries error db db' run v other h =
      let (row, new_row, found, _, step, e) =
        transition_run-steps c faithful id target at summaries error db run db' h in
      let (valid, at_id) = require_run-RowIsValid c db id v found in
      let ch =
        transition_row-Changed c faithful row valid.value target at summaries error run new_row
          valid.agrees step in
      let written = find-write_self id row new_row db.runs (ground arith) (ch.same_id ∙ at_id) in
      rw (e, written) (rw (← ch.agrees.status, ch.status) other)

  module _ (around : Surroundings F P) (id : ℕ) (aware : around.failed_at.aware ≡ true)
      (valid_error : c.is_valid_error around.execution_failed ≡ true) where
    transition_run-failed :
        (row : EvalRunRow T) (v : EvalRun F) (db : Db T)
        → require_run db id ≡ ok row
        → Agrees c row v
        → v.status ≡ running
        → is_ok (transition_run c id failed around.failed_at none (some around.execution_failed) db)
          ≡ true
    unfolding transition_run
    transition_run-failed row v db found a s =
        let (r, e) = is_ok-eq _ (
          transition_row-failed row v around.failed_at around.execution_failed a s aware
            valid_error) in
        rw found (ground arith)

    marked_failed-IsReleased :
        (e : Failure) (db : Db T) (result : Checked (EvalRun F × Db T))
        → IsValid c db
        → transition_run c id failed around.failed_at none (some around.execution_failed) db
          ≡ result
        → is_ok result ≡ true
        → IsReleased id (marked_failed c around e db result)
    marked_failed-IsReleased e db (ok (run, db')) v h o =
        transition_run-is_running id failed around.failed_at none (some around.execution_failed) db
          db' run v refl h
    marked_failed-IsReleased e db (err second) v h o = ground arith

    decoded-IsReleased :
        (e : Failure) (db : Db T) (row : EvalRunRow T) (value : EvalRun F)
        → IsValid c db
        → require_run db id ≡ ok row
        → find (is_run id) db.runs ≡ some row
        → Agrees c row value
        → IsReleased id (mark_failed c around id e db (ok value))
    decoded-IsReleased e db row value v found at a =
        elim (Bool-cases (same_status value.status running)) [
          | inr other ↦ rw other (rw (at, ← a.status) other)
          | inl same ↦ rw same (
              marked_failed-IsReleased e db
                (transition_run c id failed around.failed_at none (some around.execution_failed) db)
                v refl
                (transition_run-failed row value db found a
                  (same_status→eq value.status running same)))
        ]

    mark_failed-IsReleased :
        (e : Failure) (db : Db T) (found : Option (EvalRunRow T))
        → IsValid c db
        → find (is_run id) db.runs ≡ found
        → IsReleased id (mark_failed c around id e db (get_run c db id))
    mark_failed-IsReleased e db none v h = rw h (rw h refl)
    mark_failed-IsReleased e db (some row) v h =
        let found : require_run db id ≡ ok row = rw h refl in
        let (valid, at_id) = require_run-RowIsValid c db id v found in
        rw (h, Agrees-decode_run_row c row valid.value valid.agrees)
          (decoded-IsReleased e db row valid.value v found h valid.agrees)

    if-IsReleased :
        (b : Bool) (x y : JobEnd F T)
        → IsReleased id x
        → IsReleased id y
        → IsReleased id (if b then x else y)
    if-IsReleased true x y hx hy = hx
    if-IsReleased false x y hx hy = hy

    gathered-IsReleased :
        (e : Failure) (job : Job T) (second : Option ℕ)
        → IsValid c job.db
        → second ≡ none
        → IsReleased id (gathered c around id e job second)
    gathered-IsReleased e job none v h =
        mark_failed-IsReleased e job.db (find (is_run id) job.db.runs) v refl
    gathered-IsReleased e job (some second) v h = cc

    fail_run-IsReleased :
        (e : Failure) (job : Job T)
        → IsGathered around job
        → IsValid c job.db
        → IsReleased id (fail_run c around id e job)
    unfolding fail_run
    fail_run-IsReleased e job (inl idle) v =
        rw idle (mark_failed-IsReleased e job.db (find (is_run id) job.db.runs) v refl)
    fail_run-IsReleased e job (inr once) v =
        if-IsReleased (has_inflight job) _ _
          (gathered-IsReleased e (pass c around.while_gathering job) around.gather_error
            (history-IsValid c faithful around.while_gathering.calls job.db v) once)
          (mark_failed-IsReleased e job.db (find (is_run id) job.db.runs) v refl)

    ended-IsReleased :
        (target : EvalRunStatus) (at : DateTime) (summaries : Option (List (ConfigRunSummary F)))
        (job : Job T) (result : Checked (EvalRun F × Db T))
        → IsGathered around job
        → IsValid c job.db
        → same_status target running ≡ false
        → transition_run c id target at summaries none job.db ≡ result
        → IsReleased id (ended c around id job result)
    ended-IsReleased target at summaries job (ok (run, db')) g v other h =
        transition_run-is_running id target at summaries none job.db db' run v other h
    ended-IsReleased target at summaries job (err e) g v other h =
        fail_run-IsReleased (persistence e) job g v

    finalized-IsReleased :
        (job : Job T) (summaries : Result ℕ (List (ConfigRunSummary F)))
        → IsGathered around job
        → IsValid c job.db
        → IsReleased id (finalized c around id job summaries)
    finalized-IsReleased job (err e) g v = fail_run-IsReleased (finalize_error e) job g v
    finalized-IsReleased job (ok summaries) g v =
        ended-IsReleased completed around.completed_at (some summaries) job
          (transition_run c id completed around.completed_at (some summaries) none job.db) g v refl
          refl

    summarized-IsReleased :
        (job : Job T) (run : Checked (EvalRun F)) (outcomes : Checked (List (QueryOutcome P)))
        → IsGathered around job
        → IsValid c job.db
        → IsReleased id (summarized c around id job run outcomes)
    summarized-IsReleased job (ok run) (ok outcomes) g v =
        finalized-IsReleased (pass c around.while_finalizing job) (around.finalize run outcomes) g
          (history-IsValid c faithful around.while_finalizing.calls job.db v)
    summarized-IsReleased job (err e) outcomes g v = fail_run-IsReleased (persistence e) job g v
    summarized-IsReleased job (ok run) (err e) g v = fail_run-IsReleased (persistence e) job g v

    after_break-IsReleased :
        (job : Job T) (failure : Option Failure)
        → IsGathered around job
        → IsValid c job.db
        → IsReleased id (after_break c around id job failure)
    after_break-IsReleased job (some e) g v = fail_run-IsReleased e job g v
    after_break-IsReleased job none g v =
        if-IsReleased job.cancellation_requested _ _
          (ended-IsReleased cancelled around.cancelled_at none job
            (transition_run c id cancelled around.cancelled_at none none job.db) g v refl refl)
          (summarized-IsReleased job (get_run c job.db id)
            (list_outcomes c id none max_outcome_rows job.db) g v)

    conclude-IsReleased :
        (end : LoopEnd T)
        → LoopIsGathered around end
        → Holds (λ job. IsValid c job.db) end
        → IsReleased id (conclude c around id end)
    unfolding conclude
    conclude-IsReleased (broke job) g v = after_break-IsReleased job job.first_failure g v
    conclude-IsReleased (threw e job) g v = fail_run-IsReleased e job g v
    conclude-IsReleased (waiting job) g v = tt

    -- A job that ended, by its result or by an exception, and whatever other calls ran meanwhile,
    -- does not leave its run in the status running, unless the wait of the job was cancelled and
    -- then its wait for the cancelled tasks was cancelled too. The run tables were valid, a written
    -- value is read back, the time of the failure has an offset and the error detail of a failed
    -- job is valid.
    pub run_claimed-IsReleased :
        (max_concurrency : ℕ) (items : List QueryWorkItem) (wakes : List (Wake F P)) (db : Db T)
        → IsCancelledOnce around wakes
        → IsValid c db
        → IsReleased id (run_claimed c around id max_concurrency items wakes db)
    unfolding run_claimed
    run_claimed-IsReleased max_concurrency items wakes db once v =
        conclude-IsReleased (loop c id max_concurrency items wakes (begin db))
          (loop-IsGathered c around id max_concurrency items wakes (begin db) once)
          (loop-IsValid c faithful id max_concurrency items wakes db v)
