-- ===== src/Jobs/Conclusion/Complete.antt =====
-- A job that returns a completed run recorded the outcome of every work item.
use pufferlab.Prelude.{
  ℕ, ◌≡◌, ◌≤◌, refl, ap, Bool, true, false, Option, none, some, List, get_elem?, arith,
  if◌then◌else◌, Bool-cases, inl, inr, ◌≢◌,
}
use pufferlab.Prelude.Result.{Result, ok, err}
use pufferlab.Persistence.Errors.{Checked}
use pufferlab.Persistence.Records.{
  DateTime, ConfigRunSummary, EvalRunStatus, completed, cancelled, running, EvalRun, QueryOutcome,
  same_status,
}
use pufferlab.Persistence.Codec.{Codecs, IsFaithful}
use pufferlab.Persistence.Rows.{Db}
use pufferlab.Persistence.Runs.{get_run, transition_run, complete_run}
use pufferlab.Persistence.Runs.Invariant.{IsValid, transition_run-steps, require_run-RowIsValid}
use pufferlab.Persistence.Runs.Durable.{IsStored, history-IsStored}
use pufferlab.Persistence.Transition.Lifecycle.{transition_row-Changed}
use pufferlab.Persistence.Reads.{list_outcomes, max_outcome_rows}
use pufferlab.Jobs.Loop.{
  QueryWorkItem, Failure, persistence, finalize_error, Job, LoopEnd, broke, threw, waiting, Wake,
  begin, pass, loop, has_inflight,
}
use pufferlab.Jobs.Loop.Completion.{loop-stores_all}
use pufferlab.Jobs.Loop.Bounds.{Holds}
use pufferlab.Jobs.Conclusion.{
  Surroundings, JobEnd, returned_run, raised_failure, unfinished, marked_failed, mark_failed,
  gathered, fail_run, ended, finalized, summarized, after_break, conclude, run_claimed,
}
use pufferlab.Jobs.Conclusion.Valid.{loop-IsValid}

abbrev is_returned : {F T : Type 0} → JobEnd F T → Bool
is_returned (returned_run _ _) = true
is_returned (raised_failure _ _) = false
is_returned unfinished = false

module _ {F P T : Type 0} (c : Codecs F P T) (faithful : IsFaithful c) (around : Surroundings F P)
    (id : ℕ) where
  marked_failed-raises :
      (e : Failure) (db : Db T) (result : Checked (EvalRun F × Db T))
      → is_returned (marked_failed c around e db result) ≡ false
  marked_failed-raises e db (ok (run, db')) = refl
  marked_failed-raises e db (err second) = refl

  mark_failed-raises :
      (e : Failure) (db : Db T) (found : Checked (EvalRun F))
      → is_returned (mark_failed c around id e db found) ≡ false
  mark_failed-raises e db (err second) = refl
  mark_failed-raises e db (ok current) = elim (Bool-cases (same_status current.status running)) [
    | inl e' ↦ rw e' (marked_failed-raises e db _)
    | inr e' ↦ rw e' refl
  ]

  gathered-raises :
      (e : Failure) (job : Job T) (second : Option ℕ)
      → is_returned (gathered c around id e job second) ≡ false
  gathered-raises e job none = mark_failed-raises e job.db (get_run c job.db id)
  gathered-raises e job (some second) = refl

  fail_run-is_returned :
      (e : Failure) (job : Job T) → is_returned (fail_run c around id e job) ≡ false
  unfolding fail_run
  fail_run-is_returned e job = elim (Bool-cases (has_inflight job)) [
    | inl busy ↦ rw busy (gathered-raises e (pass c around.while_gathering job) around.gather_error)
    | inr idle ↦ rw idle (mark_failed-raises e job.db (get_run c job.db id))
  ]

  fail_run-raises :
      (e : Failure) (job : Job T) (run : EvalRun F) (db' : Db T)
      → fail_run c around id e job ≢ returned_run run db'
  fail_run-raises e job run db' h = cc (h, fail_run-is_returned e job)

  -- What a job returned that its repository call returned.
  ended-returns :
      (job : Job T) (result : Checked (EvalRun F × Db T)) (run : EvalRun F) (db' : Db T)
      → ended c around id job result ≡ returned_run run db'
      → result ≡ ok (run, db')
  ended-returns job (ok (r, d)) run db' h = ground arith
  ended-returns job (err e) run db' h = absurd (fail_run-raises (persistence e) job run db' h)

  outcomes-transition_run :
      (target : EvalRunStatus) (at : DateTime) (summaries : Option (List (ConfigRunSummary F)))
      (db db' : Db T) (run : EvalRun F)
      → transition_run c id target at summaries none db ≡ ok (run, db')
      → db'.outcomes ≡ db.outcomes
  outcomes-transition_run target at summaries db db' run h =
      let (_, _, _, _, _, e) =
        transition_run-steps c faithful id target at summaries none db run db' h in
      ap (λ d. d.outcomes) e

  cancelled-status :
      (db db' : Db T) (run : EvalRun F)
      → IsValid c db
      → transition_run c id cancelled around.cancelled_at none none db ≡ ok (run, db')
      → run.status ≡ cancelled
  cancelled-status db db' run v h =
      let (row, new_row, found, _, step, e) =
        transition_run-steps c faithful id cancelled around.cancelled_at none none db run db' h in
      let (valid, _) = require_run-RowIsValid c db id v found in
      (transition_row-Changed c faithful row valid.value cancelled around.cancelled_at none none run
        new_row valid.agrees step).status

  module _ (config query : ℕ) (run : EvalRun F) (db' : Db T) where
    finalized-stored :
        (job : Job T) (summaries : Result ℕ (List (ConfigRunSummary F)))
        → finalized c around id job summaries ≡ returned_run run db'
        → IsStored job.db id config query
        → IsStored db' id config query
    finalized-stored job (err e) h s = absurd (fail_run-raises (finalize_error e) job run db' h)
    finalized-stored job (ok summaries) h s =
        let result = complete_run c id summaries around.completed_at job.db in
        rw
          (outcomes-transition_run completed around.completed_at (some summaries) job.db db' run
            (ended-returns job result run db' h))
          s

    summarized-stored :
        (job : Job T) (found : Checked (EvalRun F)) (outcomes : Checked (List (QueryOutcome P)))
        → summarized c around id job found outcomes ≡ returned_run run db'
        → IsStored job.db id config query
        → IsStored db' id config query
    summarized-stored job (ok r) (ok outcomes) h s =
        finalized-stored (pass c around.while_finalizing job) (around.finalize r outcomes) h
          (history-IsStored c faithful id config query around.while_finalizing.calls job.db s)
    summarized-stored job (err e) outcomes h s =
        absurd (fail_run-raises (persistence e) job run db' h)
    summarized-stored job (ok r) (err e) h s =
        absurd (fail_run-raises (persistence e) job run db' h)

    going-stored :
        (job : Job T) (requested : Bool)
        → (if requested
            then ended c around id job
                (transition_run c id cancelled around.cancelled_at none none job.db)
            else summarized c around id job
                (get_run c job.db id)
                (list_outcomes c id none max_outcome_rows job.db))
          ≡ returned_run run db'
        → IsValid c job.db
        → run.status ≡ completed
        → (requested ≡ false → IsStored job.db id config query)
        → IsStored db' id config query
    going-stored job true h v done stored =
        let cancelled_run = cancelled-status job.db db' run v (ended-returns job _ run db' h) in
        absurd (cc (done, cancelled_run))
    going-stored job false h v done stored = summarized-stored job _ _ h (stored refl)

    broke-stored :
        (job : Job T) (failure : Option Failure)
        → after_break c around id job failure ≡ returned_run run db'
        → IsValid c job.db
        → run.status ≡ completed
        → (failure ≡ none → job.cancellation_requested ≡ false → IsStored job.db id config query)
        → IsStored db' id config query
    broke-stored job (some e) h v done stored = absurd (fail_run-raises e job run db' h)
    broke-stored job none h v done stored =
        going-stored job job.cancellation_requested h v done (stored refl)

    conclude-stored :
        (end : LoopEnd T)
        → conclude c around id end ≡ returned_run run db'
        → Holds (λ job. IsValid c job.db) end
        → run.status ≡ completed
        → ((job : Job T)
            → end ≡ broke job
            → job.first_failure ≡ none
            → job.cancellation_requested ≡ false
            → IsStored job.db id config query)
        → IsStored db' id config query
    unfolding conclude
    conclude-stored (broke job) h v done stored =
        broke-stored job job.first_failure h v done (stored job refl)
    conclude-stored (threw e job) h v done stored = absurd (fail_run-raises e job run db' h)
    conclude-stored (waiting job) h v done stored = cc h

  -- When a job returns a completed run, the outcome of every work item of the job is durable,
  -- whatever other repository calls ran meanwhile. The run tables were valid, a written value is
  -- read back, and at least one task may run at a time.
  pub run_claimed-IsStored :
      (max_concurrency : ℕ) (items : List QueryWorkItem) (wakes : List (Wake F P)) (db db' : Db T)
      (run : EvalRun F) (i : ℕ) (item : QueryWorkItem)
      → IsValid c db
      → 1 ≤ max_concurrency
      → run_claimed c around id max_concurrency items wakes db ≡ returned_run run db'
      → run.status ≡ completed
      → get_elem? items i ≡ some item
      → IsStored db' id item.config_id item.query_id
  unfolding run_claimed
  run_claimed-IsStored max_concurrency items wakes db db' run i item v one h done at =
      conclude-stored item.config_id item.query_id run db'
        (loop c id max_concurrency items wakes (begin db)) h
        (loop-IsValid c faithful id max_concurrency items wakes db v) done
        (λ job e no_failure going.
          loop-stores_all id max_concurrency items c faithful wakes db job one e no_failure going i
            item at)
