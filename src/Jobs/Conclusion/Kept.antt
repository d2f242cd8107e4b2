-- ===== src/Jobs/Conclusion/Kept.antt =====
-- What every repository call keeps of the tables, a job keeps: its own calls are repository calls too.
use mathlib.Core.Path.{subst}
use pufferlab.Prelude.{
  ℕ, ◌≡◌, refl, sym, Bool, true, false, Option, none, some, List, [], ◌∷◌, ◌==◌, ◌&&◌, drop,
  Bool-cases, Option-cases, inl, inr, if◌then◌else◌,
}
use pufferlab.Prelude.Result.{Result, ok, err}
use pufferlab.Persistence.Errors.{Checked}
use pufferlab.Persistence.Records.{
  DateTime, ApiErrorDetail, ConfigRunSummary, EvalRunStatus, running, completed, failed, cancelled,
  EvalRun, QueryOutcome, same_status,
}
use pufferlab.Persistence.Codec.{Codecs}
use pufferlab.Persistence.Rows.{Db}
use pufferlab.Persistence.Runs.{get_run, transition_run, record_outcome}
use pufferlab.Persistence.Runs.History.{Call, settle, perform, history}
use pufferlab.Persistence.Reads.{list_outcomes, max_outcome_rows}
use pufferlab.Jobs.Loop.{
  QueryWorkItem, Failure, persistence, finalize_error, TaskResult, returned, raised, Done, Wake,
  Job, LoopEnd, broke, threw, waiting, begin, fill, pass, fail?, stored_outcome, settle_result,
  settle_done, remove_at, item_at, has_inflight, loop,
}
use pufferlab.Jobs.Loop.Progress.{is_over}
use pufferlab.Jobs.Loop.Bounds.{Holds, fill_from-induction, loop-induction}
use pufferlab.Jobs.Conclusion.{
  Surroundings, JobEnd, returned_run, raised_failure, unfinished, marked_failed, mark_failed,
  gathered, fail_run, ended, finalized, summarized, after_break, conclude, run_claimed,
}

-- The job ended, and the tables that it leaves satisfy `Q`.
abbrev pub Leaves : {F T : Type 0} → (Db T → Type 0) → JobEnd F T → Type 0
Leaves Q (returned_run _ db) = Q db
Leaves Q (raised_failure _ db) = Q db
Leaves Q unfinished = ⊥

module _ {F P T : Type 0} (c : Codecs F P T) (Q : Db T → Type 0)
    (keeps : (call : Call F P) (db : Db T) → Q db → Q (perform c call db)) where
  pub history-keeps : (calls : List (Call F P)) (db : Db T) → Q db → Q (history c calls db)
  unfolding history
  history-keeps [] db q = q
  history-keeps (call ∷ calls) db q = history-keeps calls (perform c call db) (keeps call db q)

  record_outcome-keeps :
      (outcome : QueryOutcome P) (db db' : Db T) (updated : EvalRun F)
      → record_outcome c outcome db ≡ ok (updated, db')
      → Q db
      → Q db'
  unfolding perform
  record_outcome-keeps outcome db db' updated h q =
      subst (λ r. Q (settle db r)) h (keeps (Call.record_result outcome) db q)

  transition_run-keeps :
      (id : ℕ) (target : EvalRunStatus) (at : DateTime)
      (summaries : Option (List (ConfigRunSummary F))) (error : Option ApiErrorDetail)
      (db db' : Db T) (run : EvalRun F)
      → transition_run c id target at summaries error db ≡ ok (run, db')
      → Q db
      → Q db'
  unfolding perform
  transition_run-keeps id target at summaries error db db' run h q =
      subst (λ r. Q (settle db r)) h (keeps (Call.transition id target at summaries error) db q)

  module _ (run_id max_concurrency : ℕ) (items : List QueryWorkItem) where
    abbrev JobHas : Job T → Type 0
    JobHas job = Q job.db

    fill-keeps : (job : Job T) → JobHas job → JobHas (fill max_concurrency items job)
    unfolding fill
    fill-keeps job v =
        fill_from-induction JobHas max_concurrency (λ item job' e b. b) (drop job.next_index items)
          job v

    db-fail? : (e : Option Failure) (job : Job T) → (fail? e job).db ≡ job.db
    db-fail? none job = refl
    db-fail? (some e) job = refl

    stored_outcome-keeps :
        (d : Done F P) (outcome : QueryOutcome P) (job : Job T)
        (result : Checked (EvalRun F × Db T))
        → record_outcome c outcome job.db ≡ result
        → JobHas job
        → JobHas (stored_outcome c d job result)
    stored_outcome-keeps d outcome job (err e) h v = v
    stored_outcome-keeps d outcome job (ok (updated, db')) h v =
        subst Q (sym (db-fail? d.progress (pass c d.meanwhile (record job { db = db' })))) (
          history-keeps d.meanwhile.calls db' (record_outcome-keeps outcome job.db db' updated h v))

    settle_result-keeps :
        (d : Done F P) (item : QueryWorkItem) (result : TaskResult P) (job : Job T)
        → JobHas job
        → JobHas (settle_result c run_id d item result job)
    settle_result-keeps d item (raised e) job v = v
    settle_result-keeps d item (returned outcome) job v =
        elim (Bool-cases (outcome.run_id == run_id)) [
          | inr e ↦ rw e v
          | inl er ↦
              elim (Bool-cases
                (outcome.config_id == item.config_id && outcome.query_id == item.query_id)) [
                  | inr e ↦ rw (er, e) v
                  | inl e ↦
                      rw (er, e)
                        (stored_outcome-keeps d outcome job (record_outcome c outcome job.db) refl
                          v)
                ]
        ]

    settle_done-keeps :
        (d : Done F P) (job : Job T) → JobHas job → JobHas (settle_done c run_id d job)
    unfolding settle_done
    settle_done-keeps d job v = elim (Option-cases (item_at d.index job.inflight)) [
      | inl e ↦ rw e v
      | inr (item, e) ↦ rw e (
          settle_result-keeps d item d.outcome
            (record job { inflight = remove_at d.index job.inflight }) v)
    ]

    pub loop-keeps :
        (wakes : List (Wake F P)) (db : Db T)
        → Q db
        → Holds (λ job. Q job.db) (loop c run_id max_concurrency items wakes (begin db))
    loop-keeps wakes db v =
        loop-induction c JobHas run_id max_concurrency items fill-keeps
          (λ m job h. history-keeps m.calls job.db h) settle_done-keeps wakes (begin db) v

  module _ (around : Surroundings F P) (id : ℕ) where
    marked_failed-Leaves :
        (e : Failure) (db : Db T) (result : Checked (EvalRun F × Db T))
        → transition_run c id failed around.failed_at none (some around.execution_failed) db
          ≡ result
        → Q db
        → Leaves Q (marked_failed c around e db result)
    marked_failed-Leaves e db (ok (run, db')) h q =
        transition_run-keeps id failed around.failed_at none (some around.execution_failed) db db'
          run h q
    marked_failed-Leaves e db (err second) h q = q

    if-Leaves :
        (b : Bool) (x y : JobEnd F T) → Leaves Q x → Leaves Q y → Leaves Q (if b then x else y)
    if-Leaves true x y hx hy = hx
    if-Leaves false x y hx hy = hy

    mark_failed-Leaves :
        (e : Failure) (db : Db T) (found : Checked (EvalRun F))
        → Q db
        → Leaves Q (mark_failed c around id e db found)
    mark_failed-Leaves e db (err second) q = q
    mark_failed-Leaves e db (ok current) q =
        if-Leaves (same_status current.status running) _ _
          (marked_failed-Leaves e db
            (transition_run c id failed around.failed_at none (some around.execution_failed) db)
            refl q)
          q

    gathered-Leaves :
        (e : Failure) (job : Job T) (second : Option ℕ)
        → Q job.db
        → Leaves Q (gathered c around id e job second)
    gathered-Leaves e job none q = mark_failed-Leaves e job.db (get_run c job.db id) q
    gathered-Leaves e job (some second) q = q

    fail_run-Leaves : (e : Failure) (job : Job T) → Q job.db → Leaves Q (fail_run c around id e job)
    unfolding fail_run
    fail_run-Leaves e job q =
        if-Leaves (has_inflight job) _ _
          (gathered-Leaves e (pass c around.while_gathering job) around.gather_error
            (history-keeps around.while_gathering.calls job.db q))
          (mark_failed-Leaves e job.db (get_run c job.db id) q)

    ended-Leaves :
        (target : EvalRunStatus) (at : DateTime) (summaries : Option (List (ConfigRunSummary F)))
        (job : Job T) (result : Checked (EvalRun F × Db T))
        → transition_run c id target at summaries none job.db ≡ result
        → Q job.db
        → Leaves Q (ended c around id job result)
    ended-Leaves target at summaries job (ok (run, db')) h q =
        transition_run-keeps id target at summaries none job.db db' run h q
    ended-Leaves target at summaries job (err e) h q = fail_run-Leaves (persistence e) job q

    finalized-Leaves :
        (job : Job T) (summaries : Result ℕ (List (ConfigRunSummary F)))
        → Q job.db
        → Leaves Q (finalized c around id job summaries)
    finalized-Leaves job (err e) q = fail_run-Leaves (finalize_error e) job q
    finalized-Leaves job (ok summaries) q =
        ended-Leaves completed around.completed_at (some summaries) job
          (transition_run c id completed around.completed_at (some summaries) none job.db) refl q

    summarized-Leaves :
        (job : Job T) (run : Checked (EvalRun F)) (outcomes : Checked (List (QueryOutcome P)))
        → Q job.db
        → Leaves Q (summarized c around id job run outcomes)
    summarized-Leaves job (ok run) (ok outcomes) q =
        finalized-Leaves (pass c around.while_finalizing job) (around.finalize run outcomes)
          (history-keeps around.while_finalizing.calls job.db q)
    summarized-Leaves job (err e) outcomes q = fail_run-Leaves (persistence e) job q
    summarized-Leaves job (ok run) (err e) q = fail_run-Leaves (persistence e) job q

    after_break-Leaves :
        (job : Job T) (failure : Option Failure)
        → Q job.db
        → Leaves Q (after_break c around id job failure)
    after_break-Leaves job (some e) q = fail_run-Leaves e job q
    after_break-Leaves job none q =
        if-Leaves job.cancellation_requested _ _
          (ended-Leaves cancelled around.cancelled_at none job
            (transition_run c id cancelled around.cancelled_at none none job.db) refl q)
          (summarized-Leaves job (get_run c job.db id)
            (list_outcomes c id none max_outcome_rows job.db) q)

    conclude-Leaves :
        (end : LoopEnd T)
        → is_over end ≡ true
        → Holds (λ job. Q job.db) end
        → Leaves Q (conclude c around id end)
    unfolding conclude
    conclude-Leaves (broke job) over q = after_break-Leaves job job.first_failure q
    conclude-Leaves (threw e job) over q = fail_run-Leaves e job q
    conclude-Leaves (waiting job) over q = cc

    pub run_claimed-Leaves :
        (max_concurrency : ℕ) (items : List QueryWorkItem) (wakes : List (Wake F P)) (db : Db T)
        → is_over (loop c id max_concurrency items wakes (begin db)) ≡ true
        → Q db
        → Leaves Q (run_claimed c around id max_concurrency items wakes db)
    unfolding run_claimed
    run_claimed-Leaves max_concurrency items wakes db over q =
        conclude-Leaves (loop c id max_concurrency items wakes (begin db)) over
          (loop-keeps id max_concurrency items wakes db q)
