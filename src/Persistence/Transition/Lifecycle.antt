-- ===== src/Persistence/Transition/Lifecycle.antt =====
-- `_transition_row`: what a successful transition changes, and what it requires.
use pufferlab.Prelude.{◌≡◌, true, false, Option, none, List, arith, is_some}
use pufferlab.Prelude.Result.{ok}
use pufferlab.Persistence.Records.{
  DateTime, ConfigRunSummary, ApiErrorDetail, EvalRunStatus, queued, running, completed, failed,
  cancelled, interrupted, EvalRun, same_status, is_allowed,
}
use pufferlab.Persistence.Codec.{Codecs, IsFaithful, HasAwareTimes}
use pufferlab.Persistence.Rows.{EvalRunRow, decode_run_row}
use pufferlab.Persistence.Rows.Agreement.{Agrees, Agrees-decode_run_row, instant?}
use pufferlab.Persistence.Transition.{updated_run, transition_row}

-- What each status says of a run.
abbrev pub LifecycleAt : {F : Type 0} → EvalRunStatus → EvalRun F → Type 0
LifecycleAt queued v =
    (v.started_at ≡ none) × (v.completed_at ≡ none) × (v.error ≡ none) × (v.completed_queries ≡ 0)
LifecycleAt running v = (is_some v.started_at ≡ true) × (v.completed_at ≡ none) × (v.error ≡ none)
LifecycleAt completed v =
    (is_some v.started_at ≡ true)
    × (is_some v.completed_at ≡ true)
    × (v.error ≡ none)
    × (v.completed_queries ≡ v.total_queries)
LifecycleAt failed v = (is_some v.completed_at ≡ true) × (is_some v.error ≡ true)
LifecycleAt cancelled v = (is_some v.completed_at ≡ true) × (v.error ≡ none)
LifecycleAt interrupted v =
    (is_some v.started_at ≡ true) × (is_some v.completed_at ≡ true) × (v.error ≡ none)

abbrev pub Lifecycle : {F : Type 0} → EvalRun F → Type 0
Lifecycle v = LifecycleAt v.status v

module _ {F P T : Type 0} (c : Codecs F P T) (faithful : IsFaithful c) where
  -- The facts that a successful transition from `v` to `new` gives.
  pub record Changed (row new_row : EvalRunRow T) (v new : EvalRun F) (target : EvalRunStatus)
      (error : Option ApiErrorDetail) : Type 0 where
    pub agrees : Agrees c new_row new
    pub same_id : new_row.id ≡ row.id
    pub same_total : new_row.total_queries ≡ row.total_queries
    pub same_completed : new_row.completed_queries ≡ row.completed_queries
    pub allowed : is_allowed v.status target ≡ true
    pub status : new.status ≡ target
    pub full : target ≡ completed → v.completed_queries ≡ v.total_queries
    pub lifecycle : Lifecycle v → Lifecycle new

  -- The guards that a successful call passed, and the row that it wrote.
  record Passed (row new_row : EvalRunRow T) (v new : EvalRun F) (target : EvalRunStatus)
      (error : Option ApiErrorDetail) : Type 0 where
    allowed : is_allowed v.status target ≡ true
    full : target ≡ completed → v.completed_queries ≡ v.total_queries
    has_error : target ≡ failed → is_some error ≡ true
    no_error : (same_status target failed ≡ false) → error ≡ none
    columns : new_row ≡ record row {
      status = target;
      started_at = instant? new.started_at;
      completed_at = instant? new.completed_at;
      payload_json = c.dump_run new;
    }
    aware : HasAwareTimes new

  transition_row-Passed :
      (row : EvalRunRow T) (v : EvalRun F) (target : EvalRunStatus) (at : DateTime)
      (summaries : Option (List (ConfigRunSummary F))) (error : Option ApiErrorDetail)
      (new : EvalRun F) (new_row : EvalRunRow T)
      → decode_run_row c row ≡ ok v
      → transition_row c row target at summaries error ≡ ok (new, new_row)
      → Passed row new_row v new target error × (new ≡ updated_run c v target at summaries error)
  unfolding transition_row
  transition_row-Passed row v target at summaries error new new_row d h = ground arith

  pub transition_row-Changed :
      (row : EvalRunRow T) (v : EvalRun F) (target : EvalRunStatus) (at : DateTime)
      (summaries : Option (List (ConfigRunSummary F))) (error : Option ApiErrorDetail)
      (new : EvalRun F) (new_row : EvalRunRow T)
      → Agrees c row v
      → transition_row c row target at summaries error ≡ ok (new, new_row)
      → Changed row new_row v new target error
  transition_row-Changed row v target at summaries error new new_row a h =
      let (p, e) =
        transition_row-Passed row v target at summaries error new new_row
          (Agrees-decode_run_row c row v a) h in
      record {
        agrees = ground (arith, faithful.parse-dump_run new p.aware);
        same_id = ground arith;
        same_total = ground arith;
        same_completed = ground arith;
        allowed = p.allowed;
        status = rw e;
        full = p.full;
        lifecycle = λ l. ground arith;
      }
