-- ===== src/Examples/Jobs.antt =====
-- A job with two work items on the run of `Examples.Runs`: its wakes come out of order.
use Prim.Native.String.{String}
use mathlib.Core.Logic.{inl, inr}
use pufferlab.Prelude.{ℕ, ◌≡◌, refl, true, false, none, some, List, [], ◌∷◌, arith}
use pufferlab.Prelude.Result.{ok}
use pufferlab.Persistence.Records.{ApiErrorCode, QueryOutcomeStatus}
use pufferlab.Persistence.Rows.{
  Db, decode_query_set_row, decode_config_row, decode_run_row, decode_outcome_row,
}
use pufferlab.Persistence.Transition.{transition_row, validate_completion_summaries, all_exact}
use pufferlab.Persistence.Selects.{run_config_ids}
use pufferlab.Persistence.Runs.{create_run, claim_queued_run, record_outcome, transition_run}
use pufferlab.Persistence.Runs.History.{Call, history, history-IsValid}
use pufferlab.Persistence.Runs.Durable.{IsStored}
use pufferlab.Jobs.Loop.{
  QueryWorkItem, returned, Meanwhile, Done, Wake, woke, killed, LoopEnd, begin, fill, settle_all,
  loop,
}
use pufferlab.Jobs.Loop.Bounds.{Holds, IsBounded, loop-IsBounded}
use pufferlab.Persistence.Runs.Invariant.{IsValid}
use pufferlab.Persistence.Records.{EvalRun, completed}
use pufferlab.Jobs.Conclusion.Complete.{run_claimed-IsStored}
use pufferlab.Persistence.Reads.{list_outcomes}
use pufferlab.Jobs.Loop.Progress.{IsLive, is_over, loop-is_over}
use pufferlab.Jobs.Conclusion.{
  Surroundings, JobEnd, returned_run, raised_failure, unfinished, run_claimed,
}
use pufferlab.Persistence.Records.{running}
use pufferlab.Persistence.Runs.Machine.{status_of}
use pufferlab.Jobs.Conclusion.Terminal.{IsEnded, run_claimed-IsEnded}
use pufferlab.Jobs.Conclusion.Released.{IsReleased, is_running, run_claimed-IsReleased}
use pufferlab.Examples.Runs.{
  Text, plain, plain-IsFaithful, at, catalog, catalog-IsValid, new_run, result, summary,
}

abbrev pub items : List QueryWorkItem
items = record { config_id = 10; query_id = 7 } ∷ record { config_id = 11; query_id = 7 } ∷ []

abbrev quiet : Meanwhile ℕ String
quiet = record { cancels = false; calls = [] }

abbrev done : ℕ → ℕ → Done ℕ String
done index config = record {
  index = index;
  outcome = returned (result config QueryOutcomeStatus.succeeded);
  progress = none;
  meanwhile = quiet;
}

abbrev wakes : List (Wake ℕ String)
wakes = woke quiet (done 1 11 ∷ []) ∷ woke quiet (done 0 10 ∷ []) ∷ []

abbrev claimed : Db Text
claimed = history plain (Call.create new_run ∷ Call.claim 3 (at 4) ∷ []) catalog

-- What a test unfolds.
replay : LoopEnd Text
unfolding loop fill settle_all history create_run claim_queued_run record_outcome
    decode_query_set_row decode_config_row decode_run_row transition_row
replay = loop plain 3 2 items wakes (begin claimed)

loop-IsBounded_example :
    Holds (IsBounded plain 3 2 items) (loop plain 3 2 items wakes (begin claimed))
loop-IsBounded_example = loop-IsBounded plain 3 2 items wakes claimed

wakes-IsLive : IsLive 2 items plain 3 wakes (begin claimed)
unfolding replay
wakes-IsLive = (inr refl, (inr refl, tt))

loop-is_over_example : is_over (loop plain 3 2 items wakes (begin claimed)) ≡ true
loop-is_over_example = loop-is_over 2 items plain 3 wakes claimed wakes-IsLive (omega arith)

abbrev around : Surroundings ℕ String
around = record {
  finalize = λ run outcomes. ok (summary 10 0 ∷ summary 11 0 ∷ []);
  while_finalizing = quiet;
  while_gathering = quiet;
  gather_error = none;
  cancelled_at = at 8;
  completed_at = at 9;
  failed_at = at 8;
  execution_failed = record {
    code = ApiErrorCode.internal_error;
    message = "evaluation execution failed";
    retryable = false;
    trace_id = 1;
    details = "{}";
  };
}

claimed-IsValid : IsValid plain claimed
claimed-IsValid =
    history-IsValid plain plain-IsFaithful (Call.create new_run ∷ Call.claim 3 (at 4) ∷ []) catalog
      catalog-IsValid

run_claimed-IsReleased_example : IsReleased 3 (run_claimed plain around 3 2 items wakes claimed)
run_claimed-IsReleased_example =
    run_claimed-IsReleased plain plain-IsFaithful around 3 refl refl 2 items wakes claimed
      (inl refl) claimed-IsValid

claimed-running : status_of 3 claimed ≡ some running
unfolding replay
claimed-running = refl

run_claimed-IsEnded_example : IsEnded 3 (run_claimed plain around 3 2 items wakes claimed)
run_claimed-IsEnded_example =
    run_claimed-IsEnded plain plain-IsFaithful around 3 2 items wakes claimed claimed-IsValid
      claimed-running refl refl (inl refl) wakes-IsLive (omega arith)

abbrev run_of : JobEnd ℕ Text → EvalRun ℕ
run_of (returned_run run _) = run
run_of (raised_failure _ _) = new_run
run_of unfinished = new_run

abbrev db_of : JobEnd ℕ Text → Db Text
db_of (returned_run _ db) = db
db_of (raised_failure _ db) = db
db_of unfinished = claimed

abbrev final_run : EvalRun ℕ
final_run = run_of (run_claimed plain around 3 2 items wakes claimed)

abbrev final_db : Db Text
final_db = db_of (run_claimed plain around 3 2 items wakes claimed)

final-ok : run_claimed plain around 3 2 items wakes claimed ≡ returned_run final_run final_db
unfolding replay run_claimed transition_run list_outcomes validate_completion_summaries
    run_config_ids all_exact decode_outcome_row
final-ok = refl

final_run-completed : final_run.status ≡ completed
unfolding replay run_claimed transition_run list_outcomes validate_completion_summaries
    run_config_ids all_exact decode_outcome_row
final_run-completed = refl

run_claimed-IsStored_example : IsStored final_db 3 11 7
run_claimed-IsStored_example =
    run_claimed-IsStored plain plain-IsFaithful around 3 2 items wakes claimed final_db final_run 1
      (record { config_id = 11; query_id = 7 }) claimed-IsValid (omega arith) final-ok
      final_run-completed refl

-- The wait of the job is cancelled, and then its wait for the cancelled tasks is.
abbrev killed_wakes : List (Wake ℕ String)
killed_wakes = killed quiet 1 ∷ []

cancelled_twice :
    is_running
      (db_of (
        run_claimed plain (record around { gather_error = some 2 }) 3 2 items killed_wakes claimed))
      3
    ≡ true
unfolding replay run_claimed
cancelled_twice = refl

cancelled_once :
    is_running (db_of (run_claimed plain around 3 2 items killed_wakes claimed)) 3 ≡ false
unfolding replay run_claimed transition_run
cancelled_once = refl
