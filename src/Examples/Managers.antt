-- ===== src/Examples/Managers.antt =====
-- A manager that starts the queued run of `Examples.Runs`, and is asked to start it again.
use Prim.Native.String.{String}
use pufferlab.Prelude.{ℕ, ◌≡◌, refl, true, false, some, List, [], ◌∷◌}
use pufferlab.Prelude.Result.{ok}
use pufferlab.Persistence.Rows.{decode_query_set_row, decode_config_row, decode_run_row}
use pufferlab.Persistence.Transition.{transition_row}
use pufferlab.Persistence.Runs.{create_run, claim_queued_run, transition_run}
use pufferlab.Persistence.Runs.Invariant.{IsValid}
use pufferlab.Persistence.Runs.History.{Call, history, history-IsValid}
use pufferlab.Jobs.Manager.{
  ActiveJob, Manager, Event, starts, starts_claimed, cancels, closes, start, happen_all, is_active,
  or_same,
}
use pufferlab.Jobs.Manager.Entries.{job_of}
use pufferlab.Jobs.Manager.Active.{job_of-happen_all}
use pufferlab.Jobs.Manager.Claim.{IsClaimed, start-is_running}
use pufferlab.Examples.Runs.{Text, plain, plain-IsFaithful, at, catalog, catalog-IsValid, new_run}
use pufferlab.Examples.Jobs.{items}

abbrev idle : Manager Text
idle = record { active = []; db = history plain (Call.create new_run ∷ []) catalog }

idle-IsValid : IsValid plain idle.db
idle-IsValid =
    history-IsValid plain plain-IsFaithful (Call.create new_run ∷ []) catalog catalog-IsValid

abbrev started : Manager Text
started = or_same idle (start plain 3 items 2 (at 4) idle)

started-ok : start plain 3 items 2 (at 4) idle ≡ ok started
unfolding start history create_run claim_queued_run decode_query_set_row decode_config_row
    decode_run_row transition_row
started-ok = refl

start-is_running_example : IsClaimed plain plain-IsFaithful 3 idle started
start-is_running_example =
    start-is_running plain plain-IsFaithful 3 2 items (at 4) idle started idle-IsValid started-ok

abbrev events : List (Event ℕ String)
events = starts 3 items 2 (at 4) ∷ starts 3 items 2 (at 5) ∷ cancels 3 (at 6) ∷ closes ∷ []

events-active : is_active 3 (happen_all plain events idle).active ≡ true
unfolding happen_all history create_run claim_queued_run transition_run decode_query_set_row
    decode_config_row decode_run_row transition_row
events-active = refl

-- The job of the run, before anything else happens.
abbrev job : ActiveJob
job = record { run_id = 3; work_items = items; max_concurrency = 2; cancellation_requested = false }

started-job : job_of 3 started.active ≡ some job
unfolding start history create_run claim_queued_run decode_query_set_row decode_config_row
    decode_run_row transition_row
started-job = refl

abbrev later : List (Event ℕ String)
later = starts_claimed 3 [] 7 ∷ cancels 3 (at 6) ∷ closes ∷ []

-- The second start of the run is refused, and its cancellation is noted.
job_of-happen_all_example :
    job_of 3 (happen_all plain later started).active
    ≡ some (record job { cancellation_requested = true })
job_of-happen_all_example =
    job_of-happen_all plain plain-IsFaithful 3 job later started started-job refl
