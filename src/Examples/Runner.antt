-- ===== src/Examples/Runner.antt =====
-- The evaluation of one query with two configs: one search finds documents and one is refused. The
-- outcomes are stored and summarized.
use pufferlab.Prelude.{ℕ, ◌≡◌, refl, true, false, Option, none, some, List, [], ◌∷◌}
use pufferlab.Prelude.Int.{ℤ, pos}
use pufferlab.Prelude.Result.{Result, ok, err}
use pufferlab.Persistence.Records.{
  provider_error, ConfigRunSummary, EvalRun, QueryOutcome, QueryOutcomeStatus, running, config_ids,
}
use pufferlab.Persistence.Codec.{Codecs}
use pufferlab.Persistence.Rows.{
  Db, EvalRunRow, QueryOutcomeRow, baseline, candidate, decode_run_row, decode_outcome_row,
}
use pufferlab.Persistence.Transition.{validate_completion_summaries}
use pufferlab.Persistence.Reads.{list_outcomes, max_outcome_rows}
use pufferlab.Persistence.Selects.{run_config_ids}
use pufferlab.Jobs.Loop.{QueryWorkItem}
use pufferlab.Jobs.Runner.{
  EvalOutcomePayload, failure, RunnerError, turbopuffer, PayloadCodec, IsFaithfulPayload,
}
use pufferlab.Jobs.Runner.Execute.{JudgedQuery, Searched, found, refused, Execution, execute}
use pufferlab.Jobs.Runner.Finalize.{finalize_durable_outcomes}
use pufferlab.Jobs.Runner.Coverage.{IsExact, finalize-IsExact}
use pufferlab.Jobs.Runner.Completes.{finalize-IsAccepted}
use pufferlab.Jobs.Runner.Attempts.{IsAttempt, execute-IsAttempt}
use pufferlab.Examples.Runs.{at, environment}
use pufferlab.Examples.Evals.{thousandths, judgments}

-- A payload is its own JSON value.
abbrev Payload : Type 0
Payload = EvalOutcomePayload ℤ

abbrev own_payload : PayloadCodec ℤ Payload
own_payload = record { dump = λ p. p; parse = λ p. some p }

own_payload-IsFaithful : IsFaithfulPayload own_payload
own_payload-IsFaithful = record { parse-dump = λ p h. refl }

abbrev query : JudgedQuery
query = record { id = 7; text = "how to list files"; filters = none; qrels = judgments }

abbrev item : ℕ → QueryWorkItem
item config = record { config_id = config; query_id = 7 }

abbrev finds : Searched ℤ
finds = found (record {
  config_id = 10;
  query_id = some 7;
  result = record {
    config_id = 10;
    hits = 4 ∷ 1 ∷ 3 ∷ [];
    timings = record { stage = turbopuffer; duration_ms = pos 2000 } ∷ [];
    candidate_counts = ("bm25", 3) ∷ [];
    warnings = [];
    trace_id = 20;
  };
})

abbrev refuses : Searched ℤ
refuses = refused (record {
  code = provider_error;
  message = "the provider is not available";
  retryable = true;
  operation = "query";
})

abbrev execution : Searched ℤ → Execution ℤ
execution searched = record {
  namespace = "unix";
  search_one = λ _. searched;
  started = pos 4000;
  finished = pos 4005;
  now = at 6;
  trace_id = 21;
  message_of = λ _. "a warning";
}

abbrev executed : ℕ → Searched ℤ → Result RunnerError (QueryOutcome Payload)
executed config searched = execute own_payload 3 (execution searched) (item config) (query ∷ [])

abbrev outcome_or : Result RunnerError (QueryOutcome Payload) → QueryOutcome Payload
outcome_or (ok outcome) = outcome
outcome_or (err _) = record {
  run_id = 0;
  config_id = 0;
  query_id = 0;
  status = QueryOutcomeStatus.failed;
  payload = failure (record {
    code = provider_error;
    message = "";
    retryable = false;
    operation = "";
    trace_id = 0;
    total_client_wall_latency_ms = pos 0;
  });
  created_at = at 0;
}

abbrev first : QueryOutcome Payload
first = outcome_or (executed 10 finds)

abbrev second : QueryOutcome Payload
second = outcome_or (executed 11 refuses)

first-ok : executed 10 finds ≡ ok first
unfolding execute
first-ok = refl

second-ok : executed 11 refuses ≡ ok second
unfolding execute
second-ok = refl

execute-IsAttempt_example : IsAttempt own_payload 3 (item 10) first
execute-IsAttempt_example =
    execute-IsAttempt own_payload own_payload-IsFaithful 3 (execution finds) (item 10) (query ∷ [])
      first first-ok

-- The run 3 of the configs 10 and 11, while it runs.
abbrev run : EvalRun ℤ
run = record {
  id = 3;
  status = running;
  query_set = record { id = 5; name = "unix"; version = "1"; query_count = 1; content_hash = "q" };
  baseline_config_id = 10;
  candidate_config_ids = 11 ∷ [];
  summaries = [];
  completed_queries = 1;
  total_queries = 1;
  random_seed = pos 1;
  environment = environment;
  created_at = at 3;
  started_at = some (at 4);
  completed_at = none;
  error = none;
}

abbrev summaries_or : Result RunnerError (List (ConfigRunSummary ℤ)) → List (ConfigRunSummary ℤ)
summaries_or (ok summaries) = summaries
summaries_or (err _) = []

abbrev summaries : List (ConfigRunSummary ℤ)
summaries = summaries_or (finalize_durable_outcomes own_payload run (first ∷ second ∷ []) (7 ∷ []))

summaries-ok :
    finalize_durable_outcomes own_payload run (first ∷ second ∷ []) (7 ∷ []) ≡ ok summaries
unfolding execute finalize_durable_outcomes
summaries-ok = refl

finalize-IsExact_example : IsExact own_payload run (first ∷ second ∷ []) (7 ∷ []) summaries
finalize-IsExact_example =
    finalize-IsExact own_payload run (first ∷ second ∷ []) (7 ∷ []) summaries refl summaries-ok

-- A written value is its own text.
data Note : Type 0 where
  run_note : EvalRun ℤ → Note
  outcome_note : QueryOutcome Payload → Note

abbrev note_run : Note → Option (EvalRun ℤ)
note_run (run_note v) = some v
note_run (outcome_note _) = none

abbrev note_outcome : Note → Option (QueryOutcome Payload)
note_outcome (outcome_note v) = some v
note_outcome (run_note _) = none

abbrev notes : Codecs ℤ Payload Note
notes = record {
  same_text = λ _ _. true;
  dump_run = run_note;
  parse_run = note_run;
  dump_outcome = outcome_note;
  parse_outcome = note_outcome;
  dump_query_set = λ _. run_note run;
  parse_query_set = λ _. none;
  dump_config = λ _. run_note run;
  parse_config = λ _. none;
  is_valid_error = λ _. true;
}

abbrev outcome_row : QueryOutcome Payload → QueryOutcomeRow Note
outcome_row outcome = record {
  run_id = outcome.run_id;
  config_id = outcome.config_id;
  query_id = outcome.query_id;
  status = outcome.status;
  created_at = outcome.created_at.instant;
  payload_json = outcome_note outcome;
}

abbrev run_row : EvalRunRow Note
run_row = record {
  id = 3;
  query_set_id = 5;
  status = running;
  completed_queries = 1;
  total_queries = 1;
  created_at = 3;
  started_at = some 4;
  completed_at = none;
  payload_json = run_note run;
}

abbrev stored : Db Note
stored = record {
  configs = [];
  query_sets = [];
  judged_queries = [];
  runs = run_row ∷ [];
  run_configs =
      record { run_id = 3; config_id = 10; role = baseline; ordinal = 0 }
      ∷ record { run_id = 3; config_id = 11; role = candidate; ordinal = 1 }
      ∷ [];
  outcomes = outcome_row first ∷ outcome_row second ∷ [];
}

stored-read : list_outcomes notes 3 none max_outcome_rows stored ≡ ok (first ∷ second ∷ [])
unfolding execute list_outcomes decode_run_row decode_outcome_row
stored-read = refl

stored-configs : run_config_ids 3 stored.run_configs ≡ config_ids run
unfolding run_config_ids
stored-configs = refl

finalize-IsAccepted_example : validate_completion_summaries stored run_row (some summaries) ≡ ok tt
finalize-IsAccepted_example =
    finalize-IsAccepted notes own_payload stored run_row (first ∷ second ∷ []) run (7 ∷ [])
      summaries stored-read summaries-ok refl refl stored-configs refl
