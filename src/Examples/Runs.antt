-- ===== src/Examples/Runs.antt =====
-- The run repository: a codec that keeps its values, a small catalog, and a run from its creation
-- to its completion.
use Prim.Native.String.{String}
use pufferlab.Prelude.{ℕ, ◌≡◌, refl, true, false, Option, none, some, List, [], ◌∷◌}
use pufferlab.Prelude.Int.{pos}
use pufferlab.Persistence.Records.{
  DateTime, QuerySet, RetrievalConfig, ConfigRunSummary, queued, completed, cancelled, EvalRun,
  QueryOutcome, QueryOutcomeStatus, perf_counter, RunEnvironment, is_terminal,
}
use pufferlab.Persistence.Codec.{Codecs, IsFaithful}
use pufferlab.Persistence.Transition.{transition_row, validate_completion_summaries, all_exact}
use pufferlab.Persistence.Rows.{
  decode_query_set_row, decode_config_row, decode_run_row, RetrievalConfigRow, EvalRunRow, Db, find,
}
use pufferlab.Persistence.Selects.{is_run, run_config_ids}
use pufferlab.Persistence.Runs.{
  create_run, transition_run, claim_queued_run, record_outcome, interrupt_stale_runs,
}
use pufferlab.Persistence.Runs.Invariant.{IsValid}
use pufferlab.Persistence.Runs.History.{Call, history, history-IsValid}
use pufferlab.Persistence.Runs.Final.{history-SameEvidence}
use pufferlab.Persistence.Runs.Durable.{IsStored, history-IsStored}
use pufferlab.Persistence.Runs.Machine.{Reach, status_of}
use pufferlab.Persistence.Runs.Machine.Refinement.{history-Reach}
use pufferlab.Persistence.Runs.Frozen.{SameEvidence}

-- Metrics are numbers here and payloads are texts; a written value is its own text.
pub data Text : Type 0 where
  run_text : EvalRun ℕ → Text
  outcome_text : QueryOutcome String → Text
  query_set_text : QuerySet → Text
  config_text : RetrievalConfig → Text

abbrev text_run : Text → Option (EvalRun ℕ)
text_run (run_text v) = some v
text_run _ = none

abbrev text_outcome : Text → Option (QueryOutcome String)
text_outcome (outcome_text v) = some v
text_outcome _ = none

abbrev text_query_set : Text → Option QuerySet
text_query_set (query_set_text v) = some v
text_query_set _ = none

abbrev text_config : Text → Option RetrievalConfig
text_config (config_text v) = some v
text_config _ = none

abbrev pub plain : Codecs ℕ String Text
plain = record {
  same_text = λ _ _. true;
  dump_run = run_text;
  parse_run = text_run;
  dump_outcome = outcome_text;
  parse_outcome = text_outcome;
  dump_query_set = query_set_text;
  parse_query_set = text_query_set;
  dump_config = config_text;
  parse_config = text_config;
  is_valid_error = λ _. true;
}

pub plain-IsFaithful : IsFaithful plain
plain-IsFaithful = record { parse-dump_run = λ v h. refl; parse-dump_outcome = λ v h. refl }

abbrev pub at : ℕ → DateTime
at n = record { instant = n; aware = true }

abbrev config : ℕ → RetrievalConfig
config n = record {
  id = n;
  revision = 1;
  name = "bm25";
  dataset_version_id = 1;
  spec = "{}";
  config_hash = "h";
  created_at = at 1;
}

abbrev config_row : ℕ → RetrievalConfigRow Text
config_row n = record {
  id = n;
  revision = 1;
  dataset_version_id = 1;
  name = "bm25";
  config_hash = "h";
  created_at = 1;
  payload_json = config_text (config n);
}

abbrev pub query_set : QuerySet
query_set = record {
  id = 5;
  name = "unix";
  version = "1";
  dataset_version_id = 1;
  query_count = 1;
  content_hash = "q";
  created_at = at 2;
}

abbrev pub catalog : Db Text
catalog = record {
  configs = config_row 10 ∷ config_row 11 ∷ [];
  query_sets =
      record {
        id = 5;
        dataset_version_id = 1;
        name = "unix";
        version = "1";
        content_hash = "q";
        created_at = 2;
        payload_json = query_set_text query_set;
      }
      ∷ [];
  judged_queries =
      record { query_set_id = 5; query_id = 7; ordinal = 0; payload_json = config_text (config 10) }
      ∷ [];
  runs = [];
  run_configs = [];
  outcomes = [];
}

abbrev pub environment : RunEnvironment
environment = record {
  pufferlab_git_revision = "r";
  turbopuffer_region = "gcp";
  python_version = "3.12";
  platform = "linux";
  max_concurrency = 2;
  warmup_query_count = 0;
  timing_source = perf_counter;
  query_embedding_cache_enabled = false;
}

abbrev pub new_run : EvalRun ℕ
new_run = record {
  id = 3;
  status = queued;
  query_set = record { id = 5; name = "unix"; version = "1"; query_count = 1; content_hash = "q" };
  baseline_config_id = 10;
  candidate_config_ids = 11 ∷ [];
  summaries = [];
  completed_queries = 0;
  total_queries = 1;
  random_seed = pos 1;
  environment = environment;
  created_at = at 3;
  started_at = none;
  completed_at = none;
  error = none;
}

abbrev pub result : ℕ → QueryOutcomeStatus → QueryOutcome String
result config status = record {
  run_id = 3;
  config_id = config;
  query_id = 7;
  status = status;
  payload = "{}";
  created_at = at 6;
}

abbrev pub summary : ℕ → ℕ → ConfigRunSummary ℕ
summary config failures = record {
  config_id = config;
  metrics = [];
  completed_queries = 1;
  failed_queries = failures;
}

abbrev whole_run : List (Call ℕ String)
whole_run =
    Call.create new_run
    ∷ Call.claim 3 (at 4)
    ∷ Call.record_result (result 10 QueryOutcomeStatus.succeeded)
    ∷ Call.record_result (result 11 QueryOutcomeStatus.succeeded)
    ∷ Call.transition 3 completed (at 9) (some (summary 10 0 ∷ summary 11 0 ∷ [])) none
    ∷ []

abbrev late_calls : List (Call ℕ String)
late_calls =
    Call.record_result (result 10 QueryOutcomeStatus.failed)
    ∷ Call.transition 3 cancelled (at 10) none none
    ∷ Call.interrupt (at 11)
    ∷ []

-- What a test unfolds.
replay : List (Call ℕ String) → Db Text
unfolding history create_run transition_run claim_queued_run record_outcome interrupt_stale_runs
    decode_query_set_row decode_config_row decode_run_row transition_row run_config_ids all_exact
    validate_completion_summaries
replay calls = history plain calls catalog

whole_run-completed : status_of 3 (history plain whole_run catalog) ≡ some completed
unfolding replay
whole_run-completed = refl

pub catalog-IsValid : IsValid plain catalog
catalog-IsValid = record { rows = tt; unique = refl; known = tt }

history-IsValid_example : IsValid plain (history plain whole_run catalog)
history-IsValid_example = history-IsValid plain plain-IsFaithful whole_run catalog catalog-IsValid

history-Reach_example : Reach (status_of 3 catalog) (status_of 3 (history plain whole_run catalog))
history-Reach_example = history-Reach plain plain-IsFaithful 3 whole_run catalog catalog-IsValid

abbrev finished : Db Text
finished = history plain whole_run catalog

-- The row of the finished run, as its own lookup gives it.
row_of : Option (EvalRunRow Text) → EvalRunRow Text
row_of (some row) = row
row_of none = record {
  id = 0;
  query_set_id = 0;
  status = queued;
  completed_queries = 0;
  total_queries = 0;
  created_at = 0;
  started_at = none;
  completed_at = none;
  payload_json = config_text (config 0);
}

abbrev finished_row : EvalRunRow Text
finished_row = row_of (find (is_run 3) finished.runs)

finished_row-terminal : is_terminal finished_row.status ≡ true
unfolding replay row_of
finished_row-terminal = refl

finished_row-find : find (is_run 3) finished.runs ≡ some finished_row
unfolding replay row_of
finished_row-find = refl

history-SameEvidence_example : SameEvidence 3 finished (history plain late_calls finished)
history-SameEvidence_example =
    history-SameEvidence plain plain-IsFaithful 3 finished_row finished_row-terminal late_calls
      finished history-IsValid_example finished_row-find

abbrev before_end : Db Text
before_end =
    history plain
      (Call.create new_run
        ∷ Call.claim 3 (at 4)
        ∷ Call.record_result (result 10 QueryOutcomeStatus.succeeded)
        ∷ [])
      catalog

before_end-IsStored : IsStored before_end 3 10 7
unfolding replay
before_end-IsStored = refl

history-IsStored_example : IsStored (history plain late_calls before_end) 3 10 7
history-IsStored_example =
    history-IsStored plain plain-IsFaithful 3 10 7 late_calls before_end before_end-IsStored
