-- ===== src/Persistence/Runs.antt =====
-- The run methods of persistence/repository.py. A method is one transaction: it returns its result
-- with the new tables, or an error, which leaves the tables as they were. The time that a caller
-- leaves out is read from the clock before the call, so `at` is always given here.
pub mod Tables
pub mod OtherRuns
pub mod Invariant
pub mod Recording
pub mod Creation
pub mod History
pub mod Machine
pub mod Frozen
pub mod Final
pub mod Durable
use pufferlab.Prelude.{
  ℕ, zero, suc, ◌+◌, Bool, true, false, not, ◌&&◌, ◌||◌, Option, none, some, List, [], ◌∷◌, ◌++◌,
  map, ltb, leb, ◌==◌, if◌then◌else◌, is_some, length, keep, some_of, take, distinct,
}
use pufferlab.Prelude.Result.{Result, ok, err, ◌>>=◌, ◌>>◌, raise_if, traverse}
use pufferlab.Prelude.Sort.{sort}
use pufferlab.Persistence.Errors.{
  record_not_found, immutable_record, invalid_run_transition, validation_error, Checked,
}
use pufferlab.Persistence.Records.{
  DateTime, QuerySet, QuerySetSummary, RetrievalConfig, ConfigRunSummary, ApiErrorDetail,
  EvalRunStatus, queued, running, completed, interrupted, EvalRun, QueryOutcome, same_status,
  same_summary, config_ids,
}
use pufferlab.Persistence.Codec.{Codecs, canonical_utc, canonical_run, canonical_outcome}
use pufferlab.Persistence.Rows.{
  EvalRunRow, Role, RunConfigRow, QueryOutcomeRow, Db, find, write, decode_config_row,
  decode_query_set_row, decode_run_row, decode_outcome_row,
}
use pufferlab.Persistence.Selects.{
  or_missing, is_empty, is_run, is_outcome_of, require_run, completed_query_count,
}
use pufferlab.Persistence.Transition.{validate_completion_summaries, transition_row}

-- `validate_new_run_shape`
abbrev pub validate_new_run_shape : {F : Type 0} → EvalRun F → Checked (Unit {0})
validate_new_run_shape v = do
  raise_if (not (same_status v.status queued)) validation_error
  raise_if (not (v.completed_queries == 0)) validation_error
  raise_if (is_some v.started_at || is_some v.completed_at) validation_error
  raise_if (is_some v.error || not (is_empty v.summaries)) validation_error
  _ ← canonical_utc v.created_at
  ok tt

-- The `RunConfigRow`s of a new run: the first is the baseline.
abbrev pub bindings : ℕ → ℕ → List ℕ → List RunConfigRow
bindings run ordinal [] = []
bindings run ordinal (id ∷ ids) =
    record {
      run_id = run;
      config_id = id;
      role = if ordinal == 0 then Role.baseline else Role.candidate;
      ordinal = ordinal;
    }
    ∷ bindings run (suc ordinal) ids

module _ {T : Type 0} where
  abbrev pub put_row : EvalRunRow T → Db T → Db T
  put_row row db = record db { runs = write (is_run row.id) row db.runs }

  -- `session.add`, or the assignments to the row that is there.
  abbrev pub put_outcome : QueryOutcomeRow T → List (QueryOutcomeRow T) → List (QueryOutcomeRow T)
  put_outcome new rows =
      let key = is_outcome_of new.run_id new.config_id new.query_id in
      elim (find key rows) [ none ↦ rows ++ new ∷ [] | some _ ↦ write key new rows ]

  -- `order_by(created_at, id)`
  abbrev pub before : EvalRunRow T → EvalRunRow T → Bool
  before a b = ltb a.created_at b.created_at || a.created_at == b.created_at && ltb a.id b.id

module _ {F P T : Type 0} (c : Codecs F P T) where
  abbrev require_configs : Db T → List ℕ → Checked (List RetrievalConfig)
  require_configs db ids =
      traverse
        (λ id.
          or_missing validation_error (find (λ row. row.id == id) db.configs)
          >>= decode_config_row c)
        ids

  abbrev pub summary_of : QuerySet → QuerySetSummary
  summary_of query_set = record {
    id = query_set.id;
    name = query_set.name;
    version = query_set.version;
    query_count = query_set.query_count;
    content_hash = query_set.content_hash;
  }

  -- The checks of a new run against the stored catalog.
  pub check_catalog : EvalRun F → Db T → Checked (Unit {0})
  check_catalog value db = do
    query_set_row ←
        or_missing validation_error (find (λ row. row.id == value.query_set.id) db.query_sets)
    query_set ← decode_query_set_row c query_set_row
    raise_if (not (same_summary value.query_set (summary_of query_set))) validation_error
    raise_if (not (value.total_queries == query_set.query_count)) validation_error
    raise_if (not (distinct (config_ids value))) validation_error
    configs ← require_configs db (config_ids value)
    raise_if
        (some_of
          (λ (config : RetrievalConfig).
            not (config.dataset_version_id == query_set.dataset_version_id))
          configs)
        validation_error

  abbrev pub new_run_row : EvalRun F → ℕ → T → EvalRunRow T
  new_run_row value created_at payload = record {
    id = value.id;
    query_set_id = value.query_set.id;
    status = value.status;
    completed_queries = value.completed_queries;
    total_queries = value.total_queries;
    created_at = created_at;
    started_at = none;
    completed_at = none;
    payload_json = payload;
  }

  abbrev pub add_run : EvalRun F → EvalRunRow T → Db T → Db T
  add_run value row db = record db {
    runs = db.runs ++ row ∷ [];
    run_configs = db.run_configs ++ bindings value.id 0 (config_ids value);
  }

  -- `create_run` where a row with the id is there, and where none is.
  pub repeat_run : T → EvalRunRow T → Db T → Checked (EvalRun F × Db T)
  repeat_run payload existing db = do
    raise_if (not (c.same_text existing.payload_json payload)) immutable_record
    run ← decode_run_row c existing
    ok (run, db)

  pub insert_run : EvalRun F → T → Db T → Checked (EvalRun F × Db T)
  unfolding canonical_utc check_catalog
  insert_run value payload db = do
    check_catalog value db
    created_at ← canonical_utc value.created_at
    ok (value, add_run value (new_run_row value created_at payload) db)

  -- On `existing`, the row that has the run's id.
  pub store_run : EvalRun F → T → Option (EvalRunRow T) → Db T → Checked (EvalRun F × Db T)
  unfolding repeat_run insert_run
  store_run value payload (some existing) db = repeat_run payload existing db
  store_run value payload none db = insert_run value payload db

  unfoldable pub create_run : EvalRun F → Db T → Checked (EvalRun F × Db T)
  unfolding canonical_run store_run
  create_run value db = do
    validate_new_run_shape value
    payload ← canonical_run c value
    store_run value payload (find (is_run value.id) db.runs) db

  abbrev pub get_run : Db T → ℕ → Checked (EvalRun F)
  get_run db id = require_run db id >>= decode_run_row c

  abbrev pub written : Db T → EvalRun F × EvalRunRow T → EvalRun F × Db T
  written db (run, row) = (run, put_row row db)

  abbrev pub validate_target :
      Db T → EvalRunRow T → EvalRunStatus → Option (List (ConfigRunSummary F)) → Checked (Unit {0})
  validate_target db row completed summaries = validate_completion_summaries db row summaries
  validate_target db row _ summaries = ok tt

  unfoldable pub transition_run :
      ℕ
      → EvalRunStatus
      → DateTime
      → Option (List (ConfigRunSummary F))
      → Option ApiErrorDetail
      → Db T
      → Checked (EvalRun F × Db T)
  unfolding canonical_utc
  transition_run id target at summaries error db = do
    _ ← canonical_utc at
    row ← require_run db id
    validate_target db row target summaries
    changed ← transition_row c row target at summaries error
    ok (written db changed)

  unfoldable pub claim_queued_run : ℕ → DateTime → Db T → Checked (EvalRun F × Db T)
  unfolding canonical_utc
  claim_queued_run id at db = do
    _ ← canonical_utc at
    row ← require_run db id
    current ← decode_run_row c row
    raise_if (not (same_status current.status queued)) invalid_run_transition
    changed ← transition_row c row running at none none
    ok (written db changed)

  abbrev pub complete_run :
      ℕ → List (ConfigRunSummary F) → DateTime → Db T → Checked (EvalRun F × Db T)
  complete_run id summaries at = transition_run id completed at (some summaries) none

  abbrev pub new_outcome_row : QueryOutcome P → ℕ → T → QueryOutcomeRow T
  new_outcome_row outcome created_at payload = record {
    run_id = outcome.run_id;
    config_id = outcome.config_id;
    query_id = outcome.query_id;
    status = outcome.status;
    created_at = created_at;
    payload_json = payload;
  }

  -- `record_outcome` from the decoded run on.
  unfoldable pub store_outcome :
      QueryOutcomeRow T → EvalRunRow T → EvalRun F → Db T → Checked (EvalRun F × Db T)
  unfolding completed_query_count canonical_run
  store_outcome new run_row run db = do
    raise_if (not (same_status run.status running)) immutable_record
    _ ← or_missing validation_error (
        find (λ (row : RunConfigRow). row.run_id == run.id && row.config_id == new.config_id)
          db.run_configs)
    _ ← or_missing validation_error (
        find (λ row. row.query_set_id == run.query_set.id && row.query_id == new.query_id)
          db.judged_queries)
    let outcomes = put_outcome new db.outcomes
    let completed_queries = completed_query_count db.run_configs outcomes run.id
    let updated : EvalRun F = record run { completed_queries = completed_queries }
    run_payload ← canonical_run c updated
    ok (
      updated,
      put_row (record run_row { completed_queries = completed_queries; payload_json = run_payload })
          (record db { outcomes = outcomes }),
    )

  unfoldable pub record_outcome : QueryOutcome P → Db T → Checked (EvalRun F × Db T)
  unfolding canonical_outcome canonical_utc store_outcome
  record_outcome outcome db = do
    payload ← canonical_outcome c outcome
    created_at ← canonical_utc outcome.created_at
    run_row ← require_run db outcome.run_id
    run ← decode_run_row c run_row
    store_outcome (new_outcome_row outcome created_at payload) run_row run db

  abbrev pub interrupt_rows : DateTime → List (EvalRunRow T) → Db T → Checked (List ℕ × Db T)
  interrupt_rows at [] db = ok ([], db)
  interrupt_rows at (row ∷ rows) db = do
    changed ← transition_row c row interrupted at none none
    rest ← interrupt_rows at rows (put_row changed.1 db)
    ok (row.id ∷ rest.0, rest.1)

  unfoldable pub interrupt_stale_runs : DateTime → Db T → Checked (List ℕ × Db T)
  unfolding canonical_utc sort
  interrupt_stale_runs at db = do
    _ ← canonical_utc at
    interrupt_rows at (sort before (keep (λ row. same_status row.status running) db.runs)) db
