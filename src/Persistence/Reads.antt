-- ===== src/Persistence/Reads.antt =====
-- The reading methods of persistence/repository.py over the run tables.
use pufferlab.Prelude.{
  ℕ, suc, Bool, not, ◌&&◌, ◌||◌, Option, none, some, List, ltb, leb, ◌==◌, length, keep, take, true,
}
use pufferlab.Prelude.Result.{ok, ◌>>=◌, ◌>>◌, raise_if, traverse}
use pufferlab.Prelude.Sort.{sort}
use pufferlab.Persistence.Errors.{record_not_found, validation_error, Checked}
use pufferlab.Persistence.Records.{queued, running, EvalRun, QueryOutcome, same_status}
use pufferlab.Persistence.Codec.{Codecs}
use pufferlab.Persistence.Rows.{
  EvalRunRow, QueryOutcomeRow, Db, find, decode_run_row, decode_outcome_row,
}
use pufferlab.Persistence.Selects.{or_missing, is_outcome_of, require_run}
use pufferlab.Persistence.Runs.{before}

-- `_MAX_RUN_ROWS`, `_MAX_OUTCOME_ROWS`
abbrev pub max_run_rows : ℕ
max_run_rows = 100

abbrev pub max_outcome_rows : ℕ
max_outcome_rows = 200

-- `_validate_limit`
abbrev pub validate_limit : ℕ → ℕ → Checked (Unit {0})
validate_limit limit maximum = raise_if (not (leb 1 limit && leb limit maximum)) validation_error

module _ {T : Type 0} where
  -- `order_by(created_at.desc(), id)`
  abbrev pub newest_first : EvalRunRow T → EvalRunRow T → Bool
  newest_first a b = ltb b.created_at a.created_at || a.created_at == b.created_at && ltb a.id b.id

  -- `order_by(query_id, config_id)`
  abbrev pub by_query : QueryOutcomeRow T → QueryOutcomeRow T → Bool
  by_query a b =
      ltb a.query_id b.query_id || a.query_id == b.query_id && ltb a.config_id b.config_id

  abbrev pub is_active : EvalRunRow T → Bool
  is_active row = same_status row.status queued || same_status row.status running

-- `where(query_id == ...)`, where a query id was given.
abbrev pub selects : Option ℕ → ℕ → Bool
selects none query = true
selects (some asked) query = query == asked

module _ {F P T : Type 0} (c : Codecs F P T) where
  unfoldable pub list_runs : ℕ → Db T → Checked (List (EvalRun F))
  unfolding sort
  list_runs limit db = do
    validate_limit limit max_run_rows
    traverse (decode_run_row c) (take limit (sort newest_first db.runs))

  unfoldable pub list_active_runs : ℕ → Db T → Checked (List (EvalRun F))
  unfolding sort
  list_active_runs limit db = do
    validate_limit limit max_run_rows
    active ← traverse (decode_run_row c) (take (suc limit) (sort before (keep is_active db.runs)))
    raise_if (ltb limit (length active)) validation_error
    ok active

  unfoldable pub get_outcome : ℕ → ℕ → ℕ → Db T → Checked (QueryOutcome P)
  get_outcome run config query db =
      or_missing record_not_found (find (is_outcome_of run config query) db.outcomes)
      >>= decode_outcome_row c

  unfoldable pub list_outcomes : ℕ → Option ℕ → ℕ → Db T → Checked (List (QueryOutcome P))
  unfolding sort
  list_outcomes run query limit db = do
    validate_limit limit max_outcome_rows
    row ← require_run db run
    _ ← decode_run_row c row
    let rows =
        take (suc limit)
          (sort by_query (keep (λ r. r.run_id == run && selects query r.query_id) db.outcomes))
    raise_if (ltb limit (length rows)) validation_error
    traverse (decode_outcome_row c) rows
