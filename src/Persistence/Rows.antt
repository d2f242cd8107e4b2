-- ===== src/Persistence/Rows.antt =====
-- persistence/models.py and the row decoders of persistence/repository.py. A table is the list of
-- its rows in the order of insertion; `T` is the type of the texts in its `payload_json` columns.
pub mod Agreement
use Prim.Native.String.{String}
use text.Mathlib.Text.{◌==◌ as str_eq}
use pufferlab.Prelude.{
  ℕ, ◌≡◌, Bool, true, false, not, ◌&&◌, Option, none, some, List, [], ◌∷◌, ◌++◌, arith, ◌==◌,
  if◌then◌else◌,
}
use pufferlab.Prelude.Result.{Result, ok, err, ◌>>=◌, ◌>>◌, raise_if}
use pufferlab.Persistence.Errors.{PersistenceError, validation_error, Checked}
use pufferlab.Persistence.Records.{
  QuerySet, RetrievalConfig, EvalRunStatus, EvalRun, QueryOutcomeStatus, QueryOutcome, same_status,
  same_outcome_status,
}
use pufferlab.Persistence.Codec.{Codecs, canonical_utc, canonical_utc?}

pub record RetrievalConfigRow (T : Type 0) : Type 0 where
  pub id : ℕ
  pub revision : ℕ
  pub dataset_version_id : ℕ
  pub name : String
  pub config_hash : String
  pub created_at : ℕ
  pub payload_json : T

pub record QuerySetRow (T : Type 0) : Type 0 where
  pub id : ℕ
  pub dataset_version_id : ℕ
  pub name : String
  pub version : String
  pub content_hash : String
  pub created_at : ℕ
  pub payload_json : T

pub record JudgedQueryRow (T : Type 0) : Type 0 where
  pub query_set_id : ℕ
  pub query_id : ℕ
  pub ordinal : ℕ
  pub payload_json : T

pub record EvalRunRow (T : Type 0) : Type 0 where
  pub id : ℕ
  pub query_set_id : ℕ
  pub status : EvalRunStatus
  pub completed_queries : ℕ
  pub total_queries : ℕ
  pub created_at : ℕ
  pub started_at : Option ℕ
  pub completed_at : Option ℕ
  pub payload_json : T

pub data Role : Type 0 where
  baseline candidate : Role

pub record RunConfigRow : Type 0 where
  pub run_id : ℕ
  pub config_id : ℕ
  pub role : Role
  pub ordinal : ℕ

pub record QueryOutcomeRow (T : Type 0) : Type 0 where
  pub run_id : ℕ
  pub config_id : ℕ
  pub query_id : ℕ
  pub status : QueryOutcomeStatus
  pub created_at : ℕ
  pub payload_json : T

pub record Db (T : Type 0) : Type 0 where
  pub configs : List (RetrievalConfigRow T)
  pub query_sets : List (QuerySetRow T)
  pub judged_queries : List (JudgedQueryRow T)
  pub runs : List (EvalRunRow T)
  pub run_configs : List RunConfigRow
  pub outcomes : List (QueryOutcomeRow T)

-- `session.get(Row, key)`, where `p` tests the primary key.
abbrev pub find : {R : Type 0} → (R → Bool) → List R → Option R
find p [] = none
find p (r ∷ rs) = if p r then some r else find p rs

-- A changed row object is written back under its primary key.
abbrev pub write : {R : Type 0} → (R → Bool) → R → List R → List R
write p new [] = []
write p new (r ∷ rs) = (if p r then new else r) ∷ write p new rs

abbrev pub same_time : Option ℕ → Option ℕ → Bool
same_time none none = true
same_time (some a) (some b) = a == b
same_time _ _ = false

abbrev or_invalid : {A : Type 0} → Option A → Checked A
or_invalid none = err validation_error
or_invalid (some a) = ok a

module _ {F P T : Type 0} (c : Codecs F P T) where
  unfoldable pub decode_config_row : RetrievalConfigRow T → Checked RetrievalConfig
  unfolding canonical_utc
  decode_config_row row = do
    value ← or_invalid (c.parse_config row.payload_json)
    created_at ← canonical_utc value.created_at
    raise_if
        (not (
          value.id == row.id
          && value.revision == row.revision
          && value.dataset_version_id == row.dataset_version_id
          && str_eq value.name row.name
          && str_eq value.config_hash row.config_hash
          && created_at == row.created_at))
        validation_error
    ok value

  unfoldable pub decode_query_set_row : QuerySetRow T → Checked QuerySet
  unfolding canonical_utc
  decode_query_set_row row = do
    value ← or_invalid (c.parse_query_set row.payload_json)
    created_at ← canonical_utc value.created_at
    raise_if
        (not (
          value.id == row.id
          && value.dataset_version_id == row.dataset_version_id
          && str_eq value.name row.name
          && str_eq value.version row.version
          && str_eq value.content_hash row.content_hash
          && created_at == row.created_at))
        validation_error
    ok value

  unfoldable pub decode_run_row : EvalRunRow T → Checked (EvalRun F)
  unfolding canonical_utc canonical_utc?
  decode_run_row row = do
    value ← or_invalid (c.parse_run row.payload_json)
    started_at ← canonical_utc? value.started_at
    completed_at ← canonical_utc? value.completed_at
    created_at ← canonical_utc value.created_at
    raise_if
        (not (
          value.id == row.id
          && value.query_set.id == row.query_set_id
          && same_status value.status row.status
          && value.completed_queries == row.completed_queries
          && value.total_queries == row.total_queries
          && created_at == row.created_at
          && same_time started_at row.started_at
          && same_time completed_at row.completed_at))
        validation_error
    ok value

  unfoldable pub decode_outcome_row : QueryOutcomeRow T → Checked (QueryOutcome P)
  unfolding canonical_utc
  decode_outcome_row row = do
    value ← or_invalid (c.parse_outcome row.payload_json)
    created_at ← canonical_utc value.created_at
    raise_if
        (not (
          value.run_id == row.run_id
          && value.config_id == row.config_id
          && value.query_id == row.query_id
          && same_outcome_status value.status row.status
          && created_at == row.created_at))
        validation_error
    ok value
