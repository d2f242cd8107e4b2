-- ===== src/Datasets/Ingestion/State.antt =====
-- The local state of `IngestionService.ingest`, and how its loops end.
use pufferlab.Prelude.{ℕ, Bool, true, false, Option, none, some, List}
use pufferlab.Prelude.Result.{Result}
use pufferlab.Datasets.Ingestion.{
  NamespaceReadiness, IngestionProgress, BatchResult, IngestionCheckpoint, IngestionReport,
  Interruption, IngestionFailure, BatchOutcome,
}

-- What `ingest` has done so far: its local variables, and what it told the observers: the checkpoints
-- that it handed to one, and the progress that it handed to the other. Either may raise at the last.
pub record Ingesting : Type 0 where
  pub completed : List BatchResult
  pub checkpoint_ids : List ℕ
  pub handed : List IngestionCheckpoint
  pub progress : List IngestionProgress

pub record Ended : Type 0 where
  pub done : Ingesting
  pub result : Result IngestionFailure IngestionReport

-- How the results of a wave, or of all waves, are read: to the end, or up to an exception.
pub data WaveEnd : Type 0 where
  settled : Option BatchOutcome → Ingesting → WaveEnd
  stopped : IngestionFailure → Ingesting → WaveEnd

-- How the inspections of the namespace end.
pub data PollEnd : Type 0 where
  inspected : NamespaceReadiness → Bool → PollEnd
  inspection_failed : Interruption → PollEnd

-- `if first_error is None: first_error = outcome`
abbrev pub first_of : Option BatchOutcome → BatchOutcome → Option BatchOutcome
first_of none outcome = some outcome
first_of (some first) outcome = some first

-- What follows a call of an observer, that raises or returns.
abbrev pub returned_or : {A : Type 0} → Bool → A → A → A
returned_or false raised more = raised
returned_or true raised more = more
