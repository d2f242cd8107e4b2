-- ===== src/Datasets/Ingestion.antt =====
-- datasets/ingestion.py: a corpus is embedded and written in batches, some batches at a time. What
-- the embedder, the namespace and the observers answer is a parameter, by the index of the batch or
-- of the attempt, since each is asked once for it. The tasks of a wave are independent: `gather`
-- waits for all of them, and their results are read in order.
pub mod Batch
pub mod State
pub mod Service
pub mod Batches
pub mod Written
pub mod Waves
pub mod Counts
pub mod Prepared
pub mod Complete
pub mod IdSets
pub mod Sound
pub mod Steps
pub mod Resumable
use Prim.Native.String.{String}
use pufferlab.Prelude.{
  ℕ, zero, suc, ◌+◌, Bool, true, false, not, ◌&&◌, ◌||◌, Option, none, some, List, [], ◌∷◌, ◌++◌,
  map, ltb, leb, ◌==◌, if◌then◌else◌, length, every, contains, keep, distinct, is_some,
}
use pufferlab.Prelude.Result.{Result, ok, err, ◌>>=◌, ◌>>◌, raise_if}
use pufferlab.Prelude.Sort.{sort}
use pufferlab.Prelude.Chunks.{chunks}
use pufferlab.Prelude.Text.{text_lt, is_blank}
use pufferlab.Datasets.Models.{SourceDocument, FixtureCorpus}
use pufferlab.Datasets.Schema.{NamespaceWriteSpec, compile_namespace_write_spec}

pub record EmbeddedDocument (F : Type 0) : Type 0 where
  pub id : ℕ
  pub external_id : String
  pub title : String
  pub body : String
  pub source_url : String
  pub vector : List F

-- `document_ids` is a frozenset.
pub record NamespaceReadiness : Type 0 where
  pub document_count : ℕ
  pub document_ids : List ℕ
  pub schema_hash : String
  pub metadata_ready : Bool
  pub indexes_ready : Bool

pub data IngestionState : Type 0 where
  ingesting verifying ready failed : IngestionState

pub record IngestionProgress : Type 0 where
  pub state : IngestionState
  pub batches_completed : ℕ
  pub batches_total : ℕ
  pub documents_completed : ℕ
  pub documents_total : ℕ

pub record BatchResult : Type 0 where
  pub index : ℕ
  pub document_ids : List ℕ

pub record IngestionCheckpoint : Type 0 where
  pub format_version : ℕ
  pub namespace : String
  pub dataset_version : String
  pub corpus_hash : String
  pub schema_hash : String
  pub completed_document_ids : List ℕ

pub record IngestionReport : Type 0 where
  pub namespace : String
  pub dataset_version : String
  pub corpus_hash : String
  pub schema_hash : String
  pub state : IngestionState
  pub batches_total : ℕ
  pub batches_completed : ℕ
  pub documents_total : ℕ
  pub documents_completed : ℕ
  pub batch_results : List BatchResult
  pub resumed_documents : ℕ
  pub readiness : Option NamespaceReadiness

-- How a call of the environment ends badly.
pub data Interruption : Type 0 where
  cancellation exception : Interruption

-- How `ingest` ends badly; the checks of its arguments raise `value_error`.
pub data IngestionFailure : Type 0 where
  value_error cancelled : IngestionFailure
  embedding_count_mismatch embedding_dimension_mismatch : IngestionReport → IngestionFailure
  embedding_value_mismatch batch_write_error : IngestionReport → IngestionFailure
  readiness_error : IngestionReport → IngestionFailure
  -- The exception of an observer of progress.
  observer_error : IngestionFailure

-- How a batch ends, as `gather` returns it.
pub data BatchOutcome : Type 0 where
  written : BatchResult → BatchOutcome
  batch_cancelled count_error dimension_error component_error other_error : BatchOutcome

-- `C` is the type of the components that the embedder returns.
pub record Surroundings (F C : Type 0) : Type 0 where
  -- `uuid5(PUFFERLAB_NAMESPACE_UUID, name)` and `canonical_schema_hash`
  pub uuid5 : String → ℕ
  pub schema_hash : NamespaceWriteSpec F → String
  -- `float(value)`, where it does not raise, and `math.isfinite`
  pub float : C → Option F
  pub is_finite : F → Bool
  pub dimensions : ℕ
  pub embed : ℕ → List String → Result Interruption (List (List C))
  pub upsert_batch : ℕ → List (EmbeddedDocument F) → Result Interruption (Unit {0})
  pub inspect_readiness : ℕ → Result Interruption NamespaceReadiness
  -- The checkpoint observer, where there is one, and whether it returns.
  pub on_checkpoint : Option (IngestionCheckpoint → Bool)
  -- Whether the observer of progress returns: one that is absent does.
  pub on_progress : IngestionProgress → Bool

pub record IngestionService : Type 0 where
  pub batch_size : ℕ
  pub max_concurrency : ℕ
  pub readiness_attempts : ℕ

-- `__init__`; the sleep between two attempts is not modelled.
abbrev pub is_valid_service : IngestionService → Bool
is_valid_service s = leb 1 s.batch_size && leb 1 s.max_concurrency && leb 1 s.readiness_attempts

-- A batch is its index and its documents.
abbrev pub Batch : Type 0
Batch = ℕ × List SourceDocument

abbrev pub enumerate_from : ℕ → List (List SourceDocument) → List Batch
enumerate_from index [] = []
enumerate_from index (documents ∷ rest) = (index, documents) ∷ enumerate_from (suc index) rest

abbrev pub by_external_id : SourceDocument → SourceDocument → Bool
by_external_id a b = text_lt a.external_id b.external_id

unfoldable pub make_batches : List SourceDocument → ℕ → List Batch
unfolding sort chunks
make_batches documents batch_size =
    enumerate_from 0 (chunks batch_size (sort by_external_id documents))

-- Sets of identifiers are lists without repetition.
abbrev pub add_id : ℕ → List ℕ → List ℕ
add_id id ids = if contains id ids then ids else ids ++ id ∷ []

-- `ids.update(new)`
abbrev pub add_ids : List ℕ → List ℕ → List ℕ
add_ids [] ids = ids
add_ids (id ∷ new) ids = add_ids new (add_id id ids)

-- `xs <= ys` and `xs == ys`
abbrev pub is_subset : List ℕ → List ℕ → Bool
is_subset xs ys = every (λ x. contains x ys) xs

abbrev pub same_set : List ℕ → List ℕ → Bool
same_set xs ys = is_subset xs ys && is_subset ys xs

abbrev pub by_batch_index : BatchResult → BatchResult → Bool
by_batch_index a b = ltb a.index b.index

abbrev pub document_count : List BatchResult → ℕ
document_count [] = 0
document_count (result ∷ rest) = length result.document_ids + document_count rest
