-- ===== src/Datasets/Ingestion/Batch.antt =====
-- `IngestionService._ingest_batch`: the documents of a batch are embedded, checked and written.
use Prim.Native.String.{String, ◌++◌ as text_append}
use pufferlab.Prelude.{ℕ, not, Option, none, some, List, [], ◌∷◌, map, ◌==◌, length, every}
use pufferlab.Prelude.Result.{Result, ok, err, ◌>>=◌, ◌>>◌, raise_if, traverse}
use pufferlab.Datasets.Models.{SourceDocument, FixtureCorpus}
use pufferlab.Datasets.Ingestion.{
  EmbeddedDocument, Interruption, cancellation, exception, BatchOutcome, written, batch_cancelled,
  count_error, dimension_error, component_error, other_error, Surroundings, Batch,
}

-- `f"{document.title}\n\n{document.body}"`
abbrev pub embedding_text : SourceDocument → String
embedding_text document = text_append document.title (text_append "\n\n" document.body)

-- An exception of the embedder or of the writer.
abbrev pub interrupted : Interruption → BatchOutcome
interrupted cancellation = batch_cancelled
interrupted exception = other_error

abbrev pub asked : {A : Type 0} → Result Interruption A → Result BatchOutcome A
asked (ok a) = ok a
asked (err e) = err (interrupted e)

abbrev pub float_or : {F : Type 0} → Option F → Result BatchOutcome F
float_or none = err component_error
float_or (some x) = ok x

abbrev pub outcome_of : Result BatchOutcome BatchOutcome → BatchOutcome
outcome_of (ok outcome) = outcome
outcome_of (err outcome) = outcome

module _ {F C : Type 0} (around : Surroundings F C) (corpus : FixtureCorpus F) where
  -- `document_uuid`; the models of a corpus leave no text of it blank.
  abbrev pub document_uuid : SourceDocument → ℕ
  document_uuid document =
      around.uuid5 (text_append corpus.manifest.version (text_append ":" document.external_id))

  abbrev pub normalize_vector : List C → Result BatchOutcome (List F)
  normalize_vector vector = do
    raise_if (not (length vector == corpus.manifest.embedding.dimensions)) dimension_error
    normalized ← traverse (λ value. float_or (around.float value)) vector
    raise_if (not (every around.is_finite normalized)) component_error
    ok normalized

  abbrev pub embed_documents : List SourceDocument → List (List F) → List (EmbeddedDocument F)
  embed_documents [] vectors = []
  embed_documents (document ∷ documents) [] = []
  embed_documents (document ∷ documents) (vector ∷ vectors) =
      record {
        id = document_uuid document;
        external_id = document.external_id;
        title = document.title;
        body = document.body;
        source_url = document.source_url;
        vector = vector;
      }
      ∷ embed_documents documents vectors

  unfoldable pub write_batch : Batch → Result BatchOutcome BatchOutcome
  write_batch (index, documents) = do
    vectors ← asked (around.embed index (map embedding_text documents))
    raise_if (not (length vectors == length documents)) count_error
    normalized_vectors ← traverse normalize_vector vectors
    let embedded = embed_documents documents normalized_vectors
    _ ← asked (around.upsert_batch index embedded)
    ok (written (record { index = index; document_ids = map (λ document. document.id) embedded }))

  unfoldable pub ingest_batch : Batch → BatchOutcome
  unfolding write_batch
  ingest_batch batch = outcome_of (write_batch batch)
