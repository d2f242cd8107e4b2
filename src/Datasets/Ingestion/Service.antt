-- ===== src/Datasets/Ingestion/Service.antt =====
-- `IngestionService.ingest`: the waves of batches, the checkpoints, and the readiness of the namespace.
use Prim.Native.String.{String}
use text.Mathlib.Text.{◌==◌ as str_eq}
use pufferlab.Prelude.{
  ℕ, zero, suc, ◌+◌, ◌-◌, Bool, true, false, not, ◌&&◌, ◌||◌, Option, none, some, List, [], ◌∷◌,
  ◌++◌, map, ltb, ◌==◌, if◌then◌else◌, length, contains, keep, distinct,
}
use pufferlab.Prelude.Result.{Result, ok, err, ◌>>=◌, ◌>>◌, raise_if}
use pufferlab.Prelude.Sort.{sort}
use pufferlab.Prelude.Chunks.{chunks}
use pufferlab.Prelude.Text.{is_blank}
use pufferlab.Datasets.Models.{SourceDocument, FixtureCorpus}
use pufferlab.Datasets.Schema.{compile_namespace_write_spec}
use pufferlab.Datasets.Ingestion.{
  NamespaceReadiness, IngestionState, ingesting, verifying, ready, failed, IngestionProgress,
  BatchResult, IngestionCheckpoint, IngestionReport, cancellation, exception, IngestionFailure,
  value_error, cancelled, embedding_count_mismatch, embedding_dimension_mismatch,
  embedding_value_mismatch, batch_write_error, readiness_error, observer_error, BatchOutcome,
  written, batch_cancelled, count_error, dimension_error, component_error, other_error,
  Surroundings, IngestionService, Batch, make_batches, add_ids, is_subset, same_set, by_batch_index,
  document_count,
}
use pufferlab.Datasets.Ingestion.State.{
  Ingesting, Ended, WaveEnd, settled, stopped, PollEnd, inspected, inspection_failed, first_of,
  returned_or,
}
use pufferlab.Datasets.Ingestion.Batch.{document_uuid, ingest_batch}

abbrev pub with_result : Result IngestionFailure IngestionReport → Ingesting → Ended
with_result result done = record { done = done; result = result }

-- `not documents`
abbrev pub is_empty_corpus : List SourceDocument → Bool
is_empty_corpus [] = true
is_empty_corpus (_ ∷ _) = false

module _ {F C : Type 0} (around : Surroundings F C) (service : IngestionService)
    (corpus : FixtureCorpus F) (namespace : String) where
  abbrev pub schema_hash_of : String
  schema_hash_of = around.schema_hash (compile_namespace_write_spec corpus.manifest)

  abbrev pub expected_document_ids : List ℕ
  expected_document_ids = map (document_uuid around corpus) corpus.documents

  unfoldable pub validate_checkpoint : Option IngestionCheckpoint → Result IngestionFailure (List ℕ)
  validate_checkpoint none = ok []
  validate_checkpoint (some checkpoint) = do
    raise_if (not (checkpoint.format_version == 1)) value_error
    raise_if (not (str_eq checkpoint.namespace namespace)) value_error
    raise_if
        (not (str_eq checkpoint.dataset_version corpus.manifest.version)
          || not (str_eq checkpoint.corpus_hash corpus.corpus_hash)
          || not (str_eq checkpoint.schema_hash schema_hash_of))
        value_error
    raise_if (not (distinct checkpoint.completed_document_ids)) value_error
    raise_if (not (is_subset checkpoint.completed_document_ids expected_document_ids)) value_error
    ok checkpoint.completed_document_ids

  abbrev pub checkpoint_of : List ℕ → IngestionCheckpoint
  checkpoint_of ids = record {
    format_version = 1;
    namespace = namespace;
    dataset_version = corpus.manifest.version;
    corpus_hash = corpus.corpus_hash;
    schema_hash = schema_hash_of;
    completed_document_ids = sort ltb ids;
  }

  abbrev pub progress_of : List Batch → List BatchResult → IngestionState → ℕ → IngestionProgress
  progress_of batches completed state resumed = record {
    state = state;
    batches_completed = length completed;
    batches_total = length batches;
    documents_completed = resumed + document_count completed;
    documents_total = length corpus.documents;
  }

  -- `batches or _make_batches(...)`
  abbrev reported_batches : List Batch → List Batch
  reported_batches [] = make_batches corpus.documents service.batch_size
  reported_batches (batch ∷ batches) = batch ∷ batches

  unfoldable pub report_of :
      IngestionState
      → List Batch
      → List BatchResult
      → ℕ
      → Option NamespaceReadiness
      → IngestionReport
  report_of state batches completed resumed readiness =
      let actual = sort by_batch_index completed in
      record {
        namespace = namespace;
        dataset_version = corpus.manifest.version;
        corpus_hash = corpus.corpus_hash;
        schema_hash = schema_hash_of;
        state = state;
        batches_total = length (reported_batches batches);
        batches_completed = length actual;
        documents_total = length corpus.documents;
        documents_completed = resumed + document_count actual;
        batch_results = actual;
        resumed_documents = resumed;
        readiness = readiness;
      }

  -- `_is_ready`
  abbrev pub is_ready : NamespaceReadiness → Bool
  is_ready r =
      r.metadata_ready
      && r.indexes_ready
      && r.document_count == length corpus.documents
      && same_set r.document_ids expected_document_ids
      && str_eq r.schema_hash schema_hash_of

  -- The readiness loop: one attempt, and `more` others.
  unfoldable pub poll : ℕ → ℕ → PollEnd
  poll zero attempt = elim (around.inspect_readiness attempt) [
    | err e ↦ inspection_failed e
    | ok r ↦ inspected r (is_ready r)
  ]
  poll (suc more) attempt =
      let rest = poll more (attempt + 1) in
      elim (around.inspect_readiness attempt) [
        | err e ↦ inspection_failed e
        | ok r ↦ if is_ready r then inspected r true else rest
      ]

  -- The checks of `ingest`; they give the identifiers that it resumes from.
  unfoldable pub prepare : Option IngestionCheckpoint → Result IngestionFailure (List ℕ)
  unfolding validate_checkpoint report_of
  prepare resume_from = do
    raise_if (is_blank namespace) value_error
    raise_if (is_empty_corpus corpus.documents) value_error
    resumed_ids ← validate_checkpoint resume_from
    raise_if (not (around.dimensions == corpus.manifest.embedding.dimensions))
        (embedding_dimension_mismatch (report_of failed [] [] 0 none))
    ok resumed_ids

  -- The documents that are not resumed, in batches.
  abbrev pub pending_batches : List ℕ → List Batch
  pending_batches resumed_ids =
      make_batches
        (keep (λ document. not (contains (document_uuid around corpus document) resumed_ids))
          corpus.documents)
        service.batch_size

  module _ (batches : List Batch) (resumed : ℕ) where
    -- `self._emit(on_progress, self._progress(...))`
    abbrev pub announce : IngestionState → Ingesting → Ingesting
    announce state now = record now {
      progress = now.progress ++ progress_of batches now.completed state resumed ∷ [];
    }

    -- The observer may raise, and then `ingest` does.
    abbrev pub told :
        {A : Type 0} → (Ingesting → A) → IngestionState → Ingesting → (Ingesting → A) → A
    told raised state now more =
        returned_or (around.on_progress (progress_of batches now.completed state resumed))
          (raised (announce state now)) (more (announce state now))

    abbrev pub failure_report : Ingesting → IngestionReport
    failure_report now = report_of failed batches now.completed resumed none

    abbrev pub add_result : BatchResult → Ingesting → Ingesting
    add_result result now = record now {
      completed = now.completed ++ result ∷ [];
      checkpoint_ids = add_ids result.document_ids now.checkpoint_ids;
    }

    -- `on_checkpoint(self._checkpoint(...))`, and whether it returned. An observer that raises was
    -- handed the checkpoint too.
    abbrev pub checkpointed : Option (IngestionCheckpoint → Bool) → Ingesting → Bool × Ingesting
    checkpointed none now = (true, now)
    checkpointed (some observe) now =
        let checkpoint = checkpoint_of now.checkpoint_ids in
        (observe checkpoint, record now { handed = now.handed ++ checkpoint ∷ [] })

    -- The `for` over the outcomes of a wave.
    unfoldable pub settle_wave : List BatchOutcome → Option BatchOutcome → Ingesting → WaveEnd
    settle_wave [] first now = settled first now
    settle_wave (batch_cancelled ∷ rest) first now = stopped cancelled now
    settle_wave (written result ∷ rest) first now =
        let observed = checkpointed around.on_checkpoint (add_result result now) in
        elim observed.0 [
          | false ↦ stopped (batch_write_error (failure_report observed.1)) observed.1
          | true ↦ told (stopped observer_error) ingesting observed.1 (settle_wave rest first)
        ]
    settle_wave (count_error ∷ rest) first now = settle_wave rest (first_of first count_error) now
    settle_wave (dimension_error ∷ rest) first now =
        settle_wave rest (first_of first dimension_error) now
    settle_wave (component_error ∷ rest) first now =
        settle_wave rest (first_of first component_error) now
    settle_wave (other_error ∷ rest) first now = settle_wave rest (first_of first other_error) now

    abbrev failure_of : BatchOutcome → IngestionReport → IngestionFailure
    failure_of count_error report = embedding_count_mismatch report
    failure_of dimension_error report = embedding_dimension_mismatch report
    failure_of component_error report = embedding_value_mismatch report
    failure_of _ report = batch_write_error report

    abbrev pub after_wave : (Ingesting → WaveEnd) → WaveEnd → WaveEnd
    after_wave more (stopped failure now) = stopped failure now
    after_wave more (settled none now) = more now
    after_wave more (settled (some first) now) = stopped (failure_of first (failure_report now)) now

    unfoldable pub run_waves : List (List Batch) → Ingesting → WaveEnd
    unfolding settle_wave
    run_waves [] now = settled none now
    run_waves (wave ∷ waves) now =
        after_wave (run_waves waves) (settle_wave (map (ingest_batch around corpus) wave) none now)

    abbrev pub observer_raised : Ingesting → Ended
    observer_raised = with_result (err observer_error)

    abbrev pub verified : Ingesting → PollEnd → Ended
    verified now (inspection_failed cancellation) = record { done = now; result = err cancelled }
    verified now (inspection_failed exception) = record {
      done = now;
      result = err (readiness_error (failure_report now));
    }
    verified now (inspected readiness true) =
        told observer_raised ready now
          (with_result (ok (report_of ready batches now.completed resumed (some readiness))))
    verified now (inspected readiness false) = told observer_raised failed now (
        with_result
          (err (readiness_error (report_of failed batches now.completed resumed (some readiness)))))

    abbrev pub after_waves : WaveEnd → Ended
    after_waves (stopped failure now) = record { done = now; result = err failure }
    after_waves (settled first now) =
        told observer_raised verifying now
          λ told_now. verified told_now (poll (service.readiness_attempts - 1) 0)

  abbrev pub start_from : List ℕ → Ingesting
  start_from resumed_ids = record {
    completed = [];
    checkpoint_ids = resumed_ids;
    handed = [];
    progress = [];
  }

  abbrev pub ingest_from : List ℕ → Ended
  ingest_from resumed_ids =
      let batches = pending_batches resumed_ids in
      let resumed = length resumed_ids in
      told batches resumed (observer_raised batches resumed) ingesting (start_from resumed_ids)
        λ now.
          after_waves batches resumed
            (run_waves batches resumed (chunks service.max_concurrency batches) now)

  abbrev pub prepared : Result IngestionFailure (List ℕ) → Ended
  prepared (err failure) = record { done = start_from []; result = err failure }
  prepared (ok resumed_ids) = ingest_from resumed_ids

  unfoldable pub ingest : Option IngestionCheckpoint → Ended
  unfolding prepare run_waves poll report_of
  ingest resume_from = prepared (prepare resume_from)
