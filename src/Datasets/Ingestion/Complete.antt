-- ===== src/Datasets/Ingestion/Complete.antt =====
-- An ingestion that reports readiness accounts for every document of the corpus.
use Prim.Native.String.{String}
use pufferlab.Prelude.{ℕ, ◌≡◌, true, not, ◌||◌, Option, some, List, length, keep, contains, All}
use pufferlab.Prelude.Result.{Result}
use pufferlab.Prelude.Chunks.{chunks}
use pufferlab.Datasets.Models.{SourceDocument, FixtureCorpus}
use pufferlab.Datasets.Ingestion.{
  NamespaceReadiness, IngestionCheckpoint, IngestionReport, ingesting, ready, BatchOutcome,
  Surroundings, IngestionService, is_valid_service, Batch,
}
use pufferlab.Datasets.Ingestion.State.{Ingesting, WaveEnd, settled}
use pufferlab.Datasets.Ingestion.Batch.{document_uuid}
use pufferlab.Datasets.Ingestion.Service.{
  is_ready, report_of, pending_batches, announce, run_waves, start_from,
}
use pufferlab.Datasets.Ingestion.Counts.{result_ids}
use pufferlab.Datasets.Ingestion.Prepared.{resumed_ids_of}

module _ {F C : Type 0} (around : Surroundings F C) (service : IngestionService)
    (corpus : FixtureCorpus F) (namespace : String) where
  pub record IsComplete (resume_from : Option IngestionCheckpoint) (report : IngestionReport)
      : Type 0 where
    pub state : report.state ≡ ready
    pub seen :
        (r : NamespaceReadiness) × (report.readiness ≡ some r)
        × (is_ready around service corpus namespace r ≡ true)
    pub counted : report.documents_completed ≡ length corpus.documents
    pub total : report.documents_total ≡ length corpus.documents
    pub each :
        All
          (λ document.
            (contains (document_uuid around corpus document) (resumed_ids_of resume_from)
              || contains (document_uuid around corpus document) (result_ids report.batch_results))
            ≡ true)
          corpus.documents

  -- What a report of readiness was made of.
  record Made (batches : List Batch) (resumed : ℕ) (end : WaveEnd) (report : IngestionReport)
      : Type 0 where
    first : Option BatchOutcome
    now : Ingesting
    readiness : NamespaceReadiness
    waves : end ≡ settled first now
    seen : is_ready around service corpus namespace readiness ≡ true
    report_is :
        report
        ≡ report_of around service corpus namespace ready batches now.completed resumed
            (some readiness)

  module _ (valid : is_valid_service service ≡ true) (ids : List ℕ) where
    -- The documents that are not resumed.
    abbrev pending : List SourceDocument
    pending =
        keep (λ document. not (contains (document_uuid around corpus document) ids))
          corpus.documents

    abbrev batches_of : List Batch
    batches_of = pending_batches around service corpus namespace ids

    abbrev waves_of : WaveEnd
    waves_of =
        run_waves around service corpus namespace batches_of (length ids)
          (chunks service.max_concurrency batches_of)
          (announce around service corpus namespace batches_of (length ids) ingesting
            (start_from around service corpus namespace ids))
