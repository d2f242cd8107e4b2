-- ===== src/Examples/Datasets.antt =====
-- A corpus of three documents, ingested two at a time, and the checkpoints of that ingestion.
use Prim.Native.String.{String}
use text.Mathlib.Text.{◌==◌ as str_eq}
use pufferlab.Prelude.{
  ℕ, ◌≡◌, refl, ◌==◌, true, false, none, some, List, [], ◌∷◌, All, arith, if◌then◌else◌, map,
}
use pufferlab.Prelude.Result.{Result, ok, err}
use pufferlab.Prelude.Sort.{sort}
use pufferlab.Prelude.Text.{is_blank}
use pufferlab.Datasets.Models.{
  FtsAttribute, DistanceMetric, VectorDtype, DatasetManifest, SourceDocument, FixtureCorpus,
}
use pufferlab.Datasets.Ingestion.{
  IngestionCheckpoint, IngestionReport, IngestionFailure, Surroundings, IngestionService,
  IngestionState, make_batches, observer_error,
}
use pufferlab.Datasets.Ingestion.Batch.{ingest_batch}
use pufferlab.Datasets.Ingestion.Batches.{IsPartition, make_batches-IsPartition}
use pufferlab.Datasets.Ingestion.Service.{ingest}
use pufferlab.Datasets.Checkpoints.{
  CheckpointCodec, IsFaithfulCodec, IsSaved, is_hash, is_valid_payload, save, save-IsSaved,
}
use pufferlab.Datasets.Resumption.{IsDurable, HasHashes, ingest-IsDurable}

abbrev document : String → SourceDocument
document id = record {
  external_id = id;
  title = "t";
  body = "b";
  source_url = "https://x";
  attributes = "{}";
}

abbrev documents : List SourceDocument
documents = document "c" ∷ document "a" ∷ document "b" ∷ []

abbrev manifest : DatasetManifest ℕ
manifest = record {
  slug = "unix";
  version = "v1";
  title = "Unix";
  license = "mit";
  source_url = "https://x";
  embedding = record { model = "m"; revision = "r"; dimensions = 1 };
  vector = record {
    attribute = "vector";
    dtype = VectorDtype.f32;
    distance_metric = DistanceMetric.cosine_distance;
  };
  fts = record {
    attributes = FtsAttribute.title_text ∷ [];
    tokenizer = "word";
    case_sensitive = false;
    language = "english";
    stemming = true;
    remove_stopwords = true;
    ascii_folding = false;
    max_token_length = 39;
    k1 = 1;
    b = 1;
    k3 = 1;
  };
}

abbrev hash : String
hash = "0123456789abcdef0123456789abcdef0123456789abcdef0123456789abcdef"

abbrev corpus : FixtureCorpus ℕ
corpus = record { manifest = manifest; documents = documents; queries = []; corpus_hash = hash }

abbrev identifier : String → ℕ
identifier name = if str_eq name "v1:a" then 30 else if str_eq name "v1:b" then 20 else 10

abbrev around : Surroundings ℕ ℕ
around = record {
  uuid5 = identifier;
  schema_hash = λ spec. hash;
  float = some;
  is_finite = λ x. true;
  dimensions = 1;
  embed = λ index texts. ok (map (λ text. 7 ∷ []) texts);
  upsert_batch = λ index embedded. ok tt;
  inspect_readiness = λ attempt. ok (record {
    document_count = 3;
    document_ids = 10 ∷ 20 ∷ 30 ∷ [];
    schema_hash = hash;
    metadata_ready = true;
    indexes_ready = true;
  });
  on_checkpoint = some (λ checkpoint. true);
  on_progress = λ progress. true;
}

abbrev service : IngestionService
service = record { batch_size = 1; max_concurrency = 2; readiness_attempts = 2 }

abbrev report_in : Result IngestionFailure IngestionReport → IngestionReport
report_in (ok report) = report
report_in (err failure) = record {
  namespace = "";
  dataset_version = "";
  corpus_hash = "";
  schema_hash = "";
  state = IngestionState.failed;
  batches_total = 0;
  batches_completed = 0;
  documents_total = 0;
  documents_completed = 0;
  batch_results = [];
  resumed_documents = 0;
  readiness = none;
}

-- One document was written before.
abbrev checkpoint : IngestionCheckpoint
checkpoint = record {
  format_version = 1;
  namespace = "ns";
  dataset_version = "v1";
  corpus_hash = hash;
  schema_hash = hash;
  completed_document_ids = 20 ∷ [];
}

abbrev report : IngestionReport
report = report_in (ingest around service corpus "ns" (some checkpoint)).result

make_batches-IsPartition_example : IsPartition documents 2 (make_batches documents 2)
make_batches-IsPartition_example = make_batches-IsPartition documents 2 (omega arith)

two_handed :
    map
      (λ (c : IngestionCheckpoint). c.completed_document_ids)
      (ingest around service corpus "ns" (some checkpoint)).done.handed
    ≡ (20 ∷ 30 ∷ []) ∷ (10 ∷ 20 ∷ 30 ∷ []) ∷ []
unfolding ingest make_batches ingest_batch is_blank
two_handed = refl

-- An observer that raises at once was handed the first checkpoint.
abbrev refusing : Surroundings ℕ ℕ
refusing = record around { on_checkpoint = some (λ checkpoint. false) }

one_handed :
    map
      (λ (c : IngestionCheckpoint). c.completed_document_ids)
      (ingest refusing service corpus "ns" (some checkpoint)).done.handed
    ≡ (20 ∷ 30 ∷ []) ∷ []
unfolding ingest make_batches ingest_batch is_blank
one_handed = refl

-- An observer of progress that raises after the first batch ends the ingestion.
abbrev raising : Surroundings ℕ ℕ
raising = record around { on_progress = λ progress. progress.batches_completed == 0 }

raising-error : (ingest raising service corpus "ns" (some checkpoint)).result ≡ err observer_error
unfolding ingest make_batches ingest_batch is_blank
raising-error = refl

abbrev plain_text : CheckpointCodec IngestionCheckpoint
plain_text = record { dump = λ p. p; parse = some; digest = λ a b c d. 1 }

plain_text-IsFaithful : IsFaithfulCodec plain_text
plain_text-IsFaithful = record { parse-dump = λ p valid. refl }

has_hashes : HasHashes around service corpus "ns" plain_text plain_text-IsFaithful
unfolding is_hash is_blank
has_hashes = record { named = refl; versioned = refl; corpus_hash = refl; schema_hash = refl }

save-IsSaved_example :
    IsSaved plain_text plain_text-IsFaithful checkpoint [] (save plain_text true checkpoint [])
unfolding is_valid_payload is_blank is_hash sort
save-IsSaved_example = save-IsSaved plain_text plain_text-IsFaithful checkpoint [] refl

ingest-IsDurable_example :
    All
      (IsDurable around service corpus "ns" plain_text plain_text-IsFaithful)
      (ingest around service corpus "ns" (some checkpoint)).done.handed
ingest-IsDurable_example =
    ingest-IsDurable around service corpus "ns" plain_text plain_text-IsFaithful (some checkpoint)
      refl has_hashes
