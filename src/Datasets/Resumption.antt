-- ===== src/Datasets/Resumption.antt =====
-- The checkpoints that `ingest` hands to its observer are what the checkpoint store accepts, and
-- what it loads is what a later `ingest` resumes from.
use Prim.Native.String.{String}
use text.Mathlib.TextEquality.{eq_iff}
use pufferlab.Prelude.{
  ℕ, ◌≡◌, refl, sym, ap, ◌∙◌, true, false, Option, some, List, [], ◌∷◌, All, All-map, ltb, distinct,
  every, same_list, arith,
}
use pufferlab.Prelude.Result.{ok}
use pufferlab.Prelude.Sort.{sort, insert_sorted}
use pufferlab.Prelude.Increasing.{is_increasing}
use pufferlab.Prelude.Text.{is_blank}
use pufferlab.Datasets.Models.{FixtureCorpus}
use pufferlab.Datasets.Ingestion.{
  IngestionCheckpoint, Surroundings, IngestionService, is_valid_service,
}
use pufferlab.Datasets.Ingestion.Service.{validate_checkpoint, schema_hash_of, ingest}
use pufferlab.Datasets.Ingestion.Prepared.{resumed_ids_of}
use pufferlab.Datasets.Ingestion.Sound.{IsResumable}
use pufferlab.Datasets.Ingestion.Resumable.{ingest-IsResumable}
use pufferlab.Datasets.Checkpoints.{
  CheckpointCodec, IsFaithfulCodec, Files, IsSaved, is_hash, is_valid_payload, payload_of, save,
  save-IsSaved,
}

same_list_refl : (xs : List ℕ) → same_list xs xs ≡ true
same_list_refl [] = refl
same_list_refl (x ∷ xs) = ground (arith, same_list_refl xs)

insert_sorted-front :
    (x : ℕ) (ys : List ℕ) → every (ltb x) ys ≡ true → insert_sorted ltb x ys ≡ x ∷ ys
unfolding insert_sorted
insert_sorted-front x [] h = refl
insert_sorted-front x (y ∷ ys) h = ground arith

sort-of_increasing : (xs : List ℕ) → is_increasing xs ≡ true → sort ltb xs ≡ xs
unfolding sort
sort-of_increasing [] h = refl
sort-of_increasing (x ∷ xs) h =
    ap (insert_sorted ltb x) (sort-of_increasing xs (ground arith))
    ∙ insert_sorted-front x xs (ground arith)

same_list-sort : (xs : List ℕ) → is_increasing xs ≡ true → same_list xs (sort ltb xs) ≡ true
same_list-sort xs h = ap (same_list xs) (sort-of_increasing xs h) ∙ same_list_refl xs

module _ {F C T : Type 0} (around : Surroundings F C) (service : IngestionService)
    (corpus : FixtureCorpus F) (namespace : String) (c : CheckpointCodec T)
    (faithful : IsFaithfulCodec c) where
  -- The store keeps the checkpoint, and a later ingestion accepts what the store loads.
  pub record IsDurable (checkpoint : IngestionCheckpoint) : Type 0 where
    pub saved :
        (files : Files T) → IsSaved c faithful checkpoint files (save c true checkpoint files)
    pub accepted :
        validate_checkpoint around service corpus namespace (some (payload_of c checkpoint))
        ≡ ok checkpoint.completed_document_ids

  -- The texts of the corpus are what the models of a dataset pack ask for.
  pub record HasHashes : Type 0 where
    pub named : is_blank namespace ≡ false
    pub versioned : is_blank corpus.manifest.version ≡ false
    pub corpus_hash : is_hash corpus.corpus_hash ≡ true
    pub schema_hash : is_hash (schema_hash_of around service corpus namespace) ≡ true

  record Matches (checkpoint : IngestionCheckpoint) : Type 0 where
    format : checkpoint.format_version ≡ 1
    named : checkpoint.namespace ≡ namespace
    versioned : checkpoint.dataset_version ≡ corpus.manifest.version
    corpus_hash : checkpoint.corpus_hash ≡ corpus.corpus_hash
    schema_hash : checkpoint.schema_hash ≡ schema_hash_of around service corpus namespace
    once : distinct checkpoint.completed_document_ids ≡ true

  validate_checkpoint-Matches :
      (checkpoint : IngestionCheckpoint) (ids : List ℕ)
      → validate_checkpoint around service corpus namespace (some checkpoint) ≡ ok ids
      → Matches checkpoint
  unfolding validate_checkpoint
  validate_checkpoint-Matches checkpoint ids h = record {
    format = ground arith;
    named = (eq_iff checkpoint.namespace namespace).0 (ground arith);
    versioned = (eq_iff checkpoint.dataset_version corpus.manifest.version).0 (ground arith);
    corpus_hash = (eq_iff checkpoint.corpus_hash corpus.corpus_hash).0 (ground arith);
    schema_hash =
        (eq_iff checkpoint.schema_hash (schema_hash_of around service corpus namespace)).0
          (ground arith);
    once = ground arith;
  }

  Matches-valid :
      (checkpoint : IngestionCheckpoint)
      → HasHashes
      → Matches checkpoint
      → is_increasing checkpoint.completed_document_ids ≡ true
      → is_valid_payload (payload_of c checkpoint) ≡ true
  unfolding is_valid_payload
  Matches-valid checkpoint hashes m ordered =
      rw
        (
          m.named,
          m.versioned,
          m.corpus_hash,
          m.schema_hash,
          hashes.named,
          hashes.versioned,
          hashes.corpus_hash,
          hashes.schema_hash,
          m.once,
          same_list-sort checkpoint.completed_document_ids ordered,
        )
        refl

  IsResumable-IsDurable :
      (resumed_ids : List ℕ) (resume_from : Option IngestionCheckpoint)
      → HasHashes
      → (checkpoint : IngestionCheckpoint)
      → IsResumable around service corpus namespace resumed_ids
          (ingest around service corpus namespace resume_from).done.completed
          checkpoint
      → IsDurable checkpoint
  IsResumable-IsDurable resumed_ids resume_from hashes checkpoint r =
      let m = validate_checkpoint-Matches checkpoint checkpoint.completed_document_ids r.accepted in
      record {
        saved = λ files.
            save-IsSaved c faithful checkpoint files (Matches-valid checkpoint hashes m r.ordered);
        accepted =
            ap
              (λ version.
                validate_checkpoint around service corpus namespace
                  (some (record checkpoint { format_version = version })))
              (sym m.format)
            ∙ r.accepted;
      }

  -- Every checkpoint that an ingestion hands to its observer, which may raise at the last of them,
  -- is saved by the checkpoint store when the disk works, is then loaded as it was, leaves the
  -- other files as they were, and is accepted by the same ingestion as the checkpoint to resume
  -- from, with its own documents. This holds however the ingestion ends. The service is valid, the
  -- namespace and the version are not blank, the hashes have their form, and a written payload is
  -- read back.
  pub ingest-IsDurable :
      (resume_from : Option IngestionCheckpoint)
      → is_valid_service service ≡ true
      → HasHashes
      → All IsDurable (ingest around service corpus namespace resume_from).done.handed
  ingest-IsDurable resume_from valid hashes =
      All-map (IsResumable-IsDurable (resumed_ids_of resume_from) resume_from hashes)
        (ingest around service corpus namespace resume_from).done.handed
        (ingest-IsResumable around service corpus namespace resume_from valid)
