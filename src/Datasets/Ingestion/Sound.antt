-- ===== src/Datasets/Ingestion/Sound.antt =====
-- What is true of the local state of `ingest` at each step: its identifiers and its checkpoints.
use Prim.Native.String.{String}
use text.Mathlib.TextPositions.{eq_refl}
use pufferlab.Prelude.{
  ℕ, ◌≡◌, refl, ◌∙◌, Bool, true, ◌||◌, Option, none, some, List, [], ◌∷◌, ◌++◌, ltb, contains,
  distinct, every, All, All-map, All-append, arith,
}
use pufferlab.Prelude.Result.{ok}
use pufferlab.Prelude.Sort.{sort}
use pufferlab.Prelude.Increasing.{is_increasing, sort-increasing, every-sort, distinct-sort}
use pufferlab.Datasets.Models.{FixtureCorpus}
use pufferlab.Datasets.Ingestion.{
  BatchResult, IngestionCheckpoint, IngestionState, BatchOutcome, written, Surroundings,
  IngestionService, Batch, is_subset,
}
use pufferlab.Datasets.Ingestion.State.{Ingesting}
use pufferlab.Datasets.Ingestion.Service.{
  expected_document_ids, schema_hash_of, validate_checkpoint, checkpoint_of, announce, add_result,
  checkpointed,
}
use pufferlab.Datasets.Ingestion.Counts.{result_ids}
use pufferlab.Datasets.Ingestion.IdSets.{
  distinct-add_ids, every-add_ids, every-weaken, every-own, result_ids-append,
}

module _ {F C : Type 0} (around : Surroundings F C) (service : IngestionService)
    (corpus : FixtureCorpus F) (namespace : String) where
  abbrev pub expected : List ℕ
  expected = expected_document_ids around service corpus namespace

  -- A checkpoint from which the same ingestion starts, and whose documents were resumed or are
  -- named by a result.
  pub record IsResumable (resumed_ids : List ℕ) (completed : List BatchResult)
      (checkpoint : IngestionCheckpoint) : Type 0 where
    pub accepted :
        validate_checkpoint around service corpus namespace (some checkpoint)
        ≡ ok checkpoint.completed_document_ids
    pub ordered : is_increasing checkpoint.completed_document_ids ≡ true
    pub backed :
        every
          (λ id. contains id resumed_ids || contains id (result_ids completed))
          checkpoint.completed_document_ids
        ≡ true

  validate-checkpoint_of :
      (ids : List ℕ)
      → distinct ids ≡ true
      → is_subset ids expected ≡ true
      → validate_checkpoint around service corpus namespace
          (some (checkpoint_of around service corpus namespace ids))
        ≡ ok (sort ltb ids)
  unfolding validate_checkpoint
  validate-checkpoint_of ids once known =
      rw
        (
          eq_refl namespace,
          eq_refl corpus.manifest.version,
          eq_refl corpus.corpus_hash,
          eq_refl (schema_hash_of around service corpus namespace),
          distinct-sort ids once,
          every-sort (λ id. contains id expected) ids ∙ known,
        )
        refl

  module _ (resumed_ids : List ℕ) where
    abbrev pub is_backed : List BatchResult → ℕ → Bool
    is_backed completed id = contains id resumed_ids || contains id (result_ids completed)

    pub record IsSound (now : Ingesting) : Type 0 where
      pub once : distinct now.checkpoint_ids ≡ true
      pub known : is_subset now.checkpoint_ids expected ≡ true
      pub backed : every (is_backed now.completed) now.checkpoint_ids ≡ true
      pub handed : All (IsResumable resumed_ids now.completed) now.handed

    -- The results of a batch name documents of the corpus.
    abbrev pub IsNamed : BatchOutcome → Type 0
    IsNamed (written result) = is_subset result.document_ids expected ≡ true
    IsNamed _ = Unit {0}

    IsResumable-more :
        (completed : List BatchResult) (result : BatchResult) (checkpoint : IngestionCheckpoint)
        → IsResumable resumed_ids completed checkpoint
        → IsResumable resumed_ids (completed ++ result ∷ []) checkpoint
    IsResumable-more completed result checkpoint h = record {
      accepted = h.accepted;
      ordered = h.ordered;
      backed =
          every-weaken (is_backed completed) (is_backed (completed ++ result ∷ []))
            (λ id e. ground (arith, result_ids-append id completed result))
            checkpoint.completed_document_ids h.backed;
    }

    module _ (batches : List Batch) (resumed : ℕ) where
      abbrev pub added : BatchResult → Ingesting → Ingesting
      added result now = add_result around service corpus namespace batches resumed result now

      pub added-IsSound :
          (result : BatchResult) (now : Ingesting)
          → is_subset result.document_ids expected ≡ true
          → IsSound now
          → IsSound (added result now)
      added-IsSound result now named s =
          let more = now.completed ++ result ∷ [] in
          record {
            once = distinct-add_ids result.document_ids now.checkpoint_ids s.once;
            known =
                every-add_ids (λ id. contains id expected) result.document_ids now.checkpoint_ids
                  named s.known;
            backed =
                every-add_ids (is_backed more) result.document_ids now.checkpoint_ids
                  (every-weaken (λ id. contains id result.document_ids) (is_backed more)
                    (λ id e. ground (arith, result_ids-append id now.completed result))
                    result.document_ids (every-own result.document_ids))
                  (every-weaken (is_backed now.completed) (is_backed more)
                    (λ id e. ground (arith, result_ids-append id now.completed result))
                    now.checkpoint_ids s.backed);
            handed = All-map (IsResumable-more now.completed result) now.handed s.handed;
          }

      pub announced-IsSound :
          (state : IngestionState) (now : Ingesting)
          → IsSound now
          → IsSound (announce around service corpus namespace batches resumed state now)
      announced-IsSound state now s = record {
        once = s.once;
        known = s.known;
        backed = s.backed;
        handed = s.handed;
      }

      pub checkpointed-IsSound :
          (observer : Option (IngestionCheckpoint → Bool)) (now : Ingesting)
          → IsSound now
          → IsSound (checkpointed around service corpus namespace batches resumed observer now).1
      checkpointed-IsSound none now s = s
      checkpointed-IsSound (some observe) now s =
          let checkpoint = checkpoint_of around service corpus namespace now.checkpoint_ids in
          let resumable : IsResumable resumed_ids now.completed checkpoint = record {
            accepted = validate-checkpoint_of now.checkpoint_ids s.once s.known;
            ordered = sort-increasing now.checkpoint_ids s.once;
            backed = every-sort (is_backed now.completed) now.checkpoint_ids ∙ s.backed;
          } in
          record {
            once = s.once;
            known = s.known;
            backed = s.backed;
            handed =
                All-append (IsResumable resumed_ids now.completed) now.handed (checkpoint ∷ [])
                  s.handed (resumable, tt);
          }
