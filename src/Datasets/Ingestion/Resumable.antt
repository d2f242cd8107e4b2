-- ===== src/Datasets/Ingestion/Resumable.antt =====
-- Every checkpoint that an ingestion hands out can be resumed from.
use Prim.Native.String.{String}
use mathlib.Core.Path.{subst}
use pufferlab.Prelude.{
  ℕ, ◌≡◌, refl, sym, true, not, Option, List, [], ◌∷◌, map, keep, contains, All, All-keep, arith,
  length,
}
use pufferlab.Prelude.Result.{Result, ok, err}
use pufferlab.Prelude.Sort.{sort-All}
use pufferlab.Prelude.Subsets.{contains-own_key}
use pufferlab.Prelude.Chunks.{chunks, concat-chunks, All-concat}
use pufferlab.Datasets.Models.{SourceDocument, FixtureCorpus}
use pufferlab.Datasets.Ingestion.{
  IngestionCheckpoint, ingesting, IngestionFailure, Surroundings, IngestionService,
  is_valid_service, Batch, by_external_id,
}
use pufferlab.Datasets.Ingestion.State.{Ended}
use pufferlab.Datasets.Ingestion.Batch.{document_uuid}
use pufferlab.Datasets.Ingestion.Service.{
  prepare, pending_batches, observer_raised, run_waves, after_waves, start_from, ingest_from,
  prepared, ingest,
}
use pufferlab.Datasets.Ingestion.Batches.{batched, make_batches-IsPartition}
use pufferlab.Datasets.Ingestion.Prepared.{resumed_ids_of, Resumes, prepare-Resumes}
use pufferlab.Datasets.Ingestion.Sound
use pufferlab.Datasets.Ingestion.Sound.{
  IsResumable, expected, announced-IsSound, added-IsSound, checkpointed-IsSound,
}
use pufferlab.Datasets.Ingestion.Steps.{
  IsKnown, IsSound, told-IsSound, run_waves-IsSound, after_waves-IsSound,
}
use pufferlab.Datasets.Ingestion.IdSets.{every-weaken, every-own}

All-documents :
    (P : SourceDocument → Type 0) (bs : List Batch)
    → All (All P) (map (λ batch. batch.1) bs)
    → All (λ batch. All P batch.1) bs
All-documents P [] h = tt
All-documents P (b ∷ bs) h = (h.0, All-documents P bs h.1)

module _ {F C : Type 0} (around : Surroundings F C) (service : IngestionService)
    (corpus : FixtureCorpus F) (namespace : String) where
  module _ (valid : is_valid_service service ≡ true) (ids : List ℕ) where
    abbrev batches_of : List Batch
    batches_of = pending_batches around service corpus namespace ids

    abbrev InCorpus : SourceDocument → Type 0
    InCorpus d =
        contains (document_uuid around corpus d) (expected around service corpus namespace) ≡ true

    IsKnown-batches :
        All (IsKnown around service corpus namespace ids batches_of (length ids)) batches_of
    IsKnown-batches =
        let kept =
          keep (λ d. not (contains (document_uuid around corpus d) ids)) corpus.documents in
        let whole = (make_batches-IsPartition kept service.batch_size (ground arith)).whole in
        let all : All InCorpus (batched batches_of) = subst (All InCorpus) (sym whole) (
          sort-All by_external_id InCorpus kept (
            All-keep InCorpus _ corpus.documents
              (contains-own_key (document_uuid around corpus) corpus.documents))) in
        All-documents InCorpus batches_of
          (All-concat InCorpus (map (λ batch. batch.1) batches_of) all)

    IsKnown-waves :
        All
          (All (IsKnown around service corpus namespace ids batches_of (length ids)))
          (chunks service.max_concurrency batches_of)
    IsKnown-waves =
        All-concat (IsKnown around service corpus namespace ids batches_of (length ids))
          (chunks service.max_concurrency batches_of)
          (subst (All (IsKnown around service corpus namespace ids batches_of (length ids)))
            (sym (concat-chunks service.max_concurrency batches_of (ground arith))) IsKnown-batches)

    start-IsSound :
        (resume_from : Option IngestionCheckpoint)
        → Resumes around service corpus namespace resume_from ids
        → IsSound around service corpus namespace ids batches_of
            (length ids)
            (start_from around service corpus namespace ids)
    start-IsSound resume_from r = record {
      once = r.once;
      known = r.known;
      backed =
          every-weaken (λ id. contains id ids)
            (Sound.is_backed around service corpus namespace ids []) (λ id e. ground arith) ids
            (every-own ids);
      handed = tt;
    }

    ingest_from-IsSound :
        (resume_from : Option IngestionCheckpoint)
        → Resumes around service corpus namespace resume_from ids
        → IsSound around service corpus namespace ids batches_of
            (length ids)
            (ingest_from around service corpus namespace ids).done
    ingest_from-IsSound resume_from r =
        told-IsSound around service corpus namespace ids batches_of (length ids)
          (λ (end : Ended). end.done)
          (observer_raised around service corpus namespace batches_of (length ids))
          (λ next. after_waves around service corpus namespace batches_of (length ids) (
            run_waves around service corpus namespace batches_of (length ids)
              (chunks service.max_concurrency batches_of) next))
          ingesting (start_from around service corpus namespace ids) (start-IsSound resume_from r)
          (λ next t. t)
          (λ next t.
            after_waves-IsSound around service corpus namespace ids batches_of (length ids)
              (run_waves around service corpus namespace batches_of (length ids)
                (chunks service.max_concurrency batches_of) next)
              (run_waves-IsSound around service corpus namespace ids batches_of (length ids)
                (chunks service.max_concurrency batches_of) next IsKnown-waves t))

  prepared-IsResumable :
      (resume_from : Option IngestionCheckpoint) (found : Result IngestionFailure (List ℕ))
      → is_valid_service service ≡ true
      → prepare around service corpus namespace resume_from ≡ found
      → All
          (IsResumable around service corpus namespace
            (resumed_ids_of resume_from)
            (prepared around service corpus namespace found).done.completed)
          (prepared around service corpus namespace found).done.handed
  prepared-IsResumable resume_from (err failure) valid e = tt
  prepared-IsResumable resume_from (ok ids) valid e =
      let r = prepare-Resumes around service corpus namespace resume_from ids e in
      let ended = ingest_from around service corpus namespace ids in
      subst
        (λ chosen.
          All (IsResumable around service corpus namespace chosen ended.done.completed)
            ended.done.handed)
        r.same (ingest_from-IsSound valid ids resume_from r).handed

  pub ingest-IsResumable :
      (resume_from : Option IngestionCheckpoint)
      → is_valid_service service ≡ true
      → All
          (IsResumable around service corpus namespace
            (resumed_ids_of resume_from)
            (ingest around service corpus namespace resume_from).done.completed)
          (ingest around service corpus namespace resume_from).done.handed
  unfolding ingest
  ingest-IsResumable resume_from valid =
      prepared-IsResumable resume_from (prepare around service corpus namespace resume_from) valid
        refl
