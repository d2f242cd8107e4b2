-- ===== src/Datasets/Ingestion/Steps.antt =====
-- The loops of `ingest` keep its local state sound.
use Prim.Native.String.{String}
use pufferlab.Prelude.{
  ℕ, ◌-◌, ◌≡◌, refl, Bool, true, false, Option, none, some, List, [], ◌∷◌, map, contains, All,
}
use pufferlab.Prelude.Result.{ok, err}
use pufferlab.Datasets.Models.{SourceDocument, FixtureCorpus}
use pufferlab.Datasets.Ingestion.{
  BatchResult, IngestionState, ingesting, verifying, Interruption, BatchOutcome, written,
  batch_cancelled, count_error, dimension_error, component_error, other_error, Surroundings,
  IngestionService, Batch, is_subset, batch_write_error, observer_error, readiness_error,
}
use pufferlab.Datasets.Ingestion.State.{
  Ingesting, Ended, returned_or, WaveEnd, settled, stopped, PollEnd, inspected, inspection_failed,
  first_of,
}
use pufferlab.Datasets.Ingestion.Batch.{document_uuid, ingest_batch}
use pufferlab.Datasets.Ingestion.Service.{
  announce, told, observer_raised, failure_report, checkpointed, settle_wave, after_wave, run_waves,
  verified, after_waves, poll, with_result, report_of,
}
use pufferlab.Datasets.Ingestion.Written.{is_written, result_of, ingest_batch-written}
use pufferlab.Datasets.Ingestion.Sound
use pufferlab.Datasets.Ingestion.Sound.{
  IsResumable, expected, announced-IsSound, added-IsSound, checkpointed-IsSound,
}

abbrev pub state_of : WaveEnd → Ingesting
state_of (settled first now) = now
state_of (stopped failure now) = now

written-injective : {a b : BatchResult} → written a ≡ written b → a ≡ b
written-injective h = cc

module _ {F C : Type 0} (around : Surroundings F C) (service : IngestionService)
    (corpus : FixtureCorpus F) (namespace : String) where
  module _ (resumed_ids : List ℕ) (batches : List Batch) (resumed : ℕ) where
    abbrev pub IsSound : Ingesting → Type 0
    IsSound = Sound.IsSound around service corpus namespace resumed_ids

    abbrev IsNamed : BatchOutcome → Type 0
    IsNamed = Sound.IsNamed around service corpus namespace resumed_ids

    abbrev added : BatchResult → Ingesting → Ingesting
    added = Sound.added around service corpus namespace resumed_ids batches resumed

    -- What follows a report of progress is sound if its two ends are.
    pub told-IsSound :
        {A : Type 0} (done : A → Ingesting) (raised more : Ingesting → A) (state : IngestionState)
        (now : Ingesting)
        → IsSound now
        → ((next : Ingesting) → IsSound next → IsSound (done (raised next)))
        → ((next : Ingesting) → IsSound next → IsSound (done (more next)))
        → IsSound
            (done (told around service corpus namespace batches resumed raised state now more))
    told-IsSound {A} done raised more state now s r m =
        let next = announce around service corpus namespace batches resumed state now in
        let here =
          announced-IsSound around service corpus namespace resumed_ids batches resumed state now
            s in
        choose (around.on_progress _) (raised next) (more next) (r next here) (m next here)
      where
        choose :
            (returned : Bool) (x y : A)
            → IsSound (done x)
            → IsSound (done y)
            → IsSound (done (returned_or returned x y))
        choose true x y p q = q
        choose false x y p q = p

    observed_wave-IsSound :
        (outcomes : List BatchOutcome) (first : Option BatchOutcome) (handed : Ingesting)
        (returned : Bool)
        → IsSound handed
        → ((next : Ingesting)
            → IsSound next
            → IsSound (
                state_of (
                  settle_wave around service corpus namespace batches resumed outcomes first next)))
        → IsSound (
            state_of (elim returned [
              | false ↦
                  stopped
                    (batch_write_error
                      (failure_report around service corpus namespace batches resumed handed))
                    handed
              | true ↦
                  told around service corpus namespace batches resumed
                    (stopped observer_error)
                    ingesting
                    handed
                    (settle_wave around service corpus namespace batches resumed outcomes first)
            ]))
    observed_wave-IsSound outcomes first handed false s more = s
    observed_wave-IsSound outcomes first handed true s more =
        told-IsSound state_of (stopped observer_error)
          (settle_wave around service corpus namespace batches resumed outcomes first) ingesting
          handed s (λ next t. t) more

    settle_wave-IsSound :
        (outcomes : List BatchOutcome) (first : Option BatchOutcome) (now : Ingesting)
        → All IsNamed outcomes
        → IsSound now
        → IsSound (
            state_of
              (settle_wave around service corpus namespace batches resumed outcomes first now))
    unfolding settle_wave
    settle_wave-IsSound [] first now named s = s
    settle_wave-IsSound (batch_cancelled ∷ rest) first now named s = s
    settle_wave-IsSound (written result ∷ rest) first now named s =
        let observed =
          checkpointed around service corpus namespace batches resumed around.on_checkpoint
            (added result now) in
        observed_wave-IsSound rest first observed.1 observed.0
          (checkpointed-IsSound around service corpus namespace resumed_ids batches resumed
            around.on_checkpoint (added result now)
            (added-IsSound around service corpus namespace resumed_ids batches resumed result now
              named.0 s))
          (λ next t. settle_wave-IsSound rest first next named.1 t)
    settle_wave-IsSound (count_error ∷ rest) first now named s =
        settle_wave-IsSound rest (first_of first count_error) now named.1 s
    settle_wave-IsSound (dimension_error ∷ rest) first now named s =
        settle_wave-IsSound rest (first_of first dimension_error) now named.1 s
    settle_wave-IsSound (component_error ∷ rest) first now named s =
        settle_wave-IsSound rest (first_of first component_error) now named.1 s
    settle_wave-IsSound (other_error ∷ rest) first now named s =
        settle_wave-IsSound rest (first_of first other_error) now named.1 s

    -- Every document of the batch is one of the corpus.
    abbrev pub IsKnown : Batch → Type 0
    IsKnown batch =
        All
          (λ d.
            contains (document_uuid around corpus d) (expected around service corpus namespace)
            ≡ true)
          batch.1

    known_ids :
        (documents : List SourceDocument)
        → All
            (λ d.
              contains (document_uuid around corpus d) (expected around service corpus namespace)
              ≡ true)
            documents
        → is_subset
            (map (document_uuid around corpus) documents)
            (expected around service corpus namespace)
          ≡ true
    known_ids [] h = refl
    known_ids (d ∷ documents) h = rw (h.0, known_ids documents h.1) refl

    outcome-IsNamed :
        (outcome : BatchOutcome) (batch : Batch)
        → (is_written outcome ≡ true → outcome ≡ written (result_of around corpus batch))
        → IsKnown batch
        → IsNamed outcome
    outcome-IsNamed (written result) batch same known =
        rw (written-injective (same refl)) (known_ids batch.1 known)
    outcome-IsNamed _ batch same known = tt

    wave-IsNamed :
        (wave : List Batch) → All IsKnown wave → All IsNamed (map (ingest_batch around corpus) wave)
    wave-IsNamed [] known = tt
    wave-IsNamed (batch ∷ wave) known = (
      outcome-IsNamed (ingest_batch around corpus batch) batch
          (ingest_batch-written around corpus batch) known.0,
      wave-IsNamed wave known.1,
    )

    after_wave-IsSound :
        (end : WaveEnd) (waves : List (List Batch))
        → IsSound (state_of end)
        → ((next : Ingesting)
            → IsSound next
            → IsSound
                (state_of (run_waves around service corpus namespace batches resumed waves next)))
        → IsSound (
            state_of (
              after_wave around service corpus namespace batches resumed
                (run_waves around service corpus namespace batches resumed waves)
                end))
    after_wave-IsSound (stopped failure now) waves s more = s
    after_wave-IsSound (settled none now) waves s more = more now s
    after_wave-IsSound (settled (some first) now) waves s more = s

    pub run_waves-IsSound :
        (waves : List (List Batch)) (now : Ingesting)
        → All (All IsKnown) waves
        → IsSound now
        → IsSound (state_of (run_waves around service corpus namespace batches resumed waves now))
    unfolding run_waves
    run_waves-IsSound [] now known s = s
    run_waves-IsSound (wave ∷ waves) now known s =
        after_wave-IsSound
          (settle_wave around service corpus namespace batches resumed
            (map (ingest_batch around corpus) wave) none now)
          waves
          (settle_wave-IsSound (map (ingest_batch around corpus) wave) none now
            (wave-IsNamed wave known.0) s)
          (λ next t. run_waves-IsSound waves next known.1 t)

    abbrev raised_end : Ingesting → Ended
    raised_end = observer_raised around service corpus namespace batches resumed

    verified-IsSound :
        (now : Ingesting) (end : PollEnd)
        → IsSound now
        → IsSound (verified around service corpus namespace batches resumed now end).done
    verified-IsSound now (inspection_failed Interruption.cancellation) s = s
    verified-IsSound now (inspection_failed Interruption.exception) s = s
    verified-IsSound now (inspected r true) s =
        told-IsSound (λ (end : Ended). end.done) raised_end
          (with_result (
            ok (
              report_of around service corpus namespace IngestionState.ready batches now.completed
                resumed (some r))))
          IngestionState.ready now s (λ next t. t) (λ next t. t)
    verified-IsSound now (inspected r false) s =
        told-IsSound (λ (end : Ended). end.done) raised_end
          (with_result (
            err (
              readiness_error (
                report_of around service corpus namespace IngestionState.failed batches
                  now.completed resumed (some r)))))
          IngestionState.failed now s (λ next t. t) (λ next t. t)

    pub after_waves-IsSound :
        (end : WaveEnd)
        → IsSound (state_of end)
        → IsSound (after_waves around service corpus namespace batches resumed end).done
    after_waves-IsSound (stopped failure now) s = s
    after_waves-IsSound (settled first now) s =
        let end = poll around service corpus namespace (service.readiness_attempts - 1) 0 in
        told-IsSound (λ (ended : Ended). ended.done) raised_end
          (λ next. verified around service corpus namespace batches resumed next end) verifying now
          s (λ next t. t) (λ next t. verified-IsSound next end t)
