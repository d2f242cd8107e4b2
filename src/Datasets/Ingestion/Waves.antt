-- ===== src/Datasets/Ingestion/Waves.antt =====
-- The waves of `ingest`: where no batch fails, the results are those of all batches, in order.
use Prim.Native.String.{String}
use pufferlab.Prelude.{
  ℕ, ◌≡◌, ◌≢◌, refl, sym, ap, ◌∙◌, Bool, true, false, Option, none, some, List, [], ◌∷◌, ◌++◌, map,
  arith,
}
use mathlib.Core.List.{append-nil, append_assoc, map-append}
use pufferlab.Prelude.Chunks.{concat}
use pufferlab.Datasets.Models.{FixtureCorpus}
use pufferlab.Datasets.Ingestion.{
  BatchResult, IngestionCheckpoint, BatchOutcome, written, batch_cancelled, count_error,
  dimension_error, component_error, other_error, Surroundings, IngestionService, Batch, ingesting,
  batch_write_error, observer_error,
}
use pufferlab.Datasets.Ingestion.State.{Ingesting, WaveEnd, settled, stopped, first_of, returned_or}
use pufferlab.Datasets.Ingestion.Batch.{ingest_batch}
use pufferlab.Datasets.Ingestion.Service.{
  failure_report, announce, told, add_result, checkpointed, settle_wave, after_wave, run_waves,
}
use pufferlab.Datasets.Ingestion.Written.{is_written, result_of, ingest_batch-written}

first_of-ne-none : (first : Option BatchOutcome) (o : BatchOutcome) → first_of first o ≢ none
first_of-ne-none none o h = cc
first_of-ne-none (some first) o h = cc

settled-returned :
    (returned : Bool) (now : Ingesting) (more : WaveEnd) (after : Ingesting)
    → returned_or returned (stopped observer_error now) more ≡ settled none after
    → more ≡ settled none after
settled-returned true now more after h = h
settled-returned false now more after h = cc

module _ {F C : Type 0} (around : Surroundings F C) (service : IngestionService)
    (corpus : FixtureCorpus F) (namespace : String) (batches : List Batch) (resumed : ℕ) where
  completed-checkpointed :
      (observer : Option (IngestionCheckpoint → Bool)) (now : Ingesting)
      → (checkpointed around service corpus namespace batches resumed observer now).1.completed
        ≡ now.completed
  completed-checkpointed none now = refl
  completed-checkpointed (some observe) now = refl

  -- The loop over a wave that met no error read the result of each of its batches.
  abbrev Reads : List BatchOutcome → List BatchResult → Ingesting → Type 0
  Reads outcomes results after =
      (first : Option BatchOutcome) (now : Ingesting)
      → settle_wave around service corpus namespace batches resumed outcomes first now
        ≡ settled none after
      → (first ≡ none) × (after.completed ≡ now.completed ++ results)

  Reads-observed :
      (result : BatchResult) (outcomes : List BatchOutcome) (results : List BatchResult)
      (after : Ingesting)
      → Reads outcomes results after
      → (first : Option BatchOutcome) (now handed : Ingesting) (returned : Bool)
      → handed.completed ≡ now.completed ++ result ∷ []
      → elim returned [
        | false ↦
            stopped
              (batch_write_error
                (failure_report around service corpus namespace batches resumed handed))
              handed
        | true ↦
            told around service corpus namespace batches resumed
              (stopped observer_error)
              ingesting
              handed
              (settle_wave around service corpus namespace batches resumed outcomes first)
      ]
        ≡ settled none after
      → (first ≡ none) × (after.completed ≡ now.completed ++ result ∷ results)
  Reads-observed result outcomes results after reads first now handed false same h = cc
  Reads-observed result outcomes results after reads first now handed true same h =
      let more =
        settled-returned (around.on_progress _)
          (announce around service corpus namespace batches resumed ingesting handed) _ after h in
      let (start, kept) =
        reads first (announce around service corpus namespace batches resumed ingesting handed)
          more in
      (start, kept ∙ ap (λ l. l ++ results) same ∙ append_assoc now.completed (result ∷ []) results)

  Reads-cons :
      (outcome : BatchOutcome) (result : BatchResult) (outcomes : List BatchOutcome)
      (results : List BatchResult) (after : Ingesting)
      → (is_written outcome ≡ true → outcome ≡ written result)
      → Reads outcomes results after
      → Reads (outcome ∷ outcomes) (result ∷ results) after
  unfolding settle_wave
  Reads-cons (written found) result outcomes results after same reads first now h =
      let e : found ≡ result = cc (same refl) in
      let added = add_result around service corpus namespace batches resumed found now in
      let observed =
        checkpointed around service corpus namespace batches resumed around.on_checkpoint added in
      let (start, kept) =
        Reads-observed found outcomes results after reads first now observed.1 observed.0
          (completed-checkpointed around.on_checkpoint added) h in
      (start, kept ∙ ap (λ r. now.completed ++ r ∷ results) e)
  Reads-cons batch_cancelled result outcomes results after same reads first now h = cc
  Reads-cons count_error result outcomes results after same reads first now h =
      absurd (first_of-ne-none first count_error (reads (first_of first count_error) now h).0)
  Reads-cons dimension_error result outcomes results after same reads first now h =
      absurd
        (first_of-ne-none first dimension_error (reads (first_of first dimension_error) now h).0)
  Reads-cons component_error result outcomes results after same reads first now h =
      absurd
        (first_of-ne-none first component_error (reads (first_of first component_error) now h).0)
  Reads-cons other_error result outcomes results after same reads first now h =
      absurd (first_of-ne-none first other_error (reads (first_of first other_error) now h).0)

  Reads-wave :
      (wave : List Batch) (after : Ingesting)
      → Reads (map (ingest_batch around corpus) wave) (map (result_of around corpus) wave) after
  unfolding settle_wave
  Reads-wave [] after first now h =
      (ground arith, sym (append-nil after.completed) ∙ ap (λ l. l ++ []) (ground arith))
  Reads-wave (batch ∷ wave) after first now h =
      Reads-cons (ingest_batch around corpus batch) (result_of around corpus batch)
        (map (ingest_batch around corpus) wave) (map (result_of around corpus) wave) after
        (ingest_batch-written around corpus batch) (Reads-wave wave after) first now h

  abbrev pub results_of : List (List Batch) → List BatchResult
  results_of waves = map (result_of around corpus) (concat waves)

  completed-after_wave :
      (wave : List Batch) (waves : List (List Batch)) (now after : Ingesting)
      (first : Option BatchOutcome) (found : WaveEnd)
      → settle_wave around service corpus namespace batches resumed
          (map (ingest_batch around corpus) wave)
          none
          now
        ≡ found
      → after_wave around service corpus namespace batches resumed
          (run_waves around service corpus namespace batches resumed waves)
          found
        ≡ settled first after
      → ((middle : Ingesting)
          → run_waves around service corpus namespace batches resumed waves middle
            ≡ settled first after
          → after.completed ≡ middle.completed ++ results_of waves)
      → after.completed ≡ now.completed ++ results_of (wave ∷ waves)
  completed-after_wave wave waves now after first (stopped failure middle) e h ih = cc
  completed-after_wave wave waves now after first (settled (some o) middle) e h ih = cc
  completed-after_wave wave waves now after first (settled none middle) e h ih =
      let (_, read) = Reads-wave wave middle none now e in
      ih middle h
      ∙ ap (λ l. l ++ results_of waves) read
      ∙ append_assoc now.completed (map (result_of around corpus) wave) (results_of waves)
      ∙ ap (λ l. now.completed ++ l)
          (sym (map-append (result_of around corpus) wave (concat waves)))

  -- All waves that met no error read the result of every batch.
  pub completed-run_waves :
      (waves : List (List Batch)) (now after : Ingesting) (first : Option BatchOutcome)
      → run_waves around service corpus namespace batches resumed waves now ≡ settled first after
      → after.completed ≡ now.completed ++ results_of waves
  unfolding run_waves
  completed-run_waves [] now after first h =
      sym (append-nil after.completed) ∙ ap (λ l. l ++ []) (ground arith)
  completed-run_waves (wave ∷ waves) now after first h =
      completed-after_wave wave waves now after first
        (settle_wave around service corpus namespace batches resumed
          (map (ingest_batch around corpus) wave) none now)
        refl h (λ middle more. completed-run_waves waves middle after first more)
