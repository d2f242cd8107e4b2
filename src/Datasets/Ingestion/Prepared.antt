-- ===== src/Datasets/Ingestion/Prepared.antt =====
-- What the checks of `ingest` accept, and what its inspections of the namespace found.
use Prim.Native.String.{String}
use mathlib.Core.Path.{subst}
use pufferlab.Prelude.{
  ℕ, zero, suc, ◌+◌, ◌≡◌, sym, Bool, true, not, Option, none, some, List, [], arith, ◌==◌, distinct,
  Bool-cases, inl, inr, if◌then◌else◌,
}
use pufferlab.Prelude.Result.{Result, ok, err, >>=-eq-ok, ok-injective, raise_if}
use pufferlab.Prelude.Text.{is_blank}
use pufferlab.Datasets.Models.{FixtureCorpus}
use pufferlab.Datasets.Ingestion.{
  NamespaceReadiness, IngestionCheckpoint, failed, IngestionFailure, embedding_dimension_mismatch,
  Surroundings, IngestionService, is_subset, Interruption,
}
use pufferlab.Datasets.Ingestion.State.{PollEnd, inspected, inspection_failed}
use pufferlab.Datasets.Ingestion.Service.{
  expected_document_ids, validate_checkpoint, prepare, is_ready, is_empty_corpus, poll, report_of,
}

-- The documents that an ingestion resumes from.
abbrev pub resumed_ids_of : Option IngestionCheckpoint → List ℕ
resumed_ids_of none = []
resumed_ids_of (some checkpoint) = checkpoint.completed_document_ids

inspected-injective :
    {a r : NamespaceReadiness} {b c : Bool}
    → ◌≡◌ {A = PollEnd} (inspected a b) (inspected r c)
    → (a ≡ r) × (b ≡ c)
inspected-injective h = (cc h, cc h)

module _ {F C : Type 0} (around : Surroundings F C) (service : IngestionService)
    (corpus : FixtureCorpus F) (namespace : String) where
  pub record Resumes (resume_from : Option IngestionCheckpoint) (ids : List ℕ) : Type 0 where
    pub same : ids ≡ resumed_ids_of resume_from
    pub once : distinct ids ≡ true
    pub known : is_subset ids (expected_document_ids around service corpus namespace) ≡ true

  pub validate_checkpoint-Resumes :
      (resume_from : Option IngestionCheckpoint) (ids : List ℕ)
      → validate_checkpoint around service corpus namespace resume_from ≡ ok ids
      → Resumes resume_from ids
  unfolding validate_checkpoint
  validate_checkpoint-Resumes none ids h = record {
    same = sym (ok-injective h);
    once = ground arith;
    known = ground arith;
  }
  validate_checkpoint-Resumes (some checkpoint) ids h = record {
    same = ground arith;
    once = ground arith;
    known = ground arith;
  }

  pub prepare-Resumes :
      (resume_from : Option IngestionCheckpoint) (ids : List ℕ)
      → prepare around service corpus namespace resume_from ≡ ok ids
      → Resumes resume_from ids
  unfolding prepare
  prepare-Resumes resume_from ids h =
      let (_, _, h1) = >>=-eq-ok (raise_if (is_blank namespace) IngestionFailure.value_error) _ h in
      let (_, _, h2) =
        >>=-eq-ok (raise_if (is_empty_corpus corpus.documents) IngestionFailure.value_error) _ h1 in
      let (found, e, h3) =
        >>=-eq-ok (validate_checkpoint around service corpus namespace resume_from) _ h2 in
      let (_, _, h4) =
        >>=-eq-ok
          (raise_if (not (around.dimensions == corpus.manifest.embedding.dimensions)) (
            embedding_dimension_mismatch
              (report_of around service corpus namespace failed [] [] 0 none)))
          _ h3 in
      subst (Resumes resume_from) (ok-injective h4)
        (validate_checkpoint-Resumes resume_from found e)

  asked-is_ready :
      (answer : Result Interruption NamespaceReadiness) (rest : PollEnd) (r : NamespaceReadiness)
      → (rest ≡ inspected r true → is_ready around service corpus namespace r ≡ true)
      → elim answer [
        | err e ↦ inspection_failed e
        | ok found ↦
            if is_ready around service corpus namespace found then inspected found true else rest
      ]
        ≡ inspected r true
      → is_ready around service corpus namespace r ≡ true
  asked-is_ready (err e) rest r more h = cc
  asked-is_ready (ok found) rest r more h =
      elim (Bool-cases (is_ready around service corpus namespace found)) [
        | inl e ↦
            subst (λ x. is_ready around service corpus namespace x ≡ true)
              (inspected-injective (rw e at (h))).0 e
        | inr e ↦ more (rw e at (h))
      ]

  last-is_ready :
      (answer : Result Interruption NamespaceReadiness) (r : NamespaceReadiness)
      → elim answer [
        | err e ↦ inspection_failed e
        | ok found ↦ inspected found (is_ready around service corpus namespace found)
      ]
        ≡ inspected r true
      → is_ready around service corpus namespace r ≡ true
  last-is_ready (err e) r h = cc
  last-is_ready (ok found) r h =
      let (same, e) = inspected-injective h in
      subst (λ x. is_ready around service corpus namespace x ≡ true) same e

  pub poll-is_ready :
      (more attempt : ℕ) (r : NamespaceReadiness)
      → poll around service corpus namespace more attempt ≡ inspected r true
      → is_ready around service corpus namespace r ≡ true
  unfolding poll
  poll-is_ready zero attempt r h = last-is_ready (around.inspect_readiness attempt) r h
  poll-is_ready (suc more) attempt r h =
      asked-is_ready (around.inspect_readiness attempt)
        (poll around service corpus namespace more (attempt + 1)) r
        (poll-is_ready more (attempt + 1) r) h
