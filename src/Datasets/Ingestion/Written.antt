-- ===== src/Datasets/Ingestion/Written.antt =====
-- `_ingest_batch`: a batch that is written has written each of its documents, in order.
use pufferlab.Prelude.{
  ℕ, suc, ◌≡◌, refl, sym, ap, ◌∙◌, Bool, true, false, not, Option, none, some, List, [], ◌∷◌, map,
  length, arith, every, ◌==◌,
}
use pufferlab.Prelude.Result.{
  Result, ok, err, ◌>>=◌, ◌>>◌, raise_if, traverse, >>=-eq-ok, ok-injective,
}
use pufferlab.Datasets.Models.{SourceDocument, FixtureCorpus}
use pufferlab.Datasets.Ingestion.{
  BatchResult, Interruption, cancellation, exception, BatchOutcome, written, count_error,
  dimension_error, component_error, Surroundings, Batch,
}
use pufferlab.Datasets.Ingestion.Batch.{
  asked, float_or, outcome_of, embedding_text, document_uuid, normalize_vector, embed_documents,
  write_batch, ingest_batch,
}

abbrev pub is_written : BatchOutcome → Bool
is_written (written _) = true
is_written _ = false

length-traverse :
    {E A B : Type 0} (f : A → Result E B) (xs : List A) (ys : List B)
    → traverse f xs ≡ ok ys
    → length ys ≡ length xs
length-traverse f [] ys h = ap length (sym (ok-injective h))
length-traverse f (x ∷ xs) ys h =
    let (y, e, h1) = >>=-eq-ok (f x) _ h in
    let (rest, e', h2) = >>=-eq-ok (traverse f xs) _ h1 in
    sym (ap length (ok-injective h2)) ∙ ap suc (length-traverse f xs rest e')

-- What an error of a chain says, if the errors of its steps say it.
module _ (Q : BatchOutcome → Type 0) where
  abbrev Fails : {A : Type 0} → Result BatchOutcome A → Type 0
  Fails (ok a) = Unit
  Fails (err e) = Q e

  Fails->>= :
      {A B : Type 0} (first : Result BatchOutcome A) (rest : A → Result BatchOutcome B)
      → Fails first
      → ((a : A) → Fails (rest a))
      → Fails (first >>= rest)
  Fails->>= (ok a) rest h k = k a
  Fails->>= (err e) rest h k = h

  Fails-traverse :
      {A B : Type 0} (f : A → Result BatchOutcome B)
      → ((a : A) → Fails (f a))
      → (xs : List A) → Fails (traverse f xs)
  Fails-traverse f h [] = tt
  Fails-traverse f h (x ∷ xs) =
      Fails->>= (f x) _ (h x) (λ b. Fails->>= (traverse f xs) _ (Fails-traverse f h xs) (λ bs. tt))

  Fails-raise_if : (b : Bool) (e : BatchOutcome) → Q e → Fails (raise_if b e)
  Fails-raise_if true e q = q
  Fails-raise_if false e q = tt

module _ {F C : Type 0} (around : Surroundings F C) (corpus : FixtureCorpus F) where
  abbrev pub result_of : Batch → BatchResult
  result_of batch = record {
    index = batch.0;
    document_ids = map (document_uuid around corpus) batch.1;
  }

  ids-embed_documents :
      (documents : List SourceDocument) (vectors : List (List F))
      → length vectors ≡ length documents
      → map (λ document. document.id) (embed_documents around corpus documents vectors)
        ≡ map (document_uuid around corpus) documents
  ids-embed_documents [] vectors h = refl
  ids-embed_documents (document ∷ documents) [] h = absurd (omega arith)
  ids-embed_documents (document ∷ documents) (vector ∷ vectors) h =
      ap (λ ids. document_uuid around corpus document ∷ ids)
        (ids-embed_documents documents vectors (omega arith))

  write_batch-ok :
      (index : ℕ) (documents : List SourceDocument) (outcome : BatchOutcome)
      → write_batch around corpus (index, documents) ≡ ok outcome
      → outcome ≡ written (result_of (index, documents))
  unfolding write_batch
  write_batch-ok index documents outcome h =
      let (vectors, _, h1) =
        >>=-eq-ok (asked (around.embed index (map embedding_text documents))) _ h in
      let (_, same, h2) =
        >>=-eq-ok (raise_if (not (length vectors == length documents)) count_error) _ h1 in
      let (normalized, each, h3) =
        >>=-eq-ok (traverse (normalize_vector around corpus) vectors) _ h2 in
      let (_, _, h4) =
        >>=-eq-ok
          (asked (around.upsert_batch index (embed_documents around corpus documents normalized))) _
          h3 in
      let counts : length normalized ≡ length documents =
        length-traverse (normalize_vector around corpus) vectors normalized each ∙ ground arith in
      sym (ok-injective h4)
      ∙ ap (λ ids. written (record { index = index; document_ids = ids }))
          (ids-embed_documents documents normalized counts)

  abbrev NotWritten : BatchOutcome → Type 0
  NotWritten outcome = is_written outcome ≡ false

  Fails-asked : {A : Type 0} (r : Result Interruption A) → Fails NotWritten (asked r)
  Fails-asked (ok a) = tt
  Fails-asked (err cancellation) = refl
  Fails-asked (err exception) = refl

  Fails-float_or : (o : Option F) → Fails NotWritten (float_or o)
  Fails-float_or none = refl
  Fails-float_or (some x) = tt

  Fails-checked :
      {A : Type 0} (b : Bool) (value : A)
      → Fails NotWritten (raise_if b component_error >> ok value)
  Fails-checked true value = refl
  Fails-checked false value = tt

  Fails-normalize_vector :
      (vector : List C) → Fails NotWritten (normalize_vector around corpus vector)
  Fails-normalize_vector vector =
      Fails->>= NotWritten (raise_if _ dimension_error) _
        (Fails-raise_if NotWritten _ dimension_error refl)
        (λ _.
          Fails->>= NotWritten (traverse _ vector) _
            (Fails-traverse NotWritten _ (λ value. Fails-float_or (around.float value)) vector)
            (λ normalized. Fails-checked (not (every around.is_finite normalized)) normalized))

  Fails-write_batch :
      (index : ℕ) (documents : List SourceDocument)
      → Fails NotWritten (write_batch around corpus (index, documents))
  unfolding write_batch
  Fails-write_batch index documents =
      Fails->>= NotWritten (asked (around.embed index (map embedding_text documents))) _
        (Fails-asked _)
        (λ vectors.
          Fails->>= NotWritten (raise_if _ count_error) _
            (Fails-raise_if NotWritten _ count_error refl)
            (λ _.
              Fails->>= NotWritten (traverse (normalize_vector around corpus) vectors) _
                (Fails-traverse NotWritten _ Fails-normalize_vector vectors)
                (λ normalized.
                  Fails->>= NotWritten
                    (asked (
                      around.upsert_batch index
                        (embed_documents around corpus documents normalized)))
                    _ (Fails-asked _) (λ _. tt))))

  outcome_of-written :
      (index : ℕ) (documents : List SourceDocument) (r : Result BatchOutcome BatchOutcome)
      → write_batch around corpus (index, documents) ≡ r
      → Fails NotWritten r
      → is_written (outcome_of r) ≡ true
      → outcome_of r ≡ written (result_of (index, documents))
  outcome_of-written index documents (ok outcome) e f h = write_batch-ok index documents outcome e
  outcome_of-written index documents (err outcome) e f h = cc

  -- The result of a batch that was written names all its documents.
  pub ingest_batch-written :
      (batch : Batch)
      → is_written (ingest_batch around corpus batch) ≡ true
      → ingest_batch around corpus batch ≡ written (result_of batch)
  unfolding ingest_batch
  ingest_batch-written (index, documents) h =
      outcome_of-written index documents (write_batch around corpus (index, documents)) refl
        (Fails-write_batch index documents) h
