-- ===== src/Datasets/Ingestion/Batches.antt =====
-- `_make_batches`: the batches are the documents in their order, none lost and none twice.
use pufferlab.Prelude.{ℕ, suc, ◌≤◌, ◌≡◌, refl, ap, ◌∙◌, List, [], ◌∷◌, map, length, All}
use pufferlab.Prelude.Sort.{sort, length-sort}
use pufferlab.Prelude.Chunks.{concat, chunks, concat-chunks, chunks_bounds}
use pufferlab.Datasets.Models.{SourceDocument}
use pufferlab.Datasets.Ingestion.{Batch, enumerate_from, by_external_id, make_batches}

-- The documents of the batches, one batch after the other.
abbrev pub batched : List Batch → List SourceDocument
batched batches = concat (map (λ batch. batch.1) batches)

-- The numbers of a list from `index` on.
abbrev pub count_up : {A : Type 0} → ℕ → List A → List ℕ
count_up index [] = []
count_up index (x ∷ xs) = index ∷ count_up (suc index) xs

pub record IsPartition (documents : List SourceDocument) (batch_size : ℕ) (batches : List Batch)
    : Type 0 where
  pub whole : batched batches ≡ sort by_external_id documents
  pub bounds : All (λ (batch : Batch). (1 ≤ length batch.1) × (length batch.1 ≤ batch_size)) batches
  pub numbered : map (λ batch. batch.0) batches ≡ count_up 0 batches

documents-enumerate :
    (i : ℕ) (xss : List (List SourceDocument)) → map (λ batch. batch.1) (enumerate_from i xss) ≡ xss
documents-enumerate i [] = refl
documents-enumerate i (xs ∷ xss) = ap (λ rest. xs ∷ rest) (documents-enumerate (suc i) xss)

numbers-enumerate :
    (i : ℕ) (xss : List (List SourceDocument))
    → map (λ batch. batch.0) (enumerate_from i xss) ≡ count_up i (enumerate_from i xss)
numbers-enumerate i [] = refl
numbers-enumerate i (xs ∷ xss) = ap (λ rest. i ∷ rest) (numbers-enumerate (suc i) xss)

All-enumerate :
    (P : List SourceDocument → Type 0) (i : ℕ) (xss : List (List SourceDocument))
    → All P xss
    → All (λ (batch : Batch). P batch.1) (enumerate_from i xss)
All-enumerate P i [] h = tt
All-enumerate P i (xs ∷ xss) h = (h.0, All-enumerate P (suc i) xss h.1)

module _ (documents : List SourceDocument) (batch_size : ℕ) (positive : 1 ≤ batch_size) where
  -- The batches of a list of documents are, one after the other, the documents in the order of
  -- their external ids. None is empty, none has more than batch_size documents, and they are
  -- numbered from 0. The batch size is not 0.
  pub make_batches-IsPartition :
      IsPartition documents batch_size (make_batches documents batch_size)
  unfolding make_batches
  make_batches-IsPartition =
      let ordered = sort by_external_id documents in
      let pieces = chunks batch_size ordered in
      record {
        whole =
            ap concat (documents-enumerate 0 pieces) ∙ concat-chunks batch_size ordered positive;
        bounds =
            All-enumerate (λ piece. (1 ≤ length piece) × (length piece ≤ batch_size)) 0 pieces
              (chunks_bounds batch_size ordered positive);
        numbered = numbers-enumerate 0 pieces;
      }

  pub length-batched : length (batched (make_batches documents batch_size)) ≡ length documents
  length-batched = ap length make_batches-IsPartition.whole ∙ length-sort by_external_id documents
