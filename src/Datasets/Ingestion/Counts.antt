-- ===== src/Datasets/Ingestion/Counts.antt =====
-- What the results of the batches count, in whatever order they stand.
use pufferlab.Prelude.{
  ℕ, ◌+◌, ◌≡◌, refl, sym, ap, ◌∙◌, ◌||◌, List, [], ◌∷◌, ◌++◌, map, length, length-append,
  length-map, arith, contains,
}
use mathlib.Core.List.{map-append}
use pufferlab.Prelude.Sort.{sort, insert_sorted}
use pufferlab.Prelude.Increasing.{contains-append}
use pufferlab.Datasets.Models.{FixtureCorpus}
use pufferlab.Datasets.Ingestion.{BatchResult, Surroundings, Batch, by_batch_index, document_count}
use pufferlab.Datasets.Ingestion.Batch.{document_uuid}
use pufferlab.Datasets.Ingestion.Batches.{batched}
use pufferlab.Datasets.Ingestion.Written.{result_of}

-- The documents that the results name.
abbrev pub result_ids : List BatchResult → List ℕ
result_ids [] = []
result_ids (result ∷ rest) = result.document_ids ++ result_ids rest

document_count-insert :
    (x : BatchResult) (ys : List BatchResult)
    → document_count (insert_sorted by_batch_index x ys) ≡ length x.document_ids + document_count ys
unfolding insert_sorted
document_count-insert x [] = refl
document_count-insert x (y ∷ ys) = ground (arith, document_count-insert x ys)

pub document_count-sort :
    (xs : List BatchResult) → document_count (sort by_batch_index xs) ≡ document_count xs
unfolding sort
document_count-sort [] = refl
document_count-sort (x ∷ xs) =
    omega (arith, document_count-insert x (sort by_batch_index xs), document_count-sort xs)

contains-insert_result :
    (a : ℕ) (x : BatchResult) (ys : List BatchResult)
    → contains a (result_ids (insert_sorted by_batch_index x ys))
      ≡ (contains a x.document_ids || contains a (result_ids ys))
unfolding insert_sorted
contains-insert_result a x [] = contains-append a x.document_ids []
contains-insert_result a x (y ∷ ys) = ground (
  arith,
  contains-insert_result a x ys,
  contains-append a y.document_ids (result_ids ys),
  contains-append a y.document_ids (result_ids (insert_sorted by_batch_index x ys)),
  contains-append a x.document_ids (y.document_ids ++ result_ids ys),
)

pub contains-sort_results :
    (a : ℕ) (xs : List BatchResult)
    → contains a (result_ids (sort by_batch_index xs)) ≡ contains a (result_ids xs)
unfolding sort
contains-sort_results a [] = refl
contains-sort_results a (x ∷ xs) = ground (
  arith,
  contains-insert_result a x (sort by_batch_index xs),
  contains-sort_results a xs,
  contains-append a x.document_ids (result_ids xs),
)

module _ {F C : Type 0} (around : Surroundings F C) (corpus : FixtureCorpus F) where
  pub document_count-results :
      (bs : List Batch) → document_count (map (result_of around corpus) bs) ≡ length (batched bs)
  document_count-results [] = refl
  document_count-results (b ∷ bs) = omega (
    arith,
    document_count-results bs,
    length-append b.1 (batched bs),
    length-map {0, 0} (document_uuid around corpus) b.1,
  )

  pub ids-results :
      (bs : List Batch)
      → result_ids (map (result_of around corpus) bs)
        ≡ map (document_uuid around corpus) (batched bs)
  ids-results [] = refl
  ids-results (b ∷ bs) =
      ap (λ l. map (document_uuid around corpus) b.1 ++ l) (ids-results bs)
      ∙ sym (map-append (document_uuid around corpus) b.1 (batched bs))
