-- ===== src/Datasets/Ingestion/IdSets.antt =====
-- Sets of identifiers as lists, and the identifiers that results name.
use pufferlab.Prelude.{
  ℕ, ◌≡◌, refl, Bool, true, false, ◌&&◌, ◌||◌, List, [], ◌∷◌, ◌++◌, contains, distinct, every,
  arith,
}
use pufferlab.Prelude.Increasing.{contains-append}
use pufferlab.Datasets.Ingestion.{BatchResult, add_id, add_ids}
use pufferlab.Datasets.Ingestion.Counts.{result_ids}

every-append : (p : ℕ → Bool) (xs ys : List ℕ) → every p (xs ++ ys) ≡ (every p xs && every p ys)
every-append p [] ys = refl
every-append p (x ∷ xs) ys = ground (arith, every-append p xs ys)

distinct-add_one :
    (x : ℕ) (xs : List ℕ)
    → distinct xs ≡ true
    → contains x xs ≡ false
    → distinct (xs ++ x ∷ []) ≡ true
distinct-add_one x [] d h = refl
distinct-add_one x (y ∷ ys) d h =
    ground (arith, distinct-add_one x ys, contains-append y ys (x ∷ []))

pub distinct-add_ids : (new ids : List ℕ) → distinct ids ≡ true → distinct (add_ids new ids) ≡ true
distinct-add_ids [] ids d = d
distinct-add_ids (x ∷ new) ids d =
    distinct-add_ids new (add_id x ids) (ground (arith, distinct-add_one x ids))

pub every-add_ids :
    (p : ℕ → Bool) (new ids : List ℕ)
    → every p new ≡ true
    → every p ids ≡ true
    → every p (add_ids new ids) ≡ true
every-add_ids p [] ids h k = k
every-add_ids p (x ∷ new) ids h k =
    every-add_ids p new (add_id x ids) (ground arith) (ground (arith, every-append p ids (x ∷ [])))

pub every-weaken :
    (p q : ℕ → Bool)
    → ((a : ℕ) → p a ≡ true → q a ≡ true)
    → (xs : List ℕ) → every p xs ≡ true
    → every q xs ≡ true
every-weaken p q sub [] h = refl
every-weaken p q sub (x ∷ xs) h = ground (arith, sub x, every-weaken p q sub xs)

pub every-own : (xs : List ℕ) → every (λ a. contains a xs) xs ≡ true
every-own [] = refl
every-own (x ∷ xs) = ground (
  arith,
  every-weaken (λ a. contains a xs) (λ a. contains a (x ∷ xs)) (λ a h. ground arith) xs
      (every-own xs),
)

pub result_ids-append :
    (a : ℕ) (xs : List BatchResult) (r : BatchResult)
    → contains a (result_ids (xs ++ r ∷ []))
      ≡ (contains a (result_ids xs) || contains a r.document_ids)
result_ids-append a [] r = ground (arith, contains-append a r.document_ids [])
result_ids-append a (x ∷ xs) r = ground (
  arith,
  result_ids-append a xs r,
  contains-append a x.document_ids (result_ids xs),
  contains-append a x.document_ids (result_ids (xs ++ r ∷ [])),
)
