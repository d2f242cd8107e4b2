-- ===== src/Prelude/Subsets.antt =====
-- Sets of identifiers as lists without repetition: how many they have.
use mathlib.Core.Path.{◌≡◌, refl}
use mathlib.Core.Bool.{Bool, true, false, not}
use mathlib.Core.List.{List, [], ◌∷◌, map}
use mathlib.Core.Logic.{inl, inr}
use native.Mathlib.Omega.{arith}
use Prim.Native.Nat.{ℕ, ◌+◌, ◌≤◌}
use pufferlab.Prelude.Tests.{◌==◌, if◌then◌else◌, Bool-cases}
use pufferlab.Prelude.Lists.{length, All, All-map, every, contains, distinct, keep}
use pufferlab.Prelude.Keys.{distinct-keep_by}

without : ℕ → List ℕ → List ℕ
without a [] = []
without a (x ∷ xs) = let rest = without a xs in if a == x then xs else x ∷ rest

length-without :
    (a : ℕ) (xs : List ℕ) → contains a xs ≡ true → length (without a xs) + 1 ≡ length xs
unfolding without
length-without a [] h = ground arith
length-without a (x ∷ xs) h = ground (arith, length-without a xs)

contains-without :
    (a b : ℕ) (xs : List ℕ)
    → contains b xs ≡ true
    → (a == b) ≡ false
    → contains b (without a xs) ≡ true
unfolding without
contains-without a b [] h k = ground arith
contains-without a b (x ∷ xs) h k = ground (arith, contains-without a b xs)

apart : (x a : ℕ) (xs : List ℕ) → contains x xs ≡ false → contains a xs ≡ true → (x == a) ≡ false
apart x a [] h k = ground arith
apart x a (y ∷ ys) h k = ground (arith, apart x a ys)

-- Distinct identifiers that are all among others are at most as many.
pub length-subset :
    (xs ys : List ℕ)
    → distinct xs ≡ true
    → ((a : ℕ) → contains a xs ≡ true → contains a ys ≡ true)
    → length xs ≤ length ys
length-subset [] ys d sub = omega arith
length-subset (x ∷ xs) ys d sub =
    let rest =
      length-subset xs (without x ys) (ground arith)
        (λ a h. contains-without x a ys (sub a (ground arith)) (apart x a xs (ground arith) h)) in
    let here = length-without x ys (sub x (ground arith)) in omega arith

-- `x in xs` for every `x` of a list, at one of them.
pub contains-every :
    (p : ℕ → Bool) (a : ℕ) (xs : List ℕ) → every p xs ≡ true → contains a xs ≡ true → p a ≡ true
contains-every p a [] h k = ground arith
contains-every p a (x ∷ xs) h k = elim (Bool-cases (a == x)) [
  | inl e ↦ same p a x e (ground arith)
  | inr e ↦ contains-every p a xs (ground arith) (ground arith)
]
  where
    same : (p : ℕ → Bool) (a x : ℕ) → (a == x) ≡ true → p x ≡ true → p a ≡ true
    same p a x e h = ground (arith, h)

module _ {A : Type 0} (key : A → ℕ) (chosen : List ℕ) where
  -- The records whose key is chosen, and the others, are all.
  length-split :
      (xs : List A)
      → length (keep (λ x. contains (key x) chosen) xs)
          + length (keep (λ x. not (contains (key x) chosen)) xs)
        ≡ length xs
  length-split [] = refl
  length-split (x ∷ xs) = ground (arith, length-split xs)

  contains-chosen :
      (a : ℕ) (xs : List A)
      → contains a (map key (keep (λ x. contains (key x) chosen) xs)) ≡ true
      → contains a chosen ≡ true
  contains-chosen a [] h = ground arith
  contains-chosen a (x ∷ xs) h = ground (arith, contains-chosen a xs)

  chosen-contains :
      (a : ℕ) (xs : List A)
      → contains a chosen ≡ true
      → contains a (map key xs) ≡ true
      → contains a (map key (keep (λ x. contains (key x) chosen) xs)) ≡ true
  chosen-contains a [] h k = ground arith
  chosen-contains a (x ∷ xs) h k = ground (arith, chosen-contains a xs)

  pub others-contain :
      (a : ℕ) (xs : List A)
      → contains a chosen ≡ false
      → contains a (map key xs) ≡ true
      → contains a (map key (keep (λ x. not (contains (key x) chosen)) xs)) ≡ true
  others-contain a [] h k = ground arith
  others-contain a (x ∷ xs) h k = ground (arith, others-contain a xs)

  length-map-key : (xs : List A) → length (map key xs) ≡ length xs
  length-map-key [] = refl
  length-map-key (x ∷ xs) = ground (arith, length-map-key xs)

  -- Chosen keys, each once and each of some record, and the records that are not chosen.
  pub length-chosen :
      (xs : List A)
      → distinct (map key xs) ≡ true
      → distinct chosen ≡ true
      → every (λ a. contains a (map key xs)) chosen ≡ true
      → length chosen + length (keep (λ x. not (contains (key x) chosen)) xs) ≡ length xs
  length-chosen xs d e sub =
      let kept = keep (λ x. contains (key x) chosen) xs in
      let low : length chosen ≤ length (map key kept) =
        length-subset chosen (map key kept) e (λ a h.
          chosen-contains a xs h (contains-every (λ b. contains b (map key xs)) a chosen sub h)) in
      let high : length (map key kept) ≤ length chosen =
        length-subset (map key kept) chosen (distinct-keep_by key _ xs d)
          (λ a h. contains-chosen a xs h) in
      omega (arith, low, high, length-map-key kept, length-split xs)

-- Every record's key is among the keys.
pub contains-own_key :
    {A : Type 0} (key : A → ℕ) (xs : List A) → All (λ x. contains (key x) (map key xs) ≡ true) xs
contains-own_key key [] = tt
contains-own_key key (x ∷ xs) =
    (ground arith, All-map (λ y h. ground (arith, h)) xs (contains-own_key key xs))
