-- ===== src/Prelude/Chunks.antt =====
-- `items[k : k + size] for k in range(0, len(items), size)`: a list in pieces, from the front.
use mathlib.Core.Path.{◌≡◌, refl, ap}
use mathlib.Core.List.{List, [], ◌∷◌, ◌++◌}
use native.Mathlib.Omega.{arith}
use Prim.Native.Nat.{ℕ, zero, suc, ◌≤◌, ◌-◌}
use pufferlab.Prelude.Lists.{length, take, drop, All}

-- `[x for xs in xss for x in xs]`
abbrev pub concat {ℓ} : {A : Type ℓ} → List (List A) → List A
concat [] = []
concat (xs ∷ xss) = xs ++ concat xss

module _ {ℓ} {A : Type ℓ} where
  chunks_from : ℕ → ℕ → List A → List (List A)
  chunks_from zero size xs = []
  chunks_from (suc fuel) size [] = []
  chunks_from (suc fuel) size (x ∷ xs) =
      take size (x ∷ xs) ∷ chunks_from fuel size (drop size (x ∷ xs))

  -- As many rounds as there are items are enough where `size` is not 0.
  unfoldable pub chunks : ℕ → List A → List (List A)
  unfolding chunks_from
  chunks size xs = chunks_from (length xs) size xs

  take-drop : (n : ℕ) (xs : List A) → take n xs ++ drop n xs ≡ xs
  take-drop zero xs = refl
  take-drop (suc n) [] = refl
  take-drop (suc n) (x ∷ xs) = ap (λ ys. x ∷ ys) (take-drop n xs)

  length-drop : (n : ℕ) (xs : List A) → length (drop n xs) ≡ length xs - n
  length-drop zero xs = omega arith
  length-drop (suc n) [] = omega arith
  length-drop (suc n) (x ∷ xs) = omega (arith, length-drop n xs)

  length-take-le : (n : ℕ) (xs : List A) → length (take n xs) ≤ n
  length-take-le zero xs = omega arith
  length-take-le (suc n) [] = omega arith
  length-take-le (suc n) (x ∷ xs) = omega (arith, length-take-le n xs)

  length-take-bounds :
      (n : ℕ) (x : A) (xs : List A)
      → 1 ≤ n
      → (1 ≤ length (take n (x ∷ xs))) × (length (take n (x ∷ xs)) ≤ n)
  length-take-bounds zero x xs h = omega arith
  length-take-bounds (suc n) x xs h = (omega arith, omega (arith, length-take-le n xs))

  concat-chunks_from :
      (fuel size : ℕ) (xs : List A)
      → 1 ≤ size
      → length xs ≤ fuel
      → concat (chunks_from fuel size xs) ≡ xs
  unfolding chunks_from
  concat-chunks_from zero size [] h k = refl
  concat-chunks_from zero size (x ∷ xs) h k = absurd (omega arith)
  concat-chunks_from (suc fuel) size [] h k = refl
  concat-chunks_from (suc fuel) size (x ∷ xs) h k =
      rw
        (concat-chunks_from fuel size (drop size (x ∷ xs)) h
          (omega (arith, length-drop size (x ∷ xs))))
        (take-drop size (x ∷ xs))

  pub concat-chunks : (size : ℕ) (xs : List A) → 1 ≤ size → concat (chunks size xs) ≡ xs
  unfolding chunks
  concat-chunks size xs h = concat-chunks_from (length xs) size xs h (omega arith)

  bounded_chunks :
      (fuel size : ℕ) (xs : List A)
      → 1 ≤ size
      → All (λ c. (1 ≤ length c) × (length c ≤ size)) (chunks_from fuel size xs)
  unfolding chunks_from
  bounded_chunks zero size xs h = tt
  bounded_chunks (suc fuel) size [] h = tt
  bounded_chunks (suc fuel) size (x ∷ xs) h =
      (length-take-bounds size x xs h, bounded_chunks fuel size (drop size (x ∷ xs)) h)

  -- No piece is empty and none is longer than `size`.
  pub chunks_bounds :
      (size : ℕ) (xs : List A)
      → 1 ≤ size
      → All (λ c. (1 ≤ length c) × (length c ≤ size)) (chunks size xs)
  unfolding chunks
  chunks_bounds size xs h = bounded_chunks (length xs) size xs h

  All-front {κ} : (P : A → Type κ) (xs ys : List A) → All P (xs ++ ys) → All P xs × All P ys
  All-front P [] ys h = (tt, h)
  All-front P (x ∷ xs) ys h = let (front, back) = All-front P xs ys h.1 in ((h.0, front), back)

  pub All-concat {κ} : (P : A → Type κ) (xss : List (List A)) → All P (concat xss) → All (All P) xss
  All-concat P [] h = tt
  All-concat P (xs ∷ xss) h =
      let (front, back) = All-front P xs (concat xss) h in (front, All-concat P xss back)
