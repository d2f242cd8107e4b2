-- ===== src/Prelude/Keys.antt =====
-- Lists of records with an identifier each: sorting and filtering keep the identifiers distinct.
use mathlib.Core.Path.{◌≡◌, refl}
use mathlib.Core.Bool.{Bool, true, ◌||◌}
use mathlib.Core.List.{List, [], ◌∷◌, map}
use native.Mathlib.Omega.{arith}
use Prim.Native.Nat.{ℕ}
use pufferlab.Prelude.Tests.{◌==◌}
use pufferlab.Prelude.Lists.{contains, distinct, keep}
use pufferlab.Prelude.Sort.{insert_sorted, sort}

module _ {ℓ} {A : Type ℓ} (key : A → ℕ) where
  module _ (lt : A → A → Bool) where
    contains-insert_by :
        (a : ℕ) (x : A) (ys : List A)
        → contains a (map key (insert_sorted lt x ys)) ≡ (a == key x || contains a (map key ys))
    unfolding insert_sorted
    contains-insert_by a x [] = refl
    contains-insert_by a x (y ∷ ys) = ground (arith, contains-insert_by a x ys)

    distinct-insert_by :
        (x : A) (ys : List A)
        → distinct (map key (x ∷ ys)) ≡ true
        → distinct (map key (insert_sorted lt x ys)) ≡ true
    unfolding insert_sorted
    distinct-insert_by x [] h = refl
    distinct-insert_by x (y ∷ ys) h =
        ground (arith, distinct-insert_by x ys, contains-insert_by (key y) x ys)

    pub contains-sort_by :
        (a : ℕ) (xs : List A) → contains a (map key (sort lt xs)) ≡ contains a (map key xs)
    unfolding sort
    contains-sort_by a [] = refl
    contains-sort_by a (x ∷ xs) =
        ground (arith, contains-insert_by a x (sort lt xs), contains-sort_by a xs)

    pub distinct-sort_by :
        (xs : List A) → distinct (map key xs) ≡ true → distinct (map key (sort lt xs)) ≡ true
    unfolding sort
    distinct-sort_by [] h = refl
    distinct-sort_by (x ∷ xs) h =
        ground (
          arith,
          distinct-insert_by x (sort lt xs),
          contains-sort_by (key x) xs,
          distinct-sort_by xs,
        )

  contains-keep_by :
      (p : A → Bool) (a : ℕ) (xs : List A)
      → contains a (map key (keep p xs)) ≡ true
      → contains a (map key xs) ≡ true
  contains-keep_by p a [] h = h
  contains-keep_by p a (x ∷ xs) h = ground (arith, contains-keep_by p a xs)

  pub distinct-keep_by :
      (p : A → Bool) (xs : List A)
      → distinct (map key xs) ≡ true
      → distinct (map key (keep p xs)) ≡ true
  distinct-keep_by p [] h = refl
  distinct-keep_by p (x ∷ xs) h =
      ground (arith, distinct-keep_by p xs, contains-keep_by p (key x) xs)
