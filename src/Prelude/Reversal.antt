-- ===== src/Prelude/Reversal.antt =====
-- A sort by the flipped test gives the reversed list, when the items are apart.
use mathlib.Core.Path.{◌≡◌, refl, ap, ◌∙◌}
use mathlib.Core.Bool.{Bool, true, false, not, ◌&&◌}
use mathlib.Core.List.{List, [], ◌∷◌, ◌++◌}
use mathlib.Core.Logic.{inl, inr}
use native.Mathlib.Omega.{arith}
use pufferlab.Prelude.Tests.{Bool-cases}
use pufferlab.Prelude.Lists.{every, All}
use pufferlab.Prelude.Sort.{insert_sorted, sort, sort-All}

module _ {A : Type 0} where
  abbrev pub backwards : List A → List A
  backwards [] = []
  backwards (x ∷ xs) = backwards xs ++ x ∷ []

  every-append : (p : A → Bool) (xs ys : List A) → every p (xs ++ ys) ≡ (every p xs && every p ys)
  every-append p [] ys = refl
  every-append p (x ∷ xs) ys = ground (arith, every-append p xs ys)

  every-backwards : (p : A → Bool) (xs : List A) → every p (backwards xs) ≡ every p xs
  every-backwards p [] = refl
  every-backwards p (x ∷ xs) =
      ground (arith, every-append p (backwards xs) (x ∷ []), every-backwards p xs)

module _ {A : Type 0} (lt : A → A → Bool) where
  abbrev flipped : A → A → Bool
  flipped a b = lt b a

  insert-before :
      (x y : A) (zs : List A)
      → lt x y ≡ false
      → insert_sorted flipped x (zs ++ y ∷ []) ≡ insert_sorted flipped x zs ++ y ∷ []
  unfolding insert_sorted
  insert-before x y [] h = rw h refl
  insert-before x y (z ∷ zs) h = elim (Bool-cases (lt x z)) [
    | inl e ↦ rw e (ap (λ l. z ∷ l) (insert-before x y zs h))
    | inr e ↦ rw e refl
  ]

  insert-last :
      (x : A) (zs : List A) → every (lt x) zs ≡ true → insert_sorted flipped x zs ≡ zs ++ x ∷ []
  unfolding insert_sorted
  insert-last x [] h = refl
  insert-last x (z ∷ zs) h = elim (Bool-cases (lt x z)) [
    | inl e ↦ rw e (ap (λ l. z ∷ l) (insert-last x zs (ground arith)))
    | inr e ↦ absurd (ground arith)
  ]

  -- Each item is below those that follow it.
  abbrev pub is_sorted : List A → Bool
  is_sorted [] = true
  is_sorted (x ∷ xs) = every (lt x) xs && is_sorted xs

  -- `x` and `y` are in one order, and not in both.
  abbrev pub IsApart : A → A → Type 0
  IsApart x y = lt x y ≡ not (lt y x)

  -- Each item is apart from those that follow it.
  abbrev pub AllApart : List A → Type 0
  AllApart [] = Unit
  AllApart (x ∷ xs) = All (IsApart x) xs × AllApart xs

  module _ (P : A → Type 0)
      (trans : (x y z : A) → P x → P y → P z → lt x y ≡ true → lt y z ≡ true → lt x z ≡ true) where
    every_trans :
        (x y : A) (zs : List A)
        → P x
        → P y
        → All P zs
        → lt x y ≡ true
        → every (lt y) zs ≡ true
        → every (lt x) zs ≡ true
    every_trans x y [] px py ps h k = refl
    every_trans x y (z ∷ zs) px py ps h k =
        let head : lt x z ≡ true = trans x y z px py ps.0 h (ground arith) in
        let tail = every_trans x y zs px py ps.1 h (ground arith) in ground arith

    every-insert :
        (p : A → Bool) (x : A) (ys : List A) → every p (insert_sorted lt x ys) ≡ (p x && every p ys)
    unfolding insert_sorted
    every-insert p x [] = refl
    every-insert p x (y ∷ ys) = ground (arith, every-insert p x ys)

    insert-is_sorted :
        (x : A) (ys : List A)
        → P x
        → All P ys
        → All (IsApart x) ys
        → is_sorted ys ≡ true
        → is_sorted (insert_sorted lt x ys) ≡ true
    unfolding insert_sorted
    insert-is_sorted x [] px ps a s = refl
    insert-is_sorted x (y ∷ ys) px ps a s = elim (Bool-cases (lt y x)) [
      | inl e ↦ rw e (ground (arith, every-insert (lt y) x ys, insert-is_sorted x ys px ps.1 a.1))
      | inr e ↦
          let h : lt x y ≡ true = ground arith in
          let more = every_trans x y ys px ps.0 ps.1 h (ground arith) in rw e (ground arith)
    ]

    insert-backwards :
        (x : A) (ys : List A)
        → P x
        → All P ys
        → All (IsApart x) ys
        → is_sorted ys ≡ true
        → insert_sorted flipped x (backwards ys) ≡ backwards (insert_sorted lt x ys)
    unfolding insert_sorted
    insert-backwards x [] px ps a s = refl
    insert-backwards x (y ∷ ys) px ps a s = elim (Bool-cases (lt y x)) [
      | inl e ↦ rw e (
          insert-before x y (backwards ys) (ground arith)
          ∙ ap (λ l. l ++ y ∷ []) (insert-backwards x ys px ps.1 a.1 (ground arith)))
      | inr e ↦
          let h : lt x y ≡ true = ground arith in
          let more = every_trans x y ys px ps.0 ps.1 h (ground arith) in
          rw e (
            insert-last x (backwards ys ++ y ∷ []) (
              ground
                (arith, every-append (lt x) (backwards ys) (y ∷ []), every-backwards (lt x) ys)))
    ]

    pub sort-is_sorted : (xs : List A) → All P xs → AllApart xs → is_sorted (sort lt xs) ≡ true
    unfolding sort
    sort-is_sorted [] ps a = refl
    sort-is_sorted (x ∷ xs) ps a =
        insert-is_sorted x (sort lt xs) ps.0 (sort-All lt P xs ps.1)
          (sort-All lt (IsApart x) xs a.0) (sort-is_sorted xs ps.1 a.1)

    pub sort-backwards :
        (xs : List A) → All P xs → AllApart xs → sort flipped xs ≡ backwards (sort lt xs)
    unfolding sort
    sort-backwards [] ps a = refl
    sort-backwards (x ∷ xs) ps a =
        ap (insert_sorted flipped x) (sort-backwards xs ps.1 a.1)
        ∙ insert-backwards x (sort lt xs) ps.0 (sort-All lt P xs ps.1)
            (sort-All lt (IsApart x) xs a.0) (sort-is_sorted xs ps.1 a.1)
