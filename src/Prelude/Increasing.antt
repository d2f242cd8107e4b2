-- ===== src/Prelude/Increasing.antt =====
-- Lists of identifiers that are strictly increasing, as a sort of distinct ones is.
use mathlib.Core.Path.{◌≡◌, refl, sym, ap, ◌∙◌}
use mathlib.Core.Bool.{Bool, true, false, not, ◌&&◌, ◌||◌}
use mathlib.Core.List.{List, [], ◌∷◌, ◌++◌, map}
use mathlib.Core.Logic.{inl, inr}
use native.Mathlib.Omega.{arith}
use Prim.Native.Nat.{ℕ}
use pufferlab.Prelude.Tests.{ltb, ◌==◌, Bool-cases}
use pufferlab.Prelude.Lists.{every, contains, distinct, keep}
use pufferlab.Prelude.Keys.{distinct-sort_by}
use pufferlab.Prelude.Sort.{insert_sorted, sort}

pub map_same : (xs : List ℕ) → map (λ x. x) xs ≡ xs
map_same [] = refl
map_same (x ∷ xs) = ap (λ ys. x ∷ ys) (map_same xs)

abbrev pub is_increasing : List ℕ → Bool
is_increasing [] = true
is_increasing (x ∷ xs) = every (ltb x) xs && is_increasing xs

contains-insert_sorted :
    (a x : ℕ) (ys : List ℕ) → contains a (insert_sorted ltb x ys) ≡ contains a (x ∷ ys)
unfolding insert_sorted
contains-insert_sorted a x [] = refl
contains-insert_sorted a x (y ∷ ys) = ground (arith, contains-insert_sorted a x ys)

pub contains-sort : (a : ℕ) (xs : List ℕ) → contains a (sort ltb xs) ≡ contains a xs
unfolding sort
contains-sort a [] = refl
contains-sort a (x ∷ xs) =
    ground (arith, contains-insert_sorted a x (sort ltb xs), contains-sort a xs)

every-insert_sorted :
    (p : ℕ → Bool) (x : ℕ) (ys : List ℕ) → every p (insert_sorted ltb x ys) ≡ every p (x ∷ ys)
unfolding insert_sorted
every-insert_sorted p x [] = refl
every-insert_sorted p x (y ∷ ys) = ground (arith, every-insert_sorted p x ys)

pub every-sort : (p : ℕ → Bool) (xs : List ℕ) → every p (sort ltb xs) ≡ every p xs
unfolding sort
every-sort p [] = refl
every-sort p (x ∷ xs) = ground (arith, every-insert_sorted p x (sort ltb xs), every-sort p xs)

pub distinct-sort : (xs : List ℕ) → distinct xs ≡ true → distinct (sort ltb xs) ≡ true
distinct-sort xs h =
    ap distinct (sym (map_same (sort ltb xs)))
    ∙ distinct-sort_by (λ (x : ℕ). x) ltb xs (ap distinct (map_same xs) ∙ h)

every-ltb_trans :
    (x y : ℕ) (ys : List ℕ) → ltb x y ≡ true → every (ltb y) ys ≡ true → every (ltb x) ys ≡ true
every-ltb_trans x y [] h k = refl
every-ltb_trans x y (z ∷ zs) h k = ground (arith, every-ltb_trans x y zs h)

insert_sorted-increasing :
    (x : ℕ) (ys : List ℕ)
    → contains x ys ≡ false
    → is_increasing ys ≡ true
    → is_increasing (insert_sorted ltb x ys) ≡ true
unfolding insert_sorted
insert_sorted-increasing x [] h k = refl
insert_sorted-increasing x (y ∷ ys) h k =
    ground (
      arith,
      insert_sorted-increasing x ys,
      every-insert_sorted (ltb y) x ys,
      every-ltb_trans x y ys,
    )

pub sort-increasing : (xs : List ℕ) → distinct xs ≡ true → is_increasing (sort ltb xs) ≡ true
unfolding sort
sort-increasing [] h = refl
sort-increasing (x ∷ xs) h =
    ground (arith, insert_sorted-increasing x (sort ltb xs), contains-sort x xs, sort-increasing xs)

pub contains-append :
    (a : ℕ) (xs ys : List ℕ) → contains a (xs ++ ys) ≡ (contains a xs || contains a ys)
contains-append a [] ys = refl
contains-append a (x ∷ xs) ys = ground (arith, contains-append a xs ys)

pub contains-keep :
    (p : ℕ → Bool) (a : ℕ) (ys : List ℕ) → contains a (keep p ys) ≡ (contains a ys && p a)
contains-keep p a [] = refl
contains-keep p a (y ∷ ys) = elim (Bool-cases (y == a)) [
  | inl e ↦ ground (arith, contains-keep p a ys)
  | inr e ↦ ground (arith, contains-keep p a ys)
]

distinct-keep : (p : ℕ → Bool) (ys : List ℕ) → distinct ys ≡ true → distinct (keep p ys) ≡ true
distinct-keep p [] h = refl
distinct-keep p (y ∷ ys) h = ground (arith, distinct-keep p ys, contains-keep p y ys)

distinct-append :
    (xs ys : List ℕ)
    → distinct xs ≡ true
    → distinct ys ≡ true
    → every (λ a. not (contains a ys)) xs ≡ true
    → distinct (xs ++ ys) ≡ true
distinct-append [] ys h k apart = k
distinct-append (x ∷ xs) ys h k apart =
    ground (arith, distinct-append xs ys, contains-append x xs ys)

pub every-contains :
    (p : ℕ → Bool) (xs : List ℕ) → ((a : ℕ) → contains a xs ≡ true → p a ≡ true) → every p xs ≡ true
every-contains p [] sub = refl
every-contains p (x ∷ xs) sub =
    let head : p x ≡ true = sub x (ground arith) in
    let tail = every-contains p xs (λ a h. sub a (ground arith)) in ground arith

every-apart :
    (xs ys zs : List ℕ)
    → every (λ a. contains a zs) xs ≡ true
    → every (λ a. not (contains a (keep (λ b. not (contains b zs)) ys))) xs ≡ true
every-apart [] ys zs h = refl
every-apart (x ∷ xs) ys zs h =
    ground (arith, every-apart xs ys zs, contains-keep (λ b. not (contains b zs)) x ys)

-- A list, and what another has beside it.
abbrev pub union : List ℕ → List ℕ → List ℕ
union xs ys = xs ++ keep (λ a. not (contains a xs)) ys

pub distinct-union :
    (xs ys : List ℕ) → distinct xs ≡ true → distinct ys ≡ true → distinct (union xs ys) ≡ true
distinct-union xs ys h k =
    distinct-append xs (keep (λ a. not (contains a xs)) ys) h
      (distinct-keep (λ a. not (contains a xs)) ys k)
      (every-apart xs ys xs (every-contains (λ a. contains a xs) xs (λ a c. c)))

pub contains-union :
    (a : ℕ) (xs ys : List ℕ) → contains a (union xs ys) ≡ (contains a xs || contains a ys)
contains-union a xs ys = ground (
  arith,
  contains-append a xs (keep (λ a. not (contains a xs)) ys),
  contains-keep (λ a. not (contains a xs)) a ys,
)
