-- ===== src/Evals/Metrics/Reciprocal.antt =====
-- The reciprocal rank of a ranking.
use mathlib.Core.Path.{subst}
use pufferlab.Prelude.{
  ℕ, zero, suc, ◌+◌, ◌<◌, ◌≡◌, refl, sym, ap, ◌∙◌, Bool, true, false, ◌&&◌, Option, none, some,
  List, [], ◌∷◌, ◌==◌, arith, length, keep, take, get_elem?, contains, some_of, if◌then◌else◌,
  Bool-cases, inl, inr, ◌⊎◌,
}
use pufferlab.Prelude.Result.{ok, >>=-eq-ok, some-injective}
use pufferlab.Evals.Float.{Float}
use pufferlab.Evals.Models.{Judgment, QueryMetrics, check_metrics}
use pufferlab.Evals.Metrics.{
  Normalized, normalize_judgments, is_positive, first_relevant_rank, relevant_ids, mrr_cutoff,
  reciprocal_rank, undefined_metrics, defined_metrics, evaluate_ranking,
}
use pufferlab.Evals.Metrics.Judged.{normalize_from-chosen, contains-relevant, check_metrics-ok}

-- Some judgment of the document is positive.
abbrev pub is_relevant : List Judgment → ℕ → Bool
is_relevant judgments id = some_of (λ j. id == j.document_id && is_positive j) judgments

-- The document at the index `n` is the first that `p` chooses.
abbrev pub IsFirst : (ℕ → Bool) → List ℕ → ℕ → Type 0
IsFirst p ids n =
    (some_of p (take n ids) ≡ false) × ((id : ℕ) × (get_elem? ids n ≡ some id) × (p id ≡ true))

IsFirst-suc :
    (p : ℕ → Bool) (id n : ℕ) (ids : List ℕ)
    → p id ≡ false
    → IsFirst p ids n
    → IsFirst p (id ∷ ids) (suc n)
IsFirst-suc p id n ids e (before, (found, at, holds)) = (rw e before, (found, at, holds))

first_relevant_rank-none :
    (relevant : List ℕ) (rank : ℕ) (ids : List ℕ)
    → first_relevant_rank relevant rank ids ≡ none
    → some_of (λ id. contains id relevant) ids ≡ false
first_relevant_rank-none relevant rank [] h = refl
first_relevant_rank-none relevant rank (id ∷ ids) h =
    ground (arith, first_relevant_rank-none relevant (rank + 1) ids)

first_relevant_rank-IsFirst :
    (relevant : List ℕ) (rank r : ℕ) (ids : List ℕ)
    → first_relevant_rank relevant rank ids ≡ some r
    → (n : ℕ) × (r ≡ rank + n) × IsFirst (λ id. contains id relevant) ids n
first_relevant_rank-IsFirst relevant rank r [] h = absurd (cc h)
first_relevant_rank-IsFirst relevant rank r (id ∷ ids) h =
    elim (Bool-cases (contains id relevant)) [
      | inl holds ↦ (0, ground arith, (refl, (id, refl, holds)))
      | inr other ↦
          let (n, e, first) =
            first_relevant_rank-IsFirst relevant (rank + 1) r ids (ground arith) in
          (suc n, omega arith, IsFirst-suc (λ id. contains id relevant) id n ids other first)
    ]

take-IsFirst :
    (p : ℕ → Bool) (k n : ℕ) (ids : List ℕ) → IsFirst p (take k ids) n → (n < k) × IsFirst p ids n
take-IsFirst p zero n ids (before, (found, at, holds)) = absurd (ground arith)
take-IsFirst p (suc k) n [] (before, (found, at, holds)) = absurd (ground arith)
take-IsFirst p (suc k) zero (id ∷ ids) first = (omega arith, first)
take-IsFirst p (suc k) (suc n) (id ∷ ids) (before, (found, at, holds)) =
    let (lt, rest) = take-IsFirst p k n ids (ground arith, (found, at, holds)) in
    let no : p id ≡ false = ground arith in (omega arith, IsFirst-suc p id n ids no rest)

some_of-same :
    (p q : ℕ → Bool) (ids : List ℕ) → ((id : ℕ) → p id ≡ q id) → some_of p ids ≡ some_of q ids
some_of-same p q [] h = refl
some_of-same p q (id ∷ ids) h = ground (arith, h id, some_of-same p q ids h)

same-IsFirst :
    (p q : ℕ → Bool) (ids : List ℕ) (n : ℕ)
    → ((id : ℕ) → p id ≡ q id)
    → IsFirst p ids n
    → IsFirst q ids n
same-IsFirst p q ids n h (before, (found, at, holds)) =
    (sym (some_of-same p q (take n ids) h) ∙ before, (found, at, sym (h found) ∙ holds))

module _ {F : Type 0} ⦃f : Float F⦄ where
  -- `value` is 0 and no document of the first ten is relevant, or it is the quotient of 1 by the
  -- rank of the first relevant document.
  abbrev pub IsReciprocal : List ℕ → List Judgment → F → Type 0
  IsReciprocal ranked judgments value =
      ((value ≡ f.nought) × (some_of (is_relevant judgments) (take 10 ranked) ≡ false))
      ⊎ ((n : ℕ) × (value ≡ f.ratio 1 (n + 1))
          × (n < 10)
          × IsFirst (is_relevant judgments) ranked n)

  reciprocal_rank-IsReciprocal :
      (ranked relevant : List ℕ) (judgments : List Judgment) (rank : Option ℕ)
      → ((id : ℕ) → contains id relevant ≡ is_relevant judgments id)
      → first_relevant_rank relevant 1 (take mrr_cutoff ranked) ≡ rank
      → IsReciprocal ranked judgments (reciprocal_rank rank)
  reciprocal_rank-IsReciprocal ranked relevant judgments none same h = inl (
    refl,
    sym (
          some_of-same (λ id. contains id relevant) (is_relevant judgments) (take mrr_cutoff ranked)
            same)
        ∙ first_relevant_rank-none relevant 1 (take mrr_cutoff ranked) h,
  )
  reciprocal_rank-IsReciprocal ranked relevant judgments (some r) same h =
      let (n, e, first) = first_relevant_rank-IsFirst relevant 1 r (take mrr_cutoff ranked) h in
      let (lt, found) = take-IsFirst (λ id. contains id relevant) mrr_cutoff n ranked first in
      let here : r ≡ n + 1 = omega arith in
      inr (
        n,
        ap (f.ratio 1) here,
        lt,
        same-IsFirst (λ id. contains id relevant) (is_relevant judgments) ranked n same found,
      )

  if-reciprocal :
      (b : Bool) (x y m : QueryMetrics F) (value : F)
      → x.mrr_at_10 ≡ none
      → m.mrr_at_10 ≡ some value
      → (if b then check_metrics x else check_metrics y) ≡ ok m
      → m ≡ y
  if-reciprocal true x y m value e p h =
      let same = check_metrics-ok x m h in absurd (cc (same, e, p))
  if-reciprocal false x y m value e p h = check_metrics-ok y m h

  -- The reciprocal rank of an evaluated ranking is 0 when none of its first ten documents has a
  -- positive judgment, and otherwise the quotient of 1 by the rank of the first that has one.
  pub evaluate_ranking-IsReciprocal :
      (ranked : List ℕ) (judgments : List Judgment) (m : QueryMetrics F) (value : F)
      → evaluate_ranking ranked judgments ≡ ok m
      → m.mrr_at_10 ≡ some value
      → IsReciprocal ranked judgments value
  unfolding evaluate_ranking
  evaluate_ranking-IsReciprocal ranked judgments m value h p =
      let start : Normalized = record { grades = []; warned_ids = [] } in
      let (n, e, h1) = >>=-eq-ok (normalize_judgments judgments) _ h in
      let same =
        if-reciprocal (length (keep is_positive n.grades) == 0) (undefined_metrics n)
          (defined_metrics ranked n) m value refl p h1 in
      let relevant = relevant_ids n in
      let rank = first_relevant_rank relevant 1 (take mrr_cutoff ranked) in
      subst (IsReciprocal ranked judgments)
        (sym (some-injective (sym p ∙ ap (λ x. x.mrr_at_10) same)))
        (reciprocal_rank-IsReciprocal ranked relevant judgments rank
          (λ id.
            contains-relevant id n.grades
            ∙ normalize_from-chosen (λ a. id == a) judgments start n e)
          refl)
