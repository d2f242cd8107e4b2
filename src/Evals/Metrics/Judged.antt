-- ===== src/Evals/Metrics/Judged.antt =====
-- Which judgments a ranking is measured by, and what its measures count.
use pufferlab.Prelude.{
  ℕ, ◌≤◌, ◌≡◌, refl, sym, ap, ◌∙◌, Bool, true, false, not, ◌&&◌, ◌||◌, Option, none, some, List, [],
  ◌∷◌, ◌++◌, ◌==◌, arith, length, keep, take, contains, distinct, is_some, some_of, ltb,
  if◌then◌else◌, Bool-cases, inl, inr,
}
use pufferlab.Prelude.Result.{ok, >>=-eq-ok, some-injective}
use pufferlab.Prelude.Subsets.{length-subset}
use pufferlab.Evals.Float.{Float}
use pufferlab.Evals.Models.{Judgment, QueryMetrics, check_metrics}
use pufferlab.Evals.Metrics.{
  Normalized, grade_of, normalize_one, normalize_from, normalize_judgments, is_positive, ids_of,
  retrieved_relevant, recall_cutoff, evaluate_judged, undefined_metrics, defined_metrics,
  relevant_ids, evaluate_ranking,
}

some_of-append :
    (p : Judgment → Bool) (xs ys : List Judgment)
    → some_of p (xs ++ ys) ≡ (some_of p xs || some_of p ys)
some_of-append p [] ys = refl
some_of-append p (x ∷ xs) ys = ground (arith, some_of-append p xs ys)

-- A positive judgment of a document that `q` chooses.
abbrev pub is_chosen : (ℕ → Bool) → Judgment → Bool
is_chosen q j = q j.document_id && is_positive j

grade_of-chosen :
    (q : ℕ → Bool) (id grade : ℕ) (js : List Judgment)
    → grade_of id js ≡ some grade
    → (q id && ltb 0 grade) ≡ true
    → some_of (is_chosen q) js ≡ true
grade_of-chosen q id grade [] h p = ground arith
grade_of-chosen q id grade (j ∷ js) h p = elim (Bool-cases (j.document_id == id)) [
  | inl same ↦
      let here : j.document_id ≡ id = ground arith in
      let chosen : q j.document_id ≡ true = ap q here ∙ ground arith in ground arith
  | inr other ↦ ground (arith, grade_of-chosen q id grade js)
]

normalize_one-chosen :
    (q : ℕ → Bool) (j : Judgment) (n n' : Normalized) (found : Option ℕ)
    → grade_of j.document_id n.grades ≡ found
    → normalize_one j n found ≡ ok n'
    → some_of (is_chosen q) n'.grades ≡ (some_of (is_chosen q) n.grades || is_chosen q j)
normalize_one-chosen q j n n' none e h =
    ground (arith, some_of-append (is_chosen q) n.grades (j ∷ []))
normalize_one-chosen q j n n' (some g) e h =
    ground (arith, grade_of-chosen q j.document_id g n.grades)

pub normalize_from-chosen :
    (q : ℕ → Bool) (js : List Judgment) (n n' : Normalized)
    → normalize_from js n ≡ ok n'
    → some_of (is_chosen q) n'.grades ≡ (some_of (is_chosen q) n.grades || some_of (is_chosen q) js)
unfolding normalize_from
normalize_from-chosen q [] n n' h = ground arith
normalize_from-chosen q (j ∷ js) n n' h =
    let (m, e, h1) = >>=-eq-ok (normalize_one j n (grade_of j.document_id n.grades)) _ h in
    let one = normalize_one-chosen q j n m (grade_of j.document_id n.grades) refl e in
    let more = normalize_from-chosen q js m n' h1 in ground arith

grade_of-none :
    (id : ℕ) (js : List Judgment) → grade_of id js ≡ none → contains id (ids_of js) ≡ false
grade_of-none id [] h = refl
grade_of-none id (j ∷ js) h = ground (arith, grade_of-none id js)

contains-snoc :
    (a : ℕ) (j : Judgment) (js : List Judgment)
    → contains a (ids_of (js ++ j ∷ [])) ≡ (contains a (ids_of js) || a == j.document_id)
contains-snoc a j [] = ground arith
contains-snoc a j (k ∷ js) = ground (arith, contains-snoc a j js)

distinct-snoc :
    (j : Judgment) (js : List Judgment)
    → contains j.document_id (ids_of js) ≡ false
    → distinct (ids_of js) ≡ true
    → distinct (ids_of (js ++ j ∷ [])) ≡ true
distinct-snoc j [] h d = refl
distinct-snoc j (k ∷ js) h d = ground (arith, distinct-snoc j js, contains-snoc k.document_id j js)

normalize_one-distinct :
    (j : Judgment) (n n' : Normalized) (found : Option ℕ)
    → grade_of j.document_id n.grades ≡ found
    → normalize_one j n found ≡ ok n'
    → distinct (ids_of n.grades) ≡ true
    → distinct (ids_of n'.grades) ≡ true
normalize_one-distinct j n n' none e h d =
    ground (arith, distinct-snoc j n.grades (grade_of-none j.document_id n.grades e) d)
normalize_one-distinct j n n' (some g) e h d = ground arith

normalize_from-distinct :
    (js : List Judgment) (n n' : Normalized)
    → normalize_from js n ≡ ok n'
    → distinct (ids_of n.grades) ≡ true
    → distinct (ids_of n'.grades) ≡ true
unfolding normalize_from
normalize_from-distinct [] n n' h d = ground arith
normalize_from-distinct (j ∷ js) n n' h d =
    let (m, e, h1) = >>=-eq-ok (normalize_one j n (grade_of j.document_id n.grades)) _ h in
    normalize_from-distinct js m n' h1
      (normalize_one-distinct j n m (grade_of j.document_id n.grades) refl e d)

-- The relevant ids are those of the positive grades, each once.
pub contains-relevant :
    (id : ℕ) (js : List Judgment)
    → contains id (ids_of (keep is_positive js)) ≡ some_of (is_chosen (λ a. id == a)) js
contains-relevant id [] = refl
contains-relevant id (j ∷ js) = ground (arith, contains-relevant id js)

contains-kept :
    (id : ℕ) (js : List Judgment)
    → contains id (ids_of js) ≡ false
    → contains id (ids_of (keep is_positive js)) ≡ false
contains-kept id [] h = refl
contains-kept id (j ∷ js) h = ground (arith, contains-kept id js)

distinct-relevant :
    (js : List Judgment)
    → distinct (ids_of js) ≡ true
    → distinct (ids_of (keep is_positive js)) ≡ true
distinct-relevant [] d = refl
distinct-relevant (j ∷ js) d = ground (arith, distinct-relevant js, contains-kept j.document_id js)

-- The number of ids that are counted: each relevant id at most once.
contains-retrieved :
    (relevant ids : List ℕ) (a : ℕ)
    → contains a (retrieved_relevant relevant ids) ≡ (contains a relevant && contains a ids)
contains-retrieved relevant [] a = ground arith
contains-retrieved relevant (id ∷ ids) a = elim (Bool-cases (a == id)) [
  | inl same ↦
      let here : a ≡ id = ground arith in
      let known : contains a relevant ≡ contains id relevant = ap (λ x. contains x relevant) here in
      let read : contains a (retrieved_relevant relevant ids)
          ≡ contains id (retrieved_relevant relevant ids) =
        ap (λ x. contains x (retrieved_relevant relevant ids)) here in
      ground (arith, contains-retrieved relevant ids a)
  | inr other ↦ ground (arith, contains-retrieved relevant ids a)
]

retrieved-distinct : (relevant ids : List ℕ) → distinct (retrieved_relevant relevant ids) ≡ true
retrieved-distinct relevant [] = refl
retrieved-distinct relevant (id ∷ ids) = ground (arith, retrieved-distinct relevant ids)

length-keep-some_of :
    (js : List Judgment) → (length (keep is_positive js) == 0) ≡ not (some_of is_positive js)
length-keep-some_of [] = refl
length-keep-some_of (j ∷ js) = ground (arith, length-keep-some_of js)

module _ {F : Type 0} ⦃f : Float F⦄ where
  pub check_metrics-ok : (x m : QueryMetrics F) → check_metrics x ≡ ok m → m ≡ x
  check_metrics-ok x m h = ground arith

  if-present :
      (b : Bool) (x y m : QueryMetrics F)
      → is_some x.recall_at_50 ≡ false
      → is_some y.recall_at_50 ≡ true
      → (if b then check_metrics x else check_metrics y) ≡ ok m
      → is_some m.recall_at_50 ≡ not b
  if-present true x y m p q h = rw (check_metrics-ok x m h) p
  if-present false x y m p q h = rw (check_metrics-ok y m h) q

  evaluate_judged-present :
      (ranked : List ℕ) (n : Normalized) (m : QueryMetrics F)
      → evaluate_judged ranked n ≡ ok m
      → is_some m.recall_at_50 ≡ not (length (keep is_positive n.grades) == 0)
  evaluate_judged-present ranked n m h =
      if-present (length (keep is_positive n.grades) == 0) (undefined_metrics n)
        (defined_metrics ranked n) m refl refl h

  -- A ranking that is evaluated has a recall exactly when some judgment is positive, whatever the
  -- ranking, and however often a judgment is repeated.
  pub evaluate_ranking-present :
      (ranked : List ℕ) (judgments : List Judgment) (m : QueryMetrics F)
      → evaluate_ranking ranked judgments ≡ ok m
      → is_some m.recall_at_50 ≡ some_of is_positive judgments
  unfolding evaluate_ranking
  evaluate_ranking-present ranked judgments m h =
      let (n, e, h1) = >>=-eq-ok (normalize_judgments judgments) _ h in
      let p = evaluate_judged-present ranked n m h1 in
      let q = length-keep-some_of n.grades in
      let r =
        normalize_from-chosen (λ _. true) judgments (record { grades = []; warned_ids = [] }) n e in
      ground arith

  if-recall :
      (b : Bool) (x y m : QueryMetrics F) (recall : F)
      → x.recall_at_50 ≡ none
      → m.recall_at_50 ≡ some recall
      → (if b then check_metrics x else check_metrics y) ≡ ok m
      → m ≡ y
  if-recall true x y m recall e p h = let same = check_metrics-ok x m h in absurd (cc (same, e, p))
  if-recall false x y m recall e p h = check_metrics-ok y m h

  -- `recall` is the quotient of the number of `hits` by the number of the `relevant` documents.
  abbrev pub IsRecall : List ℕ → List Judgment → F → Type 0
  IsRecall ranked judgments recall =
      (hits : List ℕ) × (relevant : List ℕ) × (recall ≡ f.ratio (length hits) (length relevant))
      × (distinct relevant ≡ true)
      × ((id : ℕ)
          → contains id relevant ≡ some_of (λ j. id == j.document_id && is_positive j) judgments)
      × (distinct hits ≡ true)
      × ((id : ℕ) → contains id hits ≡ (contains id relevant && contains id (take 50 ranked)))
      × (length hits ≤ length relevant)

  -- The recall of an evaluated ranking is the quotient of two numbers of documents. The second
  -- counts the documents with a positive judgment, each once. The first counts exactly those of
  -- them that are among the first fifty of the ranking, each once, and so at most all.
  pub evaluate_ranking-IsRecall :
      (ranked : List ℕ) (judgments : List Judgment) (m : QueryMetrics F) (recall : F)
      → evaluate_ranking ranked judgments ≡ ok m
      → m.recall_at_50 ≡ some recall
      → IsRecall ranked judgments recall
  unfolding evaluate_ranking
  evaluate_ranking-IsRecall ranked judgments m recall h p =
      let start : Normalized = record { grades = []; warned_ids = [] } in
      let (n, e, h1) = >>=-eq-ok (normalize_judgments judgments) _ h in
      let same =
        if-recall (length (keep is_positive n.grades) == 0) (undefined_metrics n)
          (defined_metrics ranked n) m recall refl p h1 in
      let relevant = relevant_ids n in
      let top = take recall_cutoff ranked in
      let hits = retrieved_relevant relevant top in
      (
        hits,
        relevant,
        some-injective (sym p ∙ ap (λ x. x.recall_at_50) same),
        distinct-relevant n.grades (normalize_from-distinct judgments start n e refl),
        λ id.
            contains-relevant id n.grades
            ∙ normalize_from-chosen (λ a. id == a) judgments start n e,
        retrieved-distinct relevant top,
        contains-retrieved relevant top,
        length-subset hits relevant (retrieved-distinct relevant top)
            (λ id c. ground (arith, contains-retrieved relevant top id)),
      )
