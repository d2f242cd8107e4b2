-- ===== src/Evals/Pairing/Comparison.antt =====
-- The key of `order_quality_deltas` compares the rows that it may sort: each two are apart.
use pufferlab.Prelude.{
  ℕ, ◌≡◌, refl, sym, ◌∙◌, Bool, true, false, not, ◌||◌, Option, none, some, List, [], ◌∷◌, ◌==◌,
  ltb, map, arith, is_some, some_of, keep, All, contains, distinct,
}
use pufferlab.Prelude.Reversal.{IsApart, AllApart}
use pufferlab.Evals.Float.{Float}
use pufferlab.Evals.Models.{PairedQueryDelta, holds?}
use pufferlab.Evals.Pairing.{part_lt, delta_lt}

-- Finite floats are in a linear order; `==` of them is an equivalence that `<` respects.
pub record IsOrdered (F : Type 0) ⦃f : Float F⦄ : Type 0 where
  pub same_sym : (x y : F) → f.same x y ≡ f.same y x
  pub same_trans : (x y z : F) → f.same x y ≡ true → f.same y z ≡ true → f.same x z ≡ true
  pub lt_same : (x y : F) → f.lt x y ≡ true → f.same x y ≡ false
  pub lt_total :
      (x y : F)
      → f.is_finite x ≡ true
      → f.is_finite y ≡ true
      → f.same x y ≡ false
      → f.lt x y ≡ not (f.lt y x)
  pub lt_trans : (x y z : F) → f.lt x y ≡ true → f.lt y z ≡ true → f.lt x z ≡ true
  pub same_lt : (x y z : F) → f.same x y ≡ true → f.lt y z ≡ true → f.lt x z ≡ true
  pub lt_same_right : (x y z : F) → f.lt x y ≡ true → f.same y z ≡ true → f.lt x z ≡ true

-- A delta that is there is finite.
abbrev pub HasFiniteDeltas : {F : Type 0} ⦃f : Float F⦄ → PairedQueryDelta F → Type 0
HasFiniteDeltas ⦃f⦄ d =
    (holds? f.is_finite d.ndcg_delta ≡ true) × (holds? f.is_finite d.mrr_delta ≡ true)

module _ {F : Type 0} ⦃f : Float F⦄ (ordered : IsOrdered F) where
  -- A value that is there and finite.
  abbrev pub IsSolid : Option F → Type 0
  IsSolid o = (x : F) × (o ≡ some x) × (f.is_finite x ≡ true)

  part-total :
      (a b : F) (r r' : Bool)
      → f.is_finite a ≡ true
      → f.is_finite b ≡ true
      → r ≡ not r'
      → part_lt (some a) (some b) r ≡ not (part_lt (some b) (some a) r')
  part-total a b r r' fa fb h = ground (arith, ordered.same_sym a b, ordered.lt_total a b fa fb)

  part_trans :
      (a b c : F) (r1 r2 r3 : Bool)
      → (r1 ≡ true → r2 ≡ true → r3 ≡ true)
      → part_lt (some a) (some b) r1 ≡ true
      → part_lt (some b) (some c) r2 ≡ true
      → part_lt (some a) (some c) r3 ≡ true
  part_trans a b c r1 r2 r3 rest h k = ground (
    arith,
    ordered.same_sym a b,
    ordered.same_sym b c,
    ordered.same_trans a b c,
    ordered.same_trans b a c,
    ordered.same_trans a c b,
    ordered.lt_same a c,
    ordered.lt_trans a b c,
    ordered.same_lt a b c,
    ordered.lt_same_right a b c,
    rest,
  )

  -- A row whose two deltas are there and finite.
  pub record IsFiniteRow (d : PairedQueryDelta F) : Type 0 where
    pub ndcg : IsSolid d.ndcg_delta
    pub mrr : IsSolid d.mrr_delta

  delta_lt-IsApart :
      (x y : PairedQueryDelta F)
      → IsFiniteRow x
      → IsFiniteRow y
      → (x.query_id == y.query_id) ≡ false
      → IsApart delta_lt x y
  delta_lt-IsApart x y px py apart =
      let (a, ea, fa) = px.ndcg in
      let (b, eb, fb) = py.ndcg in
      let (a', ea', fa') = px.mrr in
      let (b', eb', fb') = py.mrr in
      rw (ea, eb, ea', eb') (part-total a b _ _ fa fb (part-total a' b' _ _ fa' fb' (ground arith)))

  rows-IsApart :
      (x : PairedQueryDelta F) (rows : List (PairedQueryDelta F))
      → IsFiniteRow x
      → All IsFiniteRow rows
      → contains x.query_id (map (λ d. d.query_id) rows) ≡ false
      → All (IsApart delta_lt x) rows
  rows-IsApart x [] px ps h = tt
  rows-IsApart x (y ∷ rows) px ps h =
      (delta_lt-IsApart x y px ps.0 (ground arith), rows-IsApart x rows px ps.1 (ground arith))

  pub delta_lt-solid :
      (x y : PairedQueryDelta F) (a b a' b' : F)
      → x.ndcg_delta ≡ some a
      → y.ndcg_delta ≡ some b
      → x.mrr_delta ≡ some a'
      → y.mrr_delta ≡ some b'
      → delta_lt x y
        ≡ part_lt (some a) (some b) (part_lt (some a') (some b') (ltb x.query_id y.query_id))
  delta_lt-solid x y a b a' b' ea eb ea' eb' = rw (ea, eb, ea', eb') refl

  pub delta_lt_trans :
      (x y z : PairedQueryDelta F)
      → IsFiniteRow x
      → IsFiniteRow y
      → IsFiniteRow z
      → delta_lt x y ≡ true
      → delta_lt y z ≡ true
      → delta_lt x z ≡ true
  delta_lt_trans x y z px py pz h k =
      let (a, ea, _) = px.ndcg in
      let (b, eb, _) = py.ndcg in
      let (d, ed, _) = pz.ndcg in
      let (a', ea', _) = px.mrr in
      let (b', eb', _) = py.mrr in
      let (d', ed', _) = pz.mrr in
      delta_lt-solid x z a d a' d' ea ed ea' ed'
      ∙ part_trans a b d _ _ _
          (part_trans a' b' d' _ _ _
            (λ (m : ltb x.query_id y.query_id ≡ true) (n : ltb y.query_id z.query_id ≡ true).
              ground arith))
          (sym (delta_lt-solid x y a b a' b' ea eb ea' eb') ∙ h)
          (sym (delta_lt-solid y z b d b' d' eb ed eb' ed') ∙ k)

  pub AllApart-rows :
      (rows : List (PairedQueryDelta F))
      → All IsFiniteRow rows
      → distinct (map (λ d. d.query_id) rows) ≡ true
      → AllApart delta_lt rows
  AllApart-rows [] ps d = tt
  AllApart-rows (row ∷ rows) ps d =
      (rows-IsApart row rows ps.0 ps.1 (ground arith), AllApart-rows rows ps.1 (ground arith))

  contains-kept :
      (p : PairedQueryDelta F → Bool) (id : ℕ) (rows : List (PairedQueryDelta F))
      → contains id (map (λ d. d.query_id) rows) ≡ false
      → contains id (map (λ d. d.query_id) (keep p rows)) ≡ false
  contains-kept p id [] h = refl
  contains-kept p id (row ∷ rows) h = ground (arith, contains-kept p id rows)

  pub distinct-kept :
      (p : PairedQueryDelta F → Bool) (rows : List (PairedQueryDelta F))
      → distinct (map (λ d. d.query_id) rows) ≡ true
      → distinct (map (λ d. d.query_id) (keep p rows)) ≡ true
  distinct-kept p [] h = refl
  distinct-kept p (row ∷ rows) h =
      ground (arith, distinct-kept p rows, contains-kept p row.query_id rows)

  solid : (o : Option F) → is_some o ≡ true → holds? f.is_finite o ≡ true → IsSolid o
  solid none h k = absurd (ground arith)
  solid (some x) h k = (x, refl, k)

  pub present-rows :
      (rows : List (PairedQueryDelta F))
      → some_of (λ d. not (is_some d.ndcg_delta) || not (is_some d.mrr_delta)) rows ≡ false
      → All HasFiniteDeltas rows
      → All IsFiniteRow rows
  present-rows [] h k = tt
  present-rows (d ∷ rows) h k = (
    record {
      ndcg = solid d.ndcg_delta (ground arith) k.0.0;
      mrr = solid d.mrr_delta (ground arith) k.0.1;
    },
    present-rows rows (ground arith) k.1,
  )
