-- ===== src/Evals/Pairing/Order.antt =====
-- The two orders of `order_quality_deltas`.
use pufferlab.Prelude.{
  ℕ, ◌≡◌, refl, sym, ap, ◌∙◌, Bool, true, false, not, ◌&&◌, ◌||◌, Option, some, List, [], ◌∷◌, ltb,
  map, arith, is_some, some_of, keep, All, All-keep, distinct, every, count_if, count_if-keep,
}
use pufferlab.Prelude.Result.{ok, raise_if, >>=-eq-ok}
use pufferlab.Prelude.Sort.{sort, sort-All, count_if-sort}
use pufferlab.Prelude.Reversal.{backwards, is_sorted, sort-is_sorted, sort-backwards}
use pufferlab.Evals.Float.{Float}
use pufferlab.Evals.Models.{repeated_query_ids, missing_deltas, PairedQueryDelta, is_paired}
use pufferlab.Evals.Pairing.{
  Direction, regressions, gains, part_lt, delta_lt, limited, order_quality_deltas,
}
use pufferlab.Evals.Pairing.Comparison.{
  IsOrdered, HasFiniteDeltas, IsFiniteRow, delta_lt-solid, delta_lt_trans, AllApart-rows,
  distinct-kept, present-rows,
}

module _ {F : Type 0} ⦃f : Float F⦄ where
  -- Both values are there, and the first is less.
  abbrev pub is_below : Option F → Option F → Bool
  is_below (some a) (some b) = f.lt a b
  is_below _ _ = false

  -- One list of rows, of which every call returns a first part, from one end or from the other.
  pub record IsOrdering (deltas : List (PairedQueryDelta F)) : Type 0 where
    pub rows : List (PairedQueryDelta F)
    pub counted :
        (p : PairedQueryDelta F → Bool)
        → count_if p rows ≡ count_if (λ d. is_paired d.status && p d) deltas
    pub sorted : is_sorted delta_lt rows ≡ true
    pub rising : is_sorted (λ x y. not (is_below y.ndcg_delta x.ndcg_delta)) rows ≡ true
    pub worst_first :
        (limit : Option ℕ) → order_quality_deltas deltas regressions limit ≡ ok (limited limit rows)
    pub best_first :
        (limit : Option ℕ)
        → order_quality_deltas deltas gains limit ≡ ok (limited limit (backwards rows))

module _ {F : Type 0} ⦃f : Float F⦄ (ordered : IsOrdered F) where
  is_below-lower :
      (x y : PairedQueryDelta F)
      → IsFiniteRow ordered x
      → IsFiniteRow ordered y
      → delta_lt x y ≡ true
      → not (is_below y.ndcg_delta x.ndcg_delta) ≡ true
  is_below-lower x y px py h =
      let (a, ea, fa) = px.ndcg in
      let (b, eb, fb) = py.ndcg in
      let (a', ea', _) = px.mrr in
      let (b', eb', _) = py.mrr in
      let low : part_lt (some a) (some b) (part_lt (some a') (some b') (ltb x.query_id y.query_id))
          ≡ true =
        sym (delta_lt-solid ordered x y a b a' b' ea eb ea' eb') ∙ h in
      rw (ea, eb)
        (ground (arith, ordered.same_sym a b, ordered.lt_total a b fa fb, ordered.lt_same b a))

  every-lower :
      (x : PairedQueryDelta F) (rows : List (PairedQueryDelta F))
      → IsFiniteRow ordered x
      → All (IsFiniteRow ordered) rows
      → every (delta_lt x) rows ≡ true
      → every (λ y. not (is_below y.ndcg_delta x.ndcg_delta)) rows ≡ true
  every-lower x [] px ps h = refl
  every-lower x (y ∷ rows) px ps h =
      let low = is_below-lower x y px ps.0 (ground arith) in
      let more = every-lower x rows px ps.1 (ground arith) in ground arith

  rising-is_sorted :
      (rows : List (PairedQueryDelta F))
      → All (IsFiniteRow ordered) rows
      → is_sorted delta_lt rows ≡ true
      → is_sorted (λ x y. not (is_below y.ndcg_delta x.ndcg_delta)) rows ≡ true
  rising-is_sorted [] ps h = refl
  rising-is_sorted (x ∷ rows) ps h =
      let low = every-lower x rows ps.0 ps.1 (ground arith) in
      let more = rising-is_sorted rows ps.1 (ground arith) in ground arith

  -- When a call of order_quality_deltas returns, in any order and with any limit, all calls on the
  -- same deltas return parts of one list of rows. The rows are the paired deltas, each as often as
  -- it was given. Each row is below all that follow it by the key of the sort, and its NDCG delta
  -- is not above any of theirs. The regressions of a limit are the first rows of the list, and the
  -- gains of a limit are the first rows of the reversed list. Without a limit they are all of them.
  -- The deltas that are there are finite, and finite floats are in a linear order.
  pub order_quality_deltas-IsOrdering :
      (deltas : List (PairedQueryDelta F)) (order : Direction) (limit : Option ℕ)
      (chosen : List (PairedQueryDelta F))
      → All HasFiniteDeltas deltas
      → order_quality_deltas deltas order limit ≡ ok chosen
      → IsOrdering deltas
  unfolding order_quality_deltas
  order_quality_deltas-IsOrdering deltas order limit chosen finite h =
      let kept = keep (λ d. is_paired d.status) deltas in
      let missing = some_of (λ d. not (is_some d.ndcg_delta) || not (is_some d.mrr_delta)) kept in
      let (_, unique, h1) =
        >>=-eq-ok (raise_if (not (distinct (map (λ d. d.query_id) deltas))) repeated_query_ids) _
          h in
      let (_, present, _) = >>=-eq-ok (raise_if missing missing_deltas) _ h1 in
      let distinct_ids : distinct (map (λ d. d.query_id) deltas) ≡ true = ground arith in
      let none_missing : missing ≡ false = ground arith in
      let solid_rows =
        present-rows ordered kept none_missing
          (All-keep HasFiniteDeltas (λ d. is_paired d.status) deltas finite) in
      let apart =
        AllApart-rows ordered kept solid_rows
          (distinct-kept ordered (λ d. is_paired d.status) deltas distinct_ids) in
      let sorted =
        sort-is_sorted delta_lt (IsFiniteRow ordered) (delta_lt_trans ordered) kept solid_rows
          apart in
      record {
        rows = sort delta_lt kept;
        counted =
            λ p. count_if-sort delta_lt p kept ∙ count_if-keep (λ d. is_paired d.status) p deltas;
        sorted = sorted;
        rising =
            rising-is_sorted (sort delta_lt kept)
              (sort-All delta_lt (IsFiniteRow ordered) kept solid_rows) sorted;
        worst_first = λ limit. rw (distinct_ids, none_missing) refl;
        best_first = λ limit.
            rw (distinct_ids, none_missing)
              (ap (λ l. ok (limited limit l))
                (sort-backwards delta_lt (IsFiniteRow ordered) (delta_lt_trans ordered) kept
                  solid_rows apart));
      }
