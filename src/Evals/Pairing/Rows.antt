-- ===== src/Evals/Pairing/Rows.antt =====
-- The rows of `paired_deltas`: one for each query of either side, in the order of the ids.
use mathlib.Core.Path.{subst}
use pufferlab.Prelude.{
  ℕ, ◌≡◌, refl, sym, ap, ◌∙◌, true, not, ◌||◌, List, [], ◌∷◌, map, arith, All, contains, ltb,
  distinct,
}
use pufferlab.Prelude.Result.{ok, raise_if, traverse, >>=-eq-ok, ok-injective}
use pufferlab.Prelude.Sort.{sort}
use pufferlab.Prelude.Increasing.{
  is_increasing, contains-sort, sort-increasing, distinct-union, contains-union,
}
use pufferlab.Evals.Float.{Float}
use pufferlab.Evals.Models.{
  repeated_baseline_ids, repeated_candidate_ids, QueryOutcome, PairedQueryDelta, check_delta,
}
use pufferlab.Evals.Pairing.{ids_of, by_id, all_ids, raw_pair, pair_one, paired_deltas}

module _ {F : Type 0} ⦃f : Float F⦄ where
  abbrev row_ids : List (PairedQueryDelta F) → List ℕ
  row_ids rows = map (λ row. row.query_id) rows

  check_delta-ok : (d row : PairedQueryDelta F) → check_delta d ≡ ok row → row ≡ d
  check_delta-ok d row h = ground arith

  module _ (baseline candidate : List (QueryOutcome F)) where
    abbrev row_of : ℕ → PairedQueryDelta F
    row_of id = raw_pair id (by_id id baseline) (by_id id candidate)

    traverse-rows :
        (ids : List ℕ) (rows : List (PairedQueryDelta F))
        → traverse (λ id. pair_one id (by_id id baseline) (by_id id candidate)) ids ≡ ok rows
        → rows ≡ map row_of ids
    unfolding pair_one
    traverse-rows [] rows h = sym (ok-injective h)
    traverse-rows (id ∷ ids) rows h =
        let (row, e, h1) = >>=-eq-ok (pair_one id (by_id id baseline) (by_id id candidate)) _ h in
        let (rest, e', h2) =
          >>=-eq-ok (traverse (λ id. pair_one id (by_id id baseline) (by_id id candidate)) ids) _
            h1 in
        sym (ok-injective h2)
        ∙ ap (λ r. r ∷ rest) (check_delta-ok (row_of id) row e)
        ∙ ap (λ rs. row_of id ∷ rs) (traverse-rows ids rest e')

    paired_deltas-map :
        (rows : List (PairedQueryDelta F))
        → paired_deltas baseline candidate ≡ ok rows
        → (distinct (ids_of baseline) ≡ true)
          × (distinct (ids_of candidate) ≡ true)
          × (rows ≡ map row_of (sort ltb (all_ids baseline candidate)))
    unfolding paired_deltas
    paired_deltas-map rows h =
        let (_, c1, h1) =
          >>=-eq-ok (raise_if (not (distinct (ids_of baseline))) repeated_baseline_ids) _ h in
        let (_, c2, h2) =
          >>=-eq-ok (raise_if (not (distinct (ids_of candidate))) repeated_candidate_ids) _ h1 in
        (ground arith, ground arith, traverse-rows (sort ltb (all_ids baseline candidate)) rows h2)

    row_ids-map : (ids : List ℕ) → row_ids (map row_of ids) ≡ ids
    row_ids-map [] = refl
    row_ids-map (id ∷ ids) = ap (λ rest. id ∷ rest) (row_ids-map ids)

    All-row_of : (ids : List ℕ) → All (λ row. row ≡ row_of row.query_id) (map row_of ids)
    All-row_of [] = tt
    All-row_of (id ∷ ids) = (refl, All-row_of ids)

    -- One row for each query of either side, in the order of the ids.
    abbrev pub IsPairing : List (PairedQueryDelta F) → Type 0
    IsPairing rows =
        (is_increasing (row_ids rows) ≡ true)
        × ((id : ℕ)
            → contains id (row_ids rows)
              ≡ (contains id (ids_of baseline) || contains id (ids_of candidate)))
        × All (λ row. row ≡ row_of row.query_id) rows

    -- The rows that paired_deltas returns are in the strict order of their query ids, there is one
    -- for each query that the baseline or the candidate has and no other, and each is made of the
    -- outcomes of its own query on both sides.
    pub paired_deltas-rows :
        (rows : List (PairedQueryDelta F))
        → paired_deltas baseline candidate ≡ ok rows
        → IsPairing rows
    paired_deltas-rows rows h =
        let (b, c, e) = paired_deltas-map rows h in
        let ids = all_ids baseline candidate in
        let same : row_ids rows ≡ sort ltb ids = ap row_ids e ∙ row_ids-map (sort ltb ids) in
        (
          rw same (sort-increasing ids (distinct-union (ids_of baseline) (ids_of candidate) b c)),
          λ id.
              rw same
                (contains-sort id ids ∙ contains-union id (ids_of baseline) (ids_of candidate)),
          subst (All (λ row. row ≡ row_of row.query_id)) (sym e) (All-row_of (sort ltb ids)),
        )
