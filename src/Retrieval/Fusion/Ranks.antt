-- ===== src/Retrieval/Fusion/Ranks.antt =====
-- The entries of `reconstruct_rrf`: one for each document of the lists, with its ranks and its score.
use mathlib.Core.List.{append_assoc}
use mathlib.Core.Path.{subst}
use pufferlab.Prelude.{
  ℕ, suc, ◌+◌, ◌≡◌, refl, sym, ap, ◌∙◌, true, false, not, ◌||◌, Option, none, some, List, [], ◌∷◌,
  ◌++◌, ◌==◌, map, length, every, some_of, count_if, ltb, All, arith, if◌then◌else◌, Bool-cases,
  inl, inr, length-append,
}
use pufferlab.Prelude.Result.{ok, raise_if, >>=-eq-ok, ok-injective, raise_if-ok}
use pufferlab.Prelude.Sort.{sort, sort-All, count_if-sort}
use pufferlab.Evals.Float.{Float}
use pufferlab.Retrieval.Fusion.{
  DocumentId, same_id, RrfEntry, too_few_lists, weight_count, rank_constant_not_positive,
  bad_weight, duplicate_ids, Ranks, Table, has_id, is_key, no_ranks, set_rank, read_list,
  read_lists, score_of, entry_of, entry_lt, is_positive_weight, reconstruct_rrf,
}
use pufferlab.Retrieval.Fusion.Table.{
  same_id_iff, rank_from, rank_from-none, IsTable, IsTable-ext, ranked, some_of-add_rank,
  add_rank-IsTable,
}

-- The rank of a document in a list, from 1.
abbrev pub rank_in : DocumentId → List DocumentId → Option ℕ
rank_in d ids = rank_from 1 ids d

abbrev put : ℕ → Option ℕ → Ranks → Ranks
put index none ranks = ranks
put index (some rank) ranks = set_rank index rank ranks

same_in :
    (d id : DocumentId) (ids : List DocumentId) → same_id d id ≡ true → has_id d ids ≡ has_id id ids
same_in d id ids h = ap (λ x. has_id x ids) ((same_id_iff d id).0 h)

-- A document that was seen does not come again.
read_list-fresh :
    (width index rank : ℕ) (seen ids : List DocumentId) (table last : Table) (d : DocumentId)
    → read_list width index rank seen ids table ≡ ok last
    → has_id d seen ≡ true
    → has_id d ids ≡ false
unfolding read_list
read_list-fresh width index rank seen [] table last d h k = refl
read_list-fresh width index rank seen (id ∷ ids) table last d h k =
    let (_, new, rest) = >>=-eq-ok (raise_if (has_id id seen) duplicate_ids) _ h in
    let later =
      read_list-fresh width index (rank + 1) (id ∷ seen) ids _ last d rest (ground arith) in
    let open_id = raise_if-ok (has_id id seen) duplicate_ids new in
    let apart : same_id d id ≡ false = ground (arith, same_in d id seen, open_id) in
    rw (apart, later) refl

module _ (width index : ℕ) where
  placed : ℕ → List DocumentId → (DocumentId → Ranks) → DocumentId → Ranks
  placed rank ids ranks d = put index (rank_from rank ids d) (ranks d)

  placed-ranked :
      (rank : ℕ) (id : DocumentId) (ids : List DocumentId) (ranks : DocumentId → Ranks)
      (d : DocumentId)
      → (same_id d id ≡ true → has_id d ids ≡ false)
      → placed (rank + 1) ids (ranked index rank id ranks) d ≡ placed rank (id ∷ ids) ranks d
  unfolding placed rank_from
  placed-ranked rank id ids ranks d fresh = elim (Bool-cases (same_id d id)) [
    | inl e ↦ rw (e, rank_from-none (rank + 1) ids d (fresh e)) refl
    | inr e ↦ rw e refl
  ]

  read_list-IsTable :
      (rank : ℕ) (seen ids : List DocumentId) (ranks : DocumentId → Ranks) (table last : Table)
      → read_list width index rank seen ids table ≡ ok last
      → IsTable width ranks table
      → IsTable width (placed rank ids ranks) last
  unfolding read_list placed rank_from
  read_list-IsTable rank seen [] ranks table last h is =
      subst (IsTable width ranks) (ok-injective h) is
  read_list-IsTable rank seen (id ∷ ids) ranks table last h is =
      let (_, new, rest) = >>=-eq-ok (raise_if (has_id id seen) duplicate_ids) _ h in
      IsTable-ext width (placed (rank + 1) ids (ranked index rank id ranks)) _ last
        (λ d.
          placed-ranked rank id ids ranks d
            (λ e. read_list-fresh width index (rank + 1) (id ∷ seen) ids _ last d rest (rw e refl)))
        (read_list-IsTable (rank + 1) (id ∷ seen) ids (ranked index rank id ranks) _ last rest
          (add_rank-IsTable index rank id width ranks table is))

  some_of-read_list :
      (rank : ℕ) (seen ids : List DocumentId) (table last : Table) (d : DocumentId)
      → read_list width index rank seen ids table ≡ ok last
      → some_of (is_key d) last ≡ (some_of (is_key d) table || has_id d ids)
  unfolding read_list
  some_of-read_list rank seen [] table last d h =
      ap (some_of (is_key d)) (sym (ok-injective h)) ∙ ground arith
  some_of-read_list rank seen (id ∷ ids) table last d h =
      let (_, new, rest) = >>=-eq-ok (raise_if (has_id id seen) duplicate_ids) _ h in
      some_of-read_list (rank + 1) (id ∷ seen) ids _ last d rest
      ∙ ap (λ b. b || has_id d ids) (some_of-add_rank index rank id width d table)
      ∙ ground arith

abbrev pub ranks_in : DocumentId → List (List DocumentId) → Ranks
ranks_in d lists = map (rank_in d) lists

put-append :
    (index : ℕ) (rank : Option ℕ) (before after : Ranks)
    → length before ≡ index
    → put index rank (before ++ none ∷ after) ≡ (before ++ rank ∷ []) ++ after
put-append index none before after h = sym (append_assoc before (none ∷ []) after)
put-append index (some rank) [] after h = rw (← h) refl
put-append index (some rank) (r ∷ before) after h =
    rw (← h) (ap (λ rs. r ∷ rs) (put-append (length before) (some rank) before after refl))

-- The lists before `index` have given `before`; the others give their ranks.
read_lists-IsTable :
    (width index : ℕ) (lists : List (List DocumentId)) (before : DocumentId → Ranks)
    (table last : Table)
    → read_lists width index lists table ≡ ok last
    → ((d : DocumentId) → length (before d) ≡ index)
    → IsTable width (λ d. before d ++ no_ranks (length lists)) table
    → IsTable width (λ d. before d ++ ranks_in d lists) last
unfolding read_lists placed
read_lists-IsTable width index [] before table last h long is =
    subst (IsTable width (λ d. before d ++ [])) (ok-injective h) is
read_lists-IsTable width index (ids ∷ lists) before table last h long is =
    let (new, one, rest) = >>=-eq-ok (read_list width index 1 [] ids table) _ h in
    let all = λ (d : DocumentId). before d ++ rank_in d ids ∷ [] in
    IsTable-ext width (λ d. all d ++ ranks_in d lists) _ last
      (λ d. append_assoc (before d) (rank_in d ids ∷ []) (ranks_in d lists))
      (read_lists-IsTable width (index + 1) lists all new last rest
        (λ d. length-append (before d) (rank_in d ids ∷ []) ∙ ap (λ n. n + 1) (long d))
        (IsTable-ext width
          (placed width index 1 ids (λ d. before d ++ no_ranks (suc (length lists)))) _ new
          (λ d. put-append index (rank_in d ids) (before d) (no_ranks (length lists)) (long d))
          (read_list-IsTable width index 1 [] ids (λ d. before d ++ no_ranks (suc (length lists)))
            table new one is)))

some_of-read_lists :
    (width index : ℕ) (lists : List (List DocumentId)) (table last : Table) (d : DocumentId)
    → read_lists width index lists table ≡ ok last
    → some_of (is_key d) last ≡ (some_of (is_key d) table || some_of (has_id d) lists)
unfolding read_lists
some_of-read_lists width index [] table last d h =
    ap (some_of (is_key d)) (sym (ok-injective h)) ∙ ground arith
some_of-read_lists width index (ids ∷ lists) table last d h =
    let (new, one, rest) = >>=-eq-ok (read_list width index 1 [] ids table) _ h in
    some_of-read_lists width (index + 1) lists new last d rest
    ∙ ap (λ b. b || some_of (has_id d) lists)
        (some_of-read_list width index 1 [] ids table new d one)
    ∙ ground arith

module _ {F : Type 0} ⦃f : Float F⦄ (lists : List (List DocumentId)) (constant : ℕ)
    (weights : List F) where
  -- Each entry has the ranks of its document in the lists and the score of these ranks, and each
  -- document of the lists, and no other, has an entry, which is one.
  pub record IsFusion (entries : List (RrfEntry F)) : Type 0 where
    pub each :
        All
          (λ entry.
            (entry.source_ranks ≡ ranks_in entry.document_id lists)
            × (entry.score ≡ score_of constant weights (ranks_in entry.document_id lists)))
          entries
    pub once :
        (d : DocumentId)
        → count_if (λ entry. same_id d entry.document_id) entries
          ≡ (if some_of (has_id d) lists then 1 else 0)

  All-entries :
      (table : Table)
      → All (λ row. row.1 ≡ ranks_in row.0 lists) table
      → All
          (λ entry.
            (entry.source_ranks ≡ ranks_in entry.document_id lists)
            × (entry.score ≡ score_of constant weights (ranks_in entry.document_id lists)))
          (map (entry_of constant weights) table)
  All-entries [] h = tt
  All-entries (row ∷ table) h = ((h.0, ap (score_of constant weights) h.0), All-entries table h.1)

  count_if-entries :
      (d : DocumentId) (table : Table)
      → count_if (λ entry. same_id d entry.document_id) (map (entry_of constant weights) table)
        ≡ count_if (is_key d) table
  count_if-entries d [] = refl
  count_if-entries d (row ∷ table) = rw (count_if-entries d table) refl

  table-IsFusion :
      (table : Table)
      → read_lists (length lists) 0 lists [] ≡ ok table
      → IsFusion (sort entry_lt (map (entry_of constant weights) table))
  table-IsFusion table h =
      let is =
        read_lists-IsTable (length lists) 0 lists (λ d. []) [] table h (λ d. refl)
          (record { rows = tt; absent = λ d k. refl; once = λ d. refl }) in
      record {
        each =
            sort-All entry_lt _ (map (entry_of constant weights) table) (All-entries table is.rows);
        once = λ d.
            count_if-sort entry_lt (λ entry. same_id d entry.document_id)
              (map (entry_of constant weights) table)
            ∙ count_if-entries d table
            ∙ is.once d
            ∙ ap (λ b. if b then 1 else 0) (some_of-read_lists (length lists) 0 lists [] table d h);
      }

  -- A fusion that is returned has one entry for each document of the lists, however many of them
  -- have it, and no other. Its ranks are the places of the document in the lists, from 1, absent
  -- where a list has it not, and its score is the sum over these ranks.
  pub reconstruct_rrf-IsFusion :
      (entries : List (RrfEntry F))
      → reconstruct_rrf lists constant weights ≡ ok entries
      → IsFusion entries
  unfolding reconstruct_rrf
  reconstruct_rrf-IsFusion entries h =
      let (_, _, h1) = >>=-eq-ok (raise_if (ltb (length lists) 2) too_few_lists) _ h in
      let (_, _, h2) =
        >>=-eq-ok (raise_if (not (length weights == length lists)) weight_count) _ h1 in
      let (_, _, h3) = >>=-eq-ok (raise_if (ltb constant 1) rank_constant_not_positive) _ h2 in
      let (_, _, h4) =
        >>=-eq-ok (raise_if (not (every is_positive_weight weights)) bad_weight) _ h3 in
      let (table, read, h5) = >>=-eq-ok (read_lists (length lists) 0 lists []) _ h4 in
      subst IsFusion (ok-injective h5) (table-IsFusion table read)
