-- ===== src/Retrieval/Fusion/Table.antt =====
-- The table of `reconstruct_rrf`: each document of the lists is a key once, with its rank in each list.
use text.Mathlib.TextEquality.{eq_iff}
use pufferlab.Prelude.{
  ℕ, ◌+◌, ◌≡◌, refl, sym, ap, ◌∙◌, ◌↔◌, true, false, ◌||◌, Option, none, some, List, [], ◌∷◌, ◌++◌,
  ==_iff, map, some_of, count_if, All, All-append, All-map, arith, if◌then◌else◌, Bool-cases, inl,
  inr,
}
use pufferlab.Prelude.Int.{pos, negsuc}
use pufferlab.Retrieval.Fusion.{
  DocumentId, name, number, same_id, Ranks, Table, has_id, is_key, no_ranks, set_rank, set_row,
  add_rank,
}

pub same_id_iff : (a b : DocumentId) → (same_id a b ≡ true) ↔ (a ≡ b)
same_id_iff (name s) (name t) = (λ h. ap name ((eq_iff s t).0 h), λ e. (eq_iff s t).1 cc)
same_id_iff (number (pos a)) (number (pos b)) =
    (λ h. ap (λ n. number (pos n)) ((==_iff a b).0 h), λ e. (==_iff a b).1 cc)
same_id_iff (number (negsuc a)) (number (negsuc b)) =
    (λ h. ap (λ n. number (negsuc n)) ((==_iff a b).0 h), λ e. (==_iff a b).1 cc)
same_id_iff (number (pos a)) (number (negsuc b)) = (λ h. cc, λ e. cc)
same_id_iff (number (negsuc a)) (number (pos b)) = (λ h. cc, λ e. cc)
same_id_iff (name s) (number b) = (λ h. cc, λ e. cc)
same_id_iff (number a) (name t) = (λ h. cc, λ e. cc)

pub same_id_refl : (a : DocumentId) → same_id a a ≡ true
same_id_refl a = (same_id_iff a a).1 refl

same_id_sym : (a b : DocumentId) → same_id a b ≡ same_id b a
same_id_sym a b = elim (Bool-cases (same_id a b)) [
  | inl h ↦ h ∙ sym ((same_id_iff b a).1 (sym ((same_id_iff a b).0 h)))
  | inr h ↦ elim (Bool-cases (same_id b a)) [
    | inl k ↦ (same_id_iff a b).1 (sym ((same_id_iff b a).0 k)) ∙ sym k
    | inr k ↦ h ∙ sym k
  ]
]

-- The rank of a document in a list whose first rank is given.
unfoldable pub rank_from : ℕ → List DocumentId → DocumentId → Option ℕ
rank_from rank [] d = none
rank_from rank (id ∷ ids) d = if same_id d id then some rank else rank_from (rank + 1) ids d

pub rank_from-none :
    (rank : ℕ) (ids : List DocumentId) (d : DocumentId)
    → has_id d ids ≡ false
    → rank_from rank ids d ≡ none
unfolding rank_from
rank_from-none rank [] d h = refl
rank_from-none rank (id ∷ ids) d h =
    let other : same_id d id ≡ false = ground arith in
    rw other (rank_from-none (rank + 1) ids d (ground arith))

-- A table whose rows are the values of `ranks`.
pub record IsTable (width : ℕ) (ranks : DocumentId → Ranks) (table : Table) : Type 0 where
  pub rows : All (λ row. row.1 ≡ ranks row.0) table
  pub absent : (d : DocumentId) → some_of (is_key d) table ≡ false → ranks d ≡ no_ranks width
  pub once :
      (d : DocumentId) → count_if (is_key d) table ≡ (if some_of (is_key d) table then 1 else 0)

pub IsTable-ext :
    (width : ℕ) (old new : DocumentId → Ranks) (table : Table)
    → ((d : DocumentId) → old d ≡ new d)
    → IsTable width old table
    → IsTable width new table
IsTable-ext width old new table same is = record {
  rows = All-map (λ row e. e ∙ same row.0) table is.rows;
  absent = λ d h. sym (same d) ∙ is.absent d h;
  once = is.once;
}

module _ (index rank : ℕ) (id : DocumentId) where
  abbrev pub ranked : (DocumentId → Ranks) → DocumentId → Ranks
  ranked ranks d = if same_id d id then set_rank index rank (ranks d) else ranks d

  is_key-set_row :
      (d : DocumentId) (row : DocumentId × Ranks)
      → is_key d (set_row id index rank row) ≡ is_key d row
  is_key-set_row d row = elim (Bool-cases (same_id id row.0)) [
    | inl e ↦ rw e refl
    | inr e ↦ rw e refl
  ]

  some_of-set_row :
      (d : DocumentId) (table : Table)
      → some_of (is_key d) (map (set_row id index rank) table) ≡ some_of (is_key d) table
  some_of-set_row d [] = refl
  some_of-set_row d (row ∷ table) = rw (is_key-set_row d row, some_of-set_row d table) refl

  count_if-set_row :
      (d : DocumentId) (table : Table)
      → count_if (is_key d) (map (set_row id index rank) table) ≡ count_if (is_key d) table
  count_if-set_row d [] = refl
  count_if-set_row d (row ∷ table) = rw (is_key-set_row d row, count_if-set_row d table) refl

  rows-set_row :
      (ranks : DocumentId → Ranks) (table : Table)
      → All (λ row. row.1 ≡ ranks row.0) table
      → All (λ row. row.1 ≡ ranked ranks row.0) (map (set_row id index rank) table)
  rows-set_row ranks [] h = tt
  rows-set_row ranks (row ∷ table) h = elim (Bool-cases (same_id id row.0)) [
    | inl e ↦
        rw (e, same_id_sym row.0 id, e) (ap (set_rank index rank) h.0, rows-set_row ranks table h.1)
    | inr e ↦ rw (e, same_id_sym row.0 id, e) (h.0, rows-set_row ranks table h.1)
  ]

  some_of-last :
      (d : DocumentId) (ranks : Ranks) (table : Table)
      → some_of (is_key d) (table ++ (id, ranks) ∷ []) ≡ (some_of (is_key d) table || same_id d id)
  some_of-last d ranks [] = ground arith
  some_of-last d ranks (row ∷ table) = ground (arith, some_of-last d ranks table)

  count_if-last :
      (d : DocumentId) (ranks : Ranks) (table : Table)
      → count_if (is_key d) (table ++ (id, ranks) ∷ [])
        ≡ count_if (is_key d) table + (if same_id d id then 1 else 0)
  count_if-last d ranks [] = ground arith
  count_if-last d ranks (row ∷ table) = ground (arith, count_if-last d ranks table)

  -- A document with the id is a key where the id is.
  same_key :
      (d : DocumentId) (table : Table)
      → same_id d id ≡ true
      → some_of (is_key d) table ≡ some_of (is_key id) table
  same_key d table h = ap (λ x. some_of (is_key x) table) ((same_id_iff d id).0 h)

  not_same :
      (d : DocumentId) (table : Table)
      → some_of (is_key id) table ≡ true
      → some_of (is_key d) table ≡ false
      → same_id d id ≡ false
  not_same d table e h = ground (arith, same_key d table)

  rows-other :
      (ranks : DocumentId → Ranks) (table : Table)
      → some_of (is_key id) table ≡ false
      → All (λ row. row.1 ≡ ranks row.0) table
      → All (λ row. row.1 ≡ ranked ranks row.0) table
  rows-other ranks [] h rows = tt
  rows-other ranks (row ∷ table) h rows =
      let other : same_id row.0 id ≡ false = same_id_sym row.0 id ∙ ground arith in
      (rw other rows.0, rows-other ranks table (ground arith) rows.1)

  unchanged :
      (width : ℕ) (ranks : DocumentId → Ranks) (d : DocumentId)
      → same_id d id ≡ false
      → ranks d ≡ no_ranks width
      → ranked ranks d ≡ no_ranks width
  unchanged width ranks d other e = rw other e

  pub some_of-add_rank :
      (width : ℕ) (d : DocumentId) (table : Table)
      → some_of (is_key d) (add_rank width index rank id table)
        ≡ (some_of (is_key d) table || same_id d id)
  some_of-add_rank width d table = elim (Bool-cases (some_of (is_key id) table)) [
    | inl e ↦ rw e (some_of-set_row d table ∙ ground (arith, same_key d table))
    | inr e ↦ rw e (some_of-last d (set_rank index rank (no_ranks width)) table)
  ]

  pub add_rank-IsTable :
      (width : ℕ) (ranks : DocumentId → Ranks) (table : Table)
      → IsTable width ranks table
      → IsTable width (ranked ranks) (add_rank width index rank id table)
  add_rank-IsTable width ranks table is = elim (Bool-cases (some_of (is_key id) table)) [
    | inl e ↦ rw e (record {
      rows = rows-set_row ranks table is.rows;
      absent = λ d h.
          let gone : some_of (is_key d) table ≡ false = sym (some_of-set_row d table) ∙ h in
          unchanged width ranks d (not_same d table e gone) (is.absent d gone);
      once = λ d.
          count_if-set_row d table
          ∙ is.once d
          ∙ ap (λ b. if b then 1 else 0) (sym (some_of-set_row d table));
    })
    | inr e ↦
        let new = set_rank index rank (no_ranks width) in
        rw e (record {
          rows =
              All-append (λ row. row.1 ≡ ranked ranks row.0) table ((id, new) ∷ [])
                (rows-other ranks table e is.rows)
                (rw (same_id_refl id) (ap (set_rank index rank) (sym (is.absent id e)), tt));
          absent = λ d h.
              let both : (some_of (is_key d) table || same_id d id) ≡ false =
                sym (some_of-last d new table) ∙ h in
              unchanged width ranks d (ground arith) (is.absent d (ground arith));
          once = λ d. ground (
            arith,
            count_if-last d new table,
            some_of-last d new table,
            same_key d table,
            is.once d,
          );
        })
  ]
