-- ===== src/Persistence/Runs/Tables.antt =====
-- Reading and writing rows under their keys.
use pufferlab.Prelude.{
  ℕ, ◌≡◌, refl, ◌≢◌, Bool, true, false, none, some, List, [], ◌∷◌, ◌++◌, arith, Bool-cases,
  All-append, All-map₂, distinct, ◌||◌, inl, inr, ◌==◌, is_some, All, keep, contains, map,
}
use pufferlab.Persistence.Rows.{EvalRunRow, QueryOutcomeRow, find, write}
use pufferlab.Persistence.Selects.{is_run, is_outcome_of}
use pufferlab.Persistence.Runs.{put_outcome}

module _ {R : Type 0} where
  pub find-All :
      (p : R → Bool) (P : R → Type 0) (rows : List R) {row : R}
      → All P rows
      → find p rows ≡ some row
      → P row × (p row ≡ true)
  find-All p P [] h e = cc
  find-All p P (r ∷ rs) h e = elim (Bool-cases (p r)) [
    | inl yes_r ↦ ground (arith, yes_r)
    | inr no_r ↦ find-All p P rs h.1 (ground arith)
  ]

  pub write-All :
      (p : R → Bool) (P Q : R → Type 0) (new : R) (rows : List R)
      → ((row : R) → p row ≡ false → P row → Q row)
      → All P rows
      → Q new
      → All Q (write p new rows)
  write-All p P Q new [] keep h n = tt
  write-All p P Q new (r ∷ rs) keep h n = (
    elim (Bool-cases (p r)) [ inl e ↦ rw e n | inr e ↦ rw e (keep r e h.0) ],
    write-All p P Q new rs keep h.1 n,
  )

module _ {T : Type 0} where
  pub is_some-find-write :
      (id : ℕ) (new : EvalRunRow T) (rows : List (EvalRunRow T))
      → is_some (find (is_run id) (write (is_run new.id) new rows))
        ≡ is_some (find (is_run id) rows)
  is_some-find-write id new [] = refl
  is_some-find-write id new (r ∷ rs) = ground (arith, is_some-find-write id new rs)

  pub ids-write_run :
      (new : EvalRunRow T) (rows : List (EvalRunRow T))
      → map (λ row. row.id) (write (is_run new.id) new rows) ≡ map (λ row. row.id) rows
  ids-write_run new [] = refl
  ids-write_run new (r ∷ rs) = ground (arith, ids-write_run new rs)

  pub find-write_self :
      (id : ℕ) (row new : EvalRunRow T) (rows : List (EvalRunRow T))
      → find (is_run id) rows ≡ some row
      → new.id ≡ id
      → find (is_run id) (write (is_run new.id) new rows) ≡ some new
  find-write_self id row new [] h e = ground arith
  find-write_self id row new (r ∷ rs) h e = ground (arith, find-write_self id row new rs)

  pub find-write_ne :
      (id : ℕ) (new : EvalRunRow T) (rows : List (EvalRunRow T))
      → new.id ≢ id
      → find (is_run id) (write (is_run new.id) new rows) ≡ find (is_run id) rows
  find-write_ne id new [] h = refl
  find-write_ne id new (r ∷ rs) h = ground (arith, find-write_ne id new rs h)

  pub find-append_run :
      (id : ℕ) (new row : EvalRunRow T) (rows : List (EvalRunRow T))
      → find (is_run id) rows ≡ some row
      → find (is_run id) (rows ++ new ∷ []) ≡ some row
  find-append_run id new row [] h = cc
  find-append_run id new row (r ∷ rs) h = ground (arith, find-append_run id new row rs)

  contains-ids :
      (id : ℕ) (rows : List (EvalRunRow T))
      → find (is_run id) rows ≡ none
      → contains id (map (λ row. row.id) rows) ≡ false
  contains-ids id [] h = refl
  contains-ids id (r ∷ rs) h = ground (arith, contains-ids id rs)

  contains-append_run :
      (a : ℕ) (new : EvalRunRow T) (rows : List (EvalRunRow T))
      → contains a (map (λ row. row.id) (rows ++ new ∷ []))
        ≡ (contains a (map (λ row. row.id) rows) || a == new.id)
  contains-append_run a new [] = ground arith
  contains-append_run a new (r ∷ rs) = ground (arith, contains-append_run a new rs)

  not_contained :
      (a : ℕ) (rows : List (EvalRunRow T))
      → contains a (map (λ row. row.id) rows) ≡ false
      → All (λ row. row.id ≢ a) rows
  not_contained a [] h = tt
  not_contained a (r ∷ rs) h = (ground arith, not_contained a rs (ground arith))

  skip_head :
      (id : ℕ) (r : EvalRunRow T) (rs : List (EvalRunRow T)) (row : EvalRunRow T)
      → row.id ≢ r.id
      → (row.id ≡ id → find (is_run id) rs ≡ some row)
      → row.id ≡ id
      → find (is_run id) (r ∷ rs) ≡ some row
  skip_head id r rs row differs found e = ground (arith, found e)

  pub distinct-append_run :
      (new : EvalRunRow T) (rows : List (EvalRunRow T))
      → find (is_run new.id) rows ≡ none
      → distinct (map (λ row. row.id) rows) ≡ true
      → distinct (map (λ row. row.id) (rows ++ new ∷ [])) ≡ true
  distinct-append_run new [] h d = refl
  distinct-append_run new (r ∷ rs) h d =
      ground (arith, contains-append_run r.id new rs, distinct-append_run new rs)

  -- With distinct ids, every row is the one that its id finds.
  pub find-member :
      (id : ℕ) (rows : List (EvalRunRow T))
      → distinct (map (λ row. row.id) rows) ≡ true
      → All (λ row. row.id ≡ id → find (is_run id) rows ≡ some row) rows
  find-member id [] d = tt
  find-member id (r ∷ rs) d = (
    λ e. ground arith,
    All-map₂ (skip_head id r rs) rs (not_contained r.id rs (ground arith))
        (find-member id rs (ground arith)),
  )

  pub put_outcome-All :
      (P : QueryOutcomeRow T → Type 0) (new : QueryOutcomeRow T) (rows : List (QueryOutcomeRow T))
      → All P rows
      → P new
      → All P (put_outcome new rows)
  put_outcome-All P new rows h n =
      let key = is_outcome_of new.run_id new.config_id new.query_id in
      elim (find key rows)
        as (λ found. All P (elim found [ none ↦ rows ++ new ∷ [] | some _ ↦ write key new rows ])) [
          | none ↦ All-append P rows (new ∷ []) h (n, tt)
          | some _ ↦ write-All key P P new rows (λ _ _ r. r) h n
        ]
