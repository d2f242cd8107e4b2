-- ===== src/Persistence/Runs/OtherRuns.antt =====
-- What is written for one run leaves what is selected for the other runs.
use mathlib.Core.Path.{ap₂}
use pufferlab.Prelude.{
  ℕ, suc, ◌+◌, ◌≡◌, refl, ap, ◌∙◌, ◌≢◌, Bool, ◌&&◌, List, [], ◌∷◌, ◌++◌, arith, All-map, ◌==◌,
  if◌then◌else◌, All, keep, count_if, count_if-ext, map, ltb,
}
use pufferlab.Prelude.Sort.{sort}
use pufferlab.Persistence.Records.{QueryOutcomeStatus, same_outcome_status}
use pufferlab.Persistence.Rows.{RunConfigRow, QueryOutcomeRow, write}
use pufferlab.Persistence.Selects.{
  is_outcome_of, outcome_query_ids, outcomes_of_query, run_config_count, run_config_ids,
  completed_query_count,
}
use pufferlab.Persistence.Transition.Coverage.{IsCovered}
use pufferlab.Persistence.Runs.{put_outcome, bindings}

-- An outcome of one run leaves what is selected for the other runs as it was.
module _ {T : Type 0} (new : QueryOutcomeRow T) (run : ℕ) (other : run ≢ new.run_id) where
  abbrev key : QueryOutcomeRow T → Bool
  key = is_outcome_of new.run_id new.config_id new.query_id

  ids-write :
      (rows : List (QueryOutcomeRow T))
      → outcome_query_ids run (write key new rows) ≡ outcome_query_ids run rows
  ids-write [] = refl
  ids-write (r ∷ rs) = ground (arith, ids-write rs)

  ids-append :
      (rows : List (QueryOutcomeRow T))
      → outcome_query_ids run (rows ++ new ∷ []) ≡ outcome_query_ids run rows
  ids-append [] = ground arith
  ids-append (r ∷ rs) = ground (arith, ids-append rs)

  count-write :
      (q : QueryOutcomeRow T → Bool) (rows : List (QueryOutcomeRow T))
      → count_if (λ row. row.run_id == run && q row) (write key new rows)
        ≡ count_if (λ row. row.run_id == run && q row) rows
  count-write q [] = refl
  count-write q (r ∷ rs) = ground (arith, count-write q rs)

  count-append :
      (q : QueryOutcomeRow T → Bool) (rows : List (QueryOutcomeRow T))
      → count_if (λ row. row.run_id == run && q row) (rows ++ new ∷ [])
        ≡ count_if (λ row. row.run_id == run && q row) rows
  count-append q [] = ground arith
  count-append q (r ∷ rs) = ground (arith, count-append q rs)

  keep-write :
      (rows : List (QueryOutcomeRow T))
      → keep (λ row. row.run_id == run) (write key new rows) ≡ keep (λ row. row.run_id == run) rows
  keep-write [] = refl
  keep-write (r ∷ rs) = ground (arith, keep-write rs)

  keep-append_outcome :
      (rows : List (QueryOutcomeRow T))
      → keep (λ row. row.run_id == run) (rows ++ new ∷ []) ≡ keep (λ row. row.run_id == run) rows
  keep-append_outcome [] = ground arith
  keep-append_outcome (r ∷ rs) = ground (arith, keep-append_outcome rs)

  pub keep-put_outcome :
      (rows : List (QueryOutcomeRow T))
      → keep (λ row. row.run_id == run) (put_outcome new rows)
        ≡ keep (λ row. row.run_id == run) rows
  keep-put_outcome rows = ground (arith, keep-write rows, keep-append_outcome rows)

  ids-put_outcome :
      (rows : List (QueryOutcomeRow T))
      → outcome_query_ids run (put_outcome new rows) ≡ outcome_query_ids run rows
  ids-put_outcome rows = ground (arith, ids-write rows, ids-append rows)

  pub count-put_outcome :
      (q : QueryOutcomeRow T → Bool) (rows : List (QueryOutcomeRow T))
      → count_if (λ row. row.run_id == run && q row) (put_outcome new rows)
        ≡ count_if (λ row. row.run_id == run && q row) rows
  count-put_outcome q rows = ground (arith, count-write q rows, count-append q rows)

  pub completed-put_outcome :
      (configs : List RunConfigRow) (rows : List (QueryOutcomeRow T))
      → completed_query_count configs (put_outcome new rows) run
        ≡ completed_query_count configs rows run
  unfolding completed_query_count
  completed-put_outcome configs rows =
      let k = run_config_count run configs in
      let same =
        count_if-ext
          (λ (query : ℕ).
            ap (λ n. n == k)
              (count-put_outcome (λ (row : QueryOutcomeRow T). row.query_id == query) rows))
          (outcome_query_ids run rows) in
      rw (ids-put_outcome rows) (ap (λ n. if k == 0 then 0 else n) same)

  pub IsCovered-put_outcome :
      (configs : List RunConfigRow) (rows : List (QueryOutcomeRow T)) (total : ℕ)
      → IsCovered configs rows run total
      → IsCovered configs (put_outcome new rows) run total
  IsCovered-put_outcome configs rows total h =
      All-map
        (λ (id : ℕ) e.
          let same = λ (status : QueryOutcomeStatus).
            count-put_outcome
              (λ (row : QueryOutcomeRow T).
                row.config_id == id && same_outcome_status row.status status)
              rows in
          ap₂ ◌+◌ (same QueryOutcomeStatus.succeeded) (same QueryOutcomeStatus.failed) ∙ e)
        (run_config_ids run configs) h

-- What is bound to a new run leaves the bindings of the other runs as they were.
module _ (run other : ℕ) (differs : run ≢ other) where
  count-bindings :
      (ordinal : ℕ) (ids : List ℕ) → run_config_count run (bindings other ordinal ids) ≡ 0
  count-bindings ordinal [] = refl
  count-bindings ordinal (id ∷ ids) = ground (arith, count-bindings (suc ordinal) ids)

  keep-bindings :
      (ordinal : ℕ) (ids : List ℕ)
      → keep (λ row. row.run_id == run) (bindings other ordinal ids) ≡ []
  keep-bindings ordinal [] = refl
  keep-bindings ordinal (id ∷ ids) = ground (arith, keep-bindings (suc ordinal) ids)

  count-append_bindings :
      (rows : List RunConfigRow) (ordinal : ℕ) (ids : List ℕ)
      → run_config_count run (rows ++ bindings other ordinal ids) ≡ run_config_count run rows
  count-append_bindings [] ordinal ids = count-bindings ordinal ids
  count-append_bindings (r ∷ rs) ordinal ids = ground (arith, count-append_bindings rs ordinal ids)

  pub keep-append_bindings :
      (rows : List RunConfigRow) (ordinal : ℕ) (ids : List ℕ)
      → keep (λ row. row.run_id == run) (rows ++ bindings other ordinal ids)
        ≡ keep (λ row. row.run_id == run) rows
  keep-append_bindings [] ordinal ids = keep-bindings ordinal ids
  keep-append_bindings (r ∷ rs) ordinal ids = ground (arith, keep-append_bindings rs ordinal ids)

  pub ids-append_bindings :
      (rows : List RunConfigRow) (ordinal : ℕ) (ids : List ℕ)
      → run_config_ids run (rows ++ bindings other ordinal ids) ≡ run_config_ids run rows
  unfolding run_config_ids
  ids-append_bindings rows ordinal ids =
      ap (λ kept. map (λ row. row.config_id) (sort (λ a b. ltb a.ordinal b.ordinal) kept))
        (keep-append_bindings rows ordinal ids)

  pub completed-append_bindings :
      {T : Type 0} (outcomes : List (QueryOutcomeRow T)) (rows : List RunConfigRow) (ordinal : ℕ)
      (ids : List ℕ)
      → completed_query_count (rows ++ bindings other ordinal ids) outcomes run
        ≡ completed_query_count rows outcomes run
  unfolding completed_query_count
  completed-append_bindings outcomes rows ordinal ids =
      ap
        (λ k.
          if k == 0
          then 0
          else count_if (λ query. outcomes_of_query run outcomes query == k)
              (outcome_query_ids run outcomes))
        (count-append_bindings rows ordinal ids)

-- A run with no outcome has no completed query.
module _ {T : Type 0} (run : ℕ) where
  ids_none :
      (rows : List (QueryOutcomeRow T))
      → All (λ row. row.run_id ≢ run) rows
      → outcome_query_ids run rows ≡ []
  ids_none [] h = refl
  ids_none (r ∷ rs) h = ground (arith, ids_none rs h.1)

  pub completed_none :
      (configs : List RunConfigRow) (rows : List (QueryOutcomeRow T))
      → All (λ row. row.run_id ≢ run) rows
      → completed_query_count configs rows run ≡ 0
  unfolding completed_query_count
  completed_none configs rows h = ground (arith, ids_none rows h)
