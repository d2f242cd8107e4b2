-- ===== src/Jobs/Runner/Completes.antt =====
-- The summaries that `finalize_durable_outcomes` makes of a run's stored outcomes are those that the
-- repository asks for when the run completes.
use mathlib.Core.Path.{subst}
use pufferlab.Prelude.{
  ℕ, zero, suc, ◌+◌, ◌≤◌, ◌≡◌, refl, sym, ap, ◌∙◌, true, false, ◌&&◌, none, some, List, [], ◌∷◌,
  ltb, ◌==◌, ==_refl, keep, take, length, count_if, distinct, same_list, All, arith,
}
use pufferlab.Prelude.Result.{
  ok, raise_if, traverse, >>=-eq-ok, Gives, gives_cons, traverse-Gives, raise_if-ok,
}
use pufferlab.Prelude.Sort.{sort, count_if-sort}
use pufferlab.Persistence.Errors.{validation_error}
use pufferlab.Persistence.Records.{
  ConfigRunSummary, QueryOutcomeStatus, EvalRun, QueryOutcome, same_outcome_status, config_ids,
}
use pufferlab.Persistence.Codec.{Codecs}
use pufferlab.Persistence.Rows.{EvalRunRow, QueryOutcomeRow, Db, decode_run_row, decode_outcome_row}
use pufferlab.Persistence.Selects.{require_run, outcome_count, run_config_ids}
use pufferlab.Persistence.Transition.{all_exact, validate_completion_summaries}
use pufferlab.Persistence.Reads.{max_outcome_rows, by_query, list_outcomes}
use pufferlab.Evals.Float.{Float}
use pufferlab.Jobs.Runner.{PayloadCodec}
use pufferlab.Jobs.Runner.Finalize.{finalize_durable_outcomes}
use pufferlab.Jobs.Runner.Counts.{IsSummary, status_count}
use pufferlab.Jobs.Runner.Coverage.{finalize-IsExact}

take_all : {A : Type 0} (n : ℕ) (xs : List A) → length (take (suc n) xs) ≤ n → take (suc n) xs ≡ xs
take_all n [] h = refl
take_all zero (x ∷ xs) h = absurd (omega arith)
take_all (suc n) (x ∷ xs) h = ap (λ ys. x ∷ ys) (take_all n xs (omega arith))

not_above : (n m : ℕ) → ltb n m ≡ false → m ≤ n
not_above n m h = ground arith

same_list_own : (xs ys : List ℕ) → xs ≡ ys → same_list xs ys ≡ true
same_list_own [] ys e = rw (← e) refl
same_list_own (x ∷ xs) ys e = rw (← e) (rw (==_refl x, same_list_own xs xs refl) refl)

module _ {F P T : Type 0} (rows : Codecs F P T) where
  decoded_config :
      (row : QueryOutcomeRow T) (o : QueryOutcome P)
      → decode_outcome_row rows row ≡ ok o
      → (o.config_id == row.config_id) ≡ true
  unfolding decode_outcome_row
  decoded_config row o h = ground arith

  decoded_status :
      (row : QueryOutcomeRow T) (o : QueryOutcome P)
      → decode_outcome_row rows row ≡ ok o
      → same_outcome_status o.status row.status ≡ true
  unfolding decode_outcome_row
  decoded_status row o h = ground arith

  Gives-status_count :
      (config : ℕ) (status : QueryOutcomeStatus) (stored : List (QueryOutcomeRow T))
      (os : List (QueryOutcome P))
      → Gives (decode_outcome_row rows) stored os
      → status_count config status os
        ≡ count_if (λ row. row.config_id == config && same_outcome_status row.status status) stored
  Gives-status_count config status [] [] g = refl
  Gives-status_count config status [] (o ∷ os) g = elim g [ ]
  Gives-status_count config status (row ∷ stored) [] g = elim g [ ]
  Gives-status_count config status (row ∷ stored) (o ∷ os) (gives_cons h g) = ground (
    arith,
    decoded_config row o h,
    decoded_status row o h,
    Gives-status_count config status stored os g,
  )

  count_of_run :
      (run config : ℕ) (status : QueryOutcomeStatus) (stored : List (QueryOutcomeRow T))
      → count_if
          (λ row. row.config_id == config && same_outcome_status row.status status)
          (keep (λ row. row.run_id == run && true) stored)
        ≡ outcome_count run config status stored
  count_of_run run config status [] = refl
  count_of_run run config status (row ∷ stored) =
      ground (arith, count_of_run run config status stored)

  -- All outcomes of a run are read, and each once.
  list_outcomes-counts :
      (run : ℕ) (db : Db T) (outcomes : List (QueryOutcome P)) (config : ℕ)
      (status : QueryOutcomeStatus)
      → list_outcomes rows run none max_outcome_rows db ≡ ok outcomes
      → status_count config status outcomes ≡ outcome_count run config status db.outcomes
  unfolding list_outcomes
  list_outcomes-counts run db outcomes config status h =
      let (row, _, h2) = >>=-eq-ok (require_run db run) _ h in
      let (_, _, h3) = >>=-eq-ok (decode_run_row rows row) _ h2 in
      let all =
        sort by_query (keep (λ (r : QueryOutcomeRow T). r.run_id == run && true) db.outcomes) in
      let (_, short, h4) =
        >>=-eq-ok
          (raise_if (ltb max_outcome_rows (length (take (suc max_outcome_rows) all)))
            validation_error)
          _ h3 in
      let fits =
        raise_if-ok (ltb max_outcome_rows (length (take (suc max_outcome_rows) all)))
          validation_error short in
      let whole =
        take_all max_outcome_rows all
          (not_above max_outcome_rows (length (take (suc max_outcome_rows) all)) fits) in
      let g =
        traverse-Gives (decode_outcome_row rows) all outcomes
          (ap (traverse (decode_outcome_row rows)) (sym whole) ∙ h4) in
      Gives-status_count config status all outcomes g
      ∙ count_if-sort by_query
          (λ (r : QueryOutcomeRow T). r.config_id == config && same_outcome_status r.status status)
          (keep (λ (r : QueryOutcomeRow T). r.run_id == run && true) db.outcomes)
      ∙ count_of_run run config status db.outcomes

abbrev pub CountsAll :
    {F P : Type 0}
    → ⦃f : Float F⦄ → PayloadCodec F P
    → List (QueryOutcome P)
    → ℕ
    → ConfigRunSummary F
    → Type 0
CountsAll c outcomes total summary =
    IsSummary c outcomes summary.config_id summary
    × (summary.completed_queries + summary.failed_queries ≡ total)

module _ {F P T : Type 0} ⦃f : Float F⦄ (rows : Codecs F P T) (c : PayloadCodec F P) (db : Db T)
    (row : EvalRunRow T) (outcomes : List (QueryOutcome P)) where
  -- The summaries that count all outcomes have the counts of the tables.
  all_counted :
      list_outcomes rows row.id none max_outcome_rows db ≡ ok outcomes
      → (summaries : List (ConfigRunSummary F))
      → All (CountsAll c outcomes row.total_queries) summaries
      → all_exact db row summaries ≡ true
  unfolding all_exact
  all_counted read [] h = refl
  all_counted read (s ∷ summaries) h =
      let good =
        list_outcomes-counts rows row.id db outcomes s.config_id QueryOutcomeStatus.succeeded
          read in
      let bad =
        list_outcomes-counts rows row.id db outcomes s.config_id QueryOutcomeStatus.failed read in
      ground
        (arith, h.0.0.succeeded, h.0.0.failed, h.0.1, good, bad, all_counted read summaries h.1)

  -- The summaries that finalize_durable_outcomes makes of the listed outcomes of a run are those
  -- with which the repository completes the run: their ids, their order and their counts are the
  -- ones that it asks for. The query ids are distinct and as many as the total of the row, the
  -- configs of the run are distinct, and they are bound to it in this order.
  pub finalize-IsAccepted :
      (run : EvalRun F) (query_ids : List ℕ) (summaries : List (ConfigRunSummary F))
      → list_outcomes rows row.id none max_outcome_rows db ≡ ok outcomes
      → finalize_durable_outcomes c run outcomes query_ids ≡ ok summaries
      → distinct query_ids ≡ true
      → distinct (config_ids run) ≡ true
      → run_config_ids row.id db.run_configs ≡ config_ids run
      → length query_ids ≡ row.total_queries
      → validate_completion_summaries db row (some summaries) ≡ ok tt
  unfolding validate_completion_summaries
  finalize-IsAccepted run query_ids summaries read made once apart bound total =
      let exact = finalize-IsExact c run outcomes query_ids summaries once made in
      let counted =
        all_counted read summaries
          (subst (λ n. All (CountsAll c outcomes n) summaries) total exact.each) in
      rw
        (
          exact.ids,
          apart,
          same_list_own (config_ids run) (run_config_ids row.id db.run_configs) (sym bound),
          counted,
        )
        refl
