-- ===== src/Persistence/Runs/Invariant.antt =====
-- The invariant of the run tables, and that every run method keeps it.
use pufferlab.Prelude.{
  ℕ, ◌≡◌, sym, ap, ◌∙◌, true, Option, some, List, arith, All, All-map, map, distinct, is_some,
}
use pufferlab.Prelude.Result.{ok, >>=-eq-ok, ok-injective}
use pufferlab.Persistence.Records.{
  DateTime, ConfigRunSummary, ApiErrorDetail, EvalRunStatus, completed, EvalRun,
}
use pufferlab.Persistence.Codec.{Codecs, IsFaithful, canonical_utc}
use pufferlab.Persistence.Rows.{EvalRunRow, RunConfigRow, QueryOutcomeRow, Db, find}
use pufferlab.Persistence.Rows.Agreement.{Agrees}
use pufferlab.Persistence.Selects.{is_run, require_run, completed_query_count}
use pufferlab.Persistence.Transition.{transition_row}
use pufferlab.Persistence.Transition.Lifecycle.{Lifecycle, transition_row-Changed}
use pufferlab.Persistence.Transition.Coverage.{IsCovered, validate-IsCovered}
use pufferlab.Persistence.Runs.{put_row, validate_target, transition_run}
use pufferlab.Persistence.Runs.Tables.{find-All, write-All, is_some-find-write, ids-write_run}

module _ {F P T : Type 0} (c : Codecs F P T) where
  pub record RowIsValid (run_configs : List RunConfigRow) (outcomes : List (QueryOutcomeRow T))
      (row : EvalRunRow T) : Type 0 where
    pub value : EvalRun F
    pub agrees : Agrees c row value
    pub lifecycle : Lifecycle value
    pub counted : row.completed_queries ≡ completed_query_count run_configs outcomes row.id
    pub covered : row.status ≡ completed → IsCovered run_configs outcomes row.id row.total_queries

  pub record IsValid (db : Db T) : Type 0 where
    pub rows : All (RowIsValid db.run_configs db.outcomes) db.runs
    pub unique : distinct (map (λ row. row.id) db.runs) ≡ true
    pub known : All (λ outcome. is_some (find (is_run outcome.run_id) db.runs) ≡ true) db.outcomes

  pub put_row-IsValid :
      (db : Db T) (new : EvalRunRow T)
      → IsValid db
      → RowIsValid db.run_configs db.outcomes new
      → IsValid (put_row new db)
  put_row-IsValid db new v n = record {
    rows =
        let P = RowIsValid db.run_configs db.outcomes in
        write-All (is_run new.id) P P new db.runs (λ _ _ r. r) v.rows n;
    unique = rw (ids-write_run new db.runs) v.unique;
    known =
        All-map
          (λ (outcome : QueryOutcomeRow T) h. is_some-find-write outcome.run_id new db.runs ∙ h)
          db.outcomes v.known;
  }

  pub require_run-find :
      (db : Db T) (id : ℕ) {row : EvalRunRow T}
      → require_run db id ≡ ok row
      → find (is_run id) db.runs ≡ some row
  require_run-find db id h = ground arith

  pub require_run-RowIsValid :
      (db : Db T) (id : ℕ) {row : EvalRunRow T}
      → IsValid db
      → require_run db id ≡ ok row
      → RowIsValid db.run_configs db.outcomes row × (row.id ≡ id)
  require_run-RowIsValid db id v h =
      let (valid, at) =
        find-All (is_run id) (RowIsValid db.run_configs db.outcomes) db.runs v.rows
          (require_run-find db id h) in
      (valid, ground arith)

  validate_target-IsCovered :
      (db : Db T) (row : EvalRunRow T) (target : EvalRunStatus)
      (summaries : Option (List (ConfigRunSummary F)))
      → validate_target c db row target summaries ≡ ok tt
      → target ≡ completed
      → IsCovered db.run_configs db.outcomes row.id row.total_queries
  validate_target-IsCovered db row completed summaries h e = validate-IsCovered db row summaries h
  validate_target-IsCovered db row _ summaries h e = cc

  module _ (faithful : IsFaithful c) where
    -- A row that a transition changed is valid, if a new completion is covered.
    pub changed-RowIsValid :
        (db : Db T) (row new_row : EvalRunRow T) (new : EvalRun F) (target : EvalRunStatus)
        (at : DateTime) (summaries : Option (List (ConfigRunSummary F)))
        (error : Option ApiErrorDetail)
        → RowIsValid db.run_configs db.outcomes row
        → (target ≡ completed → IsCovered db.run_configs db.outcomes row.id row.total_queries)
        → transition_row c row target at summaries error ≡ ok (new, new_row)
        → RowIsValid db.run_configs db.outcomes new_row
    changed-RowIsValid db row new_row new target at summaries error v covers h =
        let ch =
          transition_row-Changed c faithful row v.value target at summaries error new new_row
            v.agrees h in
        record {
          value = new;
          agrees = ch.agrees;
          lifecycle = ch.lifecycle v.lifecycle;
          counted =
              ch.same_completed
              ∙ v.counted
              ∙ ap (completed_query_count db.run_configs db.outcomes) (sym ch.same_id);
          covered = λ e. rw (ch.same_id, ch.same_total) (covers (cc (ch.status, ch.agrees.status)));
        }

    -- The steps of a successful `transition_run`.
    pub transition_run-steps :
        (id : ℕ) (target : EvalRunStatus) (at : DateTime)
        (summaries : Option (List (ConfigRunSummary F))) (error : Option ApiErrorDetail) (db : Db T)
        (run : EvalRun F) (db' : Db T)
        → transition_run c id target at summaries error db ≡ ok (run, db')
        → (row : EvalRunRow T) × (new_row : EvalRunRow T) × (require_run db id ≡ ok row)
          × (validate_target c db row target summaries ≡ ok tt)
          × (transition_row c row target at summaries error ≡ ok (run, new_row))
          × (db' ≡ put_row new_row db)
    unfolding transition_run
    transition_run-steps id target at summaries error db run db' h =
        let (_, _, h1) = >>=-eq-ok (canonical_utc at) _ h in
        let (row, found, h2) = >>=-eq-ok (require_run db id) _ h1 in
        let (_, checked, h3) = >>=-eq-ok (validate_target c db row target summaries) _ h2 in
        let (changed, step, h4) = >>=-eq-ok (transition_row c row target at summaries error) _ h3 in
        let pair = ok-injective h4 in
        (
          row,
          changed.1,
          found,
          checked,
          step ∙ ap (λ (r : EvalRun F). ok (r, changed.1)) (ap (λ p. p.0) pair),
          sym (ap (λ p. p.1) pair),
        )

    -- A transition keeps the invariant.
    pub transition_run-IsValid :
        (id : ℕ) (target : EvalRunStatus) (at : DateTime)
        (summaries : Option (List (ConfigRunSummary F))) (error : Option ApiErrorDetail) (db : Db T)
        (run : EvalRun F) (db' : Db T)
        → IsValid db
        → transition_run c id target at summaries error db ≡ ok (run, db')
        → IsValid db'
    transition_run-IsValid id target at summaries error db run db' v h =
        let (row, new_row, found, checked, changed, e) =
          transition_run-steps id target at summaries error db run db' h in
        rw e (
          put_row-IsValid db new_row v (
            changed-RowIsValid db row new_row run target at summaries error
              (require_run-RowIsValid db id v found).0
              (validate_target-IsCovered db row target summaries checked) changed))
