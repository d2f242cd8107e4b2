-- ===== src/Persistence/Runs/Recording.antt =====
-- `record_outcome` keeps the invariant of the run tables.
use pufferlab.Prelude.{◌≡◌, refl, sym, ap, ◌∙◌, ◌≢◌, false, List, arith, All-map}
use pufferlab.Prelude.Result.{ok, >>=-eq-ok}
use pufferlab.Persistence.Records.{running, EvalRun, QueryOutcome}
use pufferlab.Persistence.Codec.{
  Codecs, IsFaithful, HasAwareTimes, canonical_utc, canonical_outcome,
}
use pufferlab.Persistence.Rows.{EvalRunRow, QueryOutcomeRow, Db, decode_run_row}
use pufferlab.Persistence.Rows.Agreement.{Agrees, decode_run_row-Agrees}
use pufferlab.Persistence.Selects.{is_run, require_run, completed_query_count}
use pufferlab.Persistence.Transition.Lifecycle.{Lifecycle}
use pufferlab.Persistence.Runs.{
  put_row, put_outcome, new_outcome_row, record_outcome, store_outcome,
}
use pufferlab.Persistence.Runs.Tables.{
  write-All, ids-write_run, is_some-find-write, put_outcome-All,
}
use pufferlab.Persistence.Runs.OtherRuns.{IsCovered-put_outcome, completed-put_outcome}
use pufferlab.Persistence.Runs.Invariant.{RowIsValid, IsValid, require_run-RowIsValid}

module _ {F P T : Type 0} (c : Codecs F P T) where
  -- What a successful call stored for the run `run` in the row `row`.
  pub record Stored (new : QueryOutcomeRow T) (row : EvalRunRow T) (run updated : EvalRun F)
      (db db' : Db T) : Type 0 where
    pub is_running : run.status ≡ running
    pub counted : updated ≡ record run {
      completed_queries = completed_query_count db.run_configs (put_outcome new db.outcomes) run.id;
    }
    pub stored :
        db'
        ≡ put_row
            (record row {
              completed_queries = updated.completed_queries;
              payload_json = c.dump_run updated;
            })
            (record db { outcomes = put_outcome new db.outcomes })

  pub store_outcome-Stored :
      (new : QueryOutcomeRow T) (row : EvalRunRow T) (run updated : EvalRun F) (db db' : Db T)
      → store_outcome c new row run db ≡ ok (updated, db')
      → Stored new row run updated db db'
  unfolding store_outcome
  store_outcome-Stored new row run updated db db' h = ground arith

  module _ (faithful : IsFaithful c) where
    module _ (new : QueryOutcomeRow T) (row : EvalRunRow T) (run updated : EvalRun F)
        (db db' : Db T) (v : IsValid c db) (found : require_run db new.run_id ≡ ok row)
        (decoded : decode_run_row c row ≡ ok run) (s : Stored new row run updated db db') where
      abbrev outcomes : List (QueryOutcomeRow T)
      outcomes = put_outcome new db.outcomes

      abbrev new_row : EvalRunRow T
      new_row = record row {
        completed_queries = updated.completed_queries;
        payload_json = c.dump_run updated;
      }

      agrees : Agrees c row run
      agrees = decode_run_row-Agrees c row run decoded

      new-Agrees : Agrees c new_row updated
      new-Agrees =
          let a : Agrees c row run = agrees in
          let times : HasAwareTimes updated =
            rw s.counted (a.aware, a.started_aware, a.completed_aware) in
          let e = s.counted in ground (arith, faithful.parse-dump_run updated times)

      old : RowIsValid c db.run_configs db.outcomes row
      old = (require_run-RowIsValid c db new.run_id v found).0

      new-Lifecycle : Lifecycle updated
      new-Lifecycle =
          ground (arith, old.agrees.parsed, agrees.parsed, old.lifecycle, s.is_running, s.counted)

      row_id : row.id ≡ new.run_id
      row_id = (require_run-RowIsValid c db new.run_id v found).1

      new-RowIsValid : RowIsValid c db.run_configs outcomes new_row
      new-RowIsValid = record {
        value = updated;
        agrees = new-Agrees;
        lifecycle = new-Lifecycle;
        counted = rw s.counted (ap (completed_query_count db.run_configs outcomes) agrees.id);
        covered = λ e. cc (s.is_running, agrees.status);
      }

      other_id : (other : EvalRunRow T) → is_run row.id other ≡ false → other.id ≢ new.run_id
      other_id other differs = ground (arith, row_id)

      other-RowIsValid :
          (other : EvalRunRow T)
          → is_run row.id other ≡ false
          → RowIsValid c db.run_configs db.outcomes other
          → RowIsValid c db.run_configs outcomes other
      other-RowIsValid other differs o = record {
        value = o.value;
        agrees = o.agrees;
        lifecycle = o.lifecycle;
        counted =
            o.counted
            ∙ sym (
                completed-put_outcome new other.id (other_id other differs) db.run_configs
                  db.outcomes);
        covered = λ e.
            IsCovered-put_outcome new other.id (other_id other differs) db.run_configs db.outcomes
              other.total_queries (o.covered e);
      }

      stored-IsValid : IsValid c db'
      stored-IsValid = rw s.stored (record {
        rows =
            write-All (is_run row.id) (RowIsValid c db.run_configs db.outcomes)
              (RowIsValid c db.run_configs outcomes) new_row db.runs other-RowIsValid v.rows
              new-RowIsValid;
        unique = rw (ids-write_run new_row db.runs) v.unique;
        known =
            put_outcome-All _ new db.outcomes
              (All-map
                (λ (o : QueryOutcomeRow T) h. is_some-find-write o.run_id new_row db.runs ∙ h)
                db.outcomes v.known)
              (is_some-find-write new.run_id new_row db.runs ∙ ground (arith, found));
      })

    pub record_outcome-store :
        (outcome : QueryOutcome P) (db db' : Db T) (updated : EvalRun F)
        → record_outcome c outcome db ≡ ok (updated, db')
        → (new : QueryOutcomeRow T) × (row : EvalRunRow T) × (run : EvalRun F) × (new.config_id
            ≡ outcome.config_id)
          × (new.query_id ≡ outcome.query_id)
          × (new.run_id ≡ outcome.run_id)
          × (require_run db new.run_id ≡ ok row)
          × (decode_run_row c row ≡ ok run)
          × (store_outcome c new row run db ≡ ok (updated, db'))
    unfolding record_outcome
    record_outcome-store outcome db db' updated h =
        let (payload, _, h1) = >>=-eq-ok (canonical_outcome c outcome) _ h in
        let (created_at, _, h2) = >>=-eq-ok (canonical_utc outcome.created_at) _ h1 in
        let (row, found, h3) = >>=-eq-ok (require_run db outcome.run_id) _ h2 in
        let (run, decoded, h4) = >>=-eq-ok (decode_run_row c row) _ h3 in
        (
          new_outcome_row c outcome created_at payload,
          row,
          run,
          refl,
          refl,
          refl,
          found,
          decoded,
          h4,
        )

    -- Recording an outcome keeps the invariant.
    pub record_outcome-IsValid :
        (outcome : QueryOutcome P) (db db' : Db T) (updated : EvalRun F)
        → IsValid c db
        → record_outcome c outcome db ≡ ok (updated, db')
        → IsValid c db'
    record_outcome-IsValid outcome db db' updated v h =
        let (new, row, run, _, _, _, found, decoded, stored) =
          record_outcome-store outcome db db' updated h in
        stored-IsValid new row run updated db db' v found decoded
          (store_outcome-Stored new row run updated db db' stored)
