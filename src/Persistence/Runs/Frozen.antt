-- ===== src/Persistence/Runs/Frozen.antt =====
-- No transition, claim or outcome changes a terminal run or its evidence.
use pufferlab.Prelude.{
  ℕ, ◌≡◌, refl, sym, ap, ◌∙◌, ◌≢◌, true, false, not, Option, none, some, List, arith, keep, ◌==◌,
}
use pufferlab.Prelude.Result.{ok, >>=-eq-ok, ok-injective, raise_if}
use pufferlab.Persistence.Errors.{invalid_run_transition}
use pufferlab.Persistence.Records.{
  DateTime, ConfigRunSummary, ApiErrorDetail, EvalRunStatus, queued, running, EvalRun, QueryOutcome,
  same_status, is_terminal,
}
use pufferlab.Persistence.Codec.{Codecs, IsFaithful, canonical_utc}
use pufferlab.Persistence.Rows.{EvalRunRow, Db, find, decode_run_row}
use pufferlab.Persistence.Rows.Agreement.{Agrees, decode_run_row-Agrees}
use pufferlab.Persistence.Selects.{is_run, require_run}
use pufferlab.Persistence.Transition.{transition_row}
use pufferlab.Persistence.Transition.Lifecycle.{transition_row-Changed}
use pufferlab.Persistence.Runs.{put_row, transition_run, claim_queued_run, record_outcome}
use pufferlab.Persistence.Runs.Tables.{find-write_ne}
use pufferlab.Persistence.Runs.OtherRuns.{keep-put_outcome}
use pufferlab.Persistence.Runs.Invariant.{
  IsValid, require_run-find, require_run-RowIsValid, transition_run-steps,
}
use pufferlab.Persistence.Runs.Recording.{store_outcome-Stored, record_outcome-store}

module _ {T : Type 0} where
  -- What `db` says of one run, `db'` says too: its row, its config bindings and its outcomes.
  pub record SameEvidence (id : ℕ) (db db' : Db T) : Type 0 where
    pub row : find (is_run id) db'.runs ≡ find (is_run id) db.runs
    pub bound :
        keep (λ r. r.run_id == id) db'.run_configs ≡ keep (λ r. r.run_id == id) db.run_configs
    pub outcomes : keep (λ r. r.run_id == id) db'.outcomes ≡ keep (λ r. r.run_id == id) db.outcomes

  pub SameEvidence-refl : (id : ℕ) (db : Db T) → SameEvidence id db db
  SameEvidence-refl id db = record { row = refl; bound = refl; outcomes = refl }

  pub SameEvidence-trans :
      {id : ℕ} {a b d : Db T} → SameEvidence id a b → SameEvidence id b d → SameEvidence id a d
  SameEvidence-trans p q = record {
    row = q.row ∙ p.row;
    bound = q.bound ∙ p.bound;
    outcomes = q.outcomes ∙ p.outcomes;
  }

  pub put_row-SameEvidence :
      (id : ℕ) (new : EvalRunRow T) (db : Db T) → new.id ≢ id → SameEvidence id db (put_row new db)
  put_row-SameEvidence id new db differs = record {
    row = find-write_ne id new db.runs differs;
    bound = refl;
    outcomes = refl;
  }

module _ {F P T : Type 0} (c : Codecs F P T) (faithful : IsFaithful c) where
  module _ (id : ℕ) (row : EvalRunRow T) (terminal : is_terminal row.status ≡ true) where
    -- A row that is found under a call's id and is not terminal is not the terminal row.
    other_row :
        (db : Db T) (asked : ℕ) (found : EvalRunRow T)
        → find (is_run id) db.runs ≡ some row
        → require_run db asked ≡ ok found
        → is_terminal found.status ≡ false
        → found.id ≡ asked
        → found.id ≢ id
    other_row db asked found here there live same e = ground (
      arith,
      here,
      require_run-find c db asked there,
      terminal,
      ap (λ k. find (is_run k) db.runs) (sym same ∙ e),
    )

    pub transition_row-live :
        (found new_row : EvalRunRow T) (new : EvalRun F) (target : EvalRunStatus) (at : DateTime)
        (summaries : Option (List (ConfigRunSummary F))) (error : Option ApiErrorDetail)
        (v : EvalRun F)
        → Agrees c found v
        → transition_row c found target at summaries error ≡ ok (new, new_row)
        → (is_terminal found.status ≡ false) × (new_row.id ≡ found.id)
    transition_row-live found new_row new target at summaries error v a h =
        let ch =
          transition_row-Changed c faithful found v target at summaries error new new_row a h in
        (ground (arith, ch.allowed, a.status), ch.same_id)

    moved-SameEvidence :
        (db : Db T) (asked : ℕ) (found new_row : EvalRunRow T) (new : EvalRun F)
        (target : EvalRunStatus) (at : DateTime) (summaries : Option (List (ConfigRunSummary F)))
        (error : Option ApiErrorDetail)
        → IsValid c db
        → find (is_run id) db.runs ≡ some row
        → require_run db asked ≡ ok found
        → transition_row c found target at summaries error ≡ ok (new, new_row)
        → SameEvidence id db (put_row new_row db)
    moved-SameEvidence db asked found new_row new target at summaries error v here there h =
        let (valid, same) = require_run-RowIsValid c db asked v there in
        let (live, kept) =
          transition_row-live found new_row new target at summaries error valid.value valid.agrees
            h in
        put_row-SameEvidence id new_row db
          (λ e. other_row db asked found here there live same (sym kept ∙ e))

    pub transition_run-SameEvidence :
        (asked : ℕ) (target : EvalRunStatus) (at : DateTime)
        (summaries : Option (List (ConfigRunSummary F))) (error : Option ApiErrorDetail) (db : Db T)
        (run : EvalRun F) (db' : Db T)
        → IsValid c db
        → find (is_run id) db.runs ≡ some row
        → transition_run c asked target at summaries error db ≡ ok (run, db')
        → SameEvidence id db db'
    transition_run-SameEvidence asked target at summaries error db run db' v here h =
        let (found, new_row, there, _, step, e) =
          transition_run-steps c faithful asked target at summaries error db run db' h in
        rw e (
          moved-SameEvidence db asked found new_row run target at summaries error v here there step)

    pub claim_queued_run-SameEvidence :
        (asked : ℕ) (at : DateTime) (db db' : Db T) (run : EvalRun F)
        → IsValid c db
        → find (is_run id) db.runs ≡ some row
        → claim_queued_run c asked at db ≡ ok (run, db')
        → SameEvidence id db db'
    unfolding claim_queued_run
    claim_queued_run-SameEvidence asked at db db' run v here h =
        let (_, _, h1) = >>=-eq-ok (canonical_utc at) _ h in
        let (found, there, h2) = >>=-eq-ok (require_run db asked) _ h1 in
        let (current, _, h3) = >>=-eq-ok (decode_run_row c found) _ h2 in
        let (_, _, h4) =
          >>=-eq-ok (raise_if (not (same_status current.status queued)) invalid_run_transition) _
            h3 in
        let (changed, step, h5) = >>=-eq-ok (transition_row c found running at none none) _ h4 in
        rw (sym (ap (λ p. p.1) (ok-injective h5))) (
          moved-SameEvidence db asked found changed.1 changed.0 running at none none v here there
            step)

    pub record_outcome-SameEvidence :
        (outcome : QueryOutcome P) (db db' : Db T) (updated : EvalRun F)
        → IsValid c db
        → find (is_run id) db.runs ≡ some row
        → record_outcome c outcome db ≡ ok (updated, db')
        → SameEvidence id db db'
    record_outcome-SameEvidence outcome db db' updated v here h =
        let (new, found, run, _, _, _, there, decoded, stored) =
          record_outcome-store c faithful outcome db db' updated h in
        let s = store_outcome-Stored c new found run updated db db' stored in
        let (valid, same) = require_run-RowIsValid c db new.run_id v there in
        let a = decode_run_row-Agrees c found run decoded in
        let differs =
          other_row db new.run_id found here there (ground (arith, s.is_running, a.status)) same in
        rw s.stored (record {
          row =
              find-write_ne id
                (record found {
                  completed_queries = updated.completed_queries;
                  payload_json = c.dump_run updated;
                })
                db.runs differs;
          bound = refl;
          outcomes = keep-put_outcome new id (λ e. differs (same ∙ sym e)) db.outcomes;
        })
