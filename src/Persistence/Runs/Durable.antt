-- ===== src/Persistence/Runs/Durable.antt =====
-- An outcome that was recorded stays recorded, whatever is called.
use pufferlab.Prelude.{
  ℕ, ◌≡◌, refl, sym, ap, ◌∙◌, true, not, Option, none, some, List, [], ◌∷◌, ◌++◌, arith, is_some,
  keep,
}
use pufferlab.Prelude.Result.{ok, >>=-eq-ok, ok-injective, raise_if}
use pufferlab.Prelude.Sort.{sort}
use pufferlab.Persistence.Errors.{invalid_run_transition}
use pufferlab.Persistence.Records.{
  DateTime, queued, running, interrupted, EvalRun, QueryOutcome, same_status,
}
use pufferlab.Persistence.Codec.{Codecs, IsFaithful, canonical_utc, canonical_run}
use pufferlab.Persistence.Rows.{EvalRunRow, QueryOutcomeRow, Db, find, write, decode_run_row}
use pufferlab.Persistence.Selects.{is_run, is_outcome_of, require_run}
use pufferlab.Persistence.Transition.{transition_row}
use pufferlab.Persistence.Runs.{
  put_row, put_outcome, before, validate_new_run_shape, create_run, store_run, insert_run,
  check_catalog, claim_queued_run, record_outcome, interrupt_rows, interrupt_stale_runs,
}
use pufferlab.Persistence.Runs.Invariant.{transition_run-steps}
use pufferlab.Persistence.Runs.Recording.{store_outcome-Stored, record_outcome-store}
use pufferlab.Persistence.Runs.Creation.{repeat_run-same}
use pufferlab.Persistence.Runs.History.{Call, perform, history, perform-induction}

-- The outcome of a query and a config of a run is durable.
abbrev pub IsStored : {T : Type 0} → Db T → ℕ → ℕ → ℕ → Type 0
IsStored db run config query = is_some (find (is_outcome_of run config query) db.outcomes) ≡ true

module _ {T : Type 0} where
  find-write_outcome :
      (run config query : ℕ) (new : QueryOutcomeRow T) (rows : List (QueryOutcomeRow T))
      → is_some (find (is_outcome_of run config query) rows) ≡ true
      → is_some (
          find
            (is_outcome_of run config query)
            (write (is_outcome_of new.run_id new.config_id new.query_id) new rows))
        ≡ true
  find-write_outcome run config query new [] h = cc
  find-write_outcome run config query new (r ∷ rs) h =
      ground (arith, find-write_outcome run config query new rs)

  find-append_outcome :
      (run config query : ℕ) (new : QueryOutcomeRow T) (rows : List (QueryOutcomeRow T))
      → is_some (find (is_outcome_of run config query) rows) ≡ true
      → is_some (find (is_outcome_of run config query) (rows ++ new ∷ [])) ≡ true
  find-append_outcome run config query new [] h = cc
  find-append_outcome run config query new (r ∷ rs) h =
      ground (arith, find-append_outcome run config query new rs)

  find-put_outcome :
      (run config query : ℕ) (new : QueryOutcomeRow T) (rows : List (QueryOutcomeRow T))
      → is_some (find (is_outcome_of run config query) rows) ≡ true
      → is_some (find (is_outcome_of run config query) (put_outcome new rows)) ≡ true
  find-put_outcome run config query new rows h = ground (
    arith,
    find-write_outcome run config query new rows,
    find-append_outcome run config query new rows,
  )

  find-append_self :
      (new : QueryOutcomeRow T) (rows : List (QueryOutcomeRow T))
      → is_some (find (is_outcome_of new.run_id new.config_id new.query_id) (rows ++ new ∷ []))
        ≡ true
  find-append_self new [] = ground arith
  find-append_self new (r ∷ rs) = ground (arith, find-append_self new rs)

  find-put_at :
      (new : QueryOutcomeRow T) (rows : List (QueryOutcomeRow T))
      (found : Option (QueryOutcomeRow T))
      → find (is_outcome_of new.run_id new.config_id new.query_id) rows ≡ found
      → is_some (
          find (is_outcome_of new.run_id new.config_id new.query_id) (elim found [
            | none ↦ rows ++ new ∷ []
            | some _ ↦ write (is_outcome_of new.run_id new.config_id new.query_id) new rows
          ]))
        ≡ true
  find-put_at new rows none e = find-append_self new rows
  find-put_at new rows (some r) e =
      find-write_outcome new.run_id new.config_id new.query_id new rows (rw e refl)

  pub find-put_self :
      (new : QueryOutcomeRow T) (rows : List (QueryOutcomeRow T))
      → is_some (find (is_outcome_of new.run_id new.config_id new.query_id) (put_outcome new rows))
        ≡ true
  find-put_self new rows =
      find-put_at new rows (find (is_outcome_of new.run_id new.config_id new.query_id) rows) refl

module _ {F P T : Type 0} (c : Codecs F P T) (faithful : IsFaithful c) where
  outcomes-insert_run :
      (value : EvalRun F) (payload : T) (db db' : Db T) (run : EvalRun F)
      → insert_run c value payload db ≡ ok (run, db')
      → db'.outcomes ≡ db.outcomes
  unfolding insert_run
  outcomes-insert_run value payload db db' run h =
      let (_, _, h1) = >>=-eq-ok (check_catalog c value db) _ h in
      let (_, _, h2) = >>=-eq-ok (canonical_utc value.created_at) _ h1 in
      sym (ap (λ p. p.1.outcomes) (ok-injective h2))

  outcomes-store_run :
      (value : EvalRun F) (payload : T) (found : Option (EvalRunRow T)) (db db' : Db T)
      (run : EvalRun F)
      → store_run c value payload found db ≡ ok (run, db')
      → db'.outcomes ≡ db.outcomes
  unfolding store_run
  outcomes-store_run value payload (some row) db db' run h =
      ap (λ d. d.outcomes) (repeat_run-same c faithful payload row db db' run h)
  outcomes-store_run value payload none db db' run h =
      outcomes-insert_run value payload db db' run h

  outcomes-create_run :
      (value : EvalRun F) (db db' : Db T) (run : EvalRun F)
      → create_run c value db ≡ ok (run, db')
      → db'.outcomes ≡ db.outcomes
  unfolding create_run
  outcomes-create_run value db db' run h =
      let (_, _, h1) = >>=-eq-ok (validate_new_run_shape value) _ h in
      let (payload, _, h2) = >>=-eq-ok (canonical_run c value) _ h1 in
      outcomes-store_run value payload (find (is_run value.id) db.runs) db db' run h2

  outcomes-claim_queued_run :
      (id : ℕ) (at : DateTime) (db db' : Db T) (run : EvalRun F)
      → claim_queued_run c id at db ≡ ok (run, db')
      → db'.outcomes ≡ db.outcomes
  unfolding claim_queued_run
  outcomes-claim_queued_run id at db db' run h =
      let (_, _, h1) = >>=-eq-ok (canonical_utc at) _ h in
      let (row, _, h2) = >>=-eq-ok (require_run db id) _ h1 in
      let (current, _, h3) = >>=-eq-ok (decode_run_row c row) _ h2 in
      let (_, _, h4) =
        >>=-eq-ok (raise_if (not (same_status current.status queued)) invalid_run_transition) _
          h3 in
      let (_, _, h5) = >>=-eq-ok (transition_row c row running at none none) _ h4 in
      sym (ap (λ p. p.1.outcomes) (ok-injective h5))

  outcomes-interrupt_rows :
      (at : DateTime) (rows : List (EvalRunRow T)) (db db' : Db T) (ids : List ℕ)
      → interrupt_rows c at rows db ≡ ok (ids, db')
      → db'.outcomes ≡ db.outcomes
  outcomes-interrupt_rows at [] db db' ids h = sym (ap (λ p. p.1.outcomes) (ok-injective h))
  outcomes-interrupt_rows at (row ∷ rows) db db' ids h =
      let (changed, _, h1) = >>=-eq-ok (transition_row c row interrupted at none none) _ h in
      let (rest, more, h2) = >>=-eq-ok (interrupt_rows c at rows (put_row changed.1 db)) _ h1 in
      outcomes-interrupt_rows at rows (put_row changed.1 db) db' rest.0
        (more ∙ ap (λ (d : Db T). ok (rest.0, d)) (ap (λ p. p.1) (ok-injective h2)))

  outcomes-interrupt_stale_runs :
      (at : DateTime) (db db' : Db T) (ids : List ℕ)
      → interrupt_stale_runs c at db ≡ ok (ids, db')
      → db'.outcomes ≡ db.outcomes
  unfolding interrupt_stale_runs
  outcomes-interrupt_stale_runs at db db' ids h =
      let (_, _, h1) = >>=-eq-ok (canonical_utc at) _ h in
      outcomes-interrupt_rows at
        (sort before (keep (λ (row : EvalRunRow T). same_status row.status running) db.runs)) db db'
        ids h1

  -- A recorded outcome is durable at once.
  pub record_outcome-stores :
      (outcome : QueryOutcome P) (db db' : Db T) (updated : EvalRun F)
      → record_outcome c outcome db ≡ ok (updated, db')
      → IsStored db' outcome.run_id outcome.config_id outcome.query_id
  record_outcome-stores outcome db db' updated h =
      let (new, row, value, ec, eq, er, _, _, stored) =
        record_outcome-store c faithful outcome db db' updated h in
      let st = store_outcome-Stored c new row value updated db db' stored in
      rw (st.stored, ← er, ← ec, ← eq) (find-put_self new db.outcomes)

  module _ (run config query : ℕ) where
    same_outcomes-IsStored :
        (db db' : Db T)
        → IsStored db run config query
        → db'.outcomes ≡ db.outcomes
        → IsStored db' run config query
    same_outcomes-IsStored db db' h e = rw e h

    pub record_outcome-IsStored :
        (outcome : QueryOutcome P) (db db' : Db T) (updated : EvalRun F)
        → IsStored db run config query
        → record_outcome c outcome db ≡ ok (updated, db')
        → IsStored db' run config query
    record_outcome-IsStored outcome db db' updated s h =
        let (new, row, value, _, _, _, _, _, stored) =
          record_outcome-store c faithful outcome db db' updated h in
        let st = store_outcome-Stored c new row value updated db db' stored in
        rw st.stored (find-put_outcome run config query new db.outcomes s)

    perform-IsStored :
        (call : Call F P) (db : Db T)
        → IsStored db run config query
        → IsStored (perform c call db) run config query
    perform-IsStored call db s =
        perform-induction c (λ d. IsStored d run config query) db s
          (λ value r db' h. same_outcomes-IsStored db db' s (outcomes-create_run value db db' r h))
          (λ id target at summaries error r db' h.
            let (_, _, _, _, _, e) =
              transition_run-steps c faithful id target at summaries error db r db' h in
            same_outcomes-IsStored db db' s (ap (λ d. d.outcomes) e))
          (λ id at r db' h.
            same_outcomes-IsStored db db' s (outcomes-claim_queued_run id at db db' r h))
          (λ outcome r db' h. record_outcome-IsStored outcome db db' r s h)
          (λ at ids db' h.
            same_outcomes-IsStored db db' s (outcomes-interrupt_stale_runs at db db' ids h))
          call

    -- No sequence of repository calls, failing or not, removes the outcome of a run, a config and a
    -- query that was recorded. A written value is read back.
    pub history-IsStored :
        (calls : List (Call F P)) (db : Db T)
        → IsStored db run config query
        → IsStored (history c calls db) run config query
    unfolding history
    history-IsStored [] db s = s
    history-IsStored (call ∷ calls) db s =
        history-IsStored calls (perform c call db) (perform-IsStored call db s)
