-- ===== src/Persistence/Runs/Final.antt =====
-- A terminal run and its evidence never change again.
use pufferlab.Prelude.{
  ℕ, ◌≡◌, refl, sym, ap, ◌∙◌, ◌≢◌, true, Option, none, some, List, [], ◌∷◌, arith, All, All-map₂,
  All-keep, keep-All, keep,
}
use pufferlab.Prelude.Result.{ok, >>=-eq-ok, ok-injective}
use pufferlab.Prelude.Sort.{sort, sort-All}
use pufferlab.Persistence.Records.{
  DateTime, running, interrupted, EvalRun, same_status, is_terminal, config_ids,
}
use pufferlab.Persistence.Codec.{Codecs, IsFaithful, canonical_utc, canonical_run}
use pufferlab.Persistence.Rows.{EvalRunRow, Db, find}
use pufferlab.Persistence.Selects.{is_run}
use pufferlab.Persistence.Transition.{transition_row}
use pufferlab.Persistence.Runs.{
  put_row, before, validate_new_run_shape, new_run_row, add_run, create_run, store_run,
  interrupt_rows, interrupt_stale_runs,
}
use pufferlab.Persistence.Runs.Tables.{find-append_run, find-member}
use pufferlab.Persistence.Runs.OtherRuns.{keep-append_bindings}
use pufferlab.Persistence.Runs.Invariant.{RowIsValid, IsValid}
use pufferlab.Persistence.Runs.Creation.{insert_run-add_run, repeat_run-same}
use pufferlab.Persistence.Runs.Frozen.{
  SameEvidence, SameEvidence-refl, SameEvidence-trans, put_row-SameEvidence, transition_row-live,
  transition_run-SameEvidence, claim_queued_run-SameEvidence, record_outcome-SameEvidence,
}
use pufferlab.Persistence.Runs.History.{Call, perform, history, perform-induction, perform-IsValid}

module _ {F P T : Type 0} (c : Codecs F P T) (faithful : IsFaithful c) where
  module _ (id : ℕ) (row : EvalRunRow T) (terminal : is_terminal row.status ≡ true) where
    add_run-SameEvidence :
        (value : EvalRun F) (new_row : EvalRunRow T) (db : Db T)
        → find (is_run id) db.runs ≡ some row
        → find (is_run value.id) db.runs ≡ none
        → SameEvidence id db (add_run c value new_row db)
    add_run-SameEvidence value new_row db here absent = record {
      row = find-append_run id new_row row db.runs here ∙ sym here;
      bound = keep-append_bindings id value.id differs db.run_configs 0 (config_ids value);
      outcomes = refl;
    }
      where
        differs : id ≢ value.id
        differs e = ground (arith, here, absent, ap (λ k. find (is_run k) db.runs) e)

    store_run-SameEvidence :
        (value : EvalRun F) (payload : T) (existing : Option (EvalRunRow T)) (db db' : Db T)
        (run : EvalRun F)
        → find (is_run id) db.runs ≡ some row
        → value.created_at.aware ≡ true
        → find (is_run value.id) db.runs ≡ existing
        → store_run c value payload existing db ≡ ok (run, db')
        → SameEvidence id db db'
    unfolding store_run
    store_run-SameEvidence value payload (some old) db db' run here aware there h =
        rw (repeat_run-same c faithful payload old db db' run h) (SameEvidence-refl id db)
    store_run-SameEvidence value payload none db db' run here aware absent h =
        rw (insert_run-add_run c faithful value payload db db' run aware h) (
          add_run-SameEvidence value (new_run_row c value value.created_at.instant payload) db here
            absent)

    aware_of_shape :
        (value : EvalRun F) → validate_new_run_shape value ≡ ok tt → value.created_at.aware ≡ true
    unfolding canonical_utc
    aware_of_shape value h = ground arith

    create_run-SameEvidence :
        (value : EvalRun F) (db db' : Db T) (run : EvalRun F)
        → find (is_run id) db.runs ≡ some row
        → create_run c value db ≡ ok (run, db')
        → SameEvidence id db db'
    unfolding create_run
    create_run-SameEvidence value db db' run here h =
        let (_, shape, h1) = >>=-eq-ok (validate_new_run_shape value) _ h in
        let (payload, _, h2) = >>=-eq-ok (canonical_run c value) _ h1 in
        store_run-SameEvidence value payload (find (is_run value.id) db.runs) db db' run here
          (aware_of_shape value shape) refl h2

    interrupt_rows-SameEvidence :
        (at : DateTime) (rows : List (EvalRunRow T)) (db db' : Db T) (ids : List ℕ)
        → All (λ r. (r.id ≢ id) × RowIsValid c db.run_configs db.outcomes r) rows
        → interrupt_rows c at rows db ≡ ok (ids, db')
        → SameEvidence id db db'
    interrupt_rows-SameEvidence at [] db db' ids rs h =
        rw (sym (ap (λ p. p.1) (ok-injective h))) (SameEvidence-refl id db)
    interrupt_rows-SameEvidence at (r ∷ rows) db db' ids rs h =
        let (changed, step, h1) = >>=-eq-ok (transition_row c r interrupted at none none) _ h in
        let (rest, more, h2) = >>=-eq-ok (interrupt_rows c at rows (put_row changed.1 db)) _ h1 in
        let valid = rs.0.1 in
        let (_, kept) =
          transition_row-live c faithful id row terminal r changed.1 changed.0 interrupted at none
            none valid.value valid.agrees step in
        SameEvidence-trans (put_row-SameEvidence id changed.1 db (λ e. rs.0.0 (sym kept ∙ e))) (
          interrupt_rows-SameEvidence at rows (put_row changed.1 db) db' rest.0 rs.1
            (more ∙ ap (λ (d : Db T). ok (rest.0, d)) (ap (λ p. p.1) (ok-injective h2))))

    stale_differs :
        (db : Db T)
        → find (is_run id) db.runs ≡ some row
        → (r : EvalRunRow T) → (r.id ≡ id → find (is_run id) db.runs ≡ some r)
        → same_status r.status running ≡ true
        → r.id ≢ id
    stale_differs db here r member live e = ground (arith, here, member e, terminal)

    interrupt_stale_runs-SameEvidence :
        (at : DateTime) (db db' : Db T) (ids : List ℕ)
        → IsValid c db
        → find (is_run id) db.runs ≡ some row
        → interrupt_stale_runs c at db ≡ ok (ids, db')
        → SameEvidence id db db'
    unfolding interrupt_stale_runs
    interrupt_stale_runs-SameEvidence at db db' ids v here h =
        let (_, _, h1) = >>=-eq-ok (canonical_utc at) _ h in
        let live = λ (r : EvalRunRow T). same_status r.status running in
        let P = λ (r : EvalRunRow T). (r.id ≢ id) × RowIsValid c db.run_configs db.outcomes r in
        let Q = λ (r : EvalRunRow T). r.id ≡ id → find (is_run id) db.runs ≡ some r in
        let V = RowIsValid c db.run_configs db.outcomes in
        let stale = keep live db.runs in
        let differs : All (λ r. r.id ≢ id) stale =
          All-map₂ (stale_differs db here) stale
            (All-keep Q live db.runs (find-member id db.runs v.unique)) (keep-All live db.runs) in
        let both : All P stale =
          All-map₂ (λ r d w. (d, w)) stale differs (All-keep V live db.runs v.rows) in
        interrupt_rows-SameEvidence at (sort before stale) db db' ids (sort-All before P stale both)
          h1

    perform-SameEvidence :
        (call : Call F P) (db : Db T)
        → IsValid c db
        → find (is_run id) db.runs ≡ some row
        → SameEvidence id db (perform c call db)
    perform-SameEvidence call db v here =
        perform-induction c (SameEvidence id db) db (SameEvidence-refl id db)
          (λ value run db' h. create_run-SameEvidence value db db' run here h)
          (λ asked target at summaries error run db' h.
            transition_run-SameEvidence c faithful id row terminal asked target at summaries error
              db run db' v here h)
          (λ asked at run db' h.
            claim_queued_run-SameEvidence c faithful id row terminal asked at db db' run v here h)
          (λ outcome run db' h.
            record_outcome-SameEvidence c faithful id row terminal outcome db db' run v here h)
          (λ at ids db' h. interrupt_stale_runs-SameEvidence at db db' ids v here h) call

    -- In valid tables, once a run has a terminal status, no sequence of repository calls, failing
    -- or not, changes its row, its config bindings or its outcomes. A written value is read back.
    pub history-SameEvidence :
        (calls : List (Call F P)) (db : Db T)
        → IsValid c db
        → find (is_run id) db.runs ≡ some row
        → SameEvidence id db (history c calls db)
    unfolding history
    history-SameEvidence [] db v here = SameEvidence-refl id db
    history-SameEvidence (call ∷ calls) db v here =
        let same = perform-SameEvidence call db v here in
        SameEvidence-trans same (
          history-SameEvidence calls (perform c call db) (perform-IsValid c faithful call db v)
            (same.row ∙ here))
