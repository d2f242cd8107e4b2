-- ===== src/Persistence/Runs/Creation.antt =====
-- `create_run`, `claim_queued_run` and `interrupt_stale_runs` keep the invariant of the run tables.
use pufferlab.Prelude.{
  ℕ, ◌≡◌, refl, sym, not, ap, ◌∙◌, ◌≢◌, true, Option, none, some, List, [], ◌∷◌, ◌++◌, arith, All,
  All-map, All-append, All-map₂, All-keep, is_some, keep,
}
use pufferlab.Prelude.Sort.{sort, sort-All}
use pufferlab.Prelude.Result.{ok, >>=-eq-ok, ok-injective, raise_if}
use pufferlab.Persistence.Errors.{invalid_run_transition}
use pufferlab.Persistence.Records.{
  DateTime, queued, running, interrupted, EvalRun, same_status, config_ids,
}
use pufferlab.Persistence.Codec.{Codecs, IsFaithful, HasAwareTimes, canonical_utc, canonical_run}
use pufferlab.Persistence.Rows.{EvalRunRow, RunConfigRow, QueryOutcomeRow, Db, find, decode_run_row}
use pufferlab.Persistence.Selects.{is_run, require_run}
use pufferlab.Persistence.Transition.{transition_row}
use pufferlab.Persistence.Runs.{
  put_row, before, bindings, validate_new_run_shape, new_run_row, add_run, repeat_run, insert_run,
  store_run, check_catalog, create_run, claim_queued_run, interrupt_rows, interrupt_stale_runs,
}
use pufferlab.Persistence.Runs.Tables.{distinct-append_run}
use pufferlab.Persistence.Runs.OtherRuns.{
  ids-append_bindings, completed-append_bindings, completed_none,
}
use pufferlab.Persistence.Runs.Invariant.{
  RowIsValid, IsValid, require_run-RowIsValid, changed-RowIsValid, put_row-IsValid,
}

module _ {T : Type 0} where
  find-none :
      (id : ℕ) (rows : List (EvalRunRow T))
      → find (is_run id) rows ≡ none
      → All (λ row. row.id ≢ id) rows
  find-none id [] h = tt
  find-none id (r ∷ rs) h = (ground arith, find-none id rs (ground arith))

  is_some-find-append :
      (id : ℕ) (row : EvalRunRow T) (rows : List (EvalRunRow T))
      → is_some (find (is_run id) rows) ≡ true
      → is_some (find (is_run id) (rows ++ row ∷ [])) ≡ true
  is_some-find-append id row [] h = cc
  is_some-find-append id row (r ∷ rs) h = ground (arith, is_some-find-append id row rs)

module _ {F P T : Type 0} (c : Codecs F P T) (faithful : IsFaithful c) where
  module _ (value : EvalRun F) (db : Db T) (v : IsValid c db)
      (absent : find (is_run value.id) db.runs ≡ none)
      (shape : validate_new_run_shape value ≡ ok tt) where
    abbrev run_configs : List RunConfigRow
    run_configs = db.run_configs ++ bindings value.id 0 (config_ids value)

    abbrev new_row : EvalRunRow T
    new_row = new_run_row c value value.created_at.instant (c.dump_run value)

    is_unknown :
        (outcome : QueryOutcomeRow T)
        → is_some (find (is_run outcome.run_id) db.runs) ≡ true
        → outcome.run_id ≢ value.id
    is_unknown outcome h e = ground (arith, absent, ap (λ id. find (is_run id) db.runs) e)

    unknown : All (λ (outcome : QueryOutcomeRow T). outcome.run_id ≢ value.id) db.outcomes
    unknown = All-map is_unknown db.outcomes v.known

    fresh :
        (value.status ≡ queued)
        × (value.completed_queries ≡ 0)
        × (value.started_at ≡ none)
        × (value.completed_at ≡ none)
        × (value.error ≡ none)
        × (value.created_at.aware ≡ true)
    unfolding canonical_utc
    fresh = ground (arith, shape)

    aware : HasAwareTimes value
    aware = let f = fresh in (f.5, rw f.2, rw f.3)

    new-RowIsValid : RowIsValid c run_configs db.outcomes new_row
    new-RowIsValid = record {
      value = value;
      agrees = let f = fresh in ground (arith, faithful.parse-dump_run value aware);
      lifecycle = let f = fresh in ground arith;
      counted = fresh.1 ∙ sym (completed_none value.id run_configs db.outcomes unknown);
      covered = λ e. cc (fresh.0);
    }

    old-RowIsValid :
        (row : EvalRunRow T)
        → row.id ≢ value.id
        → RowIsValid c db.run_configs db.outcomes row
        → RowIsValid c run_configs db.outcomes row
    old-RowIsValid row differs r = record {
      value = r.value;
      agrees = r.agrees;
      lifecycle = r.lifecycle;
      counted =
          r.counted
          ∙ sym (
              completed-append_bindings row.id value.id differs db.outcomes db.run_configs 0
                (config_ids value));
      covered = λ e.
          rw (ids-append_bindings row.id value.id differs db.run_configs 0 (config_ids value))
            (r.covered e);
    }

    add_run-IsValid : IsValid c (add_run c value new_row db)
    add_run-IsValid = record {
      rows =
          All-append (RowIsValid c run_configs db.outcomes) db.runs (new_row ∷ [])
            (All-map₂ old-RowIsValid db.runs (find-none value.id db.runs absent) v.rows)
            (new-RowIsValid, tt);
      unique = distinct-append_run new_row db.runs absent v.unique;
      known =
          All-map
            (λ (outcome : QueryOutcomeRow T) h.
              is_some-find-append outcome.run_id new_row db.runs h)
            db.outcomes v.known;
    }

  pub insert_run-add_run :
      (value : EvalRun F) (payload : T) (db db' : Db T) (run : EvalRun F)
      → value.created_at.aware ≡ true
      → insert_run c value payload db ≡ ok (run, db')
      → db' ≡ add_run c value (new_run_row c value value.created_at.instant payload) db
  unfolding insert_run
  insert_run-add_run value payload db db' run aware h =
      let (_, _, h1) = >>=-eq-ok (check_catalog c value db) _ h in ground arith

  pub repeat_run-same :
      (payload : T) (row : EvalRunRow T) (db db' : Db T) (run : EvalRun F)
      → repeat_run c payload row db ≡ ok (run, db')
      → db' ≡ db
  unfolding repeat_run
  repeat_run-same payload row db db' run h = ground arith

  store_run-IsValid :
      (value : EvalRun F) (found : Option (EvalRunRow T)) (db db' : Db T) (run : EvalRun F)
      → IsValid c db
      → validate_new_run_shape value ≡ ok tt
      → find (is_run value.id) db.runs ≡ found
      → store_run c value (c.dump_run value) found db ≡ ok (run, db')
      → IsValid c db'
  unfolding store_run
  store_run-IsValid value (some row) db db' run v shape found h =
      rw (repeat_run-same (c.dump_run value) row db db' run h) v
  store_run-IsValid value none db db' run v shape absent h =
      let aware = (fresh value db v absent shape).5 in
      rw (insert_run-add_run value (c.dump_run value) db db' run aware h)
        (add_run-IsValid value db v absent shape)

  pub canonical_run-dump :
      (value : EvalRun F) (payload : T)
      → canonical_run c value ≡ ok payload
      → payload ≡ c.dump_run value
  unfolding canonical_run
  canonical_run-dump value payload h = ground arith

  -- Creating a run keeps the invariant.
  pub create_run-IsValid :
      (value : EvalRun F) (db db' : Db T) (run : EvalRun F)
      → IsValid c db
      → create_run c value db ≡ ok (run, db')
      → IsValid c db'
  unfolding create_run
  create_run-IsValid value db db' run v h =
      let (_, shape, h1) = >>=-eq-ok (validate_new_run_shape value) _ h in
      let (payload, dumped, h2) = >>=-eq-ok (canonical_run c value) _ h1 in
      store_run-IsValid value (find (is_run value.id) db.runs) db db' run v shape refl
        (rw (← canonical_run-dump value payload dumped) h2)

  -- Claiming a run keeps the invariant.
  pub claim_queued_run-IsValid :
      (id : ℕ) (at : DateTime) (db db' : Db T) (run : EvalRun F)
      → IsValid c db
      → claim_queued_run c id at db ≡ ok (run, db')
      → IsValid c db'
  unfolding claim_queued_run
  claim_queued_run-IsValid id at db db' run v h =
      let (_, _, h1) = >>=-eq-ok (canonical_utc at) _ h in
      let (row, found, h2) = >>=-eq-ok (require_run db id) _ h1 in
      let (current, _, h3) = >>=-eq-ok (decode_run_row c row) _ h2 in
      let (_, _, h4) =
        >>=-eq-ok (raise_if (not (same_status current.status queued)) invalid_run_transition) _
          h3 in
      let (changed, step, h5) = >>=-eq-ok (transition_row c row running at none none) _ h4 in
      rw (sym (ap (λ p. p.1) (ok-injective h5))) (
        put_row-IsValid c db changed.1 v (
          changed-RowIsValid c faithful db row changed.1 changed.0 running at none none
            (require_run-RowIsValid c db id v found).0 (λ e. cc) step))

  interrupt_rows-IsValid :
      (at : DateTime) (rows : List (EvalRunRow T)) (db db' : Db T) (ids : List ℕ)
      → All (RowIsValid c db.run_configs db.outcomes) rows
      → IsValid c db
      → interrupt_rows c at rows db ≡ ok (ids, db')
      → IsValid c db'
  interrupt_rows-IsValid at [] db db' ids rs v h = rw (sym (ap (λ p. p.1) (ok-injective h))) v
  interrupt_rows-IsValid at (row ∷ rows) db db' ids rs v h =
      let (changed, step, h1) = >>=-eq-ok (transition_row c row interrupted at none none) _ h in
      let (rest, more, h2) = >>=-eq-ok (interrupt_rows c at rows (put_row changed.1 db)) _ h1 in
      interrupt_rows-IsValid at rows (put_row changed.1 db) db' rest.0 rs.1
        (put_row-IsValid c db changed.1 v (
          changed-RowIsValid c faithful db row changed.1 changed.0 interrupted at none none rs.0
            (λ e. cc) step))
        (more ∙ ap (λ (d : Db T). ok (rest.0, d)) (ap (λ p. p.1) (ok-injective h2)))

  -- Interrupting the stale runs keeps the invariant.
  pub interrupt_stale_runs-IsValid :
      (at : DateTime) (db db' : Db T) (ids : List ℕ)
      → IsValid c db
      → interrupt_stale_runs c at db ≡ ok (ids, db')
      → IsValid c db'
  unfolding interrupt_stale_runs
  interrupt_stale_runs-IsValid at db db' ids v h =
      let (_, _, h1) = >>=-eq-ok (canonical_utc at) _ h in
      let P = RowIsValid c db.run_configs db.outcomes in
      let stale = keep (λ (row : EvalRunRow T). same_status row.status running) db.runs in
      interrupt_rows-IsValid at (sort before stale) db db' ids
        (sort-All before P stale (All-keep P _ db.runs v.rows)) v h1
