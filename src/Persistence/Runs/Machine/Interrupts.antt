-- ===== src/Persistence/Runs/Machine/Interrupts.antt =====
-- `interrupt_stale_runs` moves each running run once.
use pufferlab.Prelude.{
  ℕ, ◌≡◌, refl, sym, ap, ◌∙◌, ◌≢◌, inl, true, false, none, some, List, [], ◌∷◌, arith, map,
  distinct, contains, All, All-map₂, All-map, All-keep, keep,
}
use native.Mathlib.Decide.{ℕ_discrete}
use pufferlab.Prelude.Result.{ok, >>=-eq-ok, ok-injective}
use pufferlab.Prelude.Sort.{sort, sort-All}
use pufferlab.Prelude.Keys.{distinct-sort_by, distinct-keep_by}
use pufferlab.Persistence.Records.{DateTime, running, interrupted, EvalRun, same_status}
use pufferlab.Persistence.Codec.{Codecs, IsFaithful, canonical_utc}
use pufferlab.Persistence.Rows.{EvalRunRow, Db, find}
use pufferlab.Persistence.Selects.{is_run}
use pufferlab.Persistence.Transition.{transition_row}
use pufferlab.Persistence.Transition.Lifecycle.{transition_row-Changed}
use pufferlab.Persistence.Runs.{put_row, before, interrupt_rows, interrupt_stale_runs}
use pufferlab.Persistence.Runs.Tables.{find-member, find-write_ne}
use pufferlab.Persistence.Runs.Invariant.{RowIsValid, IsValid}
use pufferlab.Persistence.Runs.Machine.{status_of, Moves, put_row-other, moved-Moves}

module _ {F P T : Type 0} (c : Codecs F P T) (faithful : IsFaithful c) (id : ℕ) where
  -- A row that is to be interrupted, and that its identifier finds.
  abbrev IsStale : Db T → EvalRunRow T → Type 0
  IsStale db row =
      RowIsValid c db.run_configs db.outcomes row
      × (row.id ≡ id → find (is_run id) db.runs ≡ some row)

  interrupted-id :
      (db : Db T) (row new_row : EvalRunRow T) (new : EvalRun F) (at : DateTime)
      → RowIsValid c db.run_configs db.outcomes row
      → transition_row c row interrupted at none none ≡ ok (new, new_row)
      → new_row.id ≡ row.id
  interrupted-id db row new_row new at valid h =
      (transition_row-Changed c faithful row valid.value interrupted at none none new new_row
        valid.agrees h).same_id

  interrupt_rows-other :
      (at : DateTime) (rows : List (EvalRunRow T)) (db db' : Db T) (ids : List ℕ)
      → All (RowIsValid c db.run_configs db.outcomes) rows
      → contains id (map (λ row. row.id) rows) ≡ false
      → interrupt_rows c at rows db ≡ ok (ids, db')
      → status_of id db' ≡ status_of id db
  interrupt_rows-other at [] db db' ids valid absent h =
      ap (status_of id) (sym (ap (λ p. p.1) (ok-injective h)))
  interrupt_rows-other at (row ∷ rows) db db' ids valid absent h =
      let (changed, step, h1) = >>=-eq-ok (transition_row c row interrupted at none none) _ h in
      let (rest, more, h2) = >>=-eq-ok (interrupt_rows c at rows (put_row changed.1 db)) _ h1 in
      let same = interrupted-id db row changed.1 changed.0 at valid.0 step in
      let differs : changed.1.id ≢ id = λ e. ground (arith, absent, same, e) in
      interrupt_rows-other at rows (put_row changed.1 db) db' rest.0 valid.1 (ground arith)
        (more ∙ ap (λ (d : Db T). ok (rest.0, d)) (ap (λ p. p.1) (ok-injective h2)))
      ∙ put_row-other c faithful id changed.1 db differs

  interrupt_rows-Moves :
      (at : DateTime) (rows : List (EvalRunRow T)) (db db' : Db T) (ids : List ℕ)
      → All (IsStale db) rows
      → distinct (map (λ row. row.id) rows) ≡ true
      → interrupt_rows c at rows db ≡ ok (ids, db')
      → Moves (status_of id db) (status_of id db')
  interrupt_rows-Moves at [] db db' ids stale apart h =
      inl (ap (status_of id) (sym (ap (λ p. p.1) (ok-injective h))))
  interrupt_rows-Moves at (row ∷ rows) db db' ids stale apart h =
      let (changed, step, h1) = >>=-eq-ok (transition_row c row interrupted at none none) _ h in
      let (rest, more, h2) = >>=-eq-ok (interrupt_rows c at rows (put_row changed.1 db)) _ h1 in
      let last = more ∙ ap (λ (d : Db T). ok (rest.0, d)) (ap (λ p. p.1) (ok-injective h2)) in
      let same = interrupted-id db row changed.1 changed.0 at stale.0.0 step in
      elim (ℕ_discrete row.id id) [
        | yes e ↦
            let found : find (is_run row.id) db.runs ≡ some row =
              ap (λ k. find (is_run k) db.runs) e ∙ stale.0.1 e in
            let others : All (RowIsValid c db.run_configs db.outcomes) rows =
              All-map (λ r s. s.0) rows stale.1 in
            rw
              (interrupt_rows-other at rows (put_row changed.1 db) db' rest.0 others
                (rw (← e) (ground arith)) last)
              (moved-Moves c faithful id db row.id row changed.1 changed.0 interrupted at none none
                stale.0.0 found refl step)
        | no n ↦
            let differs : changed.1.id ≢ id = λ e. n (sym same ∙ e) in
            rw (← put_row-other c faithful id changed.1 db differs) (
              interrupt_rows-Moves at rows (put_row changed.1 db) db' rest.0
                (All-map (λ r s. (s.0, λ e. find-write_ne id changed.1 db.runs differs ∙ s.1 e))
                  rows stale.1)
                (ground arith) last)
      ]

  pub interrupt_stale_runs-Moves :
      (db : Db T)
      → IsValid c db
      → (at : DateTime) (ids : List ℕ) (db' : Db T) → interrupt_stale_runs c at db ≡ ok (ids, db')
      → Moves (status_of id db) (status_of id db')
  unfolding interrupt_stale_runs
  interrupt_stale_runs-Moves db v at ids db' h =
      let (_, _, h1) = >>=-eq-ok (canonical_utc at) _ h in
      let live = λ (r : EvalRunRow T). same_status r.status running in
      let key = λ (r : EvalRunRow T). r.id in
      let stale : All (IsStale db) db.runs =
        All-map₂ (λ r w found. (w, found)) db.runs v.rows (find-member id db.runs v.unique) in
      interrupt_rows-Moves at (sort before (keep live db.runs)) db db' ids
        (sort-All before (IsStale db) (keep live db.runs)
          (All-keep (IsStale db) live db.runs stale))
        (distinct-sort_by key before (keep live db.runs)
          (distinct-keep_by key live db.runs v.unique))
        h1
