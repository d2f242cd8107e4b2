-- ===== src/Persistence/Runs/Machine.antt =====
-- `_ALLOWED_TRANSITIONS` as a state machine, and that the run methods of persistence/repository.py
-- implement it: what the tables say of a run's status moves along the machine and in no other way.
pub mod Interrupts
pub mod Refinement
use pufferlab.Prelude.{
  ℕ, ◌≡◌, refl, sym, ap, ◌∙◌, ◌≢◌, ◌⊎◌, inl, inr, true, false, not, Option, none, some, List, [],
  ◌∷◌, ◌++◌, arith, map, distinct, contains, All, All-map₂, All-map, All-keep, keep-All, keep, ◌==◌,
  Option-cases,
}
use native.Mathlib.Decide.{ℕ_discrete}
use pufferlab.Prelude.Result.{ok, >>=-eq-ok, ok-injective, raise_if}
use pufferlab.Prelude.Sort.{sort, sort-All}
use pufferlab.Prelude.Keys.{distinct-sort_by, distinct-keep_by}
use pufferlab.Persistence.Errors.{invalid_run_transition}
use pufferlab.Persistence.Records.{
  DateTime, ConfigRunSummary, ApiErrorDetail, EvalRunStatus, queued, running, interrupted, EvalRun,
  QueryOutcome, same_status, is_allowed,
}
use pufferlab.Persistence.Codec.{Codecs, IsFaithful, canonical_utc, canonical_run}
use pufferlab.Persistence.Rows.{EvalRunRow, Db, find, decode_run_row}
use pufferlab.Persistence.Selects.{is_run, require_run}
use pufferlab.Persistence.Transition.{transition_row}
use pufferlab.Persistence.Transition.Lifecycle.{transition_row-Changed}
use pufferlab.Persistence.Runs.{
  put_row, before, validate_new_run_shape, new_run_row, add_run, create_run, store_run,
  transition_run, claim_queued_run, record_outcome, interrupt_rows, interrupt_stale_runs,
}
use pufferlab.Persistence.Runs.Tables.{find-append_run, find-member, find-write_ne, find-write_self}
use pufferlab.Persistence.Runs.Invariant.{
  RowIsValid, IsValid, require_run-find, require_run-RowIsValid, transition_run-steps,
}
use pufferlab.Persistence.Runs.Recording.{store_outcome-Stored, record_outcome-store}
use pufferlab.Persistence.Runs.Creation.{insert_run-add_run, repeat_run-same}
use pufferlab.Persistence.Runs.History.{Call, perform, history, perform-induction, perform-IsValid}

-- The status of a run; `none` before the run is created.
abbrev pub State : Type 0
State = Option EvalRunStatus

pub data Step : State → State → Type 0 where
  created : Step none (some queued)
  moved :
      {current target : EvalRunStatus}
      → is_allowed current target ≡ true
      → Step (some current) (some target)

pub data Reach (s : State) : State → Type 0 where
  unmoved : Reach s s
  stepped : {t u : State} → Reach s t → Step t u → Reach s u

abbrev pub status? : {T : Type 0} → Option (EvalRunRow T) → State
status? none = none
status? (some row) = some row.status

-- The machine's state that the tables stand for.
abbrev pub status_of : {T : Type 0} → ℕ → Db T → State
status_of id db = status? (find (is_run id) db.runs)

-- One call does at most one step of the machine.
abbrev pub Moves : State → State → Type 0
Moves s t = (t ≡ s) ⊎ Step s t

find-append_new :
    {T : Type 0} (id : ℕ) (new : EvalRunRow T) (rows : List (EvalRunRow T))
    → find (is_run id) rows ≡ none
    → new.id ≡ id
    → find (is_run id) (rows ++ new ∷ []) ≡ some new
find-append_new id new [] h e = ground arith
find-append_new id new (r ∷ rs) h e = ground (arith, find-append_new id new rs)

find-append_other :
    {T : Type 0} (id : ℕ) (new : EvalRunRow T) (rows : List (EvalRunRow T))
    → new.id ≢ id
    → find (is_run id) (rows ++ new ∷ []) ≡ find (is_run id) rows
find-append_other id new [] h = ground arith
find-append_other id new (r ∷ rs) h = ground (arith, find-append_other id new rs)

module _ {F P T : Type 0} (c : Codecs F P T) (faithful : IsFaithful c) (id : ℕ) where
  pub put_row-other :
      (new : EvalRunRow T) (db : Db T)
      → new.id ≢ id
      → status_of id (put_row new db) ≡ status_of id db
  put_row-other new db differs = ap status? (find-write_ne id new db.runs differs)

  -- A transition of the row of the run `asked`.
  pub moved-Moves :
      (db : Db T) (asked : ℕ) (found new_row : EvalRunRow T) (new : EvalRun F)
      (target : EvalRunStatus) (at : DateTime) (summaries : Option (List (ConfigRunSummary F)))
      (error : Option ApiErrorDetail)
      → RowIsValid c db.run_configs db.outcomes found
      → find (is_run asked) db.runs ≡ some found
      → found.id ≡ asked
      → transition_row c found target at summaries error ≡ ok (new, new_row)
      → Moves (status_of id db) (status_of id (put_row new_row db))
  moved-Moves db asked found new_row new target at summaries error valid there same h =
      let ch =
        transition_row-Changed c faithful found valid.value target at summaries error new new_row
          valid.agrees h in
      elim (ℕ_discrete asked id) [
        | yes e ↦
            let unmoved : find (is_run id) db.runs ≡ some found = rw (← e) there in
            let after : find (is_run id) (put_row new_row db).runs ≡ some new_row =
              find-write_self id found new_row db.runs unmoved (ch.same_id ∙ same ∙ e) in
            rw (unmoved, after)
              (inr (
                moved
                  (ground (arith, ch.allowed, ch.status, ch.agrees.status, valid.agrees.status))))
        | no n ↦ inl (put_row-other new_row db (λ e. n (sym same ∙ sym ch.same_id ∙ e)))
      ]

  module _ (db : Db T) (v : IsValid c db) where
    pub transition_run-Moves :
        (asked : ℕ) (target : EvalRunStatus) (at : DateTime)
        (summaries : Option (List (ConfigRunSummary F))) (error : Option ApiErrorDetail)
        (run : EvalRun F) (db' : Db T)
        → transition_run c asked target at summaries error db ≡ ok (run, db')
        → Moves (status_of id db) (status_of id db')
    transition_run-Moves asked target at summaries error run db' h =
        let (found, new_row, there, _, step, e) =
          transition_run-steps c faithful asked target at summaries error db run db' h in
        let (valid, same) = require_run-RowIsValid c db asked v there in
        rw e (
          moved-Moves db asked found new_row run target at summaries error valid
            (require_run-find c db asked there) same step)

    pub claim_queued_run-Moves :
        (asked : ℕ) (at : DateTime) (run : EvalRun F) (db' : Db T)
        → claim_queued_run c asked at db ≡ ok (run, db')
        → Moves (status_of id db) (status_of id db')
    unfolding claim_queued_run
    claim_queued_run-Moves asked at run db' h =
        let (_, _, h1) = >>=-eq-ok (canonical_utc at) _ h in
        let (found, there, h2) = >>=-eq-ok (require_run db asked) _ h1 in
        let (current, _, h3) = >>=-eq-ok (decode_run_row c found) _ h2 in
        let (_, _, h4) =
          >>=-eq-ok (raise_if (not (same_status current.status queued)) invalid_run_transition) _
            h3 in
        let (changed, step, h5) = >>=-eq-ok (transition_row c found running at none none) _ h4 in
        let (valid, same) = require_run-RowIsValid c db asked v there in
        rw (sym (ap (λ p. p.1) (ok-injective h5))) (
          moved-Moves db asked found changed.1 changed.0 running at none none valid
            (require_run-find c db asked there) same step)

    pub record_outcome-Moves :
        (outcome : QueryOutcome P) (updated : EvalRun F) (db' : Db T)
        → record_outcome c outcome db ≡ ok (updated, db')
        → Moves (status_of id db) (status_of id db')
    record_outcome-Moves outcome updated db' h =
        let (new, found, run, _, _, _, there, _, stored) =
          record_outcome-store c faithful outcome db db' updated h in
        let s = store_outcome-Stored c new found run updated db db' stored in
        let (_, same) = require_run-RowIsValid c db new.run_id v there in
        let written = record found {
          completed_queries = updated.completed_queries;
          payload_json = c.dump_run updated;
        } in
        rw s.stored (elim (ℕ_discrete new.run_id id) [
          | yes e ↦
              let unmoved : find (is_run id) db.runs ≡ some found =
                rw (← e) (require_run-find c db new.run_id there) in
              let after = find-write_self id found written db.runs unmoved (same ∙ e) in
              rw (unmoved, after) (inl refl)
          | no n ↦ inl (ap status? (find-write_ne id written db.runs (λ e. n (sym same ∙ e))))
        ])

    add_run-Moves :
        (value : EvalRun F) (payload : T)
        → validate_new_run_shape value ≡ ok tt
        → find (is_run value.id) db.runs ≡ none
        → Moves (status_of id db) (
            status_of id
              (add_run c value (new_run_row c value value.created_at.instant payload) db))
    add_run-Moves value payload shape absent =
        let new = new_run_row c value value.created_at.instant payload in
        elim (ℕ_discrete value.id id) [
          | yes e ↦
              let unmoved : find (is_run id) db.runs ≡ none = rw (← e) absent in
              let is_queued : value.status ≡ queued = ground arith in
              rw (unmoved, find-append_new id new db.runs unmoved e, is_queued) (inr created)
          | no n ↦ inl (ap status? (find-append_other id new db.runs n))
        ]

    store_run-Moves :
        (value : EvalRun F) (payload : T) (existing : Option (EvalRunRow T)) (run : EvalRun F)
        (db' : Db T)
        → validate_new_run_shape value ≡ ok tt
        → find (is_run value.id) db.runs ≡ existing
        → store_run c value payload existing db ≡ ok (run, db')
        → Moves (status_of id db) (status_of id db')
    unfolding store_run canonical_utc
    store_run-Moves value payload (some old) run db' shape there h =
        inl (ap (status_of id) (repeat_run-same c faithful payload old db db' run h))
    store_run-Moves value payload none run db' shape absent h =
        let aware : value.created_at.aware ≡ true = ground arith in
        rw (insert_run-add_run c faithful value payload db db' run aware h)
          (add_run-Moves value payload shape absent)

    pub create_run-Moves :
        (value : EvalRun F) (run : EvalRun F) (db' : Db T)
        → create_run c value db ≡ ok (run, db')
        → Moves (status_of id db) (status_of id db')
    unfolding create_run
    create_run-Moves value run db' h =
        let (_, shape, h1) = >>=-eq-ok (validate_new_run_shape value) _ h in
        let (payload, _, h2) = >>=-eq-ok (canonical_run c value) _ h1 in
        store_run-Moves value payload (find (is_run value.id) db.runs) run db' shape refl h2
