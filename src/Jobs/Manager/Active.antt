-- ===== src/Jobs/Manager/Active.antt =====
-- The job of a run stays in `_active` until its task ends: no start replaces it.
use mathlib.Core.Path.{subst}
use pufferlab.Prelude.{
  ℕ, ◌≡◌, ◌≤◌, refl, sym, ap, true, false, not, ◌||◌, none, some, ◌∙◌, some_of, Bool, List, [], ◌∷◌,
  arith, ◌==◌, Bool-cases, inl, inr,
}
use pufferlab.Prelude.Result.{Result, ok, err, ◌>>=◌, >>=-eq-ok, ok-injective, raise_if}
use pufferlab.Persistence.Errors.{Checked}
use pufferlab.Persistence.Records.{
  DateTime, EvalRunStatus, queued, running, cancelled, EvalRun, same_status,
}
use pufferlab.Persistence.Codec.{Codecs}
use pufferlab.Persistence.Codec.{IsFaithful, canonical_utc}
use pufferlab.Persistence.Errors.{record_not_found, invalid_run_transition}
use pufferlab.Persistence.Rows.{Db, EvalRunRow, find, decode_run_row}
use pufferlab.Persistence.Rows.Agreement.{decode_run_row-Agrees}
use pufferlab.Persistence.Selects.{is_run, or_missing, require_run}
use pufferlab.Persistence.Transition.{transition_row}
use pufferlab.Persistence.Transition.Lifecycle.{transition_row-Changed}
use pufferlab.Persistence.Runs.{get_run, transition_run, claim_queued_run, interrupt_stale_runs}
use pufferlab.Jobs.Loop.{QueryWorkItem}
use pufferlab.Jobs.Manager.{
  ActiveJob, Manager, StartError, lift, distinct_items, is_active, or_same, after_cancel,
  after_recovery, cancel_written, Event, starts, starts_claimed, cancels, closes, ends, recovers,
  others, happen, happen_all, finish, validate_start, start, start_claimed, cancel, cancel_idle,
}
use pufferlab.Jobs.Manager.Entries.{
  job_of, asked, asked-asked, unchanged, job_of-others, job_of-set_cancellation, job_of-close,
  other_key, job_of-schedule_claimed,
}

-- The end of the run's task.
abbrev pub is_end_of : {F P : Type 0} → ℕ → Event F P → Bool
is_end_of run_id (ends other) = other == run_id
is_end_of run_id _ = false

-- A cancellation of the run, or of all runs.
abbrev pub is_request_for : {F P : Type 0} → ℕ → Event F P → Bool
is_request_for run_id (cancels other at) = other == run_id
is_request_for run_id closes = true
is_request_for run_id _ = false

module _ {F P T : Type 0} (c : Codecs F P T) where
  pub validate_start-ok :
      (run_id max_concurrency : ℕ) (items : List QueryWorkItem) (status : EvalRunStatus)
      (m : Manager T) (run : EvalRun F)
      → validate_start c run_id items max_concurrency status m ≡ ok run
      → (1 ≤ max_concurrency)
        × (is_active run_id m.active ≡ false)
        × (distinct_items items ≡ true)
        × (get_run c m.db run_id ≡ ok run)
        × (same_status run.status status ≡ true)
        × (run.environment.max_concurrency ≡ max_concurrency)
  unfolding validate_start
  validate_start-ok run_id max_concurrency items status m run h = ground arith

pub lift-ok : {A : Type 0} (r : Checked A) (a : A) → lift r ≡ ok a → r ≡ ok a
lift-ok (ok b) a h = ground arith
lift-ok (err e) a h = ground arith

find-is_run :
    {T : Type 0} (id : ℕ) (rows : List (EvalRunRow T)) (row : EvalRunRow T)
    → or_missing record_not_found (find (is_run id) rows) ≡ ok row
    → row.id ≡ id
find-is_run id [] row h = cc
find-is_run id (r ∷ rows) row h = elim (Bool-cases (r.id == id)) [
  | inl e ↦ ground (arith, e)
  | inr e ↦ find-is_run id rows row (ground (arith, e))
]

require_run-id :
    {T : Type 0} (db : Db T) (id : ℕ) (row : EvalRunRow T)
    → require_run db id ≡ ok row
    → row.id ≡ id
require_run-id db id row h = find-is_run id db.runs row h

module _ (run_id : ℕ) (job : ActiveJob) where
  module _ {F P T : Type 0} (c : Codecs F P T) (faithful : IsFaithful c) where
    get_run-id : (db : Db T) (id : ℕ) (run : EvalRun F) → get_run c db id ≡ ok run → run.id ≡ id
    get_run-id db id run h =
        let (row, found, h1) = >>=-eq-ok (require_run db id) _ h in
        (decode_run_row-Agrees c row run h1).id ∙ require_run-id db id row found

    claim-id :
        (id : ℕ) (at : DateTime) (db db' : Db T) (run : EvalRun F)
        → claim_queued_run c id at db ≡ ok (run, db')
        → run.id ≡ id
    unfolding claim_queued_run
    claim-id id at db db' run h =
        let (_, _, h1) = >>=-eq-ok (canonical_utc at) _ h in
        let (row, found, h2) = >>=-eq-ok (require_run db id) _ h1 in
        let (current, decoded, h3) = >>=-eq-ok (decode_run_row c row) _ h2 in
        let (_, _, h4) =
          >>=-eq-ok (raise_if (not (same_status current.status queued)) invalid_run_transition) _
            h3 in
        let (changed, step, h5) = >>=-eq-ok (transition_row c row running at none none) _ h4 in
        let ch =
          transition_row-Changed c faithful row current running at none none changed.0 changed.1
            (decode_run_row-Agrees c row current decoded) step in
        sym (ap (λ (p : EvalRun F × Db T). p.0.id) (ok-injective h5))
        ∙ ch.agrees.id
        ∙ ch.same_id
        ∙ require_run-id db id row found

    job_of-start :
        (other max_concurrency : ℕ) (items : List QueryWorkItem) (at : DateTime) (m : Manager T)
        (result : Result StartError (Manager T))
        → start c other items max_concurrency at m ≡ result
        → job_of run_id m.active ≡ some job
        → job_of run_id (or_same m result).active ≡ some (asked false job)
    unfolding start
    job_of-start other max_concurrency items at m (err e) h a = unchanged run_id job m.active a
    job_of-start other max_concurrency items at m (ok m') h a =
        let (run, v, h1) = >>=-eq-ok (validate_start c other items max_concurrency queued m) _ h in
        let (claimed, l, h2) = >>=-eq-ok (lift (claim_queued_run c other at m.db)) _ h1 in
        let (_, idle, _, _, _, _) =
          validate_start-ok c other max_concurrency items queued m run v in
        let key =
          claim-id other at m.db claimed.1 claimed.0
            (lift-ok (claim_queued_run c other at m.db) claimed l) in
        subst (λ (x : Manager T). job_of run_id x.active ≡ some (asked false job)) (ok-injective h2)
          (job_of-schedule_claimed run_id job claimed.0.id max_concurrency items
            (record m { db = claimed.1 }) (ap (λ k. is_active k m.active) key ∙ idle) a)

    job_of-start_claimed :
        (other max_concurrency : ℕ) (items : List QueryWorkItem) (m : Manager T)
        (result : Result StartError (Manager T))
        → start_claimed c other items max_concurrency m ≡ result
        → job_of run_id m.active ≡ some job
        → job_of run_id (or_same m result).active ≡ some (asked false job)
    unfolding start_claimed
    job_of-start_claimed other max_concurrency items m (err e) h a = unchanged run_id job m.active a
    job_of-start_claimed other max_concurrency items m (ok m') h a =
        let (run, v, h1) = >>=-eq-ok (validate_start c other items max_concurrency running m) _ h in
        let (_, idle, _, got, _, _) =
          validate_start-ok c other max_concurrency items running m run v in
        let key = get_run-id m.db other run got in
        subst (λ (x : Manager T). job_of run_id x.active ≡ some (asked false job)) (ok-injective h1)
          (job_of-schedule_claimed run_id job run.id max_concurrency items m
            (ap (λ k. is_active k m.active) key ∙ idle) a)

    active-cancel_written :
        (m : Manager T) (result : Checked (EvalRun F × Db T))
        → (after_cancel m (result >>= λ pair. ok (cancel_written c m pair))).active ≡ m.active
    active-cancel_written m (err e) = refl
    active-cancel_written m (ok (run, db)) = refl

    active-cancel_idle :
        (other : ℕ) (at : DateTime) (m : Manager T) (found : Checked (EvalRun F))
        → (after_cancel m (found >>= cancel_idle c other at m)).active ≡ m.active
    active-cancel_idle other at m (err e) = refl
    active-cancel_idle other at m (ok run) =
        elim (Bool-cases (same_status run.status queued || same_status run.status running)) [
          | inl e ↦
              rw e (active-cancel_written m (transition_run c other cancelled at none none m.db))
          | inr e ↦ rw e refl
        ]

    job_of-cancel :
        (other : ℕ) (at : DateTime) (m : Manager T)
        → job_of run_id m.active ≡ some job
        → job_of run_id (after_cancel m (cancel c other at m)).active
          ≡ some (asked (other == run_id) job)
    unfolding cancel
    job_of-cancel other at m a = elim (Bool-cases (is_active other m.active)) [
      | inl e ↦ rw e (job_of-set_cancellation run_id job other m.active a)
      | inr e ↦
          let apart = other_key run_id job other m.active e a in
          rw e (
            ap (job_of run_id) (active-cancel_idle other at m (get_run c m.db other))
            ∙ unchanged run_id job m.active a
            ∙ ap (λ b. some (asked b job)) (sym apart))
    ]

    active-recovery :
        (m : Manager T) (result : Checked (List ℕ × Db T))
        → (after_recovery m (result >>= λ pair. ok (pair.0, record m { db = pair.1 }))).active
          ≡ m.active
    active-recovery m (err e) = refl
    active-recovery m (ok (ids, db)) = refl

    job_of-happen :
        (e : Event F P) (m : Manager T)
        → is_end_of run_id e ≡ false
        → job_of run_id m.active ≡ some job
        → job_of run_id (happen c e m).active ≡ some (asked (is_request_for run_id e) job)
    unfolding happen
    job_of-happen (starts other items max_concurrency at) m o a =
        job_of-start other max_concurrency items at m (start c other items max_concurrency at m)
          refl a
    job_of-happen (starts_claimed other items max_concurrency) m o a =
        job_of-start_claimed other max_concurrency items m
          (start_claimed c other items max_concurrency m) refl a
    job_of-happen (cancels other at) m o a = job_of-cancel other at m a
    job_of-happen closes m o a = job_of-close run_id job m.active a
    job_of-happen (ends other) m o a =
        unchanged run_id job (finish other m).active (job_of-others run_id job other m.active o ∙ a)
    job_of-happen (recovers at) m o a =
        ap (job_of run_id) (active-recovery m (interrupt_stale_runs c at m.db))
        ∙ unchanged run_id job m.active a
    job_of-happen (others calls) m o a = unchanged run_id job m.active a

module _ {F P T : Type 0} (c : Codecs F P T) (faithful : IsFaithful c) where
  -- Whatever happens to a manager, in any order, except that the task of a run ends: the active job
  -- of the run stays active, with its own work items and its own concurrency, and no start replaces
  -- it. Its cancellation is requested exactly when it was requested before, the run was cancelled
  -- or the manager was closed. A written value is read back.
  pub job_of-happen_all :
      (run_id : ℕ) (job : ActiveJob) (events : List (Event F P)) (m : Manager T)
      → job_of run_id m.active ≡ some job
      → some_of (is_end_of run_id) events ≡ false
      → job_of run_id (happen_all c events m).active
        ≡ some (asked (some_of (is_request_for run_id) events) job)
  unfolding happen_all
  job_of-happen_all run_id job [] m a o = unchanged run_id job m.active a
  job_of-happen_all run_id job (e ∷ es) m a o =
      let b = is_request_for run_id e in
      job_of-happen_all run_id (asked b job) es (happen c e m)
        (job_of-happen run_id job c faithful e m (ground arith) a) (ground arith)
      ∙ ap some (asked-asked b (some_of (is_request_for run_id) es) job)
