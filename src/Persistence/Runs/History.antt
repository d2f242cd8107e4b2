-- ===== src/Persistence/Runs/History.antt =====
-- Sequences of calls of the run repository, in the order of their transactions.
use pufferlab.Prelude.{ℕ, ◌≡◌, refl, Option, List, [], ◌∷◌}
use pufferlab.Prelude.Result.{ok, err}
use pufferlab.Persistence.Errors.{Checked}
use pufferlab.Persistence.Records.{
  DateTime, ConfigRunSummary, ApiErrorDetail, EvalRunStatus, EvalRun, QueryOutcome,
}
use pufferlab.Persistence.Codec.{Codecs, IsFaithful}
use pufferlab.Persistence.Rows.{Db}
use pufferlab.Persistence.Runs.{
  create_run, transition_run, claim_queued_run, record_outcome, interrupt_stale_runs,
}
use pufferlab.Persistence.Runs.Invariant.{IsValid, transition_run-IsValid}
use pufferlab.Persistence.Runs.Recording.{record_outcome-IsValid}
use pufferlab.Persistence.Runs.Creation.{
  create_run-IsValid, claim_queued_run-IsValid, interrupt_stale_runs-IsValid,
}

pub data Call (F P : Type 0) : Type 0 where
  create : EvalRun F → Call F P
  transition :
      ℕ
      → EvalRunStatus
      → DateTime
      → Option (List (ConfigRunSummary F))
      → Option ApiErrorDetail
      → Call F P
  claim : ℕ → DateTime → Call F P
  record_result : QueryOutcome P → Call F P
  interrupt : DateTime → Call F P

-- An error rolls the transaction back.
abbrev pub settle : {A T : Type 0} → Db T → Checked (A × Db T) → Db T
settle db (ok (_, db')) = db'
settle db (err _) = db

module _ {F P T : Type 0} (c : Codecs F P T) where
  unfoldable pub perform : Call F P → Db T → Db T
  perform (create value) db = settle db (create_run c value db)
  perform (transition id target at summaries error) db =
      settle db (transition_run c id target at summaries error db)
  perform (claim id at) db = settle db (claim_queued_run c id at db)
  perform (record_result outcome) db = settle db (record_outcome c outcome db)
  perform (interrupt at) db = settle db (interrupt_stale_runs c at db)

  unfoldable pub history : List (Call F P) → Db T → Db T
  unfolding perform
  history [] db = db
  history (call ∷ calls) db = history calls (perform call db)

  settle-induction :
      {A : Type 0} (Q : Db T → Type 0) (db : Db T) (result : Checked (A × Db T))
      → Q db
      → ((a : A) (db' : Db T) → result ≡ ok (a, db') → Q db')
      → Q (settle db result)
  settle-induction Q db (ok (a, db')) q step = step a db' refl
  settle-induction Q db (err e) q step = q

  -- What every successful method keeps, a call keeps.
  pub perform-induction :
      (Q : Db T → Type 0) (db : Db T)
      → Q db
      → ((value : EvalRun F) (run : EvalRun F) (db' : Db T)
          → create_run c value db ≡ ok (run, db')
          → Q db')
      → ((id : ℕ) (target : EvalRunStatus) (at : DateTime)
            (summaries : Option (List (ConfigRunSummary F))) (error : Option ApiErrorDetail)
            (run : EvalRun F) (db' : Db T)
          → transition_run c id target at summaries error db ≡ ok (run, db')
          → Q db')
      → ((id : ℕ) (at : DateTime) (run : EvalRun F) (db' : Db T)
          → claim_queued_run c id at db ≡ ok (run, db')
          → Q db')
      → ((outcome : QueryOutcome P) (run : EvalRun F) (db' : Db T)
          → record_outcome c outcome db ≡ ok (run, db')
          → Q db')
      → ((at : DateTime) (ids : List ℕ) (db' : Db T)
          → interrupt_stale_runs c at db ≡ ok (ids, db')
          → Q db')
      → (call : Call F P) → Q (perform call db)
  unfolding perform
  perform-induction Q db q on_create on_move on_claim on_record on_interrupt (create value) =
      settle-induction Q db (create_run c value db) q (on_create value)
  perform-induction Q db q on_create on_move on_claim on_record on_interrupt
        (transition id target at summaries error) =
      settle-induction Q db (transition_run c id target at summaries error db) q
        (on_move id target at summaries error)
  perform-induction Q db q on_create on_move on_claim on_record on_interrupt (claim id at) =
      settle-induction Q db (claim_queued_run c id at db) q (on_claim id at)
  perform-induction Q db q on_create on_move on_claim on_record on_interrupt
        (record_result outcome) =
      settle-induction Q db (record_outcome c outcome db) q (on_record outcome)
  perform-induction Q db q on_create on_move on_claim on_record on_interrupt (interrupt at) =
      settle-induction Q db (interrupt_stale_runs c at db) q (on_interrupt at)

  module _ (faithful : IsFaithful c) where
    pub perform-IsValid : (call : Call F P) (db : Db T) → IsValid c db → IsValid c (perform call db)
    perform-IsValid call db v =
        perform-induction (IsValid c) db v
          (λ value run db' h. create_run-IsValid c faithful value db db' run v h)
          (λ id target at summaries error run db' h.
            transition_run-IsValid c faithful id target at summaries error db run db' v h)
          (λ id at run db' h. claim_queued_run-IsValid c faithful id at db db' run v h)
          (λ outcome run db' h. record_outcome-IsValid c faithful outcome db db' run v h)
          (λ at ids db' h. interrupt_stale_runs-IsValid c faithful at db db' ids v h) call

    -- Any sequence of repository calls, failing or not, keeps the tables valid: each run row agrees
    -- with its payload, has the times, the error and the counter that its status asks for, and for
    -- each config of a completed run the outcomes, succeeded and failed, are as many as the queries
    -- of the run. A written value is read back.
    pub history-IsValid :
        (calls : List (Call F P)) (db : Db T) → IsValid c db → IsValid c (history calls db)
    unfolding history
    history-IsValid [] db v = v
    history-IsValid (call ∷ calls) db v =
        history-IsValid calls (perform call db) (perform-IsValid call db v)
