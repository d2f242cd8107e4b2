-- ===== src/Persistence/Runs/Machine/Refinement.antt =====
-- Every call of the run repository, and every history of calls, moves along the machine.
use pufferlab.Prelude.{ℕ, refl, inl, inr, List, [], ◌∷◌}
use pufferlab.Persistence.Codec.{Codecs, IsFaithful}
use pufferlab.Persistence.Rows.{Db}
use pufferlab.Persistence.Runs.Invariant.{IsValid}
use pufferlab.Persistence.Runs.History.{Call, perform, history, perform-induction, perform-IsValid}
use pufferlab.Persistence.Runs.Machine.{
  State, Reach, unmoved, stepped, status_of, Moves, transition_run-Moves, claim_queued_run-Moves,
  record_outcome-Moves, create_run-Moves,
}
use pufferlab.Persistence.Runs.Machine.Interrupts.{interrupt_stale_runs-Moves}

module _ {F P T : Type 0} (c : Codecs F P T) (faithful : IsFaithful c) (id : ℕ) where
  pub perform-Moves :
      (call : Call F P) (db : Db T)
      → IsValid c db
      → Moves (status_of id db) (status_of id (perform c call db))
  perform-Moves call db v =
      perform-induction c (λ d. Moves (status_of id db) (status_of id d)) db (inl refl)
        (λ value run db' h. create_run-Moves c faithful id db v value run db' h)
        (λ asked target at summaries error run db' h.
          transition_run-Moves c faithful id db v asked target at summaries error run db' h)
        (λ asked at run db' h. claim_queued_run-Moves c faithful id db v asked at run db' h)
        (λ outcome run db' h. record_outcome-Moves c faithful id db v outcome run db' h)
        (λ at ids db' h. interrupt_stale_runs-Moves c faithful id db v at ids db' h) call

  Reach-step : {s t u : State} → Reach s t → Moves t u → Reach s u
  Reach-step r (inl e) = rw e r
  Reach-step r (inr step) = stepped r step

  Reach-history :
      {s : State} (calls : List (Call F P)) (db : Db T)
      → IsValid c db
      → Reach s (status_of id db)
      → Reach s (status_of id (history c calls db))
  unfolding history
  Reach-history [] db v r = r
  Reach-history (call ∷ calls) db v r =
      Reach-history calls (perform c call db) (perform-IsValid c faithful call db v)
        (Reach-step r (perform-Moves call db v))

  -- In valid tables, any sequence of repository calls, failing or not, takes the status of each run
  -- along the paths of the abstract state machine: from absence to queued, and from a status to one
  -- that the transition table allows. A written value is read back.
  pub history-Reach :
      (calls : List (Call F P)) (db : Db T)
      → IsValid c db
      → Reach (status_of id db) (status_of id (history c calls db))
  history-Reach calls db v = Reach-history calls db v unmoved
