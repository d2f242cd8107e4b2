-- ===== src/Jobs/Manager/Claim.antt =====
-- A started run is claimed, and it cannot be started again while its job is active.
use pufferlab.Prelude.{
  ℕ, ◌≡◌, refl, sym, ap, ◌∙◌, true, false, not, none, List, [], ◌∷◌, ◌++◌, arith, ltb, Bool-cases,
  inl, inr,
}
use pufferlab.Prelude.Result.{ok, raise_if, >>=-eq-ok, ok-injective, is_ok}
use pufferlab.Persistence.Errors.{invalid_run_transition}
use pufferlab.Persistence.Records.{DateTime, queued, running, EvalRun, same_status, same_status→eq}
use pufferlab.Persistence.Codec.{Codecs, IsFaithful, canonical_utc}
use pufferlab.Persistence.Rows.{Db, decode_run_row}
use pufferlab.Persistence.Rows.Agreement.{decode_run_row-Agrees}
use pufferlab.Persistence.Selects.{require_run}
use pufferlab.Persistence.Transition.{transition_row}
use pufferlab.Persistence.Transition.Lifecycle.{transition_row-Changed}
use pufferlab.Persistence.Runs.{get_run, claim_queued_run}
use pufferlab.Persistence.Runs.Invariant.{IsValid, require_run-RowIsValid, require_run-find}
use pufferlab.Jobs.Loop.{QueryWorkItem}
use pufferlab.Jobs.Conclusion.Released.{is_running}
use pufferlab.Persistence.Runs.Tables.{find-write_self}
use pufferlab.Jobs.Manager.{ActiveJob, Manager, lift, is_active, validate_start, start}
use pufferlab.Jobs.Manager.Active.{validate_start-ok, lift-ok}

some_of-snoc :
    (run_id : ℕ) (job : ActiveJob) (jobs : List ActiveJob)
    → job.run_id ≡ run_id
    → is_active run_id (jobs ++ job ∷ []) ≡ true
some_of-snoc run_id job [] e = ground arith
some_of-snoc run_id job (j ∷ jobs) e = ground (arith, some_of-snoc run_id job jobs e)

module _ {F P T : Type 0} (c : Codecs F P T) (faithful : IsFaithful c) where
  claim-is_running :
      (run_id : ℕ) (at : DateTime) (db db' : Db T) (run : EvalRun F)
      → IsValid c db
      → claim_queued_run c run_id at db ≡ ok (run, db')
      → (is_running db' run_id ≡ true) × (run.id ≡ run_id)
  unfolding claim_queued_run
  claim-is_running run_id at db db' run v h =
      let (_, _, h1) = >>=-eq-ok (canonical_utc at) _ h in
      let (row, found, h2) = >>=-eq-ok (require_run db run_id) _ h1 in
      let (current, decoded, h3) = >>=-eq-ok (decode_run_row c row) _ h2 in
      let (_, _, h4) =
        >>=-eq-ok (raise_if (not (same_status current.status queued)) invalid_run_transition) _
          h3 in
      let (changed, step, h5) = >>=-eq-ok (transition_row c row running at none none) _ h4 in
      let agrees = decode_run_row-Agrees c row current decoded in
      let ch =
        transition_row-Changed c faithful row current running at none none changed.0 changed.1
          agrees step in
      let (_, at_id) = require_run-RowIsValid c db run_id v found in
      let same = ok-injective h5 in
      let written =
        find-write_self run_id row changed.1 db.runs (require_run-find c db run_id found)
          (ch.same_id ∙ at_id) in
      (
        rw (← ap (λ p. p.1) same, written) (rw (← ch.agrees.status, ch.status) refl),
        sym (ap (λ (p : EvalRun F × Db T). p.0.id) same) ∙ ch.agrees.id ∙ ch.same_id ∙ at_id,
      )

  refused_again :
      (run_id max_concurrency : ℕ) (items : List QueryWorkItem) (at : DateTime) (m : Manager T)
      → is_active run_id m.active ≡ true
      → is_ok (start c run_id items max_concurrency at m) ≡ false
  unfolding start validate_start
  refused_again run_id max_concurrency items at m e = elim (Bool-cases (ltb max_concurrency 1)) [
    | inl low ↦ rw low refl
    | inr enough ↦ rw (enough, e) refl
  ]

  -- The run was idle and queued in `m`; in `m'` it is running, and a start of it is refused.
  abbrev pub IsClaimed : ℕ → Manager T → Manager T → Type 0
  IsClaimed run_id m m' =
      (is_active run_id m.active ≡ false)
      × ((run : EvalRun F) × (get_run c m.db run_id ≡ ok run) × (run.status ≡ queued))
      × (is_running m'.db run_id ≡ true)
      × (is_active run_id m'.active ≡ true)
      × ((again : ℕ) (others : List QueryWorkItem) (later : DateTime)
          → is_ok (start c run_id others again later m') ≡ false)

  -- A run that start accepts had no active job and was queued. Now it is running, its job is
  -- active, and a second start of it is refused. The run tables were valid, and a written value is
  -- read back.
  pub start-is_running :
      (run_id max_concurrency : ℕ) (items : List QueryWorkItem) (at : DateTime) (m m' : Manager T)
      → IsValid c m.db
      → start c run_id items max_concurrency at m ≡ ok m'
      → IsClaimed run_id m m'
  unfolding start
  start-is_running run_id max_concurrency items at m m' v h =
      let (run, ready, h1) =
        >>=-eq-ok (validate_start c run_id items max_concurrency queued m) _ h in
      let (claimed, l, h2) = >>=-eq-ok (lift (claim_queued_run c run_id at m.db)) _ h1 in
      let (_, idle, _, got, is_queued, _) =
        validate_start-ok c run_id max_concurrency items queued m run ready in
      let (now, same_id) =
        claim-is_running run_id at m.db claimed.1 claimed.0 v
          (lift-ok (claim_queued_run c run_id at m.db) claimed l) in
      let result = ok-injective h2 in
      let active : is_active run_id m'.active ≡ true =
        rw (← result) (some_of-snoc run_id _ _ same_id) in
      (
        idle,
        (run, got, same_status→eq run.status queued is_queued),
        rw (← result) now,
        active,
        λ again others later. refused_again run_id again others later m' active,
      )
