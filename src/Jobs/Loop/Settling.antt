-- ===== src/Jobs/Loop/Settling.antt =====
-- A done task of `_run_claimed` is settled: its outcome is durable, or the job fails.
use mathlib.Core.Path.{subst}
use mathlib.Core.Logic.{◌⊎◌, inl, inr}
use pufferlab.Prelude.{
  ℕ, ◌≡◌, refl, sym, true, ◌&&◌, Option, none, some, arith, is_some, ◌==◌, Bool-cases,
}
use pufferlab.Prelude.Result.{ok, err}
use pufferlab.Persistence.Errors.{Checked}
use pufferlab.Persistence.Records.{QueryOutcome, EvalRun}
use pufferlab.Persistence.Codec.{Codecs, IsFaithful}
use pufferlab.Persistence.Rows.{Db}
use pufferlab.Persistence.Runs.{record_outcome}
use pufferlab.Persistence.Runs.Durable.{
  IsStored, record_outcome-IsStored, record_outcome-stores, history-IsStored,
}
use pufferlab.Jobs.Loop.{
  QueryWorkItem, Failure, TaskResult, returned, raised, Done, Job, remove_at, item_at, pass, fail,
  fail?, persistence, another_run, identity_mismatch, stored_outcome, settle_result, settle_done,
}

fail?-same :
    {T : Type 0} (e : Option Failure) (job : Job T)
    → ((fail? e job).inflight ≡ job.inflight)
      × ((fail? e job).next_index ≡ job.next_index)
      × ((fail? e job).db ≡ job.db)
      × (is_some job.first_failure ≡ true → is_some (fail? e job).first_failure ≡ true)
fail?-same none job = (refl, refl, refl, λ h. h)
fail?-same (some e) job = (refl, refl, refl, λ h. ground arith)

-- What settling the item `item` of a done task does to a job.
pub record Settled {T : Type 0} (run_id : ℕ) (item : QueryWorkItem) (job job' : Job T)
    : Type 0 where
  pub inflight : job'.inflight ≡ job.inflight
  pub next_index : job'.next_index ≡ job.next_index
  pub failure : is_some job.first_failure ≡ true → is_some job'.first_failure ≡ true
  pub stored :
      (config query : ℕ)
      → IsStored job.db run_id config query
      → IsStored job'.db run_id config query
  pub done :
      (is_some job'.first_failure ≡ true) ⊎ IsStored job'.db run_id item.config_id item.query_id

module _ {F P T : Type 0} (c : Codecs F P T) (faithful : IsFaithful c) (run_id : ℕ) where
  fail-Settled :
      (item : QueryWorkItem) (e : Failure) (job : Job T) → Settled run_id item job (fail e job)
  fail-Settled item e job = record {
    inflight = refl;
    next_index = refl;
    failure = λ h. ground arith;
    stored = λ config query h. h;
    done = inl (ground arith);
  }

  stored_outcome-Settled :
      (d : Done F P) (item : QueryWorkItem) (outcome : QueryOutcome P) (job : Job T)
      (result : Checked (EvalRun F × Db T))
      → outcome.run_id ≡ run_id
      → outcome.config_id ≡ item.config_id
      → outcome.query_id ≡ item.query_id
      → record_outcome c outcome job.db ≡ result
      → Settled run_id item job (stored_outcome c d job result)
  stored_outcome-Settled d item outcome job (err e) er ec eq h =
      fail-Settled item (persistence e) job
  stored_outcome-Settled d item outcome job (ok (updated, db')) er ec eq h =
      let passed = pass c d.meanwhile (record job { db = db' }) in
      let same = fail?-same d.progress passed in
      let kept = λ (config query : ℕ) (s : IsStored db' run_id config query).
        subst (λ db. IsStored db run_id config query) (sym same.2)
          (history-IsStored c faithful run_id config query d.meanwhile.calls db' s) in
      let new : IsStored db' run_id item.config_id item.query_id =
        rw (← er, ← ec, ← eq) (record_outcome-stores c faithful outcome job.db db' updated h) in
      record {
        inflight = same.0;
        next_index = same.1;
        failure = same.3;
        stored = λ config query s.
            kept config query (
              record_outcome-IsStored c faithful run_id config query outcome job.db db' updated s
                h);
        done = inr (kept item.config_id item.query_id new);
      }

  settle_result-Settled :
      (d : Done F P) (item : QueryWorkItem) (result : TaskResult P) (job : Job T)
      → Settled run_id item job (settle_result c run_id d item result job)
  settle_result-Settled d item (raised e) job = fail-Settled item e job
  settle_result-Settled d item (returned outcome) job =
      elim (Bool-cases (outcome.run_id == run_id)) [
        | inr e ↦ rw e (fail-Settled item another_run job)
        | inl er ↦
            elim (Bool-cases
              (outcome.config_id == item.config_id && outcome.query_id == item.query_id)) [
                | inr e ↦ rw (er, e) (fail-Settled item identity_mismatch job)
                | inl e ↦
                    rw (er, e)
                      (stored_outcome-Settled d item outcome job (record_outcome c outcome job.db)
                        (ground arith) (ground arith) (ground arith) refl)
              ]
      ]

  pub settle_done-Settled :
      (d : Done F P) (item : QueryWorkItem) (job : Job T)
      → item_at d.index job.inflight ≡ some item
      → Settled run_id item
          (record job { inflight = remove_at d.index job.inflight })
          (settle_done c run_id d job)
  unfolding settle_done
  settle_done-Settled d item job e = rw e (
      settle_result-Settled d item d.outcome
        (record job { inflight = remove_at d.index job.inflight }))
