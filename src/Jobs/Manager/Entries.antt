-- ===== src/Jobs/Manager/Entries.antt =====
-- The entry of a run in `_active`: what each change of the table makes of it.
use pufferlab.Prelude.{
  ℕ, ◌≡◌, refl, sym, ap, true, false, not, ◌||◌, Option, none, some, ◌∙◌, if◌then◌else◌, ==_iff,
  Bool, List, [], ◌∷◌, ◌++◌, arith, ◌==◌, map, keep, Bool-cases, inl, inr,
}
use pufferlab.Prelude.Result.{some-injective}
use pufferlab.Jobs.Loop.{QueryWorkItem}
use pufferlab.Jobs.Manager.{
  ActiveJob, Manager, is_active, request_cancellation, schedule_claimed, set_cancellation,
}

-- The entry of a run in `_active`.
abbrev pub job_of : ℕ → List ActiveJob → Option ActiveJob
job_of run_id [] = none
job_of run_id (job ∷ jobs) =
    let rest = job_of run_id jobs in if job.run_id == run_id then some job else rest

-- The job, where its cancellation is requested too if `b` says so.
abbrev pub asked : Bool → ActiveJob → ActiveJob
asked b job = record job { cancellation_requested = job.cancellation_requested || b }

or-false : (a : Bool) → (a || false) ≡ a
or-false true = refl
or-false false = refl

or-true : (a : Bool) → (a || true) ≡ true
or-true true = refl
or-true false = refl

or_assoc : (a b d : Bool) → ((a || b) || d) ≡ (a || (b || d))
or_assoc true b d = refl
or_assoc false b d = refl

asked-false : (job : ActiveJob) → asked false job ≡ job
asked-false job =
    ap (λ b. record job { cancellation_requested = b }) (or-false job.cancellation_requested)

asked-true : (job : ActiveJob) → asked true job ≡ request_cancellation job
asked-true job =
    ap (λ b. record job { cancellation_requested = b }) (or-true job.cancellation_requested)

pub asked-asked : (a b : Bool) (job : ActiveJob) → asked b (asked a job) ≡ asked (a || b) job
asked-asked a b job =
    ap (λ r. record job { cancellation_requested = r }) (or_assoc job.cancellation_requested a b)

module _ (run_id : ℕ) (job : ActiveJob) where
  pub unchanged :
      (jobs : List ActiveJob)
      → job_of run_id jobs ≡ some job
      → job_of run_id jobs ≡ some (asked false job)
  unchanged jobs h = h ∙ ap some (sym (asked-false job))

  job_of-snoc :
      (new : ActiveJob) (jobs : List ActiveJob)
      → job_of run_id jobs ≡ some job
      → job_of run_id (jobs ++ new ∷ []) ≡ some job
  job_of-snoc new [] h = cc
  job_of-snoc new (j ∷ jobs) h = ground (arith, job_of-snoc new jobs)

  pub job_of-others :
      (other : ℕ) (jobs : List ActiveJob)
      → (other == run_id) ≡ false
      → job_of run_id (keep (λ (j : ActiveJob). not (j.run_id == other)) jobs) ≡ job_of run_id jobs
  job_of-others other [] h = refl
  job_of-others other (j ∷ jobs) h = ground (arith, job_of-others other jobs h)

  job_of-is_active :
      (jobs : List ActiveJob) → job_of run_id jobs ≡ some job → is_active run_id jobs ≡ true
  job_of-is_active [] h = cc
  job_of-is_active (j ∷ jobs) h = ground (arith, job_of-is_active jobs)

  cons-job :
      (b : Bool) (j j' : ActiveJob) (jobs jobs' : List ActiveJob)
      → j'.run_id ≡ j.run_id
      → ((j.run_id == run_id) ≡ true → j' ≡ asked b j)
      → (job_of run_id jobs ≡ some job → job_of run_id jobs' ≡ some (asked b job))
      → job_of run_id (j ∷ jobs) ≡ some job
      → job_of run_id (j' ∷ jobs') ≡ some (asked b job)
  cons-job b j j' jobs jobs' key same rest h = elim (Bool-cases (j.run_id == run_id)) [
    | inl e ↦
        let own : (j'.run_id == run_id) ≡ true = ap (λ k. k == run_id) key ∙ e in
        rw own (ap some (same e ∙ ap (asked b) (some-injective (first e h))))
    | inr e ↦
        let apart : (j'.run_id == run_id) ≡ false = ap (λ k. k == run_id) key ∙ e in
        rw apart (rest (not_first e h))
  ]
    where
      first : (j.run_id == run_id) ≡ true → job_of run_id (j ∷ jobs) ≡ some job → some j ≡ some job
      first e h = ground arith

      not_first :
          (j.run_id == run_id) ≡ false
          → job_of run_id (j ∷ jobs) ≡ some job
          → job_of run_id jobs ≡ some job
      not_first e h = ground arith

  pub job_of-set_cancellation :
      (other : ℕ) (jobs : List ActiveJob)
      → job_of run_id jobs ≡ some job
      → job_of run_id (set_cancellation other jobs) ≡ some (asked (other == run_id) job)
  job_of-set_cancellation other [] h = cc
  job_of-set_cancellation other (j ∷ jobs) h = elim (Bool-cases (j.run_id == other)) [
    | inl e ↦
        let own : (j.run_id == run_id) ≡ true → request_cancellation j ≡ asked (other == run_id) j =
          λ f.
            let o : (other == run_id) ≡ true = ground arith in
            sym (asked-true j) ∙ ap (λ b. asked b j) (sym o) in
        rw e (
          cons-job (other == run_id) j (request_cancellation j) jobs _ refl own
            (job_of-set_cancellation other jobs) h)
    | inr e ↦
        let own : (j.run_id == run_id) ≡ true → j ≡ asked (other == run_id) j = λ f.
          let o : (other == run_id) ≡ false = ground arith in
          sym (asked-false j) ∙ ap (λ b. asked b j) (sym o) in
        rw e (cons-job (other == run_id) j j jobs _ refl own (job_of-set_cancellation other jobs) h)
  ]

  pub job_of-close :
      (jobs : List ActiveJob)
      → job_of run_id jobs ≡ some job
      → job_of run_id (map request_cancellation jobs) ≡ some (asked true job)
  job_of-close [] h = cc
  job_of-close (j ∷ jobs) h =
      cons-job true j (request_cancellation j) jobs _ refl (λ _. sym (asked-true j))
        (job_of-close jobs) h

  pub other_key :
      (other : ℕ) (jobs : List ActiveJob)
      → is_active other jobs ≡ false
      → job_of run_id jobs ≡ some job
      → (other == run_id) ≡ false
  other_key other jobs idle h = elim (Bool-cases (other == run_id)) [
    | inl e ↦
        let same = ap (λ k. is_active k jobs) ((==_iff other run_id).0 e) in
        absurd (cc (idle, same, job_of-is_active jobs h))
    | inr e ↦ e
  ]

  module _ {T : Type 0} where
    -- The key of a new job is another one.
    pub job_of-schedule_claimed :
        (other max_concurrency : ℕ) (items : List QueryWorkItem) (m : Manager T)
        → is_active other m.active ≡ false
        → job_of run_id m.active ≡ some job
        → job_of run_id (schedule_claimed other items max_concurrency m).active
          ≡ some (asked false job)
    job_of-schedule_claimed other max_concurrency items m idle h =
        let apart = other_key other m.active idle h in
        unchanged _ (job_of-snoc _ _ (job_of-others other m.active apart ∙ h))
