-- ===== src/Jobs/Loop/Progress.antt =====
-- The loop of a job ends: each wake that finishes a task of the job leaves it less work.
use mathlib.Core.Path.{subst}
use mathlib.Core.Logic.{◌⊎◌, inl, inr}
use pufferlab.Prelude.{
  ℕ, ◌+◌, ◌-◌, ◌≤◌, ◌<◌, ◌≡◌, refl, sym, ◌∙◌, Bool, true, false, none, some, List, [], ◌∷◌, arith,
  length, length-append, drop, is_some, some_of, if◌then◌else◌, Option-cases,
}
use pufferlab.Prelude.Sort.{sort, some_of-sort}
use pufferlab.Persistence.Codec.{Codecs}
use pufferlab.Persistence.Rows.{Db}
use pufferlab.Jobs.Loop.{
  QueryWorkItem, Failure, Meanwhile, Done, Wake, woke, killed, Job, LoopEnd, broke, threw, waiting,
  begin, may_start, start_item, fill_from, fill, item_at, remove_at, pass, has_inflight,
  settle_done, settle_all, by_index, loop,
}
use pufferlab.Jobs.Loop.Accounting.{drop-cons}

-- The items that are not started and the tasks that are not done.
abbrev pub work : {T : Type 0} → List QueryWorkItem → Job T → ℕ
work items job = (length items - job.next_index) + length job.inflight

-- Some of these tasks is a task of the job.
abbrev pub is_live : {F P T : Type 0} → List (Done F P) → Job T → Bool
is_live ds job = some_of (λ d. is_some (item_at d.index job.inflight)) ds

abbrev pub is_over : {T : Type 0} → LoopEnd T → Bool
is_over (broke _) = true
is_over (threw _ _) = true
is_over (waiting _) = false

length-remove_at :
    (i : ℕ) (item : QueryWorkItem) (l : List (ℕ × QueryWorkItem))
    → item_at i l ≡ some item
    → length (remove_at i l) + 1 ≡ length l
length-remove_at i item [] h = ground arith
length-remove_at i item ((k, x) ∷ l) h = ground (arith, length-remove_at i item l)

module _ {T : Type 0} (max_concurrency : ℕ) (items : List QueryWorkItem) where
  work-fill_step :
      (b : Bool) (item : QueryWorkItem) (rest : List QueryWorkItem) (job : Job T)
      → work items (fill_from max_concurrency rest (start_item item job)) ≡ work items job
      → work items
          (elim b [ true ↦ fill_from max_concurrency rest (start_item item job) | false ↦ job ])
        ≡ work items job
  work-fill_step true item rest job more = more
  work-fill_step false item rest job more = refl

  work-fill_from :
      (rest : List QueryWorkItem) (job : Job T)
      → drop job.next_index items ≡ rest
      → work items (fill_from max_concurrency rest job) ≡ work items job
  unfolding fill_from
  work-fill_from [] job e = refl
  work-fill_from (item ∷ rest) job e =
      let (at, more, lt) = drop-cons job.next_index items rest item e in
      let started : work items (start_item item job) ≡ work items job =
        omega (arith, lt, length-append job.inflight ((job.next_index, item) ∷ [])) in
      work-fill_step (may_start max_concurrency job) item rest job
        (work-fill_from rest (start_item item job) more ∙ started)

  work-fill : (job : Job T) → work items (fill max_concurrency items job) ≡ work items job
  unfolding fill
  work-fill job = work-fill_from (drop job.next_index items) job refl

  module _ {F P : Type 0} (c : Codecs F P T) (run_id : ℕ) where
    work-settle_done-none :
        (d : Done F P) (job : Job T)
        → item_at d.index job.inflight ≡ none
        → settle_done c run_id d job ≡ job
    unfolding settle_done
    work-settle_done-none d job e = rw e refl

    work-settle_done-some :
        (d : Done F P) (item : QueryWorkItem) (job : Job T)
        → item_at d.index job.inflight ≡ some item
        → work items (settle_done c run_id d job) + 1 ≡ work items job
    unfolding settle_done
    work-settle_done-some d item job e =
        ground (arith, e, length-remove_at d.index item job.inflight e)

    work-settle_done :
        (d : Done F P) (job : Job T) → work items (settle_done c run_id d job) ≤ work items job
    work-settle_done d job = elim (Option-cases (item_at d.index job.inflight)) [
      | inl e ↦ rw (work-settle_done-none d job e) (omega arith)
      | inr (item, e) ↦ omega (arith, work-settle_done-some d item job e)
    ]

    work-settle_all :
        (ds : List (Done F P)) (job : Job T)
        → work items (settle_all c run_id ds job) ≤ work items job
    unfolding settle_all
    work-settle_all [] job = omega arith
    work-settle_all (d ∷ ds) job =
        omega (arith, work-settle_done d job, work-settle_all ds (settle_done c run_id d job))

    work-settle_all-live :
        (ds : List (Done F P)) (job : Job T)
        → is_live ds job ≡ true
        → work items (settle_all c run_id ds job) < work items job
    unfolding settle_all
    work-settle_all-live [] job h = ground arith
    work-settle_all-live (d ∷ ds) job h = elim (Option-cases (item_at d.index job.inflight)) [
      | inl e ↦
          subst (λ j. work items (settle_all c run_id ds j) < work items job)
            (sym (work-settle_done-none d job e)) (work-settle_all-live ds job (ground arith))
      | inr (item, e) ↦ omega (
        arith,
        work-settle_done-some d item job e,
        work-settle_all ds (settle_done c run_id d job),
      )
    ]

    -- Each wake finds a task of the job done, as `asyncio.wait` with FIRST_COMPLETED does.
    abbrev pub IsLive : List (Wake F P) → Job T → Type 0
    IsLive [] job = Unit
    IsLive (killed m e ∷ wakes) job = Unit
    IsLive (woke m done ∷ wakes) job =
        let filled = fill max_concurrency items job in
        ((has_inflight filled ≡ false) ⊎ (is_live done filled ≡ true))
        × IsLive wakes (settle_all c run_id (sort by_index done) (pass c m filled))

    less :
        (filled : Job T) (m : Meanwhile F P) (done : List (Done F P))
        → has_inflight filled ≡ true
        → (has_inflight filled ≡ false) ⊎ (is_live done filled ≡ true)
        → work items (settle_all c run_id (sort by_index done) (pass c m filled))
          < work items filled
    less filled m done e (inl idle) = ground (arith, e, idle)
    less filled m done e (inr live) =
        work-settle_all-live (sort by_index done) (pass c m filled)
          (some_of-sort by_index (λ d. is_some (item_at d.index filled.inflight)) done ∙ live)

    over-if :
        (b : Bool) (job : Job T) (x : LoopEnd T)
        → (b ≡ true → is_over x ≡ true)
        → is_over (if b then x else broke job) ≡ true
    over-if true job x h = h refl
    over-if false job x h = refl

    has_inflight-work : (job : Job T) → has_inflight job ≡ true → 1 ≤ work items job
    has_inflight-work job e = ground arith

    loop-over :
        (wakes : List (Wake F P)) (job : Job T)
        → IsLive wakes job
        → work items job ≤ length wakes
        → is_over (loop c run_id max_concurrency items wakes job) ≡ true
    unfolding loop
    loop-over [] job live h =
        let filled = fill max_concurrency items job in
        over-if (has_inflight filled) filled (waiting filled)
          (λ e. ground (arith, work-fill job, has_inflight-work filled e))
    loop-over (killed m e ∷ wakes) job live h =
        let filled = fill max_concurrency items job in
        over-if (has_inflight filled) filled (threw (Failure.wait_error e) (pass c m filled))
          (λ _. refl)
    loop-over (woke m done ∷ wakes) job live h =
        let filled = fill max_concurrency items job in
        let settled = settle_all c run_id (sort by_index done) (pass c m filled) in
        over-if (has_inflight filled) filled (loop c run_id max_concurrency items wakes settled)
          (λ e.
            loop-over wakes settled live.1
              (omega (arith, h, work-fill job, less filled m done e live.0)))

    -- When every wake finds a task of the job done, as many wakes as work items are enough for the
    -- loop to end.
    pub loop-is_over :
        (wakes : List (Wake F P)) (db : Db T)
        → IsLive wakes (begin db)
        → length items ≤ length wakes
        → is_over (loop c run_id max_concurrency items wakes (begin db)) ≡ true
    loop-is_over wakes db live h = loop-over wakes (begin db) live (omega arith)
