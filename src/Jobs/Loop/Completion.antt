-- ===== src/Jobs/Loop/Completion.antt =====
-- How the loop of a job breaks: when nothing failed and nothing was cancelled, every work item has
-- a durable outcome.
use mathlib.Core.Path.{subst}
use mathlib.Core.Logic.{◌⊎◌, inl, inr}
use pufferlab.Prelude.{
  ℕ, zero, suc, ◌≤◌, ◌<◌, ◌≡◌, refl, Bool, true, false, none, some, List, [], ◌∷◌, arith, length,
  drop, get_elem?, if◌then◌else◌,
}
use pufferlab.Prelude.Sort.{sort}
use pufferlab.Persistence.Codec.{Codecs, IsFaithful}
use pufferlab.Persistence.Rows.{Db}
use pufferlab.Persistence.Runs.Durable.{IsStored}
use pufferlab.Jobs.Loop.{
  QueryWorkItem, Failure, Done, Wake, woke, killed, Job, LoopEnd, broke, threw, waiting, begin,
  may_start, start_item, fill_from, fill, pass, has_inflight, settle_done, settle_all, by_index,
  loop,
}
use pufferlab.Jobs.Loop.Accounting.{
  Accounted, start_item-Accounted, settle_done-Accounted, pass-Accounted, drop-cons, drop-nil,
}

has_inflight-[] : {T : Type 0} (job : Job T) → has_inflight job ≡ false → job.inflight ≡ []
has_inflight-[] job e = ground arith

may_start-true :
    {T : Type 0} (max_concurrency : ℕ) (job : Job T)
    → job.inflight ≡ []
    → job.first_failure ≡ none
    → job.cancellation_requested ≡ false
    → 1 ≤ max_concurrency
    → may_start max_concurrency job ≡ true
may_start-true max_concurrency job e f g h = rw (e, f, g) (ground arith)

get_elem?-lt : {A : Type 0} (i : ℕ) (l : List A) (x : A) → get_elem? l i ≡ some x → i < length l
get_elem?-lt i [] x h = ground arith
get_elem?-lt zero (y ∷ l) x h = omega arith
get_elem?-lt (suc i) (y ∷ l) x h = omega (arith, get_elem?-lt i l x h)

module _ {T : Type 0} (run_id max_concurrency : ℕ) (items : List QueryWorkItem) where
  -- The inner `while` ended by one of its conditions.
  abbrev IsFilled : Job T → Type 0
  IsFilled job = (may_start max_concurrency job ≡ false) ⊎ (length items ≤ job.next_index)

  fill_step :
      (b : Bool) (item : QueryWorkItem) (rest : List QueryWorkItem) (job : Job T)
      → may_start max_concurrency job ≡ b
      → Accounted run_id items job
      → (Accounted run_id items (fill_from max_concurrency rest (start_item item job))
          × IsFilled (fill_from max_concurrency rest (start_item item job)))
      → Accounted run_id items
          (elim b [ true ↦ fill_from max_concurrency rest (start_item item job) | false ↦ job ])
        × IsFilled
            (elim b [ true ↦ fill_from max_concurrency rest (start_item item job) | false ↦ job ])
  fill_step true item rest job e a more = more
  fill_step false item rest job e a more = (a, inl e)

  fill_from-IsFilled :
      (rest : List QueryWorkItem) (job : Job T)
      → drop job.next_index items ≡ rest
      → Accounted run_id items job
      → Accounted run_id items (fill_from max_concurrency rest job)
        × IsFilled (fill_from max_concurrency rest job)
  unfolding fill_from
  fill_from-IsFilled [] job e a = (a, inr (drop-nil job.next_index items e))
  fill_from-IsFilled (item ∷ rest) job e a =
      let (at, more, lt) = drop-cons job.next_index items rest item e in
      fill_step (may_start max_concurrency job) item rest job refl a (
        fill_from-IsFilled rest (start_item item job) more
          (start_item-Accounted run_id items item job at lt a))

  fill-IsFilled :
      (job : Job T)
      → Accounted run_id items job
      → Accounted run_id items (fill max_concurrency items job)
        × IsFilled (fill max_concurrency items job)
  unfolding fill
  fill-IsFilled job a = fill_from-IsFilled (drop job.next_index items) job refl a

  abbrev Ends : LoopEnd T → Type 0
  Ends (broke job) = Accounted run_id items job × IsFilled job × (has_inflight job ≡ false)
  Ends (threw _ job) = Unit
  Ends (waiting job) = Unit

  if-Ends :
      (b : Bool) (job : Job T) (x : LoopEnd T)
      → has_inflight job ≡ b
      → Accounted run_id items job × IsFilled job
      → Ends x
      → Ends (if b then x else broke job)
  if-Ends true job x e h more = more
  if-Ends false job x e h more = (h.0, h.1, e)

  module _ {F P : Type 0} (c : Codecs F P T) (faithful : IsFaithful c) where
    settle_all-Accounted :
        (ds : List (Done F P)) (job : Job T)
        → Accounted run_id items job
        → Accounted run_id items (settle_all c run_id ds job)
    unfolding settle_all
    settle_all-Accounted [] job a = a
    settle_all-Accounted (d ∷ ds) job a =
        settle_all-Accounted ds (settle_done c run_id d job)
          (settle_done-Accounted run_id items c faithful d job a)

    loop-Ends :
        (wakes : List (Wake F P)) (job : Job T)
        → Accounted run_id items job
        → Ends (loop c run_id max_concurrency items wakes job)
    unfolding loop
    loop-Ends [] job a =
        let filled = fill max_concurrency items job in
        if-Ends (has_inflight filled) filled (waiting filled) refl (fill-IsFilled job a) tt
    loop-Ends (woke m done ∷ wakes) job a =
        let filled = fill max_concurrency items job in
        let settled = settle_all c run_id (sort by_index done) (pass c m filled) in
        if-Ends (has_inflight filled) filled (loop c run_id max_concurrency items wakes settled)
          refl (fill-IsFilled job a)
          (loop-Ends wakes settled (
            settle_all-Accounted (sort by_index done) (pass c m filled)
              (pass-Accounted run_id items c faithful m filled (fill-IsFilled job a).0)))
    loop-Ends (killed m e ∷ wakes) job a =
        let filled = fill max_concurrency items job in
        if-Ends (has_inflight filled) filled (threw (Failure.wait_error e) (pass c m filled)) refl
          (fill-IsFilled job a) tt

    all_stored :
        (job : Job T)
        → 1 ≤ max_concurrency
        → Ends (broke job)
        → job.first_failure ≡ none
        → job.cancellation_requested ≡ false
        → (i : ℕ) (item : QueryWorkItem) → get_elem? items i ≡ some item
        → IsStored job.db run_id item.config_id item.query_id
    all_stored job one (a, filled, idle) no_failure going i item at =
        let empty : job.inflight ≡ [] = has_inflight-[] job idle in
        let behind : length items ≤ job.next_index = elim filled [
          | inl stopped ↦
              ground (arith, may_start-true max_concurrency job empty no_failure going one)
          | inr behind ↦ behind
        ] in
        elim (a.started i item (omega (arith, get_elem?-lt i items item at, behind)) at) [
          | inl e ↦ ground arith
          | inr (inl e) ↦ ground arith
          | inr (inr e) ↦ e
        ]

    -- When the loop of a job breaks, no task failed and cancellation was not requested, the
    -- outcome of every work item is durable, whatever other calls ran meanwhile. At least one task
    -- may run at a time.
    pub loop-stores_all :
        (wakes : List (Wake F P)) (db : Db T) (job : Job T)
        → 1 ≤ max_concurrency
        → loop c run_id max_concurrency items wakes (begin db) ≡ broke job
        → job.first_failure ≡ none
        → job.cancellation_requested ≡ false
        → (i : ℕ) (item : QueryWorkItem) → get_elem? items i ≡ some item
        → IsStored job.db run_id item.config_id item.query_id
    loop-stores_all wakes db job one e = all_stored job one (
        subst Ends e (
          loop-Ends wakes (begin db)
            (record { within = omega arith; tasks = tt; started = λ i item lt. ground arith })))
