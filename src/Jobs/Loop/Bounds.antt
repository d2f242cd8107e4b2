-- ===== src/Jobs/Loop/Bounds.antt =====
-- The outer loop of a job: an invariant of its state holds wherever the loop stands, and no more
-- tasks than the concurrency limit are ever in flight.
use pufferlab.Prelude.{
  ℕ, ◌≤◌, ◌≡◌, refl, Bool, true, false, List, [], ◌∷◌, arith, length, length-append, drop,
  if◌then◌else◌,
}
use pufferlab.Prelude.Sort.{sort}
use pufferlab.Persistence.Codec.{Codecs}
use pufferlab.Persistence.Rows.{Db}
use pufferlab.Jobs.Loop.{
  QueryWorkItem, Meanwhile, Done, Wake, woke, killed, Job, LoopEnd, broke, threw, waiting,
  wait_error, begin, may_start, start_item, fill_from, fill, remove_at, pass, settle_done,
  settle_all, by_index, has_inflight, loop,
}

-- The state in which the loop stands or ended satisfies `Q`.
abbrev pub Holds : {T : Type 0} → (Job T → Type 0) → LoopEnd T → Type 0
Holds Q (broke job) = Q job
Holds Q (threw _ job) = Q job
Holds Q (waiting job) = Q job

module _ {T : Type 0} (Q : Job T → Type 0) (max_concurrency : ℕ) where
  module _
      (start : (item : QueryWorkItem) (job : Job T)
        → may_start max_concurrency job ≡ true
        → Q job
        → Q (start_item item job)) where
    fill_step :
        (b : Bool) (item : QueryWorkItem) (rest : List QueryWorkItem) (job : Job T)
        → may_start max_concurrency job ≡ b
        → Q job
        → (Q (start_item item job) → Q (fill_from max_concurrency rest (start_item item job)))
        → Q (elim b [ true ↦ fill_from max_concurrency rest (start_item item job) | false ↦ job ])
    fill_step true item rest job e q more = more (start item job e q)
    fill_step false item rest job e q more = q

    pub fill_from-induction :
        (rest : List QueryWorkItem) (job : Job T) → Q job → Q (fill_from max_concurrency rest job)
    unfolding fill_from
    fill_from-induction [] job q = q
    fill_from-induction (item ∷ rest) job q =
        fill_step (may_start max_concurrency job) item rest job refl q
          (fill_from-induction rest (start_item item job))

module _ {F P T : Type 0} (c : Codecs F P T) (Q : Job T → Type 0) (run_id max_concurrency : ℕ)
    (items : List QueryWorkItem)
    (fills : (job : Job T) → Q job → Q (fill max_concurrency items job))
    (passes : (m : Meanwhile F P) (job : Job T) → Q job → Q (pass c m job))
    (settles : (d : Done F P) (job : Job T) → Q job → Q (settle_done c run_id d job)) where
  settle_all-induction :
      (ds : List (Done F P)) (job : Job T) → Q job → Q (settle_all c run_id ds job)
  unfolding settle_all
  settle_all-induction [] job q = q
  settle_all-induction (d ∷ ds) job q =
      settle_all-induction ds (settle_done c run_id d job) (settles d job q)

  if-Holds : (b : Bool) (x y : LoopEnd T) → Holds Q x → Holds Q y → Holds Q (if b then x else y)
  if-Holds true x y hx hy = hx
  if-Holds false x y hx hy = hy

  pub loop-induction :
      (wakes : List (Wake F P)) (job : Job T)
      → Q job
      → Holds Q (loop c run_id max_concurrency items wakes job)
  unfolding loop
  loop-induction [] job q =
      let filled = fill max_concurrency items job in
      if-Holds (has_inflight filled) (waiting filled) (broke filled) (fills job q) (fills job q)
  loop-induction (woke m done ∷ wakes) job q =
      let filled = fill max_concurrency items job in
      let settled = settle_all c run_id (sort by_index done) (pass c m filled) in
      if-Holds (has_inflight filled) (loop c run_id max_concurrency items wakes settled)
        (broke filled)
        (loop-induction wakes settled (
          settle_all-induction (sort by_index done) (pass c m filled)
            (passes m filled (fills job q))))
        (fills job q)
  loop-induction (killed m e ∷ wakes) job q =
      let filled = fill max_concurrency items job in
      if-Holds (has_inflight filled) (threw (wait_error e) (pass c m filled)) (broke filled)
        (passes m filled (fills job q)) (fills job q)

-- At most `max_concurrency` tasks are in flight.
module _ {F P T : Type 0} (c : Codecs F P T) (run_id max_concurrency : ℕ)
    (items : List QueryWorkItem) where
  abbrev pub IsBounded : Job T → Type 0
  IsBounded job = length job.inflight ≤ max_concurrency

  start_item-IsBounded :
      (item : QueryWorkItem) (job : Job T)
      → may_start max_concurrency job ≡ true
      → IsBounded (start_item item job)
  start_item-IsBounded item job e =
      ground (arith, length-append job.inflight ((job.next_index, item) ∷ []))

  fill-IsBounded : (job : Job T) → IsBounded job → IsBounded (fill max_concurrency items job)
  unfolding fill
  fill-IsBounded job h =
      fill_from-induction IsBounded max_concurrency
        (λ item job' e b. start_item-IsBounded item job' e) (drop job.next_index items) job h

  remove_at-le :
      (i : ℕ) (inflight : List (ℕ × QueryWorkItem))
      → length (remove_at i inflight) ≤ length inflight
  remove_at-le i [] = omega arith
  remove_at-le i ((j, item) ∷ rest) = ground (arith, remove_at-le i rest)

  settle-IsBounded :
      (d : Done F P) (job : Job T) → IsBounded job → IsBounded (settle_done c run_id d job)
  unfolding settle_done
  settle-IsBounded d job h = ground (arith, remove_at-le d.index job.inflight)

  -- Wherever the loop of a job stands, after any wakes, at most max_concurrency tasks are in
  -- flight.
  pub loop-IsBounded :
      (wakes : List (Wake F P)) (db : Db T)
      → Holds IsBounded (loop c run_id max_concurrency items wakes (begin db))
  loop-IsBounded wakes db =
      loop-induction c IsBounded run_id max_concurrency items fill-IsBounded (λ m job h. h)
        settle-IsBounded wakes (begin db) (omega arith)
