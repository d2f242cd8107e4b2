-- ===== src/Jobs/Loop/Accounting.antt =====
-- No work item of a job is lost: a started item is in flight, or its outcome is durable, or the job
-- has failed.
use mathlib.Core.Path.{subst}
use mathlib.Core.Logic.{◌⊎◌, inl, inr}
use pufferlab.Prelude.{
  ℕ, zero, suc, ◌+◌, ◌≤◌, ◌<◌, ◌≡◌, ◌≢◌, true, some, List, [], ◌∷◌, ◌++◌, arith, length, drop,
  get_elem?, is_some, ◌==◌, All, All-append, All-map, Bool-cases, Option-cases,
}
use pufferlab.Persistence.Codec.{Codecs, IsFaithful}
use pufferlab.Persistence.Runs.Durable.{IsStored, history-IsStored}
use pufferlab.Jobs.Loop.{
  QueryWorkItem, Meanwhile, Done, Job, start_item, remove_at, item_at, pass, settle_done,
}
use pufferlab.Jobs.Loop.Settling.{Settled, settle_done-Settled}

item_at-append_ne :
    (i j : ℕ) (item : QueryWorkItem) (l : List (ℕ × QueryWorkItem))
    → j ≢ i
    → item_at i (l ++ (j, item) ∷ []) ≡ item_at i l
item_at-append_ne i j item [] h = ground arith
item_at-append_ne i j item ((k, x) ∷ l) h = ground (arith, item_at-append_ne i j item l h)

item_at-append_self :
    (i : ℕ) (item : QueryWorkItem) (l : List (ℕ × QueryWorkItem))
    → All (λ p. p.0 < i) l
    → item_at i (l ++ (i, item) ∷ []) ≡ some item
item_at-append_self i item [] h = ground arith
item_at-append_self i item ((k, x) ∷ l) h = ground (arith, item_at-append_self i item l h.1)

item_at-remove_ne :
    (i j : ℕ) (l : List (ℕ × QueryWorkItem)) → i ≢ j → item_at i (remove_at j l) ≡ item_at i l
item_at-remove_ne i j [] h = ground arith
item_at-remove_ne i j ((k, x) ∷ l) h = ground (arith, item_at-remove_ne i j l h)

All-remove_at :
    (P : ℕ × QueryWorkItem → Type 0) (j : ℕ) (l : List (ℕ × QueryWorkItem))
    → All P l
    → All P (remove_at j l)
All-remove_at P j [] h = tt
All-remove_at P j ((k, x) ∷ l) h = elim (Bool-cases (k == j)) [
  | inl e ↦ rw e h.1
  | inr e ↦ rw e (h.0, All-remove_at P j l h.1)
]

pub drop-cons :
    {A : Type 0} (n : ℕ) (l rest : List A) (x : A)
    → drop n l ≡ x ∷ rest
    → (get_elem? l n ≡ some x) × (drop (n + 1) l ≡ rest) × (n < length l)
drop-cons zero (y ∷ l) rest x h = ground arith
drop-cons (suc n) (y ∷ l) rest x h = ground (arith, drop-cons n l rest x h)
drop-cons zero [] rest x h = ground arith
drop-cons (suc n) [] rest x h = ground arith

pub drop-nil : {A : Type 0} (n : ℕ) (l : List A) → drop n l ≡ [] → length l ≤ n
drop-nil zero [] h = omega arith
drop-nil zero (y ∷ l) h = ground arith
drop-nil (suc n) [] h = omega arith
drop-nil (suc n) (y ∷ l) h = ground (arith, drop-nil n l h)

-- Where a job stands with the items that it has started.
pub record Accounted {T : Type 0} (run_id : ℕ) (items : List QueryWorkItem) (job : Job T)
    : Type 0 where
  pub within : job.next_index ≤ length items
  pub tasks : All (λ p. (p.0 < job.next_index) × (get_elem? items p.0 ≡ some p.1)) job.inflight
  pub started :
      (i : ℕ) (item : QueryWorkItem)
      → i < job.next_index
      → get_elem? items i ≡ some item
      → (item_at i job.inflight ≡ some item)
        ⊎ (is_some job.first_failure ≡ true)
        ⊎ IsStored job.db run_id item.config_id item.query_id

module _ {T : Type 0} (run_id : ℕ) (items : List QueryWorkItem) where
  start_item-started :
      (item found : QueryWorkItem) (job : Job T) (i : ℕ)
      → get_elem? items job.next_index ≡ some item
      → Accounted run_id items job
      → i < job.next_index + 1
      → get_elem? items i ≡ some found
      → (item_at i (start_item item job).inflight ≡ some found)
        ⊎ (is_some job.first_failure ≡ true)
        ⊎ IsStored job.db run_id found.config_id found.query_id
  start_item-started item found job i e a lt at = elim (Bool-cases (i == job.next_index)) [
    | inl same ↦
        let below : All (λ p. p.0 < job.next_index) job.inflight =
          All-map (λ (p : ℕ × QueryWorkItem) h. h.0) job.inflight a.tasks in
        inl (ground (arith, item_at-append_self job.next_index item job.inflight below))
    | inr other ↦
        rw (item_at-append_ne i job.next_index item job.inflight (ground arith))
          (a.started i found (ground arith) at)
  ]

  pub start_item-Accounted :
      (item : QueryWorkItem) (job : Job T)
      → get_elem? items job.next_index ≡ some item
      → job.next_index < length items
      → Accounted run_id items job
      → Accounted run_id items (start_item item job)
  start_item-Accounted item job e lt a = record {
    within = omega arith;
    tasks =
        All-append _ job.inflight ((job.next_index, item) ∷ [])
          (All-map (λ (p : ℕ × QueryWorkItem) h. (omega (arith, h.0), h.1)) job.inflight a.tasks)
          ((omega arith, e), tt);
    started = λ i found lt' at. start_item-started item found job i e a lt' at;
  }

  Settled-started :
      (item found : QueryWorkItem) (index i : ℕ) (job job' : Job T)
      → item_at index job.inflight ≡ some item
      → Settled run_id item (record job { inflight = remove_at index job.inflight }) job'
      → (item_at i job.inflight ≡ some found)
        ⊎ (is_some job.first_failure ≡ true)
        ⊎ IsStored job.db run_id found.config_id found.query_id
      → (item_at i job'.inflight ≡ some found)
        ⊎ (is_some job'.first_failure ≡ true)
        ⊎ IsStored job'.db run_id found.config_id found.query_id
  Settled-started item found index i job job' e s (inr (inl h)) = inr (inl (s.failure h))
  Settled-started item found index i job job' e s (inr (inr h)) =
      inr (inr (s.stored found.config_id found.query_id h))
  Settled-started item found index i job job' e s (inl h) = elim (Bool-cases (i == index)) [
    | inl same ↦
        let eq : item ≡ found = ground arith in
        subst
          (λ x.
            (item_at i job'.inflight ≡ some x)
            ⊎ (is_some job'.first_failure ≡ true)
            ⊎ IsStored job'.db run_id x.config_id x.query_id)
          eq (inr s.done)
    | inr other ↦ inl (rw (s.inflight, item_at-remove_ne i index job.inflight (ground arith)) h)
  ]

  Settled-Accounted :
      (item : QueryWorkItem) (index : ℕ) (job job' : Job T)
      → item_at index job.inflight ≡ some item
      → Settled run_id item (record job { inflight = remove_at index job.inflight }) job'
      → Accounted run_id items job
      → Accounted run_id items job'
  Settled-Accounted item index job job' e s a = record {
    within = rw s.next_index a.within;
    tasks = rw (s.inflight, s.next_index) (All-remove_at _ index job.inflight a.tasks);
    started = λ i found lt at.
        Settled-started item found index i job job' e s
          (a.started i found (rw⁻¹ s.next_index lt) at);
  }

  pub settle_done-Accounted :
      {F P : Type 0} (c : Codecs F P T) (faithful : IsFaithful c) (d : Done F P) (job : Job T)
      → Accounted run_id items job
      → Accounted run_id items (settle_done c run_id d job)
  unfolding settle_done
  settle_done-Accounted c faithful d job a = elim (Option-cases (item_at d.index job.inflight)) [
    | inl none_at ↦ rw none_at a
    | inr (item, e) ↦
        Settled-Accounted item d.index job (settle_done c run_id d job) e
          (settle_done-Settled c faithful run_id d item job e) a
  ]

  pub pass-Accounted :
      {F P : Type 0} (c : Codecs F P T) (faithful : IsFaithful c) (m : Meanwhile F P) (job : Job T)
      → Accounted run_id items job
      → Accounted run_id items (pass c m job)
  pass-Accounted c faithful m job a = record {
    within = a.within;
    tasks = a.tasks;
    started = λ i item lt at. elim (a.started i item lt at) [
      | inl e ↦ inl e
      | inr (inl e) ↦ inr (inl e)
      | inr (inr e) ↦
          inr
            (inr (history-IsStored c faithful run_id item.config_id item.query_id m.calls job.db e))
    ];
  }
