-- ===== src/Jobs/Conclusion/Valid.antt =====
-- The run tables stay valid while a job runs.
use pufferlab.Prelude.{ℕ, List}
use pufferlab.Persistence.Codec.{Codecs, IsFaithful}
use pufferlab.Persistence.Rows.{Db}
use pufferlab.Persistence.Runs.Invariant.{IsValid}
use pufferlab.Persistence.Runs.History.{perform-IsValid}
use pufferlab.Jobs.Loop.{QueryWorkItem, Wake, Job, begin, loop}
use pufferlab.Jobs.Loop.Bounds.{Holds}
use pufferlab.Jobs.Conclusion.Kept.{loop-keeps}

module _ {F P T : Type 0} (c : Codecs F P T) (faithful : IsFaithful c) (run_id max_concurrency : ℕ)
    (items : List QueryWorkItem) where
  pub loop-IsValid :
      (wakes : List (Wake F P)) (db : Db T)
      → IsValid c db
      → Holds
          (λ (job : Job T). IsValid c job.db)
          (loop c run_id max_concurrency items wakes (begin db))
  loop-IsValid wakes db v =
      loop-keeps c (IsValid c) (perform-IsValid c faithful) run_id max_concurrency items wakes db v
