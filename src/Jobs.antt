-- ===== src/Jobs.antt =====
-- jobs/*.py: the scheduler of claimed runs, and the summaries of their durable outcomes.
pub mod Loop
pub mod Runner
pub mod Conclusion
pub mod Manager
