-- ===== src/Persistence.antt =====
-- persistence/*.py: durable records, their canonical encoding, and the run repository.
pub mod Errors
pub mod Records
pub mod Codec
pub mod Rows
pub mod Selects
pub mod Transition
pub mod Runs
pub mod Reads
