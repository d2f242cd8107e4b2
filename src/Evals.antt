-- ===== src/Evals.antt =====
-- evals/*.py: the metrics of a ranking, their aggregates, paired deltas and the evaluation gate.
pub mod Float
pub mod Models
pub mod Metrics
pub mod Aggregation
pub mod Pairing
pub mod Report
pub mod Gates
