-- ===== src/Datasets.antt =====
-- backend/pufferlab/datasets: the models of a dataset pack, its namespace schema, its ingestion in
-- batches, and the checkpoints from which an ingestion resumes.
pub mod Models
pub mod Schema
pub mod Ingestion
pub mod Checkpoints
pub mod Resumption
