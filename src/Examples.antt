-- ===== src/Examples.antt =====
-- Runs of the model on concrete inputs, and each theorem at an input that meets its hypotheses.
mod Runs
mod Jobs
mod Managers
mod Evals
mod Datasets
mod Runner
mod Retrieval
