-- ===== src/Retrieval.antt =====
-- backend/pufferlab/retrieval: the fusion of ranked lists, and the filters of a search.
pub mod Fusion
pub mod Filters
