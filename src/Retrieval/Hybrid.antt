-- ===== src/Retrieval/Hybrid.antt =====
-- `keyword_search`, `vector_search` and `hybrid_search`. The database and the embedding service
-- are parameters: what they answer to each query of the program, or raise.
pub mod Rows
pub mod Stages
pub mod Budget
pub mod Hydration
pub mod Keys
pub mod Failure
