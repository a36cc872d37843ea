-- ===== src/Retrieval.antt =====
-- src/parts_lookup/retrieval/hybrid.py
pub mod Hits
pub mod Fusion
pub mod Rerank
pub mod Documents
pub mod Assemble
pub mod Hybrid
pub mod Embedder
