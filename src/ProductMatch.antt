-- ===== src/ProductMatch.antt =====
-- src/parts_lookup/retrieval/product_match.py
pub mod Vocabulary
pub mod Sets
pub mod Guide
pub mod Detect
pub mod Scopes
