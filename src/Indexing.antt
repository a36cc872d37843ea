-- ===== src/Indexing.antt =====
-- src/parts_lookup/indexing: the store of documents and chunks, and the repository over it.
pub mod Table
pub mod Store
pub mod Repository
pub mod Mining
