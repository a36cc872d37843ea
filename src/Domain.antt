-- ===== src/Domain.antt =====
-- src/parts_lookup/domain: the value objects and the exceptions that cross the contexts.
pub mod Scope
pub mod Chunk
pub mod Documents
pub mod Publications
pub mod Answer
pub mod Errors
pub mod Outcome
