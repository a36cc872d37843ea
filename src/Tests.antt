-- ===== src/Tests.antt =====
-- The theorems at concrete inputs, and runs of the code.
mod Data
mod Products
mod Ranking
mod Search
mod Extraction
mod Serving
mod Storing
mod Registering
mod Crawling
mod Embedding
