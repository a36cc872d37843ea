-- ===== src/Discovery.antt =====
-- src/parts_lookup/discovery: the registry of publications, the parsers of the pages, and the
-- crawl that fills the registry.
pub mod Registry
pub mod ModelPage
pub mod Probe
pub mod Crawler
