-- ===== src/Api.antt =====
-- src/parts_lookup/api/routes: the query route and the readiness probe.
pub mod Text
pub mod Services
pub mod Route
pub mod Health
