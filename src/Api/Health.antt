-- ===== src/Api/Health.antt =====
-- api/routes/health.py: the readiness probe. The liveness probe answers 200 always.
pub mod History
use torque_finder.Prelude.{
  ℕ, zero, suc, ◌+◌, ◌-◌, ◌*◌, ◌≤◌, ◌<◌, String, ◌≡◌, ◌≢◌, refl, sym, ap, ◌∙◌, subst, ◌↔◌, ◌⊎◌, inl,
  inr, Bool, true, false, not, ◌&&◌, ◌||◌, Option, none, some, List, [], ◌∷◌, ◌++◌, arith, eq_iff,
  if◌then◌else◌, Bool-cases, Option-cases, length, take, any, all, keep, first, In, Before, All,
  is_some, is_none, leb, ltb, ◌==◌, string_eq, nat_eq,
}
use torque_finder.Extraction.Extractor.{Extractor, upstream_healthy}

-- The status and the `ready` field of `readyz`; `extraction_upstream_healthy` is the same value.
unfoldable pub readyz : Extractor → ℕ × Bool
readyz extractor =
    let healthy = upstream_healthy extractor in (if healthy then 200 else 503, healthy)
