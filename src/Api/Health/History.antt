-- ===== src/Api/Health/History.antt =====
-- What the readiness probe says after a history of calls.
use torque_finder.Prelude.{
  ℕ, ◌≡◌, refl, ap, ◌∙◌, Bool, true, false, Option, none, some, List, if◌then◌else◌, string_eq,
  nat_eq,
}
use torque_finder.Floats.{Floats}
use torque_finder.Text.Regex.{CharTables}
use torque_finder.ProductMatch.Sets.{HashOrder}
use torque_finder.Extraction.Json.{Python}
use torque_finder.Extraction.Extractor.{init}
use torque_finder.Extraction.Extractor.Health.{
  Call, last_signal, healthy_after, serve, serve-upstream_healthy,
}
use torque_finder.Api.Health.{readyz}

-- The answer that monitors get after the most recent signal of the upstream.
abbrev pub expected : Option Bool → ℕ × Bool
expected none = (200, true)
expected (some true) = (200, true)
expected (some false) = (503, false)

module _ ⦃fl : Floats⦄ ⦃py : Python⦄ ⦃h : HashOrder⦄ ⦃u : CharTables⦄ where
  -- After any history of calls of a new extractor that is no stub, the probe answers 503 exactly
  -- if the most recent call that got an answer or an API error got an API error, and else 200.
  pub readyz-serve :
      (calls : List Call) → readyz (serve (init false) calls) ≡ expected (last_signal calls)
  unfolding readyz
  readyz-serve calls =
      ap (λ healthy. (if healthy then 200 else 503, healthy))
        (serve-upstream_healthy (init false) calls refl)
      ∙ answer (last_signal calls)
    where
      answer :
          (s : Option Bool)
          → (if healthy_after s true then 200 else 503, healthy_after s true) ≡ expected s
      answer none = refl
      answer (some true) = refl
      answer (some false) = refl
