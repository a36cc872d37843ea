-- ===== src/ProductMatch/Scopes/Normal.antt =====
-- The scopes that `normalize_product`, `derive_facet` and `extract_query_scope` return.
use torque_finder.ProductMatch.Vocabulary.{brand_phrases}
use torque_finder.Prelude.{
  String, ◌≡◌, refl, inl, inr, Bool, true, Option, none, some, List, arith, Bool-cases, is_some,
  ◌==◌, string_eq, nat_eq,
}
use torque_finder.Text.{lower, tokens}
use torque_finder.Domain.Scope.{ProductScope}
use torque_finder.ProductMatch.Sets.{HashOrder}
use torque_finder.ProductMatch.Detect.{
  detect_brand, brand_result, phrase_in, token_in, detect_family,
}
use torque_finder.ProductMatch.Scopes.{
  normalize_product, derive_facet, extract_query_scope, query_scope, title_scope, specific,
}

brand_result-recognized :
    (p t : Option String) → (brand_result p t).1 ≡ is_some (brand_result p t).0
brand_result-recognized (some n) t = refl
brand_result-recognized none (some t) = refl
brand_result-recognized none none = refl

-- `recognized` says no more than that there is a brand.
recognized_lem :
    ⦃h : HashOrder⦄ (lowered : String) (ts : List String)
    → (detect_brand lowered ts).1 ≡ is_some (detect_brand lowered ts).0
unfolding detect_brand
recognized_lem ⦃h⦄ lowered ts =
    brand_result-recognized (phrase_in lowered brand_phrases) (token_in (h.arrange ts))

query_scope-title_scope :
    (family : Option String) (found : Option String × Bool)
    → found.1 ≡ is_some found.0
    → ((query_scope family found).family ≡ (title_scope family found.0).family)
      × ((query_scope family found).brand ≡ (title_scope family found.0).brand)
query_scope-title_scope family (brand, recognized) e = ground arith

-- How the confidence grades a scope: 0.9 for a family, 0.6 for a brand alone, 0.0 for neither.
pub record IsGraded (scope : ProductScope) : Type 0 where
  pub with_family : is_some scope.family ≡ true → scope.confidence ≡ 90
  pub brand_only : scope.family ≡ none → is_some scope.brand ≡ true → scope.confidence ≡ 60
  pub neither : scope.family ≡ none → scope.brand ≡ none → scope.confidence ≡ 0

title_scope-IsGraded : (family brand : Option String) → IsGraded (title_scope family brand)
title_scope-IsGraded none none = ground arith
title_scope-IsGraded none (some b) = ground arith
title_scope-IsGraded (some f) brand = ground arith

module _ ⦃h : HashOrder⦄ (text : String) where
  -- The asked product and a title's product are derived alike: a text has one family and one
  -- brand, whichever function derives them.
  pub extract-normalize :
      ((extract_query_scope text).family ≡ (normalize_product text).family)
      × ((extract_query_scope text).brand ≡ (normalize_product text).brand)
  unfolding extract_query_scope normalize_product
  extract-normalize = elim (Bool-cases (text == "")) [
    | inl e ↦ rw e (refl, refl)
    | inr e ↦ rw e (
        query_scope-title_scope _ (detect_brand (lower text) (tokens (lower text)))
          (recognized_lem (lower text) (tokens (lower text))))
  ]

  -- The confidence of a title says what was found: 0.9 for a family, 0.6 for a brand alone, and
  -- 0.0 for neither.
  pub normalize-IsGraded : IsGraded (normalize_product text)
  unfolding normalize_product
  normalize-IsGraded = elim (Bool-cases (text == "")) [
    | inl e ↦ rw e (title_scope-IsGraded none none)
    | inr e ↦
        let ts = tokens (lower text) in
        rw e
          (title_scope-IsGraded (detect_family (specific ts) ts) (detect_brand (lower text) ts).0)
  ]

  -- The bar for persisting drops no derived family, and lets none through that was not derived:
  -- what is stored is the family and the brand of the scope.
  pub derive_facet-normalize :
      derive_facet text ≡ ((normalize_product text).family, (normalize_product text).brand)
  unfolding derive_facet
  derive_facet-normalize = ground (arith, normalize-IsGraded)
