-- ===== src/Tests/Products.antt =====
-- The product vocabulary.
use torque_finder.Prelude.{
  String, ◌≡◌, refl, ◌↔◌, inl, inr, true, none, some, [], ◌∷◌, arith, In, string_eq, nat_eq,
}
use torque_finder.Text.{contains}
use torque_finder.Domain.Scope.{ProductScope}
use torque_finder.ProductMatch.Sets.{HashOrder}
use torque_finder.ProductMatch.Guide.{guide_is_product}
use torque_finder.ProductMatch.Guide.Meaning.{NamesBrake, guide_is_product_iff}
use torque_finder.ProductMatch.Vocabulary.{brand_phrases}
use torque_finder.ProductMatch.Detect.{is_brand, phrase_in, detect_brand, detect_family}
use torque_finder.ProductMatch.Detect.Brand.{detect_brand-any}
use torque_finder.ProductMatch.Scopes.{scope_matches}
use torque_finder.ProductMatch.Scopes.Matching.{Passes, scope_matches_iff}
use torque_finder.Tests.Data.{order}

abbrev pike : ProductScope
pike = record { family = some "pike"; brand = none; confidence = 90 }

abbrev sram : ProductScope
sram = record { family = none; brand = some "sram"; confidence = 60 }

scope_matches_iff_example : (scope_matches pike sram ≡ true) ↔ Passes pike sram
scope_matches_iff_example = scope_matches_iff pike sram

guide_is_product_iff_example :
    (guide_is_product ("sram" ∷ "guide" ∷ "rsc" ∷ []) ≡ true)
    ↔ NamesBrake ("sram" ∷ "guide" ∷ "rsc" ∷ [])
guide_is_product_iff_example = guide_is_product_iff ("sram" ∷ "guide" ∷ "rsc" ∷ [])

pike_run : detect_family ("pike" ∷ []) ("pike" ∷ []) ≡ some "pike"
unfolding detect_family
pike_run = refl

abbrev family : String
family = "pike"

no_phrase : phrase_in "sram or zipp" brand_phrases ≡ none
unfolding phrase_in contains
no_phrase = refl

zipp_brand : is_brand "zipp" ≡ true
unfolding is_brand
zipp_brand = refl

detect_brand-any_example :
    (h : HashOrder) × (detect_brand ⦃h = h⦄ "sram or zipp" ("sram" ∷ "or" ∷ "zipp" ∷ [])
      ≡ (some "zipp", true))
detect_brand-any_example =
    detect_brand-any "sram or zipp" ("sram" ∷ "or" ∷ "zipp" ∷ []) "zipp" no_phrase
      (inr (inr (inl refl))) zipp_brand

one_brand :
    (a b : String)
    → In a ("sram" ∷ [])
    → In b ("sram" ∷ [])
    → is_brand a ≡ true
    → is_brand b ≡ true
    → a ≡ b
one_brand a b ma mb ka kb = ground arith
