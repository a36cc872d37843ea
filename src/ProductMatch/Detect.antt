-- ===== src/ProductMatch/Detect.antt =====
-- `_detect_brand` and `_detect_family`.
pub mod Brand
pub mod Family
use torque_finder.Prelude.{
  String, Bool, false, true, not, ◌&&◌, ◌||◌, Option, none, some, List, [], ◌∷◌, if◌then◌else◌,
  ◌==◌, string_eq,
}
use torque_finder.Text.{contains}
use torque_finder.ProductMatch.Sets.{HashOrder, member, meets}
use torque_finder.ProductMatch.Guide.{guide_is_product}
use torque_finder.ProductMatch.Vocabulary.{
  in_corpus_brands, out_of_corpus_brands, brand_phrases, family_tokens,
}

-- A known bicycle brand.
unfoldable pub is_brand : String → Bool
is_brand token = member token in_corpus_brands || member token out_of_corpus_brands

-- The first loop: the phrases, in the order of the dictionary.
unfoldable pub phrase_in : String → List (String × String) → Option String
phrase_in lowered [] = none
phrase_in lowered ((phrase, normalized) ∷ more) =
    if contains phrase lowered then some normalized else phrase_in lowered more

-- The second loop: the tokens, in the order in which the set is iterated.
unfoldable pub token_in : List String → Option String
token_in [] = none
token_in (token ∷ more) = if is_brand token then some token else token_in more

-- The returns of `_detect_brand`, from what the two loops find.
abbrev pub brand_result : Option String → Option String → Option String × Bool
brand_result (some normalized) _ = (some normalized, true)
brand_result none (some token) = (some token, true)
brand_result none none = (none, false)

-- `_detect_brand`, with its result `(brand, recognized)`.
unfoldable pub detect_brand : ⦃h : HashOrder⦄ → String → List String → Option String × Bool
unfolding phrase_in token_in is_brand
detect_brand ⦃h⦄ lowered tokens =
    brand_result (phrase_in lowered brand_phrases) (token_in (h.arrange tokens))

-- The loop of `_detect_family` over the families.
unfoldable pub family_in : List String → List String → List (String × List String) → Option String
family_in tokens ordered [] = none
family_in tokens ordered ((family, surface) ∷ more) =
    let rest = family_in tokens ordered more in
    if not (meets surface tokens)
    then rest
    else if family == "guide" && not (guide_is_product ordered)
    then rest
    else some family

-- `_detect_family`
unfoldable pub detect_family : List String → List String → Option String
unfolding family_in
detect_family tokens ordered = family_in tokens ordered family_tokens
