-- ===== src/ProductMatch/Scopes.antt =====
-- `normalize_product`, `derive_facet`, `extract_query_scope` and `scope_matches`.
pub mod Normal
pub mod Matching
use torque_finder.Prelude.{
  ℕ, zero, suc, ◌+◌, ◌-◌, ◌*◌, ◌≤◌, ◌<◌, String, ◌≡◌, ◌≢◌, refl, sym, ap, ◌∙◌, subst, ◌↔◌, ◌⊎◌, inl,
  inr, Bool, true, false, not, ◌&&◌, ◌||◌, Option, none, some, List, [], ◌∷◌, ◌++◌, arith, eq_iff,
  if◌then◌else◌, Bool-cases, Option-cases, length, take, any, all, keep, first, In, Before, All,
  is_some, is_none, leb, ltb, ◌==◌, string_eq, nat_eq, opt_eq,
}
use torque_finder.Text.{lower, tokens}
use torque_finder.Domain.Scope.{ProductScope, unidentified, is_identified}
use torque_finder.ProductMatch.Sets.{HashOrder, difference}
use torque_finder.ProductMatch.Vocabulary.{generic_title_tokens}
use torque_finder.ProductMatch.Detect.{detect_brand, detect_family}

-- `token_set - _GENERIC_TITLE_TOKENS`
unfoldable pub specific : List String → List String
specific token_list = difference token_list generic_title_tokens

-- The scope of a title, from its family and its brand.
abbrev pub title_scope : Option String → Option String → ProductScope
title_scope family brand =
    if is_none family && is_none brand
    then unidentified
    else record { family = family; brand = brand; confidence = if is_some family then 90 else 60 }

unfoldable pub normalize_product : ⦃h : HashOrder⦄ → String → ProductScope
normalize_product text =
    if text == ""
    then unidentified
    else (let token_list = tokens (lower text) in
        title_scope (detect_family (specific token_list) token_list)
          (detect_brand (lower text) token_list).0)

-- `_FAMILY_PERSIST_CONFIDENCE`
abbrev pub family_persist_confidence : ℕ
family_persist_confidence = 90

-- `derive_facet`: the `(product_family, brand)` to store.
unfoldable pub derive_facet : ⦃h : HashOrder⦄ → String → Option String × Option String
derive_facet title =
    let scope = normalize_product title in
    (if leb family_persist_confidence scope.confidence then scope.family else none, scope.brand)

-- The scope of a question, from its family and the result of `_detect_brand`.
abbrev pub query_scope : Option String → Option String × Bool → ProductScope
query_scope family (brand, recognized_brand) =
    if is_none family && not recognized_brand
    then unidentified
    else record { family = family; brand = brand; confidence = if is_some family then 90 else 70 }

unfoldable pub extract_query_scope : ⦃h : HashOrder⦄ → String → ProductScope
extract_query_scope query =
    if query == ""
    then unidentified
    else (let token_list = tokens (lower query) in
        query_scope (detect_family (specific token_list) token_list)
          (detect_brand (lower query) token_list))

unfoldable pub scope_matches : ProductScope → ProductScope → Bool
unfolding is_identified
scope_matches asked candidate =
    if not (is_identified asked)
    then false
    else if is_some asked.family && is_some candidate.family
    then asked.family == candidate.family
    else if is_none candidate.family
    then (if is_none candidate.brand
        then true
        else if is_some asked.brand
        then asked.brand == candidate.brand
        else true)
    else if is_some candidate.brand && is_some asked.brand
    then asked.brand == candidate.brand
    else false
