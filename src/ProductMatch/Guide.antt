-- ===== src/ProductMatch/Guide.antt =====
-- `_guide_is_product`: "guide" as the SRAM Guide brake, or as the English noun.
pub mod Meaning
use torque_finder.Prelude.{
  String, Bool, false, true, ◌||◌, Option, none, some, List, [], ◌∷◌, if◌then◌else◌, ◌==◌, not,
  string_eq, opt_eq,
}
use torque_finder.ProductMatch.Sets.{member}
use torque_finder.ProductMatch.Vocabulary.{guide_product_variants, guide_genre_context}

-- `tokens[i + 1]`, or `None` at the end
abbrev pub head? : List String → Option String
head? [] = none
head? (t ∷ _) = some t

-- `t in s`, where `t` may be `None`
abbrev pub opt_member : Option String → List String → Bool
opt_member none s = false
opt_member (some t) s = member t s

-- `next_tok in _GUIDE_PRODUCT_VARIANTS`
unfoldable pub is_variant : Option String → Bool
is_variant next_tok = opt_member next_tok guide_product_variants

-- `prev_tok in _GUIDE_GENRE_CONTEXT`
unfoldable pub is_genre : Option String → Bool
is_genre prev_tok = opt_member prev_tok guide_genre_context

-- The loop from a position on: `prev_tok` is the token before it. The two `continue`s of the
-- source and the end of its body have the same effect.
guide_from : Option String → List String → Bool
guide_from prev_tok [] = false
guide_from prev_tok (tok ∷ rest) =
    let next_tok = head? rest in
    let continue = guide_from (some tok) rest in
    if not (tok == "guide")
    then continue
    else if next_tok == some "brake"
    then true
    else if is_variant next_tok
    then true
    else if is_genre prev_tok
    then continue
    else if next_tok == none
    then continue
    else continue

unfoldable pub guide_is_product : List String → Bool
unfolding guide_from is_variant is_genre
guide_is_product tokens = guide_from none tokens
