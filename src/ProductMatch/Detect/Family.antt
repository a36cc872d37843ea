-- ===== src/ProductMatch/Detect/Family.antt =====
-- What `_detect_family` returns.
use torque_finder.Prelude.{
  String, ◌≡◌, ◌⊎◌, true, some, List, [], ◌∷◌, arith, eq_iff, string_eq, nat_eq,
}
use torque_finder.ProductMatch.Detect.{
  family_in, detect_family, List, String, guide_is_product, family_tokens, meets,
}

-- A family of the vocabulary with a token in the text.
abbrev pub IsNamed : List String → List (String × List String) → String → Type 0
IsNamed tokens [] f = ⊥
IsNamed tokens ((family, surface) ∷ more) f =
    ((family ≡ f) × (meets surface tokens ≡ true)) ⊎ IsNamed tokens more f

family_in_sound :
    (tokens ordered : List String) (table : List (String × List String)) (f : String)
    → family_in tokens ordered table ≡ some f
    → IsNamed tokens table f × ((f ≡ "guide") → guide_is_product ordered ≡ true)
unfolding family_in
family_in_sound tokens ordered [] f h = cc
family_in_sound tokens ordered ((family, surface) ∷ more) f h =
    ground (arith, eq_iff family "guide", family_in_sound tokens ordered more f)

-- A family that is returned is one of the vocabulary, the text has one of its tokens, and it is
-- "guide" only where "guide" reads as the brake.
pub detect_family_sound :
    (tokens ordered : List String) (f : String)
    → detect_family tokens ordered ≡ some f
    → IsNamed tokens family_tokens f × ((f ≡ "guide") → guide_is_product ordered ≡ true)
unfolding detect_family
detect_family_sound tokens ordered f h = family_in_sound tokens ordered family_tokens f h
