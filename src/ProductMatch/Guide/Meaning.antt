-- ===== src/ProductMatch/Guide/Meaning.antt =====
-- What `_guide_is_product` decides.
use torque_finder.Prelude.{
  refl, String, ◌≡◌, ◌↔◌, ◌⊎◌, true, Option, some, none, List, [], ◌∷◌, arith, eq_iff, false,
}
use torque_finder.ProductMatch.Guide.{guide_from, guide_is_product, is_variant}

-- Some "guide" is directly followed by "brake" or by a variant of the Guide brake.
abbrev pub NamesBrake : List String → Type 0
NamesBrake [] = ⊥
NamesBrake (a ∷ []) = ⊥
NamesBrake (a ∷ b ∷ rest) =
    ((a ≡ "guide") × ((b ≡ "brake") ⊎ (is_variant (some b) ≡ true))) ⊎ NamesBrake (b ∷ rest)

is_variant-none : is_variant none ≡ false
unfolding is_variant
is_variant-none = refl

guide_from_iff :
    (prev : Option String) (ts : List String) → (guide_from prev ts ≡ true) ↔ NamesBrake ts
unfolding guide_from
guide_from_iff prev [] = (λ h. cc, λ h. absurd h)
guide_from_iff prev (a ∷ []) = (λ h. ground (arith, is_variant-none), λ h. absurd h)
guide_from_iff prev (a ∷ b ∷ rest) = (
  λ h. ground (arith, eq_iff a "guide", eq_iff b "brake", guide_from_iff (some a) (b ∷ rest)),
  λ h. ground (arith, eq_iff a "guide", eq_iff b "brake", guide_from_iff (some a) (b ∷ rest)),
)

-- "guide" reads as the Guide brake exactly when some occurrence of it is followed by "brake" or
-- by a variant token. What stands before it, and where else it stands, makes no difference.
pub guide_is_product_iff :
    (tokens : List String) → (guide_is_product tokens ≡ true) ↔ NamesBrake tokens
unfolding guide_is_product
guide_is_product_iff tokens = guide_from_iff none tokens
