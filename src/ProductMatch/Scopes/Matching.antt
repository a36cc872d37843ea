-- ===== src/ProductMatch/Scopes/Matching.antt =====
-- `scope_matches` against what its comments promise, which is not blocking a candidate that lacks
-- what is asked for, and the one case where the code blocks such a candidate.
use torque_finder.Prelude.{
  ℕ, String, ◌≡◌, refl, ◌↔◌, ◌⊎◌, true, false, Option, none, some, arith, eq_iff, is_some,
  string_eq, nat_eq,
}
use torque_finder.Domain.Scope.{ProductScope}
use torque_finder.ProductMatch.Scopes.{scope_matches}

-- The two values, where both are known, are the same.
abbrev pub Agree : Option String → Option String → Type 0
Agree (some a) (some b) = a ≡ b
Agree _ _ = Unit

-- When the comments let a candidate pass: the asked scope names something; two families agree;
-- and without two families, two brands agree. What one side does not know blocks nothing.
pub record Satisfies (asked candidate : ProductScope) : Type 0 where
  pub identified : (is_some asked.family ≡ true) ⊎ (is_some asked.brand ≡ true)
  pub families : Agree asked.family candidate.family
  pub brands :
      (is_some asked.family ≡ false) ⊎ (is_some candidate.family ≡ false)
      → Agree asked.brand candidate.brand

-- No family is asked for, and the candidate has a family but no brand.
pub record IsUnbranded (asked candidate : ProductScope) : Type 0 where
  pub no_family_asked : is_some asked.family ≡ false
  pub family_known : is_some candidate.family ≡ true
  pub brand_unknown : is_some candidate.brand ≡ false

-- When the code lets a candidate pass.
abbrev pub Passes : ProductScope → ProductScope → Type 0
Passes asked candidate = Satisfies asked candidate × ¬ IsUnbranded asked candidate

abbrev scope : Option String → Option String → ℕ → ProductScope
scope family brand confidence = record { family = family; brand = brand; confidence = confidence }

matches_sound :
    (a b c d : Option String) (m n : ℕ)
    → scope_matches (scope a b m) (scope c d n) ≡ true
    → Satisfies (scope a b m) (scope c d n)
unfolding scope_matches
matches_sound (some a) b (some c) d m n h = ground (arith, eq_iff a c)
matches_sound (some a) (some b) none (some d) m n h = ground (arith, eq_iff b d)
matches_sound none (some b) (some c) (some d) m n h = ground (arith, eq_iff b d)
matches_sound none (some b) none (some d) m n h = ground (arith, eq_iff b d)
matches_sound _ _ _ _ m n h = ground arith

matches_branded :
    (a b c d : Option String) (m n : ℕ)
    → scope_matches (scope a b m) (scope c d n) ≡ true
    → ¬ IsUnbranded (scope a b m) (scope c d n)
unfolding scope_matches
matches_branded none b (some c) none m n h u = ground arith
matches_branded (some a) b c d m n h u = ground arith
matches_branded none b none d m n h u = ground arith
matches_branded none b (some c) (some d) m n h u = ground arith

matches_complete :
    (a b c d : Option String) (m n : ℕ)
    → Satisfies (scope a b m) (scope c d n)
    → ¬ IsUnbranded (scope a b m) (scope c d n)
    → scope_matches (scope a b m) (scope c d n) ≡ true
unfolding scope_matches
matches_complete (some a) b (some c) d m n h k = ground (arith, eq_iff a c)
matches_complete (some a) (some b) none (some d) m n h k = ground (arith, eq_iff b d, h.brands)
matches_complete none (some b) (some c) (some d) m n h k = ground (arith, eq_iff b d, h.brands)
matches_complete none (some b) none (some d) m n h k = ground (arith, eq_iff b d, h.brands)
matches_complete none b (some c) none m n h k =
    absurd (k record { no_family_asked = refl; family_known = refl; brand_unknown = refl })
matches_complete _ _ _ _ m n h k = ground arith

-- `scope_matches` holds exactly if the candidate passes as the comments say (the asked scope names
-- a product, the families agree where both are known, and the brands agree where both are known
-- and a family is not), unless only a brand is asked for and the candidate has a family but no
-- brand: the code blocks it, and the comment on this case calls it non-blocking.
pub scope_matches_iff :
    (asked candidate : ProductScope)
    → (scope_matches asked candidate ≡ true) ↔ Passes asked candidate
scope_matches_iff asked candidate = (
  λ h. (
    matches_sound asked.family asked.brand candidate.family candidate.brand asked.confidence
        candidate.confidence h,
    matches_branded asked.family asked.brand candidate.family candidate.brand asked.confidence
        candidate.confidence h,
  ),
  λ h.
      matches_complete asked.family asked.brand candidate.family candidate.brand asked.confidence
        candidate.confidence h.0 h.1,
)
