-- ===== src/ProductMatch/Detect/Brand.antt =====
-- How far the brand that `_detect_brand` returns depends on the order of the set.
use torque_finder.ProductMatch.Sets.{front_first, member_iff}
use torque_finder.Prelude.{
  String, ◌≡◌, inl, inr, true, some, List, [], ◌∷◌, arith, Bool-cases, In, string_eq, nat_eq, none,
  ◌↔◌, ap, Option-cases, ◌∙◌, sym,
}
use torque_finder.ProductMatch.Detect.{
  is_brand, token_in, List, String, detect_brand, HashOrder, phrase_in, brand_phrases, brand_result,
}

-- What `_detect_brand` returns is a phrase's brand or a recognised token of the text.
token_in_sound :
    (ts : List String) (b : String) → token_in ts ≡ some b → In b ts × (is_brand b ≡ true)
unfolding token_in
token_in_sound [] b h = cc
token_in_sound (t ∷ ts) b h = ground (arith, token_in_sound ts b)

token_in_complete :
    (ts : List String) (b : String)
    → In b ts
    → is_brand b ≡ true
    → (a : String) × (token_in ts ≡ some a)
unfolding token_in
token_in_complete [] b m h = absurd m
token_in_complete (t ∷ ts) b m h = elim (Bool-cases (is_brand t)) [
  | inl e ↦ (t, rw e)
  | inr e ↦ rw e (token_in_complete ts b (ground arith) h)
]

module _ (ts : List String)
    (one : (a b : String) → In a ts → In b ts → is_brand a ≡ true → is_brand b ≡ true → a ≡ b) where
  token_in-stable :
      (xs ys : List String)
      → ((t : String) → In t xs ↔ In t ts)
      → ((t : String) → In t ys ↔ In t ts)
      → token_in xs ≡ token_in ys
  token_in-stable xs ys hx hy = elim (Option-cases (token_in xs)) [
    | inl absent ↦ elim (Option-cases (token_in ys)) [
      | inl absent' ↦ absent ∙ sym absent'
      | inr (b, e) ↦
          let (m, k) = token_in_sound ys b e in
          let (a, e') = token_in_complete xs b ((hx b).1 ((hy b).0 m)) k in cc
    ]
    | inr (a, e) ↦
        let (m, k) = token_in_sound xs a e in
        let (b, e') = token_in_complete ys a ((hy a).1 ((hx a).0 m)) k in
        let (m', k') = token_in_sound ys b e' in
        e ∙ ap some (one a b ((hx a).0 m) ((hy b).0 m') k k') ∙ sym e'
  ]

  -- If the recognised brand tokens of a text are one and the same, the brand that
  -- `_detect_brand` returns does not depend on the order in which the set is iterated.
  pub detect_brand-stable :
      (h k : HashOrder) (lowered : String)
      → detect_brand ⦃h = h⦄ lowered ts ≡ detect_brand ⦃h = k⦄ lowered ts
  unfolding detect_brand
  detect_brand-stable h k lowered =
      ap (brand_result (phrase_in lowered brand_phrases))
        (token_in-stable (h.arrange ts) (k.arrange ts) (h.arrange-In ts) (k.arrange-In ts))

token_in-front :
    (ts : List String) (b : String)
    → In b ts
    → is_brand b ≡ true
    → token_in ((front_first b).arrange ts) ≡ some b
unfolding token_in
token_in-front ts b m k = rw ((member_iff b ts).1 m, k)

-- Where the text has no brand phrase, each recognised brand token of it is the brand that
-- `_detect_brand` returns in some iteration order of the set.
pub detect_brand-any :
    (lowered : String) (ts : List String) (b : String)
    → phrase_in lowered brand_phrases ≡ none
    → In b ts
    → is_brand b ≡ true
    → (h : HashOrder) × (detect_brand ⦃h = h⦄ lowered ts ≡ (some b, true))
unfolding detect_brand
detect_brand-any lowered ts b e m k = (
  front_first b,
  ap (λ p. brand_result p (token_in ((front_first b).arrange ts))) e
      ∙ ap (brand_result none) (token_in-front ts b m k),
)
