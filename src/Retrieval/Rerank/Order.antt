-- ===== src/Retrieval/Rerank/Order.antt =====
-- The three reranks are sorts of the hits that they are given, by a key that differs from the
-- score by little.
use torque_finder.Prelude.{
  ℕ, String, ◌≡◌, inl, inr, true, List, [], ◌∷◌, Bool-cases, Before, string_eq, nat_eq, subst,
  Option-cases, In, sym, ◌∙◌, ◌↔◌, false, Bool,
}
use torque_finder.Prelude.{Dict, get}
use torque_finder.Prelude.Sort.{
  sort_by-Before, sort_by-In, sort_by, IsSorted-Before, sort_by-IsSorted,
}
use torque_finder.Floats.{Floats}
use torque_finder.Floats.Order.{fzero, fle_refl, fle-fadd, fmin-le, fmin_nonneg}
use torque_finder.Retrieval.Hits.{FusedHit, ProductMeta}
use torque_finder.Retrieval.Fusion.{or_else}
use torque_finder.Retrieval.Rerank.{
  tokens, overlap, is_empty, title_boost, title_key, title_token_boost, title_boost_cap,
  rerank_by_title, product_delta, product_key, ProductScope, product_mismatch_penalty,
  product_match_boost, is_identified, facet_scope, scope_matches, rerank_by_product, HashOrder,
  extract_query_scope, by_key,
}

module _ ⦃fl : Floats⦄ where
  open fl use {
    Float, fle, fadd, fneg, fle_trans, fle_total, fadd_mono, times_nonneg, decimal_nonneg,
  }

  title_boost_range :
      (qs : List String) (title : String)
      → (fle fzero (title_boost qs title) ≡ true)
        × (fle (title_boost qs title) title_boost_cap ≡ true)
  unfolding title_boost
  title_boost_range [] title = (fle_refl fzero, decimal_nonneg 15 4)
  title_boost_range (q ∷ qs) title = (
    fmin_nonneg _ title_boost_cap
        (times_nonneg (overlap (q ∷ qs) (tokens title)) title_token_boost (decimal_nonneg 5 4))
        (decimal_nonneg 15 4),
    fmin-le _ title_boost_cap,
  )

  -- A hit that leads another by the cap or more has the greater key.
  title_key_le :
      (qs : List String) (titles : Dict ℕ String) (a b : FusedHit)
      → fle (fadd b.score title_boost_cap) a.score ≡ true
      → fle (title_key qs titles b) (title_key qs titles a) ≡ true
  unfolding title_key
  title_key_le qs titles a b lead =
      let (low, _) = title_boost_range qs (or_else (get titles a.chunk_id) "") in
      let (_, high) = title_boost_range qs (or_else (get titles b.chunk_id) "") in
      fle_trans _ (fadd b.score title_boost_cap) _ (fadd_mono _ _ _ _ (fle_refl b.score) high)
        (fle_trans _ a.score _ lead (fle-fadd a.score _ low))

  -- A hit that stands before another and leads it by at least the cap of the title boost still
  -- stands before it after the title rerank, whatever the titles are.
  pub rerank_by_title-Before :
      (query_text : String) (fused : List FusedHit) (titles : Dict ℕ String) (a b : FusedHit)
      → Before a b fused
      → fle (fadd b.score title_boost_cap) a.score ≡ true
      → Before a b (rerank_by_title query_text fused titles)
  unfolding rerank_by_title
  rerank_by_title-Before query_text fused titles a b h lead =
      elim (Bool-cases (is_empty (tokens query_text))) [
        | inl e ↦ rw e h
        | inr e ↦
            rw e (sort_by-Before _ a b fused (title_key_le (tokens query_text) titles a b lead) h)
      ]

  penalty_nonpos : fle (fneg product_mismatch_penalty) fzero ≡ true
  penalty_nonpos =
      subst (λ z. fle (fneg product_mismatch_penalty) z ≡ true) fl.fneg_zero
        (fl.fneg_fle product_mismatch_penalty fzero ∙ decimal_nonneg 5 4)

  product_delta_range :
      (asked : ProductScope) (facet : ProductMeta)
      → (fle (fneg product_mismatch_penalty) (product_delta asked facet) ≡ true)
        × (fle (product_delta asked facet) product_match_boost ≡ true)
  unfolding product_delta
  product_delta_range asked facet = elim (Bool-cases (is_identified (facet_scope facet))) [
    | inr e ↦ rw e (penalty_nonpos, decimal_nonneg 5 4)
    | inl e ↦ elim (Bool-cases (scope_matches asked (facet_scope facet))) [
      | inl m ↦
          rw (e, m)
            (fle_trans _ fzero _ penalty_nonpos (decimal_nonneg 5 4), fle_refl product_match_boost)
      | inr m ↦
          rw (e, m)
            (
              fle_refl (fneg product_mismatch_penalty),
              fle_trans _ fzero _ penalty_nonpos (decimal_nonneg 5 4),
            )
    ]
  ]

  -- What the facet of a hit adds to its score, on either side.
  product_key_range :
      (asked : ProductScope) (facets : Dict ℕ ProductMeta) (hit : FusedHit)
      → (delta : Float) × (product_key asked facets hit ≡ fadd hit.score delta)
        × (fle (fneg product_mismatch_penalty) delta ≡ true)
        × (fle delta product_match_boost ≡ true)
  unfolding product_key
  product_key_range asked facets hit = elim (Option-cases (get facets hit.chunk_id)) [
    | inl e ↦ (
      fzero,
      rw (e, product_key) (sym (fl.fadd_zero hit.score)),
      penalty_nonpos,
      decimal_nonneg 5 4,
    )
    | inr (facet, e) ↦
        let (low, high) = product_delta_range asked facet in
        (product_delta asked facet, rw (e, product_key), low, high)
  ]

  -- A hit that stands before another and leads it by the match boost and the mismatch penalty
  -- together still stands before it after the product rerank, whatever the facets are.
  pub rerank_by_product-Before :
      ⦃h : HashOrder⦄ (query_text : String) (fused : List FusedHit) (facets : Dict ℕ ProductMeta)
      (a b : FusedHit)
      → Before a b fused
      → fle (fadd b.score product_match_boost) (fadd a.score (fneg product_mismatch_penalty)) ≡ true
      → Before a b (rerank_by_product query_text fused facets)
  unfolding rerank_by_product
  rerank_by_product-Before query_text fused facets a b h lead =
      elim (Bool-cases (is_identified asked)) [
        | inr e ↦ rw e h
        | inl e ↦ rw e (sort_by-Before _ a b fused key_le_key h)
      ]
    where
      asked : ProductScope
      asked = extract_query_scope query_text

      key_le_key : fle (product_key asked facets b) (product_key asked facets a) ≡ true
      key_le_key =
          let (x, ex, low, _) = product_key_range asked facets a in
          let (y, ey, _, high) = product_key_range asked facets b in
          rw (ex, ey)
            (fle_trans _ (fadd b.score product_match_boost) _
              (fadd_mono _ _ _ _ (fle_refl b.score) high)
              (fle_trans _ (fadd a.score (fneg product_mismatch_penalty)) _ lead
                (fadd_mono _ _ _ _ (fle_refl a.score) low)))

  rerank_by_title-In :
      (query_text : String) (fused : List FusedHit) (titles : Dict ℕ String) (a : FusedHit)
      → In a (rerank_by_title query_text fused titles) ↔ In a fused
  unfolding rerank_by_title
  rerank_by_title-In query_text fused titles a = elim (Bool-cases (is_empty (tokens query_text))) [
    | inl e ↦ rw e ((λ m. m), (λ m. m))
    | inr e ↦ rw e (sort_by-In _ a fused)
  ]

  -- If the question names a product, then after the product rerank of a title rerank a hit whose
  -- score with its product delta is strictly the greater stands before the other: the boost of the
  -- titles is gone.
  pub product-forgets_title :
      ⦃h : HashOrder⦄ (query_text : String) (fused : List FusedHit) (titles : Dict ℕ String)
      (facets : Dict ℕ ProductMeta) (a b : FusedHit)
      → is_identified (extract_query_scope query_text) ≡ true
      → In a fused
      → In b fused
      → fle
          (product_key (extract_query_scope query_text) facets a)
          (product_key (extract_query_scope query_text) facets b)
        ≡ false
      → Before a b (rerank_by_product query_text (rerank_by_title query_text fused titles) facets)
  unfolding rerank_by_product
  product-forgets_title query_text fused titles facets a b e ma mb n = rw e (
      IsSorted-Before before (λ x y. fle_total (key y) (key x))
        (λ x y z p q. fle_trans (key z) (key y) (key x) q p) a b (sort_by before hits)
        (sort_by-IsSorted before (λ x y. fle_total (key y) (key x))
          (λ x y z p q. fle_trans (key z) (key y) (key x) q p) hits)
        (inside a ma) (inside b mb) n)
    where
      key : FusedHit → Float
      key = product_key (extract_query_scope query_text) facets

      before : FusedHit → FusedHit → Bool
      before = by_key key

      hits : List FusedHit
      hits = rerank_by_title query_text fused titles

      inside : (x : FusedHit) → In x fused → In x (sort_by before hits)
      inside x m = (sort_by-In before x hits).1 ((rerank_by_title-In query_text fused titles x).1 m)
