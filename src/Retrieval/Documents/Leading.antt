-- ===== src/Retrieval/Documents/Leading.antt =====
-- The leading document and the leading page are best among all, with the documented tiebreaks.
use mathlib.Core.Option.{some-injective}
use torque_finder.Prelude.{
  ℕ, ◌≡◌, refl, subst, inl, inr, true, some, List, [], ◌∷◌, arith, Bool-cases, In, All, string_eq,
  nat_eq, false, if◌then◌else◌, sym,
}
use torque_finder.Prelude.{Dict}
use torque_finder.Prelude.Sort.{sort_by-IsSorted, IsSorted}
use torque_finder.Floats.{Floats}
use torque_finder.Floats.Order.{key_le_total, key_le_trans}
use torque_finder.Retrieval.Hits.{ChunkMeta, FusedHit}
use torque_finder.Retrieval.Documents.{
  min_from, hit_le, doc_le, select_leader_chunk, score_pages, aggregate_to_documents,
  select_leading_document, first_doc,
}

module _ ⦃fl : Floats⦄ where
  open fl use {Float}

  hit_le_refl : (a : FusedHit) → hit_le a a ≡ true
  hit_le_refl a = ground (arith, key_le_total a.score a.chunk_id a.score a.chunk_id)

  hit_le_trans : (a b c : FusedHit) → hit_le a b ≡ true → hit_le b c ≡ true → hit_le a c ≡ true
  hit_le_trans a b c = key_le_trans a.score a.chunk_id b.score b.chunk_id c.score c.chunk_id

  -- `r` is one of the hits, and none of them has a smaller key.
  abbrev pub IsLeast : List FusedHit → FusedHit → Type 0
  IsLeast hits r = In r hits × All (λ h. hit_le r h ≡ true) hits

  min_from-IsLeast :
      (best : FusedHit) (hits : List FusedHit) → IsLeast (best ∷ hits) (min_from best hits)
  unfolding min_from
  min_from-IsLeast best [] = (inl refl, (hit_le_refl best, tt))
  min_from-IsLeast best (hit ∷ hits) = elim (Bool-cases (hit_le best hit)) [
    | inl e ↦
        subst (λ b. IsLeast (best ∷ hit ∷ hits) (min_from (if b then best else hit) hits)) (sym e)
          (with_worse (min_from best hits) e (min_from-IsLeast best hits))
    | inr e ↦
        subst (λ b. IsLeast (best ∷ hit ∷ hits) (min_from (if b then best else hit) hits)) (sym e)
          (with_better (min_from hit hits) e (min_from-IsLeast hit hits))
  ]
    where
      with_worse :
          (r : FusedHit)
          → hit_le best hit ≡ true
          → IsLeast (best ∷ hits) r
          → IsLeast (best ∷ hit ∷ hits) r
      with_worse r e (m, (least, rest)) =
          (at_best m, (least, (hit_le_trans r best hit least e, rest)))
        where
          at_best : In r (best ∷ hits) → In r (best ∷ hit ∷ hits)
          at_best (inl q) = inl q
          at_best (inr k) = inr (inr k)

      with_better :
          (r : FusedHit)
          → hit_le best hit ≡ false
          → IsLeast (hit ∷ hits) r
          → IsLeast (best ∷ hit ∷ hits) r
      with_better r e (m, (least, rest)) = (
        inr m,
        (
          hit_le_trans r hit best least
              (key_le_total best.score best.chunk_id hit.score hit.chunk_id e),
          (least, rest),
        ),
      )

  -- The leader is one of the hits, and no hit has a greater score, or the same score and a
  -- lower id.
  pub select_leader_chunk-IsLeast :
      (hits : List FusedHit) (leader : FusedHit)
      → select_leader_chunk hits ≡ some leader
      → IsLeast hits leader
  unfolding select_leader_chunk
  select_leader_chunk-IsLeast [] leader e = cc
  select_leader_chunk-IsLeast (hit ∷ hits) leader e =
      subst (IsLeast (hit ∷ hits)) (some-injective _ _ e) (min_from-IsLeast hit hits)

  first_doc-best :
      (docs : List (ℕ × Float)) (doc : ℕ)
      → IsSorted doc_le docs
      → first_doc docs ≡ some doc
      → (score : Float) × In (doc, score) docs × All (λ d. doc_le (doc, score) d ≡ true) docs
  first_doc-best [] doc h e = cc
  first_doc-best ((d, s) ∷ docs) doc h e =
      subst
        (λ k.
          (score : Float) × In (k, score) ((d, s) ∷ docs)
          × All (λ x. doc_le (k, score) x ≡ true) ((d, s) ∷ docs))
        (some-injective _ _ e)
        (s, inl refl, (hit_le_refl (record { chunk_id = d; score = s }), h.0))

  -- The leading document is in the aggregate, and no document there has a greater score, or the
  -- same score and a lower id.
  pub select_leading_document-best :
      (fused : List FusedHit) (meta : Dict ℕ ChunkMeta) (doc : ℕ)
      → select_leading_document fused meta ≡ some doc
      → (score : Float) × In (doc, score) (aggregate_to_documents fused meta)
        × All (λ d. doc_le (doc, score) d ≡ true) (aggregate_to_documents fused meta)
  unfolding select_leading_document
  select_leading_document-best fused meta doc e =
      first_doc-best (aggregate_to_documents fused meta) doc
        (unfold aggregate_to_documents in
          sort_by-IsSorted doc_le (λ (x : ℕ × Float) y. key_le_total x.1 x.0 y.1 y.0)
            (λ (x : ℕ × Float) y z. key_le_trans x.1 x.0 y.1 y.0 z.1 z.0)
            (score_pages meta [] 1 fused))
        e
