-- ===== src/Retrieval/Rerank/Bounds.antt =====
-- `_rerank_within_doc`: who earns the bonus, and what it can reorder.
use torque_finder.Prelude.{
  ℕ, String, ◌≡◌, ◌⊎◌, inl, inr, Bool, true, false, not, ◌||◌, some, List, arith, Bool-cases,
  Option-cases, any, In, Before, ◌==◌, string_eq, nat_eq,
}
use torque_finder.Prelude.{Dict, get}
use torque_finder.Prelude.Sort.{
  sort_by, sort_by-In, sort_by-Before, sort_by-IsSorted, IsSorted-Before,
}
use torque_finder.Floats.{Floats}
use torque_finder.Floats.Order.{fzero, fle_refl, fle-fadd}
use torque_finder.Text.Regex.{CharTables, search_in, torque_pattern}
use torque_finder.ProductMatch.Sets.{member}
use torque_finder.Retrieval.Hits.{ChunkMeta, FusedHit}
use torque_finder.Retrieval.Rerank.{
  tokens, is_empty, by_key, rerank_bonus, matches_fastener_spec, fastener_key, rerank_within_doc,
}

-- The page is known, belongs to the leading document, comes from a PDF, has a torque value and
-- shares a token with the question.
pub record EarnsBonus ⦃u : CharTables⦄ (query_tokens : List String) (meta : Dict ℕ ChunkMeta)
    (doc chunk_id : ℕ) : Type 0 where
  pub page : ChunkMeta
  pub known : get meta chunk_id ≡ some page
  pub leading : page.document_id ≡ doc
  pub from_pdf : page.is_pdf ≡ true
  pub torque : search_in torque_pattern page.text ≡ true
  pub shares : any (λ t. member t (tokens page.text)) query_tokens ≡ true

module _ ⦃fl : Floats⦄ ⦃u : CharTables⦄ where
  open fl use {Float, fle, fadd, fle_trans, fle_total, decimal_nonneg}

  EarnsBonus-of :
      (qs : List String) (meta : Dict ℕ ChunkMeta) (doc cid : ℕ) (m : ChunkMeta)
      → get meta cid ≡ some m
      → (not (m.document_id == doc) || not m.is_pdf) ≡ false
      → matches_fastener_spec qs m ≡ true
      → EarnsBonus qs meta doc cid
  unfolding matches_fastener_spec
  EarnsBonus-of qs meta doc cid m e same spec = record {
    page = m;
    known = e;
    leading = ground arith;
    from_pdf = ground arith;
    torque = ground arith;
    shares = ground arith;
  }

  -- The key of a hit is its score with the bonus for a page that earns it, else its score.
  fastener_key-cases :
      (qs : List String) (meta : Dict ℕ ChunkMeta) (doc : ℕ) (hit : FusedHit)
      → (EarnsBonus qs meta doc hit.chunk_id
          × (fastener_key qs meta doc hit ≡ fadd hit.score rerank_bonus))
        ⊎ (fastener_key qs meta doc hit ≡ hit.score)
  fastener_key-cases qs meta doc hit = elim (Option-cases (get meta hit.chunk_id)) [
    | inl e ↦ inr (unfold fastener_key in rw (e, fastener_key))
    | inr (m, e) ↦ elim (Bool-cases (not (m.document_id == doc) || not m.is_pdf)) [
      | inl other ↦ inr (unfold fastener_key in rw (e, fastener_key) (rw other))
      | inr same ↦ elim (Bool-cases (matches_fastener_spec qs m)) [
        | inr plain ↦ inr (
            unfold fastener_key in rw (e, fastener_key) (rw (same, plain) (fl.fadd_zero hit.score)))
        | inl spec ↦ inl (
          EarnsBonus-of qs meta doc hit.chunk_id m e same spec,
          unfold fastener_key in rw (e, fastener_key) (rw (same, spec)),
        )
      ]
    ]
  ]

  bonus_nonneg : fle fzero rerank_bonus ≡ true
  bonus_nonneg = decimal_nonneg 5 4

  score_le_key :
      (qs : List String) (meta : Dict ℕ ChunkMeta) (doc : ℕ) (hit : FusedHit)
      → fle hit.score (fastener_key qs meta doc hit) ≡ true
  score_le_key qs meta doc hit = elim (fastener_key-cases qs meta doc hit) [
    | inl (_, e) ↦ rw e (fle-fadd hit.score rerank_bonus bonus_nonneg)
    | inr e ↦ rw e (fle_refl hit.score)
  ]

  -- A hit that stands before another with no smaller score is overtaken within the rerank only
  -- by a page that earns the bonus: known, of the leading document, from a PDF, with a torque
  -- value and with a token of the question.
  pub rerank_within_doc-Before :
      (query_text : String) (fused : List FusedHit) (meta : Dict ℕ ChunkMeta) (doc : ℕ)
      (a b : FusedHit)
      → Before a b fused
      → fle b.score a.score ≡ true
      → ¬ EarnsBonus (tokens query_text) meta doc b.chunk_id
      → Before a b (rerank_within_doc query_text fused meta doc)
  unfolding rerank_within_doc
  rerank_within_doc-Before query_text fused meta doc a b h le plain =
      elim (Bool-cases (is_empty (tokens query_text))) [
        | inl e ↦ rw e h
        | inr e ↦ rw e (
            sort_by-Before _ a b fused
              (elim (fastener_key-cases (tokens query_text) meta doc b) [
                | inl (earns, _) ↦ absurd (plain earns)
                | inr k ↦
                    rw (k, by_key)
                      (fle_trans _ a.score _ le (score_le_key (tokens query_text) meta doc a))
              ])
              h)
      ]

  -- If the question has tokens, then after the rerank a hit stands before every hit of smaller
  -- score that earns no bonus, in whatever order the title and product reranks have put the two.
  pub rerank_within_doc-by_score :
      (query_text : String) (fused : List FusedHit) (meta : Dict ℕ ChunkMeta) (doc : ℕ)
      (a b : FusedHit)
      → is_empty (tokens query_text) ≡ false
      → In a fused
      → In b fused
      → ¬ EarnsBonus (tokens query_text) meta doc b.chunk_id
      → fle a.score b.score ≡ false
      → Before a b (rerank_within_doc query_text fused meta doc)
  unfolding rerank_within_doc
  rerank_within_doc-by_score query_text fused meta doc a b e ma mb plain gt = rw e (
      IsSorted-Before before total trans a b (sort_by before fused)
        (sort_by-IsSorted before total trans fused) ((sort_by-In before a fused).1 ma)
        ((sort_by-In before b fused).1 mb) strict)
    where
      key : FusedHit → Float
      key = fastener_key (tokens query_text) meta doc

      before : FusedHit → FusedHit → Bool
      before = by_key key

      total : (x y : FusedHit) → before x y ≡ false → before y x ≡ true
      total x y = fle_total (key y) (key x)

      trans : (x y z : FusedHit) → before x y ≡ true → before y z ≡ true → before x z ≡ true
      trans x y z p q = fle_trans (key z) (key y) (key x) q p

      strict : fle (key a) (key b) ≡ false
      strict = elim (fastener_key-cases (tokens query_text) meta doc b) [
        | inl (earns, _) ↦ absurd (plain earns)
        | inr k ↦ ground (
          arith,
          k,
          gt,
          score_le_key (tokens query_text) meta doc a,
          fle_trans a.score (key a) b.score,
        )
      ]
