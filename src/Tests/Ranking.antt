-- ===== src/Tests/Ranking.antt =====
-- Fusion, the reranks, the aggregate of the documents and the assembly of the candidates.
use mathlib.Core.Bool.{false≢true}
use mathlib.Core.Option.{some-injective}
use torque_finder.Prelude.{
  ℕ, String, ◌≡◌, refl, sym, subst, ◌↔◌, inl, inr, true, false, none, some, List, [], ◌∷◌, ◌++◌,
  take, In, Before, All, string_eq, nat_eq,
}
use torque_finder.Prelude.{Dict, Distinct, get, put}
use torque_finder.Prelude.Sort.{IsSorted, sort_by}
use torque_finder.Prelude.Int.{ℤ, pos}
use torque_finder.Floats.Fixed.{fixed}
use torque_finder.Text.{lower, scan, tokens, contains}
use torque_finder.Text.Regex.{search_in, torque_pattern, many, many1}
use torque_finder.Domain.Scope.{is_identified}
use torque_finder.ProductMatch.Guide.{is_variant, is_genre, guide_is_product}
use torque_finder.ProductMatch.Detect.{is_brand, detect_brand, detect_family}
use torque_finder.ProductMatch.Scopes.{specific, extract_query_scope}
use torque_finder.Retrieval.Hits.{FusedHit, ChunkMeta, ProductMeta, ids}
use torque_finder.Retrieval.Fusion.{by_score, reciprocal_rank_fusion}
use torque_finder.Retrieval.Fusion.Scores.{terms, total, fusion-scores, fusion-ranked}
use torque_finder.Retrieval.Rerank.{
  tokens as question_tokens, product_key, is_empty, rerank_by_title, rerank_by_product,
  rerank_within_doc,
}
use torque_finder.Retrieval.Rerank.Order.{
  rerank_by_title-Before, rerank_by_product-Before, product-forgets_title,
}
use torque_finder.Retrieval.Rerank.Bounds.{
  EarnsBonus, rerank_within_doc-Before, rerank_within_doc-by_score,
}
use torque_finder.Retrieval.Documents.{
  doc_le, min_from, select_leader_chunk, score_pages, aggregate_to_documents,
  select_leading_document,
}
use torque_finder.Retrieval.Documents.Scores.{page_terms, aggregate-scores}
use torque_finder.Retrieval.Documents.Leading.{
  IsLeast, select_leader_chunk-IsLeast, select_leading_document-best,
}
use torque_finder.Retrieval.Assemble.{assemble_candidates}
use torque_finder.Retrieval.Assemble.Closest.{IsNew, scored, assemble_candidates-closest}
use torque_finder.Tests.Data.{ascii, order, half, hit_at, page}

abbrev channels : List (List (ℕ × ℤ))
channels = ((7, half) ∷ (8, half) ∷ []) ∷ ((8, half) ∷ []) ∷ []

fusion-scores_example :
    In (hit_at 7 16393442) (reciprocal_rank_fusion channels 60)
    ↔ (total none (terms 60 7 channels) ≡ some (pos 16393442))
fusion-scores_example = fusion-scores channels 60 (hit_at 7 16393442)

fusion-ranked_example :
    Distinct (ids (reciprocal_rank_fusion channels 60))
    × IsSorted by_score (reciprocal_rank_fusion channels 60)
fusion-ranked_example = fusion-ranked channels 60

abbrev first_hit : FusedHit
first_hit = hit_at 7 50000000

abbrev second_hit : FusedHit
second_hit = hit_at 8 10000000

abbrev hits : List FusedHit
hits = first_hit ∷ second_hit ∷ []

abbrev pages : Dict ℕ ChunkMeta
pages = (7, page 7 1 3 "cap") ∷ (8, page 8 1 4 "bolt") ∷ []

rerank_by_title-Before_example :
    Before first_hit second_hit (rerank_by_title "pike bolt" hits ((8, "pike") ∷ []))
rerank_by_title-Before_example =
    rerank_by_title-Before "pike bolt" hits ((8, "pike") ∷ []) first_hit second_hit
      (inl (refl, inl refl)) refl

abbrev pike_facet : ProductMeta
pike_facet = record { family = some "pike"; brand = none }

rerank_by_product-Before_example :
    Before first_hit second_hit (rerank_by_product "pike bolt" hits ((8, pike_facet) ∷ []))
rerank_by_product-Before_example =
    rerank_by_product-Before "pike bolt" hits ((8, pike_facet) ∷ []) first_hit second_hit
      (inl (refl, inl refl)) refl

pike_asked : is_identified (extract_query_scope "pike bolt") ≡ true
unfolding extract_query_scope is_identified specific detect_brand detect_family is_brand
    guide_is_product is_variant is_genre tokens scan lower contains
pike_asked = refl

-- The title of the second hit shares the token, and the first hit wins by its score.
abbrev close_hits : List FusedHit
close_hits = hit_at 7 10000001 ∷ hit_at 8 10000000 ∷ []

product_gap :
    fixed.fle
      (product_key (extract_query_scope "pike bolt") [] (hit_at 7 10000001))
      (product_key (extract_query_scope "pike bolt") [] (hit_at 8 10000000))
    ≡ false
unfolding product_key get
product_gap = refl

product-forgets_title_example :
    Before
      (hit_at 7 10000001)
      (hit_at 8 10000000)
      (rerank_by_product "pike bolt" (rerank_by_title "pike bolt" close_hits ((8, "pike") ∷ [])) [])
product-forgets_title_example =
    product-forgets_title "pike bolt" close_hits ((8, "pike") ∷ []) [] (hit_at 7 10000001)
      (hit_at 8 10000000) pike_asked (inl refl) (inr (inl refl)) product_gap

no_torque : (qs : List String) → ¬ EarnsBonus qs pages 1 8
unfolding get search_in torque_pattern many many1
no_torque qs e =
    let t : search_in torque_pattern "bolt" ≡ true =
      subst (λ (m : ChunkMeta). search_in torque_pattern m.text ≡ true)
        (sym (some-injective _ _ e.known)) e.torque in
    absurd (false≢true t)

rerank_within_doc-Before_example :
    Before first_hit second_hit (rerank_within_doc "pike bolt" hits pages 1)
rerank_within_doc-Before_example =
    rerank_within_doc-Before "pike bolt" hits pages 1 first_hit second_hit (inl (refl, inl refl))
      refl (no_torque (question_tokens "pike bolt"))

some_tokens : is_empty (question_tokens "pike bolt") ≡ false
unfolding question_tokens tokens scan lower
some_tokens = refl

rerank_within_doc-by_score_example :
    Before first_hit second_hit
      (rerank_within_doc "pike bolt" (second_hit ∷ first_hit ∷ []) pages 1)
rerank_within_doc-by_score_example =
    rerank_within_doc-by_score "pike bolt" (second_hit ∷ first_hit ∷ []) pages 1 first_hit
      second_hit some_tokens (inr (inl refl)) (inl refl) (no_torque (question_tokens "pike bolt"))
      refl

aggregate-scores_example :
    In (1, pos 32522474) (aggregate_to_documents hits pages)
    ↔ (total none (page_terms pages 1 hits 1) ≡ some (pos 32522474))
aggregate-scores_example = aggregate-scores pages hits 1 (pos 32522474)

leader_run : select_leader_chunk hits ≡ some first_hit
unfolding select_leader_chunk min_from
leader_run = refl

select_leader_chunk-IsLeast_example : IsLeast hits first_hit
select_leader_chunk-IsLeast_example = select_leader_chunk-IsLeast hits first_hit leader_run

leading_run : select_leading_document hits pages ≡ some 1
unfolding select_leading_document aggregate_to_documents score_pages get sort_by put
leading_run = refl

select_leading_document-best_example :
    (score : ℤ) × In (1, score) (aggregate_to_documents hits pages)
    × All (λ d. doc_le (1, score) d ≡ true) (aggregate_to_documents hits pages)
select_leading_document-best_example = select_leading_document-best hits pages 1 leading_run

abbrev around : List ChunkMeta
around = page 8 1 4 "bolt" ∷ page 9 1 5 "ring" ∷ []

assemble_candidates-closest_example :
    (added : List ChunkMeta) × IsNew (7 ∷ 8 ∷ []) around 3 added
    × (assemble_candidates hits around 3 half 5 ≡ hits ++ take 3 (scored half 1 added))
assemble_candidates-closest_example = assemble_candidates-closest hits around 3 half 5
