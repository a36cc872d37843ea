-- ===== src/Tests/Search.antt =====
-- Whole searches.
use torque_finder.Prelude.{
  ℕ, ◌≤◌, String, ◌≡◌, refl, ap, subst, true, List, [], ◌∷◌, arith, length, string_eq, nat_eq,
}
use torque_finder.Prelude.{Distinct, map, get, put}
use torque_finder.Prelude.Sort.{sort_by}
use torque_finder.Prelude.Int.{ℤ}
use torque_finder.Floats.Fixed.{fixed}
use torque_finder.Text.{lower, scan, tokens, contains}
use torque_finder.Text.Regex.{search_in, torque_pattern, many, many1}
use torque_finder.Domain.Errors.{Exn, Result, ok, raised, retrieval_error, is_retrieval_error}
use torque_finder.Domain.Outcome.{ok-injective}
use torque_finder.Domain.Scope.{is_identified}
use torque_finder.Domain.Chunk.{RetrievedChunk}
use torque_finder.ProductMatch.Guide.{is_variant, is_genre, guide_is_product}
use torque_finder.ProductMatch.Detect.{is_brand, phrase_in, detect_brand, detect_family}
use torque_finder.ProductMatch.Scopes.{specific, extract_query_scope}
use torque_finder.Retrieval.Fusion.{reciprocal_rank_fusion}
use torque_finder.Retrieval.Rerank.{
  tokens as question_tokens, title_boost, title_key, product_delta, product_key, rerank_by_title,
  rerank_by_product, matches_fastener_spec, fastener_key, rerank_within_doc,
}
use torque_finder.Retrieval.Documents.{
  min_from, select_leader_chunk, score_pages, aggregate_to_documents, select_leading_document,
}
use torque_finder.Retrieval.Assemble.{ordered_neighbors, assemble_candidates}
use torque_finder.Retrieval.Hybrid.Rows.{
  Row, keyword_search, vector_search, search_channels, row_to_retrieved, hydrate,
}
use torque_finder.Retrieval.Hybrid.Stages.{
  rerank_pool, select_anchor, expand, from_rows, hybrid_search,
}
use torque_finder.Retrieval.Hybrid.Budget.{length-hybrid_search}
use torque_finder.Retrieval.Hybrid.Keys.{hybrid_search-Distinct}
use torque_finder.Retrieval.Hybrid.Failure.{hybrid_search-raises}
use torque_finder.Tests.Data.{ascii, order, backend, no_embedding}

abbrev chunks_of : Result (List RetrievedChunk) → List RetrievedChunk
chunks_of (ok chunks) = chunks
chunks_of (raised _) = []

-- Two chunks are found, and a third comes from the leading document.
search_run :
    hybrid_search backend "bolt torque" 5 20 2 8
    ≡ ok (chunks_of (hybrid_search backend "bolt torque" 5 20 2 8))
unfolding hybrid_search search_channels keyword_search vector_search reciprocal_rank_fusion sort_by
    get put from_rows rerank_pool rerank_by_title rerank_by_product title_boost title_key
    product_delta product_key extract_query_scope is_identified specific detect_brand detect_family
    is_brand guide_is_product is_variant is_genre question_tokens tokens scan lower contains
    phrase_in expand select_anchor select_leading_document aggregate_to_documents score_pages
    select_leader_chunk min_from rerank_within_doc fastener_key matches_fastener_spec search_in
    torque_pattern many many1 assemble_candidates ordered_neighbors hydrate row_to_retrieved
search_run = refl

found_ids :
    map (λ c. c.chunk_id) (chunks_of (hybrid_search backend "bolt torque" 5 20 2 8))
    ≡ 8 ∷ 7 ∷ 9 ∷ []
unfolding hybrid_search search_channels keyword_search vector_search reciprocal_rank_fusion sort_by
    get put from_rows rerank_pool rerank_by_title rerank_by_product title_boost title_key
    product_delta product_key extract_query_scope is_identified specific detect_brand detect_family
    is_brand guide_is_product is_variant is_genre question_tokens tokens scan lower contains
    phrase_in expand select_anchor select_leading_document aggregate_to_documents score_pages
    select_leader_chunk min_from rerank_within_doc fastener_key matches_fastener_spec search_in
    torque_pattern many many1 assemble_candidates ordered_neighbors hydrate row_to_retrieved
found_ids = refl

length-hybrid_search_example : length (chunks_of (hybrid_search backend "bolt torque" 5 20 2 8)) ≤ 8
length-hybrid_search_example =
    length-hybrid_search backend "bolt torque" 5 2 8 20
      (chunks_of (hybrid_search backend "bolt torque" 5 20 2 8)) search_run

neighbor_keys :
    (doc : ℕ) (lo hi : ℤ) (rows : List Row)
    → backend.neighbor_rows doc lo hi ≡ ok rows
    → Distinct (map (λ r. r.chunk_id) rows)
neighbor_keys doc lo hi rows e =
    subst (λ rs. Distinct (map (λ (r : Row). r.chunk_id) rs)) (ok-injective _ _ e)
      ((λ h. ground (arith, h)), ((λ h. h), tt))

hybrid_search-Distinct_example :
    Distinct (map (λ c. c.chunk_id) (chunks_of (hybrid_search backend "bolt torque" 5 20 2 8)))
hybrid_search-Distinct_example =
    hybrid_search-Distinct backend "bolt torque" 5 2 8 neighbor_keys 20
      (chunks_of (hybrid_search backend "bolt torque" 5 20 2 8)) search_run

embedding_raises :
    (text : String) (e : Exn)
    → no_embedding.embed_query text ≡ raised e
    → is_retrieval_error e ≡ true
embedding_raises text e q = subst (λ x. is_retrieval_error x ≡ true) (ap exn_of q) refl
  where
    exn_of : Result (List ℤ) → Exn
    exn_of (ok _) = retrieval_error ""
    exn_of (raised x) = x

down_run : hybrid_search no_embedding "bolt" 5 20 2 8 ≡ raised (retrieval_error "Voyage")
unfolding hybrid_search
down_run = refl

hybrid_search-raises_example : is_retrieval_error (retrieval_error "Voyage") ≡ true
hybrid_search-raises_example =
    hybrid_search-raises no_embedding "bolt" 5 2 8 embedding_raises 20 (retrieval_error "Voyage")
      down_run
