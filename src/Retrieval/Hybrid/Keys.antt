-- ===== src/Retrieval/Hybrid/Keys.antt =====
-- The chunk ids that `hybrid_search` returns.
use torque_finder.Retrieval.Fusion.Scores.{fusion-ranked}
use torque_finder.Retrieval.Assemble.Budget.{assemble_candidates-Distinct}
use torque_finder.Retrieval.Fusion.{reciprocal_rank_fusion, rrf_k}
use torque_finder.Domain.Chunk.{RetrievedChunk}
use torque_finder.Domain.Outcome.{Returns, Returns->>=, Returns-any, Returns-wrap, Returns-of}
use torque_finder.Domain.Errors.{ok, wrap, retrieval_error, ◌>>=◌}
use torque_finder.Prelude.Int.{ℤ, sub_ℕ, pos}
use torque_finder.Text.Regex.{CharTables}
use torque_finder.ProductMatch.Scopes.{extract_query_scope}
use torque_finder.Prelude.{
  ℕ, String, ◌≡◌, inl, inr, some, List, [], ◌∷◌, arith, Bool-cases, string_eq, nat_eq, subst,
  Option, take-Distinct, if◌then◌else◌, ◌&&◌, ltb, take, ◌+◌, none,
}
use torque_finder.Prelude.{map, Distinct}
use torque_finder.Prelude.{Dict}
use torque_finder.Prelude.Sort.{sort_by-Distinct}
use torque_finder.Retrieval.Assemble.Budget.{assemble_candidates-Distinct}
use torque_finder.Retrieval.Fusion.Scores.{fusion-ranked}
use torque_finder.Floats.{Floats}
use torque_finder.ProductMatch.Sets.{HashOrder}
use torque_finder.ProductMatch.Scopes.{extract_query_scope}
use torque_finder.Retrieval.Hits.{ProductMeta, FusedHit, ids, ChunkMeta}
use torque_finder.Retrieval.Rerank.{
  tokens, title_key, product_key, by_key, rerank_by_title, rerank_by_product, rerank_within_doc,
  fastener_key, is_empty,
}
use torque_finder.Retrieval.Hybrid.Rows.{
  Row, rows_from, neighbor_metas, Backend, map_rows, chunk_meta, search_channels,
}
use torque_finder.Retrieval.Hybrid.Stages.{
  rerank_pool, expand, from_rows, hybrid_search, with_meta, select_anchor,
}
use torque_finder.Retrieval.Hybrid.Hydration.{
  IsKeyed, rows_from-IsKeyed, empty-IsKeyed, neighbor_metas-ids, hydrate-Distinct,
}

module _ ⦃fl : Floats⦄ where
  open fl use {Float}

  module _ ⦃h : HashOrder⦄ (query_text : String) where
    rerank_by_title-Distinct :
        (fused : List FusedHit) (titles : Dict ℕ String)
        → Distinct (ids fused)
        → Distinct (ids (rerank_by_title query_text fused titles))
    unfolding rerank_by_title
    rerank_by_title-Distinct fused titles d = ground (
      arith,
      sort_by-Distinct (by_key (title_key (tokens query_text) titles)) (λ hit. hit.chunk_id) fused
          d,
    )

    rerank_by_product-Distinct :
        (fused : List FusedHit) (facets : Dict ℕ ProductMeta)
        → Distinct (ids fused)
        → Distinct (ids (rerank_by_product query_text fused facets))
    unfolding rerank_by_product
    rerank_by_product-Distinct fused facets d = ground (
      arith,
      sort_by-Distinct (by_key (product_key (extract_query_scope query_text) facets))
          (λ hit. hit.chunk_id) fused d,
    )

    rerank_pool-Distinct :
        (fused : List FusedHit) (rows : Dict ℕ Row)
        → Distinct (ids fused)
        → Distinct (ids (rerank_pool query_text fused rows))
    unfolding rerank_pool
    rerank_pool-Distinct fused rows d =
        rerank_by_product-Distinct _ _ (rerank_by_title-Distinct fused _ d)

    module _ ⦃u : CharTables⦄ where
      rerank_within_doc-Distinct :
          (fused : List FusedHit) (meta : Dict ℕ ChunkMeta) (doc : ℕ)
          → Distinct (ids fused)
          → Distinct (ids (rerank_within_doc query_text fused meta doc))
      unfolding rerank_within_doc
      rerank_within_doc-Distinct fused meta doc d = ground (
        arith,
        sort_by-Distinct (by_key (fastener_key (tokens query_text) meta doc)) (λ hit. hit.chunk_id)
            fused d,
      )

  module _ ⦃h : HashOrder⦄ ⦃u : CharTables⦄ (db : Backend) (query_text : String)
      (top_k page_window max_candidates : ℕ)
      (primary_key : (doc : ℕ) (lo hi : ℤ) (rows : List Row)
        → db.neighbor_rows doc lo hi ≡ ok rows
        → Distinct (map (λ r. r.chunk_id) rows)) where
    expand-Distinct :
        (base : List FusedHit) (meta : Dict ℕ ChunkMeta) (anchor : Option (FusedHit × ChunkMeta))
        → Distinct (ids base)
        → Returns
            (λ r. Distinct (ids r.0))
            (expand db query_text base meta page_window max_candidates anchor)
    unfolding expand
    expand-Distinct base meta none d = take-Distinct (λ hit. hit.chunk_id) max_candidates base d
    expand-Distinct base meta (some (leader, m)) d =
        elim (Bool-cases (m.is_pdf && ltb 0 page_window)) [
          | inl e ↦ rw e (
              Returns->>= {A = List Row} {B = List FusedHit × List Row}
                (λ rows. Distinct (map (λ r. r.chunk_id) rows)) (λ r. Distinct (ids r.0))
                (wrap (retrieval_error "Failed to load leader-doc neighbor rows") (
                  db.neighbor_rows m.document_id (sub_ℕ m.ordinal page_window)
                    (pos (m.ordinal + page_window))))
                _
                (Returns-wrap {A = List Row} (λ rows. Distinct (map (λ r. r.chunk_id) rows))
                  (retrieval_error "Failed to load leader-doc neighbor rows") _
                  (Returns-of {A = List Row} _
                    (db.neighbor_rows m.document_id (sub_ℕ m.ordinal page_window)
                      (pos (m.ordinal + page_window)))
                    (primary_key m.document_id (sub_ℕ m.ordinal page_window)
                      (pos (m.ordinal + page_window)))))
                (λ rows distinct.
                  assemble_candidates-Distinct
                    (rerank_within_doc query_text base meta m.document_id) (neighbor_metas rows)
                    m.ordinal leader.score max_candidates
                    (rerank_within_doc-Distinct query_text base meta m.document_id d)
                    (rw (neighbor_metas-ids rows) distinct)))
          | inr e ↦ rw e (take-Distinct (λ hit. hit.chunk_id) max_candidates base d)
        ]

    from_rows-Distinct :
        (fused : List FusedHit) (rows : Dict ℕ Row)
        → IsKeyed rows
        → Distinct (ids fused)
        → Returns
            (λ chunks. Distinct (map (λ c. c.chunk_id) chunks))
            (from_rows db query_text top_k page_window max_candidates fused rows)
    unfolding from_rows
    from_rows-Distinct fused rows keyed d =
        let pool = rerank_pool query_text fused rows in
        let meta = map_rows chunk_meta rows in
        let base = take top_k pool in
        Returns->>= {A = List FusedHit × List Row} {B = List RetrievedChunk}
          (λ r. Distinct (ids r.0)) (λ chunks. Distinct (map (λ c. c.chunk_id) chunks)) _ _
          (expand-Distinct base meta (with_meta meta (select_anchor base pool meta)) (
            take-Distinct (λ hit. hit.chunk_id) top_k pool
              (rerank_pool-Distinct query_text fused rows d)))
          (λ r distinct.
            hydrate-Distinct rows (rows_from [] r.1) keyed (rows_from-IsKeyed [] r.1 empty-IsKeyed)
              r.0 distinct)

    -- If no chunk is twice among the rows of a neighbor query, a search that returns, returns no
    -- chunk twice.
    pub hybrid_search-Distinct :
        (per_channel_k : ℕ) (chunks : List RetrievedChunk)
        → hybrid_search db query_text top_k per_channel_k page_window max_candidates ≡ ok chunks
        → Distinct (map (λ c. c.chunk_id) chunks)
    unfolding hybrid_search
    hybrid_search-Distinct per_channel_k chunks e = subst (Returns P) e (
        Returns->>= (λ v. Unit) P (db.embed_query query_text) _ (Returns-any _)
          (λ embedding _.
            Returns->>= (λ cs. Unit) P (search_channels db query_text embedding per_channel_k) _
              (Returns-any _)
              (λ channels _.
                from (reciprocal_rank_fusion channels rrf_k) (fusion-ranked channels rrf_k).0)))
      where
        P : List RetrievedChunk → Type 0
        P cs = Distinct (map (λ c. c.chunk_id) cs)

        from :
            (fused : List FusedHit)
            → Distinct (ids fused)
            → Returns P (
                if is_empty fused
                then ok []
                else (wrap
                      (retrieval_error "Failed to load fused chunk rows")
                      (db.chunk_rows (ids fused))
                    >>= λ rows.
                        from_rows db query_text top_k page_window max_candidates fused
                          (rows_from [] rows)))
        from [] d = tt
        from (hit ∷ fused) d =
            Returns->>= (λ rows. Unit) P
              (wrap (retrieval_error "Failed to load fused chunk rows")
                (db.chunk_rows (ids (hit ∷ fused))))
              _ (Returns-any _)
              (λ rows _.
                from_rows-Distinct (hit ∷ fused) (rows_from [] rows)
                  (rows_from-IsKeyed [] rows empty-IsKeyed) d)
