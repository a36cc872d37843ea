-- ===== src/Retrieval/Hybrid/Budget.antt =====
-- The page budget of `hybrid_search`.
use torque_finder.Prelude.{
  ℕ, ◌+◌, ◌≤◌, String, ◌≡◌, subst, inl, inr, ◌&&◌, Option, none, some, List, [], ◌∷◌, arith,
  if◌then◌else◌, Bool-cases, length, take, ltb, string_eq, nat_eq,
}
use torque_finder.Prelude.{length-take}
use torque_finder.Prelude.Int.{pos, sub_ℕ}
use torque_finder.Prelude.{Dict}
use torque_finder.Floats.{Floats}
use torque_finder.Text.Regex.{CharTables}
use torque_finder.ProductMatch.Sets.{HashOrder}
use torque_finder.Domain.Errors.{retrieval_error, ok, wrap, ◌>>=◌}
use torque_finder.Domain.Chunk.{RetrievedChunk}
use torque_finder.Retrieval.Hits.{ChunkMeta, FusedHit, ids}
use torque_finder.Retrieval.Fusion.{reciprocal_rank_fusion, rrf_k}
use torque_finder.Retrieval.Rerank.{is_empty, rerank_within_doc}
use torque_finder.Retrieval.Assemble.Budget.{length-assemble_candidates}
use torque_finder.Retrieval.Hybrid.Rows.{
  Row, Backend, rows_from, map_rows, chunk_meta, neighbor_metas, hydrate, search_channels,
}
use torque_finder.Retrieval.Hybrid.Stages.{
  rerank_pool, select_anchor, with_meta, expand, from_rows, hybrid_search,
}
use torque_finder.Domain.Outcome.{Returns, Returns->>=, Returns-any}

module _ ⦃fl : Floats⦄ where
  open fl use {Float}

  length-hydrate :
      (rows neighbors : Dict ℕ Row) (hits : List FusedHit)
      → length (hydrate rows neighbors hits) ≤ length hits
  unfolding hydrate
  length-hydrate rows neighbors [] = omega arith
  length-hydrate rows neighbors (hit ∷ hits) = ground (arith, length-hydrate rows neighbors hits)

  module _ ⦃h : HashOrder⦄ ⦃u : CharTables⦄ (db : Backend) (query_text : String)
      (top_k page_window max_candidates : ℕ) where
    length-expand :
        (base : List FusedHit) (meta : Dict ℕ ChunkMeta) (anchor : Option (FusedHit × ChunkMeta))
        → Returns
            (λ r. length r.0 ≤ max_candidates)
            (expand db query_text base meta page_window max_candidates anchor)
    unfolding expand
    length-expand base meta none = omega (arith, length-take max_candidates base)
    length-expand base meta (some (leader, m)) = elim (Bool-cases (m.is_pdf && ltb 0 page_window)) [
      | inl e ↦ rw e (
          Returns->>= {A = List Row} {B = List FusedHit × List Row} (λ rows. Unit)
            (λ r. length r.0 ≤ max_candidates)
            (wrap (retrieval_error "Failed to load leader-doc neighbor rows") (
              db.neighbor_rows m.document_id (sub_ℕ m.ordinal page_window)
                (pos (m.ordinal + page_window))))
            _ (Returns-any _)
            (λ rows _.
              length-assemble_candidates (rerank_within_doc query_text base meta m.document_id)
                (neighbor_metas rows) m.ordinal leader.score max_candidates))
      | inr e ↦ rw e (omega (arith, length-take max_candidates base))
    ]

    length-from_rows :
        (fused : List FusedHit) (rows : Dict ℕ Row)
        → Returns
            (λ chunks. length chunks ≤ max_candidates)
            (from_rows db query_text top_k page_window max_candidates fused rows)
    unfolding from_rows
    length-from_rows fused rows =
        let pool = rerank_pool query_text fused rows in
        let meta = map_rows chunk_meta rows in
        let base = take top_k pool in
        Returns->>= {A = List FusedHit × List Row} {B = List RetrievedChunk}
          (λ r. length r.0 ≤ max_candidates) (λ chunks. length chunks ≤ max_candidates) _ _
          (length-expand base meta (with_meta meta (select_anchor base pool meta)))
          (λ r fits. omega (arith, length-hydrate rows (rows_from [] r.1) r.0))

    -- A search that returns, returns at most `max_candidates` chunks.
    pub length-hybrid_search :
        (per_channel_k : ℕ) (chunks : List RetrievedChunk)
        → hybrid_search db query_text top_k per_channel_k page_window max_candidates ≡ ok chunks
        → length chunks ≤ max_candidates
    unfolding hybrid_search
    length-hybrid_search per_channel_k chunks e =
        subst (Returns (λ cs. length cs ≤ max_candidates)) e (
          Returns->>= (λ v. Unit) _ (db.embed_query query_text) _ (Returns-any _)
            (λ embedding _.
              Returns->>= (λ cs. Unit) _ (search_channels db query_text embedding per_channel_k) _
                (Returns-any _) (λ channels _. from (reciprocal_rank_fusion channels rrf_k))))
      where
        from :
            (fused : List FusedHit)
            → Returns
                (λ cs. length cs ≤ max_candidates)
                (if is_empty fused
                  then ok []
                  else (wrap
                        (retrieval_error "Failed to load fused chunk rows")
                        (db.chunk_rows (ids fused))
                      >>= λ rows.
                          from_rows db query_text top_k page_window max_candidates fused
                            (rows_from [] rows)))
        from [] = omega arith
        from (hit ∷ fused) =
            Returns->>= (λ rows. Unit) _
              (wrap (retrieval_error "Failed to load fused chunk rows")
                (db.chunk_rows (ids (hit ∷ fused))))
              _ (Returns-any _) (λ rows _. length-from_rows (hit ∷ fused) (rows_from [] rows))
