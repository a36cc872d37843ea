-- ===== src/Retrieval/Hybrid/Stages.antt =====
-- The stages of `hybrid_search`, in the order of its body.
use torque_finder.Prelude.{
  ℕ, ◌+◌, String, Bool, false, ◌&&◌, Option, none, some, List, [], if◌then◌else◌, take, keep, first,
  ltb, ◌==◌, string_eq, nat_eq,
}
use torque_finder.Prelude.{Dict, get}
use torque_finder.Prelude.Int.{pos, sub_ℕ}
use torque_finder.Floats.{Floats}
use torque_finder.Text.Regex.{CharTables}
use torque_finder.Domain.Errors.{retrieval_error, Result, ok, ◌>>=◌, wrap}
use torque_finder.Domain.Chunk.{RetrievedChunk}
use torque_finder.ProductMatch.Sets.{HashOrder}
use torque_finder.Retrieval.Hits.{ChunkMeta, FusedHit, ids}
use torque_finder.Retrieval.Fusion.{reciprocal_rank_fusion, rrf_k}
use torque_finder.Retrieval.Rerank.{rerank_by_title, rerank_by_product, rerank_within_doc, is_empty}
use torque_finder.Retrieval.Documents.{select_leader_chunk, select_leading_document}
use torque_finder.Retrieval.Assemble.{assemble_candidates}
use torque_finder.Retrieval.Hybrid.Rows.{
  Row, Backend, rows_from, map_rows, chunk_meta, product_meta, neighbor_metas, search_channels,
  hydrate,
}

module _ ⦃fl : Floats⦄ where
  -- The title rerank, then the product rerank.
  unfoldable pub rerank_pool : ⦃h : HashOrder⦄ → String → List FusedHit → Dict ℕ Row → List FusedHit
  rerank_pool query_text fused rows =
      rerank_by_product query_text
        (rerank_by_title query_text fused (map_rows (λ cid row. row.document_title) rows))
        (map_rows product_meta rows)

  -- `(m := meta.get(hit.chunk_id)) is not None and m.document_id == leading_doc_id`
  abbrev pub owned_by : Dict ℕ ChunkMeta → ℕ → FusedHit → Bool
  owned_by meta doc hit = elim (get meta hit.chunk_id) [
    | none ↦ false
    | some m ↦ m.document_id == doc
  ]

  -- The anchor: the leader among the base pages of the leading document, else its first page in
  -- the pool.
  unfoldable pub select_anchor : List FusedHit → List FusedHit → Dict ℕ ChunkMeta → Option FusedHit
  select_anchor base fused meta = elim (select_leading_document fused meta) [
    | none ↦ none
    | some doc ↦ elim (select_leader_chunk (keep (owned_by meta doc) base)) [
      | some leader ↦ some leader
      | none ↦ first (owned_by meta doc) fused
    ]
  ]

  -- `leader is not None and (leader_meta := meta.get(leader.chunk_id)) is not None`
  abbrev pub with_meta : Dict ℕ ChunkMeta → Option FusedHit → Option (FusedHit × ChunkMeta)
  with_meta meta none = none
  with_meta meta (some leader) = elim (get meta leader.chunk_id) [
    | none ↦ none
    | some m ↦ some (leader, m)
  ]

  -- The expansion around the anchor, or the base cut to the budget. The rows of the neighbors
  -- come with the candidates.
  unfoldable pub expand :
      ⦃u : CharTables⦄
      → Backend
      → String
      → List FusedHit
      → Dict ℕ ChunkMeta
      → ℕ
      → ℕ
      → Option (FusedHit × ChunkMeta)
      → Result (List FusedHit × List Row)
  expand db query_text base meta page_window max_candidates none = ok (take max_candidates base, [])
  expand db query_text base meta page_window max_candidates (some (leader, leader_meta)) =
      if leader_meta.is_pdf && ltb 0 page_window
      then (wrap (retrieval_error "Failed to load leader-doc neighbor rows") (
            db.neighbor_rows leader_meta.document_id (sub_ℕ leader_meta.ordinal page_window)
              (pos (leader_meta.ordinal + page_window)))
          >>= λ rows. ok (
            assemble_candidates (rerank_within_doc query_text base meta leader_meta.document_id)
                (neighbor_metas rows) leader_meta.ordinal leader.score max_candidates,
            rows,
          ))
      else ok (take max_candidates base, [])

  -- From the loaded rows on.
  unfoldable pub from_rows :
      ⦃h : HashOrder⦄ ⦃u : CharTables⦄
      → Backend
      → String
      → ℕ
      → ℕ
      → ℕ
      → List FusedHit
      → Dict ℕ Row
      → Result (List RetrievedChunk)
  from_rows db query_text top_k page_window max_candidates fused rows = do
    let pool = rerank_pool query_text fused rows
    let meta = map_rows chunk_meta rows
    let base = take top_k pool
    (assembled, neighbors) ←
        expand db query_text base meta page_window max_candidates
          (with_meta meta (select_anchor base pool meta))
    ok (hydrate rows (rows_from [] neighbors) assembled)

  -- `hybrid_search`
  unfoldable pub hybrid_search :
      ⦃h : HashOrder⦄ ⦃u : CharTables⦄
      → Backend
      → (query_text : String) (top_k per_channel_k page_window max_candidates : ℕ)
      → Result (List RetrievedChunk)
  hybrid_search db query_text top_k per_channel_k page_window max_candidates = do
    query_embedding ← db.embed_query query_text
    channels ← search_channels db query_text query_embedding per_channel_k
    let fused = reciprocal_rank_fusion channels rrf_k
    if is_empty fused then ok [] else (do
      rows ← wrap (retrieval_error "Failed to load fused chunk rows") (db.chunk_rows (ids fused))
      from_rows db query_text top_k page_window max_candidates fused (rows_from [] rows))
