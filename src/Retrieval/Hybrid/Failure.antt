-- ===== src/Retrieval/Hybrid/Failure.antt =====
-- What `hybrid_search` raises.
use torque_finder.Prelude.{
  ℕ, String, ◌≡◌, refl, subst, inl, inr, true, ◌&&◌, Option, none, some, List, [], ◌∷◌,
  if◌then◌else◌, Bool-cases, take, ltb, string_eq, nat_eq, ◌+◌,
}
use torque_finder.Prelude.{Dict}
use torque_finder.Prelude.Int.{pos, sub_ℕ}
use torque_finder.Floats.{Floats}
use torque_finder.Domain.Chunk.{RetrievedChunk}
use torque_finder.Text.Regex.{CharTables}
use torque_finder.ProductMatch.Sets.{HashOrder}
use torque_finder.Domain.Errors.{
  Exn, retrieval_error, is_retrieval_error, Result, ok, raised, ◌>>=◌, wrap,
}
use torque_finder.Retrieval.Hits.{ChunkMeta, FusedHit, ids}
use torque_finder.Retrieval.Fusion.{reciprocal_rank_fusion, rrf_k}
use torque_finder.Retrieval.Rerank.{is_empty}
use torque_finder.Retrieval.Hybrid.Rows.{
  Row, Backend, rows_from, map_rows, chunk_meta, reraise, keyword_search, vector_search,
  search_channels,
}
use torque_finder.Retrieval.Hybrid.Stages.{
  rerank_pool, select_anchor, with_meta, expand, from_rows, hybrid_search,
}
use torque_finder.Domain.Outcome.{RaisesRetrieval, RaisesRetrieval->>=, RaisesRetrieval-wrap}

RaisesRetrieval-of :
    {A : Type 0}
    → (m : Result A) → ((e : Exn) → m ≡ raised e → is_retrieval_error e ≡ true)
    → RaisesRetrieval m
RaisesRetrieval-of (ok a) h = tt
RaisesRetrieval-of (raised e) h = h e refl

module _ ⦃fl : Floats⦄ where
  open fl use {Float}

  RaisesRetrieval-reraise : {A : Type 0} → (m : Result A) → RaisesRetrieval (reraise m)
  RaisesRetrieval-reraise (ok a) = tt
  RaisesRetrieval-reraise (raised e) = elim (Bool-cases (is_retrieval_error e)) [
    | inl q ↦ rw q q
    | inr q ↦ rw q refl
  ]

  module _ ⦃h : HashOrder⦄ ⦃u : CharTables⦄ (db : Backend) (query_text : String)
      (top_k page_window max_candidates : ℕ) where
    expand-RaisesRetrieval :
        (base : List FusedHit) (meta : Dict ℕ ChunkMeta) (anchor : Option (FusedHit × ChunkMeta))
        → RaisesRetrieval (expand db query_text base meta page_window max_candidates anchor)
    unfolding expand
    expand-RaisesRetrieval base meta none = tt
    expand-RaisesRetrieval base meta (some (leader, m)) =
        elim (Bool-cases (m.is_pdf && ltb 0 page_window)) [
          | inl e ↦ rw e (
              RaisesRetrieval->>= {A = List Row} {B = List FusedHit × List Row}
                (wrap (retrieval_error "Failed to load leader-doc neighbor rows") (
                  db.neighbor_rows m.document_id (sub_ℕ m.ordinal page_window)
                    (pos (m.ordinal + page_window))))
                _ (RaisesRetrieval-wrap "Failed to load leader-doc neighbor rows" _) (λ rows. tt))
          | inr e ↦ rw e tt
        ]

    from_rows-RaisesRetrieval :
        (fused : List FusedHit) (rows : Dict ℕ Row)
        → RaisesRetrieval (from_rows db query_text top_k page_window max_candidates fused rows)
    unfolding from_rows
    from_rows-RaisesRetrieval fused rows =
        let pool = rerank_pool query_text fused rows in
        let meta = map_rows chunk_meta rows in
        let base = take top_k pool in
        RaisesRetrieval->>= {A = List FusedHit × List Row} {B = List RetrievedChunk} _ _
          (expand-RaisesRetrieval base meta (with_meta meta (select_anchor base pool meta)))
          (λ r. tt)

    search_channels-RaisesRetrieval :
        (embedding : List Float) (per_channel_k : ℕ)
        → RaisesRetrieval (search_channels db query_text embedding per_channel_k)
    unfolding search_channels
    search_channels-RaisesRetrieval embedding per_channel_k =
        RaisesRetrieval-reraise {A = List (List (ℕ × Float))} do
          keyword_hits ← keyword_search db query_text per_channel_k
          vector_hits ← vector_search db embedding per_channel_k
          ok (keyword_hits ∷ vector_hits ∷ [])

    -- If the embedding client raises nothing but retrieval errors, neither does the search,
    -- whatever its four statements raise.
    pub hybrid_search-raises :
        ((text : String) (e : Exn) → db.embed_query text ≡ raised e → is_retrieval_error e ≡ true)
        → (per_channel_k : ℕ) (e : Exn)
        → hybrid_search db query_text top_k per_channel_k page_window max_candidates ≡ raised e
        → is_retrieval_error e ≡ true
    unfolding hybrid_search
    hybrid_search-raises embeds per_channel_k e q = subst RaisesRetrieval q (
        RaisesRetrieval->>= {A = List Float} {B = List RetrievedChunk} (db.embed_query query_text) _
          (RaisesRetrieval-of _ (embeds query_text))
          (λ embedding.
            RaisesRetrieval->>= {A = List (List (ℕ × Float))} {B = List RetrievedChunk}
              (search_channels db query_text embedding per_channel_k) _
              (search_channels-RaisesRetrieval embedding per_channel_k)
              (λ channels. from (reciprocal_rank_fusion channels rrf_k))))
      where
        from :
            (fused : List FusedHit)
            → RaisesRetrieval (
                if is_empty fused
                then ok []
                else (wrap
                      (retrieval_error "Failed to load fused chunk rows")
                      (db.chunk_rows (ids fused))
                    >>= λ rows.
                        from_rows db query_text top_k page_window max_candidates fused
                          (rows_from [] rows)))
        from [] = tt
        from (hit ∷ fused) =
            RaisesRetrieval->>= {A = List Row} {B = List RetrievedChunk}
              (wrap (retrieval_error "Failed to load fused chunk rows")
                (db.chunk_rows (ids (hit ∷ fused))))
              _
              (RaisesRetrieval-wrap "Failed to load fused chunk rows"
                (db.chunk_rows (ids (hit ∷ fused))))
              (λ rows. from_rows-RaisesRetrieval (hit ∷ fused) (rows_from [] rows))
