-- ===== src/Retrieval/Hybrid/Rows.antt =====
-- The rows of the two chunk queries, the two channels, and the hydration of the candidates.
use torque_finder.Prelude.{
  ℕ, String, true, Option, none, some, List, [], ◌∷◌, if◌then◌else◌, string_eq, nat_eq,
}
use torque_finder.Prelude.{Dict, get, put}
use torque_finder.Prelude.Int.{ℤ}
use torque_finder.Floats.{Floats}
use torque_finder.Domain.Errors.{
  retrieval_error, is_retrieval_error, Result, ok, raised, ◌>>=◌, wrap,
}
use torque_finder.Domain.Chunk.{SourceType, is_pdf, RetrievedChunk, hybrid}
use torque_finder.Retrieval.Hits.{ChunkMeta, ProductMeta, FusedHit}

-- A row of `_LOAD_CHUNKS_SQL` or `_LOAD_DOC_NEIGHBORS_SQL`. The database admits only the two
-- source types.
pub record Row : Type 0 where
  pub chunk_id : ℕ
  pub document_id : ℕ
  pub ordinal : ℕ
  pub text : String
  pub png_r2_key : Option String
  pub anchor : Option String
  pub parent_anchor : Option String
  pub source_url : String
  pub source_type : SourceType
  pub document_title : String
  pub document_source_url : String
  pub product_family : Option String
  pub brand : Option String

-- `{int(row.chunk_id): row for row in result}`
abbrev pub rows_from : Dict ℕ Row → List Row → Dict ℕ Row
rows_from rows [] = rows
rows_from rows (row ∷ more) = rows_from (put rows row.chunk_id row) more

-- `{cid: f(row) for cid, row in rows.items()}`
abbrev pub map_rows : {B : Type 0} → (ℕ → Row → B) → Dict ℕ Row → Dict ℕ B
map_rows f [] = []
map_rows f ((cid, row) ∷ rows) = (cid, f cid row) ∷ map_rows f rows

-- The `_ChunkMeta` of a row of the pool.
abbrev pub chunk_meta : ℕ → Row → ChunkMeta
chunk_meta cid row = record {
  chunk_id = cid;
  document_id = row.document_id;
  ordinal = row.ordinal;
  text = row.text;
  is_pdf = is_pdf row.source_type;
}

-- The `_ChunkMeta` of a row of the neighbor query.
abbrev pub neighbor_meta : Row → ChunkMeta
neighbor_meta row = record {
  chunk_id = row.chunk_id;
  document_id = row.document_id;
  ordinal = row.ordinal;
  text = row.text;
  is_pdf = true;
}

abbrev pub product_meta : ℕ → Row → ProductMeta
product_meta cid row = record { family = row.product_family; brand = row.brand }

abbrev pub neighbor_metas : List Row → List ChunkMeta
neighbor_metas [] = []
neighbor_metas (row ∷ rows) = neighbor_meta row ∷ neighbor_metas rows

module _ ⦃fl : Floats⦄ where
  open fl use {Float}

  -- What the session's statements and the embedding client answer.
  pub record Backend : Type 0 where
    pub embed_query : String → Result (List Float)
    pub keyword_rows : String → ℕ → Result (List (ℕ × Float))
    pub vector_rows : List Float → ℕ → Result (List (ℕ × Float))
    pub chunk_rows : List ℕ → Result (List Row)
    pub neighbor_rows : (doc_id : ℕ) (lo hi : ℤ) → Result (List Row)

  -- `keyword_search`
  unfoldable pub keyword_search : Backend → String → ℕ → Result (List (ℕ × Float))
  keyword_search db query_text top_k =
      wrap (retrieval_error "Keyword search query failed") (db.keyword_rows query_text top_k)

  -- `vector_search`
  unfoldable pub vector_search : Backend → List Float → ℕ → Result (List (ℕ × Float))
  vector_search db query_embedding top_k =
      wrap (retrieval_error "Vector search query failed") (db.vector_rows query_embedding top_k)

  -- `except RetrievalError: raise` and `except Exception`.
  abbrev pub reraise {ℓ} : {A : Type ℓ} → Result A → Result A
  reraise (ok a) = ok a
  reraise (raised e) =
      raised (if is_retrieval_error e then e else retrieval_error "Hybrid retrieval channel failed")

  -- The first `try`: both channels, one after the other.
  unfoldable pub search_channels :
      Backend → String → List Float → ℕ → Result (List (List (ℕ × Float)))
  unfolding keyword_search vector_search
  search_channels db query_text query_embedding per_channel_k = reraise do
    keyword_hits ← keyword_search db query_text per_channel_k
    vector_hits ← vector_search db query_embedding per_channel_k
    ok (keyword_hits ∷ vector_hits ∷ [])

  -- `_row_to_retrieved`
  unfoldable pub row_to_retrieved : Row → Float → RetrievedChunk
  row_to_retrieved row score = record {
    chunk_id = row.chunk_id;
    document_id = row.document_id;
    source_type = row.source_type;
    document_title = row.document_title;
    document_source_url = row.document_source_url;
    ordinal = row.ordinal;
    text = row.text;
    png_r2_key = row.png_r2_key;
    anchor = row.anchor;
    parent_anchor = row.parent_anchor;
    source_url = row.source_url;
    score = score;
    source = hybrid;
    product_family = row.product_family;
    brand = row.brand;
  }

  -- The row of a candidate: one of the pool, else one of the neighbors.
  abbrev pub find_row : Dict ℕ Row → Dict ℕ Row → ℕ → Option Row
  find_row rows neighbor_rows cid = elim (get rows cid) [
    | some row ↦ some row
    | none ↦ get neighbor_rows cid
  ]

  -- The last loop: candidates without a row are left out.
  unfoldable pub hydrate : Dict ℕ Row → Dict ℕ Row → List FusedHit → List RetrievedChunk
  unfolding row_to_retrieved
  hydrate rows neighbor_rows [] = []
  hydrate rows neighbor_rows (hit ∷ assembled) =
      let rest = hydrate rows neighbor_rows assembled in
      elim (find_row rows neighbor_rows hit.chunk_id) [
        | none ↦ rest
        | some row ↦ row_to_retrieved row hit.score ∷ rest
      ]
