-- ===== src/Indexing/Mining.antt =====
-- `scan_chunks_matching` of indexing/repository.py.
pub mod Limits
use torque_finder.Prelude.{
  ℕ, suc, String, Bool, not, ◌&&◌, ◌||◌, Option, none, some, List, [], ◌∷◌, ◌++◌, length, take,
  keep, is_some, leb, ltb, ◌==◌, string_eq, nat_eq,
}
use torque_finder.Prelude.{map}
use torque_finder.Prelude.Sort.{sort_by}
use torque_finder.Floats.{Floats}
use torque_finder.Domain.Documents.{MinedChunk}
use torque_finder.Indexing.Store.{Postgres, Document, Chunk, Store}

module _ ⦃fl : Floats⦄ where
  -- A row of the join of `chunks` and `documents`.
  pub record Joined : Type 0 where
    pub chunk : Chunk
    pub document : Document

  abbrev pub same_document : ℕ → Joined → Bool
  same_document document_id r = r.chunk.document_id == document_id

  -- The rows of `chunks` with each row of `documents` that has their id.
  abbrev pub join_documents : List Document → List Chunk → List Joined
  join_documents docs [] = []
  join_documents docs (c ∷ cs) =
      map (λ d. record { chunk = c; document = d }) (keep (λ d. d.id == c.document_id) docs)
      ++ join_documents docs cs

  -- The `where` clauses.
  abbrev pub selects : ⦃db : Postgres⦄ → String → Option String → Joined → Bool
  selects ⦃db⦄ pattern none r = db.matches pattern r.chunk.text
  selects ⦃db⦄ pattern (some exclude) r =
      db.matches pattern r.chunk.text && not (db.ilike exclude r.document.title)

  -- `row_number() over (partition by document_id order by ordinal)` of rows in the order of
  -- their ordinals: `seen` are the rows before.
  unfoldable pub numbered : List Joined → List Joined → List (ℕ × Joined)
  numbered seen [] = []
  numbered seen (r ∷ rs) =
      (suc (length (keep (same_document r.chunk.document_id) seen)), r) ∷ numbered (r ∷ seen) rs

  abbrev pub by_ordinal : Joined → Joined → Bool
  by_ordinal a b = leb a.chunk.ordinal b.chunk.ordinal

  -- `order_by(rn, document_id)`
  abbrev pub by_number : ℕ × Joined → ℕ × Joined → Bool
  by_number a b = ltb a.0 b.0 || (a.0 == b.0) && leb (a.1).chunk.document_id (b.1).chunk.document_id

  abbrev pub mined : ℕ × Joined → MinedChunk
  mined (rn, r) = record {
    chunk_id = r.chunk.id;
    document_id = r.chunk.document_id;
    document_title = r.document.title;
    source_type = r.document.source_type;
    ordinal = r.chunk.ordinal;
    has_png = is_some r.chunk.png_r2_key;
    source_url = r.chunk.source_url;
    text = r.chunk.text;
  }

  unfoldable pub scan_chunks_matching :
      ⦃db : Postgres⦄
      → String
      → (exclude_title_ilike : Option String) → (per_document_limit limit : ℕ) → Store
      → List MinedChunk
  scan_chunks_matching pattern exclude_title_ilike per_document_limit limit s =
      let ranked = numbered [] (
        sort_by by_ordinal
          (keep (selects pattern exclude_title_ilike) (join_documents s.documents s.chunks))) in
      map mined (take limit (sort_by by_number (keep (λ x. leb x.0 per_document_limit) ranked)))
