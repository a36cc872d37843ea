-- ===== src/Retrieval/Documents.antt =====
-- `_select_leader_chunk`, `_aggregate_to_documents` and `_select_leading_document`.
pub mod Scores
pub mod Leading
use torque_finder.Prelude.{
  ℕ, zero, suc, ◌+◌, ◌-◌, ◌*◌, ◌≤◌, ◌<◌, String, ◌≡◌, ◌≢◌, refl, sym, ap, ◌∙◌, subst, ◌↔◌, ◌⊎◌, inl,
  inr, Bool, true, false, not, ◌&&◌, ◌||◌, Option, none, some, List, [], ◌∷◌, ◌++◌, arith, eq_iff,
  if◌then◌else◌, Bool-cases, Option-cases, length, take, any, all, keep, first, In, Before, All,
  is_some, is_none, leb, ltb, ◌==◌, string_eq, nat_eq,
}
use torque_finder.Prelude.{Dict, get, put}
use torque_finder.Prelude.Sort.{sort_by}
use torque_finder.Floats.{Floats}
use torque_finder.Floats.Order.{fzero, key_le}
use torque_finder.Retrieval.Hits.{ChunkMeta, FusedHit}
use torque_finder.Retrieval.Fusion.{rrf_k, or_else}

-- `RANK_AGG_K`
abbrev pub rank_agg_k : ℕ
rank_agg_k = rrf_k

module _ ⦃fl : Floats⦄ where
  open fl use {Float, fadd, recip}

  -- `(-h.score, h.chunk_id)` as a sort key.
  abbrev pub hit_le : FusedHit → FusedHit → Bool
  hit_le a b = key_le a.score a.chunk_id b.score b.chunk_id

  -- `min` keeps the first of the least: a later value replaces it only if its key is smaller.
  unfoldable pub min_from : FusedHit → List FusedHit → FusedHit
  min_from best [] = best
  min_from best (hit ∷ hits) = min_from (if hit_le best hit then best else hit) hits

  unfoldable pub select_leader_chunk : List FusedHit → Option FusedHit
  unfolding min_from
  select_leader_chunk [] = none
  select_leader_chunk (hit ∷ hits) = some (min_from hit hits)

  -- What one hit adds to the scores of the documents: nothing, if its chunk is unknown.
  abbrev pub score_page : Dict ℕ Float → ℕ → Option ChunkMeta → Dict ℕ Float
  score_page doc_scores rank none = doc_scores
  score_page doc_scores rank (some m) =
      put doc_scores m.document_id
        (fadd (or_else (get doc_scores m.document_id) fzero) (recip (rank_agg_k + rank)))

  -- The loop over the hits, from a rank on.
  unfoldable pub score_pages : Dict ℕ ChunkMeta → Dict ℕ Float → ℕ → List FusedHit → Dict ℕ Float
  score_pages meta doc_scores rank [] = doc_scores
  score_pages meta doc_scores rank (hit ∷ hits) =
      score_pages meta (score_page doc_scores rank (get meta hit.chunk_id)) (rank + 1) hits

  -- `key=lambda kv: (-kv[1], kv[0])`
  abbrev pub doc_le : ℕ × Float → ℕ × Float → Bool
  doc_le (d, s) (e, t) = key_le s d t e

  unfoldable pub aggregate_to_documents : List FusedHit → Dict ℕ ChunkMeta → List (ℕ × Float)
  unfolding score_pages
  aggregate_to_documents fused meta = sort_by doc_le (score_pages meta [] 1 fused)

  abbrev pub first_doc : List (ℕ × Float) → Option ℕ
  first_doc [] = none
  first_doc ((doc, _) ∷ _) = some doc

  unfoldable pub select_leading_document : List FusedHit → Dict ℕ ChunkMeta → Option ℕ
  unfolding aggregate_to_documents
  select_leading_document fused meta = first_doc (aggregate_to_documents fused meta)
