-- ===== src/Retrieval/Documents/Scores.antt =====
-- The aggregated score of each document, described independently of the loop.
use torque_finder.Prelude.{
  ℕ, ◌+◌, ◌≡◌, refl, sym, ap, ◌∙◌, ◌↔◌, Bool, false, Option, none, some, List, [], ◌∷◌, arith,
  if◌then◌else◌, In, ◌==◌, string_eq, nat_eq,
}
use torque_finder.Prelude.{Dict, Distinct, keys, get, get-put, keys-put-Distinct, get-In, In-get}
use torque_finder.Prelude.Sort.{sort_by-In}
use torque_finder.Floats.{Floats}
use torque_finder.Retrieval.Hits.{ChunkMeta, FusedHit}
use torque_finder.Retrieval.Fusion.Scores.{total}
use torque_finder.Retrieval.Documents.{
  rank_agg_k, score_page, score_pages, doc_le, aggregate_to_documents,
}

module _ ⦃fl : Floats⦄ (meta : Dict ℕ ChunkMeta) where
  open fl use {Float, fadd, recip}

  -- The chunk belongs to the document.
  abbrev pub belongs : ℕ → Option ChunkMeta → Bool
  belongs doc none = false
  belongs doc (some m) = m.document_id == doc

  -- The terms `1 / (RANK_AGG_K + rank)` of the hits of one document, by their ranks in the list.
  abbrev pub page_terms : ℕ → List FusedHit → ℕ → List Float
  page_terms doc [] rank = []
  page_terms doc (hit ∷ hits) rank =
      let rest = page_terms doc hits (rank + 1) in
      if belongs doc (get meta hit.chunk_id) then recip (rank_agg_k + rank) ∷ rest else rest

  total-score_page :
      (scores : Dict ℕ Float) (rank doc : ℕ) (m : Option ChunkMeta) (rest : List Float)
      → total (get (score_page scores rank m) doc) rest
        ≡ total (get scores doc) (if belongs doc m then recip (rank_agg_k + rank) ∷ rest else rest)
  total-score_page scores rank doc none rest = refl
  total-score_page scores rank doc (some m) rest =
      ap (λ o. total o rest) (get-put scores m.document_id doc _) ∙ ground arith

  get-score_pages :
      (scores : Dict ℕ Float) (rank : ℕ) (fused : List FusedHit) (doc : ℕ)
      → get (score_pages meta scores rank fused) doc
        ≡ total (get scores doc) (page_terms doc fused rank)
  unfolding score_pages
  get-score_pages scores rank [] doc = refl
  get-score_pages scores rank (hit ∷ hits) doc =
      get-score_pages (score_page scores rank (get meta hit.chunk_id)) (rank + 1) hits doc
      ∙ total-score_page scores rank doc (get meta hit.chunk_id) (page_terms doc hits (rank + 1))

  score_page-Distinct :
      (scores : Dict ℕ Float) (rank : ℕ) (m : Option ChunkMeta)
      → Distinct (keys scores)
      → Distinct (keys (score_page scores rank m))
  score_page-Distinct scores rank none h = h
  score_page-Distinct scores rank (some m) h = keys-put-Distinct scores m.document_id _ h

  score_pages-Distinct :
      (scores : Dict ℕ Float) (rank : ℕ) (fused : List FusedHit)
      → Distinct (keys scores)
      → Distinct (keys (score_pages meta scores rank fused))
  unfolding score_pages
  score_pages-Distinct scores rank [] h = h
  score_pages-Distinct scores rank (hit ∷ hits) h =
      score_pages-Distinct (score_page scores rank (get meta hit.chunk_id)) (rank + 1) hits
        (score_page-Distinct scores rank (get meta hit.chunk_id) h)

  -- A document is in the aggregate exactly when it owns a hit, and its score is the sum of
  -- `1 / (RANK_AGG_K + rank)` over the ranks of its hits.
  pub aggregate-scores :
      (fused : List FusedHit) (doc : ℕ) (score : Float)
      → In (doc, score) (aggregate_to_documents fused meta)
        ↔ (total none (page_terms doc fused 1) ≡ some score)
  unfolding aggregate_to_documents get
  aggregate-scores fused doc score = (
    λ m.
        sym (get-score_pages [] 1 fused doc)
        ∙ get-In scores doc score (score_pages-Distinct [] 1 fused tt)
            ((sort_by-In doc_le (doc, score) scores).0 m),
    λ e.
        (sort_by-In doc_le (doc, score) scores).1
          (In-get scores doc score (get-score_pages [] 1 fused doc ∙ e)),
  )
    where
      scores : Dict ℕ Float
      scores = score_pages meta [] 1 fused
