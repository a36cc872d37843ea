-- ===== src/Retrieval/Assemble.antt =====
-- `_assemble_candidates`
pub mod Budget
pub mod Closest
use torque_finder.Prelude.{
  ℕ, zero, suc, ◌+◌, ◌-◌, ◌*◌, ◌≤◌, ◌<◌, String, ◌≡◌, ◌≢◌, refl, sym, ap, ◌∙◌, subst, ◌↔◌, ◌⊎◌, inl,
  inr, Bool, true, false, not, ◌&&◌, ◌||◌, Option, none, some, List, [], ◌∷◌, ◌++◌, arith, eq_iff,
  if◌then◌else◌, Bool-cases, Option-cases, length, take, any, all, keep, first, In, Before, All,
  is_some, is_none, leb, ltb, ◌==◌, string_eq, nat_eq,
}
use torque_finder.Prelude.{Dict, get, map}
use torque_finder.Prelude.Sort.{sort_by}
use torque_finder.Floats.{Floats}
use torque_finder.Retrieval.Hits.{ChunkMeta, FusedHit, ids}
use torque_finder.Retrieval.Rerank.{rerank_bonus}

-- `n in s`, for a set of ids
abbrev pub id_in : List ℕ → ℕ → Bool
id_in s n = any (λ i. i == n) s

-- `abs(a - b)`
abbrev pub distance : ℕ → ℕ → ℕ
distance a b = if leb a b then b - a else a - b

-- `key=lambda n: (abs(n.ordinal - anchor_ordinal), n.ordinal)`
abbrev pub nearer : ℕ → ChunkMeta → ChunkMeta → Bool
nearer anchor a b =
    let da = distance a.ordinal anchor in
    let db = distance b.ordinal anchor in if da == db then leb a.ordinal b.ordinal else ltb da db

-- The neighbors that are not in the base, closest first.
unfoldable pub ordered_neighbors : List ℕ → List ChunkMeta → ℕ → List ChunkMeta
ordered_neighbors present neighbors anchor =
    sort_by (nearer anchor) (keep (λ n. not (id_in present n.chunk_id)) neighbors)

module _ ⦃fl : Floats⦄ where
  open fl use {Float, fsub, times}

  -- The display score of the neighbor with a rank.
  abbrev pub neighbor_hit : Float → ℕ → ChunkMeta → FusedHit
  neighbor_hit anchor_score rank n = record {
    chunk_id = n.chunk_id;
    score = fsub anchor_score (times rank rerank_bonus);
  }

  -- The loop over the ordered neighbors, which stops when the budget is full.
  pub append_neighbors : Float → ℕ → List FusedHit → ℕ → List ChunkMeta → List FusedHit
  append_neighbors anchor_score max_candidates kept rank [] = kept
  append_neighbors anchor_score max_candidates kept rank (n ∷ ns) =
      let rest =
        append_neighbors anchor_score max_candidates
          (kept ++ (neighbor_hit anchor_score rank n ∷ [])) (rank + 1) ns in
      if leb max_candidates (length kept) then kept else rest

  unfoldable pub assemble_candidates :
      List FusedHit → List ChunkMeta → ℕ → Float → ℕ → List FusedHit
  unfolding append_neighbors
  assemble_candidates base neighbors anchor_ordinal anchor_score max_candidates =
      let kept = take max_candidates base in
      let extended =
        append_neighbors anchor_score max_candidates kept 1
          (ordered_neighbors (ids kept) neighbors anchor_ordinal) in
      if leb max_candidates (length kept) then kept else extended
