-- ===== src/Retrieval/Assemble/Closest.antt =====
-- What `_assemble_candidates` appends to the base, said of the neighbors themselves.
use torque_finder.Retrieval.Assemble.Budget.{neighbor_hits, id_in_iff, assemble_candidates-take}
use torque_finder.Prelude.{
  refl, ℕ, ◌+◌, ◌-◌, ◌≤◌, ◌<◌, ◌≡◌, ◌↔◌, ◌⊎◌, true, false, List, [], ◌∷◌, arith, All, All-weaken,
  string_eq, nat_eq, Bool, In, keep, length, not, ap, In-keep, In_keep, take, ◌∙◌, ◌++◌, ◌==◌,
}
use torque_finder.Prelude.Sort.{length-keep-sort_by, IsSorted, sort_by-In, sort_by-IsSorted}
use torque_finder.Retrieval.Hits.{ChunkMeta}
use torque_finder.Retrieval.Assemble.{
  nearer, ordered_neighbors, Floats, FusedHit, id_in, rerank_bonus, ids, assemble_candidates,
  neighbor_hit,
}

-- How many pages a neighbor is away from the anchor.
abbrev pub gap : ℕ → ChunkMeta → ℕ
gap anchor n = (n.ordinal - anchor) + (anchor - n.ordinal)

-- A neighbor is closer than another, or as close and on no later page.
abbrev pub NotFurther : ℕ → ChunkMeta → ChunkMeta → Type 0
NotFurther anchor a b =
    (gap anchor a < gap anchor b) ⊎ ((gap anchor a ≡ gap anchor b) × (a.ordinal ≤ b.ordinal))

abbrev pub IsClosestFirst : ℕ → List ChunkMeta → Type 0
IsClosestFirst anchor [] = Unit
IsClosestFirst anchor (n ∷ ns) = All (NotFurther anchor n) ns × IsClosestFirst anchor ns

nearer_iff : (anchor : ℕ) (a b : ChunkMeta) → (nearer anchor a b ≡ true) ↔ NotFurther anchor a b
nearer_iff anchor a b = (λ h. ground arith, λ h. ground arith)

nearer_total : (anchor : ℕ) (a b : ChunkMeta) → nearer anchor a b ≡ false → nearer anchor b a ≡ true
nearer_total anchor a b h = ground arith

nearer_trans :
    (anchor : ℕ) (a b c : ChunkMeta)
    → nearer anchor a b ≡ true
    → nearer anchor b c ≡ true
    → nearer anchor a c ≡ true
nearer_trans anchor a b c h k = ground arith

IsSorted-IsClosestFirst :
    (anchor : ℕ) (ns : List ChunkMeta) → IsSorted (nearer anchor) ns → IsClosestFirst anchor ns
IsSorted-IsClosestFirst anchor [] h = tt
IsSorted-IsClosestFirst anchor (n ∷ ns) h =
    (All-weaken _ _ ns (λ m. (nearer_iff anchor n m).0) h.0, IsSorted-IsClosestFirst anchor ns h.1)

length-keep-keep :
    (p q : ChunkMeta → Bool) (ns : List ChunkMeta)
    → length (keep p (keep q ns)) ≤ length (keep p ns)
length-keep-keep p q [] = omega arith
length-keep-keep p q (n ∷ ns) = ground (arith, length-keep-keep p q ns)

-- The neighbors behind the base: those that are not in it, none more often than it was found,
-- and closest to the anchor first.
pub record IsNew (present : List ℕ) (neighbors : List ChunkMeta) (anchor : ℕ)
    (added : List ChunkMeta) : Type 0 where
  pub members : (n : ChunkMeta) → In n added ↔ (In n neighbors × ¬ In n.chunk_id present)
  pub no_copies :
      (i : ℕ)
      → length (keep (λ n. n.chunk_id == i) added) ≤ length (keep (λ n. n.chunk_id == i) neighbors)
  pub closest_first : IsClosestFirst anchor added

ordered_neighbors-IsNew :
    (present : List ℕ) (neighbors : List ChunkMeta) (anchor : ℕ)
    → IsNew present neighbors anchor (ordered_neighbors present neighbors anchor)
unfolding ordered_neighbors
ordered_neighbors-IsNew present neighbors anchor = record {
  members = λ n. (
    λ m.
        let k = In-keep new n neighbors ((sort_by-In (nearer anchor) n (keep new neighbors)).0 m) in
        (k.0, λ i. ground (arith, k.1, id_in_iff present n.chunk_id)),
    λ m.
        (sort_by-In (nearer anchor) n (keep new neighbors)).1
          (In_keep new n neighbors m.0 (ground (arith, m.1, id_in_iff present n.chunk_id))),
  );
  no_copies = λ i. omega (
    arith,
    length-keep-sort_by (nearer anchor) (λ n. n.chunk_id == i) (keep new neighbors),
    length-keep-keep (λ n. n.chunk_id == i) new neighbors,
  );
  closest_first = IsSorted-IsClosestFirst anchor _ (
      sort_by-IsSorted (nearer anchor) (nearer_total anchor) (nearer_trans anchor)
        (keep new neighbors));
}
  where
    new : ChunkMeta → Bool
    new n = not (id_in present n.chunk_id)

module _ ⦃fl : Floats⦄ where
  open fl use {Float, fsub, times}

  -- The neighbors as hits: the chunk, and the anchor's score less its rank times the bonus.
  abbrev pub scored : Float → ℕ → List ChunkMeta → List FusedHit
  scored anchor_score rank [] = []
  scored anchor_score rank (n ∷ ns) =
      record { chunk_id = n.chunk_id; score = fsub anchor_score (times rank rerank_bonus) }
      ∷ scored anchor_score (rank + 1) ns

  neighbor_hits-scored :
      (s : Float) (rank : ℕ) (ns : List ChunkMeta) → neighbor_hits s rank ns ≡ scored s rank ns
  neighbor_hits-scored s rank [] = refl
  neighbor_hits-scored s rank (n ∷ ns) =
      ap (◌∷◌ (neighbor_hit s rank n)) (neighbor_hits-scored s (rank + 1) ns)

  -- The candidates are the base, cut to the budget, and behind it as many as fit of the neighbors
  -- that are not in it, closest to the anchor first, each with the anchor's score less its rank
  -- times the bonus.
  pub assemble_candidates-closest :
      (base : List FusedHit) (neighbors : List ChunkMeta) (anchor : ℕ) (s : Float) (budget : ℕ)
      → (added : List ChunkMeta) × IsNew (ids (take budget base)) neighbors anchor added
        × (assemble_candidates base neighbors anchor s budget
            ≡ take budget base ++ take (budget - length base) (scored s 1 added))
  assemble_candidates-closest base neighbors anchor s budget = (
    ordered_neighbors (ids (take budget base)) neighbors anchor,
    ordered_neighbors-IsNew (ids (take budget base)) neighbors anchor,
    assemble_candidates-take base neighbors anchor s budget
        ∙ ap (λ hits. take budget base ++ take (budget - length base) hits)
            (neighbor_hits-scored s 1
              (ordered_neighbors (ids (take budget base)) neighbors anchor)),
  )
