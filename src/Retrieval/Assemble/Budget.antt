-- ===== src/Retrieval/Assemble/Budget.antt =====
-- The candidates that `_assemble_candidates` returns: the base, then the closest neighbors.
use torque_finder.Prelude.Sort.{sort_by-Distinct, In-map-sort_by}
use mathlib.Core.List.{append-nil, append_assoc, map, map-append}
use torque_finder.Prelude.{
  ℕ, zero, suc, ◌+◌, ◌-◌, ◌≡◌, refl, sym, ap, ◌∙◌, inl, inr, List, [], ◌∷◌, ◌++◌, arith, Bool-cases,
  length, take, leb, string_eq, nat_eq, In, Distinct, ◌≤◌, true, keep, not, ◌↔◌, filter-Distinct,
  subst, In-map-take, Distinct-append, take-Distinct,
}
use torque_finder.Prelude.{length-take, length-append}
use torque_finder.Floats.{Floats}
use torque_finder.Retrieval.Hits.{ChunkMeta, FusedHit, ids}
use torque_finder.Retrieval.Assemble.{
  ordered_neighbors, neighbor_hit, append_neighbors, assemble_candidates, id_in, nearer,
}

pub id_in_iff : (xs : List ℕ) (n : ℕ) → (id_in xs n ≡ true) ↔ In n xs
id_in_iff [] n = (λ h. cc, λ h. absurd h)
id_in_iff (x ∷ xs) n = (λ h. ground (arith, id_in_iff xs n), λ h. ground (arith, id_in_iff xs n))

module _ ⦃fl : Floats⦄ where
  open fl use {Float}

  -- All neighbors as hits, by their ranks.
  abbrev pub neighbor_hits : Float → ℕ → List ChunkMeta → List FusedHit
  neighbor_hits anchor_score rank [] = []
  neighbor_hits anchor_score rank (n ∷ ns) =
      neighbor_hit anchor_score rank n ∷ neighbor_hits anchor_score (rank + 1) ns

  take-nil : (n : ℕ) → take {A = FusedHit} n [] ≡ []
  take-nil zero = refl
  take-nil (suc n) = refl

  append_neighbors-take :
      (anchor_score : Float) (budget : ℕ) (kept : List FusedHit) (rank : ℕ) (ns : List ChunkMeta)
      → append_neighbors anchor_score budget kept rank ns
        ≡ kept ++ take (budget - length kept) (neighbor_hits anchor_score rank ns)
  unfolding append_neighbors
  append_neighbors-take s budget kept rank [] =
      sym (ap (◌++◌ kept) (take-nil (budget - length kept)) ∙ append-nil kept)
  append_neighbors-take s budget kept rank (n ∷ ns) =
      let hit = neighbor_hit s rank n in
      elim (Bool-cases (leb budget (length kept))) [
        | inl full ↦
            let z : budget - length kept ≡ 0 = ground arith in
            rw full (rw z (sym (append-nil kept)))
        | inr room ↦
            let z : budget - length kept ≡ suc (budget - length (kept ++ (hit ∷ []))) =
              ground (arith, length-append kept (hit ∷ [])) in
            rw room (
              rw z (
                append_neighbors-take s budget (kept ++ (hit ∷ [])) (rank + 1) ns
                ∙ append_assoc kept (hit ∷ [])
                    (take (budget - length (kept ++ (hit ∷ []))) (neighbor_hits s (rank + 1) ns))))
      ]

  -- The candidates are the base, cut to the budget, and behind it as many of the new neighbors
  -- as fit, closest to the anchor first.
  pub assemble_candidates-take :
      (base : List FusedHit) (neighbors : List ChunkMeta) (anchor : ℕ) (s : Float) (budget : ℕ)
      → assemble_candidates base neighbors anchor s budget
        ≡ take budget base
          ++ take
              (budget - length base)
              (neighbor_hits s 1 (ordered_neighbors (ids (take budget base)) neighbors anchor))
  unfolding assemble_candidates
  assemble_candidates-take base neighbors anchor s budget =
      let kept = take budget base in
      let more = neighbor_hits s 1 (ordered_neighbors (ids kept) neighbors anchor) in
      let same : budget - length base ≡ budget - length kept =
        omega (arith, length-take budget base) in
      elim (Bool-cases (leb budget (length kept))) [
        | inl full ↦
            let z : budget - length base ≡ 0 = ground (arith, length-take budget base) in
            rw full (rw z (sym (append-nil kept)))
        | inr room ↦ rw room (
            append_neighbors-take s budget kept 1 (ordered_neighbors (ids kept) neighbors anchor)
            ∙ ap (λ k. kept ++ take k more) (sym same))
      ]

  -- Never more candidates than the budget.
  pub length-assemble_candidates :
      (base : List FusedHit) (neighbors : List ChunkMeta) (anchor : ℕ) (s : Float) (budget : ℕ)
      → length (assemble_candidates base neighbors anchor s budget) ≤ budget
  length-assemble_candidates base neighbors anchor s budget =
      let kept = take budget base in
      let more =
        take (budget - length base)
          (neighbor_hits s 1 (ordered_neighbors (ids kept) neighbors anchor)) in
      rw (assemble_candidates-take base neighbors anchor s budget) (
        omega (
          arith,
          length-append kept more,
          length-take budget base,
          length-take (budget - length base)
              (neighbor_hits s 1 (ordered_neighbors (ids kept) neighbors anchor)),
        ))

  ids-neighbor_hits :
      (s : Float) (rank : ℕ) (ns : List ChunkMeta)
      → ids (neighbor_hits s rank ns) ≡ map (λ n. n.chunk_id) ns
  ids-neighbor_hits s rank [] = refl
  ids-neighbor_hits s rank (n ∷ ns) = ap (◌∷◌ n.chunk_id) (ids-neighbor_hits s (rank + 1) ns)

  In-map-keep_absent :
      (present : List ℕ) (n : ℕ) (ns : List ChunkMeta)
      → In n (map (λ m. m.chunk_id) (keep (λ m. not (id_in present m.chunk_id)) ns))
      → ¬ In n present
  In-map-keep_absent present n [] h k = absurd h
  In-map-keep_absent present n (m ∷ ns) h k =
      ground (arith, In-map-keep_absent present n ns, id_in_iff present n)

  -- No chunk is a candidate twice, if none is twice in the base or among the neighbors.
  pub assemble_candidates-Distinct :
      (base : List FusedHit) (neighbors : List ChunkMeta) (anchor : ℕ) (s : Float) (budget : ℕ)
      → Distinct (ids base)
      → Distinct (map (λ n. n.chunk_id) neighbors)
      → Distinct (ids (assemble_candidates base neighbors anchor s budget))
  assemble_candidates-Distinct base neighbors anchor s budget hb hn =
      rw (assemble_candidates-take base neighbors anchor s budget, map-append)
        (Distinct-append (ids kept) (ids (take (budget - length base) (neighbor_hits s 1 new)))
          (take-Distinct (λ h. h.chunk_id) budget base hb)
          (take-Distinct (λ h. h.chunk_id) (budget - length base) (neighbor_hits s 1 new)
            (rw (ids-neighbor_hits s 1 new) new_Distinct))
          apart)
    where
      kept : List FusedHit
      kept = take budget base

      new : List ChunkMeta
      new = ordered_neighbors (ids kept) neighbors anchor

      new_Distinct : Distinct (map (λ n. n.chunk_id) new)
      new_Distinct =
          unfold ordered_neighbors in
          sort_by-Distinct (nearer anchor) (λ n. n.chunk_id) _
            (filter-Distinct (λ n. n.chunk_id) (λ n. not (id_in (ids kept) n.chunk_id)) neighbors
              hn)

      apart :
          (i : ℕ)
          → In i (ids kept)
          → ¬ In i (ids (take (budget - length base) (neighbor_hits s 1 new)))
      apart i m k =
          let k' : In i (map (λ n. n.chunk_id) new) =
            subst (In i) (ids-neighbor_hits s 1 new)
              (In-map-take (λ h. h.chunk_id) i (budget - length base) (neighbor_hits s 1 new) k) in
          In-map-keep_absent (ids kept) i neighbors
            (unfold ordered_neighbors in In-map-sort_by (nearer anchor) (λ n. n.chunk_id) i _ k') m
