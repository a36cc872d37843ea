-- ===== src/Retrieval/Hybrid/Hydration.antt =====
-- The ids of the rows, and of the chunks that the last loop of `hybrid_search` returns.
use torque_finder.Domain.Chunk.{RetrievedChunk}
use torque_finder.Prelude.{
  ℕ, ◌≡◌, refl, ap, inl, inr, some, List, [], ◌∷◌, arith, Bool-cases, In, ◌==◌, string_eq, nat_eq,
  Option-cases, subst, none, sym,
}
use torque_finder.Prelude.{map, get-put, Distinct}
use torque_finder.Prelude.{Dict, get, put}
use torque_finder.Floats.{Floats}
use torque_finder.Retrieval.Hits.{FusedHit, ids}
use torque_finder.Retrieval.Hybrid.Rows.{
  Row, rows_from, neighbor_metas, hydrate, find_row, row_to_retrieved,
}

-- Each key is the chunk id of its row.
abbrev pub IsKeyed : Dict ℕ Row → Type 0
IsKeyed rows = (cid : ℕ) (row : Row) → get rows cid ≡ some row → row.chunk_id ≡ cid

pub rows_from-IsKeyed :
    (rows : Dict ℕ Row) (more : List Row) → IsKeyed rows → IsKeyed (rows_from rows more)
rows_from-IsKeyed rows [] h = h
rows_from-IsKeyed rows (row ∷ more) h =
    rows_from-IsKeyed (put rows row.chunk_id row) more (λ cid r e.
      elim (Bool-cases (row.chunk_id == cid)) [
        | inl q ↦
            ground (arith, nat_eq.test_iff row.chunk_id cid, get-put rows row.chunk_id cid row)
        | inr q ↦ h cid r (ground (arith, get-put rows row.chunk_id cid row))
      ])

pub empty-IsKeyed : IsKeyed []
unfolding get
empty-IsKeyed cid row e = cc

pub neighbor_metas-ids :
    (rows : List Row) → map (λ n. n.chunk_id) (neighbor_metas rows) ≡ map (λ r. r.chunk_id) rows
neighbor_metas-ids [] = refl
neighbor_metas-ids (row ∷ rows) = ap (◌∷◌ row.chunk_id) (neighbor_metas-ids rows)

module _ ⦃fl : Floats⦄ where
  open fl use {Float}

  find_row-IsKeyed :
      (rows neighbors : Dict ℕ Row)
      → IsKeyed rows
      → IsKeyed neighbors
      → (cid : ℕ) (row : Row) → find_row rows neighbors cid ≡ some row
      → row.chunk_id ≡ cid
  find_row-IsKeyed rows neighbors h k cid row e = elim (Option-cases (get rows cid)) [
    | inl z ↦ k cid row (ground arith)
    | inr (r, z) ↦ h cid row (ground arith)
  ]

  hydrate-In :
      (rows neighbors : Dict ℕ Row)
      → IsKeyed rows
      → IsKeyed neighbors
      → (hits : List FusedHit) (cid : ℕ)
      → In cid (map (λ c. c.chunk_id) (hydrate rows neighbors hits))
      → In cid (ids hits)
  unfolding hydrate
  hydrate-In rows neighbors h k [] cid m = m
  hydrate-In rows neighbors h k (hit ∷ hits) cid m =
      elim (Option-cases (find_row rows neighbors hit.chunk_id)) [
        | inl z ↦ ground (arith, hydrate-In rows neighbors h k hits cid)
        | inr (r, z) ↦ ground (
          arith,
          hydrate-In rows neighbors h k hits cid,
          find_row-IsKeyed rows neighbors h k hit.chunk_id r z,
        )
      ]

  hydrate-none :
      (rows neighbors : Dict ℕ Row) (hit : FusedHit) (hits : List FusedHit)
      → find_row rows neighbors hit.chunk_id ≡ none
      → hydrate rows neighbors (hit ∷ hits) ≡ hydrate rows neighbors hits
  unfolding hydrate
  hydrate-none rows neighbors hit hits z = ground arith

  hydrate-some :
      (rows neighbors : Dict ℕ Row) (hit : FusedHit) (hits : List FusedHit) (r : Row)
      → find_row rows neighbors hit.chunk_id ≡ some r
      → hydrate rows neighbors (hit ∷ hits)
        ≡ row_to_retrieved r hit.score ∷ hydrate rows neighbors hits
  unfolding hydrate
  hydrate-some rows neighbors hit hits r z = ground arith

  Once : List RetrievedChunk → Type 0
  Once cs = Distinct (map (λ c. c.chunk_id) cs)

  pub hydrate-Distinct :
      (rows neighbors : Dict ℕ Row)
      → IsKeyed rows
      → IsKeyed neighbors
      → (hits : List FusedHit) → Distinct (ids hits)
      → Distinct (map (λ c. c.chunk_id) (hydrate rows neighbors hits))
  unfolding hydrate row_to_retrieved Once
  hydrate-Distinct rows neighbors h k [] d = tt
  hydrate-Distinct rows neighbors h k (hit ∷ hits) d =
      elim (Option-cases (find_row rows neighbors hit.chunk_id)) [
        | inl z ↦
            subst Once (sym (hydrate-none rows neighbors hit hits z))
              (hydrate-Distinct rows neighbors h k hits d.1)
        | inr (r, z) ↦ subst Once (sym (hydrate-some rows neighbors hit hits r z)) (
          λ m. d.0 (
              subst (λ i. In i (ids hits)) (find_row-IsKeyed rows neighbors h k hit.chunk_id r z)
                (hydrate-In rows neighbors h k hits _ m)),
          hydrate-Distinct rows neighbors h k hits d.1,
        )
      ]
