-- ===== src/Indexing/Mining/Limits.antt =====
-- How many chunks a scan returns.
use torque_finder.Prelude.{
  ℕ, suc, ◌-◌, ◌≤◌, String, ◌≡◌, refl, sym, subst, inl, inr, Option, List, [], ◌∷◌, arith,
  Bool-cases, length, take, keep, leb, ◌==◌, string_eq, nat_eq,
}
use torque_finder.Prelude.{map, length-take, length-keep-take}
use torque_finder.Prelude.Sort.{sort_by, length-keep-sort_by}
use torque_finder.Floats.{Floats}
use torque_finder.Indexing.Store.{Postgres, Store}
use torque_finder.Indexing.Mining.{
  Joined, same_document, numbered, by_number, mined, scan_chunks_matching,
}

module _ ⦃fl : Floats⦄ where
  -- How many rows a document has.
  abbrev count : ℕ → List (ℕ × Joined) → ℕ
  count d xs = length (keep (λ x. same_document d x.1) xs)

  -- Of numbered rows, those with a number up to a limit, less the rows seen before.
  count-numbered :
      (limit d : ℕ) (seen rs : List Joined)
      → count d (keep (λ x. leb x.0 limit) (numbered seen rs))
        ≤ limit - length (keep (same_document d) seen)
  unfolding numbered
  count-numbered limit d seen [] = omega arith
  count-numbered limit d seen (r ∷ rs) = elim (Bool-cases (r.chunk.document_id == d)) [
    | inl e ↦
        subst
          (λ k.
            count d (
              keep (λ x. leb x.0 limit)
                ((suc (length (keep (same_document k) seen)), r) ∷ numbered (r ∷ seen) rs))
            ≤ limit - length (keep (same_document d) seen))
          (sym ((nat_eq.test_iff r.chunk.document_id d).0 e))
          (ground (arith, count-numbered limit d (r ∷ seen) rs))
    | inr e ↦ ground (arith, count-numbered limit d (r ∷ seen) rs)
  ]

  length-map : {A B : Type 0} (f : A → B) (xs : List A) → length (map f xs) ≡ length xs
  length-map f [] = refl
  length-map f (x ∷ xs) = rw (length-map f xs) refl

  count-mined :
      (d : ℕ) (xs : List (ℕ × Joined))
      → length (keep (λ m. m.document_id == d) (map mined xs)) ≡ count d xs
  count-mined d [] = refl
  count-mined d (x ∷ xs) = ground (arith, count-mined d xs)

  -- The page of the rows in order.
  abbrev page : (k n : ℕ) → List Joined → List (ℕ × Joined)
  page k n rs = take n (sort_by by_number (keep (λ x. leb x.0 k) (numbered [] rs)))

  count-page : (k n d : ℕ) (rs : List Joined) → count d (page k n rs) ≤ k
  count-page k n d rs = omega (
    arith,
    length-keep-take (λ (x : ℕ × Joined). same_document d x.1) n
        (sort_by by_number (keep (λ x. leb x.0 k) (numbered [] rs))),
    length-keep-sort_by by_number (λ (x : ℕ × Joined). same_document d x.1)
        (keep (λ x. leb x.0 k) (numbered [] rs)),
    count-numbered k d [] rs,
  )

  length-page : (k n : ℕ) (rs : List Joined) → length (page k n rs) ≤ n
  length-page k n rs =
      omega (arith, length-take n (sort_by by_number (keep (λ x. leb x.0 k) (numbered [] rs))))

  page-limits :
      (k n d : ℕ) (rs : List Joined)
      → (length (map mined (page k n rs)) ≤ n)
        × (length (keep (λ m. m.document_id == d) (map mined (page k n rs))) ≤ k)
  page-limits k n d rs = (
    subst (λ i. i ≤ n) (sym (length-map mined (page k n rs))) (length-page k n rs),
    subst (λ i. i ≤ k) (sym (count-mined d (page k n rs))) (count-page k n d rs),
  )

  -- A scan returns at most `limit` chunks, and of each document at most `per_document_limit`.
  pub scan-limits :
      ⦃db : Postgres⦄ (pattern : String) (exclude : Option String) (per_document_limit limit d : ℕ)
      (s : Store)
      → (length (scan_chunks_matching pattern exclude per_document_limit limit s) ≤ limit)
        × (length (
              keep
                (λ m. m.document_id == d)
                (scan_chunks_matching pattern exclude per_document_limit limit s))
            ≤ per_document_limit)
  unfolding scan_chunks_matching
  scan-limits pattern exclude k n d s = page-limits k n d _
