-- ===== src/Ingestion/HtmlPipeline/Insertion.antt =====
-- When the replacement of the chunks of a document succeeds.
use torque_finder.Prelude.Keys.{any_iff_In}
use torque_finder.Indexing.Store.Valid.{document_ids}
use torque_finder.Prelude.{
  ℕ, suc, ◌≡◌, refl, sym, ap, ◌∙◌, subst, inl, inr, Bool, true, false, ◌&&◌, List, [], ◌∷◌, arith,
  Bool-cases, length, keep, ◌==◌, string_eq, nat_eq, opt_eq, if◌then◌else◌, ◌<◌, ◌||◌, All-weaken,
}
use torque_finder.Prelude.{map}
use torque_finder.Floats.{Floats}
use torque_finder.Domain.Errors.{ok, ◌>>=◌, Result}
use torque_finder.Domain.Documents.{HtmlChunk}
use torque_finder.Indexing.Store.{
  Postgres, Chunk, Store, add_chunk, fits_vector, fits_columns, text_or_null, same_place,
  with_chunk, Document,
}
use torque_finder.Indexing.Repository.{insert_chunk, delete_chunks}
use torque_finder.Ingestion.HtmlPipeline.{replace_chunks, All, insert_chunks, any, In}
use torque_finder.Ingestion.HtmlPipeline.Inserted.{
  of_document, Ascending, other_chunks, Below, row_of, keep-rest, Below-step,
}

module _ ⦃fl : Floats⦄ where
  open fl use {Float}

  no_place :
      (row : Chunk) (cs : List Chunk)
      → All (λ c. c.ordinal < row.ordinal) (keep (of_document row.document_id) cs)
      → any (λ c. same_place c row) cs ≡ false
  no_place row [] b = refl
  no_place row (c ∷ cs) b = elim (Bool-cases (c.document_id == row.document_id)) [
    | inl e ↦ rw e (apart (split e b).0 (no_place row cs (split e b).1))
    | inr e ↦ rw e (no_place row cs (split e b))
  ]
    where
      rest : List Chunk
      rest = keep (of_document row.document_id) cs

      split :
          {q : Bool}
          → (c.document_id == row.document_id) ≡ q
          → All (λ c. c.ordinal < row.ordinal) (keep (of_document row.document_id) (c ∷ cs))
          → All (λ c. c.ordinal < row.ordinal) (if q then c ∷ rest else rest)
      split e b = subst (λ q. All (λ c. c.ordinal < row.ordinal) (if q then c ∷ rest else rest)) e b

      apart :
          c.ordinal < row.ordinal
          → any (λ c. same_place c row) cs ≡ false
          → (true && (c.ordinal == row.ordinal) || any (λ c. same_place c row) cs) ≡ false
      apart l n = ground (arith, n, nat_eq.test_iff c.ordinal row.ordinal)

  add_chunk-free :
      ⦃db : Postgres⦄ (row : Chunk) (s : Store)
      → fits_columns row ≡ true
      → ¬ In row.id (map (λ c. c.id) s.chunks)
      → Below row.document_id row.ordinal s
      → In row.document_id (document_ids s)
      → add_chunk row s ≡ ok (with_chunk row s)
  unfolding add_chunk
  add_chunk-free row s f n b d = ground (
    arith,
    f,
    any_iff_In (λ (c : Chunk). c.id) row.id s.chunks,
    no_place row s.chunks b,
    any_iff_In (λ (d : Document). d.id) row.document_id s.documents,
  )

  -- The id that `insert_chunk` returns.
  abbrev returned : ℕ → Result Store → Result (Store × ℕ)
  returned i m = m >>= λ s. ok (s, i)

  -- Postgres takes the texts of a chunk.
  abbrev pub takes : ⦃db : Postgres⦄ → HtmlChunk → Bool
  takes ⦃db⦄ c =
      db.storable c.text
      && db.indexable c.text
      && db.storable c.source_url
      && text_or_null c.anchor
      && text_or_null c.parent_anchor

  takes-fits :
      ⦃db : Postgres⦄ (i : ℕ) (c : HtmlChunk) (e : List Float) (s : Store)
      → takes c ≡ true
      → fits_vector e ≡ true
      → fits_columns (row_of i c e s) ≡ true
  unfolding fits_columns
  takes-fits i c e s t f = ground (arith, t, f)

  insert_chunks-succeeds :
      ⦃db : Postgres⦄ (i n : ℕ) (cs : List HtmlChunk) (es : List (List Float)) (s : Store)
      → Below i n s
      → Ascending n cs
      → In i (document_ids s)
      → length es ≡ length cs
      → All (λ e. fits_vector e ≡ true) es
      → All (λ c. takes c ≡ true) cs
      → (s' : Store) × (insert_chunks i cs es s ≡ ok s')
  unfolding insert_chunks insert_chunk
  insert_chunks-succeeds i n [] [] s b a d l f t = (s, refl)
  insert_chunks-succeeds i n [] (e ∷ es) s b a d l f t = ground (arith, l)
  insert_chunks-succeeds i n (c ∷ cs) [] s b a d l f t = ground (arith, l)
  insert_chunks-succeeds ⦃db⦄ i n (c ∷ cs) (e ∷ es) s b a d l f t =
      let row = row_of i c e s in
      let below =
        All-weaken (λ c'. c'.ordinal < n) (λ c'. c'.ordinal < c.ordinal)
          (keep (of_document i) s.chunks) (λ c' j. omega (arith, a.0)) b in
      let inserted =
        add_chunk-free row s (takes-fits i c e s t.0 f.0)
          (db.next_id_fresh (map (λ c. c.id) s.chunks)) below d in
      let rest =
        insert_chunks-succeeds i (suc c.ordinal) cs es (with_chunk row s)
          (Below-step i n (suc c.ordinal) row s refl b a.0 (omega arith)) a.1 d (omega (arith, l))
          f.1 t.1 in
      (rest.0, ap (λ m. returned row.id m >>= λ p. insert_chunks i cs es p.0) inserted ∙ rest.1)

  pub replace_chunks-succeeds :
      ⦃db : Postgres⦄ (i : ℕ) (cs : List HtmlChunk) (es : List (List Float)) (s : Store)
      → Ascending 1 cs
      → In i (document_ids s)
      → length es ≡ length cs
      → All (λ e. fits_vector e ≡ true) es
      → All (λ c. takes c ≡ true) cs
      → (s' : Store) × (replace_chunks i cs es s ≡ ok s')
  unfolding replace_chunks delete_chunks
  replace_chunks-succeeds i cs es s a d l f t =
      insert_chunks-succeeds i 1 cs es record { documents = s.documents; chunks = other_chunks i s }
        (subst (All (λ c. c.ordinal < 1)) (sym (keep-rest (of_document i) s.chunks)) tt) a d l f t
