-- ===== src/Indexing/Store/Valid.antt =====
-- What the constraints of the tables keep true of a store.
use torque_finder.Prelude.{
  ℕ, ◌≡◌, refl, sym, ap, subst, inl, inr, Bool, true, false, List, [], ◌∷◌, arith, if◌then◌else◌,
  any, keep, In, All, string_eq, nat_eq, filter-Distinct,
}
use torque_finder.Prelude.{Distinct, map}
use torque_finder.Prelude.Keys.{any_iff_In}
use torque_finder.Indexing.Table.{integrity_error, update_row, map-update_row}
use torque_finder.Floats.{Floats}
use torque_finder.Domain.Errors.{ok, raised}
use torque_finder.Domain.Outcome.{Returns, Returns-guard}
use torque_finder.Indexing.Store.{
  Postgres, fits_columns, Document, Chunk, Store, empty_store, add_document, update_document,
  add_chunk, same_place, fits_vector, document_conflict, not, chunk_conflict, with_document,
  with_chunk, data_error,
}

module _ ⦃fl : Floats⦄ where
  open fl use {Float}

  abbrev pub document_ids : Store → List ℕ
  document_ids s = map (λ d. d.id) s.documents

  abbrev pub chunk_place : Chunk → ℕ × ℕ
  chunk_place c = (c.document_id, c.ordinal)

  -- The ids, the source refs and the places of chunks are distinct, and each chunk has its
  -- document and an embedding of the column's dimension.
  pub record IsValid (s : Store) : Type 0 where
    pub ids_distinct : Distinct (document_ids s)
    pub refs_distinct : Distinct (map (λ d. d.source_ref) s.documents)
    pub chunk_ids_distinct : Distinct (map (λ c. c.id) s.chunks)
    pub places_distinct : Distinct (map chunk_place s.chunks)
    pub owned : All (λ c. In c.document_id (document_ids s)) s.chunks
    pub fitting : All (λ c. fits_vector c.embedding ≡ true) s.chunks

  pub empty-IsValid : IsValid empty_store
  empty-IsValid = record {
    ids_distinct = tt;
    refs_distinct = tt;
    chunk_ids_distinct = tt;
    places_distinct = tt;
    owned = tt;
    fitting = tt;
  }

  any-same_place :
      (row : Chunk) (cs : List Chunk)
      → any (λ c. same_place c row) cs ≡ false
      → ¬ In (chunk_place row) (map chunk_place cs)
  any-same_place row [] h m = m
  any-same_place row (c ∷ cs) h (inl q) = ground (
    arith,
    h,
    ap (λ p. p.0) q,
    ap (λ p. p.1) q,
    nat_eq.test_iff c.document_id row.document_id,
    nat_eq.test_iff c.ordinal row.ordinal,
  )
  any-same_place row (c ∷ cs) h (inr m) = ground (arith, any-same_place row cs)

  owned-more :
      (i : ℕ) (is : List ℕ) (cs : List Chunk)
      → All (λ c. In c.document_id is) cs
      → All (λ c. In c.document_id (i ∷ is)) cs
  owned-more i is [] h = tt
  owned-more i is (c ∷ cs) h = (inr h.0, owned-more i is cs h.1)

  pub add_document-IsValid :
      ⦃db : Postgres⦄ (row : Document) (s : Store)
      → IsValid s
      → Returns IsValid (add_document row s)
  unfolding add_document
  add_document-IsValid row s v =
      Returns-guard IsValid _ data_error
        (if document_conflict row s then raised integrity_error else ok (with_document row s))
        (λ _.
          Returns-guard IsValid (document_conflict row s) integrity_error (ok (with_document row s))
            (λ h. record {
              ids_distinct = (
                (λ m. ground (arith, any_iff_In (λ (d : Document). d.id) row.id s.documents)),
                v.ids_distinct,
              );
              refs_distinct = (
                (λ m. ground (
                  arith,
                  any_iff_In (λ (d : Document). d.source_ref) row.source_ref s.documents,
                )),
                v.refs_distinct,
              );
              chunk_ids_distinct = v.chunk_ids_distinct;
              places_distinct = v.places_distinct;
              owned = owned-more row.id (document_ids s) s.chunks v.owned;
              fitting = v.fitting;
            }))

  -- An update that keeps the id and the source ref of a row.
  pub update_document-IsValid :
      (i : ℕ) (f : Document → Document) (s : Store)
      → ((d : Document) → (f d).id ≡ d.id)
      → ((d : Document) → (f d).source_ref ≡ d.source_ref)
      → IsValid s
      → IsValid (update_document i f s)
  unfolding update_document
  update_document-IsValid i f s same_id same_ref v = record {
    ids_distinct = subst Distinct (sym ids) v.ids_distinct;
    refs_distinct = subst Distinct (sym refs) v.refs_distinct;
    chunk_ids_distinct = v.chunk_ids_distinct;
    places_distinct = v.places_distinct;
    owned = subst (λ is. All (λ c. In c.document_id is) s.chunks) (sym ids) v.owned;
    fitting = v.fitting;
  }
    where
      ids : map (λ (d : Document). d.id) (update_row (λ d. d.id) i f s.documents) ≡ document_ids s
      ids = map-update_row (λ d. d.id) (λ d. d.id) i f s.documents same_id

      refs :
          map (λ (d : Document). d.source_ref) (update_row (λ d. d.id) i f s.documents)
          ≡ map (λ d. d.source_ref) s.documents
      refs = map-update_row (λ d. d.id) (λ d. d.source_ref) i f s.documents same_ref

  pub add_chunk-IsValid :
      ⦃db : Postgres⦄ (row : Chunk) (s : Store) → IsValid s → Returns IsValid (add_chunk row s)
  unfolding add_chunk fits_columns
  add_chunk-IsValid row s v =
      Returns-guard IsValid (not (fits_columns row)) data_error
        (if chunk_conflict row s then raised integrity_error else ok (with_chunk row s))
        (λ fits.
          Returns-guard IsValid (chunk_conflict row s) integrity_error (ok (with_chunk row s)) (λ h.
            record {
              ids_distinct = v.ids_distinct;
              refs_distinct = v.refs_distinct;
              chunk_ids_distinct = (
                (λ m. ground (arith, any_iff_In (λ (c : Chunk). c.id) row.id s.chunks)),
                v.chunk_ids_distinct,
              );
              places_distinct =
                  ((λ m. any-same_place row s.chunks (ground arith) m), v.places_distinct);
              owned = (
                ground (arith, any_iff_In (λ (d : Document). d.id) row.document_id s.documents),
                v.owned,
              );
              fitting = (ground arith, v.fitting);
            }))

  -- What an insertion that succeeds makes of the store.
  pub add_chunk-with_chunk :
      ⦃db : Postgres⦄ (row : Chunk) (s : Store)
      → Returns (λ s'. s' ≡ with_chunk row s) (add_chunk row s)
  unfolding add_chunk
  add_chunk-with_chunk row s =
      Returns-guard (λ s'. s' ≡ with_chunk row s) (not (fits_columns row)) data_error
        (if chunk_conflict row s then raised integrity_error else ok (with_chunk row s))
        (λ f.
          Returns-guard (λ s'. s' ≡ with_chunk row s) (chunk_conflict row s) integrity_error
            (ok (with_chunk row s)) (λ c. refl))

  pub All-keep :
      (P : Chunk → Type 0) (p : Chunk → Bool) (cs : List Chunk) → All P cs → All P (keep p cs)
  All-keep P p [] h = tt
  All-keep P p (c ∷ cs) h = ground (arith, All-keep P p cs)

  -- The deletion of chunks.
  pub keep-IsValid :
      (p : Chunk → Bool) (s : Store)
      → IsValid s
      → IsValid record { documents = s.documents; chunks = keep p s.chunks }
  keep-IsValid p s v = record {
    ids_distinct = v.ids_distinct;
    refs_distinct = v.refs_distinct;
    chunk_ids_distinct = filter-Distinct (λ (c : Chunk). c.id) p s.chunks v.chunk_ids_distinct;
    places_distinct = filter-Distinct chunk_place p s.chunks v.places_distinct;
    owned = All-keep _ p s.chunks v.owned;
    fitting = All-keep _ p s.chunks v.fitting;
  }
