-- ===== src/Indexing/Repository/Tracked.antt =====
-- What calls of the repository, one after the other, make of the rows of the two tables.
use torque_finder.Indexing.Repository.Upsert.{upsert-Returns, upsert_document-chunks}
use torque_finder.Indexing.Table.{map-update_row}
use torque_finder.Prelude.{
  ℕ, String, ◌≡◌, ◌≢◌, refl, subst, Option, none, some, List, string_eq, nat_eq, In, map, ◌⊎◌, sym,
  ◌↔◌, inl, inr, In-map, ap, In-keep, ◌==◌, arith, In_keep,
}
use torque_finder.Floats.{Floats}
use torque_finder.Domain.Errors.{ok}
use torque_finder.Domain.Outcome.{Returns, Returns->>=, Returns-guard}
use torque_finder.Domain.Chunk.{SourceType}
use torque_finder.ProductMatch.Sets.{HashOrder}
use torque_finder.Indexing.Store.{
  Postgres, Document, Chunk, Store, add_chunk, update_document, with_chunk, data_error,
}
use torque_finder.Indexing.Store.Valid.{add_chunk-with_chunk, IsValid}
use torque_finder.Indexing.Repository.{
  set_facet_of, insert_chunk, new_chunk, with_facet, set_product_facet, upsert_document,
  delete_chunks, refreshed, derive_facet, not,
}
use torque_finder.Indexing.Repository.Reachable.{
  ◌⟶◌, ◌⟶*◌, upserts, sets_facet, inserts, deletes, here, more, step-IsValid,
}

-- What never changes of a document: the id, the source type, the source ref and the creation.
abbrev pub identity : Document → ℕ × SourceType × String × ℕ
identity d = (d.id, d.source_type, d.source_ref, d.created_at)

module _ ⦃fl : Floats⦄ ⦃h : HashOrder⦄ ⦃db : Postgres⦄ where
  open fl use {Float}

  -- The chunks after a call, as a set: an insertion adds its row under the id that it returns, a
  -- deletion removes all chunks of its document, and the other calls leave the set as it is.
  abbrev pub AliveAfter : {s s' : Store} → s ⟶ s' → (Chunk → Type 0) → Chunk → Type 0
  AliveAfter (upserts now source_type title source_url source_ref document e) Before c = Before c
  AliveAfter (sets_facet document_id product_family brand e) Before c = Before c
  AliveAfter
        (inserts document_id ordinal i text source_url embedding png_r2_key anchor parent_anchor e)
        Before c =
      (new_chunk i document_id ordinal text embedding source_url png_r2_key anchor parent_anchor
        ≡ c)
      ⊎ Before c
  AliveAfter (deletes document_id) Before c = Before c × (c.document_id ≢ document_id)

  abbrev pub Alive : {s s' : Store} → s ⟶* s' → (Chunk → Type 0) → Chunk → Type 0
  Alive here Before c = Before c
  Alive (more step steps) Before c = Alive steps (AliveAfter step Before) c

  Kept : Store → Store → Type 0
  Kept s s' =
      (x : ℕ × SourceType × String × ℕ)
      → In x (map identity s.documents)
      → In x (map identity s'.documents)

  update-Kept :
      (i : ℕ) (f : Document → Document) (s : Store)
      → ((d : Document) → identity (f d) ≡ identity d)
      → Kept s (update_document i f s)
  unfolding Kept update_document
  update-Kept i f s same x m =
      subst (In x) (sym (map-update_row (λ d. d.id) identity i f s.documents same)) m

  set_facet_of-Kept :
      (facet : Option String × Option String) (o : Option Document) (s : Store)
      → Returns (λ s'. Kept s s' × (s'.chunks ≡ s.chunks)) (set_facet_of facet o s)
  unfolding set_facet_of
  set_facet_of-Kept facet none s = tt
  set_facet_of-Kept facet (some row) s =
      Returns-guard (λ s'. Kept s s' × (s'.chunks ≡ s.chunks)) _ data_error (ok _)
        (λ _. (update-Kept row.id (with_facet facet) s (λ d. refl), unfold update_document in refl))

  insert_chunk-row :
      (document_id ordinal : ℕ) (text : String) (embedding : List Float) (source_url : String)
      (png_r2_key anchor parent_anchor : Option String) (s : Store)
      → Returns
          (λ p.
            p.0
            ≡ with_chunk
                (new_chunk p.1 document_id ordinal text embedding source_url png_r2_key anchor
                  parent_anchor)
                s)
          (insert_chunk document_id ordinal text embedding source_url png_r2_key anchor
            parent_anchor s)
  unfolding insert_chunk
  insert_chunk-row document_id ordinal text embedding source_url png_r2_key anchor parent_anchor s =
      Returns->>= (λ t. t ≡ with_chunk row s) _ (add_chunk row s) _ (add_chunk-with_chunk row s)
        (λ t q. q)
    where
      row : Chunk
      row =
          new_chunk (db.next_id (map (λ c. c.id) s.chunks)) document_id ordinal text embedding
            source_url png_r2_key anchor parent_anchor

  -- The set of chunks and the documents after a call.
  Follows : {s s' : Store} → s ⟶ s' → Type 0
  Follows {s} {s'} step =
      Kept s s' × ((c : Chunk) → In c s'.chunks ↔ AliveAfter step (λ c. In c s.chunks) c)

  same_chunks : (s s' : Store) → s'.chunks ≡ s.chunks → (c : Chunk) → In c s'.chunks ↔ In c s.chunks
  same_chunks s s' q c = (subst (In c) q, subst (In c) (sym q))

  upsert-Kept :
      (now : ℕ) (source_type : SourceType) (title source_url source_ref : String) (s : Store)
      → IsValid s
      → Returns (λ p. Kept s p.0) (upsert_document now source_type title source_url source_ref s)
  unfolding Kept
  upsert-Kept now source_type title source_url source_ref s v =
      upsert-Returns now source_type title source_url source_ref (λ p. Kept s p.0) s v
        (λ n t x m. inr m)
        (λ row m q y t.
          update-Kept row.id (refreshed title source_url (derive_facet title)) s (λ d. refl))

  step-Follows : (s s' : Store) (step : s ⟶ s') → IsValid s → Follows step
  unfolding Follows Kept set_product_facet delete_chunks
  step-Follows s s' (upserts now source_type title source_url source_ref document e) v = (
    subst (Returns (λ p. Kept s p.0)) e
        (upsert-Kept now source_type title source_url source_ref s v),
    same_chunks s s' (
        subst (Returns (λ p. (p.0).chunks ≡ s.chunks)) e
          (upsert_document-chunks now source_type title source_url source_ref s v)),
  )
  step-Follows s s' (sets_facet document_id product_family brand e) v =
      let k =
        subst (Returns (λ t. Kept s t × (t.chunks ≡ s.chunks))) e
          (set_facet_of-Kept (product_family, brand) _ s) in
      (k.0, same_chunks s s' k.1)
  step-Follows s s'
        (inserts document_id ordinal i text source_url embedding png_r2_key anchor parent_anchor e)
        v =
      let row =
        new_chunk i document_id ordinal text embedding source_url png_r2_key anchor parent_anchor in
      let k =
        subst
          (Returns (λ p.
            p.0
            ≡ with_chunk
                (new_chunk p.1 document_id ordinal text embedding source_url png_r2_key anchor
                  parent_anchor)
                s))
          e
          (insert_chunk-row document_id ordinal text embedding source_url png_r2_key anchor
            parent_anchor s) in
      (
        λ x m. subst (λ (t : Store). In x (map identity t.documents)) (sym k) m,
        λ c. same_chunks (with_chunk row s) s' (ap (λ t. t.chunks) k) c,
      )
  step-Follows s s' (deletes document_id) v = (
    λ x m. m,
    λ c. (
      λ m.
          let k = In-keep (λ c. not (c.document_id == document_id)) c s.chunks m in
          (k.0, λ q. ground (arith, k.1, nat_eq.test_iff c.document_id document_id)),
      λ m.
          In_keep (λ c. not (c.document_id == document_id)) c s.chunks m.0
            (ground (arith, m.1, nat_eq.test_iff c.document_id document_id)),
    ),
  )

  AliveAfter-weaken :
      {s s' : Store} (step : s ⟶ s') (P Q : Chunk → Type 0) (c : Chunk)
      → ((d : Chunk) → P d → Q d)
      → AliveAfter step P c
      → AliveAfter step Q c
  AliveAfter-weaken (upserts _ _ _ _ _ _ _) P Q c f a = f c a
  AliveAfter-weaken (sets_facet _ _ _ _) P Q c f a = f c a
  AliveAfter-weaken (inserts _ _ _ _ _ _ _ _ _ _) P Q c f (inl q) = inl q
  AliveAfter-weaken (inserts _ _ _ _ _ _ _ _ _ _) P Q c f (inr a) = inr (f c a)
  AliveAfter-weaken (deletes _) P Q c f a = (f c a.0, a.1)

  Alive-weaken :
      {s s' : Store} (steps : s ⟶* s') (P Q : Chunk → Type 0) (c : Chunk)
      → ((d : Chunk) → P d → Q d)
      → Alive steps P c
      → Alive steps Q c
  Alive-weaken here P Q c f a = f c a
  Alive-weaken (more step steps) P Q c f a =
      Alive-weaken steps (AliveAfter step P) (AliveAfter step Q) c
        (λ d. AliveAfter-weaken step P Q d f) a

  -- A store that calls lead to is valid, has the documents that were there, with their identities,
  -- and just the chunks that the calls leave.
  pub record IsTracked {s s' : Store} (steps : s ⟶* s') : Type 0 where
    pub valid : IsValid s'
    pub documents_kept :
        (d : Document) → In d s.documents → In (identity d) (map identity s'.documents)
    pub chunks_left : (c : Chunk) → In c s'.chunks ↔ Alive steps (λ c. In c s.chunks) c

  tracked :
      (s s' : Store) (steps : s ⟶* s')
      → IsValid s
      → IsValid s' × Kept s s' × ((c : Chunk) → In c s'.chunks ↔ Alive steps (λ c. In c s.chunks) c)
  unfolding Follows Kept
  tracked s s' here v = (v, (λ x m. m), λ c. (λ m. m, λ m. m))
  tracked s s' (more {t = t} step steps) v =
      let follows = step-Follows s t step v in
      let rest = tracked t s' steps (step-IsValid s t step v) in
      (
        rest.0,
        (λ x m. rest.1 x (follows.0 x m)),
        λ c. (
          λ m. Alive-weaken steps _ _ c (λ d. (follows.1 d).0) ((rest.2 c).0 m),
          λ a. (rest.2 c).1 (Alive-weaken steps _ _ c (λ d. (follows.1 d).1) a),
        ),
      )

  -- Every store that calls of the repository lead to from a valid one is valid. Each document of
  -- the first store is still there, with its id, source type, source ref and time of creation.
  -- And a chunk is there just if it was, or a call inserted it, and no later call deleted the
  -- chunks of its document.
  pub reachable-IsTracked : (s s' : Store) (steps : s ⟶* s') → IsValid s → IsTracked steps
  unfolding Kept
  reachable-IsTracked s s' steps v =
      let t = tracked s s' steps v in
      record {
        valid = t.0;
        documents_kept = λ d m. t.1 (identity d) (In-map identity d s.documents m);
        chunks_left = t.2;
      }
