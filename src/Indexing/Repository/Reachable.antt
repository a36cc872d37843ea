-- ===== src/Indexing/Repository/Reachable.antt =====
-- The steps that the methods of the repository make, and that they keep a store valid.
use torque_finder.Prelude.{ℕ, String, ◌≡◌, refl, subst, Option, none, some, List, string_eq, nat_eq}
use torque_finder.Floats.{Floats}
use torque_finder.Domain.Errors.{Result, ok, raised, ◌>>=◌}
use torque_finder.Domain.Outcome.{Returns, Returns->>=, Returns-any, Returns-guard}
use torque_finder.Domain.Documents.{IndexedDocument}
use torque_finder.Domain.Chunk.{SourceType, same_type}
use torque_finder.ProductMatch.Sets.{HashOrder}
use torque_finder.ProductMatch.Scopes.{derive_facet}
use torque_finder.Indexing.Store.{Postgres, Document, Store, add_document, add_chunk}
use torque_finder.Indexing.Store.Valid.{
  IsValid, add_document-IsValid, update_document-IsValid, add_chunk-IsValid, keep-IsValid,
}
use torque_finder.Indexing.Repository.{
  document_with, create_document, refresh_document, upsert_existing, set_facet_of, upsert_document,
  set_product_facet, insert_chunk, delete_chunks, refreshed, with_facet, not, other_type,
  fits_facet, fits_update, data_error,
}

module _ ⦃fl : Floats⦄ ⦃h : HashOrder⦄ ⦃db : Postgres⦄ where
  open fl use {Float}

  infix 40 ◌⟶◌ ◌⟶*◌
  -- The calls of the repository that change the store, and return.
  pub data ◌⟶◌ : Store → Store → Type 0 where
    upserts :
        (now : ℕ) (source_type : SourceType) (title source_url source_ref : String)
        (document : IndexedDocument) {s s' : Store}
        → upsert_document now source_type title source_url source_ref s ≡ ok (s', document)
        → s ⟶ s'
    sets_facet :
        (document_id : ℕ) (product_family brand : Option String) {s s' : Store}
        → set_product_facet document_id product_family brand s ≡ ok s'
        → s ⟶ s'
    inserts :
        (document_id ordinal i : ℕ) (text source_url : String) (embedding : List Float)
        (png_r2_key anchor parent_anchor : Option String) {s s' : Store}
        → insert_chunk document_id ordinal text embedding source_url png_r2_key anchor parent_anchor
            s
          ≡ ok (s', i)
        → s ⟶ s'
    deletes : (document_id : ℕ) {s : Store} → s ⟶ (delete_chunks document_id s).0

  pub data ◌⟶*◌ : Store → Store → Type 0 where
    here : {s : Store} → s ⟶* s
    more : {s t u : Store} → s ⟶ t → t ⟶* u → s ⟶* u

  abbrev Leaves : {A : Type 0} → Store × A → Type 0
  Leaves (s, a) = IsValid s

  stored :
      {A : Type 0} (m : Result Store) (f : Store → A)
      → Returns IsValid m
      → Returns Leaves (m >>= λ s'. ok (s', f s'))
  stored (ok s) f v = v
  stored (raised e) f v = tt

  upsert_existing-IsValid :
      (now : ℕ) (source_type : SourceType) (title source_url source_ref : String)
      (facet : Option String × Option String) (o : Option Document) (s : Store)
      → IsValid s
      → Returns Leaves (upsert_existing now source_type title source_url source_ref facet o s)
  unfolding upsert_existing create_document refresh_document
  upsert_existing-IsValid now source_type title source_url source_ref facet none s v =
      stored (add_document _ s) _ (add_document-IsValid _ s v)
  upsert_existing-IsValid now source_type title source_url source_ref facet (some row) s v =
      Returns-guard Leaves (not (same_type row.source_type source_type)) other_type _ (λ _.
        Returns-guard Leaves (not (fits_update title source_url facet)) data_error (ok _) (λ _.
          update_document-IsValid row.id (refreshed title source_url facet) s (λ d. refl)
            (λ d. refl) v))

  pub upsert_document-IsValid :
      (now : ℕ) (source_type : SourceType) (title source_url source_ref : String) (s : Store)
      → IsValid s
      → Returns Leaves (upsert_document now source_type title source_url source_ref s)
  unfolding upsert_document
  upsert_document-IsValid now source_type title source_url source_ref s v =
      Returns->>= (λ o. Unit) Leaves (document_with source_ref s) _
        (Returns-any (document_with source_ref s))
        (λ o u.
          upsert_existing-IsValid now source_type title source_url source_ref (derive_facet title) o
            s v)

  set_facet_of-IsValid :
      (facet : Option String × Option String) (o : Option Document) (s : Store)
      → IsValid s
      → Returns IsValid (set_facet_of facet o s)
  unfolding set_facet_of
  set_facet_of-IsValid facet none s v = tt
  set_facet_of-IsValid facet (some row) s v =
      Returns-guard IsValid (not (fits_facet facet)) data_error (ok _)
        (λ _. update_document-IsValid row.id (with_facet facet) s (λ d. refl) (λ d. refl) v)

  pub step-IsValid : (s s' : Store) → s ⟶ s' → IsValid s → IsValid s'
  unfolding set_product_facet insert_chunk delete_chunks
  step-IsValid s s' (upserts now source_type title source_url source_ref document e) v =
      subst (Returns Leaves) e
        (upsert_document-IsValid now source_type title source_url source_ref s v)
  step-IsValid s s' (sets_facet document_id product_family brand e) v =
      subst (Returns IsValid) e (set_facet_of-IsValid (product_family, brand) _ s v)
  step-IsValid s s'
        (inserts document_id ordinal i text source_url embedding png_r2_key anchor parent_anchor e)
        v =
      subst (Returns Leaves) e (stored (add_chunk _ s) _ (add_chunk-IsValid _ s v))
  step-IsValid s s' (deletes document_id) v = keep-IsValid _ s v
