-- ===== src/Indexing/Repository/Upsert/Get.antt =====
-- What each source ref stands for after an upsert, and how an upsert fails.
use torque_finder.Indexing.Repository.Upsert.{
  upsert-Returns, create_to, refresh_to, taken, document_with-update, created, document_with-cases,
  upsert-absent, document_with-with_document, upsert-present,
}
use mathlib.Core.Option.{map as opt_map}
use torque_finder.Prelude.{
  ℕ, String, ◌≡◌, ◌≢◌, refl, sym, ap, ◌∙◌, subst, inl, inr, Bool, true, false, some, arith,
  if◌then◌else◌, Bool-cases, In, ◌==◌, string_eq, nat_eq, ◌⊎◌, ◌&&◌,
}
use torque_finder.Floats.{Floats}
use torque_finder.Domain.Errors.{Exn, is_ingestion_error, ok, raised, ◌>>=◌}
use torque_finder.Domain.Outcome.{Returns, ok≢raised, raised-injective}
use torque_finder.Domain.Documents.{IndexedDocument}
use torque_finder.Domain.Chunk.{SourceType, same_type, same_type_iff}
use torque_finder.ProductMatch.Sets.{HashOrder}
use torque_finder.ProductMatch.Scopes.{derive_facet}
use torque_finder.Indexing.Store.{Postgres, Document, Store}
use torque_finder.Indexing.Store.Valid.{IsValid}
use torque_finder.Indexing.Repository.{
  document_with, get_document_by_source_ref, document_row_to_domain, refresh_document,
  upsert_document, refreshed, other_type, select_one, data_error, fits_update, not,
}

module _ ⦃fl : Floats⦄ where
  get-of :
      (b : Bool) (row : Document) (r : String) (s s' : Store)
      → document_with r s' ≡ (if b then ok (some row) else document_with r s)
      → get_document_by_source_ref r s'
        ≡ (if b then ok (some (document_row_to_domain row)) else get_document_by_source_ref r s)
  unfolding get_document_by_source_ref
  get-of true row r s s' e = ap (λ m. m >>= λ x. ok (opt_map document_row_to_domain x)) e
  get-of false row r s s' e = ap (λ m. m >>= λ x. ok (opt_map document_row_to_domain x)) e

  -- The documents alone answer the query.
  pub get-documents :
      (r : String) (s s' : Store)
      → s'.documents ≡ s.documents
      → get_document_by_source_ref r s' ≡ get_document_by_source_ref r s
  unfolding get_document_by_source_ref document_with
  get-documents r s s' e =
      ap
        (λ ds. select_one (λ (d : Document). d.source_ref) r ds >>= λ row.
          ok (opt_map document_row_to_domain row))
        e

  module _ ⦃h : HashOrder⦄ ⦃db : Postgres⦄ (now : ℕ) (source_type : SourceType)
      (title source_url source_ref : String) where
    -- The document that is returned is the one that the source ref now stands for.
    abbrev Stores : Store → Store × IndexedDocument → Type 0
    Stores s (s', document) =
        (r : String)
        → get_document_by_source_ref r s'
          ≡ (if source_ref == r then ok (some document) else get_document_by_source_ref r s)

    upsert-Stores :
        (s : Store)
        → IsValid s
        → Returns (Stores s) (upsert_document now source_type title source_url source_ref s)
    unfolding created
    upsert-Stores s v =
        upsert-Returns now source_type title source_url source_ref (Stores s) s v
          (λ n t r.
            get-of (source_ref == r) (created now source_type title source_url source_ref s) r s _ (
              document_with-with_document (created now source_type title source_url source_ref s) r
                s n))
          (λ row m q y t r.
            get-of (source_ref == r) (refreshed title source_url (derive_facet title) row) r s _ (
              document_with-update (refreshed title source_url (derive_facet title)) row r s
                (λ d. refl) v m
              ∙ ap
                  (λ k.
                    if k == r
                    then ok (some (refreshed title source_url (derive_facet title) row))
                    else document_with r s)
                  q))

    -- After an upsert in a valid store, its source ref stands for the document that it
    -- returned, and every other source ref for what it stood for before.
    pub get-upsert_document :
        (r : String) (s s' : Store) (document : IndexedDocument)
        → IsValid s
        → upsert_document now source_type title source_url source_ref s ≡ ok (s', document)
        → get_document_by_source_ref r s'
          ≡ (if source_ref == r then ok (some document) else get_document_by_source_ref r s)
    get-upsert_document r s s' document v e = subst (Returns (Stores s)) e (upsert-Stores s v) r

    -- In a valid store an upsert fails in two ways only: the source ref stands for a document of
    -- the other source type, and an `IngestionError` is raised; or Postgres does not take one of
    -- the texts.
    pub upsert_document-raises :
        (s : Store) (e : Exn)
        → IsValid s
        → upsert_document now source_type title source_url source_ref s ≡ raised e
        → ((is_ingestion_error e ≡ true)
            × ((row : Document) × In row s.documents
                × (row.source_ref ≡ source_ref)
                × (row.source_type ≢ source_type)))
          ⊎ ((e ≡ data_error)
              × ((fits_update title source_url (derive_facet title) && db.storable source_ref)
                  ≡ false))
    unfolding refresh_document
    upsert_document-raises s e v q = elim (document_with-cases source_ref s v) [
      | inl (n, a) ↦
          elim (Bool-cases
            (taken now source_type title source_url source_ref && db.storable source_ref)) [
              | inl t ↦ absurd (
                  ok≢raised (
                    sym (
                      ap
                        (λ b.
                          if not b
                          then raised data_error
                          else ok (create_to now source_type title source_url source_ref s))
                        t)
                    ∙ sym (upsert-absent now source_type title source_url source_ref s n a)
                    ∙ q))
              | inr t ↦ inr (
                raised-injective e data_error (
                    sym q
                    ∙ upsert-absent now source_type title source_url source_ref s n a
                    ∙ ap
                        (λ b.
                          if not b
                          then raised data_error
                          else ok (create_to now source_type title source_url source_ref s))
                        t),
                t,
              )
            ]
      | inr (row, m, r, a) ↦
          let present = upsert-present now source_type title source_url source_ref row s a in
          elim (Bool-cases (same_type row.source_type source_type)) [
            | inl t ↦ elim (Bool-cases (taken now source_type title source_url source_ref)) [
              | inl k ↦ absurd (ok≢raised (sym (present ∙ written row s true true t k) ∙ q))
              | inr k ↦ inr (
                raised-injective e data_error (sym q ∙ present ∙ written row s true false t k),
                rw k refl,
              )
            ]
            | inr t ↦ inl (
              subst (λ x. is_ingestion_error x ≡ true)
                  (raised-injective other_type e (sym (present ∙ written row s false _ t refl) ∙ q))
                  refl,
              (row, m, r, (λ k. ground (arith, same_type_iff row.source_type source_type))),
            )
          ]
    ]
      where
        written :
            (row : Document) (s : Store) (a b : Bool)
            → same_type row.source_type source_type ≡ a
            → taken now source_type title source_url source_ref ≡ b
            → refresh_document source_type title source_url (derive_facet title) row s ≡ (
                if not a
                then raised other_type
                else if not b
                then raised data_error
                else ok (refresh_to now source_type title source_url source_ref row s))
        written row s a b p q = rw (p, q) refl
