-- ===== src/Indexing/Repository/Upsert/Again.antt =====
-- A second `upsert_document` with the same arguments.
use torque_finder.Indexing.Repository.Reachable.{upsert_document-IsValid}
use torque_finder.Prelude.{
  ℕ, String, ◌≡◌, refl, sym, ap, ◌∙◌, subst, inl, inr, true, Option, none, some, if◌then◌else◌, In,
  string_eq, nat_eq,
}
use mathlib.Core.Option.{some-injective}
use torque_finder.Indexing.Table.{update_row-fixed}
use torque_finder.Floats.{Floats}
use torque_finder.Domain.Errors.{Result, ok, raised}
use torque_finder.Domain.Outcome.{ok-injective, Returns}
use torque_finder.Domain.Documents.{IndexedDocument}
use torque_finder.Domain.Chunk.{SourceType, same_type, same_type_iff}
use torque_finder.ProductMatch.Sets.{HashOrder}
use torque_finder.ProductMatch.Scopes.{derive_facet}
use torque_finder.Indexing.Store.{Postgres, Document, Store, update_document}
use torque_finder.Indexing.Store.Valid.{IsValid}
use torque_finder.Indexing.Repository.{
  document_with, document_row_to_domain, refresh_document, upsert_document, refreshed, other_type,
  not, data_error,
}
use torque_finder.Indexing.Repository.Upsert.{
  upsert-Returns, taken, document_with-cases, created, document_with-update,
  document_with-with_document, upsert-present, beq_refl,
}

module _ ⦃fl : Floats⦄ where
  -- The row that a source ref stands for is a row of the store.
  document_with-In :
      (ref : String) (row : Document) (s : Store)
      → IsValid s
      → document_with ref s ≡ ok (some row)
      → In row s.documents
  document_with-In ref row s v e = elim (document_with-cases ref s v) [
    | inl (n, q) ↦ absurd (absent (sym q ∙ e))
    | inr (x, m, r, q) ↦
        subst (λ d. In d s.documents) (some-injective _ _ (ok-injective _ _ (sym q ∙ e))) m
  ]
    where
      absent : ◌≡◌ {A = Result (Option Document)} (ok none) (ok (some row)) → ⊥
      absent k = cc

  -- An update that leaves the row with its id as it is.
  pub update_document-fixed :
      (f : Document → Document) (row : Document) (s : Store)
      → IsValid s
      → In row s.documents
      → f row ≡ row
      → update_document row.id f s ≡ s
  unfolding update_document
  update_document-fixed f row s v m e =
      ap (λ ds. record { documents = ds; chunks = s.chunks })
        (update_row-fixed (λ d. d.id) f row s.documents v.ids_distinct m e)

  module _ ⦃h : HashOrder⦄ ⦃db : Postgres⦄ (now : ℕ) (source_type : SourceType)
      (title source_url source_ref : String) where
    -- The source ref stands for a row that another upsert leaves as it is.
    abbrev Kept : Store × IndexedDocument → Type 0
    Kept (s', document) =
        (row : Document) × (document_with source_ref s' ≡ ok (some row))
        × (refreshed title source_url (derive_facet title) row ≡ row)
        × (same_type row.source_type source_type ≡ true)
        × (taken now source_type title source_url source_ref ≡ true)
        × (document_row_to_domain row ≡ document)

    upsert-Kept :
        (s : Store)
        → IsValid s
        → Returns Kept (upsert_document now source_type title source_url source_ref s)
    unfolding created
    upsert-Kept s v =
        upsert-Returns now source_type title source_url source_ref Kept s v
          (λ n t. (
            row s,
            document_with-with_document (row s) source_ref s n
                ∙ ap (λ b. if b then ok (some (row s)) else document_with source_ref s)
                    (beq_refl source_ref),
            refl,
            (same_type_iff source_type source_type).1 refl,
            t,
            refl,
          ))
          (λ old m q y t. (
            fresh old,
            document_with-update (refreshed title source_url (derive_facet title)) old source_ref s
                  (λ d. refl) v m
                ∙ ap (λ b. if b then ok (some (fresh old)) else document_with source_ref s)
                    ((string_eq.test_iff old.source_ref source_ref).1 q),
            refl,
            y,
            t,
            refl,
          ))
      where
        fresh : Document → Document
        fresh old = refreshed title source_url (derive_facet title) old

        row : Store → Document
        row s = created now source_type title source_url source_ref s

    -- In a valid store, an upsert that succeeded succeeds again with the same arguments: it
    -- returns the same document and leaves the store as it is.
    pub upsert_document-again :
        (later : ℕ) (s s' : Store) (document : IndexedDocument)
        → IsValid s
        → upsert_document now source_type title source_url source_ref s ≡ ok (s', document)
        → upsert_document later source_type title source_url source_ref s' ≡ ok (s', document)
    unfolding refresh_document
    upsert_document-again later s s' document v e = again (subst (Returns Kept) e (upsert-Kept s v))
      where
        f : Document → Document
        f = refreshed title source_url (derive_facet title)

        v' : IsValid s'
        v' =
            subst (Returns (λ p. IsValid p.0)) e
              (upsert_document-IsValid now source_type title source_url source_ref s v)

        again :
            Kept (s', document)
            → upsert_document later source_type title source_url source_ref s' ≡ ok (s', document)
        again (row, found, fixed, type, texts, returned) =
            upsert-present later source_type title source_url source_ref row s' found
            ∙ ap
                (λ b.
                  if not b
                  then raised other_type
                  else if not (taken now source_type title source_url source_ref)
                  then raised data_error
                  else ok (update_document row.id f s', document_row_to_domain (f row)))
                type
            ∙ ap
                (λ b.
                  if not b
                  then raised data_error
                  else ok (update_document row.id f s', document_row_to_domain (f row)))
                texts
            ∙ ap ok (
                ap (λ t. (t, document_row_to_domain (f row)))
                  (update_document-fixed f row s' v' (document_with-In source_ref row s' v' found)
                    fixed)
                ∙ ap (λ d. (s', document_row_to_domain d)) fixed
                ∙ ap (λ d. (s', d)) returned)
