-- ===== src/Indexing/Repository/Upsert.antt =====
-- What `upsert_document` does to the documents that the source refs stand for.
pub mod Get
pub mod Again
use mathlib.Core.Bool.{false≢true}
use mathlib.Core.Option.{map as opt_map}
use torque_finder.Prelude.{
  ℕ, zero, suc, ◌+◌, ◌-◌, ◌*◌, ◌≤◌, ◌<◌, String, ◌≡◌, ◌≢◌, refl, sym, ap, ◌∙◌, subst, ◌↔◌, ◌⊎◌, inl,
  inr, Bool, true, false, not, ◌&&◌, ◌||◌, Option, none, some, List, [], ◌∷◌, ◌++◌, arith, eq_iff,
  if◌then◌else◌, Bool-cases, Option-cases, length, take, any, all, keep, first, In, Before, All,
  is_some, is_none, leb, ltb, ◌==◌, string_eq, nat_eq, beq_refl, In-keep,
}
use torque_finder.Prelude.{Distinct, map}
use torque_finder.Prelude.Keys.{
  any_iff_In, keep-map, map-fixed, key_unique, keep-cases, keep-none, keep_unique,
}
use torque_finder.Indexing.Table.{
  select_one-cases, select_one-add, select_one-update, integrity_error,
}
use torque_finder.Floats.{Floats}
use torque_finder.Domain.Errors.{Exn, is_ingestion_error, Result, ok, raised, ◌>>=◌}
use torque_finder.Domain.Outcome.{
  guard->>=, Returns-guard, Raises, Raises->>=, Returns, ok≢raised, Returns-if, raised-injective,
}
use torque_finder.Domain.Documents.{IndexedDocument}
use torque_finder.Domain.Chunk.{SourceType, same_type, same_type_iff}
use torque_finder.ProductMatch.Sets.{HashOrder}
use torque_finder.ProductMatch.Scopes.{derive_facet}
use torque_finder.Indexing.Store.{
  Postgres, Document, Chunk, Store, add_document, update_document, document_conflict, with_document,
}
use torque_finder.Indexing.Store.Valid.{IsValid, document_ids}
use torque_finder.Indexing.Repository.{
  document_with, get_document_by_source_ref, document_row_to_domain, create_document,
  refresh_document, upsert_document, upsert_existing, refreshed, new_document, other_type,
  fits_update, data_error,
}

module _ ⦃fl : Floats⦄ where
  -- The row that a source ref stands for, in a valid store.
  pub document_with-cases :
      (ref : String) (s : Store)
      → IsValid s
      → ((¬ In ref (map (λ d. d.source_ref) s.documents)) × (document_with ref s ≡ ok none))
        ⊎ ((row : Document) × In row s.documents
            × (row.source_ref ≡ ref)
            × (document_with ref s ≡ ok (some row)))
  unfolding document_with
  document_with-cases ref s v = select_one-cases (λ d. d.source_ref) ref s.documents v.refs_distinct

  pub document_with-with_document :
      (row : Document) (r : String) (s : Store)
      → ¬ In row.source_ref (map (λ d. d.source_ref) s.documents)
      → document_with r (with_document row s)
        ≡ (if row.source_ref == r then ok (some row) else document_with r s)
  unfolding document_with
  document_with-with_document row r s n = select_one-add (λ d. d.source_ref) row r s.documents n

  -- An update that keeps the source ref of a row.
  pub document_with-update :
      (f : Document → Document) (row : Document) (r : String) (s : Store)
      → ((d : Document) → (f d).source_ref ≡ d.source_ref)
      → IsValid s
      → In row s.documents
      → document_with r (update_document row.id f s)
        ≡ (if row.source_ref == r then ok (some (f row)) else document_with r s)
  unfolding document_with update_document
  document_with-update f row r s same v m =
      select_one-update (λ d. d.id) (λ d. d.source_ref) f row r s.documents same v.ids_distinct
        v.refs_distinct m

  -- The insertion of a row with a fresh id and a source ref that is not in use.
  add_document-fresh :
      ⦃db : Postgres⦄ (row : Document) (s : Store)
      → ¬ In row.id (document_ids s)
      → ¬ In row.source_ref (map (λ d. d.source_ref) s.documents)
      → add_document row s ≡ (
          if not (
            fits_update row.title row.source_url (row.product_family, row.brand)
            && db.storable row.source_ref)
          then raised data_error
          else ok (with_document row s))
  unfolding add_document
  add_document-fresh ⦃db⦄ row s n k =
      ap
        (λ b.
          if not (
            fits_update row.title row.source_url (row.product_family, row.brand)
            && db.storable row.source_ref)
          then raised data_error
          else if b
          then raised integrity_error
          else ok (with_document row s))
        free
    where
      free : document_conflict row s ≡ false
      free = ground (
        arith,
        any_iff_In (λ (d : Document). d.id) row.id s.documents,
        any_iff_In (λ (d : Document). d.source_ref) row.source_ref s.documents,
      )

  module _ ⦃h : HashOrder⦄ ⦃db : Postgres⦄ (now : ℕ) (source_type : SourceType)
      (title source_url source_ref : String) where
    -- What `upsert_document` makes of a store without the source ref.
    unfoldable pub created : Store → Document
    created s =
        new_document (db.next_id (document_ids s)) now source_type title source_url source_ref
          (derive_facet title)

    -- Postgres takes the texts of the arguments, without the source ref.
    abbrev pub taken : Bool
    taken = fits_update title source_url (derive_facet title)

    pub upsert-absent :
        (s : Store)
        → ¬ In source_ref (map (λ d. d.source_ref) s.documents)
        → document_with source_ref s ≡ ok none
        → upsert_document now source_type title source_url source_ref s ≡ (
            if not (taken && db.storable source_ref)
            then raised data_error
            else ok (with_document (created s) s, document_row_to_domain (created s)))
    unfolding upsert_document upsert_existing create_document created
    upsert-absent s n e =
        ap
          (λ m. m >>= λ existing.
            upsert_existing now source_type title source_url source_ref (derive_facet title)
              existing s)
          e
        ∙ ap (λ m. m >>= λ s'. ok (s', document_row_to_domain (created s)))
            (add_document-fresh (created s) s (db.next_id_fresh (document_ids s)) n)
        ∙ guard->>= (not (taken && db.storable source_ref)) data_error
            (ok (with_document (created s) s)) (λ s'. ok (s', document_row_to_domain (created s)))

    pub upsert-present :
        (row : Document) (s : Store)
        → document_with source_ref s ≡ ok (some row)
        → upsert_document now source_type title source_url source_ref s
          ≡ refresh_document source_type title source_url (derive_facet title) row s
    unfolding upsert_document upsert_existing
    upsert-present row s e = rw e refl

    -- The store and the document that a refreshed row leads to.
    abbrev pub refresh_to : Document → Store → Store × IndexedDocument
    refresh_to row s = (
      update_document row.id (refreshed title source_url (derive_facet title)) s,
      document_row_to_domain (refreshed title source_url (derive_facet title) row),
    )

    -- The store and the document of a new row.
    abbrev pub create_to : Store → Store × IndexedDocument
    create_to s = (with_document (created s) s, document_row_to_domain (created s))

    -- What holds of both outcomes of an upsert.
    pub upsert-Returns :
        (P : Store × IndexedDocument → Type 0) (s : Store)
        → IsValid s
        → (¬ In source_ref (map (λ d. d.source_ref) s.documents)
            → taken ≡ true
            → P (with_document (created s) s, document_row_to_domain (created s)))
        → ((row : Document)
            → In row s.documents
            → row.source_ref ≡ source_ref
            → same_type row.source_type source_type ≡ true
            → taken ≡ true
            → P (refresh_to row s))
        → Returns P (upsert_document now source_type title source_url source_ref s)
    unfolding refresh_document
    upsert-Returns P s v new old = elim (document_with-cases source_ref s v) [
      | inl (n, e) ↦
          subst (Returns P) (sym (upsert-absent s n e))
            (Returns-guard P _ data_error (ok _) (λ k. new n (ground (arith, k))))
      | inr (row, m, q, e) ↦ subst (Returns P) (sym (upsert-present row s e)) (
          Returns-guard P (not (same_type row.source_type source_type)) other_type _ (λ y.
            Returns-guard P (not taken) data_error (ok _)
              (λ k. old row m q (ground (arith, y)) (ground (arith, k)))))
    ]

    -- An upsert leaves the chunks as they are.
    pub upsert_document-chunks :
        (s : Store)
        → IsValid s
        → Returns
            (λ p. (p.0).chunks ≡ s.chunks)
            (upsert_document now source_type title source_url source_ref s)
    unfolding update_document
    upsert_document-chunks s v =
        upsert-Returns (λ p. (p.0).chunks ≡ s.chunks) s v (λ n t. refl) (λ row m q y t. refl)
