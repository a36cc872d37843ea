-- ===== src/Indexing/Repository.antt =====
-- `Repository` of indexing/repository.py: each method takes the store to the store that it
-- leaves and its result. `now` is the time of the transaction.
pub mod Reachable
pub mod Tracked
pub mod Upsert
use torque_finder.Prelude.{
  ℕ, String, not, ◌&&◌, Option, none, some, List, [], ◌∷◌, if◌then◌else◌, length, keep, first, leb,
  ◌==◌, string_eq, nat_eq, opt_eq,
}
use torque_finder.Prelude.{map}
use mathlib.Core.Option.{map as opt_map}
use torque_finder.Prelude.Sort.{sort_by}
use torque_finder.Indexing.Table.{select_one}
use torque_finder.Floats.{Floats}
use torque_finder.Text.{join}
use torque_finder.Domain.Errors.{ingestion_error, other_error, Result, ok, raised, ◌>>=◌, Exn}
use torque_finder.Domain.Chunk.{SourceType, same_type}
use torque_finder.Domain.Documents.{IndexedDocument}
use torque_finder.ProductMatch.Sets.{HashOrder}
use torque_finder.ProductMatch.Scopes.{derive_facet}
use torque_finder.Indexing.Store.{
  Postgres, Document, Chunk, Store, add_document, update_document, add_chunk, fits_update,
  fits_facet, data_error,
}

-- `_document_row_to_domain`
abbrev pub document_row_to_domain : Document → IndexedDocument
document_row_to_domain row = record {
  id = row.id;
  source_type = row.source_type;
  title = row.title;
  source_url = row.source_url;
  source_ref = row.source_ref;
  created_at = row.created_at;
  product_family = row.product_family;
  brand = row.brand;
}

-- The row of a new document.
abbrev pub new_document :
    ℕ
    → ℕ
    → SourceType
    → (title source_url source_ref : String) → Option String × Option String
    → Document
new_document i now source_type title source_url source_ref facet = record {
  id = i;
  source_type = source_type;
  title = title;
  source_url = source_url;
  source_ref = source_ref;
  product_family = facet.0;
  brand = facet.1;
  created_at = now;
}

-- What an upsert of the other source type raises.
abbrev pub other_type : Exn
other_type = ingestion_error "the document already exists with another source_type"

-- The assignments to the row of an existing document.
abbrev pub refreshed :
    (title source_url : String) → Option String × Option String → Document → Document
refreshed title source_url facet row = record {
  id = row.id;
  source_type = row.source_type;
  title = title;
  source_url = source_url;
  source_ref = row.source_ref;
  product_family = facet.0;
  brand = facet.1;
  created_at = row.created_at;
}

abbrev pub with_facet : Option String × Option String → Document → Document
with_facet facet row = refreshed row.title row.source_url facet row

module _ ⦃fl : Floats⦄ where
  open fl use {Float}

  -- `_get_document_orm_by_source_ref`
  unfoldable pub document_with : String → Store → Result (Option Document)
  document_with source_ref s = select_one (λ d. d.source_ref) source_ref s.documents

  unfoldable pub get_document_by_source_ref : String → Store → Result (Option IndexedDocument)
  get_document_by_source_ref source_ref s =
      document_with source_ref s >>= λ row. ok (opt_map document_row_to_domain row)

  unfoldable pub list_documents : ⦃db : Postgres⦄ → Store → List IndexedDocument
  list_documents ⦃db⦄ s =
      map document_row_to_domain (sort_by (λ a b. db.text_le a.title b.title) s.documents)

  -- The two branches of `upsert_document`.
  unfoldable pub create_document :
      ⦃db : Postgres⦄
      → ℕ
      → SourceType
      → (title source_url source_ref : String) → Option String × Option String
      → Store
      → Result (Store × IndexedDocument)
  create_document ⦃db⦄ now source_type title source_url source_ref facet s =
      let row =
        new_document (db.next_id (map (λ d. d.id) s.documents)) now source_type title source_url
          source_ref facet in
      add_document row s >>= λ s'. ok (s', document_row_to_domain row)

  unfoldable pub refresh_document :
      ⦃db : Postgres⦄
      → SourceType
      → (title source_url : String) → Option String × Option String
      → Document
      → Store
      → Result (Store × IndexedDocument)
  refresh_document source_type title source_url facet row s =
      if not (same_type row.source_type source_type)
      then raised other_type
      else if not (fits_update title source_url facet)
      then raised data_error
      else ok (
        update_document row.id (refreshed title source_url facet) s,
        document_row_to_domain (refreshed title source_url facet row),
      )

  -- `upsert_document`, from the row with the source ref on.
  unfoldable pub upsert_existing :
      ⦃db : Postgres⦄
      → ℕ
      → SourceType
      → (title source_url source_ref : String) → Option String × Option String
      → Option Document
      → Store
      → Result (Store × IndexedDocument)
  upsert_existing now source_type title source_url source_ref facet none s =
      create_document now source_type title source_url source_ref facet s
  upsert_existing now source_type title source_url source_ref facet (some row) s =
      refresh_document source_type title source_url facet row s

  unfoldable pub upsert_document :
      ⦃h : HashOrder⦄ ⦃db : Postgres⦄
      → ℕ
      → SourceType
      → (title source_url source_ref : String) → Store
      → Result (Store × IndexedDocument)
  upsert_document now source_type title source_url source_ref s =
      document_with source_ref s >>= λ existing.
      upsert_existing now source_type title source_url source_ref (derive_facet title) existing s

  -- `set_product_facet`, from the row with the id on.
  unfoldable pub set_facet_of :
      ⦃db : Postgres⦄ → Option String × Option String → Option Document → Store → Result Store
  set_facet_of facet none s = raised (ingestion_error "the document is not found for facet update")
  set_facet_of facet (some row) s =
      if not (fits_facet facet)
      then raised data_error
      else ok (update_document row.id (with_facet facet) s)

  unfoldable pub set_product_facet :
      ⦃db : Postgres⦄ → ℕ → (product_family brand : Option String) → Store → Result Store
  set_product_facet document_id product_family brand s =
      set_facet_of (product_family, brand) (first (λ d. d.id == document_id) s.documents) s

  -- The row of a new chunk.
  abbrev pub new_chunk :
      ℕ
      → (document_id ordinal : ℕ) (text : String) (embedding : List Float) (source_url : String)
        (png_r2_key anchor parent_anchor : Option String)
      → Chunk
  new_chunk i document_id ordinal text embedding source_url png_r2_key anchor parent_anchor =
      record {
        id = i;
        document_id = document_id;
        ordinal = ordinal;
        text = text;
        embedding = embedding;
        png_r2_key = png_r2_key;
        anchor = anchor;
        parent_anchor = parent_anchor;
        source_url = source_url;
      }

  unfoldable pub insert_chunk :
      ⦃db : Postgres⦄
      → (document_id ordinal : ℕ) (text : String) (embedding : List Float) (source_url : String)
        (png_r2_key anchor parent_anchor : Option String)
      → Store
      → Result (Store × ℕ)
  insert_chunk ⦃db⦄ document_id ordinal text embedding source_url png_r2_key anchor parent_anchor
        s =
      let i = db.next_id (map (λ c. c.id) s.chunks) in
      add_chunk
        (new_chunk i document_id ordinal text embedding source_url png_r2_key anchor parent_anchor)
        s
      >>= λ s'. ok (s', i)

  -- The deletion, and `rowcount`.
  unfoldable pub delete_chunks : ℕ → Store → Store × ℕ
  delete_chunks document_id s = (
    record {
      documents = s.documents;
      chunks = keep (λ c. not (c.document_id == document_id)) s.chunks;
    },
    length (keep (λ c. c.document_id == document_id) s.chunks),
  )

  -- The rows of `chunks` of a module, ordered by `ordinal`.
  abbrev pub module_chunks : ℕ → String → Store → List Chunk
  module_chunks document_id parent_anchor s =
      sort_by (λ a b. leb a.ordinal b.ordinal)
        (keep (λ c. (c.document_id == document_id) && (c.parent_anchor == some parent_anchor))
          s.chunks)

  unfoldable pub fetch_module_text : ℕ → String → Store → String
  fetch_module_text document_id parent_anchor s =
      join "\n\n" (map (λ c. c.text) (module_chunks document_id parent_anchor s))
