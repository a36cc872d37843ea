-- ===== src/Indexing/Store.antt =====
-- The tables of indexing/repository.py, and what the database makes of an insertion, an update
-- and a deletion. A session sees its own writes, and the caller rolls back what raises.
pub mod Valid
use torque_finder.Prelude.{
  ℕ, String, Bool, true, none, some, not, ◌&&◌, ◌||◌, Option, List, [], ◌∷◌, if◌then◌else◌, length,
  any, In, ◌==◌, string_eq, nat_eq, map,
}
use torque_finder.Indexing.Table.{integrity_error, update_row}
use torque_finder.Floats.{Floats}
use torque_finder.Domain.Errors.{Exn, other_error, Result, ok, raised}
use torque_finder.Domain.Chunk.{SourceType}

-- What the program leaves to Postgres: the ids of new rows, the texts that it takes, and its tests
-- on texts.
pub record Postgres : Type 0 where
  -- the id of a new row, from those in use
  pub next_id : List ℕ → ℕ
  pub next_id_fresh : (used : List ℕ) → ¬ In (next_id used) used
  -- whether a column and its indexes take a text: not one with the character U+0000
  pub storable : String → Bool
  -- whether the column `tsv` can be generated from a text: not from one that is too long
  pub indexable : String → Bool
  -- the order of the database's collation
  pub text_le : String → String → Bool
  -- `text ~* pattern`
  pub matches : (pattern text : String) → Bool
  -- `text ILIKE pattern`
  pub ilike : (pattern text : String) → Bool

-- What the driver raises on a value that a column does not take.
abbrev pub data_error : Exn
data_error = other_error "DataError"

abbrev pub text_or_null : ⦃db : Postgres⦄ → Option String → Bool
text_or_null none = true
text_or_null ⦃db⦄ (some text) = db.storable text

-- `Document`. Its check constraint is the type of `source_type`.
pub record Document : Type 0 where
  pub id : ℕ
  pub source_type : SourceType
  pub title : String
  pub source_url : String
  pub source_ref : String
  pub product_family : Option String
  pub brand : Option String
  pub created_at : ℕ

-- The columns take the facet, and with it the title and the url, of a document.
abbrev pub fits_facet : ⦃db : Postgres⦄ → Option String × Option String → Bool
fits_facet facet = text_or_null facet.0 && text_or_null facet.1

unfoldable pub fits_update :
    ⦃db : Postgres⦄ → (title source_url : String) → Option String × Option String → Bool
fits_update ⦃db⦄ title source_url facet =
    db.storable title && db.storable source_url && fits_facet facet

-- The dimension of the column `embedding`.
unfoldable pub fits_vector : {A : Type 0} → List A → Bool
fits_vector embedding = length embedding == 1024

module _ ⦃fl : Floats⦄ where
  open fl use {Float}

  -- `Chunk`, without the generated column `tsv` and the time of creation, which the program
  -- never reads.
  pub record Chunk : Type 0 where
    pub id : ℕ
    pub document_id : ℕ
    pub ordinal : ℕ
    pub text : String
    pub embedding : List Float
    pub png_r2_key : Option String
    pub anchor : Option String
    pub parent_anchor : Option String
    pub source_url : String

  pub record Store : Type 0 where
    pub documents : List Document
    pub chunks : List Chunk

  abbrev pub empty_store : Store
  empty_store = record { documents = []; chunks = [] }

  -- The primary key of `documents` and the constraint that `source_ref` is unique.
  abbrev pub document_conflict : Document → Store → Bool
  document_conflict row s =
      any (λ d. d.id == row.id) s.documents || any (λ d. d.source_ref == row.source_ref) s.documents

  abbrev pub with_document : Document → Store → Store
  with_document row s = record { documents = row ∷ s.documents; chunks = s.chunks }

  -- `INSERT` into `documents`. No query depends on the order of the lists, but for rows that its
  -- `ORDER BY` leaves equal.
  unfoldable pub add_document : ⦃db : Postgres⦄ → Document → Store → Result Store
  add_document ⦃db⦄ row s =
      if not (
        fits_update row.title row.source_url (row.product_family, row.brand)
        && db.storable row.source_ref)
      then raised data_error
      else if document_conflict row s
      then raised integrity_error
      else ok (with_document row s)

  -- `UPDATE` of the row with an id.
  unfoldable pub update_document : ℕ → (Document → Document) → Store → Store
  update_document i f s = record {
    documents = update_row (λ d. d.id) i f s.documents;
    chunks = s.chunks;
  }

  -- `document_id` and `ordinal` of two chunks are equal.
  abbrev pub same_place : Chunk → Chunk → Bool
  same_place a b = (a.document_id == b.document_id) && (a.ordinal == b.ordinal)

  -- The primary key of `chunks`, `uq_chunks_document_ordinal` and the foreign key.
  abbrev pub chunk_conflict : Chunk → Store → Bool
  chunk_conflict row s =
      any (λ c. c.id == row.id) s.chunks
      || any (λ c. same_place c row) s.chunks
      || not (any (λ d. d.id == row.document_id) s.documents)

  abbrev pub with_chunk : Chunk → Store → Store
  with_chunk row s = record { documents = s.documents; chunks = row ∷ s.chunks }

  -- The columns take the values of the row.
  unfoldable pub fits_columns : ⦃db : Postgres⦄ → Chunk → Bool
  fits_columns ⦃db⦄ row =
      fits_vector row.embedding
      && db.storable row.text
      && db.indexable row.text
      && db.storable row.source_url
      && text_or_null row.png_r2_key
      && text_or_null row.anchor
      && text_or_null row.parent_anchor

  -- `INSERT` into `chunks`.
  unfoldable pub add_chunk : ⦃db : Postgres⦄ → Chunk → Store → Result Store
  add_chunk row s =
      if not (fits_columns row)
      then raised data_error
      else if chunk_conflict row s
      then raised integrity_error
      else ok (with_chunk row s)
