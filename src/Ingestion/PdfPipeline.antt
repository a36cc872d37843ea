-- ===== src/Ingestion/PdfPipeline.antt =====
-- ingestion/pipeline.py. What an ingestion writes to are the store, in one transaction, and the
-- objects of the bucket.
pub mod Again
use Prim.Native.String
use torque_finder.Prelude.{
  ℕ, zero, suc, ◌+◌, ◌-◌, ◌*◌, ◌≤◌, ◌<◌, String, ◌≡◌, ◌≢◌, refl, sym, ap, ◌∙◌, subst, ◌↔◌, ◌⊎◌, inl,
  inr, Bool, true, false, not, ◌&&◌, ◌||◌, Option, none, some, List, [], ◌∷◌, ◌++◌, arith, eq_iff,
  if◌then◌else◌, Bool-cases, Option-cases, length, take, any, all, keep, first, In, Before, All,
  is_some, is_none, leb, ltb, ◌==◌, string_eq, nat_eq,
}
use torque_finder.Prelude.{Dict, get, put, map}
use torque_finder.Floats.{Floats}
use torque_finder.Text.{len, show}
use torque_finder.Text.Regex.{CharTables}
use torque_finder.Domain.Errors.{
  Exn, ingestion_error, is_ingestion_error, builtin, value_error, Result, ok, raised, ◌>>=◌, wrap,
}
use torque_finder.Domain.Chunk.{pdf}
use torque_finder.Domain.Documents.{IndexedDocument}
use torque_finder.ProductMatch.Sets.{HashOrder}
use torque_finder.Retrieval.Embedder.{embed_documents}
use torque_finder.Extraction.Client.{Bytes, ◌cat◌}
use torque_finder.Extraction.Parse.{strip}
use torque_finder.Indexing.Store.{Postgres, Store}
use torque_finder.Indexing.Repository.{upsert_document, get_document_by_source_ref, insert_chunk}

-- `ParsedPage` of ingestion/docling_parser.py.
pub record ParsedPage : Type 0 where
  pub page_no : ℕ
  pub text : String

-- What the iterator of `render_pages` yields.
pub data Rendered : Type 0 where
  finished : Rendered
  fails : Exn → Rendered
  yields : (page_no : ℕ) (png_bytes : Bytes) → Rendered → Rendered

-- `except IngestionError: raise`, `except Exception as exc: raise new from exc`
abbrev pub mapped : Exn → Exn → Exn
mapped new e = if is_ingestion_error e then e else new

abbrev pub reraise_as : {A : Type 0} → Exn → Result A → Result A
reraise_as new (ok a) = ok a
reraise_as new (raised e) = raised (mapped new e)

-- `f"{n:04d}"`
abbrev padded : ℕ → String
padded n =
    if leb (len (show n)) 1
    then "000" cat show n
    else if leb (len (show n)) 2
    then "00" cat show n
    else if leb (len (show n)) 3
    then "0" cat show n
    else show n

-- `{p.page_no: p.text for p in parsed_pages}`
abbrev text_by_page : Dict ℕ String → List ParsedPage → Dict ℕ String
text_by_page d [] = d
text_by_page d (p ∷ ps) = text_by_page (put d p.page_no p.text) ps

-- `dict.get(key, default)`, for texts.
abbrev text_or_empty : Option String → String
text_or_empty none = ""
text_or_empty (some s) = s

-- `_embed_input`
unfoldable pub embed_input : ⦃u : CharTables⦄ → ParsedPage → String
unfolding strip show
embed_input page =
    let text = strip page.text in
    if text == "" then "[empty page " cat show page.page_no cat "]" else text

abbrev pub not_found : Exn
not_found = ingestion_error "PDF not found"

module _ ⦃fl : Floats⦄ where
  open fl use {Float}

  -- The file, the parser and the renderer, the bucket (which may raise on an upload), and
  -- `VoyageEmbedder._embed`.
  pub record Tools : Type 0 where
    pub is_file : String → Bool
    pub name : String → String
    pub sha256_file : String → String
    pub read_bytes : String → Bytes
    pub parse_pdf : String → Result (List ParsedPage)
    pub render_pages : String → Result Rendered
    pub refuses : String → Bytes → Option Exn
    pub send : List String → Result (List (List Float))

  -- What an ingestion writes to.
  pub record Shelf : Type 0 where
    pub store : Store
    pub objects : Dict String Bytes

  -- `{page.page_no: vec for page, vec in zip(parsed_pages, embeddings, strict=True)}`
  abbrev embedding_by_page :
      Dict ℕ (List Float) → List ParsedPage → List (List Float) → Result (Dict ℕ (List Float))
  embedding_by_page d [] [] = ok d
  embedding_by_page d [] (e ∷ es) = raised (builtin value_error)
  embedding_by_page d (p ∷ ps) [] = raised (builtin value_error)
  embedding_by_page d (p ∷ ps) (e ∷ es) = embedding_by_page (put d p.page_no e) ps es

  module _ (tools : Tools) where
    -- `R2Client.upload_bytes`
    unfoldable pub upload_bytes : String → Bytes → Dict String Bytes → Result (Dict String Bytes)
    upload_bytes key bytes objects = elim (tools.refuses key bytes) [
      | none ↦ ok (put objects key bytes)
      | some e ↦ raised e
    ]

    module _ ⦃db : Postgres⦄ (document_id : ℕ) (sha256 pdf_key : String) (texts : Dict ℕ String)
        (embeddings : Dict ℕ (List Float)) where
      -- A page whose text has an embedding: its image and its chunk.
      unfoldable pub persist_page : ℕ → Bytes → List Float → Shelf → Result Shelf
      persist_page page_no png_bytes embedding s =
          let png_key = "pages/" cat sha256 cat "/" cat padded page_no cat ".png" in
          upload_bytes png_key png_bytes s.objects >>= λ objects.
          insert_chunk document_id page_no (text_or_empty (get texts page_no)) embedding
            (pdf_key cat "#page=" cat show page_no) (some png_key) none none s.store
          >>= λ inserted. ok record { store = inserted.0; objects = objects }

      -- A page without an embedding is passed over.
      unfoldable pub persist_if : ℕ → Bytes → Option (List Float) → Shelf → Result Shelf
      persist_if page_no png_bytes none s = ok s
      persist_if page_no png_bytes (some embedding) s = persist_page page_no png_bytes embedding s

      -- The loop of `_render_and_persist`.
      unfoldable pub persist_pages : Rendered → Shelf → Result Shelf
      persist_pages finished s = ok s
      persist_pages (fails e) s = raised (mapped (ingestion_error "render failed") e)
      persist_pages (yields page_no png_bytes more) s =
          persist_if page_no png_bytes (get embeddings page_no) s >>= persist_pages more

    module _ ⦃h : HashOrder⦄ ⦃db : Postgres⦄ ⦃u : CharTables⦄ (now : ℕ) (path : String) where
      -- `pdf_key`
      abbrev pub pdf_key : String
      pdf_key = "pdfs/" cat tools.sha256_file path cat ".pdf"

      -- `if not parsed_pages`
      abbrev some_pages : List ParsedPage → Result (List ParsedPage)
      some_pages [] = raised (ingestion_error "no pages parsed")
      some_pages (p ∷ ps) = ok (p ∷ ps)

      unfoldable pub embed_pages : List ParsedPage → Result (List (List Float))
      embed_pages pages = do
        embeddings ←
            wrap (ingestion_error "embedding failed")
              (embed_documents tools.send (map embed_input pages))
        if length embeddings == length pages
            then ok embeddings
            else raised (ingestion_error "embedder returned another number of vectors")

      -- From the document on.
      unfoldable pub persist_document :
          List ParsedPage
          → Dict String Bytes
          → Store × IndexedDocument
          → Result (Shelf × IndexedDocument)
      persist_document pages objects (upserted, document) = do
        vectors ← embed_pages pages
        embeddings ← embedding_by_page [] pages vectors
        rendered ← reraise_as (ingestion_error "render init failed") (tools.render_pages path)
        shelf ←
            persist_pages document.id (tools.sha256_file path) pdf_key (text_by_page [] pages)
              embeddings rendered record { store = upserted; objects = objects }
        ok (shelf, document)

      -- A file that is not indexed yet.
      unfoldable pub ingest_new : Shelf → Result (Shelf × IndexedDocument)
      ingest_new s = do
        objects ← upload_bytes pdf_key (tools.read_bytes path) s.objects
        pages ← reraise_as (ingestion_error "parsing failed") (tools.parse_pdf path) >>= some_pages
        upserted ←
            upsert_document now pdf (tools.name path) pdf_key (tools.sha256_file path) s.store
        persist_document pages objects upserted

      -- From the lookup of the file's hash on.
      unfoldable pub ingest_unless :
          Option IndexedDocument → Shelf → Result (Shelf × IndexedDocument)
      ingest_unless (some existing) s = ok (s, existing)
      ingest_unless none s = ingest_new s

      -- `ingest`
      unfoldable pub ingest : Shelf → Result (Shelf × IndexedDocument)
      ingest s =
          if not (tools.is_file path)
          then raised not_found
          else (get_document_by_source_ref (tools.sha256_file path) s.store >>= λ existing.
              ingest_unless existing s)
