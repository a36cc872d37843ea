-- ===== src/Ingestion/PdfPipeline/Again.antt =====
-- A second ingestion of the same file.
use torque_finder.Prelude.{
  ℕ, String, ◌≡◌, refl, sym, ap, ◌∙◌, subst, not, true, Option, none, some, List, [], if◌then◌else◌,
  string_eq, nat_eq, beq_refl,
}
use torque_finder.Prelude.{Dict, get}
use torque_finder.Floats.{Floats}
use torque_finder.Text.Regex.{CharTables}
use torque_finder.Domain.Errors.{ingestion_error, Result, ok, ◌>>=◌}
use torque_finder.Domain.Outcome.{Returns, Returns->>=, Returns-any, >>=-ok, ok-injective, guard-ok}
use torque_finder.Domain.Chunk.{pdf}
use torque_finder.Domain.Documents.{IndexedDocument}
use torque_finder.ProductMatch.Sets.{HashOrder}
use torque_finder.Extraction.Client.{Bytes}
use torque_finder.Indexing.Store.{Postgres, Store, Document, add_chunk, with_chunk, Chunk}
use torque_finder.Indexing.Store.Valid.{IsValid, add_chunk-with_chunk}
use torque_finder.Indexing.Repository.{
  upsert_document, get_document_by_source_ref, insert_chunk, new_chunk,
}
use torque_finder.Indexing.Repository.Upsert.Get.{get-upsert_document, get-documents}
use torque_finder.Ingestion.PdfPipeline.{
  ParsedPage, Rendered, finished, fails, yields, not_found, Tools, Shelf, upload_bytes,
  persist_page, persist_if, persist_pages, persist_document, reraise_as, some_pages, embed_pages,
  embedding_by_page, pdf_key, text_by_page, ingest_new, ingest_unless, ingest, map,
}

module _ ⦃fl : Floats⦄ (tools : Tools) where
  open fl use {Float}

  -- The documents of a store are those of another.
  abbrev Keeps : List Document → Shelf → Type 0
  Keeps ds s = (s.store).documents ≡ ds

  module _ ⦃db : Postgres⦄ (i : ℕ) (sha256 key : String) (texts : Dict ℕ String)
      (embeddings : Dict ℕ (List Float)) where
    insert_chunk-documents :
        (ordinal : ℕ) (text : String) (e : List Float) (url : String)
        (png anchor parent : Option String) (s : Store)
        → Returns
            (λ p. (p.0).documents ≡ s.documents)
            (insert_chunk i ordinal text e url png anchor parent s)
    unfolding insert_chunk
    insert_chunk-documents ordinal text e url png anchor parent s =
        Returns->>= (λ t. t ≡ with_chunk row s) (λ p. (p.0).documents ≡ s.documents)
          (add_chunk row s) _ (add_chunk-with_chunk row s) (λ t q. ap (λ x. x.documents) q)
      where
        row : Chunk
        row =
            new_chunk (db.next_id (map (λ c. c.id) s.chunks)) i ordinal text e url png anchor parent

    persist_if-Keeps :
        (n : ℕ) (png : Bytes) (o : Option (List Float)) (s : Shelf) (ds : List Document)
        → Keeps ds s
        → Returns (Keeps ds) (persist_if tools i sha256 key texts embeddings n png o s)
    unfolding persist_if persist_page
    persist_if-Keeps n png none s ds k = k
    persist_if-Keeps n png (some e) s ds k =
        Returns->>= (λ objects. Unit) (Keeps ds) (upload_bytes tools _ png s.objects) _
          (Returns-any (upload_bytes tools _ png s.objects))
          (λ objects u.
            Returns->>= (λ p. (p.0).documents ≡ (s.store).documents) (Keeps ds) _ _
              (insert_chunk-documents n _ e _ _ none none s.store) (λ p q. q ∙ k))

    persist_pages-Keeps :
        (r : Rendered) (s : Shelf) (ds : List Document)
        → Keeps ds s
        → Returns (Keeps ds) (persist_pages tools i sha256 key texts embeddings r s)
    unfolding persist_pages
    persist_pages-Keeps finished s ds k = k
    persist_pages-Keeps (fails e) s ds k = tt
    persist_pages-Keeps (yields n png more) s ds k =
        Returns->>= (Keeps ds) (Keeps ds)
          (persist_if tools i sha256 key texts embeddings n png (get embeddings n) s) _
          (persist_if-Keeps n png (get embeddings n) s ds k)
          (λ t q. persist_pages-Keeps more t ds q)

  module _ ⦃h : HashOrder⦄ ⦃db : Postgres⦄ ⦃u : CharTables⦄ (now : ℕ) (path : String) where
    persist_document-keeps :
        (pages : List ParsedPage) (objects : Dict String Bytes) (p : Store × IndexedDocument)
        → Returns
            (λ q. (((q.0).store).documents ≡ (p.0).documents) × (q.1 ≡ p.1))
            (persist_document tools now path pages objects p)
    unfolding persist_document
    persist_document-keeps pages objects (s, d) =
        after (embed_pages tools now path pages) _ (λ vectors.
          after (embedding_by_page [] pages vectors) _ (λ embeddings.
            after (reraise_as (ingestion_error "render init failed") (tools.render_pages path)) _
              (λ rendered.
                Returns->>= (Keeps s.documents) Q
                  (persist_pages tools d.id (tools.sha256_file path) (pdf_key tools now path)
                    (text_by_page [] pages) embeddings rendered
                    record { store = s; objects = objects })
                  _
                  (persist_pages-Keeps d.id (tools.sha256_file path) (pdf_key tools now path)
                    (text_by_page [] pages) embeddings rendered
                    record { store = s; objects = objects } s.documents refl)
                  (λ t k. (k, refl)))))
      where
        Q : Shelf × IndexedDocument → Type 0
        Q q = (((q.0).store).documents ≡ s.documents) × (q.1 ≡ d)

        after :
            {A : Type 0} (m : Result A) (f : A → Result (Shelf × IndexedDocument))
            → ((a : A) → Returns Q (f a))
            → Returns Q (m >>= f)
        after m f g = Returns->>= (λ a. Unit) Q m f (Returns-any m) (λ a u. g a)

    found :
        (o : Option IndexedDocument) (s s' : Shelf) (d : IndexedDocument)
        → IsValid s.store
        → get_document_by_source_ref (tools.sha256_file path) s.store ≡ ok o
        → ingest_unless tools now path o s ≡ ok (s', d)
        → get_document_by_source_ref (tools.sha256_file path) s'.store ≡ ok (some d)
    unfolding ingest_unless ingest_new
    found (some x) s s' d v e q =
        subst (λ p. get_document_by_source_ref (tools.sha256_file path) (p.0).store ≡ ok (some p.1))
          (ok-injective _ _ q) e
    found none s s' d v e q =
        let a =
          >>=-ok (upload_bytes tools (pdf_key tools now path) (tools.read_bytes path) s.objects) _ _
            q in
        let b =
          >>=-ok
            (reraise_as (ingestion_error "parsing failed") (tools.parse_pdf path)
              >>= some_pages tools now path)
            _ _ a.2 in
        let c =
          >>=-ok
            (upsert_document now pdf (tools.name path) (pdf_key tools now path)
              (tools.sha256_file path) s.store)
            _ _ b.2 in
        let k =
          subst (Returns (λ q. (((q.0).store).documents ≡ ((c.0).0).documents) × (q.1 ≡ (c.0).1)))
            c.2 (persist_document-keeps b.0 a.0 c.0) in
        get-documents (tools.sha256_file path) (c.0).0 s'.store k.0
        ∙ get-upsert_document now pdf (tools.name path) (pdf_key tools now path)
            (tools.sha256_file path) (tools.sha256_file path) s.store (c.0).0 (c.0).1 v c.1
        ∙ ap
            (λ b.
              if b
              then ok (some (c.0).1)
              else get_document_by_source_ref (tools.sha256_file path) s.store)
            (beq_refl (tools.sha256_file path))
        ∙ ap (λ x. ok (some x)) (sym k.1)

    -- After a PDF was ingested into a valid store, a second ingestion of a file with the same hash
    -- returns the same document and leaves the store and the bucket as they were, whatever the
    -- bucket, the parser, the renderer and the embedding service do by then: even if each of them
    -- raises on every call.
    pub ingest_again :
        (by_then : Tools) (copy : String) (later : ℕ) (s s' : Shelf) (d : IndexedDocument)
        → by_then.is_file copy ≡ true
        → by_then.sha256_file copy ≡ tools.sha256_file path
        → IsValid s.store
        → ingest tools now path s ≡ ok (s', d)
        → ingest by_then later copy s' ≡ ok (s', d)
    unfolding ingest ingest_unless
    ingest_again by_then copy later s s' d is_there same v e =
        let a =
          guard-ok (not (tools.is_file path)) not_found
            (get_document_by_source_ref (tools.sha256_file path) s.store >>= λ existing.
              ingest_unless tools now path existing s)
            (s', d) e in
        let b = >>=-ok (get_document_by_source_ref (tools.sha256_file path) s.store) _ _ a.1 in
        rw (is_there, same)
          (ap (λ m. m >>= λ existing. ingest_unless by_then later copy existing s')
            (found b.0 s s' d v b.1 b.2))
