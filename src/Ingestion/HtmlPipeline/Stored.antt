-- ===== src/Ingestion/HtmlPipeline/Stored.antt =====
-- What an ingestion that returns has stored.
use torque_finder.Ingestion.HtmlPipeline.ModuleText.{module_text-Holds, Ascending-count_up}
use torque_finder.Indexing.Repository.Upsert.{upsert_document-chunks}
use torque_finder.Indexing.Repository.Upsert.Get.{get-documents, get-upsert_document}
use torque_finder.Discovery.Registry.View.{set_status-sets}
use torque_finder.Discovery.Registry.Represents.{IsRegistry}
use torque_finder.Indexing.Store.Valid.{IsValid}
use torque_finder.Prelude.{
  ℕ, String, ◌≡◌, sym, ap, ◌∙◌, subst, some, List, length, keep, ◌==◌, string_eq, nat_eq, opt_eq,
  if◌then◌else◌, beq_refl,
}
use torque_finder.Prelude.{map}
use torque_finder.Floats.{Floats}
use torque_finder.Text.{join}
use torque_finder.Text.Regex.{CharTables}
use torque_finder.Domain.Errors.{is_discovery_error, ok, ◌>>=◌, wrap, except_as}
use torque_finder.Domain.Outcome.{Returns, >>=-ok, wrap-ok, except_as-ok, guard-ok, ok-injective}
use torque_finder.Domain.Chunk.{html}
use torque_finder.Domain.Documents.{IndexedDocument, ParsedPublication}
use torque_finder.Domain.Publications.{RegisteredPublication, ingested}
use torque_finder.ProductMatch.Sets.{HashOrder}
use torque_finder.Extraction.Json.{Python}
use torque_finder.Indexing.Store.{Postgres, Store}
use torque_finder.Indexing.Repository.{
  upsert_document, fetch_module_text, get_document_by_source_ref,
}
use torque_finder.Discovery.Registry.{set_status, get_publication}
use torque_finder.Ingestion.ManualData.{Entities}
use torque_finder.Ingestion.HtmlParser.Publication.{parse_publication}
use torque_finder.Ingestion.HtmlParser.Publication.Numbered.{parse_publication-IsNumbered}
use torque_finder.Ingestion.HtmlPipeline.{
  Collaborators, World, text_or, flip_failed, replace_chunks, store_publication, ingest_publication,
  embed_chunks, fetch_failed, some_chunks, no_chunks, not,
}
use torque_finder.Ingestion.HtmlPipeline.Inserted.{
  of_document, document_chunks, parsed_chunk, Holds, replace_chunks-Holds, other_chunks,
}

module _ ⦃fl : Floats⦄ where
  open fl use {Float}

  module _ ⦃h : HashOrder⦄ ⦃db : Postgres⦄ ⦃u : CharTables⦄ ⦃py : Python⦄ ⦃en : Entities⦄
      (by : Collaborators) (now : ℕ) (publication : RegisteredPublication) where
    -- The calls of an ingestion that returns.
    record Run (w w' : World) (document : IndexedDocument) (page : String)
        (parsed : ParsedPublication) : Type 0 where
      fetched : by.fetch publication.source_url ≡ ok page
      parses : parse_publication publication.source_url page ≡ ok parsed
      embeddings : List (List Float)
      embedded : embed_chunks by now publication parsed ≡ ok embeddings
      upserted : Store
      upserts :
          upsert_document now html
            (text_or parsed.title publication.title)
            publication.source_url
            publication.pub_id
            w.store
          ≡ ok (upserted, document)
      replaces : replace_chunks document.id parsed.chunks embeddings upserted ≡ ok w'.store
      flipped : set_status publication.pub_id ingested w.publications ≡ ok w'.publications

    ingest-Run :
        (w w' : World) (document : IndexedDocument)
        → ingest_publication by now publication w ≡ ok (w', document)
        → (page : String) × (parsed : ParsedPublication) × Run w w' document page parsed
    unfolding ingest_publication store_publication
    ingest-Run w w' document e =
        let a = >>=-ok (wrap fetch_failed (by.fetch publication.source_url)) _ _ e in
        let b =
          >>=-ok (parse_publication publication.source_url a.0 >>= some_chunks by now publication) _
            _ a.2 in
        let c = >>=-ok (parse_publication publication.source_url a.0) _ _ b.1 in
        let d = >>=-ok (embed_chunks by now publication b.0) _ _ b.2 in
        let f =
          >>=-ok
            (upsert_document now html (text_or (b.0).title publication.title) publication.source_url
              publication.pub_id w.store)
            _ _ d.2 in
        let g = >>=-ok (replace_chunks ((f.0).1).id (b.0).chunks d.0 (f.0).0) _ _ f.2 in
        let k =
          >>=-ok
            (except_as is_discovery_error flip_failed
              (set_status publication.pub_id ingested w.publications))
            _ _ g.2 in
        let done = ok-injective _ _ k.2 in
        let returned = ap (λ p. p.1) done in
        (
          a.0,
          b.0,
          record {
            fetched = wrap-ok fetch_failed (by.fetch publication.source_url) a.0 a.1;
            parses =
                c.1
                ∙ ap ok (
                    ok-injective c.0 b.0
                      (guard-ok (length (c.0).chunks == 0) no_chunks (ok c.0) b.0 c.2).1);
            embeddings = d.0;
            embedded = d.1;
            upserted = (f.0).0;
            upserts = f.1 ∙ ap (λ x. ok ((f.0).0, x)) returned;
            replaces =
                subst (λ x. replace_chunks x.id (b.0).chunks d.0 (f.0).0 ≡ ok w'.store) returned
                  (g.1 ∙ ap (λ p. ok (p.0).store) done);
            flipped =
                except_as-ok is_discovery_error flip_failed
                  (set_status publication.pub_id ingested w.publications) k.0 k.1
                ∙ ap (λ p. ok (p.0).publications) done;
          },
        )

    -- The rows that an ingestion leaves.
    Run-Holds :
        (w w' : World) (document : IndexedDocument) (page : String) (parsed : ParsedPublication)
        (r : Run w w' document page parsed)
        → Holds document.id parsed.chunks r.embeddings r.upserted w'.store
    Run-Holds w w' document page parsed r =
        subst (Returns (Holds document.id parsed.chunks r.embeddings r.upserted)) r.replaces (
          replace_chunks-Holds document.id parsed.chunks r.embeddings r.upserted (
            Ascending-count_up 1 parsed.chunks
              (parse_publication-IsNumbered publication.source_url page parsed r.parses).0))

    -- What an ingestion that returned a document leaves, for a parsed publication.
    abbrev pub Stored : World → World → IndexedDocument → ParsedPublication → Type 0
    Stored w w' document parsed =
        (get_document_by_source_ref publication.pub_id w'.store ≡ ok (some document))
        × (map parsed_chunk (document_chunks document.id w'.store) ≡ parsed.chunks)
        × (other_chunks document.id w'.store ≡ other_chunks document.id w.store)
        × ((known : RegisteredPublication) × (get_publication publication.pub_id w'.publications
              ≡ ok (some (record known { status = ingested }))))

    Run-Stored :
        (w w' : World) (document : IndexedDocument) (page : String) (parsed : ParsedPublication)
        → IsValid w.store
        → IsRegistry w.publications
        → Run w w' document page parsed
        → Stored w w' document parsed
    Run-Stored w w' document page parsed v g r =
        let holds = Run-Holds w w' document page parsed r in
        let flip =
          set_status-sets publication.pub_id ingested w.publications w'.publications g r.flipped in
        (
          get-documents publication.pub_id r.upserted w'.store holds.documents_kept
              ∙ get-upsert_document now html (text_or parsed.title publication.title)
                  publication.source_url publication.pub_id publication.pub_id w.store r.upserted
                  document v r.upserts
              ∙ ap
                  (λ b.
                    if b
                    then ok (some document)
                    else get_document_by_source_ref publication.pub_id w.store)
                  (beq_refl publication.pub_id),
          holds.holds_chunks,
          holds.others_kept
              ∙ ap (keep (λ c. not (of_document document.id c))) (
                  subst (Returns (λ p. (p.0).chunks ≡ (w.store).chunks)) r.upserts (
                    upsert_document-chunks now html (text_or parsed.title publication.title)
                      publication.source_url publication.pub_id w.store v)),
          (flip.0, flip.2),
        )

    -- An ingestion that returns a document, from a valid store and a valid table of publications,
    -- leaves it as the document of the publication's id; the rows of the document hold just the
    -- chunks that the parser finds on the fetched page, in their order; no chunk of another
    -- document has changed; and the publication has the status 'ingested'.
    pub ingest-stores :
        (w w' : World) (document : IndexedDocument)
        → IsValid w.store
        → IsRegistry w.publications
        → ingest_publication by now publication w ≡ ok (w', document)
        → (page : String) × (parsed : ParsedPublication) × (by.fetch publication.source_url
            ≡ ok page)
          × (parse_publication publication.source_url page ≡ ok parsed)
          × Stored w w' document parsed
    ingest-stores w w' document v g e = stored (ingest-Run w w' document e)
      where
        stored :
            (page : String) × (parsed : ParsedPublication) × Run w w' document page parsed
            → (page : String) × (parsed : ParsedPublication) × (by.fetch publication.source_url
                ≡ ok page)
              × (parse_publication publication.source_url page ≡ ok parsed)
              × Stored w w' document parsed
        stored (page, parsed, r) =
            (page, parsed, r.fetched, r.parses, Run-Stored w w' document page parsed v g r)

    -- The text of a module of a publication that was ingested is that of the parsed chunks that
    -- have the module as their parent, in their order and joined by empty lines.
    pub ingest-fetch_module_text :
        (w w' : World) (document : IndexedDocument) (page : String) (parsed : ParsedPublication)
        (parent_anchor : String)
        → ingest_publication by now publication w ≡ ok (w', document)
        → by.fetch publication.source_url ≡ ok page
        → parse_publication publication.source_url page ≡ ok parsed
        → fetch_module_text document.id parent_anchor w'.store
          ≡ join "\n\n"
              (map (λ c. c.text) (keep (λ c. c.parent_anchor == some parent_anchor) parsed.chunks))
    ingest-fetch_module_text w w' document page parsed m e f p = told (ingest-Run w w' document e)
      where
        told :
            (page : String) × (parsed : ParsedPublication) × Run w w' document page parsed
            → fetch_module_text document.id m w'.store
              ≡ join "\n\n"
                  (map (λ c. c.text) (keep (λ c. c.parent_anchor == some m) parsed.chunks))
        told (page', parsed', r) =
            module_text-Holds document.id parsed'.chunks r.embeddings r.upserted w'.store m
              (Run-Holds w w' document page' parsed' r)
            ∙ ap
                (λ x.
                  join "\n\n" (map (λ c. c.text) (keep (λ c. c.parent_anchor == some m) x.chunks)))
                same
          where
            same : parsed' ≡ parsed
            same = ok-injective _ _ (
                sym r.parses
                ∙ ap (parse_publication publication.source_url)
                    (ok-injective _ _ (sym r.fetched ∙ f))
                ∙ p)
