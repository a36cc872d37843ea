-- ===== src/Ingestion/HtmlPipeline/Succeeds.antt =====
-- When an ingestion succeeds.
use torque_finder.ProductMatch.Scopes.{derive_facet}
use mathlib.Core.Bool.{false≢true, Bool}
use torque_finder.Ingestion.HtmlPipeline.Insertion.{takes, replace_chunks-succeeds}
use torque_finder.Indexing.Repository.Reachable.{upsert_document-IsValid}
use torque_finder.Ingestion.HtmlPipeline.ModuleText.{Ascending-count_up}
use torque_finder.Discovery.Registry.Catalog.{flip, status_call}
use mathlib.Core.Option.{map as opt_map, some-injective}
use torque_finder.Indexing.Repository.Upsert.{document_with-cases}
use torque_finder.Indexing.Repository.Upsert.Get.{get-upsert_document, upsert_document-raises}
use torque_finder.Discovery.Registry.View.{view, view-Represents}
use torque_finder.Discovery.Registry.Refines.{step-refines}
use torque_finder.Discovery.Registry.Represents.{IsRegistry, step_rows, Simulates}
use torque_finder.Indexing.Store.Valid.{IsValid, document_ids}
use torque_finder.Prelude.{
  ℕ, String, ◌≡◌, refl, sym, ap, ◌∙◌, subst, inl, inr, true, false, some, List, Bool-cases, length,
  ◌==◌, string_eq, nat_eq, opt_eq, if◌then◌else◌, beq_refl, none≢some, ◌⊎◌, In-map, ◌&&◌,
}
use torque_finder.Prelude.{map}
use torque_finder.Floats.{Floats}
use torque_finder.Text.Regex.{CharTables}
use torque_finder.Domain.Errors.{ok, ◌>>=◌, wrap, Result, Exn, raised}
use torque_finder.Domain.Outcome.{Returns, >>=-ok, ok-injective, ok≢raised}
use torque_finder.Domain.Chunk.{html}
use torque_finder.Domain.Documents.{IndexedDocument, ParsedPublication}
use torque_finder.Domain.Publications.{RegisteredPublication, ingested, Status}
use torque_finder.ProductMatch.Sets.{HashOrder}
use torque_finder.Extraction.Json.{Python}
use torque_finder.Indexing.Store.{Postgres, Store, fits_vector, Document, fits_update}
use torque_finder.Indexing.Repository.{
  upsert_document, get_document_by_source_ref, document_row_to_domain,
}
use torque_finder.Discovery.Registry.{set_status, get_publication, Publications}
use torque_finder.Ingestion.ManualData.{Entities}
use torque_finder.Ingestion.HtmlParser.Publication.{parse_publication}
use torque_finder.Ingestion.HtmlParser.Publication.Numbered.{parse_publication-IsNumbered}
use torque_finder.Ingestion.HtmlPipeline.{
  Collaborators, World, text_or, store_publication, ingest_publication, embed_chunks, All, In,
  wrong_count, embedding_failed, embed_documents,
}
use torque_finder.Ingestion.HtmlPipeline.Inserted.{Ascending}

module _ ⦃fl : Floats⦄ where
  open fl use {Float}

  -- A document that is found is one of the store.
  found-In :
      (r : String) (document : IndexedDocument) (s : Store)
      → IsValid s
      → get_document_by_source_ref r s ≡ ok (some document)
      → In document.id (document_ids s)
  unfolding get_document_by_source_ref
  found-In r document s v e = elim (document_with-cases r s v) [
    | inl (n, q) ↦ absurd (
        none≢some (
          ok-injective _ _
            (sym (ap (λ m. m >>= λ row. ok (opt_map document_row_to_domain row)) q) ∙ e)))
    | inr (row, m, t, q) ↦
        subst (λ i. In i (document_ids s))
          (ap (λ d. d.id)
            (some-injective _ _ (
              ok-injective _ _
                (sym (ap (λ m. m >>= λ row. ok (opt_map document_row_to_domain row)) q) ∙ e))))
          (In-map (λ (d : Document). d.id) row s.documents m)
  ]

  Result-cases : {A : Type 0} (m : Result A) → ((a : A) × (m ≡ ok a)) ⊎ ((e : Exn) × (m ≡ raised e))
  Result-cases (ok a) = inl (a, refl)
  Result-cases (raised e) = inr (e, refl)

  set_status-succeeds :
      ⦃db : Postgres⦄ (k : String) (status : Status) (rows : Publications)
      (known : RegisteredPublication)
      → IsRegistry rows
      → get_publication k rows ≡ ok (some known)
      → (rows' : Publications) × (set_status k status rows ≡ ok rows')
  unfolding step_rows
  set_status-succeeds k status rows known v e = elim (Result-cases (set_status k status rows)) [
    | inl s ↦ s
    | inr (x, q) ↦ absurd (
        subst (λ m. Simulates m (flip k status (view rows) (some known))) q
          (subst (λ o. Simulates (set_status k status rows) (flip k status (view rows) o))
            (ok-injective _ _ (sym ((view-Represents rows v).answers k) ∙ e))
            (step-refines (status_call k status) rows (view rows) (view-Represents rows v))))
  ]

  module _ ⦃h : HashOrder⦄ ⦃db : Postgres⦄ ⦃u : CharTables⦄ ⦃py : Python⦄ ⦃en : Entities⦄
      (by : Collaborators) (now : ℕ) (publication : RegisteredPublication) where
    -- Postgres takes the texts of the document.
    abbrev pub takes_document : ParsedPublication → Bool
    takes_document parsed =
        let title = text_or parsed.title publication.title in
        fits_update title publication.source_url (derive_facet title)
        && db.storable publication.pub_id

    store_publication-succeeds :
        (w : World) (known : RegisteredPublication) (parsed : ParsedPublication)
        (es : List (List Float))
        → IsValid w.store
        → IsRegistry w.publications
        → Ascending 1 parsed.chunks
        → length es ≡ length parsed.chunks
        → All (λ e. fits_vector e ≡ true) es
        → All (λ c. takes c ≡ true) parsed.chunks
        → takes_document parsed ≡ true
        → ((row : Document)
            → In row (w.store).documents
            → row.source_ref ≡ publication.pub_id
            → row.source_type ≡ html)
        → get_publication publication.pub_id w.publications ≡ ok (some known)
        → (w' : World) × (document : IndexedDocument) × (store_publication by now publication parsed
              es w
            ≡ ok (w', document))
    unfolding store_publication
    store_publication-succeeds w known parsed es v g a l f chunk_texts texts types k =
        elim (Result-cases
          (upsert_document now html title publication.source_url publication.pub_id w.store)) [
            | inr (x, q) ↦
                (let r =
                    upsert_document-raises now html title publication.source_url publication.pub_id
                      w.store x v q in
                  elim r [
                    | inl y ↦ absurd ((y.1).3 (types (y.1).0 (y.1).1 (y.1).2))
                    | inr y ↦ absurd (false≢true (sym y.1 ∙ texts))
                  ])
            | inl (p, q) ↦
                (let u = subst (Returns (λ p. IsValid p.0)) q (
                    upsert_document-IsValid now html title publication.source_url publication.pub_id
                      w.store v) in
                  let found =
                    get-upsert_document now html title publication.source_url publication.pub_id
                      publication.pub_id w.store p.0 p.1 v q
                    ∙ ap
                        (λ b.
                          if b
                          then ok (some p.1)
                          else get_document_by_source_ref publication.pub_id w.store)
                        (beq_refl publication.pub_id) in
                  let rep =
                    replace_chunks-succeeds (p.1).id parsed.chunks es p.0 a
                      (found-In publication.pub_id p.1 p.0 u found) l f chunk_texts in
                  let st =
                    set_status-succeeds publication.pub_id ingested w.publications known g k in
                  (record { store = rep.0; publications = st.0 }, p.1, rw (q, rep.1, st.1) refl))
          ]
      where
        title : String
        title = text_or parsed.title publication.title

    embed_chunks-length :
        (parsed : ParsedPublication) (es : List (List Float))
        → embed_chunks by now publication parsed ≡ ok es
        → length es ≡ length parsed.chunks
    unfolding embed_chunks
    embed_chunks-length parsed es e =
        let a =
          >>=-ok (wrap embedding_failed (embed_documents by.send (map (λ c. c.text) parsed.chunks)))
            _ _ e in
        counted a.0 a.2
      where
        counted :
            (vs : List (List Float))
            → (if length vs == length parsed.chunks then ok vs else raised wrong_count) ≡ ok es
            → length es ≡ length parsed.chunks
        counted vs q = elim (Bool-cases (length vs == length parsed.chunks)) [
          | inl t ↦
              subst (λ x. length x ≡ length parsed.chunks)
                (ok-injective _ _ (sym (ap (λ b. if b then ok vs else raised wrong_count) t) ∙ q))
                ((nat_eq.test_iff (length vs) (length parsed.chunks)).0 t)
          | inr t ↦ absurd (ok≢raised (sym q ∙ ap (λ b. if b then ok vs else raised wrong_count) t))
        ]

    -- A registered publication is ingested, and a document returned, wherever: its page is
    -- fetched, parsed into at least one chunk and embedded with vectors of the column's
    -- dimension; Postgres takes the texts of the document and of the chunks; the store and the
    -- table of publications are valid, the table knows the publication, and its id stands for no
    -- PDF.
    pub ingest-succeeds :
        (w : World) (known : RegisteredPublication) (page : String) (parsed : ParsedPublication)
        (es : List (List Float))
        → IsValid w.store
        → IsRegistry w.publications
        → by.fetch publication.source_url ≡ ok page
        → parse_publication publication.source_url page ≡ ok parsed
        → (length parsed.chunks == 0) ≡ false
        → embed_chunks by now publication parsed ≡ ok es
        → All (λ e. fits_vector e ≡ true) es
        → All (λ c. takes c ≡ true) parsed.chunks
        → takes_document parsed ≡ true
        → ((row : Document)
            → In row (w.store).documents
            → row.source_ref ≡ publication.pub_id
            → row.source_type ≡ html)
        → get_publication publication.pub_id w.publications ≡ ok (some known)
        → (w' : World) × (document : IndexedDocument) × (ingest_publication by now publication w
            ≡ ok (w', document))
    unfolding ingest_publication
    ingest-succeeds w known page parsed es v g fetched parses some_chunk embedded f chunk_texts
          texts types k =
        let stored =
          store_publication-succeeds w known parsed es v g
            (Ascending-count_up 1 parsed.chunks
              (parse_publication-IsNumbered publication.source_url page parsed parses).0)
            (embed_chunks-length parsed es embedded) f chunk_texts texts types k in
        (stored.0, stored.1, rw (fetched, parses, some_chunk, embedded, stored.2) refl)
