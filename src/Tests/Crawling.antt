-- ===== src/Tests/Crawling.antt =====
-- A crawl, and the ingestion of a PDF.
use torque_finder.Prelude.{
  ℕ, String, ◌≡◌, refl, sym, subst, inl, true, none, some, [], ◌∷◌, if◌then◌else◌, In, ◌==◌,
  string_eq, nat_eq,
}
use torque_finder.Prelude.{map, get, put}
use torque_finder.Floats.Fixed.{fixed}
use torque_finder.Text.{tokens, scan, lower, contains, show}
use torque_finder.Text.Regex.{many}
use torque_finder.Text.Replace.{literal, shortest_before, search_group}
use torque_finder.Domain.Errors.{Result, ok, raised}
use torque_finder.Domain.Chunk.{pdf}
use torque_finder.Domain.Documents.{IndexedDocument}
use torque_finder.Domain.Publications.{RegisteredPublication, PublicationRef}
use torque_finder.ProductMatch.Scopes.{derive_facet, normalize_product, specific}
use torque_finder.ProductMatch.Detect.{is_brand, phrase_in, detect_brand, detect_family}
use torque_finder.ProductMatch.Guide.{is_variant, is_genre, guide_is_product}
use torque_finder.Extraction.Parse.{strip}
use torque_finder.Indexing.Table.{select_one}
use torque_finder.Indexing.Store.{
  empty_store, fits_columns, fits_update, fits_vector, add_document, add_chunk,
}
use torque_finder.Indexing.Store.Valid.{empty-IsValid}
use torque_finder.Indexing.Repository.{
  upsert_document, upsert_existing, create_document, document_with, get_document_by_source_ref,
  insert_chunk,
}
use torque_finder.Ingestion.ManualData.{extract_manual_data_json, manual_data_open}
use torque_finder.Ingestion.PdfPipeline.{
  Tools, not_found, Shelf, finished, yields, ingest, ingest_new, ingest_unless, upload_bytes,
  persist_page, persist_if, persist_pages, persist_document, embed_pages, embed_input,
}
use torque_finder.Ingestion.PdfPipeline.Again.{ingest_again}
use torque_finder.Retrieval.Embedder.{embed_documents, estimate_tokens}
use torque_finder.Discovery.Registry.{
  Publications, upsert, upsert_row, add_publication, get_publication, sorted_set,
}
use torque_finder.Discovery.Registry.Represents.{IsRegistry}
use torque_finder.Discovery.ModelPage.{parse_publication_refs, find_links, collect, prefer_typed}
use torque_finder.Discovery.Probe.{
  Hashing, build_publication, publication_of, filter_values, first_filter, option_values,
  text_values,
}
use torque_finder.Discovery.Crawler.{note_refs, crawl_models, register, register_all, discover_seed}
use torque_finder.Discovery.Crawler.Registered.{discover_seed-registers}
use torque_finder.Tests.Data.{ascii, order, python}
use torque_finder.Tests.Storing.{postgres, page, vector}

instance abbrev raw_text : Hashing
raw_text = record { sha256 = λ text. text }

abbrev model_page : String
model_page =
    "<a href=https://docs.sram.com/en/publications/P1/SM> https://docs.sram.com/en/publications/P1"

abbrev fetch : String → Result String
fetch url = if url == "b/en/service/models/m" then ok model_page else ok page

abbrev pike_ref : PublicationRef
pike_ref = record {
  pub_id = "P1";
  pub_type = "SM";
  source_url = "https://docs.sram.com/en/publications/P1";
}

abbrev rows_of : Result (Publications × ℕ × ℕ × ℕ) → Publications
rows_of (ok p) = p.0
rows_of (raised _) = []

refs_run : parse_publication_refs model_page ≡ pike_ref ∷ []
unfolding parse_publication_refs find_links collect prefer_typed get put
refs_run = refl

crawl_run :
    discover_seed fetch "b" 7 ("m" ∷ []) []
    ≡ ok (rows_of (discover_seed fetch "b" 7 ("m" ∷ []) []), 1, 1, 1)
unfolding discover_seed crawl_models note_refs register_all register parse_publication_refs
    find_links collect prefer_typed get put build_publication publication_of filter_values
    first_filter option_values text_values strip extract_manual_data_json manual_data_open literal
    shortest_before search_group many upsert upsert_row add_publication select_one sorted_set
crawl_run = refl

abbrev IsKnown : Type 0
IsKnown =
    (p : RegisteredPublication) × (get_publication "P1"
        (rows_of (discover_seed fetch "b" 7 ("m" ∷ []) []))
      ≡ ok (some p))

empty-IsRegistry : IsRegistry []
empty-IsRegistry = record { ids_distinct = tt; pub_ids_distinct = tt }

discover_seed-registers_example :
    IsRegistry (rows_of (discover_seed fetch "b" 7 ("m" ∷ []) [])) × IsKnown
discover_seed-registers_example =
    discover_seed-registers fetch "b" 7 ("m" ∷ []) []
      (rows_of (discover_seed fetch "b" 7 ("m" ∷ []) [])) 1 1 1 "m" model_page pike_ref
      empty-IsRegistry crawl_run (inl refl) refl
      (subst (λ refs. In pike_ref refs) (sym refs_run) (inl refl))

abbrev tools : Tools
tools = record {
  is_file = λ path. true;
  name = λ path. "pike.pdf";
  sha256_file = λ path. "abc";
  read_bytes = λ path. 1 ∷ [];
  parse_pdf = λ path. ok (record { page_no = 1; text = "Bolt 5 Nm" } ∷ []);
  render_pages = λ path. ok (yields 1 (2 ∷ []) (yields 2 (3 ∷ []) finished));
  refuses = λ key bytes. none;
  send = λ texts. ok (map (λ t. vector 1024) texts);
}

abbrev empty_shelf : Shelf
empty_shelf = record { store = empty_store; objects = [] }

abbrev shelf_of : Result (Shelf × IndexedDocument) → Shelf
shelf_of (ok p) = p.0
shelf_of (raised _) = empty_shelf

abbrev document_of : Result (Shelf × IndexedDocument) → IndexedDocument
document_of (ok p) = p.1
document_of (raised _) = record {
  id = 0;
  source_type = pdf;
  title = "";
  source_url = "";
  source_ref = "";
  created_at = 0;
  product_family = none;
  brand = none;
}

abbrev pdf_ingest : Result (Shelf × IndexedDocument)
pdf_ingest = ingest tools 5 "pike.pdf" empty_shelf

pdf_run : pdf_ingest ≡ ok (shelf_of pdf_ingest, document_of pdf_ingest)
unfolding ingest ingest_unless ingest_new upload_bytes persist_document persist_pages persist_if
    persist_page embed_pages embed_input embed_documents estimate_tokens strip show get put
    get_document_by_source_ref document_with select_one upsert_document upsert_existing
    create_document fits_update add_document add_chunk insert_chunk fits_columns fits_vector
    derive_facet normalize_product tokens scan lower specific detect_brand detect_family is_brand
    guide_is_product is_variant is_genre contains phrase_in
pdf_run = refl

-- One page is stored: the second has no text.
stored_pages : map (λ c. c.ordinal) ((shelf_of pdf_ingest).store).chunks ≡ 1 ∷ []
unfolding ingest ingest_unless ingest_new upload_bytes persist_document persist_pages persist_if
    persist_page embed_pages embed_input embed_documents estimate_tokens strip show get put
    get_document_by_source_ref document_with select_one upsert_document upsert_existing
    create_document fits_update add_document add_chunk insert_chunk fits_columns fits_vector
    derive_facet normalize_product tokens scan lower specific detect_brand detect_family is_brand
    guide_is_product is_variant is_genre contains phrase_in
stored_pages = refl

-- Tools that know the hash of a file, and fail at all else.
abbrev broken_tools : Tools
broken_tools = record {
  is_file = λ path. true;
  name = λ path. "";
  sha256_file = λ path. "abc";
  read_bytes = λ path. [];
  parse_pdf = λ path. raised not_found;
  render_pages = λ path. raised not_found;
  refuses = λ key bytes. some not_found;
  send = λ texts. raised not_found;
}

ingest_again_example :
    ingest broken_tools 9 "copy.pdf" (shelf_of pdf_ingest)
    ≡ ok (shelf_of pdf_ingest, document_of pdf_ingest)
ingest_again_example =
    ingest_again tools 5 "pike.pdf" broken_tools "copy.pdf" 9 empty_shelf (shelf_of pdf_ingest)
      (document_of pdf_ingest) refl refl empty-IsValid pdf_run
