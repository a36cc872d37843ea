-- ===== src/Tests/Storing.antt =====
-- The store, the registry and an ingestion.
use torque_finder.Ingestion.HtmlPipeline.Insertion.{takes}
use torque_finder.Indexing.Store.Valid.{empty-IsValid}
use torque_finder.Ingestion.HtmlParser.Publication.Numbered.{
  IsNumbered, parse_publication-IsNumbered,
}
use torque_finder.Ingestion.HtmlPipeline.Succeeds.{takes_document, ingest-succeeds}
use torque_finder.ProductMatch.Guide.{guide_is_product, is_variant, is_genre}
use torque_finder.ProductMatch.Detect.{detect_brand, detect_family, is_brand, phrase_in}
use torque_finder.ProductMatch.Scopes.{derive_facet, normalize_product, specific}
use torque_finder.Ingestion.HtmlPipeline.Stored.{ingest-fetch_module_text, Stored, ingest-stores}
use torque_finder.Indexing.Table.{select_one, update_row}
use torque_finder.Indexing.Repository.{
  upsert_document, upsert_existing, fetch_module_text, create_document, document_with, insert_chunk,
  delete_chunks,
}
use torque_finder.Retrieval.Embedder.{embed_documents, estimate_tokens}
use torque_finder.Domain.Chunk.{html}
use torque_finder.Domain.Publications.{discovered}
use torque_finder.Discovery.Registry.Represents.{IsRegistry}
use torque_finder.Discovery.Registry.{
  Publication, row_to_domain, set_status, set_status_of, get_publication,
}
use torque_finder.Ingestion.HtmlParser.{
  truthy, hash_of, lstrip_of, rstrip_of, tool_list_text, block_text, unseen, content_texts,
  items_texts, image_captions,
}
use torque_finder.Extraction.Parse.{strip}
use torque_finder.Text.Regex.{many, many1}
use torque_finder.Text.Replace.{literal, shortest_before, search_group, sub_from}
use torque_finder.Prelude.Int.{ℤ}
use torque_finder.Prelude.{
  ℕ, zero, suc, ◌+◌, ◌≤◌, String, ◌≡◌, refl, inl, inr, List, [], ◌∷◌, arith, In, string_eq, nat_eq,
  none, keep, ◌==◌, some, opt_eq, length, All, false, true,
}
use torque_finder.Prelude.{map}
use torque_finder.Floats.Fixed.{fixed}
use torque_finder.Text.{contains, text_le, join, tokens, scan, lower}
use torque_finder.Domain.Errors.{Result, ok, raised}
use torque_finder.Domain.Documents.{ParsedPublication, IndexedDocument}
use torque_finder.Indexing.Store.{
  Postgres, empty_store, fits_columns, fits_update, add_document, add_chunk, fits_vector,
}
use torque_finder.Ingestion.ManualData.{
  Entities, extract_manual_data_json, manual_data_open, strip_html,
}
use torque_finder.Ingestion.HtmlParser.Publication.{
  parse_publication, parse_data, append, parse_modules, parse_module, parse_children, parse_child,
}
use torque_finder.Ingestion.HtmlPipeline.{
  Collaborators, World, ingest_publication, embed_chunks, store_publication, replace_chunks,
  insert_chunks,
}
use torque_finder.Tests.Data.{ascii, order, python, half}

abbrev pub total : List ℕ → ℕ
total [] = 0
total (n ∷ ns) = n + total ns

pub In-total : (n : ℕ) (ns : List ℕ) → In n ns → n ≤ total ns
In-total n [] h = absurd h
In-total n (m ∷ ns) (inl e) = omega (arith, e)
In-total n (m ∷ ns) (inr h) = omega (arith, In-total n ns h)

-- A new id is one more than the sum of the ids.
instance abbrev pub postgres : Postgres
postgres = record {
  next_id = λ used. suc (total used);
  next_id_fresh = λ used h. omega (arith, In-total (suc (total used)) used h);
  storable = λ text. true;
  indexable = λ text. true;
  text_le = text_le;
  matches = λ pattern text. contains pattern text;
  ilike = λ pattern text. contains pattern text;
}

instance abbrev pub no_entities : Entities
no_entities = record { unescape = λ text. text }

abbrev pub page : String
page = "<html><script id=\"manual-data\">manual</script>"

abbrev pub vector : ℕ → List ℤ
vector zero = []
vector (suc n) = half ∷ vector n

abbrev collaborators : Collaborators
collaborators = record { fetch = λ url. ok page; send = λ texts. ok (map (λ t. vector 1024) texts) }

abbrev parsed_of : Result ParsedPublication → ParsedPublication
parsed_of (ok p) = p
parsed_of (raised _) = record { title = ""; chunks = [] }

parse_run : parse_publication "u" page ≡ ok (parsed_of (parse_publication "u" page))
unfolding parse_publication extract_manual_data_json manual_data_open literal shortest_before
    search_group many many1 strip parse_data append parse_modules parse_module parse_children
    parse_child truthy hash_of lstrip_of rstrip_of tool_list_text block_text unseen content_texts
    items_texts strip_html sub_from image_captions
parse_run = refl

parse_texts :
    map (λ c. c.text) (parsed_of (parse_publication "u" page)).chunks ≡ "Bolts" ∷ "11 N-m" ∷ []
unfolding parse_publication extract_manual_data_json manual_data_open literal shortest_before
    search_group many many1 strip parse_data append parse_modules parse_module parse_children
    parse_child truthy hash_of lstrip_of rstrip_of tool_list_text block_text unseen content_texts
    items_texts strip_html sub_from image_captions
parse_texts = refl

abbrev pub pike : Publication
pike = record {
  id = 1;
  pub_id = "p1";
  pub_type = "SM";
  title = "Pike";
  locale = "en";
  source_url = "u";
  series = [];
  models = [];
  procedures = [];
  referenced_by_models = [];
  content_hash = "h1";
  status = discovered;
  discovered_at = 1;
  last_seen_at = 1;
}

abbrev world : World
world = record { store = empty_store; publications = pike ∷ [] }

pub rows-IsRegistry : IsRegistry (pike ∷ [])
rows-IsRegistry = record { ids_distinct = ((λ m. m), tt); pub_ids_distinct = ((λ m. m), tt) }

abbrev pike_ingest : Result (World × IndexedDocument)
pike_ingest = ingest_publication collaborators 5 (row_to_domain pike) world

abbrev world_of : Result (World × IndexedDocument) → World
world_of (ok p) = p.0
world_of (raised _) = world

abbrev document_of : Result (World × IndexedDocument) → IndexedDocument
document_of (ok p) = p.1
document_of (raised _) = record {
  id = 0;
  source_type = html;
  title = "";
  source_url = "";
  source_ref = "";
  created_at = 0;
  product_family = none;
  brand = none;
}

ingest_run : pike_ingest ≡ ok (world_of pike_ingest, document_of pike_ingest)
unfolding ingest_publication parse_publication extract_manual_data_json manual_data_open literal
    shortest_before search_group many many1 strip parse_data append parse_modules parse_module
    parse_children parse_child truthy hash_of lstrip_of rstrip_of tool_list_text block_text unseen
    content_texts items_texts strip_html sub_from image_captions embed_chunks embed_documents
    estimate_tokens store_publication upsert_document upsert_existing create_document document_with
    select_one update_row fits_update add_document add_chunk fits_columns fits_vector replace_chunks
    insert_chunks insert_chunk delete_chunks set_status set_status_of derive_facet normalize_product
    tokens scan lower specific detect_brand detect_family is_brand guide_is_product is_variant
    is_genre contains phrase_in
ingest_run = refl

ingest-fetch_module_text_example :
    fetch_module_text (document_of pike_ingest).id "m1" (world_of pike_ingest).store
    ≡ join "\n\n" (
        map
          (λ c. c.text)
          (keep
            (λ c. c.parent_anchor == some "m1")
            (parsed_of (parse_publication "u" page)).chunks))
ingest-fetch_module_text_example =
    ingest-fetch_module_text collaborators 5 (row_to_domain pike) world (world_of pike_ingest)
      (document_of pike_ingest) page (parsed_of (parse_publication "u" page)) "m1" ingest_run refl
      parse_run

-- What the ingestion of the example leaves.
abbrev IsStored : Type 0
IsStored =
    (p : String) × (q : ParsedPublication) × (collaborators.fetch "u" ≡ ok p)
    × (parse_publication "u" p ≡ ok q)
    × Stored collaborators 5 (row_to_domain pike) world (world_of pike_ingest)
        (document_of pike_ingest) q

ingest-stores_example : IsStored
ingest-stores_example =
    ingest-stores collaborators 5 (row_to_domain pike) world (world_of pike_ingest)
      (document_of pike_ingest) empty-IsValid rows-IsRegistry ingest_run

abbrev Succeeds : Type 0
Succeeds =
    (w' : World) × (document : IndexedDocument) × (ingest_publication collaborators 5
        (row_to_domain pike) world
      ≡ ok (w', document))

embed_run :
    embed_chunks collaborators 5 (row_to_domain pike) (parsed_of (parse_publication "u" page))
    ≡ ok (vector 1024 ∷ vector 1024 ∷ [])
unfolding parse_publication extract_manual_data_json manual_data_open literal shortest_before
    search_group many many1 strip parse_data append parse_modules parse_module parse_children
    parse_child truthy hash_of lstrip_of rstrip_of tool_list_text block_text unseen content_texts
    items_texts strip_html sub_from image_captions embed_chunks embed_documents estimate_tokens
embed_run = refl

some_chunk : (length (parsed_of (parse_publication "u" page)).chunks == 0) ≡ false
unfolding parse_publication extract_manual_data_json manual_data_open literal shortest_before
    search_group many many1 strip parse_data append parse_modules parse_module parse_children
    parse_child truthy hash_of lstrip_of rstrip_of tool_list_text block_text unseen content_texts
    items_texts strip_html sub_from image_captions
some_chunk = refl

vectors_fit : All (λ e. fits_vector e ≡ true) (vector 1024 ∷ vector 1024 ∷ [])
unfolding fits_vector
vectors_fit = (refl, (refl, tt))

known_run : get_publication "p1" (pike ∷ []) ≡ ok (some (row_to_domain pike))
unfolding get_publication select_one
known_run = refl

texts_fit :
    All (λ c. takes c ≡ true) (parsed_of (parse_publication "u" page)).chunks
    × (takes_document collaborators 5 (row_to_domain pike) (parsed_of (parse_publication "u" page))
        ≡ true)
unfolding parse_publication extract_manual_data_json manual_data_open literal shortest_before
    search_group many many1 strip parse_data append parse_modules parse_module parse_children
    parse_child truthy hash_of lstrip_of rstrip_of tool_list_text block_text unseen content_texts
    items_texts strip_html sub_from image_captions fits_update derive_facet normalize_product tokens
    scan lower specific detect_brand detect_family is_brand guide_is_product is_variant is_genre
    contains phrase_in
texts_fit = ((refl, (refl, tt)), refl)

ingest-succeeds_example : Succeeds
ingest-succeeds_example =
    ingest-succeeds collaborators 5 (row_to_domain pike) world (row_to_domain pike) page
      (parsed_of (parse_publication "u" page)) (vector 1024 ∷ vector 1024 ∷ []) empty-IsValid
      rows-IsRegistry refl parse_run some_chunk embed_run vectors_fit texts_fit.0 texts_fit.1
      (λ row m. absurd m) known_run

parse_publication-IsNumbered_example :
    IsNumbered "u" (parsed_of (parse_publication "u" page)).chunks
parse_publication-IsNumbered_example =
    parse_publication-IsNumbered "u" page (parsed_of (parse_publication "u" page)) parse_run
