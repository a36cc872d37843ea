-- ===== src/Tests/Registering.antt =====
-- The repository and the registry.
use torque_finder.Indexing.Repository.Tracked.{IsTracked, reachable-IsTracked}
use torque_finder.Indexing.Store.{add_chunk, fits_columns, fits_vector}
use torque_finder.Indexing.Repository.{insert_chunk, delete_chunks}
use torque_finder.Tests.Storing.{vector}
use torque_finder.ProductMatch.Guide.{guide_is_product, is_variant, is_genre}
use torque_finder.ProductMatch.Detect.{detect_brand, detect_family, is_brand, phrase_in}
use torque_finder.ProductMatch.Scopes.{derive_facet, normalize_product, specific}
use torque_finder.Discovery.Registry.View.{view, view-Represents}
use torque_finder.Indexing.Table.{select_one, update_row}
use torque_finder.Discovery.Registry.Catalog.{Call, upsert_call, status_call, run_catalog}
use torque_finder.Indexing.Mining.Limits.{scan-limits}
use torque_finder.Indexing.Repository.Upsert.Again.{upsert_document-again}
use torque_finder.Indexing.Repository.Upsert.Get.{get-upsert_document}
use torque_finder.Discovery.Registry.Current.{ingested-current, is_ingested}
use torque_finder.Discovery.Registry.{
  Publication, Publications, get_publication, seen_again, upsert, row_to_domain, upsert_row,
}
use torque_finder.Discovery.Registry.Refines.{run-refines}
use torque_finder.Discovery.Registry.Represents.{Simulates, IsRegistry, run_rows, step_rows}
use torque_finder.Indexing.Mining.{scan_chunks_matching}
use torque_finder.Indexing.Repository.Reachable.{◌⟶*◌, more, here, upserts, inserts, deletes}
use torque_finder.Indexing.Repository.{
  upsert_document, get_document_by_source_ref, upsert_existing, create_document, document_with,
}
use torque_finder.Prelude.{
  ◌≤◌, String, ◌≡◌, refl, true, none, some, List, [], ◌∷◌, if◌then◌else◌, length, keep, ◌==◌,
  string_eq, nat_eq, ℕ,
}
use torque_finder.Floats.Fixed.{fixed}
use torque_finder.Text.{tokens, scan, lower, contains}
use torque_finder.Domain.Errors.{Result, ok, raised}
use torque_finder.Domain.Chunk.{html}
use torque_finder.Domain.Documents.{IndexedDocument}
use torque_finder.Domain.Publications.{RegisteredPublication, DiscoveredPublication, ingested}
use torque_finder.Indexing.Store.{Store, empty_store, fits_update, add_document}
use torque_finder.Indexing.Store.Valid.{empty-IsValid}
use torque_finder.Tests.Data.{ascii, order, python}
use torque_finder.Tests.Storing.{postgres, pike, rows-IsRegistry}

abbrev store_of : Result (Store × IndexedDocument) → Store
store_of (ok p) = p.0
store_of (raised _) = empty_store

abbrev returned_of : Result (Store × IndexedDocument) → IndexedDocument
returned_of (ok p) = p.1
returned_of (raised _) = record {
  id = 0;
  source_type = html;
  title = "";
  source_url = "";
  source_ref = "";
  created_at = 0;
  product_family = none;
  brand = none;
}

abbrev p1 : String
p1 = "p1"

abbrev upsert_pike : Result (Store × IndexedDocument)
upsert_pike = upsert_document 5 html "RockShox Pike" "u" "p1" empty_store

upsert_run : upsert_pike ≡ ok (store_of upsert_pike, returned_of upsert_pike)
unfolding upsert_document upsert_existing create_document document_with select_one fits_update
    add_document derive_facet normalize_product tokens scan lower specific detect_brand
    detect_family is_brand guide_is_product is_variant is_genre contains phrase_in
upsert_run = refl

get-upsert_document_example : get_document_by_source_ref "p1" (store_of upsert_pike) ≡ (
    if p1 == p1
    then ok (some (returned_of upsert_pike))
    else get_document_by_source_ref "p1" empty_store)
get-upsert_document_example =
    get-upsert_document 5 html "RockShox Pike" "u" "p1" "p1" empty_store (store_of upsert_pike)
      (returned_of upsert_pike) empty-IsValid upsert_run

upsert_document-again_example :
    upsert_document 9 html "RockShox Pike" "u" "p1" (store_of upsert_pike)
    ≡ ok (store_of upsert_pike, returned_of upsert_pike)
upsert_document-again_example =
    upsert_document-again 5 html "RockShox Pike" "u" "p1" 9 empty_store (store_of upsert_pike)
      (returned_of upsert_pike) empty-IsValid upsert_run

abbrev stored_of : Result (Store × ℕ) → Store
stored_of (ok p) = p.0
stored_of (raised _) = empty_store

abbrev insert_page : Result (Store × ℕ)
insert_page = insert_chunk 1 1 "Bolt 5 Nm" (vector 1024) "u" none none none (store_of upsert_pike)

insert_run : insert_page ≡ ok (stored_of insert_page, 1)
unfolding upsert_document upsert_existing create_document document_with select_one fits_update
    add_document derive_facet normalize_product tokens scan lower specific detect_brand
    detect_family is_brand guide_is_product is_variant is_genre contains phrase_in insert_chunk
    add_chunk fits_columns fits_vector
insert_run = refl

-- A document, a page of it, and the deletion of the pages of another document.
abbrev steps : empty_store ⟶* (delete_chunks 2 (stored_of insert_page)).0
steps = more (upserts 5 html "RockShox Pike" "u" "p1" (returned_of upsert_pike) upsert_run) (
    more (inserts 1 1 1 "Bolt 5 Nm" "u" (vector 1024) none none none insert_run)
      (more (deletes 2) here))

reachable-IsTracked_example : IsTracked steps
reachable-IsTracked_example =
    reachable-IsTracked empty_store (delete_chunks 2 (stored_of insert_page)).0 steps empty-IsValid

scan-limits_example :
    (length (scan_chunks_matching "Nm" none 4 200 empty_store) ≤ 200)
    × (length (keep (λ m. m.document_id == 1) (scan_chunks_matching "Nm" none 4 200 empty_store))
        ≤ 4)
scan-limits_example = scan-limits "Nm" none 4 200 1 empty_store

abbrev seen : String → DiscoveredPublication
seen hash = record {
  pub_id = "p1";
  pub_type = "SM";
  title = "Pike";
  locale = "en";
  source_url = "u";
  series = [];
  models = [];
  procedures = [];
  content_hash = hash;
}

abbrev calls : List Call
calls =
    upsert_call 7 (seen "h2") ("model" ∷ [])
    ∷ status_call "p1" ingested
    ∷ status_call "p2" ingested
    ∷ []

run-refines_example : Simulates (run_rows calls (pike ∷ [])) (run_catalog calls (view (pike ∷ [])))
run-refines_example =
    run-refines calls (pike ∷ []) (view (pike ∷ [])) (view-Represents (pike ∷ []) rows-IsRegistry)

abbrev same_calls : List Call
same_calls = upsert_call 7 (seen "h1") ("model" ∷ []) ∷ []

abbrev done : Publication
done = record pike { status = ingested }

done-IsRegistry : IsRegistry (done ∷ [])
done-IsRegistry = record { ids_distinct = ((λ m. m), tt); pub_ids_distinct = ((λ m. m), tt) }

abbrev rows_of : Result Publications → Publications
rows_of (ok rows) = rows
rows_of (raised _) = []

seen_run : run_rows same_calls (done ∷ []) ≡ ok (seen_again 7 ("model" ∷ []) done ∷ [])
unfolding run_rows step_rows upsert upsert_row select_one update_row
seen_run = refl

seen_get :
    get_publication "p1" (seen_again 7 ("model" ∷ []) done ∷ [])
    ≡ ok (some (row_to_domain (seen_again 7 ("model" ∷ []) done)))
unfolding get_publication select_one
seen_get = refl

abbrev WasIngested : Type 0
WasIngested =
    (a : RegisteredPublication) × (get_publication "p1" (done ∷ []) ≡ ok (some a))
    × (is_ingested a.status ≡ true)
    × (a.content_hash ≡ "h1")

ingested-current_example : WasIngested
ingested-current_example =
    ingested-current "p1" same_calls (done ∷ []) (seen_again 7 ("model" ∷ []) done ∷ [])
      (row_to_domain (seen_again 7 ("model" ∷ []) done)) done-IsRegistry (tt, tt) seen_run seen_get
      refl
