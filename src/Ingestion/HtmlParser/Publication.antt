-- ===== src/Ingestion/HtmlParser/Publication.antt =====
-- `parse_publication`.
pub mod Numbered
use mathlib.Core.List.{List, [], ◌∷◌}
use torque_finder.Prelude.{
  ℕ, suc, String, Option, none, List, [], ◌∷◌, ◌++◌, if◌then◌else◌, ◌==◌, string_eq, nat_eq,
}
use torque_finder.Floats.{Floats}
use torque_finder.Text.Regex.{CharTables}
use torque_finder.Domain.Errors.{
  ingestion_error, is_discovery_error, Result, ok, ◌>>=◌, except_as, Exn,
}
use torque_finder.Domain.Documents.{HtmlChunk, html_chunk, ParsedPublication}
use torque_finder.Extraction.Json.{Json, object, str, payload_get, Python, array, no_items}
use torque_finder.Extraction.Parse.{strip, is_decode_error}
use torque_finder.Ingestion.ManualData.{Entities, extract_manual_data_json}
use torque_finder.Ingestion.HtmlParser.{
  truthy, or_json, get_field, iterate, as_text, text_field, hash_of, deep_link, or_else,
  tool_list_text, block_text,
}

-- The two errors that are mapped to an `IngestionError`.
abbrev pub no_block : Exn
no_block = ingestion_error "publication HTML has no <script id='manual-data'> block"

abbrev pub not_json : Exn
not_json = ingestion_error "manual-data JSON is invalid"

-- `ordinal` and `chunks`.
pub record Parsed : Type 0 where
  pub ordinal : ℕ
  pub chunks : List HtmlChunk

module _ ⦃fl : Floats⦄ ⦃u : CharTables⦄ ⦃py : Python⦄ ⦃h : Entities⦄ (base_url : String) where
  -- `_append`, from the stripped text on.
  abbrev append_text : String → (anchor parent_anchor : Option String) → Parsed → Result Parsed
  append_text text anchor parent_anchor parsed = if text == "" then ok parsed else (do
    chunk ←
        html_chunk (suc parsed.ordinal) text anchor parent_anchor
          (deep_link base_url (or_else anchor parent_anchor))
    ok record { ordinal = suc parsed.ordinal; chunks = parsed.chunks ++ (chunk ∷ []) })

  -- `_append`
  unfoldable pub append : String → (anchor parent_anchor : Option String) → Parsed → Result Parsed
  append text anchor parent_anchor parsed = append_text (strip text) anchor parent_anchor parsed

  -- The body of the loop over the children of a module.
  unfoldable pub parse_child : Option String → Json → Parsed → Result Parsed
  parse_child module_hash (object child) parsed =
      append (block_text child) (hash_of child) module_hash parsed
  parse_child module_hash _ parsed = ok parsed

  unfoldable pub parse_children : Option String → List Json → Parsed → Result Parsed
  parse_children module_hash [] parsed = ok parsed
  parse_children module_hash (child ∷ children) parsed =
      parse_child module_hash child parsed >>= parse_children module_hash children

  -- The body of the loop over the modules.
  unfoldable pub parse_module : Json → Parsed → Result Parsed
  unfolding truthy
  parse_module (object module_fields) parsed = do
    headed ←
        append (text_field module_fields "title") (hash_of module_fields) (hash_of module_fields)
          parsed
    tooled ←
        append (tool_list_text (get_field module_fields "toolList")) none (hash_of module_fields)
          headed
    children ← iterate (or_json (get_field module_fields "children") (array no_items))
    parse_children (hash_of module_fields) children tooled
  parse_module _ parsed = ok parsed

  unfoldable pub parse_modules : List Json → Parsed → Result Parsed
  parse_modules [] parsed = ok parsed
  parse_modules (m ∷ ms) parsed = parse_module m parsed >>= parse_modules ms

  -- From the loaded JSON on.
  unfoldable pub parse_data : Json → Result ParsedPublication
  unfolding truthy
  parse_data payload = do
    raw_title ← payload_get payload "title"
    tools ← payload_get payload "toolList"
    parsed ← append (tool_list_text tools) none none record { ordinal = 0; chunks = [] }
    raw_modules ← payload_get payload "modules"
    modules ← iterate (or_json raw_modules (array no_items))
    all_parsed ← parse_modules modules parsed
    ok record { title = strip (as_text (or_json raw_title (str ""))); chunks = all_parsed.chunks }

  -- `parse_publication`
  unfoldable pub parse_publication : String → Result ParsedPublication
  parse_publication html = do
    raw ← except_as is_discovery_error no_block (extract_manual_data_json html)
    payload ← except_as is_decode_error not_json (py.loads raw)
    parse_data payload
