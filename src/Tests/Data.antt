-- ===== src/Tests/Data.antt =====
-- Concrete values of the parameters, and the inputs of the tests.
use Prim.Native.Char.{code}
use torque_finder.Prelude.{
  ℕ, String, true, ◌&&◌, ◌||◌, none, some, [], ◌∷◌, if◌then◌else◌, leb, ◌==◌, string_eq, nat_eq,
}
use torque_finder.Prelude.{nat_beq}
use torque_finder.Prelude.Int.{ℤ, pos}
use torque_finder.Floats.Fixed.{fixed}
use torque_finder.Text.Regex.{CharTables}
use torque_finder.ProductMatch.Sets.{HashOrder, front_first}
use torque_finder.Domain.Errors.{ok, raised, builtin, json_decode_error, retrieval_error}
use torque_finder.Domain.Chunk.{pdf, html, RetrievedChunk, hybrid}
use torque_finder.Domain.Answer.{finite, infinite}
use torque_finder.Retrieval.Hits.{FusedHit, ChunkMeta}
use torque_finder.Retrieval.Hybrid.Rows.{Row, Backend}
use torque_finder.Extraction.Json.{
  Json, object, field, no_fields, str, number, int, Python, array, item, no_items,
}
use torque_finder.Extraction.Client.{ExtractionCandidate, Message, text_content}

instance abbrev pub ascii : CharTables
ascii = record {
  is_decimal = λ c. leb b'0' (code c) && leb (code c) b'9';
  is_space = λ c. nat_beq (code c) 32 || leb 9 (code c) && leb (code c) 13;
}

instance abbrev pub order : HashOrder
order = front_first ""

-- `decimal 5 1`
abbrev pub half : ℤ
half = pos 500000000

abbrev pub payload : (source_index : Json) → Json
payload source_index = object (
    field "answer" (str "11 N-m") (
      field "confidence" (number (finite half))
        (field "torque" (str "11 N-m") (field "source_index" source_index no_fields))))

-- The JSON of a publication of one module, which has one block.
abbrev pub manual : Json
manual = object (
    field "title" (str "Pike") (
      field "modules"
        (array (
          item
            (object (
              field "title" (str "Bolts") (
                field "hash" (str "#m1") (
                  field "children"
                    (array (
                      item
                        (object (
                          field "hash" (str "#b1")
                            (field "content" (str "<p>11 N-m</p>") no_fields)))
                        no_items))
                    no_fields))))
            no_items))
        no_fields))

instance abbrev pub python : Python
python = record {
  loads = λ s.
      if s == "cited"
      then ok (payload (int (pos 1)))
      else if s == "manual"
      then ok manual
      else if s == "infinite"
      then ok (payload (number infinite))
      else raised (builtin json_decode_error);
  to_str = λ j. elim j [ str s ↦ s | _ ↦ "" ];
  parse_int = λ s. none;
  parse_float = λ s. none;
  int_to_float = λ n. none;
  truncate = λ x. x;
}

abbrev pub hit_at : ℕ → ℕ → FusedHit
hit_at cid score = record { chunk_id = cid; score = pos score }

abbrev pub page : ℕ → ℕ → ℕ → String → ChunkMeta
page cid doc ordinal text = record {
  chunk_id = cid;
  document_id = doc;
  ordinal = ordinal;
  text = text;
  is_pdf = true;
}

abbrev pub row : ℕ → ℕ → ℕ → String → Row
row cid doc ordinal text = record {
  chunk_id = cid;
  document_id = doc;
  ordinal = ordinal;
  text = text;
  png_r2_key = some "p.png";
  anchor = none;
  parent_anchor = none;
  source_url = "u";
  source_type = pdf;
  document_title = "pike manual";
  document_source_url = "pike.pdf";
  product_family = some "pike";
  brand = some "rockshox";
}

abbrev pub backend : Backend
backend = record {
  embed_query = λ t. ok [];
  keyword_rows = λ t k. ok ((7, half) ∷ (8, half) ∷ []);
  vector_rows = λ v k. ok ((8, half) ∷ []);
  chunk_rows = λ is. ok (row 7 1 3 "bolt 5 Nm" ∷ row 8 1 4 "cap" ∷ []);
  neighbor_rows = λ doc lo hi. ok (row 8 1 4 "cap" ∷ row 9 1 5 "more" ∷ []);
}

-- The embedding service is down.
abbrev pub no_embedding : Backend
no_embedding = record {
  embed_query = λ t. raised (retrieval_error "Voyage");
  keyword_rows = λ t k. ok [];
  vector_rows = λ v k. ok [];
  chunk_rows = λ is. ok [];
  neighbor_rows = λ doc lo hi. ok [];
}

abbrev pub candidate : ExtractionCandidate
candidate = record {
  index = 1;
  source_type = html;
  label = "Pike";
  png_bytes = none;
  text = some "Torque the bolt to 11 N-m";
  document_title = some "pike manual";
}

abbrev pub message : String → Message
message text = record { stop_reason = none; content = text_content text ∷ [] }

abbrev pub found_hit : RetrievedChunk
found_hit = record {
  chunk_id = 7;
  document_id = 1;
  source_type = html;
  document_title = "pike manual";
  document_source_url = "pike";
  ordinal = 1;
  text = "Torque the bolt to 11 N-m";
  png_r2_key = none;
  anchor = none;
  parent_anchor = none;
  source_url = "https://docs/pike";
  score = half;
  source = hybrid;
  product_family = none;
  brand = none;
}
