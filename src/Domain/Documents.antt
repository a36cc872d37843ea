-- ===== src/Domain/Documents.antt =====
-- `IndexedDocument`, `HtmlChunk`, `ParsedPublication` and `MinedChunk` of domain/models.py. A
-- time is a number of ticks.
use torque_finder.Prelude.{
  ℕ, String, Bool, not, ◌&&◌, Option, List, if◌then◌else◌, ltb, ◌==◌, string_eq, nat_eq,
}
use torque_finder.Domain.Errors.{Result, ok, raised, builtin, value_error}
use torque_finder.Domain.Chunk.{SourceType}

pub record IndexedDocument : Type 0 where
  pub id : ℕ
  pub source_type : SourceType
  pub title : String
  pub source_url : String
  pub source_ref : String
  pub created_at : ℕ
  pub product_family : Option String
  pub brand : Option String

pub record HtmlChunk : Type 0 where
  pub ordinal : ℕ
  pub text : String
  pub anchor : Option String
  pub parent_anchor : Option String
  pub source_url : String

-- The construction of an `HtmlChunk`, with the constraints of its fields: `ordinal > 0` and
-- `len(text) >= 1`. A `ValidationError` is a `ValueError`.
abbrev pub html_chunk :
    ℕ → String → (anchor parent_anchor : Option String) → (source_url : String) → Result HtmlChunk
html_chunk ordinal text anchor parent_anchor source_url =
    if ltb 0 ordinal && not (text == "")
    then ok record {
      ordinal = ordinal;
      text = text;
      anchor = anchor;
      parent_anchor = parent_anchor;
      source_url = source_url;
    }
    else raised (builtin value_error)

pub record ParsedPublication : Type 0 where
  pub title : String
  pub chunks : List HtmlChunk

pub record MinedChunk : Type 0 where
  pub chunk_id : ℕ
  pub document_id : ℕ
  pub document_title : String
  pub source_type : SourceType
  pub ordinal : ℕ
  pub has_png : Bool
  pub source_url : String
  pub text : String
