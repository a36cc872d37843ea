-- ===== src/Extraction/Parse.antt =====
-- `_strip_json_fences` and `_parse_response`.
pub mod Cited
pub mod Conversions
pub mod Failures
use Prim.Native.Char.{Char, code}
use Prim.Native.String.{String, [], ◌∷◌}
use text.Mathlib.Text.{starts_with}
use torque_finder.Prelude.{
  ℕ, Bool, true, false, Option, none, some, if◌then◌else◌, first, ◌==◌, string_eq, nat_eq, nat_beq,
  List,
}
use torque_finder.Prelude
use torque_finder.Prelude.Int.{ℤ, pos, negsuc}
use torque_finder.Floats.{Floats}
use torque_finder.Text.Regex.{CharTables}
use torque_finder.ProductMatch.Sets.{HashOrder}
use torque_finder.Domain.Errors.{
  Exn, extraction_error, builtin, json_decode_error, key_error, type_error, value_error, Result, ok,
  raised, ◌>>=◌, except_as,
}
use torque_finder.Domain.Answer.{Answer, Number, cited_answer}
use torque_finder.Extraction.Json.{Json, Python, subscript, payload_get, is_null, to_float, to_int}
use torque_finder.Extraction.Client.{
  response_text, ExtractionCandidate, ContentBlock, text_content, other_content, Message,
}
use torque_finder.Extraction.Gate.{is_out_of_corpus, abstention}

module _ ⦃u : CharTables⦄ where
  lstrip : String → String
  lstrip [] = []
  lstrip (c ∷ s) = let rest = lstrip s in if u.is_space c then rest else c ∷ s

  rstrip : String → String
  rstrip [] = []
  rstrip (c ∷ s) =
      let rest = rstrip s in if rest == "" then (if u.is_space c then "" else c ∷ "") else c ∷ rest

  -- `text.strip()`
  unfoldable pub strip : String → String
  unfolding lstrip rstrip
  strip s = lstrip (rstrip s)

-- `s[s.find("\n") + 1:]`, or nothing without a line break.
abbrev pub after_newline : String → Option String
after_newline [] = none
after_newline (c ∷ s) = let rest = after_newline s in if nat_beq (code c) 10 then some s else rest

-- `s[:-len(suffix)]` if `s` ends with the suffix, else `s`.
abbrev pub without_suffix : String → String → String
without_suffix suffix [] = []
without_suffix suffix (c ∷ s) =
    let rest = without_suffix suffix s in if (c ∷ s) == suffix then "" else c ∷ rest

-- The text behind the opening fence.
abbrev pub drop_line : String → String
drop_line s = elim (after_newline s) [ none ↦ s | some rest ↦ rest ]

-- `_strip_json_fences`
unfoldable pub strip_json_fences : ⦃u : CharTables⦄ → String → String
strip_json_fences text =
    let stripped = strip text in
    if starts_with stripped "```"
    then strip (without_suffix "```" (drop_line stripped))
    else strip stripped

-- `except json.JSONDecodeError`, `except (KeyError, TypeError, ValueError)` and
-- `except (TypeError, ValueError)`.
abbrev pub is_decode_error : Exn → Bool
is_decode_error (builtin json_decode_error) = true
is_decode_error _ = false

abbrev pub is_value_or_type_error : Exn → Bool
is_value_or_type_error (builtin json_decode_error) = true
is_value_or_type_error (builtin value_error) = true
is_value_or_type_error (builtin type_error) = true
is_value_or_type_error _ = false

abbrev pub is_schema_error : Exn → Bool
is_schema_error (builtin key_error) = true
is_schema_error e = is_value_or_type_error e

abbrev pub schema_mismatch : Exn
schema_mismatch = extraction_error "Claude response JSON did not match the expected schema"

-- `c.index == source_index`
abbrev pub has_index : ℤ → ExtractionCandidate → Bool
has_index (pos n) c = c.index == n
has_index (negsuc _) c = false

module _ ⦃fl : Floats⦄ ⦃py : Python⦄ where
  -- `value if value is None else str(value)`
  abbrev pub opt_str : Json → Option String
  opt_str value = if is_null value then none else some (py.to_str value)

  -- From the cited candidate on.
  unfoldable pub cite :
      List ExtractionCandidate
      → String
      → Number
      → (tool_size torque raw_index : Json) → Result Answer
  cite candidates answer_text confidence tool_size torque raw_index = do
    source_index ← except_as is_value_or_type_error schema_mismatch (to_int raw_index)
    elim (first (has_index source_index) candidates) [
      | none ↦ raised (
          extraction_error
            "Claude cited a source_index which was not among the supplied candidates")
      | some match ↦
          except_as is_value_or_type_error
            (extraction_error "Claude response failed Answer validation")
            (cited_answer answer_text (opt_str tool_size) (opt_str torque) match.index confidence)
    ]

  -- From the loaded payload on.
  unfoldable pub read_payload : List ExtractionCandidate → Json → Result Answer
  read_payload candidates payload = do
    answer_text ← except_as is_schema_error schema_mismatch (subscript payload "answer")
    confidence ←
        except_as is_schema_error schema_mismatch (subscript payload "confidence" >>= to_float)
    tool_size ← payload_get payload "tool_size"
    torque ← payload_get payload "torque"
    raw_index ← payload_get payload "source_index"
    if is_null raw_index
        then ok abstention
        else cite candidates (py.to_str answer_text) confidence tool_size torque raw_index

  -- `_parse_response`
  unfoldable pub parse_response :
      ⦃h : HashOrder⦄ ⦃u : CharTables⦄ → Message → List ExtractionCandidate → String → Result Answer
  parse_response response candidates query =
      if is_out_of_corpus query candidates then ok abstention else (do
        text ← response_text response
        payload ←
            except_as is_decode_error
              (extraction_error "Claude response was not valid JSON after fence stripping")
              (py.loads (strip_json_fences text))
        read_payload candidates payload)
