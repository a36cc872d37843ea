-- ===== src/Extraction/Client.antt =====
-- The candidates, the content blocks of a request, and what the SDK answers or raises.
use Prim.Native.String
use torque_finder.Prelude.{
  ℕ, String, Bool, Option, none, some, List, [], ◌∷◌, ◌++◌, string_eq, nat_eq, if◌then◌else◌, ◌==◌,
  opt_eq,
}
use torque_finder.Text.{show}
use torque_finder.Domain.Errors.{Exn, extraction_error, Result, ok, raised, ◌>>=◌}
use torque_finder.Domain.Chunk.{SourceType, pdf, html}

abbrev pub Bytes : Type 0
Bytes = List ℕ

-- `ExtractionCandidate`
pub record ExtractionCandidate : Type 0 where
  pub index : ℕ
  pub source_type : SourceType
  pub label : String
  pub png_bytes : Option Bytes
  pub text : Option String
  pub document_title : Option String

-- A block of the request. The image stands here as its bytes: the program sends their base64.
pub data UserBlock : Type 0 where
  image_block : Bytes → UserBlock
  text_block : String → UserBlock

-- A block of the response: its text, or the type of a block that is no text.
pub data ContentBlock : Type 0 where
  text_content : String → ContentBlock
  other_content : (type_name : String) → ContentBlock

pub record Message : Type 0 where
  pub stop_reason : Option String
  pub content : List ContentBlock

-- An `anthropic.APIError` as the program looks at it: its `isinstance` tests, its attributes
-- (absent ones are `None`) and the `retry-after` header of its response.
pub record ApiError : Type 0 where
  pub is_overloaded : Bool
  pub is_rate_limit : Bool
  pub is_connection : Bool
  pub is_authentication : Bool
  pub is_permission_denied : Bool
  pub is_request_too_large : Bool
  pub is_bad_request : Bool
  pub is_internal_server : Bool
  pub class_name : String
  pub status_code : Option ℕ
  pub request_id : Option String
  pub has_response : Bool
  pub retry_after_header : Option String
  pub message : String

-- What `await messages.create(...)` does.
pub data Reply : Type 0 where
  replied : Message → Reply
  api_failure : ApiError → Reply
  other_failure : Exn → Reply

infixl 60 ◌cat◌
abbrev pub ◌cat◌ : String → String → String
◌cat◌ = String.◌++◌

-- The blocks of one candidate.
abbrev pub candidate_blocks : ExtractionCandidate → SourceType → Result (List UserBlock)
candidate_blocks c pdf = elim c.png_bytes [
  | none ↦ raised (extraction_error ("PDF candidate " cat show c.index cat " is missing png_bytes"))
  | some png ↦ ok (
      image_block png
      ∷ text_block ("Above is source " cat show c.index cat ": " cat c.label cat ".")
      ∷ [])
]
candidate_blocks c html = elim c.text [
  | none ↦ raised (extraction_error ("HTML candidate " cat show c.index cat " is missing text"))
  | some text ↦ ok (
      text_block
        ("Source " cat show c.index cat ": " cat c.label cat "\n---\n" cat text cat "\n---")
      ∷ [])
]

-- The loop over the candidates.
abbrev pub blocks_of : List ExtractionCandidate → Result (List UserBlock)
blocks_of [] = ok []
blocks_of (c ∷ cs) =
    candidate_blocks c c.source_type >>= λ blocks. blocks_of cs >>= λ more. ok (blocks ++ more)

abbrev question_block : String → UserBlock
question_block query = text_block (
    "Question: " cat query
    cat "\n\nAnswer the question using only these sources. First identify the asked fastener, then its torque, then every tool/driver whose size is explicitly stated for it — put any stated tool size in the tool_size field (leave it null only if no size is stated). Reply ONLY with JSON matching the schema.")

-- `_build_user_blocks`
unfoldable pub build_user_blocks : String → List ExtractionCandidate → Result (List UserBlock)
build_user_blocks query candidates =
    blocks_of candidates >>= λ blocks. ok (blocks ++ (question_block query ∷ []))

abbrev pub first_text : List ContentBlock → Result String
first_text [] = raised (extraction_error "Claude returned an empty response")
first_text (other_content _ ∷ _) =
    raised (extraction_error "Expected first content block to be text")
first_text (text_content text ∷ _) = ok text

-- The first text of a response that ended normally.
unfoldable pub response_text : Message → Result String
response_text response =
    if response.stop_reason == some "max_tokens"
    then raised (
        extraction_error
          "Claude response was truncated (stop_reason=max_tokens); the JSON answer did not fit in max_tokens")
    else if response.stop_reason == some "refusal"
    then raised (extraction_error "Claude declined to answer (stop_reason=refusal)")
    else first_text response.content
