-- ===== src/Api/Services.antt =====
-- api/routes/query.py: what the route calls, what it may end in, and the links of a hit.
use torque_finder.Prelude.{
  ℕ, ◌*◌, String, Bool, Option, none, some, List, if◌then◌else◌, ◌==◌, string_eq, nat_eq, get_elem?,
}
use torque_finder.Floats.{Floats}
use torque_finder.Text.{show}
use torque_finder.Domain.Errors.{
  Exn, builtin, index_error, upstream_unavailable, upstream_unauthorized, is_extraction_error,
  Result, ok, raised, ◌>>=◌,
}
use torque_finder.Domain.Chunk.{SourceType, pdf, html, RetrievedChunk}
use torque_finder.Extraction.Client.{Bytes, ◌cat◌}

-- A call of the route: a value, an `HTTPException` with its status and its `Retry-After`, or an
-- exception that the route lets escape.
pub data Served {ℓ} (A : Type ℓ) : Type ℓ where
  served : A → Served A
  http_error : (status : ℕ) (retry_after : Option String) → Served A
  escaped : Exn → Served A

infixl 5 ◌then_serve◌
abbrev pub ◌then_serve◌ {ℓ κ} : {A : Type ℓ} {B : Type κ} → Served A → (A → Served B) → Served B
served a then_serve f = f a
http_error status retry_after then_serve f = http_error status retry_after
escaped e then_serve f = escaped e

abbrev pub lift {ℓ} : {A : Type ℓ} → Result A → Served A
lift (ok a) = served a
lift (raised e) = escaped e

-- What `httpx` and the object store answer. A failed fetch is an `httpx.HTTPError`, or another
-- exception.
pub data Fetched : Type 0 where
  png : Bytes → Fetched
  http_failure : Fetched
  other_failure : Exn → Fetched

pub record Services : Type 0 where
  pub fetch_png : String → Fetched
  pub fetch_module_text : (document_id : ℕ) (parent_anchor : String) → Result String
  pub public_url : String → Result String
  pub presigned_url : (key : String) (expires_in : ℕ) → Result String

-- `_PRESIGN_TTL_SECONDS`
abbrev pub presign_ttl_seconds : ℕ
presign_ttl_seconds = 60 * 60

-- `_resolve_url`
unfoldable pub resolve_url : Services → String → Result String
resolve_url r2 key = elim (r2.public_url key) [
  | ok url ↦ ok url
  | raised _ ↦ r2.presigned_url key presign_ttl_seconds
]

-- `exc.retry_after or _DEFAULT_RETRY_AFTER`
abbrev pub retry_after_or_default : Option String → String
retry_after_or_default none = "5"
retry_after_or_default (some s) = if s == "" then "5" else s

-- The arms of the `try` around `extract`.
unfoldable pub extraction_failure {ℓ} : {A : Type ℓ} → Exn → Served A
extraction_failure (upstream_unavailable _ _ retry_after) =
    http_error 503 (some (retry_after_or_default retry_after))
extraction_failure (upstream_unauthorized _ _) = http_error 503 none
extraction_failure e = if is_extraction_error e then http_error 502 none else escaped e

-- `xs[i]`, for an index that is not negative.
abbrev pub item_at {ℓ} : {A : Type ℓ} → List A → ℕ → Result A
item_at xs i = elim (get_elem? xs i) [ none ↦ raised (builtin index_error) | some x ↦ ok x ]

module _ ⦃fl : Floats⦄ where
  open fl use {Float}

  -- `_pdf_label`
  abbrev pub pdf_label : RetrievedChunk → String
  pdf_label hit = "p. " cat show hit.ordinal cat " of " cat hit.document_title

  -- `_module_text`
  unfoldable pub module_text : Services → RetrievedChunk → Result String
  module_text repo hit = elim hit.parent_anchor [
    | none ↦ ok hit.text
    | some parent ↦ repo.fetch_module_text hit.document_id parent >>= λ text.
        ok (if text == "" then hit.text else text)
  ]

  -- `_source_links` of a PDF chunk: its page, and the screenshot of a key that is not empty.
  abbrev pub pdf_links : Services → RetrievedChunk → Option String → Result (String × Option String)
  pdf_links r2 hit none = resolve_url r2 hit.document_source_url >>= λ url.
      ok (url cat "#page=" cat show hit.ordinal, none)
  pdf_links r2 hit (some key) = resolve_url r2 hit.document_source_url >>= λ url.
      (if key == "" then ok none else (resolve_url r2 key >>= λ shot. ok (some shot)))
      >>= λ screenshot. ok (url cat "#page=" cat show hit.ordinal, screenshot)

  -- `_source_links`
  abbrev pub source_links : Services → RetrievedChunk → SourceType → Result (String × Option String)
  source_links r2 hit html = ok (hit.source_url, none)
  source_links r2 hit pdf = pdf_links r2 hit hit.png_r2_key

  -- `_doc_level_links`
  abbrev pub doc_level_links : Services → RetrievedChunk → Result (String × Option String)
  doc_level_links r2 hit = resolve_url r2 hit.document_source_url >>= λ url. ok (url, none)

  -- `Candidate`
  pub record Candidate : Type 0 where
    pub source_type : SourceType
    pub label : String
    pub score : Float
    pub source_url : String
    pub screenshot_url : Option String

  -- `AnswerResponse`
  pub record AnswerResponse : Type 0 where
    pub answer : String
    pub tool_size : Option String
    pub torque : Option String
    pub confidence : Float
    pub abstained : Bool
    pub source_type : Option SourceType
    pub source_url : Option String
    pub screenshot_url : Option String
    pub candidates : List Candidate
