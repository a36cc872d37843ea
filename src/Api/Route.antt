-- ===== src/Api/Route.antt =====
-- api/routes/query.py. The object store and the query for a module's text are parameters.
pub mod Cited
pub mod Grounded
pub mod Statuses
use torque_finder.Prelude.{
  ℕ, zero, suc, ◌+◌, ◌-◌, ◌*◌, ◌≤◌, ◌<◌, String, ◌≡◌, ◌≢◌, refl, sym, ap, ◌∙◌, subst, ◌↔◌, ◌⊎◌, inl,
  inr, Bool, true, false, not, ◌&&◌, ◌||◌, Option, none, some, List, [], ◌∷◌, ◌++◌, arith, eq_iff,
  if◌then◌else◌, Bool-cases, Option-cases, length, take, any, all, keep, first, In, Before, All,
  is_some, is_none, leb, ltb, ◌==◌, string_eq, nat_eq, get_elem?,
}
use torque_finder.Floats.{Floats}
use torque_finder.Text.{show}
use torque_finder.Text.Regex.{CharTables}
use torque_finder.ProductMatch.Sets.{HashOrder}
use torque_finder.Domain.Errors.{
  Exn, builtin, value_error, index_error, upstream_unavailable, upstream_unauthorized,
  is_extraction_error, is_retrieval_error, Result, ok, raised, ◌>>=◌,
}
use torque_finder.Domain.Chunk.{SourceType, pdf, html, RetrievedChunk}
use torque_finder.Domain.Answer.{Answer}
use torque_finder.Extraction.Json.{Python}
use torque_finder.Extraction.Client.{Bytes, ExtractionCandidate, UserBlock, Reply, ◌cat◌}
use torque_finder.Extraction.Extractor.{Extractor, extract}
use torque_finder.Api.Text.{html_label}
use torque_finder.Api.Services.{
  Served, served, http_error, escaped, ◌then_serve◌, lift, Fetched, png, http_failure,
  other_failure, Services, presign_ttl_seconds, resolve_url, retry_after_or_default,
  extraction_failure, item_at, pdf_label, module_text, pdf_links, source_links, doc_level_links,
  Candidate, AnswerResponse,
}

module _ ⦃fl : Floats⦄ where
  open fl use {Float}

  module _ ⦃u : CharTables⦄ where
    -- The page image of a PDF hit.
    abbrev pub fetched_candidate : ℕ → RetrievedChunk → Fetched → Served ExtractionCandidate
    fetched_candidate index hit http_failure = http_error 502 none
    fetched_candidate index hit (other_failure e) = escaped e
    fetched_candidate index hit (png bytes) = served record {
      index = index;
      source_type = pdf;
      label = pdf_label hit;
      png_bytes = some bytes;
      text = none;
      document_title = some hit.document_title;
    }

    abbrev pub pdf_candidate :
        Services → ℕ → RetrievedChunk → Option String → Served ExtractionCandidate
    pdf_candidate r2 index hit none = http_error 500 none
    pdf_candidate r2 index hit (some key) = fetched_candidate index hit (r2.fetch_png key)

    -- The body of the loop that builds the candidates.
    abbrev pub candidate_of :
        Services → ℕ → RetrievedChunk → SourceType → Served ExtractionCandidate
    candidate_of r2 index hit pdf = pdf_candidate r2 index hit hit.png_r2_key
    candidate_of r2 index hit html = lift (module_text r2 hit) then_serve λ text. served record {
      index = index;
      source_type = html;
      label = html_label text hit.document_title;
      png_bytes = none;
      text = some text;
      document_title = some hit.document_title;
    }

    -- The loop, from an index on.
    abbrev pub candidates_from :
        Services → ℕ → List RetrievedChunk → Served (List ExtractionCandidate)
    candidates_from r2 index [] = served []
    candidates_from r2 index (hit ∷ hits) =
        candidate_of r2 index hit hit.source_type then_serve λ c.
        candidates_from r2 (index + 1) hits then_serve λ cs. served (c ∷ cs)

    -- The candidates of the response: `zip(..., strict=True)`.
    abbrev pub response_candidates :
        Services → List RetrievedChunk → List ExtractionCandidate → Result (List Candidate)
    response_candidates r2 [] [] = ok []
    response_candidates r2 [] (_ ∷ _) = raised (builtin value_error)
    response_candidates r2 (_ ∷ _) [] = raised (builtin value_error)
    response_candidates r2 (hit ∷ hits) (c ∷ cs) = source_links r2 hit hit.source_type >>= λ links.
        response_candidates r2 hits cs >>= λ more. ok (
          record {
            source_type = hit.source_type;
            label = c.label;
            score = hit.score;
            source_url = links.0;
            screenshot_url = links.1;
          }
          ∷ more)

    -- The links of the chosen hit: those of its candidate, or the document's.
    abbrev pub chosen_links :
        Services
        → RetrievedChunk
        → Candidate
        → SourceType
        → Option String
        → Result (String × Option String)
    chosen_links r2 chosen c html key = ok (c.source_url, c.screenshot_url)
    chosen_links r2 chosen c pdf (some _) = ok (c.source_url, c.screenshot_url)
    chosen_links r2 chosen c pdf none = doc_level_links r2 chosen

    abbrev pub null_links : Answer → List Candidate → AnswerResponse
    null_links a cs = record {
      answer = a.text;
      tool_size = a.tool_size;
      torque = a.torque;
      confidence = a.confidence;
      abstained = true;
      source_type = none;
      source_url = none;
      screenshot_url = none;
      candidates = cs;
    }

    -- The response to an answer that cites a source. An index is at least 1.
    abbrev pub cited_response :
        Services → List RetrievedChunk → Answer → List Candidate → ℕ → Result AnswerResponse
    cited_response r2 retrieved a cs source_index = do
      chosen ← item_at retrieved (source_index - 1)
      chosen_candidate ← item_at cs (source_index - 1)
      links ← chosen_links r2 chosen chosen_candidate chosen.source_type chosen.png_r2_key
      ok record {
        answer = a.text;
        tool_size = a.tool_size;
        torque = a.torque;
        confidence = a.confidence;
        abstained = false;
        source_type = some chosen.source_type;
        source_url = some links.0;
        screenshot_url = links.1;
        candidates = cs;
      }

    abbrev pub response_of :
        Services → List RetrievedChunk → Answer → List Candidate → Option ℕ → Result AnswerResponse
    response_of r2 retrieved a cs none = ok (null_links a cs)
    response_of r2 retrieved a cs (some i) =
        if a.abstained then ok (null_links a cs) else cited_response r2 retrieved a cs i

    -- From the answer on.
    unfoldable pub respond :
        Services → List RetrievedChunk → List ExtractionCandidate → Answer → Result AnswerResponse
    respond r2 retrieved candidates a = do
      cs ← response_candidates r2 retrieved candidates
      response_of r2 retrieved a cs a.source_index

    abbrev pub respond_to :
        Services
        → List RetrievedChunk
        → List ExtractionCandidate
        → Result Answer
        → Served AnswerResponse
    respond_to r2 retrieved candidates (raised e) = extraction_failure e
    respond_to r2 retrieved candidates (ok a) = lift (respond r2 retrieved candidates a)

    module _ ⦃py : Python⦄ ⦃h : HashOrder⦄ where
      -- From the candidates on: the new state of the extractor, and what is served.
      abbrev pub extract_and_respond :
          Services
          → (List UserBlock → Reply)
          → Extractor
          → String
          → List RetrievedChunk
          → Served (List ExtractionCandidate)
          → Extractor × Served AnswerResponse
      extract_and_respond r2 create x question retrieved (http_error status retry) =
          (x, http_error status retry)
      extract_and_respond r2 create x question retrieved (escaped e) = (x, escaped e)
      extract_and_respond r2 create x question retrieved (served candidates) =
          let after = extract create x question candidates in
          (after.0, respond_to r2 retrieved candidates after.1)

      -- `query`, from the result of `retrieval.search` on.
      unfoldable pub query :
          Services
          → (List UserBlock → Reply)
          → Extractor
          → String
          → Result (List RetrievedChunk)
          → Extractor × Served AnswerResponse
      query r2 create x question (raised e) =
          (x, if is_retrieval_error e then http_error 503 none else escaped e)
      query r2 create x question (ok []) = (x, http_error 404 none)
      query r2 create x question (ok (hit ∷ hits)) =
          extract_and_respond r2 create x question (hit ∷ hits) (candidates_from r2 1 (hit ∷ hits))
