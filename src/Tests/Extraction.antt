-- ===== src/Tests/Extraction.antt =====
-- Extraction and its gate.
use torque_finder.Api.Health.{readyz}
use torque_finder.Api.Health.History.{expected, readyz-serve}
use torque_finder.Api.Services.{extraction_failure}
use torque_finder.Api.Route.Statuses.{
  is_outage, status_of, has_retry_after, extraction_failure-classify,
}
use torque_finder.Prelude.{
  String, ◌≡◌, refl, ◌↔◌, ◌⊎◌, true, false, none, some, [], ◌∷◌, string_eq, nat_eq, if◌then◌else◌,
  inl, subst, sym, inr,
}
use torque_finder.Floats.Fixed.{fixed}
use torque_finder.Text.{lower, scan, tokens, contains}
use torque_finder.Domain.Errors.{builtin, overflow_error, is_extraction_error, ok, raised}
use torque_finder.Domain.Scope.{is_identified}
use torque_finder.Domain.Answer.{Answer}
use torque_finder.ProductMatch.Guide.{is_variant, is_genre, guide_is_product}
use torque_finder.ProductMatch.Detect.{is_brand, detect_brand, detect_family}
use torque_finder.ProductMatch.Scopes.{
  specific, normalize_product, extract_query_scope, scope_matches,
}
use torque_finder.Extraction.Client.{
  replied, api_failure, ApiError, response_text, ExtractionCandidate,
}
use torque_finder.Extraction.Gate.{candidate_scope, is_out_of_corpus, abstention}
use torque_finder.Extraction.Gate.Abstains.{
  IsForeign, IsBlocked, is_out_of_corpus_iff, parse_response-abstains,
}
use torque_finder.Extraction.Parse.{strip, strip_json_fences, cite, read_payload, parse_response}
use torque_finder.Extraction.Parse.Cited.{Cites, parse_response-IsGrounded}
use torque_finder.Extraction.Parse.Failures.{IsUndecoded, parse_response-raises}
use torque_finder.Extraction.Upstream.{classify_upstream_error}
use torque_finder.Extraction.Upstream.Classes.{
  is_unavailable, is_unauthorized, is_out_of_credit, classify_upstream_error-classes,
}
use torque_finder.Extraction.Extractor.{init, upstream_healthy}
use torque_finder.Extraction.Extractor.Health.{
  Call, last_signal, healthy_after, serve, serve-upstream_healthy,
}
use mathlib.Core.Bool.{false≢true}
use torque_finder.ProductMatch.Scopes.Matching.{Agree}
use torque_finder.Tests.Data.{ascii, order, python, candidate, message, half}

abbrev foreign_question : String
foreign_question = "torque for shimano brake"

gate_shut : is_out_of_corpus foreign_question (candidate ∷ []) ≡ true
unfolding is_out_of_corpus candidate_scope extract_query_scope normalize_product scope_matches
    is_identified specific detect_brand detect_family is_brand guide_is_product is_variant is_genre
    tokens scan lower contains
gate_shut = refl

is_out_of_corpus_iff_example :
    (is_out_of_corpus foreign_question (candidate ∷ []) ≡ true)
    ↔ IsBlocked foreign_question (candidate ∷ [])
is_out_of_corpus_iff_example = is_out_of_corpus_iff foreign_question (candidate ∷ [])

abbrev lyrik_question : String
lyrik_question = "torque for lyrik"

lyrik_scopes :
    (is_identified (extract_query_scope lyrik_question) ≡ true)
    × ((extract_query_scope lyrik_question).family ≡ some "lyrik")
    × ((candidate_scope candidate.document_title).family ≡ some "pike")
unfolding candidate_scope extract_query_scope normalize_product is_identified specific detect_brand
    detect_family is_brand guide_is_product is_variant is_genre tokens scan lower contains
lyrik_scopes = (refl, refl, refl)

lyrik-IsForeign : IsForeign lyrik_question (candidate ∷ [])
lyrik-IsForeign = record {
  names_product = lyrik_scopes.0;
  no_document = λ c m s. elim m [
    | inl e ↦
        (let same : Agree (some "lyrik") (some "pike") =
            subst (λ f. Agree f (some "pike")) lyrik_scopes.1
              (subst (Agree (extract_query_scope lyrik_question).family) lyrik_scopes.2 (
                subst
                  (λ (x : ExtractionCandidate).
                    Agree (extract_query_scope lyrik_question).family
                      (candidate_scope x.document_title).family)
                  (sym e) s.families)) in
          absurd (false≢true ((string_eq.test_iff "lyrik" "pike").1 same)))
    | inr k ↦ absurd k
  ];
}

parse_response-abstains_example :
    parse_response (message "cited") (candidate ∷ []) lyrik_question ≡ ok abstention
parse_response-abstains_example =
    parse_response-abstains (message "cited") (candidate ∷ []) lyrik_question lyrik-IsForeign

abbrev known_question : String
known_question = "torque for pike"

-- The answer to a reply that cites source 1.
abbrev cited : Answer
cited = record {
  text = "11 N-m";
  tool_size = none;
  torque = some "11 N-m";
  source_index = some 1;
  confidence = half;
  abstained = false;
}

cited_run : parse_response (message "cited") (candidate ∷ []) known_question ≡ ok cited
unfolding parse_response response_text read_payload cite strip_json_fences strip is_out_of_corpus
    candidate_scope extract_query_scope normalize_product scope_matches is_identified specific
    detect_brand detect_family is_brand guide_is_product is_variant is_genre tokens scan lower
    contains
cited_run = refl

parse_response-IsGrounded_example : (cited ≡ abstention) ⊎ Cites (candidate ∷ []) cited
parse_response-IsGrounded_example =
    parse_response-IsGrounded (message "cited") (candidate ∷ []) known_question cited cited_run

overflow_run :
    parse_response (message "infinite") (candidate ∷ []) known_question
    ≡ raised (builtin overflow_error)
unfolding parse_response response_text read_payload cite strip_json_fences strip is_out_of_corpus
    candidate_scope extract_query_scope normalize_product scope_matches is_identified specific
    detect_brand detect_family is_brand guide_is_product is_variant is_genre tokens scan lower
    contains
overflow_run = refl

parse_response-raises_example :
    (is_extraction_error (builtin overflow_error) ≡ true)
    ⊎ (builtin overflow_error ≡ builtin overflow_error)
    ⊎ IsUndecoded (message "infinite") (builtin overflow_error)
parse_response-raises_example =
    parse_response-raises (message "infinite") (candidate ∷ []) known_question
      (builtin overflow_error) overflow_run

abbrev no_credit : ApiError
no_credit = record {
  is_overloaded = false;
  is_rate_limit = false;
  is_connection = false;
  is_authentication = false;
  is_permission_denied = false;
  is_request_too_large = false;
  is_bad_request = true;
  is_internal_server = false;
  class_name = "BadRequestError";
  status_code = some 400;
  request_id = none;
  has_response = true;
  retry_after_header = none;
  message = "Your credit balance is too low";
}

classify_upstream_error-classes_example :
    (is_unavailable (classify_upstream_error no_credit) ≡ false)
    × ((is_unauthorized (classify_upstream_error no_credit) ≡ is_out_of_credit no_credit)
        × (is_extraction_error (classify_upstream_error no_credit) ≡ true))
classify_upstream_error-classes_example = classify_upstream_error-classes no_credit

abbrev answering : Call
answering = record {
  create = λ bs. replied (message "cited");
  query = known_question;
  candidates = candidate ∷ [];
}

abbrev failing : Call
failing = record {
  create = λ bs. api_failure no_credit;
  query = known_question;
  candidates = candidate ∷ [];
}

serve-upstream_healthy_example :
    upstream_healthy (serve (init false) (failing ∷ answering ∷ []))
    ≡ healthy_after (last_signal (failing ∷ answering ∷ [])) true
serve-upstream_healthy_example = serve-upstream_healthy (init false) (failing ∷ answering ∷ []) refl

readyz-serve_example :
    readyz (serve (init false) (failing ∷ answering ∷ []))
    ≡ expected (last_signal (failing ∷ answering ∷ []))
readyz-serve_example = readyz-serve (failing ∷ answering ∷ [])

extraction_failure-classify_example :
    (status_of {A = Answer} (extraction_failure (classify_upstream_error no_credit))
      ≡ some (if is_outage no_credit then 503 else 502))
    × (has_retry_after {A = Answer} (extraction_failure (classify_upstream_error no_credit))
        ≡ false)
extraction_failure-classify_example = extraction_failure-classify Answer no_credit

-- An account without credit is an outage.
no_credit-is_outage : is_outage no_credit ≡ true
unfolding contains lower
no_credit-is_outage = refl
