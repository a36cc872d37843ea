-- ===== src/Tests/Serving.antt =====
-- Whole requests.
use torque_finder.Prelude.{◌≡◌, refl, ◌⊎◌, false, none, some, List, [], ◌∷◌, string_eq, nat_eq}
use torque_finder.Floats.Fixed.{fixed}
use torque_finder.Text.{lower, scan, tokens, contains, show}
use torque_finder.Domain.Errors.{ok}
use torque_finder.Domain.Scope.{is_identified}
use torque_finder.Domain.Chunk.{html}
use torque_finder.ProductMatch.Guide.{is_variant, is_genre, guide_is_product}
use torque_finder.ProductMatch.Detect.{is_brand, phrase_in, detect_brand, detect_family}
use torque_finder.ProductMatch.Scopes.{
  specific, normalize_product, extract_query_scope, scope_matches,
}
use torque_finder.Extraction.Client.{UserBlock, Reply, replied, build_user_blocks, response_text}
use torque_finder.Extraction.Gate.{candidate_scope, is_out_of_corpus}
use torque_finder.Extraction.Parse.{strip, strip_json_fences, cite, read_payload, parse_response}
use torque_finder.Extraction.Extractor.{init, finish, extract}
use torque_finder.Api.Text.{html_label}
use torque_finder.Api.Route.{respond, query}
use torque_finder.Api.Services.{served, Services, png, module_text, Candidate, AnswerResponse}
use torque_finder.Api.Route.Grounded.{query-sourced}
use torque_finder.Api.Route.Cited.{HasNoSource, CitesCandidate}
use torque_finder.Tests.Data.{ascii, order, python, message, half, found_hit}

abbrev services : Services
services = record {
  fetch_png = λ key. png [];
  fetch_module_text = λ doc parent. ok "";
  public_url = λ key. ok key;
  presigned_url = λ key ttl. ok key;
}

abbrev claude : List UserBlock → Reply
claude blocks = replied (message "cited")

abbrev listed : Candidate
listed = record {
  source_type = html;
  label = "Torque the bolt to 11 N-m";
  score = half;
  source_url = "https://docs/pike";
  screenshot_url = none;
}

abbrev response : AnswerResponse
response = record {
  answer = "11 N-m";
  tool_size = none;
  torque = some "11 N-m";
  confidence = half;
  abstained = false;
  source_type = some html;
  source_url = some "https://docs/pike";
  screenshot_url = none;
  candidates = listed ∷ [];
}

query_run :
    (query services claude (init false) "torque for pike" (ok (found_hit ∷ []))).1 ≡ served response
unfolding query module_text html_label respond extract finish build_user_blocks show parse_response
    response_text read_payload cite strip_json_fences strip is_out_of_corpus candidate_scope
    extract_query_scope normalize_product scope_matches is_identified specific detect_brand
    detect_family is_brand phrase_in guide_is_product is_variant is_genre tokens scan lower contains
query_run = refl

query-sourced_example : HasNoSource response ⊎ CitesCandidate response
query-sourced_example =
    query-sourced services claude (init false) "torque for pike" (ok (found_hit ∷ [])) response
      query_run
