-- ===== src/Api/Route/Grounded.antt =====
-- The links of a response.
use torque_finder.Domain.Outcome.{ok-injective}
use torque_finder.Prelude.{
  ℕ, String, ◌≡◌, refl, sym, ap, ◌∙◌, subst, ◌⊎◌, inl, inr, Bool, true, false, Option, none, some,
  List, [], ◌∷◌, if◌then◌else◌, Bool-cases, All, string_eq, nat_eq,
}
use torque_finder.Prelude.{map}
use torque_finder.Floats.{Floats}
use torque_finder.Text.Regex.{CharTables}
use torque_finder.ProductMatch.Sets.{HashOrder}
use torque_finder.Domain.Errors.{
  Exn, extraction_error, ingestion_error, retrieval_error, discovery_error, upstream_unavailable,
  upstream_unauthorized, builtin, other_error, is_retrieval_error, Result, ok, raised,
}
use torque_finder.Domain.Chunk.{RetrievedChunk}
use torque_finder.Domain.Answer.{Answer}
use torque_finder.Extraction.Json.{Python}
use torque_finder.Extraction.Client.{ExtractionCandidate, UserBlock, Reply}
use torque_finder.Extraction.Extractor.{Extractor, extract}
use torque_finder.Api.Route.{
  candidates_from, response_candidates, null_links, cited_response, response_of, respond,
  respond_to, extract_and_respond, query,
}
use torque_finder.Api.Services.{
  Served, served, http_error, escaped, lift, Services, extraction_failure, Candidate,
  AnswerResponse,
}
use torque_finder.Api.Route.Cited.{
  CitesCandidate, HasNoSource, bind_ok, served-injective, keyed, candidates_from-keyed,
  response_candidates-types, cited_response-Cites,
}

module _ ⦃fl : Floats⦄ where
  open fl use {Float}

  module _ ⦃u : CharTables⦄ (r2 : Services) where
    response_of-sourced :
        (hits : List RetrievedChunk) (a : Answer) (out : List Candidate) (i : Option ℕ)
        (r : AnswerResponse)
        → map (λ (c : Candidate). c.source_type) out
          ≡ map (λ (hit : RetrievedChunk). hit.source_type) hits
        → All (λ (hit : RetrievedChunk). keyed hit.source_type hit.png_r2_key ≡ true) hits
        → response_of r2 hits a out i ≡ ok r
        → HasNoSource r ⊎ CitesCandidate r
    response_of-sourced hits a out none r t k e =
        inl (subst HasNoSource (ok-injective _ _ e) (refl, (refl, (refl, refl))))
    response_of-sourced hits a out (some i) r t k e = elim (Bool-cases a.abstained) [
      | inl z ↦
          inl (subst HasNoSource (ok-injective _ _ (sym (pick z) ∙ e)) (refl, (refl, (refl, refl))))
      | inr z ↦ inr (cited_response-Cites r2 hits a out i r t k (sym (pick z) ∙ e))
    ]
      where
        pick :
            {b : Bool}
            → a.abstained ≡ b
            → response_of r2 hits a out (some i)
              ≡ (if b then ok (null_links a out) else cited_response r2 hits a out i)
        pick z = ap (λ b. if b then ok (null_links a out) else cited_response r2 hits a out i) z

    respond-sourced :
        (hits : List RetrievedChunk) (cs : List ExtractionCandidate) (a : Answer)
        (r : AnswerResponse)
        → All (λ (hit : RetrievedChunk). keyed hit.source_type hit.png_r2_key ≡ true) hits
        → respond r2 hits cs a ≡ ok r
        → HasNoSource r ⊎ CitesCandidate r
    unfolding respond
    respond-sourced hits cs a r k e =
        let (out, (at_out, e1)) = bind_ok (response_candidates r2 hits cs) _ r e in
        response_of-sourced hits a out a.source_index r
          (response_candidates-types r2 hits cs out at_out) k e1

    extraction_failure-served : (e : Exn) (r : AnswerResponse) → extraction_failure e ≡ served r → ⊥
    unfolding extraction_failure
    extraction_failure-served (extraction_error _) r h = cc
    extraction_failure-served (ingestion_error _) r h = cc
    extraction_failure-served (retrieval_error _) r h = cc
    extraction_failure-served (discovery_error _) r h = cc
    extraction_failure-served (upstream_unavailable _ _ _) r h = cc
    extraction_failure-served (upstream_unauthorized _ _) r h = cc
    extraction_failure-served (builtin _) r h = cc
    extraction_failure-served (other_error _) r h = cc

    lift-served : (m : Result AnswerResponse) (r : AnswerResponse) → lift m ≡ served r → m ≡ ok r
    lift-served (ok a) r e = ap ok (served-injective a r e)
    lift-served (raised x) r e = cc

    respond_to-sourced :
        (hits : List RetrievedChunk) (cs : List ExtractionCandidate) (m : Result Answer)
        (r : AnswerResponse)
        → All (λ (hit : RetrievedChunk). keyed hit.source_type hit.png_r2_key ≡ true) hits
        → respond_to r2 hits cs m ≡ served r
        → HasNoSource r ⊎ CitesCandidate r
    respond_to-sourced hits cs (raised x) r k e = absurd (extraction_failure-served x r e)
    respond_to-sourced hits cs (ok a) r k e =
        respond-sourced hits cs a r k (lift-served (respond r2 hits cs a) r e)

    module _ ⦃py : Python⦄ ⦃h : HashOrder⦄ (create : List UserBlock → Reply) (x : Extractor)
        (question : String) where
      extract_and_respond-sourced :
          (hits : List RetrievedChunk) (built : Served (List ExtractionCandidate))
          (r : AnswerResponse)
          → candidates_from r2 1 hits ≡ built
          → (extract_and_respond r2 create x question hits built).1 ≡ served r
          → HasNoSource r ⊎ CitesCandidate r
      extract_and_respond-sourced hits (http_error _ _) r b e = cc
      extract_and_respond-sourced hits (escaped _) r b e = cc
      extract_and_respond-sourced hits (served cs) r b e =
          respond_to-sourced hits cs (extract create x question cs).1 r
            (candidates_from-keyed r2 1 hits cs b) e

      -- A response that is served abstains and has no source type, link or screenshot, or has the
      -- source type, the link and the screenshot of one of the candidates it lists.
      pub query-sourced :
          (retrieved : Result (List RetrievedChunk)) (r : AnswerResponse)
          → (query r2 create x question retrieved).1 ≡ served r
          → HasNoSource r ⊎ CitesCandidate r
      unfolding query
      query-sourced (raised y) r e = absurd (refused (is_retrieval_error y) y e)
        where
          refused :
              (b : Bool) (y : Exn) → (if b then http_error 503 none else escaped y) ≡ served r → ⊥
          refused true y e = cc
          refused false y e = cc
      query-sourced (ok []) r e = cc
      query-sourced (ok (hit ∷ hits)) r e =
          extract_and_respond-sourced (hit ∷ hits) (candidates_from r2 1 (hit ∷ hits)) r refl e
