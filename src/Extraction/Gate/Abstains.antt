-- ===== src/Extraction/Gate/Abstains.antt =====
-- The gate against products that the corpus does not hold.
use torque_finder.Prelude.{
  String, ◌≡◌, refl, ◌↔◌, inl, inr, true, false, List, [], ◌∷◌, arith, Bool-cases, any, In,
  string_eq, nat_eq, subst, sym,
}
use torque_finder.Floats.{Floats}
use torque_finder.Text.Regex.{CharTables}
use torque_finder.ProductMatch.Sets.{HashOrder}
use torque_finder.ProductMatch.Scopes.{extract_query_scope, scope_matches}
use torque_finder.ProductMatch.Scopes.Matching.{Satisfies, Passes, scope_matches_iff}
use torque_finder.Domain.Scope.{is_identified}
use torque_finder.Domain.Errors.{ok}
use torque_finder.Extraction.Json.{Python}
use torque_finder.Extraction.Client.{ExtractionCandidate, Message}
use torque_finder.Extraction.Gate.{candidate_scope, is_out_of_corpus, abstention}
use torque_finder.Extraction.Parse.{parse_response}

module _ ⦃h : HashOrder⦄ where
  -- The question names a product, and each candidate's document contradicts it: it has another
  -- family, or, unless both families are known, another brand.
  pub record IsForeign (query : String) (candidates : List ExtractionCandidate) : Type 0 where
    pub names_product : is_identified (extract_query_scope query) ≡ true
    pub no_document :
        (c : ExtractionCandidate)
        → In c candidates
        → ¬ Satisfies (extract_query_scope query) (candidate_scope c.document_title)

  -- The question names a product, and each candidate's document is not of that product, or has a
  -- family but no brand where the question names only a brand.
  pub record IsBlocked (query : String) (candidates : List ExtractionCandidate) : Type 0 where
    pub names_product : is_identified (extract_query_scope query) ≡ true
    pub no_passing :
        (c : ExtractionCandidate)
        → In c candidates
        → ¬ Passes (extract_query_scope query) (candidate_scope c.document_title)

  no_match :
      (query : String) (cs : List ExtractionCandidate)
      → ((c : ExtractionCandidate)
          → In c cs
          → ¬ Passes (extract_query_scope query) (candidate_scope c.document_title))
      → any (λ c. scope_matches (extract_query_scope query) (candidate_scope c.document_title)) cs
        ≡ false
  no_match query [] none_of = refl
  no_match query (c ∷ cs) none_of =
      elim (Bool-cases
        (scope_matches (extract_query_scope query) (candidate_scope c.document_title))) [
          | inl e ↦ absurd (none_of c (inl refl) ((scope_matches_iff _ _).0 e))
          | inr e ↦ rw e (no_match query cs (λ d m. none_of d (inr m)))
        ]

  some_match :
      (query : String) (cs : List ExtractionCandidate)
      → any (λ c. scope_matches (extract_query_scope query) (candidate_scope c.document_title)) cs
        ≡ false
      → (c : ExtractionCandidate) → In c cs
      → ¬ Passes (extract_query_scope query) (candidate_scope c.document_title)
  some_match query [] e c m s = absurd m
  some_match query (d ∷ cs) e c (inl q) s =
      let t : scope_matches (extract_query_scope query) (candidate_scope d.document_title) ≡ true =
        subst
          (λ (x : ExtractionCandidate).
            scope_matches (extract_query_scope query) (candidate_scope x.document_title) ≡ true)
          (sym q)
          ((scope_matches_iff (extract_query_scope query) (candidate_scope c.document_title)).1
            s) in
      ground arith
  some_match query (d ∷ cs) e c (inr m) s = some_match query cs (ground arith) c m s

  -- The gate closes exactly if the question names a product, and each candidate's document is not
  -- of that product, or has a family but no brand where the question names only a brand. The
  -- second case is no positive mismatch, which the documentation asks for.
  pub is_out_of_corpus_iff :
      (query : String) (candidates : List ExtractionCandidate)
      → (is_out_of_corpus query candidates ≡ true) ↔ IsBlocked query candidates
  unfolding is_out_of_corpus
  is_out_of_corpus_iff query cs = (
    λ e. record { names_product = ground arith; no_passing = some_match query cs (ground arith) },
    λ f. rw (f.names_product, no_match query cs f.no_passing) refl,
  )

  foreign-IsBlocked :
      (query : String) (cs : List ExtractionCandidate) → IsForeign query cs → IsBlocked query cs
  foreign-IsBlocked query cs f = record {
    names_product = f.names_product;
    no_passing = λ c m p. f.no_document c m p.0;
  }

  module _ ⦃fl : Floats⦄ ⦃py : Python⦄ ⦃u : CharTables⦄ where
    -- On a positive mismatch (the question names a product, and each candidate's document
    -- contradicts it by another family or another brand), the answer is the abstention, whatever
    -- the model replied.
    pub parse_response-abstains :
        (response : Message) (candidates : List ExtractionCandidate) (query : String)
        → IsForeign query candidates
        → parse_response response candidates query ≡ ok abstention
    unfolding parse_response
    parse_response-abstains response cs query f =
        rw ((is_out_of_corpus_iff query cs).1 (foreign-IsBlocked query cs f)) refl
