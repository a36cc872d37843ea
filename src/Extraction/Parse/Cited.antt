-- ===== src/Extraction/Parse/Cited.antt =====
-- The source that an answer cites.
use torque_finder.Prelude.{
  String, ◌≡◌, refl, subst, ◌⊎◌, inl, inr, Bool, true, false, ◌&&◌, Option, some, List, [], ◌∷◌,
  arith, Bool-cases, Option-cases, first, In, leb, string_eq, nat_eq,
}
use torque_finder.Prelude.Int.{ℤ}
use torque_finder.Floats.{Floats}
use torque_finder.Floats.Order.{fzero}
use torque_finder.Text.Regex.{CharTables}
use torque_finder.ProductMatch.Sets.{HashOrder}
use torque_finder.Domain.Errors.{extraction_error, Result, ok, except_as, ◌>>=◌}
use torque_finder.Domain.Outcome.{Returns, Returns->>=, Returns-any, Returns-except_as}
use torque_finder.Domain.Answer.{Answer, Number, finite, infinite, nan, cited_answer}
use torque_finder.Extraction.Json.{Json, Python, subscript, payload_get, is_null, to_float, to_int}
use torque_finder.Extraction.Client.{ExtractionCandidate, Message, response_text}
use torque_finder.Extraction.Gate.{is_out_of_corpus, abstention}
use torque_finder.Extraction.Parse.{
  has_index, is_value_or_type_error, is_schema_error, is_decode_error, schema_mismatch, opt_str,
  cite, read_payload, parse_response, strip_json_fences,
}

module _ ⦃fl : Floats⦄ where
  open fl use {Float, fle, decimal}

  -- An answer that names one of the candidates as its source.
  pub record Cites (candidates : List ExtractionCandidate) (a : Answer) : Type 0 where
    pub source : ExtractionCandidate
    pub supplied : In source candidates
    pub cited : a.source_index ≡ some source.index
    pub answered : a.abstained ≡ false
    pub confident : (fle fzero a.confidence ≡ true) × (fle a.confidence (decimal 1 0) ≡ true)

  -- What `parse_response` may return: the abstention without a source, or an answer that cites a
  -- candidate.
  abbrev pub IsGrounded : List ExtractionCandidate → Answer → Type 0
  IsGrounded candidates a = (a ≡ abstention) ⊎ Cites candidates a

  first-In :
      (p : ExtractionCandidate → Bool) (cs : List ExtractionCandidate) (c : ExtractionCandidate)
      → first p cs ≡ some c
      → In c cs
  first-In p [] c e = cc
  first-In p (x ∷ cs) c e = ground (arith, first-In p cs c)

  cited_answer-Cites :
      (cs : List ExtractionCandidate) (text : String) (tool torque : Option String)
      (c : ExtractionCandidate) (n : Number)
      → In c cs
      → Returns (IsGrounded cs) (cited_answer text tool torque c.index n)
  cited_answer-Cites cs text tool torque c infinite m = tt
  cited_answer-Cites cs text tool torque c nan m = tt
  cited_answer-Cites cs text tool torque c (finite x) m =
      elim (Bool-cases (leb 1 c.index && fle fzero x && fle x (decimal 1 0))) [
        | inl e ↦ rw e (
            inr record {
              source = c;
              supplied = m;
              cited = refl;
              answered = refl;
              confident = ground arith;
            })
        | inr e ↦ rw e tt
      ]

  module _ ⦃py : Python⦄ where
    cite-IsGrounded :
        (cs : List ExtractionCandidate) (text : String) (n : Number) (tool torque raw : Json)
        → Returns (IsGrounded cs) (cite cs text n tool torque raw)
    unfolding cite
    cite-IsGrounded cs text n tool torque raw =
        Returns->>= {A = ℤ} {B = Answer} (λ i. Unit) (IsGrounded cs)
          (except_as is_value_or_type_error schema_mismatch (to_int raw)) _ (Returns-any _)
          (λ i _. elim (Option-cases (first (has_index i) cs)) [
            | inl z ↦ rw z tt
            | inr (c, z) ↦ rw z (
                Returns-except_as (IsGrounded cs) is_value_or_type_error
                  (extraction_error "Claude response failed Answer validation")
                  (cited_answer text (opt_str tool) (opt_str torque) c.index n)
                  (cited_answer-Cites cs text (opt_str tool) (opt_str torque) c n
                    (first-In (has_index i) cs c z)))
          ])

    read_payload-IsGrounded :
        (cs : List ExtractionCandidate) (payload : Json)
        → Returns (IsGrounded cs) (read_payload cs payload)
    unfolding read_payload
    read_payload-IsGrounded cs payload =
        step (except_as is_schema_error schema_mismatch (subscript payload "answer")) _ (λ text.
          Returns->>= {A = Number} {B = Answer} (λ _. Unit) (IsGrounded cs)
            (except_as is_schema_error schema_mismatch
              (subscript payload "confidence" >>= to_float))
            _ (Returns-any _)
            (λ n _. step (payload_get payload "tool_size") _ (λ tool.
              step (payload_get payload "torque") _ (λ torque.
                step (payload_get payload "source_index") _ (λ raw.
                  elim (Bool-cases (is_null raw)) [
                    | inl e ↦ rw e (inl refl)
                    | inr e ↦ rw e (cite-IsGrounded cs (py.to_str text) n tool torque raw)
                  ])))))
      where
        step :
            (m : Result Json) (f : Json → Result Answer)
            → ((a : Json) → Returns (IsGrounded cs) (f a))
            → Returns (IsGrounded cs) (m >>= f)
        step m f k =
            Returns->>= {A = Json} {B = Answer} (λ _. Unit) (IsGrounded cs) m f (Returns-any m)
              (λ a _. k a)

    module _ ⦃h : HashOrder⦄ ⦃u : CharTables⦄ where
      -- Whatever the model replies, an answer that comes back is the abstention, which has no
      -- source, tool size or torque, or cites one of the supplied candidates with a confidence
      -- between 0 and 1.
      pub parse_response-IsGrounded :
          (response : Message) (candidates : List ExtractionCandidate) (query : String) (a : Answer)
          → parse_response response candidates query ≡ ok a
          → IsGrounded candidates a
      unfolding parse_response
      parse_response-IsGrounded response candidates query a e =
          subst (Returns (IsGrounded candidates)) e
            (elim (Bool-cases (is_out_of_corpus query candidates)) [
              | inl q ↦ rw q (inl refl)
              | inr q ↦ rw q (
                  Returns->>= {A = String} {B = Answer} (λ _. Unit) (IsGrounded candidates)
                    (response_text response) _ (Returns-any _)
                    (λ text _.
                      Returns->>= {A = Json} {B = Answer} (λ _. Unit) (IsGrounded candidates)
                        (except_as is_decode_error
                          (extraction_error
                            "Claude response was not valid JSON after fence stripping")
                          (py.loads (strip_json_fences text)))
                        _ (Returns-any _)
                        (λ payload _. read_payload-IsGrounded candidates payload)))
            ])
