-- ===== src/Extraction/Parse/Failures.antt =====
-- What `_parse_response` raises.
use torque_finder.Prelude.{
  String, ◌≡◌, refl, subst, ◌⊎◌, inl, inr, true, false, List, Bool-cases, Option-cases, first,
  string_eq, nat_eq, opt_eq,
}
use torque_finder.Prelude.Int.{ℤ}
use torque_finder.Floats.{Floats}
use torque_finder.Text.Regex.{CharTables}
use torque_finder.ProductMatch.Sets.{HashOrder}
use torque_finder.Domain.Errors.{
  Exn, builtin, overflow_error, extraction_error, is_extraction_error, Result, ok, raised, ◌>>=◌,
  except_as,
}
use torque_finder.Domain.Outcome.{Raises, Raises->>=, Raises-except_as}
use torque_finder.Domain.Answer.{Answer, Number, cited_answer}
use torque_finder.Extraction.Json.{
  Json, null, bool, int, number, str, array, object, Python, subscript, payload_get, is_null,
  to_float, to_int,
}
use torque_finder.Extraction.Client.{ExtractionCandidate, Message, response_text}
use torque_finder.Extraction.Gate.{is_out_of_corpus}
use torque_finder.Extraction.Parse.{
  has_index, is_value_or_type_error, is_schema_error, is_decode_error, schema_mismatch, opt_str,
  cite, read_payload, parse_response, strip_json_fences,
}
use torque_finder.Extraction.Parse.Conversions.{
  IsExpected, IsConversion, IsValue, response_text-Raises, subscript-Raises, cited_answer-Raises,
  payload_get-Raises, uncaught, uncaught_value, to_float-Raises, to_int-Raises,
}

module _ ⦃fl : Floats⦄ where
  open fl use {Float, fle, decimal}

  module _ ⦃py : Python⦄ where
    cite-Raises :
        (cs : List ExtractionCandidate) (text : String) (n : Number) (tool torque raw : Json)
        → Raises IsExpected (cite cs text n tool torque raw)
    unfolding cite
    cite-Raises cs text n tool torque raw =
        Raises->>= {A = ℤ} {B = Answer} IsExpected
          (except_as is_value_or_type_error schema_mismatch (to_int raw)) _
          (Raises-except_as IsExpected IsValue is_value_or_type_error schema_mismatch (to_int raw)
            (to_int-Raises raw) (inl refl) uncaught_value)
          (λ i _. elim (Option-cases (first (has_index i) cs)) [
            | inl z ↦ rw z (inl refl)
            | inr (c, z) ↦ rw z (
                Raises-except_as IsExpected IsValue is_value_or_type_error
                  (extraction_error "Claude response failed Answer validation")
                  (cited_answer text (opt_str tool) (opt_str torque) c.index n)
                  (cited_answer-Raises text (opt_str tool) (opt_str torque) c.index n) (inl refl)
                  uncaught_value)
          ])

    -- What is no `dict` fails at the first subscript.
    read_payload-Raises :
        (cs : List ExtractionCandidate) (payload : Json)
        → Raises IsExpected (read_payload cs payload)
    unfolding read_payload
    read_payload-Raises cs null = inl refl
    read_payload-Raises cs (bool _) = inl refl
    read_payload-Raises cs (int _) = inl refl
    read_payload-Raises cs (number _) = inl refl
    read_payload-Raises cs (str _) = inl refl
    read_payload-Raises cs (array _) = inl refl
    read_payload-Raises cs (object fields) =
        Raises->>= {A = Json} {B = Answer} IsExpected
          (except_as is_schema_error schema_mismatch (subscript (object fields) "answer")) _
          (Raises-except_as IsExpected IsConversion is_schema_error schema_mismatch
            (subscript (object fields) "answer") (subscript-Raises (object fields) "answer")
            (inl refl) uncaught)
          (λ text _.
            Raises->>= {A = Number} {B = Answer} IsExpected
              (except_as is_schema_error schema_mismatch
                (subscript (object fields) "confidence" >>= to_float))
              _
              (Raises-except_as IsExpected IsConversion is_schema_error schema_mismatch
                (subscript (object fields) "confidence" >>= to_float)
                (Raises->>= {A = Json} {B = Number} IsConversion
                  (subscript (object fields) "confidence") to_float
                  (subscript-Raises (object fields) "confidence") (λ v _. to_float-Raises v))
                (inl refl) uncaught)
              (λ n _. step "tool_size" _ (λ tool. step "torque" _ (λ torque.
                step "source_index" _ (λ raw. elim (Bool-cases (is_null raw)) [
                  | inl e ↦ rw e tt
                  | inr e ↦ rw e (cite-Raises cs (py.to_str text) n tool torque raw)
                ])))))
      where
        step :
            (key : String) (f : Json → Result Answer)
            → ((a : Json) → Raises IsExpected (f a))
            → Raises IsExpected (payload_get (object fields) key >>= f)
        step key f k =
            Raises->>= {A = Json} {B = Answer} IsExpected (payload_get (object fields) key) f
              (payload_get-Raises fields key) (λ a _. k a)

    -- An exception of `json.loads`, on the text of a response, that is no `JSONDecodeError`.
    pub record IsUndecoded ⦃u : CharTables⦄ (response : Message) (e : Exn) : Type 0 where
      pub text : String
      pub is_text : response_text response ≡ ok text
      pub loads_raises : py.loads (strip_json_fences text) ≡ raised e
      pub is_uncaught : is_decode_error e ≡ false

    module _ ⦃h : HashOrder⦄ ⦃u : CharTables⦄ where
      abbrev IsAnyOf : Message → Exn → Type 0
      IsAnyOf response e =
          (is_extraction_error e ≡ true) ⊎ (e ≡ builtin overflow_error) ⊎ IsUndecoded response e

      expected :
          {A : Type 0} (response : Message) (m : Result A)
          → Raises IsExpected m
          → Raises (IsAnyOf response) m
      expected response (ok a) h = tt
      expected response (raised e) (inl h) = inl h
      expected response (raised e) (inr h) = inr (inl h)

      loaded :
          (response : Message) (text : String) (m : Result Json)
          → response_text response ≡ ok text
          → py.loads (strip_json_fences text) ≡ m
          → Raises (IsAnyOf response) (
              except_as is_decode_error
                (extraction_error "Claude response was not valid JSON after fence stripping")
                m)
      loaded response text (ok j) q l = tt
      loaded response text (raised e) q l = elim (Bool-cases (is_decode_error e)) [
        | inl z ↦ rw z (inl refl)
        | inr z ↦
            rw z (inr (inr record { text = text; is_text = q; loads_raises = l; is_uncaught = z }))
      ]

      -- An exception is an `ExtractionError`, or one of two that no arm catches: the
      -- `OverflowError` of a conversion, or what `json.loads` raised, on the text of the response,
      -- that is no `JSONDecodeError`.
      pub parse_response-raises :
          (response : Message) (candidates : List ExtractionCandidate) (query : String) (e : Exn)
          → parse_response response candidates query ≡ raised e
          → (is_extraction_error e ≡ true) ⊎ (e ≡ builtin overflow_error) ⊎ IsUndecoded response e
      unfolding parse_response
      parse_response-raises response candidates query e q =
          subst (Raises (IsAnyOf response)) q
            (elim (Bool-cases (is_out_of_corpus query candidates)) [
              | inl z ↦ rw z tt
              | inr z ↦ rw z (
                  Raises->>= {A = String} {B = Answer} (IsAnyOf response) (response_text response) _
                    (expected response (response_text response) (response_text-Raises response))
                    (λ text t.
                      Raises->>= {A = Json} {B = Answer} (IsAnyOf response)
                        (except_as is_decode_error
                          (extraction_error
                            "Claude response was not valid JSON after fence stripping")
                          (py.loads (strip_json_fences text)))
                        _ (loaded response text (py.loads (strip_json_fences text)) t refl)
                        (λ payload _.
                          expected response (read_payload candidates payload)
                            (read_payload-Raises candidates payload))))
            ])
