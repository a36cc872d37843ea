-- ===== src/Extraction/Parse/Conversions.antt =====
-- What the conversions in `_parse_response` raise.
use mathlib.Core.Bool.{false≢true}
use torque_finder.Prelude.{
  ℕ, String, ◌≡◌, refl, sym, ◌∙◌, ◌⊎◌, inl, inr, true, false, ◌&&◌, Option, none, some, List, [],
  ◌∷◌, Bool-cases, leb, ◌==◌, string_eq, nat_eq, opt_eq,
}
use torque_finder.Prelude.Int.{ℤ}
use torque_finder.Floats.{Floats}
use torque_finder.Floats.Order.{fzero}
use torque_finder.Domain.Errors.{
  Exn, builtin, key_error, value_error, overflow_error, is_extraction_error, Result, ok, raised,
}
use torque_finder.Domain.Outcome.{Raises}
use torque_finder.Domain.Answer.{Number, finite, infinite, nan, cited_answer}
use torque_finder.Extraction.Json.{
  Json, Fields, null, bool, int, number, str, array, object, lookup, Python, subscript, payload_get,
  to_float, to_int,
}
use torque_finder.Extraction.Client.{
  Message, ContentBlock, text_content, other_content, response_text, first_text,
}
use torque_finder.Extraction.Parse.{is_value_or_type_error, is_schema_error}

-- An `ExtractionError`, or an `OverflowError` that no arm catches.
abbrev pub IsExpected : Exn → Type 0
IsExpected e = (is_extraction_error e ≡ true) ⊎ (e ≡ builtin overflow_error)

-- What a conversion raises.
abbrev pub IsConversion : Exn → Type 0
IsConversion e = (is_schema_error e ≡ true) ⊎ (e ≡ builtin overflow_error)

abbrev pub IsValue : Exn → Type 0
IsValue e = (is_value_or_type_error e ≡ true) ⊎ (e ≡ builtin overflow_error)

pub response_text-Raises : (response : Message) → Raises IsExpected (response_text response)
unfolding response_text
response_text-Raises response = elim (Bool-cases (response.stop_reason == some "max_tokens")) [
  | inl e ↦ rw e (inl refl)
  | inr e ↦ elim (Bool-cases (response.stop_reason == some "refusal")) [
    | inl k ↦ rw (e, k) (inl refl)
    | inr k ↦ rw (e, k) (text response.content)
  ]
]
  where
    text : (content : List ContentBlock) → Raises IsExpected (first_text content)
    text [] = inl refl
    text (other_content _ ∷ _) = inl refl
    text (text_content _ ∷ _) = tt

module _ ⦃fl : Floats⦄ where
  open fl use {Float, fle, decimal}

  pub subscript-Raises :
      (payload : Json) (key : String) → Raises IsConversion (subscript payload key)
  subscript-Raises (object fields) key =
      elim (lookup fields key)
        as (λ o. Raises IsConversion (elim o as (λ _. Result Json) [
          | none ↦ raised (builtin key_error)
          | some value ↦ ok value
        ])) [ none ↦ inl refl | some v ↦ tt ]
  subscript-Raises null key = inl refl
  subscript-Raises (bool _) key = inl refl
  subscript-Raises (int _) key = inl refl
  subscript-Raises (number _) key = inl refl
  subscript-Raises (str _) key = inl refl
  subscript-Raises (array _) key = inl refl

  pub cited_answer-Raises :
      (text : String) (tool torque : Option String) (i : ℕ) (n : Number)
      → Raises IsValue (cited_answer text tool torque i n)
  cited_answer-Raises text tool torque i infinite = inl refl
  cited_answer-Raises text tool torque i nan = inl refl
  cited_answer-Raises text tool torque i (finite x) =
      elim (Bool-cases (leb 1 i && fle fzero x && fle x (decimal 1 0))) [
        | inl e ↦ rw e tt
        | inr e ↦ rw e (inl refl)
      ]

  pub payload_get-Raises :
      (fields : Fields) (key : String) → Raises IsExpected (payload_get (object fields) key)
  payload_get-Raises fields key =
      elim (lookup fields key)
        as (λ o.
          Raises IsExpected
            (elim o as (λ _. Result Json) [ none ↦ ok null | some value ↦ ok value ])) [
              | none ↦ tt
              | some v ↦ tt
            ]

  -- An error that the arms for a schema mismatch let through.
  pub uncaught : (e : Exn) → IsConversion e → is_schema_error e ≡ false → IsExpected e
  uncaught e (inl q) z = absurd (false≢true (sym z ∙ q))
  uncaught e (inr q) z = inr q

  pub uncaught_value : (e : Exn) → IsValue e → is_value_or_type_error e ≡ false → IsExpected e
  uncaught_value e (inl q) z = absurd (false≢true (sym z ∙ q))
  uncaught_value e (inr q) z = inr q

  module _ ⦃py : Python⦄ where
    pub to_float-Raises : (value : Json) → Raises IsConversion (to_float value)
    to_float-Raises null = inl refl
    to_float-Raises (bool _) = tt
    to_float-Raises (int n) =
        elim (py.int_to_float n)
          as (λ o. Raises IsConversion (elim o as (λ _. Result Number) [
            | none ↦ raised (builtin overflow_error)
            | some x ↦ ok x
          ])) [ none ↦ inr refl | some x ↦ tt ]
    to_float-Raises (number _) = tt
    to_float-Raises (str s) =
        elim (py.parse_float s)
          as (λ o. Raises IsConversion (elim o as (λ _. Result Number) [
            | none ↦ raised (builtin value_error)
            | some x ↦ ok x
          ])) [ none ↦ inl refl | some x ↦ tt ]
    to_float-Raises (array _) = inl refl
    to_float-Raises (object _) = inl refl

    pub to_int-Raises : (value : Json) → Raises IsValue (to_int value)
    to_int-Raises null = inl refl
    to_int-Raises (bool _) = tt
    to_int-Raises (int n) = tt
    to_int-Raises (number (finite x)) = tt
    to_int-Raises (number infinite) = inr refl
    to_int-Raises (number nan) = inl refl
    to_int-Raises (str s) =
        elim (py.parse_int s)
          as (λ o.
            Raises IsValue
              (elim o as (λ _. Result ℤ) [ none ↦ raised (builtin value_error) | some n ↦ ok n ])) [
                | none ↦ inl refl
                | some x ↦ tt
              ]
    to_int-Raises (array _) = inl refl
    to_int-Raises (object _) = inl refl
