-- ===== src/Domain/Answer.antt =====
-- `Answer` of domain/models.py.
use torque_finder.Prelude.{
  ℕ, String, Bool, false, ◌&&◌, Option, some, if◌then◌else◌, leb, string_eq, nat_eq,
}
use torque_finder.Floats.{Floats}
use torque_finder.Floats.Order.{fzero}
use torque_finder.Domain.Errors.{Result, ok, raised, builtin, value_error}

module _ ⦃fl : Floats⦄ where
  open fl use {Float, fle, decimal}

  -- `Answer`
  pub record Answer : Type 0 where
    pub text : String
    pub tool_size : Option String
    pub torque : Option String
    pub source_index : Option ℕ
    pub confidence : Float
    pub abstained : Bool

  -- What `float(...)` gives.
  pub data Number : Type 0 where
    finite : Float → Number
    infinite nan : Number

  -- The construction of an `Answer` that cites a source, with the constraints of its fields:
  -- `source_index >= 1` and `0.0 <= confidence <= 1.0`. A `ValidationError` is a `ValueError`.
  abbrev pub cited_answer : String → Option String → Option String → ℕ → Number → Result Answer
  cited_answer text tool_size torque source_index infinite = raised (builtin value_error)
  cited_answer text tool_size torque source_index nan = raised (builtin value_error)
  cited_answer text tool_size torque source_index (finite c) =
      if leb 1 source_index && fle fzero c && fle c (decimal 1 0)
      then ok record {
        text = text;
        tool_size = tool_size;
        torque = torque;
        source_index = some source_index;
        confidence = c;
        abstained = false;
      }
      else raised (builtin value_error)
