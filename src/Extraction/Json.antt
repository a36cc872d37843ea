-- ===== src/Extraction/Json.antt =====
-- The values that `json.loads` makes, and the conversions `str`, `int` and `float` of them.
use torque_finder.Prelude.{
  String, Bool, true, false, Option, none, some, if◌then◌else◌, ◌==◌, string_eq, nat_eq,
}
use torque_finder.Prelude.Int.{ℤ, pos}
use torque_finder.Floats.{Floats}
use torque_finder.Domain.Errors.{
  Result, ok, raised, builtin, key_error, type_error, value_error, overflow_error, attribute_error,
}
use torque_finder.Domain.Answer.{Number, finite, infinite, nan}

module _ ⦃fl : Floats⦄ where
  open fl use {Float, decimal}

  mutual
    pub data Json : Type 0 where
      null : Json
      bool : Bool → Json
      int : ℤ → Json
      number : Number → Json
      str : String → Json
      array : Items → Json
      object : Fields → Json

    pub data Items : Type 0 where
      no_items : Items
      item : Json → Items → Items

    -- The keys of a `dict` are distinct.
    pub data Fields : Type 0 where
      no_fields : Fields
      field : String → Json → Fields → Fields

  abbrev pub lookup : Fields → String → Option Json
  lookup no_fields k = none
  lookup (field name value more) k =
      let rest = lookup more k in if name == k then some value else rest

  -- `payload[key]`, for a string `key`.
  abbrev pub subscript : Json → String → Result Json
  subscript (object fields) key = elim (lookup fields key) [
    | none ↦ raised (builtin key_error)
    | some value ↦ ok value
  ]
  subscript _ key = raised (builtin type_error)

  -- `payload.get(key)`
  abbrev pub payload_get : Json → String → Result Json
  payload_get (object fields) key = elim (lookup fields key) [
    | none ↦ ok null
    | some value ↦ ok value
  ]
  payload_get _ key = raised (builtin attribute_error)

  abbrev pub is_null : Json → Bool
  is_null null = true
  is_null _ = false

  -- What Python's built-ins make of texts and numbers. `loads` may raise an error that is not a
  -- `JSONDecodeError` (on an integer of too many digits, a plain `ValueError`).
  pub record Python : Type 0 where
    pub loads : String → Result Json
    pub to_str : Json → String
    pub parse_int : String → Option ℤ
    pub parse_float : String → Option Number
    -- `float(n)`; none is an `OverflowError`
    pub int_to_float : ℤ → Option Number
    pub truncate : Float → ℤ

  module _ ⦃py : Python⦄ where
    -- `float(value)`
    abbrev pub to_float : Json → Result Number
    to_float null = raised (builtin type_error)
    to_float (bool b) = ok (finite (if b then decimal 1 0 else decimal 0 0))
    to_float (int n) = elim (py.int_to_float n) [
      | none ↦ raised (builtin overflow_error)
      | some x ↦ ok x
    ]
    to_float (number x) = ok x
    to_float (str s) = elim (py.parse_float s) [
      | none ↦ raised (builtin value_error)
      | some x ↦ ok x
    ]
    to_float (array _) = raised (builtin type_error)
    to_float (object _) = raised (builtin type_error)

    -- `int(value)`
    abbrev pub to_int : Json → Result ℤ
    to_int null = raised (builtin type_error)
    to_int (bool b) = ok (pos (if b then 1 else 0))
    to_int (int n) = ok n
    to_int (number (finite x)) = ok (py.truncate x)
    to_int (number infinite) = raised (builtin overflow_error)
    to_int (number nan) = raised (builtin value_error)
    to_int (str s) = elim (py.parse_int s) [ none ↦ raised (builtin value_error) | some n ↦ ok n ]
    to_int (array _) = raised (builtin type_error)
    to_int (object _) = raised (builtin type_error)
