-- ===== src/Ingestion/HtmlParser.antt =====
-- ingestion/html_parser.py, from the loaded JSON on. A Python `dict` is given by its fields.
pub mod Publication
use Prim.Native.Char.{Char, code}
use Prim.Native.String
use Prim.Native.String.{String, [], ◌∷◌}
use mathlib.Core.List.{List, [], ◌∷◌}
use torque_finder.Prelude.{
  ℕ, zero, suc, ◌+◌, ◌-◌, ◌*◌, ◌≤◌, ◌<◌, String, ◌≡◌, ◌≢◌, refl, sym, ap, ◌∙◌, subst, ◌↔◌, ◌⊎◌, inl,
  inr, Bool, true, false, not, ◌&&◌, ◌||◌, Option, none, some, List, [], ◌∷◌, ◌++◌, arith, eq_iff,
  if◌then◌else◌, Bool-cases, Option-cases, length, take, any, all, keep, first, In, Before, All,
  is_some, is_none, leb, ltb, ◌==◌, string_eq, nat_eq,
}
use torque_finder.Prelude.{nat_beq, map}
use torque_finder.Prelude.Int.{ℤ, pos, negsuc}
use torque_finder.Floats.{Floats}
use torque_finder.Text.{join}
use torque_finder.Text.Regex.{CharTables}
use torque_finder.Domain.Answer.{finite, infinite, nan}
use torque_finder.Domain.Errors.{builtin, type_error, Result, ok, raised, ◌>>=◌}
use torque_finder.Domain.Documents.{HtmlChunk, html_chunk, ParsedPublication}
use torque_finder.Extraction.Json.{
  Json, null, bool, int, number, str, array, object, Items, no_items, item, Fields, no_fields,
  field, lookup, payload_get, Python,
}
use torque_finder.Extraction.Parse.{strip}
use torque_finder.Ingestion.ManualData.{Entities, strip_html}

-- `s.lstrip(chars)`, `s.rstrip(chars)` and `s.strip(chars)`, by the test of the characters.
unfoldable pub lstrip_of : (Char → Bool) → String → String
lstrip_of p [] = []
lstrip_of p (c ∷ s) = let rest = lstrip_of p s in if p c then rest else c ∷ s

unfoldable pub rstrip_of : (Char → Bool) → String → String
rstrip_of p [] = []
rstrip_of p (c ∷ s) = let rest = rstrip_of p s in if rest == "" && p c then "" else c ∷ rest

-- `c in ": "`
abbrev is_separator : Char → Bool
is_separator c = nat_beq (code c) b':' || nat_beq (code c) b' '

-- `value or None`
abbrev pub or_none : String → Option String
or_none s = if s == "" then none else some s

-- `a or b`, for texts that may be `None`
abbrev pub or_else : Option String → Option String → Option String
or_else none b = b
or_else (some a) b = if a == "" then b else some a

-- `_deep_link`
abbrev pub deep_link : String → Option String → String
deep_link base_url none = base_url
deep_link base_url (some anchor) =
    if anchor == "" then base_url else String.◌++◌ base_url (String.◌++◌ "#" anchor)

-- The texts that are not empty.
abbrev pub nonempty : List String → List String
nonempty texts = keep (λ t. not (t == "")) texts

-- `[p for p in parts if not (p in seen or seen.add(p))]`
unfoldable pub unseen : List String → List String → List String
unseen seen [] = []
unseen seen (p ∷ ps) =
    let rest = unseen seen ps in
    let more = unseen (p ∷ seen) ps in if any (λ q. q == p) seen then rest else p ∷ more

module _ ⦃fl : Floats⦄ where
  open fl use {Float, fle, decimal}

  -- `bool(value)`
  unfoldable pub truthy : Json → Bool
  truthy null = false
  truthy (bool b) = b
  truthy (int (pos n)) = not (n == 0)
  truthy (int (negsuc _)) = true
  truthy (number (finite x)) = not (fle x (decimal 0 0) && fle (decimal 0 0) x)
  truthy (number infinite) = true
  truthy (number nan) = true
  truthy (str s) = not (s == "")
  truthy (array no_items) = false
  truthy (array (item _ _)) = true
  truthy (object no_fields) = false
  truthy (object (field _ _ _)) = true

  -- `a or b`
  abbrev pub or_json : Json → Json → Json
  or_json a b = if truthy a then a else b

  -- `d.get(key)` of a `dict`
  abbrev pub get_field : Fields → String → Json
  get_field d key = elim (lookup d key) [ none ↦ null | some value ↦ value ]

  abbrev pub items_of : Items → List Json
  items_of no_items = []
  items_of (item j more) = j ∷ items_of more

  abbrev pub keys_of : Fields → List Json
  keys_of no_fields = []
  keys_of (field k _ more) = str k ∷ keys_of more

  abbrev pub chars_of : String → List Json
  chars_of [] = []
  chars_of (c ∷ s) = str (c ∷ []) ∷ chars_of s

  -- `for x in value`: lists, the keys of a `dict`, the characters of a text.
  abbrev pub iterate : Json → Result (List Json)
  iterate (array items) = ok (items_of items)
  iterate (object fields) = ok (keys_of fields)
  iterate (str s) = ok (chars_of s)
  iterate _ = raised (builtin type_error)

  module _ ⦃u : CharTables⦄ ⦃py : Python⦄ where
    -- `str(value)`
    abbrev pub as_text : Json → String
    as_text (str s) = s
    as_text value = py.to_str value

    -- `str(d.get(key) or "").strip()`
    abbrev pub text_field : Fields → String → String
    text_field d key = strip (as_text (or_json (get_field d key) (str "")))

    -- `_hash_of`
    unfoldable pub hash_of : Fields → Option String
    unfolding lstrip_of strip truthy
    hash_of node = or_none (lstrip_of (λ c. nat_beq (code c) b'#') (text_field node "hash"))

    abbrev captions : Fields → List String
    captions image = nonempty (
        text_field image "caption1"
        ∷ text_field image "caption2"
        ∷ text_field image "caption3"
        ∷ [])

    abbrev captions_of : Items → List String
    captions_of no_items = []
    captions_of (item (object image) more) = captions image ++ captions_of more
    captions_of (item _ more) = captions_of more

    -- `_image_captions`
    unfoldable pub image_captions : Json → List String
    image_captions (array images) = captions_of images
    image_captions _ = []

    module _ ⦃h : Entities⦄ where
      -- The first of the keys whose value is a text.
      abbrev first_key_text : Fields → List String → List String
      first_key_text d [] = []
      first_key_text d (key ∷ keys) =
          let rest = first_key_text d keys in
          elim (get_field d key) [ str s ↦ nonempty (strip_html s ∷ []) | _ ↦ rest ]

      unfoldable mutual
        -- `_content_texts`
        pub content_texts : Json → List String
        content_texts (str s) = nonempty (strip_html s ∷ [])
        content_texts (object d) =
            first_key_text d ("content" ∷ "html" ∷ "text" ∷ "value" ∷ [])
            ++ image_captions (get_field d "images")
        content_texts (array items) = items_texts items
        content_texts _ = []

        pub items_texts : Items → List String
        items_texts no_items = []
        items_texts (item j more) = content_texts j ++ items_texts more

      -- `f"{label}: {value}".strip(": ").strip()`
      abbrev labelled : String → String → String
      labelled label value = strip (
          lstrip_of is_separator
            (rstrip_of is_separator (String.◌++◌ label (String.◌++◌ ": " value))))

      -- The `description` or the `value` of a tool, as a text.
      abbrev tool_value : Json → String
      tool_value (array values) = strip (join ", " (map as_text (items_of values)))
      tool_value value = strip (as_text value)

      abbrev tool_text : Json → String
      tool_text (str s) = strip s
      tool_text (object d) =
          labelled
            (strip
              (as_text (or_json (get_field d "label") (or_json (get_field d "title") (str "")))))
            (tool_value
              (or_json (get_field d "description") (or_json (get_field d "value") (str ""))))
      tool_text _ = ""

      -- The line of the tools that have a text.
      abbrev tools_line : List String → String
      tools_line [] = ""
      tools_line (entry ∷ entries) = String.◌++◌ "Tools: " (join "; " (entry ∷ entries))

      abbrev tool_entries : Json → List String
      tool_entries (array items) = nonempty (map tool_text (items_of items))
      tool_entries _ = []

      abbrev tool_content : Json → Json
      tool_content (object d) = get_field d "content"
      tool_content value = value

      -- `_tool_list_text`
      unfoldable pub tool_list_text : Json → String
      unfolding truthy strip lstrip_of rstrip_of
      tool_list_text tool_list =
          if truthy tool_list then tools_line (tool_entries (tool_content tool_list)) else ""

      -- The parts of a block behind its title.
      abbrev block_parts : Fields → List String
      block_parts child =
          if as_text (or_json (get_field child "type") (str "")) == "toolList"
          then nonempty (tool_list_text (object child) ∷ [])
          else content_texts (get_field child "content")
            ++ image_captions (get_field child "images")
            ++ nonempty (tool_list_text (get_field child "toolList") ∷ [])

      -- `_block_text`
      unfoldable pub block_text : Fields → String
      unfolding truthy strip unseen
      block_text child =
          strip
            (join "\n" (unseen [] (nonempty (text_field child "title" ∷ []) ++ block_parts child)))
