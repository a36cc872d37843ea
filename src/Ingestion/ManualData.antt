-- ===== src/Ingestion/ManualData.antt =====
-- `extract_manual_data_json` of discovery/publication_probe.py, and `_strip_html` of
-- ingestion/html_parser.py.
use Prim.Native.Char.{Char, code}
use torque_finder.Prelude.{String, Bool, not, none, some, string_eq, nat_eq, Option}
use torque_finder.Prelude.{nat_beq}
use torque_finder.Text.Regex.{CharTables, Pattern, class, ◌then_match◌, many, many1}
use torque_finder.Text.Replace.{literal, shortest_before, search_group, sub}
use torque_finder.Domain.Errors.{discovery_error, Result, ok, raised}
use torque_finder.Extraction.Parse.{strip}

-- `[^>]`
abbrev in_tag : Char → Bool
in_tag c = not (nat_beq (code c) b'>')

abbrev tag_end : Pattern
tag_end = class (λ c. nat_beq (code c) b'>')

-- `_MANUAL_DATA_RE`, up to its group.
unfoldable pub manual_data_open : Pattern
unfolding literal many
manual_data_open =
    literal "<script"
    then_match many in_tag
    then_match literal "id=\"manual-data\""
    then_match many in_tag
    then_match tag_end

-- `html.unescape`: the table of HTML entities.
pub record Entities : Type 0 where
  pub unescape : String → String

module _ ⦃u : CharTables⦄ where
  -- `m.group(1).strip()`, if there is a match.
  abbrev pub extracted : Option String → Result String
  extracted none =
      raised (discovery_error "publication HTML has no <script id='manual-data'> block")
  extracted (some group) = ok (strip group)

  unfoldable pub extract_manual_data_json : String → Result String
  unfolding manual_data_open literal shortest_before search_group
  extract_manual_data_json html =
      extracted (search_group manual_data_open (shortest_before (literal "</script>")) html)

  -- `_strip_html`, with `_TAG_RE` and `_WS_RE`.
  unfoldable pub strip_html : ⦃h : Entities⦄ → String → String
  unfolding many1 strip
  strip_html ⦃h⦄ fragment = strip (
      sub (many1 u.is_space) " " (
        h.unescape (
          sub (class (λ c. nat_beq (code c) b'<') then_match many1 in_tag then_match tag_end) " "
            fragment)))
