-- ===== src/Discovery/Probe.antt =====
-- `build_publication` of discovery/publication_probe.py.
use torque_finder.Text.{contains}
use torque_finder.Prelude.{
  String, Bool, false, Option, none, some, List, [], ◌∷◌, if◌then◌else◌, any, ◌==◌, string_eq,
  nat_eq,
}
use torque_finder.Floats.{Floats}
use torque_finder.Text.Regex.{CharTables}
use torque_finder.Domain.Errors.{
  discovery_error, builtin, value_error, attribute_error, type_error, Result, ok, raised, ◌>>=◌,
  except_as, Exn,
}
use torque_finder.Domain.Publications.{PublicationRef, DiscoveredPublication}
use torque_finder.Extraction.Json.{Json, null, str, array, object, no_items, lookup, Python}
use torque_finder.Extraction.Parse.{strip, is_decode_error}
use torque_finder.Ingestion.ManualData.{extract_manual_data_json}
use torque_finder.Ingestion.HtmlParser.{as_text, iterate, items_of}

-- `hashlib.sha256(raw.encode("utf-8")).hexdigest()`
pub record Hashing : Type 0 where
  pub sha256 : String → String

abbrev pub invalid_json : Exn
invalid_json = discovery_error "manual-data JSON is invalid"

module _ ⦃fl : Floats⦄ where
  abbrev or_default : Json → Option Json → Json
  or_default d none = d
  or_default d (some value) = value

  -- `data.get(key, default)`
  abbrev pub get_or : Json → String → Json → Result Json
  get_or (object fields) key default = ok (or_default default (lookup fields key))
  get_or _ key default = raised (builtin attribute_error)

  -- The element of a tuple of texts: pydantic raises a `ValidationError` for any other value.
  abbrev text_value : Json → Result String
  text_value (str s) = ok s
  text_value _ = raised (builtin value_error)

  abbrev is_text : String → Json → Bool
  is_text t (str s) = s == t
  is_text t _ = false

  -- `o["value"] if "value" in o`
  abbrev option_value : Json → Result (Option Json)
  option_value (object fields) = ok (lookup fields "value")
  option_value (array items) =
      if any (is_text "value") (items_of items) then raised (builtin type_error) else ok none
  option_value (str s) = if contains "value" s then raised (builtin type_error) else ok none
  option_value _ = raised (builtin type_error)

  abbrev with_value : Option Json → List Json → List Json
  with_value none values = values
  with_value (some v) values = v ∷ values

  unfoldable pub option_values : List Json → Result (List Json)
  option_values [] = ok []
  option_values (o ∷ os) = do
    value ← option_value o
    values ← option_values os
    ok (with_value value values)

  -- The loop of `_filter_values`.
  unfoldable pub first_filter : String → List Json → Result (List Json)
  first_filter key [] = ok []
  first_filter key (f ∷ fs) =
      let later = first_filter key fs in
      get_or f "key" null >>= λ found.
      if is_text key found
      then (get_or f "options" (array no_items) >>= iterate >>= option_values)
      else later

  -- `_filter_values`
  unfoldable pub filter_values : Json → String → Result (List Json)
  filter_values data_json key =
      get_or data_json "filters" (array no_items) >>= iterate >>= first_filter key

  unfoldable pub text_values : List Json → Result (List String)
  text_values [] = ok []
  text_values (j ∷ js) = do value ← text_value j; values ← text_values js; ok (value ∷ values)

  module _ ⦃u : CharTables⦄ ⦃py : Python⦄ ⦃hs : Hashing⦄ where
    -- From the loaded JSON on.
    unfoldable pub publication_of : PublicationRef → String → Json → Result DiscoveredPublication
    unfolding strip filter_values first_filter option_values text_values
    publication_of ref raw payload = do
      title ← get_or payload "title" (str "")
      locale ← get_or payload "locale" (str "")
      series ← filter_values payload "series"
      models ← filter_values payload "models"
      procedures ← filter_values payload "procedure"
      series_texts ← text_values series
      models_texts ← text_values models
      procedures_texts ← text_values procedures
      ok record {
        pub_id = ref.pub_id;
        pub_type = ref.pub_type;
        title = strip (as_text title);
        locale = as_text locale;
        source_url = ref.source_url;
        series = series_texts;
        models = models_texts;
        procedures = procedures_texts;
        content_hash = hs.sha256 raw;
      }

    -- `build_publication`
    unfoldable pub build_publication : String → PublicationRef → Result DiscoveredPublication
    build_publication html ref = do
      raw ← extract_manual_data_json html
      payload ← except_as is_decode_error invalid_json (py.loads raw)
      publication_of ref raw payload
