-- ===== src/Discovery/Crawler.antt =====
-- `discover_seed` of discovery/crawler.py. The fetcher is a parameter.
pub mod Known
pub mod Registered
use Prim.Native.String
use torque_finder.Prelude.{
  ℕ, String, Option, none, some, List, [], ◌∷◌, ◌++◌, if◌then◌else◌, length, any, ◌==◌, string_eq,
  nat_eq,
}
use torque_finder.Prelude.{Dict, get, put}
use torque_finder.Prelude.Sort.{sort_by}
use torque_finder.Text.{text_le}
use torque_finder.Floats.{Floats}
use torque_finder.Text.Regex.{CharTables}
use torque_finder.Domain.Errors.{builtin, key_error, Result, ok, raised, ◌>>=◌}
use torque_finder.Domain.Publications.{PublicationRef}
use torque_finder.Extraction.Json.{Python}
use torque_finder.Indexing.Store.{Postgres}
use torque_finder.Discovery.Registry.{Publications, upsert}
use torque_finder.Discovery.ModelPage.{prefer_typed, parse_publication_refs}
use torque_finder.Discovery.Probe.{Hashing, build_publication}

-- `refs` and `referenced_by`: a set of model ids is a list without repetitions.
pub record Found : Type 0 where
  pub refs : Dict String PublicationRef
  pub referenced_by : Dict String (List String)

abbrev add_once : String → List String → List String
add_once x xs = if any (λ y. y == x) xs then xs else xs ++ (x ∷ [])

abbrev or_empty : Option (List String) → List String
or_empty none = []
or_empty (some xs) = xs

-- `referenced_by.setdefault(pub_id, set()).add(model_id)`
abbrev reference : Dict String (List String) → String → String → Dict String (List String)
reference d pub_id model_id = put d pub_id (add_once model_id (or_empty (get d pub_id)))

-- The loop over the refs of a page.
unfoldable pub note_refs : String → List PublicationRef → Found → Found
note_refs model_id [] found = found
note_refs model_id (ref ∷ more) found = note_refs model_id more record {
  refs = prefer_typed found.refs ref;
  referenced_by = reference found.referenced_by ref.pub_id model_id;
}

module _ (fetch : String → Result String) (base_url : String) where
  -- `_model_url`
  abbrev pub model_url : String → String
  model_url model_id = String.◌++◌ base_url (String.◌++◌ "/en/service/models/" model_id)

  -- The loop over the model pages.
  unfoldable pub crawl_models : List String → Found → Result Found
  crawl_models [] found = ok found
  crawl_models (model_id ∷ ids) found = fetch (model_url model_id) >>= λ html.
      crawl_models ids (note_refs model_id (parse_publication_refs html) found)

  -- `referenced_by[pub_id]`
  abbrev models_of : Dict String (List String) → String → Result (List String)
  models_of d pub_id = elim (get d pub_id) [
    | none ↦ raised (builtin key_error)
    | some names ↦ ok names
  ]

  module _ ⦃fl : Floats⦄ ⦃u : CharTables⦄ ⦃py : Python⦄ ⦃hs : Hashing⦄ ⦃db : Postgres⦄
      (now : ℕ) where
    -- The body of the loop over `refs.items()`.
    unfoldable pub register :
        Dict String (List String) → String → PublicationRef → Publications → Result Publications
    register referenced_by pub_id ref rows = do
      html ← fetch ref.source_url
      publication ← build_publication html ref
      names ← models_of referenced_by pub_id
      upserted ← upsert now publication (sort_by text_le names) rows
      ok upserted.0

    unfoldable pub register_all :
        Dict String (List String) → Dict String PublicationRef → Publications → Result Publications
    register_all referenced_by [] rows = ok rows
    register_all referenced_by ((pub_id, ref) ∷ refs) rows =
        register referenced_by pub_id ref rows >>= register_all referenced_by refs

    -- `discover_seed`, and the three counts that it returns.
    unfoldable pub discover_seed : List String → Publications → Result (Publications × ℕ × ℕ × ℕ)
    discover_seed model_ids rows = do
      found ← crawl_models model_ids record { refs = []; referenced_by = [] }
      registered ← register_all found.referenced_by found.refs rows
      ok (registered, length model_ids, length found.refs, length found.refs)
