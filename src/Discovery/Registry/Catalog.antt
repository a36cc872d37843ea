-- ===== src/Discovery/Registry/Catalog.antt =====
-- What the registry promises: a map from publication ids to publications, in which a known
-- publication with another content hash becomes stale.
use torque_finder.Prelude.{
  ℕ, String, Option, none, some, List, [], ◌∷◌, ◌++◌, if◌then◌else◌, ◌==◌, string_eq, nat_eq,
}
use torque_finder.Domain.Publications.{
  DiscoveredPublication, RegisteredPublication, Status, discovered, stale,
}
use torque_finder.Discovery.Registry.{
  sorted_set, Upserted, was_inserted, was_unchanged, became_stale, Bool,
}

abbrev pub Catalog : Type 0
Catalog = String → Option RegisteredPublication

abbrev pub put_in : String → RegisteredPublication → Catalog → Catalog
put_in k publication catalog j = if k == j then some publication else catalog j

-- A publication that is seen for the first time.
abbrev pub first_seen : ℕ → DiscoveredPublication → List String → RegisteredPublication
first_seen now found names = record {
  pub_id = found.pub_id;
  pub_type = found.pub_type;
  title = found.title;
  locale = found.locale;
  source_url = found.source_url;
  series = found.series;
  models = found.models;
  procedures = found.procedures;
  referenced_by_models = sorted_set names;
  content_hash = found.content_hash;
  status = discovered;
  discovered_at = now;
  last_seen_at = now;
}

-- A known publication with the content that it had, and with another one.
abbrev pub unchanged : ℕ → List String → RegisteredPublication → RegisteredPublication
unchanged now names known = record known {
  referenced_by_models = sorted_set (known.referenced_by_models ++ names);
  last_seen_at = now;
}

abbrev pub outdated :
    ℕ → DiscoveredPublication → List String → RegisteredPublication → RegisteredPublication
outdated now found names known = record {
  pub_id = known.pub_id;
  pub_type = found.pub_type;
  title = found.title;
  locale = found.locale;
  source_url = found.source_url;
  series = found.series;
  models = found.models;
  procedures = found.procedures;
  referenced_by_models = sorted_set (known.referenced_by_models ++ names);
  content_hash = found.content_hash;
  status = stale;
  discovered_at = known.discovered_at;
  last_seen_at = now;
}

-- The new entry, and the answer. Of a known publication it depends on whether the content is
-- the same.
abbrev pub entry_of :
    ℕ
    → DiscoveredPublication
    → List String
    → RegisteredPublication
    → Bool
    → RegisteredPublication × Upserted
entry_of now found names known is_same =
    if is_same
    then (unchanged now names known, was_unchanged)
    else (outdated now found names known, became_stale)

abbrev pub entry :
    ℕ
    → DiscoveredPublication
    → List String
    → Option RegisteredPublication
    → RegisteredPublication × Upserted
entry now found names none = (first_seen now found names, was_inserted)
entry now found names (some known) =
    entry_of now found names known (known.content_hash == found.content_hash)

-- The calls that change the registry.
pub data Call : Type 0 where
  upsert_call : (now : ℕ) (found : DiscoveredPublication) (names : List String) → Call
  status_call : (pub_id : String) (status : Status) → Call

abbrev pub flip : String → Status → Catalog → Option RegisteredPublication → Option Catalog
flip k status catalog none = none
flip k status catalog (some known) = some (put_in k (record known { status = status }) catalog)

-- One call. The status of an unknown publication cannot be set.
abbrev pub step_catalog : Call → Catalog → Option Catalog
step_catalog (upsert_call now found names) catalog =
    some (put_in found.pub_id (entry now found names (catalog found.pub_id)).0 catalog)
step_catalog (status_call k status) catalog = flip k status catalog (catalog k)

abbrev pub then_run : {A : Type 0} → Option A → (A → Option A) → Option A
then_run none f = none
then_run (some a) f = f a

abbrev pub run_catalog : List Call → Catalog → Option Catalog
run_catalog [] catalog = some catalog
run_catalog (call ∷ calls) catalog = then_run (step_catalog call catalog) (run_catalog calls)
