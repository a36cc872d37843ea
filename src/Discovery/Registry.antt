-- ===== src/Discovery/Registry.antt =====
-- discovery/registry.py: the table of publications, and `PublicationRegistry` over it. `now` is
-- the time of the call.
pub mod Catalog
pub mod Represents
pub mod Refines
pub mod View
pub mod Current
use torque_finder.Prelude.{
  ℕ, zero, suc, ◌+◌, ◌-◌, ◌*◌, ◌≤◌, ◌<◌, String, ◌≡◌, ◌≢◌, refl, sym, ap, ◌∙◌, subst, ◌↔◌, ◌⊎◌, inl,
  inr, Bool, true, false, not, ◌&&◌, ◌||◌, Option, none, some, List, [], ◌∷◌, ◌++◌, arith, eq_iff,
  if◌then◌else◌, Bool-cases, Option-cases, length, take, any, all, keep, first, In, Before, All,
  is_some, is_none, leb, ltb, ◌==◌, string_eq, nat_eq,
}
use torque_finder.Prelude.{map}
use mathlib.Core.Option.{map as opt_map}
use torque_finder.Prelude.Sort.{sort_by}
use torque_finder.Text.{text_le}
use torque_finder.Domain.Errors.{Exn, discovery_error, Result, ok, raised, ◌>>=◌}
use torque_finder.Domain.Publications.{
  DiscoveredPublication, RegisteredPublication, Status, discovered, stale, ingested,
}
use torque_finder.Indexing.Table.{integrity_error, select_one, update_row}
use torque_finder.Indexing.Store.{Postgres}

-- `Publication`
pub record Publication : Type 0 where
  pub id : ℕ
  pub pub_id : String
  pub pub_type : String
  pub title : String
  pub locale : String
  pub source_url : String
  pub series : List String
  pub models : List String
  pub procedures : List String
  pub referenced_by_models : List String
  pub content_hash : String
  pub status : Status
  pub discovered_at : ℕ
  pub last_seen_at : ℕ

-- The rows of the table.
abbrev pub Publications : Type 0
Publications = List Publication

-- `_row_to_domain`
abbrev pub row_to_domain : Publication → RegisteredPublication
row_to_domain row = record {
  pub_id = row.pub_id;
  pub_type = row.pub_type;
  title = row.title;
  locale = row.locale;
  source_url = row.source_url;
  series = row.series;
  models = row.models;
  procedures = row.procedures;
  referenced_by_models = row.referenced_by_models;
  content_hash = row.content_hash;
  status = row.status;
  discovered_at = row.discovered_at;
  last_seen_at = row.last_seen_at;
}

-- The elements of a list, each once.
abbrev pub unique : List String → List String
unique [] = []
unique (x ∷ xs) = let rest = unique xs in if any (λ y. y == x) xs then rest else x ∷ rest

-- `sorted(set(names))`
unfoldable pub sorted_set : List String → List String
sorted_set names = sort_by text_le (unique names)

-- What `upsert` answers.
pub data Upserted : Type 0 where
  was_inserted was_unchanged became_stale : Upserted

-- The row of a new publication.
abbrev pub new_publication : ℕ → ℕ → DiscoveredPublication → List String → Publication
new_publication i now found referenced_by_models = record {
  id = i;
  pub_id = found.pub_id;
  pub_type = found.pub_type;
  title = found.title;
  locale = found.locale;
  source_url = found.source_url;
  series = found.series;
  models = found.models;
  procedures = found.procedures;
  referenced_by_models = sorted_set referenced_by_models;
  content_hash = found.content_hash;
  status = discovered;
  discovered_at = now;
  last_seen_at = now;
}

-- The assignments of every update.
abbrev pub seen_again : ℕ → List String → Publication → Publication
seen_again now referenced_by_models row = record row {
  referenced_by_models = sorted_set (row.referenced_by_models ++ referenced_by_models);
  last_seen_at = now;
}

-- The assignments when the content has changed.
abbrev pub changed : DiscoveredPublication → Publication → Publication
changed found row = record row {
  pub_type = found.pub_type;
  title = found.title;
  locale = found.locale;
  source_url = found.source_url;
  series = found.series;
  models = found.models;
  procedures = found.procedures;
  content_hash = found.content_hash;
  status = stale;
}

abbrev pub with_status : Status → Publication → Publication
with_status status row = record row { status = status }

-- `_get_row`
abbrev pub get_row : String → Publications → Result (Option Publication)
get_row pub_id rows = select_one (λ row. row.pub_id) pub_id rows

-- `INSERT`: the primary key, and `pub_id` is unique.
unfoldable pub add_publication : Publication → Publications → Result Publications
add_publication row rows =
    if any (λ r. r.id == row.id) rows || any (λ r. r.pub_id == row.pub_id) rows
    then raised integrity_error
    else ok (row ∷ rows)

-- `upsert`, from the row with the publication's id on.
unfoldable pub upsert_row :
    ⦃db : Postgres⦄
    → ℕ
    → DiscoveredPublication
    → List String
    → Option Publication
    → Publications
    → Result (Publications × Upserted)
upsert_row ⦃db⦄ now found referenced_by_models none rows =
    add_publication
      (new_publication (db.next_id (map (λ r. r.id) rows)) now found referenced_by_models) rows
    >>= λ rows'. ok (rows', was_inserted)
upsert_row now found referenced_by_models (some row) rows =
    if row.content_hash == found.content_hash
    then ok
        (update_row (λ r. r.id) row.id (seen_again now referenced_by_models) rows, was_unchanged)
    else ok (
      update_row (λ r. r.id) row.id (λ r. changed found (seen_again now referenced_by_models r))
          rows,
      became_stale,
    )

unfoldable pub upsert :
    ⦃db : Postgres⦄
    → ℕ
    → DiscoveredPublication
    → List String
    → Publications
    → Result (Publications × Upserted)
upsert now found referenced_by_models rows =
    get_row found.pub_id rows >>= λ row. upsert_row now found referenced_by_models row rows

unfoldable pub get_publication : String → Publications → Result (Option RegisteredPublication)
get_publication pub_id rows = get_row pub_id rows >>= λ row. ok (opt_map row_to_domain row)

-- `set_status`, from the row with the publication's id on.
unfoldable pub set_status_of : Status → Option Publication → Publications → Result Publications
set_status_of status none rows = raised (discovery_error "unknown publication")
set_status_of status (some row) rows = ok (update_row (λ r. r.id) row.id (with_status status) rows)

unfoldable pub set_status : String → Status → Publications → Result Publications
set_status pub_id status rows = get_row pub_id rows >>= λ row. set_status_of status row rows

unfoldable pub list_all : Publications → List RegisteredPublication
list_all rows = map row_to_domain (sort_by (λ a b. leb a.id b.id) rows)
