-- ===== src/Discovery/Registry/Represents.antt =====
-- What it means that the table of publications represents a map.
use torque_finder.Prelude.{
  String, ◌≡◌, sym, ap, ◌∙◌, subst, Bool, true, false, Option, none, some, List, [], ◌∷◌,
  if◌then◌else◌, In, ◌==◌, string_eq, nat_eq,
}
use torque_finder.Prelude.{Distinct, map}
use mathlib.Core.Option.{map as opt_map}
use torque_finder.Domain.Errors.{is_discovery_error, Result, ok, raised, ◌>>=◌}
use torque_finder.Domain.Outcome.{ok-injective}
use torque_finder.Domain.Publications.{RegisteredPublication}
use torque_finder.Indexing.Table.{select_one-update, update_row, map-update_row}
use torque_finder.Indexing.Store.{Postgres}
use torque_finder.Discovery.Registry.{
  Publication, Publications, row_to_domain, get_row, upsert, get_publication, set_status,
}
use torque_finder.Discovery.Registry.Catalog.{Catalog, Call, upsert_call, status_call, put_in}

-- The ids and the publication ids are distinct.
pub record IsRegistry (rows : Publications) : Type 0 where
  pub ids_distinct : Distinct (map (λ r. r.id) rows)
  pub pub_ids_distinct : Distinct (map (λ r. r.pub_id) rows)

-- The table answers `get` with the entries of the map.
pub record Represents (rows : Publications) (catalog : Catalog) : Type 0 where
  pub is_registry : IsRegistry rows
  pub answers : (k : String) → get_publication k rows ≡ ok (catalog k)

-- A call, and calls one after the other.
unfoldable pub step_rows : ⦃db : Postgres⦄ → Call → Publications → Result Publications
step_rows (upsert_call now found names) rows = upsert now found names rows >>= λ p. ok p.0
step_rows (status_call k status) rows = set_status k status rows

unfoldable pub run_rows : ⦃db : Postgres⦄ → List Call → Publications → Result Publications
run_rows [] rows = ok rows
run_rows (call ∷ calls) rows = step_rows call rows >>= run_rows calls

-- The outcome of the table is that of the map: the call of a known publication succeeds, any
-- other raises a `DiscoveryError`.
abbrev pub Simulates : Result Publications → Option Catalog → Type 0
Simulates (ok rows) (some catalog) = Represents rows catalog
Simulates (ok rows) none = ⊥
Simulates (raised e) (some catalog) = ⊥
Simulates (raised e) none = is_discovery_error e ≡ true

-- A row that is found is the entry of the map.
pub entry-row :
    (k : String) (o : Option Publication) (rows : Publications) (catalog : Catalog)
    → Represents rows catalog
    → get_row k rows ≡ ok o
    → catalog k ≡ opt_map row_to_domain o
unfolding get_publication
entry-row k o rows catalog r e =
    ok-injective _ _ (sym (r.answers k) ∙ ap (λ m. m >>= λ row. ok (opt_map row_to_domain row)) e)

-- What a table answers, from what its rows answer.
pub answer-row :
    (b : Bool) (k : String) (row : Publication) (publication : RegisteredPublication)
    (rows rows' : Publications) (catalog : Catalog)
    → Represents rows catalog
    → row_to_domain row ≡ publication
    → get_row k rows' ≡ (if b then ok (some row) else get_row k rows)
    → get_publication k rows' ≡ ok (if b then some publication else catalog k)
unfolding get_publication
answer-row true k row publication rows rows' catalog r p e =
    ap (λ m. m >>= λ row. ok (opt_map row_to_domain row)) e ∙ ap (λ x. ok (some x)) p
answer-row false k row publication rows rows' catalog r p e =
    ap (λ m. m >>= λ row. ok (opt_map row_to_domain row)) e ∙ r.answers k

-- An update of the row of a publication that keeps its ids.
pub update-Represents :
    (f : Publication → Publication) (row : Publication) (publication : RegisteredPublication)
    (rows : Publications) (catalog : Catalog)
    → Represents rows catalog
    → In row rows
    → ((r : Publication) → (f r).id ≡ r.id)
    → ((r : Publication) → (f r).pub_id ≡ r.pub_id)
    → row_to_domain (f row) ≡ publication
    → Represents (update_row (λ r. r.id) row.id f rows) (put_in row.pub_id publication catalog)
update-Represents f row publication rows catalog r m same_id same_pub_id p = record {
  is_registry = record {
    ids_distinct =
        subst Distinct (sym (map-update_row (λ r. r.id) (λ r. r.id) row.id f rows same_id))
          r.is_registry.ids_distinct;
    pub_ids_distinct =
        subst Distinct (sym (map-update_row (λ r. r.id) (λ r. r.pub_id) row.id f rows same_pub_id))
          r.is_registry.pub_ids_distinct;
  };
  answers = λ k. answer-row (row.pub_id == k) k (f row) publication rows _ catalog r p (
      select_one-update (λ r. r.id) (λ r. r.pub_id) f row k rows same_pub_id
        r.is_registry.ids_distinct r.is_registry.pub_ids_distinct m);
}
