-- ===== src/Discovery/Registry/Refines.antt =====
-- The table of publications implements the map.
use torque_finder.Discovery.Registry.Represents.{
  entry-row, answer-row, update-Represents, Represents, step_rows, run_rows, Simulates,
}
use torque_finder.Prelude.{
  ℕ, String, ◌≡◌, refl, sym, ap, ◌∙◌, subst, inl, inr, Bool, Option, none, some, List, [], ◌∷◌,
  arith, if◌then◌else◌, Bool-cases, In, ◌==◌, string_eq, nat_eq,
}
use torque_finder.Prelude.{map}
use torque_finder.Prelude.Keys.{any_iff_In}
use torque_finder.Domain.Errors.{Result, ok, raised, ◌>>=◌}
use torque_finder.Domain.Publications.{DiscoveredPublication, RegisteredPublication, Status}
use torque_finder.Indexing.Table.{select_one-cases, select_one-add, update_row}
use torque_finder.Indexing.Store.{Postgres}
use torque_finder.Discovery.Registry.{
  Publication, Publications, row_to_domain, new_publication, seen_again, changed, with_status,
  get_row, add_publication, upsert, upsert_row, set_status, set_status_of, Upserted, was_inserted,
  was_unchanged, became_stale,
}
use torque_finder.Discovery.Registry.Catalog.{
  Catalog, Call, upsert_call, status_call, entry, put_in, step_catalog, run_catalog, then_run,
  first_seen, flip, unchanged, outdated,
}

module _ ⦃db : Postgres⦄ where
  -- An insertion of a publication that the table does not know.
  added : ℕ → DiscoveredPublication → List String → Publications → Publication
  added now found names rows = new_publication (db.next_id (map (λ r. r.id) rows)) now found names

  add-Represents :
      (now : ℕ) (found : DiscoveredPublication) (names : List String) (rows : Publications)
      (catalog : Catalog)
      → Represents rows catalog
      → ¬ In found.pub_id (map (λ r. r.pub_id) rows)
      → Represents
          (added now found names rows ∷ rows)
          (put_in found.pub_id (first_seen now found names) catalog)
  unfolding added
  add-Represents now found names rows catalog r n = record {
    is_registry = record {
      ids_distinct = (db.next_id_fresh (map (λ r. r.id) rows), r.is_registry.ids_distinct);
      pub_ids_distinct = (n, r.is_registry.pub_ids_distinct);
    };
    answers = λ k.
        answer-row (found.pub_id == k) k (added now found names rows) (first_seen now found names)
          rows (added now found names rows ∷ rows) catalog r refl
          (select_one-add (λ r. r.pub_id) (added now found names rows) k rows n);
  }

  add_publication-fresh :
      (now : ℕ) (found : DiscoveredPublication) (names : List String) (rows : Publications)
      → ¬ In found.pub_id (map (λ r. r.pub_id) rows)
      → add_publication (added now found names rows) rows ≡ ok (added now found names rows ∷ rows)
  unfolding add_publication added
  add_publication-fresh now found names rows n = ground (
    arith,
    db.next_id_fresh (map (λ (r : Publication). r.id) rows),
    any_iff_In (λ (r : Publication). r.id) (db.next_id (map (λ (r : Publication). r.id) rows)) rows,
    any_iff_In (λ (r : Publication). r.pub_id) found.pub_id rows,
  )

  -- Where a table represents a map, `upsert` returns: it answers what the map says, and leaves a
  -- table that represents the map with the new entry.
  pub upsert-refines :
      (now : ℕ) (found : DiscoveredPublication) (names : List String) (rows : Publications)
      (catalog : Catalog)
      → Represents rows catalog
      → (rows' : Publications) × (upsert now found names rows
          ≡ ok (rows', (entry now found names (catalog found.pub_id)).1))
        × Represents rows'
            (put_in found.pub_id (entry now found names (catalog found.pub_id)).0 catalog)
  unfolding upsert upsert_row added
  upsert-refines now found names rows catalog r =
      elim (select_one-cases (λ (r : Publication). r.pub_id) found.pub_id rows
        r.is_registry.pub_ids_distinct) [
          | inl (n, e) ↦ subst Goal (sym (entry-row found.pub_id none rows catalog r e)) (
            added now found names rows ∷ rows,
            ap (λ m. m >>= λ row. upsert_row now found names row rows) e
                ∙ ap (λ m. m >>= λ rows'. ok (rows', was_inserted))
                    (add_publication-fresh now found names rows n),
            add-Represents now found names rows catalog r n,
          )
          | inr (row, m, q, e) ↦
              subst Goal (sym (entry-row found.pub_id (some row) rows catalog r e))
                (present row m q e)
        ]
    where
      same : Publication → Publication
      same = seen_again now names

      other : Publication → Publication
      other r = changed found (seen_again now names r)

      answer : Publication → Bool → Result (Publications × Upserted)
      answer row b =
          if b
          then ok (update_row (λ r. r.id) row.id same rows, was_unchanged)
          else ok (update_row (λ r. r.id) row.id other rows, became_stale)

      Goal : Option RegisteredPublication → Type 0
      Goal o =
          (rows' : Publications) × (upsert now found names rows
            ≡ ok (rows', (entry now found names o).1))
          × Represents rows' (put_in found.pub_id (entry now found names o).0 catalog)

      present :
          (row : Publication)
          → In row rows
          → row.pub_id ≡ found.pub_id
          → get_row found.pub_id rows ≡ ok (some row)
          → Goal (some (row_to_domain row))
      present row m q e = elim (Bool-cases (row.content_hash == found.content_hash)) [
        | inl t ↦ rw t (
          update_row (λ r. r.id) row.id same rows,
          ap (λ m. m >>= λ row. upsert_row now found names row rows) e ∙ ap (answer row) t,
          subst
              (λ k.
                Represents (update_row (λ r. r.id) row.id same rows)
                  (put_in k (unchanged now names (row_to_domain row)) catalog))
              q
              (update-Represents same row (unchanged now names (row_to_domain row)) rows catalog r m
                (λ r. refl) (λ r. refl) refl),
        )
        | inr t ↦ rw t (
          update_row (λ r. r.id) row.id other rows,
          ap (λ m. m >>= λ row. upsert_row now found names row rows) e ∙ ap (answer row) t,
          subst
              (λ k.
                Represents (update_row (λ r. r.id) row.id other rows)
                  (put_in k (outdated now found names (row_to_domain row)) catalog))
              q
              (update-Represents other row (outdated now found names (row_to_domain row)) rows
                catalog r m (λ r. refl) (λ r. refl) refl),
        )
      ]

  -- `set_status` on a table that represents a map.
  set_status-refines :
      (k : String) (status : Status) (rows : Publications) (catalog : Catalog)
      → Represents rows catalog
      → Simulates
          (step_rows (status_call k status) rows)
          (step_catalog (status_call k status) catalog)
  unfolding step_rows set_status set_status_of
  set_status-refines k status rows catalog r =
      elim (select_one-cases (λ (r : Publication). r.pub_id) k rows
        r.is_registry.pub_ids_distinct) [
          | inl (n, e) ↦
              subst (λ o. Simulates (set_status k status rows) (flip k status catalog o))
                (sym (entry-row k none rows catalog r e))
                (subst (λ m. Simulates (m >>= λ row. set_status_of status row rows) none) (sym e)
                  refl)
          | inr (row, m, q, e) ↦
              subst (λ o. Simulates (set_status k status rows) (flip k status catalog o))
                (sym (entry-row k (some row) rows catalog r e))
                (subst
                  (λ m.
                    Simulates (m >>= λ row. set_status_of status row rows)
                      (flip k status catalog (some (row_to_domain row))))
                  (sym e)
                  (subst
                    (λ j.
                      Represents (update_row (λ r. r.id) row.id (with_status status) rows)
                        (put_in j (row_to_domain (with_status status row)) catalog))
                    q
                    (update-Represents (with_status status) row
                      (row_to_domain (with_status status row)) rows catalog r m (λ r. refl)
                      (λ r. refl) refl)))
        ]

  pub step-refines :
      (call : Call) (rows : Publications) (catalog : Catalog)
      → Represents rows catalog
      → Simulates (step_rows call rows) (step_catalog call catalog)
  unfolding step_rows
  step-refines (upsert_call now found names) rows catalog r =
      returned (upsert-refines now found names rows catalog r)
    where
      returned :
          (rows' : Publications) × (upsert now found names rows
              ≡ ok (rows', (entry now found names (catalog found.pub_id)).1))
            × Represents rows'
                (put_in found.pub_id (entry now found names (catalog found.pub_id)).0 catalog)
          → Simulates
              (step_rows (upsert_call now found names) rows)
              (step_catalog (upsert_call now found names) catalog)
      returned (rows', e, h) =
          subst
            (λ m.
              Simulates (m >>= λ p. ok p.0) (step_catalog (upsert_call now found names) catalog))
            (sym e) h
  step-refines (status_call k status) rows catalog r = set_status-refines k status rows catalog r

  next :
      (calls : List Call) (m : Result Publications) (o : Option Catalog)
      → ((rows : Publications) (catalog : Catalog)
          → Represents rows catalog
          → Simulates (run_rows calls rows) (run_catalog calls catalog))
      → Simulates m o
      → Simulates (m >>= run_rows calls) (then_run o (run_catalog calls))
  next calls (ok rows') (some catalog') run h = run rows' catalog' h
  next calls (ok rows') none run h = absurd h
  next calls (raised e) (some catalog') run h = absurd h
  next calls (raised e) none run h = h

  -- The table implements the map: after any calls, in any order, a table that represented a map
  -- represents the map after these calls, and it raises a `DiscoveryError` just where the map has
  -- no publication whose status could be set.
  pub run-refines :
      (calls : List Call) (rows : Publications) (catalog : Catalog)
      → Represents rows catalog
      → Simulates (run_rows calls rows) (run_catalog calls catalog)
  unfolding run_rows
  run-refines [] rows catalog r = r
  run-refines (call ∷ calls) rows catalog r =
      next calls (step_rows call rows) (step_catalog call catalog) (run-refines calls)
        (step-refines call rows catalog r)
