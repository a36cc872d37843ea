-- ===== src/Discovery/Registry/View.antt =====
-- The map that a valid table represents, and what `set_status` does to it.
use torque_finder.Prelude.{
  String, ◌≡◌, refl, sym, ap, ◌∙◌, subst, inl, inr, Option, none, some, if◌then◌else◌, string_eq,
  nat_eq, none≢some, beq_refl,
}
use mathlib.Core.Option.{some-injective, map as opt_map}
use torque_finder.Domain.Errors.{Result, ok, raised, ◌>>=◌}
use torque_finder.Domain.Outcome.{ok-injective, ok≢raised}
use torque_finder.Domain.Publications.{RegisteredPublication, Status}
use torque_finder.Indexing.Table.{select_one-cases}
use torque_finder.Indexing.Store.{Postgres}
use torque_finder.Discovery.Registry.{
  Publication, Publications, row_to_domain, get_row, get_publication, set_status,
}
use torque_finder.Discovery.Registry.Catalog.{Catalog, flip, status_call, step_catalog}
use torque_finder.Discovery.Registry.Refines.{step-refines}
use torque_finder.Discovery.Registry.Represents.{IsRegistry, Represents, Simulates, step_rows}

-- The map that a table represents.
abbrev pub answered : Result (Option RegisteredPublication) → Option RegisteredPublication
answered (ok o) = o
answered (raised e) = none

abbrev pub view : Publications → Catalog
view rows k = answered (get_publication k rows)

pub view-Represents : (rows : Publications) → IsRegistry rows → Represents rows (view rows)
unfolding get_publication
view-Represents rows v = record {
  is_registry = v;
  answers = λ k. elim (select_one-cases (λ (r : Publication). r.pub_id) k rows v.pub_ids_distinct) [
    | inl (n, e) ↦ told k none e
    | inr (row, m, q, e) ↦ told k (some row) e
  ];
}
  where
    told :
        (k : String) (o : Option Publication)
        → get_row k rows ≡ ok o
        → get_publication k rows ≡ ok (view rows k)
    told k o e =
        subst
          (λ m.
            (m >>= λ row. ok (opt_map row_to_domain row))
            ≡ ok (answered (m >>= λ row. ok (opt_map row_to_domain row))))
          (sym e) refl

pub simulated :
    (m : Result Publications) (o : Option Catalog) (rows : Publications)
    → Simulates m o
    → m ≡ ok rows
    → (catalog : Catalog) × (o ≡ some catalog) × Represents rows catalog
simulated (ok rows') (some catalog) rows h e =
    (catalog, refl, subst (λ r. Represents r catalog) (ok-injective _ _ e) h)
simulated (ok rows') none rows h e = absurd h
simulated (raised x) o rows h e = absurd (ok≢raised (sym e))

flipped :
    (k : String) (status : Status) (catalog : Catalog) (o : Option RegisteredPublication)
    (rows : Publications)
    → catalog k ≡ o
    → (c : Catalog) × (flip k status catalog o ≡ some c) × Represents rows c
    → (known : RegisteredPublication) × (catalog k ≡ some known)
      × (get_publication k rows ≡ ok (some (record known { status = status })))
flipped k status catalog none rows q (c, e, r) = absurd (none≢some e)
flipped k status catalog (some known) rows q (c, e, r) = (
  known,
  q,
  r.answers k
      ∙ ap (λ c. ok (c k)) (sym (some-injective _ _ e))
      ∙ ap (λ b. ok (if b then some (record known { status = status }) else catalog k))
          (beq_refl k),
)

-- A call of `set_status` that returns has changed the status of a known publication.
pub set_status-sets :
    ⦃db : Postgres⦄ (k : String) (status : Status) (rows rows' : Publications)
    → IsRegistry rows
    → set_status k status rows ≡ ok rows'
    → (known : RegisteredPublication) × (get_publication k rows ≡ ok (some known))
      × (get_publication k rows' ≡ ok (some (record known { status = status })))
unfolding step_rows
set_status-sets k status rows rows' v e = answered_by (
    flipped k status (view rows) (view rows k) rows' refl (
      simulated (set_status k status rows) (step_catalog (status_call k status) (view rows)) rows'
        (step-refines (status_call k status) rows (view rows) (view-Represents rows v)) e))
  where
    answered_by :
        (known : RegisteredPublication) × (view rows k ≡ some known)
          × (get_publication k rows' ≡ ok (some (record known { status = status })))
        → (known : RegisteredPublication) × (get_publication k rows ≡ ok (some known))
          × (get_publication k rows' ≡ ok (some (record known { status = status })))
    answered_by (known, q, r) = (known, (view-Represents rows v).answers k ∙ ap ok q, r)
