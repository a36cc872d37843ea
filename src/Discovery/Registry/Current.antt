-- ===== src/Discovery/Registry/Current.antt =====
-- What the status 'ingested' says of the content of a publication.
use torque_finder.Prelude.{
  ℕ, String, ◌≡◌, refl, sym, ap, ◌∙◌, subst, inl, inr, Bool, true, false, ◌&&◌, Option, none, some,
  List, [], ◌∷◌, arith, Bool-cases, Option-cases, All, ◌==◌, string_eq, nat_eq,
}
use mathlib.Core.Option.{some-injective}
use torque_finder.Prelude.{none≢some}
use mathlib.Core.Bool.{false≢true}
use torque_finder.Domain.Errors.{ok}
use torque_finder.Domain.Outcome.{ok-injective}
use torque_finder.Domain.Publications.{
  DiscoveredPublication, RegisteredPublication, Status, ingested,
}
use torque_finder.Indexing.Store.{Postgres}
use torque_finder.Discovery.Registry.{Publications, get_publication}
use torque_finder.Discovery.Registry.Catalog.{
  Catalog, Call, upsert_call, status_call, flip, entry, put_in, step_catalog, run_catalog, then_run,
  first_seen, entry_of, unchanged, outdated,
}
use torque_finder.Discovery.Registry.View.{view, view-Represents, simulated}
use torque_finder.Discovery.Registry.Refines.{run-refines}
use torque_finder.Discovery.Registry.Represents.{IsRegistry, Represents, run_rows}

abbrev pub is_ingested : Status → Bool
is_ingested ingested = true
is_ingested _ = false

-- The call is not one that status_call the publication to 'ingested'.
abbrev pub Leaves : String → Call → Type 0
Leaves k (upsert_call now found names) = Unit
Leaves k (status_call j status) = (j == k) && is_ingested status ≡ false

-- The publication was 'ingested', with the content.
abbrev pub Was : Option RegisteredPublication → String → Type 0
Was old hash =
    (a : RegisteredPublication) × (old ≡ some a)
    × (is_ingested a.status ≡ true)
    × (a.content_hash ≡ hash)

-- Where the publication is 'ingested' now, it was, with the same content.
abbrev Same : Option RegisteredPublication → Option RegisteredPublication → Type 0
Same old new =
    (b : RegisteredPublication)
    → new ≡ some b
    → is_ingested b.status ≡ true
    → Was old b.content_hash

Same-some :
    (old : Option RegisteredPublication) (x : RegisteredPublication)
    → (is_ingested x.status ≡ true → Was old x.content_hash)
    → Same old (some x)
Same-some old x f b e i =
    subst (λ y. is_ingested y.status ≡ true → Was old y.content_hash) (some-injective _ _ e) f i

Same-refl : (o : Option RegisteredPublication) → Same o o
Same-refl o b e i = (b, e, i, refl)

Same-trans : (o p q : Option RegisteredPublication) → Same o p → Same p q → Same o q
Same-trans o p q f g b e i = before f (g b e i)
  where
    before : Same o p → Was p b.content_hash → Was o b.content_hash
    before f (a, e, i, h) = subst (Was o) h (f a e i)

-- A status that is not 'ingested'.
Same-never :
    (old : Option RegisteredPublication) (x : RegisteredPublication)
    → is_ingested x.status ≡ false
    → Same old (some x)
Same-never old x n = Same-some old x (λ i. absurd (false≢true (sym n ∙ i)))

entry-Same :
    (now : ℕ) (found : DiscoveredPublication) (names : List String)
    (o : Option RegisteredPublication)
    → Same o (some (entry now found names o).0)
entry-Same now found names none = Same-never none (first_seen now found names) refl
entry-Same now found names (some known) =
    elim (Bool-cases (known.content_hash == found.content_hash)) [
      | inl t ↦
          chosen t
            (Same-some (some known) (unchanged now names known) (λ i. (known, refl, i, refl)))
      | inr t ↦ chosen t (Same-never (some known) (outdated now found names known) refl)
    ]
  where
    pick : Bool → RegisteredPublication
    pick b = (entry_of now found names known b).0

    chosen :
        {b : Bool}
        → (known.content_hash == found.content_hash) ≡ b
        → Same (some known) (some (pick b))
        → Same (some known) (some (entry now found names (some known)).0)
    chosen t h = subst (λ b. Same (some known) (some (pick b))) (sym t) h

put-Same :
    (j k : String) (x : RegisteredPublication) (catalog : Catalog)
    → ((j == k) ≡ true → Same (catalog j) (some x))
    → Same (catalog k) (put_in j x catalog k)
put-Same j k x catalog f = elim (Bool-cases (j == k)) [
  | inl t ↦ rw t (subst (λ i. Same (catalog i) (some x)) ((string_eq.test_iff j k).0 t) (f t))
  | inr t ↦ rw t (Same-refl (catalog k))
]

flip-Same :
    (j k : String) (status : Status) (catalog catalog' : Catalog) (o : Option RegisteredPublication)
    → Leaves k (status_call j status)
    → catalog j ≡ o
    → flip j status catalog o ≡ some catalog'
    → Same (catalog k) (catalog' k)
flip-Same j k status catalog catalog' none l q e = absurd (none≢some e)
flip-Same j k status catalog catalog' (some known) l q e =
    subst (λ c. Same (catalog k) (c k)) (some-injective _ _ e)
      (put-Same j k (record known { status = status }) catalog
        (λ t. Same-never (catalog j) (record known { status = status }) (rest t)))
  where
    rest : (j == k) ≡ true → is_ingested status ≡ false
    rest t = ground arith

step-Same :
    (k : String) (call : Call) (catalog catalog' : Catalog)
    → Leaves k call
    → step_catalog call catalog ≡ some catalog'
    → Same (catalog k) (catalog' k)
step-Same k (upsert_call now found names) catalog catalog' l e =
    subst (λ c. Same (catalog k) (c k)) (some-injective _ _ e)
      (put-Same found.pub_id k (entry now found names (catalog found.pub_id)).0 catalog
        (λ t. entry-Same now found names (catalog found.pub_id)))
step-Same k (status_call j status) catalog catalog' l e =
    flip-Same j k status catalog catalog' (catalog j) l refl e

run-Same :
    (k : String) (calls : List Call) (catalog catalog' : Catalog)
    → All (Leaves k) calls
    → run_catalog calls catalog ≡ some catalog'
    → Same (catalog k) (catalog' k)
run-Same k [] catalog catalog' l e =
    subst (λ c. Same (catalog k) (c k)) (some-injective _ _ e) (Same-refl (catalog k))
run-Same k (call ∷ calls) catalog catalog' l e = elim (Option-cases (step_catalog call catalog)) [
  | inl n ↦ absurd (none≢some (sym (ap (λ o. then_run o (run_catalog calls)) n) ∙ e))
  | inr (c, q) ↦
      Same-trans (catalog k) (c k) (catalog' k) (step-Same k call catalog c l.0 q)
        (run-Same k calls c catalog' l.1 (sym (ap (λ o. then_run o (run_catalog calls)) q) ∙ e))
]

-- After calls of which none status_call a publication to 'ingested', the publication is 'ingested' only
-- if it was before them, and then its content hash is the one that it had.
pub ingested-current :
    ⦃db : Postgres⦄ (k : String) (calls : List Call) (rows rows' : Publications)
    (b : RegisteredPublication)
    → IsRegistry rows
    → All (Leaves k) calls
    → run_rows calls rows ≡ ok rows'
    → get_publication k rows' ≡ ok (some b)
    → is_ingested b.status ≡ true
    → (a : RegisteredPublication) × (get_publication k rows ≡ ok (some a))
      × (is_ingested a.status ≡ true)
      × (a.content_hash ≡ b.content_hash)
ingested-current k calls rows rows' b v l e g i = at_end (
    simulated (run_rows calls rows) (run_catalog calls (view rows)) rows'
      (run-refines calls rows (view rows) (view-Represents rows v)) e)
  where
    at_start :
        Was (view rows k) b.content_hash
        → (a : RegisteredPublication) × (get_publication k rows ≡ ok (some a))
          × (is_ingested a.status ≡ true)
          × (a.content_hash ≡ b.content_hash)
    at_start (a, q, i', h) = (a, (view-Represents rows v).answers k ∙ ap ok q, i', h)

    at_end :
        (catalog : Catalog) × (run_catalog calls (view rows) ≡ some catalog)
          × Represents rows' catalog
        → (a : RegisteredPublication) × (get_publication k rows ≡ ok (some a))
          × (is_ingested a.status ≡ true)
          × (a.content_hash ≡ b.content_hash)
    at_end (catalog, q, r) =
        at_start
          (run-Same k calls (view rows) catalog l q b (ok-injective _ _ (sym (r.answers k) ∙ g)) i)
