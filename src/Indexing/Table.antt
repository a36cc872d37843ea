-- ===== src/Indexing/Table.antt =====
-- Queries of SQLAlchemy on the rows of a table: one row by a unique column, an update by the
-- primary key.
use torque_finder.Prelude.{
  ℕ, String, ◌≡◌, refl, sym, ap, ◌∙◌, subst, ◌⊎◌, inl, inr, true, false, Option, none, some, List,
  [], ◌∷◌, if◌then◌else◌, Bool-cases, keep, In, ◌==◌, string_eq, nat_eq, beq_refl, In-keep,
}
use torque_finder.Prelude.{Distinct, map}
use torque_finder.Prelude.Keys.{
  keep-cases, keep-none, keep_unique, keep-map, map-fixed, map-unchanged, key_unique,
}
use mathlib.Core.Bool.{false≢true}
use torque_finder.Domain.Errors.{Exn, other_error, Result, ok, raised}

-- What a violated constraint raises: SQLAlchemy's `IntegrityError`.
abbrev pub integrity_error : Exn
integrity_error = other_error "IntegrityError"

-- `scalar_one_or_none`
abbrev pub scalar_one_or_none : {A : Type 0} → List A → Result (Option A)
scalar_one_or_none [] = ok none
scalar_one_or_none (x ∷ []) = ok (some x)
scalar_one_or_none (x ∷ y ∷ xs) = raised (other_error "MultipleResultsFound")

module _ {R : Type 0} where
  -- `SELECT` by the value of a column.
  unfoldable pub select_one : (R → String) → String → List R → Result (Option R)
  select_one key k rows = scalar_one_or_none (keep (λ r. key r == k) rows)

  -- `UPDATE` of the row with a primary key.
  unfoldable pub update_row : (R → ℕ) → ℕ → (R → R) → List R → List R
  update_row id i f rows = map (λ r. if id r == i then f r else r) rows

  pub select_one-cases :
      (key : R → String) (k : String) (rows : List R)
      → Distinct (map key rows)
      → ((¬ In k (map key rows)) × (select_one key k rows ≡ ok none))
        ⊎ ((row : R) × In row rows × (key row ≡ k) × (select_one key k rows ≡ ok (some row)))
  unfolding select_one
  select_one-cases key k rows h = elim (keep-cases key k rows h) [
    | inl (n, e) ↦ inl (n, ap scalar_one_or_none e)
    | inr (row, m, q, e) ↦ inr (row, m, q, ap scalar_one_or_none e)
  ]

  -- A row with a new value of the column.
  pub select_one-add :
      (key : R → String) (row : R) (k : String) (rows : List R)
      → ¬ In (key row) (map key rows)
      → select_one key k (row ∷ rows)
        ≡ (if key row == k then ok (some row) else select_one key k rows)
  unfolding select_one
  select_one-add key row k rows n = elim (Bool-cases (key row == k)) [
    | inl e ↦ rw e (
        ap (λ xs. scalar_one_or_none (row ∷ xs))
          (keep-none key k rows
            (subst (λ j. ¬ In j (map key rows)) ((string_eq.test_iff (key row) k).0 e) n)))
    | inr e ↦ rw e refl
  ]

  module _ (id : R → ℕ) where
    -- An update keeps the columns that its assignments keep.
    pub map-update_row :
        {B : Type 0} (column : R → B) (i : ℕ) (f : R → R) (rows : List R)
        → ((r : R) → column (f r) ≡ column r)
        → map column (update_row id i f rows) ≡ map column rows
    unfolding update_row
    map-update_row column i f rows same = map-unchanged _ column (λ r. kept r) rows
      where
        kept : (r : R) → column (if id r == i then f r else r) ≡ column r
        kept r = elim (Bool-cases (id r == i)) [ inl e ↦ rw e (same r) | inr e ↦ rw e refl ]

    -- An update that leaves the row with its primary key as it is.
    pub update_row-fixed :
        (f : R → R) (row : R) (rows : List R)
        → Distinct (map id rows)
        → In row rows
        → f row ≡ row
        → update_row id (id row) f rows ≡ rows
    unfolding update_row
    update_row-fixed f row rows h m e = map-fixed _ rows (λ r k.
        elim (Bool-cases (id r == id row)) [
          | inl q ↦
              ap (λ b. if b then f r else r) q
              ∙ subst (λ x. f x ≡ x)
                  (key_unique id row r rows h m k (sym ((nat_eq.test_iff (id r) (id row)).0 q))) e
          | inr q ↦ rw q refl
        ])

    -- An update that keeps the column.
    pub select_one-update :
        (key : R → String) (f : R → R) (row : R) (k : String) (rows : List R)
        → ((r : R) → key (f r) ≡ key r)
        → Distinct (map id rows)
        → Distinct (map key rows)
        → In row rows
        → select_one key k (update_row id (id row) f rows)
          ≡ (if key row == k then ok (some (f row)) else select_one key k rows)
    unfolding select_one update_row
    select_one-update key f row k rows same hi hk m = elim (Bool-cases (key row == k)) [
      | inl e ↦ rw e (
          ap scalar_one_or_none (
            kept
            ∙ ap (map g) (
                subst (λ j. keep (λ r. key r == j) rows ≡ row ∷ [])
                  ((string_eq.test_iff (key row) k).0 e) (keep_unique key row rows hk m))
            ∙ ap (λ r. r ∷ []) own))
      | inr e ↦ rw e (ap scalar_one_or_none (kept ∙ map-fixed g _ (λ r j. other e r j)))
    ]
      where
        g : R → R
        g r = if id r == id row then f r else r

        same_key : (r : R) → key (g r) ≡ key r
        same_key r = elim (Bool-cases (id r == id row)) [
          | inl e ↦ rw e (same r)
          | inr e ↦ rw e refl
        ]

        kept : keep (λ r. key r == k) (map g rows) ≡ map g (keep (λ r. key r == k) rows)
        kept = keep-map (λ r. key r == k) g (λ r. ap (λ j. j == k) (same_key r)) rows

        own : g row ≡ f row
        own = rw (beq_refl (id row)) refl

        found : (r : R) → In r (keep (λ r. key r == k) rows) → In r rows × ((key r == k) ≡ true)
        found r j = In-keep (λ r. key r == k) r rows j

        other : (key row == k) ≡ false → (r : R) → In r (keep (λ r. key r == k) rows) → g r ≡ r
        other e r j = elim (Bool-cases (id r == id row)) [
          | inl q ↦ absurd (
              false≢true (
                sym e
                ∙ subst (λ x. (key x == k) ≡ true)
                    (key_unique id r row rows hi (found r j).0 m
                      ((nat_eq.test_iff (id r) (id row)).0 q))
                    (found r j).1))
          | inr q ↦ rw q refl
        ]
