-- ===== src/Prelude/Sort.antt =====
-- Python's `sorted`, which is stable: `before x y` says that `x` may stand before `y`, and of
-- two values that may stand either way the one that came first stays first. `reverse=True`
-- keeps this too, so a descending sort by a key is the sort by `key y ≤ key x`.
use mathlib.Core.List.Perm
use mathlib.Core.List.{Perm}
use Prim.Native.Nat.{suc}
use mathlib.Core.Path.{◌≡◌, refl, sym, ap, ◌∙◌, subst}
use mathlib.Core.Logic.{◌⊎◌, ◌↔◌, inl, inr}
use mathlib.Core.Bool.{false≢true, Bool, true, false}
use mathlib.Core.List.{List, [], ◌∷◌, ◌++◌, map}
use native.Mathlib.Omega.{arith}
use torque_finder.Prelude.Tests.{if◌then◌else◌, Bool-cases}
use torque_finder.Prelude.Maps.{Distinct}
use torque_finder.Prelude.Lists.{keep, In, Before, All, All-In, All-of_In, length}

module _ {A : Type 0} (before : A → A → Bool) where
  insert : A → List A → List A
  insert x [] = x ∷ []
  insert x (y ∷ ys) = if before x y then x ∷ y ∷ ys else y ∷ insert x ys

  unfoldable pub sort_by : List A → List A
  unfolding insert
  sort_by [] = []
  sort_by (x ∷ xs) = insert x (sort_by xs)

  -- Each element may stand before all that follow it.
  abbrev pub IsSorted : List A → Type 0
  IsSorted [] = Unit
  IsSorted (x ∷ xs) = All (λ y. before x y ≡ true) xs × IsSorted xs

  insert-perm : (x : A) (xs : List A) → Perm (insert x xs) (x ∷ xs)
  unfolding insert
  insert-perm x [] = Perm.refl (x ∷ [])
  insert-perm x (y ∷ ys) = elim (Bool-cases (before x y)) [
    | inl e ↦ rw e (Perm.refl (x ∷ y ∷ ys))
    | inr e ↦ rw e (Perm.trans (Perm.cons y (insert-perm x ys)) (Perm.swap _ _ _))
  ]

  pub sort_by-perm : (xs : List A) → Perm (sort_by xs) xs
  unfolding sort_by
  sort_by-perm [] = Perm.refl []
  sort_by-perm (x ∷ xs) = Perm.trans (insert-perm x (sort_by xs)) (Perm.cons x (sort_by-perm xs))

  In-insert : (a x : A) (xs : List A) → In a (insert x xs) → (x ≡ a) ⊎ In a xs
  unfolding insert
  In-insert a x [] h = h
  In-insert a x (y ∷ ys) h = ground (arith, In-insert a x ys)

  In_insert : (a x : A) (xs : List A) → (x ≡ a) ⊎ In a xs → In a (insert x xs)
  unfolding insert
  In_insert a x [] h = h
  In_insert a x (y ∷ ys) h = ground (arith, In_insert a x ys)

  -- Sorting neither loses nor invents an element.
  pub sort_by-In : (a : A) (xs : List A) → In a (sort_by xs) ↔ In a xs
  unfolding sort_by
  sort_by-In a [] = (λ h. h, λ h. h)
  sort_by-In a (x ∷ xs) = (
    λ h. ground (arith, In-insert a x (sort_by xs), sort_by-In a xs),
    λ h. In_insert a x (sort_by xs) (ground (arith, sort_by-In a xs)),
  )

  length-insert : (x : A) (xs : List A) → length (insert x xs) ≡ suc (length xs)
  unfolding insert
  length-insert x [] = refl
  length-insert x (y ∷ ys) = ground (arith, length-insert x ys)

  pub length-sort_by : (xs : List A) → length (sort_by xs) ≡ length xs
  unfolding sort_by
  length-sort_by [] = refl
  length-sort_by (x ∷ xs) = length-insert x (sort_by xs) ∙ ap suc (length-sort_by xs)

  Before-insert_new :
      (x y : A) (xs : List A) → before x y ≡ true → In y xs → Before x y (insert x xs)
  unfolding insert
  Before-insert_new x y [] b h = absurd h
  Before-insert_new x y (z ∷ xs) b h = ground (arith, Before-insert_new x y xs)

  Before-insert_old : (a b x : A) (xs : List A) → Before a b xs → Before a b (insert x xs)
  unfolding insert
  Before-insert_old a b x [] h = absurd h
  Before-insert_old a b x (z ∷ xs) h = ground (arith, Before-insert_old a b x xs, In_insert b x xs)

  length-keep-insert :
      (p : A → Bool) (x : A) (xs : List A)
      → length (keep p (insert x xs)) ≡ length (keep p (x ∷ xs))
  unfolding insert
  length-keep-insert p x [] = refl
  length-keep-insert p x (y ∷ ys) = ground (arith, length-keep-insert p x ys)

  -- Sorting keeps the number of elements that pass a test.
  pub length-keep-sort_by :
      (p : A → Bool) (xs : List A) → length (keep p (sort_by xs)) ≡ length (keep p xs)
  unfolding sort_by
  length-keep-sort_by p [] = refl
  length-keep-sort_by p (x ∷ xs) =
      ground (arith, length-keep-insert p x (sort_by xs), length-keep-sort_by p xs)

  insert_last :
      (x : A) (ys : List A) → All (λ y. before x y ≡ false) ys → insert x ys ≡ ys ++ (x ∷ [])
  unfolding insert
  insert_last x [] h = refl
  insert_last x (y ∷ ys) h = rw (h.0, insert_last x ys h.1) refl

  -- A value that may not stand before any of the others stands last.
  pub sort_by_last :
      (x : A) (xs : List A)
      → All (λ y. before x y ≡ false) xs
      → sort_by (x ∷ xs) ≡ sort_by xs ++ (x ∷ [])
  unfolding sort_by
  sort_by_last x xs h =
      insert_last x (sort_by xs)
        (All-of_In _ (sort_by xs) (λ y m. All-In _ y xs h ((sort_by-In y xs).0 m)))

  -- Stability: what may stand before another value, and does, still does after sorting.
  pub sort_by-Before :
      (x y : A) (xs : List A) → before x y ≡ true → Before x y xs → Before x y (sort_by xs)
  unfolding sort_by
  sort_by-Before x y [] b h = absurd h
  sort_by-Before x y (z ∷ xs) b (inl (e, m)) =
      subst (λ w. Before x y (insert w (sort_by xs))) (sym e)
        (Before-insert_new x y (sort_by xs) b ((sort_by-In y xs).1 m))
  sort_by-Before x y (z ∷ xs) b (inr h) =
      Before-insert_old x y z (sort_by xs) (sort_by-Before x y xs b h)

  module _ {B : Type 0} (key : A → B) where
    In-map-insert :
        (b : B) (x : A) (xs : List A)
        → In b (map key (insert x xs))
        → (key x ≡ b) ⊎ In b (map key xs)
    unfolding insert
    In-map-insert b x [] h = h
    In-map-insert b x (y ∷ ys) h = ground (arith, In-map-insert b x ys)

    pub In-map-sort_by : (b : B) (xs : List A) → In b (map key (sort_by xs)) → In b (map key xs)
    unfolding sort_by
    In-map-sort_by b [] h = h
    In-map-sort_by b (x ∷ xs) h =
        ground (arith, In-map-insert b x (sort_by xs), In-map-sort_by b xs)

    insert-Distinct :
        (x : A) (xs : List A)
        → ¬ In (key x) (map key xs)
        → Distinct (map key xs)
        → Distinct (map key (insert x xs))
    unfolding insert
    insert-Distinct x [] n h = (n, h)
    insert-Distinct x (y ∷ ys) n h = elim (Bool-cases (before x y)) [
      | inl e ↦ rw e (n, h)
      | inr e ↦ rw e (
        λ m. elim (In-map-insert (key y) x ys m) [ inl q ↦ n (inl (sym q)) | inr k ↦ h.0 k ],
        insert-Distinct x ys (λ m. n (inr m)) h.1,
      )
    ]

    -- Sorting keeps distinct keys distinct.
    pub sort_by-Distinct : (xs : List A) → Distinct (map key xs) → Distinct (map key (sort_by xs))
    unfolding sort_by
    sort_by-Distinct [] h = h
    sort_by-Distinct (x ∷ xs) h =
        insert-Distinct x (sort_by xs) (λ m. h.0 (In-map-sort_by (key x) xs m))
          (sort_by-Distinct xs h.1)

  module _ (total : (x y : A) → before x y ≡ false → before y x ≡ true)
      (trans : (x y z : A) → before x y ≡ true → before y z ≡ true → before x z ≡ true) where
    reflexive : (x : A) → before x x ≡ true
    reflexive x = elim (Bool-cases (before x x)) [ inl e ↦ e | inr e ↦ total x x e ]

    insert-IsSorted : (x : A) (xs : List A) → IsSorted xs → IsSorted (insert x xs)
    unfolding insert
    insert-IsSorted x [] h = (tt, tt)
    insert-IsSorted x (y ∷ ys) h = elim (Bool-cases (before x y)) [
      | inl e ↦ rw e ((e, All-of_In _ ys (λ z m. trans x y z e (All-In _ z ys h.0 m))), h)
      | inr e ↦ rw e (
        All-of_In _ (insert x ys) (λ z m. after e z (In-insert z x ys m)),
        insert-IsSorted x ys h.1,
      )
    ]
      where
        after : before x y ≡ false → (z : A) → (x ≡ z) ⊎ In z ys → before y z ≡ true
        after e z (inl q) = subst (λ w. before y w ≡ true) q (total x y e)
        after e z (inr m) = All-In (λ w. before y w ≡ true) z ys h.0 m

    keep-insert_first :
        (p : A → Bool) (x : A) (ys : List A)
        → All (λ y. before x y ≡ true) ys
        → insert x (keep p ys) ≡ x ∷ keep p ys
    unfolding insert
    keep-insert_first p x [] h = refl
    keep-insert_first p x (y ∷ ys) h = elim (Bool-cases (p y)) [
      | inl e ↦ rw (e, h.0) refl
      | inr e ↦ rw e (keep-insert_first p x ys h.1)
    ]

    keep-insert_at :
        (p : A → Bool) (x y : A) (ys : List A)
        → before x y ≡ false
        → keep p (insert x ys) ≡ (if p x then insert x (keep p ys) else keep p ys)
        → y ∷ keep p (insert x ys) ≡ (if p x then insert x (y ∷ keep p ys) else y ∷ keep p ys)
    unfolding insert
    keep-insert_at p x y ys b h = elim (Bool-cases (p x)) [
      | inl e ↦ rw (e, b) (ap (λ l. y ∷ l) (h ∙ rw e refl))
      | inr e ↦ rw e (ap (λ l. y ∷ l) (h ∙ rw e refl))
    ]

    keep-insert :
        (p : A → Bool) (x : A) (ys : List A)
        → IsSorted ys
        → keep p (insert x ys) ≡ (if p x then insert x (keep p ys) else keep p ys)
    unfolding insert
    keep-insert p x [] h = refl
    keep-insert p x (y ∷ ys) h = elim (Bool-cases (before x y)) [
      | inl b ↦ rw b (below b)
      | inr b ↦ rw b (elim (Bool-cases (p y)) [
        | inl e ↦ rw e (keep-insert_at p x y ys b (keep-insert p x ys h.1))
        | inr e ↦ rw e (keep-insert p x ys h.1)
      ])
    ]
      where
        below :
            before x y ≡ true
            → (if p x then x ∷ keep p (y ∷ ys) else keep p (y ∷ ys))
              ≡ (if p x then insert x (keep p (y ∷ ys)) else keep p (y ∷ ys))
        below b =
            ap (λ l. if p x then l else keep p (y ∷ ys))
              (sym (
                keep-insert_first p x (y ∷ ys)
                  (b, All-of_In _ ys (λ z m. trans x y z b (All-In _ z ys h.0 m)))))

    pub sort_by-IsSorted : (xs : List A) → IsSorted (sort_by xs)
    unfolding sort_by
    sort_by-IsSorted [] = tt
    sort_by-IsSorted (x ∷ xs) = insert-IsSorted x (sort_by xs) (sort_by-IsSorted xs)

    -- Sorting and selecting commute.
    pub keep-sort_by : (p : A → Bool) (xs : List A) → keep p (sort_by xs) ≡ sort_by (keep p xs)
    unfolding sort_by
    keep-sort_by p [] = refl
    keep-sort_by p (x ∷ xs) = elim (Bool-cases (p x)) [
      | inl e ↦ rw e (
          keep-insert p x (sort_by xs) (sort_by-IsSorted xs)
          ∙ rw e (ap (insert x) (keep-sort_by p xs)))
      | inr e ↦ rw e (keep-insert p x (sort_by xs) (sort_by-IsSorted xs) ∙ rw e (keep-sort_by p xs))
    ]

    -- A value that may not stand before another, stands behind it in every sorted list.
    pub IsSorted-Before :
        (x y : A) (xs : List A)
        → IsSorted xs
        → In x xs
        → In y xs
        → before y x ≡ false
        → Before x y xs
    IsSorted-Before x y [] h mx my n = absurd mx
    IsSorted-Before x y (z ∷ xs) h (inl e) (inl e') n =
        absurd (false≢true (sym n ∙ ap (λ w. before w x) (sym e' ∙ e) ∙ reflexive x))
    IsSorted-Before x y (z ∷ xs) h (inl e) (inr my) n = inl (e, my)
    IsSorted-Before x y (z ∷ xs) h (inr mx) (inl e') n = absurd (
        false≢true
          (sym n ∙ ap (λ w. before w x) (sym e') ∙ All-In (λ w. before z w ≡ true) x xs h.0 mx))
    IsSorted-Before x y (z ∷ xs) h (inr mx) (inr my) n = inr (IsSorted-Before x y xs h.1 mx my n)
