-- ===== src/Prelude/Keys.antt =====
-- A key is in use, and an update keeps the keys.
use mathlib.Core.Path.{◌∙◌, ◌≡◌, refl, ap, subst, sym}
use mathlib.Core.Logic.{inl, inr, ◌↔◌, ◌⊎◌}
use mathlib.Core.Bool.{Bool, true, not}
use mathlib.Core.Option.{some}
use mathlib.Core.List.{List, [], ◌∷◌, map}
use native.Mathlib.Omega.{arith}
use torque_finder.Prelude.Tests.{Key, ◌==◌, beq_refl, Bool-cases}
use torque_finder.Prelude.Lists.{In, any, keep, first}
use torque_finder.Prelude.Maps.{Distinct, In-map}

module _ {A B : Type 0} ⦃e : Key B⦄ (key : A → B) where
  pub any_iff_In : (k : B) (xs : List A) → (any (λ x. key x == k) xs ≡ true) ↔ In k (map key xs)
  any_iff_In k [] = ground arith
  any_iff_In k (x ∷ xs) = ground (arith, e.test_iff (key x) k, any_iff_In k xs)

  pub keep-none : (k : B) (xs : List A) → ¬ In k (map key xs) → keep (λ y. key y == k) xs ≡ []
  keep-none k [] h = refl
  keep-none k (y ∷ ys) h = ground (arith, e.test_iff (key y) k, keep-none k ys)

  -- Of rows with distinct keys, those with the key of one of them are that one.
  pub keep_unique :
      (x : A) (xs : List A)
      → Distinct (map key xs)
      → In x xs
      → keep (λ y. key y == key x) xs ≡ x ∷ []
  keep_unique x [] h m = absurd m
  keep_unique x (y ∷ ys) h (inl q) =
      subst (λ z. keep (λ w. key w == key z) (y ∷ ys) ≡ z ∷ []) q
        (rw (beq_refl (key y), keep-none (key y) ys h.0) refl)
  keep_unique x (y ∷ ys) h (inr m) = elim (Bool-cases (key y == key x)) [
    | inl q ↦ absurd (
        h.0 (
          subst (λ k. In k (map key ys)) (sym ((e.test_iff (key y) (key x)).0 q))
            (In-map key x ys m)))
    | inr q ↦ rw q (keep_unique x ys h.1 m)
  ]

  pub keep-all : (k : B) (xs : List A) → ¬ In k (map key xs) → keep (λ y. not (key y == k)) xs ≡ xs
  keep-all k [] h = refl
  keep-all k (y ∷ ys) h = ground (arith, e.test_iff (key y) k, keep-all k ys)

  In-key-cases : (k : B) (xs : List A) → (¬ In k (map key xs)) ⊎ ((x : A) × In x xs × (key x ≡ k))
  In-key-cases k [] = inl (λ m. m)
  In-key-cases k (x ∷ xs) = elim (Bool-cases (key x == k)) [
    | inl q ↦ inr (x, inl refl, (e.test_iff (key x) k).0 q)
    | inr q ↦ elim (In-key-cases k xs) [
      | inl n ↦ inl (λ m. ground (arith, e.test_iff (key x) k))
      | inr (y, m, f) ↦ inr (y, inr m, f)
    ]
  ]

  -- Of rows with distinct keys, none or one has a given key.
  pub keep-cases :
      (k : B) (xs : List A)
      → Distinct (map key xs)
      → ((¬ In k (map key xs)) × (keep (λ y. key y == k) xs ≡ []))
        ⊎ ((x : A) × In x xs × (key x ≡ k) × (keep (λ y. key y == k) xs ≡ x ∷ []))
  keep-cases k xs h = elim (In-key-cases k xs) [
    | inl n ↦ inl (n, keep-none k xs n)
    | inr (x, m, e) ↦
        inr (x, m, e, subst (λ j. keep (λ y. key y == j) xs ≡ x ∷ []) e (keep_unique x xs h m))
  ]

module _ {A B : Type 0} where
  pub map-unchanged :
      (f : A → A) (key : A → B)
      → ((x : A) → key (f x) ≡ key x)
      → (xs : List A) → map key (map f xs) ≡ map key xs
  map-unchanged f key same [] = refl
  map-unchanged f key same (x ∷ xs) = rw (same x, map-unchanged f key same xs) refl

module _ {A : Type 0} where
  pub keep-map :
      (p : A → Bool) (g : A → A)
      → ((x : A) → p (g x) ≡ p x)
      → (xs : List A) → keep p (map g xs) ≡ map g (keep p xs)
  keep-map p g same [] = refl
  keep-map p g same (x ∷ xs) = elim (Bool-cases (p x)) [
    | inl e ↦ rw (same x, e, keep-map p g same xs) refl
    | inr e ↦ rw (same x, e, keep-map p g same xs) refl
  ]

  pub map-fixed : (g : A → A) (xs : List A) → ((x : A) → In x xs → g x ≡ x) → map g xs ≡ xs
  map-fixed g [] h = refl
  map-fixed g (x ∷ xs) h = rw (h x (inl refl), map-fixed g xs (λ y m. h y (inr m))) refl

  -- Rows with distinct keys are equal if their keys are.
  pub key_unique :
      {B : Type 0} (key : A → B) (x y : A) (xs : List A)
      → Distinct (map key xs)
      → In x xs
      → In y xs
      → key x ≡ key y
      → x ≡ y
  key_unique key x y [] h m n e = absurd m
  key_unique key x y (z ∷ zs) h (inl p) (inl q) e = sym p ∙ q
  key_unique key x y (z ∷ zs) h (inl p) (inr n) e =
      absurd (h.0 (subst (λ k. In k (map key zs)) (sym (ap key p ∙ e)) (In-map key y zs n)))
  key_unique key x y (z ∷ zs) h (inr m) (inl q) e =
      absurd (h.0 (subst (λ k. In k (map key zs)) (e ∙ sym (ap key q)) (In-map key x zs m)))
  key_unique key x y (z ∷ zs) h (inr m) (inr n) e = key_unique key x y zs h.1 m n e

  -- What `first` finds is an element that passes the test.
  pub In-first : (p : A → Bool) (x : A) (xs : List A) → first p xs ≡ some x → In x xs × (p x ≡ true)
  In-first p x [] e = ground arith
  In-first p x (y ∷ ys) e = ground (arith, In-first p x ys)
