-- ===== src/Prelude/Lists.antt =====
-- Lists measured by native numbers, and the predicates on lists that the components share.
use Prim.Native.Nat.{◌≤◌, ℕ, zero, suc, ◌+◌, min}
use mathlib.Core.Path.{◌≡◌, refl, subst, ap, ◌∙◌}
use mathlib.Core.Logic.{◌⊎◌, inl, inr}
use mathlib.Core.Bool.{Bool, true, false, ◌&&◌, ◌||◌}
use mathlib.Core.List.{List, [], ◌∷◌, ◌++◌}
use mathlib.Core.Option.{Option, none, some}
use native.Mathlib.Omega.{arith}
use torque_finder.Prelude.Tests.{if◌then◌else◌, Bool-cases}

module _ {ℓ} {A : Type ℓ} where
  abbrev pub length : List A → ℕ
  length [] = 0
  length (x ∷ xs) = suc (length xs)

  abbrev pub get_elem? : List A → ℕ → Option A
  get_elem? [] i = none
  get_elem? (x ∷ xs) zero = some x
  get_elem? (x ∷ xs) (suc i) = get_elem? xs i

  -- `l[:n]`
  abbrev pub take : ℕ → List A → List A
  take zero xs = []
  take (suc n) [] = []
  take (suc n) (x ∷ xs) = x ∷ take n xs

  abbrev pub any : (A → Bool) → List A → Bool
  any p [] = false
  any p (x ∷ xs) = p x || any p xs

  abbrev pub all : (A → Bool) → List A → Bool
  all p [] = true
  all p (x ∷ xs) = p x && all p xs

  -- `[x for x in l if p(x)]`
  abbrev pub keep : (A → Bool) → List A → List A
  keep p [] = []
  keep p (x ∷ xs) = if p x then x ∷ keep p xs else keep p xs

  -- `next((x for x in l if p(x)), None)`
  abbrev pub first : (A → Bool) → List A → Option A
  first p [] = none
  first p (x ∷ xs) = if p x then some x else first p xs

  pub length-append : (xs ys : List A) → length (xs ++ ys) ≡ length xs + length ys
  length-append [] ys = omega arith
  length-append (x ∷ xs) ys = omega (arith, length-append xs ys)

  pub length-take : (n : ℕ) (xs : List A) → length (take n xs) ≡ min n (length xs)
  length-take zero xs = omega arith
  length-take (suc n) [] = omega arith
  length-take (suc n) (x ∷ xs) = omega (arith, length-take n xs)

  pub length-keep-take :
      (p : A → Bool) (n : ℕ) (xs : List A) → length (keep p (take n xs)) ≤ length (keep p xs)
  length-keep-take p zero xs = omega arith
  length-keep-take p (suc n) [] = omega arith
  length-keep-take p (suc n) (x ∷ xs) = ground (arith, length-keep-take p n xs)

module _ {A : Type 0} where
  -- `x` is an element of the list.
  abbrev pub In : A → List A → Type 0
  In x [] = ⊥
  In x (y ∷ ys) = (y ≡ x) ⊎ In x ys

  -- Some occurrence of `x` stands before some occurrence of `y`.
  abbrev pub Before : A → A → List A → Type 0
  Before x y [] = ⊥
  Before x y (z ∷ zs) = ((z ≡ x) × In y zs) ⊎ Before x y zs

  abbrev pub All {κ} : (A → Type κ) → List A → Type κ
  All P [] = Unit
  All P (x ∷ xs) = P x × All P xs

  pub In-append_left : (x : A) (xs ys : List A) → In x xs → In x (xs ++ ys)
  In-append_left x [] ys h = absurd h
  In-append_left x (y ∷ xs) ys h = ground (arith, In-append_left x xs ys)

  pub In-append_right : (x : A) (xs ys : List A) → In x ys → In x (xs ++ ys)
  In-append_right x [] ys h = h
  In-append_right x (y ∷ xs) ys h = inr (In-append_right x xs ys h)

  pub In-append : (x : A) (xs ys : List A) → In x (xs ++ ys) → In x xs ⊎ In x ys
  In-append x [] ys h = inr h
  In-append x (y ∷ xs) ys h = ground (arith, In-append x xs ys)

  pub In-take : (n : ℕ) (x : A) (xs : List A) → In x (take n xs) → In x xs
  In-take zero x xs h = absurd h
  In-take (suc n) x [] h = absurd h
  In-take (suc n) x (y ∷ xs) h = ground (arith, In-take n x xs)

  pub In-keep : (p : A → Bool) (x : A) (xs : List A) → In x (keep p xs) → In x xs × (p x ≡ true)
  In-keep p x [] h = absurd h
  In-keep p x (y ∷ xs) h = ground (arith, In-keep p x xs)

  pub In_keep : (p : A → Bool) (x : A) (xs : List A) → In x xs → p x ≡ true → In x (keep p xs)
  In_keep p x [] m h = m
  In_keep p x (y ∷ xs) (inl q) h = rw (ap p q ∙ h) (inl q)
  In_keep p x (y ∷ xs) (inr m) h = elim (Bool-cases (p y)) [
    | inl e ↦ rw e (inr (In_keep p x xs m h))
    | inr e ↦ rw e (In_keep p x xs m h)
  ]

  pub All-In : (P : A → Type 0) (x : A) (xs : List A) → All P xs → In x xs → P x
  All-In P x [] h k = absurd k
  All-In P x (y ∷ xs) h (inl e) = subst P e h.0
  All-In P x (y ∷ xs) h (inr k) = All-In P x xs h.1 k

  pub All-of_In : (P : A → Type 0) (xs : List A) → ((x : A) → In x xs → P x) → All P xs
  All-of_In P [] f = tt
  All-of_In P (x ∷ xs) f = (f x (inl refl), All-of_In P xs (λ y h. f y (inr h)))

  pub All-weaken : (P Q : A → Type 0) (xs : List A) → ((x : A) → P x → Q x) → All P xs → All Q xs
  All-weaken P Q [] f h = tt
  All-weaken P Q (x ∷ xs) f h = (f x h.0, All-weaken P Q xs f h.1)
