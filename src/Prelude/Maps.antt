-- ===== src/Prelude/Maps.antt =====
-- Python's `dict`: an association list in insertion order. A new key goes to the end, and an
-- assignment to a key that is there keeps its place.
use mathlib.Core.Path.{◌≡◌, refl, ap}
use mathlib.Core.Bool.{Bool}
use Prim.Native.Nat.{ℕ, zero, suc}
use mathlib.Core.Logic.{◌⊎◌, inl, inr}
use mathlib.Core.Option.{Option, none, some}
use mathlib.Core.List.{List, [], ◌∷◌, ◌++◌, map}
use native.Mathlib.Omega.{arith}
use torque_finder.Prelude.Tests.{Key, ◌==◌, if◌then◌else◌, Bool-cases}
use torque_finder.Prelude.Lists.{In, In-append, take, keep}

abbrev pub Dict {ℓ κ} : Type ℓ → Type κ → Type (ℓ ⊔ κ)
Dict K V = List (K × V)

-- No two elements are equal.
abbrev pub Distinct : {A : Type 0} → List A → Type 0
Distinct [] = Unit
Distinct (x ∷ xs) = (¬ In x xs) × Distinct xs

abbrev pub keys : {K V : Type 0} → Dict K V → List K
keys [] = []
keys ((k, _) ∷ d) = k ∷ keys d

module _ {ℓ κ} {K : Type ℓ} {V : Type κ} ⦃e : Key K⦄ where
  -- `d.get(k)`
  unfoldable pub get : Dict K V → K → Option V
  get [] k = none
  get ((j, v) ∷ d) k = if j == k then some v else get d k

  -- `d[k] = v`
  unfoldable pub put : Dict K V → K → V → Dict K V
  put [] k v = (k, v) ∷ []
  put ((j, w) ∷ d) k v = if j == k then (j, v) ∷ d else (j, w) ∷ put d k v

  pub get-put :
      (d : Dict K V) (k j : K) (v : V) → get (put d k v) j ≡ (if k == j then some v else get d j)
  unfolding get put
  get-put [] k j v = refl
  get-put ((i, w) ∷ d) k j v =
      ground (arith, e.test_iff i k, e.test_iff i j, e.test_iff k j, get-put d k j v)

module _ {K V : Type 0} ⦃e : Key K⦄ where
  -- The keys of an assignment are the old ones and the new one.
  pub In-keys-put :
      (d : Dict K V) (k j : K) (v : V) → In j (keys (put d k v)) → In j (keys d) ⊎ (k ≡ j)
  unfolding put
  In-keys-put [] k j v h = ground arith
  In-keys-put ((i, w) ∷ d) k j v h = ground (arith, In-keys-put d k j v)

  pub In-put_new : (d : Dict K V) (k : K) (v : V) → In k (keys (put d k v))
  unfolding put
  In-put_new [] k v = inl refl
  In-put_new ((i, w) ∷ d) k v = ground (arith, e.test_iff i k, In-put_new d k v)

  pub In-put_old : (d : Dict K V) (k j : K) (v : V) → In j (keys d) → In j (keys (put d k v))
  unfolding put
  In-put_old [] k j v h = absurd h
  In-put_old ((i, w) ∷ d) k j v h = ground (arith, In-put_old d k j v)

  pub keys-put-Distinct :
      (d : Dict K V) (k : K) (v : V) → Distinct (keys d) → Distinct (keys (put d k v))
  unfolding put
  keys-put-Distinct [] k v h = ((λ x. x), tt)
  keys-put-Distinct ((i, w) ∷ d) k v h = elim (Bool-cases (i == k)) [
    | inl q ↦ rw q h
    | inr q ↦
        rw q (λ m. ground (arith, In-keys-put d k i v, e.test_iff i k), keys-put-Distinct d k v h.1)
  ]

  In-keys : (d : Dict K V) (k : K) (v : V) → In (k, v) d → In k (keys d)
  In-keys [] k v h = absurd h
  In-keys ((i, w) ∷ d) k v h = ground (arith, In-keys d k v)

  -- With distinct keys, an item of the dictionary is what `get` finds.
  pub get-In : (d : Dict K V) (k : K) (v : V) → Distinct (keys d) → In (k, v) d → get d k ≡ some v
  unfolding get
  get-In [] k v h m = absurd m
  get-In ((i, w) ∷ d) k v h m = ground (arith, e.test_iff i k, get-In d k v, In-keys d k v)

  -- What `get` finds is an item.
  pub In-get : (d : Dict K V) (k : K) (v : V) → get d k ≡ some v → In (k, v) d
  unfolding get
  In-get [] k v h = cc
  In-get ((i, w) ∷ d) k v h = ground (arith, e.test_iff i k, In-get d k v)

module _ {A : Type 0} where
  pub Distinct-append :
      (xs ys : List A)
      → Distinct xs
      → Distinct ys
      → ((x : A) → In x xs → ¬ In x ys)
      → Distinct (xs ++ ys)
  Distinct-append [] ys h k apart = k
  Distinct-append (x ∷ xs) ys h k apart = (
    λ m. elim (In-append x xs ys m) [ inl a ↦ h.0 a | inr b ↦ apart x (inl refl) b ],
    Distinct-append xs ys h.1 k (λ y m. apart y (inr m)),
  )

  module _ {B : Type 0} (f : A → B) where
    pub In-map : (x : A) (xs : List A) → In x xs → In (f x) (map f xs)
    In-map x [] m = m
    In-map x (y ∷ xs) (inl e) = inl (ap f e)
    In-map x (y ∷ xs) (inr m) = inr (In-map x xs m)

    pub In-map-take : (b : B) (n : ℕ) (xs : List A) → In b (map f (take n xs)) → In b (map f xs)
    In-map-take b zero xs m = absurd m
    In-map-take b (suc n) [] m = m
    In-map-take b (suc n) (x ∷ xs) m = ground (arith, In-map-take b n xs)

    pub take-Distinct : (n : ℕ) (xs : List A) → Distinct (map f xs) → Distinct (map f (take n xs))
    take-Distinct zero xs h = tt
    take-Distinct (suc n) [] h = tt
    take-Distinct (suc n) (x ∷ xs) h = (λ m. h.0 (In-map-take (f x) n xs m), take-Distinct n xs h.1)

    pub In-map-keep :
        (p : A → Bool) (b : B) (xs : List A) → In b (map f (keep p xs)) → In b (map f xs)
    In-map-keep p b [] m = m
    In-map-keep p b (x ∷ xs) m = ground (arith, In-map-keep p b xs)

    pub filter-Distinct :
        (p : A → Bool) (xs : List A) → Distinct (map f xs) → Distinct (map f (keep p xs))
    filter-Distinct p [] h = tt
    filter-Distinct p (x ∷ xs) h = ground (arith, In-map-keep p (f x) xs, filter-Distinct p xs)
