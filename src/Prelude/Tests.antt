-- ===== src/Prelude/Tests.antt =====
-- Boolean tests, the conditional, and equality of keys as an interface.
use Prim.Native.Nat.{ℕ, ◌≤◌, ◌<◌, compare, Ordering}
use Prim.Native.String.{String}
use mathlib.Core.Path.{◌≡◌, refl}
use mathlib.Core.Logic.{◌↔◌, ◌⊎◌, inl, inr}
use mathlib.Core.Bool.{Bool, true, false}
use mathlib.Core.Option.{Option, none, some}
use native.Mathlib.Omega.{arith}
use text.Mathlib.Text.{◌==◌ as str_eq}
use text.Mathlib.TextEquality.{eq_iff}

abbrev pub ltb : ℕ → ℕ → Bool
ltb a b = elim (compare a b) [ Ordering.lt ↦ true | _ ↦ false ]

abbrev pub leb : ℕ → ℕ → Bool
leb a b = elim (compare a b) [ Ordering.gt ↦ false | _ ↦ true ]

abbrev pub nat_beq : ℕ → ℕ → Bool
nat_beq a b = elim (compare a b) [ Ordering.eq ↦ true | _ ↦ false ]

infix 1 if◌then◌else◌
abbrev pub if◌then◌else◌ {ℓ} : {A : Type ℓ} → Bool → A → A → A
if true then x else y = x
if false then x else y = y

pub ltb→lt : (a b : ℕ) → ltb a b ≡ true → a < b
ltb→lt a b h = ground arith

pub leb→le : (a b : ℕ) → leb a b ≡ true → a ≤ b
leb→le a b h = ground arith

pub nat_beq_iff : (a b : ℕ) → (nat_beq a b ≡ true) ↔ (a ≡ b)
nat_beq_iff a b = ground arith

-- To split on a computed value and keep the equation.
pub Bool-cases : (b : Bool) → (b ≡ true) ⊎ (b ≡ false)
Bool-cases true = inl refl
Bool-cases false = inr refl

pub Option-cases {ℓ} : {A : Type ℓ} (o : Option A) → (o ≡ none) ⊎ ((a : A) × (o ≡ some a))
Option-cases none = inl refl
Option-cases (some a) = inr (a, refl)

pub none≢some {ℓ} : {A : Type ℓ} {a : A} → none ≡ some a → ⊥
none≢some e = cc

-- Python's `==` on the keys that the program uses.
pub record Key {ℓ} (A : Type ℓ) : Type ℓ where
  pub test : A → A → Bool
  pub test_iff : (a b : A) → (test a b ≡ true) ↔ (a ≡ b)

infix 50 ◌==◌
abbrev pub ◌==◌ {ℓ} : {A : Type ℓ} ⦃e : Key A⦄ → A → A → Bool
◌==◌ ⦃e⦄ = e.test

instance abbrev pub string_eq : Key String
string_eq = record { test = str_eq; test_iff = eq_iff }

-- `==` on values that may be `None`.
abbrev pub opt_beq {ℓ} : {A : Type ℓ} ⦃e : Key A⦄ → Option A → Option A → Bool
opt_beq none none = true
opt_beq none (some _) = false
opt_beq (some _) none = false
opt_beq (some a) (some b) = a == b

instance abbrev pub nat_eq : Key ℕ
nat_eq = record { test = nat_beq; test_iff = nat_beq_iff }

pub opt_beq_iff {ℓ} : {A : Type ℓ} ⦃e : Key A⦄ (a b : Option A) → (opt_beq a b ≡ true) ↔ (a ≡ b)
opt_beq_iff none none = ground arith
opt_beq_iff none (some _) = ground arith
opt_beq_iff (some _) none = ground arith
opt_beq_iff ⦃e⦄ (some a) (some b) = ground (arith, e.test_iff a b)

instance abbrev pub opt_eq {ℓ} : {A : Type ℓ} ⦃e : Key A⦄ → Key (Option A)
opt_eq = record { test = opt_beq; test_iff = opt_beq_iff }

pub beq_refl {ℓ} : {A : Type ℓ} ⦃e : Key A⦄ (a : A) → (a == a) ≡ true
beq_refl ⦃e⦄ a = (e.test_iff a a).1 refl

abbrev pub is_none {ℓ} : {A : Type ℓ} → Option A → Bool
is_none none = true
is_none (some _) = false

abbrev pub is_some {ℓ} : {A : Type ℓ} → Option A → Bool
is_some none = false
is_some (some _) = true
