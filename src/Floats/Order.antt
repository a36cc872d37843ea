-- ===== src/Floats/Order.antt =====
-- The order of the floating-point numbers: the tests that the program makes, and their laws.
use torque_finder.Prelude.{
  ℕ, ◌≡◌, Bool, true, false, ◌&&◌, arith, if◌then◌else◌, leb, string_eq, nat_eq, subst,
}
use torque_finder.Floats.{Floats}

module _ ⦃fl : Floats⦄ where
  open fl use {
    Float, fle, fadd, fneg, decimal, fle_total, fle_trans, fadd_mono, fadd_zero, fneg_fle,
  }

  -- `0.0`
  abbrev pub fzero : Float
  fzero = decimal 0 0

  -- `a == b` and `a < b`
  abbrev pub feq : Float → Float → Bool
  feq a b = fle a b && fle b a

  -- `min(a, b)`
  abbrev pub fmin : Float → Float → Float
  fmin a b = if fle a b then a else b

  pub fle_refl : (a : Float) → fle a a ≡ true
  fle_refl a = ground (arith, fle_total a a)

  pub fle-fadd : (a b : Float) → fle fzero b ≡ true → fle a (fadd a b) ≡ true
  fle-fadd a b h =
      subst (λ x. fle x (fadd a b) ≡ true) (fadd_zero a) (fadd_mono a a fzero b (fle_refl a) h)

  pub fmin-le : (a b : Float) → fle (fmin a b) b ≡ true
  fmin-le a b = ground (arith, fle_refl b)

  pub fmin_nonneg :
      (a b : Float) → fle fzero a ≡ true → fle fzero b ≡ true → fle fzero (fmin a b) ≡ true
  fmin_nonneg a b h k = ground arith

  -- Pairs of a number and an id as sort keys: the tuples `(-score, id)`.
  abbrev pub key_le : Float → ℕ → Float → ℕ → Bool
  key_le a i b j = if feq (fneg a) (fneg b) then leb i j else fle (fneg a) (fneg b)

  pub key_le_total :
      (a : Float) (i : ℕ) (b : Float) (j : ℕ) → key_le a i b j ≡ false → key_le b j a i ≡ true
  key_le_total a i b j h = ground (arith, fle_total (fneg a) (fneg b))

  pub key_le_trans :
      (a : Float) (i : ℕ) (b : Float) (j : ℕ) (c : Float) (k : ℕ)
      → key_le a i b j ≡ true
      → key_le b j c k ≡ true
      → key_le a i c k ≡ true
  key_le_trans a i b j c k h h' = ground (
    arith,
    fle_trans (fneg a) (fneg b) (fneg c),
    fle_trans (fneg b) (fneg c) (fneg a),
    fle_trans (fneg c) (fneg a) (fneg b),
    fle_trans (fneg c) (fneg b) (fneg a),
  )
