-- ===== src/Floats.antt =====
-- The floating-point numbers of the program, as an interface. The program computes with finite
-- values only (quotients 1 / n, bounded sums of them, and decimal constants), and relies on the
-- laws below. They hold of the finite IEEE doubles, whose rounding is monotone.
pub mod Fixed
pub mod Order
use torque_finder.Prelude.{ℕ, ◌≤◌, ◌≡◌, Bool, true, false}

pub record Floats : Type 1 where
  pub Float : Type 0
  pub fle : Float → Float → Bool
  pub fadd : Float → Float → Float
  pub fsub : Float → Float → Float
  pub fneg : Float → Float
  -- `1.0 / n`
  pub recip : ℕ → Float
  -- `n * x`, for an int `n`
  pub times : ℕ → Float → Float
  -- the literal `m * 10 ** -e`
  pub decimal : ℕ → ℕ → Float
  pub fle_total : (a b : Float) → fle a b ≡ false → fle b a ≡ true
  pub fle_trans : (a b c : Float) → fle a b ≡ true → fle b c ≡ true → fle a c ≡ true
  pub fadd_mono :
      (a b c d : Float) → fle a b ≡ true → fle c d ≡ true → fle (fadd a c) (fadd b d) ≡ true
  pub fadd_zero : (a : Float) → fadd a (decimal 0 0) ≡ a
  pub fsub_le : (a b : Float) → fle (decimal 0 0) b ≡ true → fle (fsub a b) a ≡ true
  pub fneg_fle : (a b : Float) → fle (fneg a) (fneg b) ≡ fle b a
  -- the two zeros are one value
  pub fneg_zero : fneg (decimal 0 0) ≡ decimal 0 0
  pub recip_nonneg : (n : ℕ) → fle (decimal 0 0) (recip n) ≡ true
  pub recip_mono : (m n : ℕ) → 1 ≤ m → m ≤ n → fle (recip n) (recip m) ≡ true
  pub decimal_nonneg : (m e : ℕ) → fle (decimal 0 0) (decimal m e) ≡ true
  pub times_nonneg :
      (n : ℕ) (a : Float) → fle (decimal 0 0) a ≡ true → fle (decimal 0 0) (times n a) ≡ true
