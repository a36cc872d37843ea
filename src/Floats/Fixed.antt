-- ===== src/Floats/Fixed.antt =====
-- Numbers with nine decimal places, as a value of `Floats`: the laws can be met, and the program
-- can be run on concrete inputs.
use native.Mathlib.Nat.{le_trans, le-div_iff_mul-le, div-mul-le_self}
use Prim.Native.Nat.{◌/◌, ◌^◌}
use torque_finder.Prelude.{
  ℕ, zero, suc, ◌+◌, ◌*◌, ◌≤◌, ◌≡◌, refl, Bool, true, false, arith, leb, string_eq, nat_eq,
}
use torque_finder.Prelude.Int.{ℤ, pos, negsuc, pos_part, neg_part, sub_ℕ}
use torque_finder.Floats.{Floats}

abbrev pub le_ℤ : ℤ → ℤ → Bool
le_ℤ a b = leb (pos_part a + neg_part b) (pos_part b + neg_part a)

abbrev pub neg_ℤ : ℤ → ℤ
neg_ℤ (pos zero) = pos 0
neg_ℤ (pos (suc n)) = negsuc n
neg_ℤ (negsuc n) = pos (suc n)

abbrev pub plus : ℤ → ℤ → ℤ
plus a b = sub_ℕ (pos_part a + pos_part b) (neg_part a + neg_part b)

abbrev pub minus : ℤ → ℤ → ℤ
minus a b = sub_ℕ (pos_part a + neg_part b) (neg_part a + pos_part b)

abbrev pub scaled : ℕ → ℤ → ℤ
scaled n a = sub_ℕ (n * pos_part a) (n * neg_part a)

pub le_total : (a b : ℤ) → le_ℤ a b ≡ false → le_ℤ b a ≡ true
le_total a b h = ground arith

pub le_trans' : (a b c : ℤ) → le_ℤ a b ≡ true → le_ℤ b c ≡ true → le_ℤ a c ≡ true
le_trans' a b c h k = ground arith

pub add_mono : (a b c d : ℤ) → le_ℤ a b ≡ true → le_ℤ c d ≡ true → le_ℤ (plus a c) (plus b d) ≡ true
add_mono a b c d h k = ground arith

pub add_zero : (a : ℤ) → plus a (pos 0) ≡ a
add_zero a = ground arith

pub sub_le : (a b : ℤ) → le_ℤ (pos 0) b ≡ true → le_ℤ (minus a b) a ≡ true
sub_le a b h = ground arith

pub neg_le : (a b : ℤ) → le_ℤ (neg_ℤ a) (neg_ℤ b) ≡ le_ℤ b a
neg_le (pos zero) (pos zero) = refl
neg_le (pos zero) (pos (suc n)) = ground arith
neg_le _ _ = ground arith

div_mono : (a m n : ℕ) → 1 ≤ m → m ≤ n → a / n ≤ a / m
div_mono a m n h k = (le-div_iff_mul-le h).1 (le_trans (grind arith) (div-mul-le_self a n))

pub recip_mono :
    (m n : ℕ) → 1 ≤ m → m ≤ n → le_ℤ (pos (1000000000 / n)) (pos (1000000000 / m)) ≡ true
recip_mono m n h k = ground (arith, div_mono 1000000000 m n h k)

pub zero_le : (n : ℕ) → le_ℤ (pos 0) (pos n) ≡ true
zero_le n = ground arith

pub times_nonneg : (n : ℕ) (a : ℤ) → le_ℤ (pos 0) a ≡ true → le_ℤ (pos 0) (scaled n a) ≡ true
times_nonneg n a h = ground arith

instance abbrev pub fixed : Floats
fixed = record {
  Float = ℤ;
  fle = le_ℤ;
  fadd = plus;
  fsub = minus;
  fneg = neg_ℤ;
  recip = λ n. pos (1000000000 / n);
  times = scaled;
  decimal = λ m e. pos (m * 1000000000 / 10 ^ e);
  fle_total = le_total;
  fle_trans = le_trans';
  fadd_mono = add_mono;
  fadd_zero = add_zero;
  fsub_le = sub_le;
  fneg_fle = neg_le;
  fneg_zero = refl;
  recip_nonneg = λ n. zero_le (1000000000 / n);
  recip_mono = recip_mono;
  decimal_nonneg = λ m e. zero_le (m * 1000000000 / 10 ^ e);
  times_nonneg = times_nonneg;
}
