-- ===== src/Prelude/Int.antt =====
-- Integers over the native numbers, as a carrier of `FloatOps` on which the theorems are applied.
-- Every integer is finite; a division rounds towards zero.
use Prim.Native.Nat.{ℕ, suc, ◌+◌, ◌-◌, ◌*◌, ◌/◌}
use mathlib.Core.Path.{◌≡◌, refl}
use mathlib.Core.Logic.{◌⊎◌}
use mathlib.Core.Bool.{Bool, true, not}
use native.Mathlib.Omega.{arith}
use feldspar.Prelude.Tests.{if◌then◌else◌, leb}
use feldspar.Prelude.Float.{FloatOps, FloatLaws, ExactSums}

-- `negsuc n` is -(n + 1).
pub data ℤ : Type 0 where
  pos : ℕ → ℤ
  negsuc : ℕ → ℤ

abbrev pub pos_part : ℤ → ℕ
pos_part (pos n) = n
pos_part (negsuc n) = 0

abbrev pub neg_part : ℤ → ℕ
neg_part (pos n) = 0
neg_part (negsuc n) = suc n

-- a - b, as an integer
abbrev sub_ℕ : ℕ → ℕ → ℤ
sub_ℕ a b = if leb b a then pos (a - b) else negsuc (b - a - 1)

abbrev add_ℤ : ℤ → ℤ → ℤ
add_ℤ a b = sub_ℕ (pos_part a + pos_part b) (neg_part a + neg_part b)

abbrev negate : ℤ → ℤ
negate a = sub_ℕ (neg_part a) (pos_part a)

abbrev magnitude : ℤ → ℕ
magnitude a = pos_part a + neg_part a

abbrev mul_ℤ : ℤ → ℤ → ℤ
mul_ℤ a b =
    sub_ℕ (pos_part a * pos_part b + neg_part a * neg_part b)
      (pos_part a * neg_part b + neg_part a * pos_part b)

abbrev div_ℤ : ℤ → ℤ → ℤ
div_ℤ a b = sub_ℕ (pos_part a / magnitude b) (neg_part a / magnitude b)

abbrev le_ℤ : ℤ → ℤ → Bool
le_ℤ a b = leb (pos_part a + neg_part b) (pos_part b + neg_part a)

instance abbrev pub int_floats : FloatOps ℤ
int_floats = record {
  zero = pos 0;
  inf = pos 1_000_000_000;
  add = add_ℤ;
  sub = λ a b. add_ℤ a (negate b);
  mul = mul_ℤ;
  div = div_ℤ;
  half = λ a. div_ℤ a (pos 2);
  neg = negate;
  abs = λ a. pos (magnitude a);
  le = le_ℤ;
  less = λ a b. not (le_ℤ b a);
  is_finite = λ _. true;
}

le_refl_ℤ : (a : ℤ) → le_ℤ a a ≡ true
le_refl_ℤ a = ground arith

le_trans_ℤ : (a b c : ℤ) → le_ℤ a b ≡ true → le_ℤ b c ≡ true → le_ℤ a c ≡ true
le_trans_ℤ a b c h g = ground arith

le_total_ℤ : (a b : ℤ) → (le_ℤ a b ≡ true) ⊎ (le_ℤ b a ≡ true)
le_total_ℤ a b = ground arith

pub int_laws : FloatLaws ℤ int_floats
int_laws = record {
  le_refl = le_refl_ℤ;
  le_trans = le_trans_ℤ;
  le_total = le_total_ℤ;
  less_le = λ a b. refl;
}

add_assoc_ℤ : (a b c : ℤ) → add_ℤ (add_ℤ a b) c ≡ add_ℤ a (add_ℤ b c)
add_assoc_ℤ a b c = ground arith

add_comm_ℤ : (a b : ℤ) → add_ℤ a b ≡ add_ℤ b a
add_comm_ℤ a b = ground arith

add_zero_ℤ : (a : ℤ) → add_ℤ a (pos 0) ≡ a
add_zero_ℤ a = ground arith

add_neg_ℤ : (a : ℤ) → add_ℤ a (negate a) ≡ pos 0
add_neg_ℤ a = ground arith

abs_neg_ℤ : (a : ℤ) → pos (magnitude (negate a)) ≡ pos (magnitude a)
abs_neg_ℤ a = ground arith

pub int_sums : ExactSums ℤ int_floats
int_sums = record {
  add_assoc = add_assoc_ℤ;
  add_comm = add_comm_ℤ;
  add_zero = add_zero_ℤ;
  add_neg = add_neg_ℤ;
  sub_add = λ a b. refl;
  abs_neg = abs_neg_ℤ;
  less_le = λ a b. refl;
}
