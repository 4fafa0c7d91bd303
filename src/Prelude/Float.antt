-- ===== src/Prelude/Float.antt =====
-- Python's `float`: the carrier and its operations are a parameter of every definition that
-- computes with floats. `FloatLaws` names what IEEE numbers other than NaN satisfy; a theorem that
-- needs it takes it as a hypothesis. `Int` is a carrier on which the laws hold.
use mathlib.Core.Path.{◌≡◌}
use mathlib.Core.Logic.{◌⊎◌}
use mathlib.Core.Bool.{Bool, true, not, ◌&&◌}
use mathlib.Core.List.{List, [], ◌∷◌}
use feldspar.Prelude.Tests.{if◌then◌else◌}

pub record FloatOps (F : Type 0) : Type 0 where
  pub zero : F
  pub inf : F
  pub add : F → F → F
  pub sub : F → F → F
  pub mul : F → F → F
  pub div : F → F → F
  pub half : F → F
  pub neg : F → F
  pub abs : F → F
  pub le : F → F → Bool
  pub less : F → F → Bool
  pub is_finite : F → Bool

-- The order of floats other than NaN.
pub record FloatLaws (F : Type 0) (o : FloatOps F) : Type 0 where
  pub le_refl : (a : F) → o.le a a ≡ true
  pub le_trans : (a b c : F) → o.le a b ≡ true → o.le b c ≡ true → o.le a c ≡ true
  pub le_total : (a b : F) → (o.le a b ≡ true) ⊎ (o.le b a ≡ true)
  pub less_le : (a b : F) → o.less a b ≡ not (o.le b a)

-- Sums without rounding, as on floats that are integers of moderate size; NaN is not among them.
pub record ExactSums (F : Type 0) (o : FloatOps F) : Type 0 where
  pub add_assoc : (a b c : F) → o.add (o.add a b) c ≡ o.add a (o.add b c)
  pub add_comm : (a b : F) → o.add a b ≡ o.add b a
  pub add_zero : (a : F) → o.add a o.zero ≡ a
  pub add_neg : (a : F) → o.add a (o.neg a) ≡ o.zero
  pub sub_add : (a b : F) → o.sub a b ≡ o.add a (o.neg b)
  pub abs_neg : (a : F) → o.abs (o.neg a) ≡ o.abs a
  pub less_le : (a b : F) → o.less a b ≡ not (o.le b a)

-- What Python's float arithmetic raises: `/` by zero, and `**` out of range.
pub data ArithmeticError : Type 0 where
  zero_division overflow : ArithmeticError

module _ {F : Type 0} ⦃o : FloatOps F⦄ where
  -- `a < b`
  abbrev pub lt : F → F → Bool
  lt a b = o.less a b

  -- `a == b`
  abbrev pub eq : F → F → Bool
  eq a b = o.le a b && o.le b a

  -- `max(a, b)`: the first unless the second is greater.
  abbrev pub max : F → F → F
  max a b = if lt a b then b else a

  -- `max(xs, default=d)`
  abbrev pub max_of : F → List F → F
  max_of d [] = d
  max_of d (x ∷ []) = x
  max_of d (x ∷ y ∷ xs) = max_of d (max x y ∷ xs)
