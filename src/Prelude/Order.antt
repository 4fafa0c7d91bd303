-- ===== src/Prelude/Order.antt =====
-- Python's order on `str` (by code points) is a strict total order.
use Prim.Native.Nat.{ℕ, Ordering, compare as compare_ℕ}
use Prim.Native.Char.{code}
use Prim.Native.String.compare
use Prim.Native.String.{String, compare, then}
use mathlib.Core.Path.{◌≡◌, refl, sym, ap, ◌∙◌}
use mathlib.Core.Logic.{◌⊎◌}
use mathlib.Core.Bool.{Bool, true, false}
use native.Mathlib.Omega.{arith}
use text.Mathlib.Text.{is_lt}
use text.Mathlib.TextEquality.{path_by_compare}
use text.Mathlib.TextPositions.{compare_refl}

-- `a < b`
abbrev pub before : String → String → Bool
before a b = is_lt (compare a b)

pub before_irrefl : (a : String) → before a a ≡ false
before_irrefl a = rw compare_refl

flip : Ordering → Ordering
flip Ordering.lt = Ordering.gt
flip Ordering.eq = Ordering.eq
flip Ordering.gt = Ordering.lt

flip-compare_ℕ : (m n : ℕ) → compare_ℕ n m ≡ flip (compare_ℕ m n)
unfolding flip
flip-compare_ℕ m n = ground arith

flip-then : (o r : Ordering) → flip (then o r) ≡ then (flip o) (flip r)
unfolding flip
flip-then Ordering.lt r = refl
flip-then Ordering.eq r = refl
flip-then Ordering.gt r = refl

flip-compare : (a b : String) → compare b a ≡ flip (compare a b)
unfolding flip
flip-compare String.[] String.[] = rw compare.nil-nil refl
flip-compare String.[] (String.◌∷◌ d t) = rw (compare.nil-cons, compare.cons-nil) refl
flip-compare (String.◌∷◌ c s) String.[] = rw (compare.nil-cons, compare.cons-nil) refl
flip-compare (String.◌∷◌ c s) (String.◌∷◌ d t) =
    compare.cons-cons d c t s
    ∙ ap (λ o. then o (compare t s)) (flip-compare_ℕ (code c) (code d))
    ∙ ap (then (flip (compare_ℕ (code c) (code d)))) (flip-compare s t)
    ∙ sym (flip-then (compare_ℕ (code c) (code d)) (compare s t))
    ∙ ap flip (sym (compare.cons-cons c d s t))

then_trans :
    (m n k : ℕ) (r s t : Ordering)
    → is_lt (then (compare_ℕ m n) r) ≡ true
    → is_lt (then (compare_ℕ n k) s) ≡ true
    → (is_lt r ≡ true → is_lt s ≡ true → is_lt t ≡ true)
    → is_lt (then (compare_ℕ m k) t) ≡ true
then_trans m n k r s t h g next = ground arith

pub before_trans : (a b c : String) → before a b ≡ true → before b c ≡ true → before a c ≡ true
before_trans String.[] String.[] c h g = cc
before_trans String.[] (String.◌∷◌ d t) String.[] h g = rw compare.cons-nil at g
before_trans String.[] (String.◌∷◌ d t) (String.◌∷◌ e u) h g = rw compare.nil-cons
before_trans (String.◌∷◌ c s) String.[] k h g = cc (rw compare.cons-nil at h)
before_trans (String.◌∷◌ c s) (String.◌∷◌ d t) String.[] h g = cc (rw compare.cons-nil at g)
before_trans (String.◌∷◌ c s) (String.◌∷◌ d t) (String.◌∷◌ e u) h g = rw compare.cons-cons (
    then_trans (code c) (code d) (code e) (compare s t) (compare t u) (compare s u)
      (rw compare.cons-cons at h) (rw compare.cons-cons at g) (before_trans s t u))

pub before_asymm : (a b : String) → before a b ≡ true → before b a ≡ false
unfolding flip
before_asymm a b h = ground (arith, flip-compare a b)

pub before_total : (a b : String) → before a b ≡ false → (a ≡ b) ⊎ (before b a ≡ true)
unfolding flip
before_total a b h = ground (arith, flip-compare a b, path_by_compare a b)
