-- ===== src/Core/Sweep.antt =====
-- The corner sweep and the accumulation arithmetic (crates/feldspar-core/src/propagation.rs, with
-- interval.rs and accuracy.rs), which python/feldspar/core.py passes on unchanged. The callback of
-- a sweep may change a state, as Python's closures do.
pub mod Corners
pub mod Covers
pub mod Keys
use feldspar.Prelude.{
  Option, none, some, String, Bool, List, [], ◌∷◌, ◌++◌, ◌&&◌, Result, ok, err, if◌then◌else◌, map,
}
use feldspar.Prelude.Dict.{Dict, lookup, insert}
use feldspar.Prelude.Dict.Sorted.{sorted}
use feldspar.Prelude.Float.{FloatOps, lt}
use feldspar.Core.{Interval, Accuracy}

module _ {F : Type 0} ⦃o : FloatOps F⦄ where
  -- `[lo - eps, hi + eps]`
  unfoldable pub inflate : Interval F → F → Interval F
  inflate iv eps = record { lo = o.sub iv.lo eps; hi = o.add iv.hi eps }

  -- `half_width(out_hull) + model_eps`
  unfoldable pub total_error : Interval F → F → F
  total_error iv eps = o.add (o.half (o.sub iv.hi iv.lo)) eps

  unfoldable pub is_subset : Interval F → Interval F → Bool
  is_subset iv outer = o.le outer.lo iv.lo && o.le iv.hi outer.hi

  -- Rust's `f64::min` and `f64::max`, on numbers
  abbrev pub lesser : F → F → F
  lesser a b = if lt b a then b else a

  abbrev pub greater : F → F → F
  greater a b = if lt a b then b else a

  unfoldable pub hull : Interval F → Interval F → Interval F
  hull a b = record { lo = lesser a.lo b.lo; hi = greater a.hi b.hi }

  -- `Interval::point` of a finite number. A sweep takes the numbers that its callback gives to be
  -- finite, as the source states, and asserts it; Plan.Step.Finite is about the executor's callback.
  unfoldable pub point : F → Interval F
  point x = record { lo = x; hi = x }

  -- The worst declared error over an interval.
  unfoldable pub worst_over : Accuracy F → Interval F → F
  worst_over a iv =
      let v = if o.le (o.abs iv.hi) (o.abs iv.lo) then iv.lo else iv.hi in
      o.add a.eps_abs (o.mul a.eps_rel (o.abs v))

  -- One value for a degenerate interval, two otherwise. In ascending order, so that the product
  -- below comes out sorted, as `corners.sort_by` leaves it.
  abbrev candidates : Interval F → List F
  candidates iv =
      if o.le iv.lo iv.hi && o.le iv.hi iv.lo
      then iv.lo ∷ []
      else if lt iv.hi iv.lo
      then iv.hi ∷ iv.lo ∷ []
      else iv.lo ∷ iv.hi ∷ []

  -- Each corner extended by each value at the port.
  extend : String → List F → List (Dict F) → List (Dict F)
  extend port vs [] = []
  extend port vs (c ∷ cs) = map (λ v. c ++ (port, v) ∷ []) vs ++ extend port vs cs

  product : Dict (Interval F) → List (Dict F) → List (Dict F)
  unfolding extend
  product [] corners = corners
  product (e ∷ box) corners = product box (extend e.0 (candidates e.1) corners)

  -- The corners of a box, ports in name order.
  unfoldable pub enumerate_corners : Dict (Interval F) → List (Dict F)
  unfolding product sorted
  enumerate_corners box = product (sorted box) ([] ∷ [])

  -- The interval at a port once one more output is there.
  abbrev pub grown : Option (Interval F) → F → Interval F
  grown none v = point v
  grown (some existing) v = hull existing (point v)

  -- The hull with one corner's outputs folded in.
  unfoldable pub fold_outputs : Dict F → Dict (Interval F) → Dict (Interval F)
  unfolding lookup insert hull point
  fold_outputs [] h = h
  fold_outputs (e ∷ outs) h = fold_outputs outs (insert e.0 (grown (lookup e.0 h) e.1) h)

  fold_all : List (Dict F) → Dict (Interval F) → Dict (Interval F)
  unfolding fold_outputs
  fold_all [] h = h
  fold_all (r ∷ rest) h = fold_all rest (fold_outputs r h)

  -- The fold half of a sweep, over results in corner order.
  unfoldable pub hull_from_results : List (Dict F) → Dict (Interval F)
  unfolding fold_all
  hull_from_results rs = fold_all rs []

  module _ {S E : Type 0} (eval : Dict F → S → Result (Dict F) E × S) where
    unfoldable pub sweep_from :
        List (Dict F) → Dict (Interval F) → S → Result (Dict (Interval F)) E × S
    unfolding fold_outputs
    sweep_from [] h s = (ok h, s)
    sweep_from (c ∷ cs) h s =
        let (r, s') = eval c s in
        elim r [ ok outs ↦ sweep_from cs (fold_outputs outs h) s' | err e ↦ (err e, s') ]

    -- Evaluates every corner in order and hulls the results; the first error ends the sweep.
    unfoldable pub corner_sweep : Dict (Interval F) → S → Result (Dict (Interval F)) E × S
    unfolding sweep_from enumerate_corners
    corner_sweep box s = sweep_from (enumerate_corners box) [] s
