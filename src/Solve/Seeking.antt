-- ===== src/Solve/Seeking.antt =====
-- Cost curves (python/feldspar/solve/seeking.py): the validators of a point and of a curve, and the
-- cost of a budget.
pub mod Falling
use feldspar.Prelude.{
  Bool, true, false, not, ◌&&◌, Option, none, some, List, [], ◌∷◌, keep, if◌then◌else◌, ◌||◌,
}
use feldspar.Prelude.Float.{FloatOps, lt}
use feldspar.Solve.Models.{CostPoint}

module _ {F : Type 0} ⦃o : FloatOps F⦄ where
  -- The constructor with its validators: `none` is the `ValueError`.
  unfoldable pub cost_point : F → F → Option (CostPoint F)
  cost_point eps cost =
      if lt eps o.zero || o.le cost o.zero then none else some (record { eps = eps; cost = cost })

  -- `epses == sorted(epses)`
  unfoldable pub is_ascending : List (CostPoint F) → Bool
  is_ascending [] = true
  is_ascending (p ∷ []) = true
  is_ascending (p ∷ q ∷ points) = o.le p.eps q.eps && is_ascending (q ∷ points)

  unfoldable pub cost_curve : List (CostPoint F) → Option (List (CostPoint F))
  unfolding is_ascending
  cost_curve [] = none
  cost_curve (p ∷ points) = if is_ascending (p ∷ points) then some (p ∷ points) else none

  -- `CostCurve.scalar`
  unfoldable pub scalar_curve : F → Option (List (CostPoint F))
  unfolding cost_curve cost_point
  scalar_curve cost = elim (cost_point o.zero cost) [ none ↦ none | some p ↦ cost_curve (p ∷ []) ]

  -- `max(p, *points, key=eps)`: the first of the greatest.
  unfoldable pub loosest : CostPoint F → List (CostPoint F) → CostPoint F
  loosest p [] = p
  loosest p (q ∷ points) = loosest (if lt p.eps q.eps then q else p) points

  -- `min(p, *points, key=eps)`: the first of the least.
  unfoldable pub finest : CostPoint F → List (CostPoint F) → CostPoint F
  finest p [] = p
  finest p (q ∷ points) = finest (if lt q.eps p.eps then q else p) points

  unfoldable pub cost_of_fitting : List (CostPoint F) → CostPoint F → List (CostPoint F) → F
  unfolding loosest finest
  cost_of_fitting [] p points = (finest p points).cost
  cost_of_fitting (q ∷ fitting) p points = (loosest q fitting).cost

  -- The cost of a budget on a curve; a curve that was validated has a first point.
  unfoldable pub cost_for_budget : CostPoint F → List (CostPoint F) → F → F
  unfolding cost_of_fitting
  cost_for_budget p points eps_budget =
      cost_of_fitting (keep (λ x. o.le x.eps eps_budget) (p ∷ points)) p points
