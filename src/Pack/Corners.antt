-- ===== src/Pack/Corners.antt =====
-- The models of python/feldspar/pack/models.py that sweep the corners of their inputs themselves: the
-- tip stiffness and the rail voltage. Their formulas, of the Rust core, are parameters. `Product`
-- and `Hull` are about the sweep.
pub mod Product
pub mod Hull
use feldspar.Prelude.{
  ℕ, String, Bool, true, false, not, ◌||◌, Option, none, some, List, [], ◌∷◌, ◌++◌, Result, ok, err,
  ◌>>=◌, map, if◌then◌else◌,
}
use feldspar.Prelude.Dict.{Dict, lookup}
use feldspar.Prelude.Float.{FloatOps, lt, eq, max}
use feldspar.Core.{Interval}

module _ {F : Type 0} ⦃o : FloatOps F⦄ where
  -- `sorted({lo, hi})`
  unfoldable pub corner_values : F × F → List F
  corner_values (lo, hi) =
      if eq lo hi then lo ∷ [] else if o.le lo hi then lo ∷ hi ∷ [] else hi ∷ lo ∷ []

  -- `itertools.product`, the first list slowest.
  unfoldable pub each_with : List F → List (List F) → List (List F)
  each_with [] combos = []
  each_with (x ∷ xs) combos = map (λ c. x ∷ c) combos ++ each_with xs combos

  unfoldable pub product : List (List F) → List (List F)
  unfolding each_with
  product [] = [] ∷ []
  product (xs ∷ sets) = each_with xs (product sets)

  -- `min(a, b)`: the first unless the second is less.
  abbrev pub min : F → F → F
  min a b = if lt b a then b else a

  module _ (compute : List F → F × F) (is_bad : F → Bool) where
    -- The loop over the corners, with the hull of what is folded so far; an error is a corner and
    -- its guard value.
    unfoldable pub sweep_corners : List (List F) → F → F → Result (F × F) (List F × F)
    sweep_corners [] lo_hull hi_hull = ok (lo_hull, hi_hull)
    sweep_corners (combo ∷ combos) lo_hull hi_hull =
        let (guard_value, fold_value) = compute combo in
        let rest = sweep_corners combos (min lo_hull fold_value) (max hi_hull fold_value) in
        if is_bad guard_value then err (combo, guard_value) else rest

    -- `_finite_corner_sweep`
    unfoldable pub finite_corner_sweep : List (F × F) → Result (F × F) (List F × F)
    unfolding sweep_corners product corner_values
    finite_corner_sweep bounds =
        sweep_corners (product (map corner_values bounds)) o.inf (o.neg o.inf)

-- How an estimate ends without a number.
pub data EstimateError (F : Type 0) : Type 0 where
  missing_input : (name : String) → EstimateError F
  out_of_range : (name : String) (lo : F) → EstimateError F
  bad_corner : (metric : String) (combo : List F) (guard_value : F) → EstimateError F

module _ {F : Type 0} ⦃o : FloatOps F⦄ where
  -- `request.inputs[name]`
  unfoldable pub input_of : Dict (Interval F) → String → Result (Interval F) (EstimateError F)
  unfolding lookup
  input_of inputs name = elim (lookup name inputs) [
    | none ↦ err (missing_input name)
    | some x ↦ ok x
  ]

  unfoldable pub require : Bool → String → Interval F → Result (Interval F) (EstimateError F)
  require good name x = if good then ok x else err (out_of_range name x.lo)

  unfoldable pub named_corner :
      {A : Type 0} → String → Result A (List F × F) → Result A (EstimateError F)
  named_corner metric (ok a) = ok a
  named_corner metric (err e) = err (bad_corner metric e.0 e.1)

  abbrev pub ends_of : Interval F → F × F
  ends_of x = (x.lo, x.hi)

  -- The deflection under a unit force and its reciprocal, of the corner `(e, i, length)`.
  unfoldable pub stiffness_at : F → (F → F → F → F → F) → List F → F × F
  stiffness_at one cantilever_tip_deflection (e ∷ i ∷ length ∷ _) =
      let deflection = cantilever_tip_deflection one length e i in
      (deflection, if not (eq deflection o.zero) then o.div one deflection else o.inf)
  stiffness_at one cantilever_tip_deflection _ = (o.zero, o.zero)

  unfoldable pub is_bad_deflection : F → Bool
  is_bad_deflection deflection = not (o.is_finite deflection) || o.le deflection o.zero

  -- `MechStiffnessModel.estimate`: the value of its prediction, which has no eps.
  unfoldable pub estimate_stiffness :
      F → (F → F → F → F → F) → Dict (Interval F) → Result F (EstimateError F)
  unfolding input_of require named_corner stiffness_at is_bad_deflection finite_corner_sweep
  estimate_stiffness one cantilever_tip_deflection inputs = do
    e_modulus ← input_of inputs "e_modulus"
    i_area ← input_of inputs "i_area"
    length ← input_of inputs "length"
    _ ← require (not (o.le e_modulus.lo o.zero)) "e_modulus" e_modulus
    _ ← require (not (o.le i_area.lo o.zero)) "i_area" i_area
    _ ← require (not (o.le length.lo o.zero)) "length" length
    hull ← named_corner "deflection" (
        finite_corner_sweep (stiffness_at one cantilever_tip_deflection) is_bad_deflection
          (ends_of e_modulus ∷ ends_of i_area ∷ ends_of length ∷ []))
    ok hull.0

  -- The voltage of the corner `(vin, r1, r2, rload)`, as guard and as value.
  unfoldable pub vout_at : (F → F → F → F → F) → List F → F × F
  vout_at divider_loaded_vout (v ∷ a ∷ b ∷ c ∷ _) =
      let vout = divider_loaded_vout v a b c in (vout, vout)
  vout_at divider_loaded_vout _ = (o.zero, o.zero)

  -- `ElecRailModel.estimate`, likewise.
  unfoldable pub estimate_rail :
      (F → F → F → F → F) → Bool → Dict (Interval F) → Result F (EstimateError F)
  unfolding input_of require named_corner vout_at finite_corner_sweep
  estimate_rail divider_loaded_vout upper inputs = do
    vin ← input_of inputs "vin"
    r1 ← input_of inputs "r1"
    r2 ← input_of inputs "r2"
    rload ← input_of inputs "rload"
    _ ← require (not (lt vin.lo o.zero)) "vin" vin
    _ ← require (not (o.le r1.lo o.zero)) "r1" r1
    _ ← require (not (o.le r2.lo o.zero)) "r2" r2
    _ ← require (not (o.le rload.lo o.zero)) "rload" rload
    hull ← named_corner "vout" (
        finite_corner_sweep (vout_at divider_loaded_vout) (λ vout. not (o.is_finite vout))
          (ends_of vin ∷ ends_of r1 ∷ ends_of r2 ∷ ends_of rload ∷ []))
    ok (if upper then hull.1 else hull.0)
