-- ===== src/Fea/Ladder.antt =====
-- `RungCache` and `climb_richardson_ladder` of python/feldspar/fea/ladder.py. The two `RuntimeError`s
-- are values of the result; the pair's extrapolation, at an order at which it does not raise, and the
-- hash of a rung's key are parameters.
pub mod Cached
pub mod Budget
pub mod Ran
pub mod Served
pub mod Reuse
use feldspar.Prelude.{
  ℕ, suc, String, Bool, true, false, Option, none, some, List, [], ◌∷◌, Result, ok, err,
}
use feldspar.Prelude.Dict.{Dict, lookup, insert}
use feldspar.Prelude.Float.{FloatOps, lt}
use feldspar.Solve.Errors.{SolveError}
use feldspar.Fea.Richardson.{RichardsonResult}

pub record RungCache (F : Type 0) : Type 0 where
  pub store : Dict F
  pub hits : ℕ
  pub misses : ℕ

unfoldable pub rung_get : {F : Type 0} → String → RungCache F → Option F × RungCache F
unfolding lookup
rung_get key c = elim (lookup key c.store) [
  | none ↦ (none, record c { misses = suc c.misses })
  | some value ↦ (some value, record c { hits = suc c.hits })
]

unfoldable pub rung_put : {F : Type 0} → String → F → RungCache F → RungCache F
unfolding insert
rung_put key value c = record c { store = insert key value c.store }

-- How a climb ends: a value with its error and the rungs run, an error value, or an exception.
pub data Climb (F : Type 0) : Type 0 where
  climbed : (value eps : F) (rungs_run : ℕ) → Climb F
  failed : SolveError F → Climb F
  non_monotone too_few_rungs : Climb F

module _ {F R : Type 0} ⦃o : FloatOps F⦄ (run_rung : R → Result F (SolveError F)) (key : R → String)
    (extrapolate : F → F → RichardsonResult F) where
  unfoldable pub store_run :
      String
      → RungCache F
      → Result F (SolveError F)
      → Result F (SolveError F) × Option (RungCache F)
  unfolding rung_put
  store_run k c (ok value) = (ok value, some (rung_put k value c))
  store_run k c (err e) = (err e, some c)

  unfoldable pub or_run :
      R → Option F × RungCache F → Result F (SolveError F) × Option (RungCache F)
  unfolding store_run
  or_run rung (some value, c) = (ok value, some c)
  or_run rung (none, c) = store_run (key rung) c (run_rung rung)

  -- `_run`
  unfoldable pub run_cached :
      R → Option (RungCache F) → Result F (SolveError F) × Option (RungCache F)
  unfolding rung_get or_run
  run_cached rung none = (run_rung rung, none)
  run_cached rung (some c) = or_run rung (rung_get (key rung) c)

  -- `prev_eps is not None and pair.eps > prev_eps`
  unfoldable pub is_worse : Option F → F → Bool
  is_worse none eps = false
  is_worse (some prev_eps) eps = lt prev_eps eps

  -- `pair.eps <= eps_budget`, or no budget to seek
  unfoldable pub fits : Option F → F → Bool
  fits none eps = true
  fits (some budget) eps = o.le eps budget

  abbrev best_of : Option F → F
  best_of none = o.inf
  best_of (some eps) = eps

  -- The loop from rung `i` on.
  unfoldable pub climb_from :
      Option F → F → Option F → ℕ → List R → Option (RungCache F) → Climb F × Option (RungCache F)
  unfolding run_cached is_worse fits
  climb_from budget prev_value prev_eps i [] cache =
      (failed (SolveError.ladder_exhausted (best_of prev_eps) budget i), cache)
  climb_from budget prev_value prev_eps i (rung ∷ rungs) cache =
      let (res, cache') = run_cached rung cache in
      elim res [
        | err e ↦ (failed e, cache')
        | ok value ↦
            let pair = extrapolate prev_value value in
            elim (is_worse prev_eps pair.eps) [
              | true ↦ (non_monotone, cache')
              | false ↦ elim (fits budget pair.eps) [
                | true ↦ (climbed pair.extrapolated pair.eps (suc i), cache')
                | false ↦ climb_from budget value (some pair.eps) (suc i) rungs cache'
              ]
            ]
      ]

  -- The first rung has nothing to pair with.
  unfoldable pub climb_richardson_ladder :
      List R → Option F → Option (RungCache F) → Climb F × Option (RungCache F)
  unfolding climb_from run_cached
  climb_richardson_ladder [] budget cache = (too_few_rungs, cache)
  climb_richardson_ladder (rung ∷ []) budget cache = (too_few_rungs, cache)
  climb_richardson_ladder (first ∷ rung ∷ rungs) budget cache =
      let (res, cache') = run_cached first cache in
      elim res [
        | err e ↦ (failed e, cache')
        | ok value ↦ climb_from budget value none 1 (rung ∷ rungs) cache'
      ]
