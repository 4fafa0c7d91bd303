-- ===== src/Pack/Margin.antt =====
-- `_FeaModel.estimate` of python/feldspar/pack/models.py: it solves with a loose budget first, and
-- then with the margin that the claim leaves. The engine (`solve` with its caches as a state), the
-- interval type of the other program and the texts of messages are parameters or left out.
-- `Rounds` is an induction, `Budgets` is about the budgets that it asks for, `Verdict` about its answer, `Decision` about an engine that meets every budget.
pub mod Rounds
pub mod Budgets
pub mod Verdict
pub mod Decision
use feldspar.Prelude.{
  ℕ, zero, suc, String, Bool, true, false, not, ◌&&◌, ◌||◌, Option, none, some, List, [], ◌∷◌,
  Result, ok, err, keep, if◌then◌else◌,
}
use feldspar.Prelude.Dict.{Dict}
use feldspar.Prelude.Dict.Sorted.{sorted}
use feldspar.Prelude.Float.{FloatOps, eq}
use feldspar.Core.{Interval}
use feldspar.Plan.Models.{Solution}

pub record DischargeRequest (F : Type 0) : Type 0 where
  pub inputs : Dict (Interval F)
  pub limit : F

pub record Prediction (F : Type 0) : Type 0 where
  pub value : F
  pub eps : F
  pub coverage_axes : List (String × Interval F)
  pub settings_digest : String

-- The two failures, and the read of `None` after a loop with no round.
pub data Failure (F E : Type 0) : Type 0 where
  engine_failed : E → Failure F E
  margin_exhausted : (achieved needed limit : F) → E → Failure F E
  attribute_error : Failure F E

-- `_MAX_MARGIN_ATTEMPTS`
abbrev pub max_margin_attempts : ℕ
max_margin_attempts = 4

module _ {F : Type 0} ⦃o : FloatOps F⦄ where
  -- The swept inputs, by name.
  unfoldable pub structured_coverage : DischargeRequest F → List (String × Interval F)
  structured_coverage q = keep (λ e. not (eq e.1.lo e.1.hi)) (sorted q.inputs)

  -- `_margin_needed`
  unfoldable pub margin_needed : Bool → F → F → F
  margin_needed upper value limit = if upper then o.sub limit value else o.sub value limit

  unfoldable pub worst_corner : Bool → Solution F → F
  worst_corner upper solution = if upper then solution.value.hi else solution.value.lo

  -- The three ends of the loop.
  unfoldable pub is_settled : F → F → F → Bool
  is_settled needed eps budget = o.le needed o.zero || o.le eps needed || o.le budget needed

  unfoldable pub predict : DischargeRequest F → Solution F → F → Prediction F
  unfolding structured_coverage
  predict q solution value = record {
    value = value;
    eps = solution.eps;
    coverage_axes = structured_coverage q;
    settings_digest = solution.settings_digest;
  }

module _ {F S E : Type 0} ⦃o : FloatOps F⦄ (engine : F → S → Result (Solution F) E × S)
    (eps_budget : F) (upper : Bool) (q : DischargeRequest F) where
  unfoldable pub fail : Option (Solution F) → E → Failure F E
  unfolding margin_needed worst_corner
  fail none e = engine_failed e
  fail (some best) e =
      margin_exhausted best.eps (margin_needed upper (worst_corner upper best) q.limit) q.limit e

  -- The attempts that are left, the budget, the best solution and the engine's state.
  unfoldable pub seek : ℕ → F → Option (Solution F) → S → Result (Prediction F) (Failure F E) × S
  unfolding fail predict is_settled margin_needed worst_corner
  seek zero budget none s = (err attribute_error, s)
  seek zero budget (some best) s = (ok (predict q best (worst_corner upper best)), s)
  seek (suc n) budget best s =
      let (res, s') = engine budget s in
      elim res [
        | err e ↦ (err (fail best e), s')
        | ok solution ↦
            let value = worst_corner upper solution in
            let needed = margin_needed upper value q.limit in
            elim (is_settled needed solution.eps budget) [
              | true ↦ (ok (predict q solution value), s')
              | false ↦ seek n needed (some solution) s'
            ]
      ]

  unfoldable pub estimate : S → Result (Prediction F) (Failure F E) × S
  unfolding seek
  estimate s = seek max_margin_attempts eps_budget none s
