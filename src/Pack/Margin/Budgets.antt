-- ===== src/Pack/Margin/Budgets.antt =====
-- The budgets that `_FeaModel.estimate` of python/feldspar/pack/models.py asks its engine for.
use feldspar.Prelude.{◌+◌, ◌≤◌, ◌≡◌, Bool, false, none, [], ◌∷◌, Result, length, arith}
use feldspar.Prelude.Float.{FloatOps}
use feldspar.Plan.Models.{Solution}
use feldspar.Pack.Margin.{DischargeRequest, estimate, is_settled, max_margin_attempts}
use feldspar.Pack.Margin.Rounds.{Log, logged, margin, seek-rounds}

module _ {F E : Type 0} ⦃o : FloatOps F⦄ where
  -- A budget that may come next: the first one, or one that is neither at or below zero nor at or
  -- above the latest.
  unfoldable FollowsOn : F → Log F E → Type 0
  FollowsOn b [] = Unit
  FollowsOn b (e ∷ log) = (o.le b o.zero ≡ false) × (o.le e.0 b ≡ false)

  -- No budget after the first one is at or below zero, or at or above the one before it.
  unfoldable pub Descends : Log F E → Type 0
  unfolding FollowsOn
  Descends [] = Unit
  Descends (e ∷ log) = FollowsOn e.0 log × Descends log

module _ {F : Type 0} ⦃o : FloatOps F⦄ where
  -- What an unsettled round says of its next budget.
  pub is_settled-false :
      (needed eps budget : F)
      → is_settled needed eps budget ≡ false
      → (o.le needed o.zero ≡ false) × (o.le eps needed ≡ false) × (o.le budget needed ≡ false)
  unfolding is_settled
  is_settled-false needed eps budget h = ground arith

module _ {F S E : Type 0} ⦃o : FloatOps F⦄ (engine : F → S → Result (Solution F) E × S)
    (eps_budget : F) (upper : Bool) (q : DischargeRequest F) where
  -- For every engine: it is asked at most four times, and no budget after the first one is at or
  -- below zero, or at or above the one before it.
  pub estimate-Descends :
      (s : S)
      → let log = (estimate (logged engine) eps_budget upper q (s, [])).1.1 in
        Descends log × (length log ≤ max_margin_attempts)
  unfolding estimate FollowsOn Descends
  estimate-Descends s =
      seek-rounds engine eps_budget upper q
        (λ n budget best log.
          FollowsOn budget log × Descends log × (n + length log ≤ max_margin_attempts))
        (λ answer log. Descends log × (length log ≤ max_margin_attempts))
        (λ budget log i. (i.1, omega arith)) (λ budget best log i. (i.1, omega arith))
        (λ n budget best log e i. ((i.0, i.1), omega arith))
        (λ n budget best log solution i g. ((i.0, i.1), omega arith))
        (λ n budget best log solution i g.
          let u = is_settled-false (margin upper q solution) solution.eps budget g in
          ((u.0, u.2), (i.0, i.1), omega arith))
        max_margin_attempts eps_budget none s [] (tt, tt, omega arith)
