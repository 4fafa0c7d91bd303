-- ===== src/Pack/Margin/Decision.antt =====
-- `_FeaModel.estimate` of python/feldspar/pack/models.py with an engine that meets every budget.
use feldspar.Prelude.{◌≡◌, Bool, true, Result, ok, ◌⊎◌}
use feldspar.Prelude.Float.{FloatOps}
use feldspar.Plan.Models.{Solution}
use feldspar.Pack.Margin.{DischargeRequest, Prediction, worst_corner, margin_needed}

module _ {F S E : Type 0} ⦃o : FloatOps F⦄ (engine : F → S → Result (Solution F) E × S)
    (eps_budget : F) (upper : Bool) (q : DischargeRequest F) where
  -- The engine answers each budget from zero on with an eps from zero on and within it, and always
  -- finds the value `v`.
  unfoldable pub MeetsBudgets : F → Type 0
  unfolding worst_corner
  MeetsBudgets v =
      (budget : F) (s : S)
      → o.le o.zero budget ≡ true
      → (solution : Solution F) × ((engine budget s).0 ≡ ok solution)
        × (o.le solution.eps budget ≡ true)
        × (o.le o.zero solution.eps ≡ true)
        × (worst_corner upper solution ≡ v)

  -- The margin at `v` is not positive, or the eps is within it.
  unfoldable pub IsDecided : F → Prediction F → Type 0
  IsDecided v p =
      let needed = margin_needed upper v q.limit in
      (p.value ≡ v) × ((o.le needed o.zero ≡ true) ⊎ (o.le p.eps needed ≡ true))
