-- ===== src/Pack/Margin/Verdict.antt =====
-- What an answer of `_FeaModel.estimate` of python/feldspar/pack/models.py says of the engine's runs.
use feldspar.Prelude.{
  ◌+◌, ◌≡◌, refl, Bool, true, false, Option, some, none, [], ◌∷◌, Result, ok, err, length, arith,
  inl, inr, ◌⊎◌,
}
use feldspar.Prelude.Float.{FloatOps}
use feldspar.Plan.Models.{Solution}
use feldspar.Pack.Margin.{
  DischargeRequest, Prediction, Failure, engine_failed, margin_exhausted, attribute_error, predict,
  fail, estimate, is_settled, worst_corner, max_margin_attempts,
}
use feldspar.Pack.Margin.Rounds.{Log, logged, margin, seek-rounds}
use feldspar.Pack.Margin.Budgets.{is_settled-false}

module _ {F E : Type 0} ⦃o : FloatOps F⦄ (eps_budget : F) (upper : Bool)
    (q : DischargeRequest F) where
  -- What the latest runs must be for an answer.
  unfoldable pub IsVerdict : Result (Prediction F) (Failure F E) → Log F E → Type 0
  IsVerdict (ok p) ((budget, ok solution) ∷ log) =
      (p ≡ predict q solution (worst_corner upper solution))
      × ((is_settled (margin upper q solution) solution.eps budget ≡ true)
          ⊎ (length log + 1 ≡ max_margin_attempts))
  IsVerdict (err (engine_failed e)) ((budget, err e') ∷ []) = (budget ≡ eps_budget) × (e ≡ e')
  IsVerdict (err (margin_exhausted achieved needed limit e))
        ((budget, err e') ∷ (b, ok best) ∷ log) =
      (e ≡ e')
      × (limit ≡ q.limit)
      × (achieved ≡ best.eps)
      × (needed ≡ margin upper q best)
      × (budget ≡ needed)
      × (o.le needed o.zero ≡ false)
      × (o.le achieved needed ≡ false)
  IsVerdict r log = ⊥

  -- What a round starts from: no run and the first budget, or an unsettled run and its margin.
  unfoldable Starts : F → Option (Solution F) → Log F E → Type 0
  Starts budget none [] = budget ≡ eps_budget
  Starts budget (some best) ((b, ok solution) ∷ log) =
      (best ≡ solution)
      × (budget ≡ margin upper q best)
      × (o.le budget o.zero ≡ false)
      × (o.le best.eps budget ≡ false)
  Starts budget best log = ⊥

  unused_start :
      (budget : F) (log : Log F E)
      → Starts budget none log
      → length log ≡ max_margin_attempts
      → IsVerdict (err attribute_error) log
  unfolding Starts
  unused_start budget [] s h = absurd (omega arith)
  unused_start budget (e ∷ log) s h = absurd s

  bounded_start :
      (budget : F) (best : Solution F) (log : Log F E)
      → Starts budget (some best) log
      → length log ≡ max_margin_attempts
      → IsVerdict (ok (predict q best (worst_corner upper best))) log
  unfolding Starts IsVerdict
  bounded_start budget best [] s h = s
  bounded_start budget best ((b, err e) ∷ log) s h = s
  bounded_start budget best ((b, ok solution) ∷ log) s h = (cc, inr (omega arith))

  failed_start :
      {S : Type 0} (engine : F → S → Result (Solution F) E × S) (budget : F)
      (best : Option (Solution F)) (log : Log F E) (e : E)
      → Starts budget best log
      → IsVerdict (err (fail engine eps_budget upper q best e)) ((budget, err e) ∷ log)
  unfolding Starts IsVerdict fail
  failed_start engine budget none [] e s = (s, refl)
  failed_start engine budget none ((b, r) ∷ log) e s = s
  failed_start engine budget (some best) [] e s = s
  failed_start engine budget (some best) ((b, err e') ∷ log) e s = s
  failed_start engine budget (some best) ((b, ok solution) ∷ log) e s =
      (refl, refl, rw s.0 refl, rw s.0 refl, s.1, rw (← s.1) s.2, rw (← s.1) s.3)

module _ {F S E : Type 0} ⦃o : FloatOps F⦄ (engine : F → S → Result (Solution F) E × S)
    (eps_budget : F) (upper : Bool) (q : DischargeRequest F) where
  -- For every engine: a prediction is made of the latest solution, and either a reason to stop
  -- holds there or all attempts are used. A plain failure is of the first run, which had the loose
  -- budget. An exhausted margin names the eps that the run before achieved and the margin that it
  -- left, which is the budget that failed, is not at or below zero and not at or above that eps.
  -- There is no other answer.
  pub estimate-IsVerdict :
      (s : S)
      → let run = estimate (logged engine) eps_budget upper q (s, []) in
        IsVerdict eps_budget upper q run.0 run.1.1
  unfolding estimate Starts IsVerdict
  estimate-IsVerdict s =
      seek-rounds engine eps_budget upper q
        (λ n budget best log.
          Starts eps_budget upper q budget best log × (n + length log ≡ max_margin_attempts))
        (λ answer log. IsVerdict eps_budget upper q answer log)
        (λ budget log i. unused_start eps_budget upper q budget log i.0 (omega arith))
        (λ budget best log i. bounded_start eps_budget upper q budget best log i.0 (omega arith))
        (λ n budget best log e i. failed_start eps_budget upper q engine budget best log e i.0)
        (λ n budget best log solution i g. (refl, inl g))
        (λ n budget best log solution i g.
          let u = is_settled-false (margin upper q solution) solution.eps budget g in
          ((refl, refl, u.0, u.1), omega arith))
        max_margin_attempts eps_budget none s [] (refl, refl)
