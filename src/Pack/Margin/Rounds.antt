-- ===== src/Pack/Margin/Rounds.antt =====
-- Induction over the rounds of `_FeaModel.estimate` of python/feldspar/pack/models.py, on the log of
-- what its engine was asked for and what it gave.
use feldspar.Prelude.{
  ℕ, zero, suc, ◌≡◌, Bool, true, false, Bool-cases, Option, none, some, List, ◌∷◌, Result, ok, err,
  Result-cases, inl, inr,
}
use feldspar.Prelude.Float.{FloatOps}
use feldspar.Plan.Models.{Solution}
use feldspar.Pack.Margin.{
  DischargeRequest, Prediction, Failure, attribute_error, predict, fail, seek, is_settled,
  margin_needed, worst_corner,
}

-- The runs of an engine, the latest first: the budget and what it gave.
abbrev pub Log : Type 0 → Type 0 → Type 0
Log F E = List (F × Result (Solution F) E)

-- An engine that keeps its runs.
unfoldable pub logged :
    {F S E : Type 0}
    → (F → S → Result (Solution F) E × S)
    → F
    → S × Log F E
    → Result (Solution F) E × (S × Log F E)
logged engine budget (s, log) = let (res, s') = engine budget s in (res, (s', (budget, res) ∷ log))

-- The margin that a solution leaves.
abbrev pub margin : {F : Type 0} → ⦃o : FloatOps F⦄ → Bool → DischargeRequest F → Solution F → F
margin upper q solution = margin_needed upper (worst_corner upper solution) q.limit

module _ {F S E : Type 0} ⦃o : FloatOps F⦄ (engine : F → S → Result (Solution F) E × S)
    (eps_budget : F) (upper : Bool) (q : DischargeRequest F) where
  pub seek-failed :
      (n : ℕ) (budget : F) (best : Option (Solution F)) (s : S) (e : E)
      → (engine budget s).0 ≡ err e
      → seek engine eps_budget upper q (suc n) budget best s
        ≡ (err (fail engine eps_budget upper q best e), (engine budget s).1)
  unfolding seek
  seek-failed n budget best s e h = rw (h, seek)

  pub seek-settled :
      (n : ℕ) (budget : F) (best : Option (Solution F)) (s : S) (solution : Solution F)
      → (engine budget s).0 ≡ ok solution
      → is_settled (margin upper q solution) solution.eps budget ≡ true
      → seek engine eps_budget upper q (suc n) budget best s
        ≡ (ok (predict q solution (worst_corner upper solution)), (engine budget s).1)
  unfolding seek
  seek-settled n budget best s solution h g = rw (h, seek, g)

  pub seek-unsettled :
      (n : ℕ) (budget : F) (best : Option (Solution F)) (s : S) (solution : Solution F)
      → (engine budget s).0 ≡ ok solution
      → is_settled (margin upper q solution) solution.eps budget ≡ false
      → seek engine eps_budget upper q (suc n) budget best s
        ≡ seek engine eps_budget upper q n
            (margin upper q solution)
            (some solution)
            (engine budget s).1
  unfolding seek
  seek-unsettled n budget best s solution h g = rw (h, seek, g)

module _ {F S E : Type 0} ⦃o : FloatOps F⦄ (engine : F → S → Result (Solution F) E × S)
    (eps_budget : F) (upper : Bool) (q : DischargeRequest F)
    (I : ℕ → F → Option (Solution F) → Log F E → Type 0)
    (P : Result (Prediction F) (Failure F E) → Log F E → Type 0)
    (unused : (budget : F) (log : Log F E) → I zero budget none log → P (err attribute_error) log)
    (bounded : (budget : F) (best : Solution F) (log : Log F E)
      → I zero budget (some best) log
      → P (ok (predict q best (worst_corner upper best))) log)
    (failed : (n : ℕ) (budget : F) (best : Option (Solution F)) (log : Log F E) (e : E)
      → I (suc n) budget best log
      → P (err (fail engine eps_budget upper q best e)) ((budget, err e) ∷ log))
    (settled : (n : ℕ) (budget : F) (best : Option (Solution F)) (log : Log F E)
        (solution : Solution F)
      → I (suc n) budget best log
      → is_settled (margin upper q solution) solution.eps budget ≡ true
      → P (ok (predict q solution (worst_corner upper solution))) ((budget, ok solution) ∷ log))
    (unsettled : (n : ℕ) (budget : F) (best : Option (Solution F)) (log : Log F E)
        (solution : Solution F)
      → I (suc n) budget best log
      → is_settled (margin upper q solution) solution.eps budget ≡ false
      → I n (margin upper q solution) (some solution) ((budget, ok solution) ∷ log)) where
  -- A property of the log and of the round that comes next, which each round keeps, and which each
  -- way out turns into `P`.
  pub seek-rounds :
      (n : ℕ) (budget : F) (best : Option (Solution F)) (s : S) (log : Log F E)
      → I n budget best log
      → let run = seek (logged engine) eps_budget upper q n budget best (s, log) in P run.0 run.1.1
  unfolding seek logged
  seek-rounds zero budget none s log i = unused budget log i
  seek-rounds zero budget (some best) s log i = bounded budget best log i
  seek-rounds (suc n) budget best s log i = elim (Result-cases (engine budget s).0) [
    | inr (e, h) ↦
        rw (seek-failed (logged engine) eps_budget upper q n budget best (s, log) e h)
          (rw h (failed n budget best log e i))
    | inl (solution, h) ↦
        elim (Bool-cases (is_settled (margin upper q solution) solution.eps budget)) [
          | inl g ↦
              rw
                (
                  seek-settled (logged engine) eps_budget upper q n budget best (s, log) solution h
                      g,
                  h,
                )
                (settled n budget best log solution i g)
          | inr g ↦
              rw
                (
                  seek-unsettled (logged engine) eps_budget upper q n budget best (s, log) solution
                      h g,
                  h,
                )
                (seek-rounds n (margin upper q solution) (some solution) (engine budget s).1
                  ((budget, ok solution) ∷ log) (unsettled n budget best log solution i g))
        ]
  ]
