-- ===== src/Fea/Ladder/Budget.antt =====
-- A climb at two budgets (python/feldspar/fea/ladder.py).
use feldspar.Prelude.{
  ℕ, suc, ◌≤◌, String, true, Option, none, some, List, [], ◌∷◌, Result, ◌≡◌, ◌≢◌, refl, Bool-cases,
  Result-cases, inl, inr, arith,
}
use feldspar.Prelude.Float.{FloatOps, FloatLaws}
use feldspar.Solve.Errors.{SolveError}
use feldspar.Fea.Richardson.{RichardsonResult}
use feldspar.Fea.Ladder.{
  Climb, climbed, failed, is_worse, fits, climb_from, climb_richardson_ladder, run_cached,
}

module _ {F R : Type 0} ⦃o : FloatOps F⦄ (run_rung : R → Result F (SolveError F)) (key : R → String)
    (extrapolate : F → F → RichardsonResult F) where
  -- A climb that stopped by the rung `n`, its error within the budget.
  pub record StopsBy (budget : F) (n : ℕ) (c : Climb F) : Type 0 where
    pub value : F
    pub eps : F
    pub rungs_run : ℕ
    pub is_climbed : c ≡ climbed value eps rungs_run
    pub no_later : rungs_run ≤ n
    pub within_budget : o.le eps budget ≡ true

  pub climbed-failed :
      (v e : F) (n : ℕ) (x : SolveError F) → ◌≢◌ {A = Climb F} (failed x) (climbed v e n)
  climbed-failed v e n x h = cc

  same_rungs : (m n : ℕ) (v v' e e' : F) → climbed v e m ≡ climbed v' e' n → m ≤ n
  same_rungs m n v v' e e' h = let q : m ≡ n = cc in omega (arith, q)

  -- A climb from rung `i` on runs at least that many.
  rungs_run_le :
      (b : F) (rungs : List R) (prev : F) (prev_eps : Option F) (i : ℕ) (v e : F) (n : ℕ)
      → (climb_from run_rung key extrapolate (some b) prev prev_eps i rungs none).0 ≡ climbed v e n
      → i ≤ n
  unfolding climb_from run_cached fits
  rungs_run_le b [] prev prev_eps i v e n h = absurd (climbed-failed v e n _ h)
  rungs_run_le b (rung ∷ rungs) prev prev_eps i v e n h = elim (Result-cases (run_rung rung)) [
    | inr (x, r) ↦ absurd (climbed-failed v e n x (ground (arith, r, h)))
    | inl (value, r) ↦
        let pair = extrapolate prev value in
        elim (Bool-cases (is_worse run_rung key extrapolate prev_eps pair.eps)) [
          | inl worse ↦ ground (arith, r, worse, h)
          | inr better ↦ elim (Bool-cases (o.le pair.eps b)) [
            | inl stop ↦
                let same : climbed pair.extrapolated pair.eps (suc i) ≡ climbed v e n =
                  ground (arith, r, better, stop, h) in
                omega (arith, same_rungs (suc i) n pair.extrapolated v pair.eps e same)
            | inr on ↦ omega (
              arith,
              rungs_run_le b rungs value (some pair.eps) (suc i) v e n
                  (ground (arith, r, better, on, h)),
            )
          ]
        ]
  ]

  climb_from-StopsBy :
      FloatLaws F o
      → (b b' : F) → o.le b b' ≡ true
      → (rungs : List R) (prev : F) (prev_eps : Option F) (i : ℕ) (v e : F) (n : ℕ)
      → (climb_from run_rung key extrapolate (some b) prev prev_eps i rungs none).0 ≡ climbed v e n
      → StopsBy b' n (climb_from run_rung key extrapolate (some b') prev prev_eps i rungs none).0
  unfolding climb_from run_cached fits
  climb_from-StopsBy laws b b' wider [] prev prev_eps i v e n h = absurd (climbed-failed v e n _ h)
  climb_from-StopsBy laws b b' wider (rung ∷ rungs) prev prev_eps i v e n h =
      elim (Result-cases (run_rung rung)) [
        | inr (x, r) ↦ absurd (climbed-failed v e n x (ground (arith, r, h)))
        | inl (value, r) ↦
            let pair = extrapolate prev value in
            elim (Bool-cases (is_worse run_rung key extrapolate prev_eps pair.eps)) [
              | inl worse ↦ ground (arith, r, worse, h)
              | inr better ↦ elim (Bool-cases (o.le pair.eps b)) [
                | inl stop ↦
                    let stop' = laws.le_trans pair.eps b b' stop wider in
                    let same : climbed pair.extrapolated pair.eps (suc i) ≡ climbed v e n =
                      ground (arith, r, better, stop, h) in
                    rw (r, better, stop', climb_from)
                      (record {
                        value = pair.extrapolated;
                        eps = pair.eps;
                        rungs_run = suc i;
                        is_climbed = refl;
                        no_later = same_rungs (suc i) n pair.extrapolated v pair.eps e same;
                        within_budget = stop';
                      })
                | inr on ↦
                    let rest =
                      climb_from-StopsBy laws b b' wider rungs value (some pair.eps) (suc i) v e n
                        (ground (arith, r, better, on, h)) in
                    elim (Bool-cases (o.le pair.eps b')) [
                      | inr on' ↦ rw (r, better, on', climb_from) rest
                      | inl stop' ↦
                          rw (r, better, stop', climb_from)
                            (record {
                              value = pair.extrapolated;
                              eps = pair.eps;
                              rungs_run = suc i;
                              is_climbed = refl;
                              no_later =
                                  rungs_run_le b rungs value (some pair.eps) (suc i) v e n
                                    (ground (arith, r, better, on, h));
                              within_budget = stop';
                            })
                    ]
              ]
            ]
      ]

  -- On floats ordered totally, if a climb without a cache meets a budget after some number of
  -- rungs, then a climb of the same rungs with a budget no smaller meets its budget, with an error
  -- not above it, after no more rungs.
  pub climb_richardson_ladder-StopsBy :
      FloatLaws F o
      → (b b' : F) → o.le b b' ≡ true
      → (rungs : List R) (v e : F) (n : ℕ)
      → (climb_richardson_ladder run_rung key extrapolate rungs (some b) none).0 ≡ climbed v e n
      → StopsBy b' n (climb_richardson_ladder run_rung key extrapolate rungs (some b') none).0
  unfolding climb_richardson_ladder run_cached
  climb_richardson_ladder-StopsBy laws b b' wider [] v e n h = cc
  climb_richardson_ladder-StopsBy laws b b' wider (rung ∷ []) v e n h = cc
  climb_richardson_ladder-StopsBy laws b b' wider (first ∷ rung ∷ rungs) v e n h =
      elim (Result-cases (run_rung first)) [
        | inr (x, r) ↦ absurd (climbed-failed v e n x (ground (arith, r, h)))
        | inl (value, r) ↦
            rw (r, climb_richardson_ladder)
              (climb_from-StopsBy laws b b' wider (rung ∷ rungs) value none 1 v e n
                (ground (arith, r, h)))
      ]
