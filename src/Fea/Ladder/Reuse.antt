-- ===== src/Fea/Ladder/Reuse.antt =====
-- A second climb on the cache of the first (python/feldspar/fea/ladder.py).
use feldspar.Prelude.{
  ℕ, suc, String, true, Option, none, some, List, [], ◌∷◌, Result, ◌≡◌, ◌≢◌, sym, ap, ◌∙◌, subst,
  Bool-cases, Result-cases, inl, inr, arith, ok, false,
}
use feldspar.Prelude.Float.{FloatOps, FloatLaws}
use feldspar.Solve.Errors.{SolveError}
use feldspar.Fea.Richardson.{RichardsonResult}
use feldspar.Fea.Ladder.{
  RungCache, Climb, climbed, non_monotone, is_worse, climb_from, climb_richardson_ladder,
  run_cached,
}
use feldspar.Fea.Ladder.Budget.{climbed-failed}
use feldspar.Fea.Ladder.Cached.{
  Distinguishes, IsCoherent, run_cached-IsCoherent, climb_richardson_ladder-IsCoherent,
}
use feldspar.Fea.Ladder.Ran.{Extends, SameMisses, Ran, Extends-trans, run_cached-Ran}
use feldspar.Fea.Ladder.Served.{
  climb_from-stop, climb_from-next, served, stopped, goes_on, ladder_step,
}

module _ {F R : Type 0} ⦃o : FloatOps F⦄ (run_rung : R → Result F (SolveError F)) (key : R → String)
    (extrapolate : F → F → RichardsonResult F) where
  -- What a climb leaves behind: a cache from which the climb with the budget `b'` misses nothing.
  pub record Reusable (b' : F) (rungs : List R) (prev : F) (prev_eps : Option F) (i : ℕ)
      (c : RungCache F) (left_cache : Option (RungCache F)) : Type 0 where
    pub cache : RungCache F
    pub left : left_cache ≡ some cache
    pub extends : Extends c (some cache)
    pub no_miss :
        (d : RungCache F)
        → Extends cache (some d)
        → IsCoherent run_rung key extrapolate (some d)
        → SameMisses d
            (climb_from run_rung key extrapolate (some b') prev prev_eps i rungs (some d)).1

  climbed-worse : (v e : F) (n : ℕ) → ◌≢◌ {A = Climb F} non_monotone (climbed v e n)
  climbed-worse v e n h = cc

  -- A climb that stops at a rung, and one that goes on from it.
  Reusable-stop :
      (b' : F) (rung : R) (rungs : List R) (prev : F) (prev_eps : Option F) (i : ℕ)
      (c : RungCache F) (value : F) (left_cache : Option (RungCache F))
      (ran : Ran run_rung key extrapolate rung c)
      → run_rung rung ≡ ok value
      → left_cache ≡ some ran.cache
      → is_worse run_rung key extrapolate prev_eps (extrapolate prev value).eps ≡ false
      → o.le (extrapolate prev value).eps b' ≡ true
      → Reusable b' (rung ∷ rungs) prev prev_eps i c left_cache
  Reusable-stop b' rung rungs prev prev_eps i c value left_cache ran r eq better stop =
      let (v', found) = ran.holds value r in
      record {
        cache = ran.cache;
        left = eq;
        extends = ran.extends;
        no_miss = λ d ext coh'.
            let (w, here) = ext (key rung) v' found in
            stopped run_rung key extrapolate b' rung rungs prev prev_eps i d value w coh' r here
              better stop;
      }

  Reusable-next :
      (b' : F) (rung : R) (rungs : List R) (prev : F) (prev_eps : Option F) (i : ℕ)
      (c : RungCache F) (value : F) (left_cache : Option (RungCache F))
      (ran : Ran run_rung key extrapolate rung c)
      → run_rung rung ≡ ok value
      → is_worse run_rung key extrapolate prev_eps (extrapolate prev value).eps ≡ false
      → Reusable b' rungs value (some (extrapolate prev value).eps) (suc i) ran.cache left_cache
      → Reusable b' (rung ∷ rungs) prev prev_eps i c left_cache
  unfolding IsCoherent
  Reusable-next b' rung rungs prev prev_eps i c value left_cache ran r better rest =
      let (v', found) = ran.holds value r in
      record {
        cache = rest.cache;
        left = rest.left;
        extends = Extends-trans c ran.cache (some rest.cache) ran.extends rest.extends;
        no_miss = λ d ext coh'.
            let (v'', kept) = rest.extends (key rung) v' found in
            let (w, here) = ext (key rung) v'' kept in
            goes_on run_rung key extrapolate b' rung rungs prev prev_eps i d value w coh' r here
              better (rest.no_miss (record d { hits = suc d.hits }) ext coh');
      }

  climb_from-Reusable :
      FloatLaws F o
      → Distinguishes run_rung key extrapolate
      → (b b' : F) → o.le b b' ≡ true
      → (rungs : List R) (prev : F) (prev_eps : Option F) (i : ℕ) (c : RungCache F) (v e : F)
        (n : ℕ)
      → IsCoherent run_rung key extrapolate (some c)
      → (climb_from run_rung key extrapolate (some b) prev prev_eps i rungs (some c)).0
        ≡ climbed v e n
      → Reusable b' rungs prev prev_eps i c
          (climb_from run_rung key extrapolate (some b) prev prev_eps i rungs (some c)).1
  unfolding climb_from IsCoherent
  climb_from-Reusable laws apart b b' wider [] prev prev_eps i c v e n coh h =
      absurd (climbed-failed run_rung key extrapolate v e n _ h)
  climb_from-Reusable laws apart b b' wider (rung ∷ rungs) prev prev_eps i c v e n coh h =
      let s = run_cached-IsCoherent run_rung key extrapolate apart rung (some c) coh in
      let ran = run_cached-Ran run_rung key extrapolate rung c in
      elim (Result-cases (run_rung rung)) [
        | inr (x, r) ↦
            absurd (climbed-failed run_rung key extrapolate v e n x (ground (arith, s.0 ∙ r, h)))
        | inl (value, r) ↦
            let eps = (extrapolate prev value).eps in
            elim (Bool-cases (is_worse run_rung key extrapolate prev_eps eps)) [
              | inl worse ↦ absurd (climbed-worse v e n (ground (arith, s.0 ∙ r, worse, h)))
              | inr better ↦ elim (Bool-cases (o.le eps b)) [
                | inl stop ↦
                    Reusable-stop b' rung rungs prev prev_eps i c value _ ran r
                      (climb_from-stop run_rung key extrapolate b rung rungs prev prev_eps i
                          (some c) value (s.0 ∙ r) better stop
                        ∙ ran.left)
                      better (laws.le_trans eps b b' stop wider)
                | inr on ↦
                    let step =
                      climb_from-next run_rung key extrapolate b rung rungs prev prev_eps i (some c)
                        value (s.0 ∙ r) better on
                      ∙ ap
                          (climb_from run_rung key extrapolate (some b) value (some eps) (suc i)
                            rungs)
                          ran.left in
                    Reusable-next b' rung rungs prev prev_eps i c value _ ran r better (
                      subst (Reusable b' rungs value (some eps) (suc i) ran.cache)
                        (sym (ap (λ x. x.1) step))
                        (climb_from-Reusable laws apart b b' wider rungs value (some eps) (suc i)
                          ran.cache v e n (subst (IsCoherent run_rung key extrapolate) ran.left s.1)
                          (sym (ap (λ x. x.0) step) ∙ h)))
              ]
            ]
      ]

  -- A ladder whose first rung is served misses what its other rungs miss.
  first_served :
      (b' : F) (first rung : R) (rungs : List R) (c : RungCache F) (value : F)
      → run_cached run_rung key extrapolate first (some c)
        ≡ (ok value, some (record c { hits = suc c.hits }))
      → SameMisses c
          (climb_from run_rung key extrapolate
            (some b')
            value
            none
            1
            (rung ∷ rungs)
            (some (record c { hits = suc c.hits }))).1
      → SameMisses c
          (climb_richardson_ladder run_rung key extrapolate
            (first ∷ rung ∷ rungs)
            (some b')
            (some c)).1
  first_served b' first rung rungs c value eq = subst (SameMisses c) (
      sym (
        ap (λ x. x.1)
          (ladder_step run_rung key extrapolate first rung rungs (some b') (some c) value
            (ap (λ x. x.0) eq))
        ∙ ap (λ x. (climb_from run_rung key extrapolate (some b') value none 1 (rung ∷ rungs) x).1)
            (ap (λ x. x.1) eq)))

  -- On floats ordered totally, if equal rung keys are keys of rungs that run alike, the cache is
  -- coherent (each value is what its rung gives), and a climb meets its budget, then it leaves a
  -- cache from which a climb of the same rungs with a budget no smaller adds no miss: it runs no
  -- rung again.
  pub climb_richardson_ladder-SameMisses :
      FloatLaws F o
      → Distinguishes run_rung key extrapolate
      → (b b' : F) → o.le b b' ≡ true
      → (rungs : List R) (c : RungCache F) (v e : F) (n : ℕ)
      → IsCoherent run_rung key extrapolate (some c)
      → (climb_richardson_ladder run_rung key extrapolate rungs (some b) (some c)).0 ≡ climbed v e n
      → (c' : RungCache F) × ((climb_richardson_ladder run_rung key extrapolate rungs
            (some b)
            (some c)).1
          ≡ some c')
        × SameMisses c'
            (climb_richardson_ladder run_rung key extrapolate rungs (some b') (some c')).1
  unfolding climb_richardson_ladder IsCoherent
  climb_richardson_ladder-SameMisses laws apart b b' wider [] c v e n coh h = cc
  climb_richardson_ladder-SameMisses laws apart b b' wider (rung ∷ []) c v e n coh h = cc
  climb_richardson_ladder-SameMisses laws apart b b' wider (first ∷ rung ∷ rungs) c v e n coh h =
      let s = run_cached-IsCoherent run_rung key extrapolate apart first (some c) coh in
      let ran = run_cached-Ran run_rung key extrapolate first c in
      elim (Result-cases (run_rung first)) [
        | inr (x, r) ↦
            absurd (climbed-failed run_rung key extrapolate v e n x (ground (arith, s.0 ∙ r, h)))
        | inl (value, r) ↦
            let (v', found) = ran.holds value r in
            let step =
              ladder_step run_rung key extrapolate first rung rungs (some b) (some c) value
                (s.0 ∙ r)
              ∙ ap (climb_from run_rung key extrapolate (some b) value none 1 (rung ∷ rungs))
                  ran.left in
            let rest =
              climb_from-Reusable laws apart b b' wider (rung ∷ rungs) value none 1 ran.cache v e n
                (subst (IsCoherent run_rung key extrapolate) ran.left s.1)
                (sym (ap (λ x. x.0) step) ∙ h) in
            let left = ap (λ x. x.1) step ∙ rest.left in
            let coh' =
              subst (IsCoherent run_rung key extrapolate) left
                (climb_richardson_ladder-IsCoherent run_rung key extrapolate apart
                  (first ∷ rung ∷ rungs) (some b) (some c) coh).1 in
            let (w, here) = rest.extends (key first) v' found in
            (
              rest.cache,
              left,
              first_served b' first rung rungs rest.cache value
                  (served run_rung key extrapolate first rest.cache value w coh' r here)
                  (rest.no_miss (record rest.cache { hits = suc rest.cache.hits }) (λ k u f. (u, f))
                    coh'),
            )
      ]
