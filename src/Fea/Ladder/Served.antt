-- ===== src/Fea/Ladder/Served.antt =====
-- A climb of python/feldspar/fea/ladder.py at a rung that its cache serves.
use feldspar.Prelude.{
  ℕ, suc, String, true, false, Option, none, some, List, ◌∷◌, Result, ok, ◌≡◌, refl, sym, ap, ◌∙◌,
  subst, Bool-cases, inl, inr,
}
use feldspar.Prelude.Dict.{lookup}
use feldspar.Prelude.Float.{FloatOps}
use feldspar.Solve.Errors.{SolveError}
use feldspar.Fea.Richardson.{RichardsonResult}
use feldspar.Fea.Ladder.{RungCache, is_worse, fits, run_cached, climb_from, climb_richardson_ladder}
use feldspar.Fea.Ladder.Cached.{IsCoherent, run_cached_found}
use feldspar.Fea.Ladder.Ran.{SameMisses}

module _ {F R : Type 0} ⦃o : FloatOps F⦄ (run_rung : R → Result F (SolveError F)) (key : R → String)
    (extrapolate : F → F → RichardsonResult F) where
  pub climb_from-stop :
      (b : F) (rung : R) (rungs : List R) (prev : F) (prev_eps : Option F) (i : ℕ)
      (c : Option (RungCache F)) (value : F)
      → (run_cached run_rung key extrapolate rung c).0 ≡ ok value
      → is_worse run_rung key extrapolate prev_eps (extrapolate prev value).eps ≡ false
      → o.le (extrapolate prev value).eps b ≡ true
      → (climb_from run_rung key extrapolate (some b) prev prev_eps i (rung ∷ rungs) c).1
        ≡ (run_cached run_rung key extrapolate rung c).1
  unfolding climb_from fits
  climb_from-stop b rung rungs prev prev_eps i c value r better stop =
      rw (r, better, stop, climb_from, fits) refl

  pub climb_from-next :
      (b : F) (rung : R) (rungs : List R) (prev : F) (prev_eps : Option F) (i : ℕ)
      (c : Option (RungCache F)) (value : F)
      → (run_cached run_rung key extrapolate rung c).0 ≡ ok value
      → is_worse run_rung key extrapolate prev_eps (extrapolate prev value).eps ≡ false
      → o.le (extrapolate prev value).eps b ≡ false
      → climb_from run_rung key extrapolate (some b) prev prev_eps i (rung ∷ rungs) c
        ≡ climb_from run_rung key extrapolate
            (some b)
            value
            (some (extrapolate prev value).eps)
            (suc i)
            rungs
            (run_cached run_rung key extrapolate rung c).1
  unfolding climb_from fits
  climb_from-next b rung rungs prev prev_eps i c value r better on =
      rw (r, better, on, climb_from, fits) refl

  -- A rung whose key is in a coherent cache is served with the value of its run.
  pub served :
      (rung : R) (d : RungCache F) (value v' : F)
      → IsCoherent run_rung key extrapolate (some d)
      → run_rung rung ≡ ok value
      → lookup (key rung) d.store ≡ some v'
      → run_cached run_rung key extrapolate rung (some d)
        ≡ (ok value, some (record d { hits = suc d.hits }))
  unfolding IsCoherent
  served rung d value v' h run found =
      run_cached_found run_rung key extrapolate rung d v' found
      ∙ ap (λ x. (x, some (record d { hits = suc d.hits }))) (sym (h rung v' found) ∙ run)

  -- The second climb at a rung that is served, where it stops and where it may go on.
  pub stopped :
      (b : F) (rung : R) (rungs : List R) (prev : F) (prev_eps : Option F) (i : ℕ) (d : RungCache F)
      (value w : F)
      → IsCoherent run_rung key extrapolate (some d)
      → run_rung rung ≡ ok value
      → lookup (key rung) d.store ≡ some w
      → is_worse run_rung key extrapolate prev_eps (extrapolate prev value).eps ≡ false
      → o.le (extrapolate prev value).eps b ≡ true
      → SameMisses d
          (climb_from run_rung key extrapolate (some b) prev prev_eps i (rung ∷ rungs) (some d)).1
  stopped b rung rungs prev prev_eps i d value w coh run here better stop =
      let eq = served rung d value w coh run here in
      subst (SameMisses d)
        (sym (
          climb_from-stop b rung rungs prev prev_eps i (some d) value (ap (λ x. x.0) eq) better stop
          ∙ ap (λ x. x.1) eq))
        refl

  pub goes_on :
      (b : F) (rung : R) (rungs : List R) (prev : F) (prev_eps : Option F) (i : ℕ) (d : RungCache F)
      (value w : F)
      → IsCoherent run_rung key extrapolate (some d)
      → run_rung rung ≡ ok value
      → lookup (key rung) d.store ≡ some w
      → is_worse run_rung key extrapolate prev_eps (extrapolate prev value).eps ≡ false
      → SameMisses d
          (climb_from run_rung key extrapolate
            (some b)
            value
            (some (extrapolate prev value).eps)
            (suc i)
            rungs
            (some (record d { hits = suc d.hits }))).1
      → SameMisses d
          (climb_from run_rung key extrapolate (some b) prev prev_eps i (rung ∷ rungs) (some d)).1
  goes_on b rung rungs prev prev_eps i d value w coh run here better rest =
      let eq = served rung d value w coh run here in
      elim (Bool-cases (o.le (extrapolate prev value).eps b)) [
        | inl stop ↦ stopped b rung rungs prev prev_eps i d value w coh run here better stop
        | inr on ↦
            subst (SameMisses d)
              (sym (
                ap (λ x. x.1)
                  (climb_from-next b rung rungs prev prev_eps i (some d) value (ap (λ x. x.0) eq)
                    better on)
                ∙ ap
                    (λ c.
                      (climb_from run_rung key extrapolate (some b) value
                        (some (extrapolate prev value).eps) (suc i) rungs c).1)
                    (ap (λ x. x.1) eq)))
              rest
      ]

  pub ladder_step :
      (first rung : R) (rungs : List R) (budget : Option F) (c : Option (RungCache F)) (value : F)
      → (run_cached run_rung key extrapolate first c).0 ≡ ok value
      → climb_richardson_ladder run_rung key extrapolate (first ∷ rung ∷ rungs) budget c
        ≡ climb_from run_rung key extrapolate budget value none 1
            (rung ∷ rungs)
            (run_cached run_rung key extrapolate first c).1
  unfolding climb_richardson_ladder
  ladder_step first rung rungs budget c value r = rw (r, climb_richardson_ladder) refl
