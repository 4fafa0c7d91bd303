-- ===== src/Plan/Walk/OutputDomain.antt =====
-- The declared domain of a step's outputs (`_check_step_output_domain` of
-- python/feldspar/plan/execute.py) and the walk.
use feldspar.Prelude.{
  ◌≡◌, ◌≢◌, refl, sym, subst, ◌∙◌, true, Option, some, [], ◌∷◌, Result, ok, err, ◌>>=◌, arith, inl,
  inr, Bool-cases, Option-cases, Result-cases,
}
use feldspar.Prelude.Dict.{Dict, lookup}
use feldspar.Prelude.Float.{FloatOps}
use feldspar.Core.{Interval, PortDecl}
use feldspar.Core.Sweep.{inflate, is_subset, hull}
use feldspar.Solve.Models.{SolverInfo}
use feldspar.Solve.Registry.{Entry}
use feldspar.Plan.Models.{Abort, step_failed, Repr}
use feldspar.Plan.StepCache.{StepEntry, PayloadStepCache}
use feldspar.Plan.Step.{check_step_output_domain}
use feldspar.Plan.Walk.{
  advance, Digests, Walk, Prepared, prepare, step_entry, finish_step, run_prepared, run_step,
}
use mathlib.Core.Option.{some-injective}

module _ {F : Type 0} ⦃o : FloatOps F⦄ where
  -- Every boxed output, widened by the error, lies in its box.
  abbrev pub InBox : Dict (Interval F) → Dict (Interval F) → F → Type 0
  InBox [] hull eps = Unit
  InBox (e ∷ box) hull eps =
      ((iv : Interval F) → lookup e.0 hull ≡ some iv → is_subset (inflate iv eps) e.1 ≡ true)
      × InBox box hull eps

  check_step_output_domain-InBox :
      (box hull : Dict (Interval F)) (eps : F)
      → check_step_output_domain box hull eps ≡ ok tt
      → InBox box hull eps
  unfolding check_step_output_domain
  check_step_output_domain-InBox [] hull eps h = tt
  check_step_output_domain-InBox (e ∷ box) hull eps h = elim (Option-cases (lookup e.0 hull)) [
    | inl missing ↦ (
      λ iv found. cc (missing, found),
      check_step_output_domain-InBox box hull eps (ground (arith, missing, h)),
    )
    | inr (x, here) ↦ elim (Bool-cases (is_subset (inflate x eps) e.1)) [
      | inl inside ↦ (
        λ iv found.
            subst (λ v. is_subset (inflate v eps) e.1 ≡ true)
              (some-injective x iv (sym here ∙ found)) inside,
        check_step_output_domain-InBox box hull eps (ground (arith, here, inside, h)),
      )
      | inr outside ↦ ground (arith, here, outside, h)
    ]
  ]

module _ {F : Type 0} ⦃o : FloatOps F⦄ (repr : Repr F) (digests : Digests F)
    (port_table : Dict PortDecl) where
  -- A step that is let into the walk: its entry, and the entry's outputs in their boxes.
  pub record Entered (info : SolverInfo F) (res : Result (StepEntry F) (Abort F)) (w w' : Walk F)
      : Type 0 where
    pub entry : StepEntry F
    pub given : res ≡ ok entry
    pub in_box : InBox info.domain.box entry.hull entry.step_eps
    pub advanced : w' ≡ advance repr digests port_table info entry w

  err_ok : (a : Abort F) (w : Walk F) → ◌≢◌ {A = Result (Walk F) (Abort F)} (err a) (ok w)
  err_ok a w h = cc

  same_walk : (w w' : Walk F) → ◌≡◌ {A = Result (Walk F) (Abort F)} (ok w) (ok w') → w ≡ w'
  same_walk w w' h = cc

  finish_step-Entered :
      (info : SolverInfo F) (w w' : Walk F) (res : Result (StepEntry F) (Abort F))
      → (res >>= (λ entry. finish_step repr digests port_table info entry w)) ≡ ok w'
      → Entered info res w w'
  unfolding finish_step
  finish_step-Entered info w w' (err a) h = absurd (err_ok a w' h)
  finish_step-Entered info w w' (ok entry) h =
      elim (Result-cases (check_step_output_domain info.domain.box entry.hull entry.step_eps)) [
        | inr (x, p) ↦ absurd (err_ok (step_failed info.solver_id x) w' (ground (arith, p, h)))
        | inl (u, p) ↦ record {
          entry = entry;
          given = refl;
          in_box =
              check_step_output_domain-InBox info.domain.box entry.hull entry.step_eps (p ∙ refl);
          advanced = sym (same_walk _ w' (ground (arith, p, h)));
        }
      ]

  -- If a step succeeds, with or without a cache, its inputs were prepared, it has an entry, every
  -- declared box of a port of the entry's hull holds the port's interval widened by the realized
  -- error, and the walk afterwards is the one before advanced by the entry.
  pub run_step-Entered :
      (e : Entry F) (budget : Option F) (w w' : Walk F) (cache : Option (PayloadStepCache F))
      → (run_step repr digests port_table e budget w cache).0 ≡ ok w'
      → (p : Prepared F) × (prepare repr digests port_table e.0 budget w ≡ ok p)
        × Entered e.0 (step_entry repr digests port_table e.0 e.1 p cache).0 w w'
  unfolding run_step run_prepared
  run_step-Entered e budget w w' cache h =
      elim (Result-cases (prepare repr digests port_table e.0 budget w)) [
        | inr (a, p) ↦ absurd (err_ok a w' (ground (arith, p, h)))
        | inl (x, p) ↦ (
          x,
          p,
          finish_step-Entered e.0 w w' (step_entry repr digests port_table e.0 e.1 x cache).0
              (ground (arith, p, h)),
        )
      ]
