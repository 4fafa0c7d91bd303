-- ===== src/Plan/Step/Finite.antt =====
-- What the callback of a step (`_make_corner_fn` of python/feldspar/plan/execute.py) gives a sweep is
-- finite, as the sweep of crates/feldspar-core/src/propagation.rs takes it to be.
use feldspar.Prelude.{
  String, none, some, List, [], ◌∷◌, Option, ok, err, ◌≡◌, subst, ◌==◌, true, All, Bool-cases,
  Option-cases, Result-cases, inl, inr, arith,
}
use feldspar.Prelude.Dict.{Dict, lookup, insert}
use feldspar.Prelude.Float.{FloatOps}
use feldspar.Core.{PayloadRef, PortDecl}
use feldspar.Solve.Models.{SolverInfo, SolveFn, Outcome}
use feldspar.Plan.Models.{Repr}
use feldspar.Plan.Step.Outputs.{finish_corner-pick}
use feldspar.Plan.Step.{
  first_missing, first_non_finite, check_step_output, pick, Collected, collect_payloads,
  check_corner, corner_fn, full_corner, invoke_solve_fn,
}

module _ {F : Type 0} ⦃o : FloatOps F⦄ where
  -- Every number of a dict is finite.
  abbrev pub IsFinite : Dict F → Type 0
  IsFinite = All (λ e. o.is_finite e.1 ≡ true)

  insert-IsFinite :
      (port : String) (v : F) (d : Dict F)
      → o.is_finite v ≡ true
      → IsFinite d
      → IsFinite (insert port v d)
  unfolding insert
  insert-IsFinite port v [] h k = (h, tt)
  insert-IsFinite port v (e ∷ d) h k = elim (Bool-cases (e.0 == port)) [
    | inl hit ↦ rw (hit, insert) (h, k.1)
    | inr miss ↦ rw (miss, insert) (k.0, insert-IsFinite port v d h k.1)
  ]

  lookup-finite :
      (port : String) (d : Dict F) (v : F)
      → IsFinite d
      → lookup port d ≡ some v
      → o.is_finite v ≡ true
  unfolding lookup
  lookup-finite port [] v k found = cc
  lookup-finite port (e ∷ d) v k found = elim (Bool-cases (e.0 == port)) [
    | inl hit ↦ ground (arith, hit, found, k.0)
    | inr miss ↦ lookup-finite port d v k.1 (ground (arith, miss, found))
  ]

  pick-IsFinite :
      (ports : List String) (out acc : Dict F)
      → IsFinite out
      → IsFinite acc
      → IsFinite (pick ports out acc)
  unfolding pick
  pick-IsFinite [] out acc h k = k
  pick-IsFinite (p ∷ ports) out acc h k = elim (Option-cases (lookup p out)) [
    | inl missing ↦ rw (missing, pick) (pick-IsFinite ports out acc h k)
    | inr (v, found) ↦
        rw (found, pick)
          (pick-IsFinite ports out (insert p v acc) h
            (insert-IsFinite p v acc (lookup-finite p out v h found) k))
  ]

  first_non_finite-none : (out : Dict F) → first_non_finite out ≡ none → IsFinite out
  unfolding first_non_finite
  first_non_finite-none [] h = tt
  first_non_finite-none (e ∷ out) h =
      (ground (arith, h), first_non_finite-none out (ground (arith, h)))

  check_step_output-IsFinite :
      (out : Dict F) (ports : List String) (u : Unit {0})
      → check_step_output out ports ≡ ok u
      → IsFinite out
  unfolding check_step_output
  check_step_output-IsFinite out ports u h = elim (Option-cases (first_missing ports out)) [
    | inr (p, missing) ↦ ground (arith, missing, h)
    | inl complete ↦ elim (Option-cases (first_non_finite out)) [
      | inr (p, bad) ↦ ground (arith, complete, bad, h)
      | inl good ↦ first_non_finite-none out good
    ]
  ]

module _ {F : Type 0} ⦃o : FloatOps F⦄ (repr : Repr F) (port_table : Dict PortDecl) where
  check_corner-IsFinite :
      (info : SolverInfo F) (scalars payloads : List String) (outcome : Outcome F) (s : Collected F)
      (outs : Dict F)
      → (check_corner repr port_table info scalars payloads outcome s).0 ≡ ok outs
      → IsFinite outs
  unfolding check_corner
  check_corner-IsFinite info scalars payloads (err x) s outs h = cc
  check_corner-IsFinite info scalars payloads (ok out) s outs h =
      elim (Result-cases (check_step_output out.values scalars)) [
        | inr (x, c) ↦ ground (arith, c, h)
        | inl (u, c) ↦
            subst IsFinite
              (finish_corner-pick repr port_table info scalars out s.measured
                (collect_payloads repr port_table payloads out.payloads s.produced) outs
                (ground (arith, c, h)))
              (pick-IsFinite scalars out.values []
                (check_step_output-IsFinite out.values scalars u c) tt)
      ]

  -- Whatever a solver answers at a corner, what the callback of its step passes on to the sweep has
  -- finite numbers only, so that no interval of one of them is refused.
  pub corner_fn-IsFinite :
      (info : SolverInfo F) (fn : SolveFn F) (payload_inputs : Dict PayloadRef)
      (scalar_outputs payload_outputs : List String) (budget : Option F) (corner outs : Dict F)
      (s : Collected F)
      → (corner_fn repr port_table info fn payload_inputs scalar_outputs payload_outputs budget
          corner s).0
        ≡ ok outs
      → IsFinite outs
  unfolding corner_fn
  corner_fn-IsFinite info fn payload_inputs scalar_outputs payload_outputs budget corner outs s h =
      check_corner-IsFinite info scalar_outputs payload_outputs
        (invoke_solve_fn fn (full_corner corner payload_inputs) budget) s outs h
