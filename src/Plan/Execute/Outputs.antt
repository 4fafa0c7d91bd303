-- ===== src/Plan/Execute/Outputs.antt =====
-- The hull of a step's run and the lookups behind it (`_execute_impl` of
-- python/feldspar/plan/execute.py). A registered solver declares an accuracy for each of its
-- outputs.
use feldspar.Prelude.{
  String, Option, List, [], ◌∷◌, Result, ok, err, ◌≡◌, refl, eq_iff, true, elem, keep, Bool,
  Result-cases, inl, inr, arith,
}
use feldspar.Prelude.Dict.{Dict}
use feldspar.Prelude.Float.{FloatOps}
use feldspar.Core.{Interval, Accuracy, PayloadRef, PortDecl}
use feldspar.Core.Sweep.{corner_sweep}
use feldspar.Core.Sweep.Keys.{Has, corner_sweep-Has}
use feldspar.Solve.Errors.{SolveError}
use feldspar.Solve.Models.{SolverInfo, SolveFn, invoke_solve_fn}
use feldspar.Plan.Models.{Abort, step_failed, key_error, Repr}
use feldspar.Plan.StepCache.{StepEntry}
use feldspar.Plan.Step.{Collected, corner_fn, full_corner}
use feldspar.Plan.Step.Outputs.{check_corner-Has}
use feldspar.Plan.Execute.{
  scalar_outputs_of, payload_outputs_of, declared_eps, step_eps_of, invariant_refs, finish_sweep,
  fresh_step,
}

-- An accuracy for each output.
abbrev pub DeclaresAccuracy : {F : Type 0} → SolverInfo F → Type 0
DeclaresAccuracy info = (port : String) → elem port info.outputs ≡ true → Has info.accuracy port

-- Of each output that is kept.
elem-keep :
    (test : String → Bool) (ports : List String) (port : String)
    → elem port (keep test ports) ≡ true
    → elem port ports ≡ true
elem-keep test [] port h = h
elem-keep test (p ∷ ports) port h = ground (arith, elem-keep test ports port, h)

module _ {F : Type 0} ⦃o : FloatOps F⦄ where
  declared_eps_found :
      (accuracy : Dict (Accuracy F)) (hull : Dict (Interval F)) (ports : List String)
      → ((port : String) → elem port ports ≡ true → Has accuracy port)
      → ((port : String) → elem port ports ≡ true → Has hull port)
      → (es : List F) × (declared_eps accuracy hull ports ≡ ok es)
  unfolding declared_eps
  declared_eps_found accuracy hull [] a h = ([], refl)
  declared_eps_found accuracy hull (p ∷ ports) a h =
      let here : elem p (p ∷ ports) ≡ true = ground (arith, eq_iff p p) in
      let (x, declared) = a p here in
      let (iv, found) = h p here in
      let (es, rest) =
        declared_eps_found accuracy hull ports (λ port e. a port (ground (arith, e)))
          (λ port e. h port (ground (arith, e))) in
      rw (declared, found, rest, declared_eps) (_, refl)

  step_eps_of_found :
      (info : SolverInfo F) (hull : Dict (Interval F)) (ports : List String) (measured : List F)
      → ((port : String) → elem port ports ≡ true → Has info.accuracy port)
      → ((port : String) → elem port ports ≡ true → Has hull port)
      → (eps : F) × (step_eps_of info hull ports measured ≡ ok eps)
  unfolding step_eps_of
  step_eps_of_found info hull ports (m ∷ ms) a h = (_, refl)
  step_eps_of_found info hull ports [] a h =
      let (es, found) = declared_eps_found info.accuracy hull ports a h in rw found (_, refl)

module _ {F : Type 0} ⦃o : FloatOps F⦄ (repr : Repr F) (port_table : Dict PortDecl) where
  -- A hull with every scalar output, or a failure of this step; no missing key.
  unfoldable pub IsClean : SolverInfo F → Result (StepEntry F) (Abort F) → Type 0
  IsClean info (ok entry) =
      (port : String) → elem port (scalar_outputs_of port_table info) ≡ true → Has entry.hull port
  IsClean info (err (step_failed id _)) = id ≡ info.solver_id
  IsClean info (err (key_error _)) = ⊥

  finish_sweep-IsClean :
      (info : SolverInfo F) (x : Result (Dict (Interval F)) (SolveError F) × Collected F)
      → DeclaresAccuracy info
      → ((hull : Dict (Interval F)) (port : String)
          → x.0 ≡ ok hull
          → elem port (scalar_outputs_of port_table info) ≡ true
          → Has hull port)
      → IsClean info (finish_sweep repr port_table info x)
  unfolding finish_sweep IsClean scalar_outputs_of
  finish_sweep-IsClean info (err e, s) a h = refl
  finish_sweep-IsClean info (ok hull, s) a h =
      let scalars = scalar_outputs_of port_table info in
      elim (Result-cases (invariant_refs s.produced [])) [
        | inr (port, varied) ↦ rw (varied, finish_sweep) refl
        | inl (refs, same) ↦
            let (eps, found) =
              step_eps_of_found info hull scalars s.measured
                (λ port e. a port (elem-keep _ info.outputs port e))
                (λ port e. h hull port refl e) in
            rw (same, found, finish_sweep) (λ port e. h hull port refl e)
      ]

  -- If a solver declares an accuracy for each of its outputs, then a run of its step without the
  -- cache, on any box, payload inputs and budget, either gives an entry whose hull has every scalar
  -- output, or fails with an error value under the solver's own id; it raises no KeyError.
  pub fresh_step-IsClean :
      (info : SolverInfo F) (fn : SolveFn F) (box : Dict (Interval F))
      (payload_inputs : Dict PayloadRef) (budget : Option F)
      → DeclaresAccuracy info
      → IsClean info (fresh_step repr port_table info fn box payload_inputs budget)
  unfolding fresh_step corner_fn
  fresh_step-IsClean info fn box payload_inputs budget a =
      let scalars = scalar_outputs_of port_table info in
      let payloads = payload_outputs_of port_table info in
      let eval = corner_fn repr port_table info fn payload_inputs scalars payloads budget in
      let start : Collected F = record { measured = []; produced = [] } in
      finish_sweep-IsClean info (corner_sweep eval box start) a (λ hull port swept e.
        corner_sweep-Has eval box hull start port
          (λ corner s outs ran.
            check_corner-Has repr port_table info scalars payloads
              (invoke_solve_fn fn (full_corner corner payload_inputs) budget) s outs port e ran)
          swept)
