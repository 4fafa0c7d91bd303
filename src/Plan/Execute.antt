-- ===== src/Plan/Execute.antt =====
-- A step's run without the cache in `_execute_impl` (python/feldspar/plan/execute.py): its box, its
-- budget, its payload outputs and its realized error. A raised `KeyError` is a value of the result.
pub mod Outputs
use feldspar.Prelude.{
  String, ◌<>◌, ◌==◌, Bool, true, false, not, Option, none, some, List, [], ◌∷◌, Result, ok, err,
  ◌>>=◌, map, if◌then◌else◌, keep, any, elem,
}
use feldspar.Prelude.Dict.{Dict, lookup, insert}
use feldspar.Prelude.Float.{FloatOps, max, max_of}
use feldspar.Core.{Interval, Accuracy, PayloadRef, PortDecl, ref_eq}
use feldspar.Core.Sweep.{inflate, worst_over, corner_sweep}
use feldspar.Solve.Errors.{SolveError}
use feldspar.Solve.Models.{SolverInfo, SolveFn}
use feldspar.Solve.Registry.{Entry}
use feldspar.Plan.Models.{Abort, step_failed, key_error, Repr}
use feldspar.Plan.StepCache.{StepEntry}
use feldspar.Plan.Step.{is_payload_port, Collected, corner_fn}

abbrev pub is_empty : {A : Type 0} → List A → Bool
is_empty [] = true
is_empty (_ ∷ _) = false

-- `solver_map[solver_id]`
unfoldable pub solver_of : {F : Type 0} → List (Entry F) → String → Option (Entry F)
solver_of [] id = none
solver_of (e ∷ es) id = let rest = solver_of es id in if e.0.solver_id == id then some e else rest

-- `payload_outputs` and `scalar_outputs`
unfoldable pub payload_outputs_of : {F : Type 0} → Dict PortDecl → SolverInfo F → List String
unfolding is_payload_port
payload_outputs_of port_table info = keep (is_payload_port port_table) info.outputs

unfoldable pub scalar_outputs_of : {F : Type 0} → Dict PortDecl → SolverInfo F → List String
unfolding payload_outputs_of
scalar_outputs_of port_table info =
    keep (λ port. not (elem port (payload_outputs_of port_table info))) info.outputs

-- The first payload output that varied across corners, or the one reference of each.
unfoldable pub invariant_refs :
    Dict (List PayloadRef) → Dict PayloadRef → Result (Dict PayloadRef) String
unfolding ref_eq insert
invariant_refs [] acc = ok acc
invariant_refs ((port, []) ∷ produced) acc = invariant_refs produced acc
invariant_refs ((port, first ∷ refs) ∷ produced) acc =
    elim (any (λ ref. not (ref_eq ref first)) refs) [
      | true ↦ err port
      | false ↦ invariant_refs produced (insert port first acc)
    ]

module _ {F : Type 0} ⦃o : FloatOps F⦄ where
  abbrev pub eps_at : Dict F → String → F
  eps_at eps_map port = elim (lookup port eps_map) [ none ↦ o.zero | some eps ↦ eps ]

  -- `{port: inflate(values[port], eps_map.get(port, 0.0)) for port in scalar_ports}`
  unfoldable pub input_box :
      Dict (Interval F)
      → Dict F
      → List String
      → Dict (Interval F)
      → Result (Dict (Interval F)) (Abort F)
  unfolding lookup insert inflate
  input_box known eps_map [] acc = ok acc
  input_box known eps_map (port ∷ ports) acc = elim (lookup port known) [
    | none ↦ err (key_error port)
    | some value ↦
        input_box known eps_map ports (insert port (inflate value (eps_at eps_map port)) acc)
  ]

  -- What is left of the budget once the inputs' errors are charged.
  unfoldable pub remaining_budget : Option F → Dict F → List String → Option F
  unfolding lookup
  remaining_budget none eps_map scalar_ports = none
  remaining_budget (some budget) eps_map scalar_ports =
      some (max (o.sub budget (max_of o.zero (map (eps_at eps_map) scalar_ports))) o.zero)

  -- `info.accuracy[port].worst_over(hull[port])` for each scalar output
  unfoldable pub declared_eps :
      Dict (Accuracy F) → Dict (Interval F) → List String → Result (List F) (Abort F)
  unfolding lookup worst_over
  declared_eps accuracy hull [] = ok []
  declared_eps accuracy hull (port ∷ ports) = elim (lookup port accuracy) [
    | none ↦ err (key_error port)
    | some a ↦ elim (lookup port hull) [
      | none ↦ err (key_error port)
      | some value ↦ declared_eps accuracy hull ports >>= λ rest. ok (worst_over a value ∷ rest)
    ]
  ]

  -- The realized error: the worst measurement, or else the worst declared one.
  unfoldable pub step_eps_of :
      SolverInfo F → Dict (Interval F) → List String → List F → Result F (Abort F)
  unfolding declared_eps
  step_eps_of info hull scalar_outputs [] =
      declared_eps info.accuracy hull scalar_outputs >>= λ es. ok (max_of o.zero es)
  step_eps_of info hull scalar_outputs (m ∷ ms) = ok (max_of o.zero (m ∷ ms))

  module _ (repr : Repr F) (port_table : Dict PortDecl) where
    -- From a step's sweep on: the invariant payloads, then the error.
    unfoldable pub finish_sweep :
        SolverInfo F
        → Result (Dict (Interval F)) (SolveError F) × Collected F
        → Result (StepEntry F) (Abort F)
    unfolding invariant_refs step_eps_of scalar_outputs_of
    finish_sweep info (err e, s) = err (step_failed info.solver_id e)
    finish_sweep info (ok hull, s) = elim (invariant_refs s.produced []) [
      | err port ↦ err (
          step_failed info.solver_id (
            SolveError.invalid_measurement (
              "payload output "
              <> (port
                  <> (" of "
                      <> (info.solver_id
                          <> " varied across corners (payloads are exact by reference, 09 sec. 4)"))))))
      | ok refs ↦ step_eps_of info hull (scalar_outputs_of port_table info) s.measured >>= λ eps.
          ok (record { hull = hull; payloads = refs; step_eps = eps })
    ]

    -- A step's run without the cache.
    unfoldable pub fresh_step :
        SolverInfo F
        → SolveFn F
        → Dict (Interval F)
        → Dict PayloadRef
        → Option F
        → Result (StepEntry F) (Abort F)
    unfolding corner_fn corner_sweep finish_sweep scalar_outputs_of payload_outputs_of
    fresh_step info fn box payload_inputs budget = finish_sweep info (
        corner_sweep
          (corner_fn repr port_table info fn payload_inputs (scalar_outputs_of port_table info)
            (payload_outputs_of port_table info) budget)
          box (record { measured = []; produced = [] }))
