-- ===== src/Plan/Step.antt =====
-- The parts of a step (python/feldspar/plan/execute.py): the split of its inputs, the checks of its
-- output, and the callback of its corner sweep.
pub mod Outputs
pub mod Finite
use feldspar.Prelude.{
  String, ◌<>◌, ◌==◌, Bool, true, false, not, ◌&&◌, Option, none, some, List, [], ◌∷◌, ◌++◌, Result,
  ok, err, map, ◌||◌, if◌then◌else◌,
}
use feldspar.Prelude.Dict.{Dict, lookup, insert, contains, update}
use feldspar.Prelude.Float.{FloatOps, lt}
use feldspar.Core.{Interval, PayloadRef, PortDecl, Rank, payload_kind}
use feldspar.Core.Sweep.{inflate, is_subset}
use feldspar.Solve.Errors.{SolveError}
use feldspar.Solve.Models.{
  SolverInfo, SolveFn, SolveOutput, Value, Outcome, number, payload, invoke_solve_fn,
}
use feldspar.Plan.Models.{Repr}

-- `_is_payload_port`: a port that is not declared is a scalar.
unfoldable pub is_payload_port : Dict PortDecl → String → Bool
unfolding lookup
is_payload_port port_table port = elim (lookup port port_table) [
  | none ↦ false
  | some decl ↦ elim decl.rank [ Rank.payload _ ↦ true | _ ↦ false ]
]

-- `_declared_kind`. It is asked of payload ports only, which are in the table.
unfoldable pub declared_kind : Dict PortDecl → String → String
unfolding lookup
declared_kind port_table port = elim (lookup port port_table) [
  | none ↦ ""
  | some decl ↦ elim (payload_kind decl.rank) [ none ↦ "" | some kind ↦ kind ]
]

-- The scalar ports and the payload inputs of a step.
pub record Split : Type 0 where
  pub scalar_ports : List String
  pub payload_inputs : Dict PayloadRef

module _ (port_table : Dict PortDecl) where
  -- A supplied reference at a payload port whose kind is not the declared one.
  unfoldable pub wrong_kind : String → PayloadRef → Bool
  unfolding is_payload_port declared_kind
  wrong_kind port ref =
      is_payload_port port_table port && not (ref.kind == declared_kind port_table port)

  unfoldable pub split_step_inputs :
      {F : Type 0}
      → List String
      → Dict (Interval F)
      → Dict PayloadRef
      → Split
      → Result Split (SolveError F)
  unfolding wrong_kind is_payload_port declared_kind lookup insert
  split_step_inputs [] known payload_values acc = ok acc
  split_step_inputs (port ∷ ports) known payload_values acc = elim (lookup port payload_values) [
    | some ref ↦ elim (wrong_kind port ref) [
      | true ↦ err (SolveError.payload_kind_mismatch port (declared_kind port_table port) ref.kind)
      | false ↦
          split_step_inputs ports known payload_values
            (record acc { payload_inputs = insert port ref acc.payload_inputs })
    ]
    | none ↦ elim (not (contains port known) && is_payload_port port_table port) [
      | true ↦ err (SolveError.missing_payload port)
      | false ↦
          split_step_inputs ports known payload_values
            (record acc { scalar_ports = acc.scalar_ports ++ port ∷ [] })
    ]
  ]

module _ {F : Type 0} ⦃o : FloatOps F⦄ where
  first_missing : List String → Dict F → Option String
  unfolding lookup
  first_missing [] out = none
  first_missing (port ∷ ports) out =
      let rest = first_missing ports out in if contains port out then rest else some port

  first_non_finite : Dict F → Option String
  first_non_finite [] = none
  first_non_finite (e ∷ out) =
      let rest = first_non_finite out in if o.is_finite e.1 then rest else some e.0

  -- `_check_step_output`
  unfoldable pub check_step_output : Dict F → List String → Result (Unit {0}) (SolveError F)
  unfolding first_missing first_non_finite
  check_step_output out scalar_outputs = elim (first_missing scalar_outputs out) [
    | some port ↦ err (SolveError.missing_output port)
    | none ↦ elim (first_non_finite out) [
      | some port ↦ err (SolveError.non_finite port)
      | none ↦ ok tt
    ]
  ]

  -- `_check_step_output_domain`
  unfoldable pub check_step_output_domain :
      Dict (Interval F) → Dict (Interval F) → F → Result (Unit {0}) (SolveError F)
  unfolding lookup inflate is_subset
  check_step_output_domain [] hull step_eps = ok tt
  check_step_output_domain (e ∷ box) hull step_eps =
      let rest = check_step_output_domain box hull step_eps in
      elim (lookup e.0 hull) [
        | none ↦ rest
        | some value ↦
            let inflated = inflate value step_eps in
            if is_subset inflated e.1
            then rest
            else err (SolveError.output_out_of_domain e.0 inflated.lo inflated.hi e.1.lo e.1.hi)
      ]

-- `full_corner`: the corner's numbers, updated by the payload inputs.
unfoldable pub full_corner : {F : Type 0} → Dict F → Dict PayloadRef → Dict (Value F)
unfolding update
full_corner corner refs =
    update (map (λ e. (e.0, number e.1)) corner) (map (λ e. (e.0, payload e.1)) refs)

-- What the corners of one step leave behind: the lists that the callback closes over.
pub record Collected (F : Type 0) : Type 0 where
  pub measured : List F
  pub produced : Dict (List PayloadRef)

-- `produced.setdefault(port, []).append(ref)`
unfoldable pub append_to : String → PayloadRef → Dict (List PayloadRef) → Dict (List PayloadRef)
unfolding lookup insert
append_to port ref produced = elim (lookup port produced) [
  | none ↦ insert port (ref ∷ []) produced
  | some refs ↦ insert port (refs ++ ref ∷ []) produced
]

-- `{port: values[port] for port in ports}`; every port is in the values.
unfoldable pub pick : {V : Type 0} → List String → Dict V → Dict V → Dict V
unfolding lookup insert
pick [] out acc = acc
pick (port ∷ ports) out acc = elim (lookup port out) [
  | none ↦ pick ports out acc
  | some v ↦ pick ports out (insert port v acc)
]

module _ {F : Type 0} ⦃o : FloatOps F⦄ (repr : Repr F) (port_table : Dict PortDecl) where
  -- The loop over the payload outputs: what was appended before an error stays.
  unfoldable pub collect_payloads :
      List String
      → Dict PayloadRef
      → Dict (List PayloadRef)
      → Result (Unit {0}) (SolveError F) × Dict (List PayloadRef)
  unfolding lookup declared_kind append_to
  collect_payloads [] refs produced = (ok tt, produced)
  collect_payloads (port ∷ ports) refs produced = elim (lookup port refs) [
    | none ↦ (err (SolveError.missing_output port), produced)
    | some ref ↦ elim (ref.kind == declared_kind port_table port) [
      | false ↦ (
        err (SolveError.payload_kind_mismatch port (declared_kind port_table port) ref.kind),
        produced,
      )
      | true ↦ collect_payloads ports refs (append_to port ref produced)
    ]
  ]

  -- The reported error is finite and not negative; it joins the measurements.
  unfoldable pub collect_measured :
      SolverInfo F → Option F → List F → Result (List F) (SolveError F)
  collect_measured info none measured = ok measured
  collect_measured info (some eps) measured =
      if not (o.is_finite eps) || lt eps o.zero
      then err (
          SolveError.invalid_measurement
            ("measured_eps=" <> (repr.of_float eps <> (" for " <> info.solver_id))))
      else ok (measured ++ eps ∷ [])

  -- The end of a corner, from the checked payloads on.
  unfoldable pub finish_corner :
      SolverInfo F
      → List String
      → SolveOutput F
      → List F
      → Result (Unit {0}) (SolveError F) × Dict (List PayloadRef)
      → Result (Dict F) (SolveError F) × Collected F
  unfolding collect_measured pick
  finish_corner info scalar_outputs out measured (err e, produced) =
      (err e, record { measured = measured; produced = produced })
  finish_corner info scalar_outputs out measured (ok _, produced) =
      elim (collect_measured info out.measured_eps measured) [
        | err e ↦ (err e, record { measured = measured; produced = produced })
        | ok measured' ↦ (
          ok (pick scalar_outputs out.values []),
          record { measured = measured'; produced = produced },
        )
      ]

  -- The checks of a corner's outcome.
  unfoldable pub check_corner :
      SolverInfo F
      → List String
      → List String
      → Outcome F
      → Collected F
      → Result (Dict F) (SolveError F) × Collected F
  unfolding check_step_output collect_payloads finish_corner
  check_corner info scalar_outputs payload_outputs (err e) s = (err e, s)
  check_corner info scalar_outputs payload_outputs (ok out) s =
      elim (check_step_output out.values scalar_outputs) [
        | err e ↦ (err e, s)
        | ok _ ↦
            finish_corner info scalar_outputs out s.measured
              (collect_payloads payload_outputs out.payloads s.produced)
      ]

  -- `_make_corner_fn(...)(corner)`
  unfoldable pub corner_fn :
      SolverInfo F
      → SolveFn F
      → Dict PayloadRef
      → List String
      → List String
      → Option F
      → Dict F
      → Collected F
      → Result (Dict F) (SolveError F) × Collected F
  unfolding full_corner invoke_solve_fn check_corner
  corner_fn info fn payload_inputs scalar_outputs payload_outputs budget corner s =
      check_corner info scalar_outputs payload_outputs
        (invoke_solve_fn fn (full_corner corner payload_inputs) budget) s
