-- ===== src/Plan/Walk/Attribution.antt =====
-- The solver id beside an execution's error (`execute_with_attribution` of
-- python/feldspar/plan/execute.py).
use feldspar.Prelude.{
  String, ◌≡◌, true, Option, none, some, List, [], ◌∷◌, Result, ok, err, ◌>>=◌, elem, arith, inl,
  inr, Bool-cases, Option-cases, Result-cases, eq_iff, ◌==◌, subst,
}
use feldspar.Prelude.Dict.{Dict, lookup}
use feldspar.Prelude.Float.{FloatOps}
use feldspar.Core.{Interval, Accuracy, PortDecl, PayloadRef}
use feldspar.Core.Sweep.{corner_sweep}
use feldspar.Solve.Registry.{Entry}
use feldspar.Plan.Step.{check_step_output_domain, corner_fn, Collected, split_step_inputs}
use feldspar.Plan.Execute.{
  solver_of, scalar_outputs_of, payload_outputs_of, input_box, declared_eps, step_eps_of,
  finish_sweep, fresh_step, invariant_refs,
}
use feldspar.Plan.Models.{Route, RouteStep, Abort, step_failed, key_error, Repr}
use feldspar.Plan.Walk.{
  run_steps, solution_of, finish_walk, execute_route, route_settings_digest, start_walk, run_step,
  run_prepared, finish_step, Digests, Walk, Prepared, prepare, takes_part, store_fresh, or_fresh,
  step_entry,
}
use feldspar.Solve.Errors.{SolveError}
use feldspar.Solve.Models.{SolverInfo, SolveFn}
use feldspar.Plan.StepCache.{StepEntry, PayloadStepCache}

-- An error beside an id blames one of the ids.
abbrev pub Blames : {F A : Type 0} → List String → Result A (Abort F) → Type 0
Blames ids (ok _) = Unit
Blames ids (err (key_error _)) = Unit
Blames ids (err (step_failed id _)) = elem id ids ≡ true

Blames-bind :
    {F A B : Type 0} (ids : List String) (m : Result A (Abort F)) (f : A → Result B (Abort F))
    → Blames ids m
    → ((a : A) → Blames ids (f a))
    → Blames ids (m >>= f)
Blames-bind ids (ok a) f h k = k a
Blames-bind ids (err (key_error _)) f h k = tt
Blames-bind ids (err (step_failed _ _)) f h k = h

elem_self : (k : String) (ks : List String) → elem k (k ∷ ks) ≡ true
elem_self k ks = ground (arith, eq_iff k k)

module _ {F : Type 0} ⦃o : FloatOps F⦄ (ids : List String) where
  input_box-Blames :
      (known : Dict (Interval F)) (eps_map : Dict F) (ports : List String) (acc : Dict (Interval F))
      → Blames ids (input_box known eps_map ports acc)
  unfolding input_box
  input_box-Blames known eps_map [] acc = tt
  input_box-Blames known eps_map (port ∷ ports) acc = elim (Option-cases (lookup port known)) [
    | inl e ↦ rw (e, input_box) tt
    | inr (v, e) ↦ rw (e, input_box) (input_box-Blames known eps_map ports _)
  ]

  declared_eps-Blames :
      (accuracy : Dict (Accuracy F)) (hull : Dict (Interval F)) (ports : List String)
      → Blames ids (declared_eps accuracy hull ports)
  unfolding declared_eps
  declared_eps-Blames accuracy hull [] = tt
  declared_eps-Blames accuracy hull (port ∷ ports) = elim (Option-cases (lookup port accuracy)) [
    | inl e ↦ rw (e, declared_eps) tt
    | inr (a, e) ↦ elim (Option-cases (lookup port hull)) [
      | inl g ↦ rw (e, g, declared_eps) tt
      | inr (v, g) ↦
          rw (e, g, declared_eps)
            (Blames-bind ids (declared_eps accuracy hull ports) _
              (declared_eps-Blames accuracy hull ports) (λ _. tt))
    ]
  ]

  step_eps_of-Blames :
      (info : SolverInfo F) (hull : Dict (Interval F)) (ports : List String) (measured : List F)
      → Blames ids (step_eps_of info hull ports measured)
  unfolding step_eps_of
  step_eps_of-Blames info hull ports [] =
      Blames-bind ids (declared_eps info.accuracy hull ports) _
        (declared_eps-Blames info.accuracy hull ports) (λ _. tt)
  step_eps_of-Blames info hull ports (m ∷ ms) = tt

module _ {F : Type 0} ⦃o : FloatOps F⦄ (repr : Repr F) (digests : Digests F)
    (port_table : Dict PortDecl) where
  finish_sweep-Blames :
      (info : SolverInfo F) (ids : List String)
      (x : Result (Dict (Interval F)) (SolveError F) × Collected F)
      → elem info.solver_id ids ≡ true
      → Blames ids (finish_sweep repr port_table info x)
  unfolding finish_sweep
  finish_sweep-Blames info ids (err e, s) h = h
  finish_sweep-Blames info ids (ok hull, s) h = elim (Result-cases (invariant_refs s.produced [])) [
    | inr (port, e) ↦ rw (e, finish_sweep) h
    | inl (refs, e) ↦
        rw (e, finish_sweep)
          (Blames-bind ids (step_eps_of info hull _ s.measured) _
            (step_eps_of-Blames ids info hull _ s.measured) (λ _. tt))
  ]

  prepare-Blames :
      (info : SolverInfo F) (ids : List String) (budget : Option F) (w : Walk F)
      → elem info.solver_id ids ≡ true
      → Blames ids (prepare repr digests port_table info budget w)
  unfolding prepare
  prepare-Blames info ids budget w h =
      elim (Result-cases (
        split_step_inputs port_table info.inputs w.known w.payload_values
          (record { scalar_ports = []; payload_inputs = [] }))) [
            | inr (e, p) ↦ rw (p, prepare) h
            | inl (split, p) ↦
                rw (p, prepare)
                  (Blames-bind ids (input_box w.known w.eps_map split.scalar_ports []) _
                    (input_box-Blames ids w.known w.eps_map split.scalar_ports []) (λ _. tt))
          ]

  or_fresh-Blames :
      (ids : List String) (key : String) (fresh : Result (StepEntry F) (Abort F))
      (x : Option (StepEntry F) × PayloadStepCache F)
      → Blames ids fresh
      → Blames ids (or_fresh repr digests port_table key fresh x).0
  unfolding or_fresh store_fresh
  or_fresh-Blames ids key fresh (some entry, cache) h = tt
  or_fresh-Blames ids key (ok entry) (none, cache) h = tt
  or_fresh-Blames ids key (err e) (none, cache) h = h

  fresh_step-Blames :
      (info : SolverInfo F) (fn : SolveFn F) (ids : List String) (p : Prepared F)
      → elem info.solver_id ids ≡ true
      → Blames ids (fresh_step repr port_table info fn p.box p.payload_inputs p.budget)
  unfolding fresh_step
  fresh_step-Blames info fn ids p h =
      finish_sweep-Blames info ids
        (corner_sweep
          (corner_fn repr port_table info fn p.payload_inputs (scalar_outputs_of port_table info)
            (payload_outputs_of port_table info) p.budget)
          p.box (record { measured = []; produced = [] }))
        h

  step_entry-Blames :
      (info : SolverInfo F) (fn : SolveFn F) (ids : List String) (p : Prepared F)
      (cache : Option (PayloadStepCache F))
      → elem info.solver_id ids ≡ true
      → Blames ids (step_entry repr digests port_table info fn p cache).0
  unfolding step_entry
  step_entry-Blames info fn ids p none h = fresh_step-Blames info fn ids p h
  step_entry-Blames info fn ids p (some cache) h =
      elim (Bool-cases (takes_part repr digests port_table info p.payload_inputs)) [
        | inr e ↦ rw (e, step_entry) (fresh_step-Blames info fn ids p h)
        | inl e ↦ rw (e, step_entry) (or_fresh-Blames ids _ _ _ (fresh_step-Blames info fn ids p h))
      ]

  finish_step-Blames :
      (info : SolverInfo F) (ids : List String) (entry : StepEntry F) (w : Walk F)
      → elem info.solver_id ids ≡ true
      → Blames ids (finish_step repr digests port_table info entry w)
  unfolding finish_step
  finish_step-Blames info ids entry w h =
      elim (Result-cases (check_step_output_domain info.domain.box entry.hull entry.step_eps)) [
        | inl (_, e) ↦ rw (e, finish_step) tt
        | inr (x, e) ↦ rw (e, finish_step) h
      ]

  run_prepared-Blames :
      (info : SolverInfo F) (ids : List String) (w : Walk F)
      (x : Result (StepEntry F) (Abort F) × Option (PayloadStepCache F))
      → elem info.solver_id ids ≡ true
      → Blames ids x.0
      → Blames ids (run_prepared repr digests port_table info w x).0
  unfolding run_prepared
  run_prepared-Blames info ids w (res, cache) h b =
      Blames-bind ids res _ b (λ entry. finish_step-Blames info ids entry w h)

  run_step-Blames :
      (e : Entry F) (ids : List String) (budget : Option F) (w : Walk F)
      (cache : Option (PayloadStepCache F))
      → elem e.0.solver_id ids ≡ true
      → Blames ids (run_step repr digests port_table e budget w cache).0
  unfolding run_step
  run_step-Blames e ids budget w cache h =
      let b = prepare-Blames e.0 ids budget w h in
      elim (Result-cases (prepare repr digests port_table e.0 budget w)) [
        | inr (a, p) ↦ rw (p, run_step) (subst (λ x. Blames ids x) p b)
        | inl (x, p) ↦
            rw (p, run_step)
              (run_prepared-Blames e.0 ids w (step_entry repr digests port_table e.0 e.1 x cache) h
                (step_entry-Blames e.0 e.1 ids x cache h))
      ]

-- The ids of a route's steps.
abbrev pub step_ids : {F : Type 0} → List (RouteStep F) → List String
step_ids [] = []
step_ids (s ∷ steps) = s.solver_id ∷ step_ids steps

pub solver_of-id :
    {F : Type 0} (solvers : List (Entry F)) (id : String) (e : Entry F)
    → solver_of solvers id ≡ some e
    → e.0.solver_id ≡ id
unfolding solver_of
solver_of-id [] id e h = cc
solver_of-id (x ∷ solvers) id e h = elim (Bool-cases (x.0.solver_id == id)) [
  | inr miss ↦ solver_of-id solvers id e (ground (arith, miss, h))
  | inl hit ↦ ground (arith, eq_iff x.0.solver_id id, hit, h)
]

Blames-cons :
    {F A : Type 0} (k : String) (ids : List String) (m : Result A (Abort F))
    → Blames ids m
    → Blames (k ∷ ids) m
Blames-cons k ids (ok _) h = tt
Blames-cons k ids (err (key_error _)) h = tt
Blames-cons k ids (err (step_failed id _)) h = ground arith

module _ {F : Type 0} ⦃o : FloatOps F⦄ (repr : Repr F) (digests : Digests F)
    (port_table : Dict PortDecl) where
  run_steps-Blames :
      (solvers : List (Entry F)) (budget : Option F) (steps : List (RouteStep F)) (w : Walk F)
      (cache : Option (PayloadStepCache F))
      → Blames (step_ids steps) (run_steps repr digests port_table solvers budget steps w cache).0
  unfolding run_steps
  run_steps-Blames solvers budget [] w cache = tt
  run_steps-Blames solvers budget (step ∷ steps) w cache =
      elim (Option-cases (solver_of solvers step.solver_id)) [
        | inl e ↦ rw (e, run_steps) tt
        | inr (e, found) ↦
            let same = solver_of-id solvers step.solver_id e found in
            let b =
              run_step-Blames repr digests port_table e (step_ids (step ∷ steps)) budget w cache (
                ground (
                  arith,
                  eq_iff e.0.solver_id step.solver_id,
                  eq_iff step.solver_id e.0.solver_id,
                  same,
                )) in
            let out = run_step repr digests port_table e budget w cache in
            elim (Result-cases out.0) [
              | inr (a, p) ↦
                  rw (found, p, run_steps) (subst (λ x. Blames (step_ids (step ∷ steps)) x) p b)
              | inl (w', p) ↦
                  rw (found, p, run_steps)
                    (Blames-cons step.solver_id (step_ids steps)
                      (run_steps repr digests port_table solvers budget steps w' out.1).0
                      (run_steps-Blames solvers budget steps w' out.1))
            ]
      ]

  solution_of-Blames :
      (solvers : List (Entry F)) (route : Route F) (ids : List String) (w : Walk F)
      → Blames ids (solution_of repr digests port_table solvers route w)
  unfolding solution_of
  solution_of-Blames solvers route ids w = elim (Option-cases (lookup route.target w.known)) [
    | inl e ↦ rw (e, solution_of) tt
    | inr (v, e) ↦ elim (Result-cases (route_settings_digest digests solvers route.steps)) [
      | inl (d, g) ↦ rw (e, g, solution_of) tt
      | inr (k, g) ↦ rw (e, g, solution_of) tt
    ]
  ]

  -- Whatever the route, registry, cache and budget, an execution that ends with an error value
  -- names the id of a step of its route beside it.
  pub execute_route-Blames :
      (solvers : List (Entry F)) (route : Route F) (known : Dict (Interval F))
      (payloads : Dict PayloadRef) (cache : Option (PayloadStepCache F)) (budget : Option F)
      → Blames
          (step_ids route.steps)
          (execute_route repr digests port_table solvers route known payloads cache budget).0
  unfolding execute_route finish_walk
  execute_route-Blames solvers route known payloads cache budget =
      Blames-bind (step_ids route.steps)
        (run_steps repr digests port_table solvers budget route.steps
          (start_walk repr digests port_table known payloads) cache).0
        _ (run_steps-Blames solvers budget route.steps _ cache)
        (λ w. solution_of-Blames solvers route (step_ids route.steps) w)
