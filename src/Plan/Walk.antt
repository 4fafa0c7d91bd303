-- ===== src/Plan/Walk.antt =====
-- The loop of `_execute_impl` over a route, with `route_settings_digest`
-- (python/feldspar/plan/execute.py). The step cache, if there is one, is threaded through. A raised
-- `KeyError` is a value of the result.
pub mod Attribution
pub mod Cached
pub mod Transparent
pub mod OutputDomain
use feldspar.Prelude.{
  String, Bool, true, false, not, ◌&&◌, ◌||◌, Option, none, some, List, [], ◌∷◌, Result, ok, err,
  ◌>>=◌, map,
}
use feldspar.Prelude.Dict.{Dict, lookup, insert, update}
use feldspar.Prelude.Float.{FloatOps}
use feldspar.Core.{Interval, Domain, PayloadRef, PortDecl}
use feldspar.Solve.Models.{SolverInfo, SolveFn, Citation}
use feldspar.Solve.Registry.{Entry}
use feldspar.Plan.Models.{Abort, step_failed, key_error, Repr, Route, RouteStep, Solution}
use feldspar.Plan.StepCache.{
  StepEntry, StepIdentity, PayloadStepCache, step_identity, step_cache_get, step_cache_put,
}
use feldspar.Plan.Step.{split_step_inputs, check_step_output_domain}
use feldspar.Plan.Execute.{
  is_empty, solver_of, payload_outputs_of, input_box, remaining_budget, fresh_step,
}

-- The hashes and the version that the executor folds in.
pub record Digests (F : Type 0) : Type 0 where
  pub of_step : StepIdentity F → String
  pub of_settings : List String → String
  pub feldspar_version : String

-- The maps that grow from step to step.
pub record Walk (F : Type 0) : Type 0 where
  pub known : Dict (Interval F)
  pub eps_map : Dict F
  pub payload_values : Dict PayloadRef
  pub solver_versions : Dict String
  pub step_eps : Dict F
  pub step_citations : Dict (List Citation)
  pub step_declared_domain : Dict (Domain F)
  pub step_algebraic_form : Dict String
  pub step_admission_predicate : Dict String
  pub final_eps : F

-- `d[k] = v` unless `v is None`
unfoldable pub insert_some : String → Option String → Dict String → Dict String
unfolding insert
insert_some k none d = d
insert_some k (some v) d = insert k v d

module _ {F : Type 0} where
  -- A missing id is the error.
  unfoldable pub route_settings : List (Entry F) → List (RouteStep F) → Result (List String) String
  unfolding solver_of
  route_settings solvers [] = ok []
  route_settings solvers (step ∷ steps) = elim (solver_of solvers step.solver_id) [
    | none ↦ err step.solver_id
    | some e ↦ route_settings solvers steps >>= λ rest. ok (e.0.settings_digest ∷ rest)
  ]

  unfoldable pub route_settings_digest :
      Digests F → List (Entry F) → List (RouteStep F) → Result String String
  unfolding route_settings
  route_settings_digest digests solvers steps =
      route_settings solvers steps >>= λ settings. ok (digests.of_settings settings)

-- A step's inputs once they are split and boxed.
pub record Prepared (F : Type 0) : Type 0 where
  pub box : Dict (Interval F)
  pub payload_inputs : Dict PayloadRef
  pub budget : Option F

module _ {F : Type 0} ⦃o : FloatOps F⦄ (repr : Repr F) (digests : Digests F)
    (port_table : Dict PortDecl) where
  unfoldable pub prepare : SolverInfo F → Option F → Walk F → Result (Prepared F) (Abort F)
  unfolding split_step_inputs input_box remaining_budget
  prepare info eps_budget w =
      elim (split_step_inputs port_table info.inputs w.known w.payload_values
        (record { scalar_ports = []; payload_inputs = [] })) [
          | err e ↦ err (step_failed info.solver_id e)
          | ok split ↦ input_box w.known w.eps_map split.scalar_ports [] >>= λ box. ok (record {
            box = box;
            payload_inputs = split.payload_inputs;
            budget = remaining_budget eps_budget w.eps_map split.scalar_ports;
          })
        ]

  -- Only deterministic steps that touch a payload take part in the cache.
  unfoldable pub takes_part : SolverInfo F → Dict PayloadRef → Bool
  unfolding payload_outputs_of
  takes_part info payload_inputs =
      info.deterministic
      && (not (is_empty payload_inputs) || not (is_empty (payload_outputs_of port_table info)))

  unfoldable pub step_key : SolverInfo F → Dict (Interval F) → Dict PayloadRef → String
  unfolding step_identity
  step_key info box payload_inputs =
      digests.of_step (step_identity digests.feldspar_version info box payload_inputs)

  -- A computed entry is stored, an error is not.
  unfoldable pub store_fresh :
      String
      → PayloadStepCache F
      → Result (StepEntry F) (Abort F)
      → Result (StepEntry F) (Abort F) × Option (PayloadStepCache F)
  unfolding step_cache_put
  store_fresh key cache (err e) = (err e, some cache)
  store_fresh key cache (ok entry) = (ok entry, some (step_cache_put key entry cache))

  unfoldable pub or_fresh :
      String
      → Result (StepEntry F) (Abort F)
      → Option (StepEntry F) × PayloadStepCache F
      → Result (StepEntry F) (Abort F) × Option (PayloadStepCache F)
  unfolding store_fresh
  or_fresh key fresh (some entry, cache) = (ok entry, some cache)
  or_fresh key fresh (none, cache) = store_fresh key cache fresh

  -- A step's entry, from the cache or from a run.
  unfoldable pub step_entry :
      SolverInfo F
      → SolveFn F
      → Prepared F
      → Option (PayloadStepCache F)
      → Result (StepEntry F) (Abort F) × Option (PayloadStepCache F)
  unfolding fresh_step takes_part step_key step_cache_get or_fresh
  step_entry info fn p none =
      (fresh_step repr port_table info fn p.box p.payload_inputs p.budget, none)
  step_entry info fn p (some cache) =
      let fresh = fresh_step repr port_table info fn p.box p.payload_inputs p.budget in
      let key = step_key info p.box p.payload_inputs in
      elim (takes_part info p.payload_inputs) [
        | false ↦ (fresh, some cache)
        | true ↦ or_fresh key fresh (step_cache_get key fn.probe_tools cache)
      ]

  -- The maps after a step.
  unfoldable pub advance : SolverInfo F → StepEntry F → Walk F → Walk F
  unfolding update insert insert_some
  advance info entry w = record {
    known = update w.known entry.hull;
    eps_map = update w.eps_map (map (λ e. (e.0, entry.step_eps)) entry.hull);
    payload_values = update w.payload_values entry.payloads;
    solver_versions = insert info.solver_id info.version w.solver_versions;
    step_eps = insert info.solver_id entry.step_eps w.step_eps;
    step_citations = insert info.solver_id info.citations w.step_citations;
    step_declared_domain = insert info.solver_id info.domain w.step_declared_domain;
    step_algebraic_form = insert_some info.solver_id info.algebraic_form w.step_algebraic_form;
    step_admission_predicate =
        insert_some info.solver_id info.admission_predicate w.step_admission_predicate;
    final_eps = entry.step_eps;
  }

  -- The domain check of a step's entry, then the maps.
  unfoldable pub finish_step : SolverInfo F → StepEntry F → Walk F → Result (Walk F) (Abort F)
  unfolding check_step_output_domain advance
  finish_step info entry w =
      elim (check_step_output_domain info.domain.box entry.hull entry.step_eps) [
        | err e ↦ err (step_failed info.solver_id e)
        | ok _ ↦ ok (advance info entry w)
      ]

  unfoldable pub run_prepared :
      SolverInfo F
      → Walk F
      → Result (StepEntry F) (Abort F) × Option (PayloadStepCache F)
      → Result (Walk F) (Abort F) × Option (PayloadStepCache F)
  unfolding finish_step
  run_prepared info w (res, cache) = (res >>= λ entry. finish_step info entry w, cache)

  -- One iteration of the loop.
  unfoldable pub run_step :
      Entry F
      → Option F
      → Walk F
      → Option (PayloadStepCache F)
      → Result (Walk F) (Abort F) × Option (PayloadStepCache F)
  unfolding prepare step_entry run_prepared
  run_step e eps_budget w cache = elim (prepare e.0 eps_budget w) [
    | err a ↦ (err a, cache)
    | ok p ↦ run_prepared e.0 w (step_entry e.0 e.1 p cache)
  ]

  unfoldable pub run_steps :
      List (Entry F)
      → Option F
      → List (RouteStep F)
      → Walk F
      → Option (PayloadStepCache F)
      → Result (Walk F) (Abort F) × Option (PayloadStepCache F)
  unfolding run_step solver_of
  run_steps solvers eps_budget [] w cache = (ok w, cache)
  run_steps solvers eps_budget (step ∷ steps) w cache = elim (solver_of solvers step.solver_id) [
    | none ↦ (err (key_error step.solver_id), cache)
    | some e ↦
        let (res, cache') = run_step e eps_budget w cache in
        elim res [ err a ↦ (err a, cache') | ok w' ↦ run_steps solvers eps_budget steps w' cache' ]
  ]

  unfoldable pub start_walk : Dict (Interval F) → Dict PayloadRef → Walk F
  start_walk known payloads = record {
    known = known;
    eps_map = map (λ e. (e.0, o.zero)) known;
    payload_values = payloads;
    solver_versions = [];
    step_eps = [];
    step_citations = [];
    step_declared_domain = [];
    step_algebraic_form = [];
    step_admission_predicate = [];
    final_eps = o.zero;
  }

  -- The solution of a walk that reached the end of its route.
  unfoldable pub solution_of : List (Entry F) → Route F → Walk F → Result (Solution F) (Abort F)
  unfolding lookup route_settings_digest
  solution_of solvers route w = elim (lookup route.target w.known) [
    | none ↦ err (key_error route.target)
    | some value ↦ elim (route_settings_digest digests solvers route.steps) [
      | err key ↦ err (key_error key)
      | ok settings_digest ↦ ok (record {
        target = route.target;
        value = value;
        eps = w.final_eps;
        route = route;
        settings_digest = settings_digest;
        solver_versions = w.solver_versions;
        attempts = [];
        cache_hit = false;
        step_eps = w.step_eps;
        step_citations = w.step_citations;
        step_declared_domain = w.step_declared_domain;
        step_algebraic_form = w.step_algebraic_form;
        step_admission_predicate = w.step_admission_predicate;
        eps_budget = none;
      })
    ]
  ]

  unfoldable pub finish_walk :
      List (Entry F)
      → Route F
      → Result (Walk F) (Abort F) × Option (PayloadStepCache F)
      → Result (Solution F) (Abort F) × Option (PayloadStepCache F)
  unfolding solution_of
  finish_walk solvers route (res, cache) = (res >>= solution_of solvers route, cache)

  -- `execute_with_attribution`; a route with no step leaves the walk as it starts.
  unfoldable pub execute_route :
      List (Entry F)
      → Route F
      → Dict (Interval F)
      → Dict PayloadRef
      → Option (PayloadStepCache F)
      → Option F
      → Result (Solution F) (Abort F) × Option (PayloadStepCache F)
  unfolding run_steps finish_walk start_walk
  execute_route solvers route known payloads cache eps_budget =
      finish_walk solvers route
        (run_steps solvers eps_budget route.steps (start_walk known payloads) cache)
