-- ===== src/Plan/Attempt.antt =====
-- The parts of one attempt of `solve` (python/feldspar/plan/solve.py): the view without the excluded
-- solvers, `plan` (python/feldspar/plan/route.py), the key, the verdict on an execution, the cache. The
-- native search is a parameter.
use feldspar.Prelude.{
  String, ◌==◌, true, false, not, Option, none, some, List, [], ◌∷◌, ◌++◌, Result, ok, err, map,
  if◌then◌else◌, ◌>>=◌, keep, elem,
}
use feldspar.Prelude.Dict.{Dict, lookup, insert, contains}
use feldspar.Prelude.Float.{FloatOps, lt}
use feldspar.Core.{Interval, Domain, Accuracy, PayloadRef}
use feldspar.Core.Sweep.{total_error}
use feldspar.Solve.Errors.{AttemptRecord, SolveError}
use feldspar.Solve.Models.{SolverInfo, ClaimSenses}
use feldspar.Solve.Registry.{SolverRegistry, Entry, iterate, digest}
use feldspar.Plan.Models.{
  Abort, step_failed, key_error, Repr, Route, RouteStep, RoutePolicy, PlanError, Solution,
  error_to_record_fields, plan_error_fields,
}
use feldspar.Plan.StepCache.{PayloadStepCache}
use feldspar.Plan.Walk.{Digests, route_settings_digest}
use feldspar.Plan.Cache.{
  Request, RequestIdentity, request_identity, is_route_cacheable, StoredSolution, sorted_tags,
  solve_cache_get, solve_cache_put,
}

-- What the native search sees of a solver.
pub record PlanSolverInput (F : Type 0) : Type 0 where
  pub solver_id : String
  pub inputs : List String
  pub outputs : List String
  pub domain : Domain F
  pub cost : F
  pub accuracy : Dict (Accuracy F)
  pub sense : ClaimSenses

abbrev pub Search : Type 0 → Type 0
Search F =
    List (PlanSolverInput F)
    → Dict (Interval F)
    → List String
    → String
    → F
    → ClaimSenses
    → Result (Route F) (PlanError F)

-- The hashes of the cache's key.
pub record KeyDigests (F : Type 0) : Type 0 where
  pub of_registry : List (SolverInfo F) → String
  pub of_request : RequestIdentity F → String
  pub of_key : String → String → String → String → String

-- How a solve ends other than with a solution: an error value, or an exception.
pub data Failure (F : Type 0) : Type 0 where
  unplanned : PlanError F → Failure F
  unsolved : SolveError F → Failure F
  key_raised : (key : String) → Failure F
  index_raised : Failure F

-- The two caches' contents between the attempts.
pub record Disk (F : Type 0) : Type 0 where
  pub blobs : Dict (Option (StoredSolution F))
  pub steps : Option (PayloadStepCache F)

-- What an attempt at a route comes to.
pub data Verdict (F : Type 0) : Type 0 where
  accept : Solution F → Verdict F
  reroute : AttemptRecord F → (failing_id : String) → Verdict F
  stop : Failure F → Verdict F

-- `excluded | {id}`
unfoldable pub exclude : String → List String → List String
exclude id excluded = if elem id excluded then excluded else excluded ++ id ∷ []

module _ {F : Type 0} where
  -- `_ExcludingRegistryView.__iter__`
  unfoldable pub excluding : List (Entry F) → List String → List (Entry F)
  excluding solvers excluded = keep (λ e. not (elem e.0.solver_id excluded)) solvers

  unfoldable pub plan_input : Entry F → PlanSolverInput F
  plan_input e = record {
    solver_id = e.0.solver_id;
    inputs = e.0.inputs;
    outputs = e.0.outputs;
    domain = e.0.domain;
    cost = e.0.cost;
    accuracy = e.0.accuracy;
    sense = e.0.conservative_for;
  }

  unfoldable pub last_id : List (RouteStep F) → Option String
  last_id [] = none
  last_id (s ∷ []) = some s.solver_id
  last_id (_ ∷ s ∷ steps) = last_id (s ∷ steps)

module _ {F : Type 0} ⦃o : FloatOps F⦄ where
  -- A payload port that is not known as a scalar joins the known ports with width 0.
  unfoldable pub merge_payloads : Dict PayloadRef → Dict (Interval F) → Dict (Interval F)
  unfolding lookup insert
  merge_payloads [] known = known
  merge_payloads (e ∷ payloads) known =
      merge_payloads payloads (
        if contains e.0 known
        then known
        else insert e.0 (record { lo = o.zero; hi = o.zero }) known)

  module _ (search : Search F) where
    unfoldable pub plan : List (Entry F) → Request F → Result (Route F) (PlanError F)
    unfolding plan_input merge_payloads
    plan solvers q =
        search (map plan_input solvers) (merge_payloads q.payloads q.known) q.tags q.target
          q.eps_budget q.sense

  module _ (repr : Repr F) (digests : Digests F) (hashes : KeyDigests F)
      (policy : RoutePolicy) where
    unfoldable pub cache_key : SolverRegistry F → Request F → Route F → Result String String
    unfolding digest iterate request_identity route_settings_digest
    cache_key r q route =
        route_settings_digest digests (iterate r) route.steps >>= λ settings_digest. ok (
          hashes.of_key (digest hashes.of_registry r) (hashes.of_request (request_identity q))
            settings_digest digests.feldspar_version)

    -- The key under which the route's solution is looked up and stored, if it is cacheable.
    unfoldable pub key_if_cacheable :
        SolverRegistry F → Request F → Route F → Result (Option String) String
    unfolding is_route_cacheable iterate cache_key
    key_if_cacheable r q route =
        if policy.cache
        then (is_route_cacheable (iterate r) route.steps >>= (λ cacheable. elim cacheable [
          | false ↦ ok none
          | true ↦ cache_key r q route >>= λ key. ok (some key)
        ]))
        else ok none

    unfoldable pub attempt_of :
        List String → Option String → Option String → SolveError F → AttemptRecord F
    unfolding error_to_record_fields sorted_tags
    attempt_of excluded route_digest failed e = record {
      excluded = sorted_tags excluded;
      route_digest = route_digest;
      failed_solver_id = failed;
      error_kind = (error_to_record_fields repr e).0;
      error_detail = (error_to_record_fields repr e).1;
    }

    -- `failing_id or (route.steps[-1].solver_id if route.steps else None)`
    unfoldable pub failing_of : String → List (RouteStep F) → Option String
    unfolding last_id
    failing_of id steps = if id == "" then last_id steps else some id

    -- What the result of an execution comes to: the failed step, the budget, or the solution.
    unfoldable pub judge :
        Request F
        → Route F
        → List String
        → List (AttemptRecord F)
        → Result (Solution F) (Abort F)
        → Verdict F
    unfolding attempt_of failing_of last_id total_error
    judge q route excluded attempts (err (key_error key)) = stop (key_raised key)
    judge q route excluded attempts (err (step_failed id e)) =
        let attempt = attempt_of excluded (some route.digest) (some id) e in
        if not policy.fallback then stop (unsolved e) else elim (failing_of id route.steps) [
          | none ↦ stop (unsolved (SolveError.no_route_remaining (attempts ++ attempt ∷ [])))
          | some failing_id ↦ reroute attempt failing_id
        ]
    judge q route excluded attempts (ok solution) =
        let realized = total_error solution.value solution.eps in
        let busted = SolveError.budget_exceeded realized q.eps_budget in
        if not (lt q.eps_budget realized)
        then accept (record solution { attempts = attempts; eps_budget = some q.eps_budget })
        else if not policy.fallback
        then stop (unsolved busted)
        else elim (last_id route.steps) [
          | none ↦ stop index_raised
          | some failing_id ↦
              reroute (attempt_of excluded (some route.digest) (last_id route.steps) busted)
                failing_id
        ]

    -- A failed plan: the error itself on the first attempt, the trail later.
    unfoldable pub no_plan : List String → List (AttemptRecord F) → PlanError F → Failure F
    unfolding plan_error_fields sorted_tags
    no_plan [] attempts perr = unplanned perr
    no_plan (id ∷ ids) attempts perr = unsolved (
        SolveError.no_route_remaining (
          attempts
          ++ record {
            excluded = sorted_tags (id ∷ ids);
            route_digest = none;
            failed_solver_id = none;
            error_kind = (plan_error_fields perr).0;
            error_detail = (plan_error_fields perr).1;
          }
            ∷ []))

    -- The accepted solution is stored under its key.
    unfoldable pub store : Option String → Solution F → Disk F → Disk F
    unfolding solve_cache_put
    store none solution disk = disk
    store (some key) solution disk = record disk { blobs = solve_cache_put key solution disk.blobs }

    -- The cached solution, if the route is cacheable.
    unfoldable pub cached_solution :
        SolverRegistry F → Route F → Option String → Disk F → Option (Solution F)
    unfolding solve_cache_get iterate
    cached_solution r route none disk = none
    cached_solution r route (some key) disk = solve_cache_get key route (iterate r) disk.blobs
