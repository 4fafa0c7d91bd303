-- ===== src/Plan/Cache.antt =====
-- The solve cache of python/feldspar/plan/cache.py: the components of a key, the lowering of a
-- solution to what a blob keeps, the recheck of the tools, and `SolveCache`. The directory is a
-- dict from keys to blobs; a blob that does not parse is `none`. Hashes are parameters, and the
-- order of a blob's keys, which `sort_keys` changes, is not modelled.
pub mod RoundTrip
use feldspar.Prelude.{
  String, Bool, true, false, ◌&&◌, Option, none, some, List, [], ◌∷◌, Result, ok, err, map,
  if◌then◌else◌,
}
use feldspar.Prelude.Dict.{Dict, lookup, insert, keys}
use feldspar.Prelude.Dict.Sorted.{sorted}
use feldspar.Core.{Interval, Domain, PayloadRef}
use feldspar.Solve.Errors.{AttemptRecord, SolveError}
use feldspar.Solve.Models.{Citation, ClaimSenses}
use feldspar.Solve.Registry.{Entry}
use feldspar.Plan.Models.{Route, RouteStep, Solution}
use feldspar.Plan.StepCache.{digests_of}
use feldspar.Plan.Execute.{solver_of}

-- What a caller asks of `solve`.
pub record Request (F : Type 0) : Type 0 where
  pub known : Dict (Interval F)
  pub tags : List String
  pub target : String
  pub eps_budget : F
  pub sense : ClaimSenses
  pub payloads : Dict PayloadRef

-- The components of a request's digest: a payload is its hash.
pub record RequestIdentity (F : Type 0) : Type 0 where
  pub known : Dict (Interval F)
  pub tags : List String
  pub target : String
  pub eps_budget : F
  pub sense : ClaimSenses
  pub payloads : Dict String

-- `sorted(tags)`
unfoldable pub sorted_tags : List String → List String
unfolding sorted
sorted_tags tags = keys (sorted (map (λ t. (t, t)) tags))

module _ {F : Type 0} where
  unfoldable pub request_identity : Request F → RequestIdentity F
  unfolding sorted_tags digests_of sorted
  request_identity q = record {
    known = sorted q.known;
    tags = sorted_tags q.tags;
    target = q.target;
    eps_budget = q.eps_budget;
    sense = q.sense;
    payloads = sorted (digests_of q.payloads);
  }

  -- No step of the route is nondeterministic; a missing id is the error.
  unfoldable pub is_route_cacheable : List (Entry F) → List (RouteStep F) → Result Bool String
  unfolding solver_of
  is_route_cacheable solvers [] = ok true
  is_route_cacheable solvers (step ∷ steps) =
      let rest = is_route_cacheable solvers steps in
      elim (solver_of solvers step.solver_id) [
        | none ↦ err step.solver_id
        | some e ↦ if e.0.deterministic then rest else ok false
      ]

-- The JSON value of a solution, key by key.
pub record StoredSolution (F : Type 0) : Type 0 where
  pub target : String
  pub value : Interval F
  pub eps : F
  pub route : Route F
  pub settings_digest : String
  pub solver_versions : Dict String
  pub attempts : List (AttemptRecord F)
  pub cache_hit : Bool
  pub step_eps : Dict F
  pub step_citations : Dict (List Citation)
  pub step_declared_domain : Dict (Domain F)
  pub eps_budget : Option F

module _ {F : Type 0} where
  -- `_domain_to_json`
  unfoldable pub domain_to_json : Domain F → Domain F
  unfolding sorted_tags
  domain_to_json d = record d { tags = sorted_tags d.tags }

  -- `_route_step_to_json`
  unfoldable pub route_step_to_json : RouteStep F → RouteStep F
  unfolding domain_to_json
  route_step_to_json s = record s { realized_domain = domain_to_json s.realized_domain }

  -- `_route_to_json`
  unfoldable pub route_to_json : Route F → Route F
  unfolding route_step_to_json
  route_to_json route = record route { steps = map route_step_to_json route.steps }

  unfoldable pub solution_to_jsonable : Solution F → StoredSolution F
  unfolding route_to_json domain_to_json
  solution_to_jsonable s = record {
    target = s.target;
    value = s.value;
    eps = s.eps;
    route = route_to_json s.route;
    settings_digest = s.settings_digest;
    solver_versions = s.solver_versions;
    attempts = s.attempts;
    cache_hit = s.cache_hit;
    step_eps = s.step_eps;
    step_citations = s.step_citations;
    step_declared_domain = map (λ e. (e.0, domain_to_json e.1)) s.step_declared_domain;
    eps_budget = s.eps_budget;
  }

  -- The two maps that a blob does not keep come back empty.
  unfoldable pub solution_from_jsonable : StoredSolution F → Solution F
  solution_from_jsonable d = record {
    target = d.target;
    value = d.value;
    eps = d.eps;
    route = d.route;
    settings_digest = d.settings_digest;
    solver_versions = d.solver_versions;
    attempts = d.attempts;
    cache_hit = d.cache_hit;
    step_eps = d.step_eps;
    step_citations = d.step_citations;
    step_declared_domain = d.step_declared_domain;
    step_algebraic_form = [];
    step_admission_predicate = [];
    eps_budget = d.eps_budget;
  }

  -- What `probe_tools` of a solver answers; a solver that is not there has none.
  unfoldable pub probe_of : List (Entry F) → String → Option (Result (Unit {0}) (SolveError F))
  unfolding solver_of
  probe_of solvers id = elim (solver_of solvers id) [ none ↦ none | some e ↦ e.1.probe_tools ]

  -- The tools of the route are there.
  unfoldable pub route_tools_present : List (Entry F) → List (RouteStep F) → Bool
  unfolding probe_of
  route_tools_present solvers [] = true
  route_tools_present solvers (step ∷ steps) =
      let rest = route_tools_present solvers steps in
      elim (probe_of solvers step.solver_id) [ some (err _) ↦ false | _ ↦ rest ]

  -- The tools of the excluded solvers are still missing.
  unfoldable pub excluded_tools_absent : List (Entry F) → List String → Bool
  unfolding probe_of
  excluded_tools_absent solvers [] = true
  excluded_tools_absent solvers (id ∷ ids) =
      let rest = excluded_tools_absent solvers ids in
      elim (probe_of solvers id) [ some (ok _) ↦ false | _ ↦ rest ]

  -- `_tools_still_consistent`
  unfoldable pub tools_still_consistent : Route F → List (Entry F) → List String → Bool
  unfolding route_tools_present excluded_tools_absent
  tools_still_consistent route solvers excluded =
      route_tools_present solvers route.steps && excluded_tools_absent solvers excluded

  -- `solution.attempts[-1].excluded if solution.attempts else ()`
  unfoldable pub last_excluded : List (AttemptRecord F) → List String
  last_excluded [] = []
  last_excluded (a ∷ []) = a.excluded
  last_excluded (_ ∷ a ∷ attempts) = last_excluded (a ∷ attempts)

  -- A blob is a hit if it parses and the tools are as they were.
  unfoldable pub read_blob :
      Route F → List (Entry F) → Option (Option (StoredSolution F)) → Option (Solution F)
  unfolding solution_from_jsonable last_excluded tools_still_consistent
  read_blob route solvers none = none
  read_blob route solvers (some none) = none
  read_blob route solvers (some (some stored)) =
      let solution = solution_from_jsonable stored in
      if tools_still_consistent route solvers (last_excluded solution.attempts)
      then some (record solution { cache_hit = true })
      else none

  -- `SolveCache.get`
  unfoldable pub solve_cache_get :
      String → Route F → List (Entry F) → Dict (Option (StoredSolution F)) → Option (Solution F)
  unfolding lookup read_blob
  solve_cache_get key route solvers blobs = read_blob route solvers (lookup key blobs)

  -- `SolveCache.put`
  unfoldable pub solve_cache_put :
      String → Solution F → Dict (Option (StoredSolution F)) → Dict (Option (StoredSolution F))
  unfolding insert solution_to_jsonable
  solve_cache_put key solution blobs =
      insert key (some (solution_to_jsonable (record solution { cache_hit = false }))) blobs
