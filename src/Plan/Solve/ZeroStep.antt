-- ===== src/Plan/Solve/ZeroStep.antt =====
-- `solve` (python/feldspar/plan/solve.py) for a target that is known already.
use feldspar.Prelude.{
  String, ◌≡◌, refl, ap, ◌∙◌, true, Option, none, some, List, [], ok, err, inl, inr, Bool-cases,
}
use feldspar.Prelude.Dict.{Dict, lookup}
use feldspar.Prelude.Float.{FloatOps, lt}
use feldspar.Core.{Interval}
use feldspar.Core.Sweep.{total_error}
use feldspar.Solve.Registry.{SolverRegistry, Entry, iterate}
use feldspar.Plan.Models.{Repr, Route, RoutePolicy, Solution}
use feldspar.Plan.StepCache.{StepEntry, PayloadStepCache}
use feldspar.Plan.Walk.{
  route_settings, route_settings_digest, Digests, Walk, run_steps, solution_of, finish_walk,
  execute_route, start_walk,
}
use feldspar.Plan.Cache.{solve_cache_get, read_blob, is_route_cacheable, Request}
use feldspar.Plan.Attempt.{
  Search, KeyDigests, index_raised, Disk, plan, cache_key, key_if_cacheable, judge, last_id,
  cached_solution,
}
use feldspar.Plan.Solve.Outcome.{excluding_none}
use feldspar.Plan.Solve.{start_disk, answer, conclude, attempt_route, attempt, solve_loop, solve}

module _ {F : Type 0} ⦃o : FloatOps F⦄ (search : Search F) (repr : Repr F) (digests : Digests F)
    (hashes : KeyDigests F) (policy : RoutePolicy) (r : SolverRegistry F) (q : Request F) where
  solution_of_found :
      (solvers : List (Entry F)) (route : Route F) (w : Walk F) (value : Interval F) (d : String)
      → lookup route.target w.known ≡ some value
      → route_settings_digest digests solvers route.steps ≡ ok d
      → (s : Solution F) × (solution_of repr digests r.ports solvers route w ≡ ok s)
        × (s.value ≡ value)
        × (s.eps ≡ w.final_eps)
  unfolding solution_of
  solution_of_found solvers route w value d known settings =
      rw (known, settings, solution_of) (_, refl, refl, refl)

  execute_route-zero_step :
      (solvers : List (Entry F)) (route : Route F) (cache : Option (PayloadStepCache F))
      (value : Interval F)
      → route.steps ≡ []
      → lookup route.target q.known ≡ some value
      → (s : Solution F) × ((execute_route repr digests r.ports solvers route q.known q.payloads
            cache
            (some q.eps_budget)).0
          ≡ ok s)
        × (s.value ≡ value)
        × (s.eps ≡ o.zero)
  unfolding execute_route run_steps finish_walk solution_of start_walk route_settings_digest
      route_settings
  execute_route-zero_step solvers route cache value bare known =
      let w = start_walk repr digests r.ports q.known q.payloads in
      let walked =
        ap
          (λ steps.
            (finish_walk repr digests r.ports solvers route
              (run_steps repr digests r.ports solvers (some q.eps_budget) steps w cache)).0)
          bare in
      let settings : route_settings_digest digests solvers route.steps
          ≡ ok (digests.of_settings []) =
        ap (λ steps. route_settings_digest digests solvers steps) bare in
      let (s, e, v, z) =
        solution_of_found solvers route w value (digests.of_settings []) known settings in
      (s, walked ∙ e, v, z)

  attempt_route-zero_step :
      (route : Route F) (key : Option String) (disk : Disk F) (value : Interval F)
      → policy.fallback ≡ true
      → route.steps ≡ []
      → lookup route.target q.known ≡ some value
      → lt q.eps_budget (total_error value o.zero) ≡ true
      → (attempt_route search repr digests hashes policy r q route key
          (record { excluded = []; attempts = [] })
          disk).0
        ≡ answer (err index_raised)
  unfolding attempt_route judge conclude last_id
  attempt_route-zero_step route key disk value on bare known wide =
      let (s, e, v, z) = execute_route-zero_step (iterate r) route disk.steps value bare known in
      rw (e, v, z, wide, on, bare) refl

  cache_key-settings :
      (route : Route F) (d : String)
      → route_settings_digest digests (iterate r) route.steps ≡ ok d
      → (k : String) × (cache_key repr digests hashes policy r q route ≡ ok k)
  unfolding cache_key
  cache_key-settings route d e = rw (e, cache_key) (_, refl)

  key_if_cacheable-zero_step :
      (route : Route F)
      → route.steps ≡ []
      → (key : Option String) × (key_if_cacheable repr digests hashes policy r q route ≡ ok key)
  unfolding key_if_cacheable is_route_cacheable route_settings_digest route_settings
  key_if_cacheable-zero_step route bare = elim (Bool-cases policy.cache) [
    | inr off ↦ rw off (none, refl)
    | inl on ↦
        let settings : route_settings_digest digests (iterate r) route.steps
            ≡ ok (digests.of_settings []) =
          ap (λ steps. route_settings_digest digests (iterate r) steps) bare in
        let cacheable : is_route_cacheable (iterate r) route.steps ≡ ok true =
          ap (λ steps. is_route_cacheable (iterate r) steps) bare in
        let (k, keyed) = cache_key-settings route (digests.of_settings []) settings in
        rw (on, cacheable, keyed) (some k, refl)
  ]

  cached_solution-empty :
      (route : Route F) (key : Option String) (disk : Disk F)
      → disk.blobs ≡ []
      → cached_solution repr digests hashes policy r route key disk ≡ none
  unfolding cached_solution solve_cache_get read_blob
  cached_solution-empty route none disk h = refl
  cached_solution-empty route (some key) disk h = rw h refl

  -- If the fallback is on, the solve cache is empty, the plan is a route with no step whose target
  -- is known, and the half width of the known interval is above the budget, then solve ends in the
  -- IndexError of route.steps[-1].
  pub solve-index_raised :
      (route : Route F) (value : Interval F) (step_blobs : Dict (Option (StepEntry F)))
      (step_cache : Option (PayloadStepCache F))
      → policy.fallback ≡ true
      → plan search (iterate r) q ≡ ok route
      → route.steps ≡ []
      → lookup route.target q.known ≡ some value
      → lt q.eps_budget (total_error value o.zero) ≡ true
      → (disk : Disk F) × (solve search repr digests hashes policy r q step_blobs step_cache []
          ≡ some (err index_raised, disk))
  unfolding solve solve_loop attempt cached_solution start_disk
  solve-index_raised route value step_blobs step_cache on planned bare known wide =
      let (key, k) = key_if_cacheable-zero_step route bare in
      let disk = start_disk search repr digests hashes policy r q step_blobs step_cache [] in
      let view = ap (λ es. plan search es q) (excluding_none (iterate r)) ∙ planned in
      let nothing = cached_solution-empty route key disk refl in
      let raised = attempt_route-zero_step route key disk value on bare known wide in
      rw (view, k, nothing, raised, attempt, solve_loop) (_, refl)
