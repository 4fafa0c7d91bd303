-- ===== src/Plan/Solve/Outcome.antt =====
-- The answers of `solve` (python/feldspar/plan/solve.py): the budget, and the trail of attempts.
use mathlib.Core.Option.{some-injective}
use feldspar.Prelude.{
  ℕ, zero, suc, String, ◌≡◌, refl, ap, subst, true, false, Option, none, some, List, [], ◌∷◌, ◌++◌,
  ◌⊎◌, Result, ok, err, elem, All, length, arith, inl, inr, Bool-cases, Option-cases, Result-cases,
  ◌==◌, eq_iff,
}
use feldspar.Prelude.Dict.{Dict}
use feldspar.Prelude.Float.{FloatOps, lt}
use feldspar.Core.Sweep.{total_error}
use feldspar.Solve.Errors.{AttemptRecord, SolveError}
use feldspar.Solve.Registry.{SolverRegistry, Entry, iterate}
use feldspar.Plan.Models.{
  plan_error_fields, Abort, step_failed, key_error, Repr, Route, RoutePolicy, PlanError, Solution,
}
use feldspar.Plan.StepCache.{StepEntry, PayloadStepCache}
use feldspar.Plan.Walk.{Digests, execute_route}
use feldspar.Plan.Walk.Attribution.{execute_route-Blames}
use feldspar.Plan.Cache.{sorted_tags, solve_cache_get, read_blob, Request, StoredSolution}
use feldspar.Plan.Attempt.{
  Search, KeyDigests, unplanned, unsolved, key_raised, index_raised, Disk, Verdict, accept, reroute,
  stop, excluding, exclude, plan, attempt_of, key_if_cacheable, judge, failing_of, last_id, no_plan,
  cached_solution,
}
use feldspar.Plan.Solve.Termination.{
  not_excluded, Reroutes, PlansWithin, input_ids-map, entry_ids, judge-Reroutes, Reroutes-within,
  solve_loop-total,
}
use feldspar.Plan.Solve.{
  start_disk, Trail, Answer, Next, answer, again, conclude, attempt_route, attempt, solve_loop,
  solve,
}

-- A trail: one attempt for each excluded solver, made under the solvers excluded before it.
pub data Traced {F : Type 0} : List String → List (AttemptRecord F) → Type 0 where
  start : Traced [] []
  failed :
      {ex : List String} {attempts : List (AttemptRecord F)} (id : String) (a : AttemptRecord F)
      → Traced ex attempts
      → a.excluded ≡ sorted_tags ex
      → (a.failed_solver_id ≡ some id) ⊎ (a.failed_solver_id ≡ some "")
      → Traced (ex ++ id ∷ []) (attempts ++ a ∷ [])

-- A trail with a last attempt behind it.
pub record Exhausted {F : Type 0} (e : SolveError F) : Type 0 where
  pub excluded : List String
  pub attempts : List (AttemptRecord F)
  pub last : AttemptRecord F
  pub traced : Traced excluded attempts
  pub last_under : last.excluded ≡ sorted_tags excluded
  pub is_error : e ≡ SolveError.no_route_remaining (attempts ++ last ∷ [])

pub excluding_none : {F : Type 0} (es : List (Entry F)) → excluding es [] ≡ es
unfolding excluding
excluding_none [] = refl
excluding_none (e ∷ es) = ap (λ t. e ∷ t) (excluding_none es)

module _ {F : Type 0} ⦃o : FloatOps F⦄ (search : Search F) (repr : Repr F) (digests : Digests F)
    (hashes : KeyDigests F) (policy : RoutePolicy) (r : SolverRegistry F) (q : Request F) where
  -- A solution is cached, or within the budget and traced. An error is the planner's on the whole
  -- registry, a step's or the budget's with the fallback off, or the end of a trail.
  unfoldable pub Explained : Answer F → Type 0
  Explained (ok s) =
      (s.cache_hit ≡ true)
      ⊎ ((lt q.eps_budget (total_error s.value s.eps) ≡ false)
          × (s.eps_budget ≡ some q.eps_budget)
          × ((ex : List String) × Traced ex s.attempts))
  Explained (err (unplanned e)) = plan search (iterate r) q ≡ err e
  Explained (err (unsolved e)) = (policy.fallback ≡ false) ⊎ Exhausted e
  Explained (err (key_raised _)) = Unit
  Explained (err index_raised) = policy.fallback ≡ true

  -- An iteration ends with an explained answer, or goes on with a trail.
  unfoldable pub Leads : Next F → Type 0
  unfolding Explained
  Leads (answer a) = Explained a
  Leads (again t) = Traced t.excluded t.attempts

  -- The verdicts that keep a trail.
  unfoldable Keeps : Trail F → Verdict F → Type 0
  unfolding Explained
  Keeps t (accept s) = Explained (ok s)
  Keeps t (stop f) = Explained (err f)
  Keeps t (reroute a id) =
      (a.excluded ≡ sorted_tags t.excluded)
      × ((a.failed_solver_id ≡ some id) ⊎ (a.failed_solver_id ≡ some ""))

  judge-Keeps :
      (route : Route F) (t : Trail F) (res : Result (Solution F) (Abort F))
      → Traced t.excluded t.attempts
      → Keeps t (judge repr digests hashes policy q route t.excluded t.attempts res)
  unfolding judge Keeps Explained attempt_of failing_of
  judge-Keeps route t (err (key_error k)) h = tt
  judge-Keeps route t (err (step_failed id e)) h = elim (Bool-cases policy.fallback) [
    | inr off ↦ rw off (inl refl)
    | inl on ↦ elim (Bool-cases (id == "")) [
      | inr named ↦ rw (on, named) (refl, inl refl)
      | inl blank ↦ elim (Option-cases (last_id route.steps)) [
        | inl bare ↦
            rw (on, blank, bare)
              (inr (record {
                excluded = t.excluded;
                attempts = t.attempts;
                last =
                    attempt_of repr digests hashes policy t.excluded (some route.digest) (some id)
                      e;
                traced = h;
                last_under = refl;
                is_error = refl;
              }))
        | inr (k, last) ↦ rw (on, blank, last) (refl, inr (ap some ((eq_iff id "").0 blank)))
      ]
    ]
  ]
  judge-Keeps route t (ok s) h = elim (Bool-cases (lt q.eps_budget (total_error s.value s.eps))) [
    | inr fits ↦ rw fits (inr (fits, refl, (t.excluded, h)))
    | inl busted ↦ elim (Bool-cases policy.fallback) [
      | inr off ↦ rw (busted, off) (inl refl)
      | inl on ↦ elim (Option-cases (last_id route.steps)) [
        | inl bare ↦ rw (busted, on, bare) refl
        | inr (k, last) ↦ rw (busted, on, last) (refl, inl last)
      ]
    ]
  ]

  cached_solution-hit :
      (route : Route F) (key : Option String) (disk : Disk F) (s : Solution F)
      → cached_solution repr digests hashes policy r route key disk ≡ some s
      → s.cache_hit ≡ true
  unfolding cached_solution solve_cache_get read_blob
  cached_solution-hit route none disk s h = cc
  cached_solution-hit route (some key) disk s h = ground (arith, h)

  conclude-Leads :
      (key : Option String) (t : Trail F) (disk : Disk F) (v : Verdict F)
      → Traced t.excluded t.attempts
      → Reroutes (entry_ids (excluding (iterate r) t.excluded)) v
      → Keeps t v
      → Leads (conclude search repr digests hashes policy r q key t disk v).0
  unfolding conclude Leads Keeps exclude
  conclude-Leads key t disk (accept s) h b k = k
  conclude-Leads key t disk (stop f) h b k = k
  conclude-Leads key t disk (reroute a id) h b k =
      rw (not_excluded (iterate r) id t.excluded b) (failed id a h k.0 k.1)

  attempt_route-Leads :
      (route : Route F) (key : Option String) (t : Trail F) (disk : Disk F)
      → Traced t.excluded t.attempts
      → All
          (λ s. elem s.solver_id (entry_ids (excluding (iterate r) t.excluded)) ≡ true)
          route.steps
      → Leads (attempt_route search repr digests hashes policy r q route key t disk).0
  unfolding attempt_route
  attempt_route-Leads route key t disk h a =
      let x =
        execute_route repr digests r.ports (iterate r) route q.known q.payloads disk.steps
          (some q.eps_budget) in
      conclude-Leads key t _ _ h
        (Reroutes-within search repr digests hashes policy r q
          (entry_ids (excluding (iterate r) t.excluded)) route.steps _ a
          (judge-Reroutes search repr digests hashes policy r q route t.excluded t.attempts x.0 (
            execute_route-Blames repr digests r.ports (iterate r) route q.known q.payloads
              disk.steps (some q.eps_budget))))
        (judge-Keeps route t x.0 h)

  -- A plan that failed under the exclusions of a trail.
  no_plan-Explained :
      (ex : List String) (attempts : List (AttemptRecord F)) (perr : PlanError F)
      → Traced ex attempts
      → plan search (excluding (iterate r) ex) q ≡ err perr
      → Explained (err (no_plan repr digests hashes policy ex attempts perr))
  unfolding no_plan Explained
  no_plan-Explained [] attempts perr h p =
      subst (λ es. plan search es q ≡ err perr) (excluding_none (iterate r)) p
  no_plan-Explained (id ∷ ids) attempts perr h p = inr (record {
    excluded = id ∷ ids;
    attempts = attempts;
    last = record {
      excluded = sorted_tags (id ∷ ids);
      route_digest = none;
      failed_solver_id = none;
      error_kind = (plan_error_fields perr).0;
      error_detail = (plan_error_fields perr).1;
    };
    traced = h;
    last_under = refl;
    is_error = refl;
  })

  attempt-Leads :
      PlansWithin search
      → (t : Trail F) (disk : Disk F) → Traced t.excluded t.attempts
      → Leads (attempt search repr digests hashes policy r q t disk).0
  unfolding attempt plan PlansWithin Leads
  attempt-Leads within t disk h =
      let view = excluding (iterate r) t.excluded in
      elim (Result-cases (plan search view q)) [
        | inr (perr, p) ↦ rw (p, attempt) (no_plan-Explained t.excluded t.attempts perr h p)
        | inl (route, p) ↦
            let a =
              subst (λ ids. All (λ s. elem s.solver_id ids ≡ true) route.steps) (input_ids-map view)
                (within _ _ _ _ _ _ route p) in
            elim (Result-cases (key_if_cacheable repr digests hashes policy r q route)) [
              | inr (missing, k) ↦ rw (p, k, attempt) tt
              | inl (key, k) ↦
                  elim (Option-cases
                    (cached_solution repr digests hashes policy r route key disk)) [
                      | inr (cached, c) ↦
                          rw (p, k, c, attempt) (inl (cached_solution-hit route key disk cached c))
                      | inl c ↦ rw (p, k, c, attempt) (attempt_route-Leads route key t disk h a)
                    ]
            ]
      ]

  next_Explained :
      (fuel : ℕ) (x : Next F × Disk F) (a : Answer F × Disk F)
      → ((t : Trail F) (disk : Disk F)
          → Traced t.excluded t.attempts
          → solve_loop search repr digests hashes policy r q fuel t disk ≡ some a
          → Explained a.0)
      → Leads x.0
      → (elim x.0 [
        | answer a' ↦ some (a', x.1)
        | again t' ↦ solve_loop search repr digests hashes policy r q fuel t' x.1
      ])
        ≡ some a
      → Explained a.0
  unfolding Leads
  next_Explained fuel (answer a', disk) a ih h e =
      subst (λ b. Explained b.0) (some-injective (a', disk) a e) h
  next_Explained fuel (again t', disk) a ih h e = ih t' disk h e

  solve_loop-Explained :
      PlansWithin search
      → (fuel : ℕ) (t : Trail F) (disk : Disk F) (a : Answer F × Disk F)
      → Traced t.excluded t.attempts
      → solve_loop search repr digests hashes policy r q fuel t disk ≡ some a
      → Explained a.0
  unfolding solve_loop
  solve_loop-Explained within zero t disk a h e = cc
  solve_loop-Explained within (suc fuel) t disk a h e =
      next_Explained fuel (attempt search repr digests hashes policy r q t disk) a
        (λ t' disk'. solve_loop-Explained within fuel t' disk' a) (attempt-Leads within t disk h) e

  -- If the search plans only with solvers that it is given, then solve, on fuel one above the
  -- number of solvers, gives an answer, for every policy, registry, request and cache. A solution
  -- is marked as a cache hit, or its total error is not above the budget, it is stamped with the
  -- budget, and its attempts are one for each excluded solver, each made under the solvers excluded
  -- before it. A plan error is the planner's on the whole registry. A solve error means that the
  -- fallback is off, or it is the trail of attempts followed by one last attempt under all its
  -- exclusions. An IndexError means that the fallback is on; nothing is said of a KeyError.
  pub solve-Explained :
      PlansWithin search
      → (step_blobs : Dict (Option (StepEntry F))) (step_cache : Option (PayloadStepCache F))
        (blobs : Dict (Option (StoredSolution F)))
      → (a : Answer F × Disk F) × (solve search repr digests hashes policy r q step_blobs step_cache
            blobs
          ≡ some a)
        × Explained a.0
  unfolding solve
  solve-Explained within step_blobs step_cache blobs =
      let disk = start_disk search repr digests hashes policy r q step_blobs step_cache blobs in
      let t : Trail F = record { excluded = []; attempts = [] } in
      let enough = ap length (excluding_none (iterate r)) in
      let (a, e) =
        solve_loop-total search repr digests hashes policy r q within (suc (length (iterate r))) t
          disk (omega (arith, enough)) in
      (a, e, solve_loop-Explained within (suc (length (iterate r))) t disk a start e)
