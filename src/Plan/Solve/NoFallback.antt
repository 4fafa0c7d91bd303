-- ===== src/Plan/Solve/NoFallback.antt =====
-- `solve` (python/feldspar/plan/solve.py) under `RoutePolicy(fallback=False)`.
use feldspar.Prelude.{
  ℕ, String, ◌≡◌, refl, false, Option, some, List, [], Result, ok, err, length, inl, inr,
  Bool-cases, Option-cases, Result-cases,
}
use feldspar.Prelude.Dict.{Dict}
use feldspar.Prelude.Float.{FloatOps, lt}
use feldspar.Core.Sweep.{total_error}
use feldspar.Solve.Errors.{AttemptRecord}
use feldspar.Solve.Registry.{SolverRegistry, iterate}
use feldspar.Plan.Models.{Abort, step_failed, key_error, Repr, Route, RoutePolicy, Solution}
use feldspar.Plan.StepCache.{StepEntry, PayloadStepCache}
use feldspar.Plan.Walk.{Digests, execute_route}
use feldspar.Plan.Cache.{Request, StoredSolution}
use feldspar.Plan.Attempt.{
  Search, KeyDigests, Disk, Verdict, accept, reroute, stop, excluding, plan, key_if_cacheable,
  judge, cached_solution,
}
use feldspar.Plan.Solve.{
  start_disk, Trail, Answer, Next, answer, again, conclude, attempt_route, attempt, solve_loop,
  solve,
}

-- A verdict that does not reroute, and an iteration that is the last.
abbrev Settles : {F : Type 0} → Verdict F → Type 0
Settles (accept _) = Unit
Settles (stop _) = Unit
Settles (reroute _ _) = ⊥

abbrev pub IsLast : {F : Type 0} → Next F → Type 0
IsLast (answer _) = Unit
IsLast (again _) = ⊥

module _ {F : Type 0} ⦃o : FloatOps F⦄ (search : Search F) (repr : Repr F) (digests : Digests F)
    (hashes : KeyDigests F) (policy : RoutePolicy) (r : SolverRegistry F) (q : Request F) where
  judge-Settles :
      (route : Route F) (excluded : List String) (attempts : List (AttemptRecord F))
      (res : Result (Solution F) (Abort F))
      → policy.fallback ≡ false
      → Settles (judge repr digests hashes policy q route excluded attempts res)
  unfolding judge
  judge-Settles route excluded attempts (err (key_error k)) off = tt
  judge-Settles route excluded attempts (err (step_failed id e)) off = rw off tt
  judge-Settles route excluded attempts (ok solution) off =
      elim (Bool-cases (lt q.eps_budget (total_error solution.value solution.eps))) [
        | inr fits ↦ rw fits tt
        | inl busted ↦ rw (busted, off) tt
      ]

  conclude-IsLast :
      (key : Option String) (t : Trail F) (disk : Disk F) (v : Verdict F)
      → Settles v
      → IsLast (conclude search repr digests hashes policy r q key t disk v).0
  unfolding conclude
  conclude-IsLast key t disk (accept solution) h = tt
  conclude-IsLast key t disk (stop failure) h = tt
  conclude-IsLast key t disk (reroute a id) h = absurd h

  attempt_route-IsLast :
      (route : Route F) (key : Option String) (t : Trail F) (disk : Disk F)
      → policy.fallback ≡ false
      → IsLast (attempt_route search repr digests hashes policy r q route key t disk).0
  unfolding attempt_route
  attempt_route-IsLast route key t disk off =
      let x =
        execute_route repr digests r.ports (iterate r) route q.known q.payloads disk.steps
          (some q.eps_budget) in
      conclude-IsLast key t (record disk { steps = x.1 })
        (judge repr digests hashes policy q route t.excluded t.attempts x.0)
        (judge-Settles route t.excluded t.attempts x.0 off)

  attempt-IsLast :
      (t : Trail F) (disk : Disk F)
      → policy.fallback ≡ false
      → IsLast (attempt search repr digests hashes policy r q t disk).0
  unfolding attempt
  attempt-IsLast t disk off =
      elim (Result-cases (plan search (excluding (iterate r) t.excluded) q)) [
        | inr (perr, p) ↦ rw (p, attempt) tt
        | inl (route, p) ↦
            elim (Result-cases (key_if_cacheable repr digests hashes policy r q route)) [
              | inr (missing, k) ↦ rw (p, k, attempt) tt
              | inl (key, k) ↦
                  elim (Option-cases
                    (cached_solution repr digests hashes policy r route key disk)) [
                      | inr (cached, c) ↦ rw (p, k, c, attempt) tt
                      | inl c ↦ rw (p, k, c, attempt) (attempt_route-IsLast route key t disk off)
                    ]
            ]
      ]

  last_answer :
      (fuel : ℕ) (x : Next F × Disk F)
      → IsLast x.0
      → (a : Answer F) × (disk : Disk F) × (◌≡◌ {A = Next F × Disk F} x (answer a, disk))
        × (◌≡◌ {A = Option (Answer F × Disk F)}
            (elim x.0 [
              | answer a' ↦ some (a', x.1)
              | again t' ↦ solve_loop search repr digests hashes policy r q fuel t' x.1
            ])
            (some (a, disk)))
  last_answer fuel (answer a, disk) h = (a, disk, refl, refl)
  last_answer fuel (again t, disk) h = absurd h

  -- If the fallback is off, the first iteration of the reroute loop gives an answer, whatever the
  -- search, registry, request and caches, and solve ends with that answer.
  pub solve-attempt :
      (step_blobs : Dict (Option (StepEntry F))) (step_cache : Option (PayloadStepCache F))
      (blobs : Dict (Option (StoredSolution F)))
      → policy.fallback ≡ false
      → (a : Answer F) × (disk : Disk F) × (attempt search repr digests hashes policy r q
            (record { excluded = []; attempts = [] })
            (start_disk search repr digests hashes policy r q step_blobs step_cache blobs)
          ≡ (answer a, disk))
        × (solve search repr digests hashes policy r q step_blobs step_cache blobs ≡ some (a, disk))
  unfolding solve solve_loop
  solve-attempt step_blobs step_cache blobs off =
      let disk = start_disk search repr digests hashes policy r q step_blobs step_cache blobs in
      let t : Trail F = record { excluded = []; attempts = [] } in
      last_answer (length (iterate r)) (attempt search repr digests hashes policy r q t disk)
        (attempt-IsLast t disk off)
