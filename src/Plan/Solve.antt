-- ===== src/Plan/Solve.antt =====
-- The reroute loop of `solve` (python/feldspar/plan/solve.py). It runs on fuel, one more than the
-- registry has solvers.
pub mod Termination
pub mod Outcome
pub mod ZeroStep
pub mod NoFallback
use feldspar.Prelude.{
  ℕ, zero, suc, String, Option, none, some, List, [], ◌∷◌, ◌++◌, Result, ok, err, if◌then◌else◌,
  length,
}
use feldspar.Prelude.Dict.{Dict}
use feldspar.Prelude.Float.{FloatOps}
use feldspar.Solve.Errors.{AttemptRecord}
use feldspar.Solve.Registry.{SolverRegistry, iterate}
use feldspar.Plan.Models.{Repr, Route, RoutePolicy, Solution}
use feldspar.Plan.StepCache.{StepEntry, PayloadStepCache}
use feldspar.Plan.Walk.{Digests, execute_route}
use feldspar.Plan.Cache.{Request, StoredSolution}
use feldspar.Plan.Attempt.{
  Search, KeyDigests, Failure, key_raised, Disk, Verdict, accept, reroute, stop, excluding, exclude,
  plan, key_if_cacheable, judge, no_plan, store, cached_solution,
}

-- Where the loop stands.
pub record Trail (F : Type 0) : Type 0 where
  pub excluded : List String
  pub attempts : List (AttemptRecord F)

abbrev pub Answer : Type 0 → Type 0
Answer F = Result (Solution F) (Failure F)

-- What an iteration leads to: an answer, or the next iteration.
pub data Next (F : Type 0) : Type 0 where
  answer : Answer F → Next F
  again : Trail F → Next F

module _ {F : Type 0} ⦃o : FloatOps F⦄ (search : Search F) (repr : Repr F) (digests : Digests F)
    (hashes : KeyDigests F) (policy : RoutePolicy) (r : SolverRegistry F) (q : Request F) where
  -- From the verdict on an execution on.
  unfoldable pub conclude : Option String → Trail F → Disk F → Verdict F → Next F × Disk F
  unfolding store
  conclude key t disk (accept solution) =
      (answer (ok solution), store repr digests hashes policy key solution disk)
  conclude key t disk (stop failure) = (answer (err failure), disk)
  conclude key t disk (reroute attempt id) = (
    again (record { excluded = exclude id t.excluded; attempts = t.attempts ++ attempt ∷ [] }),
    disk,
  )

  -- The execution of a route that the cache does not answer.
  unfoldable pub attempt_route : Route F → Option String → Trail F → Disk F → Next F × Disk F
  unfolding execute_route judge conclude exclude iterate
  attempt_route route key t disk =
      let (res, steps) =
        execute_route repr digests r.ports (iterate r) route q.known q.payloads disk.steps
          (some q.eps_budget) in
      conclude key t (record disk { steps = steps })
        (judge repr digests hashes policy q route t.excluded t.attempts res)

  -- One iteration of the loop.
  unfoldable pub attempt : Trail F → Disk F → Next F × Disk F
  unfolding excluding plan no_plan key_if_cacheable cached_solution attempt_route iterate
  attempt t disk = elim (plan search (excluding (iterate r) t.excluded) q) [
    | err perr ↦
        (answer (err (no_plan repr digests hashes policy t.excluded t.attempts perr)), disk)
    | ok route ↦ elim (key_if_cacheable repr digests hashes policy r q route) [
      | err missing ↦ (answer (err (key_raised missing)), disk)
      | ok key ↦ elim (cached_solution repr digests hashes policy r route key disk) [
        | some cached ↦ (answer (ok cached), disk)
        | none ↦ attempt_route route key t disk
      ]
    ]
  ]

  -- `while True:`; `none` is the fuel's end.
  unfoldable pub solve_loop : ℕ → Trail F → Disk F → Option (Answer F × Disk F)
  unfolding attempt
  solve_loop zero t disk = none
  solve_loop (suc fuel) t disk =
      let (next, disk') = attempt t disk in
      elim next [ answer a ↦ some (a, disk') | again t' ↦ solve_loop fuel t' disk' ]

  -- The step cache is the one given, or a new one over the directory.
  unfoldable pub start_disk :
      Dict (Option (StepEntry F))
      → Option (PayloadStepCache F)
      → Dict (Option (StoredSolution F))
      → Disk F
  start_disk step_blobs step_cache blobs = record {
    blobs = blobs;
    steps = elim step_cache [
      | some cache ↦ some cache
      | none ↦
          if policy.cache then some (record { blobs = step_blobs; hits = 0; misses = 0 }) else none
    ];
  }

  -- `solve`, over the contents of the two directories.
  unfoldable pub solve :
      Dict (Option (StepEntry F))
      → Option (PayloadStepCache F)
      → Dict (Option (StoredSolution F))
      → Option (Answer F × Disk F)
  unfolding solve_loop start_disk iterate
  solve step_blobs step_cache blobs =
      solve_loop (suc (length (iterate r))) (record { excluded = []; attempts = [] })
        (start_disk step_blobs step_cache blobs)
