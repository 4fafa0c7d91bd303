-- ===== src/Plan/Solve/Termination.antt =====
-- The view that a reroute leaves, and the fuel of the loop (python/feldspar/plan/solve.py). The
-- search is assumed to plan with the solvers that it is given.
use feldspar.Prelude.{
  ℕ, zero, suc, ◌<◌, ◌≤◌, String, ◌≡◌, refl, ap, subst, true, false, ◌||◌, Option, some, List, [],
  ◌∷◌, ◌++◌, Result, ok, err, map, elem, All, length, arith, inl, inr, Bool-cases, Option-cases,
  Result-cases, ◌==◌, eq_iff,
}
use feldspar.Prelude.Dict.{Dict}
use feldspar.Prelude.Float.{FloatOps, lt}
use feldspar.Core.{Interval}
use feldspar.Core.Sweep.{total_error}
use feldspar.Solve.Models.{ClaimSenses}
use feldspar.Solve.Errors.{AttemptRecord}
use feldspar.Solve.Registry.{SolverRegistry, Entry, iterate}
use feldspar.Plan.Models.{
  Abort, step_failed, key_error, Repr, Route, RouteStep, RoutePolicy, Solution,
}
use feldspar.Plan.Walk.{Digests}
use feldspar.Plan.Walk.Attribution.{Blames, step_ids, execute_route-Blames}
use feldspar.Plan.Cache.{Request}
use feldspar.Plan.Attempt.{
  PlanSolverInput, Search, KeyDigests, Disk, Verdict, accept, reroute, stop, excluding, exclude,
  plan, plan_input, key_if_cacheable, judge, failing_of, last_id, cached_solution,
}
use feldspar.Plan.Solve.{
  Trail, Answer, Next, answer, again, conclude, attempt_route, attempt, solve_loop,
}

abbrev pub entry_ids : {F : Type 0} → List (Entry F) → List String
entry_ids [] = []
entry_ids (e ∷ es) = e.0.solver_id ∷ entry_ids es

abbrev pub input_ids : {F : Type 0} → List (PlanSolverInput F) → List String
input_ids [] = []
input_ids (e ∷ es) = e.solver_id ∷ input_ids es

-- Every step of a planned route is a solver that the search was given.
unfoldable pub PlansWithin : {F : Type 0} → Search F → Type 0
PlansWithin {F} search =
    (inputs : List (PlanSolverInput F)) (known : Dict (Interval F)) (tags : List String)
    (target : String) (budget : F) (sense : ClaimSenses) (route : Route F)
    → search inputs known tags target budget sense ≡ ok route
    → All (λ s. elem s.solver_id (input_ids inputs) ≡ true) route.steps

pub input_ids-map :
    {F : Type 0} (es : List (Entry F)) → input_ids (map plan_input es) ≡ entry_ids es
unfolding plan_input
input_ids-map [] = refl
input_ids-map (e ∷ es) = ap (λ ids. e.0.solver_id ∷ ids) (input_ids-map es)

pub elem-All :
    {F : Type 0} (ids : List String) (id : String) (steps : List (RouteStep F))
    → All (λ s. elem s.solver_id ids ≡ true) steps
    → elem id (step_ids steps) ≡ true
    → elem id ids ≡ true
elem-All ids id [] a h = cc
elem-All ids id (s ∷ steps) a h = elim (Bool-cases (s.solver_id == id)) [
  | inl hit ↦ subst (λ k. elem k ids ≡ true) ((eq_iff s.solver_id id).0 hit) a.0
  | inr miss ↦ elem-All ids id steps a.1 (ground (arith, miss, h))
]

elem-last_id :
    {F : Type 0} (steps : List (RouteStep F)) (id : String)
    → last_id steps ≡ some id
    → elem id (step_ids steps) ≡ true
unfolding last_id
elem-last_id [] id h = cc
elem-last_id (s ∷ []) id h = ground (arith, eq_iff s.solver_id id, h)
elem-last_id (s ∷ t ∷ steps) id h = ground (arith, elem-last_id (t ∷ steps) id h)

elem-snoc : (k id : String) (ks : List String) → elem k (ks ++ id ∷ []) ≡ (elem k ks || (id == k))
elem-snoc k id [] = ground (arith)
elem-snoc k id (j ∷ ks) = ground (arith, elem-snoc k id ks)

module _ {F : Type 0} where
  excluding-snoc_le :
      (solvers : List (Entry F)) (id : String) (ex : List String)
      → length (excluding solvers (ex ++ id ∷ [])) ≤ length (excluding solvers ex)
  unfolding excluding
  excluding-snoc_le [] id ex = ground arith
  excluding-snoc_le (e ∷ es) id ex =
      ground (arith, elem-snoc e.0.solver_id id ex, excluding-snoc_le es id ex)

  excluding-snoc_lt :
      (solvers : List (Entry F)) (id : String) (ex : List String)
      → elem id (entry_ids (excluding solvers ex)) ≡ true
      → length (excluding solvers (ex ++ id ∷ [])) < length (excluding solvers ex)
  unfolding excluding
  excluding-snoc_lt [] id ex h = cc
  excluding-snoc_lt (e ∷ es) id ex h = ground (
    arith,
    elem-snoc e.0.solver_id id ex,
    excluding-snoc_le es id ex,
    excluding-snoc_lt es id ex,
    eq_iff e.0.solver_id id,
    eq_iff id e.0.solver_id,
  )

  pub not_excluded :
      (solvers : List (Entry F)) (id : String) (ex : List String)
      → elem id (entry_ids (excluding solvers ex)) ≡ true
      → elem id ex ≡ false
  unfolding excluding
  not_excluded [] id ex h = cc
  not_excluded (e ∷ es) id ex h = elim (Bool-cases (e.0.solver_id == id)) [
    | inl hit ↦
        let same = (eq_iff e.0.solver_id id).0 hit in
        elim (Bool-cases (elem e.0.solver_id ex)) [
          | inl gone ↦ not_excluded es id ex (ground (arith, gone, h))
          | inr kept ↦ subst (λ k. elem k ex ≡ false) same kept
        ]
    | inr miss ↦ not_excluded es id ex (ground (arith, miss, h))
  ]

  pub excluding-exclude_lt :
      (solvers : List (Entry F)) (id : String) (ex : List String)
      → elem id (entry_ids (excluding solvers ex)) ≡ true
      → length (excluding solvers (exclude id ex)) < length (excluding solvers ex)
  unfolding exclude
  excluding-exclude_lt solvers id ex h =
      rw (not_excluded solvers id ex h) (excluding-snoc_lt solvers id ex h)

-- A verdict reroutes around one of the ids.
abbrev pub Reroutes : {F : Type 0} → List String → Verdict F → Type 0
Reroutes ids (accept _) = Unit
Reroutes ids (stop _) = Unit
Reroutes ids (reroute _ id) = elem id ids ≡ true

-- The next iteration excludes one more of the solvers.
abbrev pub Shrinks : {F : Type 0} → List (Entry F) → Trail F → Next F → Type 0
Shrinks solvers t (answer _) = Unit
Shrinks solvers t (again t') =
    length (excluding solvers t'.excluded) < length (excluding solvers t.excluded)

module _ {F : Type 0} ⦃o : FloatOps F⦄ (search : Search F) (repr : Repr F) (digests : Digests F)
    (hashes : KeyDigests F) (policy : RoutePolicy) (r : SolverRegistry F) (q : Request F) where
  pub judge-Reroutes :
      (route : Route F) (excluded : List String) (attempts : List (AttemptRecord F))
      (res : Result (Solution F) (Abort F))
      → Blames (step_ids route.steps) res
      → Reroutes
          (step_ids route.steps)
          (judge repr digests hashes policy q route excluded attempts res)
  unfolding judge failing_of
  judge-Reroutes route excluded attempts (err (key_error k)) b = tt
  judge-Reroutes route excluded attempts (err (step_failed id e)) b =
      elim (Bool-cases policy.fallback) [
        | inr off ↦ rw off tt
        | inl on ↦ elim (Bool-cases (id == "")) [
          | inr named ↦ rw (on, named) b
          | inl blank ↦ elim (Option-cases (last_id route.steps)) [
            | inl bare ↦ rw (on, blank, bare) tt
            | inr (k, last) ↦ rw (on, blank, last) (elem-last_id route.steps k last)
          ]
        ]
      ]
  judge-Reroutes route excluded attempts (ok solution) b =
      elim (Bool-cases (lt q.eps_budget (total_error solution.value solution.eps))) [
        | inr fits ↦ rw fits tt
        | inl busted ↦ elim (Bool-cases policy.fallback) [
          | inr off ↦ rw (busted, off) tt
          | inl on ↦ elim (Option-cases (last_id route.steps)) [
            | inl bare ↦ rw (busted, on, bare) tt
            | inr (k, last) ↦ rw (busted, on, last) (elem-last_id route.steps k last)
          ]
        ]
      ]

  conclude-Shrinks :
      (key : Option String) (t : Trail F) (disk : Disk F) (v : Verdict F)
      → Reroutes (entry_ids (excluding (iterate r) t.excluded)) v
      → Shrinks (iterate r) t (conclude search repr digests hashes policy r q key t disk v).0
  unfolding conclude
  conclude-Shrinks key t disk (accept solution) h = tt
  conclude-Shrinks key t disk (stop failure) h = tt
  conclude-Shrinks key t disk (reroute a id) h = excluding-exclude_lt (iterate r) id t.excluded h

  pub Reroutes-within :
      (ids : List String) (steps : List (RouteStep F)) (v : Verdict F)
      → All (λ s. elem s.solver_id ids ≡ true) steps
      → Reroutes (step_ids steps) v
      → Reroutes ids v
  Reroutes-within ids steps (accept _) a h = tt
  Reroutes-within ids steps (stop _) a h = tt
  Reroutes-within ids steps (reroute _ id) a h = elem-All ids id steps a h

  attempt_route-Shrinks :
      (route : Route F) (key : Option String) (t : Trail F) (disk : Disk F)
      → All
          (λ s. elem s.solver_id (entry_ids (excluding (iterate r) t.excluded)) ≡ true)
          route.steps
      → Shrinks
          (iterate r)
          t
          (attempt_route search repr digests hashes policy r q route key t disk).0
  unfolding attempt_route
  attempt_route-Shrinks route key t disk a = conclude-Shrinks key t _ _ (
      Reroutes-within (entry_ids (excluding (iterate r) t.excluded)) route.steps _ a (
        judge-Reroutes route t.excluded t.attempts _ (
          execute_route-Blames repr digests r.ports (iterate r) route q.known q.payloads disk.steps
            (some q.eps_budget))))

  attempt-Shrinks :
      PlansWithin search
      → (t : Trail F) (disk : Disk F)
      → Shrinks (iterate r) t (attempt search repr digests hashes policy r q t disk).0
  unfolding attempt plan PlansWithin
  attempt-Shrinks within t disk =
      let view = excluding (iterate r) t.excluded in
      elim (Result-cases (plan search view q)) [
        | inr (perr, p) ↦ rw (p, attempt) tt
        | inl (route, p) ↦
            let a =
              subst (λ ids. All (λ s. elem s.solver_id ids ≡ true) route.steps) (input_ids-map view)
                (within _ _ _ _ _ _ route p) in
            elim (Result-cases (key_if_cacheable repr digests hashes policy r q route)) [
              | inr (missing, k) ↦ rw (p, k, attempt) tt
              | inl (key, k) ↦
                  elim (Option-cases
                    (cached_solution repr digests hashes policy r route key disk)) [
                      | inr (cached, c) ↦ rw (p, k, c, attempt) tt
                      | inl c ↦ rw (p, k, c, attempt) (attempt_route-Shrinks route key t disk a)
                    ]
            ]
      ]

  Ends : ℕ → Next F × Disk F → Type 0
  Ends fuel x =
      (a : Answer F × Disk F) × ((elim x.0 [
        | answer a' ↦ some (a', x.1)
        | again t' ↦ solve_loop search repr digests hashes policy r q fuel t' x.1
      ])
        ≡ some a)

  Shrinks-Ends :
      (fuel : ℕ) (t : Trail F) (x : Next F × Disk F)
      → ((t' : Trail F) (disk : Disk F)
          → length (excluding (iterate r) t'.excluded) < fuel
          → (a : Answer F × Disk F) × (solve_loop search repr digests hashes policy r q fuel t' disk
              ≡ some a))
      → length (excluding (iterate r) t.excluded) < suc fuel
      → Shrinks (iterate r) t x.0
      → Ends fuel x
  unfolding Ends
  Shrinks-Ends fuel t (answer a, disk) ih enough h = ((a, disk), refl)
  Shrinks-Ends fuel t (again t', disk) ih enough h = ih t' disk (omega (arith, h, enough))

  -- More fuel than solvers are left in the view is enough.
  pub solve_loop-total :
      PlansWithin search
      → (fuel : ℕ) (t : Trail F) (disk : Disk F) → length (excluding (iterate r) t.excluded) < fuel
      → (a : Answer F × Disk F) × (solve_loop search repr digests hashes policy r q fuel t disk
          ≡ some a)
  unfolding solve_loop Ends
  solve_loop-total within zero t disk h = ground (arith, h)
  solve_loop-total within (suc fuel) t disk h =
      Shrinks-Ends fuel t (attempt search repr digests hashes policy r q t disk)
        (solve_loop-total within fuel) h (attempt-Shrinks within t disk)
