-- ===== src/Plan/Walk/Transparent.antt =====
-- An execution with a step cache beside one without (python/feldspar/plan/execute.py, cache.py).
use feldspar.Prelude.{
  String, ◌≡◌, refl, sym, ap, subst, ◌∙◌, true, Option, none, some, List, [], ◌∷◌, Result, ok, err,
  ◌>>=◌, arith, inl, inr, Bool-cases, Option-cases, Result-cases,
}
use feldspar.Prelude.Dict.{Dict, lookup}
use feldspar.Prelude.Float.{FloatOps}
use feldspar.Core.{Interval, PayloadRef, PortDecl}
use feldspar.Solve.Models.{SolverInfo}
use feldspar.Solve.Errors.{SolveError}
use feldspar.Solve.Registry.{Entry}
use feldspar.Plan.Models.{Abort, Repr, Route, RouteStep}
use feldspar.Plan.StepCache.{StepEntry, PayloadStepCache, step_cache_get, step_cache_put}
use feldspar.Plan.Execute.{solver_of, fresh_step}
use feldspar.Plan.Walk.{
  Digests, Walk, Prepared, prepare, takes_part, step_key, store_fresh, or_fresh, step_entry,
  finish_step, run_prepared, run_step, run_steps, solution_of, finish_walk, execute_route,
  start_walk,
}
use feldspar.Plan.Walk.Attribution.{solver_of-id}
use feldspar.Plan.Walk.Cached.{
  Distinguishes, Cacheable, IsCoherent, insert-IsCoherent, Prepares, key_of, fresh_of,
}

module _ {F : Type 0} ⦃o : FloatOps F⦄ (repr : Repr F) (digests : Digests F)
    (port_table : Dict PortDecl) (solvers : List (Entry F))
    (apart : Distinguishes repr digests port_table solvers)
    (good : Cacheable repr digests port_table solvers) where
  -- No cache, or a coherent one.
  unfoldable pub Kept : Option (PayloadStepCache F) → Type 0
  Kept none = Unit
  Kept (some cache) = IsCoherent repr digests port_table solvers cache.blobs

  -- A hit is a blob, and a lookup leaves the blobs.
  abbrev Served : String → PayloadStepCache F → Option (StepEntry F) × PayloadStepCache F → Type 0
  Served key c (none, c') = c'.blobs ≡ c.blobs
  Served key c (some entry, c') = (lookup key c.blobs ≡ some (some entry)) × (c'.blobs ≡ c.blobs)

  step_cache_get-Served :
      (key : String) (probe : Option (Result (Unit {0}) (SolveError F))) (c : PayloadStepCache F)
      → Served key c (step_cache_get key probe c)
  unfolding step_cache_get
  step_cache_get-Served key probe c = elim (Option-cases (lookup key c.blobs)) [
    | inl e ↦ rw (e, step_cache_get) refl
    | inr (none, e) ↦ elim (Option-cases probe) [
      | inl p ↦ rw (e, p, step_cache_get) refl
      | inr (ok _, p) ↦ rw (e, p, step_cache_get) refl
      | inr (err _, p) ↦ rw (e, p, step_cache_get) refl
    ]
    | inr (some entry, e) ↦ elim (Option-cases probe) [
      | inl p ↦ rw (e, p, step_cache_get) (e, refl)
      | inr (ok _, p) ↦ rw (e, p, step_cache_get) (e, refl)
      | inr (err _, p) ↦ rw (e, p, step_cache_get) refl
    ]
  ]

  or_fresh-Kept :
      (e : Entry F) (p : Prepared F) (c : PayloadStepCache F)
      (x : Option (StepEntry F) × PayloadStepCache F) (fresh : Result (StepEntry F) (Abort F))
      → fresh_of repr digests port_table e p ≡ fresh
      → solver_of solvers e.0.solver_id ≡ some e
      → e.0.deterministic ≡ true
      → Prepares repr digests port_table e.0 p
      → IsCoherent repr digests port_table solvers c.blobs
      → Served (key_of repr digests port_table e p) c x
      → ((or_fresh repr digests port_table (key_of repr digests port_table e p) fresh x).0 ≡ fresh)
        × Kept (or_fresh repr digests port_table (key_of repr digests port_table e p) fresh x).1
  unfolding or_fresh store_fresh step_cache_put Kept IsCoherent
  or_fresh-Kept e p c (some entry, c') fresh run here det given h s = (
    sym (h e p entry here det given s.0) ∙ run,
    subst (IsCoherent repr digests port_table solvers) (sym s.1) h,
  )
  or_fresh-Kept e p c (none, c') (err a) run here det given h s =
      (refl, subst (IsCoherent repr digests port_table solvers) (sym s) h)
  or_fresh-Kept e p c (none, c') (ok entry) run here det given h s = (
    refl,
    insert-IsCoherent repr digests port_table solvers e p entry c'.blobs apart good here given run
        (subst (IsCoherent repr digests port_table solvers) (sym s) h),
  )

  takes_part-deterministic :
      (info : SolverInfo F) (refs : Dict PayloadRef)
      → takes_part repr digests port_table info refs ≡ true
      → info.deterministic ≡ true
  unfolding takes_part
  takes_part-deterministic info refs h = ground (arith, h)

  step_entry-Kept :
      (e : Entry F) (p : Prepared F) (cache : Option (PayloadStepCache F))
      → solver_of solvers e.0.solver_id ≡ some e
      → Prepares repr digests port_table e.0 p
      → Kept cache
      → ((step_entry repr digests port_table e.0 e.1 p cache).0
          ≡ (step_entry repr digests port_table e.0 e.1 p none).0)
        × Kept (step_entry repr digests port_table e.0 e.1 p cache).1
  unfolding step_entry Kept
  step_entry-Kept e p none here given h = (refl, tt)
  step_entry-Kept e p (some c) here given h =
      elim (Bool-cases (takes_part repr digests port_table e.0 p.payload_inputs)) [
        | inr out ↦ rw (out, step_entry) (refl, h)
        | inl part ↦
            rw (part, step_entry)
              (or_fresh-Kept e p c
                (step_cache_get (step_key repr digests port_table e.0 p.box p.payload_inputs)
                  e.1.probe_tools c)
                (fresh_step repr port_table e.0 e.1 p.box p.payload_inputs p.budget) refl here
                (takes_part-deterministic e.0 p.payload_inputs part) given h
                (step_cache_get-Served _ e.1.probe_tools c))
      ]

  run_prepared-Kept :
      (info : SolverInfo F) (w : Walk F)
      (x y : Result (StepEntry F) (Abort F) × Option (PayloadStepCache F))
      → x.0 ≡ y.0
      → Kept x.1
      → ((run_prepared repr digests port_table info w x).0
          ≡ (run_prepared repr digests port_table info w y).0)
        × Kept (run_prepared repr digests port_table info w x).1
  unfolding run_prepared
  run_prepared-Kept info w (res, cache) (res', cache') e h =
      (ap (λ m. m >>= λ entry. finish_step repr digests port_table info entry w) e, h)

  run_step-Kept :
      (e : Entry F) (budget : Option F) (w : Walk F) (cache : Option (PayloadStepCache F))
      → solver_of solvers e.0.solver_id ≡ some e
      → Kept cache
      → ((run_step repr digests port_table e budget w cache).0
          ≡ (run_step repr digests port_table e budget w none).0)
        × Kept (run_step repr digests port_table e budget w cache).1
  unfolding run_step Prepares
  run_step-Kept e budget w cache here h =
      elim (Result-cases (prepare repr digests port_table e.0 budget w)) [
        | inr (a, p) ↦ rw (p, run_step) (refl, h)
        | inl (x, p) ↦
            let s = step_entry-Kept e x cache here (budget, w, p) h in
            rw (p, run_step)
              (run_prepared-Kept e.0 w (step_entry repr digests port_table e.0 e.1 x cache)
                (step_entry repr digests port_table e.0 e.1 x none) s.0 s.1)
      ]

  run_step-none :
      (e : Entry F) (budget : Option F) (w : Walk F)
      → (run_step repr digests port_table e budget w none).1 ≡ none
  unfolding run_step run_prepared step_entry
  run_step-none e budget w = elim (Result-cases (prepare repr digests port_table e.0 budget w)) [
    | inr (a, p) ↦ rw (p, run_step) refl
    | inl (x, p) ↦ rw (p, run_step) refl
  ]

  run_steps-Kept :
      (budget : Option F) (steps : List (RouteStep F)) (w : Walk F)
      (cache : Option (PayloadStepCache F))
      → Kept cache
      → ((run_steps repr digests port_table solvers budget steps w cache).0
          ≡ (run_steps repr digests port_table solvers budget steps w none).0)
        × Kept (run_steps repr digests port_table solvers budget steps w cache).1
  unfolding run_steps
  run_steps-Kept budget [] w cache h = (refl, h)
  run_steps-Kept budget (step ∷ steps) w cache h =
      elim (Option-cases (solver_of solvers step.solver_id)) [
        | inl missing ↦ rw (missing, run_steps) (refl, h)
        | inr (e, found) ↦
            let here =
              ap (solver_of solvers) (solver_of-id solvers step.solver_id e found) ∙ found in
            let s = run_step-Kept e budget w cache here h in
            elim (Result-cases (run_step repr digests port_table e budget w none).0) [
              | inr (a, p) ↦ rw (found, s.0 ∙ p, p, run_steps) (refl, s.1)
              | inl (w', p) ↦
                  let next =
                    run_steps-Kept budget steps w'
                      (run_step repr digests port_table e budget w cache).1 s.1 in
                  rw (found, s.0 ∙ p, p, run_steps)
                    (
                      next.0
                          ∙ ap
                              (λ c. (run_steps repr digests port_table solvers budget steps w' c).0)
                              (sym (run_step-none e budget w)),
                      next.1,
                    )
            ]
      ]

  -- If equal step keys come from equal identities among the inputs that the solvers can be given,
  -- the deterministic solvers are plain callables that read payloads by digest, and the step cache
  -- is absent or coherent (each blob that parses is what a run of its step gives), then an
  -- execution gives the same result as one without a cache, and leaves an absent or a coherent
  -- cache, for every route, request and budget.
  pub execute_route-Kept :
      (route : Route F) (known : Dict (Interval F)) (payloads : Dict PayloadRef)
      (cache : Option (PayloadStepCache F)) (budget : Option F)
      → Kept cache
      → ((execute_route repr digests port_table solvers route known payloads cache budget).0
          ≡ (execute_route repr digests port_table solvers route known payloads none budget).0)
        × Kept (execute_route repr digests port_table solvers route known payloads cache budget).1
  unfolding execute_route finish_walk
  execute_route-Kept route known payloads cache budget h =
      let s =
        run_steps-Kept budget route.steps (start_walk repr digests port_table known payloads) cache
          h in
      (ap (λ m. m >>= solution_of repr digests port_table solvers route) s.0, s.1)
