-- ===== src/Plan/Walk/Cached.antt =====
-- The blobs of the step cache (`PayloadStepCache` of python/feldspar/plan/cache.py) and the runs
-- that they stand for: what is assumed of the solvers and of the hash, and when a cache is
-- coherent.
use feldspar.Prelude.{
  String, ◌≡◌, refl, sym, ap, ap₂, ◌∙◌, fun_ext, true, Option, some, List, [], Result, ok, arith,
  inl, inr, Bool-cases, ◌==◌, eq_iff,
}
use feldspar.Prelude.Dict.{Dict, lookup, insert, lookup-insert, lookup-insert_self}
use feldspar.Prelude.Dict.Sorted.{sorted}
use feldspar.Prelude.Float.{FloatOps}
use feldspar.Core.{Interval, PayloadRef, PortDecl}
use feldspar.Core.Sweep.{corner_sweep, sweep_from}
use feldspar.Solve.Models.{SolverInfo, SolveFn, Value, plain, Outcome, invoke_solve_fn}
use feldspar.Solve.Registry.{Entry}
use feldspar.Plan.Models.{Abort, Repr}
use feldspar.Plan.StepCache.{StepEntry, StepIdentity, step_identity, digests_of}
use feldspar.Plan.Step.{full_corner, check_corner, Collected, corner_fn}
use feldspar.Plan.Execute.{
  solver_of, scalar_outputs_of, payload_outputs_of, fresh_step, finish_sweep,
}
use feldspar.Plan.Walk.{Prepared, Walk, prepare, Digests, step_key}
use mathlib.Core.Option.{some-injective}
use feldspar.Core.Sweep.Covers.{enumerate_corners-ext}

-- A plain callable that reads payloads by digest.
pub record ReadsDigests {F : Type 0} (fn : SolveFn F) : Type 0 where
  pub body : Dict (Value F) → Outcome F
  pub is_plain : fn.call ≡ plain body
  pub by_digest :
      (corner : Dict F) (refs refs' : Dict PayloadRef)
      → sorted (digests_of refs) ≡ sorted (digests_of refs')
      → body (full_corner corner refs) ≡ body (full_corner corner refs')

invoke_plain :
    {F : Type 0} (fn : SolveFn F) (body : Dict (Value F) → Outcome F) (x : Dict (Value F))
    (b : Option F)
    → fn.call ≡ plain body
    → invoke_solve_fn fn x b ≡ body x
unfolding invoke_solve_fn
invoke_plain fn body x b h = rw h refl

module _ {F : Type 0} ⦃o : FloatOps F⦄ (repr : Repr F) (digests : Digests F)
    (port_table : Dict PortDecl) where
  corner_fn-ReadsDigests :
      (info : SolverInfo F) (fn : SolveFn F) (refs refs' : Dict PayloadRef)
      (scalars payloads : List String) (b b' : Option F) (corner : Dict F) (s : Collected F)
      → ReadsDigests fn
      → sorted (digests_of refs) ≡ sorted (digests_of refs')
      → corner_fn repr port_table info fn refs scalars payloads b corner s
        ≡ corner_fn repr port_table info fn refs' scalars payloads b' corner s
  unfolding corner_fn
  corner_fn-ReadsDigests info fn refs refs' scalars payloads b b' corner s h e =
      ap (λ outcome. check_corner repr port_table info scalars payloads outcome s)
        (invoke_plain fn h.body (full_corner corner refs) b h.is_plain
          ∙ h.by_digest corner refs refs' e
          ∙ sym (invoke_plain fn h.body (full_corner corner refs') b' h.is_plain))

  fresh_step-ReadsDigests :
      (info : SolverInfo F) (fn : SolveFn F) (box box' : Dict (Interval F))
      (refs refs' : Dict PayloadRef) (b b' : Option F)
      → ReadsDigests fn
      → sorted box ≡ sorted box'
      → sorted (digests_of refs) ≡ sorted (digests_of refs')
      → fresh_step repr port_table info fn box refs b
        ≡ fresh_step repr port_table info fn box' refs' b'
  unfolding fresh_step corner_sweep
  fresh_step-ReadsDigests info fn box box' refs refs' b b' h same_box same_refs =
      ap₂
        (λ eval corners.
          finish_sweep repr port_table info
            (sweep_from eval corners [] (record { measured = []; produced = [] })))
        (fun_ext (λ corner. fun_ext (λ s.
          corner_fn-ReadsDigests info fn refs refs' (scalar_outputs_of port_table info)
            (payload_outputs_of port_table info) b b' corner s h same_refs)))
        (enumerate_corners-ext box box' same_box)

  -- A step's inputs as some walk prepares them.
  unfoldable pub Prepares : SolverInfo F → Prepared F → Type 0
  Prepares info p =
      (b : Option F) × (w : Walk F) × (prepare repr digests port_table info b w ≡ ok p)

  abbrev pub key_of : Entry F → Prepared F → String
  key_of e p = step_key repr digests port_table e.0 p.box p.payload_inputs

  abbrev pub identity_of : Entry F → Prepared F → StepIdentity F
  identity_of e p = step_identity digests.feldspar_version e.0 p.box p.payload_inputs

  abbrev pub fresh_of : Entry F → Prepared F → Result (StepEntry F) (Abort F)
  fresh_of e p = fresh_step repr port_table e.0 e.1 p.box p.payload_inputs p.budget

  -- Among the inputs that the solvers can be given, equal keys come from equal identities.
  unfoldable pub Distinguishes : List (Entry F) → Type 0
  Distinguishes solvers =
      (e e' : Entry F) (p p' : Prepared F)
      → solver_of solvers e.0.solver_id ≡ some e
      → solver_of solvers e'.0.solver_id ≡ some e'
      → Prepares e.0 p
      → Prepares e'.0 p'
      → key_of e p ≡ key_of e' p'
      → identity_of e p ≡ identity_of e' p'

  -- The deterministic solvers read payloads by digest, whatever the budget.
  unfoldable pub Cacheable : List (Entry F) → Type 0
  Cacheable solvers =
      (id : String) (e : Entry F)
      → solver_of solvers id ≡ some e
      → e.0.deterministic ≡ true
      → ReadsDigests e.1

  -- Every blob that parses is what a run of its step gives.
  unfoldable pub IsCoherent : List (Entry F) → Dict (Option (StepEntry F)) → Type 0
  IsCoherent solvers blobs =
      (e : Entry F) (p : Prepared F) (entry : StepEntry F)
      → solver_of solvers e.0.solver_id ≡ some e
      → e.0.deterministic ≡ true
      → Prepares e.0 p
      → lookup (key_of e p) blobs ≡ some (some entry)
      → fresh_of e p ≡ ok entry

  key_of-fresh_of :
      (solvers : List (Entry F)) (e e' : Entry F) (p p' : Prepared F)
      → Distinguishes solvers
      → Cacheable solvers
      → solver_of solvers e.0.solver_id ≡ some e
      → solver_of solvers e'.0.solver_id ≡ some e'
      → e.0.deterministic ≡ true
      → Prepares e.0 p
      → Prepares e'.0 p'
      → key_of e p ≡ key_of e' p'
      → fresh_of e p ≡ fresh_of e' p'
  unfolding Distinguishes Cacheable step_identity
  key_of-fresh_of solvers e e' p p' apart good here here' det given given' same =
      let ids = apart e e' p p' here here' given given' same in
      let one : some e ≡ some e' =
        sym here ∙ ap (solver_of solvers) (ap (λ i. i.solver_id) ids) ∙ here' in
      fresh_step-ReadsDigests e.0 e.1 p.box p'.box p.payload_inputs p'.payload_inputs p.budget
        p'.budget (good e.0.solver_id e here det) (ap (λ i. i.box) ids) (ap (λ i. i.payloads) ids)
      ∙ ap (λ x. fresh_of x p') (some-injective e e' one)

  pub insert-IsCoherent :
      (solvers : List (Entry F)) (e : Entry F) (p : Prepared F) (entry : StepEntry F)
      (blobs : Dict (Option (StepEntry F)))
      → Distinguishes solvers
      → Cacheable solvers
      → solver_of solvers e.0.solver_id ≡ some e
      → Prepares e.0 p
      → fresh_of e p ≡ ok entry
      → IsCoherent solvers blobs
      → IsCoherent solvers (insert (key_of e p) (some entry) blobs)
  unfolding IsCoherent
  insert-IsCoherent solvers e p entry blobs apart good here given fresh h e' p' entry' here' det
        given' found =
      let k = key_of e p in
      let k' = key_of e' p' in
      elim (Bool-cases (k == k')) [
        | inl hit ↦
            let same = (eq_iff k k').0 hit in
            let mine : some (some entry) ≡ some (some entry') =
              sym (lookup-insert_self k (some entry) blobs)
              ∙ ap (λ j. lookup j (insert k (some entry) blobs)) same
              ∙ found in
            key_of-fresh_of solvers e' e p' p apart good here' here det given' given (sym same)
            ∙ fresh
            ∙ ap ok (some-injective entry entry' (some-injective (some entry) (some entry') mine))
        | inr miss ↦
            h e' p' entry' here' det given'
              (ground (arith, lookup-insert k k' (some entry) blobs, miss, found))
      ]
