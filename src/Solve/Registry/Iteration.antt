-- ===== src/Solve/Registry/Iteration.antt =====
-- `__iter__` and `digest` (python/feldspar/solve/registry.py) under another order of registration.
use feldspar.Prelude.{
  map, List, String, ◌≡◌, ◌≢◌, ◌↔◌, ◌&&◌, Bool, true, false, none, some, arith, sym, ◌∙◌, eq_iff,
  ◌==◌, ap, if◌then◌else◌,
}
use feldspar.Prelude.Dict.{lookup, values, lookup-insert, lookup-insert_ne}
use feldspar.Prelude.Dict.Sorted.{sorted_ext}
use feldspar.Prelude.Float.{FloatOps}
use feldspar.Solve.Models.{SolverInfo, SolveFn}
use feldspar.Solve.Registry.{register_error, SolverRegistry, register, get, iterate, digest}
use feldspar.Solve.Registry.Solvers.{register_error-none, none-register_error, Admissible}
use feldspar.Solve.Registry.Invariant.{IsValid, register-IsValid}

Bool_ext : {a b : Bool} → (a ≡ true → b ≡ true) → (b ≡ true → a ≡ true) → a ≡ b
Bool_ext {a} {b} h g = ground arith

module _ {F : Type 0} ⦃o : FloatOps F⦄ where
  -- Registries that answer `get` alike iterate alike.
  pub iterate_ext :
      (r s : SolverRegistry F)
      → IsValid r
      → IsValid s
      → ((id : String) → get r id ≡ get s id)
      → iterate r ≡ iterate s
  unfolding iterate get
  iterate_ext r s v w h = ap values (sorted_ext r.solvers s.solvers v.solvers_dict w.solvers_dict h)

  frozen-register :
      (a : SolverInfo F) (f : SolveFn F) (r : SolverRegistry F)
      → (register a f r).1.frozen ≡ r.frozen
  unfolding register
  frozen-register a f r = ground arith

  ports-register :
      (a : SolverInfo F) (f : SolveFn F) (r : SolverRegistry F) → (register a f r).1.ports ≡ r.ports
  unfolding register
  ports-register a f r = ground arith

  solvers-register :
      (a b : SolverInfo F) (f : SolveFn F) (r : SolverRegistry F)
      → a.solver_id ≢ b.solver_id
      → lookup b.solver_id (register a f r).1.solvers ≡ lookup b.solver_id r.solvers
  unfolding register
  solvers-register a b f r ne =
      ground (arith, lookup-insert_ne a.solver_id b.solver_id (a, f) r.solvers ne)

  -- Another solver does not change what `register` asks of this one.
  Admissible-register :
      (a b : SolverInfo F) (f : SolveFn F) (r : SolverRegistry F)
      → a.solver_id ≢ b.solver_id
      → Admissible b r ↔ Admissible b (register a f r).1
  Admissible-register a b f r ne =
      let ids = solvers-register a b f r ne in
      (
        λ h. record {
          open_registry = frozen-register a f r ∙ h.open_registry;
          fresh_id = ids ∙ h.fresh_id;
          positive_cost = h.positive_cost;
          accuracy_each = h.accuracy_each;
          is_cited = h.is_cited;
          declared_ports = rw (ports-register a f r) h.declared_ports;
        },
        λ h. record {
          open_registry = sym (frozen-register a f r) ∙ h.open_registry;
          fresh_id = sym ids ∙ h.fresh_id;
          positive_cost = h.positive_cost;
          accuracy_each = h.accuracy_each;
          is_cited = h.is_cited;
          declared_ports = rw (ports-register a f r) at h.declared_ports;
        },
      )

  abbrev accepts : SolverInfo F → SolverRegistry F → Bool
  accepts a r = elim (register_error a r) [ none ↦ true | some _ ↦ false ]

  accepts_iff : (a : SolverInfo F) (r : SolverRegistry F) → (accepts a r ≡ true) ↔ Admissible a r
  accepts_iff a r =
      (λ h. register_error-none a r (ground arith), λ h. rw (none-register_error a r h, accepts))

  accepts-register :
      (a b : SolverInfo F) (f : SolveFn F) (r : SolverRegistry F)
      → a.solver_id ≢ b.solver_id
      → accepts b (register a f r).1 ≡ accepts b r
  accepts-register a b f r ne =
      let there = accepts_iff b r in
      let here = accepts_iff b (register a f r).1 in
      let moved = Admissible-register a b f r ne in
      Bool_ext (λ h. there.1 (moved.1 (here.0 h))) (λ h. here.1 (moved.0 (there.0 h)))

  get-register_if :
      (a : SolverInfo F) (f : SolveFn F) (r : SolverRegistry F) (id : String)
      → get (register a f r).1 id
        ≡ (if accepts a r && a.solver_id == id then some (a, f) else get r id)
  unfolding get register
  get-register_if a f r id = ground (arith, lookup-insert a.solver_id id (a, f) r.solvers)

  -- After two registrations of different ids, in either order, every id answers alike.
  get-register-register :
      (a b : SolverInfo F) (f g : SolveFn F) (r : SolverRegistry F) (id : String)
      → a.solver_id ≢ b.solver_id
      → get (register b g (register a f r).1).1 id ≡ get (register a f (register b g r).1).1 id
  get-register-register a b f g r id ne = ground (
    arith,
    get-register_if b g (register a f r).1 id,
    get-register_if a f (register b g r).1 id,
    get-register_if a f r id,
    get-register_if b g r id,
    accepts-register a b f r ne,
    accepts-register b a g r (λ p. ne (sym p)),
    eq_iff a.solver_id id,
    eq_iff b.solver_id id,
  )

  iterate-register-register :
      (a b : SolverInfo F) (f g : SolveFn F) (r : SolverRegistry F)
      → IsValid r
      → a.solver_id ≢ b.solver_id
      → iterate (register b g (register a f r).1).1 ≡ iterate (register a f (register b g r).1).1
  iterate-register-register a b f g r v ne =
      iterate_ext (register b g (register a f r).1).1 (register a f (register b g r).1).1
        (register-IsValid b g (register a f r).1 (register-IsValid a f r v))
        (register-IsValid a f (register b g r).1 (register-IsValid b g r v))
        (λ id. get-register-register a b f g r id ne)

  -- For every hash and every valid registry, registering two solvers of different ids in either
  -- order gives the same digest, whether or not they are accepted.
  pub digest-register-register :
      {D : Type 0} (canonical_digest : List (SolverInfo F) → D) (a b : SolverInfo F)
      (f g : SolveFn F) (r : SolverRegistry F)
      → IsValid r
      → a.solver_id ≢ b.solver_id
      → digest canonical_digest (register b g (register a f r).1).1
        ≡ digest canonical_digest (register a f (register b g r).1).1
  unfolding digest
  digest-register-register canonical_digest a b f g r v ne =
      ap (λ es. canonical_digest (map (λ e. e.0) es)) (iterate-register-register a b f g r v ne)
