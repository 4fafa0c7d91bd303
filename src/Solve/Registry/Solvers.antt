-- ===== src/Solve/Registry/Solvers.antt =====
-- `register`, `get` and the rollback of a registration (python/feldspar/solve/registry.py).
use feldspar.Prelude.{
  String, ◌≡◌, ◌≢◌, refl, true, false, none, some, List, [], ◌∷◌, arith, ok, err, inl, inr,
  Bool-cases, ◌==◌, All, ◌↔◌, if◌then◌else◌,
}
use feldspar.Prelude.Dict.{Dict, lookup, contains, insert, keys, lookup-insert, erase-insert_new}
use feldspar.Prelude.Float.{FloatOps}
use feldspar.Core.{PortDecl}
use feldspar.Solve.Models.{SolverInfo, SolveFn}
use feldspar.Solve.Errors.{RegistryError}
use feldspar.Solve.Registry.{
  SolverRegistry, register_error, register, unknown_port_of, undeclared, touched_ports,
  rollback_registration, get, same_set, lacks_citation,
}

abbrev pub AreDeclared : Dict PortDecl → List String → Type 0
AreDeclared ports ps = All (λ p. contains p ports ≡ true) ps

unknown_port_of-none :
    (ports : Dict PortDecl) (ps : List String)
    → (unknown_port_of ports ps ≡ none) ↔ AreDeclared ports ps
unfolding unknown_port_of
unknown_port_of-none ports [] = (λ _. tt, λ _. refl)
unknown_port_of-none ports (p ∷ ps) = elim (Bool-cases (contains p ports)) [
  | inl hit ↦ let ih = unknown_port_of-none ports ps in rw hit (λ h. (refl, ih.0 h), λ h. ih.1 h.1)
  | inr miss ↦ rw miss (λ h. cc, λ h. cc (h.0))
]

module _ {F : Type 0} ⦃o : FloatOps F⦄ where
  -- What `register` asks of a solver. A table with no port asks nothing of the ports.
  pub record Admissible (info : SolverInfo F) (r : SolverRegistry F) : Type 0 where
    pub open_registry : r.frozen ≡ false
    pub fresh_id : lookup info.solver_id r.solvers ≡ none
    pub positive_cost : o.le info.cost o.zero ≡ false
    pub accuracy_each : same_set (keys info.accuracy) info.outputs ≡ true
    pub is_cited : lacks_citation info.citations ≡ false
    pub declared_ports : r.ports ≢ [] → AreDeclared r.ports (touched_ports info)

  undeclared-none :
      (ports : Dict PortDecl) (info : SolverInfo F)
      → (undeclared ports info ≡ none) ↔ (ports ≢ [] → AreDeclared ports (touched_ports info))
  undeclared-none [] info = (λ _ h. absurd (h refl), λ _. refl)
  undeclared-none (e ∷ ports) info =
      let each = unknown_port_of-none (e ∷ ports) (touched_ports info) in
      (λ h _. each.0 h, λ h. each.1 (h (λ p. cc p)))

  pub register_error-none :
      (info : SolverInfo F) (r : SolverRegistry F)
      → register_error info r ≡ none
      → Admissible info r
  unfolding register_error
  register_error-none info r h = ground (arith, undeclared-none r.ports info)

  pub none-register_error :
      (info : SolverInfo F) (r : SolverRegistry F)
      → Admissible info r
      → register_error info r ≡ none
  unfolding register_error
  none-register_error info r a =
      let ports = (undeclared-none r.ports info).1 a.declared_ports in ground arith

  -- Registration answers ok exactly when the solver is admissible: the registry is open, the id is
  -- new, the cost is not at or below zero, the accuracy keys and the outputs are the same set, the
  -- citations are good enough, and, where a port table exists, every port touched is declared.
  pub register-ok_iff :
      (info : SolverInfo F) (fn : SolveFn F) (r : SolverRegistry F)
      → ((register info fn r).0 ≡ ok tt) ↔ Admissible info r
  unfolding register
  register-ok_iff info fn r = (
    λ h. register_error-none info r (ground arith),
    λ a. rw (none-register_error info r a, register),
  )

  -- A refusal changes nothing.
  pub register-err :
      (info : SolverInfo F) (fn : SolveFn F) (r : SolverRegistry F) {e : RegistryError}
      → (register info fn r).0 ≡ err e
      → (register info fn r).1 ≡ r
  unfolding register
  register-err info fn r h = ground arith

  -- An acceptance adds the one entry, at the end.
  pub register-ok :
      (info : SolverInfo F) (fn : SolveFn F) (r : SolverRegistry F)
      → (register info fn r).0 ≡ ok tt
      → (register info fn r).1 ≡ record r { solvers = insert info.solver_id (info, fn) r.solvers }
  unfolding register
  register-ok info fn r h = ground arith

  pub get-register :
      (info : SolverInfo F) (fn : SolveFn F) (r : SolverRegistry F) (id : String)
      → (register info fn r).0 ≡ ok tt
      → get (register info fn r).1 id ≡ (if info.solver_id == id then some (info, fn) else get r id)
  unfolding get
  get-register info fn r id h =
      rw (register-ok info fn r h) (lookup-insert info.solver_id id (info, fn) r.solvers)

  -- Rolling back a registration that was accepted gives back the registry from before it.
  pub rollback_registration-register :
      (info : SolverInfo F) (fn : SolveFn F) (r : SolverRegistry F)
      → (register info fn r).0 ≡ ok tt
      → rollback_registration info.solver_id (register info fn r).1 ≡ r
  unfolding rollback_registration
  rollback_registration-register info fn r h =
      let a = (register-ok_iff info fn r).0 h in
      rw (register-ok info fn r h)
        (rw (erase-insert_new info.solver_id (info, fn) r.solvers a.fresh_id) refl)
