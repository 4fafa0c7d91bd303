-- ===== src/Solve/Registry/Invariant.antt =====
-- The well-formedness of a `SolverRegistry` (python/feldspar/solve/registry.py) and its operations.
use feldspar.Prelude.{
  String, ◌≡◌, refl, true, false, List, [], ◌∷◌, arith, inl, inr, Option-cases, Result-cases,
  Bool-cases, sym, eq_iff, ◌==◌,
}
use feldspar.Prelude.Dict.{Dict, lookup, insert, erase, keys, IsDict, insert-IsDict, erase-IsDict}
use feldspar.Prelude.Float.{FloatOps}
use feldspar.Core.{PortDecl}
use feldspar.Solve.Models.{SolverInfo, SolveFn}
use feldspar.Solve.Registry.Solvers.{Admissible, register-ok_iff, register-err, register-ok}
use feldspar.Solve.Registry.{
  Entry, SolverRegistry, declare_loop, declare_ports, register_error, register,
  rollback_registration, rollback_port_decl, freeze, has_known_kind, same_set, lacks_citation,
  empty_registry,
}

-- What holds at every key of a dict.
abbrev pub AllEntries {ℓ} : {V : Type ℓ} → (String → V → Type 0) → Dict V → Type 0
AllEntries P [] = Unit
AllEntries P (e ∷ d) = P e.0 e.1 × AllEntries P d

module _ {ℓ} {V : Type ℓ} (P : String → V → Type 0) where
  AllEntries-insert :
      (k : String) (v : V) (d : Dict V)
      → AllEntries P d
      → ((j : String) → k ≡ j → P j v)
      → AllEntries P (insert k v d)
  unfolding insert
  AllEntries-insert k v [] a h = (h k refl, tt)
  AllEntries-insert k v (e ∷ d) a h = elim (Bool-cases (e.0 == k)) [
    | inl hit ↦ rw hit (h e.0 (sym ((eq_iff e.0 k).0 hit)), a.1)
    | inr miss ↦ rw miss (a.0, AllEntries-insert k v d a.1 h)
  ]

  AllEntries-erase : (k : String) (d : Dict V) → AllEntries P d → AllEntries P (erase k d)
  unfolding erase
  AllEntries-erase k [] a = tt
  AllEntries-erase k (e ∷ d) a = ground (arith, AllEntries-erase k d a.1)

-- A declared port stands under its own name and has a known kind.
abbrev pub IsPortEntry : String → PortDecl → Type 0
IsPortEntry name decl = (decl.name ≡ name) × (has_known_kind decl ≡ true)

declare_loop-keeps :
    (decls : List PortDecl) (ports : Dict PortDecl)
    → IsDict ports
    → AllEntries IsPortEntry ports
    → IsDict (declare_loop decls ports).1 × AllEntries IsPortEntry (declare_loop decls ports).1
unfolding declare_loop
declare_loop-keeps [] ports h a = (h, a)
declare_loop-keeps (decl ∷ decls) ports h a = elim (Bool-cases (has_known_kind decl)) [
  | inr bad ↦ rw bad (h, a)
  | inl good ↦ elim (Option-cases (lookup decl.name ports)) [
    | inr (x, e) ↦ rw (good, e, declare_loop) (h, a)
    | inl e ↦
        rw (good, e, declare_loop)
          (declare_loop-keeps decls (insert decl.name decl ports)
            (insert-IsDict decl.name decl ports h)
            (AllEntries-insert IsPortEntry decl.name decl ports a (λ j p. (p, good))))
  ]
]

module _ {F : Type 0} ⦃o : FloatOps F⦄ where
  -- A registered solver stands under its own id, has a positive cost, an accuracy for each output
  -- and no other port, and a citation that is no calibration.
  abbrev pub IsSolverEntry : String → Entry F → Type 0
  IsSolverEntry id (info, fn) =
      (info.solver_id ≡ id)
      × (o.le info.cost o.zero ≡ false)
      × (same_set (keys info.accuracy) info.outputs ≡ true)
      × (lacks_citation info.citations ≡ false)

  pub record IsValid (r : SolverRegistry F) : Type 0 where
    pub solvers_dict : IsDict r.solvers
    pub ports_dict : IsDict r.ports
    pub solvers_each : AllEntries IsSolverEntry r.solvers
    pub ports_each : AllEntries IsPortEntry r.ports

  pub empty-IsValid : IsValid (empty_registry {F = F})
  empty-IsValid = record { solvers_dict = tt; ports_dict = tt; solvers_each = tt; ports_each = tt }

  pub declare_ports-IsValid :
      (decls : List PortDecl) (r : SolverRegistry F) → IsValid r → IsValid (declare_ports decls r).1
  unfolding declare_ports
  declare_ports-IsValid decls r v =
      ground (arith, declare_loop-keeps decls r.ports v.ports_dict v.ports_each)

  accepted_IsValid :
      (info : SolverInfo F) (fn : SolveFn F) (r : SolverRegistry F)
      → IsValid r
      → Admissible info r
      → IsValid (record r { solvers = insert info.solver_id (info, fn) r.solvers })
  accepted_IsValid info fn r v a = record {
    solvers_dict = insert-IsDict info.solver_id (info, fn) r.solvers v.solvers_dict;
    ports_dict = v.ports_dict;
    solvers_each =
        AllEntries-insert IsSolverEntry info.solver_id (info, fn) r.solvers v.solvers_each
          (λ j p. (p, a.positive_cost, a.accuracy_each, a.is_cited));
    ports_each = v.ports_each;
  }

  pub register-IsValid :
      (info : SolverInfo F) (fn : SolveFn F) (r : SolverRegistry F)
      → IsValid r
      → IsValid (register info fn r).1
  register-IsValid info fn r v = elim (Result-cases (register info fn r).0) [
    | inr (e, h) ↦ rw (register-err info fn r h) v
    | inl (_, h) ↦
        rw (register-ok info fn r h)
          (accepted_IsValid info fn r v ((register-ok_iff info fn r).0 h))
  ]

  pub rollback_registration-IsValid :
      (id : String) (r : SolverRegistry F) → IsValid r → IsValid (rollback_registration id r)
  unfolding rollback_registration
  rollback_registration-IsValid id r v = record {
    solvers_dict = erase-IsDict id r.solvers v.solvers_dict;
    ports_dict = v.ports_dict;
    solvers_each = AllEntries-erase IsSolverEntry id r.solvers v.solvers_each;
    ports_each = v.ports_each;
  }

  pub rollback_port_decl-IsValid :
      (name : String) (r : SolverRegistry F) → IsValid r → IsValid (rollback_port_decl name r)
  unfolding rollback_port_decl
  rollback_port_decl-IsValid name r v = record {
    solvers_dict = v.solvers_dict;
    ports_dict = erase-IsDict name r.ports v.ports_dict;
    solvers_each = v.solvers_each;
    ports_each = AllEntries-erase IsPortEntry name r.ports v.ports_each;
  }

  pub freeze-IsValid : (r : SolverRegistry F) → IsValid r → IsValid (freeze r)
  unfolding freeze
  freeze-IsValid r v = record {
    solvers_dict = v.solvers_dict;
    ports_dict = v.ports_dict;
    solvers_each = v.solvers_each;
    ports_each = v.ports_each;
  }

-- The operations that a client may call.
pub data Operation (F : Type 0) : Type 0 where
  declare : List PortDecl → Operation F
  add_solver : SolverInfo F → SolveFn F → Operation F
  freeze_now : Operation F

module _ {F : Type 0} ⦃o : FloatOps F⦄ where
  unfoldable pub apply : Operation F → SolverRegistry F → SolverRegistry F
  unfolding declare_ports register freeze
  apply (declare decls) r = (declare_ports decls r).1
  apply (add_solver info fn) r = (register info fn r).1
  apply freeze_now r = freeze r

  unfoldable pub run : List (Operation F) → SolverRegistry F → SolverRegistry F
  unfolding apply
  run [] r = r
  run (op ∷ ops) r = run ops (apply op r)

  -- Each operation keeps the invariant, whether or not it succeeds.
  pub apply-IsValid : (op : Operation F) (r : SolverRegistry F) → IsValid r → IsValid (apply op r)
  unfolding apply
  apply-IsValid (declare decls) r v = declare_ports-IsValid decls r v
  apply-IsValid (add_solver info fn) r v = register-IsValid info fn r v
  apply-IsValid freeze_now r v = freeze-IsValid r v

  -- Every sequence of declarations, registrations and freezes, accepted or refused, takes a valid
  -- registry to a valid one: no port or solver id twice, each entry under its own name, and each
  -- entry with what its guards checked.
  pub run-IsValid :
      (ops : List (Operation F)) (r : SolverRegistry F) → IsValid r → IsValid (run ops r)
  unfolding run
  run-IsValid [] r v = v
  run-IsValid (op ∷ ops) r v = run-IsValid ops (apply op r) (apply-IsValid op r v)

  frozen_apply : (op : Operation F) (r : SolverRegistry F) → r.frozen ≡ true → apply op r ≡ r
  unfolding apply declare_ports register register_error freeze
  frozen_apply (declare decls) r h = rw h
  frozen_apply (add_solver info fn) r h = rw h
  frozen_apply freeze_now r h = ground arith

  -- On a frozen registry no sequence of declarations, registrations and freezes changes anything.
  pub run_frozen :
      (ops : List (Operation F)) (r : SolverRegistry F) → r.frozen ≡ true → run ops r ≡ r
  unfolding run
  run_frozen [] r h = refl
  run_frozen (op ∷ ops) r h = rw (frozen_apply op r h) (run_frozen ops r h)
