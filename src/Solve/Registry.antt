-- ===== src/Solve/Registry.antt =====
-- `SolverRegistry` (python/feldspar/solve/registry.py): the state and every operation. A method that
-- changes the registry returns it with its result.
pub mod Invariant
pub mod Ports
pub mod Solvers
pub mod Iteration
use feldspar.Prelude.{
  String, Bool, true, false, Option, none, some, List, [], ◌∷◌, ◌++◌, map, not, ◌&&◌, ◌||◌, ◌==◌,
  Result, ok, err, if◌then◌else◌, elem, all,
}
use feldspar.Prelude.Dict.{Dict, lookup, contains, insert, erase, keys, values}
use feldspar.Prelude.Dict.Sorted.{sorted}
use feldspar.Prelude.Float.{FloatOps}
use feldspar.Core.{PortDecl, Rank, rank_eq, payload_kinds}
use feldspar.Solve.Models.{SolverInfo, SolveFn, Citation, CitationKind}
use feldspar.Solve.Errors.{RegistryError}

abbrev pub Entry : Type 0 → Type 0
Entry F = SolverInfo F × SolveFn F

pub record SolverRegistry (F : Type 0) : Type 0 where
  pub solvers : Dict (Entry F)
  pub ports : Dict PortDecl
  pub frozen : Bool

-- `Result[None, RegistryError]`
abbrev pub Answer : Type 0
Answer = Result (Unit {0}) RegistryError

-- The kind of a payload rank is one of the vocabulary.
abbrev pub has_known_kind : PortDecl → Bool
has_known_kind decl = elim decl.rank [ Rank.payload k ↦ elem k payload_kinds | _ ↦ true ]

abbrev kind_of : Rank → String
kind_of (Rank.payload k) = k
kind_of _ = ""

-- Two payload ranks with different kinds
abbrev kinds_differ : Rank → Rank → Bool
kinds_differ (Rank.payload k) (Rank.payload j) = not (k == j)
kinds_differ _ _ = false

-- Why a declaration of a name that is taken is refused.
unfoldable pub redeclaration_error : PortDecl → PortDecl → RegistryError
unfolding rank_eq
redeclaration_error existing decl =
    if not (existing.unit == decl.unit)
    then RegistryError.port_unit_conflict decl.name
    else if kinds_differ existing.rank decl.rank
    then RegistryError.payload_kind_conflict decl.name
    else if not (rank_eq existing.rank decl.rank)
    then RegistryError.port_rank_conflict decl.name
    else RegistryError.duplicate_port_decl decl.name

-- The loop of `declare_ports` over the port table: what it wrote before an error stays.
unfoldable pub declare_loop : List PortDecl → Dict PortDecl → Answer × Dict PortDecl
unfolding redeclaration_error lookup insert
declare_loop [] ports = (ok tt, ports)
declare_loop (decl ∷ decls) ports =
    if not (has_known_kind decl)
    then (err (RegistryError.unknown_payload_kind decl.name (kind_of decl.rank)), ports)
    else elim (lookup decl.name ports) [
      | none ↦ declare_loop decls (insert decl.name decl ports)
      | some existing ↦ (err (redeclaration_error existing decl), ports)
    ]

-- The first port that is not declared, if the table is in use.
unfoldable pub unknown_port_of : Dict PortDecl → List String → Option String
unfolding lookup
unknown_port_of ports [] = none
unknown_port_of ports (p ∷ ps) = if contains p ports then unknown_port_of ports ps else some p

-- `set(a) == set(b)`
abbrev pub same_set : List String → List String → Bool
same_set a b = all (λ k. elem k b) a && all (λ k. elem k a) b

abbrev is_calibration : Citation → Bool
is_calibration c = elim c.kind [ CitationKind.calibration ↦ true | _ ↦ false ]

-- Empty, or calibration only
abbrev pub lacks_citation : List Citation → Bool
lacks_citation cs = all is_calibration cs

module _ {F : Type 0} where
  abbrev pub empty_registry : SolverRegistry F
  empty_registry = record { solvers = []; ports = []; frozen = false }

  unfoldable pub declare_ports : List PortDecl → SolverRegistry F → Answer × SolverRegistry F
  unfolding declare_loop
  declare_ports decls r =
      if r.frozen
      then (err RegistryError.frozen, r)
      else let (answer, ports) = declare_loop decls r.ports in (answer, record r { ports = ports })

  abbrev touched_ports : SolverInfo F → List String
  touched_ports info = info.inputs ++ (info.outputs ++ keys info.domain.box)

  abbrev undeclared : Dict PortDecl → SolverInfo F → Option String
  undeclared [] info = none
  undeclared (e ∷ ports) info = unknown_port_of (e ∷ ports) (touched_ports info)

  -- The guards of `register`, in order; `none` lets the solver in.
  unfoldable pub register_error :
      ⦃o : FloatOps F⦄ → SolverInfo F → SolverRegistry F → Option RegistryError
  unfolding unknown_port_of lookup
  register_error ⦃o⦄ info r =
      if r.frozen
      then some RegistryError.frozen
      else if contains info.solver_id r.solvers
      then some (RegistryError.duplicate_solver_id info.solver_id)
      else if o.le info.cost o.zero
      then some (RegistryError.non_positive_cost info.solver_id)
      else if not (same_set (keys info.accuracy) info.outputs)
      then some (RegistryError.accuracy_output_mismatch info.solver_id)
      else if lacks_citation info.citations
      then some (RegistryError.empty_citations info.solver_id)
      else elim (undeclared r.ports info) [
        | none ↦ none
        | some port ↦ some (RegistryError.unknown_port port)
      ]

  unfoldable pub register :
      ⦃o : FloatOps F⦄ → SolverInfo F → SolveFn F → SolverRegistry F → Answer × SolverRegistry F
  unfolding register_error insert
  register info fn r = elim (register_error info r) [
    | some e ↦ (err e, r)
    | none ↦ (ok tt, record r { solvers = insert info.solver_id (info, fn) r.solvers })
  ]

  unfoldable pub rollback_registration : String → SolverRegistry F → SolverRegistry F
  unfolding erase
  rollback_registration id r = record r { solvers = erase id r.solvers }

  unfoldable pub rollback_port_decl : String → SolverRegistry F → SolverRegistry F
  unfolding erase
  rollback_port_decl name r = record r { ports = erase name r.ports }

  unfoldable pub get : SolverRegistry F → String → Option (Entry F)
  unfolding lookup
  get r id = lookup id r.solvers

  unfoldable pub freeze : SolverRegistry F → SolverRegistry F
  freeze r = record r { frozen = true }

  -- `__iter__`: the pairs in the order of the ids
  unfoldable pub iterate : SolverRegistry F → List (Entry F)
  unfolding sorted
  iterate r = values (sorted r.solvers)

  -- The digest folds the metadata in the order of the ids; the hash is a parameter.
  unfoldable pub digest : {D : Type 0} → (List (SolverInfo F) → D) → SolverRegistry F → D
  unfolding iterate
  digest canonical_digest r = canonical_digest (map (λ e. e.0) (iterate r))
