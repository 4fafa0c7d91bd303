-- ===== src/Solve/Packs.antt =====
-- The solver-pack loader (python/feldspar/solve/packs.py): discovery order, staging on a scratch
-- registry, the naming rules, the replay onto the real registry and its rollback. What a pack's
-- third-party `register` does is a program that calls the staging registry and reacts to the
-- answers.
pub mod Names
pub mod Staging
pub mod Replay
pub mod Loading
pub mod Validity
use feldspar.Prelude.{
  String, ◌<>◌, Bool, true, false, Option, none, some, List, [], ◌∷◌, ◌++◌, map, not, ◌==◌, Result,
  ok, err, if◌then◌else◌, elem, keep, Option-cases, ◌≡◌, inl, inr, refl,
}
use feldspar.Prelude.Dict.{Dict, lookup, contains, insert, erase, keys, values}
use feldspar.Prelude.Dict.Sorted.{sorted}
use feldspar.Prelude.Float.{FloatOps}
use feldspar.Core.{PortDecl}
use feldspar.Solve.Models.{SolverInfo, SolveFn}
use feldspar.Solve.Errors.{RegistryError}
use feldspar.Solve.Registry.{
  Entry, SolverRegistry, Answer, empty_registry, declare_ports, register, freeze,
  rollback_registration, rollback_port_decl, iterate,
}
use Names.{method_named_solver_violation, namespace_violation}

-- A pack's `register(registry)`: it may raise, and may look at each answer.
pub data PackProgram (F : Type 0) : Type 0 where
  returns : PackProgram F
  raises : String → PackProgram F
  declares : List PortDecl → (Answer → PackProgram F) → PackProgram F
  registers : SolverInfo F → SolveFn F → (Answer → PackProgram F) → PackProgram F
  freezes : PackProgram F → PackProgram F

-- What `ep.load()` gives: an exception's text, an object that is not callable (its `repr`), or a
-- callable.
pub data Target (F : Type 0) : Type 0 where
  load_failed not_callable : String → Target F
  callable : PackProgram F → Target F

pub record EntryPoint (F : Type 0) : Type 0 where
  pub name : String
  pub target : Target F
  pub dist_version : Option String

pub record PackInfo : Type 0 where
  pub name : String
  pub version : String

-- Where the source has the `repr` of a registry error, the model keeps the error.
pub data SolverPackLoadError : Type 0 where
  duplicate_solver_id : (pack solver_id owned_by : String) → SolverPackLoadError
  malformed_solver_pack : (source message : String) → SolverPackLoadError
  method_named_solver_id : (pack solver_id word : String) → SolverPackLoadError
  namespace_violated : (pack solver_id namespace : String) → SolverPackLoadError
  pack_register_raised : (pack message : String) → SolverPackLoadError
  port_declaration_failed : (pack : String) (error : RegistryError) → SolverPackLoadError
  registration_rejected : (pack solver_id : String) (error : RegistryError) → SolverPackLoadError

unfoldable pub pack_version : {F : Type 0} → EntryPoint F → String
pack_version ep = elim ep.dist_version [ none ↦ "0" | some v ↦ if v == "" then "0" else v ]

unfoldable pub load_target :
    {F : Type 0} → EntryPoint F → Result (PackProgram F) SolverPackLoadError
load_target ep = elim ep.target [
  | load_failed exc ↦ err (malformed_solver_pack ep.name ("entry point load failed: " <> exc))
  | not_callable shown ↦
      err (malformed_solver_pack ep.name ("entry point target " <> (shown <> " is not callable")))
  | callable program ↦ ok program
]

-- The loop's variables.
pub record LoadState (F : Type 0) : Type 0 where
  pub registry : SolverRegistry F
  pub owner_of : Dict String
  pub loaded : List PackInfo
  pub skipped : List SolverPackLoadError

-- The replay's variables: the registry, the owners, the ids registered so far, and the refusal that
-- ended the loop, if one did.
pub record Replayed (F : Type 0) : Type 0 where
  pub registry : SolverRegistry F
  pub owner_of : Dict String
  pub registered : List String
  pub failure : Option SolverPackLoadError

module _ {F : Type 0} ⦃o : FloatOps F⦄ where
  -- `target(staging)`: the staging registry afterwards, or the exception's text.
  unfoldable pub run_program : PackProgram F → SolverRegistry F → Result (SolverRegistry F) String
  unfolding declare_ports register freeze
  run_program returns r = ok r
  run_program (raises message) r = err message
  run_program (declares decls next) r =
      let (answer, r') = declare_ports decls r in run_program (next answer) r'
  run_program (registers info fn next) r =
      let (answer, r') = register info fn r in run_program (next answer) r'
  run_program (freezes next) r = run_program next (freeze r)

  unfoldable pub seed_from : Dict PortDecl → Option (SolverRegistry F)
  unfolding declare_ports
  seed_from [] = some empty_registry
  seed_from (e ∷ ports) =
      let (answer, staging) = declare_ports (values (e ∷ ports)) empty_registry in
      elim answer [ ok _ ↦ some staging | err _ ↦ none ]

  -- The staging registry, seeded with the base's ports; `none` is the failed assertion.
  unfoldable pub seed_staging : SolverRegistry F → Option (SolverRegistry F)
  unfolding seed_from
  seed_staging r = seed_from r.ports

  -- The first violation among the staged solvers.
  unfoldable pub violation_of :
      String → List String → List String → Dict String → List (Entry F) → Option SolverPackLoadError
  unfolding method_named_solver_violation namespace_violation lookup
  violation_of pack standard reviewed owner_of [] = none
  violation_of pack standard reviewed owner_of ((info, fn) ∷ rest) =
      elim (method_named_solver_violation info.namespace) [
        | some word ↦ some (method_named_solver_id pack info.solver_id word)
        | none ↦ elim (method_named_solver_violation info.solver_id) [
          | some word ↦ some (method_named_solver_id pack info.solver_id word)
          | none ↦ elim (namespace_violation pack info.namespace standard reviewed) [
            | some ns ↦ some (namespace_violated pack info.solver_id ns)
            | none ↦ elim (lookup info.solver_id owner_of) [
              | some owner ↦ some (duplicate_solver_id pack info.solver_id owner)
              | none ↦ violation_of pack standard reviewed owner_of rest
            ]
          ]
        ]
      ]

  -- The staged ports that the base does not have.
  unfoldable pub new_ports_of : SolverRegistry F → SolverRegistry F → List PortDecl
  new_ports_of staging r = values (keep (λ e. not (elem e.0 (keys r.ports))) staging.ports)

  unfoldable pub replay :
      String → List (Entry F) → SolverRegistry F → Dict String → List String → Replayed F
  unfolding register insert
  replay pack [] r owner_of registered = record {
    registry = r;
    owner_of = owner_of;
    registered = registered;
    failure = none;
  }
  replay pack ((info, fn) ∷ rest) r owner_of registered =
      let (answer, r') = register info fn r in
      elim answer [
        | err e ↦ record {
          registry = r';
          owner_of = owner_of;
          registered = registered;
          failure = some (registration_rejected pack info.solver_id e);
        }
        | ok _ ↦
            replay pack rest r' (insert info.solver_id pack owner_of)
              (registered ++ info.solver_id ∷ [])
      ]

  unfoldable pub rollback_ids :
      List String → SolverRegistry F → Dict String → SolverRegistry F × Dict String
  unfolding rollback_registration erase
  rollback_ids [] r owner_of = (r, owner_of)
  rollback_ids (id ∷ ids) r owner_of =
      rollback_ids ids (rollback_registration id r) (erase id owner_of)

  unfoldable pub rollback_ports : List PortDecl → SolverRegistry F → SolverRegistry F
  unfolding rollback_port_decl
  rollback_ports [] r = r
  rollback_ports (d ∷ ds) r = rollback_ports ds (rollback_port_decl d.name r)

  abbrev skip : SolverPackLoadError → LoadState F → LoadState F
  skip e s = record s { skipped = s.skipped ++ e ∷ [] }

  -- What follows the replay: the rollback after a refusal, or the record of the pack.
  unfoldable pub finish_pack :
      EntryPoint F
      → List PortDecl
      → LoadState F
      → Replayed F
      → Option SolverPackLoadError
      → LoadState F
  unfolding rollback_ids rollback_ports pack_version
  finish_pack ep new_ports s done (some e) =
      let (r, owner_of) = rollback_ids done.registered done.registry done.owner_of in
      record {
        registry = rollback_ports new_ports r;
        owner_of = owner_of;
        loaded = s.loaded;
        skipped = s.skipped ++ e ∷ [];
      }
  finish_pack ep new_ports s done none = record {
    registry = done.registry;
    owner_of = done.owner_of;
    loaded = s.loaded ++ record { name = ep.name; version = pack_version ep } ∷ [];
    skipped = s.skipped;
  }

  -- The rest of an iteration once the new ports are declared.
  unfoldable pub replay_pack :
      EntryPoint F → SolverRegistry F → List PortDecl → LoadState F → LoadState F
  unfolding replay finish_pack iterate
  replay_pack ep staging new_ports s =
      let done = replay ep.name (iterate staging) s.registry s.owner_of [] in
      finish_pack ep new_ports s done done.failure

  -- What follows the declaration of a pack's new ports.
  unfoldable pub after_declare :
      EntryPoint F
      → SolverRegistry F
      → List PortDecl
      → LoadState F
      → Answer × SolverRegistry F
      → LoadState F
  unfolding replay_pack
  after_declare ep staging ds s (err e, r) =
      skip (port_declaration_failed ep.name e) (record s { registry = r })
  after_declare ep staging ds s (ok _, r) = replay_pack ep staging ds (record s { registry = r })

  -- The new ports, if there are any, are declared before the replay.
  unfoldable pub land_pack :
      EntryPoint F → SolverRegistry F → LoadState F → List PortDecl → LoadState F
  unfolding after_declare declare_ports
  land_pack ep staging s [] = replay_pack ep staging [] s
  land_pack ep staging s (d ∷ ds) =
      after_declare ep staging (d ∷ ds) s (declare_ports (d ∷ ds) s.registry)

  -- From the staged registry on: the violations, then the new ports, then the replay.
  unfoldable pub commit_pack :
      List String → List String → EntryPoint F → SolverRegistry F → LoadState F → LoadState F
  unfolding violation_of new_ports_of land_pack iterate
  commit_pack standard reviewed ep staging s =
      elim (violation_of ep.name standard reviewed s.owner_of (iterate staging)) [
        | some e ↦ skip e s
        | none ↦ land_pack ep staging s (new_ports_of staging s.registry)
      ]

  -- One iteration over the entry points; `none` is the failed assertion.
  unfoldable pub load_pack :
      List String → List String → EntryPoint F → LoadState F → Option (LoadState F)
  unfolding load_target seed_staging run_program commit_pack
  load_pack standard reviewed ep s = elim (load_target ep) [
    | err e ↦ some (skip e s)
    | ok program ↦ elim (seed_staging s.registry) [
      | none ↦ none
      | some seeded ↦ elim (run_program program seeded) [
        | err exc ↦ some (skip (pack_register_raised ep.name ("register() raised: " <> exc)) s)
        | ok staging ↦ some (commit_pack standard reviewed ep staging s)
      ]
    ]
  ]

  unfoldable pub load_packs :
      List String → List String → List (EntryPoint F) → LoadState F → Option (LoadState F)
  unfolding load_pack
  load_packs standard reviewed [] s = some s
  load_packs standard reviewed (ep ∷ eps) s = elim (load_pack standard reviewed ep s) [
    | none ↦ none
    | some s' ↦ load_packs standard reviewed eps s'
  ]

  abbrev builtin_owners : List (Entry F) → Dict String
  builtin_owners [] = []
  builtin_owners (e ∷ es) = (e.0.solver_id, "<builtin>") ∷ builtin_owners es

  abbrev by_name : List (EntryPoint F) → Dict (EntryPoint F)
  by_name eps = map (λ e. (e.name, e)) eps

  -- Every discovered pack in the order of the names, behind the built-ins.
  unfoldable pub load_solver_packs :
      List String → List String → List (EntryPoint F) → SolverRegistry F → Option (LoadState F)
  unfolding load_packs sorted iterate
  load_solver_packs standard reviewed discovered r =
      load_packs standard reviewed (values (sorted (by_name discovered)))
        (record { registry = r; owner_of = builtin_owners (iterate r); loaded = []; skipped = [] })
