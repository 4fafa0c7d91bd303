-- ===== src/Solve/Tests.antt =====
-- Runs of the registry and the pack loader, and the theorems at concrete data.
use feldspar.Prelude.{
  String, ◌≡◌, ◌≢◌, refl, true, false, none, some, List, [], ◌∷◌, ◌++◌, ok, err, eq_iff, ◌↔◌, ◌⊎◌,
  length, ℕ, ◌+◌,
}
use mathlib.Core.Option
use feldspar.Prelude.Int.{ℤ, pos, int_floats, int_laws}
use feldspar.Core.{PortDecl, Rank}
use feldspar.Solve.Models.{SolverInfo, SolveFn, CitationKind, Tier, ClaimSenses, plain, CostPoint}
use feldspar.Solve.Errors.{SolveError}
use feldspar.Solve.Seeking.{cost_curve, cost_for_budget}
use feldspar.Solve.Seeking.Falling.{IsFalling, cost_for_budget_falls}
use feldspar.Solve.Registry.{
  SolverRegistry, empty_registry, declare_ports, register, rollback_registration, freeze, digest,
}
use feldspar.Solve.Registry.Invariant.{
  IsValid, declare, add_solver, freeze_now, run, empty-IsValid, run-IsValid, run_frozen,
}
use feldspar.Solve.Registry.Iteration.{digest-register-register}
use feldspar.Solve.Registry.Solvers.{Admissible, register-ok_iff, rollback_registration-register}
use feldspar.Solve.Registry.Ports.{
  Declarable, entries_of, declare_ports-ok_iff, declare_ports-prefix,
}
use feldspar.Solve.Packs.{
  EntryPoint, callable, returns, registers, LoadState, load_solver_packs, load_pack,
}
use feldspar.Solve.Packs.Names.{
  default_standard_namespaces, namespace_violation, MayUse, namespace_violation-decides,
}
use feldspar.Solve.Packs.Loading.{AllOrNothing, load_pack-AllOrNothing}
use feldspar.Solve.Packs.Validity.{load_solver_packs-total}

abbrev pub info : String → String → SolverInfo ℤ
info id namespace = record {
  solver_id = id;
  namespace = namespace;
  version = "1";
  inputs = "mech.load" ∷ [];
  outputs = "mech.stress" ∷ [];
  domain = record { box = ("mech.load", record { lo = pos 0; hi = pos 9 }) ∷ []; tags = [] };
  cost = pos 2;
  accuracy = ("mech.stress", record { eps_abs = pos 1; eps_rel = pos 0 }) ∷ [];
  citations = record { kind = CitationKind.handbook; ref = "Roark"; note = "" } ∷ [];
  tier = Tier.closed_form;
  deterministic = true;
  corner_monotone = true;
  conservative_for = ClaimSenses.both;
  settings_digest = "s";
  eps_seeking = false;
  cost_curve = none;
  algebraic_form = none;
  solved_for = none;
  branch = none;
  admission_predicate = none;
  derivation_digest = none;
}

abbrev fn : SolveFn ℤ
fn = record { call = plain (λ _. err (SolveError.parse_failed "none")); probe_tools = none }

abbrev pub load : PortDecl
load = record { name = "mech.load"; unit = "N"; rank = Rank.scalar }

abbrev pub stress : PortDecl
stress = record { name = "mech.stress"; unit = "Pa"; rank = Rank.scalar }

abbrev base : SolverRegistry ℤ
base =
    run (declare (load ∷ stress ∷ []) ∷ add_solver (info "mech.beam" "mech") fn ∷ []) empty_registry

base-IsValid : IsValid base
base-IsValid = run-IsValid _ empty_registry empty-IsValid

-- A pack with one solver, and one whose second solver the table's ports refuse.
abbrev good_pack : EntryPoint ℤ
good_pack = record {
  name = "acme";
  target = callable (registers (info "acme.beam" "acme") fn (λ _. returns));
  dist_version = some "2";
}

abbrev bad_pack : EntryPoint ℤ
bad_pack = record {
  name = "bolt";
  target = callable (
      registers (info "bolt.b" "bolt") fn
        (λ _. registers (info "fea.b" "bolt.x") fn (λ _. returns)));
  dist_version = none;
}

loads_one :
    Option.map {B = ℕ × ℕ × ℕ}
      (λ s. (length s.loaded, length s.skipped, length s.registry.solvers))
      (load_solver_packs default_standard_namespaces [] (bad_pack ∷ good_pack ∷ []) base)
    ≡ some (1, 1, 2)
unfolding load_solver_packs run
loads_one = refl

run-IsValid_example : IsValid base
run-IsValid_example = run-IsValid _ empty_registry empty-IsValid

run_frozen_example : run (declare (load ∷ []) ∷ freeze_now ∷ []) (freeze base) ≡ freeze base
unfolding freeze
run_frozen_example = run_frozen (declare (load ∷ []) ∷ freeze_now ∷ []) (freeze base) refl

register-ok_iff_example :
    ((register (info "acme.beam" "acme") fn base).0 ≡ ok tt)
    ↔ Admissible (info "acme.beam" "acme") base
register-ok_iff_example = register-ok_iff (info "acme.beam" "acme") fn base

declare_ports-ok_iff_example :
    ((declare_ports (load ∷ load ∷ []) base).0 ≡ ok tt)
    ↔ ((base.frozen ≡ false) × Declarable (load ∷ load ∷ []) base.ports)
declare_ports-ok_iff_example = declare_ports-ok_iff (load ∷ load ∷ []) base

declare_ports-prefix_example :
    (done : List PortDecl) × (rest : List PortDecl) × (load ∷ load ∷ [] ≡ done ++ rest)
    × ((declare_ports (load ∷ load ∷ []) (empty_registry {F = ℤ})).1
        ≡ record empty_registry { ports = [] ++ entries_of done })
    × (((declare_ports (load ∷ load ∷ []) (empty_registry {F = ℤ})).0 ≡ ok tt)
        ↔ ((false ≡ false) × (rest ≡ [])))
declare_ports-prefix_example = declare_ports-prefix (load ∷ load ∷ []) (empty_registry {F = ℤ})

rollback_registration-register_example :
    rollback_registration "acme.beam" (register (info "acme.beam" "acme") fn base).1 ≡ base
unfolding register run
rollback_registration-register_example =
    rollback_registration-register (info "acme.beam" "acme") fn base refl

other_id : ◌≢◌ {A = String} "acme.beam" "zeta.beam"
other_id p = cc ((eq_iff "acme.beam" "zeta.beam").1 p)

digest-register-register_example :
    digest
      (λ is. is)
      (register (info "zeta.beam" "zeta") fn (register (info "acme.beam" "acme") fn base).1).1
    ≡ digest
        (λ is. is)
        (register (info "acme.beam" "acme") fn (register (info "zeta.beam" "zeta") fn base).1).1
digest-register-register_example =
    digest-register-register (λ is. is) (info "acme.beam" "acme") (info "zeta.beam" "zeta") fn fn
      base base-IsValid other_id

abbrev start : LoadState ℤ
start = record {
  registry = base;
  owner_of = ("mech.beam", "<builtin>") ∷ [];
  loaded = [];
  skipped = [];
}

load_pack-AllOrNothing_example :
    (s : LoadState ℤ) × (load_pack default_standard_namespaces [] bad_pack start ≡ some s)
    × AllOrNothing bad_pack start s
load_pack-AllOrNothing_example =
    load_pack-AllOrNothing default_standard_namespaces [] bad_pack start base-IsValid

load_solver_packs-total_example :
    (s : LoadState ℤ) × (load_solver_packs default_standard_namespaces []
        (bad_pack ∷ good_pack ∷ [])
        base
      ≡ some s)
    × IsValid s.registry
    × (length s.loaded + length s.skipped ≡ 2)
load_solver_packs-total_example =
    load_solver_packs-total default_standard_namespaces [] (bad_pack ∷ good_pack ∷ []) base
      base-IsValid

namespace_violation-decides_example :
    ((namespace_violation "acme" "mech.acme_evil" default_standard_namespaces [] ≡ none)
      × MayUse "acme" default_standard_namespaces [] "mech.acme_evil")
    ⊎ ((namespace_violation "acme" "mech.acme_evil" default_standard_namespaces []
          ≡ some "mech.acme_evil")
        × ¬ MayUse "acme" default_standard_namespaces [] "mech.acme_evil")
namespace_violation-decides_example =
    namespace_violation-decides "acme" "mech.acme_evil" default_standard_namespaces []

-- A namespace of another pack passes where its name begins with that of this one.
squatted : namespace_violation "acme" "mech.acme_evil" default_standard_namespaces [] ≡ none
unfolding namespace_violation
squatted = refl

refused_namespace :
    namespace_violation "acme" "mech.other" default_standard_namespaces [] ≡ some "mech.other"
unfolding namespace_violation
refused_namespace = refl

abbrev coarse : CostPoint ℤ
coarse = record { eps = pos 3; cost = pos 2 }

abbrev fine : CostPoint ℤ
fine = record { eps = pos 1; cost = pos 4 }

abbrev two_points : List (CostPoint ℤ)
two_points = fine ∷ coarse ∷ []

two_points-IsFalling : IsFalling int_laws two_points
two_points-IsFalling = ((λ _. refl, (λ _. refl, tt)), ((λ h. h, (λ _. refl, tt)), tt))

cost_for_budget_falls_example :
    int_floats.le
      (cost_for_budget fine (coarse ∷ []) (pos 3))
      (cost_for_budget fine (coarse ∷ []) (pos 1))
    ≡ true
cost_for_budget_falls_example =
    cost_for_budget_falls int_laws fine (coarse ∷ []) (pos 1) (pos 3) two_points-IsFalling refl

-- A curve whose cost rises with its error is accepted, and a looser budget costs more on it.
accepts_rising :
    cost_curve (fine ∷ record { eps = pos 3; cost = pos 9 } ∷ [])
    ≡ some (fine ∷ record { eps = pos 3; cost = pos 9 } ∷ [])
unfolding cost_curve
accepts_rising = refl

rising_cost :
    (cost_for_budget fine (record { eps = pos 3; cost = pos 9 } ∷ []) (pos 1) ≡ pos 4)
    × (cost_for_budget fine (record { eps = pos 3; cost = pos 9 } ∷ []) (pos 3) ≡ pos 9)
unfolding cost_for_budget
rising_cost = (refl, refl)
