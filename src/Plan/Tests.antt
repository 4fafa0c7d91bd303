-- ===== src/Plan/Tests.antt =====
-- Runs of the executor and the reroute loop, and the theorems at concrete data.
use feldspar.Prelude.Dict.Sorted.{sorted}
use feldspar.Prelude.{
  ℕ, String, ◌≡◌, refl, sym, ap₂, subst, ◌∙◌, true, false, Option, none, some, List, [], ◌∷◌,
  Result, ok, err, elem, All, length, arith, inl, inr, Bool-cases, ◌==◌, eq_iff, if◌then◌else◌,
}
use feldspar.Prelude.Dict.{Dict, lookup}
use feldspar.Core.{Rank, Interval, PayloadRef, PortDecl}
use feldspar.Core.Sweep.{total_error, corner_sweep}
use feldspar.Solve.Models.{ClaimSenses, plain, Outcome}
use feldspar.Solve.Errors.{SolveError}
use feldspar.Solve.Registry.{SolverRegistry, Entry}
use feldspar.Plan.Models.{Abort, Repr, Route, RoutePolicy, PlanError, Solution}
use mathlib.Core.Option.{some-injective}
use feldspar.Plan.Step.{corner_fn}
use feldspar.Plan.Step.Finite.{IsFinite, corner_fn-IsFinite}
use feldspar.Plan.StepCache.{empty_step_cache}
use feldspar.Plan.Execute.{solver_of, fresh_step}
use feldspar.Plan.Walk.{
  advance, Digests, Walk, Prepared, prepare, step_entry, run_step, execute_route, start_walk,
}
use feldspar.Plan.Walk.Attribution.{Blames, execute_route-Blames}
use feldspar.Plan.Cache.{
  Request, solve_cache_get, solve_cache_put, tools_still_consistent, last_excluded,
}
use feldspar.Plan.Attempt.{Search, KeyDigests, index_raised, Disk, plan}
use feldspar.Plan.Cache.RoundTrip.{through_blob, solve_cache_get-solve_cache_put}
use feldspar.Plan.Solve.Termination.{PlansWithin, input_ids}
use feldspar.Plan.Solve.Outcome.{Explained, solve-Explained}
use feldspar.Plan.Solve.ZeroStep.{solve-index_raised}
use feldspar.Plan.Execute.Outputs.{DeclaresAccuracy, IsClean, fresh_step-IsClean}
use feldspar.Core.Sweep.Keys.{Has}
use feldspar.Plan.Walk.Cached.{
  Distinguishes, Cacheable, IsCoherent, Prepares, identity_of, ReadsDigests,
}
use feldspar.Plan.Walk.Transparent.{Kept, execute_route-Kept}
use feldspar.Plan.Walk.OutputDomain.{Entered, run_step-Entered}
use feldspar.Core.Sweep.Corners.{IsCorner}
use feldspar.Core.Sweep.Covers.{Covered, corner_sweep-Covered}
use feldspar.Plan.Solve.NoFallback.{solve-attempt}
use feldspar.Plan.Solve.{start_disk, attempt, answer, Answer, solve}
use feldspar.Prelude.Int.{ℤ, pos, int_floats, int_laws}
use feldspar.Solve.Tests.{info, load, stress}

abbrev repr : Repr ℤ
repr = record { of_float = λ _. "x"; of_violation = λ _. "v"; of_attempts = λ _. "as" }

abbrev digests : Digests ℤ
digests = record {
  of_step = λ i. i.solver_id;
  of_settings = λ _. "settings";
  feldspar_version = "1";
}

abbrev hashes : KeyDigests ℤ
hashes = record { of_registry = λ _. "r"; of_request = λ _. "q"; of_key = λ _ _ _ _. "key" }

-- A solver that fails, and one that gives a stress of 4.
abbrev broken : Entry ℤ
broken = (
  info "mech.a" "mech",
  record { call = plain (λ _. err (SolveError.parse_failed "none")); probe_tools = none },
)

abbrev beam : Entry ℤ
beam = (
  info "mech.b" "mech",
  record {
    call = plain (λ _.
        ok (record { values = ("mech.stress", pos 4) ∷ []; measured_eps = none; payloads = [] }));
    probe_tools = none;
  },
)

abbrev registry : SolverRegistry ℤ
registry = record {
  solvers = ("mech.a", broken) ∷ ("mech.b", beam) ∷ [];
  ports = ("mech.load", load) ∷ ("mech.stress", stress) ∷ [];
  frozen = true;
}

abbrev request : Request ℤ
request = record {
  known = ("mech.load", record { lo = pos 1; hi = pos 2 }) ∷ [];
  tags = [];
  target = "mech.stress";
  eps_budget = pos 3;
  sense = ClaimSenses.both;
  payloads = [];
}

abbrev policy : RoutePolicy
policy = record { fallback = true; cache = true; threads = 1 }

abbrev route_by : String → List String → Route ℤ
route_by target [] = record {
  target = target;
  steps = [];
  predicted_eps = pos 0;
  total_cost = pos 0;
  digest = "route";
}
route_by target (id ∷ _) = record {
  target = target;
  steps =
      record {
        solver_id = id;
        realized_domain = record { box = []; tags = [] };
        predicted_eps = pos 1;
        cost = pos 2;
      }
      ∷ [];
  predicted_eps = pos 1;
  total_cost = pos 2;
  digest = "route";
}

-- A search that plans with the first solver that it is given.
abbrev first_solver : Search ℤ
first_solver [] known tags target budget sense = err PlanError.no_applicable_solver
first_solver (i ∷ inputs) known tags target budget sense = ok (route_by target (i.solver_id ∷ []))

ok_route : (a b : Route ℤ) → ◌≡◌ {A = Result (Route ℤ) (PlanError ℤ)} (ok a) (ok b) → a ≡ b
ok_route a b h = cc

first_solver-PlansWithin : PlansWithin first_solver
unfolding PlansWithin
first_solver-PlansWithin [] known tags target budget sense route h = cc
first_solver-PlansWithin (i ∷ inputs) known tags target budget sense route h =
    subst (λ r. All (λ s. elem s.solver_id (input_ids (i ∷ inputs)) ≡ true) r.steps)
      (ok_route (route_by target (i.solver_id ∷ [])) route h)
      (ground (arith, eq_iff i.solver_id i.solver_id), tt)

-- The number of attempts behind the solution.
attempts_of : Option (Answer ℤ × Disk ℤ) → ℕ
attempts_of (some (ok s, disk)) = length s.attempts
attempts_of _ = 9

reroutes :
    attempts_of (solve first_solver repr digests hashes policy registry request [] none []) ≡ 1
unfolding attempts_of solve
reroutes = refl

solve-Explained_example :
    (a : Answer ℤ × Disk ℤ) × (solve first_solver repr digests hashes policy registry request []
        none []
      ≡ some a)
    × Explained first_solver repr digests hashes policy registry request a.0
solve-Explained_example =
    solve-Explained first_solver repr digests hashes policy registry request
      first_solver-PlansWithin [] none []

abbrev asks_known : Request ℤ
asks_known = record request {
  target = "mech.load";
  known = ("mech.load", record { lo = pos 0; hi = pos 9 }) ∷ [];
}

-- A search that finds every target known.
abbrev known_target : Search ℤ
known_target inputs known tags target budget sense = ok (route_by target [])

solve-index_raised_example :
    (disk : Disk ℤ) × (solve known_target repr digests hashes policy registry asks_known [] none []
      ≡ some (err index_raised, disk))
unfolding plan total_error
solve-index_raised_example =
    solve-index_raised known_target repr digests hashes policy registry asks_known
      (route_by "mech.load" []) (record { lo = pos 0; hi = pos 9 }) [] none refl refl refl refl refl

execute_route-Blames_example :
    Blames
      ("mech.a" ∷ [])
      (execute_route repr digests registry.ports
        (broken ∷ beam ∷ [])
        (route_by "mech.stress" ("mech.a" ∷ []))
        request.known
        []
        none
        none).0
execute_route-Blames_example =
    execute_route-Blames repr digests registry.ports (broken ∷ beam ∷ [])
      (route_by "mech.stress" ("mech.a" ∷ [])) request.known [] none none

abbrev solution : Solution ℤ
solution = record {
  target = "mech.stress";
  value = record { lo = pos 4; hi = pos 4 };
  eps = pos 1;
  route = route_by "mech.stress" ("mech.b" ∷ []);
  settings_digest = "settings";
  solver_versions = ("mech.b", "1") ∷ [];
  attempts = [];
  cache_hit = false;
  step_eps = ("mech.b", pos 1) ∷ [];
  step_citations = [];
  step_declared_domain = [];
  step_algebraic_form = ("mech.b", "s = f / a") ∷ [];
  step_admission_predicate = [];
  eps_budget = some (pos 3);
}

solve_cache_get-solve_cache_put_example :
    solve_cache_get "k" solution.route (beam ∷ []) (solve_cache_put "k" solution []) ≡ (
      if "k" == "k"
      then (if tools_still_consistent solution.route (beam ∷ []) (last_excluded solution.attempts)
          then some (through_blob solution)
          else none)
      else solve_cache_get "k" solution.route (beam ∷ []) [])
solve_cache_get-solve_cache_put_example =
    solve_cache_get-solve_cache_put "k" "k" solution solution.route (beam ∷ []) []

abbrev constant : Dict ℤ → Unit {0} → Result (Dict ℤ) String × Unit {0}
constant corner s = (ok (("y", pos 1) ∷ []), s)

abbrev x_box : Dict (Interval ℤ)
x_box = ("x", record { lo = pos 1; hi = pos 2 }) ∷ []

abbrev y_hull : Dict (Interval ℤ)
y_hull = ("y", record { lo = pos 1; hi = pos 1 }) ∷ []

swept : (corner_sweep constant x_box tt).0 ≡ ok y_hull
unfolding corner_sweep
swept = refl

upper-IsCorner : IsCorner (sorted x_box) (("x", pos 2) ∷ [])
unfolding IsCorner sorted
upper-IsCorner = (refl, inr (refl, refl), tt)

corner_sweep-Covered_example : Covered int_laws constant y_hull (("x", pos 2) ∷ [])
corner_sweep-Covered_example =
    corner_sweep-Covered int_laws constant x_box y_hull (("x", pos 2) ∷ []) tt swept upper-IsCorner

abbrev start_of : Walk ℤ
start_of = start_walk repr digests registry.ports request.known []

abbrev entered : Walk ℤ
entered =
    advance repr digests registry.ports beam.0
      (record {
        hull = ("mech.stress", record { lo = pos 4; hi = pos 4 }) ∷ [];
        payloads = [];
        step_eps = pos 1;
      })
      start_of

entered_run : (run_step repr digests registry.ports beam none start_of none).0 ≡ ok entered
unfolding run_step start_walk
entered_run = refl

run_step-Entered_example :
    (p : Prepared ℤ) × (prepare repr digests registry.ports beam.0 none start_of ≡ ok p)
    × Entered repr digests registry.ports beam.0
        (step_entry repr digests registry.ports beam.0 beam.1 p none).0
        start_of
        entered
run_step-Entered_example =
    run_step-Entered repr digests registry.ports beam none start_of entered none entered_run

-- A mesher: no input, a payload and a number out.
abbrev mesh : PayloadRef
mesh = record { kind = "mesh"; digest = "d"; origin = "gmsh" }

abbrev mesh_outcome : Outcome ℤ
mesh_outcome = ok (record {
  values = ("fea.size", pos 7) ∷ [];
  measured_eps = some (pos 1);
  payloads = ("fea.mesh", mesh) ∷ [];
})

abbrev mesher : Entry ℤ
mesher = (
  record (info "fea.mesher" "fea") {
    inputs = [];
    outputs = "fea.mesh" ∷ "fea.size" ∷ [];
    domain = record { box = []; tags = [] };
  },
  record { call = plain (λ _. mesh_outcome); probe_tools = none },
)

abbrev mesh_ports : Dict PortDecl
mesh_ports =
    ("fea.mesh", record { name = "fea.mesh"; unit = ""; rank = Rank.payload "mesh" })
    ∷ ("fea.size", record { name = "fea.size"; unit = "m"; rank = Rank.scalar })
    ∷ []

only_mesher : (id : String) (e : Entry ℤ) → solver_of (mesher ∷ []) id ≡ some e → mesher ≡ e
unfolding solver_of
only_mesher id e h = elim (Bool-cases ("fea.mesher" == id)) [
  | inl hit ↦ some-injective mesher e (ground (arith, hit, h))
  | inr miss ↦ ground (arith, miss, h)
]

abbrev bare : Option ℤ → Prepared ℤ
bare b = record { box = []; payload_inputs = []; budget = b }

same_prepared :
    (p p' : Prepared ℤ) → ◌≡◌ {A = Result (Prepared ℤ) (Abort ℤ)} (ok p) (ok p') → p ≡ p'
same_prepared p p' h = cc

mesher_bare :
    (p : Prepared ℤ) → Prepares repr digests mesh_ports mesher.0 p → (b : Option ℤ) × (bare b ≡ p)
unfolding Prepares prepare
mesher_bare p (none, w, h) = (none, same_prepared (bare none) p h)
mesher_bare p (some b, w, h) = (_, same_prepared (bare _) p h)

mesher-Distinguishes : Distinguishes repr digests mesh_ports (mesher ∷ [])
unfolding Distinguishes
mesher-Distinguishes e e' p p' here here' given given' same =
    let (b, q) = mesher_bare p (
      subst (λ x. Prepares repr digests mesh_ports x.0 p) (sym (only_mesher e.0.solver_id e here))
        given) in
    let (b', q') = mesher_bare p' (
      subst (λ x. Prepares repr digests mesh_ports x.0 p')
        (sym (only_mesher e'.0.solver_id e' here')) given') in
    ap₂ (identity_of repr digests mesh_ports) (sym (only_mesher e.0.solver_id e here)) (sym q)
    ∙ ap₂ (identity_of repr digests mesh_ports) (only_mesher e'.0.solver_id e' here') q'

mesher-Cacheable : Cacheable repr digests mesh_ports (mesher ∷ [])
unfolding Cacheable
mesher-Cacheable id e here det =
    subst (λ x. ReadsDigests x.1) (only_mesher id e here)
      (record { body = λ _. mesh_outcome; is_plain = refl; by_digest = λ _ _ _ _. refl })

no_blobs :
    Kept repr digests mesh_ports
      (mesher ∷ [])
      mesher-Distinguishes
      mesher-Cacheable
      (some empty_step_cache)
unfolding Kept IsCoherent lookup
no_blobs e p entry here det given found = cc

execute_route-Kept_example :
    ((execute_route repr digests mesh_ports
        (mesher ∷ [])
        (route_by "fea.size" ("fea.mesher" ∷ []))
        []
        []
        (some empty_step_cache)
        none).0
      ≡ (execute_route repr digests mesh_ports
          (mesher ∷ [])
          (route_by "fea.size" ("fea.mesher" ∷ []))
          []
          []
          none
          none).0)
    × Kept repr digests mesh_ports
        (mesher ∷ [])
        mesher-Distinguishes
        mesher-Cacheable
        (execute_route repr digests mesh_ports
          (mesher ∷ [])
          (route_by "fea.size" ("fea.mesher" ∷ []))
          []
          []
          (some empty_step_cache)
          none).1
execute_route-Kept_example =
    execute_route-Kept repr digests mesh_ports (mesher ∷ []) mesher-Distinguishes mesher-Cacheable
      (route_by "fea.size" ("fea.mesher" ∷ [])) [] [] (some empty_step_cache) none no_blobs

beam-DeclaresAccuracy : DeclaresAccuracy beam.0
unfolding lookup
beam-DeclaresAccuracy port e =
    subst (Has beam.0.accuracy) ((eq_iff "mech.stress" port).0 (ground (arith, e)))
      (record { eps_abs = pos 1; eps_rel = pos 0 }, refl)

fresh_step-IsClean_example :
    IsClean repr registry.ports beam.0
      (fresh_step repr registry.ports beam.0 beam.1 request.known [] (some (pos 3)))
fresh_step-IsClean_example =
    fresh_step-IsClean repr registry.ports beam.0 beam.1 request.known [] (some (pos 3))
      beam-DeclaresAccuracy

abbrev strict : RoutePolicy
strict = record policy { fallback = false }

solve-attempt_example :
    (a : Answer ℤ) × (disk : Disk ℤ) × (attempt first_solver repr digests hashes strict registry
        request
        (record { excluded = []; attempts = [] })
        (start_disk first_solver repr digests hashes strict registry request [] none [])
      ≡ (answer a, disk))
    × (solve first_solver repr digests hashes strict registry request [] none [] ≡ some (a, disk))
solve-attempt_example =
    solve-attempt first_solver repr digests hashes strict registry request [] none [] refl

-- The corner of the beam with its one load.
beam_corner :
    (corner_fn repr registry.ports beam.0 beam.1 []
      ("mech.stress" ∷ [])
      []
      none
      (("mech.load", pos 1) ∷ [])
      (record { measured = []; produced = [] })).0
    ≡ ok (("mech.stress", pos 4) ∷ [])
unfolding corner_fn
beam_corner = refl

corner_fn-IsFinite_example : IsFinite {F = ℤ} (("mech.stress", pos 4) ∷ [])
corner_fn-IsFinite_example =
    corner_fn-IsFinite repr registry.ports beam.0 beam.1 [] ("mech.stress" ∷ []) [] none
      (("mech.load", pos 1) ∷ []) (("mech.stress", pos 4) ∷ [])
      (record { measured = []; produced = [] }) beam_corner
