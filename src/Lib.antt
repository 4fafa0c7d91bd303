-- ===== src/Lib.antt =====
-- feldspar: a solver library whose registry, planner facade and executor answer a request "this port
-- to within this error" (python/feldspar). A registry keeps solvers and a port table; packs add to it;
-- `solve` plans a route over it, executes the route step by step by corner sweeps, and reroutes around
-- the solver that failed.
--
-- Prelude: the shared names, Boolean tests, results, Python's dict and sorted, and the operations of
--   float as a parameter.
-- Core, Core.Sweep: the quantities of python/feldspar/core.py and the corner sweep of
--   crates/feldspar-core/src/propagation.rs; Corners, below it, is about the
--   corners of a box, Covers and Keys about the hull.
-- Solve.Errors, Solve.Models: python/feldspar/solve/errors.py, _models.py and _build.py.
-- Solve.Registry: python/feldspar/solve/registry.py. `register`, `declare_ports`, `freeze`, `get`,
--   `digest` and the rollbacks keep their names; each takes the registry and returns the new one. Its
--   modules are about registration, the port table, the invariant and the digest.
-- Solve.Seeking: python/feldspar/solve/seeking.py.
-- Solve.Packs: python/feldspar/solve/packs.py. A pack's register function is an interaction tree
--   that branches on the registry's answers. Its modules are about names, staging, replay and
--   rollback, one pack, and all packs.
-- In Plan, Models is python/feldspar/plan/route.py, policy.py, errors.py, and `Solution`.
-- Its StepCache and Cache are `PayloadStepCache` and `SolveCache` of python/feldspar/plan/cache.py.
-- Its Step, Execute and Walk are python/feldspar/plan/execute.py. `corner_fn` is the closure of
--   `_make_corner_fn` with the lists it fills as a state; `fresh_step`, `run_step`, `run_steps` and
--   `execute_route` are the body, the iteration, the loop and the whole of `_execute_impl`.
-- Outputs, under Step and Execute, is about what a step gives, Finite about the numbers of a corner; under Walk are the id beside an
--   error, the step cache and the domain check.
-- Its Attempt and Solve are `solve` of python/feldspar/plan/solve.py. `attempt` is one iteration of its
--   loop, `judge` what follows an execution.
-- Fea.Richardson, Fea.Ladder: python/feldspar/fea/richardson.py and ladder.py; `climb_from` is the
--   loop of `climb_richardson_ladder`, and its modules are about the cache, the budget and a second climb.
-- Fluids.Network: python/feldspar/fluids/network.py. Its Edges, Losses, Tree, Cycles, Seed, Solve and
--   Paths are the steps of `_hardy_cross_solve` and the queries on its result, under the source's names;
--   Ends is the pass over the edges that several of them make, Search
--   what the two breadth-first searches share. An in-place write of a flow is a new list
--   of edges. Its other modules are about the growth of the tree, the loops, and the balance at a node.
-- Pack.Margin: python/feldspar/pack/models.py, `_FeaModel.estimate` and what it calls. The engine (`solve`
--   with its caches) is a function on a state. Rounds is an induction over its loop; Budgets, Verdict and
--   Decision are about what is asked and what is answered.
-- Pack.Queries: python/feldspar/pack/models.py, `_resolve_solved_network` and the `estimate` of the three
--   fluid models, and python/feldspar/pack/payload_bridge.py. Selection is about the choice of edges, Drop
--   about the pressure drop between two nodes. A role is split on fuel of one round for each byte.
-- Pack.Corners: python/feldspar/pack/models.py, `_finite_corner_sweep` and the `estimate` of the stiffness
--   and the rail models; the formulas of the Rust core are parameters. Product is about
--   the corners, Hull about the sweep.
-- Pack.Payloads: the `estimate` of the two models that read a payload.
-- Pack.Catalog: what the models of python/feldspar/pack/models.py declare, and `register` of
--   python/feldspar/pack/__init__.py. Mech and Elec have the models on a direction of the engine.
-- Solve.Tests, Plan.Tests, Fea.Tests, Fluids.Tests, Pack.Tests: runs and witnesses.
--
-- Floats are a parameter `FloatOps`; a theorem that needs their order takes it as a hypothesis, which
-- IEEE numbers other than NaN satisfy and the integers of Prelude.Int do. `less` is an operation of its
-- own, so that both comparisons may be false of NaN.
-- Sums without rounding (`ExactSums`) are a hypothesis where a theorem is about the balance of flows.
-- The breadth-first searches run on fuel, one round for each node; both are proved to end within it.
-- Hashes, `repr` and the native search are parameters. A raised exception is a value of the result, also
-- the ZeroDivisionError and the OverflowError of the head-loss laws and of the extrapolation. The
-- reroute loop runs on fuel, one more than the registry has solvers: each reroute excludes one more.
-- A solver is a function of its arguments: a nondeterministic one is not modelled beyond its flag.
-- Logging, the text of JSON, the atomic write and the discovery of entry points are left out, and so are
-- the domain solvers (mech, heat, elec, the rest of fluids and fea) and their external tools.
pub mod Prelude
pub mod Core
pub mod Solve
pub mod Plan
pub mod Fea
pub mod Fluids
pub mod Pack
