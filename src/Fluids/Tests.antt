-- ===== src/Fluids/Tests.antt =====
-- A network of three resistances between two fixed flows, and the theorems on it.
use feldspar.Prelude.{
  String, ◌≡◌, refl, true, none, some, List, [], ◌∷◌, ok, err, map, length, ◌+◌, ◌⊎◌, if◌then◌else◌,
  All, arith, ℕ,
}
use feldspar.Prelude.Int.{ℤ, pos, negsuc, int_floats, int_sums}
use feldspar.Fluids.Network.Solve.Conservation.{IsReported}
use feldspar.Fluids.Network.Edges.{
  Stop, Edge, FlownetPayload, number, Constants, edges_of, is_unknown,
}
use feldspar.Fluids.Network.Losses.{Formulas}
use feldspar.Fluids.Network.Ends.{IsClosed}
use feldspar.Fluids.Network.Tree.{SpanningTree, spanning_tree, refuse}
use feldspar.Fluids.Network.Tree.Spans.{Spans, IsConnected, spanning_tree-IsConnected}
use feldspar.Fluids.Network.Cycles.{Sign, plus, minus, build_cycle_basis}
use feldspar.Fluids.Network.Cycles.Circulation.{IsLoop, ins, outs}
use feldspar.Fluids.Network.Cycles.Basis.{build_cycle_basis-IsLoop}
use feldspar.Fluids.Network.Seed.Balance.{balance}
use feldspar.Fluids.Network.Paths.{find_path_edges}
use feldspar.Fluids.Network.Paths.Trace.{IsPath}
use feldspar.Fluids.Network.Paths.Walks.{find_path_edges-IsPath}
use feldspar.Fluids.Network.Solve.{
  SolvedNetwork, solved_network, solve_edges, apply_correction, solve_flownet_bytes,
}
use feldspar.Fluids.Network.Solve.Standing.{IsFree, standing}
use feldspar.Fluids.Network.Solve.Times.{times}
use feldspar.Fluids.Network.Solve.Correction.{apply_correction-balance}
use feldspar.Fluids.Network.Solve.Outcome.{solve_edges-known_part, solve_edges-balance, known_part}
use feldspar.Fluids.Network.Solve.Dangling.{RaisesKey, solve_flownet_bytes-RaisesKey}

abbrev pub constants : Constants ℤ
constants = record {
  one = pos 1;
  two = pos 2;
  pi = pos 1;
  orifice_beta_min = pos 0;
  orifice_beta_max = pos 1;
  hc_tol = pos 2;
  conservation_tol = pos 0;
  chord_seed = pos 1;
  laminar_re_ceiling = pos 2300;
  slope_rel = pos 1;
  slope_min = pos 1;
}

abbrev pub formulas : Formulas ℤ
formulas = record {
  square = λ a. some (int_floats.mul a a);
  copysign = λ a b.
      if int_floats.le (pos 0) b then int_floats.abs a else int_floats.neg (int_floats.abs a);
  reynolds_number = λ density speed diameter viscosity. pos 0;
  laminar_friction_factor = λ reynolds. reynolds;
  colebrook_friction_factor = λ reynolds rel_rough. reynolds;
  darcy_dp = λ f length diameter density speed. speed;
  orifice_dp = λ cd area density flow. flow;
  minor_loss_dp = λ k density velocity. int_floats.mul k (int_floats.mul velocity velocity);
}

abbrev edge : String → String → String → String → ℤ → ℤ → Edge ℤ
edge id a b kind flow resistance = record {
  id = id;
  a = a;
  b = b;
  kind = kind;
  length = pos 0;
  diameter = pos 2;
  roughness = pos 0;
  density = pos 1;
  viscosity = pos 0;
  flow = flow;
  cd = pos 0;
  bore_diameter = pos 0;
  resistance = resistance;
}

abbrev pub with_flows : ℤ → ℤ → ℤ → List (Edge ℤ)
with_flows ab ac cb =
    edge "in" "s" "a" "imposer" (pos 6) (pos 0)
    ∷ edge "ab" "a" "b" "hx_segment" ab (pos 2)
    ∷ edge "ac" "a" "c" "hx_segment" ac (pos 2)
    ∷ edge "cb" "c" "b" "hx_segment" cb (pos 2)
    ∷ edge "out" "b" "t" "imposer" (pos 6) (pos 0)
    ∷ []

abbrev triangle : List (Edge ℤ)
triangle = with_flows (pos 0) (pos 0) (pos 0)

abbrev pub others : List String
others = "b" ∷ "c" ∷ "s" ∷ "t" ∷ []

abbrev tree : SpanningTree
tree = record {
  order = "a" ∷ "s" ∷ "b" ∷ "c" ∷ "t" ∷ [];
  parent_node = ("s", "a") ∷ ("b", "a") ∷ ("c", "a") ∷ ("t", "b") ∷ [];
  parent_edge = ("s", 0) ∷ ("b", 1) ∷ ("c", 2) ∷ ("t", 4) ∷ [];
  tree_edges = 0 ∷ 1 ∷ 2 ∷ 4 ∷ [];
}

abbrev loop : List (ℕ × Sign)
loop = (3, plus) ∷ (2, plus) ∷ (1, minus) ∷ []

closed : IsClosed ("a" ∷ others) triangle
closed = ((refl, refl), ((refl, refl), ((refl, refl), ((refl, refl), ((refl, refl), tt)))))

tree_of_triangle : spanning_tree {F = ℤ} ("a" ∷ others) triangle ≡ ok tree
unfolding spanning_tree
tree_of_triangle = refl

basis_of_triangle : build_cycle_basis {F = ℤ} triangle tree ("a" ∷ others) ≡ ok (loop ∷ [])
unfolding build_cycle_basis
basis_of_triangle = refl

solved_triangle :
    solve_edges constants formulas ("a" ∷ others) triangle ≡ ok (with_flows (pos 3) (pos 3) (pos 3))
unfolding solve_edges
solved_triangle = refl

free : All (IsFree triangle) (loop ∷ [])
unfolding is_unknown
free = ((refl, (refl, (refl, tt))), tt)

spanning_tree-IsConnected_example :
    ((t : SpanningTree) × (spanning_tree ("a" ∷ others) triangle ≡ ok t)
      × Spans ("a" ∷ others) triangle t
      × IsConnected ("a" ∷ others) triangle "a")
    ⊎ ((spanning_tree ("a" ∷ others) triangle ≡ refuse "disconnected_network")
        × ¬ IsConnected ("a" ∷ others) triangle "a")
spanning_tree-IsConnected_example = spanning_tree-IsConnected "a" others triangle closed

build_cycle_basis-IsLoop_example :
    (loops : List (List (ℕ × Sign))) × (build_cycle_basis triangle tree ("a" ∷ others) ≡ ok loops)
    × All (IsLoop triangle) loops
    × (length loops + length ("a" ∷ others) ≡ length triangle + 1)
build_cycle_basis-IsLoop_example =
    build_cycle_basis-IsLoop "a" others triangle tree closed tree_of_triangle

solve_edges-balance_example :
    int_floats.le (int_floats.abs (balance "b" (with_flows (pos 3) (pos 3) (pos 3)))) (pos 0) ≡ true
solve_edges-balance_example =
    solve_edges-balance int_sums constants formulas refl "a" others triangle closed tree (loop ∷ [])
      (with_flows (pos 3) (pos 3) (pos 3)) "b" tree_of_triangle basis_of_triangle free
      solved_triangle refl (omega arith)

solve_edges-known_part_example :
    ((stop : Stop ℤ) × (solve_edges constants formulas ("a" ∷ others) triangle ≡ err stop)
      × IsReported stop)
    ⊎ ((es : List (Edge ℤ)) × (solve_edges constants formulas ("a" ∷ others) triangle ≡ ok es)
        × (map known_part es ≡ map known_part triangle))
solve_edges-known_part_example =
    solve_edges-known_part int_sums constants formulas refl "a" others triangle closed

-- A loop with a fixed flow: the correction reaches one end of it only.
abbrev mixed : List (Edge ℤ)
mixed =
    edge "pump" "b" "a" "imposer" (pos 6) (pos 0)
    ∷ edge "ab" "a" "b" "hx_segment" (pos 6) (pos 2)
    ∷ []

abbrev mixed_loop : List (ℕ × Sign)
mixed_loop = (0, plus) ∷ (1, plus) ∷ []

abbrev mixed_after : List (Edge ℤ)
mixed_after =
    edge "pump" "b" "a" "imposer" (pos 6) (pos 0)
    ∷ edge "ab" "a" "b" "hx_segment" (pos 3) (pos 2)
    ∷ []

mixed_closes : IsLoop mixed mixed_loop
mixed_closes = (
  λ v. omega arith,
  (
    (edge "pump" "b" "a" "imposer" (pos 6) (pos 0), refl),
    ((edge "ab" "a" "b" "hx_segment" (pos 6) (pos 2), refl), tt),
  ),
)

mixed_corrected : apply_correction (negsuc 2) mixed_loop mixed ≡ ok mixed_after
unfolding apply_correction
mixed_corrected = refl

apply_correction-balance_example :
    int_floats.add
      (balance "a" mixed_after)
      (times int_sums (ins mixed "a" (standing mixed mixed_loop)) (negsuc 2))
    ≡ int_floats.add
        (balance "a" mixed)
        (times int_sums (outs mixed "a" (standing mixed mixed_loop)) (negsuc 2))
apply_correction-balance_example =
    apply_correction-balance int_sums "a" (negsuc 2) mixed mixed_after mixed_loop mixed_closes.0
      mixed_closes.1 mixed_corrected

-- An edge to a node that the payload does not list.
abbrev dangling : FlownetPayload ℤ
dangling = record {
  nodes = "a" ∷ [];
  edges =
      record {
        id = "leak";
        a = "a";
        b = "nowhere";
        kind = "imposer";
        params = record {
          source = some "scalars";
          extract = none;
          selector = none;
          values = ("flow_rate", number (pos 2)) ∷ [];
        };
      }
      ∷ [];
  claim_target = none;
}

abbrev leak : Edge ℤ
leak = record (edge "leak" "a" "nowhere" "imposer" (pos 2) (pos 0)) {
  diameter = pos 0;
  density = pos 0;
}

decoded : edges_of constants dangling.edges ≡ ok (leak ∷ [])
unfolding edges_of
decoded = refl

solve_flownet_bytes-RaisesKey_example :
    RaisesKey ("a" ∷ []) (solve_flownet_bytes (λ (_ : String). ok dangling) constants formulas "")
solve_flownet_bytes-RaisesKey_example =
    solve_flownet_bytes-RaisesKey constants formulas (λ _. ok dangling) "" dangling (leak ∷ []) refl
      decoded refl

abbrev pub network : FlownetPayload ℤ
network = record { nodes = "a" ∷ others; edges = []; claim_target = none }

abbrev pub pipe_in : Edge ℤ
pipe_in = edge "in" "s" "a" "imposer" (pos 6) (pos 0)

abbrev pub pipe_ab : Edge ℤ
pipe_ab = edge "ab" "a" "b" "hx_segment" (pos 3) (pos 2)

abbrev pipe_ac : Edge ℤ
pipe_ac = edge "ac" "a" "c" "hx_segment" (pos 3) (pos 2)

abbrev pub pipe_cb : Edge ℤ
pipe_cb = edge "cb" "c" "b" "hx_segment" (pos 3) (pos 2)

abbrev pipe_out : Edge ℤ
pipe_out = edge "out" "b" "t" "imposer" (pos 6) (pos 0)

abbrev pub solved : SolvedNetwork ℤ
solved = record {
  payload = network;
  edges = with_flows (pos 3) (pos 3) (pos 3);
  by_id =
      ("in", pipe_in)
      ∷ ("ab", pipe_ab)
      ∷ ("ac", pipe_ac)
      ∷ ("cb", pipe_cb)
      ∷ ("out", pipe_out)
      ∷ [];
  incidence =
      ("a", (pipe_in, plus) ∷ (pipe_ab, minus) ∷ (pipe_ac, minus) ∷ [])
      ∷ ("b", (pipe_ab, plus) ∷ (pipe_cb, plus) ∷ (pipe_out, minus) ∷ [])
      ∷ ("c", (pipe_ac, plus) ∷ (pipe_cb, minus) ∷ [])
      ∷ ("s", (pipe_in, minus) ∷ [])
      ∷ ("t", (pipe_out, plus) ∷ [])
      ∷ [];
}

solved_of_triangle : solved_network network (with_flows (pos 3) (pos 3) (pos 3)) ≡ ok solved
unfolding solved_network
solved_of_triangle = refl

path_of_triangle : find_path_edges solved "t" "c" ≡ ok ((pipe_out, minus) ∷ (pipe_cb, minus) ∷ [])
unfolding find_path_edges
path_of_triangle = refl

find_path_edges-IsPath_example :
    ((path : List (Edge ℤ × Sign)) × (find_path_edges solved "t" "c" ≡ ok path)
      × IsPath (with_flows (pos 3) (pos 3) (pos 3)) "t" "c" path)
    ⊎ ((find_path_edges solved "t" "c" ≡ refuse "disconnected_query_path")
        × ¬ (
            (path : List (Edge ℤ × Sign)) × IsPath
              (with_flows (pos 3) (pos 3) (pos 3))
              "t"
              "c"
              path))
find_path_edges-IsPath_example =
    find_path_edges-IsPath network (with_flows (pos 3) (pos 3) (pos 3)) solved "t" "c"
      ((refl, refl), ((refl, refl), ((refl, refl), ((refl, refl), ((refl, refl), tt)))))
      solved_of_triangle refl refl
