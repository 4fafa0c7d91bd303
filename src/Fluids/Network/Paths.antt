-- ===== src/Fluids/Network/Paths.antt =====
-- `find_path_edges` of python/feldspar/fluids/network.py, a breadth-first search that stops at its
-- goal, on fuel of one round for each node. `Trace` is about the path that the search leaves,
-- `Walks` about the whole.
pub mod Trace
pub mod Walks
use feldspar.Prelude.{
  ℕ, zero, suc, String, true, false, not, ◌||◌, List, [], ◌∷◌, ◌++◌, Result, ok, err, ◌>>=◌, ◌==◌,
  elem, length, if◌then◌else◌,
}
use mathlib.Core.List.{reverse}
use feldspar.Prelude.Dict.{Dict, lookup, insert, contains}
use feldspar.Fluids.Network.Edges.{Edge, Stop, out_of_fuel, get_item}
use feldspar.Fluids.Network.Ends.{index_ends}
use feldspar.Fluids.Network.Tree.{refuse}
use feldspar.Fluids.Network.Cycles.{Sign, plus, minus}
use feldspar.Fluids.Network.Solve.{SolvedNetwork}

-- An edge and the sense in which a path runs over it.
abbrev pub Step : Type 0 → Type 0
Step F = Edge F × Sign

-- What the search reaches a node by: the node before it and the step.
abbrev pub Arrival : Type 0 → Type 0
Arrival F = String × Step F

pub record PathSearch (F : Type 0) : Type 0 where
  pub visited : List String
  pub parent : Dict (Arrival F)
  pub queue : List String

module _ {F : Type 0} where
  unfoldable pub visit_neighbor : String → PathSearch F → Arrival F → PathSearch F
  unfolding insert
  visit_neighbor node s (neighbor, step) = if elem neighbor s.visited then s else record {
    visited = s.visited ++ neighbor ∷ [];
    parent = insert neighbor (node, step) s.parent;
    queue = s.queue ++ neighbor ∷ [];
  }

  unfoldable pub visit_neighbors : String → List (Arrival F) → PathSearch F → PathSearch F
  unfolding visit_neighbor
  visit_neighbors node [] s = s
  visit_neighbors node (entry ∷ entries) s =
      visit_neighbors node entries (visit_neighbor node s entry)

  unfoldable pub path_search :
      Dict (List (Arrival F)) → String → ℕ → PathSearch F → Result (PathSearch F) (Stop F)
  unfolding visit_neighbors get_item
  path_search adjacency goal zero s = elim s.queue [ [] ↦ ok s | _ ∷ _ ↦ err out_of_fuel ]
  path_search adjacency goal (suc fuel) s = elim s.queue [
    | [] ↦ ok s
    | node ∷ rest ↦ elim (node == goal) [
      | true ↦ ok (record s { queue = rest })
      | false ↦ get_item node adjacency >>= λ entries.
          path_search adjacency goal fuel (visit_neighbors node entries (record s { queue = rest }))
    ]
  ]

  -- `while cur != node_a`, with the last edge first.
  unfoldable pub trace_back :
      Dict (Arrival F) → String → ℕ → String → Result (List (Step F)) (Stop F)
  unfolding get_item
  trace_back parent start zero cur = if cur == start then ok [] else err out_of_fuel
  trace_back parent start (suc fuel) cur = elim (cur == start) [
    | true ↦ ok []
    | false ↦ get_item cur parent >>= λ (step : Arrival F).
        trace_back parent start fuel step.0 >>= λ path. ok (step.1 ∷ path)
  ]

  -- `node_b not in visited`, and the path.
  unfoldable pub finish_path : String → String → PathSearch F → Result (List (Step F)) (Stop F)
  unfolding trace_back refuse
  finish_path node_a node_b s =
      if not (elem node_b s.visited)
      then refuse "disconnected_query_path"
      else (trace_back s.parent node_a (suc (length s.parent)) node_b >>= λ path. ok (reverse path))

  unfoldable pub find_path_edges :
      SolvedNetwork F → String → String → Result (List (Step F)) (Stop F)
  unfolding lookup refuse index_ends path_search finish_path
  find_path_edges solved node_a node_b =
      if not (contains node_a solved.incidence) || not (contains node_b solved.incidence)
      then refuse "unknown_node"
      else if node_a == node_b
      then ok []
      else do
        adjacency ←
            index_ends (λ i e. (e.b, (e, plus))) (λ i e. (e.a, (e, minus))) solved.payload.nodes
              solved.edges
        s ←
            path_search adjacency node_b (length solved.payload.nodes)
              (record { visited = node_a ∷ []; parent = []; queue = node_a ∷ [] })
        finish_path node_a node_b s
