-- ===== src/Fluids/Network/Tree.antt =====
-- `_SpanningTree` and `_spanning_tree` of python/feldspar/fluids/network.py. The breadth-first loop
-- runs on fuel, one round for each node of the payload. `Grown` says how its trees arise,
-- `Finished` is about the loop, `Spans` says what the tree of a network is.
pub mod Grown
pub mod Spans
pub mod Finished
use feldspar.Prelude.{
  ℕ, zero, suc, String, List, [], ◌∷◌, ◌++◌, Result, ok, err, ◌>>=◌, elem, length, leb, ◌&&◌,
  if◌then◌else◌,
}
use feldspar.Prelude.Dict.{Dict, insert}
use feldspar.Core.{payload_feature_violation}
use feldspar.Solve.Errors.{SolveError}
use feldspar.Fluids.Network.Edges.{Edge, Stop, error, index_error, out_of_fuel, get_item}
use feldspar.Fluids.Network.Ends.{index_ends}

abbrev pub flownet_port : String
flownet_port = "fluids.network.flownet"

-- `Err(SolveError.OutOfDomain(payload_feature_violation(FLOWNET_PORT, feature)))`
unfoldable pub refuse : {A F : Type 0} → String → Result A (Stop F)
unfolding payload_feature_violation
refuse feature =
    err (error (SolveError.out_of_domain (payload_feature_violation flownet_port feature)))

pub record SpanningTree : Type 0 where
  pub order : List String
  pub parent_node : Dict String
  pub parent_edge : Dict ℕ
  pub tree_edges : List ℕ

-- The variables of the breadth-first loop.
pub record Search : Type 0 where
  pub visited : List String
  pub queue : List String
  pub tree : SpanningTree

-- The body of the loop over the neighbours of `node`.
unfoldable pub visit : String → Search → String × ℕ → Search
unfolding insert
visit node s (neighbor, i) = if elem neighbor s.visited then s else record {
  visited = s.visited ++ neighbor ∷ [];
  queue = s.queue ++ neighbor ∷ [];
  tree = record {
    order = s.tree.order ++ neighbor ∷ [];
    parent_node = insert neighbor node s.tree.parent_node;
    parent_edge = insert neighbor i s.tree.parent_edge;
    tree_edges = s.tree.tree_edges ++ i ∷ [];
  };
}

unfoldable pub scan : String → List (String × ℕ) → Search → Search
unfolding visit
scan node [] s = s
scan node (entry ∷ entries) s = scan node entries (visit node s entry)

unfoldable pub start_search : String → Search
start_search root = record {
  visited = root ∷ [];
  queue = root ∷ [];
  tree = record { order = root ∷ []; parent_node = []; parent_edge = []; tree_edges = [] };
}

unfoldable pub search_from :
    {F : Type 0} → Dict (List (String × ℕ)) → ℕ → Search → Result Search (Stop F)
unfolding scan get_item
search_from adjacency zero s = elim s.queue [ [] ↦ ok s | _ ∷ _ ↦ err out_of_fuel ]
search_from adjacency (suc fuel) s = elim s.queue [
  | [] ↦ ok s
  | node ∷ rest ↦ get_item node adjacency >>= λ entries.
      search_from adjacency fuel (scan node entries (record s { queue = rest }))
]

-- `len(visited) != len(nodes)`
unfoldable pub finish_tree : {F : Type 0} → List String → Search → Result SpanningTree (Stop F)
unfolding refuse
finish_tree nodes s =
    if leb (length s.visited) (length nodes) && leb (length nodes) (length s.visited)
    then ok s.tree
    else refuse "disconnected_network"

unfoldable pub search_root :
    {F : Type 0} → Dict (List (String × ℕ)) → List String → Result SpanningTree (Stop F)
unfolding search_from start_search finish_tree
search_root adjacency [] = err index_error
search_root adjacency (root ∷ nodes) =
    search_from adjacency (suc (length nodes)) (start_search root) >>= finish_tree (root ∷ nodes)

unfoldable pub spanning_tree :
    {F : Type 0} → List String → List (Edge F) → Result SpanningTree (Stop F)
unfolding index_ends search_root
spanning_tree nodes edges =
    index_ends (λ i e. (e.b, i)) (λ i e. (e.a, i)) nodes edges >>= λ adjacency.
    search_root adjacency nodes
