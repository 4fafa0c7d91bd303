-- ===== src/Fluids/Network/Tree/Grown.antt =====
-- How a spanning tree of python/feldspar/fluids/network.py grows: one node at a time, each joined by
-- an edge to a node from before it. A growth has the newest node first.
use feldspar.Fluids.Network.Search.{elem-order_of, IsGrowth, order_of, names, Growth}
use feldspar.Prelude.{ℕ, String, ◌≡◌, refl, some, List, [], ◌∷◌, ◌++◌, ◌⊎◌, elem, if◌then◌else◌}
use feldspar.Prelude.Dict.{insert}
use feldspar.Fluids.Network.Edges.{Edge}
use feldspar.Fluids.Network.Ends.{get_elem?}
use feldspar.Fluids.Network.Tree.{SpanningTree, Search, visit}

-- The edge `i` joins the nodes `p` and `n`, in one direction or the other.
abbrev pub Joins : {F : Type 0} → List (Edge F) → ℕ → String → String → Type 0
Joins {F} edges i p n =
    (e : Edge F) × (get_elem? edges i ≡ some e)
    × (((e.a ≡ p) × (e.b ≡ n)) ⊎ ((e.a ≡ n) × (e.b ≡ p)))

abbrev pub IsGrown : {F : Type 0} → List (Edge F) → String → List (Growth ℕ) → Type 0
IsGrown edges = IsGrowth (Joins edges)

-- The tree that a growth gives.
abbrev pub parent_node_of : List (Growth ℕ) → List (String × String)
parent_node_of [] = []
parent_node_of (g ∷ log) = insert g.node g.parent (parent_node_of log)

abbrev pub parent_edge_of : List (Growth ℕ) → List (String × ℕ)
parent_edge_of [] = []
parent_edge_of (g ∷ log) = insert g.node g.edge (parent_edge_of log)

abbrev pub tree_edges_of : List (Growth ℕ) → List ℕ
tree_edges_of [] = []
tree_edges_of (g ∷ log) = tree_edges_of log ++ g.edge ∷ []

abbrev pub tree_of : String → List (Growth ℕ) → SpanningTree
tree_of root log = record {
  order = order_of root log;
  parent_node = parent_node_of log;
  parent_edge = parent_edge_of log;
  tree_edges = tree_edges_of log;
}

abbrev pub search_of : String → List (Growth ℕ) → List String → Search
search_of root log queue = record {
  visited = order_of root log;
  queue = queue;
  tree = tree_of root log;
}

-- A visit grows the tree by a new neighbour, or changes nothing.
pub visit-search_of :
    (root node n : String) (i : ℕ) (log : List (Growth ℕ)) (queue : List String)
    → visit node (search_of root log queue) (n, i) ≡ (
        if elem n (names root log)
        then search_of root log queue
        else search_of root (record { node = n; parent = node; edge = i } ∷ log) (queue ++ n ∷ []))
unfolding visit
visit-search_of root node n i log queue = rw (elem-order_of root n log) refl
