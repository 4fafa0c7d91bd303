-- ===== src/Fluids/Network/Cycles/Chords.antt =====
-- How many edges of a network of python/feldspar/fluids/network.py a spanning tree leaves over.
use feldspar.Fluids.Network.Search.{names, Growth}
use feldspar.Prelude.{
  ℕ, zero, suc, ◌+◌, ◌<◌, String, ◌≡◌, refl, false, not, ◌||◌, some, List, [], ◌∷◌, ◌++◌, eq_iff,
  elem, length, All, arith,
}
use feldspar.Prelude.Membership.{Within}
use feldspar.Fluids.Network.Edges.{Edge}
use feldspar.Fluids.Network.Ends.{get_elem?}
use feldspar.Fluids.Network.Tree.Grown.{Joins, IsGrown, tree_edges_of}
use feldspar.Fluids.Network.Cycles.{plus, same_index, has_edge}
use feldspar.Fluids.Network.Cycles.Circulation.{bit, IsInside, ends_differ}

module _ {F : Type 0} (edges : List (Edge F)) (root : String) where
  -- The edges from the index `i` on that are not in the tree.
  abbrev pub chords : List ℕ → ℕ → List (Edge F) → ℕ
  chords t i [] = 0
  chords t i (e ∷ es) = bit (not (has_edge i t)) + chords t (suc i) es

  has_edge-append :
      (i : ℕ) (t : List ℕ) (j : ℕ) → has_edge i (t ++ j ∷ []) ≡ (has_edge i t || same_index j i)
  has_edge-append i [] j = ground arith
  has_edge-append i (x ∷ t) j = ground (arith, has_edge-append i t j)

  chords_nil : (i : ℕ) (es : List (Edge F)) → chords [] i es ≡ length es
  chords_nil i [] = refl
  chords_nil i (e ∷ es) = omega (arith, chords_nil (suc i) es)

  chords-below :
      (t : List ℕ) (j i : ℕ) (es : List (Edge F))
      → j < i
      → chords (t ++ j ∷ []) i es ≡ chords t i es
  chords-below t j i [] h = refl
  chords-below t j i (e ∷ es) h =
      ground (arith, has_edge-append i t j, chords-below t j (suc i) es (omega arith))

  -- A tree edge is one chord less.
  chords-append :
      (t : List ℕ) (j i k : ℕ) (es : List (Edge F))
      → j ≡ i + k
      → k < length es
      → has_edge j t ≡ false
      → suc (chords (t ++ j ∷ []) i es) ≡ chords t i es
  chords-append t j i k [] e h f = absurd (omega arith)
  chords-append t j i zero (x ∷ es) e h f =
      let same : j ≡ i = omega arith in
      ground (arith, has_edge-append i t j, chords-below t j (suc i) es (omega arith))
  chords-append t j i (suc k) (x ∷ es) e h f =
      ground
        (arith, has_edge-append i t j, chords-append t j (suc i) k es (omega arith) (omega arith) f)

  tree_edge_fresh :
      (x : Growth ℕ) (log : List (Growth ℕ))
      → Joins edges x.edge x.parent x.node
      → elem x.node (names root log) ≡ false
      → (g : List (Growth ℕ)) → All (λ y. IsInside edges root log (y.edge, plus)) g
      → has_edge x.edge (tree_edges_of g) ≡ false
  tree_edge_fresh x log j f [] h = refl
  tree_edge_fresh x log j f (y ∷ g) ((p, n, joins, hp, hn), hs) = ground (
    arith,
    has_edge-append x.edge (tree_edges_of g) y.edge,
    ends_differ edges root x.edge y.edge x.parent x.node p n log j joins f hp hn,
    tree_edge_fresh x log j f g hs,
  )

  growth-IsInside :
      (log g : List (Growth ℕ))
      → IsGrown edges root g
      → Within (names root g) (names root log)
      → All (λ y. IsInside edges root log (y.edge, plus)) g
  growth-IsInside log [] h w = tt
  growth-IsInside log (y ∷ g) h w = (
    (
      y.parent,
      y.node,
      h.2,
      w y.parent (ground (arith, h.1)),
      w y.node (ground (arith, eq_iff y.node y.node)),
    ),
    growth-IsInside log g h.3 (λ k m. w k (ground arith)),
  )

  edge_below : (es : List (Edge F)) (i : ℕ) (e : Edge F) → get_elem? es i ≡ some e → i < length es
  edge_below [] i e h = cc
  edge_below (x ∷ es) zero e h = omega arith
  edge_below (x ∷ es) (suc i) e h = omega (arith, edge_below es i e h)

  -- The edges outside the tree, and the tree's, are all edges.
  pub chords-tree_edges_of :
      (log : List (Growth ℕ))
      → IsGrown edges root log
      → chords (tree_edges_of log) 0 edges + length log ≡ length edges
  chords-tree_edges_of [] g = omega (arith, chords_nil 0 edges)
  chords-tree_edges_of (x ∷ log) g =
      let (e, at, _) = g.2 in
      omega (
        arith,
        chords-tree_edges_of log g.3,
        chords-append (tree_edges_of log) x.edge 0 x.edge edges (omega arith)
            (edge_below edges x.edge e at)
            (tree_edge_fresh x log g.2 g.0 log (growth-IsInside log log g.3 (λ k m. m))),
      )
