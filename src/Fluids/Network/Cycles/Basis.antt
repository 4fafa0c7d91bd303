-- ===== src/Fluids/Network/Cycles/Basis.antt =====
-- `_build_cycle_basis` of python/feldspar/fluids/network.py on a spanning tree: it ends, with as many
-- loops as the network has independent cycles.
use feldspar.Fluids.Network.Search.{names, Growth, length-names}
use feldspar.Prelude.{
  bind_ok, ℕ, suc, ◌+◌, String, ◌≡◌, refl, sym, ap, subst, ◌∙◌, true, false, some, List, [], ◌∷◌,
  inl, inr, elem, length, All, arith, Bool-cases, ok,
}
use feldspar.Prelude.Membership.{Within}
use feldspar.Prelude.Dict.{Dict, lookup}
use feldspar.Fluids.Network.Edges.{Edge, get_item}
use feldspar.Fluids.Network.Ends.{Tail-head, Tail-suc, Tail-all, Tail, IsClosed}
use feldspar.Fluids.Network.Tree.{SpanningTree, spanning_tree}
use feldspar.Fluids.Network.Tree.Grown.{IsGrown, tree_of, tree_edges_of}
use feldspar.Fluids.Network.Tree.Spans.{spanning_tree-Spans}
use feldspar.Fluids.Network.Cycles.{
  Sign, has_edge, close_loop, depth_paths, loops_from, build_cycle_basis,
}
use feldspar.Fluids.Network.Cycles.Circulation.{IsLoop, way}
use feldspar.Fluids.Network.Cycles.Closing.{close_loop-IsLoop}
use feldspar.Fluids.Network.Cycles.Rooted.{depth_paths-way}
use feldspar.Fluids.Network.Cycles.Chords.{chords, chords-tree_edges_of}

module _ {F : Type 0} (edges : List (Edge F)) (root : String) where
  loops_from-chord :
      (tree : SpanningTree) (d : Dict (List (ℕ × Sign))) (i : ℕ) (e : Edge F) (es : List (Edge F))
      (loops : List (List (ℕ × Sign))) {p q : List (ℕ × Sign)}
      → has_edge i tree.tree_edges ≡ false
      → lookup e.a d ≡ some p
      → lookup e.b d ≡ some q
      → loops_from edges tree d (suc i) es ≡ ok loops
      → loops_from edges tree d i (e ∷ es) ≡ ok (close_loop i p q ∷ loops)
  unfolding loops_from get_item
  loops_from-chord tree d i e es loops h ha hb eq = ground arith

  loops_from-IsLoop :
      (nodes : List String) (log : List (Growth ℕ)) (d : Dict (List (ℕ × Sign))) (i : ℕ)
      (es : List (Edge F))
      → IsGrown edges root log
      → ((v : String) → elem v nodes ≡ true → lookup v d ≡ some (way edges root log v))
      → Within nodes (names root log)
      → Tail edges i es
      → IsClosed nodes es
      → (loops : List (List (ℕ × Sign))) × (loops_from edges (tree_of root log) d i es ≡ ok loops)
        × All (IsLoop edges) loops
        × (length loops ≡ chords edges root (tree_edges_of log) i es)
  unfolding loops_from get_item
  loops_from-IsLoop nodes log d i [] g h w t c = ([], refl, tt, refl)
  loops_from-IsLoop nodes log d i (e ∷ es) g h w t c =
      let (loops, eq, all, size) =
        loops_from-IsLoop nodes log d (suc i) es g h w (Tail-suc edges i e es t) c.1 in
      elim (Bool-cases (has_edge i (tree_edges_of log))) [
        | inl in_tree ↦ (loops, rw in_tree eq, all, rw in_tree (omega (arith, size)))
        | inr chord ↦ (
          close_loop i (way edges root log e.a) (way edges root log e.b) ∷ loops,
          loops_from-chord (tree_of root log) d i e es loops chord (h e.a c.0.0) (h e.b c.0.1) eq,
          (
            close_loop-IsLoop edges root log i e g (Tail-head edges i e es t) (w e.a c.0.0)
                (w e.b c.0.1),
            all,
          ),
          rw chord (ap suc size ∙ omega arith),
        )
      ]

-- On the spanning tree of a network whose edges all end at its nodes, the cycle basis is built;
-- each of its loops is over edges of the network and enters every node as often as it leaves it;
-- and there are as many loops as edges plus one, less the nodes.
pub build_cycle_basis-IsLoop :
    {F : Type 0} (root : String) (others : List String) (edges : List (Edge F))
    (tree : SpanningTree)
    → IsClosed (root ∷ others) edges
    → spanning_tree (root ∷ others) edges ≡ ok tree
    → (loops : List (List (ℕ × Sign))) × (build_cycle_basis edges tree (root ∷ others) ≡ ok loops)
      × All (IsLoop edges) loops
      × (length loops + length (root ∷ others) ≡ length edges + 1)
unfolding build_cycle_basis
build_cycle_basis-IsLoop root others edges tree c h =
    let s = spanning_tree-Spans root others edges tree c h in
    let nodes = root ∷ others in
    let (d, e, holds) = depth_paths-way edges s.root s.log nodes [] s.grown s.covers in
    let (loops, e', all, size) =
      loops_from-IsLoop edges s.root nodes s.log d 0 edges s.grown
        (λ v m. holds v ∙ ground (arith, m)) s.covers (Tail-all edges) c in
    (
      loops,
      bind_ok _ (λ paths. loops_from edges tree paths 0 edges) d loops
          (subst (λ t. depth_paths edges t nodes [] ≡ ok d) (sym s.is_tree) e)
          (subst (λ t. loops_from edges t d 0 edges ≡ ok loops) (sym s.is_tree) e'),
      all,
      omega (
        arith,
        size,
        chords-tree_edges_of edges s.root s.log s.grown,
        s.size,
        length-names s.root s.log,
      ),
    )
