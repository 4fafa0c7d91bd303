-- ===== src/Fluids/Network/Cycles/Rooted.antt =====
-- The paths to the root of a spanning tree of python/feldspar/fluids/network.py, by its growth.
use feldspar.Fluids.Network.Search.{elem-root, names, Growth}
use feldspar.Prelude.{
  ℕ, zero, suc, ◌<◌, String, ◌≡◌, refl, sym, ap, subst, ◌∙◌, true, false, none, some, List, [], ◌∷◌,
  ◌⊎◌, inl, inr, ◌==◌, eq_iff, elem, length, arith, Bool-cases, Option-cases, if◌then◌else◌,
  length-append, ok,
}
use feldspar.Prelude.Membership.{Within}
use feldspar.Prelude.Dict.{insert_new, Dict, lookup, insert, lookup-insert}
use feldspar.Fluids.Network.Edges.{Edge, get_item}
use feldspar.Fluids.Network.Ends.{edge_at}
use feldspar.Fluids.Network.Tree.Grown.{IsGrown, tree_of, parent_node_of, parent_edge_of}
use feldspar.Fluids.Network.Cycles.{Sign, path_to_root, depth_path, depth_paths}
use feldspar.Fluids.Network.Cycles.Circulation.{way_old, way}

module _ {F : Type 0} (edges : List (Edge F)) (root : String) where
  -- Only nodes of the growth have parents, which are nodes of it too.
  parent_inside :
      (log : List (Growth ℕ)) (n p : String)
      → IsGrown edges root log
      → lookup n (parent_node_of log) ≡ some p
      → elem p (names root log) ≡ true
  unfolding lookup
  parent_inside [] n p g h = cc
  parent_inside (x ∷ log) n p g h =
      ground (
        arith,
        lookup-insert x.node n x.parent (parent_node_of log),
        parent_inside log n p g.3,
        g.1,
      )

  no_parent :
      (log : List (Growth ℕ)) (n : String)
      → IsGrown edges root log
      → (elem n (names root log) ≡ false) ⊎ (n ≡ root)
      → lookup n (parent_node_of log) ≡ none
  unfolding lookup
  no_parent [] n g h = refl
  no_parent (x ∷ log) n g h = ground (
    arith,
    lookup-insert x.node n x.parent (parent_node_of log),
    no_parent log n g.3,
    eq_iff x.node n,
    elem-root root log,
    g.0,
  )

  -- A new node leaves the paths of the others as they are.
  path_to_root-grow :
      (fuel : ℕ) (x : Growth ℕ) (log : List (Growth ℕ)) (n : String)
      → IsGrown edges root (x ∷ log)
      → elem n (names root log) ≡ true
      → path_to_root edges (tree_of root (x ∷ log)) fuel n
        ≡ path_to_root edges (tree_of root log) fuel n
  unfolding path_to_root get_item
  path_to_root-grow zero x log n g h = refl
  path_to_root-grow (suc fuel) x log n g h = elim (Option-cases (lookup n (parent_node_of log))) [
    | inl e ↦
        ground (arith, lookup-insert x.node n x.parent (parent_node_of log), eq_iff x.node n, g.0)
    | inr (p, e) ↦ ground (
      arith,
      lookup-insert x.node n x.parent (parent_node_of log),
      eq_iff x.node n,
      g.0,
      lookup-insert x.node n x.edge (parent_edge_of log),
      path_to_root-grow fuel x log p g (parent_inside log n p g.3 e),
    )
  ]

  path_to_root-new :
      (fuel : ℕ) (x : Growth ℕ) (log : List (Growth ℕ))
      → IsGrown edges root (x ∷ log)
      → path_to_root edges (tree_of root log) fuel x.parent ≡ ok (way edges root log x.parent)
      → path_to_root edges (tree_of root (x ∷ log)) (suc fuel) x.node
        ≡ ok (way edges root (x ∷ log) x.node)
  unfolding path_to_root get_item edge_at
  path_to_root-new fuel x log g h = ground (
    arith,
    lookup-insert x.node x.node x.parent (parent_node_of log),
    eq_iff x.node x.node,
    lookup-insert x.node x.node x.edge (parent_edge_of log),
    path_to_root-grow fuel x log x.parent g g.1,
  )

  pub path_to_root-way :
      (fuel : ℕ) (log : List (Growth ℕ)) (n : String)
      → IsGrown edges root log
      → elem n (names root log) ≡ true
      → length log < fuel
      → path_to_root edges (tree_of root log) fuel n ≡ ok (way edges root log n)
  unfolding path_to_root
  path_to_root-way zero log n g h m = absurd (omega arith)
  path_to_root-way (suc fuel) [] n g h m = ground (arith, no_parent [] n g, eq_iff root n)
  path_to_root-way (suc fuel) (x ∷ log) n g h m = elim (Bool-cases (x.node == n)) [
    | inl same ↦
        subst
          (λ k.
            path_to_root edges (tree_of root (x ∷ log)) (suc fuel) k
            ≡ ok (way edges root (x ∷ log) k))
          ((eq_iff x.node n).0 same)
          (path_to_root-new fuel x log g (path_to_root-way fuel log x.parent g.3 g.1 (omega arith)))
    | inr other ↦
        path_to_root-grow (suc fuel) x log n g (ground arith)
        ∙ path_to_root-way (suc fuel) log n g.3 (ground arith) (omega arith)
        ∙ ap ok (sym (way_old edges root x log n other))
  ]

  length-parent_node_of :
      (log : List (Growth ℕ)) → IsGrown edges root log → length (parent_node_of log) ≡ length log
  length-parent_node_of [] g = refl
  length-parent_node_of (x ∷ log) g =
      ap length
        (insert_new x.node x.parent (parent_node_of log) (no_parent log x.node g.3 (inl g.0)))
      ∙ omega (
        arith,
        length-append (parent_node_of log) ((x.node, x.parent) ∷ []),
        length-parent_node_of log g.3,
      )

  depth_path-way :
      (log : List (Growth ℕ)) (n : String)
      → IsGrown edges root log
      → elem n (names root log) ≡ true
      → depth_path edges (tree_of root log) n ≡ ok (way edges root log n)
  unfolding depth_path
  depth_path-way log n g h =
      path_to_root-way (suc (length (parent_node_of log))) log n g h
        (omega (arith, length-parent_node_of log g))

  pub depth_paths-way :
      (log : List (Growth ℕ)) (ns : List String) (d : Dict (List (ℕ × Sign)))
      → IsGrown edges root log
      → Within ns (names root log)
      → (d' : Dict (List (ℕ × Sign))) × (depth_paths edges (tree_of root log) ns d ≡ ok d')
        × ((v : String)
            → lookup v d' ≡ (if elem v ns then some (way edges root log v) else lookup v d))
  unfolding depth_paths
  depth_paths-way log [] d g w = (d, refl, λ v. refl)
  depth_paths-way log (n ∷ ns) d g w =
      let path = way edges root log n in
      let (d', e, h) = depth_paths-way log ns (insert n path d) g (λ k m. w k (ground arith)) in
      (
        d',
        rw (depth_path-way log n g (w n (ground (arith, eq_iff n n)))) e,
        λ v. h v ∙ ground (arith, lookup-insert n v path d, eq_iff n v),
      )
