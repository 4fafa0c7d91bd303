-- ===== src/Fluids/Network/Seed/Settled.antt =====
-- The whole seed of `_seed_continuity_respecting_flows` of python/feldspar/fluids/network.py.
use feldspar.Fluids.Network.Search.{elem-root, names, order_of, Growth}
use feldspar.Fluids.Network.Tree.Spans.{Spans}
use mathlib.Core.List.{reverse}
use feldspar.Prelude.{
  bind_step, ℕ, zero, suc, String, ◌≡◌, refl, sym, ap, subst, ◌∙◌, true, false, some, List, [], ◌∷◌,
  ◌++◌, inl, inr, ◌==◌, eq_iff, elem, All, arith, Bool-cases, ok, ◌>>=◌,
}
use feldspar.Prelude.Membership.{Within}
use feldspar.Prelude.Dict.{lookup-insert_ne, lookup-insert_self, Dict, lookup}
use feldspar.Prelude.Float.{FloatOps, ExactSums}
use feldspar.Fluids.Network.Edges.{Edge, Constants, is_unknown}
use feldspar.Fluids.Network.Ends.{index_ends-Holds, IsClosed}
use feldspar.Fluids.Network.Tree.{SpanningTree}
use feldspar.Fluids.Network.Tree.Grown.{tree_edges_of, Joins, IsGrown, tree_of, parent_edge_of}
use feldspar.Fluids.Network.Cycles.{Sign, plus, minus}
use feldspar.Fluids.Network.Seed.{
  root_of, incident_of, seed_chords, seed_from, check_root, seed_flows,
}
use feldspar.Fluids.Network.Seed.Balance.{
  get_elem?-shapes, entries_at-shapes, shapes, shape, entries_at,
}
use feldspar.Fluids.Network.Seed.Filling.{KeepsFixed}
use feldspar.Fluids.Network.Seed.Continuity.{Gives, Gives-bind, Settled}
use feldspar.Fluids.Network.Seed.Upwards.{
  seed_from-SeededFrom, SeededFrom, reverse-order_of, check_root-Settled, Knows, apart_of,
}

module _ {F : Type 0} ⦃o : FloatOps F⦄ (c : Constants F) where
  shapes-seed_chords :
      (t : List ℕ) (i : ℕ) (es : List (Edge F)) → shapes (seed_chords c t i es) ≡ shapes es
  unfolding seed_chords
  shapes-seed_chords t i [] = refl
  shapes-seed_chords t i (e ∷ es) = ground (arith, shapes-seed_chords t (suc i) es)

  seed_chords-KeepsFixed :
      (t : List ℕ) (i : ℕ) (es : List (Edge F)) → KeepsFixed es (seed_chords c t i es)
  unfolding seed_chords
  seed_chords-KeepsFixed t i [] j e at u = at
  seed_chords-KeepsFixed t i (d ∷ es) zero e at u =
      let same : d ≡ e = cc in
      let fixed : is_unknown d ≡ false = subst (λ z. is_unknown z ≡ false) (sym same) u in
      rw fixed at
  seed_chords-KeepsFixed t i (d ∷ es) (suc j) e at u = seed_chords-KeepsFixed t (suc i) es j e at u

  IsClosed-shapes :
      (nodes : List String) (es es' : List (Edge F))
      → shapes es ≡ shapes es'
      → IsClosed nodes es
      → IsClosed nodes es'
  IsClosed-shapes nodes [] [] h k = tt
  IsClosed-shapes nodes [] (e ∷ es) h k = absurd (cc)
  IsClosed-shapes nodes (e ∷ es) [] h k = tt
  IsClosed-shapes nodes (e ∷ es) (d ∷ ds) h k =
      (ground arith, IsClosed-shapes nodes es ds (ground arith) k.1)

-- The growth's parent edges.
parent_edges_of :
    {F : Type 0} (base : List (Edge F)) (root : String) (g : List (Growth ℕ))
    → IsGrown base root g
    → (d : List (String × ℕ))
    → ((v : String) → elem v (names root g) ≡ true → lookup v d ≡ lookup v (parent_edge_of g))
    → All (λ y. lookup y.node d ≡ some y.edge) g
parent_edges_of base root [] h d same = tt
parent_edges_of base root (y ∷ g) h d same = (
  same y.node (ground (arith, eq_iff y.node y.node))
      ∙ lookup-insert_self y.node y.edge (parent_edge_of g),
  parent_edges_of base root g h.3 d (λ v m.
      same v (ground arith)
      ∙ lookup-insert_ne y.node v y.edge (parent_edge_of g)
          (λ e. apart_of y.node v (names root g) h.0 m e)),
)

order_head :
    (root : String) (log : List (Growth ℕ))
    → (rest : List String) × (order_of root log ≡ root ∷ rest)
order_head root [] = ([], refl)
order_head root (y ∷ log) =
    let (rest, e) = order_head root log in (rest ++ y.node ∷ [], ap (λ r. r ++ y.node ∷ []) e)

root_of-tree_of :
    {F : Type 0} ⦃o : FloatOps F⦄ (c : Constants F) (root : String) (log : List (Growth ℕ))
    → root_of c (tree_of root log) ≡ ok root
unfolding root_of
root_of-tree_of c root log = let (rest, e) = order_head root log in rw e refl

module _ {F : Type 0} ⦃o : FloatOps F⦄ (x : ExactSums F o) (c : Constants F)
    (tol : o.le (o.abs o.zero) c.conservation_tol ≡ true) where
  Joins-shapes :
      (es : List (Edge F)) (i : ℕ) (p n : String) → Joins es i p n → Joins (shapes es) i p n
  Joins-shapes es i p n (e, at, h) = (shape e, get_elem?-shapes es i at, h)

  IsGrown-shapes :
      (es : List (Edge F)) (root : String) (g : List (Growth ℕ))
      → IsGrown es root g
      → IsGrown (shapes es) root g
  IsGrown-shapes es root [] h = tt
  IsGrown-shapes es root (y ∷ g) h =
      (h.0, h.1, Joins-shapes es y.edge y.parent y.node h.2, IsGrown-shapes es root g h.3)

  -- Edges of the same shape in which every node of the list balances.
  pub record IsSeeded (nodes : List String) (edges es : List (Edge F)) : Type 0 where
    pub shaped : shapes es ≡ shapes edges
    pub fixed : KeepsFixed edges es
    pub settled : (v : String) → elem v nodes ≡ true → Settled x c tol (shapes edges) es v

  module _ (nodes : List String) (edges : List (Edge F)) (root : String) (log : List (Growth ℕ))
      (grown : IsGrown edges root log) (covers : Within nodes (names root log))
      (inside : Within (names root log) nodes) where
    abbrev chorded : List (Edge F)
    chorded = seed_chords c (tree_edges_of log) 0 edges

    abbrev At : Dict (List (ℕ × Sign)) → Type 0
    At d = (v : String) → elem v nodes ≡ true → lookup v d ≡ some (entries_at v 0 (shapes edges))

    knows :
        (d : Dict (List (ℕ × Sign)))
        → At d
        → (g : List (Growth ℕ)) → Within (names root g) nodes
        → All (λ y. lookup y.node (parent_edge_of log) ≡ some y.edge) g
        → Knows x c tol (shapes edges) root d (tree_of root log) g
    knows d at [] w h = tt
    knows d at (y ∷ g) w h = (
      (h.0, at y.node (w y.node (ground (arith, eq_iff y.node y.node)))),
      knows d at g (λ k m. w k (ground arith)) h.1,
    )

    IsSeeded-of :
        (es es' es2 : List (Edge F)) (d : Dict (List (ℕ × Sign)))
        → KeepsFixed edges es
        → SeededFrom x c tol (shapes edges) root d (tree_of root log) log es es'
        → es2 ≡ es'
        → Settled x c tol (shapes edges) es' root
        → IsSeeded nodes edges es2
    IsSeeded-of es es' es2 d k s same r = subst (IsSeeded nodes edges) (sym same) (record {
      shaped = s.shaped;
      fixed = λ i e at u. s.fixed i e (k i e at u) u;
      settled = λ v m. elim (Bool-cases (v == root)) [
        | inl isroot ↦ subst (Settled x c tol (shapes edges) es') (sym ((eq_iff v root).0 isroot)) r
        | inr other ↦ s.settled v (covers v m) (λ e. ground (arith, eq_iff v root))
      ];
    })

    seed_rest :
        (d : Dict (List (ℕ × Sign)))
        → At d
        → Gives
            (seed_from c d (tree_of root log) root (reverse (order_of root log)) chorded
              >>= λ seeded. check_root c d root seeded)
            (IsSeeded nodes edges)
    seed_rest d at =
        let shaped = shapes-seed_chords c (tree_edges_of log) 0 edges in
        let kept = seed_chords-KeepsFixed c (tree_edges_of log) 0 edges in
        let known =
          knows d at log inside
            (parent_edges_of edges root log grown (parent_edge_of log) (λ v m. refl)) in
        Gives-bind (seed_from c d (tree_of root log) root (reverse (order_of root log)) chorded)
          (λ seeded. check_root c d root seeded)
          (SeededFrom x c tol (shapes edges) root d (tree_of root log) log chorded)
          (IsSeeded nodes edges)
          (subst
            (λ ns.
              Gives (seed_from c d (tree_of root log) root ns chorded)
                (SeededFrom x c tol (shapes edges) root d (tree_of root log) log chorded))
            (sym (reverse-order_of root log))
            (seed_from-SeededFrom x c tol (shapes edges) root d (tree_of root log) log chorded
              (IsGrown-shapes edges root log grown) known shaped))
          (λ es' s.
            elim (check_root-Settled x c tol (shapes edges) root d (tree_of root log) es' s.shaped
              (at root (inside root (elem-root root log)))) [
                | inl refused ↦ inl refused
                | inr (es2, e, (same, r)) ↦
                    inr (es2, e, IsSeeded-of chorded es' es2 d kept s same r)
              ])

    -- The seed is refused, or it balances every node with two or more edge ends.
    seed_flows-tree_of :
        IsClosed nodes edges
        → Gives (seed_flows c nodes edges (tree_of root log)) (IsSeeded nodes edges)
    unfolding seed_flows incident_of
    seed_flows-tree_of closed =
        let shaped = shapes-seed_chords c (tree_edges_of log) 0 edges in
        let (d, e, holds) =
          index_ends-Holds {F = F} {X = ℕ × Sign} (λ i y. (i, minus)) (λ i y. (i, plus)) nodes
            chorded (IsClosed-shapes c nodes edges chorded (sym shaped) closed) in
        let at : At d = λ v m.
          holds v
          ∙ (rw m (ap some (sym (entries_at-shapes v 0 chorded) ∙ ap (entries_at v 0) shaped))) in
        subst (λ r. Gives r (IsSeeded nodes edges))
          (sym (bind_step _ _ d e ∙ bind_step _ _ root (root_of-tree_of c root log)))
          (seed_rest d at)

  pub seed_flows-IsSeeded :
      (nodes : List String) (edges : List (Edge F)) (tree : SpanningTree)
      → IsClosed nodes edges
      → Spans nodes edges tree
      → Gives (seed_flows c nodes edges tree) (IsSeeded nodes edges)
  seed_flows-IsSeeded nodes edges tree closed s =
      subst (λ t. Gives (seed_flows c nodes edges t) (IsSeeded nodes edges)) (sym s.is_tree)
        (seed_flows-tree_of nodes edges s.root s.log s.grown s.covers s.inside closed)
