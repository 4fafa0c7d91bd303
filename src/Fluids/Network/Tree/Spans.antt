-- ===== src/Fluids/Network/Tree/Spans.antt =====
-- When `_spanning_tree` of python/feldspar/fluids/network.py gives a tree, and what its tree is.
use feldspar.Fluids.Network.Search.{names-IsNodup, elem-root, length-order_of, names, Growth}
use feldspar.Prelude.{
  ok_inj, sym, ℕ, zero, suc, ◌+◌, ◌<◌, ◌≤◌, String, ◌≡◌, refl, subst, ◌∙◌, true, some, List, [],
  ◌∷◌, ◌⊎◌, inl, inr, ◌==◌, eq_iff, elem, length, All, arith, Bool-cases, if◌then◌else◌, ok,
}
use native.Mathlib.Decide.{dec_lt}
use feldspar.Prelude.Membership.{
  All-append-right, IsNodup-of_length, Within-flip, All-append-left, Within, IsNodup, length-le,
}
use feldspar.Fluids.Network.Edges.{Edge}
use feldspar.Fluids.Network.Ends.{index_ends-Holds, IsClosed, get_elem?, ends}
use feldspar.Fluids.Network.Tree.{
  refuse, SpanningTree, start_search, finish_tree, search_root, spanning_tree,
}
use feldspar.Fluids.Network.Tree.Grown.{Joins, IsGrown, search_of, tree_of}
use feldspar.Fluids.Network.Tree.Finished.{
  along, here, Reach, neighbours, Finished, search_from-Finished,
}

-- The network's first node, and a tree that reaches every node from it.
pub record Spans {F : Type 0} (nodes : List String) (edges : List (Edge F)) (tree : SpanningTree)
    : Type 0 where
  pub root : String
  pub log : List (Growth ℕ)
  pub is_tree : tree ≡ tree_of root log
  pub grown : IsGrown edges root log
  pub covers : Within nodes (names root log)
  pub inside : Within (names root log) nodes
  pub size : length (names root log) ≡ length nodes

-- No node twice, and a walk from the first node to each.
pub record IsConnected {F : Type 0} (nodes : List String) (edges : List (Edge F)) (root : String)
    : Type 0 where
  pub distinct : IsNodup nodes
  pub reached : (v : String) → elem v nodes ≡ true → Reach edges root v

module _ {F : Type 0} (root : String) (others : List String) (edges : List (Edge F)) where
  abbrev nodes : List String
  nodes = root ∷ others

  -- The search of a closed network ends within its fuel.
  search_ends :
      IsClosed nodes edges
      → (log : List (Growth ℕ)) × (spanning_tree nodes edges
          ≡ finish_tree {F = F} nodes (search_of root log []))
        × Finished nodes edges root log
  unfolding spanning_tree search_root start_search
  search_ends c =
      let (d, e, holds) =
        index_ends-Holds {F = F} {X = String × ℕ} (λ i x. (x.b, i)) (λ i x. (x.a, i)) nodes edges
          c in
      let (log, e', f) =
        search_from-Finished nodes edges root c d holds (suc (length others)) [] (root ∷ [])
          (record { grown = tt; within = λ j h. ground arith; queued = λ j h. h }) (λ u h. inl h)
          (omega arith) in
      (log, rw (e, e'), f)

-- What holds of the entries of a node holds of its neighbour along each edge.
entry_of :
    {F : Type 0} (P : String × ℕ → Type 0) (v : String) (k : ℕ) (es : List (Edge F))
    → All P (ends (λ i e. (e.b, i)) (λ i e. (e.a, i)) v k es)
    → (j : ℕ) (e : Edge F) → get_elem? es j ≡ some e
    → (e.a ≡ v → P (e.b, k + j)) × (e.b ≡ v → P (e.a, k + j))
entry_of P v k [] h j e g = cc
entry_of {F} P v k (x ∷ es) h zero e g =
    let same : x ≡ e = cc in
    let first = All-append-left P (if x.a == v then (x.b, k) ∷ [] else []) _ h in
    let rest = All-append-right P (if x.a == v then (x.b, k) ∷ [] else []) _ h in
    let second = All-append-left P (if x.b == v then (x.a, k) ∷ [] else []) _ rest in
    subst (λ (y : Edge F). (y.a ≡ v → P (y.b, k + 0)) × (y.b ≡ v → P (y.a, k + 0))) same
      (
        λ p. subst (λ m. P (x.b, m)) (omega arith) (rw ((eq_iff x.a v).1 p) at first).0,
        λ p. subst (λ m. P (x.a, m)) (omega arith) (rw ((eq_iff x.b v).1 p) at second).0,
      )
entry_of P v k (x ∷ es) h (suc j) e g =
    let rest = All-append-right P (if x.a == v then (x.b, k) ∷ [] else []) _ h in
    let later = All-append-right P (if x.b == v then (x.a, k) ∷ [] else []) _ rest in
    subst (λ m. (e.a ≡ v → P (e.b, m)) × (e.b ≡ v → P (e.a, m))) (omega arith)
      (entry_of P v (suc k) es later j e g)

module _ {F : Type 0} (root : String) (others : List String) (edges : List (Edge F)) where
  neighbour_of :
      (P : String × ℕ → Type 0) (v w : String) (i : ℕ)
      → All P (neighbours edges v)
      → Joins edges i v w
      → P (w, 0 + i)
  neighbour_of P v w i h (e, at, inl (from, to)) =
      subst (λ u. P (u, 0 + i)) to ((entry_of P v 0 edges h i e at).0 from)
  neighbour_of P v w i h (e, at, inr (to, from)) =
      subst (λ u. P (u, 0 + i)) to ((entry_of P v 0 edges h i e at).1 from)

  Reach-names :
      (log : List (Growth ℕ))
      → Finished (root ∷ others) edges root log
      → {v : String} → Reach edges root v
      → elem v (names root log) ≡ true
  Reach-names log f here = elem-root root log
  Reach-names log f (along {v} {w} i r j) =
      neighbour_of (λ entry. elem entry.0 (names root log) ≡ true) v w i
        (f.explored v (Reach-names log f r)) j

  names-Reach :
      (log : List (Growth ℕ))
      → IsGrown edges root log
      → (v : String) → elem v (names root log) ≡ true
      → Reach edges root v
  names-Reach [] g v h = subst (Reach edges root) (ground (arith, eq_iff root v)) here
  names-Reach (x ∷ log) g v h = elim (Bool-cases (x.node == v)) [
    | inl same ↦
        subst (Reach edges root) ((eq_iff x.node v).0 same)
          (along x.edge (names-Reach log g.3 x.parent g.1) g.2)
    | inr other ↦ names-Reach log g.3 v (ground arith)
  ]

  full_tree :
      (log : List (Growth ℕ))
      → Finished (root ∷ others) edges root log
      → length (root ∷ others) ≤ length (names root log)
      → Spans (root ∷ others) edges (tree_of root log) × IsConnected (root ∷ others) edges root
  full_tree log f size =
      let distinct = names-IsNodup (Joins edges) root log f.sound.grown in
      let covers = Within-flip (names root log) (root ∷ others) distinct f.sound.within size in
      (
        record {
          root = root;
          log = log;
          is_tree = refl;
          grown = f.sound.grown;
          covers = covers;
          inside = f.sound.within;
          size = omega (arith, length-le (names root log) (root ∷ others) distinct f.sound.within);
        },
        record {
          distinct =
              IsNodup-of_length (names root log) (root ∷ others) distinct f.sound.within size;
          reached = λ v m. names-Reach log f.sound.grown v (covers v m);
        },
      )

  size_of_connected :
      (log : List (Growth ℕ))
      → Finished (root ∷ others) edges root log
      → IsConnected (root ∷ others) edges root
      → length (root ∷ others) ≤ length (names root log)
  size_of_connected log f c =
      length-le (root ∷ others) (names root log) c.distinct
        (λ v m. Reach-names log f (c.reached v m))

  finish_tree-full :
      (log : List (Growth ℕ))
      → length (root ∷ others) ≤ length (names root log)
      → length (names root log) ≤ length (root ∷ others)
      → finish_tree {F = F} (root ∷ others) (search_of root log []) ≡ ok (tree_of root log)
  unfolding finish_tree
  finish_tree-full log h g = ground (arith, length-order_of root log)

  finish_tree-short :
      (log : List (Growth ℕ))
      → length (names root log) < length (root ∷ others)
      → finish_tree {F = F} (root ∷ others) (search_of root log []) ≡ refuse "disconnected_network"
  unfolding finish_tree
  finish_tree-short log h = ground (arith, length-order_of root log)

  -- For a network with a node, whose edges all end at its nodes, the search ends within its fuel in
  -- one of two ways: with a tree that spans the network, and then no node is listed twice and a
  -- walk leads from the first node to each; or with the refusal of a disconnected network, and then
  -- that is not so.
  pub spanning_tree-IsConnected :
      IsClosed (root ∷ others) edges
      → ((tree : SpanningTree) × (spanning_tree (root ∷ others) edges ≡ ok tree)
          × Spans (root ∷ others) edges tree
          × IsConnected (root ∷ others) edges root)
        ⊎ ((spanning_tree (root ∷ others) edges ≡ refuse "disconnected_network")
            × ¬ IsConnected (root ∷ others) edges root)
  spanning_tree-IsConnected c =
      let (log, e, f) = search_ends root others edges c in
      let most =
        length-le (names root log) (root ∷ others)
          (names-IsNodup (Joins edges) root log f.sound.grown) f.sound.within in
      elim (dec_lt (length (names root log)) (length (root ∷ others))) [
        | yes short ↦ inr (
          e ∙ finish_tree-short log short,
          λ connected. omega (arith, size_of_connected log f connected),
        )
        | no long ↦
            let (spans, connected) = full_tree log f (omega arith) in
            inl (tree_of root log, e ∙ finish_tree-full log (omega arith) most, spans, connected)
      ]

refused : {A F : Type 0} (feature : String) (a : A) → refuse {F = F} feature ≡ ok a → ⊥
unfolding refuse
refused feature a h = cc

-- A tree that the search gives spans the network.
pub spanning_tree-Spans :
    {F : Type 0} (root : String) (others : List String) (edges : List (Edge F))
    (tree : SpanningTree)
    → IsClosed (root ∷ others) edges
    → spanning_tree (root ∷ others) edges ≡ ok tree
    → Spans (root ∷ others) edges tree
spanning_tree-Spans {F} root others edges tree c h =
    elim (spanning_tree-IsConnected root others edges c) [
      | inl (t, e, spans, _) ↦ subst (Spans (root ∷ others) edges) (ok_inj e h) spans
      | inr (e, _) ↦ absurd (refused {F = F} "disconnected_network" tree (sym e ∙ h))
    ]
