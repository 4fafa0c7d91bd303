-- ===== src/Fluids/Network/Solve/Dangling.antt =====
-- A flow network with an edge that ends at no node, in `solve_flownet_bytes` of
-- python/feldspar/fluids/network.py.
use feldspar.Prelude.{
  ℕ, suc, String, ◌≡◌, refl, ◌∙◌, Bool, true, false, ◌&&◌, List, [], ◌∷◌, ◌++◌, ◌==◌, elem, all,
  arith, Bool-cases, if◌then◌else◌, inl, inr, Result, ok, err, ◌>>=◌, bind_step,
}
use feldspar.Prelude.Dict.{Dict, lookup}
use feldspar.Prelude.Float.{FloatOps}
use feldspar.Fluids.Network.Edges.{
  Edge, Stop, key_error, Constants, FlownetPayload, edges_of, get_item,
}
use feldspar.Fluids.Network.Losses.{Formulas}
use feldspar.Fluids.Network.Ends.{
  append_at, index_from, index_ends, blank, Holds, append_at-Holds, lookup-blank,
}
use feldspar.Fluids.Network.Tree.{spanning_tree, search_root}
use feldspar.Fluids.Network.Solve.{
  catch_unsupported, solve_edges, hardy_cross_solve, solved_network, parse_flownet,
  solve_flownet_bytes,
}

-- Both ends of every edge are nodes.
abbrev pub ends_are_nodes : {F : Type 0} → List String → List (Edge F) → Bool
ends_are_nodes nodes edges = all (λ e. elem e.a nodes && elem e.b nodes) edges

-- A `KeyError` of a text that is no node.
abbrev pub RaisesKey : {A F : Type 0} → List String → Result A (Stop F) → Type 0
RaisesKey nodes r = (k : String) × (elem k nodes ≡ false) × (r ≡ err (key_error k))

RaisesKey-bind :
    {A B F : Type 0} (nodes : List String) (m : Result A (Stop F)) (f : A → Result B (Stop F))
    → RaisesKey nodes m
    → RaisesKey nodes (m >>= f)
RaisesKey-bind nodes m f (k, out, e) = (k, out, rw e refl)

append_at-RaisesKey :
    {F X : Type 0} (nodes : List String) (k : String) (x : X) (at : String → List X)
    (d : Dict (List X))
    → Holds nodes at d
    → elem k nodes ≡ false
    → RaisesKey {F = F} nodes (append_at k x d)
unfolding append_at get_item
append_at-RaisesKey nodes k x at d h out = (k, out, ground (arith, h k))

module _ {F X : Type 0} (at_a at_b : ℕ → Edge F → X) (nodes : List String) where
  still_bad :
      (a b : String) (es : List (Edge F))
      → elem a nodes ≡ true
      → elem b nodes ≡ true
      → ((elem a nodes && elem b nodes) && ends_are_nodes nodes es) ≡ false
      → ends_are_nodes nodes es ≡ false
  still_bad a b es ha hb h = ground arith

  index_from-RaisesKey :
      (i : ℕ) (es : List (Edge F)) (at : String → List X) (d : Dict (List X))
      → Holds nodes at d
      → ends_are_nodes nodes es ≡ false
      → RaisesKey nodes (index_from at_a at_b i es d)
  unfolding index_from
  index_from-RaisesKey i [] at d h bad = cc
  index_from-RaisesKey i (e ∷ es) at d h bad = elim (Bool-cases (elem e.a nodes)) [
    | inr out ↦
        RaisesKey-bind nodes (append_at e.a (at_a i e) d) _
          (append_at-RaisesKey nodes e.a (at_a i e) at d h out)
    | inl has_a ↦
        let (d1, e1, h1) = append_at-Holds {F = F} nodes e.a (at_a i e) at d h has_a in
        let first = bind_step _ _ d1 e1 in
        let at1 = λ (v : String). at v ++ (if e.a == v then at_a i e ∷ [] else []) in
        elim (Bool-cases (elem e.b nodes)) [
          | inr out ↦
              let (k, is_out, eq) =
                RaisesKey-bind nodes (append_at {F = F} e.b (at_b i e) d1)
                  (λ d2. index_from at_a at_b (suc i) es d2)
                  (append_at-RaisesKey nodes e.b (at_b i e) at1 d1 h1 out) in
              (k, is_out, first ∙ eq)
          | inl has_b ↦
              let (d2, e2, h2) = append_at-Holds {F = F} nodes e.b (at_b i e) at1 d1 h1 has_b in
              let later = still_bad e.a e.b es has_a has_b bad in
              let (k, is_out, eq) =
                index_from-RaisesKey (suc i) es
                  (λ v. at1 v ++ (if e.b == v then at_b i e ∷ [] else [])) d2 h2 later in
              (k, is_out, first ∙ bind_step _ _ d2 e2 ∙ eq)
        ]
  ]

  index_ends-RaisesKey :
      (es : List (Edge F))
      → ends_are_nodes nodes es ≡ false
      → RaisesKey nodes (index_ends at_a at_b nodes es)
  unfolding index_ends lookup
  index_ends-RaisesKey es bad =
      index_from-RaisesKey 0 es (λ _. []) (blank nodes []) (λ v. lookup-blank v nodes []) bad

spanning_tree-RaisesKey :
    {F : Type 0} (nodes : List String) (edges : List (Edge F))
    → ends_are_nodes nodes edges ≡ false
    → RaisesKey nodes (spanning_tree nodes edges)
unfolding spanning_tree
spanning_tree-RaisesKey {F} nodes edges bad =
    RaisesKey-bind nodes (index_ends (λ i (e : Edge F). (e.b, i)) (λ i e. (e.a, i)) nodes edges)
      (λ adjacency. search_root adjacency nodes)
      (index_ends-RaisesKey (λ i e. (e.b, i)) (λ i e. (e.a, i)) nodes edges bad)

catch_unsupported-ok :
    {A F : Type 0} (r : Result A (Stop F)) {a : A} → r ≡ ok a → catch_unsupported r ≡ ok a
unfolding catch_unsupported
catch_unsupported-ok r h = rw h refl

parse_flownet-ok :
    {B F : Type 0} (parse : B → Result (FlownetPayload F) String) (bytes : B)
    {payload : FlownetPayload F}
    → parse bytes ≡ ok payload
    → parse_flownet parse bytes ≡ ok payload
unfolding parse_flownet
parse_flownet-ok parse bytes h = rw (h, parse_flownet) refl

module _ {F : Type 0} ⦃o : FloatOps F⦄ (c : Constants F) (g : Formulas F) where
  solve_edges-RaisesKey :
      (nodes : List String) (edges : List (Edge F))
      → ends_are_nodes nodes edges ≡ false
      → RaisesKey nodes (solve_edges c g nodes edges)
  unfolding solve_edges
  solve_edges-RaisesKey nodes edges bad =
      RaisesKey-bind nodes (spanning_tree nodes edges) _ (spanning_tree-RaisesKey nodes edges bad)

  hardy_cross_solve-RaisesKey :
      (payload : FlownetPayload F) (edges : List (Edge F))
      → edges_of c payload.edges ≡ ok edges
      → ends_are_nodes payload.nodes edges ≡ false
      → RaisesKey payload.nodes (hardy_cross_solve c g payload)
  unfolding hardy_cross_solve
  hardy_cross_solve-RaisesKey payload edges decoded bad =
      let (k, out, eq) = solve_edges-RaisesKey payload.nodes edges bad in
      (k, out, bind_step _ _ edges (catch_unsupported-ok (edges_of c payload.edges) decoded) ∙ eq)

  -- For every parser, if the bytes parse, each edge decodes, and some edge ends at a text that is
  -- not a listed node, then the solve raises a KeyError of a text that is no node.
  pub solve_flownet_bytes-RaisesKey :
      {B : Type 0} (parse : B → Result (FlownetPayload F) String) (bytes : B)
      (payload : FlownetPayload F) (edges : List (Edge F))
      → parse bytes ≡ ok payload
      → edges_of c payload.edges ≡ ok edges
      → ends_are_nodes payload.nodes edges ≡ false
      → RaisesKey payload.nodes (solve_flownet_bytes parse c g bytes)
  unfolding solve_flownet_bytes
  solve_flownet_bytes-RaisesKey parse bytes payload edges parsed decoded bad =
      let (k, out, eq) =
        RaisesKey-bind payload.nodes (hardy_cross_solve c g payload)
          (λ es. solved_network payload es)
          (hardy_cross_solve-RaisesKey payload edges decoded bad) in
      (k, out, bind_step _ _ payload (parse_flownet-ok parse bytes parsed) ∙ eq)
