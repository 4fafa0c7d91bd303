-- ===== src/Fluids/Network/Seed.antt =====
-- `_seed_continuity_respecting_flows` of python/feldspar/fluids/network.py. The edges whose flows
-- Python writes in place are passed on. `Balance` says how a written flow changes the sum at a node,
-- `Filling` and `Continuity` are about one edge and one node, `Upwards` about the loop over the nodes,
-- `Settled` about the whole.
pub mod Balance
pub mod Filling
pub mod Continuity
pub mod Settled
pub mod Upwards
use feldspar.Prelude.{
  ℕ, zero, suc, String, Bool, true, false, not, ◌&&◌, Option, none, some, List, [], ◌∷◌, Result, ok,
  err, ◌>>=◌, ◌==◌, keep, length, ltb, leb, if◌then◌else◌,
}
use mathlib.Core.List.{reverse}
use feldspar.Prelude.Dict.{Dict}
use feldspar.Prelude.Float.{FloatOps, lt}
use feldspar.Fluids.Network.Edges.{Edge, Stop, Constants, is_unknown, get_item, index_error}
use feldspar.Fluids.Network.Ends.{edge_at, index_ends}
use feldspar.Fluids.Network.Tree.{SpanningTree, refuse}
use feldspar.Fluids.Network.Cycles.{Sign, plus, minus, same_index, has_edge}

-- `edges[i].flow = x`
unfoldable pub set_flow : {F : Type 0} → ℕ → F → List (Edge F) → List (Edge F)
set_flow i x [] = []
set_flow zero x (e ∷ es) = record e { flow = x } ∷ es
set_flow (suc i) x (e ∷ es) = e ∷ set_flow i x es

-- `incident`: the edges at each node, -1 at the end `a` and +1 at the end `b`.
unfoldable pub incident_of :
    {F : Type 0} → List String → List (Edge F) → Result (Dict (List (ℕ × Sign))) (Stop F)
unfolding index_ends
incident_of nodes edges = index_ends (λ i e. (i, minus)) (λ i e. (i, plus)) nodes edges

module _ {F : Type 0} ⦃o : FloatOps F⦄ where
  -- `sign * x`
  abbrev pub signed : Sign → F → F
  signed plus x = x
  signed minus x = o.neg x

  -- `sum(sign * edges[idx].flow for idx, sign in entries)`
  unfoldable pub flow_sum : List (Edge F) → F → List (ℕ × Sign) → Result F (Stop F)
  unfolding edge_at
  flow_sum edges acc [] = ok acc
  flow_sum edges acc ((i, s) ∷ entries) = do
    e ← edge_at edges i
    flow_sum edges (o.add acc (signed s e.flow)) entries

  module _ (c : Constants F) where
    -- The seed of the unknown flows outside the tree.
    unfoldable pub seed_chords : List ℕ → ℕ → List (Edge F) → List (Edge F)
    unfolding is_unknown
    seed_chords tree_edges i [] = []
    seed_chords tree_edges i (e ∷ es) =
        (if is_unknown e && not (has_edge i tree_edges)
          then record e { flow = c.chord_seed }
          else e)
        ∷ seed_chords tree_edges (suc i) es

    -- `-balance * sign_here`
    abbrev pub required_flow : String → Edge F → F → F
    required_flow node e balance = signed (if e.a == node then minus else plus) (o.neg balance)

    -- `abs(x) > _CONSERVATION_TOL`
    abbrev pub exceeds : F → Bool
    exceeds x = lt c.conservation_tol (o.abs x)

    -- What the balance of an inner node asks of the edge to its parent.
    unfoldable pub balance_edge : ℕ → Edge F → F → List (Edge F) → Result (List (Edge F)) (Stop F)
    unfolding is_unknown set_flow refuse
    balance_edge i e required edges =
        if is_unknown e
        then ok (set_flow i required edges)
        else if exceeds (o.sub required e.flow)
        then refuse "overconstrained_demand"
        else ok edges

    unfoldable pub seed_node :
        Dict (List (ℕ × Sign))
        → SpanningTree
        → String
        → List (Edge F)
        → Result (List (Edge F)) (Stop F)
    unfolding get_item edge_at is_unknown set_flow flow_sum balance_edge
    seed_node incident tree node edges = do
      i ← get_item node tree.parent_edge
      e ← edge_at edges i
      entries ← get_item node incident
      if leb (length entries) 1 && leb 1 (length entries)
          then ok (if is_unknown e then set_flow i o.zero edges else edges)
          else do
            balance ← flow_sum edges o.zero (keep (λ step. not (same_index step.0 i)) entries)
            balance_edge i e (required_flow node e balance) edges

    -- The loop over the nodes, from the leaves to the root.
    unfoldable pub seed_from :
        Dict (List (ℕ × Sign))
        → SpanningTree
        → String
        → List String
        → List (Edge F)
        → Result (List (Edge F)) (Stop F)
    unfolding seed_node
    seed_from incident tree root [] edges = ok edges
    seed_from incident tree root (node ∷ nodes) edges = elim (node == root) [
      | true ↦ seed_from incident tree root nodes edges
      | false ↦
          seed_node incident tree node edges >>= λ edges'. seed_from incident tree root nodes edges'
    ]

    -- The balance of the whole network, at the root.
    unfoldable pub check_root :
        Dict (List (ℕ × Sign)) → String → List (Edge F) → Result (List (Edge F)) (Stop F)
    unfolding get_item flow_sum refuse
    check_root incident root edges = do
      entries ← get_item root incident
      if leb (length entries) 1 then ok edges else do
        balance ← flow_sum edges o.zero entries
        if exceeds balance then refuse "unbalanced_demand" else ok edges

    -- `tree.order[0]`
    unfoldable pub root_of : SpanningTree → Result String (Stop F)
    root_of tree = elim tree.order [ [] ↦ err index_error | root ∷ _ ↦ ok root ]

    unfoldable pub seed_flows :
        List String → List (Edge F) → SpanningTree → Result (List (Edge F)) (Stop F)
    unfolding incident_of seed_chords root_of seed_from check_root
    seed_flows nodes edges tree = do
      incident ← incident_of nodes (seed_chords tree.tree_edges 0 edges)
      root ← root_of tree
      seeded ←
          seed_from incident tree root (reverse tree.order) (seed_chords tree.tree_edges 0 edges)
      check_root incident root seeded
