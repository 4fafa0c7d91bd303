-- ===== src/Fluids/Network/Cycles.antt =====
-- `_build_cycle_basis` of python/feldspar/fluids/network.py: one loop for each edge that is not in the
-- spanning tree. `Circulation` is about steps and paths to the root, `Closing` about a chord and the
-- paths from its ends, `Rooted` about the paths to the root, `Chords` about the number of edges outside
-- the tree, `Basis` about all loops.
pub mod Circulation
pub mod Closing
pub mod Rooted
pub mod Chords
pub mod Basis
use feldspar.Prelude.{
  ℕ, zero, suc, String, Bool, true, false, not, none, some, List, [], ◌∷◌, ◌++◌, Result, ok, err,
  ◌>>=◌, ◌==◌, any, keep, length, if◌then◌else◌,
}
use feldspar.Prelude.Dict.{Dict, lookup, insert}
use feldspar.Fluids.Network.Edges.{Edge, Stop, out_of_fuel, get_item}
use feldspar.Fluids.Network.Ends.{edge_at}
use feldspar.Fluids.Network.Tree.{SpanningTree}
use Prim.Native.Nat.{compare, Ordering}

-- The signs +1 and -1.
pub data Sign : Type 0 where
  plus minus : Sign

abbrev pub opposite : Sign → Sign
opposite plus = minus
opposite minus = plus

abbrev pub same_index : ℕ → ℕ → Bool
same_index i j = elim (compare i j) [ Ordering.eq ↦ true | _ ↦ false ]

-- `i in {i for i, _ in path}`
abbrev pub has_index : ℕ → List (ℕ × Sign) → Bool
has_index i path = any (λ step. same_index step.0 i) path

abbrev pub has_edge : ℕ → List ℕ → Bool
has_edge i edges = any (λ j. same_index j i) edges

-- `1 if e.b == n else -1`
abbrev pub sign_towards : {F : Type 0} → String → Edge F → Sign
sign_towards n e = if e.b == n then plus else minus

-- The steps of `path` whose edge is not in the other path.
abbrev pub outside : List (ℕ × Sign) → List (ℕ × Sign) → List (ℕ × Sign)
outside other path = keep (λ step. not (has_index step.0 other)) path

abbrev pub reversed_steps : List (ℕ × Sign) → List (ℕ × Sign)
reversed_steps [] = []
reversed_steps ((i, s) ∷ path) = (i, opposite s) ∷ reversed_steps path

-- The loop that the chord `i` closes.
unfoldable pub close_loop : ℕ → List (ℕ × Sign) → List (ℕ × Sign) → List (ℕ × Sign)
close_loop i a_path b_path =
    (i, plus) ∷ (outside b_path a_path ++ reversed_steps (outside a_path b_path))

module _ {F : Type 0} (edges : List (Edge F)) (tree : SpanningTree) where
  -- The loop `while n in tree.parent_node`, on fuel.
  unfoldable pub path_to_root : ℕ → String → Result (List (ℕ × Sign)) (Stop F)
  unfolding lookup get_item edge_at
  path_to_root zero n = err out_of_fuel
  path_to_root (suc fuel) n = elim (lookup n tree.parent_node) [
    | none ↦ ok []
    | some parent ↦ do
      i ← get_item n tree.parent_edge
      e ← edge_at edges i
      path ← path_to_root fuel parent
      ok ((i, sign_towards n e) ∷ path)
  ]

  -- `depth_path[n]`, with fuel for every parent.
  unfoldable pub depth_path : String → Result (List (ℕ × Sign)) (Stop F)
  unfolding path_to_root
  depth_path n = path_to_root (suc (length tree.parent_node)) n

  -- `{n: _path_to_root(n) for n in nodes}`
  unfoldable pub depth_paths :
      List String → Dict (List (ℕ × Sign)) → Result (Dict (List (ℕ × Sign))) (Stop F)
  unfolding depth_path insert
  depth_paths [] d = ok d
  depth_paths (n ∷ ns) d = do path ← depth_path n; depth_paths ns (insert n path d)

  unfoldable pub loops_from :
      Dict (List (ℕ × Sign)) → ℕ → List (Edge F) → Result (List (List (ℕ × Sign))) (Stop F)
  unfolding close_loop get_item
  loops_from paths i [] = ok []
  loops_from paths i (e ∷ es) =
      let rest = loops_from paths (suc i) es in
      if has_edge i tree.tree_edges then rest else do
        a_path ← get_item e.a paths
        b_path ← get_item e.b paths
        loops ← rest
        ok (close_loop i a_path b_path ∷ loops)

  unfoldable pub build_cycle_basis : List String → Result (List (List (ℕ × Sign))) (Stop F)
  unfolding depth_paths loops_from
  build_cycle_basis nodes = do paths ← depth_paths nodes []; loops_from paths 0 edges
