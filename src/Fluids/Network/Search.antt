-- ===== src/Fluids/Network/Search.antt =====
-- A breadth-first search as python/feldspar/fluids/network.py writes it in `_spanning_tree` and in
-- `find_path_edges`: what it has reached is a growth, the newest node first, each node joined by a
-- label to one from before it. `Rounds`, below it, is about one round of the loop.
pub mod Rounds
use feldspar.Prelude.{
  ap, suc, ℕ, String, ◌≡◌, refl, true, false, List, [], ◌∷◌, ◌++◌, eq_iff, elem, length, arith,
  length-append,
}
use feldspar.Prelude.Membership.{IsNodup, elem-append}

-- One new node.
pub record Growth (L : Type 0) : Type 0 where
  pub node : String
  pub parent : String
  pub edge : L

module _ {L : Type 0} where
  abbrev pub names : String → List (Growth L) → List String
  names root [] = root ∷ []
  names root (g ∷ log) = g.node ∷ names root log

  -- The nodes in the order in which they are reached.
  abbrev pub order_of : String → List (Growth L) → List String
  order_of root [] = root ∷ []
  order_of root (g ∷ log) = order_of root log ++ g.node ∷ []

  pub elem-order_of :
      (root j : String) (log : List (Growth L))
      → elem j (order_of root log) ≡ elem j (names root log)
  elem-order_of root j [] = refl
  elem-order_of root j (g ∷ log) =
      ground (arith, elem-append j (order_of root log) (g.node ∷ []), elem-order_of root j log)

  pub length-order_of :
      (root : String) (log : List (Growth L)) → length (order_of root log) ≡ length (names root log)
  length-order_of root [] = refl
  length-order_of root (g ∷ log) =
      omega (arith, length-append (order_of root log) (g.node ∷ []), length-order_of root log)

  pub length-names :
      (root : String) (log : List (Growth L)) → length (names root log) ≡ suc (length log)
  length-names root [] = refl
  length-names root (g ∷ log) = ap suc (length-names root log)

  pub elem-root : (root : String) (log : List (Growth L)) → elem root (names root log) ≡ true
  elem-root root [] = ground (arith, eq_iff root root)
  elem-root root (g ∷ log) = ground (arith, elem-root root log)

-- Each node is new, and a label joins it to one from before.
abbrev pub IsGrowth :
    {L : Type 0} → (L → String → String → Type 0) → String → List (Growth L) → Type 0
IsGrowth J root [] = Unit
IsGrowth J root (g ∷ log) =
    (elem g.node (names root log) ≡ false)
    × (elem g.parent (names root log) ≡ true)
    × J g.edge g.parent g.node
    × IsGrowth J root log

pub names-IsNodup :
    {L : Type 0} (J : L → String → String → Type 0) (root : String) (log : List (Growth L))
    → IsGrowth J root log
    → IsNodup (names root log)
names-IsNodup J root [] h = (refl, tt)
names-IsNodup J root (g ∷ log) h = (h.0, names-IsNodup J root log h.3)
