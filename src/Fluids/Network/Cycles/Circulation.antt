-- ===== src/Fluids/Network/Cycles/Circulation.antt =====
-- The steps of a loop of `_build_cycle_basis` of python/feldspar/fluids/network.py that enter a node and
-- those that leave it, and the paths to the root.
use feldspar.Fluids.Network.Search.{names, Growth}
use feldspar.Prelude.{
  ℕ, ◌+◌, String, ◌≡◌, refl, Bool, true, false, none, some, List, [], ◌∷◌, ◌++◌, inl, inr, ◌==◌,
  eq_iff, elem, All, arith, Bool-cases, if◌then◌else◌,
}
use feldspar.Fluids.Network.Edges.{Edge}
use feldspar.Fluids.Network.Ends.{get_elem?}
use feldspar.Fluids.Network.Tree.Grown.{Joins, IsGrown}
use feldspar.Fluids.Network.Cycles.{
  Sign, plus, minus, opposite, same_index, has_index, sign_towards, reversed_steps,
}

-- Where a step over an edge leads.
abbrev pub head : {F : Type 0} → Sign → Edge F → String
head plus e = e.b
head minus e = e.a

abbrev pub bit : Bool → ℕ
bit true = 1
bit false = 0

module _ {F : Type 0} (edges : List (Edge F)) (v : String) where
  abbrev pub enters : ℕ → Sign → ℕ
  enters i s = elim (get_elem? edges i) [ none ↦ 0 | some e ↦ bit (head s e == v) ]

  -- How often a path enters the node, and leaves it.
  abbrev pub ins : List (ℕ × Sign) → ℕ
  ins [] = 0
  ins ((i, s) ∷ path) = enters i s + ins path

  abbrev pub outs : List (ℕ × Sign) → ℕ
  outs [] = 0
  outs ((i, s) ∷ path) = enters i (opposite s) + outs path

  pub ins-append : (p q : List (ℕ × Sign)) → ins (p ++ q) ≡ ins p + ins q
  ins-append [] q = omega arith
  ins-append ((i, s) ∷ p) q = omega (arith, ins-append p q)

  pub outs-append : (p q : List (ℕ × Sign)) → outs (p ++ q) ≡ outs p + outs q
  outs-append [] q = omega arith
  outs-append ((i, s) ∷ p) q = omega (arith, outs-append p q)

  pub ins-reversed_steps : (p : List (ℕ × Sign)) → ins (reversed_steps p) ≡ outs p
  ins-reversed_steps [] = refl
  ins-reversed_steps ((i, s) ∷ p) = omega (arith, ins-reversed_steps p)

  pub outs-reversed_steps : (p : List (ℕ × Sign)) → outs (reversed_steps p) ≡ ins p
  outs-reversed_steps [] = refl
  outs-reversed_steps ((i, plus) ∷ p) = omega (arith, outs-reversed_steps p)
  outs-reversed_steps ((i, minus) ∷ p) = omega (arith, outs-reversed_steps p)

-- A loop that closes.
abbrev pub IsCirculation : {F : Type 0} → List (Edge F) → List (ℕ × Sign) → Type 0
IsCirculation edges loop = (v : String) → ins edges v loop ≡ outs edges v loop

-- Every step is over an edge of the list.
abbrev pub HasEdges : {F : Type 0} → List (Edge F) → List (ℕ × Sign) → Type 0
HasEdges {F} edges = All (λ step. (e : Edge F) × (get_elem? edges step.0 ≡ some e))

-- A loop that closes, over edges of the network.
abbrev pub IsLoop : {F : Type 0} → List (Edge F) → List (ℕ × Sign) → Type 0
IsLoop edges loop = IsCirculation edges loop × HasEdges edges loop

module _ {F : Type 0} (edges : List (Edge F)) (root : String) where
  -- The sign of the step from a node's parent to the node.
  abbrev pub step_sign : Growth ℕ → Sign
  step_sign g = elim (get_elem? edges g.edge) [ none ↦ plus | some e ↦ sign_towards g.node e ]

  -- The path that the growth gives a node.
  abbrev pub way : List (Growth ℕ) → String → List (ℕ × Sign)
  way [] n = []
  way (g ∷ log) n =
      let onward = way log g.parent in
      let kept = way log n in if g.node == n then (g.edge, step_sign g) ∷ onward else kept

  pub way_new :
      (x : Growth ℕ) (log : List (Growth ℕ)) (n : String)
      → (x.node == n) ≡ true
      → way (x ∷ log) n ≡ (x.edge, step_sign x) ∷ way log x.parent
  way_new x log n h = rw h refl

  pub way_old :
      (x : Growth ℕ) (log : List (Growth ℕ)) (n : String)
      → (x.node == n) ≡ false
      → way (x ∷ log) n ≡ way log n
  way_old x log n h = rw h refl

  -- An edge of the growth.
  abbrev pub IsInside : List (Growth ℕ) → ℕ × Sign → Type 0
  IsInside log step =
      (p : String) × (n : String) × Joins edges step.0 p n
      × (elem p (names root log) ≡ true)
      × (elem n (names root log) ≡ true)

  IsInside-grow :
      (g : Growth ℕ) (log : List (Growth ℕ)) (steps : List (ℕ × Sign))
      → All (IsInside log) steps
      → All (IsInside (g ∷ log)) steps
  IsInside-grow g log [] h = tt
  IsInside-grow g log (x ∷ steps) ((p, n, j, hp, hn), hs) =
      ((p, n, j, ground arith, ground arith), IsInside-grow g log steps hs)

  pub way-IsInside :
      (log : List (Growth ℕ)) (n : String) → IsGrown edges root log → All (IsInside log) (way log n)
  way-IsInside [] n g = tt
  way-IsInside (x ∷ log) n (fresh, old, joins, g) = elim (Bool-cases (x.node == n)) [
    | inl same ↦ rw same (
      (x.parent, x.node, joins, ground arith, ground (arith, eq_iff x.node x.node)),
      IsInside-grow x log (way log x.parent) (way-IsInside log x.parent g),
    )
    | inr other ↦ rw other (IsInside-grow x log (way log n) (way-IsInside log n g))
  ]

  pub ends_differ :
      (i j : ℕ) (p n p' n' : String) (log : List (Growth ℕ))
      → Joins edges i p n
      → Joins edges j p' n'
      → elem n (names root log) ≡ false
      → elem p' (names root log) ≡ true
      → elem n' (names root log) ≡ true
      → same_index j i ≡ false
  ends_differ i j p n p' n' log (e, at, h) (e', at', h') fresh old old' = ground arith

  -- The edge of a new node is in no path from before it.
  pub fresh_edge :
      (x : Growth ℕ) (log : List (Growth ℕ)) (steps : List (ℕ × Sign))
      → Joins edges x.edge x.parent x.node
      → elem x.node (names root log) ≡ false
      → All (IsInside log) steps
      → has_index x.edge steps ≡ false
  fresh_edge x log [] j f h = refl
  fresh_edge x log ((i, s) ∷ steps) j f ((p, n, joins, hp, hn), hs) = ground (
    arith,
    ends_differ x.edge i x.parent x.node p n log j joins f hp hn,
    fresh_edge x log steps j f hs,
  )
