-- ===== src/Fluids/Network/Ends.antt =====
-- The dictionaries from a node to what stands at it that python/feldspar/fluids/network.py builds by
-- one pass over the edges: `{n: [] for n in nodes}`, then an append at each end of each edge.
use feldspar.Prelude.{
  ap, ℕ, zero, suc, ◌+◌, String, ◌≡◌, refl, ◌∙◌, true, Option, none, some, List, [], ◌∷◌, ◌++◌,
  Result, ok, err, ◌>>=◌, ◌==◌, elem, All, arith, if◌then◌else◌, eq_iff, inl, inr, Bool-cases,
}
use mathlib.Core.List.{append_assoc, append-nil}
use feldspar.Prelude.Dict.{Dict, lookup, insert, lookup-insert}
use feldspar.Fluids.Network.Edges.{Edge, Stop, index_error, get_item}

-- `edges[i]`
abbrev pub get_elem? {ℓ} : {A : Type ℓ} → List A → ℕ → Option A
get_elem? [] i = none
get_elem? (x ∷ xs) zero = some x
get_elem? (x ∷ xs) (suc i) = get_elem? xs i

unfoldable pub edge_at : {F : Type 0} → List (Edge F) → ℕ → Result (Edge F) (Stop F)
edge_at edges i = elim (get_elem? edges i) [ none ↦ err index_error | some e ↦ ok e ]

module _ {X : Type 0} where
  -- `{n: [] for n in nodes}`
  unfoldable pub blank : List String → Dict (List X) → Dict (List X)
  unfolding insert
  blank [] d = d
  blank (n ∷ ns) d = blank ns (insert n [] d)

  -- `d[k].append(x)`
  unfoldable pub append_at :
      {F : Type 0} → String → X → Dict (List X) → Result (Dict (List X)) (Stop F)
  unfolding get_item insert
  append_at k x d = do xs ← get_item k d; ok (insert k (xs ++ x ∷ []) d)

module _ {F X : Type 0} (at_a at_b : ℕ → Edge F → X) where
  unfoldable pub index_from : ℕ → List (Edge F) → Dict (List X) → Result (Dict (List X)) (Stop F)
  unfolding append_at
  index_from i [] d = ok d
  index_from i (e ∷ es) d = do
    d' ← append_at e.a (at_a i e) d
    d'' ← append_at e.b (at_b i e) d'
    index_from (suc i) es d''

  -- The whole pass.
  unfoldable pub index_ends : List String → List (Edge F) → Result (Dict (List X)) (Stop F)
  unfolding index_from blank
  index_ends nodes edges = index_from 0 edges (blank nodes [])

  -- What stands at a node, in the order of the edges.
  abbrev pub ends : String → ℕ → List (Edge F) → List X
  ends v i [] = []
  ends v i (e ∷ es) =
      (if e.a == v then at_a i e ∷ [] else [])
      ++ ((if e.b == v then at_b i e ∷ [] else []) ++ ends v (suc i) es)

-- Both ends of every edge are nodes.
abbrev pub IsClosed : {F : Type 0} → List String → List (Edge F) → Type 0
IsClosed nodes = All (λ e. (elem e.a nodes ≡ true) × (elem e.b nodes ≡ true))

pub lookup-blank :
    {X : Type 0} (v : String) (nodes : List String) (d : Dict (List X))
    → lookup v (blank nodes d) ≡ (if elem v nodes then some [] else lookup v d)
unfolding blank
lookup-blank v [] d = refl
lookup-blank v (n ∷ ns) d =
    ground (arith, lookup-blank v ns (insert n [] d), lookup-insert n v [] d)

-- The entries of a dict of lists at the nodes, and no others.
abbrev pub Holds : {X : Type 0} → List String → (String → List X) → Dict (List X) → Type 0
Holds nodes at d = (v : String) → lookup v d ≡ (if elem v nodes then some (at v) else none)

pub append_at-Holds :
    {F X : Type 0} (nodes : List String) (k : String) (x : X) (at : String → List X)
    (d : Dict (List X))
    → Holds nodes at d
    → elem k nodes ≡ true
    → (d' : Dict (List X)) × (append_at {F = F} k x d ≡ ok d')
      × Holds nodes (λ v. at v ++ (if k == v then x ∷ [] else [])) d'
unfolding append_at get_item
append_at-Holds nodes k x at d h m =
    let e : lookup k d ≡ some (at k) = h k ∙ (rw m refl) in
    (
      insert k (at k ++ x ∷ []) d,
      ground arith,
      λ v. elim (Bool-cases (k == v)) [
        | inl same ↦ ground (arith, lookup-insert k v (at k ++ x ∷ []) d, eq_iff k v)
        | inr other ↦ ground (arith, lookup-insert k v (at k ++ x ∷ []) d, h v, append-nil (at v))
      ],
    )

module _ {F X : Type 0} (at_a at_b : ℕ → Edge F → X) (nodes : List String) where
  index_from-Holds :
      (i : ℕ) (es : List (Edge F)) (at : String → List X) (d : Dict (List X))
      → Holds nodes at d
      → IsClosed nodes es
      → (d' : Dict (List X)) × (index_from at_a at_b i es d ≡ ok d')
        × Holds nodes (λ v. at v ++ ends at_a at_b v i es) d'
  unfolding index_from
  index_from-Holds i [] at d h c = (d, refl, λ v. h v ∙ simp (append-nil))
  index_from-Holds i (e ∷ es) at d h c =
      let (d1, e1, h1) = append_at-Holds {F = F} nodes e.a (at_a i e) at d h c.0.0 in
      let (d2, e2, h2) =
        append_at-Holds {F = F} nodes e.b (at_b i e)
          (λ v. at v ++ (if e.a == v then at_a i e ∷ [] else [])) d1 h1 c.0.1 in
      let (d3, e3, h3) =
        index_from-Holds (suc i) es
          (λ v.
            (at v ++ (if e.a == v then at_a i e ∷ [] else []))
            ++ (if e.b == v then at_b i e ∷ [] else []))
          d2 h2 c.1 in
      (d3, rw (e1, e2) e3, λ v. h3 v ∙ simp append_assoc)

  -- On a closed network the pass ends, with the list of each node.
  pub index_ends-Holds :
      (es : List (Edge F))
      → IsClosed nodes es
      → (d : Dict (List X)) × (index_ends at_a at_b nodes es ≡ ok d)
        × Holds nodes (λ v. ends at_a at_b v 0 es) d
  unfolding index_ends lookup
  index_ends-Holds es c =
      index_from-Holds 0 es (λ _. []) (blank nodes []) (λ v. lookup-blank v nodes []) c

-- The edges from the index `k` on.
abbrev pub Tail : {F : Type 0} → List (Edge F) → ℕ → List (Edge F) → Type 0
Tail edges k es = (j : ℕ) → get_elem? edges (k + j) ≡ get_elem? es j

module _ {F : Type 0} (edges : List (Edge F)) where
  pub Tail-suc :
      (k : ℕ) (e : Edge F) (es : List (Edge F)) → Tail edges k (e ∷ es) → Tail edges (suc k) es
  Tail-suc k e es t j = ap (get_elem? edges) (omega arith) ∙ t (suc j)

  pub Tail-head :
      (k : ℕ) (e : Edge F) (es : List (Edge F)) → Tail edges k (e ∷ es) → get_elem? edges k ≡ some e
  Tail-head k e es t = ap (get_elem? edges) (omega arith) ∙ t 0

  pub Tail-all : Tail edges 0 edges
  Tail-all j = ap (get_elem? edges) (omega arith)

pub edge_at-some :
    {F : Type 0} (edges : List (Edge F)) (i : ℕ) {e : Edge F}
    → get_elem? edges i ≡ some e
    → edge_at edges i ≡ ok e
unfolding edge_at
edge_at-some edges i h = ground arith
