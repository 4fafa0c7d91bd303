-- ===== src/Fluids/Network/Tree/Finished.antt =====
-- The breadth-first loop of `_spanning_tree` of python/feldspar/fluids/network.py: what it ends with.
use feldspar.Prelude.{
  ℕ, zero, suc, ◌+◌, ◌≤◌, String, ◌≡◌, refl, true, none, some, List, [], ◌∷◌, inl, inr, ◌==◌,
  eq_iff, elem, length, All, arith, if◌then◌else◌, ok,
}
use feldspar.Prelude.Dict.{Dict, lookup}
use feldspar.Prelude.Membership.{All-append, All-one}
use feldspar.Fluids.Network.Search.{Growth, names, length-names}
use feldspar.Fluids.Network.Search.Rounds.{
  IsSound, IsEntry, IsDone, Explored, Explored-of, exhausted, round,
}
use feldspar.Fluids.Network.Tree.Grown.{visit-search_of, Joins, search_of}
use feldspar.Fluids.Network.Edges.{Edge, get_item}
use feldspar.Fluids.Network.Ends.{Tail-suc, Tail-head, Tail, Tail-all, IsClosed, ends}
use feldspar.Fluids.Network.Tree.{search_from, visit, scan}

-- A walk along the edges.
pub data Reach {F : Type 0} (edges : List (Edge F)) (u : String) : String → Type 0 where
  here : Reach edges u u
  along : {v w : String} (i : ℕ) → Reach edges u v → Joins edges i v w → Reach edges u w

abbrev pub neighbours : {F : Type 0} → List (Edge F) → String → List (String × ℕ)
neighbours edges v = ends (λ i e. (e.b, i)) (λ i e. (e.a, i)) v 0 edges

module _ {F : Type 0} (nodes : List String) (edges : List (Edge F)) (root : String) where
  entries_from :
      (v : String) (k : ℕ) (es : List (Edge F))
      → Tail edges k es
      → IsClosed nodes es
      → All (IsEntry (Joins edges) nodes root v) (ends (λ i e. (e.b, i)) (λ i e. (e.a, i)) v k es)
  entries_from v k [] t c = tt
  entries_from v k (e ∷ es) t c =
      let at = Tail-head edges k e es t in
      All-append (IsEntry (Joins edges) nodes root v) _ _
        (All-one (IsEntry (Joins edges) nodes root v) (e.a == v) (e.b, k)
          (λ h. (c.0.1, (e, at, inl ((eq_iff e.a v).0 h, refl)))))
        (All-append (IsEntry (Joins edges) nodes root v) _ _
          (All-one (IsEntry (Joins edges) nodes root v) (e.b == v) (e.a, k)
            (λ h. (c.0.0, (e, at, inr (refl, (eq_iff e.b v).0 h)))))
          (entries_from v (suc k) es (Tail-suc edges k e es t) c.1))

  pub neighbours-IsEntry :
      (v : String)
      → IsClosed nodes edges
      → All (IsEntry (Joins edges) nodes root v) (neighbours edges v)
  neighbours-IsEntry v c = entries_from v 0 edges (Tail-all edges) c

  -- What a finished search is.
  pub record Finished (log : List (Growth ℕ)) : Type 0 where
    pub sound : IsSound (Joins edges) nodes root log []
    pub explored :
        (u : String)
        → elem u (names root log) ≡ true
        → Explored (Joins edges) nodes root (neighbours edges) log u

  finished :
      (log : List (Growth ℕ))
      → IsSound (Joins edges) nodes root log []
      → IsDone (Joins edges) nodes root (neighbours edges) log []
      → Finished log
  finished log s d = record {
    sound = s;
    explored = λ u. Explored-of (Joins edges) nodes root (neighbours edges) log u d;
  }

  -- A round of the loop.
  tree_round :
      IsClosed nodes edges
      → (node : String) (rest : List String) (log : List (Growth ℕ))
      → IsSound (Joins edges) nodes root log (node ∷ rest)
      → IsDone (Joins edges) nodes root (neighbours edges) log (node ∷ rest)
      → (elem node nodes ≡ true)
        × ((log' : List (Growth ℕ)) × (queue' : List String) × (scan node
                (neighbours edges node)
                (search_of root log rest)
              ≡ search_of root log' queue')
            × IsSound (Joins edges) nodes root log' queue'
            × IsDone (Joins edges) nodes root (neighbours edges) log' queue'
            × (length queue' + length log ≡ length rest + length log'))
  unfolding scan
  tree_round closed =
      round (Joins edges) nodes root (search_of root) visit scan (λ node s. refl)
        (λ node x xs s. refl) (visit-search_of root) (neighbours edges)
        (λ v. neighbours-IsEntry v closed)

  module _ (closed : IsClosed nodes edges) (adjacency : Dict (List (String × ℕ)))
      (holds : (v : String)
        → lookup v adjacency ≡ (if elem v nodes then some (neighbours edges v) else none)) where
    get_neighbours :
        (v : String) → elem v nodes ≡ true → get_item {F = F} v adjacency ≡ ok (neighbours edges v)
    unfolding get_item
    get_neighbours v m = ground (arith, holds v)

    pub search_from-Finished :
        (fuel : ℕ) (log : List (Growth ℕ)) (queue : List String)
        → IsSound (Joins edges) nodes root log queue
        → IsDone (Joins edges) nodes root (neighbours edges) log queue
        → length queue + length nodes ≤ fuel + length (names root log)
        → (log' : List (Growth ℕ)) × (search_from {F = F} adjacency fuel (search_of root log queue)
            ≡ ok (search_of root log' []))
          × Finished log'
    unfolding search_from
    search_from-Finished zero log [] s d m = (log, refl, finished log s d)
    search_from-Finished (suc fuel) log [] s d m = (log, refl, finished log s d)
    search_from-Finished zero log (node ∷ rest) s d m =
        absurd (exhausted (Joins edges) nodes root node rest log s (omega arith))
    search_from-Finished (suc fuel) log (node ∷ rest) s d m =
        let (known, (log', queue', e, s', d', sizes)) = tree_round closed node rest log s d in
        let (log2, e2, f) =
          search_from-Finished fuel log' queue' s' d'
            (omega (arith, sizes, length-names root log, length-names root log')) in
        (log2, rw (get_neighbours node known, e) e2, f)
