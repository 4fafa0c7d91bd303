-- ===== src/Fluids/Network/Paths/Walks.antt =====
-- What `find_path_edges` of python/feldspar/fluids/network.py gives.
use feldspar.Prelude.{
  ◌++◌, ℕ, zero, suc, ◌+◌, ◌≤◌, String, ◌≡◌, refl, ap, sym, subst, true, some, none, List, [], ◌∷◌,
  ◌⊎◌, inl, inr, ◌==◌, eq_iff, elem, length, All, arith, Bool-cases, if◌then◌else◌, ok, ok_inj,
}
use mathlib.Core.List.{reverse}
use feldspar.Prelude.Dict.{Dict, lookup, contains}
use feldspar.Prelude.Membership.{All-append, All-append-left, All-append-right, All-one}
use feldspar.Fluids.Network.Edges.{Edge, FlownetPayload, get_item}
use feldspar.Fluids.Network.Ends.{
  Tail, Tail-suc, Tail-head, Tail-all, IsClosed, get_elem?, ends, index_ends-Holds, index_ends,
}
use feldspar.Fluids.Network.Tree.{refuse}
use feldspar.Fluids.Network.Cycles.{Sign, plus, minus}
use feldspar.Fluids.Network.Solve.{SolvedNetwork, solved_network, edges_by_id}
use feldspar.Fluids.Network.Search.{
  Growth, names, IsGrowth, order_of, elem-order_of, elem-root, length-names,
}
use feldspar.Fluids.Network.Search.Rounds.{
  IsSound, IsEntry, Reaches, IsDone, Explored, Explored-of, exhausted, round,
}
use feldspar.Fluids.Network.Paths.{
  Step, Arrival, PathSearch, visit_neighbor, visit_neighbors, path_search, finish_path,
  find_path_edges,
}
use feldspar.Fluids.Network.Paths.Trace.{
  tail, head, IsIn, Leads, IsPath, parent_of, length-parent_of, parent_of-Agrees, trace_back-IsPath,
}

-- `adjacency[v]`
abbrev pub steps : {F : Type 0} → List (Edge F) → String → List (Arrival F)
steps edges v = ends (λ i e. (e.b, (e, plus))) (λ i e. (e.a, (e, minus))) v 0 edges

-- What a search has visited, and the parents that it has written.
abbrev search_of : {F : Type 0} → String → List (Growth (Step F)) → List String → PathSearch F
search_of start log queue = record {
  visited = order_of start log;
  parent = parent_of log;
  queue = queue;
}

-- What holds of the entries of a node holds of the step over each edge.
step_of :
    {F : Type 0} (P : Arrival F → Type 0) (v : String) (k : ℕ) (es : List (Edge F))
    → All P (ends (λ i e. (e.b, (e, plus))) (λ i e. (e.a, (e, minus))) v k es)
    → (j : ℕ) (e : Edge F) (s : Sign) → get_elem? es j ≡ some e
    → tail (e, s) ≡ v
    → P (head (e, s), (e, s))
step_of P v k [] h j e s g t = cc
step_of {F} P v k (x ∷ es) h zero e s g t =
    let same : x ≡ e = cc in
    let first = All-append-left P (if x.a == v then (x.b, (x, plus)) ∷ [] else []) _ h in
    let rest = All-append-right P (if x.a == v then (x.b, (x, plus)) ∷ [] else []) _ h in
    let second = All-append-left P (if x.b == v then (x.a, (x, minus)) ∷ [] else []) _ rest in
    subst (λ (y : Edge F). tail (y, s) ≡ v → P (head (y, s), (y, s))) same
      (elim s as (λ s'. tail (x, s') ≡ v → P (head (x, s'), (x, s'))) [
        | plus ↦ λ p. (rw ((eq_iff x.a v).1 p) at first).0
        | minus ↦ λ p. (rw ((eq_iff x.b v).1 p) at second).0
      ])
      t
step_of P v k (x ∷ es) h (suc j) e s g t =
    let rest = All-append-right P (if x.a == v then (x.b, (x, plus)) ∷ [] else []) _ h in
    let later = All-append-right P (if x.b == v then (x.a, (x, minus)) ∷ [] else []) _ rest in
    step_of P v (suc k) es later j e s g t

module _ {F : Type 0} (nodes : List String) (edges : List (Edge F)) (start : String) where
  steps_from :
      (v : String) (k : ℕ) (es : List (Edge F))
      → Tail edges k es
      → IsClosed nodes es
      → All
          (IsEntry (Leads edges) nodes start v)
          (ends (λ i e. (e.b, (e, plus))) (λ i e. (e.a, (e, minus))) v k es)
  steps_from v k [] t c = tt
  steps_from v k (e ∷ es) t c =
      let at : IsIn e edges = (k, Tail-head edges k e es t) in
      All-append (IsEntry (Leads edges) nodes start v) _ _
        (All-one (IsEntry (Leads edges) nodes start v) (e.a == v) (e.b, (e, plus))
          (λ h. (c.0.1, (at, (eq_iff e.a v).0 h, refl))))
        (All-append (IsEntry (Leads edges) nodes start v) _ _
          (All-one (IsEntry (Leads edges) nodes start v) (e.b == v) (e.a, (e, minus))
            (λ h. (c.0.0, (at, (eq_iff e.b v).0 h, refl))))
          (steps_from v (suc k) es (Tail-suc edges k e es t) c.1))

  -- What a search for `goal` ends with.
  record Ended (goal : String) (log : List (Growth (Step F))) : Type 0 where
    pub grown : IsGrowth (Leads edges) start log
    pub complete :
        (elem goal (names start log) ≡ true)
        ⊎ ((u : String)
            → elem u (names start log) ≡ true
            → Explored (Leads edges) nodes start (steps edges) log u)

  ended :
      (goal : String) (log : List (Growth (Step F)))
      → IsSound (Leads edges) nodes start log []
      → IsDone (Leads edges) nodes start (steps edges) log []
      → Ended goal log
  ended goal log i d = record {
    grown = i.grown;
    complete = inr (λ u. Explored-of (Leads edges) nodes start (steps edges) log u d);
  }

  visit_neighbor-search_of :
      (node n : String) (step : Step F) (log : List (Growth (Step F))) (queue : List String)
      → visit_neighbor node (search_of start log queue) (n, step) ≡ (
          if elem n (names start log)
          then search_of start log queue
          else search_of start
              (record { node = n; parent = node; edge = step } ∷ log)
              (queue ++ n ∷ []))
  unfolding visit_neighbor
  visit_neighbor-search_of node n step log queue = rw (elem-order_of start n log) refl

  -- A round of the loop.
  path_round :
      IsClosed nodes edges
      → (node : String) (rest : List String) (log : List (Growth (Step F)))
      → IsSound (Leads edges) nodes start log (node ∷ rest)
      → IsDone (Leads edges) nodes start (steps edges) log (node ∷ rest)
      → (elem node nodes ≡ true)
        × ((log' : List (Growth (Step F))) × (queue' : List String) × (visit_neighbors node
                (steps edges node)
                (search_of start log rest)
              ≡ search_of start log' queue')
            × IsSound (Leads edges) nodes start log' queue'
            × IsDone (Leads edges) nodes start (steps edges) log' queue'
            × (length queue' + length log ≡ length rest + length log'))
  unfolding visit_neighbors
  path_round closed =
      round (Leads edges) nodes start (search_of start) visit_neighbor visit_neighbors
        (λ node s. refl) (λ node x xs s. refl) visit_neighbor-search_of (steps edges)
        (λ v. steps_from v 0 edges (Tail-all edges) closed)

  module _ (closed : IsClosed nodes edges) (adjacency : Dict (List (Arrival F)))
      (holds : (v : String)
        → lookup v adjacency ≡ (if elem v nodes then some (steps edges v) else none)) where
    get_steps :
        (v : String) → elem v nodes ≡ true → get_item {F = F} v adjacency ≡ ok (steps edges v)
    unfolding get_item
    get_steps v m = ground (arith, holds v)

    path_search-Ended :
        (goal : String) (fuel : ℕ) (log : List (Growth (Step F))) (queue : List String)
        → IsSound (Leads edges) nodes start log queue
        → IsDone (Leads edges) nodes start (steps edges) log queue
        → length queue + length nodes ≤ fuel + length (names start log)
        → (log' : List (Growth (Step F))) × (queue' : List String) × (path_search adjacency goal
              fuel
              (search_of start log queue)
            ≡ ok (search_of start log' queue'))
          × Ended goal log'
    unfolding path_search
    path_search-Ended goal zero log [] i d m = (log, [], refl, ended goal log i d)
    path_search-Ended goal (suc fuel) log [] i d m = (log, [], refl, ended goal log i d)
    path_search-Ended goal zero log (node ∷ rest) i d m =
        absurd (exhausted (Leads edges) nodes start node rest log i (omega arith))
    path_search-Ended goal (suc fuel) log (node ∷ rest) i d m = elim (Bool-cases (node == goal)) [
      | inl found ↦
          let inside = i.queued goal (ground arith) in
          (
            log,
            rest,
            rw (found, path_search) refl,
            record { grown = i.grown; complete = inl inside },
          )
      | inr other ↦
          let (known, (log', queue', e, i', d', sizes)) = path_round closed node rest log i d in
          let (log2, queue2, e2, f) =
            path_search-Ended goal fuel log' queue' i' d'
              (omega (arith, sizes, length-names start log, length-names start log')) in
          (log2, queue2, rw (other, path_search, get_steps node known, e) e2, f)
    ]

  -- A path leads from what is explored to what is explored.
  IsPath-names :
      (log : List (Growth (Step F)))
      → ((u : String)
          → elem u (names start log) ≡ true
          → Explored (Leads edges) nodes start (steps edges) log u)
      → (u v : String) (path : List (Step F)) → elem u (names start log) ≡ true
      → IsPath edges u v path
      → elem v (names start log) ≡ true
  IsPath-names log f u v [] m p = subst (λ w. elem w (names start log) ≡ true) p m
  IsPath-names log f u v ((e, s) ∷ path) m ((i, at), t, p) =
      IsPath-names log f (head (e, s)) v path
        (step_of (Reaches (Leads edges) nodes start log) u 0 edges (f u m) i e s at t) p

  -- The path that is followed back, or its absence.
  finish_path-Ended :
      (goal : String) (log : List (Growth (Step F))) (queue : List String)
      → Ended goal log
      → ((path : List (Step F)) × (finish_path start goal (search_of start log queue) ≡ ok path)
          × IsPath edges start goal path)
        ⊎ ((finish_path start goal (search_of start log queue) ≡ refuse "disconnected_query_path")
            × ¬ ((path : List (Step F)) × IsPath edges start goal path))
  unfolding finish_path
  finish_path-Ended goal log queue f = elim (Bool-cases (elem goal (names start log))) [
    | inl there ↦
        let (path, back, is) =
          trace_back-IsPath edges start (parent_of log) log (suc (length (parent_of log))) goal
            (parent_of-Agrees edges start log f.grown) f.grown
            (omega (arith, length-parent_of edges start log f.grown)) there in
        inl (reverse path, rw (elem-order_of start goal log, there, back) refl, is)
    | inr absent ↦ inr (
      rw (elem-order_of start goal log, absent) refl,
      λ p. elim f.complete [
        | inl there ↦ cc
        | inr explored ↦
            let there = IsPath-names log explored start goal p.0 (elem-root start log) p.1 in cc
      ],
    )
  ]

module _ {F : Type 0} (payload : FlownetPayload F) (edges : List (Edge F)) where
  -- The dict of a solved network has its nodes.
  pub incidence_of :
      (solved : SolvedNetwork F)
      → IsClosed payload.nodes edges
      → solved_network payload edges ≡ ok solved
      → (solved.payload ≡ payload)
        × (solved.edges ≡ edges)
        × ((v : String) → contains v solved.incidence ≡ elem v payload.nodes)
  unfolding solved_network index_ends edges_by_id
  incidence_of solved c h =
      let (d, e, holds) =
        index_ends-Holds {F = F} {X = Edge F × Sign} (λ i x. (x, minus)) (λ i x. (x, plus))
          payload.nodes edges c in
      let made : SolvedNetwork F = record {
        payload = payload;
        edges = edges;
        by_id = edges_by_id edges [];
        incidence = d;
      } in
      let same : made ≡ solved = ok_inj (rw e refl) h in
      (
        sym (ap (λ x. x.payload) same),
        sym (ap (λ x. x.edges) same),
        λ v.
            subst (λ x. contains v x.incidence ≡ elem v payload.nodes) same
              (ground (arith, holds v)),
      )

  -- On a network whose edges all end at its nodes, for two of its nodes: the query ends within its
  -- fuel, either with a path over edges of the network from the first to the second, or with the
  -- refusal of a disconnected query, and then there is no such path.
  pub find_path_edges-IsPath :
      (solved : SolvedNetwork F) (a b : String)
      → IsClosed payload.nodes edges
      → solved_network payload edges ≡ ok solved
      → elem a payload.nodes ≡ true
      → elem b payload.nodes ≡ true
      → ((path : List (Step F)) × (find_path_edges solved a b ≡ ok path) × IsPath edges a b path)
        ⊎ ((find_path_edges solved a b ≡ refuse "disconnected_query_path")
            × ¬ ((path : List (Step F)) × IsPath edges a b path))
  unfolding find_path_edges index_ends
  find_path_edges-IsPath solved a b c h ma mb =
      let (p, q, at) = incidence_of solved c h in
      elim (Bool-cases (a == b)) [
        | inl same ↦ inl ([], rw (at a, ma, at b, mb, same) refl, (eq_iff a b).0 same)
        | inr other ↦
            let (d, e, holds) =
              index_ends-Holds {F = F} {X = Arrival F} (λ i x. (x.b, (x, plus)))
                (λ i x. (x.a, (x, minus))) payload.nodes edges c in
            let (log, queue, e', f) =
              path_search-Ended payload.nodes edges a c d holds b (length payload.nodes) [] (a ∷ [])
                (record {
                  grown = tt;
                  within = λ j h. ground (arith, eq_iff a j);
                  queued = λ j h. h;
                })
                (λ u h. inl h) (omega arith) in
            let is : find_path_edges solved a b ≡ finish_path a b (search_of a log queue) =
              rw (at a, ma, at b, mb, other, p, q, e, e') refl in
            rw is (finish_path-Ended payload.nodes edges a b log queue f)
      ]
