-- ===== src/Fluids/Network/Search/Rounds.antt =====
-- One round of a breadth-first search of python/feldspar/fluids/network.py: a node leaves the queue and
-- its neighbours are visited. The state, the visit and the neighbours are parameters.
use feldspar.Prelude.{
  ◌+◌, ◌≤◌, String, ◌≡◌, refl, ap, ◌∙◌, subst, true, false, List, [], ◌∷◌, ◌++◌, ◌⊎◌, inl, inr,
  eq_iff, elem, length, All, arith, Bool-cases, length-append, if◌then◌else◌, ◌==◌,
}
use feldspar.Prelude.Membership.{Within, elem-append, length-le}
use feldspar.Fluids.Network.Search.{Growth, names, IsGrowth, names-IsNodup}

module _ {L : Type 0} (J : L → String → String → Type 0) (nodes : List String) (root : String) where
  -- A growth with a queue of its nodes.
  pub record IsSound (log : List (Growth L)) (queue : List String) : Type 0 where
    pub grown : IsGrowth J root log
    pub within : Within (names root log) nodes
    pub queued : Within queue (names root log)

  -- From one growth and queue to another: nothing is lost, what is new is queued, once.
  record Extends (log : List (Growth L)) (queue : List String) (log' : List (Growth L))
      (queue' : List String) : Type 0 where
    pub sound : IsSound log' queue'
    pub kept : Within (names root log) (names root log')
    pub still_queued : Within queue queue'
    pub new_queued :
        (j : String)
        → elem j (names root log') ≡ true
        → (elem j (names root log) ≡ true) ⊎ (elem j queue' ≡ true)
    pub sizes : length queue' + length log ≡ length queue + length log'

  -- An entry of the adjacency of `node`.
  abbrev pub IsEntry : String → String × L → Type 0
  IsEntry node entry = (elem entry.0 nodes ≡ true) × J entry.1 node entry.0

  abbrev pub Reaches : List (Growth L) → String × L → Type 0
  Reaches log entry = elem entry.0 (names root log) ≡ true

  Extends-refl :
      {log : List (Growth L)} {queue : List String}
      → IsSound log queue
      → Extends log queue log queue
  Extends-refl s = record {
    sound = s;
    kept = λ j h. h;
    still_queued = λ j h. h;
    new_queued = λ j h. inl h;
    sizes = omega arith;
  }

  new_of :
      (log log' : List (Growth L)) (queue' queue2 : List String) (j : String)
      → (elem j (names root log') ≡ true
          → (elem j (names root log) ≡ true) ⊎ (elem j queue' ≡ true))
      → Within queue' queue2
      → (elem j (names root log') ≡ true) ⊎ (elem j queue2 ≡ true)
      → (elem j (names root log) ≡ true) ⊎ (elem j queue2 ≡ true)
  new_of log log' queue' queue2 j new still h = ground (arith, still j)

  Extends-trans :
      {log log' log2 : List (Growth L)} {queue queue' queue2 : List String}
      → Extends log queue log' queue'
      → Extends log' queue' log2 queue2
      → Extends log queue log2 queue2
  Extends-trans {log} {log'} {log2} {queue} {queue'} {queue2} p q = record {
    sound = q.sound;
    kept = λ j h. q.kept j (p.kept j h);
    still_queued = λ j h. q.still_queued j (p.still_queued j h);
    new_queued =
        λ j h. new_of log log' queue' queue2 j (p.new_queued j) q.still_queued (q.new_queued j h);
    sizes = omega (arith, p.sizes, q.sizes);
  }

  Extends-new :
      {log : List (Growth L)} {queue : List String} (node n : String) (l : L)
      → IsSound log queue
      → elem node (names root log) ≡ true
      → IsEntry node (n, l)
      → elem n (names root log) ≡ false
      → Extends log queue (record { node = n; parent = node; edge = l } ∷ log) (queue ++ n ∷ [])
  Extends-new {log} {queue} node n l s m e fresh = record {
    sound = record {
      grown = (fresh, m, e.1, s.grown);
      within = λ j h. ground (arith, eq_iff n j, e.0, s.within j);
      queued = λ j h. ground (arith, elem-append j queue (n ∷ []), s.queued j);
    };
    kept = λ j h. ground arith;
    still_queued = λ j h. ground (arith, elem-append j queue (n ∷ []));
    new_queued = λ j h. ground (arith, elem-append j queue (n ∷ []));
    sizes = omega (arith, length-append queue (n ∷ []));
  }

  Reaches-mono :
      (log log' : List (Growth L)) (entries : List (String × L))
      → Within (names root log) (names root log')
      → All (Reaches log) entries
      → All (Reaches log') entries
  Reaches-mono log log' [] w h = tt
  Reaches-mono log log' (x ∷ xs) w h = (w x.0 h.0, Reaches-mono log log' xs w h.1)

  module _ (neighbours : String → List (String × L)) where
    -- Every neighbour of the node is in the growth.
    abbrev pub Explored : List (Growth L) → String → Type 0
    Explored log u = All (Reaches log) (neighbours u)

    abbrev pub IsDone : List (Growth L) → List String → Type 0
    IsDone log queue =
        (u : String) → elem u (names root log) ≡ true → (elem u queue ≡ true) ⊎ Explored log u

    done_after :
        (node : String) (rest : List String) (log log' : List (Growth L)) (queue' : List String)
        (u : String)
        → Extends log rest log' queue'
        → Explored log' node
        → (elem u (node ∷ rest) ≡ true) ⊎ Explored log u
        → (elem u queue' ≡ true) ⊎ Explored log' u
    done_after node rest log log' queue' u x r (inr h) =
        inr (Reaches-mono log log' (neighbours u) x.kept h)
    done_after node rest log log' queue' u x r (inl h) = elim (Bool-cases (node == u)) [
      | inl same ↦ inr (subst (λ w. Explored log' w) ((eq_iff node u).0 same) r)
      | inr other ↦ inl (x.still_queued u (ground arith))
    ]

    pub Explored-of :
        (log : List (Growth L)) (u : String)
        → IsDone log []
        → elem u (names root log) ≡ true
        → Explored log u
    Explored-of log u d h = elim (d u h) [ inl q ↦ absurd (ground arith) | inr e ↦ e ]

  -- A queue that is not empty leaves a node to reach.
  pub exhausted :
      (node : String) (rest : List String) (log : List (Growth L))
      → IsSound log (node ∷ rest)
      → length (node ∷ rest) + length nodes ≤ length (names root log)
      → ⊥
  exhausted node rest log s m =
      omega (arith, length-le (names root log) nodes (names-IsNodup J root log s.grown) s.within)

  module _ {S : Type 0} (state : List (Growth L) → List String → S)
      (visit : String → S → String × L → S) (loop : String → List (String × L) → S → S)
      (loop_nil : (node : String) (s : S) → loop node [] s ≡ s)
      (loop_cons : (node : String) (x : String × L) (xs : List (String × L)) (s : S)
        → loop node (x ∷ xs) s ≡ loop node xs (visit node s x))
      (law : (node n : String) (l : L) (log : List (Growth L)) (queue : List String)
        → visit node (state log queue) (n, l) ≡ (
            if elem n (names root log)
            then state log queue
            else state
                (record { node = n; parent = node; edge = l } ∷ log)
                (queue ++ n ∷ []))) where
    -- The loop over the entries of a node reaches all of them.
    loop-Extends :
        (node : String) (entries : List (String × L)) (log : List (Growth L)) (queue : List String)
        → IsSound log queue
        → elem node (names root log) ≡ true
        → All (IsEntry node) entries
        → (log' : List (Growth L)) × (queue' : List String) × (loop node entries (state log queue)
            ≡ state log' queue')
          × Extends log queue log' queue'
          × All (Reaches log') entries
    loop-Extends node [] log queue s m h =
        (log, queue, loop_nil node (state log queue), Extends-refl s, tt)
    loop-Extends node ((n, l) ∷ entries) log queue s m h =
        elim (Bool-cases (elem n (names root log))) [
          | inl old ↦
              let (log', queue', e, x, r) = loop-Extends node entries log queue s m h.1 in
              (
                log',
                queue',
                loop_cons node (n, l) entries (state log queue)
                    ∙ ap (loop node entries) (law node n l log queue ∙ rw old refl)
                    ∙ e,
                x,
                (x.kept n old, r),
              )
          | inr fresh ↦
              let y = Extends-new node n l s m h.0 fresh in
              let (log', queue', e, x, r) =
                loop-Extends node entries (record { node = n; parent = node; edge = l } ∷ log)
                  (queue ++ n ∷ []) y.sound (y.kept node m) h.1 in
              (
                log',
                queue',
                loop_cons node (n, l) entries (state log queue)
                    ∙ ap (loop node entries) (law node n l log queue ∙ rw fresh refl)
                    ∙ e,
                Extends-trans y x,
                (x.kept n (ground (arith, eq_iff n n)), r),
              )
        ]

    module _ (neighbours : String → List (String × L))
        (entries : (v : String) → All (IsEntry v) (neighbours v)) where
      -- A round keeps the invariants, and queues what it adds to the growth.
      pub round :
          (node : String) (rest : List String) (log : List (Growth L))
          → IsSound log (node ∷ rest)
          → IsDone neighbours log (node ∷ rest)
          → (elem node nodes ≡ true)
            × ((log' : List (Growth L)) × (queue' : List String) × (loop node
                    (neighbours node)
                    (state log rest)
                  ≡ state log' queue')
                × IsSound log' queue'
                × IsDone neighbours log' queue'
                × (length queue' + length log ≡ length rest + length log'))
      round node rest log s d =
          let inside = s.queued node (ground (arith, eq_iff node node)) in
          let s' : IsSound log rest = record {
            grown = s.grown;
            within = s.within;
            queued = λ j h. s.queued j (ground arith);
          } in
          let (log', queue', e, x, r) =
            loop-Extends node (neighbours node) log rest s' inside (entries node) in
          (
            s.within node inside,
            (
              log',
              queue',
              e,
              x.sound,
              λ u h. elim (x.new_queued u h) [
                | inl old ↦ done_after neighbours node rest log log' queue' u x r (d u old)
                | inr q ↦ inl q
              ],
              x.sizes,
            ),
          )
