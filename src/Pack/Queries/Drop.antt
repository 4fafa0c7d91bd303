-- ===== src/Pack/Queries/Drop.antt =====
-- What `FluidsDpModel.estimate` of python/feldspar/pack/models.py sums.
use feldspar.Prelude.{
  String, ◌≡◌, refl, true, some, List, [], ◌∷◌, ◌⊎◌, inl, inr, ok, elem, arith, eq_iff,
  Option-cases, ◌∙◌, sym, ap, err,
}
use feldspar.Prelude.Dict.{Dict, contains}
use feldspar.Prelude.Float.{FloatOps, ExactSums, ArithmeticError}
use feldspar.Prelude.Sums.{add_swap, neg_add_self, zero_add}
use feldspar.Fluids.Network.Seed.{signed}
use feldspar.Core.{Interval}
use feldspar.Fluids.Network.Edges.{Edge, Constants, FlownetPayload, arithmetic}
use feldspar.Fluids.Network.Ends.{IsClosed}
use feldspar.Fluids.Network.Losses.{Formulas, edge_dp}
use feldspar.Fluids.Network.Losses.Arithmetic.{edge_dp-Computes}
use feldspar.Fluids.Network.Tree.{refuse}
use feldspar.Fluids.Network.Cycles.{Sign, plus, minus}
use feldspar.Fluids.Network.Solve.{SolvedNetwork, solved_network}
use feldspar.Fluids.Network.Paths.Trace.{IsPath}
use feldspar.Fluids.Network.Paths.Walks.{incidence_of, find_path_edges-IsPath}
use feldspar.Pack.Queries.{
  engine_failed, only, map_failure, role_nodes, nodes_with, input_nodes, end_nodes, total_dp,
  query_dp, or_empty,
}

only-elem : (ks : List String) (a : String) → only ks ≡ some a → elem a ks ≡ true
only-elem [] a h = ground arith
only-elem (k ∷ []) a h = ground (arith, eq_iff k a)
only-elem (k ∷ j ∷ ks) a h = ground arith

module _ {F : Type 0} ⦃o : FloatOps F⦄ (c : Constants F) (g : Formulas F)
    (network : SolvedNetwork F) where
  nodes_with-IsNode :
      (role : F) (inputs : Dict (Interval F)) (a : String)
      → elem a (nodes_with c g network role inputs) ≡ true
      → contains a network.incidence ≡ true
  unfolding nodes_with
  nodes_with-IsNode role [] a h = ground arith
  nodes_with-IsNode role (e ∷ inputs) a h =
      ground (arith, eq_iff e.0 a, nodes_with-IsNode role inputs a)

  input_nodes-IsNode :
      (inputs : Dict (Interval F)) (a b : String)
      → input_nodes c g network inputs ≡ ok (a, b)
      → (contains a network.incidence ≡ true) × (contains b network.incidence ≡ true)
  unfolding input_nodes
  input_nodes-IsNode inputs a b h =
      let from_nodes = nodes_with c g network o.zero inputs in
      let to_nodes = nodes_with c g network c.one inputs in
      ground (
        arith,
        nodes_with-IsNode o.zero inputs a,
        nodes_with-IsNode c.one inputs b,
        only-elem from_nodes a,
        only-elem to_nodes b,
      )

  role_nodes-IsNode :
      (role a b : String)
      → role_nodes c g network role ≡ ok (a, b)
      → (contains a network.incidence ≡ true) × (contains b network.incidence ≡ true)
  unfolding role_nodes
  role_nodes-IsNode role a b h = ground arith

  end_nodes-IsNode :
      (inputs : Dict (Interval F)) (a b : String)
      → end_nodes c g network inputs ≡ ok (a, b)
      → (contains a network.incidence ≡ true) × (contains b network.incidence ≡ true)
  unfolding end_nodes
  end_nodes-IsNode inputs a b h = elim (Option-cases (network.payload.claim_target)) [
    | inl e ↦ input_nodes-IsNode inputs a b (rw e at h)
    | inr (target, e) ↦ role_nodes-IsNode (or_empty target.role) a b (rw e at h)
  ]

-- The edges of a path that are taken from `a` to `b`, and those that are taken from `b` to `a`.
abbrev pub along : {F : Type 0} → List (Edge F × Sign) → List (Edge F)
along [] = []
along ((e, plus) ∷ path) = e ∷ along path
along ((e, minus) ∷ path) = along path

abbrev pub against : {F : Type 0} → List (Edge F × Sign) → List (Edge F)
against [] = []
against ((e, plus) ∷ path) = against path
against ((e, minus) ∷ path) = e ∷ against path

module _ {F : Type 0} ⦃o : FloatOps F⦄ (x : ExactSums F o) (c : Constants F) (g : Formulas F) where
  -- A number is the sum of the pressure drops of edges, each from its `a` to its `b`.
  unfoldable pub IsDrop : List (Edge F) → F → Type 0
  IsDrop [] v = v ≡ o.zero
  IsDrop (e ∷ es) v = (dp rest : F) × (edge_dp c g e ≡ ok dp) × IsDrop es rest × (v ≡ o.add dp rest)

  -- A total, which starts from `start`, of the drops along less those against.
  IsTotal : F → List (Edge F × Sign) → F → Type 0
  IsTotal start path v =
      (up down : F) × IsDrop (along path) up
      × IsDrop (against path) down
      × (o.add v down ≡ o.add start up)

  IsTotal-plus :
      (start dp v : F) (e : Edge F) (path : List (Edge F × Sign))
      → edge_dp c g e ≡ ok dp
      → IsTotal (o.add start dp) path v
      → IsTotal start ((e, plus) ∷ path) v
  unfolding IsDrop IsTotal
  IsTotal-plus start dp v e path h (up, down, a, b, sum) =
      (o.add dp up, down, (dp, up, h, a, refl), b, sum ∙ x.add_assoc start dp up)

  IsTotal-minus :
      (start dp v : F) (e : Edge F) (path : List (Edge F × Sign))
      → edge_dp c g e ≡ ok dp
      → IsTotal (o.add start (o.neg dp)) path v
      → IsTotal start ((e, minus) ∷ path) v
  unfolding IsDrop IsTotal
  IsTotal-minus start dp v e path h (up, down, a, b, sum) = (
    up,
    o.add dp down,
    a,
    (dp, down, h, b, refl),
    ap (o.add v) (x.add_comm dp down)
        ∙ sym (x.add_assoc v down dp)
        ∙ ap (λ t. o.add t dp) sum
        ∙ add_swap x (o.add start (o.neg dp)) up dp
        ∙ ap (λ t. o.add t up)
            (x.add_assoc start (o.neg dp) dp
              ∙ ap (o.add start) (neg_add_self x dp)
              ∙ x.add_zero start),
  )

  IsTotal-step :
      (start dp v : F) (e : Edge F) (s : Sign) (path : List (Edge F × Sign))
      → edge_dp c g e ≡ ok dp
      → IsTotal (o.add start (signed s dp)) path v
      → IsTotal start ((e, s) ∷ path) v
  IsTotal-step start dp v e plus path = IsTotal-plus start dp v e path
  IsTotal-step start dp v e minus path = IsTotal-minus start dp v e path

  total_dp-IsTotal :
      (network : SolvedNetwork F) (start : F) (path : List (Edge F × Sign))
      → ((v : F) × (total_dp c g network start path ≡ ok v) × IsTotal start path v)
        ⊎ ((e : ArithmeticError) × (total_dp c g network start path ≡ err (arithmetic e)))
  unfolding total_dp IsDrop IsTotal
  total_dp-IsTotal network start [] = inl (start, refl, (o.zero, o.zero, refl, refl, refl))
  total_dp-IsTotal network start ((e, s) ∷ path) = elim (edge_dp-Computes c g e) [
    | inr (exc, h) ↦ inr (exc, rw h refl)
    | inl (dp, h) ↦ elim (total_dp-IsTotal network (o.add start (signed s dp)) path) [
      | inr (exc, k) ↦ inr (exc, rw h k)
      | inl (v, k, total) ↦ inl (v, rw h k, IsTotal-step start dp v e s path h total)
    ]
  ]

module _ {F : Type 0} ⦃o : FloatOps F⦄ (x : ExactSums F o) (c : Constants F) (g : Formulas F)
    (payload : FlownetPayload F) (edges : List (Edge F)) (network : SolvedNetwork F) where
  -- On exact sums and a network whose edges all end at its nodes, for a request that selects two
  -- end nodes, one of three holds. The query gives a number that, with the drops of the edges that
  -- some path over edges of the network from the first node to the second takes from `b` to `a`,
  -- makes the drops of those that it takes from `a` to `b`. Or it stops with an arithmetic error.
  -- Or it gives the refusal of a disconnected query, and there is no such path.
  pub query_dp-IsDrop :
      (inputs : Dict (Interval F)) (a b : String)
      → IsClosed payload.nodes edges
      → solved_network payload edges ≡ ok network
      → end_nodes c g network inputs ≡ ok (a, b)
      → ((path : List (Edge F × Sign)) × (v up down : F) × IsPath edges a b path
          × (query_dp c g network inputs ≡ ok v)
          × IsDrop x c g (along path) up
          × IsDrop x c g (against path) down
          × (o.add v down ≡ up))
        ⊎ ((e : ArithmeticError) × (query_dp c g network inputs
              ≡ err (engine_failed (arithmetic e))))
        ⊎ ((query_dp c g network inputs ≡ map_failure (refuse "disconnected_query_path"))
            × ¬ ((path : List (Edge F × Sign)) × IsPath edges a b path))
  unfolding query_dp IsTotal
  query_dp-IsDrop inputs a b closed h ends =
      let nodes = end_nodes-IsNode c g network inputs a b ends in
      let (_, _, at) = incidence_of payload edges network closed h in
      elim (find_path_edges-IsPath payload edges network a b closed h (sym (at a) ∙ nodes.0)
        (sym (at b) ∙ nodes.1)) [
          | inr (e, absent) ↦ inr (inr (rw (ends, e) refl, absent))
          | inl (path, e, is) ↦ elim (total_dp-IsTotal x c g network o.zero path) [
            | inr (exc, k) ↦ inr (inl (exc, rw (ends, e, k) refl))
            | inl (v, k, (up, down, rising, falling, sum)) ↦
                inl (
                  path,
                  v,
                  up,
                  down,
                  is,
                  rw (ends, e, k) refl,
                  rising,
                  falling,
                  sum ∙ zero_add x up,
                )
          ]
        ]
