-- ===== src/Fluids/Network/Solve.antt =====
-- `_hardy_cross_solve`, `SolvedNetwork` and `solve_flownet_bytes` of
-- python/feldspar/fluids/network.py. The parser of the payload is a parameter. `Standing`,
-- `Times` and `Correction` are about one loop's correction, `Conservation` about the whole solve.
pub mod Standing
pub mod Times
pub mod Correction
pub mod Conservation
pub mod Outcome
pub mod Dangling
use feldspar.Prelude.{
  ℕ, zero, suc, String, Bool, true, false, not, List, [], ◌∷◌, Result, ok, err, ◌>>=◌, ◌<>◌,
  if◌then◌else◌,
}
use feldspar.Prelude.Dict.{Dict, insert}
use feldspar.Prelude.Float.{FloatOps, lt, eq, max}
use feldspar.Solve.Errors.{SolveError}
use feldspar.Fluids.Network.Edges.{
  Edge, FlownetPayload, Stop, error, unsupported, Constants, is_unknown, edges_of,
}
use feldspar.Fluids.Network.Losses.{Formulas, edge_dp_and_k}
use feldspar.Fluids.Network.Ends.{edge_at, index_ends}
use feldspar.Fluids.Network.Tree.{spanning_tree, refuse}
use feldspar.Fluids.Network.Cycles.{Sign, plus, minus, build_cycle_basis}
use feldspar.Fluids.Network.Seed.{set_flow, signed, seed_flows}

-- `_HC_MAX_ITER`
abbrev pub hc_max_iter : ℕ
hc_max_iter = 100

-- `except _UnsupportedFeature`
unfoldable pub catch_unsupported : {A F : Type 0} → Result A (Stop F) → Result A (Stop F)
unfolding refuse
catch_unsupported (err (unsupported edge_id feature)) = refuse feature
catch_unsupported (err stop) = err stop
catch_unsupported (ok a) = ok a

module _ {F : Type 0} ⦃o : FloatOps F⦄ where
  -- `edge.flow += sign * dq` along the loop.
  unfoldable pub apply_correction :
      F → List (ℕ × Sign) → List (Edge F) → Result (List (Edge F)) (Stop F)
  unfolding edge_at is_unknown set_flow
  apply_correction dq [] edges = ok edges
  apply_correction dq ((i, s) ∷ loop) edges = do
    e ← edge_at edges i
    apply_correction dq loop
        (if is_unknown e then set_flow i (o.add e.flow (signed s dq)) edges else edges)

module _ {F : Type 0} ⦃o : FloatOps F⦄ (c : Constants F) (g : Formulas F) where
  -- The numerator and the denominator of a loop's correction.
  unfoldable pub loop_terms : List (Edge F) → List (ℕ × Sign) → F → F → Result (F × F) (Stop F)
  unfolding edge_at is_unknown edge_dp_and_k
  loop_terms edges [] numerator denominator = ok (numerator, denominator)
  loop_terms edges ((i, s) ∷ loop) numerator denominator = do
    e ← edge_at edges i
    if is_unknown e
        then (do
          (dp, k) ← edge_dp_and_k c g e (signed s e.flow)
          loop_terms edges loop (o.add numerator dp) (o.add denominator k))
        else loop_terms edges loop (o.add numerator (signed s o.zero)) denominator

  -- The body of the loop over the loops.
  unfoldable pub correct_loop :
      List (ℕ × Sign) → List (Edge F) → F → Result (List (Edge F) × F) (Stop F)
  unfolding loop_terms apply_correction refuse
  correct_loop loop edges max_dq = do
    (numerator, denominator) ← loop_terms edges loop o.zero o.zero
    if eq denominator o.zero then refuse "all_imposer_loop" else do
      let dq = o.div (o.neg numerator) denominator
      edges' ← apply_correction dq loop edges
      ok (edges', max max_dq (o.abs dq))

  unfoldable pub correct_loops :
      List (List (ℕ × Sign)) → List (Edge F) → F → Result (List (Edge F) × F) (Stop F)
  unfolding correct_loop
  correct_loops [] edges max_dq = ok (edges, max_dq)
  correct_loops (loop ∷ loops) edges max_dq = do
    (edges', max_dq') ← correct_loop loop edges max_dq
    correct_loops loops edges' max_dq'

  -- The iterations that are left; the error names how many there were.
  unfoldable pub converge :
      ℕ → List (List (ℕ × Sign)) → List (Edge F) → F → Result (List (Edge F)) (Stop F)
  unfolding correct_loops
  converge zero loops edges max_dq = err (error (SolveError.no_convergence hc_max_iter max_dq))
  converge (suc n) loops edges max_dq =
      correct_loops loops edges o.zero >>= λ (next : List (Edge F) × F). elim (lt next.1 c.hc_tol) [
        | true ↦ ok next.0
        | false ↦ converge n loops next.0 next.1
      ]

  -- From the edges on.
  unfoldable pub solve_edges : List String → List (Edge F) → Result (List (Edge F)) (Stop F)
  unfolding spanning_tree build_cycle_basis seed_flows converge
  solve_edges nodes edges = do
    tree ← spanning_tree nodes edges
    loops ← build_cycle_basis edges tree nodes
    seeded ← seed_flows c nodes edges tree
    converge hc_max_iter loops seeded o.zero

  unfoldable pub hardy_cross_solve : FlownetPayload F → Result (List (Edge F)) (Stop F)
  unfolding catch_unsupported edges_of solve_edges
  hardy_cross_solve payload = do
    edges ← catch_unsupported (edges_of c payload.edges)
    solve_edges payload.nodes edges

pub record SolvedNetwork (F : Type 0) : Type 0 where
  pub payload : FlownetPayload F
  pub edges : List (Edge F)
  pub by_id : Dict (Edge F)
  pub incidence : Dict (List (Edge F × Sign))

-- `{e.id: e for e in edges}`
unfoldable pub edges_by_id : {F : Type 0} → List (Edge F) → Dict (Edge F) → Dict (Edge F)
unfolding insert
edges_by_id [] d = d
edges_by_id (e ∷ es) d = edges_by_id es (insert e.id e d)

-- `SolvedNetwork(payload, edges)`
unfoldable pub solved_network :
    {F : Type 0} → FlownetPayload F → List (Edge F) → Result (SolvedNetwork F) (Stop F)
unfolding edges_by_id index_ends
solved_network payload edges = do
  incidence ← index_ends (λ i e. (e, minus)) (λ i e. (e, plus)) payload.nodes edges
  ok (record {
    payload = payload;
    edges = edges;
    by_id = edges_by_id edges [];
    incidence = incidence;
  })

-- `FlownetPayload.model_validate_json`, whose failure is the text of its exception.
unfoldable pub parse_flownet :
    {B F : Type 0} → (B → Result (FlownetPayload F) String) → B → Result (FlownetPayload F) (Stop F)
parse_flownet parse bytes = elim (parse bytes) [
  | ok payload ↦ ok payload
  | err exc ↦ err (error (SolveError.parse_failed ("flownet payload: " <> exc)))
]

unfoldable pub solve_flownet_bytes :
    {B F : Type 0} ⦃o : FloatOps F⦄
    → (B → Result (FlownetPayload F) String)
    → Constants F
    → Formulas F
    → B
    → Result (SolvedNetwork F) (Stop F)
unfolding parse_flownet hardy_cross_solve solved_network
solve_flownet_bytes parse c g bytes = do
  payload ← parse_flownet parse bytes
  edges ← hardy_cross_solve c g payload
  solved_network payload edges
