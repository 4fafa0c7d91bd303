-- ===== src/Pack/Queries.antt =====
-- The three queries on a solved flow network of python/feldspar/pack/models.py, and the resolvers of
-- python/feldspar/pack/payload_bridge.py. The caller's resolver, the reader of an envelope and the
-- rendering of values in messages are parameters. `Selection` is about the choice of edges, `Drop` about
-- the pressure drop. The content of a refusal's message is its data.
pub mod Selection
pub mod Drop
use feldspar.Prelude.{
  ℕ, zero, suc, ◌+◌, String, Bool, true, false, not, ◌&&◌, ◌||◌, Option, none, some, List, [], ◌∷◌,
  Result, ok, err, ◌>>=◌, ◌==◌, keep, map, elem, length, leb, ltb, if◌then◌else◌,
}
use Prim.Native.String.{len, slice}
use text.Mathlib.Text.{find?}
use feldspar.Prelude.Dict.{Dict, lookup, contains, keys}
use feldspar.Prelude.Order.{before}
use feldspar.Prelude.Float.{FloatOps, eq, max}
use feldspar.Core.{Interval}
use feldspar.Solve.Errors.{SolveError}
use feldspar.Fluids.Network.Edges.{Edge, Stop, error, Constants, FlownetPayload, get_item}
use feldspar.Fluids.Network.Losses.{Formulas, edge_dp}
use feldspar.Fluids.Network.Cycles.{Sign}
use feldspar.Fluids.Network.Seed.{signed}
use feldspar.Fluids.Network.Solve.{SolvedNetwork, solve_flownet_bytes}
use feldspar.Fluids.Network.Paths.{find_path_edges}

-- `NoStoreResolver.resolve`
unfoldable pub no_store_resolve : {B F : Type 0} → String → Result B (SolveError F)
no_store_resolve guidance =
    err (SolveError.tool_missing "regolith.orchestrator.payload_store" guidance)

-- `RegolithResolverAdapter.resolve`: the declared version is what the bytes have under
-- `schema_version`, `none` where they have none.
module _ {B X V F : Type 0} (resolve : String → Result B X) (declared : B → Result V String)
    (is_understood : V → Bool) (bad_json : String → String → String)
    (mismatch : String → V → String) where
  unfoldable pub check_version : String → B → Result B (SolveError F)
  check_version digest content = elim (declared content) [
    | err exc ↦ err (SolveError.parse_failed (bad_json digest exc))
    | ok version ↦
        if is_understood version
        then ok content
        else err (SolveError.parse_failed (mismatch digest version))
  ]

  unfoldable pub adapter_resolve : String → Result B (SolveError F)
  unfolding check_version
  adapter_resolve digest = elim (resolve digest) [
    | err _ ↦ err (SolveError.dangling_digest digest)
    | ok content ↦ check_version digest content
  ]

-- How a query ends without a number.
pub data Refusal (F : Type 0) : Type 0 where
  engine_failed : Stop F → Refusal F
  unclear_role : (role : Option String) → Refusal F
  unclear_inputs : (selected : List String) → Refusal F
  unclear_nodes : (from_nodes to_nodes : List String) → Refusal F
  zero_mean : (selected : List String) → Refusal F

abbrev pub map_failure : {A F : Type 0} → Result A (Stop F) → Result A (Refusal F)
map_failure (ok a) = ok a
map_failure (err e) = err (engine_failed e)

-- `_resolve_solved_network`, from what the resolver gives.
unfoldable pub resolve_solved_network :
    {B F : Type 0}
    → Result B (SolveError F)
    → (B → Result (SolvedNetwork F) (Stop F))
    → Result (SolvedNetwork F) (Refusal F)
resolve_solved_network (err e) solve = err (engine_failed (error e))
resolve_solved_network (ok content) solve = map_failure (solve content)

-- `text.split(sep)`, on fuel of one round for each byte.
unfoldable split_from : ℕ → String → String → List String
split_from zero text sep = text ∷ []
split_from (suc fuel) text sep = elim (find? text sep) [
  | none ↦ text ∷ []
  | some i ↦ slice text 0 i ∷ split_from fuel (slice text (i + len sep) (len text)) sep
]

unfoldable pub split : String → String → List String
unfolding split_from
split text sep = split_from (len text) text sep

-- `sorted` of texts
unfoldable place_text : String → List String → List String
place_text k [] = k ∷ []
place_text k (j ∷ ks) = if before j k then j ∷ place_text k ks else k ∷ j ∷ ks

unfoldable pub sort_texts : List String → List String
unfolding place_text
sort_texts [] = []
sort_texts (k ∷ ks) = place_text k (sort_texts ks)

-- `set(ks)`
unfoldable pub set_of : List String → List String
set_of [] = []
set_of (k ∷ ks) = let rest = set_of ks in if elem k rest then rest else k ∷ rest

-- The one element of a list.
abbrev pub only : List String → Option String
only [] = none
only (k ∷ []) = some k
only (k ∷ j ∷ ks) = none

abbrev pub or_empty : Option String → String
or_empty none = ""
or_empty (some role) = role

module _ {F : Type 0} (network : SolvedNetwork F) where
  -- The edges that a role names, by `,`.
  unfoldable pub role_edges : String → Result (List String) (Refusal F)
  unfolding lookup split sort_texts set_of
  role_edges role =
      let candidates = keep (λ part. not (part == "")) (split role ",") in
      let selected = sort_texts (keep (λ k. contains k network.by_id) candidates) in
      if ltb (length selected) 2
        || not (
            leb (length selected) (length (set_of candidates))
            && leb (length (set_of candidates)) (length selected))
      then err (unclear_role (some role))
      else ok selected

module _ {F : Type 0} (network : SolvedNetwork F) (inputs : Dict (Interval F)) where
  -- `FluidsMdotModel.estimate`, on the solved network.
  unfoldable pub query_mdot : Result F (Refusal F)
  unfolding lookup get_item
  query_mdot = elim (network.payload.claim_target) [
    | some target ↦ elim target.role [
      | none ↦ err (unclear_role none)
      | some role ↦ elim (lookup role network.by_id) [
        | none ↦ err (unclear_role (some role))
        | some edge ↦ ok edge.flow
      ]
    ]
    | none ↦
        let selected = keep (λ k. contains k network.by_id) (keys inputs) in
        elim selected [
          | k ∷ [] ↦ map_failure (get_item k network.by_id >>= λ (edge : Edge F). ok edge.flow)
          | others ↦ err (unclear_inputs others)
        ]
  ]

  -- The edges that a flow imbalance is over.
  unfoldable pub input_edges : Result (List String) (Refusal F)
  unfolding lookup sort_texts
  input_edges =
      let selected = sort_texts (keep (λ k. contains k network.by_id) (keys inputs)) in
      if ltb (length selected) 2 then err (unclear_inputs selected) else ok selected

  unfoldable pub selected_edges : Result (List String) (Refusal F)
  unfolding role_edges input_edges
  selected_edges = elim (network.payload.claim_target) [
    | some target ↦ role_edges network (or_empty target.role)
    | none ↦ input_edges
  ]

module _ {F : Type 0} ⦃o : FloatOps F⦄ (from_nat : ℕ → F) (network : SolvedNetwork F) where
  unfoldable pub flows_of : List String → Result (List F) (Stop F)
  unfolding get_item
  flows_of [] = ok []
  flows_of (k ∷ ks) = do
    edge ← get_item k network.by_id
    flows ← flows_of ks
    ok (o.abs edge.flow ∷ flows)

  abbrev pub sum_of : F → List F → F
  sum_of x [] = x
  sum_of x (y ∷ ys) = sum_of (o.add x y) ys

  abbrev pub greatest : F → List F → F
  greatest x [] = x
  greatest x (y ∷ ys) = greatest (max x y) ys

  abbrev pub least : F → List F → F
  least x [] = x
  least x (y ∷ ys) = least (if o.le x y then x else y) ys

  -- `(max - min) / mean`; the selection has two edges or more.
  unfoldable pub imbalance_of : List String → List F → Result F (Refusal F)
  imbalance_of selected [] = err (zero_mean selected)
  imbalance_of selected (f ∷ flows) =
      let mean = o.div (sum_of o.zero (f ∷ flows)) (from_nat (length (f ∷ flows))) in
      if o.le mean o.zero
      then err (zero_mean selected)
      else ok (o.div (o.sub (greatest f flows) (least f flows)) mean)

  -- `FluidsFlowImbalanceModel.estimate`, on the solved network.
  unfoldable pub query_flow_imbalance : Dict (Interval F) → Result F (Refusal F)
  unfolding selected_edges flows_of imbalance_of
  query_flow_imbalance inputs = do
    selected ← selected_edges network inputs
    flows ← map_failure (flows_of selected)
    imbalance_of selected flows

module _ {F : Type 0} ⦃o : FloatOps F⦄ (c : Constants F) (g : Formulas F)
    (network : SolvedNetwork F) where
  -- The nodes of the role `"<from>-><to>"`.
  unfoldable pub role_nodes : String → Result (String × String) (Refusal F)
  unfolding lookup split
  role_nodes role = elim (split role "->") [
    | a ∷ b ∷ [] ↦
        if (a == "")
          || (b == "")
          || not (contains a network.incidence)
          || not (contains b network.incidence)
        then err (unclear_role (some role))
        else ok (a, b)
    | _ ↦ err (unclear_role (some role))
  ]

  -- The node inputs that carry a given role number.
  unfoldable pub nodes_with : F → Dict (Interval F) → List String
  unfolding lookup
  nodes_with role inputs =
      keys
        (keep (λ e. contains e.0 network.incidence && (eq e.1.lo e.1.hi && eq e.1.hi role)) inputs)

  unfoldable pub input_nodes : Dict (Interval F) → Result (String × String) (Refusal F)
  unfolding nodes_with
  input_nodes inputs =
      let from_nodes = nodes_with o.zero inputs in
      let to_nodes = nodes_with c.one inputs in
      elim (only from_nodes) [
        | some a ↦ elim (only to_nodes) [
          | some b ↦ ok (a, b)
          | none ↦ err (unclear_nodes from_nodes to_nodes)
        ]
        | none ↦ err (unclear_nodes from_nodes to_nodes)
      ]

  unfoldable pub end_nodes : Dict (Interval F) → Result (String × String) (Refusal F)
  unfolding role_nodes input_nodes
  end_nodes inputs = elim (network.payload.claim_target) [
    | some target ↦ role_nodes (or_empty target.role)
    | none ↦ input_nodes inputs
  ]

  -- `sum(sign * edge_dp(edge) for edge, sign in path)`
  unfoldable pub total_dp : F → List (Edge F × Sign) → Result F (Stop F)
  unfolding edge_dp
  total_dp x [] = ok x
  total_dp x ((e, s) ∷ path) = do dp ← edge_dp c g e; total_dp (o.add x (signed s dp)) path

  -- `FluidsDpModel.estimate`, on the solved network.
  unfoldable pub query_dp : Dict (Interval F) → Result F (Refusal F)
  unfolding end_nodes find_path_edges total_dp
  query_dp inputs = do
    ends ← end_nodes inputs
    path ← map_failure (find_path_edges network ends.0 ends.1)
    map_failure (total_dp o.zero path)
