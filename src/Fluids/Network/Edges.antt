-- ===== src/Fluids/Network/Edges.antt =====
-- The wire format of a flow network and `_Edge.__init__` of python/feldspar/fluids/network.py. A
-- value of `params` is taken in the shapes that the schema has; a missing key is a value.
use feldspar.Prelude.{
  ◌≡◌, arith, String, Bool, true, false, ◌&&◌, not, Option, none, some, List, [], ◌∷◌, Result, ok,
  err, ◌>>=◌, ◌>>◌, ◌==◌, ◌<>◌, elem, if◌then◌else◌,
}
use feldspar.Prelude.Dict.{Dict, lookup, contains}
use feldspar.Prelude.Float.{FloatOps, lt, eq, ArithmeticError}
use feldspar.Solve.Errors.{SolveError}

-- `ScalarInterval`: a bare number, or a dict whose keys may be missing.
pub data Scalar (F : Type 0) : Type 0 where
  number : F → Scalar F
  interval : (lo hi : Option F) → Scalar F

-- `params["record"]`: its `digest` where it is a dict.
pub data Extract : Type 0 where
  not_a_dict : Extract
  dict : (digest : Option String) → Extract

pub record EdgeParams (F : Type 0) : Type 0 where
  pub source : Option String
  pub extract : Option Extract
  pub selector : Option String
  pub values : Dict (Scalar F)

pub record FlowEdge (F : Type 0) : Type 0 where
  pub id : String
  pub a : String
  pub b : String
  pub kind : String
  pub params : EdgeParams F

pub record ClaimTarget : Type 0 where
  pub claim_kind : String
  pub role : Option String

pub record FlownetPayload (F : Type 0) : Type 0 where
  pub nodes : List String
  pub edges : List (FlowEdge F)
  pub claim_target : Option ClaimTarget

pub record Edge (F : Type 0) : Type 0 where
  pub id : String
  pub a : String
  pub b : String
  pub kind : String
  pub length : F
  pub diameter : F
  pub roughness : F
  pub density : F
  pub viscosity : F
  pub flow : F
  pub cd : F
  pub bore_diameter : F
  pub resistance : F

-- How a computation stops: by an error value, or by what Python raises.
pub data Stop (F : Type 0) : Type 0 where
  error : SolveError F → Stop F
  unsupported : (edge_id feature : String) → Stop F
  key_error : String → Stop F
  index_error out_of_fuel : Stop F
  arithmetic : ArithmeticError → Stop F

-- The kinds whose flow is an unknown.
unfoldable pub is_unknown : {F : Type 0} → Edge F → Bool
is_unknown e = elem e.kind ("pipe" ∷ "orifice" ∷ "hx_segment" ∷ [])

-- The numbers of the module.
pub record Constants (F : Type 0) : Type 0 where
  pub one : F
  pub two : F
  pub pi : F
  pub orifice_beta_min : F
  pub orifice_beta_max : F
  pub hc_tol : F
  pub conservation_tol : F
  pub chord_seed : F
  pub laminar_re_ceiling : F
  pub slope_rel : F
  pub slope_min : F

-- `d[key]`
unfoldable pub get_item {ℓ} : {V : Type ℓ} {F : Type 0} → String → Dict V → Result V (Stop F)
unfolding lookup
get_item key d = elim (lookup key d) [ none ↦ err (key_error key) | some v ↦ ok v ]

pub get_item-some {ℓ} :
    {V : Type ℓ} {F : Type 0} (key : String) (d : Dict V) {v : V}
    → lookup key d ≡ some v
    → get_item {F = F} key d ≡ ok v
unfolding get_item
get_item-some key d h = ground arith

unfoldable pub require_keys :
    {F : Type 0} → String → Dict (Scalar F) → List String → Result (Unit {0}) (Stop F)
unfolding lookup
require_keys edge_id values [] = ok tt
require_keys edge_id values (key ∷ keys) =
    if contains key values
    then require_keys edge_id values keys
    else err (unsupported edge_id ("missing_param:" <> key))

-- `source or "unknown"`
unfoldable pub or_unknown : Option String → String
or_unknown none = "unknown"
or_unknown (some s) = if s == "" then "unknown" else s

-- `not isinstance(record, dict) or not record.get("digest")`
unfoldable pub is_unresolved : Option Extract → Bool
is_unresolved (some (dict (some digest))) = digest == ""
is_unresolved _ = true

abbrev has : {A : Type 0} → Option A → Bool
has none = false
has (some _) = true

-- Why an edge of extracted geometry is refused.
unfoldable pub geom_extract_stop : {F : Type 0} → String → EdgeParams F → Stop F
unfolding is_unresolved
geom_extract_stop edge_id params =
    if not (has params.extract)
    then unsupported edge_id "missing_param:record"
    else if not (has params.selector)
    then unsupported edge_id "missing_param:selector"
    else if is_unresolved params.extract
    then unsupported edge_id "edge_params:geom_extract:unresolved_digest"
    else unsupported edge_id "edge_params:geom_extract"

module _ {F : Type 0} ⦃o : FloatOps F⦄ where
  unfoldable pub scalar_value : Scalar F → Result F (Stop F)
  scalar_value (number x) = ok x
  scalar_value (interval none hi) = err (key_error "lo")
  scalar_value (interval (some lo) none) = err (key_error "hi")
  scalar_value (interval (some lo) (some hi)) = ok (o.half (o.add lo hi))

  -- `_scalar_value(values[key])`
  unfoldable pub value_at : String → Dict (Scalar F) → Result F (Stop F)
  unfolding get_item scalar_value
  value_at key values = do s ← get_item key values; scalar_value s

  -- `_scalar_value(values.get("roughness", 0.0))`
  unfoldable pub value_or_zero : String → Dict (Scalar F) → Result F (Stop F)
  unfolding lookup scalar_value
  value_or_zero key values = elim (lookup key values) [ none ↦ ok o.zero | some s ↦ scalar_value s ]

  -- The slots that every kind sets, with the rest at zero.
  unfoldable pub blank_edge : FlowEdge F → Edge F
  blank_edge e = record {
    id = e.id;
    a = e.a;
    b = e.b;
    kind = e.kind;
    length = o.zero;
    diameter = o.zero;
    roughness = o.zero;
    density = o.zero;
    viscosity = o.zero;
    flow = o.zero;
    cd = o.zero;
    bore_diameter = o.zero;
    resistance = o.zero;
  }

  unfoldable pub pipe_edge : FlowEdge F → Result (Edge F) (Stop F)
  unfolding require_keys value_at value_or_zero blank_edge
  pipe_edge e = do
    require_keys e.id e.params.values ("length" ∷ "diameter" ∷ "density" ∷ "viscosity" ∷ [])
    length ← value_at "length" e.params.values
    diameter ← value_at "diameter" e.params.values
    roughness ← value_or_zero "roughness" e.params.values
    density ← value_at "density" e.params.values
    viscosity ← value_at "viscosity" e.params.values
    ok (record (blank_edge e) {
      length = length;
      diameter = diameter;
      roughness = roughness;
      density = density;
      viscosity = viscosity;
    })

  unfoldable pub imposer_edge : FlowEdge F → Result (Edge F) (Stop F)
  unfolding require_keys value_at blank_edge
  imposer_edge e = do
    require_keys e.id e.params.values ("flow_rate" ∷ [])
    flow ← value_at "flow_rate" e.params.values
    ok (record (blank_edge e) { flow = flow })

  module _ (c : Constants F) where
    -- `bore_diameter / pipe_diameter if pipe_diameter else math.inf`
    unfoldable pub orifice_beta : F → F → F
    orifice_beta bore pipe = if eq pipe o.zero then o.inf else o.div bore pipe

    unfoldable pub orifice_edge : FlowEdge F → Result (Edge F) (Stop F)
    unfolding require_keys value_at blank_edge orifice_beta
    orifice_edge e = do
      require_keys e.id e.params.values ("cd" ∷ "bore_diameter" ∷ "pipe_diameter" ∷ "density" ∷ [])
      cd ← value_at "cd" e.params.values
      bore_diameter ← value_at "bore_diameter" e.params.values
      pipe_diameter ← value_at "pipe_diameter" e.params.values
      if not (lt o.zero cd && o.le cd c.one)
          then err (unsupported e.id "orifice_cd_out_of_range")
          else if not (
              o.le c.orifice_beta_min (orifice_beta bore_diameter pipe_diameter)
              && o.le (orifice_beta bore_diameter pipe_diameter) c.orifice_beta_max)
          then err (unsupported e.id "orifice_beta_out_of_range")
          else do
            density ← value_at "density" e.params.values
            ok (record (blank_edge e) {
              diameter = pipe_diameter;
              density = density;
              cd = cd;
              bore_diameter = bore_diameter;
            })

  unfoldable pub hx_segment_edge : FlowEdge F → Result (Edge F) (Stop F)
  unfolding require_keys value_at blank_edge
  hx_segment_edge e = do
    require_keys e.id e.params.values ("k_factor" ∷ "diameter" ∷ "density" ∷ [])
    resistance ← value_at "k_factor" e.params.values
    diameter ← value_at "diameter" e.params.values
    if lt resistance o.zero
        then err (unsupported e.id "hx_segment_negative_resistance")
        else if o.le diameter o.zero
        then err (unsupported e.id "hx_segment_nonpositive_diameter")
        else do
          density ← value_at "density" e.params.values
          ok (record (blank_edge e) {
            diameter = diameter;
            density = density;
            resistance = resistance;
          })

  module _ (c : Constants F) where
    unfoldable pub edge_of_kind : FlowEdge F → Result (Edge F) (Stop F)
    unfolding pipe_edge imposer_edge orifice_edge hx_segment_edge
    edge_of_kind e =
        if e.kind == "pipe"
        then pipe_edge e
        else if e.kind == "imposer"
        then imposer_edge e
        else if e.kind == "orifice"
        then orifice_edge c e
        else if e.kind == "hx_segment"
        then hx_segment_edge e
        else err (unsupported e.id ("edge_kind:" <> e.kind))

    -- `_Edge(e)`
    unfoldable pub edge_of : FlowEdge F → Result (Edge F) (Stop F)
    unfolding geom_extract_stop or_unknown edge_of_kind
    edge_of e =
        if or_unknown e.params.source == "geom_extract"
        then err (geom_extract_stop e.id e.params)
        else if not (or_unknown e.params.source == "scalars")
        then err (unsupported e.id ("edge_params:" <> or_unknown e.params.source))
        else edge_of_kind e

    -- `[_Edge(e) for e in payload.edges]`
    unfoldable pub edges_of : List (FlowEdge F) → Result (List (Edge F)) (Stop F)
    unfolding edge_of
    edges_of [] = ok []
    edges_of (e ∷ es) = do edge ← edge_of e; edges ← edges_of es; ok (edge ∷ edges)
