-- ===== src/Pack/Catalog/Defs.antt =====
-- What a model of python/feldspar/pack/models.py declares: its signature, its cost and, where it is on
-- a direction of the engine, the port that it solves for and the tags that it offers.
use feldspar.Prelude.{ℕ, String, Bool, Option, some, List, [], ◌∷◌, ◌<>◌, if◌then◌else◌}

pub record Direction : Type 0 where
  pub target : String
  pub engine_tags : List String

pub record Model : Type 0 where
  pub name : String
  pub claim_kind : String
  pub upper : Bool
  pub inputs : List String
  pub domain : List String
  pub required_regimes : List String
  pub payload_kinds : List (String × String)
  pub direction : Option Direction
  pub cost : ℕ

-- `_REDUCED_TIER_COST` and `_PAYLOAD_TIER_COST`
abbrev pub reduced_tier_cost : ℕ
reduced_tier_cost = 10

abbrev pub payload_tier_cost : ℕ
payload_tier_cost = 20

-- A name by the side of the claim.
abbrev pub sided : String → Bool → String
sided prefix upper = prefix <> (if upper then "hi" else "lo")

module _ (name claim_kind : String) (upper : Bool) (target : String) (inputs : List String) where
  -- `_FeaModel`, with its default tags.
  abbrev pub fea_model : List String → List String → Model
  fea_model required_regimes domain = record {
    name = name;
    claim_kind = claim_kind;
    upper = upper;
    inputs = inputs;
    domain = domain;
    required_regimes = required_regimes;
    payload_kinds = [];
    direction =
        some (record { target = target; engine_tags = "linear_elastic" ∷ "small_deflection" ∷ [] });
    cost = reduced_tier_cost;
  }

  -- `_ClosedFormEngineModel`
  abbrev pub closed_form_model : List String → List String → Model
  closed_form_model engine_tags domain = record {
    name = name;
    claim_kind = claim_kind;
    upper = upper;
    inputs = inputs;
    domain = domain;
    required_regimes = [];
    payload_kinds = [];
    direction = some (record { target = target; engine_tags = engine_tags });
    cost = 1;
  }
