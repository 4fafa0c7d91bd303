-- ===== src/Core.antt =====
-- The frozen quantity classes that Python sees as `feldspar.core` (python/feldspar/core.py): the
-- Rust-backed `Interval`, `Accuracy`, `Domain`, `Rank`, `PortDecl`, and the payload reference of
-- python/feldspar/solve/payload.py. `Sweep` has the corner sweep and its arithmetic.
pub mod Sweep
use feldspar.Prelude.{
  ℕ, String, Bool, true, false, Option, none, some, List, [], ◌∷◌, ◌&&◌, ◌==◌, elem, if◌then◌else◌,
}
use Prim.Native.Nat.{compare, Ordering}
use feldspar.Prelude.Dict.{Dict}
use feldspar.Prelude.Float.{FloatOps}

pub record Interval (F : Type 0) : Type 0 where
  pub lo : F
  pub hi : F

pub record Accuracy (F : Type 0) : Type 0 where
  pub eps_abs : F
  pub eps_rel : F

pub record Domain (F : Type 0) : Type 0 where
  pub box : Dict (Interval F)
  pub tags : List String

pub data Rank : Type 0 where
  scalar complex : Rank
  vector : ℕ → Rank
  tensor : ℕ → ℕ → Rank
  payload : String → Rank

abbrev same_number : ℕ → ℕ → Bool
same_number a b = elim (compare a b) [ Ordering.eq ↦ true | _ ↦ false ]

-- `a == b` of two ranks
unfoldable pub rank_eq : Rank → Rank → Bool
rank_eq scalar scalar = true
rank_eq complex complex = true
rank_eq (vector n) (vector m) = same_number n m
rank_eq (tensor n m) (tensor k l) = same_number n k && same_number m l
rank_eq (payload k) (payload j) = k == j
rank_eq _ _ = false

-- `rank.payload_kind`, `None` unless `rank.kind == "payload"`
abbrev pub payload_kind : Rank → Option String
payload_kind (payload k) = some k
payload_kind _ = none

pub record PortDecl : Type 0 where
  pub name : String
  pub unit : String
  pub rank : Rank

-- The one vocabulary of payload kinds.
abbrev pub payload_kinds : List String
payload_kinds =
    "geometry.parametric" ∷ "geometry.realized" ∷ "layout.realized" ∷ "mesh" ∷ "table" ∷ "spectrum"
    ∷ "profile" ∷ "mask" ∷ "field" ∷ "flownet" ∷ "plan" ∷ "frame" ∷ []

pub record PayloadRef : Type 0 where
  pub kind : String
  pub digest : String
  pub origin : String

-- The constructor with its validator: `none` is the `ValueError`.
unfoldable pub payload_ref : String → String → String → Option PayloadRef
payload_ref kind digest origin =
    if elem kind payload_kinds
    then some (record { kind = kind; digest = digest; origin = origin })
    else none

-- `ref != first` on two references, negated
unfoldable pub ref_eq : PayloadRef → PayloadRef → Bool
ref_eq a b = a.kind == b.kind && a.digest == b.digest && a.origin == b.origin

pub record DomainViolation (F : Type 0) : Type 0 where
  pub kind : String
  pub port : Option String
  pub tag : Option String
  pub lo : Option F
  pub hi : Option F
  pub box_lo : Option F
  pub box_hi : Option F

-- An abstraction edge's feature check fails in the shape of a box check.
unfoldable pub payload_feature_violation : {F : Type 0} → String → String → DomainViolation F
payload_feature_violation port feature = record {
  kind = "PayloadFeature";
  port = some port;
  tag = some feature;
  lo = none;
  hi = none;
  box_lo = none;
  box_hi = none;
}
