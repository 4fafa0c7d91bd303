-- ===== src/Solve/Models.antt =====
-- Solver metadata (python/feldspar/solve/_models.py) and the `SolveFn` protocol
-- (python/feldspar/solve/_build.py).
use feldspar.Prelude.{String, Bool, Option, List, Result}
use feldspar.Prelude.Dict.{Dict}
use feldspar.Core.{Accuracy, Domain, PayloadRef}
use feldspar.Solve.Errors.{SolveError}

pub data CitationKind : Type 0 where
  paper handbook standard calibration : CitationKind

pub record Citation : Type 0 where
  pub kind : CitationKind
  pub ref : String
  pub note : String

pub data ClaimSenses : Type 0 where
  upper lower both : ClaimSenses

pub data Tier : Type 0 where
  table closed_form reduced discretized coupled : Tier

-- One `(eps, cost)` sample of a cost curve.
pub record CostPoint (F : Type 0) : Type 0 where
  pub eps : F
  pub cost : F

-- Frozen solver metadata. The law's two sides, which no rendering and no digest reads, are left out.
pub record SolverInfo (F : Type 0) : Type 0 where
  pub solver_id : String
  pub namespace : String
  pub version : String
  pub inputs : List String
  pub outputs : List String
  pub domain : Domain F
  pub cost : F
  pub accuracy : Dict (Accuracy F)
  pub citations : List Citation
  pub tier : Tier
  pub deterministic : Bool
  pub corner_monotone : Bool
  pub conservative_for : ClaimSenses
  pub settings_digest : String
  pub eps_seeking : Bool
  pub cost_curve : Option (List (CostPoint F))
  pub algebraic_form : Option String
  pub solved_for : Option String
  pub branch : Option String
  pub admission_predicate : Option String
  pub derivation_digest : Option String

-- A solver's raw result; `measured_eps` replaces the declared accuracy.
pub record SolveOutput (F : Type 0) : Type 0 where
  pub values : Dict F
  pub measured_eps : Option F
  pub payloads : Dict PayloadRef

-- What a corner maps a port to: a number, or a payload by reference.
pub data Value (F : Type 0) : Type 0 where
  number : F → Value F
  payload : PayloadRef → Value F

abbrev pub Outcome : Type 0 → Type 0
Outcome F = Result (SolveOutput F) (SolveError F)

-- A callable with or without the attribute `eps_seeking`: only the former takes the budget.
pub data Callable (F : Type 0) : Type 0 where
  plain : (Dict (Value F) → Outcome F) → Callable F
  seeking : (Dict (Value F) → Option F → Outcome F) → Callable F

-- A registered callable. `probe_tools` is what the optional attribute answers when it is called.
pub record SolveFn (F : Type 0) : Type 0 where
  pub call : Callable F
  pub probe_tools : Option (Result (Unit {0}) (SolveError F))

unfoldable pub invoke_solve_fn : {F : Type 0} → SolveFn F → Dict (Value F) → Option F → Outcome F
invoke_solve_fn fn x budget = elim fn.call [ plain f ↦ f x | seeking f ↦ f x budget ]
