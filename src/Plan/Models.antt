-- ===== src/Plan/Models.antt =====
-- The planner's facade types: python/feldspar/plan/route.py, policy.py, errors.py, and the
-- `Solution` of python/feldspar/plan/execute.py with the lowering of an error to an attempt.
use feldspar.Prelude.{ℕ, String, Bool, Option, none, some, List, [], ◌∷◌}
use Prim.Native.Nat.{compare, Ordering}
use feldspar.Prelude.Dict.{Dict}
use feldspar.Core.{Interval, Domain, DomainViolation}
use feldspar.Solve.Models.{Citation}
use feldspar.Solve.Errors.{AttemptRecord, Detail, SolveError}

pub record RouteStep (F : Type 0) : Type 0 where
  pub solver_id : String
  pub realized_domain : Domain F
  pub predicted_eps : F
  pub cost : F

pub record Route (F : Type 0) : Type 0 where
  pub target : String
  pub steps : List (RouteStep F)
  pub predicted_eps : F
  pub total_cost : F
  pub digest : String

pub data PlanError (F : Type 0) : Type 0 where
  invalid_budget no_applicable_solver cyclic_port_equivalence : PlanError F
  unknown_target : (target : String) → PlanError F
  budget_unreachable : (best_eps : F) → PlanError F

pub record RoutePolicy : Type 0 where
  pub fallback : Bool
  pub cache : Bool
  pub threads : ℕ

-- The constructor with its validator: `none` is the `ValueError`.
unfoldable pub route_policy : Bool → Bool → ℕ → Option RoutePolicy
route_policy fallback cache threads = elim (compare threads 1) [
  | Ordering.eq ↦ some (record { fallback = fallback; cache = cache; threads = threads })
  | _ ↦ none
]

pub record Solution (F : Type 0) : Type 0 where
  pub target : String
  pub value : Interval F
  pub eps : F
  pub route : Route F
  pub settings_digest : String
  pub solver_versions : Dict String
  pub attempts : List (AttemptRecord F)
  pub cache_hit : Bool
  pub step_eps : Dict F
  pub step_citations : Dict (List Citation)
  pub step_declared_domain : Dict (Domain F)
  pub step_algebraic_form : Dict String
  pub step_admission_predicate : Dict String
  pub eps_budget : Option F

-- What leaves `execute`: an error value with the failing step's id, or the exception of a missing
-- key.
pub data Abort (F : Type 0) : Type 0 where
  step_failed : (solver_id : String) → SolveError F → Abort F
  key_error : (key : String) → Abort F

-- Python's `repr` of the values that are rendered into an error.
pub record Repr (F : Type 0) : Type 0 where
  pub of_float : F → String
  pub of_violation : DomainViolation F → String
  pub of_attempts : List (AttemptRecord F) → String

module _ {F : Type 0} where
  module _ (repr : Repr F) where
    -- `(kind, detail)` of a step's error.
    unfoldable pub error_to_record_fields : SolveError F → String × Dict (Detail F)
    error_to_record_fields (SolveError.tool_missing tool guidance) =
        ("ToolMissing", ("tool", Detail.text tool) ∷ ("guidance", Detail.text guidance) ∷ [])
    error_to_record_fields (SolveError.tool_failed tool log_tail) =
        ("ToolFailed", ("tool", Detail.text tool) ∷ ("log_tail", Detail.text log_tail) ∷ [])
    error_to_record_fields (SolveError.timeout tool seconds) =
        ("Timeout", ("tool", Detail.text tool) ∷ ("seconds", Detail.float seconds) ∷ [])
    error_to_record_fields (SolveError.parse_failed context) =
        ("ParseFailed", ("context", Detail.text context) ∷ [])
    error_to_record_fields (SolveError.out_of_domain violation) =
        ("OutOfDomain", ("violation", Detail.text (repr.of_violation violation)) ∷ [])
    error_to_record_fields (SolveError.non_finite port) =
        ("NonFinite", ("port", Detail.text port) ∷ [])
    error_to_record_fields (SolveError.output_out_of_domain port lo hi box_lo box_hi) = (
      "OutputOutOfDomain",
      ("port", Detail.text port)
          ∷ ("lo", Detail.float lo)
          ∷ ("hi", Detail.float hi)
          ∷ ("box_lo", Detail.float box_lo)
          ∷ ("box_hi", Detail.float box_hi)
          ∷ [],
    )
    error_to_record_fields (SolveError.missing_output port) =
        ("MissingOutput", ("port", Detail.text port) ∷ [])
    error_to_record_fields (SolveError.invalid_measurement reason) =
        ("InvalidMeasurement", ("reason", Detail.text reason) ∷ [])
    error_to_record_fields (SolveError.budget_exceeded realized budget) = (
      "BudgetExceeded",
      ("realized", Detail.float realized) ∷ ("budget", Detail.float budget) ∷ [],
    )
    error_to_record_fields (SolveError.no_route_remaining attempts) =
        ("NoRouteRemaining", ("attempts", Detail.text (repr.of_attempts attempts)) ∷ [])
    error_to_record_fields (SolveError.payload_kind_mismatch port expected actual) = (
      "PayloadKindMismatch",
      ("port", Detail.text port)
          ∷ ("expected_kind", Detail.text expected)
          ∷ ("actual_kind", Detail.text actual)
          ∷ [],
    )
    error_to_record_fields (SolveError.missing_payload port) =
        ("MissingPayload", ("port", Detail.text port) ∷ [])
    error_to_record_fields (SolveError.ladder_exhausted best_eps budget rungs_tried) = (
      "LadderExhausted",
      ("best_eps", Detail.float best_eps)
          ∷ ("budget", elim budget [ none ↦ Detail.null | some b ↦ Detail.float b ])
          ∷ ("rungs_tried", Detail.int rungs_tried)
          ∷ [],
    )
    error_to_record_fields (SolveError.no_convergence iterations residual) = (
      "NoConvergence",
      ("iterations", Detail.int iterations) ∷ ("residual", Detail.float residual) ∷ [],
    )
    error_to_record_fields (SolveError.dangling_digest digest) =
        ("DanglingDigest", ("digest", Detail.text digest) ∷ [])

  -- `(kind, detail)` of the planner's error.
  unfoldable pub plan_error_fields : PlanError F → String × Dict (Detail F)
  plan_error_fields PlanError.invalid_budget = ("InvalidBudget", [])
  plan_error_fields PlanError.no_applicable_solver = ("NoApplicableSolver", [])
  plan_error_fields PlanError.cyclic_port_equivalence = ("CyclicPortEquivalence", [])
  plan_error_fields (PlanError.unknown_target target) =
      ("UnknownTarget", ("target", Detail.text target) ∷ [])
  plan_error_fields (PlanError.budget_unreachable best_eps) =
      ("BudgetUnreachable", ("best_eps", Detail.float best_eps) ∷ [])
