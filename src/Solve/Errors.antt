-- ===== src/Solve/Errors.antt =====
-- The total error unions of python/feldspar/solve/errors.py: one constructor for each variant. A
-- variant with no payload has no argument.
use feldspar.Prelude.{ℕ, String, Option, List}
use feldspar.Prelude.Dict.{Dict}
use feldspar.Core.{DomainViolation}

pub data RegistryError : Type 0 where
  duplicate_solver_id non_positive_cost accuracy_output_mismatch empty_citations :
      (solver_id : String) → RegistryError
  port_unit_conflict port_rank_conflict unknown_port duplicate_port_decl payload_kind_conflict :
      (port : String) → RegistryError
  unknown_payload_kind : (port kind : String) → RegistryError
  frozen : RegistryError
  bad_table : (reason : String) → RegistryError
  non_invertible : (variable reason : String) → RegistryError
  multi_branch : (variable : String) (branches : List String) → RegistryError
  unboundable_predicate : (predicate : String) → RegistryError
  empty_domain : (port : String) → RegistryError

-- The JSON-safe values that an error's field is lowered to.
pub data Detail (F : Type 0) : Type 0 where
  text : String → Detail F
  float : F → Detail F
  int : ℕ → Detail F
  null : Detail F

-- python/feldspar/plan/execute.py: one reroute-loop attempt.
pub record AttemptRecord (F : Type 0) : Type 0 where
  pub excluded : List String
  pub route_digest : Option String
  pub failed_solver_id : Option String
  pub error_kind : String
  pub error_detail : Dict (Detail F)

pub data SolveError (F : Type 0) : Type 0 where
  tool_missing : (tool guidance : String) → SolveError F
  tool_failed : (tool log_tail : String) → SolveError F
  timeout : (tool : String) (seconds : F) → SolveError F
  parse_failed : (context : String) → SolveError F
  out_of_domain : DomainViolation F → SolveError F
  non_finite : (port : String) → SolveError F
  output_out_of_domain : (port : String) (lo hi box_lo box_hi : F) → SolveError F
  missing_output : (port : String) → SolveError F
  invalid_measurement : (reason : String) → SolveError F
  budget_exceeded : (realized budget : F) → SolveError F
  no_route_remaining : List (AttemptRecord F) → SolveError F
  payload_kind_mismatch : (port expected_kind actual_kind : String) → SolveError F
  missing_payload : (port : String) → SolveError F
  ladder_exhausted : (best_eps : F) (budget : Option F) (rungs_tried : ℕ) → SolveError F
  no_convergence : (iterations : ℕ) (residual : F) → SolveError F
  dangling_digest : (digest : String) → SolveError F
