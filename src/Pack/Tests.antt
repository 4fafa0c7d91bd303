-- ===== src/Pack/Tests.antt =====
-- An engine on integers that refuses small budgets, one that meets them, and the theorems on them.
-- `Models` has the models that need no margin.
mod Models
use feldspar.Core.{Interval}
use feldspar.Prelude.{
  some, List, String, ◌≡◌, refl, true, [], ◌∷◌, Result, ok, err, if◌then◌else◌, ℕ, suc, ◌≤◌, length,
  none, leb, all, ◌&&◌, ◌⊎◌,
}
use feldspar.Prelude.Dict.Sorted.{sorted}
use feldspar.Prelude.Float.{ArithmeticError}
use feldspar.Prelude.Int.{ℤ, pos, int_floats, int_sums}
use feldspar.Prelude.Dict.{Dict, contains, lookup}
use feldspar.Prelude.Membership.{IsNodup}
use feldspar.Fluids.Network.Edges.{Edge, arithmetic}
use feldspar.Fluids.Network.Tree.{refuse}
use feldspar.Fluids.Network.Cycles.{Sign}
use feldspar.Fluids.Network.Solve.{SolvedNetwork, solved_network}
use feldspar.Fluids.Network.Paths.Trace.{IsPath}
use feldspar.Fluids.Tests.{constants, formulas, network, solved, with_flows, pipe_ab}
use feldspar.Pack.Queries.{
  role_edges, sort_texts, unclear_role, split, query_flow_imbalance, imbalance_of, query_mdot,
  end_nodes, query_dp, map_failure, engine_failed,
}
use feldspar.Pack.Queries.Selection.{named, role_edges-named, query_flow_imbalance-repeated}
use feldspar.Pack.Queries.Drop.{along, against, IsDrop, query_dp-IsDrop}
use feldspar.Plan.Models.{Solution}
use feldspar.Pack.Margin.{DischargeRequest, predict, estimate}
use feldspar.Pack.Margin.Rounds.{logged}
use feldspar.Pack.Margin.Budgets.{Descends, estimate-Descends}
use feldspar.Pack.Margin.Verdict.{IsVerdict, estimate-IsVerdict}

abbrev solution : ℤ → Solution ℤ
solution eps = record {
  target = "mech.stress";
  value = record { lo = pos 2; hi = pos 4 };
  eps = eps;
  route = record {
    target = "mech.stress";
    steps = [];
    predicted_eps = eps;
    total_cost = pos 1;
    digest = "route";
  };
  settings_digest = "settings";
  solver_versions = [];
  attempts = [];
  cache_hit = true;
  step_eps = [];
  step_citations = [];
  step_declared_domain = [];
  step_algebraic_form = [];
  step_admission_predicate = [];
  eps_budget = none;
}

abbrev smaller : ℤ → ℤ → ℤ
smaller a b = if int_floats.le a b then a else b

-- It counts its runs.
abbrev meeting : ℤ → ℕ → Result (Solution ℤ) String × ℕ
meeting budget runs = (ok (solution (smaller budget (pos 5))), suc runs)

abbrev coarse : ℤ → ℕ → Result (Solution ℤ) String × ℕ
coarse budget runs = (
  if int_floats.le (pos 3) budget then ok (solution (smaller budget (pos 5))) else err "no route",
  suc runs,
)

abbrev claim : DischargeRequest ℤ
claim = record {
  inputs =
      ("load", record { lo = pos 1; hi = pos 9 })
      ∷ ("area", record { lo = pos 2; hi = pos 2 })
      ∷ [];
  limit = pos 6;
}

-- The pinned input is no axis.
swept_axes : predict claim (solution (pos 1)) (pos 4) ≡ record {
  value = pos 4;
  eps = pos 1;
  coverage_axes = ("load", record { lo = pos 1; hi = pos 9 }) ∷ [];
  settings_digest = "settings";
}
unfolding predict sorted
swept_axes = refl

estimate-Descends_example :
    let log = (estimate (logged coarse) (pos 1000) true claim (0, [])).1.1 in
    Descends log × (length log ≤ 4)
estimate-Descends_example = estimate-Descends coarse (pos 1000) true claim 0

estimate-IsVerdict_example :
    let run = estimate (logged coarse) (pos 1000) true claim (0, []) in
    IsVerdict (pos 1000) true claim run.0 run.1.1
estimate-IsVerdict_example = estimate-IsVerdict coarse (pos 1000) true claim 0

-- The solved triangle, for a claim that names a role.
abbrev asked : String → SolvedNetwork ℤ
asked role = record solved {
  payload = record network {
    claim_target = some (record { claim_kind = "fluids"; role = some role });
  };
}

abbrev triangle : List (Edge ℤ)
triangle = with_flows (pos 3) (pos 3) (pos 3)

branches-IsNodup : IsNodup (named "ab,cb")
unfolding split
branches-IsNodup = (refl, (refl, tt))

role_edges-named_example : role_edges (asked "ab,cb") "ab,cb" ≡ (
    if leb 2 (length (named "ab,cb")) && all (λ k. contains k solved.by_id) (named "ab,cb")
    then ok (sort_texts (named "ab,cb"))
    else err (unclear_role (some "ab,cb")))
role_edges-named_example = role_edges-named (asked "ab,cb") "ab,cb" branches-IsNodup

parts_twice : named "ab,ab,missing" ≡ "ab" ∷ "ab" ∷ "missing" ∷ []
unfolding split
parts_twice = refl

found : lookup "ab" solved.by_id ≡ some pipe_ab
unfolding lookup
found = refl

absent : lookup "missing" solved.by_id ≡ none
unfolding lookup
absent = refl

query_flow_imbalance-repeated_example :
    query_flow_imbalance pos (asked "ab,ab,missing") []
    ≡ imbalance_of pos (asked "ab,ab,missing") ("ab" ∷ "ab" ∷ []) (pos 3 ∷ pos 3 ∷ [])
query_flow_imbalance-repeated_example =
    query_flow_imbalance-repeated pos (asked "ab,ab,missing") []
      (record { claim_kind = "fluids"; role = some "ab,ab,missing" }) "ab,ab,missing" "ab" "missing"
      pipe_ab refl refl parts_twice found absent

-- An imbalance of nothing, though the role names an id that is no edge.
no_imbalance : query_flow_imbalance pos (asked "ab,ab,missing") [] ≡ ok (pos 0)
unfolding query_flow_imbalance
no_imbalance = refl

mdot_of_triangle : query_mdot (asked "cb") [] ≡ ok (pos 3)
unfolding query_mdot
mdot_of_triangle = refl

asked_of_triangle : solved_network (asked "s->c").payload triangle ≡ ok (asked "s->c")
unfolding solved_network
asked_of_triangle = refl

ends_of_role : end_nodes constants formulas (asked "s->c") [] ≡ ok ("s", "c")
unfolding end_nodes
ends_of_role = refl

query_dp-IsDrop_example :
    ((path : List (Edge ℤ × Sign)) × (v up down : ℤ) × IsPath triangle "s" "c" path
      × (query_dp constants formulas (asked "s->c") [] ≡ ok v)
      × IsDrop int_sums constants formulas (along path) up
      × IsDrop int_sums constants formulas (against path) down
      × (int_floats.add v down ≡ up))
    ⊎ ((e : ArithmeticError) × (query_dp constants formulas (asked "s->c") []
          ≡ err (engine_failed (arithmetic e))))
    ⊎ ((query_dp constants formulas (asked "s->c") []
          ≡ map_failure (refuse "disconnected_query_path"))
        × ¬ ((path : List (Edge ℤ × Sign)) × IsPath triangle "s" "c" path))
query_dp-IsDrop_example =
    query_dp-IsDrop int_sums constants formulas (asked "s->c").payload triangle (asked "s->c") []
      "s" "c" ((refl, refl), ((refl, refl), ((refl, refl), ((refl, refl), ((refl, refl), tt)))))
      asked_of_triangle ends_of_role
