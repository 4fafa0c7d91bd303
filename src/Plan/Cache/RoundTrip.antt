-- ===== src/Plan/Cache/RoundTrip.antt =====
-- `SolveCache.get` after `SolveCache.put` (python/feldspar/plan/cache.py).
use feldspar.Prelude.{
  String, ◌≡◌, refl, ap, ◌∙◌, true, false, Option, none, some, List, [], map, inl, inr, Bool-cases,
  ◌==◌, if◌then◌else◌,
}
use feldspar.Prelude.Dict.{Dict, lookup, lookup-insert}
use feldspar.Solve.Registry.{Entry}
use feldspar.Plan.Models.{Route, Solution}
use feldspar.Plan.Cache.{
  read_blob, solve_cache_get, solve_cache_put, solution_to_jsonable, solution_from_jsonable,
  route_to_json, domain_to_json, tools_still_consistent, last_excluded, StoredSolution,
}

module _ {F : Type 0} where
  -- A solution after its way through a blob: sorted tags, and no symbolic provenance.
  unfoldable pub through_blob : Solution F → Solution F
  unfolding route_to_json domain_to_json
  through_blob s = record s {
    route = route_to_json s.route;
    step_declared_domain = map (λ e. (e.0, domain_to_json e.1)) s.step_declared_domain;
    step_algebraic_form = [];
    step_admission_predicate = [];
    cache_hit = true;
  }

  read_blob-if :
      (key j : String) (s : Solution F) (route : Route F) (solvers : List (Entry F))
      (blobs : Dict (Option (StoredSolution F)))
      → read_blob route solvers (
          if key == j
          then some (some (solution_to_jsonable (record s { cache_hit = false })))
          else lookup j blobs)
        ≡ (if key == j
            then (if tools_still_consistent route solvers (last_excluded s.attempts)
                then some (through_blob s)
                else none)
            else solve_cache_get j route solvers blobs)
  unfolding solve_cache_get read_blob solution_to_jsonable solution_from_jsonable through_blob
  read_blob-if key j s route solvers blobs = elim (Bool-cases (key == j)) [
    | inl hit ↦ rw hit refl
    | inr miss ↦ rw miss refl
  ]

  -- After a solution is stored under a key, a lookup of another key is unchanged, and one of that
  -- key gives, if the tools are still consistent, the solution marked as a hit, with the tags of
  -- its domains sorted and without its algebraic forms and admission predicates, and else a miss.
  pub solve_cache_get-solve_cache_put :
      (key j : String) (s : Solution F) (route : Route F) (solvers : List (Entry F))
      (blobs : Dict (Option (StoredSolution F)))
      → solve_cache_get j route solvers (solve_cache_put key s blobs) ≡ (
          if key == j
          then (if tools_still_consistent route solvers (last_excluded s.attempts)
              then some (through_blob s)
              else none)
          else solve_cache_get j route solvers blobs)
  unfolding solve_cache_get solve_cache_put read_blob solution_to_jsonable solution_from_jsonable
      through_blob
  solve_cache_get-solve_cache_put key j s route solvers blobs =
      let put = some (solution_to_jsonable (record s { cache_hit = false })) in
      ap (read_blob route solvers) (lookup-insert key j put blobs)
      ∙ read_blob-if key j s route solvers blobs
