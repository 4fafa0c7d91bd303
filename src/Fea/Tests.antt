-- ===== src/Fea/Tests.antt =====
-- Extrapolations and climbs at concrete data.
use feldspar.Prelude.{
  String, ◌≡◌, refl, ap, true, false, Option, none, some, List, [], ◌∷◌, Result, ok, err,
  if◌then◌else◌, ◌==◌, arith, Bool-cases, inl, inr, eq_iff,
}
use feldspar.Prelude.Dict.{lookup}
use feldspar.Prelude.Int.{ℤ, pos, int_floats, int_laws}
use feldspar.Prelude.Float.{FloatOps, FloatLaws, zero_division}
use feldspar.Solve.Errors.{SolveError}
use feldspar.Fea.Richardson.{
  RichardsonResult, richardson_extrapolate, IsBounded, richardson_extrapolate-IsBounded,
}
use feldspar.Fea.Ladder.{RungCache, climbed, climb_richardson_ladder}
use feldspar.Fea.Ladder.Ran.{SameMisses}
use feldspar.Fea.Ladder.Reuse.{climb_richardson_ladder-SameMisses}
use feldspar.Fea.Ladder.Budget.{StopsBy, climb_richardson_ladder-StopsBy}
use feldspar.Fea.Ladder.Cached.{Distinguishes, IsCoherent, climb_richardson_ladder-IsCoherent}

-- The integers with a division by one half.
abbrev halves : FloatOps ℤ
halves = record int_floats { div = λ a b. int_floats.mul a (pos 2) }

halves_laws : FloatLaws ℤ halves
halves_laws = record {
  le_refl = int_laws.le_refl;
  le_trans = int_laws.le_trans;
  le_total = int_laws.le_total;
  less_le = int_laws.less_le;
}

-- A safety factor of one on natural sizes.
halves_monotone :
    (a b : ℤ)
    → halves.le a b ≡ true
    → halves.le (halves.mul (pos 1) a) (halves.mul (pos 1) b) ≡ true
halves_monotone a b h = ground arith

halves_wide : (x : ℤ) → halves.le (halves.abs x) (halves.mul (pos 1) (halves.abs x)) ≡ true
halves_wide x = ground arith

halves_no_distance : (a x : ℤ) → halves.le (halves.abs (halves.sub a a)) (halves.abs x) ≡ true
halves_no_distance a x = ground arith

falls_back :
    richardson_extrapolate ⦃o = halves⦄ (λ _. some (pos 2)) (pos 1) (pos 3) (pos 1) (pos 1) (pos 1)
    ≡ ok (record { extrapolated = pos 1; order_used = pos 1; eps = pos 2; fallback_used = true })
unfolding richardson_extrapolate
falls_back = refl

no_order :
    richardson_extrapolate ⦃o = halves⦄ (λ _. some (pos 1)) (pos 1) (pos 3) (pos 1) (pos 0) (pos 1)
    ≡ err zero_division
unfolding richardson_extrapolate
no_order = refl

richardson_extrapolate-IsBounded_example :
    (r : RichardsonResult ℤ) × (richardson_extrapolate ⦃o = halves⦄
        (λ _. some (pos 2))
        (pos 1)
        (pos 3)
        (pos 1)
        (pos 1)
        (pos 1)
      ≡ ok r)
    × IsBounded ⦃o = halves⦄ (λ _. some (pos 2)) (pos 1) (pos 3) (pos 1) (pos 1) (pos 2) r
richardson_extrapolate-IsBounded_example =
    richardson_extrapolate-IsBounded ⦃o = halves⦄ (λ _. some (pos 2)) (pos 1) halves_laws (pos 3)
      (pos 1) (pos 1) (pos 1) (pos 2)
      (record { wide = halves_wide; monotone = halves_monotone; no_distance = halves_no_distance })
      refl refl

-- Three meshes, and pairs whose error is the distance of their values.
abbrev meshes : List String
meshes = "h" ∷ "h/2" ∷ "h/4" ∷ []

abbrev mesh_value : String → Result ℤ (SolveError ℤ)
mesh_value rung =
    if rung == "h" then ok (pos 9) else if rung == "h/2" then ok (pos 6) else ok (pos 5)

abbrev distance : ℤ → ℤ → RichardsonResult ℤ
distance a b = record {
  extrapolated = b;
  order_used = pos 2;
  eps = int_floats.abs (int_floats.sub a b);
  fallback_used = false;
}

abbrev own_key : String → String
own_key rung = rung

climbs :
    (climb_richardson_ladder mesh_value own_key distance meshes (some (pos 1)) none).0
    ≡ climbed (pos 5) (pos 1) 3
unfolding climb_richardson_ladder
climbs = refl

climb_richardson_ladder-StopsBy_example :
    StopsBy mesh_value own_key distance
      (pos 4)
      3
      (climb_richardson_ladder mesh_value own_key distance meshes (some (pos 4)) none).0
climb_richardson_ladder-StopsBy_example =
    climb_richardson_ladder-StopsBy mesh_value own_key distance int_laws (pos 1) (pos 4) refl meshes
      (pos 5) (pos 1) 3 climbs

abbrev seen : Option (RungCache ℤ)
seen = some (record { store = ("h", pos 9) ∷ []; hits = 0; misses = 1 })

meshes_apart : Distinguishes mesh_value own_key distance
unfolding Distinguishes
meshes_apart a b same = ap mesh_value same

seen-IsCoherent : IsCoherent mesh_value own_key distance seen
unfolding IsCoherent lookup
seen-IsCoherent rung v found = elim (Bool-cases ("h" == rung)) [
  | inl hit ↦ ground (arith, hit, found, eq_iff "h" rung)
  | inr miss ↦ ground (arith, miss, found)
]

climb_richardson_ladder-IsCoherent_example :
    ((climb_richardson_ladder mesh_value own_key distance meshes (some (pos 1)) seen).0
      ≡ (climb_richardson_ladder mesh_value own_key distance meshes (some (pos 1)) none).0)
    × IsCoherent mesh_value own_key distance
        (climb_richardson_ladder mesh_value own_key distance meshes (some (pos 1)) seen).1
climb_richardson_ladder-IsCoherent_example =
    climb_richardson_ladder-IsCoherent mesh_value own_key distance meshes_apart meshes
      (some (pos 1)) seen seen-IsCoherent

abbrev unused_cache : RungCache ℤ
unused_cache = record { store = []; hits = 0; misses = 0 }

unused_cache-IsCoherent : IsCoherent mesh_value own_key distance (some unused_cache)
unfolding IsCoherent lookup
unused_cache-IsCoherent rung v found = cc

climbs_cached :
    (climb_richardson_ladder mesh_value own_key distance meshes
      (some (pos 1))
      (some unused_cache)).0
    ≡ climbed (pos 5) (pos 1) 3
unfolding climb_richardson_ladder
climbs_cached = refl

climb_richardson_ladder-SameMisses_example :
    (c' : RungCache ℤ) × ((climb_richardson_ladder mesh_value own_key distance meshes
        (some (pos 1))
        (some unused_cache)).1
      ≡ some c')
    × SameMisses c'
        (climb_richardson_ladder mesh_value own_key distance meshes (some (pos 4)) (some c')).1
climb_richardson_ladder-SameMisses_example =
    climb_richardson_ladder-SameMisses mesh_value own_key distance int_laws meshes_apart (pos 1)
      (pos 4) refl meshes unused_cache (pos 5) (pos 1) 3 unused_cache-IsCoherent climbs_cached
