-- ===== src/Pack/Tests/Models.antt =====
-- Runs of the models of python/feldspar/pack/models.py that sweep their own corners or read a payload,
-- of the registration, and the theorems on them.
use feldspar.Pack.Payloads.{key_error, estimate_miner_damage}
use feldspar.Pack.Catalog.{registered, register_pack}
use feldspar.Pack.Corners.Product.{IsCorner}
use feldspar.Pack.Corners.Hull.{estimate_stiffness-le, finite_corner_sweep-IsGood, IsGood}
use feldspar.Core.{Interval, PayloadRef}
use feldspar.Pack.Corners.{
  bad_corner, estimate_rail, is_bad_deflection, stiffness_at, estimate_stiffness,
  finite_corner_sweep,
}
use feldspar.Prelude.{
  Option, map, false, some, List, String, ◌≡◌, refl, true, [], ◌∷◌, Result, ok, err, ℕ, length,
  none, ◌⊎◌, ◌++◌, ◌<>◌, ◌==◌,
}
use feldspar.Prelude.Int.{ℤ, pos, int_floats, int_laws}
use feldspar.Prelude.Dict.{Dict, lookup}
use feldspar.Plan.Models.{Solution}
use feldspar.Solve.Errors.{SolveError}

-- A beam whose deflection grows with its length and falls with its stiffness.
abbrev tip_deflection : ℤ → ℤ → ℤ → ℤ → ℤ
tip_deflection force length e i = int_floats.div (int_floats.mul force length) (int_floats.mul e i)

abbrev beam : ℤ → Dict (Interval ℤ)
beam longest =
    ("length", record { lo = pos 1; hi = longest })
    ∷ ("e_modulus", record { lo = pos 1; hi = pos 2 })
    ∷ ("i_area", record { lo = pos 3; hi = pos 3 })
    ∷ []

stiffness_of_beam : estimate_stiffness (pos 12) tip_deflection (beam (pos 3)) ≡ ok (pos 1)
unfolding estimate_stiffness
stiffness_of_beam = refl

finite_corner_sweep-IsGood_example :
    ((hull : ℤ × ℤ) × (finite_corner_sweep
          (stiffness_at (pos 12) tip_deflection)
          is_bad_deflection
          ((pos 1, pos 2) ∷ (pos 3, pos 3) ∷ (pos 1, pos 3) ∷ [])
        ≡ ok hull)
      × ((combo : List ℤ)
          → IsCorner ((pos 1, pos 2) ∷ (pos 3, pos 3) ∷ (pos 1, pos 3) ∷ []) combo
          → IsGood (stiffness_at (pos 12) tip_deflection) is_bad_deflection hull combo))
    ⊎ ((c : List ℤ) × (finite_corner_sweep
            (stiffness_at (pos 12) tip_deflection)
            is_bad_deflection
            ((pos 1, pos 2) ∷ (pos 3, pos 3) ∷ (pos 1, pos 3) ∷ [])
          ≡ err (c, (stiffness_at (pos 12) tip_deflection c).0))
        × (is_bad_deflection (stiffness_at (pos 12) tip_deflection c).0 ≡ true)
        × IsCorner ((pos 1, pos 2) ∷ (pos 3, pos 3) ∷ (pos 1, pos 3) ∷ []) c)
finite_corner_sweep-IsGood_example =
    finite_corner_sweep-IsGood (stiffness_at (pos 12) tip_deflection) is_bad_deflection int_laws
      ((pos 1, pos 2) ∷ (pos 3, pos 3) ∷ (pos 1, pos 3) ∷ [])

lookup-e_modulus : lookup "e_modulus" (beam (pos 3)) ≡ some (record { lo = pos 1; hi = pos 2 })
unfolding lookup
lookup-e_modulus = refl

lookup-i_area : lookup "i_area" (beam (pos 3)) ≡ some (record { lo = pos 3; hi = pos 3 })
unfolding lookup
lookup-i_area = refl

lookup-length : lookup "length" (beam (pos 3)) ≡ some (record { lo = pos 1; hi = pos 3 })
unfolding lookup
lookup-length = refl

estimate_stiffness-le_example :
    ((v : ℤ) × (estimate_stiffness (pos 12) tip_deflection (beam (pos 3)) ≡ ok v)
      × ((combo : List ℤ)
          → IsCorner ((pos 1, pos 2) ∷ (pos 3, pos 3) ∷ (pos 1, pos 3) ∷ []) combo
          → (int_floats.is_finite (stiffness_at (pos 12) tip_deflection combo).0 ≡ true)
            × (int_floats.le (stiffness_at (pos 12) tip_deflection combo).0 (pos 0) ≡ false)
            × (int_floats.le v (stiffness_at (pos 12) tip_deflection combo).1 ≡ true)))
    ⊎ ((c : List ℤ) × (estimate_stiffness (pos 12) tip_deflection (beam (pos 3))
          ≡ err (bad_corner "deflection" c (stiffness_at (pos 12) tip_deflection c).0))
        × (is_bad_deflection (stiffness_at (pos 12) tip_deflection c).0 ≡ true)
        × IsCorner ((pos 1, pos 2) ∷ (pos 3, pos 3) ∷ (pos 1, pos 3) ∷ []) c)
estimate_stiffness-le_example =
    estimate_stiffness-le int_laws (pos 12) tip_deflection (beam (pos 3))
      (record { lo = pos 1; hi = pos 2 }) (record { lo = pos 3; hi = pos 3 })
      (record { lo = pos 1; hi = pos 3 }) lookup-e_modulus lookup-i_area lookup-length refl refl
      refl

rail_of_divider :
    estimate_rail
      (λ v a b c. int_floats.mul v (int_floats.add a b))
      true
      (("vin", record { lo = pos 2; hi = pos 3 })
        ∷ ("r1", record { lo = pos 1; hi = pos 2 })
        ∷ ("r2", record { lo = pos 1; hi = pos 1 })
        ∷ ("rload", record { lo = pos 5; hi = pos 5 })
        ∷ [])
    ≡ ok (pos 9)
unfolding estimate_rail
rail_of_divider = refl

names_of_registration :
    register_pack (λ names m. names ++ m.name ∷ []) [] ≡ map (λ m. m.name) registered
unfolding register_pack
names_of_registration = refl

abbrev steel_only :
    (String → Result String (SolveError ℤ))
    → List String
    → String
    → ℤ
    → Dict PayloadRef
    → List String
    → Result (Solution ℤ) String × List String
steel_only resolve tags target budget payloads log = (err (target <> " refused"), target ∷ log)

abbrev no_resolver : Option (String → Result String ℕ)
no_resolver = none

miner_without_spectrum :
    estimate_miner_damage steel_only "no store" ok
      (λ version. version == "1")
      (λ d e. e)
      (λ d n. d)
      (pos 9)
      (record { inputs = []; limit = pos 3 })
      []
      no_resolver
      []
    ≡ (err (key_error "mech.fatigue.miner.spectrum"), [])
unfolding estimate_miner_damage
miner_without_spectrum = refl
