-- ===== src/Pack/Payloads.antt =====
-- The two models of python/feldspar/pack/models.py that read a payload of the request: the deflection
-- of a cantilever from its geometry and the Miner damage of a spectrum. The engine, on a state, and
-- the caller's resolver are parameters; the other program's reference has the fields of `PayloadRef`.
use feldspar.Prelude.{
  String, Bool, true, Option, none, some, List, [], ◌∷◌, Result, ok, err, ◌≡◌, refl, ◌⊎◌, inl, inr,
  Bool-cases, Result-cases,
}
use feldspar.Prelude.Dict.{Dict, lookup}
use feldspar.Prelude.Float.{FloatOps}
use feldspar.Core.{PayloadRef, payload_ref}
use feldspar.Solve.Errors.{SolveError}
use feldspar.Plan.Models.{Solution}
use feldspar.Pack.Margin.{
  DischargeRequest, Prediction, engine_failed, fail, predict, worst_corner, seek, is_settled,
}
use feldspar.Pack.Margin.Rounds.{margin, seek-failed, seek-settled, seek-unsettled}
use feldspar.Pack.Queries.{no_store_resolve, adapter_resolve}

-- How an estimate ends without a prediction; the first two are what Python raises.
pub data PayloadFailure (E : Type 0) : Type 0 where
  key_error : (port : String) → PayloadFailure E
  value_error : (kind : String) → PayloadFailure E
  not_solved : E → PayloadFailure E

-- `request.payloads[port]` through `to_feldspar_payload_ref`.
unfoldable pub payload_of :
    {E : Type 0} → Dict PayloadRef → String → Result PayloadRef (PayloadFailure E)
unfolding lookup
payload_of payloads port = elim (lookup port payloads) [
  | none ↦ err (key_error port)
  | some ref ↦ elim (payload_ref ref.kind ref.digest ref.origin) [
    | none ↦ err (value_error ref.kind)
    | some converted ↦ ok converted
  ]
]

-- What an engine is asked: its resolver, the tags, the target, the budget and the payloads.
abbrev pub Engine : (B F S E : Type 0) → Type 0
Engine B F S E =
    (String → Result B (SolveError F))
    → List String
    → String
    → F
    → Dict PayloadRef
    → S
    → Result (Solution F) E × S

module _ {B X V F S E : Type 0} ⦃o : FloatOps F⦄ (engine : Engine B F S E) (guidance : String)
    (declared : B → Result V String) (is_understood : V → Bool)
    (bad_json : String → String → String) (mismatch : String → V → String) (eps_budget : F)
    (q : DischargeRequest F) (payloads : Dict PayloadRef)
    (resolver : Option (String → Result B X)) where
  -- The resolver of the engine's registry, made of the caller's where there is one.
  unfoldable pub engine_resolver : String → Result B (SolveError F)
  unfolding adapter_resolve no_store_resolve
  engine_resolver digest = elim resolver [
    | some resolve ↦ adapter_resolve resolve declared is_understood bad_json mismatch digest
    | none ↦ no_store_resolve guidance
  ]

  -- What the two estimates share, by their port, their tags and their target.
  unfoldable pub estimate_from :
      String → List String → String → S → Result (Prediction F) (PayloadFailure E) × S
  unfolding payload_of predict worst_corner
  estimate_from port tags target s = elim (payload_of payloads port) [
    | err e ↦ (err e, s)
    | ok ref ↦
        let (res, s') = engine engine_resolver tags target eps_budget ((port, ref) ∷ []) s in
        elim res [
          | err e ↦ (err (not_solved e), s')
          | ok solution ↦ (ok (predict q solution (worst_corner true solution)), s')
        ]
  ]

  -- `FeaStaticDeflectionFromGeometryModel.estimate`
  unfoldable pub estimate_deflection_from_geometry :
      S → Result (Prediction F) (PayloadFailure E) × S
  unfolding estimate_from
  estimate_deflection_from_geometry =
      estimate_from "mech.geom.cantilever.parametric" ("linear_elastic" ∷ "small_deflection" ∷ [])
        "mech.deflection.tip"

  -- `FatigueMinerDamageModel.estimate`
  unfoldable pub estimate_miner_damage : S → Result (Prediction F) (PayloadFailure E) × S
  unfolding estimate_from
  estimate_miner_damage =
      estimate_from "mech.fatigue.miner.spectrum" ("steel" ∷ "hcf" ∷ []) "mech.fatigue.miner.damage"

  -- With the payload at hand, an estimate is one attempt at a margin.
  estimate_from-seek :
      (port : String) (tags : List String) (target : String) (ref : PayloadRef) (s : S)
      → payload_of {E = E} payloads port ≡ ok ref
      → let ask : F → S → Result (Solution F) E × S =
          λ budget. engine engine_resolver tags target budget ((port, ref) ∷ []) in
        let s' = (ask eps_budget s).1 in
        let run = estimate_from port tags target s in
        let sought = seek ask eps_budget true q 1 eps_budget none s in
        ((p : Prediction F) × (run ≡ (ok p, s')) × (sought ≡ (ok p, s')))
        ⊎ ((e : E) × (run ≡ (err (not_solved e), s')) × (sought ≡ (err (engine_failed e), s')))
  unfolding estimate_from seek fail
  estimate_from-seek port tags target ref s h =
      let ask : F → S → Result (Solution F) E × S =
        λ budget. engine engine_resolver tags target budget ((port, ref) ∷ []) in
      elim (Result-cases (ask eps_budget s).0) [
        | inr (e, g) ↦ inr (
          e,
          rw (estimate_from, h, g) refl,
          seek-failed ask eps_budget true q 0 eps_budget none s e g,
        )
        | inl (solution, g) ↦ inl (
          predict q solution (worst_corner true solution),
          rw (estimate_from, h, g) refl,
          elim (Bool-cases (is_settled (margin true q solution) solution.eps eps_budget)) [
            | inl settled ↦
                seek-settled ask eps_budget true q 0 eps_budget none s solution g settled
            | inr unsettled ↦
                seek-unsettled ask eps_budget true q 0 eps_budget none s solution g unsettled
          ],
        )
      ]
