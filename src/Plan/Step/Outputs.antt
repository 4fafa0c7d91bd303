-- ===== src/Plan/Step/Outputs.antt =====
-- What a corner that passes its checks gives (`_make_corner_fn` of
-- python/feldspar/plan/execute.py).
use feldspar.Prelude.{
  String, none, some, List, [], ◌∷◌, Result, ok, err, ◌≡◌, ◌≢◌, ap, ◌∙◌, ◌==◌, eq_iff, true, subst,
  elem, Bool-cases, Option-cases, Result-cases, inl, inr, arith,
}
use feldspar.Prelude.Dict.{Dict, lookup, insert}
use feldspar.Prelude.Float.{FloatOps}
use feldspar.Core.{PayloadRef, PortDecl}
use feldspar.Core.Sweep.Keys.{Has, insert-Has, Has-insert}
use feldspar.Solve.Errors.{SolveError}
use feldspar.Solve.Models.{SolverInfo, SolveOutput, Outcome}
use feldspar.Plan.Models.{Repr}
use feldspar.Plan.Step.{
  first_missing, check_step_output, pick, Collected, collect_measured, collect_payloads,
  finish_corner, check_corner,
}

pick-keeps :
    {V : Type 0} (ports : List String) (out acc : Dict V) (port : String)
    → Has acc port
    → Has (pick ports out acc) port
unfolding pick
pick-keeps [] out acc port h = h
pick-keeps (p ∷ ports) out acc port h = elim (Option-cases (lookup p out)) [
  | inl missing ↦ rw (missing, pick) (pick-keeps ports out acc port h)
  | inr (v, found) ↦
      rw (found, pick) (pick-keeps ports out (insert p v acc) port (insert-Has p port v acc h))
]

pick-Has :
    {V : Type 0} (ports : List String) (out acc : Dict V) (port : String)
    → elem port ports ≡ true
    → Has out port
    → Has (pick ports out acc) port
unfolding pick
pick-Has [] out acc port e h = cc
pick-Has (p ∷ ports) out acc port e (w, here) = elim (Bool-cases (p == port)) [
  | inl hit ↦
      let same = (eq_iff p port).0 hit in
      let found : lookup p out ≡ some w = ap (λ j. lookup j out) same ∙ here in
      rw (found, pick)
        (pick-keeps ports out (insert p w acc) port
          (subst (Has (insert p w acc)) same (Has-insert p w acc)))
  | inr miss ↦
      let later : elem port ports ≡ true = ground (arith, miss, e) in
      elim (Option-cases (lookup p out)) [
        | inl missing ↦ rw (missing, pick) (pick-Has ports out acc port later (w, here))
        | inr (v, found) ↦
            rw (found, pick) (pick-Has ports out (insert p v acc) port later (w, here))
      ]
]

module _ {F : Type 0} ⦃o : FloatOps F⦄ where
  first_missing-none :
      (ports : List String) (out : Dict F) (port : String)
      → first_missing ports out ≡ none
      → elem port ports ≡ true
      → Has out port
  unfolding first_missing
  first_missing-none [] out port h e = cc
  first_missing-none (p ∷ ports) out port h e = elim (Option-cases (lookup p out)) [
    | inl missing ↦ ground (arith, missing, h)
    | inr (v, found) ↦ elim (Bool-cases (p == port)) [
      | inl hit ↦ subst (Has out) ((eq_iff p port).0 hit) (v, found)
      | inr miss ↦
          first_missing-none ports out port (ground (arith, found, h)) (ground (arith, miss, e))
    ]
  ]

  check_step_output-Has :
      (out : Dict F) (ports : List String) (port : String) (u : Unit {0})
      → check_step_output out ports ≡ ok u
      → elem port ports ≡ true
      → Has out port
  unfolding check_step_output
  check_step_output-Has out ports port u h e = elim (Option-cases (first_missing ports out)) [
    | inl complete ↦ first_missing-none ports out port complete e
    | inr (p, missing) ↦ ground (arith, missing, h)
  ]

module _ {F : Type 0} ⦃o : FloatOps F⦄ (repr : Repr F) (port_table : Dict PortDecl) where
  err_ok :
      (x : SolveError F) (outs : Dict F)
      → ◌≢◌ {A = Result (Dict F) (SolveError F)} (err x) (ok outs)
  err_ok x outs h = cc

  same_ok : (a b : Dict F) → ◌≡◌ {A = Result (Dict F) (SolveError F)} (ok a) (ok b) → a ≡ b
  same_ok a b h = cc

  pub finish_corner-pick :
      (info : SolverInfo F) (scalars : List String) (out : SolveOutput F) (measured : List F)
      (x : Result (Unit {0}) (SolveError F) × Dict (List PayloadRef)) (outs : Dict F)
      → (finish_corner repr port_table info scalars out measured x).0 ≡ ok outs
      → pick scalars out.values [] ≡ outs
  unfolding finish_corner
  finish_corner-pick info scalars out measured (err x, produced) outs h = absurd (err_ok x outs h)
  finish_corner-pick info scalars out measured (ok u, produced) outs h =
      elim (Result-cases (collect_measured repr port_table info out.measured_eps measured)) [
        | inr (x, m) ↦ absurd (err_ok x outs (ground (arith, m, h)))
        | inl (ms, m) ↦ same_ok (pick scalars out.values []) outs (ground (arith, m, h))
      ]

  pub check_corner-Has :
      (info : SolverInfo F) (scalars payloads : List String) (outcome : Outcome F) (s : Collected F)
      (outs : Dict F) (port : String)
      → elem port scalars ≡ true
      → (check_corner repr port_table info scalars payloads outcome s).0 ≡ ok outs
      → Has outs port
  unfolding check_corner
  check_corner-Has info scalars payloads (err x) s outs port e h = absurd (err_ok x outs h)
  check_corner-Has info scalars payloads (ok out) s outs port e h =
      elim (Result-cases (check_step_output out.values scalars)) [
        | inr (x, c) ↦ absurd (err_ok x outs (ground (arith, c, h)))
        | inl (u, c) ↦
            subst (λ d. Has d port)
              (finish_corner-pick info scalars out s.measured
                (collect_payloads repr port_table payloads out.payloads s.produced) outs
                (ground (arith, c, h)))
              (pick-Has scalars out.values [] port e
                (check_step_output-Has out.values scalars port u c e))
      ]
