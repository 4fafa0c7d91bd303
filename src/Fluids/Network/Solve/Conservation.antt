-- ===== src/Fluids/Network/Solve/Conservation.antt =====
-- The iteration of `_hardy_cross_solve` of python/feldspar/fluids/network.py: it ends with an error
-- value, an arithmetic error or edges, and it keeps the balance of every node if no
-- fixed flow lies on a loop.
use feldspar.Prelude.{
  ℕ, zero, suc, String, ◌≡◌, refl, sym, ap, subst, ◌∙◌, List, [], ◌∷◌, ◌⊎◌, inl, inr, All,
  Bool-cases, Result, ok, err, ◌>>=◌, bind_step, ok_inj,
}
use feldspar.Prelude.Float.{FloatOps, ExactSums, lt, eq, max}
use feldspar.Fluids.Network.Edges.{Edge, Stop, error, arithmetic, Constants, is_unknown}
use feldspar.Fluids.Network.Ends.{edge_at-some, get_elem?}
use feldspar.Fluids.Network.Losses.{Formulas}
use feldspar.Fluids.Network.Losses.Arithmetic.{
  Computes, Computes-ok, Computes-if, Computes-bind, edge_dp_and_k-Computes,
}
use feldspar.Fluids.Network.Tree.{refuse}
use feldspar.Fluids.Network.Cycles.{Sign}
use feldspar.Fluids.Network.Cycles.Circulation.{IsLoop, HasEdges}
use feldspar.Fluids.Network.Seed.{signed}
use feldspar.Fluids.Network.Seed.Balance.{balance, shapes, get_elem?_of_shapes, get_elem?-shapes}
use feldspar.Fluids.Network.Seed.Filling.{KeepsFixed}
use feldspar.Fluids.Network.Seed.Continuity.{Gives}
use feldspar.Fluids.Network.Solve.{
  loop_terms, apply_correction, correct_loop, correct_loops, converge,
}
use feldspar.Fluids.Network.Solve.Standing.{IsFree}
use feldspar.Fluids.Network.Solve.Correction.{apply_correction-Moved, free_balance}

-- An error value or an arithmetic error; no missing key, index or fuel.
abbrev pub IsReported : {F : Type 0} → Stop F → Type 0
IsReported (error _) = Unit
IsReported (arithmetic _) = Unit
IsReported _ = ⊥

-- Such a stop, or a value of which `P` holds.
abbrev pub Reports : {A F : Type 0} → Result A (Stop F) → (A → Type 0) → Type 0
Reports {A} {F} r P =
    ((stop : Stop F) × (r ≡ err stop) × IsReported stop) ⊎ ((a : A) × (r ≡ ok a) × P a)

pub Reports-bind :
    {A B F : Type 0} (m : Result A (Stop F)) (f : A → Result B (Stop F)) (P : A → Type 0)
    (Q : B → Type 0)
    → Reports m P
    → ((a : A) → P a → Reports (f a) Q)
    → Reports (m >>= f) Q
Reports-bind m f P Q (inl (stop, h, r)) k = inl (stop, rw h refl, r)
Reports-bind {A} {B} {F} m f P Q (inr (a, h, p)) k =
    subst (λ (r : Result A (Stop F)). Reports (r >>= f) Q) (sym h) (k a p)

pub Reports_of_Gives :
    {A F : Type 0} (r : Result A (Stop F)) (P : A → Type 0) → Gives r P → Reports r P
unfolding refuse
Reports_of_Gives r P (inl (feature, h)) = inl (_, h, tt)
Reports_of_Gives r P (inr given) = inr given

Reports_of_Computes : {A F : Type 0} (r : Result A (Stop F)) → Computes r → Reports r (λ _. Unit)
Reports_of_Computes r (inl (a, h)) = inr (a, h, tt)
Reports_of_Computes r (inr (e, h)) = inl (arithmetic e, h, tt)

module _ {F : Type 0} ⦃o : FloatOps F⦄ (x : ExactSums F o) (c : Constants F) (g : Formulas F)
    (base : List (Edge F)) (calm : Type 0) where
  -- Edges of the same shape and fixed flows, which balance alike if the loops are free.
  pub record Corrected (es es' : List (Edge F)) : Type 0 where
    pub shaped : shapes es' ≡ shapes base
    pub fixed : KeepsFixed es es'
    pub conserved : calm → (v : String) → balance v es' ≡ balance v es

  Corrected-refl : {es : List (Edge F)} → shapes es ≡ shapes base → Corrected es es
  Corrected-refl h = record { shaped = h; fixed = λ i e at u. at; conserved = λ k v. refl }

  Corrected-trans :
      {es es1 es2 : List (Edge F)} → Corrected es es1 → Corrected es1 es2 → Corrected es es2
  Corrected-trans p q = record {
    shaped = q.shaped;
    fixed = λ i e at u. q.fixed i e (p.fixed i e at u) u;
    conserved = λ k v. q.conserved k v ∙ p.conserved k v;
  }

  loop_terms-Computes :
      (es : List (Edge F)) (loop : List (ℕ × Sign)) (numerator denominator : F)
      → shapes es ≡ shapes base
      → HasEdges base loop
      → Computes (loop_terms c g es loop numerator denominator)
  unfolding loop_terms
  loop_terms-Computes es [] n d shaped h = Computes-ok (n, d)
  loop_terms-Computes es ((i, s) ∷ loop) n d shaped ((b, at), h) =
      let (e, here, _) =
        get_elem?_of_shapes es i (ap (λ t. get_elem? t i) shaped ∙ get_elem?-shapes base i at) in
      subst Computes (sym (bind_step _ _ e (edge_at-some es i here))) (
        Computes-if (is_unknown e) _ _
          (Computes-bind _ _ (edge_dp_and_k-Computes c g e (signed s e.flow))
            (λ (dp, k). loop_terms-Computes es loop (o.add n dp) (o.add d k) shaped h))
          (loop_terms-Computes es loop (o.add n (signed s o.zero)) d shaped h))

  apply_correction-Corrected :
      (dq : F) (es : List (Edge F)) (loop : List (ℕ × Sign))
      → shapes es ≡ shapes base
      → IsLoop base loop
      → (calm → IsFree base loop)
      → (es' : List (Edge F)) × (apply_correction dq loop es ≡ ok es') × Corrected es es'
  apply_correction-Corrected dq es loop shaped is_loop free =
      let (es', e, m) = apply_correction-Moved x "" dq base loop es shaped is_loop.1 in
      (
        es',
        e,
        record {
          shaped = m.shaped;
          fixed = m.fixed;
          conserved = λ k v.
              let (es2, e2, m2) = apply_correction-Moved x v dq base loop es shaped is_loop.1 in
              subst (λ t. balance v t ≡ balance v es) (ok_inj e2 e)
                (free_balance x v dq base es es2 loop is_loop.0 (free k) m2);
        },
      )

  correct_loop-Corrected :
      (loop : List (ℕ × Sign)) (es : List (Edge F)) (max_dq : F)
      → shapes es ≡ shapes base
      → IsLoop base loop
      → (calm → IsFree base loop)
      → Reports (correct_loop c g loop es max_dq) (λ next. Corrected es next.0)
  unfolding correct_loop
  correct_loop-Corrected loop es max_dq shaped is_loop free =
      Reports-bind (loop_terms c g es loop o.zero o.zero) _ (λ _. Unit)
        (λ next. Corrected es next.0)
        (Reports_of_Computes _ (loop_terms-Computes es loop o.zero o.zero shaped is_loop.1))
        (λ (n, d) _. elim (Bool-cases (eq d o.zero)) [
          | inl none_free ↦
              Reports_of_Gives _ (λ next. Corrected es next.0)
                (inl ("all_imposer_loop", rw none_free refl))
          | inr some_free ↦
              let dq = o.div (o.neg n) d in
              let (es', e, r) = apply_correction-Corrected dq es loop shaped is_loop free in
              inr ((es', max max_dq (o.abs dq)), rw some_free (bind_step _ _ es' e), r)
        ])

  correct_loops-Corrected :
      (loops : List (List (ℕ × Sign))) (es : List (Edge F)) (max_dq : F)
      → shapes es ≡ shapes base
      → All (IsLoop base) loops
      → (calm → All (IsFree base) loops)
      → Reports (correct_loops c g loops es max_dq) (λ next. Corrected es next.0)
  unfolding correct_loops
  correct_loops-Corrected [] es max_dq shaped all free =
      inr ((es, max_dq), refl, Corrected-refl shaped)
  correct_loops-Corrected (loop ∷ loops) es max_dq shaped all free =
      Reports-bind (correct_loop c g loop es max_dq) _ (λ next. Corrected es next.0)
        (λ next. Corrected es next.0)
        (correct_loop-Corrected loop es max_dq shaped all.0 (λ k. (free k).0))
        (λ next r.
          elim (correct_loops-Corrected loops next.0 next.1 r.shaped all.1 (λ k. (free k).1)) [
            | inl refused ↦ inl refused
            | inr (last, e, q) ↦ inr (last, e, Corrected-trans r q)
          ])

  pub converge-Corrected :
      (n : ℕ) (loops : List (List (ℕ × Sign))) (es : List (Edge F)) (max_dq : F)
      → shapes es ≡ shapes base
      → All (IsLoop base) loops
      → (calm → All (IsFree base) loops)
      → Reports (converge c g n loops es max_dq) (Corrected es)
  unfolding converge
  converge-Corrected zero loops es max_dq shaped all free = inl (_, refl, tt)
  converge-Corrected (suc n) loops es max_dq shaped all free =
      Reports-bind (correct_loops c g loops es o.zero) _ (λ next. Corrected es next.0)
        (Corrected es) (correct_loops-Corrected loops es o.zero shaped all free)
        (λ next r. elim (Bool-cases (lt next.1 c.hc_tol)) [
          | inl small ↦ inr (next.0, rw small refl, r)
          | inr large ↦
              rw large (elim (converge-Corrected n loops next.0 next.1 r.shaped all free) [
                | inl failed ↦ inl failed
                | inr (last, e, q) ↦ inr (last, e, Corrected-trans r q)
              ])
        ])
