-- ===== src/Fluids/Network/Solve/Correction.antt =====
-- One loop's correction in `_hardy_cross_solve` of python/feldspar/fluids/network.py: it writes the
-- unknown flows only, so what it does to a node's balance depends on the fixed flows of the loop.
use feldspar.Prelude.{
  ok_inj, ℕ, ◌+◌, String, ◌≡◌, refl, sym, ap, subst, ◌∙◌, true, false, some, List, [], ◌∷◌, inl,
  inr, ◌==◌, arith, Bool-cases, if◌then◌else◌, ok, bind_step,
}
use feldspar.Prelude.Float.{FloatOps, ExactSums}
use feldspar.Prelude.Sums.{add_swap, add_cancel}
use feldspar.Fluids.Network.Edges.{Edge, is_unknown}
use feldspar.Fluids.Network.Ends.{edge_at-some, get_elem?}
use feldspar.Fluids.Network.Cycles.{Sign, plus, minus, opposite}
use feldspar.Fluids.Network.Cycles.Circulation.{
  bit, enters, ins, outs, head, IsCirculation, HasEdges,
}
use feldspar.Fluids.Network.Seed.{set_flow, signed}
use feldspar.Fluids.Network.Seed.Balance.{
  balance, shapes, shape, shapes-set_flow, get_elem?_of_shapes, get_elem?-shapes,
}
use feldspar.Fluids.Network.Seed.Filling.{KeepsFixed, set_flow-KeepsFixed}
use feldspar.Fluids.Network.Solve.{apply_correction}
use feldspar.Fluids.Network.Solve.Standing.{
  unknown_at, moving, standing, IsFree, standing-IsFree, ins-split, outs-split, moving-unknown,
  moving-fixed, unknown_shape,
}
use feldspar.Fluids.Network.Solve.Times.{times, times-add, balance-step, chain}

module _ {F : Type 0} ⦃o : FloatOps F⦄ (x : ExactSums F o) where
  module _ (v : String) (dq : F) where
    enters-shape :
        (base : List (Edge F)) (i : ℕ) (s : Sign) (b e : Edge F)
        → get_elem? base i ≡ some b
        → shape b ≡ shape e
        → (enters base v i s ≡ bit (head s e == v))
          × (enters base v i (opposite s) ≡ bit (head (opposite s) e == v))
    enters-shape base i plus b e h k = ground arith
    enters-shape base i minus b e h k = ground arith

    correct-step :
        (es : List (Edge F)) (i : ℕ) (s : Sign) (loop : List (ℕ × Sign)) {e : Edge F}
        → get_elem? es i ≡ some e
        → apply_correction dq ((i, s) ∷ loop) es
          ≡ apply_correction dq loop
              (if is_unknown e then set_flow i (o.add e.flow (signed s dq)) es else es)
    unfolding apply_correction
    correct-step es i s loop at = bind_step _ _ _ (edge_at-some es i at)

    -- What a correction leaves, in terms of the unknown flows of the loop.
    pub record Moved (base es es' : List (Edge F)) (loop : List (ℕ × Sign)) : Type 0 where
      pub shaped : shapes es' ≡ shapes base
      pub fixed : KeepsFixed es es'
      pub moved :
          o.add (balance v es') (times x (outs base v (moving base loop)) dq)
          ≡ o.add (balance v es) (times x (ins base v (moving base loop)) dq)

    abbrev Changes : List (Edge F) → F → F → List (ℕ × Sign) → Type 0
    Changes base b b' steps =
        o.add b' (times x (outs base v steps) dq) ≡ o.add b (times x (ins base v steps) dq)

    abbrev StepChanges : List (Edge F) → F → F → ℕ → Sign → Type 0
    StepChanges base b b' i s =
        o.add b' (times x (enters base v i (opposite s)) dq)
        ≡ o.add b (times x (enters base v i s) dq)

    Moved-unknown :
        (base es es1 es' : List (Edge F)) (i : ℕ) (s : Sign) (loop : List (ℕ × Sign))
        → unknown_at base i ≡ true
        → KeepsFixed es es1
        → StepChanges base (balance v es) (balance v es1) i s
        → Moved base es1 es' loop
        → Moved base es es' ((i, s) ∷ loop)
    Moved-unknown base es es1 es' i s loop u k h m = record {
      shaped = m.shaped;
      fixed = λ j d g w. m.fixed j d (k j d g w) w;
      moved =
          subst (Changes base (balance v es) (balance v es')) (sym (moving-unknown base i s loop u))
            (chain x v dq (balance v es) (balance v es1) (balance v es') (enters base v i s)
              (ins base v (moving base loop)) (enters base v i (opposite s))
              (outs base v (moving base loop)) h m.moved);
    }

    Moved-fixed :
        (base es es' : List (Edge F)) (i : ℕ) (s : Sign) (loop : List (ℕ × Sign))
        → unknown_at base i ≡ false
        → Moved base es es' loop
        → Moved base es es' ((i, s) ∷ loop)
    Moved-fixed base es es' i s loop u m = record {
      shaped = m.shaped;
      fixed = m.fixed;
      moved =
          subst (Changes base (balance v es) (balance v es')) (sym (moving-fixed base i s loop u))
            m.moved;
    }

    step_changes :
        (base es : List (Edge F)) (i : ℕ) (s : Sign) (b e : Edge F)
        → get_elem? es i ≡ some e
        → get_elem? base i ≡ some b
        → shape b ≡ shape e
        → StepChanges base
            (balance v es)
            (balance v (set_flow i (o.add e.flow (signed s dq)) es))
            i
            s
    step_changes base es i s b e at there same =
        let (enter, leave) = enters-shape base i s b e there same in
        ap (λ n. o.add (balance v (set_flow i (o.add e.flow (signed s dq)) es)) (times x n dq))
          leave
        ∙ balance-step x v dq es i s e at
        ∙ ap (λ n. o.add (balance v es) (times x n dq)) (sym enter)

    pub apply_correction-Moved :
        (base : List (Edge F)) (loop : List (ℕ × Sign)) (es : List (Edge F))
        → shapes es ≡ shapes base
        → HasEdges base loop
        → (es' : List (Edge F)) × (apply_correction dq loop es ≡ ok es') × Moved base es es' loop
    unfolding apply_correction
    apply_correction-Moved base [] es shaped h =
        (es, refl, record { shaped = shaped; fixed = λ j d g w. g; moved = refl })
    apply_correction-Moved base ((i, s) ∷ loop) es shaped ((b, at), h) =
        let (e, here, same) =
          get_elem?_of_shapes es i (ap (λ t. get_elem? t i) shaped ∙ get_elem?-shapes base i at) in
        let step = correct-step es i s loop here in
        elim (Bool-cases (is_unknown e)) [
          | inl u ↦
              let y = o.add e.flow (signed s dq) in
              let (es', eq, m) =
                apply_correction-Moved base loop (set_flow i y es) (shapes-set_flow i y es ∙ shaped)
                  h in
              (
                es',
                step ∙ (rw u eq),
                Moved-unknown base es (set_flow i y es) es' i s loop
                    (unknown_shape base i b e at same ∙ u) (set_flow-KeepsFixed i y es e here u)
                    (step_changes base es i s b e here at same) m,
              )
          | inr u ↦
              let (es', eq, m) = apply_correction-Moved base loop es shaped h in
              (
                es',
                step ∙ (rw u eq),
                Moved-fixed base es es' i s loop (unknown_shape base i b e at same ∙ u) m,
              )
        ]

    -- A loop that closes changes the balance by what its fixed flows would have carried.
    pub Moved-by_fixed :
        (base es es' : List (Edge F)) (loop : List (ℕ × Sign))
        → ins base v loop ≡ outs base v loop
        → Moved base es es' loop
        → o.add (balance v es') (times x (ins base v (standing base loop)) dq)
          ≡ o.add (balance v es) (times x (outs base v (standing base loop)) dq)
    Moved-by_fixed base es es' loop closes m =
        let iu = ins base v (moving base loop) in
        let ou = outs base v (moving base loop) in
        let fi = ins base v (standing base loop) in
        let fo = outs base v (standing base loop) in
        let total : iu + fi ≡ ou + fo =
          omega (arith, ins-split base v loop, outs-split base v loop, closes) in
        add_cancel x (o.add (balance v es') (times x fi dq)) (o.add (balance v es) (times x fo dq))
          (times x ou dq)
          (add_swap x (balance v es') (times x fi dq) (times x ou dq)
            ∙ ap (λ t. o.add t (times x fi dq)) m.moved
            ∙ x.add_assoc (balance v es) (times x iu dq) (times x fi dq)
            ∙ ap (o.add (balance v es)) (sym (times-add x iu fi dq))
            ∙ ap (λ n. o.add (balance v es) (times x n dq)) total
            ∙ ap (o.add (balance v es))
                (times-add x ou fo dq ∙ x.add_comm (times x ou dq) (times x fo dq))
            ∙ sym (x.add_assoc (balance v es) (times x fo dq) (times x ou dq)))

    -- A loop without fixed flows changes no balance.
    pub free_balance :
        (base es es' : List (Edge F)) (loop : List (ℕ × Sign))
        → IsCirculation base loop
        → IsFree base loop
        → Moved base es es' loop
        → balance v es' ≡ balance v es
    unfolding times
    free_balance base es es' loop closes free m =
        let moved = Moved-by_fixed base es es' loop (closes v) m in
        sym (x.add_zero (balance v es'))
        ∙ subst
            (λ steps.
              o.add (balance v es') (times x (ins base v steps) dq)
              ≡ o.add (balance v es) (times x (outs base v steps) dq))
            (standing-IsFree base loop free) moved
        ∙ x.add_zero (balance v es)

-- On exact sums, for any loop over edges of the network that enters each node as often as it leaves
-- it: its correction changes the balance at a node by the correction times the steps over fixed
-- flows that leave the node, less the correction times those that enter it.
pub apply_correction-balance :
    {F : Type 0} ⦃o : FloatOps F⦄ (x : ExactSums F o) (v : String) (dq : F)
    (edges edges' : List (Edge F)) (loop : List (ℕ × Sign))
    → IsCirculation edges loop
    → HasEdges edges loop
    → apply_correction dq loop edges ≡ ok edges'
    → o.add (balance v edges') (times x (ins edges v (standing edges loop)) dq)
      ≡ o.add (balance v edges) (times x (outs edges v (standing edges loop)) dq)
apply_correction-balance ⦃o = o⦄ x v dq edges edges' loop closes has eq =
    let (es, e, m) = apply_correction-Moved x v dq edges loop edges refl has in
    subst
      (λ es'.
        o.add (balance v es') (times x (ins edges v (standing edges loop)) dq)
        ≡ o.add (balance v edges) (times x (outs edges v (standing edges loop)) dq))
      (ok_inj e eq) (Moved-by_fixed x v dq edges edges es loop (closes v) m)
