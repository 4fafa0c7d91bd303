-- ===== src/Fluids/Network/Solve/Times.antt =====
-- Multiples of a correction, and what one step of it does to a node's balance
-- (python/feldspar/fluids/network.py).
use feldspar.Prelude.{
  ℕ, zero, suc, ◌+◌, String, ◌≡◌, sym, ap, ◌∙◌, Bool, true, false, some, List, ◌==◌, arith,
  if◌then◌else◌,
}
use feldspar.Prelude.Float.{FloatOps, ExactSums}
use feldspar.Prelude.Sums.{neg_add_self, zero_add, add_swap, add_cancel, neg_neg, neg_add}
use feldspar.Fluids.Network.Edges.{Edge}
use feldspar.Fluids.Network.Ends.{get_elem?}
use feldspar.Fluids.Network.Cycles.{Sign, plus, minus, opposite}
use feldspar.Fluids.Network.Cycles.Circulation.{bit, head}
use feldspar.Fluids.Network.Seed.{set_flow, signed}
use feldspar.Fluids.Network.Seed.Balance.{share, balance, balance-set_flow}

module _ {F : Type 0} ⦃o : FloatOps F⦄ (x : ExactSums F o) where
  -- `n` times a flow
  unfoldable pub times : ℕ → F → F
  times zero y = o.zero
  times (suc n) y = o.add y (times n y)

  pub times-add : (m n : ℕ) (y : F) → times (m + n) y ≡ o.add (times m y) (times n y)
  unfolding times
  times-add zero n y =
      let e : 0 + n ≡ n = omega arith in ap (λ k. times k y) e ∙ sym (zero_add x (times n y))
  times-add (suc m) n y =
      let e : suc m + n ≡ suc (m + n) = omega arith in
      ap (λ k. times k y) e
      ∙ ap (o.add y) (times-add m n y)
      ∙ sym (x.add_assoc y (times m y) (times n y))

  abbrev brought : Bool → Bool → F → F
  brought from to y = o.add (if from then o.neg y else o.zero) (if to then y else o.zero)

  brought-add :
      (from to : Bool) (a b : F)
      → brought from to (o.add a b) ≡ o.add (brought from to a) (brought from to b)
  brought-add true true a b = simp (neg_add_self x, x.add_zero)
  brought-add true false a b = simp (neg_add x, x.add_zero)
  brought-add false true a b = simp (zero_add x)
  brought-add false false a b = simp (x.add_zero)

  -- A step brings the correction to the node that it enters, and takes it from the one it leaves.
  brought-times :
      (from to : Bool) (s : Sign) (dq : F)
      → o.add
          (brought from to (signed s dq))
          (times (elim s [ plus ↦ bit from | minus ↦ bit to ]) dq)
        ≡ times (elim s [ plus ↦ bit to | minus ↦ bit from ]) dq
  unfolding times
  brought-times true true plus dq = simp (neg_add_self x, x.add_zero, zero_add x)
  brought-times true false plus dq = simp (neg_add_self x, x.add_zero)
  brought-times false true plus dq = simp (x.add_zero, zero_add x)
  brought-times false false plus dq = simp (x.add_zero)
  brought-times true true minus dq =
      ap (λ t. o.add t (o.add dq o.zero)) (neg_add_self x (o.neg dq)) ∙ zero_add x (o.add dq o.zero)
  brought-times true false minus dq = simp (neg_neg x, x.add_zero)
  brought-times false true minus dq = simp (neg_add_self x, x.add_zero, zero_add x)
  brought-times false false minus dq = simp (x.add_zero)

  share-times :
      (v : String) (e : Edge F) (s : Sign) (dq : F)
      → o.add (share v e (signed s dq)) (times (bit (head (opposite s) e == v)) dq)
        ≡ times (bit (head s e == v)) dq
  share-times v e plus dq = brought-times (e.a == v) (e.b == v) plus dq
  share-times v e minus dq = brought-times (e.a == v) (e.b == v) minus dq

  module _ (v : String) (dq : F) where
    -- One step's write.
    pub balance-step :
        (es : List (Edge F)) (i : ℕ) (s : Sign) (e : Edge F)
        → get_elem? es i ≡ some e
        → o.add
            (balance v (set_flow i (o.add e.flow (signed s dq)) es))
            (times (bit (head (opposite s) e == v)) dq)
          ≡ o.add (balance v es) (times (bit (head s e == v)) dq)
    balance-step es i s e at =
        let y = o.add e.flow (signed s dq) in
        let moved : balance v (set_flow i y es) ≡ o.add (balance v es) (share v e (signed s dq)) =
          add_cancel x (balance v (set_flow i y es))
            (o.add (balance v es) (share v e (signed s dq))) (share v e e.flow)
            (balance-set_flow x v i y es e at
              ∙ ap (o.add (balance v es)) (brought-add (e.a == v) (e.b == v) e.flow (signed s dq))
              ∙ sym (x.add_assoc (balance v es) (share v e e.flow) (share v e (signed s dq)))
              ∙ add_swap x (balance v es) (share v e e.flow) (share v e (signed s dq))) in
        ap (λ b. o.add b (times (bit (head (opposite s) e == v)) dq)) moved
        ∙ x.add_assoc (balance v es) (share v e (signed s dq))
            (times (bit (head (opposite s) e == v)) dq)
        ∙ ap (o.add (balance v es)) (share-times v e s dq)

    -- Two changes, one after the other.
    pub chain :
        (b b1 b2 : F) (i i' u u' : ℕ)
        → o.add b1 (times u dq) ≡ o.add b (times i dq)
        → o.add b2 (times u' dq) ≡ o.add b1 (times i' dq)
        → o.add b2 (times (u + u') dq) ≡ o.add b (times (i + i') dq)
    chain b b1 b2 i i' u u' h k =
        ap (o.add b2) (times-add u u' dq ∙ x.add_comm (times u dq) (times u' dq))
        ∙ sym (x.add_assoc b2 (times u' dq) (times u dq))
        ∙ ap (λ t. o.add t (times u dq)) k
        ∙ add_swap x b1 (times i' dq) (times u dq)
        ∙ ap (λ t. o.add t (times i' dq)) h
        ∙ x.add_assoc b (times i dq) (times i' dq)
        ∙ ap (o.add b) (sym (times-add i i' dq))
