-- ===== src/Fluids/Network/Seed/Filling.antt =====
-- The flow that `_seed_continuity_respecting_flows` of python/feldspar/fluids/network.py writes on the
-- edge to the parent balances its node, on exact sums.
use feldspar.Prelude.{
  ℕ, zero, suc, String, ◌≡◌, ◌≢◌, refl, sym, ap, ap₂, subst, ◌∙◌, true, false, some, List, [], ◌∷◌,
  ◌⊎◌, ◌==◌, eq_iff, arith, if◌then◌else◌,
}
use feldspar.Prelude.Float.{FloatOps, ExactSums}
use feldspar.Prelude.Sums.{zero_add, add_swap, add_cancel, neg_neg, neg_add}
use feldspar.Fluids.Network.Edges.{Edge, is_unknown}
use feldspar.Fluids.Network.Ends.{get_elem?}
use feldspar.Fluids.Network.Cycles.{Sign, plus, minus}
use feldspar.Fluids.Network.Seed.{set_flow, signed}
use feldspar.Fluids.Network.Seed.Balance.{share, balance, balance-set_flow, share_zero}

-- The edges of fixed flow stay as they are.
abbrev pub KeepsFixed : {F : Type 0} → List (Edge F) → List (Edge F) → Type 0
KeepsFixed {F} es es' =
    (i : ℕ) (e : Edge F) → get_elem? es i ≡ some e → is_unknown e ≡ false → get_elem? es' i ≡ some e

pub set_flow-KeepsFixed :
    {F : Type 0} (i : ℕ) (y : F) (es : List (Edge F)) (e : Edge F)
    → get_elem? es i ≡ some e
    → is_unknown e ≡ true
    → KeepsFixed es (set_flow i y es)
unfolding set_flow is_unknown
set_flow-KeepsFixed i y [] e at u j d h k = cc
set_flow-KeepsFixed zero y (x ∷ es) e at u zero d h k =
    let same : d ≡ e = cc in
    let other : is_unknown d ≡ true = subst (λ z. is_unknown z ≡ true) (sym same) u in absurd (cc)
set_flow-KeepsFixed zero y (x ∷ es) e at u (suc j) d h k = h
set_flow-KeepsFixed (suc i) y (x ∷ es) e at u zero d h k = h
set_flow-KeepsFixed (suc i) y (x ∷ es) e at u (suc j) d h k =
    set_flow-KeepsFixed i y es e at u j d h k

module _ {F : Type 0} ⦃o : FloatOps F⦄ (x : ExactSums F o) where
  abbrev pub side : String → Edge F → Sign
  side n e = if e.a == n then minus else plus

  share-side :
      (e : Edge F) (p n : String) (y : F)
      → ((e.a ≡ p) × (e.b ≡ n)) ⊎ ((e.a ≡ n) × (e.b ≡ p))
      → p ≢ n
      → share n e y ≡ signed (side n e) y
  share-side e p n y h ne =
      ground (arith, eq_iff e.a n, eq_iff e.b n, x.add_zero (o.neg y), zero_add x y)

  signed-signed : (s : Sign) (y : F) → signed s (signed s y) ≡ y
  signed-signed plus y = refl
  signed-signed minus y = neg_neg x y

  signed_sub :
      (s : Sign) (r y : F) → o.abs (o.sub (signed s (o.neg r)) y) ≡ o.abs (o.add r (signed s y))
  signed_sub plus r y =
      ap o.abs (x.sub_add (o.neg r) y ∙ sym (neg_add x r y)) ∙ x.abs_neg (o.add r y)
  signed_sub minus r y =
      ap o.abs (x.sub_add (o.neg (o.neg r)) y ∙ ap (λ t. o.add t (o.neg y)) (neg_neg x r))

  module _ (es : List (Edge F)) (n p : String) (i : ℕ) (e : Edge F) (at : get_elem? es i ≡ some e)
      (joins : ((e.a ≡ p) × (e.b ≡ n)) ⊎ ((e.a ≡ n) × (e.b ≡ p))) (ne : p ≢ n) where
    -- The balance without the flow of the edge.
    abbrev pub without : F
    without = balance n (set_flow i o.zero es)

    balance_before : balance n es ≡ o.add without (signed (side n e) e.flow)
    balance_before =
        sym (x.add_zero (balance n es))
        ∙ ap (o.add (balance n es)) (sym (share_zero x n e))
        ∙ sym (balance-set_flow x n i o.zero es e at)
        ∙ ap (o.add without) (share-side e p n e.flow joins ne)

    balance_after : (y : F) → balance n (set_flow i y es) ≡ o.add without (signed (side n e) y)
    balance_after y =
        add_cancel x (balance n (set_flow i y es)) (o.add without (signed (side n e) y))
          (share n e e.flow)
          (balance-set_flow x n i y es e at
            ∙ ap (λ t. o.add t (share n e y)) balance_before
            ∙ ap₂ (λ t u. o.add (o.add without t) u) (sym (share-side e p n e.flow joins ne))
                (share-side e p n y joins ne)
            ∙ add_swap x without (share n e e.flow) (signed (side n e) y))

    pub balance_filled :
        balance n (set_flow i (signed (side n e) (o.neg (o.add o.zero without))) es) ≡ o.zero
    balance_filled =
        balance_after (signed (side n e) (o.neg (o.add o.zero without)))
        ∙ ap (o.add without) (
            signed-signed (side n e) (o.neg (o.add o.zero without)) ∙ ap o.neg (zero_add x without))
        ∙ x.add_neg without

    pub abs_balance :
        o.abs (o.sub (signed (side n e) (o.neg (o.add o.zero without))) e.flow)
        ≡ o.abs (balance n es)
    abs_balance =
        signed_sub (side n e) (o.add o.zero without) e.flow
        ∙ ap (λ t. o.abs (o.add t (signed (side n e) e.flow))) (zero_add x without)
        ∙ ap o.abs (sym balance_before)
