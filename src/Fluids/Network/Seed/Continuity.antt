-- ===== src/Fluids/Network/Seed/Continuity.antt =====
-- `_seed_continuity_respecting_flows` of python/feldspar/fluids/network.py balances every node with
-- two or more edge ends, on exact sums.
use feldspar.Prelude.{
  bind_step, ℕ, ◌≤◌, String, ◌≡◌, ◌≢◌, refl, sym, ap, subst, ◌∙◌, true, some, List, ◌⊎◌, inl, inr,
  length, arith, Bool-cases, if◌then◌else◌, Result, ok, ◌>>=◌,
}
use native.Mathlib.Decide.{ℕ_discrete}
use feldspar.Prelude.Dict.{Dict, lookup}
use feldspar.Prelude.Float.{FloatOps, ExactSums}
use feldspar.Fluids.Network.Edges.{get_item-some, Edge, Stop, Constants, is_unknown}
use feldspar.Fluids.Network.Ends.{edge_at-some, get_elem?, Tail-all}
use feldspar.Fluids.Network.Tree.{SpanningTree, refuse}
use feldspar.Fluids.Network.Cycles.{Sign}
use feldspar.Fluids.Network.Seed.{
  set_flow, flow_sum, required_flow, exceeds, balance_edge, seed_node,
}
use feldspar.Fluids.Network.Seed.Balance.{
  balance, shapes, entries_at, except, shapes-set_flow, balance-set_flow_apart, flow_sum-except,
  entries_at-shapes,
}
use feldspar.Fluids.Network.Seed.Filling.{
  KeepsFixed, set_flow-KeepsFixed, balance_filled, abs_balance, without,
}

-- A refusal, or edges of which `P` holds.
abbrev pub Gives : {A F : Type 0} → Result A (Stop F) → (A → Type 0) → Type 0
Gives {A} r P = ((feature : String) × (r ≡ refuse feature)) ⊎ ((a : A) × (r ≡ ok a) × P a)

pub Gives-bind :
    {A B F : Type 0} (m : Result A (Stop F)) (f : A → Result B (Stop F)) (P : A → Type 0)
    (Q : B → Type 0)
    → Gives m P
    → ((a : A) → P a → Gives (f a) Q)
    → Gives (m >>= f) Q
unfolding refuse
Gives-bind m f P Q (inl (feature, e)) k = inl (feature, rw e refl)
Gives-bind {A} {B} {F} m f P Q (inr (a, e, p)) k =
    subst (λ (r : Result A (Stop F)). Gives (r >>= f) Q) (sym e) (k a p)

-- How many edge ends a node has.
abbrev pub degree : {F : Type 0} → String → List (Edge F) → ℕ
degree v es = length (entries_at v 0 es)

module _ {F : Type 0} ⦃o : FloatOps F⦄ (x : ExactSums F o) (c : Constants F)
    (tol : o.le (o.abs o.zero) c.conservation_tol ≡ true) (base : List (Edge F)) where
  -- A node with two or more edge ends balances, to within the tolerance.
  abbrev pub Settled : List (Edge F) → String → Type 0
  Settled es v = 2 ≤ degree v base → o.le (o.abs (balance v es)) c.conservation_tol ≡ true

  -- What a step at the node `n` with the parent `p` leaves.
  pub record Seeded (es : List (Edge F)) (n p : String) (es' : List (Edge F)) : Type 0 where
    pub shaped : shapes es' ≡ base
    pub fixed : KeepsFixed es es'
    pub settled : Settled es' n
    pub apart : (v : String) → v ≢ n → v ≢ p → balance v es' ≡ balance v es

  module _ (es : List (Edge F)) (n p : String) (i : ℕ) (e : Edge F) (shaped : shapes es ≡ base)
      (at : get_elem? es i ≡ some e) (joins : ((e.a ≡ p) × (e.b ≡ n)) ⊎ ((e.a ≡ n) × (e.b ≡ p)))
      (ne : p ≢ n) where
    away : (y : F) (v : String) → v ≢ n → v ≢ p → balance v (set_flow i y es) ≡ balance v es
    away y v hn hp = balance-set_flow_apart x v i y es e at (λ h. ground arith) (λ h. ground arith)

    written :
        (y : F)
        → is_unknown e ≡ true
        → Settled (set_flow i y es) n
        → Seeded es n p (set_flow i y es)
    written y u s = record {
      shaped = shapes-set_flow i y es ∙ shaped;
      fixed = set_flow-KeepsFixed i y es e at u;
      settled = s;
      apart = away y;
    }

    left : Settled es n → Seeded es n p es
    left s = record { shaped = shaped; fixed = λ j d h k. h; settled = s; apart = λ v hn hp. refl }

    abbrev required : F
    required = required_flow c n e (o.add o.zero (without x es n p i e at joins ne))

    balance_edge-Seeded : Gives (balance_edge c i e required es) (Seeded es n p)
    unfolding balance_edge
    balance_edge-Seeded = elim (Bool-cases (is_unknown e)) [
      | inl u ↦ inr (
        set_flow i required es,
        rw u refl,
        written required u (λ _.
            subst (λ b. o.le (o.abs b) c.conservation_tol ≡ true)
              (sym (balance_filled x es n p i e at joins ne)) tol),
      )
      | inr u ↦ elim (Bool-cases (exceeds c (o.sub required e.flow))) [
        | inl over ↦ inl ("overconstrained_demand", rw (u, over) refl)
        | inr fits ↦ inr (
          es,
          rw (u, fits) refl,
          left (λ _.
              subst (λ b. o.le b c.conservation_tol ≡ true) (abs_balance x es n p i e at joins ne)
                (ground (arith, x.less_le c.conservation_tol (o.abs (o.sub required e.flow))))),
        )
      ]
    ]

    seed_node-leaf :
        (incident : Dict (List (ℕ × Sign))) (tree : SpanningTree) (entries : List (ℕ × Sign))
        → lookup n tree.parent_edge ≡ some i
        → lookup n incident ≡ some entries
        → length entries ≡ 1
        → seed_node c incident tree n es ≡ ok (if is_unknown e then set_flow i o.zero es else es)
    unfolding seed_node
    seed_node-leaf incident tree entries hp hi one =
        bind_step _ _ i (get_item-some n tree.parent_edge hp)
        ∙ bind_step _ _ e (edge_at-some es i at)
        ∙ bind_step _ _ entries (get_item-some n incident hi)
        ∙ ground arith

    seed_node-inner :
        (incident : Dict (List (ℕ × Sign))) (tree : SpanningTree) (entries : List (ℕ × Sign))
        (b : F)
        → lookup n tree.parent_edge ≡ some i
        → lookup n incident ≡ some entries
        → length entries ≢ 1
        → flow_sum es o.zero (except i entries) ≡ ok b
        → seed_node c incident tree n es ≡ balance_edge c i e (required_flow c n e b) es
    unfolding seed_node
    seed_node-inner incident tree entries b hp hi many sum =
        bind_step _ _ i (get_item-some n tree.parent_edge hp)
        ∙ bind_step _ _ e (edge_at-some es i at)
        ∙ bind_step _ _ entries (get_item-some n incident hi)
        ∙ (ground (
          arith,
          bind_step _ (λ balance. balance_edge c i e (required_flow c n e balance) es) b sum,
        ))

    pub seed_node-Seeded :
        (incident : Dict (List (ℕ × Sign))) (tree : SpanningTree)
        → lookup n tree.parent_edge ≡ some i
        → lookup n incident ≡ some (entries_at n 0 base)
        → Gives (seed_node c incident tree n es) (Seeded es n p)
    seed_node-Seeded incident tree hp hi = elim (ℕ_discrete (degree n base) 1) [
      | yes one ↦ elim (Bool-cases (is_unknown e)) [
        | inl u ↦ inr (
          set_flow i o.zero es,
          seed_node-leaf incident tree (entries_at n 0 base) hp hi one ∙ (rw u refl),
          written o.zero u (λ two. absurd (omega arith)),
        )
        | inr u ↦ inr (
          es,
          seed_node-leaf incident tree (entries_at n 0 base) hp hi one ∙ (rw u refl),
          left (λ two. absurd (omega arith)),
        )
      ]
      | no many ↦
          let entries : entries_at n 0 base ≡ entries_at n 0 es =
            sym (ap (entries_at n 0) shaped) ∙ entries_at-shapes n 0 es in
          let sum =
            ap (λ t. flow_sum es o.zero (except i t)) entries
            ∙ flow_sum-except x es n 0 i i es o.zero (Tail-all es) (omega arith) in
          subst (λ r. Gives r (Seeded es n p))
            (sym (
              seed_node-inner incident tree (entries_at n 0 base)
                (o.add o.zero (without x es n p i e at joins ne)) hp hi many sum))
            balance_edge-Seeded
    ]
