-- ===== src/Fluids/Network/Seed/Upwards.antt =====
-- The loop of `_seed_continuity_respecting_flows` of python/feldspar/fluids/network.py, from the last node
-- of the tree up to its root.
use feldspar.Fluids.Network.Search.{elem-root, order_of, names, Growth}
use feldspar.Prelude.Sums.{zero_add}
use mathlib.Core.List.{reverse, reverse-append}
use feldspar.Prelude.{
  bind_step, ℕ, String, ◌≡◌, ◌≢◌, refl, sym, ap, subst, ◌∙◌, true, false, some, List, [], ◌∷◌, inl,
  inr, ◌==◌, eq_iff, elem, All, arith, Bool-cases, ok, ◌>>=◌, leb,
}
use feldspar.Prelude.Dict.{Dict, lookup}
use feldspar.Prelude.Float.{FloatOps, ExactSums}
use feldspar.Fluids.Network.Edges.{get_item-some, Edge, Constants}
use feldspar.Fluids.Network.Ends.{get_elem?, Tail-all}
use feldspar.Fluids.Network.Tree.{SpanningTree}
use feldspar.Fluids.Network.Tree.Grown.{Joins, IsGrown}
use feldspar.Fluids.Network.Cycles.{Sign}
use feldspar.Fluids.Network.Seed.{seed_node, seed_from, check_root, flow_sum, exceeds}
use feldspar.Fluids.Network.Seed.Balance.{
  flow_sum-entries_at, entries_at-shapes, balance, shapes, entries_at, get_elem?_of_shapes,
}
use feldspar.Fluids.Network.Seed.Filling.{KeepsFixed}
use feldspar.Fluids.Network.Seed.Continuity.{
  Gives, Gives-bind, Settled, Seeded, seed_node-Seeded, degree,
}

pub reverse-order_of :
    (root : String) (log : List (Growth ℕ)) → reverse (order_of root log) ≡ names root log
reverse-order_of root [] = refl
reverse-order_of root (x ∷ log) =
    reverse-append (order_of root log) (x.node ∷ [])
    ∙ ap (λ r. x.node ∷ r) (reverse-order_of root log)

pub apart_of : (v w : String) (ks : List String) → elem v ks ≡ false → elem w ks ≡ true → v ≢ w
apart_of v w ks h g e = ground (arith, e)

module _ {F : Type 0} ⦃o : FloatOps F⦄ (x : ExactSums F o) (c : Constants F)
    (tol : o.le (o.abs o.zero) c.conservation_tol ≡ true) (base : List (Edge F)) (root : String)
    (incident : Dict (List (ℕ × Sign))) (tree : SpanningTree) where
  -- What the loop leaves once it has gone through a growth.
  pub record SeededFrom (g : List (Growth ℕ)) (es es' : List (Edge F)) : Type 0 where
    pub shaped : shapes es' ≡ base
    pub fixed : KeepsFixed es es'
    pub settled :
        (v : String) → elem v (names root g) ≡ true → v ≢ root → Settled x c tol base es' v
    pub apart : (v : String) → elem v (names root g) ≡ false → balance v es' ≡ balance v es

  Seeded-more :
      (g : List (Growth ℕ)) (y : Growth ℕ) (es es1 es' : List (Edge F))
      → elem y.node (names root g) ≡ false
      → elem y.parent (names root g) ≡ true
      → Seeded x c tol base es y.node y.parent es1
      → SeededFrom g es1 es'
      → SeededFrom (y ∷ g) es es'
  Seeded-more g y es es1 es' fresh old s r = record {
    shaped = r.shaped;
    fixed = λ i e at u. r.fixed i e (s.fixed i e at u) u;
    settled = λ v m nr. elim (Bool-cases (y.node == v)) [
      | inl same ↦ subst (Settled x c tol base es') ((eq_iff y.node v).0 same) (λ two.
          subst (λ b. o.le (o.abs b) c.conservation_tol ≡ true) (sym (r.apart y.node fresh))
            (s.settled two))
      | inr other ↦ r.settled v (ground arith) nr
    ];
    apart = λ v m.
        let out : elem v (names root g) ≡ false = ground arith in
        r.apart v out
        ∙ s.apart v (λ e. ground (arith, eq_iff y.node v))
            (apart_of v y.parent (names root g) out old);
  }

  -- The tree and the incidence have what the growth says.
  abbrev pub Knows : List (Growth ℕ) → Type 0
  Knows g =
      All
        (λ y.
          (lookup y.node tree.parent_edge ≡ some y.edge)
          × (lookup y.node incident ≡ some (entries_at y.node 0 base)))
        g

  seed_step :
      (y : Growth ℕ) (es : List (Edge F))
      → shapes es ≡ base
      → y.parent ≢ y.node
      → Joins base y.edge y.parent y.node
      → lookup y.node tree.parent_edge ≡ some y.edge
      → lookup y.node incident ≡ some (entries_at y.node 0 base)
      → Gives (seed_node c incident tree y.node es) (Seeded x c tol base es y.node y.parent)
  seed_step y es shaped ne (s, at, joins) hp hi =
      let (e, here, same) =
        get_elem?_of_shapes es y.edge (ap (λ b. get_elem? b y.edge) shaped ∙ at) in
      seed_node-Seeded x c tol base es y.node y.parent y.edge e shaped here (ground arith) ne
        incident tree hp hi

  seed_from-skip :
      (nodes : List String) (es : List (Edge F))
      → seed_from c incident tree root (root ∷ nodes) es ≡ seed_from c incident tree root nodes es
  unfolding seed_from
  seed_from-skip nodes es = ground (arith, eq_iff root root)

  seed_from-next :
      (node : String) (nodes : List String) (es : List (Edge F))
      → node ≢ root
      → seed_from c incident tree root (node ∷ nodes) es
        ≡ (seed_node c incident tree node es >>= λ es'. seed_from c incident tree root nodes es')
  unfolding seed_from
  seed_from-next node nodes es h = ground (arith, eq_iff node root)

  pub seed_from-SeededFrom :
      (g : List (Growth ℕ)) (es : List (Edge F))
      → IsGrown base root g
      → Knows g
      → shapes es ≡ base
      → Gives (seed_from c incident tree root (names root g) es) (SeededFrom g es)
  unfolding seed_from
  seed_from-SeededFrom [] es grown k shaped = inr (
    es,
    seed_from-skip [] es,
    record {
      shaped = shaped;
      fixed = λ i e at u. at;
      settled = λ v m nr. absurd (nr (ground (arith, eq_iff root v)));
      apart = λ v m. refl;
    },
  )
  seed_from-SeededFrom (y ∷ g) es (fresh, old, joins, grown) k shaped =
      let nr = apart_of y.node root (names root g) fresh (elem-root root g) in
      let ne = apart_of y.node y.parent (names root g) fresh old in
      subst (λ r. Gives r (SeededFrom (y ∷ g) es))
        (sym (seed_from-next y.node (names root g) es nr))
        (Gives-bind (seed_node c incident tree y.node es) _ (Seeded x c tol base es y.node y.parent)
          (SeededFrom (y ∷ g) es) (seed_step y es shaped (λ e. ne (sym e)) joins k.0.0 k.0.1)
          (λ es1 s. elim (seed_from-SeededFrom g es1 grown k.1 s.shaped) [
            | inl refused ↦ inl refused
            | inr (es', e, r) ↦ inr (es', e, Seeded-more g y es es1 es' fresh old s r)
          ]))

  -- The root balances too, or the demand is refused.
  pub check_root-Settled :
      (es : List (Edge F))
      → shapes es ≡ base
      → lookup root incident ≡ some (entries_at root 0 base)
      → Gives (check_root c incident root es) (λ es'. (es' ≡ es) × Settled x c tol base es root)
  unfolding check_root
  check_root-Settled es shaped hi =
      let entries : entries_at root 0 base ≡ entries_at root 0 es =
        sym (ap (entries_at root 0) shaped) ∙ entries_at-shapes root 0 es in
      let sum =
        ap (flow_sum es o.zero) entries
        ∙ flow_sum-entries_at x es root 0 es o.zero (Tail-all es)
        ∙ ap ok (zero_add x (balance root es)) in
      let start = bind_step _ _ (entries_at root 0 base) (get_item-some root incident hi) in
      elim (Bool-cases (leb (degree root base) 1)) [
        | inl few ↦ inr (es, start ∙ (rw few refl), (refl, λ two. absurd (ground arith)))
        | inr many ↦ elim (Bool-cases (exceeds c (balance root es))) [
          | inl over ↦ inl (
            "unbalanced_demand",
            start ∙ (rw many (bind_step _ _ (balance root es) sum ∙ (rw over refl))),
          )
          | inr fits ↦ inr (
            es,
            start ∙ (rw many (bind_step _ _ (balance root es) sum ∙ (rw fits refl))),
            (refl, λ two. ground (arith, x.less_le c.conservation_tol (o.abs (balance root es)))),
          )
        ]
      ]
