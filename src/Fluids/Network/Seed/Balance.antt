-- ===== src/Fluids/Network/Seed/Balance.antt =====
-- The signed sum of the flows at a node, which python/feldspar/fluids/network.py computes over the
-- edges at it, and what a written flow does to it.
use feldspar.Prelude.Sums.{zero_add, add_swap, add_cancel, neg_zero}
use feldspar.Prelude.{
  ℕ, zero, suc, ◌+◌, ◌<◌, String, ◌≡◌, ◌≢◌, refl, sym, ap, subst, ◌∙◌, Bool, true, false, not, some,
  List, [], ◌∷◌, ◌++◌, ◌==◌, eq_iff, keep, arith, if◌then◌else◌, ok, map,
}
use feldspar.Prelude.Float.{FloatOps, ExactSums}
use feldspar.Fluids.Network.Edges.{Edge}
use feldspar.Fluids.Network.Ends.{edge_at-some, Tail-suc, Tail-head, Tail, edge_at, get_elem?, ends}
use feldspar.Fluids.Network.Cycles.{Sign, plus, minus, same_index}
use feldspar.Fluids.Network.Seed.{set_flow, flow_sum}

-- The entries of a node in `incident`.
abbrev pub entries_at : {F : Type 0} → String → ℕ → List (Edge F) → List (ℕ × Sign)
entries_at v i es = ends (λ i e. (i, minus)) (λ i e. (i, plus)) v i es

-- The entries of one edge, before others.
abbrev pub entries_of : {F : Type 0} → String → ℕ → Edge F → List (ℕ × Sign) → List (ℕ × Sign)
entries_of v i e rest =
    (if e.a == v then (i, minus) ∷ [] else [])
    ++ ((if e.b == v then (i, plus) ∷ [] else []) ++ rest)

-- The entries but for those of the edge `i`.
abbrev pub except : ℕ → List (ℕ × Sign) → List (ℕ × Sign)
except i entries = keep (λ step. not (same_index step.0 i)) entries

except-below :
    {F : Type 0} (v : String) (i k : ℕ) (es : List (Edge F))
    → i < k
    → except i (entries_at v k es) ≡ entries_at v k es
except-below v i k [] h = refl
except-below v i k (e ∷ es) h = ground (arith, except-below v i (suc k) es (omega arith))

except-own :
    {F : Type 0} (v : String) (k i : ℕ) (e : Edge F) (rest : List (ℕ × Sign))
    → k ≡ i
    → except i (entries_of v k e rest) ≡ except i rest
except-own v k i e rest h = ground arith

except-other :
    {F : Type 0} (v : String) (k i : ℕ) (e : Edge F) (rest : List (ℕ × Sign))
    → k ≢ i
    → except i (entries_of v k e rest) ≡ entries_of v k e (except i rest)
except-other v k i e rest h = ground arith

module _ {F : Type 0} ⦃o : FloatOps F⦄ where
  -- What an edge with the flow `x` brings to a node.
  abbrev pub share : String → Edge F → F → F
  share v e x = o.add (if e.a == v then o.neg x else o.zero) (if e.b == v then x else o.zero)

  pub balance : String → List (Edge F) → F
  balance v [] = o.zero
  balance v (e ∷ es) = o.add (share v e e.flow) (balance v es)

  -- An edge but for its flow.
  abbrev pub shape : Edge F → Edge F
  shape e = record e { flow = o.zero }

  abbrev pub shapes : List (Edge F) → List (Edge F)
  shapes es = map shape es

  pub shapes-set_flow : (i : ℕ) (x : F) (es : List (Edge F)) → shapes (set_flow i x es) ≡ shapes es
  unfolding set_flow
  shapes-set_flow i x [] = refl
  shapes-set_flow zero x (e ∷ es) = refl
  shapes-set_flow (suc i) x (e ∷ es) = ap (λ r. shape e ∷ r) (shapes-set_flow i x es)

  pub get_elem?-shapes :
      (es : List (Edge F)) (i : ℕ) {e : Edge F}
      → get_elem? es i ≡ some e
      → get_elem? (shapes es) i ≡ some (shape e)
  get_elem?-shapes [] i h = cc
  get_elem?-shapes (x ∷ es) zero h = ground arith
  get_elem?-shapes (x ∷ es) (suc i) h = get_elem?-shapes es i h

  pub get_elem?_of_shapes :
      (es : List (Edge F)) (i : ℕ) {s : Edge F}
      → get_elem? (shapes es) i ≡ some s
      → (e : Edge F) × (get_elem? es i ≡ some e) × (s ≡ shape e)
  get_elem?_of_shapes [] i h = cc
  get_elem?_of_shapes (x ∷ es) zero h = (x, refl, cc)
  get_elem?_of_shapes (x ∷ es) (suc i) h = get_elem?_of_shapes es i h

  pub entries_at-shapes :
      (v : String) (i : ℕ) (es : List (Edge F)) → entries_at v i (shapes es) ≡ entries_at v i es
  entries_at-shapes v i [] = refl
  entries_at-shapes v i (e ∷ es) =
      ap
        (λ r.
          (if e.a == v then (i, minus) ∷ [] else [])
          ++ ((if e.b == v then (i, plus) ∷ [] else []) ++ r))
        (entries_at-shapes v (suc i) es)

  module _ (x : ExactSums F o) where
    -- Writing a flow replaces the edge's share.
    pub balance-set_flow :
        (v : String) (i : ℕ) (y : F) (es : List (Edge F)) (e : Edge F)
        → get_elem? es i ≡ some e
        → o.add (balance v (set_flow i y es)) (share v e e.flow)
          ≡ o.add (balance v es) (share v e y)
    unfolding balance set_flow
    balance-set_flow v i y [] e h = cc
    balance-set_flow v zero y (d ∷ es) e h =
        let same : d ≡ e = cc in
        subst
          (λ (k : Edge F).
            o.add (o.add (share v d y) (balance v es)) (share v k k.flow)
            ≡ o.add (o.add (share v d d.flow) (balance v es)) (share v k y))
          same
          (add_swap x (share v d y) (balance v es) (share v d d.flow)
            ∙ ap (λ t. o.add t (balance v es)) (x.add_comm (share v d y) (share v d d.flow))
            ∙ add_swap x (share v d d.flow) (share v d y) (balance v es))
    balance-set_flow v (suc i) y (d ∷ es) e h =
        x.add_assoc (share v d d.flow) (balance v (set_flow i y es)) (share v e e.flow)
        ∙ ap (o.add (share v d d.flow)) (balance-set_flow v i y es e h)
        ∙ sym (x.add_assoc (share v d d.flow) (balance v es) (share v e y))

    pub share_zero : (v : String) (e : Edge F) → share v e o.zero ≡ o.zero
    share_zero v e = ground (arith, neg_zero x, x.add_zero o.zero)

    pub share_apart : (v : String) (e : Edge F) (y : F) → e.a ≢ v → e.b ≢ v → share v e y ≡ o.zero
    share_apart v e y ha hb = ground (arith, eq_iff e.a v, eq_iff e.b v, x.add_zero o.zero)

    -- The flow of an edge elsewhere.
    pub balance-set_flow_apart :
        (v : String) (i : ℕ) (y : F) (es : List (Edge F)) (e : Edge F)
        → get_elem? es i ≡ some e
        → e.a ≢ v
        → e.b ≢ v
        → balance v (set_flow i y es) ≡ balance v es
    balance-set_flow_apart v i y es e h ha hb =
        let moved = balance-set_flow v i y es e h in
        add_cancel x (balance v (set_flow i y es)) (balance v es) o.zero (
          sym (ap (o.add (balance v (set_flow i y es))) (share_apart v e e.flow ha hb))
          ∙ moved
          ∙ ap (o.add (balance v es)) (share_apart v e y ha hb))

    -- The entries of one edge add its share.
    flow_sum-steps :
        (from to : Bool) (edges : List (Edge F)) (k : ℕ) (e : Edge F) (rest : List (ℕ × Sign))
        (acc : F)
        → edge_at edges k ≡ ok e
        → flow_sum edges acc (
            (if from then (k, minus) ∷ [] else []) ++ ((if to then (k, plus) ∷ [] else []) ++ rest))
          ≡ flow_sum edges
              (o.add acc
                (o.add (if from then o.neg e.flow else o.zero) (if to then e.flow else o.zero)))
              rest
    unfolding flow_sum
    flow_sum-steps true true edges k e rest acc at =
        rw at (ap (λ a. flow_sum edges a rest) (x.add_assoc acc (o.neg e.flow) e.flow))
    flow_sum-steps true false edges k e rest acc at =
        rw at (ap (λ a. flow_sum edges (o.add acc a) rest) (sym (x.add_zero (o.neg e.flow))))
    flow_sum-steps false true edges k e rest acc at =
        rw at (ap (λ a. flow_sum edges (o.add acc a) rest) (sym (zero_add x e.flow)))
    flow_sum-steps false false edges k e rest acc at =
        ap (λ a. flow_sum edges a rest)
          (sym (x.add_zero acc) ∙ ap (o.add acc) (sym (x.add_zero o.zero)))

    flow_sum-edge :
        (edges : List (Edge F)) (v : String) (k : ℕ) (e : Edge F) (rest : List (ℕ × Sign)) (acc : F)
        → get_elem? edges k ≡ some e
        → flow_sum edges acc (entries_of v k e rest)
          ≡ flow_sum edges (o.add acc (share v e e.flow)) rest
    flow_sum-edge edges v k e rest acc at =
        flow_sum-steps (e.a == v) (e.b == v) edges k e rest acc (edge_at-some edges k at)

    -- Python's sum over the entries of a node.
    pub flow_sum-entries_at :
        (edges : List (Edge F)) (v : String) (k : ℕ) (es : List (Edge F)) (acc : F)
        → Tail edges k es
        → flow_sum edges acc (entries_at v k es) ≡ ok (o.add acc (balance v es))
    unfolding balance flow_sum
    flow_sum-entries_at edges v k [] acc t = ap ok (sym (x.add_zero acc))
    flow_sum-entries_at edges v k (e ∷ es) acc t =
        flow_sum-edge edges v k e (entries_at v (suc k) es) acc (Tail-head edges k e es t)
        ∙ flow_sum-entries_at edges v (suc k) es (o.add acc (share v e e.flow))
            (Tail-suc edges k e es t)
        ∙ ap ok (x.add_assoc acc (share v e e.flow) (balance v es))

    -- The sum without the entries of one edge is the balance without its flow.
    pub flow_sum-except :
        (edges : List (Edge F)) (v : String) (k j i : ℕ) (es : List (Edge F)) (acc : F)
        → Tail edges k es
        → i ≡ k + j
        → flow_sum edges acc (except i (entries_at v k es))
          ≡ ok (o.add acc (balance v (set_flow j o.zero es)))
    unfolding flow_sum balance set_flow
    flow_sum-except edges v k j i [] acc t h = ap ok (sym (x.add_zero acc))
    flow_sum-except edges v k zero i (e ∷ es) acc t h =
        ap (flow_sum edges acc) (
          except-own v k i e (entries_at v (suc k) es) (omega arith)
          ∙ except-below v i (suc k) es (omega arith))
        ∙ flow_sum-entries_at edges v (suc k) es acc (Tail-suc edges k e es t)
        ∙ ap (λ y. ok (o.add acc y))
            (sym (zero_add x (balance v es))
              ∙ ap (λ y. o.add y (balance v es)) (sym (share_zero v e)))
    flow_sum-except edges v k (suc j) i (e ∷ es) acc t h =
        ap (flow_sum edges acc) (except-other v k i e (entries_at v (suc k) es) (omega arith))
        ∙ flow_sum-edge edges v k e (except i (entries_at v (suc k) es)) acc
            (Tail-head edges k e es t)
        ∙ flow_sum-except edges v (suc k) j i es (o.add acc (share v e e.flow))
            (Tail-suc edges k e es t) (omega arith)
        ∙ ap ok (x.add_assoc acc (share v e e.flow) (balance v (set_flow j o.zero es)))
