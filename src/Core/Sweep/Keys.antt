-- ===== src/Core/Sweep/Keys.antt =====
-- The ports of a sweep's hull (crates/feldspar-core/src/propagation.rs).
use feldspar.Prelude.{
  String, some, List, [], ◌∷◌, Result, ok, err, ◌≡◌, ◌≢◌, ◌==◌, eq_iff, subst, Bool-cases,
  Result-cases, inl, inr, arith, ◌&&◌,
}
use feldspar.Prelude.Dict.{Dict, lookup, insert, lookup-insert}
use feldspar.Prelude.Dict.Sorted.{sorted}
use feldspar.Prelude.Float.{FloatOps, lt}
use feldspar.Core.{Interval}
use feldspar.Core.Sweep.{
  grown, fold_outputs, sweep_from, corner_sweep, enumerate_corners, product, extend, candidates,
}

-- `port in d`, with the value.
abbrev pub Has : {V : Type 0} → Dict V → String → Type 0
Has {V} d port = (v : V) × (lookup port d ≡ some v)

pub insert-Has :
    {V : Type 0} (k port : String) (v : V) (d : Dict V) → Has d port → Has (insert k v d) port
insert-Has k port v d (w, found) = elim (Bool-cases (k == port)) [
  | inl hit ↦ (v, ground (arith, lookup-insert k port v d, hit))
  | inr miss ↦ (w, ground (arith, lookup-insert k port v d, miss, found))
]

pub Has-insert : {V : Type 0} (k : String) (v : V) (d : Dict V) → Has (insert k v d) k
Has-insert k v d = (v, ground (arith, lookup-insert k k v d, eq_iff k k))

-- A list with a first element.
abbrev IsNonempty : {A : Type 0} → List A → Type 0
IsNonempty [] = ⊥
IsNonempty (_ ∷ _) = Unit

module _ {F : Type 0} ⦃o : FloatOps F⦄ where
  fold_outputs-keeps :
      (outs : Dict F) (h : Dict (Interval F)) (port : String)
      → Has h port
      → Has (fold_outputs outs h) port
  unfolding fold_outputs
  fold_outputs-keeps [] h port k = k
  fold_outputs-keeps (e ∷ outs) h port k =
      fold_outputs-keeps outs (insert e.0 (grown (lookup e.0 h) e.1) h) port
        (insert-Has e.0 port (grown (lookup e.0 h) e.1) h k)

  fold_outputs-Has :
      (outs : Dict F) (h : Dict (Interval F)) (port : String)
      → Has outs port
      → Has (fold_outputs outs h) port
  unfolding fold_outputs lookup
  fold_outputs-Has [] h port (v, found) = cc
  fold_outputs-Has (e ∷ outs) h port (v, found) =
      let x = grown (lookup e.0 h) e.1 in
      elim (Bool-cases (e.0 == port)) [
        | inl hit ↦
            fold_outputs-keeps outs (insert e.0 x h) port
              (subst (Has (insert e.0 x h)) ((eq_iff e.0 port).0 hit) (Has-insert e.0 x h))
        | inr miss ↦ fold_outputs-Has outs (insert e.0 x h) port (v, ground (arith, miss, found))
      ]

  candidates-IsNonempty : (iv : Interval F) → IsNonempty (candidates iv)
  candidates-IsNonempty iv = elim (Bool-cases (o.le iv.lo iv.hi && o.le iv.hi iv.lo)) [
    | inl point ↦ rw point tt
    | inr wide ↦ elim (Bool-cases (lt iv.hi iv.lo)) [
      | inl back ↦ rw (wide, back) tt
      | inr forth ↦ rw (wide, forth) tt
    ]
  ]

  extend-IsNonempty :
      (port : String) (vs : List F) (cs : List (Dict F))
      → IsNonempty vs
      → IsNonempty cs
      → IsNonempty (extend port vs cs)
  unfolding extend
  extend-IsNonempty port [] (c ∷ cs) h k = absurd h
  extend-IsNonempty port [] [] h k = k
  extend-IsNonempty port (v ∷ vs) [] h k = k
  extend-IsNonempty port (v ∷ vs) (c ∷ cs) h k = tt

  product-IsNonempty :
      (box : Dict (Interval F)) (cs : List (Dict F)) → IsNonempty cs → IsNonempty (product box cs)
  unfolding product
  product-IsNonempty [] cs h = h
  product-IsNonempty (e ∷ box) cs h =
      product-IsNonempty box (extend e.0 (candidates e.1) cs)
        (extend-IsNonempty e.0 (candidates e.1) cs (candidates-IsNonempty e.1) h)

  module _ {S E : Type 0} (eval : Dict F → S → Result (Dict F) E × S) where
    -- Every corner that evaluates gives the port.
    abbrev pub Gives : String → Type 0
    Gives port =
        (corner : Dict F) (s : S) (outs : Dict F) → (eval corner s).0 ≡ ok outs → Has outs port

    err_ok : (x : E) (k : Dict (Interval F)) → ◌≢◌ {A = Result (Dict (Interval F)) E} (err x) (ok k)
    err_ok x k h = cc

    same_ok :
        (h k : Dict (Interval F)) → ◌≡◌ {A = Result (Dict (Interval F)) E} (ok h) (ok k) → h ≡ k
    same_ok h k e = cc

    sweep_from-keeps :
        (cs : List (Dict F)) (h k : Dict (Interval F)) (s : S) (port : String)
        → (sweep_from eval cs h s).0 ≡ ok k
        → Has h port
        → Has k port
    unfolding sweep_from
    sweep_from-keeps [] h k s port e has = subst (λ d. Has d port) (same_ok h k e) has
    sweep_from-keeps (c ∷ cs) h k s port e has = elim (Result-cases (eval c s).0) [
      | inr (x, p) ↦ absurd (err_ok x k (ground (arith, p, e)))
      | inl (outs, p) ↦
          sweep_from-keeps cs (fold_outputs outs h) k (eval c s).1 port (ground (arith, p, e))
            (fold_outputs-keeps outs h port has)
    ]

    sweep_from-Has :
        (cs : List (Dict F)) (h k : Dict (Interval F)) (s : S) (port : String)
        → IsNonempty cs
        → Gives port
        → (sweep_from eval cs h s).0 ≡ ok k
        → Has k port
    unfolding sweep_from
    sweep_from-Has [] h k s port none_left g e = absurd none_left
    sweep_from-Has (c ∷ cs) h k s port some_corner g e = elim (Result-cases (eval c s).0) [
      | inr (x, p) ↦ absurd (err_ok x k (ground (arith, p, e)))
      | inl (outs, p) ↦
          sweep_from-keeps cs (fold_outputs outs h) k (eval c s).1 port (ground (arith, p, e))
            (fold_outputs-Has outs h port (g c s outs p))
    ]

    pub corner_sweep-Has :
        (box k : Dict (Interval F)) (s : S) (port : String)
        → Gives port
        → (corner_sweep eval box s).0 ≡ ok k
        → Has k port
    unfolding corner_sweep enumerate_corners
    corner_sweep-Has box k s port g e =
        sweep_from-Has (enumerate_corners box) [] k s port
          (product-IsNonempty (sorted box) ([] ∷ []) tt) g e
