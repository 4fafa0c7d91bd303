-- ===== src/Core/Sweep/Covers.antt =====
-- A sweep's hull beside the outputs of its corners (crates/feldspar-
-- core/src/propagation.rs).
use feldspar.Prelude.{
  String, ◌≡◌, ◌≢◌, refl, sym, ap, subst, ◌∙◌, true, none, some, Option, List, [], ◌∷◌, Result, ok,
  err, All, ◌==◌, eq_iff, arith, inl, inr, Bool-cases, Result-cases,
}
use mathlib.Core.Option.{some-injective}
use feldspar.Prelude.Dict.{Dict, lookup, insert, lookup-insert, lookup-insert_self}
use feldspar.Prelude.Dict.Sorted.{sorted}
use feldspar.Prelude.Float.{FloatOps, FloatLaws}
use feldspar.Core.{Interval}
use feldspar.Core.Sweep.Corners.{IsCorner, enumerate_corners-All}
use feldspar.Core.Sweep.{
  grown, enumerate_corners, product, lesser, greater, hull, point, fold_outputs, sweep_from,
  corner_sweep,
}

module _ {F : Type 0} ⦃o : FloatOps F⦄ where
  pub enumerate_corners-ext :
      (box box' : Dict (Interval F))
      → sorted box ≡ sorted box'
      → enumerate_corners box ≡ enumerate_corners box'
  unfolding enumerate_corners
  enumerate_corners-ext box box' e = ap (λ es. product es ([] ∷ [])) e

  -- A number lies in an interval, and an interval in another.
  abbrev pub Contains : Interval F → F → Type 0
  Contains iv v = (o.le iv.lo v ≡ true) × (o.le v iv.hi ≡ true)

  abbrev pub Inside : Interval F → Interval F → Type 0
  Inside a b = (o.le b.lo a.lo ≡ true) × (o.le a.hi b.hi ≡ true)

  -- Every output lies in the hull at its port.
  abbrev pub Within : Dict F → Dict (Interval F) → Type 0
  Within outs h =
      (port : String) (v : F)
      → lookup port outs ≡ some v
      → (iv : Interval F) × (lookup port h ≡ some iv) × Contains iv v

  -- Every interval of a hull lies in that of another.
  abbrev pub Grows : Dict (Interval F) → Dict (Interval F) → Type 0
  Grows h k =
      (port : String) (iv : Interval F)
      → lookup port h ≡ some iv
      → (iv' : Interval F) × (lookup port k ≡ some iv') × Inside iv iv'

module _ {F : Type 0} ⦃o : FloatOps F⦄ (laws : FloatLaws F o) where
  Inside-trans : (a b c : Interval F) → Inside a b → Inside b c → Inside a c
  Inside-trans a b c h k =
      (laws.le_trans c.lo b.lo a.lo k.0 h.0, laws.le_trans a.hi b.hi c.hi h.1 k.1)

  Contains-Inside : (a b : Interval F) (v : F) → Contains a v → Inside a b → Contains b v
  Contains-Inside a b v h k = (laws.le_trans b.lo a.lo v k.0 h.0, laws.le_trans v a.hi b.hi h.1 k.1)

  le-lesser : (a b : F) → (o.le (lesser a b) a ≡ true) × (o.le (lesser a b) b ≡ true)
  le-lesser a b =
      ground (arith, laws.less_le b a, laws.le_refl a, laws.le_refl b, laws.le_total a b)

  greater-le : (a b : F) → (o.le a (greater a b) ≡ true) × (o.le b (greater a b) ≡ true)
  greater-le a b =
      ground (arith, laws.less_le a b, laws.le_refl a, laws.le_refl b, laws.le_total a b)

  Inside-hull : (a b : Interval F) → Inside a (hull a b) × Inside b (hull a b)
  unfolding hull
  Inside-hull a b = (
    ((le-lesser a.lo b.lo).0, (greater-le a.hi b.hi).0),
    ((le-lesser a.lo b.lo).1, (greater-le a.hi b.hi).1),
  )

  Grows-trans : (h k l : Dict (Interval F)) → Grows h k → Grows k l → Grows h l
  Grows-trans h k l a b port iv e =
      let (iv', e', i) = a port iv e in
      let (iv'', e'', i') = b port iv' e' in (iv'', e'', Inside-trans iv iv' iv'' i i')

  Within-Grows :
      (outs : Dict F) (h k : Dict (Interval F)) → Within outs h → Grows h k → Within outs k
  Within-Grows outs h k w g port v e =
      let (iv, e', c) = w port v e in
      let (iv', e'', i) = g port iv e' in (iv', e'', Contains-Inside iv iv' v c i)

  grown-Contains : (x : Option (Interval F)) (v : F) → Contains (grown x v) v
  unfolding point
  grown-Contains none v = (laws.le_refl v, laws.le_refl v)
  grown-Contains (some iv) v =
      Contains-Inside (point v) (hull iv (point v)) v (laws.le_refl v, laws.le_refl v)
        (Inside-hull iv (point v)).1

  Grows-insert :
      (k : String) (v : F) (h : Dict (Interval F)) → Grows h (insert k (grown (lookup k h) v) h)
  Grows-insert k v h port iv e = elim (Bool-cases (k == port)) [
    | inr miss ↦ (
      iv,
      ground (arith, lookup-insert k port (grown (lookup k h) v) h, miss, e),
      (laws.le_refl iv.lo, laws.le_refl iv.hi),
    )
    | inl hit ↦
        let here = (eq_iff k port).0 hit in
        let found : lookup k h ≡ some iv = ap (λ j. lookup j h) here ∙ e in
        (
          hull iv (point v),
          ap (λ j. lookup j (insert k (grown (lookup k h) v) h)) (sym here)
              ∙ lookup-insert_self k (grown (lookup k h) v) h
              ∙ ap (λ x. some (grown x v)) found,
          (Inside-hull iv (point v)).0,
        )
  ]

  fold_outputs-Grows : (outs : Dict F) (h : Dict (Interval F)) → Grows h (fold_outputs outs h)
  unfolding fold_outputs
  fold_outputs-Grows [] h = λ port iv e. (iv, e, (laws.le_refl iv.lo, laws.le_refl iv.hi))
  fold_outputs-Grows (e ∷ outs) h =
      let k = insert e.0 (grown (lookup e.0 h) e.1) h in
      Grows-trans h k (fold_outputs outs k) (Grows-insert e.0 e.1 h) (fold_outputs-Grows outs k)

  fold_outputs-Within : (outs : Dict F) (h : Dict (Interval F)) → Within outs (fold_outputs outs h)
  unfolding fold_outputs lookup
  fold_outputs-Within [] h port v e = cc
  fold_outputs-Within (x ∷ outs) h port v e =
      let k = insert x.0 (grown (lookup x.0 h) x.1) h in
      elim (Bool-cases (x.0 == port)) [
        | inr miss ↦ fold_outputs-Within outs k port v (ground (arith, miss, e))
        | inl hit ↦
            let here = (eq_iff x.0 port).0 hit in
            let value : x.1 ≡ v = some-injective x.1 v (ground (arith, hit, e)) in
            let found =
              ap (λ j. lookup j k) (sym here)
              ∙ lookup-insert_self x.0 (grown (lookup x.0 h) x.1) h in
            let (iv, e', i) = fold_outputs-Grows outs k port (grown (lookup x.0 h) x.1) found in
            (
              iv,
              e',
              Contains-Inside (grown (lookup x.0 h) x.1) iv v
                  (subst (Contains (grown (lookup x.0 h) x.1)) value
                    (grown-Contains (lookup x.0 h) x.1))
                  i,
            )
      ]

  module _ {S E : Type 0} (eval : Dict F → S → Result (Dict F) E × S) where
    -- The evaluation of a corner succeeded, and the hull covers it.
    pub record Covered (h : Dict (Interval F)) (corner : Dict F) : Type 0 where
      pub before : S
      pub outs : Dict F
      pub evaluated : (eval corner before).0 ≡ ok outs
      pub within : Within outs h

    same_ok :
        (h k : Dict (Interval F)) → ◌≡◌ {A = Result (Dict (Interval F)) E} (ok h) (ok k) → h ≡ k
    same_ok h k e = cc

    sweep_from-cons :
        (c : Dict F) (cs : List (Dict F)) (h : Dict (Interval F)) (s : S) (outs : Dict F)
        → (eval c s).0 ≡ ok outs
        → (sweep_from eval (c ∷ cs) h s).0
          ≡ (sweep_from eval cs (fold_outputs outs h) (eval c s).1).0
    unfolding sweep_from
    sweep_from-cons c cs h s outs p = rw (p, sweep_from) refl

    sweep_from-err :
        (c : Dict F) (cs : List (Dict F)) (h k : Dict (Interval F)) (s : S) (x : E)
        → (eval c s).0 ≡ err x
        → (sweep_from eval (c ∷ cs) h s).0 ≢ ok k
    unfolding sweep_from
    sweep_from-err c cs h k s x p e =
        let stopped : (sweep_from eval (c ∷ cs) h s).0 ≡ err x = rw (p, sweep_from) refl in
        cc (stopped, e)

    sweep_from-Covered :
        (corners : List (Dict F)) (h k : Dict (Interval F)) (s : S)
        → (sweep_from eval corners h s).0 ≡ ok k
        → Grows h k × All (Covered k) corners
    unfolding sweep_from
    sweep_from-Covered [] h k s e = (
      (λ port iv f. (
        iv,
        ap (lookup port) (sym (same_ok h k e)) ∙ f,
        (laws.le_refl iv.lo, laws.le_refl iv.hi),
      )),
      tt,
    )
    sweep_from-Covered (c ∷ cs) h k s e = elim (Result-cases (eval c s).0) [
      | inr (x, p) ↦ absurd (sweep_from-err c cs h k s x p e)
      | inl (outs, p) ↦
          let rest =
            sweep_from-Covered cs (fold_outputs outs h) k (eval c s).1
              (sym (sweep_from-cons c cs h s outs p) ∙ e) in
          (
            Grows-trans h (fold_outputs outs h) k (fold_outputs-Grows outs h) rest.0,
            (
              record {
                before = s;
                outs = outs;
                evaluated = p;
                within =
                    Within-Grows outs (fold_outputs outs h) k (fold_outputs-Within outs h) rest.0;
              },
              rest.1,
            ),
          )
    ]

    -- On floats ordered totally, if a corner sweep succeeds, with whatever state its callback
    -- changes, then every choice of one end of each port's interval, ports in the order of their
    -- names, was evaluated with success, and each of its outputs lies in the hull's interval at
    -- that port.
    pub corner_sweep-Covered :
        (box h : Dict (Interval F)) (corner : Dict F) (s : S)
        → (corner_sweep eval box s).0 ≡ ok h
        → IsCorner (sorted box) corner
        → Covered h corner
    unfolding corner_sweep
    corner_sweep-Covered box h corner s e chosen =
        enumerate_corners-All box (Covered h) corner
          (sweep_from-Covered (enumerate_corners box) [] h s e).1 chosen
