-- ===== src/Pack/Corners/Hull.antt =====
-- What the corner sweep of python/feldspar/pack/models.py promises of the corners of its bounds.
use feldspar.Core.{Interval}
use feldspar.Prelude.Dict.{lookup, Dict}
use feldspar.Prelude.{
  not, ap, ◌>>=◌, ◌∙◌, String, some, ◌≡◌, refl, Bool, true, false, Bool-cases, List, [], ◌∷◌, ◌⊎◌,
  inl, inr, ok, err, map, All, arith,
}
use feldspar.Prelude.Float.{FloatOps, FloatLaws, max}
use feldspar.Pack.Corners.{
  bad_corner, is_bad_deflection, stiffness_at, ends_of, named_corner, require, input_of,
  estimate_stiffness, corner_values, product, min, sweep_corners, finite_corner_sweep,
}
use feldspar.Pack.Corners.Product.{IsCorner, product-All, product-IsCorner}

module _ {F : Type 0} ⦃o : FloatOps F⦄ where
  min-le : FloatLaws F o → (a b : F) → (o.le (min a b) a ≡ true) × (o.le (min a b) b ≡ true)
  min-le laws a b =
      ground (arith, laws.less_le b a, laws.le_refl a, laws.le_refl b, laws.le_total a b)

  max-le : FloatLaws F o → (a b : F) → (o.le a (max a b) ≡ true) × (o.le b (max a b) ≡ true)
  max-le laws a b =
      ground (arith, laws.less_le a b, laws.le_refl a, laws.le_refl b, laws.le_total a b)

module _ {F : Type 0} ⦃o : FloatOps F⦄ (compute : List F → F × F) (is_bad : F → Bool) where
  -- A corner with a good guard value, within a hull.
  unfoldable pub IsGood : F × F → List F → Type 0
  IsGood hull c =
      (is_bad (compute c).0 ≡ false)
      × (o.le hull.0 (compute c).1 ≡ true)
      × (o.le (compute c).1 hull.1 ≡ true)

  -- What a sweep of corners that satisfy `K` gives, from a hull on.
  sweep_corners-All :
      (laws : FloatLaws F o) (K : List F → Type 0) (combos : List (List F)) (lo hi : F)
      → All K combos
      → ((hull : F × F) × (sweep_corners compute is_bad combos lo hi ≡ ok hull)
          × (o.le hull.0 lo ≡ true)
          × (o.le hi hull.1 ≡ true)
          × All (IsGood hull) combos)
        ⊎ ((c : List F) × (sweep_corners compute is_bad combos lo hi ≡ err (c, (compute c).0))
            × (is_bad (compute c).0 ≡ true)
            × K c)
  unfolding sweep_corners IsGood
  sweep_corners-All laws K [] lo hi h = inl ((lo, hi), refl, laws.le_refl lo, laws.le_refl hi, tt)
  sweep_corners-All laws K (c ∷ combos) lo hi h = elim (Bool-cases (is_bad (compute c).0)) [
    | inl bad ↦ inr (c, rw bad refl, bad, h.0)
    | inr good ↦
        let x = (compute c).1 in
        elim (sweep_corners-All laws K combos (min lo x) (max hi x) h.1) [
          | inr (c', e, bad, k) ↦ inr (c', rw good e, bad, k)
          | inl (hull, e, down, up, all) ↦
              let (a, b) = min-le laws lo x in
              let (a', b') = max-le laws hi x in
              inl (
                hull,
                rw good e,
                laws.le_trans hull.0 (min lo x) lo down a,
                laws.le_trans hi (max hi x) hull.1 a' up,
                (
                  (
                    good,
                    laws.le_trans hull.0 (min lo x) x down b,
                    laws.le_trans x (max hi x) hull.1 b' up,
                  ),
                  all,
                ),
              )
        ]
  ]

  -- On floats ordered totally, for every evaluation and every test of a guard value: the sweep ends
  -- either with a hull, and then each choice of an end of every bound has a guard value that passes
  -- and a value within the hull, or with such a choice whose guard value does not pass, and names
  -- it with that value.
  pub finite_corner_sweep-IsGood :
      (laws : FloatLaws F o) (bounds : List (F × F))
      → ((hull : F × F) × (finite_corner_sweep compute is_bad bounds ≡ ok hull)
          × ((combo : List F) → IsCorner bounds combo → IsGood hull combo))
        ⊎ ((c : List F) × (finite_corner_sweep compute is_bad bounds ≡ err (c, (compute c).0))
            × (is_bad (compute c).0 ≡ true)
            × IsCorner bounds c)
  unfolding finite_corner_sweep
  finite_corner_sweep-IsGood laws bounds =
      elim (sweep_corners-All laws (IsCorner bounds) (product (map corner_values bounds)) o.inf
        (o.neg o.inf) (product-IsCorner bounds)) [
          | inl (hull, e, _, _, all) ↦
              inl (hull, e, λ combo. product-All bounds (IsGood hull) combo all)
          | inr found ↦ inr found
        ]

input_of-some :
    {F : Type 0} ⦃o : FloatOps F⦄ (inputs : Dict (Interval F)) (name : String) (x : Interval F)
    → lookup name inputs ≡ some x
    → input_of inputs name ≡ ok x
unfolding input_of
input_of-some inputs name x h = ground arith

require-ok :
    {F : Type 0} ⦃o : FloatOps F⦄ (good : Bool) (name : String) (x : Interval F)
    → good ≡ true
    → require good name x ≡ ok x
unfolding require
require-ok good name x h = rw h refl

is_bad_deflection-false :
    {F : Type 0} ⦃o : FloatOps F⦄ (d : F)
    → is_bad_deflection d ≡ false
    → (o.is_finite d ≡ true) × (o.le d o.zero ≡ false)
unfolding is_bad_deflection
is_bad_deflection-false d h = (ground (arith, h), ground (arith, h))

-- The worst corner of a stiffness.
module _ {F : Type 0} ⦃o : FloatOps F⦄ (laws : FloatLaws F o) (one : F)
    (cantilever_tip_deflection : F → F → F → F → F) (inputs : Dict (Interval F))
    (e i l : Interval F) where
  -- On floats ordered totally, for a request that has the three inputs, each with a positive lower
  -- end, and every deflection formula: the estimate is either a stiffness not above that at any
  -- choice of ends of the inputs, at each of which the deflection is finite and positive, or an
  -- error that names a choice of ends and its deflection, which is not.
  pub estimate_stiffness-le :
      lookup "e_modulus" inputs ≡ some e
      → lookup "i_area" inputs ≡ some i
      → lookup "length" inputs ≡ some l
      → o.le e.lo o.zero ≡ false
      → o.le i.lo o.zero ≡ false
      → o.le l.lo o.zero ≡ false
      → let bounds = ends_of e ∷ ends_of i ∷ ends_of l ∷ [] in
        let at = stiffness_at one cantilever_tip_deflection in
        ((v : F) × (estimate_stiffness one cantilever_tip_deflection inputs ≡ ok v)
          × ((combo : List F)
              → IsCorner bounds combo
              → (o.is_finite (at combo).0 ≡ true)
                × (o.le (at combo).0 o.zero ≡ false)
                × (o.le v (at combo).1 ≡ true)))
        ⊎ ((c : List F) × (estimate_stiffness one cantilever_tip_deflection inputs
              ≡ err (bad_corner "deflection" c (at c).0))
            × (is_bad_deflection (at c).0 ≡ true)
            × IsCorner bounds c)
  unfolding estimate_stiffness named_corner IsGood
  estimate_stiffness-le he hi hl pe pi pl =
      let at = stiffness_at one cantilever_tip_deflection in
      let sweep =
        finite_corner_sweep (stiffness_at one cantilever_tip_deflection) is_bad_deflection
          (ends_of e ∷ ends_of i ∷ ends_of l ∷ []) in
      let swept : estimate_stiffness one cantilever_tip_deflection inputs
          ≡ (named_corner "deflection" sweep >>= λ hull. ok hull.0) =
        rw
          (
            estimate_stiffness,
            input_of-some inputs "e_modulus" e he,
            input_of-some inputs "i_area" i hi,
            input_of-some inputs "length" l hl,
            require-ok (not (o.le e.lo o.zero)) "e_modulus" e (ap not pe),
            require-ok (not (o.le i.lo o.zero)) "i_area" i (ap not pi),
            require-ok (not (o.le l.lo o.zero)) "length" l (ap not pl),
          )
          refl in
      elim (finite_corner_sweep-IsGood (stiffness_at one cantilever_tip_deflection)
        is_bad_deflection laws (ends_of e ∷ ends_of i ∷ ends_of l ∷ [])) [
          | inl (hull, found, good) ↦ inl (
            hull.0,
            swept ∙ rw found refl,
            λ combo c.
                let g = good combo c in
                let (finite, positive) = is_bad_deflection-false (at combo).0 g.0 in
                (finite, positive, g.1),
          )
          | inr (c, found, bad, k) ↦ inr (c, swept ∙ rw found refl, bad, k)
        ]
