-- ===== src/Core/Sweep/Corners.antt =====
-- The corners of a box (crates/feldspar-core/src/propagation.rs): every choice of one end for each port.
use mathlib.Core.List.{append_assoc, append-nil}
use feldspar.Prelude.{
  String, ◌≡◌, sym, subst, false, List, [], ◌∷◌, ◌++◌, ◌⊎◌, All, map, inl, inr, Bool-cases, ◌&&◌,
}
use feldspar.Prelude.Membership.{All-append-left, All-append-right, map-All, All-imp}
use feldspar.Prelude.Dict.{Dict}
use feldspar.Prelude.Dict.Sorted.{sorted}
use feldspar.Prelude.Float.{FloatOps, lt}
use feldspar.Core.{Interval}
use feldspar.Core.Sweep.{candidates, extend, product, enumerate_corners}

module _ {F : Type 0} ⦃o : FloatOps F⦄ where
  -- One end of the interval at each port, in order; the upper end only where the two ends differ.
  unfoldable pub IsCorner : Dict (Interval F) → Dict F → Type 0
  IsCorner [] [] = Unit
  IsCorner ((port, iv) ∷ box) ((name, v) ∷ corner) =
      (name ≡ port)
      × ((v ≡ iv.lo) ⊎ ((v ≡ iv.hi) × ((o.le iv.lo iv.hi && o.le iv.hi iv.lo) ≡ false)))
      × IsCorner box corner
  IsCorner box corner = ⊥

  candidates-All :
      (Q : F → Type 0) (iv : Interval F)
      → All Q (candidates iv)
      → Q iv.lo × ((o.le iv.lo iv.hi && o.le iv.hi iv.lo) ≡ false → Q iv.hi)
  candidates-All Q iv h = elim (Bool-cases (o.le iv.lo iv.hi && o.le iv.hi iv.lo)) [
    | inl same ↦ ((rw same at h).0, λ other. cc)
    | inr other ↦ elim (Bool-cases (lt iv.hi iv.lo)) [
      | inl down ↦ let h' = rw (other, down) at h in (h'.1.0, λ _. h'.0)
      | inr up ↦ let h' = rw (other, up) at h in (h'.0, λ _. h'.1.0)
    ]
  ]

  extend-All :
      (Q : Dict F → Type 0) (port : String) (vs : List F) (corners : List (Dict F))
      → All Q (extend port vs corners)
      → All (λ c. All (λ v. Q (c ++ (port, v) ∷ [])) vs) corners
  unfolding extend
  extend-All Q port vs [] h = tt
  extend-All Q port vs (c ∷ corners) h =
      let here = map (λ v. c ++ (port, v) ∷ []) vs in
      (
        map-All Q (λ v. c ++ (port, v) ∷ []) vs (All-append-left Q here (extend port vs corners) h),
        extend-All Q port vs corners (All-append-right Q here (extend port vs corners) h),
      )

  -- Each corner of the box behind a start satisfies `P`.
  abbrev Behind : (Dict F → Type 0) → Dict (Interval F) → Dict F → Type 0
  Behind P box c = (rest : Dict F) → IsCorner box rest → P (c ++ rest)

  Behind-nil : (P : Dict F → Type 0) (c : Dict F) → P c → Behind P [] c
  unfolding IsCorner
  Behind-nil P c p [] k = subst P (sym (append-nil c)) p
  Behind-nil P c p (x ∷ rest) k = absurd k

  Behind-cons :
      (P : Dict F → Type 0) (port : String) (iv : Interval F) (box : Dict (Interval F)) (c : Dict F)
      → All (λ v. Behind P box (c ++ (port, v) ∷ [])) (candidates iv)
      → Behind P ((port, iv) ∷ box) c
  unfolding IsCorner
  Behind-cons P port iv box c p [] k = absurd k
  Behind-cons P port iv box c p ((name, v) ∷ rest) (e, which, k) =
      let (low, high) = candidates-All (λ u. Behind P box (c ++ (port, u) ∷ [])) iv p in
      let here : Behind P box (c ++ (port, v) ∷ []) = elim which [
        | inl at ↦ rw at low
        | inr at ↦ rw at.0 (high at.1)
      ] in
      rw e (subst P (append_assoc c ((port, v) ∷ []) rest) (here rest k))

  -- What holds of the whole product holds of each corner of it behind each start.
  product-All :
      (P : Dict F → Type 0) (box : Dict (Interval F)) (corners : List (Dict F))
      → All P (product box corners)
      → All (Behind P box) corners
  unfolding product
  product-All P [] corners h = All-imp P (Behind P []) corners (Behind-nil P) h
  product-All P ((port, iv) ∷ box) corners h =
      All-imp (λ c. All (λ v. Behind P box (c ++ (port, v) ∷ [])) (candidates iv))
        (Behind P ((port, iv) ∷ box)) corners (Behind-cons P port iv box)
        (extend-All (Behind P box) port (candidates iv) corners
          (product-All P box (extend port (candidates iv) corners) h))

  pub enumerate_corners-All :
      (box : Dict (Interval F)) (P : Dict F → Type 0) (corner : Dict F)
      → All P (enumerate_corners box)
      → IsCorner (sorted box) corner
      → P corner
  unfolding enumerate_corners
  enumerate_corners-All box P corner h k = (product-All P (sorted box) ([] ∷ []) h).0 corner k
