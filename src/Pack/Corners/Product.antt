-- ===== src/Pack/Corners/Product.antt =====
-- The corners that the sweep of python/feldspar/pack/models.py goes through.
use feldspar.Prelude.{◌≡◌, refl, false, Bool-cases, List, [], ◌∷◌, ◌⊎◌, inl, inr, map, All}
use feldspar.Prelude.Membership.{
  All-append, All-append-left, All-append-right, All-map, map-All, All-imp,
}
use feldspar.Prelude.Float.{FloatOps, eq}
use feldspar.Pack.Corners.{corner_values, each_with, product}

module _ {F : Type 0} ⦃o : FloatOps F⦄ where
  -- An end of each of the bounds; the second end only where it differs from the first.
  unfoldable pub IsCorner : List (F × F) → List F → Type 0
  IsCorner [] [] = Unit
  IsCorner (b ∷ bounds) (x ∷ combo) =
      ((x ≡ b.0) ⊎ ((x ≡ b.1) × (eq b.0 b.1 ≡ false))) × IsCorner bounds combo
  IsCorner bounds combo = ⊥

  each_with-All :
      (P : List F → Type 0) (xs : List F) (combos : List (List F))
      → All P (each_with xs combos)
      → All (λ x. All (λ c. P (x ∷ c)) combos) xs
  unfolding each_with
  each_with-All P [] combos h = tt
  each_with-All P (x ∷ xs) combos h =
      let now = map (λ c. x ∷ c) combos in
      (
        map-All P (λ c. x ∷ c) combos (All-append-left P now (each_with xs combos) h),
        each_with-All P xs combos (All-append-right P now (each_with xs combos) h),
      )

  All-each_with :
      (P : List F → Type 0) (xs : List F) (combos : List (List F))
      → All (λ x. All (λ c. P (x ∷ c)) combos) xs
      → All P (each_with xs combos)
  unfolding each_with
  All-each_with P [] combos h = tt
  All-each_with P (x ∷ xs) combos h =
      All-append P (map (λ c. x ∷ c) combos) (each_with xs combos)
        (All-map P (λ c. x ∷ c) combos h.0) (All-each_with P xs combos h.1)

  corner_values-All :
      (Q : F → Type 0) (b : F × F) → All Q (corner_values b) → Q b.0 × (eq b.0 b.1 ≡ false → Q b.1)
  unfolding corner_values
  corner_values-All Q (lo, hi) h = elim (Bool-cases (eq lo hi)) [
    | inl same ↦ ((rw same at h).0, λ other. cc)
    | inr other ↦ elim (Bool-cases (o.le lo hi)) [
      | inl up ↦ let h' = rw (other, up) at h in (h'.0, λ _. h'.1.0)
      | inr down ↦ let h' = rw (other, down) at h in (h'.1.0, λ _. h'.0)
    ]
  ]

  All-corner_values :
      (Q : F → Type 0) (b : F × F) → Q b.0 → (eq b.0 b.1 ≡ false → Q b.1) → All Q (corner_values b)
  unfolding corner_values
  All-corner_values Q (lo, hi) p q = elim (Bool-cases (eq lo hi)) [
    | inl same ↦ rw same (p, tt)
    | inr other ↦ elim (Bool-cases (o.le lo hi)) [
      | inl up ↦ rw (other, up) (p, (q other, tt))
      | inr down ↦ rw (other, down) (q other, (p, tt))
    ]
  ]

  -- The product has every corner, and corners only.
  pub product-All :
      (bounds : List (F × F)) (P : List F → Type 0) (combo : List F)
      → All P (product (map corner_values bounds))
      → IsCorner bounds combo
      → P combo
  unfolding product IsCorner
  product-All [] P [] h c = h.0
  product-All [] P (x ∷ combo) h c = absurd c
  product-All (b ∷ bounds) P [] h c = absurd c
  product-All (b ∷ bounds) P (x ∷ combo) h c =
      let rest = product (map corner_values bounds) in
      let (first, second) =
        corner_values-All (λ y. All (λ t. P (y ∷ t)) rest) b
          (each_with-All P (corner_values b) rest h) in
      let here : All (λ t. P (x ∷ t)) rest = elim c.0 [
        | inl e ↦ rw e first
        | inr e ↦ rw e.0 (second e.1)
      ] in
      product-All bounds (λ t. P (x ∷ t)) combo here c.1

  pub product-IsCorner :
      (bounds : List (F × F)) → All (IsCorner bounds) (product (map corner_values bounds))
  unfolding product IsCorner
  product-IsCorner [] = (tt, tt)
  product-IsCorner (b ∷ bounds) =
      let rest = product (map corner_values bounds) in
      All-each_with (IsCorner (b ∷ bounds)) (corner_values b) rest (
        All-corner_values (λ y. All (λ t. IsCorner (b ∷ bounds) (y ∷ t)) rest) b
          (All-imp (IsCorner bounds) (λ t. IsCorner (b ∷ bounds) (b.0 ∷ t)) rest
            (λ t k. (inl refl, k)) (product-IsCorner bounds))
          (λ other.
            All-imp (IsCorner bounds) (λ t. IsCorner (b ∷ bounds) (b.1 ∷ t)) rest
              (λ t k. (inr (refl, other), k)) (product-IsCorner bounds)))
