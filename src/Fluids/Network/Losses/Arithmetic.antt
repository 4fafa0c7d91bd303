-- ===== src/Fluids/Network/Losses/Arithmetic.antt =====
-- What the head-loss laws of python/feldspar/fluids/network.py raise: an arithmetic error, or nothing.
use feldspar.Prelude.{
  Bool, not, ◌==◌, if◌then◌else◌, Result, ok, err, ◌>>=◌, ◌≡◌, refl, sym, subst, inl, inr, ◌⊎◌,
  Option-cases, true, false,
}
use feldspar.Prelude.Float.{FloatOps, ArithmeticError, zero_division, overflow, lt, eq}
use feldspar.Fluids.Network.Edges.{Edge, Constants, Stop, arithmetic, is_unknown}
use feldspar.Fluids.Network.Losses.{
  Formulas, squared, divide, area_of, pipe_dp_mag, pipe_slope, pipe_dp_and_k, per_area,
  orifice_dp_and_k, hx_segment_dp_and_k, edge_dp_and_k, edge_dp,
}

-- A value, or an arithmetic error.
abbrev pub Computes : {A F : Type 0} → Result A (Stop F) → Type 0
Computes {A} r = ((a : A) × (r ≡ ok a)) ⊎ ((e : ArithmeticError) × (r ≡ err (arithmetic e)))

pub Computes-ok : {A F : Type 0} (a : A) → Computes {F = F} (ok a)
Computes-ok a = inl (a, refl)

pub Computes-bind :
    {A B F : Type 0} (m : Result A (Stop F)) (f : A → Result B (Stop F))
    → Computes m
    → ((a : A) → Computes (f a))
    → Computes (m >>= f)
Computes-bind {F = F} m f (inl (a, h)) k =
    subst (λ (r : Result _ (Stop F)). Computes (r >>= f)) (sym h) (k a)
Computes-bind m f (inr (e, h)) k = inr (e, rw h refl)

pub Computes-if :
    {A F : Type 0} (test : Bool) (m n : Result A (Stop F))
    → Computes m
    → Computes n
    → Computes (if test then m else n)
Computes-if true m n h k = h
Computes-if false m n h k = k

module _ {F : Type 0} ⦃o : FloatOps F⦄ (c : Constants F) (g : Formulas F) where
  squared-Computes : (x : F) → Computes (squared c g x)
  unfolding squared
  squared-Computes x = elim (Option-cases (g.square x)) [
    | inl e ↦ inr (overflow, rw (e, squared) refl)
    | inr (y, e) ↦ inl (y, rw (e, squared) refl)
  ]

  divide-Computes : (a b : F) → Computes (divide c g a b)
  unfolding divide
  divide-Computes a b =
      Computes-if (eq b o.zero) _ _ (inr (zero_division, refl)) (Computes-ok (o.div a b))

  area_of-Computes : (d : F) → Computes (area_of c g d)
  unfolding area_of
  area_of-Computes d = Computes-bind _ _ (squared-Computes _) (λ y. Computes-ok _)

  pipe_dp_mag-Computes : (e : Edge F) (m : F) → Computes (pipe_dp_mag c g e m)
  unfolding pipe_dp_mag
  pipe_dp_mag-Computes e m =
      Computes-if (o.le m o.zero) _ _ (Computes-ok o.zero)
        (Computes-bind _ _ (area_of-Computes e.diameter) (λ area. Computes-ok _))

  pipe_slope-Computes : (e : Edge F) (m dp_mag : F) → Computes (pipe_slope c g e m dp_mag)
  unfolding pipe_slope
  pipe_slope-Computes e m dp_mag =
      Computes-if (eq m o.zero) _ _ (Computes-ok o.zero)
        (Computes-bind _ _ (pipe_dp_mag-Computes e _) (λ ahead. divide-Computes _ _))

  per_area-Computes :
      (area : F) (denominator : Result F (Stop F)) (x : F)
      → Computes denominator
      → Computes (per_area c g area denominator x)
  unfolding per_area
  per_area-Computes area denominator x h =
      Computes-if (lt o.zero area) _ _ (Computes-bind _ _ h (λ y. divide-Computes x y))
        (Computes-ok o.zero)

  pub edge_dp_and_k-Computes : (e : Edge F) (flow : F) → Computes (edge_dp_and_k c g e flow)
  unfolding edge_dp_and_k pipe_dp_and_k orifice_dp_and_k hx_segment_dp_and_k
  edge_dp_and_k-Computes e flow =
      Computes-if (e.kind == "pipe") _ _
        (Computes-bind _ _ (pipe_dp_mag-Computes e _)
          (λ dp_mag. Computes-bind _ _ (pipe_slope-Computes e _ dp_mag) (λ k. Computes-ok _)))
        (Computes-if (e.kind == "orifice") _ _
          (Computes-bind _ _ (area_of-Computes e.bore_diameter) (λ area.
            Computes-bind _ _
              (per_area-Computes area _ _
                (Computes-bind _ _ (squared-Computes _) (λ y. Computes-ok _)))
              (λ coeff. Computes-ok _)))
          (Computes-if (e.kind == "hx_segment") _ _
            (Computes-bind _ _ (area_of-Computes e.diameter) (λ area.
              Computes-bind _ _ (per_area-Computes area _ _ (Computes-ok _))
                (λ coeff. Computes-ok _)))
            (Computes-ok _)))

  pub edge_dp-Computes : (e : Edge F) → Computes (edge_dp c g e)
  unfolding edge_dp
  edge_dp-Computes e =
      Computes-if (not (is_unknown e)) _ _ (Computes-ok o.zero)
        (Computes-bind _ _ (edge_dp_and_k-Computes e e.flow) (λ t. Computes-ok t.0))
