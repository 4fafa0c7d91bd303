-- ===== src/Fluids/Network/Losses.antt =====
-- The head-loss laws of python/feldspar/fluids/network.py: `(dp, dh/dQ)` of an edge at a signed flow.
-- The formulas of the Rust core and of `math` are a parameter; what Python's division and power raise
-- stops the computation.
pub mod Arithmetic
use feldspar.Prelude.{
  not, if◌then◌else◌, ◌==◌, Option, none, some, Result, ok, err, ◌>>=◌, arith, ◌≡◌, refl, inl, inr,
  ◌⊎◌, Bool-cases, Option-cases,
}
use feldspar.Prelude.Float.{FloatOps, lt, eq, max, ArithmeticError, zero_division, overflow}
use feldspar.Fluids.Network.Edges.{Edge, Constants, Stop, arithmetic, is_unknown}

-- `square x` is `x ** 2`, none where that is out of range.
pub record Formulas (F : Type 0) : Type 0 where
  pub square : F → Option F
  pub copysign : F → F → F
  pub reynolds_number : (density speed diameter viscosity : F) → F
  pub laminar_friction_factor : F → F
  pub colebrook_friction_factor : (reynolds rel_rough : F) → F
  pub darcy_dp : (f length diameter density speed : F) → F
  pub orifice_dp : (cd area density flow : F) → F
  pub minor_loss_dp : (k density velocity : F) → F

module _ {F : Type 0} ⦃o : FloatOps F⦄ (c : Constants F) (g : Formulas F) where
  -- `x ** 2`
  unfoldable pub squared : F → Result F (Stop F)
  squared x = elim (g.square x) [ none ↦ err (arithmetic overflow) | some y ↦ ok y ]

  -- `a / b`
  unfoldable pub divide : F → F → Result F (Stop F)
  divide a b = if eq b o.zero then err (arithmetic zero_division) else ok (o.div a b)

  -- `math.pi * (diameter / 2.0) ** 2`
  unfoldable pub area_of : F → Result F (Stop F)
  unfolding squared
  area_of diameter = do y ← squared (o.div diameter c.two); ok (o.mul c.pi y)

  -- `m / area if area > 0 else 0.0`
  unfoldable pub over_area : F → F → F
  over_area m area = if lt o.zero area then o.div m area else o.zero

  -- `math.copysign(dp_mag, flow) if flow != 0.0 else 0.0`
  unfoldable pub with_sign_of : F → F → F
  with_sign_of dp_mag flow = if eq flow o.zero then o.zero else g.copysign dp_mag flow

  unfoldable pub friction_factor : Edge F → F → F
  friction_factor e reynolds =
      if lt reynolds c.laminar_re_ceiling
      then g.laminar_friction_factor (max reynolds c.one)
      else g.colebrook_friction_factor reynolds
          (if eq e.diameter o.zero then o.zero else o.div e.roughness e.diameter)

  -- `_dp_mag` of a pipe
  unfoldable pub pipe_dp_mag : Edge F → F → Result F (Stop F)
  unfolding area_of over_area friction_factor
  pipe_dp_mag e m = if o.le m o.zero then ok o.zero else do
    area ← area_of e.diameter
    let speed = over_area m area
    ok (
        g.darcy_dp (friction_factor e (g.reynolds_number e.density speed e.diameter e.viscosity))
          e.length e.diameter e.density speed)

  -- The forward difference of the loss at the magnitude `m`, where the loss is `dp_mag`.
  unfoldable pub pipe_slope : Edge F → F → F → Result F (Stop F)
  unfolding pipe_dp_mag divide
  pipe_slope e m dp_mag =
      let h = max (o.mul m c.slope_rel) c.slope_min in
      if eq m o.zero
      then ok o.zero
      else do ahead ← pipe_dp_mag e (o.add m h); divide (o.sub ahead dp_mag) h

  unfoldable pub pipe_dp_and_k : Edge F → F → Result (F × F) (Stop F)
  unfolding with_sign_of pipe_dp_mag pipe_slope
  pipe_dp_and_k e flow = do
    let m = o.abs flow
    dp_mag ← pipe_dp_mag e m
    k ← pipe_slope e m dp_mag
    ok (with_sign_of dp_mag flow, k)

  -- `x / y if area > 0 else 0.0`
  unfoldable pub per_area : F → Result F (Stop F) → F → Result F (Stop F)
  unfolding divide
  per_area area denominator x =
      if lt o.zero area then (do y ← denominator; divide x y) else ok o.zero

  unfoldable pub orifice_dp_and_k : Edge F → F → Result (F × F) (Stop F)
  unfolding area_of with_sign_of per_area squared
  orifice_dp_and_k e flow = do
    area ← area_of e.bore_diameter
    let m = o.abs flow
    coeff ← per_area area (do y ← squared (o.mul e.cd area); ok (o.mul c.two y)) e.density
    ok (with_sign_of (g.orifice_dp e.cd area e.density m) flow, o.mul (o.mul c.two coeff) m)

  unfoldable pub hx_segment_dp_and_k : Edge F → F → Result (F × F) (Stop F)
  unfolding area_of over_area with_sign_of per_area
  hx_segment_dp_and_k e flow = do
    area ← area_of e.diameter
    let m = o.abs flow
    coeff ← per_area area (ok (o.mul (o.mul c.two area) area)) (o.mul e.resistance e.density)
    ok (
      with_sign_of (g.minor_loss_dp e.resistance e.density (over_area m area)) flow,
      o.mul (o.mul c.two coeff) m,
    )

  unfoldable pub edge_dp_and_k : Edge F → F → Result (F × F) (Stop F)
  unfolding pipe_dp_and_k orifice_dp_and_k hx_segment_dp_and_k
  edge_dp_and_k e flow =
      if e.kind == "pipe"
      then pipe_dp_and_k e flow
      else if e.kind == "orifice"
      then orifice_dp_and_k e flow
      else if e.kind == "hx_segment"
      then hx_segment_dp_and_k e flow
      else ok (o.zero, o.zero)

  -- The signed pressure drop across a solved edge; a fixed flow has no loss law.
  unfoldable pub edge_dp : Edge F → Result F (Stop F)
  unfolding is_unknown edge_dp_and_k
  edge_dp e = if not (is_unknown e) then ok o.zero else (do (dp, k) ← edge_dp_and_k e e.flow; ok dp)
