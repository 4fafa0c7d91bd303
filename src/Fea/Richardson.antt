-- ===== src/Fea/Richardson.antt =====
-- The two-mesh extrapolation of python/feldspar/fea/richardson.py. The power `2.0**order`, which may be
-- out of range, and the literal 1.0 are parameters; what the division raises is a value.
use feldspar.Prelude.{
  refl, Bool, true, false, ◌≡◌, if◌then◌else◌, Bool-cases, inl, inr, arith, Option, none, some,
  Result, ok, err,
}
use feldspar.Prelude.Float.{FloatOps, FloatLaws, lt, eq, ArithmeticError, zero_division, overflow}

pub record RichardsonResult (F : Type 0) : Type 0 where
  pub extrapolated : F
  pub order_used : F
  pub eps : F
  pub fallback_used : Bool

module _ {F : Type 0} ⦃o : FloatOps F⦄ (two_to : F → Option F) (one : F) where
  -- The correction by the power `p` of the order.
  unfoldable richardson_by : F → F → F → F → F → RichardsonResult F
  richardson_by value_h value_h2 order safety_factor p =
      let raw_delta = o.abs (o.sub value_h2 value_h) in
      let correction = o.div (o.sub value_h2 value_h) (o.sub p one) in
      let extrapolated = o.add value_h2 correction in
      if lt raw_delta (o.abs (o.sub extrapolated value_h2))
      then record {
        extrapolated = value_h2;
        order_used = order;
        eps = raw_delta;
        fallback_used = true;
      }
      else record {
        extrapolated = extrapolated;
        order_used = order;
        eps = o.mul safety_factor (o.abs (o.sub extrapolated value_h2));
        fallback_used = false;
      }

  unfoldable pub richardson_extrapolate :
      F → F → F → F → Result (RichardsonResult F) ArithmeticError
  unfolding richardson_by
  richardson_extrapolate value_h value_h2 order safety_factor = elim (two_to order) [
    | none ↦ err overflow
    | some p ↦
        if eq (o.sub p one) o.zero
        then err zero_division
        else ok (richardson_by value_h value_h2 order safety_factor p)
  ]

  -- `abs(extrapolated - value_h2)` by the power `p`, before the guard.
  abbrev pub correction_size : F → F → F → F
  correction_size value_h value_h2 p =
      o.abs (o.sub (o.add value_h2 (o.div (o.sub value_h2 value_h) (o.sub p one))) value_h2)

  -- What a safety factor and the differences of floats satisfy.
  pub record IsSafe (safety_factor : F) : Type 0 where
    pub wide : (x : F) → o.le (o.abs x) (o.mul safety_factor (o.abs x)) ≡ true
    pub monotone :
        (a b : F) → o.le a b ≡ true → o.le (o.mul safety_factor a) (o.mul safety_factor b) ≡ true
    pub no_distance : (a x : F) → o.le (o.abs (o.sub a a)) (o.abs x) ≡ true

  -- A result between the two meshes' difference and the correction.
  unfoldable pub IsBounded : F → F → F → F → RichardsonResult F → Type 0
  IsBounded value_h value_h2 safety_factor p r =
      let raw_delta = o.abs (o.sub value_h2 value_h) in
      (o.le (o.abs (o.sub r.extrapolated value_h2)) raw_delta ≡ true)
      × (o.le r.eps (o.mul safety_factor raw_delta) ≡ true)
      × (o.le r.eps (o.mul safety_factor (correction_size value_h value_h2 p)) ≡ true)

  richardson_by-IsBounded :
      FloatLaws F o
      → (h h2 order safety_factor p : F) → IsSafe safety_factor
      → IsBounded h h2 safety_factor p (richardson_by h h2 order safety_factor p)
  unfolding richardson_by IsBounded
  richardson_by-IsBounded laws h h2 order safety p safe =
      let d = o.abs (o.sub h2 h) in
      let c = correction_size h h2 p in
      elim (Bool-cases (lt d c)) [
        | inr fits ↦
            let below : o.le c d ≡ true = ground (arith, fits, laws.less_le d c) in
            rw fits (below, safe.monotone c d below, laws.le_refl (o.mul safety c))
        | inl worse ↦
            let above : o.le d c ≡ true =
              ground (arith, worse, laws.less_le d c, laws.le_total d c) in
            rw worse (
              safe.no_distance h2 (o.sub h2 h),
              safe.wide (o.sub h2 h),
              laws.le_trans d (o.mul safety d) (o.mul safety c) (safe.wide (o.sub h2 h))
                  (safe.monotone d c above),
            )
      ]

  -- On floats ordered totally, with a safety factor that keeps their order and makes no absolute
  -- value smaller, and for an order whose power of two is in range and is not one: the
  -- extrapolation gives a result whose value is no farther from the fine mesh's than the coarse
  -- mesh's is, and whose error is above neither the safety factor times that distance nor the
  -- safety factor times the correction, whichever branch gave it.
  pub richardson_extrapolate-IsBounded :
      FloatLaws F o
      → (value_h value_h2 order safety_factor p : F) → IsSafe safety_factor
      → two_to order ≡ some p
      → eq (o.sub p one) o.zero ≡ false
      → (r : RichardsonResult F) × (richardson_extrapolate value_h value_h2 order safety_factor
          ≡ ok r)
        × IsBounded value_h value_h2 safety_factor p r
  unfolding richardson_extrapolate
  richardson_extrapolate-IsBounded laws h h2 order safety p safe power nonzero = (
    richardson_by h h2 order safety p,
    rw (power, nonzero, richardson_extrapolate) refl,
    richardson_by-IsBounded laws h h2 order safety p safe,
  )
