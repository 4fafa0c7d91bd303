-- ===== src/Solve/Seeking/Falling.antt =====
-- `CostCurve.cost_for_budget` (python/feldspar/solve/seeking.py) at two budgets.
use feldspar.Prelude.{
  Bool, true, false, not, List, [], ◌∷◌, keep, All, ◌≡◌, ◌∙◌, sym, ap, subst, Bool-cases, inl, inr,
  arith, if◌then◌else◌,
}
use feldspar.Prelude.Float.{FloatOps, FloatLaws, lt}
use feldspar.Solve.Models.{CostPoint}
use feldspar.Solve.Seeking.{loosest, finest, cost_of_fitting, cost_for_budget}

module _ {F : Type 0} ⦃o : FloatOps F⦄ (laws : FloatLaws F o) where
  All-keep :
      (P : CostPoint F → Type 0) (test : CostPoint F → Bool) (ps : List (CostPoint F))
      → All P ps
      → All P (keep test ps)
  All-keep P test [] a = tt
  All-keep P test (p ∷ ps) a = elim (Bool-cases (test p)) [
    | inl yes_kept ↦ rw yes_kept (a.0, All-keep P test ps a.1)
    | inr dropped ↦ rw dropped (All-keep P test ps a.1)
  ]

  -- What a budget lets in, a looser one lets in.
  All-keep_wider :
      (P : CostPoint F → Type 0) (b b' : F) (ps : List (CostPoint F))
      → o.le b b' ≡ true
      → All P (keep (λ x. o.le x.eps b') ps)
      → All P (keep (λ x. o.le x.eps b) ps)
  All-keep_wider P b b' [] wider a = tt
  All-keep_wider P b b' (p ∷ ps) wider a = elim (Bool-cases (o.le p.eps b)) [
    | inl fits ↦
        let kept =
          subst
            (λ t.
              All P (if t then p ∷ keep (λ x. o.le x.eps b') ps else keep (λ x. o.le x.eps b') ps))
            (laws.le_trans p.eps b b' fits wider) a in
        rw fits (kept.0, All-keep_wider P b b' ps wider kept.1)
    | inr busts ↦ rw busts (All-keep_wider P b b' ps wider (rest (o.le p.eps b') a))
  ]
    where
      rest :
          (t : Bool)
          → All P (if t then p ∷ keep (λ x. o.le x.eps b') ps else keep (λ x. o.le x.eps b') ps)
          → All P (keep (λ x. o.le x.eps b') ps)
      rest true k = k.1
      rest false k = k

  loosest-All :
      (P : CostPoint F → Type 0) (p : CostPoint F) (ps : List (CostPoint F))
      → P p
      → All P ps
      → P (loosest p ps)
  unfolding loosest
  loosest-All P p [] h a = h
  loosest-All P p (q ∷ ps) h a = elim (Bool-cases (lt p.eps q.eps)) [
    | inl up ↦ rw (up, loosest) (loosest-All P q ps a.0 a.1)
    | inr not_up ↦ rw (not_up, loosest) (loosest-All P p ps h a.1)
  ]

  finest-All :
      (P : CostPoint F → Type 0) (p : CostPoint F) (ps : List (CostPoint F))
      → P p
      → All P ps
      → P (finest p ps)
  unfolding finest
  finest-All P p [] h a = h
  finest-All P p (q ∷ ps) h a = elim (Bool-cases (lt q.eps p.eps)) [
    | inl down ↦ rw (down, finest) (finest-All P q ps a.0 a.1)
    | inr not_down ↦ rw (not_down, finest) (finest-All P p ps h a.1)
  ]

  -- `max` is a bound: of its first argument, and of all.
  loosest_first : (p : CostPoint F) (ps : List (CostPoint F)) → o.le p.eps (loosest p ps).eps ≡ true
  unfolding loosest
  loosest_first p [] = laws.le_refl p.eps
  loosest_first p (q ∷ ps) = elim (Bool-cases (o.le q.eps p.eps)) [
    | inr up ↦
        rw (laws.less_le p.eps q.eps, up, loosest)
          (elim (laws.le_total p.eps q.eps) [
            | inl h ↦ laws.le_trans p.eps q.eps (loosest q ps).eps h (loosest_first q ps)
            | inr h ↦ ground (arith, up, h)
          ])
    | inl not_up ↦ rw (laws.less_le p.eps q.eps, not_up, loosest) (loosest_first p ps)
  ]

  loosest_bound :
      (p : CostPoint F) (ps : List (CostPoint F))
      → All (λ r. o.le r.eps (loosest p ps).eps ≡ true) ps
  unfolding loosest
  loosest_bound p [] = tt
  loosest_bound p (q ∷ ps) = elim (Bool-cases (o.le q.eps p.eps)) [
    | inr up ↦
        subst (λ x. All (λ r. o.le r.eps x.eps ≡ true) (q ∷ ps))
          (sym (ap (λ t. loosest (if t then q else p) ps) (laws.less_le p.eps q.eps ∙ ap not up)))
          (loosest_first q ps, loosest_bound q ps)
    | inl not_up ↦
        subst (λ x. All (λ r. o.le r.eps x.eps ≡ true) (q ∷ ps))
          (sym
            (ap (λ t. loosest (if t then q else p) ps) (laws.less_le p.eps q.eps ∙ ap not not_up)))
          (
            laws.le_trans q.eps p.eps (loosest p ps).eps not_up (loosest_first p ps),
            loosest_bound p ps,
          )
  ]

  -- `min` is a bound likewise.
  finest_first : (p : CostPoint F) (ps : List (CostPoint F)) → o.le (finest p ps).eps p.eps ≡ true
  unfolding finest
  finest_first p [] = laws.le_refl p.eps
  finest_first p (q ∷ ps) = elim (Bool-cases (o.le p.eps q.eps)) [
    | inr down ↦
        rw (laws.less_le q.eps p.eps, down, finest)
          (elim (laws.le_total q.eps p.eps) [
            | inl h ↦ laws.le_trans (finest q ps).eps q.eps p.eps (finest_first q ps) h
            | inr h ↦ ground (arith, down, h)
          ])
    | inl not_down ↦ rw (laws.less_le q.eps p.eps, not_down, finest) (finest_first p ps)
  ]

  finest_bound :
      (p : CostPoint F) (ps : List (CostPoint F))
      → All (λ r. o.le (finest p ps).eps r.eps ≡ true) ps
  unfolding finest
  finest_bound p [] = tt
  finest_bound p (q ∷ ps) = elim (Bool-cases (o.le p.eps q.eps)) [
    | inr down ↦
        subst (λ x. All (λ r. o.le x.eps r.eps ≡ true) (q ∷ ps))
          (sym (ap (λ t. finest (if t then q else p) ps) (laws.less_le q.eps p.eps ∙ ap not down)))
          (finest_first q ps, finest_bound q ps)
    | inl not_down ↦
        subst (λ x. All (λ r. o.le x.eps r.eps ≡ true) (q ∷ ps))
          (sym
            (ap (λ t. finest (if t then q else p) ps) (laws.less_le q.eps p.eps ∙ ap not not_down)))
          (
            laws.le_trans (finest p ps).eps p.eps q.eps (finest_first p ps) not_down,
            finest_bound p ps,
          )
  ]

  -- A point costs no less than a point of no smaller error.
  abbrev Above : CostPoint F → CostPoint F → Type 0
  Above x y = o.le x.eps y.eps ≡ true → o.le y.cost x.cost ≡ true

  -- The costs fall as the errors grow.
  abbrev pub IsFalling : List (CostPoint F) → Type 0
  IsFalling points = All (λ x. All (Above x) points) points

  -- The first list of points is part of the second, for every property.
  abbrev Within : List (CostPoint F) → List (CostPoint F) → Type 1
  Within fit points = (P : CostPoint F → Type 0) → All P points → All P fit

  cost_of_fitting_falls :
      (p : CostPoint F) (points fit fit' : List (CostPoint F))
      → IsFalling (p ∷ points)
      → Within fit (p ∷ points)
      → Within fit' (p ∷ points)
      → Within fit fit'
      → o.le (cost_of_fitting fit' p points) (cost_of_fitting fit p points) ≡ true
  unfolding cost_of_fitting
  cost_of_fitting_falls p points [] [] a sub sub' wider = laws.le_refl (finest p points).cost
  cost_of_fitting_falls p points (q ∷ fit) [] a sub sub' wider = absurd (wider (λ _. ⊥) tt).0
  cost_of_fitting_falls p points [] (q' ∷ fit') a sub sub' wider =
      let m = finest p points in
      let falls = sub' (Above m) (finest-All (λ x. All (Above x) (p ∷ points)) p points a.0 a.1) in
      let below =
        sub' (λ r. o.le m.eps r.eps ≡ true) (finest_first p points, finest_bound p points) in
      loosest-All (Above m) q' fit' falls.0 falls.1
        (loosest-All (λ r. o.le m.eps r.eps ≡ true) q' fit' below.0 below.1)
  cost_of_fitting_falls p points (q ∷ fit) (q' ∷ fit') a sub sub' wider =
      let m = loosest q fit in
      let l = loosest q' fit' in
      let each = sub (λ x. All (Above x) (p ∷ points)) a in
      let falls =
        sub' (Above m) (loosest-All (λ x. All (Above x) (p ∷ points)) q fit each.0 each.1) in
      let bound =
        wider (λ r. o.le r.eps l.eps ≡ true) (loosest_first q' fit', loosest_bound q' fit') in
      loosest-All (Above m) q' fit' falls.0 falls.1
        (loosest-All (λ r. o.le r.eps l.eps ≡ true) q fit bound.0 bound.1)

  -- On floats ordered totally, if no point of a cost curve costs more than one of no greater error,
  -- then the cost of a budget is not below the cost of a greater or equal one.
  pub cost_for_budget_falls :
      (p : CostPoint F) (points : List (CostPoint F)) (b b' : F)
      → IsFalling (p ∷ points)
      → o.le b b' ≡ true
      → o.le (cost_for_budget p points b') (cost_for_budget p points b) ≡ true
  unfolding cost_for_budget
  cost_for_budget_falls p points b b' a wider =
      cost_of_fitting_falls p points (keep (λ x. o.le x.eps b) (p ∷ points))
        (keep (λ x. o.le x.eps b') (p ∷ points)) a
        (λ P h. All-keep P (λ x. o.le x.eps b) (p ∷ points) h)
        (λ P h. All-keep P (λ x. o.le x.eps b') (p ∷ points) h)
        (λ P h. All-keep_wider P b b' (p ∷ points) wider h)
