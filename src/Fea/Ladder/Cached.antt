-- ===== src/Fea/Ladder/Cached.antt =====
-- A climb with a rung cache beside one without (python/feldspar/fea/ladder.py).
use feldspar.Prelude.{
  ℕ, suc, String, Option, none, some, List, [], ◌∷◌, Result, ok, err, ◌≡◌, refl, sym, ap, ◌∙◌,
  subst, ◌==◌, eq_iff, Bool-cases, Option-cases, Result-cases, inl, inr, arith,
}
use mathlib.Core.Option.{some-injective}
use feldspar.Prelude.Dict.{lookup, insert, lookup-insert, lookup-insert_self}
use feldspar.Prelude.Float.{FloatOps}
use feldspar.Solve.Errors.{SolveError}
use feldspar.Fea.Richardson.{RichardsonResult}
use feldspar.Fea.Ladder.{
  RungCache, rung_get, rung_put, is_worse, fits, store_run, or_run, run_cached, climb_from,
  climb_richardson_ladder,
}

module _ {F : Type 0} where
  rung_get_missing :
      (k : String) (c : RungCache F)
      → lookup k c.store ≡ none
      → rung_get k c ≡ (none, record c { misses = suc c.misses })
  unfolding rung_get
  rung_get_missing k c missing = rw (missing, rung_get) refl

  pub rung_get_found :
      (k : String) (c : RungCache F) (v : F)
      → lookup k c.store ≡ some v
      → rung_get k c ≡ (some v, record c { hits = suc c.hits })
  unfolding rung_get
  rung_get_found k c v found = rw (found, rung_get) refl

module _ {F R : Type 0} ⦃o : FloatOps F⦄ (run_rung : R → Result F (SolveError F)) (key : R → String)
    (extrapolate : F → F → RichardsonResult F) where
  -- Equal keys are keys of rungs that run alike.
  unfoldable pub Distinguishes : Type 0
  Distinguishes = (a b : R) → key a ≡ key b → run_rung a ≡ run_rung b

  -- No cache, or one whose values are what the rungs give.
  unfoldable pub IsCoherent : Option (RungCache F) → Type 0
  IsCoherent none = Unit
  IsCoherent (some c) =
      (rung : R) (v : F) → lookup (key rung) c.store ≡ some v → run_rung rung ≡ ok v

  or_run-IsCoherent :
      Distinguishes
      → (rung : R) (c : RungCache F) (res : Result F (SolveError F)) → run_rung rung ≡ res
      → IsCoherent (some c)
      → IsCoherent (store_run run_rung key extrapolate (key rung) c res).1
  unfolding Distinguishes IsCoherent store_run rung_put
  or_run-IsCoherent apart rung c (err e) run h = h
  or_run-IsCoherent apart rung c (ok value) run h = λ rung' v found.
      elim (Bool-cases (key rung == key rung')) [
        | inr miss ↦
            h rung' v
              (ground (arith, lookup-insert (key rung) (key rung') value c.store, miss, found))
        | inl hit ↦
            let same = (eq_iff (key rung) (key rung')).0 hit in
            let mine : some value ≡ some v =
              sym (lookup-insert_self (key rung) value c.store)
              ∙ ap (λ j. lookup j (insert (key rung) value c.store)) same
              ∙ found in
            apart rung' rung (sym same) ∙ run ∙ ap ok (some-injective value v mine)
      ]

  pub store_run-same :
      (k : String) (c : RungCache F) (res : Result F (SolveError F))
      → (store_run run_rung key extrapolate k c res).0 ≡ res
  unfolding store_run
  store_run-same k c (ok v) = refl
  store_run-same k c (err e) = refl

  pub run_cached_missing :
      (rung : R) (c : RungCache F)
      → lookup (key rung) c.store ≡ none
      → run_cached run_rung key extrapolate rung (some c)
        ≡ store_run run_rung key extrapolate
            (key rung)
            (record c { misses = suc c.misses })
            (run_rung rung)
  unfolding run_cached or_run
  run_cached_missing rung c missing =
      ap (or_run run_rung key extrapolate rung) (rung_get_missing (key rung) c missing)

  pub run_cached_found :
      (rung : R) (c : RungCache F) (v : F)
      → lookup (key rung) c.store ≡ some v
      → run_cached run_rung key extrapolate rung (some c)
        ≡ (ok v, some (record c { hits = suc c.hits }))
  unfolding run_cached or_run
  run_cached_found rung c v found =
      ap (or_run run_rung key extrapolate rung) (rung_get_found (key rung) c v found)

  pub run_cached-IsCoherent :
      Distinguishes
      → (rung : R) (cache : Option (RungCache F)) → IsCoherent cache
      → ((run_cached run_rung key extrapolate rung cache).0 ≡ run_rung rung)
        × IsCoherent (run_cached run_rung key extrapolate rung cache).1
  unfolding run_cached rung_get or_run IsCoherent
  run_cached-IsCoherent apart rung none h = (refl, tt)
  run_cached-IsCoherent apart rung (some c) h = elim (Option-cases (lookup (key rung) c.store)) [
    | inr (v, found) ↦
        subst (λ x. (x.0 ≡ run_rung rung) × IsCoherent x.1) (sym (run_cached_found rung c v found))
          (sym (h rung v found), h)
    | inl missing ↦
        let c' : RungCache F = record c { misses = suc c.misses } in
        subst (λ x. (x.0 ≡ run_rung rung) × IsCoherent x.1)
          (sym (run_cached_missing rung c missing))
          (
            store_run-same (key rung) c' (run_rung rung),
            or_run-IsCoherent apart rung c' (run_rung rung) refl h,
          )
  ]

  pub climb_from-IsCoherent :
      Distinguishes
      → (budget : Option F) (rungs : List R) (prev : F) (prev_eps : Option F) (i : ℕ)
        (cache : Option (RungCache F))
      → IsCoherent cache
      → ((climb_from run_rung key extrapolate budget prev prev_eps i rungs cache).0
          ≡ (climb_from run_rung key extrapolate budget prev prev_eps i rungs none).0)
        × IsCoherent (climb_from run_rung key extrapolate budget prev prev_eps i rungs cache).1
  unfolding climb_from
  climb_from-IsCoherent apart budget [] prev prev_eps i cache h = (refl, h)
  climb_from-IsCoherent apart budget (rung ∷ rungs) prev prev_eps i cache h =
      let s = run_cached-IsCoherent apart rung cache h in
      elim (Result-cases (run_rung rung)) [
        | inr (x, r) ↦ rw (s.0 ∙ r, r, climb_from, run_cached) (refl, s.1)
        | inl (value, r) ↦
            let eps = (extrapolate prev value).eps in
            elim (Bool-cases (is_worse run_rung key extrapolate prev_eps eps)) [
              | inl worse ↦ rw (s.0 ∙ r, r, worse, climb_from, run_cached) (refl, s.1)
              | inr better ↦ elim (Bool-cases (fits run_rung key extrapolate budget eps)) [
                | inl stop ↦ rw (s.0 ∙ r, r, better, stop, climb_from, run_cached) (refl, s.1)
                | inr on ↦
                    rw (s.0 ∙ r, r, better, on, climb_from, run_cached)
                      (climb_from-IsCoherent apart budget rungs value (some eps) (suc i)
                        (run_cached run_rung key extrapolate rung cache).1 s.1)
              ]
            ]
      ]

  -- If equal rung keys are keys of rungs that run alike and the rung cache is absent or coherent
  -- (each value is what its rung gives), then a climb ends as it does without a cache, whatever the
  -- rungs and the budget, and leaves an absent or a coherent cache.
  pub climb_richardson_ladder-IsCoherent :
      Distinguishes
      → (rungs : List R) (budget : Option F) (cache : Option (RungCache F)) → IsCoherent cache
      → ((climb_richardson_ladder run_rung key extrapolate rungs budget cache).0
          ≡ (climb_richardson_ladder run_rung key extrapolate rungs budget none).0)
        × IsCoherent (climb_richardson_ladder run_rung key extrapolate rungs budget cache).1
  unfolding climb_richardson_ladder
  climb_richardson_ladder-IsCoherent apart [] budget cache h = (refl, h)
  climb_richardson_ladder-IsCoherent apart (rung ∷ []) budget cache h = (refl, h)
  climb_richardson_ladder-IsCoherent apart (first ∷ rung ∷ rungs) budget cache h =
      let s = run_cached-IsCoherent apart first cache h in
      elim (Result-cases (run_rung first)) [
        | inr (x, r) ↦ rw (s.0 ∙ r, r, climb_richardson_ladder, run_cached) (refl, s.1)
        | inl (value, r) ↦
            rw (s.0 ∙ r, r, climb_richardson_ladder, run_cached)
              (climb_from-IsCoherent apart budget (rung ∷ rungs) value none 1
                (run_cached run_rung key extrapolate first cache).1 s.1)
      ]
