-- ===== src/Fea/Ladder/Ran.antt =====
-- What a rung's run leaves in the cache of python/feldspar/fea/ladder.py.
use feldspar.Prelude.{
  suc, String, Option, none, some, Result, ok, err, ◌≡◌, ◌≢◌, refl, sym, ap, ◌∙◌, ◌==◌, Bool-cases,
  Option-cases, inl, inr, arith,
}
use feldspar.Prelude.Dict.{Dict, lookup, insert, lookup-insert, lookup-insert_self}
use feldspar.Prelude.Float.{FloatOps}
use feldspar.Solve.Errors.{SolveError}
use feldspar.Fea.Richardson.{RichardsonResult}
use feldspar.Fea.Ladder.{RungCache, rung_put, store_run, run_cached}
use feldspar.Fea.Ladder.Cached.{run_cached_found, run_cached_missing}

module _ {F : Type 0} where
  -- Every key of the one cache is a key of the other.
  abbrev pub Extends : RungCache F → Option (RungCache F) → Type 0
  Extends c none = Unit
  Extends c (some d) =
      (k : String) (v : F) → lookup k c.store ≡ some v → (v' : F) × (lookup k d.store ≡ some v')

  -- A cache with as many misses as another.
  abbrev pub SameMisses : RungCache F → Option (RungCache F) → Type 0
  SameMisses c none = ⊥
  SameMisses c (some d) = d.misses ≡ c.misses

  pub Extends-trans :
      (c d : RungCache F) (e : Option (RungCache F))
      → Extends c (some d)
      → Extends d e
      → Extends c e
  Extends-trans c d none h k = tt
  Extends-trans c d (some e) h k =
      λ key v found. let (v', found') = h key v found in k key v' found'

  err_ok : (e : SolveError F) (v : F) → ◌≢◌ {A = Result F (SolveError F)} (err e) (ok v)
  err_ok e v h = cc

  insert_found :
      (k j : String) (value v : F) (d : Dict F)
      → lookup j d ≡ some v
      → (v' : F) × (lookup j (insert k value d) ≡ some v')
  insert_found k j value v d found = elim (Bool-cases (k == j)) [
    | inl hit ↦ (value, ground (arith, lookup-insert k j value d, hit))
    | inr miss ↦ (v, ground (arith, lookup-insert k j value d, miss, found))
  ]

module _ {F R : Type 0} ⦃o : FloatOps F⦄ (run_rung : R → Result F (SolveError F)) (key : R → String)
    (extrapolate : F → F → RichardsonResult F) where
  -- What a run leaves behind: a cache that extends the one before, with the rung's key if it ran.
  pub record Ran (rung : R) (c : RungCache F) : Type 0 where
    pub cache : RungCache F
    pub left : (run_cached run_rung key extrapolate rung (some c)).1 ≡ some cache
    pub extends : Extends c (some cache)
    pub holds :
        (v : F) → run_rung rung ≡ ok v → (v' : F) × (lookup (key rung) cache.store ≡ some v')

  store_run-Ran :
      (rung : R) (c : RungCache F) (res : Result F (SolveError F))
      → run_rung rung ≡ res
      → run_cached run_rung key extrapolate rung (some c)
        ≡ store_run run_rung key extrapolate (key rung) (record c { misses = suc c.misses }) res
      → Ran rung c
  unfolding store_run rung_put
  store_run-Ran rung c (err e) run eq = record {
    cache = record c { misses = suc c.misses };
    left = ap (λ x. x.1) eq;
    extends = λ k v found. (v, found);
    holds = λ v ran. absurd (err_ok e v (sym run ∙ ran));
  }
  store_run-Ran rung c (ok value) run eq = record {
    cache = record c { store = insert (key rung) value c.store; misses = suc c.misses };
    left = ap (λ x. x.1) eq;
    extends = λ k v found. insert_found (key rung) k value v c.store found;
    holds = λ v ran. (value, lookup-insert_self (key rung) value c.store);
  }

  pub run_cached-Ran : (rung : R) (c : RungCache F) → Ran rung c
  run_cached-Ran rung c = elim (Option-cases (lookup (key rung) c.store)) [
    | inl missing ↦
        store_run-Ran rung c (run_rung rung) refl
          (run_cached_missing run_rung key extrapolate rung c missing)
    | inr (v, found) ↦ record {
      cache = record c { hits = suc c.hits };
      left = ap (λ x. x.1) (run_cached_found run_rung key extrapolate rung c v found);
      extends = λ k v' found'. (v', found');
      holds = λ v' ran. (v, found);
    }
  ]
