-- ===== src/Solve/Packs/Staging.antt =====
-- The staging registry of `load_solver_packs` (python/feldspar/solve/packs.py): its seeding, and a
-- pack's program run on it.
use feldspar.Prelude.{
  String, ◌≡◌, refl, Bool, true, false, none, some, [], ◌∷◌, arith, ok, All, keep, elem, not,
  Bool-cases, inl, inr, ◌∙◌, subst, ap₂, not-true, eq_iff, ◌≢◌,
}
use feldspar.Prelude.Dict.{Dict, lookup, keys, values, IsDict}
use feldspar.Prelude.Float.{FloatOps}
use feldspar.Core.{PortDecl}
use feldspar.Solve.Registry.{
  SolverRegistry, empty_registry, declare_ports, register, freeze, has_known_kind,
}
use feldspar.Solve.Registry.Invariant.{
  IsValid, IsPortEntry, AllEntries, declare_ports-IsValid, register-IsValid, freeze-IsValid,
}
use feldspar.Solve.Registry.Ports.{Declarable, DistinctNames, entries_of, declare_loop-ok}
use feldspar.Solve.Packs.{
  PackProgram, returns, raises, declares, registers, freezes, run_program, seed_from, seed_staging,
  new_ports_of,
}

-- The values of a port table are declarable over any table that has none of their names.
hit : {V : Type 0} (e : String × V) (d : Dict V) → lookup e.0 (e ∷ d) ≡ some e.1
unfolding lookup
hit e d = ground (arith, eq_iff e.0 e.0)

ne_of_lookup :
    {V : Type 0} (k : String) (e : String × V) (d : Dict V) → lookup k (e ∷ d) ≡ none → k ≢ e.0
unfolding lookup
ne_of_lookup k e d h p = cc (subst (λ j. lookup j (e ∷ d) ≡ none) p h, hit e d)

lookup_tail :
    {V : Type 0} (k : String) (e : String × V) (d : Dict V)
    → lookup k (e ∷ d) ≡ none
    → lookup k d ≡ none
unfolding lookup
lookup_tail k e d h = ground arith

values-distinct :
    (k : String) (d : Dict PortDecl)
    → AllEntries IsPortEntry d
    → lookup k d ≡ none
    → All (λ e. k ≢ e.name) (values d)
values-distinct k [] a h = tt
values-distinct k (e ∷ d) a h =
    (λ p. ne_of_lookup k e d h (p ∙ a.0.0), values-distinct k d a.1 (lookup_tail k e d h))

values-DistinctNames :
    (d : Dict PortDecl) → IsDict d → AllEntries IsPortEntry d → DistinctNames (values d)
values-DistinctNames [] u a = tt
values-DistinctNames (e ∷ d) u a =
    (rw a.0.0 (values-distinct e.0 d a.1 u.0), values-DistinctNames d u.1 a.1)

values-known :
    (d : Dict PortDecl) → AllEntries IsPortEntry d → All (λ e. has_known_kind e ≡ true) (values d)
values-known [] a = tt
values-known (e ∷ d) a = (a.0.1, values-known d a.1)

entries_of-values : (d : Dict PortDecl) → AllEntries IsPortEntry d → entries_of (values d) ≡ d
entries_of-values [] a = refl
entries_of-values (e ∷ d) a =
    let head : (e.1.name, e.1) ≡ e = λ i. (a.0.0 i, e.1) in ap₂ ◌∷◌ head (entries_of-values d a.1)

none-values : (d : Dict PortDecl) → All (λ e. lookup {V = PortDecl} e.name [] ≡ none) (values d)
unfolding lookup
none-values [] = tt
none-values (e ∷ d) = (refl, none-values d)

-- The ports that `keep` leaves are still under their own names, once each, and new to the base.
module _ (base : Dict PortDecl) where
  abbrev is_new : String × PortDecl → Bool
  is_new e = not (elem e.0 (keys base))

  keep-AllEntries :
      (d : Dict PortDecl) → AllEntries IsPortEntry d → AllEntries IsPortEntry (keep is_new d)
  keep-AllEntries [] a = tt
  keep-AllEntries (e ∷ d) a = elim (Bool-cases (is_new e)) [
    | inl fresh ↦ rw fresh (a.0, keep-AllEntries d a.1)
    | inr old ↦ rw old (keep-AllEntries d a.1)
  ]

  lookup-keep :
      (k : String) (d : Dict PortDecl) → lookup k d ≡ none → lookup k (keep is_new d) ≡ none
  unfolding lookup
  lookup-keep k [] h = refl
  lookup-keep k (e ∷ d) h = ground (arith, lookup-keep k d)

  keep-IsDict : (d : Dict PortDecl) → IsDict d → IsDict (keep is_new d)
  keep-IsDict [] u = tt
  keep-IsDict (e ∷ d) u = elim (Bool-cases (is_new e)) [
    | inl fresh ↦ rw fresh (lookup-keep e.0 d u.0, keep-IsDict d u.1)
    | inr old ↦ rw old (keep-IsDict d u.1)
  ]

  elem-keys : (k : String) (d : Dict PortDecl) → elem k (keys d) ≡ false → lookup k d ≡ none
  unfolding lookup
  elem-keys k [] h = refl
  elem-keys k (e ∷ d) h = ground (arith, elem-keys k d)

  keep-new :
      (d : Dict PortDecl)
      → AllEntries IsPortEntry d
      → All (λ e. lookup e.name base ≡ none) (values (keep is_new d))
  keep-new [] a = tt
  keep-new (e ∷ d) a = elim (Bool-cases (is_new e)) [
    | inl fresh ↦ rw fresh (rw a.0.0 (elem-keys e.0 base (not-true fresh)), keep-new d a.1)
    | inr old ↦ rw old (keep-new d a.1)
  ]

module _ {F : Type 0} ⦃o : FloatOps F⦄ where
  -- The new ports of a valid staging registry can be declared on the base.
  pub new_ports_of-Declarable :
      (staging r : SolverRegistry F) → IsValid staging → Declarable (new_ports_of staging r) r.ports
  unfolding new_ports_of
  new_ports_of-Declarable staging r v =
      let each = keep-AllEntries r.ports staging.ports v.ports_each in
      record {
        known_kinds = values-known (keep (is_new r.ports) staging.ports) each;
        new_names = keep-new r.ports staging.ports v.ports_each;
        distinct =
            values-DistinctNames (keep (is_new r.ports) staging.ports)
              (keep-IsDict r.ports staging.ports v.ports_dict) each;
      }

  declare_ports-values :
      (d : Dict PortDecl)
      → IsDict d
      → AllEntries IsPortEntry d
      → declare_ports (values d) (empty_registry {F = F})
        ≡ (ok tt, record empty_registry { ports = d })
  unfolding declare_ports
  declare_ports-values d u a =
      let whole : Declarable (values d) [] = record {
        known_kinds = values-known d a;
        new_names = none-values d;
        distinct = values-DistinctNames d u a;
      } in
      rw (declare_loop-ok (values d) [] whole, entries_of-values d a)

  seed_from-ok :
      (d : Dict PortDecl)
      → IsDict d
      → AllEntries IsPortEntry d
      → seed_from d ≡ some (record (empty_registry {F = F}) { ports = d })
  unfolding seed_from
  seed_from-ok [] u a = refl
  seed_from-ok (e ∷ d) u a = ground (arith, declare_ports-values (e ∷ d) u a)

  -- The seeding assertion of a valid registry holds, and the staging registry has the base's ports.
  pub seed_staging-ok :
      (r : SolverRegistry F)
      → IsValid r
      → seed_staging r ≡ some (record (empty_registry {F = F}) { ports = r.ports })
  unfolding seed_staging
  seed_staging-ok r v = seed_from-ok r.ports v.ports_dict v.ports_each

  pub seed-IsValid :
      (r : SolverRegistry F)
      → IsValid r
      → IsValid (record (empty_registry {F = F}) { ports = r.ports })
  seed-IsValid r v = record {
    solvers_dict = tt;
    ports_dict = v.ports_dict;
    solvers_each = tt;
    ports_each = v.ports_each;
  }

  pub run_program-IsValid :
      (p : PackProgram F) (r : SolverRegistry F) {s : SolverRegistry F}
      → IsValid r
      → run_program p r ≡ ok s
      → IsValid s
  unfolding run_program
  run_program-IsValid returns r {s} v h = let e : r ≡ s = cc in subst IsValid e v
  run_program-IsValid (raises m) r v h = cc
  run_program-IsValid (declares decls next) r v h =
      run_program-IsValid (next (declare_ports decls r).0) (declare_ports decls r).1
        (declare_ports-IsValid decls r v) h
  run_program-IsValid (registers info fn next) r v h =
      run_program-IsValid (next (register info fn r).0) (register info fn r).1
        (register-IsValid info fn r v) h
  run_program-IsValid (freezes next) r v h =
      run_program-IsValid next (freeze r) (freeze-IsValid r v) h
