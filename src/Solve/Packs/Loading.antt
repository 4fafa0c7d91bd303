-- ===== src/Solve/Packs/Loading.antt =====
-- One iteration of `load_solver_packs` (python/feldspar/solve/packs.py), over all its outcomes.
use mathlib.Core.List.{append-nil}
use feldspar.Prelude.{
  String, ◌<>◌, ◌≡◌, refl, true, false, none, some, List, [], ◌∷◌, ◌++◌, arith, ok, err, All, ap,
  inl, inr, Result-cases, Option-cases, Bool-cases, Result, ok_inj, sym, ◌∙◌, ap₂, subst, ◌⊎◌,
}
use feldspar.Prelude.Dict.{Dict, lookup}
use feldspar.Prelude.Float.{FloatOps}
use feldspar.Core.{PortDecl}
use feldspar.Solve.Errors.{RegistryError}
use feldspar.Solve.Registry.{Entry, SolverRegistry, empty_registry, declare_ports, iterate}
use feldspar.Solve.Registry.Invariant.{IsValid}
use feldspar.Solve.Registry.Ports.{Declarable, entries_of, declare_loop-ok}
use feldspar.Solve.Packs.{
  EntryPoint, Target, callable, load_failed, not_callable, PackProgram, SolverPackLoadError,
  LoadState, pack_version, load_target, run_program, violation_of, new_ports_of, replay,
  rollback_ports, finish_pack, replay_pack, commit_pack, land_pack, after_declare, load_pack,
  port_declaration_failed, pack_register_raised,
}
use feldspar.Solve.Packs.Staging.{
  new_ports_of-Declarable, seed_staging-ok, seed-IsValid, run_program-IsValid,
}
use feldspar.Solve.Packs.Replay.{
  tagged, owned, replay-Landed, rollback_ids-replay, rollback_ports-entries,
}

module _ {F : Type 0} ⦃o : FloatOps F⦄ where
  -- The pack is named in `skipped`, and nothing else has changed.
  pub record Skipped (s s' : LoadState F) : Type 0 where
    pub error : SolverPackLoadError
    pub same : s' ≡ record s { skipped = s.skipped ++ error ∷ [] }

  -- The state with some ports and every solver of a staging registry behind what was there.
  abbrev pub with_staged :
      EntryPoint F → SolverRegistry F → List PortDecl → LoadState F → LoadState F
  with_staged ep staging ports s = record {
    registry = record s.registry {
      solvers = s.registry.solvers ++ tagged (iterate staging);
      ports = s.registry.ports ++ entries_of ports;
    };
    owner_of = s.owner_of ++ owned ep.name (iterate staging);
    loaded = s.loaded ++ record { name = ep.name; version = pack_version ep } ∷ [];
    skipped = s.skipped;
  }

  -- The entry point's own program ran on a registry with the ports of `s` alone, and what it staged
  -- there has landed: its solvers, and those of its ports that `s` does not have.
  pub record Composed (ep : EntryPoint F) (s s' : LoadState F) : Type 0 where
    pub program : PackProgram F
    pub is_target : ep.target ≡ callable program
    pub staging : SolverRegistry F
    pub staged :
        run_program program (record (empty_registry {F = F}) { ports = s.registry.ports })
        ≡ ok staging
    pub staging_valid : IsValid staging
    pub ports : List PortDecl
    pub are_new : ports ≡ new_ports_of staging s.registry
    pub declarable : Declarable ports s.registry.ports
    pub grown : s' ≡ with_staged ep staging ports s

  abbrev pub AllOrNothing : EntryPoint F → LoadState F → LoadState F → Type 0
  AllOrNothing ep s s' = Skipped s s' ⊎ Composed ep s s'

  -- What comes of a staging registry and a list of ports.
  abbrev Lands :
      EntryPoint F → SolverRegistry F → List PortDecl → LoadState F → LoadState F → Type 0
  Lands ep staging ports s s' = Skipped s s' ⊎ (s' ≡ with_staged ep staging ports s)

  load_target-callable :
      (ep : EntryPoint F) (target : Target F) (program : PackProgram F)
      → ep.target ≡ target
      → load_target ep ≡ ok program
      → ep.target ≡ callable program
  unfolding load_target
  load_target-callable ep (load_failed exc) program e h = cc (rw e at h)
  load_target-callable ep (not_callable shown) program e h = cc (rw e at h)
  load_target-callable ep (callable other) program e h =
      let same : ◌≡◌ {A = Result (PackProgram F) SolverPackLoadError} (ok other) (ok program) =
        rw e at h in
      e ∙ ap callable (ok_inj refl same)

  abbrev with_maps : LoadState F → EntryPoint F → SolverRegistry F → Dict String → LoadState F
  with_maps s ep r owner_of = record {
    registry = r;
    owner_of = owner_of;
    loaded = s.loaded ++ record { name = ep.name; version = pack_version ep } ∷ [];
    skipped = s.skipped;
  }

  violation_of-none :
      (pack : String) (standard reviewed : List String) (owner_of : Dict String)
      (es : List (Entry F))
      → violation_of pack standard reviewed owner_of es ≡ none
      → All (λ e. lookup e.0.solver_id owner_of ≡ none) es
  unfolding violation_of
  violation_of-none pack standard reviewed owner_of [] h = tt
  violation_of-none pack standard reviewed owner_of ((info, fn) ∷ es) h =
      ground (arith, violation_of-none pack standard reviewed owner_of es)

  -- The replay of a pack whose new ports stand behind those of `s`.
  replay_pack-Lands :
      (ep : EntryPoint F) (staging : SolverRegistry F) (ds : List PortDecl) (s : LoadState F)
      → IsValid staging
      → All (λ d. lookup d.name s.registry.ports ≡ none) ds
      → All (λ e. lookup e.0.solver_id s.owner_of ≡ none) (iterate staging)
      → Lands ep staging ds s (
          replay_pack ep staging ds (record s {
            registry = record s.registry { ports = s.registry.ports ++ entries_of ds };
          }))
  unfolding replay_pack finish_pack
  replay_pack-Lands ep staging ds s v new fresh =
      let r = record s.registry { ports = s.registry.ports ++ entries_of ds } in
      let t = record s { registry = r } in
      let done = replay ep.name (iterate staging) r s.owner_of [] in
      let rolled_back = λ (e : SolverPackLoadError) (x : SolverRegistry F × Dict String). record s {
        registry = rollback_ports ds x.0;
        owner_of = x.1;
        skipped = s.skipped ++ e ∷ [];
      } in
      elim (Option-cases done.failure) [
        | inr (e, failed) ↦ inl (record {
          error = e;
          same =
              ap (finish_pack ep ds t done) failed
              ∙ ap (rolled_back e)
                  (rollback_ids-replay ep.name r s.owner_of (iterate staging) fresh)
              ∙ ap (λ x. record s { registry = x; skipped = s.skipped ++ e ∷ [] })
                  (rollback_ports-entries ds s.registry.ports s.registry new);
        })
        | inl whole ↦
            let l = replay-Landed ep.name r s.owner_of (iterate staging) fresh in
            let full : l.done ≡ iterate staging =
              sym (l.split ∙ ap (◌++◌ l.done) (l.finished.0 whole) ∙ append-nil l.done) in
            inr (
              ap (finish_pack ep ds t done) whole
              ∙ ap₂ (with_maps s ep)
                  (l.registry_eq ∙ ap (λ es. record r { solvers = r.solvers ++ tagged es }) full)
                  (l.owners_eq ∙ ap (λ es. s.owner_of ++ owned ep.name es) full))
      ]

  declare_ports_frozen :
      (ds : List PortDecl) (r : SolverRegistry F)
      → r.frozen ≡ true
      → declare_ports ds r ≡ (err RegistryError.frozen, r)
  unfolding declare_ports
  declare_ports_frozen ds r h = rw h (ground arith)

  declare_ports_open :
      (ds : List PortDecl) (r : SolverRegistry F)
      → r.frozen ≡ false
      → Declarable ds r.ports
      → declare_ports ds r ≡ (ok tt, record r { ports = r.ports ++ entries_of ds })
  unfolding declare_ports
  declare_ports_open ds r h d = rw (h, declare_loop-ok ds r.ports d)

  land_pack-Lands :
      (ep : EntryPoint F) (staging : SolverRegistry F) (s : LoadState F) (ds : List PortDecl)
      → IsValid staging
      → Declarable ds s.registry.ports
      → All (λ e. lookup e.0.solver_id s.owner_of ≡ none) (iterate staging)
      → Lands ep staging ds s (land_pack ep staging s ds)
  unfolding land_pack after_declare
  land_pack-Lands ep staging s [] v h fresh =
      subst
        (λ x.
          Lands ep staging [] s
            (replay_pack ep staging [] (record s { registry = record s.registry { ports = x } })))
        (append-nil s.registry.ports) (replay_pack-Lands ep staging [] s v h.new_names fresh)
  land_pack-Lands ep staging s (d ∷ ds) v h fresh = elim (Bool-cases s.registry.frozen) [
    | inl shut ↦ inl (record {
      error = port_declaration_failed ep.name RegistryError.frozen;
      same =
          ap (after_declare ep staging (d ∷ ds) s) (declare_ports_frozen (d ∷ ds) s.registry shut);
    })
    | inr opened ↦
        subst (Lands ep staging (d ∷ ds) s)
          (sym (
            ap (after_declare ep staging (d ∷ ds) s)
              (declare_ports_open (d ∷ ds) s.registry opened h)))
          (replay_pack-Lands ep staging (d ∷ ds) s v h.new_names fresh)
  ]

  commit_pack-Lands :
      (standard reviewed : List String) (ep : EntryPoint F) (staging : SolverRegistry F)
      (s : LoadState F)
      → IsValid staging
      → Lands ep staging
          (new_ports_of staging s.registry)
          s
          (commit_pack standard reviewed ep staging s)
  unfolding commit_pack
  commit_pack-Lands standard reviewed ep staging s v =
      elim (Option-cases (violation_of ep.name standard reviewed s.owner_of (iterate staging))) [
        | inr (e, bad) ↦ inl (record { error = e; same = rw (bad, commit_pack) })
        | inl good ↦
            rw (good, commit_pack)
              (land_pack-Lands ep staging s (new_ports_of staging s.registry) v
                (new_ports_of-Declarable staging s.registry v)
                (violation_of-none ep.name standard reviewed s.owner_of (iterate staging) good))
      ]

  -- For every standard and reviewed namespace list, entry point and load state whose registry is
  -- valid, loading the entry point gives a result (its assertion holds), and that result is one of
  -- two: the state with one more error and nothing else changed, rollbacks included; or the entry
  -- point's program returned from a registry with the ports of the state alone, and the result is
  -- the state with every solver that it staged, owned by the pack, and the staged ports that the
  -- state does not have, which are declarable.
  pub load_pack-AllOrNothing :
      (standard reviewed : List String) (ep : EntryPoint F) (s : LoadState F)
      → IsValid s.registry
      → (s' : LoadState F) × (load_pack standard reviewed ep s ≡ some s') × AllOrNothing ep s s'
  unfolding load_pack
  load_pack-AllOrNothing standard reviewed ep s v = elim (Result-cases (load_target ep)) [
    | inr (e, bad) ↦ (
      record s { skipped = s.skipped ++ e ∷ [] },
      rw (bad, load_pack),
      inl (record { error = e; same = refl }),
    )
    | inl (program, good) ↦
        elim (Result-cases
          (run_program program (record (empty_registry {F = F}) { ports = s.registry.ports }))) [
            | inr (exc, raised) ↦
                let e = pack_register_raised ep.name ("register() raised: " <> exc) in
                (
                  record s { skipped = s.skipped ++ e ∷ [] },
                  rw (good, seed_staging-ok s.registry v, raised, load_pack),
                  inl (record { error = e; same = refl }),
                )
            | inl (staging, done) ↦
                let valid = run_program-IsValid program _ (seed-IsValid s.registry v) done in
                (
                  commit_pack standard reviewed ep staging s,
                  rw (good, seed_staging-ok s.registry v, done, load_pack),
                  elim (commit_pack-Lands standard reviewed ep staging s valid) [
                    | inl skipped ↦ inl skipped
                    | inr grown ↦ inr (record {
                      program = program;
                      is_target = load_target-callable ep ep.target program refl good;
                      staging = staging;
                      staged = done;
                      staging_valid = valid;
                      ports = new_ports_of staging s.registry;
                      are_new = refl;
                      declarable = new_ports_of-Declarable staging s.registry valid;
                      grown = grown;
                    })
                  ],
                )
          ]
  ]
