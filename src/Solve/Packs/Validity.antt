-- ===== src/Solve/Packs/Validity.antt =====
-- The registry over a whole pass of `load_solver_packs` (python/feldspar/solve/packs.py).
use feldspar.Prelude.{
  String, ◌<>◌, ◌≡◌, refl, Option, none, some, List, [], ◌∷◌, ◌++◌, arith, Result, ok, err, inl,
  inr, Result-cases, Option-cases, suc, length, length-append, ◌+◌, subst,
}
use feldspar.Prelude.Dict.{Dict, insert, values}
use feldspar.Prelude.Dict.Sorted.{sorted, place}
use feldspar.Prelude.Float.{FloatOps}
use feldspar.Core.{PortDecl}
use feldspar.Solve.Registry.{
  Entry, empty_registry, SolverRegistry, declare_ports, register, iterate,
}
use feldspar.Solve.Registry.Invariant.{
  IsValid, declare_ports-IsValid, register-IsValid, rollback_registration-IsValid,
  rollback_port_decl-IsValid,
}
use feldspar.Solve.Packs.{
  EntryPoint, SolverPackLoadError, LoadState, Replayed, load_target, run_program, violation_of,
  new_ports_of, replay, rollback_ids, rollback_ports, finish_pack, replay_pack, after_declare,
  land_pack, commit_pack, load_pack, load_packs, load_solver_packs, by_name, builtin_owners,
  pack_version, pack_register_raised,
}
use feldspar.Solve.Packs.Staging.{seed_staging-ok}
use feldspar.Solve.Packs.Loading.{AllOrNothing, load_pack-AllOrNothing}

module _ {F : Type 0} ⦃o : FloatOps F⦄ where
  replay-IsValid :
      (pack : String) (es : List (Entry F)) (r : SolverRegistry F) (owner_of : Dict String)
      (registered : List String)
      → IsValid r
      → IsValid (replay pack es r owner_of registered).registry
  unfolding replay
  replay-IsValid pack [] r owner_of registered v = v
  replay-IsValid pack ((info, fn) ∷ es) r owner_of registered v =
      elim (Result-cases (register info fn r).0) [
        | inr (e, refused) ↦ rw (refused, replay) (register-IsValid info fn r v)
        | inl (_, acc) ↦
            rw (acc, replay)
              (replay-IsValid pack es (register info fn r).1 (insert info.solver_id pack owner_of)
                (registered ++ info.solver_id ∷ []) (register-IsValid info fn r v))
      ]

  rollback_ids-IsValid :
      (ids : List String) (r : SolverRegistry F) (owner_of : Dict String)
      → IsValid r
      → IsValid (rollback_ids ids r owner_of).0
  unfolding rollback_ids
  rollback_ids-IsValid [] r owner_of v = v
  rollback_ids-IsValid (id ∷ ids) r owner_of v =
      rollback_ids-IsValid ids _ _ (rollback_registration-IsValid id r v)

  rollback_ports-IsValid :
      (ds : List PortDecl) (r : SolverRegistry F) → IsValid r → IsValid (rollback_ports ds r)
  unfolding rollback_ports
  rollback_ports-IsValid [] r v = v
  rollback_ports-IsValid (d ∷ ds) r v =
      rollback_ports-IsValid ds _ (rollback_port_decl-IsValid d.name r v)

  finish_pack-IsValid :
      (ep : EntryPoint F) (ds : List PortDecl) (s : LoadState F) (done : Replayed F)
      (failure : Option SolverPackLoadError)
      → IsValid done.registry
      → IsValid (finish_pack ep ds s done failure).registry
  unfolding finish_pack
  finish_pack-IsValid ep ds s done none v = v
  finish_pack-IsValid ep ds s done (some e) v =
      rollback_ports-IsValid ds _
        (rollback_ids-IsValid done.registered done.registry done.owner_of v)

  replay_pack-IsValid :
      (ep : EntryPoint F) (staging : SolverRegistry F) (ds : List PortDecl) (s : LoadState F)
      → IsValid s.registry
      → IsValid (replay_pack ep staging ds s).registry
  unfolding replay_pack
  replay_pack-IsValid ep staging ds s v =
      let done = replay ep.name (iterate staging) s.registry s.owner_of [] in
      finish_pack-IsValid ep ds s done done.failure
        (replay-IsValid ep.name (iterate staging) s.registry s.owner_of [] v)

  after_declare-IsValid :
      (ep : EntryPoint F) (staging : SolverRegistry F) (ds : List PortDecl) (s : LoadState F)
      (a : Result (Unit {0}) _ × SolverRegistry F)
      → IsValid a.1
      → IsValid (after_declare ep staging ds s a).registry
  unfolding after_declare
  after_declare-IsValid ep staging ds s (err e, r) v = v
  after_declare-IsValid ep staging ds s (ok _, r) v = replay_pack-IsValid ep staging ds _ v

  land_pack-IsValid :
      (ep : EntryPoint F) (staging : SolverRegistry F) (s : LoadState F) (ds : List PortDecl)
      → IsValid s.registry
      → IsValid (land_pack ep staging s ds).registry
  unfolding land_pack
  land_pack-IsValid ep staging s [] v = replay_pack-IsValid ep staging [] s v
  land_pack-IsValid ep staging s (d ∷ ds) v =
      after_declare-IsValid ep staging (d ∷ ds) s (declare_ports (d ∷ ds) s.registry)
        (declare_ports-IsValid (d ∷ ds) s.registry v)

  commit_pack-IsValid :
      (standard reviewed : List String) (ep : EntryPoint F) (staging : SolverRegistry F)
      (s : LoadState F)
      → IsValid s.registry
      → IsValid (commit_pack standard reviewed ep staging s).registry
  unfolding commit_pack
  commit_pack-IsValid standard reviewed ep staging s v =
      elim (Option-cases (violation_of ep.name standard reviewed s.owner_of (iterate staging))) [
        | inr (e, bad) ↦ rw (bad, commit_pack) v
        | inl good ↦
            rw (good, commit_pack)
              (land_pack-IsValid ep staging s (new_ports_of staging s.registry) v)
      ]

  registry_of :
      {s' : LoadState F} (t : LoadState F)
      → IsValid t.registry
      → ◌≡◌ {A = Option (LoadState F)} (some t) (some s')
      → IsValid s'.registry
  registry_of {s'} t v h = let e : t ≡ s' = cc in subst (λ x. IsValid x.registry) e v

  load_pack-IsValid :
      (standard reviewed : List String) (ep : EntryPoint F) (s : LoadState F) {s' : LoadState F}
      → IsValid s.registry
      → load_pack standard reviewed ep s ≡ some s'
      → IsValid s'.registry
  unfolding load_pack
  load_pack-IsValid standard reviewed ep s {s'} v h = elim (Result-cases (load_target ep)) [
    | inr (e, bad) ↦
        registry_of (record s { skipped = s.skipped ++ e ∷ [] }) v (rw (bad, load_pack) at h)
    | inl (program, good) ↦
        elim (Result-cases
          (run_program program (record (empty_registry {F = F}) { ports = s.registry.ports }))) [
            | inr (exc, raised) ↦
                let e = pack_register_raised ep.name ("register() raised: " <> exc) in
                registry_of (record s { skipped = s.skipped ++ e ∷ [] }) v
                  (rw (good, seed_staging-ok s.registry v, raised, load_pack) at h)
            | inl (staging, done) ↦
                registry_of (commit_pack standard reviewed ep staging s)
                  (commit_pack-IsValid standard reviewed ep staging s v)
                  (rw (good, seed_staging-ok s.registry v, done, load_pack) at h)
          ]
  ]

  one_trace :
      (ep : EntryPoint F) (s t : LoadState F)
      → AllOrNothing ep s t
      → length t.loaded + length t.skipped ≡ length s.loaded + length s.skipped + 1
  one_trace ep s t (inl h) = rw h.same (omega (arith, length-append s.skipped (h.error ∷ [])))
  one_trace ep s t (inr h) = rw h.grown (
      omega
        (arith, length-append s.loaded (record { name = ep.name; version = pack_version ep } ∷ [])))

  -- A pass over the entry points of a valid registry ends, and each entry point has left one trace.
  load_packs-total :
      (standard reviewed : List String) (eps : List (EntryPoint F)) (s : LoadState F)
      → IsValid s.registry
      → (s' : LoadState F) × (load_packs standard reviewed eps s ≡ some s')
        × IsValid s'.registry
        × (length s'.loaded + length s'.skipped ≡ length s.loaded + length s.skipped + length eps)
  unfolding load_packs
  load_packs-total standard reviewed [] s v = (s, refl, v, omega arith)
  load_packs-total standard reviewed (ep ∷ eps) s v =
      let (t, found, outcome) = load_pack-AllOrNothing standard reviewed ep s v in
      let (s', rest, valid, count) =
        load_packs-total standard reviewed eps t
          (load_pack-IsValid standard reviewed ep s v found) in
      (s', rw (found, load_packs) rest, valid, omega (arith, one_trace ep s t outcome))

  length-place :
      (e : String × EntryPoint F) (d : Dict (EntryPoint F))
      → length (values (place e d)) ≡ suc (length (values d))
  unfolding place
  length-place e [] = refl
  length-place e (f ∷ d) = ground (arith, length-place e d)

  length-sorted : (eps : List (EntryPoint F)) → length (values (sorted (by_name eps))) ≡ length eps
  unfolding sorted
  length-sorted [] = refl
  length-sorted (e ∷ eps) =
      omega (arith, length-place (e.name, e) (sorted (by_name eps)), length-sorted eps)

  -- On a valid registry, for every list of entry points, the loader gives a result, the registry it
  -- leaves is valid, and the number of loaded packs plus the number of skipped ones is the number
  -- of entry points.
  pub load_solver_packs-total :
      (standard reviewed : List String) (eps : List (EntryPoint F)) (r : SolverRegistry F)
      → IsValid r
      → (s : LoadState F) × (load_solver_packs standard reviewed eps r ≡ some s)
        × IsValid s.registry
        × (length s.loaded + length s.skipped ≡ length eps)
  unfolding load_solver_packs
  load_solver_packs-total standard reviewed eps r v =
      let start : LoadState F = record {
        registry = r;
        owner_of = builtin_owners (iterate r);
        loaded = [];
        skipped = [];
      } in
      let (s, found, valid, count) =
        load_packs-total standard reviewed (values (sorted (by_name eps))) start v in
      (s, found, valid, omega (arith, length-sorted eps))
