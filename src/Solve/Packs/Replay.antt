-- ===== src/Solve/Packs/Replay.antt =====
-- The replay of a staged pack onto the real registry, and its rollback
-- (python/feldspar/solve/packs.py).
use mathlib.Core.List.{append_assoc, append-nil}
use feldspar.Prelude.{
  String, ◌≡◌, refl, none, List, [], ◌∷◌, ◌++◌, arith, ok, All, ap, inl, inr, Result-cases, sym,
  ◌∙◌, ◌↔◌, subst, subst₂, ap₂,
}
use feldspar.Prelude.Dict.{Dict, lookup, insert, insert_new, lookup-append, erase-append}
use feldspar.Prelude.Float.{FloatOps}
use feldspar.Core.{PortDecl}
use feldspar.Solve.Registry.{
  Entry, SolverRegistry, register, rollback_registration, rollback_port_decl,
}
use feldspar.Solve.Registry.Solvers.{register-ok_iff, register-ok, register-err}
use feldspar.Solve.Registry.Ports.{entries_of}
use feldspar.Solve.Packs.{Replayed, replay, rollback_ids, rollback_ports}

abbrev pub ids : {F : Type 0} → List (Entry F) → List String
ids [] = []
ids (e ∷ es) = e.0.solver_id ∷ ids es

-- The entries under their ids, and the ids with their owner.
abbrev pub tagged : {F : Type 0} → List (Entry F) → Dict (Entry F)
tagged [] = []
tagged (e ∷ es) = (e.0.solver_id, e) ∷ tagged es

abbrev pub owned : {F : Type 0} → String → List (Entry F) → Dict String
owned pack [] = []
owned pack (e ∷ es) = (e.0.solver_id, pack) ∷ owned pack es

module _ {F : Type 0} ⦃o : FloatOps F⦄ (pack : String) (r : SolverRegistry F)
    (owner_of : Dict String) where
  -- The registry and the owners with these entries behind what was there.
  abbrev pub with_entries : List (Entry F) → SolverRegistry F
  with_entries es = record r { solvers = r.solvers ++ tagged es }

  abbrev pub with_owners : List (Entry F) → Dict String
  with_owners es = owner_of ++ owned pack es

  abbrev pub IsNew : Entry F → Type 0
  IsNew e = (lookup e.0.solver_id r.solvers ≡ none) × (lookup e.0.solver_id owner_of ≡ none)

  -- What a replay that had written `before` has written at its end.
  pub record Landed (before es : List (Entry F)) (res : Replayed F) : Type 0 where
    pub done : List (Entry F)
    pub rest : List (Entry F)
    pub split : es ≡ done ++ rest
    pub registry_eq : res.registry ≡ with_entries (before ++ done)
    pub owners_eq : res.owner_of ≡ with_owners (before ++ done)
    pub ids_eq : res.registered ≡ ids (before ++ done)
    pub all_new : All IsNew (before ++ done)
    pub finished : (res.failure ≡ none) ↔ (rest ≡ [])

  no_entries : with_entries [] ≡ r
  no_entries = ap (λ x. record r { solvers = x }) (append-nil r.solvers)

  rollback_ids-with :
      (es : List (Entry F))
      → All IsNew es
      → rollback_ids (ids es) (with_entries es) (with_owners es) ≡ (r, owner_of)
  unfolding rollback_ids rollback_registration
  rollback_ids-with [] h = λ i. (no_entries i, append-nil owner_of i)
  rollback_ids-with (e ∷ es) h =
      ap₂ (λ x y. rollback_ids (ids es) (record r { solvers = x }) y)
        (erase-append e.0.solver_id e r.solvers (tagged es) h.0.0)
        (erase-append e.0.solver_id pack owner_of (owned pack es) h.0.1)
      ∙ rollback_ids-with es h.1

  tagged-snoc :
      (es : List (Entry F)) (e : Entry F)
      → tagged (es ++ e ∷ []) ≡ tagged es ++ (e.0.solver_id, e) ∷ []
  tagged-snoc [] e = refl
  tagged-snoc (x ∷ es) e = ap (◌∷◌ (x.0.solver_id, x)) (tagged-snoc es e)

  owned-snoc :
      (es : List (Entry F)) (e : Entry F)
      → owned pack (es ++ e ∷ []) ≡ owned pack es ++ (e.0.solver_id, pack) ∷ []
  owned-snoc [] e = refl
  owned-snoc (x ∷ es) e = ap (◌∷◌ (x.0.solver_id, pack)) (owned-snoc es e)

  ids-snoc : (es : List (Entry F)) (e : Entry F) → ids (es ++ e ∷ []) ≡ ids es ++ e.0.solver_id ∷ []
  ids-snoc [] e = refl
  ids-snoc (x ∷ es) e = ap (◌∷◌ x.0.solver_id) (ids-snoc es e)

  All-snoc : (es : List (Entry F)) (e : Entry F) → All IsNew es → IsNew e → All IsNew (es ++ e ∷ [])
  All-snoc [] e a h = (h, tt)
  All-snoc (x ∷ es) e a h = (a.0, All-snoc es e a.1 h)

  owned-none :
      (k : String) (es : List (Entry F))
      → lookup k (tagged es) ≡ none
      → lookup k (owned pack es) ≡ none
  unfolding lookup
  owned-none k [] h = refl
  owned-none k (e ∷ es) h = ground (arith, owned-none k es)

  -- An id that `register` takes is new to the base, and the owners have it neither.
  accepted_unlisted :
      (e : Entry F) (before : List (Entry F))
      → lookup e.0.solver_id owner_of ≡ none
      → (register e.0 e.1 (with_entries before)).0 ≡ ok tt
      → IsNew e × (lookup e.0.solver_id (with_owners before) ≡ none)
  accepted_unlisted e before h acc =
      let fresh = ((register-ok_iff e.0 e.1 (with_entries before)).0 acc).fresh_id in
      ground (
        arith,
        fresh,
        lookup-append e.0.solver_id r.solvers (tagged before),
        lookup-append e.0.solver_id owner_of (owned pack before),
        owned-none e.0.solver_id before,
      )

  -- The variables after one accepted registration.
  step_registry :
      (e : Entry F) (before : List (Entry F))
      → (register e.0 e.1 (with_entries before)).0 ≡ ok tt
      → (register e.0 e.1 (with_entries before)).1 ≡ with_entries (before ++ e ∷ [])
  step_registry e before acc =
      let fresh = ((register-ok_iff e.0 e.1 (with_entries before)).0 acc).fresh_id in
      register-ok e.0 e.1 (with_entries before) acc
      ∙ ap (λ x. record r { solvers = x })
          (insert_new e.0.solver_id e (r.solvers ++ tagged before) fresh
            ∙ append_assoc r.solvers (tagged before) ((e.0.solver_id, e) ∷ [])
            ∙ ap (◌++◌ r.solvers) (sym (tagged-snoc before e)))

  step_owners :
      (e : Entry F) (before : List (Entry F))
      → lookup e.0.solver_id (with_owners before) ≡ none
      → insert e.0.solver_id pack (with_owners before) ≡ with_owners (before ++ e ∷ [])
  step_owners e before h =
      insert_new e.0.solver_id pack (with_owners before) h
      ∙ append_assoc owner_of (owned pack before) ((e.0.solver_id, pack) ∷ [])
      ∙ ap (◌++◌ owner_of) (sym (owned-snoc before e))

  -- The rest of a replay, seen from one entry earlier.
  Landed-cons :
      (e : Entry F) (es before : List (Entry F)) (res : Replayed F)
      → Landed (before ++ e ∷ []) es res
      → Landed before (e ∷ es) res
  Landed-cons e es before res l =
      let shift = append_assoc before (e ∷ []) l.done in
      record {
        done = e ∷ l.done;
        rest = l.rest;
        split = ap (◌∷◌ e) l.split;
        registry_eq = l.registry_eq ∙ ap with_entries shift;
        owners_eq = l.owners_eq ∙ ap with_owners shift;
        ids_eq = l.ids_eq ∙ ap ids shift;
        all_new = subst (All IsNew) shift l.all_new;
        finished = l.finished;
      }

  Landed-replay :
      (es before : List (Entry F))
      → All IsNew before
      → All (λ e. lookup e.0.solver_id owner_of ≡ none) es
      → Landed before es (replay pack es (with_entries before) (with_owners before) (ids before))
  unfolding replay
  Landed-replay [] before a h = record {
    done = [];
    rest = [];
    split = refl;
    registry_eq = rw append-nil;
    owners_eq = rw append-nil;
    ids_eq = rw append-nil;
    all_new = rw append-nil a;
    finished = (λ _. refl, λ _. refl);
  }
  Landed-replay (e ∷ es) before a h =
      elim (Result-cases (register e.0 e.1 (with_entries before)).0) [
        | inr (x, refused) ↦
            rw (refused, replay)
              (record {
                done = [];
                rest = e ∷ es;
                split = refl;
                registry_eq =
                    register-err e.0 e.1 (with_entries before) refused
                    ∙ ap with_entries (sym (append-nil before));
                owners_eq = rw append-nil;
                ids_eq = rw append-nil;
                all_new = rw append-nil a;
                finished = (λ p. cc, λ p. cc);
              })
        | inl (_, acc) ↦
            let fresh = accepted_unlisted e before h.0 acc in
            let same : replay pack (e ∷ es) (with_entries before) (with_owners before) (ids before)
                ≡ replay pack es (with_entries (before ++ e ∷ [])) (with_owners (before ++ e ∷ []))
                    (ids (before ++ e ∷ [])) =
              rw (acc, replay)
                (cc
                  (step_registry e before acc, step_owners e before fresh.1, ids-snoc before e)) in
            rw same (
              Landed-cons e es before
                (replay pack es (with_entries (before ++ e ∷ [])) (with_owners (before ++ e ∷ []))
                  (ids (before ++ e ∷ [])))
                (Landed-replay es (before ++ e ∷ []) (All-snoc before e a fresh.0) h.1))
      ]

  -- A whole replay.
  pub replay-Landed :
      (es : List (Entry F))
      → All (λ e. lookup e.0.solver_id owner_of ≡ none) es
      → Landed [] es (replay pack es r owner_of [])
  replay-Landed es h =
      subst₂ (λ x y. Landed [] es (replay pack es x y [])) no_entries (append-nil owner_of)
        (Landed-replay es [] tt h)

  -- The rollback of the registrations of a replay, however far it got, gives back both maps.
  pub rollback_ids-replay :
      (es : List (Entry F))
      → All (λ e. lookup e.0.solver_id owner_of ≡ none) es
      → let res = replay pack es r owner_of [] in
        rollback_ids res.registered res.registry res.owner_of ≡ (r, owner_of)
  rollback_ids-replay es h =
      let l = replay-Landed es h in
      rw (l.registry_eq, l.owners_eq, l.ids_eq) (rollback_ids-with l.done l.all_new)

-- The rollback of port declarations that stand behind a table without their names.
pub rollback_ports-entries :
    {F : Type 0} ⦃o : FloatOps F⦄ (ds : List PortDecl) (base : Dict PortDecl) (s : SolverRegistry F)
    → All (λ d. lookup d.name base ≡ none) ds
    → rollback_ports ds (record s { ports = base ++ entries_of ds }) ≡ record s { ports = base }
unfolding rollback_ports rollback_port_decl
rollback_ports-entries [] base s a = ap (λ x. record s { ports = x }) (append-nil base)
rollback_ports-entries (d ∷ ds) base s a =
    ap (λ x. rollback_ports ds (record s { ports = x }))
      (erase-append d.name d base (entries_of ds) a.0)
    ∙ rollback_ports-entries ds base s a.1
