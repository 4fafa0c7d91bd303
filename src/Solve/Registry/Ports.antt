-- ===== src/Solve/Registry/Ports.antt =====
-- `declare_ports` (python/feldspar/solve/registry.py): which lists it accepts, and what it writes.
use feldspar.Prelude.{
  ◌≡◌, ◌≢◌, refl, true, false, none, List, [], ◌∷◌, ◌++◌, arith, ok, err, inl, inr, Option-cases,
  Bool-cases, sym, All, ◌↔◌, ap, ◌∙◌,
}
use mathlib.Core.List.{append_assoc, append-nil}
use feldspar.Prelude.Dict.{Dict, lookup, insert, insert_new, lookup-insert_self, lookup-insert_ne}
use feldspar.Core.{PortDecl}
use feldspar.Solve.Errors.{RegistryError}
use feldspar.Solve.Registry.{
  SolverRegistry, declare_loop, declare_ports, kind_of, redeclaration_error, has_known_kind,
}

abbrev pub DistinctNames : List PortDecl → Type 0
DistinctNames [] = Unit
DistinctNames (d ∷ ds) = All (λ e. d.name ≢ e.name) ds × DistinctNames ds

-- New names with known kinds, no name twice.
pub record Declarable (decls : List PortDecl) (ports : Dict PortDecl) : Type 0 where
  pub known_kinds : All (λ d. has_known_kind d ≡ true) decls
  pub new_names : All (λ d. lookup d.name ports ≡ none) decls
  pub distinct : DistinctNames decls

abbrev pub entries_of : List PortDecl → Dict PortDecl
entries_of [] = []
entries_of (d ∷ ds) = (d.name, d) ∷ entries_of ds

new_names-insert :
    (d : PortDecl) (ds : List PortDecl) (ports : Dict PortDecl)
    → All (λ e. d.name ≢ e.name) ds
    → All (λ e. lookup e.name ports ≡ none) ds
    → All (λ e. lookup e.name (insert d.name d ports) ≡ none) ds
new_names-insert d [] ports a b = tt
new_names-insert d (e ∷ ds) ports a b =
    (lookup-insert_ne d.name e.name d ports a.0 ∙ b.0, new_names-insert d ds ports a.1 b.1)

insert-new_names :
    (d : PortDecl) (ds : List PortDecl) (ports : Dict PortDecl)
    → lookup d.name ports ≡ none
    → All (λ e. lookup e.name (insert d.name d ports) ≡ none) ds
    → All (λ e. d.name ≢ e.name) ds × All (λ e. lookup e.name ports ≡ none) ds
insert-new_names d [] ports h a = (tt, tt)
insert-new_names d (e ∷ ds) ports h a =
    let rest = insert-new_names d ds ports h a.1 in
    let ne : d.name ≢ e.name = λ p.
      cc (lookup-insert_self d.name d ports, ap (λ k. lookup k (insert d.name d ports)) p, a.0) in
    ((ne, rest.0), (sym (lookup-insert_ne d.name e.name d ports ne) ∙ a.0, rest.1))

-- A declarable list is written whole, in order, behind the table.
pub declare_loop-ok :
    (decls : List PortDecl) (ports : Dict PortDecl)
    → Declarable decls ports
    → declare_loop decls ports ≡ (ok tt, ports ++ entries_of decls)
unfolding declare_loop
declare_loop-ok [] ports h = rw append-nil
declare_loop-ok (d ∷ ds) ports h =
    let rest : Declarable ds (insert d.name d ports) = record {
      known_kinds = h.known_kinds.1;
      new_names = new_names-insert d ds ports h.distinct.0 h.new_names.1;
      distinct = h.distinct.1;
    } in
    rw (h.known_kinds.0, h.new_names.0, declare_loop)
      (declare_loop-ok ds (insert d.name d ports) rest
        ∙ ap (λ t. (ok tt, t ++ entries_of ds)) (insert_new d.name d ports h.new_names.0)
        ∙ ap (λ t. (ok tt, t)) (append_assoc ports ((d.name, d) ∷ []) (entries_of ds)))

declare_loop-Declarable :
    (decls : List PortDecl) (ports : Dict PortDecl)
    → (declare_loop decls ports).0 ≡ ok tt
    → Declarable decls ports
unfolding declare_loop
declare_loop-Declarable [] ports h = record { known_kinds = tt; new_names = tt; distinct = tt }
declare_loop-Declarable (d ∷ ds) ports h = elim (Bool-cases (has_known_kind d)) [
  | inr bad ↦ cc (rw bad at h)
  | inl good ↦ elim (Option-cases (lookup d.name ports)) [
    | inr (x, e) ↦ cc (rw (good, e, declare_loop) at h)
    | inl e ↦
        let rest =
          declare_loop-Declarable ds (insert d.name d ports) (rw (good, e, declare_loop) at h) in
        let names = insert-new_names d ds ports e rest.new_names in
        record {
          known_kinds = (good, rest.known_kinds);
          new_names = (e, names.1);
          distinct = (names.0, rest.distinct);
        }
  ]
]

-- What a run of the loop has written, and whether it got to the end.
record Written (decls : List PortDecl) (ports : Dict PortDecl) : Type 0 where
  done : List PortDecl
  rest : List PortDecl
  split : decls ≡ done ++ rest
  wrote : (declare_loop decls ports).1 ≡ ports ++ entries_of done
  finished : ((declare_loop decls ports).0 ≡ ok tt) ↔ (rest ≡ [])

empty_prefix :
    (d : PortDecl) (ds : List PortDecl) (ports : Dict PortDecl) (e : RegistryError)
    → declare_loop (d ∷ ds) ports ≡ (err e, ports)
    → Written (d ∷ ds) ports
empty_prefix d ds ports e h = record {
  done = [];
  rest = d ∷ ds;
  split = refl;
  wrote = rw (h, append-nil);
  finished = rw h (λ p. cc, λ p. cc);
}

declare_loop-Written : (decls : List PortDecl) (ports : Dict PortDecl) → Written decls ports
unfolding declare_loop
declare_loop-Written [] ports = record {
  done = [];
  rest = [];
  split = refl;
  wrote = rw append-nil;
  finished = (λ _. refl, λ _. refl);
}
declare_loop-Written (d ∷ ds) ports = elim (Bool-cases (has_known_kind d)) [
  | inr bad ↦
      empty_prefix d ds ports (RegistryError.unknown_payload_kind d.name (kind_of d.rank)) (rw bad)
  | inl good ↦ elim (Option-cases (lookup d.name ports)) [
    | inr (x, e) ↦ empty_prefix d ds ports (redeclaration_error x d) (rw (good, e, declare_loop))
    | inl e ↦
        let ih = declare_loop-Written ds (insert d.name d ports) in
        let eq : declare_loop (d ∷ ds) ports ≡ declare_loop ds (insert d.name d ports) =
          rw (good, e, declare_loop) in
        record {
          done = d ∷ ih.done;
          rest = ih.rest;
          split = ap (◌∷◌ d) ih.split;
          wrote = rw eq (
              ih.wrote
              ∙ ap (λ t. t ++ entries_of ih.done) (insert_new d.name d ports e)
              ∙ append_assoc ports ((d.name, d) ∷ []) (entries_of ih.done));
          finished = rw eq ih.finished;
        }
  ]
]

module _ {F : Type 0} where
  -- Declaring a list of ports answers ok exactly when the registry is open and the list is
  -- declarable: known payload kinds, names that the table does not have, no name twice.
  pub declare_ports-ok_iff :
      (decls : List PortDecl) (r : SolverRegistry F)
      → ((declare_ports decls r).0 ≡ ok tt) ↔ ((r.frozen ≡ false) × Declarable decls r.ports)
  unfolding declare_ports
  declare_ports-ok_iff decls r = elim (Bool-cases r.frozen) [
    | inl shut ↦ rw shut (λ h. cc, λ h. cc (h.0))
    | inr opened ↦ rw opened (
      λ h. (refl, declare_loop-Declarable decls r.ports h),
      λ h. ap (λ t. t.0) (declare_loop-ok decls r.ports h.1),
    )
  ]

  -- Whatever declaring a list of ports answers, what it writes is a prefix of the list appended to
  -- the table, and the answer is ok exactly when the registry is open and nothing of the list is
  -- left over.
  pub declare_ports-prefix :
      (decls : List PortDecl) (r : SolverRegistry F)
      → (done : List PortDecl) × (rest : List PortDecl) × (decls ≡ done ++ rest)
        × ((declare_ports decls r).1 ≡ record r { ports = r.ports ++ entries_of done })
        × (((declare_ports decls r).0 ≡ ok tt) ↔ ((r.frozen ≡ false) × (rest ≡ [])))
  unfolding declare_ports
  declare_ports-prefix decls r = elim (Bool-cases r.frozen) [
    | inl shut ↦ rw shut ([], decls, refl, rw append-nil (ground arith), (λ h. cc, λ h. cc (h.0)))
    | inr opened ↦
        let w = declare_loop-Written decls r.ports in
        (
          w.done,
          w.rest,
          w.split,
          rw (opened, w.wrote),
          rw opened (λ h. (refl, w.finished.0 h), λ h. w.finished.1 h.1),
        )
  ]
