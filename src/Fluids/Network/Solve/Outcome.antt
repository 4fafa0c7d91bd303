-- ===== src/Fluids/Network/Solve/Outcome.antt =====
-- What `_hardy_cross_solve` of python/feldspar/fluids/network.py gives on a network whose edges end at
-- its nodes, on exact sums.
use feldspar.Core.{payload_feature_violation}
use feldspar.Prelude.{
  length, ℕ, suc, ◌≤◌, String, ◌≡◌, refl, sym, ap, subst, ◌∙◌, true, false, some, List, [], ◌∷◌,
  ◌⊎◌, inl, inr, elem, All, arith, if◌then◌else◌, map, Result, ok, err, ◌>>=◌, bind_step, ok_inj,
}
use feldspar.Prelude.Float.{FloatOps, ExactSums}
use feldspar.Solve.Errors.{SolveError}
use feldspar.Fluids.Network.Edges.{Edge, Stop, error, Constants, is_unknown}
use feldspar.Fluids.Network.Ends.{IsClosed}
use feldspar.Fluids.Network.Losses.{Formulas}
use feldspar.Fluids.Network.Tree.{flownet_port, SpanningTree, spanning_tree, refuse}
use feldspar.Fluids.Network.Tree.Spans.{spanning_tree-IsConnected, spanning_tree-Spans}
use feldspar.Fluids.Network.Cycles.{Sign, build_cycle_basis}
use feldspar.Fluids.Network.Cycles.Basis.{build_cycle_basis-IsLoop}
use feldspar.Fluids.Network.Seed.{seed_flows}
use feldspar.Fluids.Network.Seed.Balance.{balance, shapes, shape, entries_at-shapes}
use feldspar.Fluids.Network.Seed.Filling.{KeepsFixed}
use feldspar.Fluids.Network.Seed.Continuity.{degree, Settled}
use feldspar.Fluids.Network.Seed.Settled.{IsSeeded, seed_flows-IsSeeded}
use feldspar.Fluids.Network.Solve.{converge, solve_edges, hc_max_iter}
use feldspar.Fluids.Network.Solve.Standing.{IsFree}
use feldspar.Fluids.Network.Solve.Conservation.{
  IsReported, Reports, Reports-bind, Reports_of_Gives, Corrected, converge-Corrected,
}

-- The edges without their unknown flows.
abbrev pub known_part : {F : Type 0} ⦃o : FloatOps F⦄ → Edge F → Edge F
known_part e = if is_unknown e then shape e else e

some_inj : {A : Type 0} {a b : A} → some a ≡ some b → a ≡ b
some_inj h = cc

known_part-cons :
    {F : Type 0} ⦃o : FloatOps F⦄ (d e : Edge F)
    → shape d ≡ shape e
    → (is_unknown e ≡ false → d ≡ e)
    → known_part d ≡ known_part e
unfolding is_unknown
known_part-cons d e h k = ground arith

map-known_part :
    {F : Type 0} ⦃o : FloatOps F⦄ (edges es : List (Edge F))
    → shapes es ≡ shapes edges
    → KeepsFixed edges es
    → map known_part es ≡ map known_part edges
map-known_part [] [] h k = refl
map-known_part [] (d ∷ es) h k = cc
map-known_part (e ∷ edges) [] h k = cc
map-known_part (e ∷ edges) (d ∷ es) h k =
    let same = known_part-cons d e (ground arith) (λ u. some_inj (k 0 e refl u)) in
    let rest = map-known_part edges es (ground arith) (λ i f at u. k (suc i) f at u) in
    (λ i. same i ∷ rest i)

refused_bind :
    {A B F : Type 0} (feature : String) (m : Result A (Stop F)) (f : A → Result B (Stop F))
    → m ≡ refuse feature
    → (stop : Stop F) × ((m >>= f) ≡ err stop) × IsReported stop
unfolding refuse
refused_bind feature m f h = (
  error (SolveError.out_of_domain (payload_feature_violation flownet_port feature)),
  rw h refl,
  tt,
)

module _ {F : Type 0} ⦃o : FloatOps F⦄ (x : ExactSums F o) (c : Constants F) (g : Formulas F)
    (tol : o.le (o.abs o.zero) c.conservation_tol ≡ true) (root : String) (others : List String)
    (edges : List (Edge F)) (closed : IsClosed (root ∷ others) edges) where
  -- No fixed flow lies on a loop of the cycle basis.
  abbrev pub IsCalm : Type 0
  IsCalm =
      (tree : SpanningTree) (loops : List (List (ℕ × Sign)))
      → spanning_tree (root ∷ others) edges ≡ ok tree
      → build_cycle_basis edges tree (root ∷ others) ≡ ok loops
      → All (IsFree edges) loops

  -- A solved network.
  pub record IsSolved (es : List (Edge F)) : Type 0 where
    pub shaped : shapes es ≡ shapes edges
    pub fixed : KeepsFixed edges es
    pub settled :
        IsCalm → (v : String) → elem v (root ∷ others) ≡ true → Settled x c tol (shapes edges) es v

  IsSolved-of :
      (seeded es : List (Edge F))
      → IsSeeded x c tol (root ∷ others) edges seeded
      → Corrected x c g edges IsCalm seeded es
      → IsSolved es
  IsSolved-of seeded es s r = record {
    shaped = r.shaped;
    fixed = λ i e at u. r.fixed i e (s.fixed i e at u) u;
    settled = λ k v m two.
        subst (λ b. o.le (o.abs b) c.conservation_tol ≡ true) (sym (r.conserved k v))
          (s.settled v m two);
  }

  solve_tree :
      (tree : SpanningTree)
      → spanning_tree (root ∷ others) edges ≡ ok tree
      → Reports (solve_edges c g (root ∷ others) edges) IsSolved
  unfolding solve_edges
  solve_tree tree h =
      let (loops, basis, all, _) = build_cycle_basis-IsLoop root others edges tree closed h in
      let spans = spanning_tree-Spans root others edges tree closed h in
      subst (λ r. Reports r IsSolved) (sym (bind_step _ _ tree h ∙ bind_step _ _ loops basis))
        (Reports-bind (seed_flows c (root ∷ others) edges tree)
          (λ seeded. converge c g hc_max_iter loops seeded o.zero)
          (IsSeeded x c tol (root ∷ others) edges) IsSolved
          (Reports_of_Gives (seed_flows c (root ∷ others) edges tree)
            (IsSeeded x c tol (root ∷ others) edges)
            (seed_flows-IsSeeded x c tol (root ∷ others) edges tree closed spans))
          (λ seeded s.
            elim (converge-Corrected x c g edges IsCalm hc_max_iter loops seeded o.zero s.shaped all
              (λ k. k tree loops h basis)) [
                | inl failed ↦ inl failed
                | inr (es, e, r) ↦ inr (es, e, IsSolved-of seeded es s r)
              ]))

  solve_edges-IsSolved : Reports (solve_edges c g (root ∷ others) edges) IsSolved
  unfolding solve_edges
  solve_edges-IsSolved = elim (spanning_tree-IsConnected root others edges closed) [
    | inl (tree, h, _, _) ↦ solve_tree tree h
    | inr (h, _) ↦ inl (refused_bind "disconnected_network" _ _ h)
  ]

module _ {F : Type 0} ⦃o : FloatOps F⦄ (x : ExactSums F o) (c : Constants F) (g : Formulas F)
    (tol : o.le (o.abs o.zero) c.conservation_tol ≡ true) (root : String) (others : List String)
    (edges : List (Edge F)) (closed : IsClosed (root ∷ others) edges) where
  -- On exact sums and with a conservation tolerance that allows zero, the solve of a network with a
  -- node, whose edges all end at its nodes, ends with an error value, with an arithmetic error (a
  -- ZeroDivisionError or an OverflowError), or with edges, never with a missing key or index or
  -- short of fuel, and the edges are the given ones in all but the flows of pipes, orifices and
  -- segments.
  pub solve_edges-known_part :
      ((stop : Stop F) × (solve_edges c g (root ∷ others) edges ≡ err stop) × IsReported stop)
      ⊎ ((es : List (Edge F)) × (solve_edges c g (root ∷ others) edges ≡ ok es)
          × (map known_part es ≡ map known_part edges))
  solve_edges-known_part = elim (solve_edges-IsSolved x c g tol root others edges closed) [
    | inl failed ↦ inl failed
    | inr (es, e, s) ↦ inr (es, e, map-known_part edges es s.shaped s.fixed)
  ]

  -- On exact sums, a network whose edges all end at its nodes, with no fixed flow on a loop of its
  -- cycle basis: if the solve gives edges, then at each node with two or more edge ends the flows
  -- that enter and the flows that leave differ by no more than the conservation tolerance, which is
  -- taken to allow zero.
  pub solve_edges-balance :
      (tree : SpanningTree) (loops : List (List (ℕ × Sign))) (es : List (Edge F)) (v : String)
      → spanning_tree (root ∷ others) edges ≡ ok tree
      → build_cycle_basis edges tree (root ∷ others) ≡ ok loops
      → All (IsFree edges) loops
      → solve_edges c g (root ∷ others) edges ≡ ok es
      → elem v (root ∷ others) ≡ true
      → 2 ≤ degree v edges
      → o.le (o.abs (balance v es)) c.conservation_tol ≡ true
  solve_edges-balance tree loops es v is_tree is_basis free solved m two =
      elim (solve_edges-IsSolved x c g tol root others edges closed) [
        | inl (stop, failed, _) ↦ absurd (cc)
        | inr (es', e, s) ↦
            subst (λ t. o.le (o.abs (balance v t)) c.conservation_tol ≡ true) (ok_inj e solved)
              (s.settled
                (λ t l h k.
                  subst (All (IsFree edges))
                    (ok_inj is_basis
                      (ap (λ u. build_cycle_basis edges u (root ∷ others)) (ok_inj is_tree h) ∙ k))
                    free)
                v m (subst (λ d. 2 ≤ d) (ap length (sym (entries_at-shapes v 0 edges))) two))
      ]
