-- ===== src/Fluids/Network/Paths/Trace.antt =====
-- The path that `find_path_edges` of python/feldspar/fluids/network.py follows back from its goal
-- through the growth of its search.
use feldspar.Prelude.{
  ℕ, zero, suc, ◌<◌, String, ◌≡◌, refl, true, false, some, none, List, [], ◌∷◌, ◌++◌, ok, ◌==◌,
  elem, eq_iff, length, length-append, arith, Bool-cases, inl, inr, subst, sym, ◌∙◌,
}
use mathlib.Core.List.{reverse, reverse-cons}
use feldspar.Prelude.Dict.{Dict, lookup, insert, insert_new, lookup-insert, lookup-insert_self}
use feldspar.Fluids.Network.Edges.{Edge, get_item}
use feldspar.Fluids.Network.Ends.{get_elem?}
use feldspar.Fluids.Network.Search.{Growth, names, IsGrowth}
use feldspar.Fluids.Network.Cycles.{plus, minus}
use feldspar.Fluids.Network.Paths.{Step, Arrival, trace_back}

module _ {F : Type 0} where
  -- Where a step starts, and where it ends.
  abbrev pub tail : Step F → String
  tail (e, plus) = e.a
  tail (e, minus) = e.b

  abbrev pub head : Step F → String
  head (e, plus) = e.b
  head (e, minus) = e.a

  abbrev pub IsIn : Edge F → List (Edge F) → Type 0
  IsIn e edges = (i : ℕ) × (get_elem? edges i ≡ some e)

  -- A step over an edge of the network, from `p` to `n`.
  abbrev pub Leads : List (Edge F) → Step F → String → String → Type 0
  Leads edges step p n = IsIn step.0 edges × (tail step ≡ p) × (head step ≡ n)

  -- A path over edges of the network.
  abbrev pub IsPath : List (Edge F) → String → String → List (Step F) → Type 0
  IsPath edges u v [] = u ≡ v
  IsPath edges u v (step ∷ path) =
      IsIn step.0 edges × (tail step ≡ u) × IsPath edges (head step) v path

  IsPath-snoc :
      (edges : List (Edge F)) (u v : String) (path : List (Step F)) (step : Step F)
      → IsPath edges u v path
      → IsIn step.0 edges
      → tail step ≡ v
      → IsPath edges u (head step) (path ++ step ∷ [])
  IsPath-snoc edges u v [] step p i h = (i, h ∙ sym p, refl)
  IsPath-snoc edges u v (other ∷ path) step p i h =
      (p.0, p.1, IsPath-snoc edges (head other) v path step p.2 i h)

  -- The dict of parents that a growth leaves.
  abbrev pub parent_of : List (Growth (Step F)) → Dict (Arrival F)
  parent_of [] = []
  parent_of (g ∷ log) = insert g.node (g.parent, g.edge) (parent_of log)

  abbrev Agrees : Dict (Arrival F) → List (Growth (Step F)) → Type 0
  Agrees d [] = Unit
  Agrees d (g ∷ log) = (lookup g.node d ≡ some (g.parent, g.edge)) × Agrees d log

  lookup-parent_of :
      (start j : String) (log : List (Growth (Step F)))
      → elem j (names start log) ≡ false
      → lookup j (parent_of log) ≡ none
  unfolding lookup
  lookup-parent_of start j [] h = refl
  lookup-parent_of start j (g ∷ log) h = ground (
    arith,
    lookup-insert g.node j (g.parent, g.edge) (parent_of log),
    lookup-parent_of start j log,
  )

  trace_back-step :
      (start : String) (d : Dict (Arrival F)) (fuel : ℕ) (cur p : String) (step : Step F)
      (path : List (Step F))
      → cur == start ≡ false
      → lookup cur d ≡ some (p, step)
      → trace_back d start fuel p ≡ ok path
      → trace_back d start (suc fuel) cur ≡ ok (step ∷ path)
  unfolding trace_back get_item
  trace_back-step start d fuel cur p step path h at back = ground arith

  Agrees-insert :
      (start k : String) (entry : Arrival F) (d : Dict (Arrival F)) (log : List (Growth (Step F)))
      → elem k (names start log) ≡ false
      → Agrees d log
      → Agrees (insert k entry d) log
  Agrees-insert start k entry d [] h a = tt
  Agrees-insert start k entry d (g ∷ log) h a = (
    ground (arith, lookup-insert k g.node entry d, eq_iff k g.node, eq_iff g.node k),
    Agrees-insert start k entry d log (ground arith) a.1,
  )

module _ {F : Type 0} (edges : List (Edge F)) (start : String) where
  pub length-parent_of :
      (log : List (Growth (Step F)))
      → IsGrowth (Leads edges) start log
      → length (parent_of log) ≡ length log
  length-parent_of [] h = refl
  length-parent_of (g ∷ log) h =
      rw
        (insert_new g.node (g.parent, g.edge) (parent_of log)
          (lookup-parent_of start g.node log h.0))
        (omega (
          arith,
          length-append (parent_of log) ((g.node, (g.parent, g.edge)) ∷ []),
          length-parent_of log h.3,
        ))

  pub parent_of-Agrees :
      (log : List (Growth (Step F))) → IsGrowth (Leads edges) start log → Agrees (parent_of log) log
  parent_of-Agrees [] h = tt
  parent_of-Agrees (g ∷ log) h = (
    lookup-insert_self g.node (g.parent, g.edge) (parent_of log),
    Agrees-insert start g.node (g.parent, g.edge) (parent_of log) log h.0
        (parent_of-Agrees log h.3),
  )

  pub trace_back-IsPath :
      (d : Dict (Arrival F)) (log : List (Growth (Step F))) (fuel : ℕ) (cur : String)
      → Agrees d log
      → IsGrowth (Leads edges) start log
      → length log < fuel
      → elem cur (names start log) ≡ true
      → (path : List (Step F)) × (trace_back d start fuel cur ≡ ok path)
        × IsPath edges start cur (reverse path)
  unfolding trace_back get_item
  trace_back-IsPath d log zero cur a g l m = absurd (omega arith)
  trace_back-IsPath d [] (suc fuel) cur a g l m =
      let same : start ≡ cur = (eq_iff start cur).0 (ground arith) in
      ([], rw ((eq_iff cur start).1 (sym same), trace_back) refl, same)
  trace_back-IsPath d (x ∷ log) (suc fuel) cur a g l m = elim (Bool-cases (cur == start)) [
    | inl same ↦ ([], rw (same, trace_back) refl, sym ((eq_iff cur start).0 same))
    | inr other ↦ elim (Bool-cases (x.node == cur)) [
      | inr older ↦ trace_back-IsPath d log (suc fuel) cur a.1 g.3 (omega arith) (ground arith)
      | inl here ↦
          let same = (eq_iff x.node cur).0 here in
          let at = subst (λ k. lookup k d ≡ some (x.parent, x.edge)) same a.0 in
          let (path, back, is) = trace_back-IsPath d log fuel x.parent a.1 g.3 (omega arith) g.1 in
          (
            x.edge ∷ path,
            trace_back-step start d fuel cur x.parent x.edge path other at back,
            subst (λ v. IsPath edges start v (reverse (x.edge ∷ path))) (g.2.2 ∙ same)
                (rw (reverse-cons x.edge path)
                  (IsPath-snoc edges start x.parent (reverse path) x.edge is g.2.0 g.2.1)),
          )
    ]
  ]
