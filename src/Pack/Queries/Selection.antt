-- ===== src/Pack/Queries/Selection.antt =====
-- The edges that `FluidsFlowImbalanceModel.estimate` of python/feldspar/pack/models.py selects by a
-- role.
use feldspar.Core.{Interval}
use feldspar.Fluids.Network.Edges.{get_item-some, ClaimTarget, Edge}
use feldspar.Prelude.Float.{FloatOps}
use feldspar.Prelude.{
  eq_iff, none, ℕ, suc, ◌≤◌, String, ◌≡◌, refl, Bool, true, false, not, List, [], ◌∷◌, ok, err,
  some, keep, length, all, arith, Bool-cases, inl, inr, leb, ◌&&◌, ◌==◌, if◌then◌else◌,
}
use feldspar.Prelude.Dict.{Dict, contains, lookup}
use feldspar.Prelude.Membership.{IsNodup}
use feldspar.Fluids.Network.Solve.{SolvedNetwork}
use feldspar.Pack.Queries.{
  flows_of, selected_edges, imbalance_of, query_flow_imbalance, role_edges, split, sort_texts,
  place_text, set_of, unclear_role,
}

length-place_text : (k : String) (ks : List String) → length (place_text k ks) ≡ suc (length ks)
unfolding place_text
length-place_text k [] = refl
length-place_text k (j ∷ ks) = ground (arith, length-place_text k ks)

length-sort_texts : (ks : List String) → length (sort_texts ks) ≡ length ks
unfolding sort_texts
length-sort_texts [] = refl
length-sort_texts (k ∷ ks) =
    omega (arith, length-place_text k (sort_texts ks), length-sort_texts ks)

set_of-IsNodup : (ks : List String) → IsNodup ks → set_of ks ≡ ks
unfolding set_of
set_of-IsNodup [] n = refl
set_of-IsNodup (k ∷ ks) n = rw (set_of-IsNodup ks n.1, n.0) refl

length-keep : {A : Type 0} (p : A → Bool) (xs : List A) → length (keep p xs) ≤ length xs
length-keep p [] = omega arith
length-keep p (x ∷ xs) = ground (arith, length-keep p xs)

keep-all : {A : Type 0} (p : A → Bool) (xs : List A) → all p xs ≡ true → keep p xs ≡ xs
keep-all p [] h = refl
keep-all p (x ∷ xs) h = ground (arith, keep-all p xs)

length-keep_some :
    {A : Type 0} (p : A → Bool) (xs : List A)
    → all p xs ≡ false
    → suc (length (keep p xs)) ≤ length xs
length-keep_some p [] h = ground arith
length-keep_some p (x ∷ xs) h = ground (arith, length-keep_some p xs, length-keep p xs)

-- The ids that a role names.
abbrev pub named : String → List String
named role = keep (λ part. not (part == "")) (split role ",")

module _ {F : Type 0} (network : SolvedNetwork F) where
  -- For a role that names no id twice: all of its ids are selected, in order, if they are two or
  -- more and each is that of an edge, and the role is refused otherwise.
  pub role_edges-named :
      (role : String)
      → IsNodup (named role)
      → role_edges network role ≡ (
          if leb 2 (length (named role)) && all (λ k. contains k network.by_id) (named role)
          then ok (sort_texts (named role))
          else err (unclear_role (some role)))
  unfolding role_edges
  role_edges-named role n =
      let known : String → Bool = λ k. contains k network.by_id in
      elim (Bool-cases (all known (named role))) [
        | inl every ↦
            rw
              (
                set_of-IsNodup (named role) n,
                keep-all known (named role) every,
                length-sort_texts (named role),
                every,
              )
              (ground arith)
        | inr missing ↦
            let short = length-keep_some known (named role) missing in
            rw (set_of-IsNodup (named role) n, length-sort_texts (keep known (named role)), missing)
              (ground arith)
      ]

  role_edges-repeated :
      (role e z : String) (edge : Edge F)
      → named role ≡ e ∷ e ∷ z ∷ []
      → lookup e network.by_id ≡ some edge
      → lookup z network.by_id ≡ none
      → role_edges network role ≡ ok (e ∷ e ∷ [])
  unfolding role_edges sort_texts place_text set_of
  role_edges-repeated role e z edge h known unknown =
      rw h (ground (arith, eq_iff e z, eq_iff z e, eq_iff e e, known, unknown))

module _ {F : Type 0} ⦃o : FloatOps F⦄ (from_nat : ℕ → F) (network : SolvedNetwork F) where
  selected_edges-role :
      (inputs : Dict (Interval F)) (target : ClaimTarget) (role : String) (ks : List String)
      → network.payload.claim_target ≡ some target
      → target.role ≡ some role
      → role_edges network role ≡ ok ks
      → selected_edges network inputs ≡ ok ks
  unfolding selected_edges
  selected_edges-role inputs target role ks t r h = rw (t, r) h

  flows_of-twice :
      (e : String) (edge : Edge F)
      → lookup e network.by_id ≡ some edge
      → flows_of from_nat network (e ∷ e ∷ []) ≡ ok (o.abs edge.flow ∷ o.abs edge.flow ∷ [])
  unfolding flows_of
  flows_of-twice e edge known = let it = get_item-some {F = F} e network.by_id known in ground arith

  -- For a claim target whose role names one edge twice and then an id that is no edge, the query
  -- does not refuse the role: its answer is that for this edge with itself.
  pub query_flow_imbalance-repeated :
      (inputs : Dict (Interval F)) (target : ClaimTarget) (role e z : String) (edge : Edge F)
      → network.payload.claim_target ≡ some target
      → target.role ≡ some role
      → named role ≡ e ∷ e ∷ z ∷ []
      → lookup e network.by_id ≡ some edge
      → lookup z network.by_id ≡ none
      → query_flow_imbalance from_nat network inputs
        ≡ imbalance_of from_nat network (e ∷ e ∷ []) (o.abs edge.flow ∷ o.abs edge.flow ∷ [])
  unfolding query_flow_imbalance
  query_flow_imbalance-repeated inputs target role e z edge t r h known unknown =
      rw
        (
          selected_edges-role inputs target role (e ∷ e ∷ []) t r
              (role_edges-repeated network role e z edge h known unknown),
          flows_of-twice e edge known,
        )
        refl
