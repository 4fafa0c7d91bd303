-- ===== src/Fluids/Network/Solve/Standing.antt =====
-- The steps of a loop over unknown flows and over fixed ones (python/feldspar/fluids/network.py).
use feldspar.Prelude.{
  ℕ, ◌+◌, String, ◌≡◌, refl, ap, Bool, true, false, not, none, some, List, [], ◌∷◌, keep, All,
  arith,
}
use feldspar.Prelude.Float.{FloatOps}
use feldspar.Fluids.Network.Edges.{Edge, is_unknown}
use feldspar.Fluids.Network.Ends.{get_elem?}
use feldspar.Fluids.Network.Cycles.{Sign}
use feldspar.Fluids.Network.Cycles.Circulation.{ins, outs}
use feldspar.Fluids.Network.Seed.Balance.{shape}

-- The flow of the edge is an unknown.
abbrev pub unknown_at : {F : Type 0} → List (Edge F) → ℕ → Bool
unknown_at edges i = elim (get_elem? edges i) [ none ↦ false | some e ↦ is_unknown e ]

-- The steps of a loop over unknown flows, and those over fixed ones.
abbrev pub moving : {F : Type 0} → List (Edge F) → List (ℕ × Sign) → List (ℕ × Sign)
moving edges loop = keep (λ step. unknown_at edges step.0) loop

abbrev pub standing : {F : Type 0} → List (Edge F) → List (ℕ × Sign) → List (ℕ × Sign)
standing edges loop = keep (λ step. not (unknown_at edges step.0)) loop

-- No fixed flow lies on the loop.
abbrev pub IsFree : {F : Type 0} → List (Edge F) → List (ℕ × Sign) → Type 0
IsFree edges = All (λ step. unknown_at edges step.0 ≡ true)

pub standing-IsFree :
    {F : Type 0} (edges : List (Edge F)) (loop : List (ℕ × Sign))
    → IsFree edges loop
    → standing edges loop ≡ []
standing-IsFree edges [] h = refl
standing-IsFree edges (step ∷ loop) (u, h) = rw u (standing-IsFree edges loop h)

pub ins-split :
    {F : Type 0} (edges : List (Edge F)) (v : String) (loop : List (ℕ × Sign))
    → ins edges v (moving edges loop) + ins edges v (standing edges loop) ≡ ins edges v loop
ins-split edges v [] = omega arith
ins-split edges v ((i, s) ∷ loop) = ground (arith, ins-split edges v loop)

pub outs-split :
    {F : Type 0} (edges : List (Edge F)) (v : String) (loop : List (ℕ × Sign))
    → outs edges v (moving edges loop) + outs edges v (standing edges loop) ≡ outs edges v loop
outs-split edges v [] = omega arith
outs-split edges v ((i, s) ∷ loop) = ground (arith, outs-split edges v loop)

pub moving-unknown :
    {F : Type 0} (edges : List (Edge F)) (i : ℕ) (s : Sign) (loop : List (ℕ × Sign))
    → unknown_at edges i ≡ true
    → moving edges ((i, s) ∷ loop) ≡ (i, s) ∷ moving edges loop
moving-unknown edges i s loop h = rw h refl

pub moving-fixed :
    {F : Type 0} (edges : List (Edge F)) (i : ℕ) (s : Sign) (loop : List (ℕ × Sign))
    → unknown_at edges i ≡ false
    → moving edges ((i, s) ∷ loop) ≡ moving edges loop
moving-fixed edges i s loop h = rw h refl

pub unknown_shape :
    {F : Type 0} ⦃o : FloatOps F⦄ (base : List (Edge F)) (i : ℕ) (b e : Edge F)
    → get_elem? base i ≡ some b
    → shape b ≡ shape e
    → unknown_at base i ≡ is_unknown e
unfolding is_unknown
unknown_shape base i b e h k = rw (h, unknown_at) (ap is_unknown k)
