-- ===== src/Fluids/Network/Cycles/Closing.antt =====
-- A chord of python/feldspar/fluids/network.py closes a loop with the paths from its ends.
use feldspar.Fluids.Network.Search.{names, Growth}
use feldspar.Prelude.Membership.{All-append}
use feldspar.Prelude.{
  subst₂, ℕ, ◌+◌, String, ◌≡◌, ◌≢◌, refl, sym, ap, subst, ◌∙◌, Bool, true, false, not, some, List,
  [], ◌∷◌, inl, inr, ◌==◌, eq_iff, elem, keep, All, arith, Bool-cases,
}
use feldspar.Fluids.Network.Edges.{Edge}
use feldspar.Fluids.Network.Ends.{get_elem?}
use feldspar.Fluids.Network.Tree.Grown.{Joins, IsGrown}
use feldspar.Fluids.Network.Cycles.{
  Sign, plus, minus, opposite, has_index, outside, reversed_steps, close_loop,
}
use feldspar.Fluids.Network.Cycles.Circulation.{
  IsLoop, step_sign, way_old, outs, way-IsInside, ins-reversed_steps, ins, outs-reversed_steps,
  enters, IsCirculation, bit, ins-append, IsInside, outs-append, HasEdges, way, fresh_edge, way_new,
}

outside_none :
    (p q : List (ℕ × Sign))
    → ((i : ℕ) → has_index i q ≡ true → has_index i p ≡ true)
    → outside p q ≡ []
outside_none p [] h = refl
outside_none p ((i, s) ∷ q) h = ground (arith, h i, outside_none p q (λ j m. ground (arith, h j)))

outside_skip :
    (i : ℕ) (s : Sign) (p q : List (ℕ × Sign))
    → has_index i q ≡ false
    → outside ((i, s) ∷ p) q ≡ outside p q
outside_skip i s p [] h = refl
outside_skip i s p ((j, t) ∷ q) h = ground (arith, outside_skip i s p q)

module _ {F : Type 0} (edges : List (Edge F)) (root : String) (v : String) where
  -- The step to a new node enters it and leaves its parent.
  step_enters :
      (x : Growth ℕ)
      → Joins edges x.edge x.parent x.node
      → x.parent ≢ x.node
      → (enters edges v x.edge (step_sign edges root x) ≡ bit (x.node == v))
        × (enters edges v x.edge (opposite (step_sign edges root x)) ≡ bit (x.parent == v))
  step_enters x (e, at, h) ne =
      ground (arith, eq_iff e.b x.node, eq_iff e.a x.node, eq_iff e.b x.parent, eq_iff e.a x.parent)

  abbrev Telescopes : List (ℕ × Sign) → List (ℕ × Sign) → String → String → Type 0
  Telescopes p q a b =
      ins edges v (outside q p) + outs edges v (outside p q) + bit (b == v)
      ≡ outs edges v (outside q p) + ins edges v (outside p q) + bit (a == v)

  Telescopes-grow :
      (x : Growth ℕ) (p q : List (ℕ × Sign)) (b : String)
      → Joins edges x.edge x.parent x.node
      → x.parent ≢ x.node
      → has_index x.edge q ≡ false
      → Telescopes p q x.parent b
      → Telescopes ((x.edge, step_sign edges root x) ∷ p) q x.node b
  Telescopes-grow x p q b j ne fresh h =
      let (enter, leave) = step_enters x j ne in
      rw (outside_skip x.edge (step_sign edges root x) p q fresh, fresh)
        (omega (arith, h, enter, leave))

  Telescopes-flip : (p q : List (ℕ × Sign)) (a b : String) → Telescopes p q a b → Telescopes q p b a
  Telescopes-flip p q a b h = omega (arith, h)

  Telescopes-self : (p : List (ℕ × Sign)) (a : String) → Telescopes p p a a
  Telescopes-self p a = rw (outside_none p p (λ i m. m)) refl

  chord_enters :
      (i : ℕ) (e : Edge F)
      → get_elem? edges i ≡ some e
      → (enters edges v i plus ≡ bit (e.b == v)) × (enters edges v i minus ≡ bit (e.a == v))
  chord_enters i e at = ground arith

  way-Telescopes :
      (log : List (Growth ℕ)) (a b : String)
      → IsGrown edges root log
      → elem a (names root log) ≡ true
      → elem b (names root log) ≡ true
      → Telescopes (way edges root log a) (way edges root log b) a b
  way-Telescopes [] a b g ha hb = ground (arith, eq_iff root a, eq_iff root b)
  way-Telescopes (x ∷ log) a b (fresh, old, joins, g) ha hb =
      let ne : x.parent ≢ x.node =
        λ same. cc (sym fresh ∙ ap (λ k. elem k (names root log)) (sym same) ∙ old) in
      let unused = λ (n : String).
        fresh_edge edges root x log (way edges root log n) joins fresh
          (way-IsInside edges root log n g) in
      elim (Bool-cases (x.node == a)) [
        | inl isa ↦ elim (Bool-cases (x.node == b)) [
          | inl isb ↦
              subst (λ n. Telescopes (way edges root (x ∷ log) a) (way edges root (x ∷ log) n) a n)
                (sym ((eq_iff x.node a).0 isa) ∙ (eq_iff x.node b).0 isb)
                (Telescopes-self (way edges root (x ∷ log) a) a)
          | inr notb ↦
              subst₂ (λ p q. Telescopes p q a b) (sym (way_new edges root x log a isa))
                (sym (way_old edges root x log b notb))
                (subst
                  (λ n.
                    Telescopes ((x.edge, step_sign edges root x) ∷ way edges root log x.parent)
                      (way edges root log b) n b)
                  ((eq_iff x.node a).0 isa)
                  (Telescopes-grow x (way edges root log x.parent) (way edges root log b) b joins ne
                    (unused b) (way-Telescopes log x.parent b g old (ground arith))))
        ]
        | inr nota ↦ elim (Bool-cases (x.node == b)) [
          | inl isb ↦
              subst₂ (λ p q. Telescopes p q a b) (sym (way_old edges root x log a nota))
                (sym (way_new edges root x log b isb))
                (subst
                  (λ n.
                    Telescopes (way edges root log a)
                      ((x.edge, step_sign edges root x) ∷ way edges root log x.parent) a n)
                  ((eq_iff x.node b).0 isb)
                  (Telescopes-flip ((x.edge, step_sign edges root x) ∷ way edges root log x.parent)
                    (way edges root log a) x.node a
                    (Telescopes-grow x (way edges root log x.parent) (way edges root log a) a joins
                      ne (unused a) (way-Telescopes log x.parent a g old (ground arith)))))
          | inr notb ↦
              subst₂ (λ p q. Telescopes p q a b) (sym (way_old edges root x log a nota))
                (sym (way_old edges root x log b notb))
                (way-Telescopes log a b g (ground arith) (ground arith))
        ]
      ]

-- The loop of a chord closes.
close_loop-IsCirculation :
    {F : Type 0} (edges : List (Edge F)) (root : String) (log : List (Growth ℕ)) (i : ℕ)
    (e : Edge F)
    → IsGrown edges root log
    → get_elem? edges i ≡ some e
    → elem e.a (names root log) ≡ true
    → elem e.b (names root log) ≡ true
    → IsCirculation edges (close_loop i (way edges root log e.a) (way edges root log e.b))
unfolding close_loop
close_loop-IsCirculation edges root log i e g at ha hb v =
    let p = way edges root log e.a in
    let q = way edges root log e.b in
    let (enter, leave) = chord_enters edges root v i e at in
    (omega (
      arith,
      enter,
      leave,
      way-Telescopes edges root v log e.a e.b g ha hb,
      ins-append edges v (outside q p) (reversed_steps (outside p q)),
      outs-append edges v (outside q p) (reversed_steps (outside p q)),
      ins-reversed_steps edges v (outside p q),
      outs-reversed_steps edges v (outside p q),
    ))

HasEdges-keep :
    {F : Type 0} (edges : List (Edge F)) (test : ℕ × Sign → Bool) (path : List (ℕ × Sign))
    → HasEdges edges path
    → HasEdges edges (keep test path)
HasEdges-keep edges test [] h = tt
HasEdges-keep edges test (step ∷ path) (e, h) = elim (Bool-cases (test step)) [
  | inl kept ↦ rw kept (e, HasEdges-keep edges test path h)
  | inr dropped ↦ rw dropped (HasEdges-keep edges test path h)
]

HasEdges-reversed_steps :
    {F : Type 0} (edges : List (Edge F)) (path : List (ℕ × Sign))
    → HasEdges edges path
    → HasEdges edges (reversed_steps path)
HasEdges-reversed_steps edges [] h = tt
HasEdges-reversed_steps edges ((i, s) ∷ path) (e, h) = (e, HasEdges-reversed_steps edges path h)

HasEdges-inside :
    {F : Type 0} (edges : List (Edge F)) (root : String) (log : List (Growth ℕ))
    (path : List (ℕ × Sign))
    → All (IsInside edges root log) path
    → HasEdges edges path
HasEdges-inside edges root log [] h = tt
HasEdges-inside edges root log (step ∷ path) ((p, n, (e, at, j), hp, hn), h) =
    ((e, at), HasEdges-inside edges root log path h)

pub close_loop-IsLoop :
    {F : Type 0} (edges : List (Edge F)) (root : String) (log : List (Growth ℕ)) (i : ℕ)
    (e : Edge F)
    → IsGrown edges root log
    → get_elem? edges i ≡ some e
    → elem e.a (names root log) ≡ true
    → elem e.b (names root log) ≡ true
    → IsLoop edges (close_loop i (way edges root log e.a) (way edges root log e.b))
unfolding close_loop
close_loop-IsLoop edges root log i e g at ha hb =
    let p = way edges root log e.a in
    let q = way edges root log e.b in
    let has = λ (n : String).
      HasEdges-inside edges root log (way edges root log n) (way-IsInside edges root log n g) in
    (
      close_loop-IsCirculation edges root log i e g at ha hb,
      (
        (e, at),
        All-append (λ step. (d : _) × (get_elem? edges step.0 ≡ some d)) (outside q p)
            (reversed_steps (outside p q))
            (HasEdges-keep edges (λ step. not (has_index step.0 q)) p (has e.a))
            (HasEdges-reversed_steps edges (outside p q)
              (HasEdges-keep edges (λ step. not (has_index step.0 p)) q (has e.b))),
      ),
    )
