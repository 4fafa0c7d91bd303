-- ===== src/Prelude/Dict/Sorted.antt =====
-- `sorted(d.items())`: insertion sort by key. The result depends on what the dict maps, and not
-- on the order in which the keys came in.
use Prim.Native.String.{String}
use mathlib.Core.Option.{some-injective, none, some}
use mathlib.Core.Path.{◌≡◌, refl, ap, ap₂, sym, ◌∙◌, subst}
use mathlib.Core.Logic.{◌≢◌, inl, inr}
use mathlib.Core.Bool.{true, false}
use mathlib.Core.List.{[], ◌∷◌}
use native.Mathlib.Omega.{arith}
use text.Mathlib.Text.{◌==◌}
use text.Mathlib.TextEquality.{eq_iff}
use feldspar.Prelude.Tests.{if◌then◌else◌, Bool-cases}
use feldspar.Prelude.Order.{before, before_irrefl, before_trans, before_total}
use feldspar.Prelude.Dict.Defs.{Dict, lookup, IsDict}

module _ {ℓ} {V : Type ℓ} where
  unfoldable pub place : String × V → Dict V → Dict V
  place e [] = e ∷ []
  place e (f ∷ d) = if before f.0 e.0 then f ∷ place e d else e ∷ f ∷ d

  unfoldable pub sorted : Dict V → Dict V
  unfolding place
  sorted [] = []
  sorted (e ∷ d) = place e (sorted d)

  abbrev After : String → Dict V → Type 0
  After k [] = Unit
  After k (e ∷ d) = (before k e.0 ≡ true) × After k d

  abbrev pub Ascending : Dict V → Type 0
  Ascending [] = Unit
  Ascending (e ∷ d) = After e.0 d × Ascending d

  After-trans : (k j : String) (d : Dict V) → before k j ≡ true → After j d → After k d
  After-trans k j [] h a = tt
  After-trans k j (e ∷ d) h a = (before_trans k j e.0 h a.0, After-trans k j d h a.1)

  lookup-After : (k : String) (d : Dict V) → After k d → lookup k d ≡ none
  unfolding lookup
  lookup-After k [] a = refl
  lookup-After k (e ∷ d) a =
      ground (arith, lookup-After k d a.1, eq_iff e.0 k, before_irrefl k, ap (before k))

  place-After :
      (k : String) (e : String × V) (d : Dict V)
      → before k e.0 ≡ true
      → After k d
      → After k (place e d)
  unfolding place
  place-After k e [] h a = (h, tt)
  place-After k e (f ∷ d) h a = ground (arith, place-After k e d h a.1)

  tail_none :
      (k : String) (f : String × V) (d : Dict V) → lookup k (f ∷ d) ≡ none → lookup k d ≡ none
  unfolding lookup
  tail_none k f d h = ground arith

  head_after :
      (e f : String × V) (d : Dict V)
      → lookup e.0 (f ∷ d) ≡ none
      → before f.0 e.0 ≡ false
      → before e.0 f.0 ≡ true
  unfolding lookup
  head_after e f d h ge = ground (arith, before_total f.0 e.0 ge, eq_iff f.0 e.0)

  place-Ascending :
      (e : String × V) (d : Dict V) → lookup e.0 d ≡ none → Ascending d → Ascending (place e d)
  unfolding place lookup
  place-Ascending e [] h a = (tt, tt)
  place-Ascending e (f ∷ d) h a = elim (Bool-cases (before f.0 e.0)) [
    | inl lt ↦ rw lt (place-After f.0 e d lt a.0, place-Ascending e d (tail_none e.0 f d h) a.1)
    | inr ge ↦ rw ge ((head_after e f d h ge, After-trans e.0 f.0 d (head_after e f d h ge) a.0), a)
  ]

  lookup-place :
      (k : String) (e : String × V) (d : Dict V)
      → lookup e.0 d ≡ none
      → lookup k (place e d) ≡ (if e.0 == k then some e.1 else lookup k d)
  unfolding place lookup
  lookup-place k e [] h = refl
  lookup-place k e (f ∷ d) h =
      ground (arith, lookup-place k e d, eq_iff f.0 k, eq_iff e.0 k, eq_iff f.0 e.0)

  -- Sorting keeps what the dict maps.
  pub lookup-sorted : (k : String) (d : Dict V) → IsDict d → lookup k (sorted d) ≡ lookup k d
  unfolding sorted lookup
  lookup-sorted k [] h = refl
  lookup-sorted k (e ∷ d) h =
      lookup-place k e (sorted d) (lookup-sorted e.0 d h.1 ∙ h.0)
      ∙ ap (λ o. if e.0 == k then some e.1 else o) (lookup-sorted k d h.1)

  pub sorted-Ascending : (d : Dict V) → IsDict d → Ascending (sorted d)
  unfolding sorted
  sorted-Ascending [] h = tt
  sorted-Ascending (e ∷ d) h =
      place-Ascending e (sorted d) (lookup-sorted e.0 d h.1 ∙ h.0) (sorted-Ascending d h.1)

  lookup-nil : (k : String) → lookup {V = V} k [] ≡ none
  unfolding lookup
  lookup-nil k = refl

  lookup-head : (e : String × V) (d : Dict V) → lookup e.0 (e ∷ d) ≡ some e.1
  unfolding lookup
  lookup-head e d = ground (arith, eq_iff e.0 e.0)

  lookup-tail_ne :
      (k : String) (e : String × V) (d : Dict V) → e.0 ≢ k → lookup k (e ∷ d) ≡ lookup k d
  unfolding lookup
  lookup-tail_ne k e d h = ground (arith, eq_iff e.0 k)

  -- Two ascending lists with the same lookups start with the same key.
  heads_eq :
      (e f : String × V) (d c : Dict V)
      → Ascending (e ∷ d)
      → Ascending (f ∷ c)
      → lookup e.0 (e ∷ d) ≡ lookup e.0 (f ∷ c)
      → lookup f.0 (e ∷ d) ≡ lookup f.0 (f ∷ c)
      → e.0 ≡ f.0
  heads_eq e f d c a b h g = elim (Bool-cases (before e.0 f.0)) [
    | inl lt ↦ cc (lookup-head e d, h, lookup-After e.0 (f ∷ c) (lt, After-trans e.0 f.0 c lt b.0))
    | inr ge ↦ elim (before_total e.0 f.0 ge) [
      | inl p ↦ p
      | inr gt ↦
          cc (lookup-head f c, g, lookup-After f.0 (e ∷ d) (gt, After-trans f.0 e.0 d gt a.0))
    ]
  ]

  tails_agree :
      (e f : String × V) (d c : Dict V)
      → Ascending (e ∷ d)
      → Ascending (f ∷ c)
      → e.0 ≡ f.0
      → ((k : String) → lookup k (e ∷ d) ≡ lookup k (f ∷ c))
      → (k : String) → lookup k d ≡ lookup k c
  tails_agree e f d c a b p h k = elim (Bool-cases (e.0 == k)) [
    | inl hit ↦
        let q : e.0 ≡ k = (eq_iff e.0 k).0 hit in
        lookup-After k d (subst (λ j. After j d) q a.0)
        ∙ sym (lookup-After k c (subst (λ j. After j c) (sym p ∙ q) b.0))
    | inr miss ↦
        let q : e.0 ≢ k = λ x. cc ((eq_iff e.0 k).1 x, miss) in
        sym (lookup-tail_ne k e d q) ∙ h k ∙ lookup-tail_ne k f c (λ x. q (p ∙ x))
  ]

  Ascending-ext :
      (d c : Dict V) → Ascending d → Ascending c → ((k : String) → lookup k d ≡ lookup k c) → d ≡ c
  Ascending-ext [] [] a b h = refl
  Ascending-ext [] (f ∷ c) a b h = cc (h f.0, lookup-head f c, lookup-nil f.0)
  Ascending-ext (e ∷ d) [] a b h = cc (h e.0, lookup-head e d, lookup-nil e.0)
  Ascending-ext (e ∷ d) (f ∷ c) a b h =
      let p = heads_eq e f d c a b (h e.0) (h f.0) in
      let q =
        some-injective e.1 f.1
          (sym (lookup-head e d) ∙ h e.0 ∙ ap (λ k. lookup k (f ∷ c)) p ∙ lookup-head f c) in
      let same : e ≡ f = λ i. (p i, q i) in
      ap₂ ◌∷◌ same (Ascending-ext d c a.1 b.1 (tails_agree e f d c a b p h))

  -- The order in which the keys came in does not show.
  pub sorted_ext :
      (d c : Dict V)
      → IsDict d
      → IsDict c
      → ((k : String) → lookup k d ≡ lookup k c)
      → sorted d ≡ sorted c
  sorted_ext d c x y h =
      Ascending-ext (sorted d) (sorted c) (sorted-Ascending d x) (sorted-Ascending c y)
        (λ k. lookup-sorted k d x ∙ h k ∙ sym (lookup-sorted k c y))
