-- ===== src/Prelude/Dict/Defs.antt =====
-- The operations of a `dict` and their laws.
use Prim.Native.String.{String}
use mathlib.Core.Path.{◌≡◌, refl}
use mathlib.Core.Logic.{◌≢◌}
use mathlib.Core.Bool.{Bool, true, false}
use mathlib.Core.Option.{Option, none, some}
use mathlib.Core.List.{List, [], ◌∷◌, ◌++◌}
use native.Mathlib.Omega.{arith}
use text.Mathlib.Text.{◌==◌}
use text.Mathlib.TextEquality.{eq_iff}
use feldspar.Prelude.Tests.{if◌then◌else◌}

abbrev pub Dict {ℓ} : Type ℓ → Type ℓ
Dict V = List (String × V)

module _ {ℓ} {V : Type ℓ} where
  -- `d.get(k)`
  unfoldable pub lookup : String → Dict V → Option V
  lookup k [] = none
  lookup k (e ∷ d) = if e.0 == k then some e.1 else lookup k d

  -- `k in d`
  abbrev pub contains : String → Dict V → Bool
  contains k d = elim (lookup k d) [ none ↦ false | some _ ↦ true ]

  -- `d[k] = v`
  unfoldable pub insert : String → V → Dict V → Dict V
  insert k v [] = (k, v) ∷ []
  insert k v (e ∷ d) = if e.0 == k then (e.0, v) ∷ d else e ∷ insert k v d

  -- `d.pop(k, None)`
  unfoldable pub erase : String → Dict V → Dict V
  erase k [] = []
  erase k (e ∷ d) = if e.0 == k then d else e ∷ erase k d

  abbrev pub keys : Dict V → List String
  keys [] = []
  keys (e ∷ d) = e.0 ∷ keys d

  abbrev pub values : Dict V → List V
  values [] = []
  values (e ∷ d) = e.1 ∷ values d

  -- `d.update(e)`
  unfoldable pub update : Dict V → Dict V → Dict V
  update d [] = d
  update d (e ∷ es) = update (insert e.0 e.1 d) es

  -- No key twice.
  abbrev pub IsDict : Dict V → Type ℓ
  IsDict [] = Unit
  IsDict (e ∷ d) = (lookup e.0 d ≡ none) × IsDict d

  pub lookup-insert :
      (k j : String) (v : V) (d : Dict V)
      → lookup j (insert k v d) ≡ (if k == j then some v else lookup j d)
  unfolding lookup insert
  lookup-insert k j v [] = refl
  lookup-insert k j v (e ∷ d) =
      ground (arith, eq_iff k j, eq_iff e.0 k, eq_iff e.0 j, lookup-insert k j v d)

  pub lookup-insert_self : (k : String) (v : V) (d : Dict V) → lookup k (insert k v d) ≡ some v
  lookup-insert_self k v d = ground (arith, lookup-insert k k v d, eq_iff k k)

  pub lookup-insert_ne :
      (k j : String) (v : V) (d : Dict V) → k ≢ j → lookup j (insert k v d) ≡ lookup j d
  lookup-insert_ne k j v d h = ground (arith, lookup-insert k j v d, eq_iff k j)

  pub lookup-erase_ne : (k j : String) (d : Dict V) → k ≢ j → lookup j (erase k d) ≡ lookup j d
  unfolding lookup erase
  lookup-erase_ne k j [] h = refl
  lookup-erase_ne k j (e ∷ d) h =
      ground (arith, eq_iff e.0 k, eq_iff e.0 j, lookup-erase_ne k j d h)

  pub lookup-erase_self : (k : String) (d : Dict V) → IsDict d → lookup k (erase k d) ≡ none
  unfolding lookup erase
  lookup-erase_self k [] h = refl
  lookup-erase_self k (e ∷ d) h = ground (arith, eq_iff e.0 k, lookup-erase_self k d h.1)

  pub insert-IsDict : (k : String) (v : V) (d : Dict V) → IsDict d → IsDict (insert k v d)
  unfolding lookup insert
  insert-IsDict k v [] h = (refl, tt)
  insert-IsDict k v (e ∷ d) h =
      ground (arith, eq_iff e.0 k, insert-IsDict k v d h.1, lookup-insert_ne k e.0 v d)

  pub erase-IsDict : (k : String) (d : Dict V) → IsDict d → IsDict (erase k d)
  unfolding lookup erase
  erase-IsDict k [] h = tt
  erase-IsDict k (e ∷ d) h =
      ground (arith, eq_iff e.0 k, erase-IsDict k d h.1, lookup-erase_ne k e.0 d)

  -- A new key lands at the end, and popping it restores the dict.
  pub insert_new :
      (k : String) (v : V) (d : Dict V) → lookup k d ≡ none → insert k v d ≡ d ++ (k, v) ∷ []
  unfolding lookup insert
  insert_new k v [] h = refl
  insert_new k v (e ∷ d) h = ground (arith, insert_new k v d)

  pub erase-insert_new :
      (k : String) (v : V) (d : Dict V) → lookup k d ≡ none → erase k (insert k v d) ≡ d
  unfolding lookup insert erase
  erase-insert_new k v [] h = ground (arith, eq_iff k k)
  erase-insert_new k v (e ∷ d) h = ground (arith, erase-insert_new k v d)

module _ {ℓ} {V : Type ℓ} where
  pub lookup-append :
      (k : String) (d e : Dict V)
      → lookup k (d ++ e) ≡ elim (lookup k d) [ none ↦ lookup k e | some v ↦ some v ]
  unfolding lookup
  lookup-append k [] e = refl
  lookup-append k (x ∷ d) e = ground (arith, lookup-append k d e)

  -- Popping a key that stands behind a dict without it.
  pub erase-append :
      (k : String) (v : V) (d e : Dict V) → lookup k d ≡ none → erase k (d ++ (k, v) ∷ e) ≡ d ++ e
  unfolding lookup erase
  erase-append k v [] e h = ground (arith, eq_iff k k)
  erase-append k v (x ∷ d) e h = ground (arith, erase-append k v d e)

pub ruleset dict_laws = (lookup-insert_self, lookup-insert_ne, lookup-erase_ne, lookup-erase_self)
