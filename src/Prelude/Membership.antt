-- ===== src/Prelude/Membership.antt =====
-- Membership in a list of texts: no text twice, and the lengths of lists that stand inside others.
use Prim.Native.Nat.{suc, ◌≤◌}
use Prim.Native.String.{String}
use mathlib.Core.Path.{◌≡◌, refl}
use mathlib.Core.Logic.{◌≢◌, inl, inr}
use mathlib.Core.Bool.{Bool, true, false, ◌||◌}
use mathlib.Core.List.{List, [], ◌∷◌, ◌++◌, map}
use native.Mathlib.Omega.{arith}
use text.Mathlib.Text.{◌==◌}
use text.Mathlib.TextEquality.{eq_iff}
use feldspar.Prelude.Tests.{if◌then◌else◌, elem, length, All, Bool-cases}

abbrev pub IsNodup : List String → Type 0
IsNodup [] = Unit
IsNodup (x ∷ xs) = (elem x xs ≡ false) × IsNodup xs

abbrev pub Within : List String → List String → Type 0
Within xs ys = (k : String) → elem k xs ≡ true → elem k ys ≡ true

pub elem-append : (k : String) (xs ys : List String) → elem k (xs ++ ys) ≡ (elem k xs || elem k ys)
elem-append k [] ys = refl
elem-append k (x ∷ xs) ys = ground (arith, elem-append k xs ys)

pub All-append {ℓ κ} :
    {A : Type ℓ} (P : A → Type κ) (xs ys : List A) → All P xs → All P ys → All P (xs ++ ys)
All-append P [] ys h g = g
All-append P (x ∷ xs) ys h g = (h.0, All-append P xs ys h.1 g)

pub All-one {ℓ κ} :
    {A : Type ℓ} (P : A → Type κ) (b : Bool) (x : A)
    → (b ≡ true → P x)
    → All P (if b then x ∷ [] else [])
All-one P true x h = (h refl, tt)
All-one P false x h = tt

pub All-append-left {ℓ κ} :
    {A : Type ℓ} (P : A → Type κ) (xs ys : List A) → All P (xs ++ ys) → All P xs
All-append-left P [] ys h = tt
All-append-left P (x ∷ xs) ys h = (h.0, All-append-left P xs ys h.1)

pub All-append-right {ℓ κ} :
    {A : Type ℓ} (P : A → Type κ) (xs ys : List A) → All P (xs ++ ys) → All P ys
All-append-right P [] ys h = h
All-append-right P (x ∷ xs) ys h = All-append-right P xs ys h.1

pub All-imp {ℓ κ μ} :
    {A : Type ℓ} (P : A → Type κ) (Q : A → Type μ) (xs : List A)
    → ((x : A) → P x → Q x)
    → All P xs
    → All Q xs
All-imp P Q [] f h = tt
All-imp P Q (x ∷ xs) f h = (f x h.0, All-imp P Q xs f h.1)

pub All-map {ℓ κ μ} :
    {A : Type ℓ} {B : Type κ} (P : B → Type μ) (f : A → B) (xs : List A)
    → All (λ x. P (f x)) xs
    → All P (map f xs)
All-map P f [] h = tt
All-map P f (x ∷ xs) h = (h.0, All-map P f xs h.1)

pub map-All {ℓ κ μ} :
    {A : Type ℓ} {B : Type κ} (P : B → Type μ) (f : A → B) (xs : List A)
    → All P (map f xs)
    → All (λ x. P (f x)) xs
map-All P f [] h = tt
map-All P f (x ∷ xs) h = (h.0, map-All P f xs h.1)

-- Without the first `k`.
remove : String → List String → List String
remove k [] = []
remove k (x ∷ xs) = if x == k then xs else x ∷ remove k xs

length-remove :
    (k : String) (xs : List String) → elem k xs ≡ true → length xs ≡ suc (length (remove k xs))
unfolding remove
length-remove k [] h = ground arith
length-remove k (x ∷ xs) h = ground (arith, length-remove k xs)

elem-remove : (j k : String) (xs : List String) → j ≢ k → elem j (remove k xs) ≡ elem j xs
unfolding remove
elem-remove j k [] h = refl
elem-remove j k (x ∷ xs) h = ground (arith, eq_iff x k, eq_iff x j, elem-remove j k xs h)

ne_of_elem : (j k : String) (xs : List String) → elem k xs ≡ false → elem j xs ≡ true → j ≢ k
ne_of_elem j k xs h g e = ground (arith, e)

Within-remove :
    (x : String) (xs ys : List String)
    → elem x xs ≡ false
    → Within (x ∷ xs) ys
    → Within xs (remove x ys)
Within-remove x xs ys fresh h k m =
    let other = ne_of_elem k x xs fresh m in ground (arith, elem-remove k x ys other, h k)

-- A list with no text twice is no longer than one that it stands in.
pub length-le : (xs ys : List String) → IsNodup xs → Within xs ys → length xs ≤ length ys
length-le [] ys n h = omega arith
length-le (x ∷ xs) ys n h =
    let here = h x (ground (arith, eq_iff x x)) in
    omega
      (arith, length-remove x ys here, length-le xs (remove x ys) n.1 (Within-remove x xs ys n.0 h))

-- If it is as long, it has all of it.
pub Within-flip :
    (xs ys : List String) → IsNodup xs → Within xs ys → length ys ≤ length xs → Within ys xs
Within-flip [] [] n h l k m = m
Within-flip [] (y ∷ ys) n h l k m = absurd (omega arith)
Within-flip (x ∷ xs) ys n h l k m =
    let here = h x (ground (arith, eq_iff x x)) in
    let size = length-remove x ys here in
    ground (
      arith,
      eq_iff x k,
      elem-remove k x ys,
      Within-flip xs (remove x ys) n.1 (Within-remove x xs ys n.0 h) (omega arith) k,
    )

elem_of_remove : (j k : String) (xs : List String) → elem j (remove k xs) ≡ true → elem j xs ≡ true
unfolding remove
elem_of_remove j k [] h = h
elem_of_remove j k (x ∷ xs) h = ground (arith, elem_of_remove j k xs)

remove-IsNodup : (k : String) (xs : List String) → IsNodup xs → IsNodup (remove k xs)
unfolding remove
remove-IsNodup k [] n = tt
remove-IsNodup k (x ∷ xs) n = ground (arith, remove-IsNodup k xs n.1, elem_of_remove x k xs)

elem-remove_self : (k : String) (xs : List String) → IsNodup xs → elem k (remove k xs) ≡ false
unfolding remove
elem-remove_self k [] n = refl
elem-remove_self k (x ∷ xs) n = ground (arith, eq_iff x k, elem-remove_self k xs n.1)

length-le-remove : (k : String) (xs : List String) → length xs ≤ suc (length (remove k xs))
unfolding remove
length-le-remove k [] = omega arith
length-le-remove k (x ∷ xs) = ground (arith, length-le-remove k xs)

-- A list that is no longer than one with no text twice that stands in it has no text twice.
pub IsNodup-of_length :
    (xs ys : List String) → IsNodup xs → Within xs ys → length ys ≤ length xs → IsNodup ys
IsNodup-of_length xs [] n h l = tt
IsNodup-of_length xs (y ∷ ys) n h l = elim (Bool-cases (elem y ys)) [
  | inl twice ↦
      let inside : Within xs ys = λ k m. ground (arith, h k m, eq_iff y k) in
      absurd (omega (arith, length-le xs ys n inside))
  | inr once ↦ (
    once,
    IsNodup-of_length (remove y xs) ys (remove-IsNodup y xs n)
        (λ k m. ground (arith, h k (elem_of_remove k y xs m), eq_iff y k, elem-remove_self y xs n))
        (omega (arith, length-le-remove y xs)),
  )
]
