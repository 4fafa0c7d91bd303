-- ===== src/Solve/Packs/Names.antt =====
-- The naming rules for packs (`method_named_solver_violation` and `_namespace_violation` of
-- python/feldspar/solve/packs.py).
use Prim.Native.Nat.{ℕ, ◌+◌, compare, Ordering}
use Prim.Native.Char.{code}
use feldspar.Prelude.{
  String, ◌<>◌, Bool, true, false, Option, none, some, List, [], ◌∷◌, map, ◌&&◌, ◌||◌, ◌==◌, leb,
  if◌then◌else◌, elem, starts_with, ◌≡◌, arith, eq_iff, ◌⊎◌, inl, inr, Bool-cases, sym, ◌∙◌,
}
use text.Mathlib.TextEquality.{starts_with_iff}
use text.Mathlib.TextLemmas.{append_assoc}

abbrev pub method_words : List String
method_words = "fea" ∷ "ccx" ∷ "gmsh" ∷ "spice" ∷ "ngspice" ∷ []

abbrev pub default_standard_namespaces : List String
default_standard_namespaces = "mech" ∷ "elec" ∷ "fluids" ∷ "heat" ∷ []

-- The code points of a text.
abbrev pub codes : String → List ℕ
codes String.[] = []
codes (String.◌∷◌ c s) = code c ∷ codes s

-- `str.lower` on ASCII. The other letters that it changes become no letter of a method word.
abbrev lower : ℕ → ℕ
lower c = if leb b'A' c && leb c b'Z' then c + 32 else c

abbrev same_code : ℕ → ℕ → Bool
same_code a b = elim (compare a b) [ Ordering.eq ↦ true | _ ↦ false ]

unfoldable pub begins_with : List ℕ → List ℕ → Bool
begins_with text [] = true
begins_with [] (w ∷ word) = false
begins_with (c ∷ text) (w ∷ word) = same_code c w && begins_with text word

-- `word in text`
unfoldable pub occurs_in : List ℕ → List ℕ → Bool
unfolding begins_with
occurs_in word [] = begins_with [] word
occurs_in word (c ∷ text) = begins_with (c ∷ text) word || occurs_in word text

abbrev first_word : List String → List ℕ → Option String
first_word [] text = none
first_word (w ∷ words) text = if occurs_in (codes w) text then some w else first_word words text

unfoldable pub method_named_solver_violation : String → Option String
unfolding occurs_in
method_named_solver_violation text = first_word method_words (map lower (codes text))

abbrev under_standard : List String → String → String → Bool
under_standard [] pack namespace = false
under_standard (std ∷ rest) pack namespace =
    starts_with namespace (std <> ("." <> pack)) || under_standard rest pack namespace

unfoldable pub namespace_violation : String → String → List String → List String → Option String
namespace_violation pack namespace standard reviewed =
    if namespace == pack || starts_with namespace (pack <> ".")
    then none
    else if elem namespace reviewed
    then none
    else if under_standard standard pack namespace
    then none
    else some namespace

-- What a pack may register under: its own name or a name below it, a reviewed name, or any text that
-- begins with a standard namespace, a dot and its name.
abbrev pub MayUse : String → List String → List String → String → Type 0
MayUse pack standard reviewed namespace =
    (namespace ≡ pack)
    ⊎ ((suffix : String) × (pack <> ("." <> suffix) ≡ namespace))
    ⊎ (elem namespace reviewed ≡ true)
    ⊎ ((std suffix : String) × (elem std standard ≡ true)
        × ((std <> ("." <> pack)) <> suffix ≡ namespace))

under_standard_sound :
    (pack namespace : String) (standard : List String)
    → under_standard standard pack namespace ≡ true
    → (std suffix : String) × (elem std standard ≡ true)
      × ((std <> ("." <> pack)) <> suffix ≡ namespace)
under_standard_sound pack namespace [] h = cc
under_standard_sound pack namespace (std ∷ rest) h =
    elim (Bool-cases (starts_with namespace (std <> ("." <> pack)))) [
      | inl here ↦
          let (suffix, e) = (starts_with_iff namespace (std <> ("." <> pack))).0 here in
          (std, suffix, ground (arith, eq_iff std std), e)
      | inr later ↦
          let (found, suffix, member, e) =
            under_standard_sound pack namespace rest (ground arith) in
          (found, suffix, ground (arith, member), e)
    ]

under_standard_complete :
    (pack namespace std suffix : String) (standard : List String)
    → elem std standard ≡ true
    → (std <> ("." <> pack)) <> suffix ≡ namespace
    → under_standard standard pack namespace ≡ true
under_standard_complete pack namespace std suffix [] h e = cc
under_standard_complete pack namespace std suffix (x ∷ rest) h e = ground (
  arith,
  eq_iff x std,
  (starts_with_iff namespace (std <> ("." <> pack))).1 (suffix, e),
  under_standard_complete pack namespace std suffix rest,
)

dotted : (pack suffix : String) → (pack <> ".") <> suffix ≡ pack <> ("." <> suffix)
dotted pack suffix = append_assoc pack "." suffix

-- The namespace rule passes a namespace exactly where the pack may use it: its own name or a name
-- below it, a reviewed name, or a text that begins with a standard namespace, a dot and its name,
-- with no boundary behind that; and where it does not pass one, it names that namespace.
pub namespace_violation-decides :
    (pack namespace : String) (standard reviewed : List String)
    → ((namespace_violation pack namespace standard reviewed ≡ none)
        × MayUse pack standard reviewed namespace)
      ⊎ ((namespace_violation pack namespace standard reviewed ≡ some namespace)
          × ¬ MayUse pack standard reviewed namespace)
unfolding namespace_violation
namespace_violation-decides pack namespace standard reviewed =
    elim (Bool-cases (namespace == pack)) [
      | inl own ↦ inl (ground arith, inl ((eq_iff namespace pack).0 own))
      | inr not_own ↦ elim (Bool-cases (starts_with namespace (pack <> "."))) [
        | inl below ↦
            let (suffix, e) = (starts_with_iff namespace (pack <> ".")).0 below in
            inl (ground arith, inr (inl (suffix, sym (dotted pack suffix) ∙ e)))
        | inr not_below ↦ elim (Bool-cases (elem namespace reviewed)) [
          | inl known ↦ inl (ground arith, inr (inr (inl known)))
          | inr unknown ↦ elim (Bool-cases (under_standard standard pack namespace)) [
            | inl under ↦
                inl (
                  ground arith,
                  inr (inr (inr (under_standard_sound pack namespace standard under))),
                )
            | inr not_under ↦ inr (
              ground arith,
              λ may. elim may [
                | inl e ↦ ground (arith, eq_iff namespace pack, e)
                | inr (inl (suffix, e)) ↦ ground (
                  arith,
                  (starts_with_iff namespace (pack <> ".")).1 (suffix, dotted pack suffix ∙ e),
                )
                | inr (inr (inl e)) ↦ ground (arith, e)
                | inr (inr (inr (std, suffix, m, e))) ↦
                    ground (arith, under_standard_complete pack namespace std suffix standard m e)
              ],
            )
          ]
        ]
      ]
    ]
