-- ===== src/Common/Dict.antt =====
-- A Go map with string keys as an association list: what `range` visits is the list, in any order, and
-- the laws speak of lookups only.
use text.Mathlib.TextEquality.{eq_iff}
use text.Mathlib.TextPositions.{eq_refl}
use text.Mathlib.Text.{◌==◌ as str_eq}
use gopher_core.Common.{
  String, ◌≡◌, refl, ap, sym, Bool, true, Option, none, some, List, [], ◌∷◌, arith, if◌then◌else◌,
}

abbrev pub same_key : String → String → Bool
same_key = str_eq

pub same_key_refl : (k : String) → same_key k k ≡ true
same_key_refl = eq_refl

pub same_key_eq : (j k : String) → same_key j k ≡ true → j ≡ k
same_key_eq j k h = (eq_iff j k).0 h

-- A map from texts to values
abbrev pub Dict {ℓ} : Type ℓ → Type ℓ
Dict V = List (String × V)

module _ {ℓ} {V : Type ℓ} where
  unfoldable pub lookup : String → Dict V → Option V
  lookup key [] = none
  lookup key ((name, value) ∷ rest) = if same_key name key then some value else lookup key rest

  unfoldable pub insert : String → V → Dict V → Dict V
  insert key new [] = (key, new) ∷ []
  insert key new ((name, old) ∷ rest) =
      if same_key name key then (key, new) ∷ rest else (name, old) ∷ insert key new rest

  unfoldable pub erase : String → Dict V → Dict V
  erase key [] = []
  erase key ((name, value) ∷ rest) =
      if same_key name key then erase key rest else (name, value) ∷ erase key rest

  pub lookup-insert :
      (key asked : String) (new : V) (dict : Dict V)
      → lookup asked (insert key new dict)
        ≡ (if same_key key asked then some new else lookup asked dict)
  unfolding lookup insert
  lookup-insert key asked new [] = refl
  lookup-insert key asked new ((name, old) ∷ rest) = ground (
    lookup-insert key asked new rest,
    eq_iff name asked,
    eq_iff key asked,
    eq_iff name key,
    arith,
  )

  pub lookup-erase :
      (key asked : String) (dict : Dict V)
      → lookup asked (erase key dict) ≡ (if same_key key asked then none else lookup asked dict)
  unfolding lookup erase
  lookup-erase key asked [] = ground arith
  lookup-erase key asked ((name, old) ∷ rest) =
      ground
        (lookup-erase key asked rest, eq_iff name asked, eq_iff key asked, eq_iff name key, arith)

  pub lookup_same :
      (key asked : String) (dict : Dict V)
      → same_key key asked ≡ true
      → lookup asked dict ≡ lookup key dict
  lookup_same key asked dict h = ap (λ j. lookup j dict) (sym (same_key_eq key asked h))
