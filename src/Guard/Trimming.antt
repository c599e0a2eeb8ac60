-- ===== src/Guard/Trimming.antt =====
-- What `strings.TrimSpace` leaves of a text, as `SanitizeString` (guard/guard.go) uses it.
use mathlib.Core.List.{reverse, reverse-append, reverse-reverse, reverse-cons}
use gopher_core.Common.{
  ℕ, ◌≡◌, refl, inl, inr, true, false, List, [], ◌∷◌, ◌++◌, All, All-append, Bool-cases, ap, subst,
  sym, ◌∙◌,
}
use gopher_core.Common.Text.{is_space, trim_left, trim_space}

-- The text does not begin with white space.
abbrev pub StartsSolid : List ℕ → Type 0
StartsSolid [] = Unit
StartsSolid (r ∷ s) = is_space r ≡ false

abbrev pub IsTrimmed : List ℕ → Type 0
IsTrimmed s = StartsSolid s × StartsSolid (reverse s)

abbrev pub AllSpace : List ℕ → Type 0
AllSpace = All (λ r. is_space r ≡ true)

pub trim_left_splits : (s : List ℕ) → (pre : List ℕ) × (s ≡ pre ++ trim_left s) × AllSpace pre
unfolding trim_left
trim_left_splits [] = ([], refl, tt)
trim_left_splits (r ∷ s) = elim (Bool-cases (is_space r)) [
  | inl y ↦ let (pre, e, a) = trim_left_splits s in (r ∷ pre, rw y (ap (◌∷◌ r) e), (y, a))
  | inr n ↦ ([], rw n, tt)
]

trim_left-StartsSolid : (s : List ℕ) → StartsSolid (trim_left s)
unfolding trim_left
trim_left-StartsSolid [] = tt
trim_left-StartsSolid (r ∷ s) = elim (Bool-cases (is_space r)) [
  | inl y ↦ rw y (trim_left-StartsSolid s)
  | inr n ↦ rw n n
]

StartsSolid-append : (s t : List ℕ) → StartsSolid (s ++ t) → StartsSolid s
StartsSolid-append [] t h = tt
StartsSolid-append (r ∷ s) t h = h

trim_left_solid : (s : List ℕ) → StartsSolid s → trim_left s ≡ s
unfolding trim_left
trim_left_solid [] h = refl
trim_left_solid (r ∷ s) h = rw h

All-reverse {ℓ} : {A : Type ℓ} (P : A → Type 0) (s : List A) → All P s → All P (reverse s)
All-reverse P [] h = tt
All-reverse P (r ∷ s) h =
    subst (All P) (sym (reverse-cons r s))
      (All-append P (reverse s) (r ∷ []) (All-reverse P s h.1) (h.0, tt))

pub All-left_of_append {ℓ} : {A : Type ℓ} (P : A → Type 0) (s t : List A) → All P (s ++ t) → All P s
All-left_of_append P [] t h = tt
All-left_of_append P (r ∷ s) t h = (h.0, All-left_of_append P s t h.1)

pub All-right_of_append {ℓ} :
    {A : Type ℓ} (P : A → Type 0) (s t : List A) → All P (s ++ t) → All P t
All-right_of_append P [] t h = h
All-right_of_append P (r ∷ s) t h = All-right_of_append P s t h.1

-- What the second pass leaves is a prefix, up to white space, of what the first one left.
trim_right_splits :
    (u : List ℕ) → (post : List ℕ) × (u ≡ reverse (trim_left (reverse u)) ++ post) × AllSpace post
trim_right_splits u =
    let (pre, e, a) = trim_left_splits (reverse u) in
    (
      reverse pre,
      sym (reverse-reverse u) ∙ ap reverse e ∙ reverse-append pre (trim_left (reverse u)),
      All-reverse (λ r. is_space r ≡ true) pre a,
    )

-- `TrimSpace` takes a run of white space from each end, and what is left has none at its ends.
pub trim_space_splits :
    (s : List ℕ)
    → (pre : List ℕ) × (post : List ℕ) × (s ≡ pre ++ (trim_space s ++ post))
      × AllSpace pre
      × AllSpace post
      × IsTrimmed (trim_space s)
unfolding trim_space
trim_space_splits s =
    let u : List ℕ = trim_left s in
    let (pre, e, a) = trim_left_splits s in
    let (post, f, b) = trim_right_splits u in
    (
      pre,
      post,
      e ∙ ap (◌++◌ pre) f,
      a,
      b,
      (
        StartsSolid-append (trim_space s) post (subst StartsSolid f (trim_left-StartsSolid s)),
        subst StartsSolid (sym (reverse-reverse (trim_left (reverse u))))
            (trim_left-StartsSolid (reverse u)),
      ),
    )

pub trim_space_trimmed : (s : List ℕ) → IsTrimmed s → trim_space s ≡ s
unfolding trim_space
trim_space_trimmed s h =
    ap (λ u. reverse (trim_left (reverse u))) (trim_left_solid s h.0)
    ∙ ap reverse (trim_left_solid (reverse s) h.1)
    ∙ reverse-reverse s
