-- ===== src/Guard/Sanitize.antt =====
-- What `SanitizeString` promises (guard/guard.go).
use mathlib.Core.List.{reverse}
use gopher_core.Common.{
  ℕ, ◌<◌, ◌≤◌, ◌≡◌, refl, ◌⊎◌, inl, inr, true, false, arith, All-map, List, [], ◌∷◌, ◌++◌, keep,
  All, Bool-cases, ap, subst, ◌∙◌,
}
use gopher_core.Common.Text.{is_space, trim_space}
use gopher_core.Guard.{is_allowed, sanitize_string}
use gopher_core.Guard.Trimming.{
  StartsSolid, IsTrimmed, AllSpace, trim_space_splits, trim_space_trimmed, All-left_of_append,
  All-right_of_append,
}

abbrev pub AllAllowed : List ℕ → Type 0
AllAllowed = All (λ r. is_allowed r ≡ true)

keep-AllAllowed : (s : List ℕ) → AllAllowed (keep is_allowed s)
keep-AllAllowed [] = tt
keep-AllAllowed (r ∷ s) = elim (Bool-cases (is_allowed r)) [
  | inl y ↦ rw y (y, keep-AllAllowed s)
  | inr n ↦ rw n (keep-AllAllowed s)
]

keep_allowed : (s : List ℕ) → AllAllowed s → keep is_allowed s ≡ s
keep_allowed [] h = refl
keep_allowed (r ∷ s) h = rw h.0 (ap (◌∷◌ r) (keep_allowed s h.1))

-- What is left of the text before it is trimmed, with the white space at its ends
sanitize_string_parts :
    (s : List ℕ)
    → (pre : List ℕ) × (post : List ℕ) × (keep is_allowed s ≡ pre ++ (sanitize_string s ++ post))
      × AllSpace pre
      × AllSpace post
      × IsTrimmed (sanitize_string s)
      × AllAllowed (sanitize_string s)
unfolding sanitize_string
sanitize_string_parts s =
    let t : List ℕ = keep is_allowed s in
    let (pre, post, e, a, b, h) = trim_space_splits t in
    (
      pre,
      post,
      e,
      a,
      b,
      h,
      All-left_of_append _ (trim_space t) post (
          All-right_of_append _ pre (trim_space t ++ post)
            (subst AllAllowed e (keep-AllAllowed s))),
    )

-- The control characters, which lie below 0x20 and from 0x7f to 0x9f, but for tab, newline and carriage
-- return
abbrev pub Dropped : ℕ → Type 0
Dropped r =
    (r < 0x09)
    ⊎ (((0x0e ≤ r) × (r < 0x20)) ⊎ (((0x7f ≤ r) × (r < 0xa0)) ⊎ ((r ≡ 0x0b) ⊎ (r ≡ 0x0c))))

-- The code points with the property White_Space
abbrev pub Space : ℕ → Type 0
Space r =
    ((0x09 ≤ r) × (r ≤ 0x0d))
    ⊎ ((r ≡ 0x20)
        ⊎ ((r ≡ 0x85)
            ⊎ ((r ≡ 0xa0)
                ⊎ ((r ≡ 0x1680)
                    ⊎ (((0x2000 ≤ r) × (r ≤ 0x200a))
                        ⊎ ((r ≡ 0x2028)
                            ⊎ ((r ≡ 0x2029) ⊎ ((r ≡ 0x202f) ⊎ ((r ≡ 0x205f) ⊎ (r ≡ 0x3000))))))))))

is_allowed-Dropped : (r : ℕ) → is_allowed r ≡ false → Dropped r
is_allowed-Dropped r h = ground (arith, h)

is_allowed_keeps : (r : ℕ) → is_allowed r ≡ true → ¬ Dropped r
is_allowed_keeps r h = ground (arith, h)

is_space-Space : (r : ℕ) → is_space r ≡ true → Space r
is_space-Space r h = ground (arith, h)

is_space_no : (r : ℕ) → is_space r ≡ false → ¬ Space r
is_space_no r h = ground (arith, h)

-- The second text is the first one without the code points to drop.
pub data Stripped : List ℕ → List ℕ → Type 0 where
  done : Stripped [] []
  drops : {s t : List ℕ} (r : ℕ) → Dropped r → Stripped s t → Stripped (r ∷ s) t
  keeps : {s t : List ℕ} (r : ℕ) → ¬ Dropped r → Stripped s t → Stripped (r ∷ s) (r ∷ t)

keep-Stripped : (s : List ℕ) → Stripped s (keep is_allowed s)
keep-Stripped [] = done
keep-Stripped (r ∷ s) = elim (Bool-cases (is_allowed r)) [
  | inl y ↦ rw y (keeps r (is_allowed_keeps r y) (keep-Stripped s))
  | inr n ↦ rw n (drops r (is_allowed-Dropped r n) (keep-Stripped s))
]

-- The text does not begin with white space.
abbrev pub Begins : List ℕ → Type 0
Begins [] = Unit
Begins (r ∷ s) = ¬ Space r

StartsSolid-Begins : (s : List ℕ) → StartsSolid s → Begins s
StartsSolid-Begins [] h = tt
StartsSolid-Begins (r ∷ s) h = is_space_no r h

-- Of any text, `SanitizeString` drops the code points below 0x20 and from 0x7f to 0x9f but for tab, newline
-- and carriage return, keeping the rest in order, and then a run of the code points with the property
-- White_Space at each end; the result neither begins nor ends with one of those.
pub sanitize_string_splits :
    (s : List ℕ)
    → (pre : List ℕ) × (post : List ℕ) × Stripped s (pre ++ (sanitize_string s ++ post))
      × All Space pre
      × All Space post
      × Begins (sanitize_string s)
      × Begins (reverse (sanitize_string s))
sanitize_string_splits s =
    let (pre, post, e, a, b, h, k) = sanitize_string_parts s in
    (
      pre,
      post,
      subst (Stripped s) e (keep-Stripped s),
      All-map _ _ pre is_space-Space a,
      All-map _ _ post is_space-Space b,
      StartsSolid-Begins (sanitize_string s) h.0,
      StartsSolid-Begins (reverse (sanitize_string s)) h.1,
    )

-- A text with no control character but newline, carriage return and tab, and no white space at its ends, stays as it is.
pub sanitize_string_clean : (s : List ℕ) → AllAllowed s → IsTrimmed s → sanitize_string s ≡ s
unfolding sanitize_string
sanitize_string_clean s a h = ap trim_space (keep_allowed s a) ∙ trim_space_trimmed s h

-- `SanitizeString` a second time changes nothing.
pub sanitize_string_idem : (s : List ℕ) → sanitize_string (sanitize_string s) ≡ sanitize_string s
sanitize_string_idem s =
    let (pre, post, e, a, b, h, k) = sanitize_string_parts s in
    sanitize_string_clean (sanitize_string s) k h
