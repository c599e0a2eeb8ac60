-- ===== src/Common/Text.antt =====
-- Text as a list of code points, and the functions of Go's `unicode` and `strings` on it.
use mathlib.Core.List.{reverse}
use Prim.Native.Char.{code}
use gopher_core.Common.{
  ℕ, Bool, true, false, ◌&&◌, ◌||◌, List, [], ◌∷◌, leb, ◌==◌, if◌then◌else◌, String,
}

abbrev pub Text : Type 0
Text = List ℕ

-- The code points of a literal
abbrev pub codes : String → Text
codes String.[] = []
codes (String.◌∷◌ c s) = code c ∷ codes s

abbrev pub is_empty : Text → Bool
is_empty [] = true
is_empty (r ∷ s) = false

unfoldable pub same_text : Text → Text → Bool
same_text [] [] = true
same_text (a ∷ s) (b ∷ t) = a == b && same_text s t
same_text _ _ = false

-- `unicode.IsSpace`
abbrev pub is_space : ℕ → Bool
is_space r =
    (leb 0x09 r && leb r 0x0d)
    || r == 0x20
    || r == 0x85
    || r == 0xa0
    || r == 0x1680
    || (leb 0x2000 r && leb r 0x200a)
    || r == 0x2028
    || r == 0x2029
    || r == 0x202f
    || r == 0x205f
    || r == 0x3000

unfoldable pub trim_left : List ℕ → List ℕ
trim_left [] = []
trim_left (r ∷ s) = if is_space r then trim_left s else r ∷ s

-- `strings.TrimSpace`
unfoldable pub trim_space : List ℕ → List ℕ
unfolding trim_left
trim_space s = reverse (trim_left (reverse (trim_left s)))

-- A character put before the first part
abbrev pub cons_first : ℕ → List Text → List Text
cons_first r [] = (r ∷ []) ∷ []
cons_first r (part ∷ parts) = (r ∷ part) ∷ parts

-- `strings.Split` at one character
unfoldable pub split_on : ℕ → Text → List Text
split_on sep [] = [] ∷ []
split_on sep (r ∷ s) =
    let parts = split_on sep s in if r == sep then [] ∷ parts else cons_first r parts
