-- ===== src/Config/Numerals.antt =====
-- What config/config.go uses of Go's `strconv`: `ParseInt` and `ParseUint` in base 10 and 64 bits, and
-- `ParseBool`. Their errors are one here, none.
use gopher_core.Common.{
  ℕ, ◌+◌, ◌-◌, ◌*◌, ◌^◌, Bool, true, false, ◌&&◌, ◌||◌, Option, none, some, List, [], ◌∷◌, ltb, leb,
  ◌==◌, if◌then◌else◌,
}
use gopher_core.Common.Int.{ℤ, pos, negsuc, sub_ℕ}
use gopher_core.Common.Text.{Text, codes, same_text}

abbrev pub is_digit : ℕ → Bool
is_digit c = leb b'0' c && leb c b'9'

-- The digits after a number that is read already
unfoldable pub read_digits : ℕ → Text → Option ℕ
read_digits n [] = some n
read_digits n (c ∷ s) = if is_digit c then read_digits (10 * n + (c - b'0')) s else none

-- The digits of a number, of which there is at least one
unfoldable pub read_unsigned : Text → Option ℕ
unfolding read_digits
read_unsigned [] = none
read_unsigned (c ∷ s) = read_digits 0 (c ∷ s)

abbrev pub when_below : ℕ → Option ℕ → Option ℕ
when_below most none = none
when_below most (some n) = if ltb n most then some n else none

abbrev pub signed : Option ℕ → Option ℤ
signed none = none
signed (some n) = some (pos n)

abbrev pub negated : Option ℕ → Option ℤ
negated none = none
negated (some n) = some (sub_ℕ 0 n)

-- `strconv.ParseUint(s, 10, 64)`
unfoldable pub parse_uint : Text → Option ℕ
unfolding read_unsigned
parse_uint s = when_below (2 ^ 64) (read_unsigned s)

-- `strconv.ParseInt(s, 10, 64)`
unfoldable pub parse_int : Text → Option ℤ
unfolding read_unsigned
parse_int [] = none
parse_int (c ∷ s) =
    if c == b'-'
    then negated (when_below (2 ^ 63 + 1) (read_unsigned s))
    else if c == b'+'
    then signed (when_below (2 ^ 63) (read_unsigned s))
    else signed (when_below (2 ^ 63) (read_unsigned (c ∷ s)))

abbrev pub one_of : Text → List Text → Bool
one_of s [] = false
one_of s (t ∷ ts) = same_text s t || one_of s ts

-- `strconv.ParseBool`
unfoldable pub parse_bool : Text → Option Bool
unfolding same_text
parse_bool s =
    if one_of s
      (codes "1" ∷ codes "t" ∷ codes "T" ∷ codes "TRUE" ∷ codes "true" ∷ codes "True" ∷ [])
    then some true
    else if one_of s
        (codes "0" ∷ codes "f" ∷ codes "F" ∷ codes "FALSE" ∷ codes "false" ∷ codes "False" ∷ [])
    then some false
    else none

-- Whether the integer is one of so many bits: `reflect.Value.OverflowInt` and `OverflowUint`, negated
abbrev pub fits_int : ℕ → ℤ → Bool
fits_int bits (pos n) = ltb n (2 ^ (bits - 1))
fits_int bits (negsuc n) = ltb n (2 ^ (bits - 1))

abbrev pub fits_uint : ℕ → ℕ → Bool
fits_uint bits n = ltb n (2 ^ bits)
