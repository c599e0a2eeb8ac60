-- ===== src/Config/Reading.antt =====
-- When a text reads as a value of a kind, apart from the code of `setField` (config/config.go).
use native.Mathlib.Nat.{pow-suc}
use gopher_core.Common.{
  ℕ, ◌+◌, ◌-◌, ◌*◌, ◌^◌, ◌≡◌, ◌≢◌, refl, true, Option, none, some, ◌<◌, ◌≤◌, [], ◌∷◌, inl, inr,
  arith, Bool-cases, length, All, ltb, ◌==◌, ap, ◌∙◌,
}
use gopher_core.Common.Int.{ℤ, pos, sub_ℕ}
use gopher_core.Common.Text.{Text}
use gopher_core.Config.Numerals.{
  parse_int, is_digit, read_digits, read_unsigned, when_below, signed, negated,
}

-- The number that digits stand for, each by its place
unfoldable pub place_value : Text → ℕ
place_value [] = 0
place_value (c ∷ s) = (c - b'0') * 10 ^ length s + place_value s

abbrev pub AllDigits : Text → Type 0
AllDigits = All (λ c. is_digit c ≡ true)

-- The text is a numeral of the number.
pub data Numeral (s : Text) (n : ℕ) : Type 0 where
  numeral : s ≢ [] → AllDigits s → n ≡ place_value s → Numeral s n

shift_digit : (n d p v : ℕ) → (10 * n + d) * p + v ≡ n * (p * 10) + (d * p + v)
shift_digit n d p v = grind arith

read_digits_sound :
    (n : ℕ) (s : Text) (m : ℕ)
    → read_digits n s ≡ some m
    → AllDigits s × (m ≡ n * 10 ^ length s + place_value s)
unfolding read_digits place_value
read_digits_sound n [] m h = (tt, ground (arith, h))
read_digits_sound n (c ∷ s) m h = elim (Bool-cases (is_digit c)) [
  | inl y ↦
      let (digits, e) = read_digits_sound (10 * n + (c - b'0')) s m (ground (arith, h, y)) in
      (
        (y, digits),
        e ∙ shift_digit n (c - b'0') (10 ^ length s) (place_value s) ∙ rw (pow-suc 10 (length s)),
      )
  | inr no_digit ↦ ground (arith, h, no_digit)
]

read_digits_complete :
    (n : ℕ) (s : Text) → AllDigits s → read_digits n s ≡ some (n * 10 ^ length s + place_value s)
unfolding read_digits place_value
read_digits_complete n [] h = ap some (omega arith)
read_digits_complete n (c ∷ s) (y, h) = rw y (
    read_digits_complete (10 * n + (c - b'0')) s h
    ∙ ap some
        (shift_digit n (c - b'0') (10 ^ length s) (place_value s) ∙ rw (pow-suc 10 (length s))))

pub read_unsigned-Numeral : (s : Text) (n : ℕ) → read_unsigned s ≡ some n → Numeral s n
unfolding read_unsigned
read_unsigned-Numeral [] n h = ground (arith, h)
read_unsigned-Numeral (c ∷ s) n h =
    let (digits, e) = read_digits_sound 0 (c ∷ s) n h in
    numeral (λ empty. cc) digits (e ∙ omega arith)

pub Numeral-read_unsigned : (s : Text) (n : ℕ) → Numeral s n → read_unsigned s ≡ some n
unfolding read_unsigned
Numeral-read_unsigned [] n (numeral solid digits e) = absurd (solid refl)
Numeral-read_unsigned (c ∷ s) n (numeral solid digits e) =
    read_digits_complete 0 (c ∷ s) digits ∙ ap some (omega (arith, e))

-- The text is a decimal integer of 64 bits, with a sign or without.
pub data IntText (s : Text) (z : ℤ) : Type 0 where
  plain : (n : ℕ) → Numeral s n → n < 2 ^ 63 → z ≡ pos n → IntText s z
  plus : (t : Text) (n : ℕ) → s ≡ b'+' ∷ t → Numeral t n → n < 2 ^ 63 → z ≡ pos n → IntText s z
  minus : (t : Text) (n : ℕ) → s ≡ b'-' ∷ t → Numeral t n → n ≤ 2 ^ 63 → z ≡ sub_ℕ 0 n → IntText s z

signed-below :
    (most : ℕ) (o : Option ℕ) (z : ℤ)
    → signed (when_below most o) ≡ some z
    → (n : ℕ) × (o ≡ some n) × (n < most) × (z ≡ pos n)
signed-below most none z h = ground (arith, h)
signed-below most (some n) z h = elim (Bool-cases (ltb n most)) [
  | inl y ↦ (n, refl, ground (arith, y), ground (arith, h, y))
  | inr k ↦ ground (arith, h, k)
]

negated-below :
    (most : ℕ) (o : Option ℕ) (z : ℤ)
    → negated (when_below most o) ≡ some z
    → (n : ℕ) × (o ≡ some n) × (n < most) × (z ≡ sub_ℕ 0 n)
negated-below most none z h = ground (arith, h)
negated-below most (some n) z h = elim (Bool-cases (ltb n most)) [
  | inl y ↦ (n, refl, ground (arith, y), ground (arith, h, y))
  | inr k ↦ ground (arith, h, k)
]

first_digit : (c : ℕ) (s : Text) (n : ℕ) → Numeral (c ∷ s) n → is_digit c ≡ true
first_digit c s n (numeral solid digits e) = digits.0

-- What `ParseInt` accepts is a decimal integer of 64 bits.
pub parse_int-IntText : (s : Text) (z : ℤ) → parse_int s ≡ some z → IntText s z
unfolding parse_int
parse_int-IntText [] z h = ground (arith, h)
parse_int-IntText (c ∷ s) z h = elim (Bool-cases (c == b'-')) [
  | inl is_minus ↦
      let (n, e, lt, q) =
        negated-below (2 ^ 63 + 1) (read_unsigned s) z (ground (arith, h, is_minus)) in
      minus s n (ground (arith, is_minus)) (read_unsigned-Numeral s n e) (omega (arith, lt)) q
  | inr no_minus ↦ elim (Bool-cases (c == b'+')) [
    | inl is_plus ↦
        let (n, e, lt, q) =
          signed-below (2 ^ 63) (read_unsigned s) z (ground (arith, h, no_minus, is_plus)) in
        plus s n (ground (arith, is_plus)) (read_unsigned-Numeral s n e) lt q
    | inr no_plus ↦
        let (n, e, lt, q) =
          signed-below (2 ^ 63) (read_unsigned (c ∷ s)) z (ground (arith, h, no_minus, no_plus)) in
        plain n (read_unsigned-Numeral (c ∷ s) n e) lt q
  ]
]

-- `ParseInt` accepts every decimal integer of 64 bits, as the integer that it is.
pub IntText-parse_int : (s : Text) (z : ℤ) → IntText s z → parse_int s ≡ some z
unfolding parse_int
IntText-parse_int [] z (plain n (numeral solid digits e) lt q) = absurd (solid refl)
IntText-parse_int (c ∷ s) z (plain n h lt q) =
    ground (arith, lt, q, Numeral-read_unsigned (c ∷ s) n h, first_digit c s n h)
IntText-parse_int s z (plus t n e h lt q) =
    rw e (ground (arith, lt, q, Numeral-read_unsigned t n h))
IntText-parse_int s z (minus t n e h le q) =
    rw e (ground (arith, le, q, Numeral-read_unsigned t n h))
