-- ===== src/Config/Reads.antt =====
-- `setField` (config/config.go) against the relation of what a text reads as, for every kind.
use gopher_core.Common.{
  ℕ, ◌^◌, ◌<◌, ◌≡◌, ◌↔◌, refl, subst, Bool, true, false, Option, none, some, List, [], ◌∷◌, inl,
  inr, arith, Bool-cases, ◌∙◌, ap,
}
use gopher_core.Common.Int.{ℤ}
use gopher_core.Common.Text.{Text, is_empty, trim_space, split_on}
use gopher_core.Config.Numerals.{
  parse_int, parse_uint, parse_bool, fits_int, fits_uint, read_unsigned, when_below,
}
use gopher_core.Config.Reading.{
  Numeral, IntText, parse_int-IntText, IntText-parse_int, read_unsigned-Numeral,
  Numeral-read_unsigned,
}
use gopher_core.Config.{
  Kind, text, boolean, duration, unsupported, int_of, uint_of, float_of, slice_of, Value,
  text_value, bool_value, int_value, uint_value, float_value, slice_value, Values, nil, cons,
  Library, Parsed, parsed, failed, checked_int, checked_uint, checked_bool, checked_duration,
  checked_float, append_first, set_parts, as_slice, set_field,
}
use gopher_core.Config.Typed.{Yields}

mutual
  -- The text reads as this value of a kind.
  pub data Reads {F : Type 0} (lib : Library F) : Kind → Text → Value F → Type 0 where
    reads_text : (s : Text) → Reads lib text s (text_value s)
    reads_bool : (s : Text) (b : Bool) → parse_bool s ≡ some b → Reads lib boolean s (bool_value b)
    reads_duration :
        (s : Text) (d : ℤ) → lib.parse_duration s ≡ some d → Reads lib duration s (int_value d)
    reads_int :
        (bits : ℕ) (s : Text) (z : ℤ)
        → IntText s z
        → fits_int bits z ≡ true
        → Reads lib (int_of bits) s (int_value z)
    reads_uint :
        (bits : ℕ) (s : Text) (n : ℕ)
        → Numeral s n
        → n < 2 ^ 64
        → fits_uint bits n ≡ true
        → Reads lib (uint_of bits) s (uint_value n)
    reads_float :
        (bits : ℕ) (s : Text) (x y : F)
        → lib.parse_float s ≡ some x
        → lib.overflows bits x ≡ false
        → y ≡ lib.round_to bits x
        → Reads lib (float_of bits) s (float_value y)
    reads_slice :
        (kind : Kind) (s : Text) (vs : Values F)
        → ReadsParts lib kind (split_on b',' s) vs
        → Reads lib (slice_of kind) s (slice_value vs)

  -- The parts that are not blank read as these values, in order.
  pub data ReadsParts {F : Type 0} (lib : Library F) : Kind → List Text → Values F → Type 0 where
    no_parts : (kind : Kind) → ReadsParts lib kind [] nil
    blank :
        (kind : Kind) (part : Text) (parts : List Text) (vs : Values F)
        → is_empty (trim_space part) ≡ true
        → ReadsParts lib kind parts vs
        → ReadsParts lib kind (part ∷ parts) vs
    solid :
        (kind : Kind) (part : Text) (parts : List Text) (v : Value F) (vs : Values F)
        → is_empty (trim_space part) ≡ false
        → Reads lib kind (trim_space part) v
        → ReadsParts lib kind parts vs
        → ReadsParts lib kind (part ∷ parts) (cons v vs)

module _ {F : Type 0} (lib : Library F) where
  checked_int-Reads :
      (bits : ℕ) (s : Text) (o : Option ℤ)
      → parse_int s ≡ o
      → Yields (Reads lib (int_of bits) s) (checked_int bits o)
  checked_int-Reads bits s none e = tt
  checked_int-Reads bits s (some z) e = elim (Bool-cases (fits_int bits z)) [
    | inl h ↦ rw h (reads_int bits s z (parse_int-IntText s z e) h)
    | inr h ↦ rw h tt
  ]

  parse_uint-below :
      (s : Text) (o : Option ℕ) (n : ℕ)
      → when_below (2 ^ 64) o ≡ some n
      → (o ≡ some n) × (n < 2 ^ 64)
  parse_uint-below s none n h = ground (arith, h)
  parse_uint-below s (some m) n h = ground (arith, h)

  checked_uint-Reads :
      (bits : ℕ) (s : Text) (o : Option ℕ)
      → parse_uint s ≡ o
      → Yields (Reads lib (uint_of bits) s) (checked_uint bits o)
  unfolding parse_uint
  checked_uint-Reads bits s none e = tt
  checked_uint-Reads bits s (some n) e = elim (Bool-cases (fits_uint bits n)) [
    | inl h ↦
        let (whole, below) = parse_uint-below s (read_unsigned s) n e in
        rw h (reads_uint bits s n (read_unsigned-Numeral s n whole) below h)
    | inr h ↦ rw h tt
  ]

  checked_bool-Reads :
      (s : Text) (o : Option Bool)
      → parse_bool s ≡ o
      → Yields (Reads lib boolean s) (checked_bool o)
  checked_bool-Reads s none e = tt
  checked_bool-Reads s (some b) e = reads_bool s b e

  checked_duration-Reads :
      (s : Text) (o : Option ℤ)
      → lib.parse_duration s ≡ o
      → Yields (Reads lib duration s) (checked_duration o)
  checked_duration-Reads s none e = tt
  checked_duration-Reads s (some d) e = reads_duration s d e

  checked_float-Reads :
      (bits : ℕ) (s : Text) (o : Option F)
      → lib.parse_float s ≡ o
      → Yields (Reads lib (float_of bits) s) (checked_float lib bits o)
  checked_float-Reads bits s none e = tt
  checked_float-Reads bits s (some x) e = elim (Bool-cases (lib.overflows bits x)) [
    | inl h ↦ rw h tt
    | inr h ↦ rw h (reads_float bits s x (lib.round_to bits x) e h refl)
  ]

  append_first-ReadsParts :
      (kind : Kind) (part : Text) (parts : List Text) (v : Parsed (Value F))
      (vs : Parsed (Values F))
      → is_empty (trim_space part) ≡ false
      → Yields (Reads lib kind (trim_space part)) v
      → Yields (ReadsParts lib kind parts) vs
      → Yields (ReadsParts lib kind (part ∷ parts)) (append_first v vs)
  append_first-ReadsParts kind part parts (failed e) vs s h k = tt
  append_first-ReadsParts kind part parts (parsed v) (failed e) s h k = tt
  append_first-ReadsParts kind part parts (parsed v) (parsed vs) s h k =
      solid kind part parts v vs s h k

  blank-Yields :
      (kind : Kind) (part : Text) (parts : List Text) (vs : Parsed (Values F))
      → is_empty (trim_space part) ≡ true
      → Yields (ReadsParts lib kind parts) vs
      → Yields (ReadsParts lib kind (part ∷ parts)) vs
  blank-Yields kind part parts (parsed vs) b h = blank kind part parts vs b h
  blank-Yields kind part parts (failed e) b h = tt

  set_parts-ReadsParts :
      (kind : Kind) (set_one : Text → Parsed (Value F))
      → ((s : Text) → Yields (Reads lib kind s) (set_one s))
      → (parts : List Text) → Yields (ReadsParts lib kind parts) (set_parts set_one parts)
  unfolding set_parts
  set_parts-ReadsParts kind set_one h [] = no_parts kind
  set_parts-ReadsParts kind set_one h (part ∷ parts) =
      elim (Bool-cases (is_empty (trim_space part))) [
        | inl b ↦ simp b (
            blank-Yields kind part parts (set_parts set_one parts) b
              (set_parts-ReadsParts kind set_one h parts))
        | inr s ↦ simp s (
            append_first-ReadsParts kind part parts (set_one (trim_space part))
              (set_parts set_one parts) s (h (trim_space part))
              (set_parts-ReadsParts kind set_one h parts))
      ]

  as_slice-Reads :
      (kind : Kind) (s : Text) (vs : Parsed (Values F))
      → Yields (ReadsParts lib kind (split_on b',' s)) vs
      → Yields (Reads lib (slice_of kind) s) (as_slice vs)
  as_slice-Reads kind s (parsed vs) h = reads_slice kind s vs h
  as_slice-Reads kind s (failed e) h = tt

  pub set_field-Reads : (kind : Kind) (s : Text) → Yields (Reads lib kind s) (set_field lib kind s)
  unfolding set_field
  set_field-Reads text s = reads_text s
  set_field-Reads boolean s = checked_bool-Reads s (parse_bool s) refl
  set_field-Reads duration s = checked_duration-Reads s (lib.parse_duration s) refl
  set_field-Reads unsupported s = tt
  set_field-Reads (int_of bits) s = checked_int-Reads bits s (parse_int s) refl
  set_field-Reads (uint_of bits) s = checked_uint-Reads bits s (parse_uint s) refl
  set_field-Reads (float_of bits) s = checked_float-Reads bits s (lib.parse_float s) refl
  set_field-Reads (slice_of kind) s =
      as_slice-Reads kind s (set_parts (set_field lib kind) (split_on b',' s))
        (set_parts-ReadsParts kind (set_field lib kind) (set_field-Reads kind) (split_on b',' s))

  Numeral-parse_uint : (s : Text) (n : ℕ) → Numeral s n → n < 2 ^ 64 → parse_uint s ≡ some n
  unfolding parse_uint
  Numeral-parse_uint s n h lt = ground (arith, lt, Numeral-read_unsigned s n h)

  mutual
    unfolding set_field set_parts

    read_back :
        (kind : Kind) (s : Text) (v : Value F)
        → Reads lib kind s v
        → set_field lib kind s ≡ parsed v
    read_back text s v (reads_text s') = refl
    read_back unsupported s v h = elim h [ ]
    read_back boolean s v (reads_bool s' b e) = ap checked_bool e
    read_back duration s v (reads_duration s' d e) = ap checked_duration e
    read_back (int_of bits) s v (reads_int bits' s' z h f) =
        ap (checked_int bits) (IntText-parse_int s z h) ∙ rw f
    read_back (uint_of bits) s v (reads_uint bits' s' n h lt f) =
        ap (checked_uint bits) (Numeral-parse_uint s n h lt) ∙ rw f
    read_back (float_of bits) s v (reads_float bits' s' x y e o r) =
        ap (checked_float lib bits) e ∙ ground (arith, o, r)
    read_back (slice_of kind) s v (reads_slice kind' s' vs h) =
        ap as_slice (read_back_parts kind (split_on b',' s) vs h)

    read_back_parts :
        (kind : Kind) (parts : List Text) (vs : Values F)
        → ReadsParts lib kind parts vs
        → set_parts (set_field lib kind) parts ≡ parsed vs
    read_back_parts kind [] vs (no_parts kind') = refl
    read_back_parts kind (part ∷ parts) vs (blank kind' part' parts' vs' b h) =
        simp b (read_back_parts kind parts vs h)
    read_back_parts kind (part ∷ parts) vs (solid kind' part' parts' v ws s h k) =
        simp (s, read_back kind (trim_space part) v h, read_back_parts kind parts ws k)

  Yields-parsed :
      {A : Type 0} (P : A → Type 0) (p : Parsed A) (v : A) → Yields P p → p ≡ parsed v → P v
  Yields-parsed P (parsed w) v h e = subst P (cc) h
  Yields-parsed P (failed d) v h e = ground (arith, e)

  -- `setField` sets a field to a value exactly if the text reads as that value of the field's kind: a
  -- decimal integer of 64 bits that fits the field's bits, and so on; for a slice, the parts between
  -- commas that are not blank, in order.
  pub set_field_iff :
      (kind : Kind) (s : Text) (v : Value F)
      → (set_field lib kind s ≡ parsed v) ↔ Reads lib kind s v
  set_field_iff kind s v = (
    Yields-parsed (Reads lib kind s) (set_field lib kind s) v (set_field-Reads kind s),
    read_back kind s v,
  )
