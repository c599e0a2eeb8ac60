-- ===== src/Config.antt =====
-- config/config.go: a struct filled from the environment. The struct that `reflect` walks is a tree of
-- fields with their tags and values; what `time.ParseDuration`, `strconv.ParseFloat` and
-- the validator do is a parameter.
pub mod Numerals
pub mod Fields
pub mod Typed
pub mod Reading
pub mod Reads
pub mod Loading
pub mod Complete
pub mod Failing
mod Tests
use gopher_core.Common.{
  ℕ, Bool, true, false, Option, none, some, List, [], ◌∷◌, String, if◌then◌else◌,
}
use gopher_core.Common.Int.{ℤ}
use gopher_core.Common.Dict.{Dict, lookup, same_key}
use gopher_core.Common.Text.{Text, is_empty, trim_space, split_on}
use gopher_core.Config.Numerals.{parse_int, parse_uint, parse_bool, fits_int, fits_uint}

-- The environment
abbrev pub Env : Type 0
Env = Dict Text

-- Kinds of types, as `setField` tells them apart; integers and floats with their bits
pub data Kind : Type 0 where
  text boolean duration unsupported : Kind
  int_of uint_of float_of : ℕ → Kind
  slice_of : Kind → Kind

mutual
  pub data Value (F : Type 0) : Type 0 where
    text_value : Text → Value F
    bool_value : Bool → Value F
    int_value : ℤ → Value F
    uint_value : ℕ → Value F
    float_value : F → Value F
    slice_value : Values F → Value F
    -- of a kind that is not supported
    other_value : Value F

  pub data Values (F : Type 0) : Type 0 where
    nil : Values F
    cons : Value F → Values F → Values F

-- What other libraries do with floats and durations, `F` being the floats of 64 bits
pub record Library (F : Type 0) : Type 0 where
  pub parse_duration : Text → Option ℤ
  pub parse_float : Text → Option F
  pub overflows : ℕ → F → Bool
  -- What a field of so many bits keeps
  pub round_to : ℕ → F → F

pub data LoadError : Type 0 where
  not_a_pointer not_a_struct : LoadError
  bad_text overflow unsupported_type : LoadError
  in_field : String → LoadError → LoadError
  invalid : ℕ → LoadError

-- A value, or the error that there is none
pub data Parsed (A : Type 0) : Type 0 where
  parsed : A → Parsed A
  failed : LoadError → Parsed A

module _ {F : Type 0} where
  abbrev pub checked_int : ℕ → Option ℤ → Parsed (Value F)
  checked_int bits none = failed bad_text
  checked_int bits (some z) = if fits_int bits z then parsed (int_value z) else failed overflow

  abbrev pub checked_uint : ℕ → Option ℕ → Parsed (Value F)
  checked_uint bits none = failed bad_text
  checked_uint bits (some n) = if fits_uint bits n then parsed (uint_value n) else failed overflow

  abbrev pub checked_bool : Option Bool → Parsed (Value F)
  checked_bool none = failed bad_text
  checked_bool (some b) = parsed (bool_value b)

  abbrev pub checked_duration : Option ℤ → Parsed (Value F)
  checked_duration none = failed bad_text
  checked_duration (some d) = parsed (int_value d)

  abbrev pub append_first : Parsed (Value F) → Parsed (Values F) → Parsed (Values F)
  append_first (failed e) rest = failed e
  append_first (parsed v) (failed e) = failed e
  append_first (parsed v) (parsed vs) = parsed (cons v vs)

  -- The loop over the parts of a slice
  unfoldable pub set_parts : (Text → Parsed (Value F)) → List Text → Parsed (Values F)
  set_parts set_one [] = parsed nil
  set_parts set_one (part ∷ parts) =
      let rest = set_parts set_one parts in
      if is_empty (trim_space part) then rest else append_first (set_one (trim_space part)) rest

  abbrev pub as_slice : Parsed (Values F) → Parsed (Value F)
  as_slice (failed e) = failed e
  as_slice (parsed vs) = parsed (slice_value vs)

module _ {F : Type 0} (lib : Library F) where
  abbrev pub checked_float : ℕ → Option F → Parsed (Value F)
  checked_float bits none = failed bad_text
  checked_float bits (some x) =
      if lib.overflows bits x then failed overflow else parsed (float_value (lib.round_to bits x))

  -- `setField`: what it sets the field to, or its error, with which it leaves the field as it is
  unfoldable pub set_field : Kind → Text → Parsed (Value F)
  unfolding parse_int parse_uint parse_bool set_parts split_on
  set_field text s = parsed (text_value s)
  set_field (int_of bits) s = checked_int bits (parse_int s)
  set_field duration s = checked_duration (lib.parse_duration s)
  set_field (uint_of bits) s = checked_uint bits (parse_uint s)
  set_field boolean s = checked_bool (parse_bool s)
  set_field (float_of bits) s = checked_float bits (lib.parse_float s)
  set_field (slice_of kind) s = as_slice (set_parts (set_field kind) (split_on b',' s))
  set_field unsupported s = failed unsupported_type
