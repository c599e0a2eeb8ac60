-- ===== src/Config/Typed.antt =====
-- What `populate` (config/config.go) sets fits its field's type.
use gopher_core.Common.{
  ℕ, ◌≡◌, refl, Bool, true, false, Option, none, some, List, [], ◌∷◌, inl, inr, Bool-cases,
}
use gopher_core.Common.Int.{ℤ}
use gopher_core.Common.Dict.{same_key}
use gopher_core.Common.Text.{Text, is_empty, trim_space, split_on}
use gopher_core.Config.Numerals.{parse_int, parse_uint, parse_bool, fits_int, fits_uint}
use gopher_core.Config.{
  Env, Kind, text, boolean, duration, unsupported, int_of, uint_of, float_of, slice_of, Value,
  text_value, bool_value, int_value, uint_value, float_value, slice_value, other_value, Values, nil,
  cons, Library, LoadError, Parsed, parsed, failed, checked_int, checked_uint, checked_bool,
  checked_duration, checked_float, append_first, set_parts, as_slice, set_field,
}
use gopher_core.Config.Fields.{
  Tag, Node, leaf, nested, absent, present, Fields, end, field, find_text, load_leaf, set_text,
  keep_or_set, populate, visit, after, when_settable,
}

abbrev pub Each : {F : Type 0} → (Value F → Type 0) → Values F → Type 0
Each P nil = Unit
Each P (cons v vs) = P v × Each P vs

-- The value is one of a kind: an integer within its bits, and so on.
abbrev pub Fits : {F : Type 0} → Kind → Value F → Type 0
Fits text (text_value s) = Unit
Fits boolean (bool_value b) = Unit
Fits duration (int_value z) = fits_int 64 z ≡ true
Fits (int_of bits) (int_value z) = fits_int bits z ≡ true
Fits (uint_of bits) (uint_value n) = fits_uint bits n ≡ true
Fits (float_of bits) (float_value x) = Unit
Fits (slice_of kind) (slice_value vs) = Each (Fits kind) vs
Fits unsupported other_value = Unit
Fits _ _ = ⊥

-- What a parse gives, if it gives a value, has the property.
abbrev pub Yields : {A : Type 0} → (A → Type 0) → Parsed A → Type 0
Yields P (parsed v) = P v
Yields P (failed e) = Unit

mutual
  pub data WellTyped {F : Type 0} : Node F → Type 0 where
    typed_leaf : {kind : Kind} {v : Value F} → Fits kind v → WellTyped (leaf kind v)
    typed_nested : {fs : Fields F} → AllTyped fs → WellTyped (nested fs)
    typed_absent : {fs : Fields F} → AllTyped fs → WellTyped (absent fs)
    typed_present : {fs : Fields F} → AllTyped fs → WellTyped (present fs)

  -- Every field, nested ones included, holds a value of its kind.
  pub data AllTyped {F : Type 0} : Fields F → Type 0 where
    typed_end : AllTyped end
    typed_field :
        {tag : Tag} {node : Node F} {rest : Fields F}
        → WellTyped node
        → AllTyped rest
        → AllTyped (field tag node rest)

module _ {F : Type 0} where
  append_first-Each :
      (P : Value F → Type 0) (v : Parsed (Value F)) (vs : Parsed (Values F))
      → Yields P v
      → Yields (Each P) vs
      → Yields (Each P) (append_first v vs)
  append_first-Each P (failed e) vs h k = tt
  append_first-Each P (parsed v) (failed e) h k = tt
  append_first-Each P (parsed v) (parsed vs) h k = (h, k)

  set_parts-Each :
      (P : Value F → Type 0) (set_one : Text → Parsed (Value F))
      → ((s : Text) → Yields P (set_one s))
      → (parts : List Text) → Yields (Each P) (set_parts set_one parts)
  unfolding set_parts
  set_parts-Each P set_one h [] = tt
  set_parts-Each P set_one h (part ∷ parts) = elim (Bool-cases (is_empty (trim_space part))) [
    | inl blank ↦ rw blank (set_parts-Each P set_one h parts)
    | inr solid ↦ rw solid (
        append_first-Each P (set_one (trim_space part)) (set_parts set_one parts)
          (h (trim_space part)) (set_parts-Each P set_one h parts))
  ]

  as_slice-Fits :
      (kind : Kind) (vs : Parsed (Values F))
      → Yields (Each (Fits kind)) vs
      → Yields (Fits (slice_of kind)) (as_slice vs)
  as_slice-Fits kind (parsed vs) h = h
  as_slice-Fits kind (failed e) h = tt

-- Durations are integers of 64 bits.
abbrev pub DurationsFit : {F : Type 0} → Library F → Type 0
DurationsFit lib = (s : Text) (d : ℤ) → lib.parse_duration s ≡ some d → fits_int 64 d ≡ true

module _ {F : Type 0} (lib : Library F) (durations : DurationsFit lib) where
  checked_int-Fits :
      (bits : ℕ) (o : Option ℤ) → Yields (Fits (int_of bits)) (checked_int {F = F} bits o)
  checked_int-Fits bits none = tt
  checked_int-Fits bits (some z) = elim (Bool-cases (fits_int bits z)) [
    | inl h ↦ rw h h
    | inr h ↦ rw h tt
  ]

  checked_uint-Fits :
      (bits : ℕ) (o : Option ℕ) → Yields (Fits (uint_of bits)) (checked_uint {F = F} bits o)
  checked_uint-Fits bits none = tt
  checked_uint-Fits bits (some n) = elim (Bool-cases (fits_uint bits n)) [
    | inl h ↦ rw h h
    | inr h ↦ rw h tt
  ]

  checked_bool-Fits : (o : Option Bool) → Yields (Fits boolean) (checked_bool {F = F} o)
  checked_bool-Fits none = tt
  checked_bool-Fits (some b) = tt

  checked_duration-Fits :
      (s : Text) (o : Option ℤ)
      → lib.parse_duration s ≡ o
      → Yields (Fits duration) (checked_duration {F = F} o)
  checked_duration-Fits s none e = tt
  checked_duration-Fits s (some d) e = durations s d e

  checked_float-Fits :
      (bits : ℕ) (o : Option F) → Yields (Fits (float_of bits)) (checked_float lib bits o)
  checked_float-Fits bits none = tt
  checked_float-Fits bits (some x) = elim (Bool-cases (lib.overflows bits x)) [
    | inl h ↦ rw h tt
    | inr h ↦ rw h tt
  ]

  -- A value that `setField` sets fits the kind of the field.
  pub set_field-Fits : (kind : Kind) (s : Text) → Yields (Fits kind) (set_field lib kind s)
  unfolding set_field
  set_field-Fits text s = tt
  set_field-Fits boolean s = checked_bool-Fits (parse_bool s)
  set_field-Fits duration s = checked_duration-Fits s (lib.parse_duration s) refl
  set_field-Fits unsupported s = tt
  set_field-Fits (int_of bits) s = checked_int-Fits bits (parse_int s)
  set_field-Fits (uint_of bits) s = checked_uint-Fits bits (parse_uint s)
  set_field-Fits (float_of bits) s = checked_float-Fits bits (lib.parse_float s)
  set_field-Fits (slice_of kind) s =
      as_slice-Fits kind (set_parts (set_field lib kind) (split_on b',' s))
        (set_parts-Each (Fits kind) (set_field lib kind) (set_field-Fits kind) (split_on b',' s))

  keep_or_set-WellTyped :
      (env : Env) (tag : Tag) (kind : Kind) (v : Value F) (p : Parsed (Value F))
      → Fits kind v
      → Yields (Fits kind) p
      → WellTyped (keep_or_set lib env tag kind v p).0
  keep_or_set-WellTyped env tag kind v (parsed w) old new = typed_leaf new
  keep_or_set-WellTyped env tag kind v (failed e) old new = typed_leaf old

  set_text-WellTyped :
      (env : Env) (tag : Tag) (kind : Kind) (v : Value F) (o : Option Text)
      → Fits kind v
      → WellTyped (set_text lib env tag kind v o).0
  set_text-WellTyped env tag kind v none h = typed_leaf h
  set_text-WellTyped env tag kind v (some s) h =
      keep_or_set-WellTyped env tag kind v (set_field lib kind s) h (set_field-Fits kind s)

  load_leaf-WellTyped :
      (env : Env) (tag : Tag) (kind : Kind) (v : Value F)
      → Fits kind v
      → WellTyped (load_leaf lib env tag kind v).0
  unfolding load_leaf
  load_leaf-WellTyped env tag kind v h = elim (Bool-cases (same_key tag.env_key "")) [
    | inl none_given ↦ simp none_given (typed_leaf h)
    | inr given ↦ simp given (set_text-WellTyped env tag kind v (find_text env tag) h)
  ]

  when_settable-WellTyped :
      (env : Env) (b : Bool) (node : Node F) (visited : Node F × Option LoadError)
      → WellTyped node
      → WellTyped visited.0
      → WellTyped (when_settable lib env b node visited).0
  when_settable-WellTyped env true node visited h k = k
  when_settable-WellTyped env false node visited h k = h

  after-AllTyped :
      (env : Env) (tag : Tag) (visited : Node F × Option LoadError) (rest : Fields F)
      (loaded : Fields F × Option LoadError)
      → WellTyped visited.0
      → AllTyped rest
      → AllTyped loaded.0
      → AllTyped (after lib env tag visited rest loaded).0
  after-AllTyped env tag (node, some e) rest loaded h k l = typed_field h k
  after-AllTyped env tag (node, none) rest (rest', o) h k l = typed_field h l

  mutual
    unfolding populate

    populate_typed : (env : Env) (fs : Fields F) → AllTyped fs → AllTyped (populate lib env fs).0
    populate_typed env end h = typed_end
    populate_typed env (field tag node rest) (typed_field h k) =
        after-AllTyped env tag (visit lib env tag node) rest (populate lib env rest)
          (visit_typed env tag node h) k (populate_typed env rest k)

    visit_typed :
        (env : Env) (tag : Tag) (node : Node F)
        → WellTyped node
        → WellTyped (visit lib env tag node).0
    visit_typed env tag (leaf kind v) (typed_leaf h) =
        when_settable-WellTyped env tag.settable _ (load_leaf lib env tag kind v) (typed_leaf h)
          (load_leaf-WellTyped env tag kind v h)
    visit_typed env tag (nested fs) (typed_nested h) =
        when_settable-WellTyped env tag.settable _ _ (typed_nested h)
          (typed_nested (populate_typed env fs h))
    visit_typed env tag (absent fs) (typed_absent h) =
        when_settable-WellTyped env tag.settable _ _ (typed_absent h)
          (typed_present (populate_typed env fs h))
    visit_typed env tag (present fs) (typed_present h) =
        when_settable-WellTyped env tag.settable _ _ (typed_present h)
          (typed_present (populate_typed env fs h))

  -- When `time.ParseDuration` gives integers of 64 bits, `populate` keeps a struct well typed, whether it
  -- ends with an error or not: an integer that it sets is within the bits of its field, in nested
  -- structs and slices too.
  pub populate-AllTyped :
      (env : Env) (fs : Fields F) → AllTyped fs → AllTyped (populate lib env fs).0
  populate-AllTyped env fs h = populate_typed env fs h
