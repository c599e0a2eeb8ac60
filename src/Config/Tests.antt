-- ===== src/Config/Tests.antt =====
-- A configuration with a nested struct, a pointer and a slice, and the theorems at it.
use gopher_core.Common.{ℕ, ◌≡◌, ◌↔◌, refl, true, false, Option, none, some, [], ◌∷◌, String, arith}
use gopher_core.Common.Int.{pos, negsuc}
use gopher_core.Common.Dict.{lookup}
use gopher_core.Common.Text.{Text, codes, trim_space, trim_left, split_on}
use gopher_core.Config.Numerals.{parse_int, parse_uint, read_unsigned, read_digits}
use gopher_core.Config.{
  Env, Library, int_of, uint_of, slice_of, int_value, uint_value, slice_value, nil, cons, LoadError,
  overflow, in_field, parsed, set_field, set_parts,
}
use gopher_core.Config.Fields.{
  Tag, leaf, absent, present, Fields, end, field, populate, load_leaf, find_text, load, pointer_to,
}
use gopher_core.Config.Typed.{
  AllTyped, typed_leaf, typed_absent, typed_field, typed_end, populate-AllTyped,
}
use gopher_core.Config.Reads.{Reads, set_field_iff}
use gopher_core.Config.Loading.{Loads}
use gopher_core.Config.Complete.{load_iff}
use gopher_core.Config.Failing.{Stops, populate-Stops}

-- A library without durations and floats
abbrev bare : Library ℕ
bare = record {
  parse_duration = λ s. none;
  parse_float = λ s. none;
  overflows = λ bits x. false;
  round_to = λ bits x. x;
}

abbrev tag : String → String → Text → Tag
tag name key default_text = record {
  name = name;
  settable = true;
  env_key = key;
  env_default = default_text;
}

abbrev ports : Fields ℕ
ports = field (tag "Ports" "PORTS" []) (leaf (slice_of (uint_of 16)) (slice_value nil)) end

abbrev blank_config : Fields ℕ
blank_config =
    field (tag "Level" "LEVEL" (codes "-7")) (leaf (int_of 8) (int_value (pos 0)))
      (field (tag "Net" "" []) (absent ports) end)

abbrev env : Env
env = ("PORTS", codes "80, 443,") ∷ []

abbrev full_config : Fields ℕ
full_config = field (tag "Level" "LEVEL" (codes "-7")) (leaf (int_of 8) (int_value (negsuc 6))) (
    field (tag "Net" "" [])
      (present (
        field (tag "Ports" "PORTS" [])
          (leaf (slice_of (uint_of 16))
            (slice_value (cons (uint_value 80) (cons (uint_value 443) nil))))
          end))
      end)

loaded : load bare env (λ fs. none) (pointer_to blank_config) ≡ (pointer_to full_config, none)
unfolding load populate load_leaf find_text set_field set_parts split_on trim_space trim_left lookup
    parse_int parse_uint read_unsigned read_digits
loaded = refl

abbrev bad_env : Env
bad_env = ("LEVEL", codes "300") ∷ []

refused : (populate bare bad_env blank_config).1 ≡ some (in_field "Level" overflow)
unfolding populate load_leaf find_text set_field lookup parse_int read_unsigned read_digits
refused = refl

blank_config-AllTyped : AllTyped blank_config
blank_config-AllTyped =
    typed_field (typed_leaf refl)
      (typed_field (typed_absent (typed_field (typed_leaf tt) typed_end)) typed_end)

abbrev accept : Fields ℕ → Option LoadError
accept fs = none

load_iff_example :
    (load bare env accept (pointer_to blank_config) ≡ (pointer_to full_config, none))
    ↔ (Loads bare env blank_config full_config × (accept full_config ≡ none))
load_iff_example = load_iff bare env accept blank_config full_config

populate-Stops_example :
    Stops bare bad_env blank_config
      (populate bare bad_env blank_config).0
      (in_field "Level" overflow)
populate-Stops_example =
    populate-Stops bare bad_env blank_config (in_field "Level" overflow) refused

populate-AllTyped_example : AllTyped (populate bare env blank_config).0
populate-AllTyped_example =
    populate-AllTyped bare (λ s d e. ground (arith, e)) env blank_config blank_config-AllTyped

set_field_iff_example :
    (set_field bare (int_of 8) (codes "-128") ≡ parsed (int_value (negsuc 127)))
    ↔ Reads bare (int_of 8) (codes "-128") (int_value (negsuc 127))
set_field_iff_example = set_field_iff bare (int_of 8) (codes "-128") (int_value (negsuc 127))
