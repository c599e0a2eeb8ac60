-- ===== src/Guard/Tests.antt =====
-- Texts through the sanitizer, and the theorems at concrete inputs.
use gopher_core.Common.{ℕ, ◌≡◌, refl, List, [], ◌∷◌}
use mathlib.Core.List.{reverse}
use gopher_core.Guard.{sanitize_string}
use gopher_core.Guard.Sanitize.{Begins, sanitize_string_splits}
use gopher_core.Guard.Validation.{FieldError, format_validation_error}

-- " \0a\tb\u{2003}", and "a\tb"
abbrev dirty : List ℕ
dirty = 0x20 ∷ 0 ∷ b'a' ∷ 9 ∷ b'b' ∷ 0x2003 ∷ []

abbrev clean : List ℕ
clean = b'a' ∷ 9 ∷ b'b' ∷ []

dirty_cleans : sanitize_string dirty ≡ clean
unfolding sanitize_string
dirty_cleans = refl

sanitize_string_splits_example : Begins (reverse (sanitize_string dirty))
sanitize_string_splits_example = (sanitize_string_splits dirty).6

abbrev short : FieldError
short = record { field = "Name"; tag = "min"; value = "x"; param = "3" }

short_message : format_validation_error short ≡ "field 'Name' must be at least 3"
unfolding format_validation_error
short_message = refl
