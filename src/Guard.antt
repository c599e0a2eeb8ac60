-- ===== src/Guard.antt =====
-- guard/guard.go: `SanitizeString` over the code points of a text, and the validation errors. Text is a
-- list of code points, as `range` gives them.
pub mod Trimming
pub mod Sanitize
pub mod Validation
mod Tests
use gopher_core.Common.{
  ℕ, ◌≤◌, Bool, not, ◌&&◌, ◌||◌, List, [], ◌∷◌, leb, ◌==◌, keep, if◌then◌else◌, String, Option,
}
use gopher_core.Runtime.{Err}
use gopher_core.Common.Text.{trim_space}

-- `unicode.IsControl`
abbrev pub is_control : ℕ → Bool
is_control r = leb r 0x1f || (leb 0x7f r && leb r 0x9f)

-- The test of the loop
abbrev pub is_allowed : ℕ → Bool
is_allowed r = not (is_control r) || r == 0x0a || r == 0x0d || r == 0x09

-- `SanitizeString`
pub sanitize_string : List ℕ → List ℕ
unfolding trim_space
sanitize_string s = trim_space (keep is_allowed s)

-- `StripHTML`, of the policy's `Sanitize`
unfoldable pub strip_html : (sanitize : String → String) → String → String
strip_html sanitize s = sanitize s

-- `RegisterValidation`, of the validator's own, over a state `V` of the validator
unfoldable pub register_validation :
    {F V : Type 0} → (register : String → F → V → V × Option Err) → String → F → V → V × Option Err
register_validation register tag fn v = register tag fn v
