-- ===== src/Log.antt =====
-- logkit/logkit.go: the settings of a logger. A level and a writer are numbers; `slog`'s handlers and
-- loggers are a parameter.
mod Tests
use gopher_core.Common.{ℕ, Option, List}
use gopher_core.Common.Int.{ℤ, pos}
use gopher_core.Runtime.{apply_options}

pub record Config : Type 0 where
  pub level : ℤ
  pub writer : ℕ

unfoldable pub with_level : ℤ → Config → Config
with_level level c = record c { level = level }

unfoldable pub with_writer : ℕ → Config → Config
with_writer writer c = record c { writer = writer }

-- `slog.LevelInfo`
abbrev pub level_info : ℤ
level_info = pos 0

-- `NewLogger`, of what `slog` makes of a writer and a level; `stdout` is `os.Stdout`.
unfoldable pub new_logger :
    {L : Type 0}
    → (new_json_handler : (writer : ℕ) (level : ℤ) → L) → (stdout : ℕ)
    → List (Option (Config → Config))
    → L
unfolding apply_options
new_logger new_json_handler stdout opts =
    let config : Config = apply_options opts (record { level = level_info; writer = stdout }) in
    new_json_handler config.writer config.level

-- `Initialize`, of `slog.SetDefault` on a state `S`
unfoldable pub initialize :
    {L S : Type 0}
    → (new_json_handler : (writer : ℕ) (level : ℤ) → L) → (stdout : ℕ) → (set_default : L → S → S)
    → List (Option (Config → Config))
    → S
    → S
unfolding new_logger
initialize new_json_handler stdout set_default opts s =
    set_default (new_logger new_json_handler stdout opts) s
