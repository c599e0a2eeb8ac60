-- ===== src/Retry/Settings.antt =====
-- The settings of retry/retry.go, their defaults and the functional options.
use gopher_core.Common.{ℕ, ◌*◌, Bool, true, Option, some, List, if◌then◌else◌}
use gopher_core.Common.Int.{ℤ, pos, ltb_ℤ}
use gopher_core.Runtime.{Err, apply_options}

-- `StrategyConstant`, `StrategyExponential`, and any other value of the underlying int
pub data Strategy : Type 0 where
  constant exponential : Strategy
  unknown : ℤ → Strategy

pub record Config : Type 0 where
  pub max_attempts : ℤ
  pub initial_delay : ℤ
  pub max_delay : ℤ
  pub strategy : Strategy
  pub jitter : Bool
  -- none for a nil function
  pub retry_if : Option (Err → Bool)

abbrev pub millisecond : ℕ
millisecond = 1_000_000

unfoldable pub default_config : Config
default_config = record {
  max_attempts = pos 3;
  initial_delay = pos (100 * millisecond);
  max_delay = pos (10_000 * millisecond);
  strategy = exponential;
  jitter = true;
  retry_if = some (λ e. true);
}

unfoldable pub with_max_attempts : ℤ → Config → Config
with_max_attempts n c = if ltb_ℤ (pos 0) n then record c { max_attempts = n } else c

unfoldable pub with_initial_delay : ℤ → Config → Config
with_initial_delay d c = record c { initial_delay = d }

unfoldable pub with_max_delay : ℤ → Config → Config
with_max_delay d c = record c { max_delay = d }

unfoldable pub with_strategy : Strategy → Config → Config
with_strategy s c = record c { strategy = s }

unfoldable pub with_jitter : Bool → Config → Config
with_jitter enabled c = record c { jitter = enabled }

unfoldable pub with_retry_if : Option (Err → Bool) → Config → Config
with_retry_if fn c = record c { retry_if = fn }

-- The configuration that `Do` and `DoWithValue` build from their options
unfoldable pub configure : List (Option (Config → Config)) → Config
unfolding default_config apply_options
configure opts = apply_options opts default_config
