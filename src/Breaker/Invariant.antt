-- ===== src/Breaker/Invariant.antt =====
-- What holds of a breaker between two critical sections, and that each of them keeps it.
use gopher_core.Common.{ℕ, ◌<◌, ◌≡◌, Bool, arith}
use gopher_core.Common.Int.{◌≤ℤ◌, pos_part, IsPositive, ◌+ℤ◌, ◌-ℤ◌}
use gopher_core.Breaker.{
  Breaker, Config, closed, half_open, new, current_state, record_success, record_failure, reset,
  admit, leave_probe,
}

pub record IsValid (b : Breaker) : Type 0 where
  pub failure_positive : IsPositive b.config.failure_threshold
  pub success_positive : IsPositive b.config.success_threshold
  pub timeout_positive : IsPositive b.config.timeout
  pub max_positive : IsPositive b.config.max_half_open_requests
  -- a breaker whose failures reach the threshold is no longer closed
  pub failures_below : b.failure_count < pos_part b.config.failure_threshold
  pub failures_when_closed : 0 < b.failure_count → b.state ≡ closed
  pub successes_below : b.success_count < pos_part b.config.success_threshold
  pub successes_when_half_open : 0 < b.success_count → b.state ≡ half_open
  pub probes_capped : b.half_open_requests ≤ℤ b.config.max_half_open_requests

pub new-IsValid : (cfg : Config) → IsValid (new cfg)
unfolding new
new-IsValid cfg = ground arith

pub current_state-IsValid : (now : ℕ) (b : Breaker) → IsValid b → IsValid (current_state now b)
unfolding current_state
current_state-IsValid now b v = ground arith

pub admit-IsValid : (now : ℕ) (b : Breaker) → IsValid b → IsValid (admit now b).0
unfolding admit current_state ◌+ℤ◌
admit-IsValid now b v = ground arith

pub leave_probe-IsValid : (probe : Bool) (b : Breaker) → IsValid b → IsValid (leave_probe probe b)
unfolding leave_probe ◌-ℤ◌
leave_probe-IsValid probe b v = ground arith

pub record_success-IsValid : (b : Breaker) → IsValid b → IsValid (record_success b)
unfolding record_success
record_success-IsValid b v = ground arith

pub record_failure-IsValid : (now : ℕ) (b : Breaker) → IsValid b → IsValid (record_failure now b)
unfolding record_failure
record_failure-IsValid now b v = ground arith

pub reset-IsValid : (b : Breaker) → IsValid b → IsValid (reset b)
unfolding reset
reset-IsValid b v = ground arith
