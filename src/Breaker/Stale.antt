-- ===== src/Breaker/Stale.antt =====
-- What an earlier state leaves behind (circuitbreaker/circuitbreaker.go): `Reset` on a closed breaker, and
-- the end of a call that was admitted before the breaker tripped.
use gopher_core.Common.{
  ℕ, suc, false, none, ◌+◌, ◌<◌, ◌≡◌, ◌∙◌, Option, List, length, All, arith, ap,
}
use gopher_core.Common.Int.{pos_part, pos, ◌≤ℤ◌}
use gopher_core.Runtime.{Err, Outcome, returned}
use gopher_core.Breaker.{
  Breaker, closed, opened, half_open, reset, transition_to, settle, leave_probe, record_success,
}
use gopher_core.Breaker.System.{Call, System, advance, leave}
use gopher_core.Breaker.Runs.{play, IsFailure, failures_trip}

reset-closed : (b : Breaker) → b.state ≡ closed → reset b ≡ b
unfolding reset transition_to
reset-closed b st = ground arith

-- `Reset` on a closed breaker with failures in a row clears nothing: as many failures as were missing to
-- `FailureThreshold` before it trip the breaker after it, although they are fewer than the threshold.
pub reset_keeps_failures :
    (rs : List (ℕ × Outcome (Option Err))) (b : Breaker)
    → b.state ≡ closed
    → 0 < b.failure_count
    → b.failure_count < pos_part b.config.failure_threshold
    → All (λ r. IsFailure r.1) rs
    → b.failure_count + length rs ≡ pos_part b.config.failure_threshold
    → ((play rs (reset b)).state ≡ opened) × (length rs < pos_part b.config.failure_threshold)
reset_keeps_failures rs b st some_failures below f n = (
  ap (λ c. (play rs c).state) (reset-closed b st) ∙ (failures_trip rs b st below f n).0,
  omega arith,
)

-- In a half-open breaker a success short of `SuccessThreshold`, the success of a call that is no probe, as
-- one that was admitted before the breaker tripped, closes it: it counts as a probe's would.
pub stale_success_closes :
    (s : System) (c : Call) (rest : List Call) (now : ℕ)
    → c.probe ≡ false
    → s.breaker.state ≡ half_open
    → s.breaker.config.success_threshold ≤ℤ pos (suc s.breaker.success_count)
    → (leave now c rest (returned none) none s).breaker.state ≡ closed
unfolding leave advance settle leave_probe record_success transition_to
stale_success_closes s c rest now plain st enough = ground (arith, plain, st)
