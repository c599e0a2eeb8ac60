-- ===== src/Breaker/Runs.antt =====
-- Calls one after another through `Execute` (circuitbreaker/circuitbreaker.go): how many failures trip
-- the breaker, and how many successes close it again.
use gopher_core.Common.{
  ℕ, ◌+◌, ◌-◌, ◌<◌, ◌≡◌, refl, false, Option, some, none, List, [], ◌∷◌, arith, length, All, map,
}
use gopher_core.Common.Int.{pos, pos_part, leb_ℤ, +-ℤ_cancel}
use gopher_core.Runtime.{Err, sentinel, circuit_open, canceled, is, Outcome, returned, panicked}
use gopher_core.Breaker.{
  Breaker, transition_to, closed, opened, half_open, execute, admit, current_state, settle,
  record_failure, record_success, leave_probe,
}
use gopher_core.Breaker.Gate.{opened_refuses}

-- The calls in turn, each with the time at which it starts and ends, and its function's outcome.
pub play : List (ℕ × Outcome (Option Err)) → Breaker → Breaker
unfolding execute
play [] b = b
play ((now, result) ∷ rest) b = play rest (execute now now (λ x. x) result b).0

-- An outcome that counts against the service: a panic, or an error that is no cancellation.
abbrev pub IsFailure : Outcome (Option Err) → Type 0
IsFailure (panicked v) = Unit
IsFailure (returned none) = ⊥
IsFailure (returned (some e)) = is e canceled ≡ false

execute-closed_failure :
    (now : ℕ) (result : Outcome (Option Err)) (b : Breaker)
    → b.state ≡ closed
    → IsFailure result
    → (execute now now (λ x. x) result b).0 ≡ record_failure now b
unfolding execute admit current_state settle leave_probe
execute-closed_failure now (panicked v) b st f = ground arith
execute-closed_failure now (returned none) b st f = elim f [ ]
execute-closed_failure now (returned (some e)) b st f = ground arith

-- A closed breaker stays closed while its consecutive failures are fewer than `FailureThreshold`,
-- and counts each of them.
pub failures_counted :
    (rs : List (ℕ × Outcome (Option Err))) (b : Breaker)
    → b.state ≡ closed
    → All (λ r. IsFailure r.1) rs
    → b.failure_count + length rs < pos_part b.config.failure_threshold
    → ((play rs b).state ≡ closed) × ((play rs b).failure_count ≡ b.failure_count + length rs)
unfolding play record_failure
failures_counted [] b st f h = (st, omega arith)
failures_counted ((now, result) ∷ rs) b st f h =
    let e = execute-closed_failure now result b st f.0 in
    ground (arith, e, failures_counted rs (execute now now (λ x. x) result b).0)

-- The failure that makes `FailureThreshold` in a row trips a closed breaker, which is then open
-- with its counters at 0.
pub failures_trip :
    (rs : List (ℕ × Outcome (Option Err))) (b : Breaker)
    → b.state ≡ closed
    → b.failure_count < pos_part b.config.failure_threshold
    → All (λ r. IsFailure r.1) rs
    → b.failure_count + length rs ≡ pos_part b.config.failure_threshold
    → ((play rs b).state ≡ opened)
      × ((play rs b).failure_count ≡ 0)
      × ((play rs b).half_open_requests ≡ pos 0)
unfolding play record_failure
failures_trip [] b st v f h = absurd (omega arith)
failures_trip ((now, result) ∷ []) b st v f h =
    let e = execute-closed_failure now result b st f.0 in ground (arith, e)
failures_trip ((now, result) ∷ r ∷ rs) b st v f h =
    let e = execute-closed_failure now result b st f.0 in
    ground (arith, e, failures_trip (r ∷ rs) (execute now now (λ x. x) result b).0)

-- A success starts the count of failures of a closed breaker again.
pub execute-closed_success :
    (now : ℕ) (b : Breaker)
    → b.state ≡ closed
    → (execute now now (λ x. x) (returned none) b).0 ≡ record b { failure_count = 0 }
unfolding execute admit current_state settle leave_probe record_success
execute-closed_success now b st = ground arith

execute-half_open_success :
    (now : ℕ) (b : Breaker)
    → b.state ≡ half_open
    → leb_ℤ b.config.max_half_open_requests b.half_open_requests ≡ false
    → (execute now now (λ x. x) (returned none) b).0 ≡ record_success b
unfolding execute admit current_state settle leave_probe record_success
execute-half_open_success now b st free = ground (arith, +-ℤ_cancel b.half_open_requests)

-- A half-open breaker with room for a probe stays half-open while the calls that succeed, one after
-- another, are fewer than `SuccessThreshold`, and counts each of them.
pub successes_counted :
    (ts : List ℕ) (b : Breaker)
    → b.state ≡ half_open
    → leb_ℤ b.config.max_half_open_requests b.half_open_requests ≡ false
    → b.success_count + length ts < pos_part b.config.success_threshold
    → let c = play (map (λ t. (t, returned none)) ts) b in
      (c.state ≡ half_open) × (c.success_count ≡ b.success_count + length ts)
unfolding play record_success
successes_counted [] b st free h = (st, omega arith)
successes_counted (t ∷ ts) b st free h =
    let e = execute-half_open_success t b st free in
    ground (arith, e, successes_counted ts (execute t t (λ x. x) (returned none) b).0)

-- The success that makes `SuccessThreshold` in a row closes a half-open breaker, with its
-- counters at 0.
pub successes_recover :
    (ts : List ℕ) (b : Breaker)
    → b.state ≡ half_open
    → leb_ℤ b.config.max_half_open_requests b.half_open_requests ≡ false
    → b.success_count < pos_part b.config.success_threshold
    → b.success_count + length ts ≡ pos_part b.config.success_threshold
    → let c = play (map (λ t. (t, returned none)) ts) b in
      (c.state ≡ closed)
      × (c.failure_count ≡ 0)
      × (c.success_count ≡ 0)
      × (c.half_open_requests ≡ pos 0)
unfolding play record_success
successes_recover [] b st free v h = absurd (omega arith)
successes_recover (t ∷ []) b st free v h =
    let e = execute-half_open_success t b st free in ground (arith, e)
successes_recover (t ∷ u ∷ ts) b st free v h =
    let e = execute-half_open_success t b st free in
    ground (arith, e, successes_recover (u ∷ ts) (execute t t (λ x. x) (returned none) b).0)

execute-half_open_failure :
    (now : ℕ) (result : Outcome (Option Err)) (b : Breaker)
    → b.state ≡ half_open
    → leb_ℤ b.config.max_half_open_requests b.half_open_requests ≡ false
    → IsFailure result
    → (execute now now (λ x. x) result b).0
      ≡ transition_to opened (record b { last_failure_time = now })
unfolding execute admit current_state settle leave_probe transition_to record_failure
execute-half_open_failure now (panicked v) b st r f = ground arith
execute-half_open_failure now (returned none) b st r f = elim f [ ]
execute-half_open_failure now (returned (some e)) b st r f = ground arith

-- One failing probe reopens a half-open breaker with its counters at 0, and until `Timeout` has passed
-- since then every further call is refused without calling its function.
pub relapse_refuses :
    (now t : ℕ) (result second : Outcome (Option Err)) (b : Breaker)
    → b.state ≡ half_open
    → leb_ℤ b.config.max_half_open_requests b.half_open_requests ≡ false
    → IsFailure result
    → t - now < pos_part b.config.timeout
    → let c = (execute now now (λ x. x) result b).0 in
      (c ≡ transition_to opened (record b { last_failure_time = now }))
      × (execute t t (λ x. x) second c
          ≡ (c, record { outcome = returned (some (sentinel circuit_open)); called = false }))
unfolding execute transition_to
relapse_refuses now t result second b st room f soon =
    let e = execute-half_open_failure now result b st room f in
    (
      e,
      opened_refuses none t t (λ x. x) second (execute now now (λ x. x) result b).0
          (ground (arith, e)) (ground (arith, e)) refl,
    )
