-- ===== src/Breaker.antt =====
-- circuitbreaker/circuitbreaker.go: the state machine, its two critical sections, and `Execute`.
-- Time is a monotonic clock in nanoseconds, read as an argument; an `int` that can be configured to
-- any value, or can fall below zero, is an integer, and the two counters that only grow from zero are
-- numbers. The calls of `OnStateChange` are kept in the list `notified`, newest first.
pub mod Invariant
pub mod System
pub mod Probes
pub mod Limits
pub mod Trace
pub mod Gate
pub mod Runs
pub mod Spec
pub mod Refines
pub mod Stale
mod Tests
mod SpecTests
use gopher_core.Common.{
  ℕ, suc, ◌-◌, ◌*◌, Bool, true, false, not, ◌&&◌, Option, none, some, List, [], ◌∷◌, String,
  if◌then◌else◌,
}
use gopher_core.Common.Int.{ℤ, pos, ◌+ℤ◌, ◌-ℤ◌, leb_ℤ}
use gopher_core.Runtime.{
  Err, sentinel, canceled, circuit_open, too_many_requests, is, is?, Ctx, background, Outcome,
  returned, panicked,
}

pub data State : Type 0 where
  closed opened half_open : State

-- The numbers that `iota` gives the states.
abbrev pub state_code : State → ℤ
state_code closed = pos 0
state_code opened = pos 1
state_code half_open = pos 2

abbrev same_int : ℤ → ℤ → Bool
same_int a b = leb_ℤ a b && leb_ℤ b a

-- `State.String`, on any value of the underlying `int`.
pub state_string : ℤ → String
state_string s =
    if same_int s (state_code closed)
    then "closed"
    else if same_int s (state_code opened)
    then "open"
    else if same_int s (state_code half_open)
    then "half-open"
    else "unknown"

abbrev pub same_state : State → State → Bool
same_state closed closed = true
same_state opened opened = true
same_state half_open half_open = true
same_state _ _ = false

pub record Config : Type 0 where
  pub failure_threshold : ℤ
  pub success_threshold : ℤ
  pub timeout : ℤ
  pub max_half_open_requests : ℤ
  -- whether `OnStateChange` is set
  pub on_state_change : Bool

abbrev pub second : ℕ
second = 1_000_000_000

abbrev pub default_config : Config
default_config = record {
  failure_threshold = pos 5;
  success_threshold = pos 2;
  timeout = pos (30 * second);
  max_half_open_requests = pos 1;
  on_state_change = false;
}

pub record Breaker : Type 0 where
  pub config : Config
  pub state : State
  pub failure_count : ℕ
  pub success_count : ℕ
  pub half_open_requests : ℤ
  pub last_failure_time : ℕ
  pub notified : List (State × State)

abbrev or_default : ℤ → ℤ → ℤ
or_default v d = if leb_ℤ v (pos 0) then d else v

-- `New`
pub new : Config → Breaker
new cfg = record {
  config = record cfg {
    failure_threshold = or_default cfg.failure_threshold (pos 5);
    success_threshold = or_default cfg.success_threshold (pos 2);
    timeout = or_default cfg.timeout (pos (30 * second));
    max_half_open_requests = or_default cfg.max_half_open_requests (pos 1);
  };
  state = closed;
  failure_count = 0;
  success_count = 0;
  half_open_requests = pos 0;
  last_failure_time = 0;
  notified = [];
}

-- `transitionTo`
pub transition_to : State → Breaker → Breaker
transition_to to b = if same_state b.state to then b else record b {
  state = to;
  failure_count = 0;
  success_count = 0;
  half_open_requests = pos 0;
  notified = if b.config.on_state_change then (b.state, to) ∷ b.notified else b.notified;
}

-- `currentState`, at the time `now`: the breaker after it, whose `state` is the result
pub current_state : ℕ → Breaker → Breaker
unfolding transition_to
current_state now b =
    if same_state b.state opened && leb_ℤ b.config.timeout (pos (now - b.last_failure_time))
    then transition_to half_open b
    else b

-- `recordSuccess`
pub record_success : Breaker → Breaker
unfolding transition_to
record_success b = elim b.state [
  | closed ↦ record b { failure_count = 0 }
  | half_open ↦
      let b' : Breaker = record b { success_count = suc b.success_count } in
      if leb_ℤ b'.config.success_threshold (pos b'.success_count)
      then transition_to closed b'
      else b'
  | opened ↦ b
]

-- `recordFailure`, at the time `now`
pub record_failure : ℕ → Breaker → Breaker
unfolding transition_to
record_failure now b =
    let t : Breaker = record b { last_failure_time = now } in
    elim b.state [
      | closed ↦
          let b' : Breaker = record t { failure_count = suc b.failure_count } in
          if leb_ℤ b'.config.failure_threshold (pos b'.failure_count)
          then transition_to opened b'
          else b'
      | half_open ↦ transition_to opened t
      | opened ↦ t
    ]

-- `Reset`
pub reset : Breaker → Breaker
unfolding transition_to
reset b = transition_to closed b

-- What the first critical section of `ExecuteContext` decides: the call of `fn` is refused, or goes
-- on, as a probe or not.
pub data Admission : Type 0 where
  refused : Err → Admission
  admitted : Bool → Admission

-- The `switch` on the current state
pub admit_in : State → Breaker → Breaker × Admission
admit_in closed b = (b, admitted false)
admit_in opened b = (b, refused (sentinel circuit_open))
admit_in half_open b =
    if leb_ℤ b.config.max_half_open_requests b.half_open_requests
    then (b, refused (sentinel too_many_requests))
    else (record b { half_open_requests = b.half_open_requests +ℤ pos 1 }, admitted true)

-- `ExecuteContext` from `b.mu.Lock()` to the `b.mu.Unlock()` before the call of `fn`
pub admit : ℕ → Breaker → Breaker × Admission
unfolding admit_in
admit now b = admit_in (current_state now b).state (current_state now b)

-- `if isHalfOpenProbe { b.halfOpenRequests-- }`
pub leave_probe : Bool → Breaker → Breaker
leave_probe probe b =
    if probe then record b { half_open_requests = b.half_open_requests -ℤ pos 1 } else b

-- The deferred function of `ExecuteContext`: `probe` is `isHalfOpenProbe`, `ctx_err` is `ctx.Err()`
-- when it runs.
pub settle : ℕ → Bool → Outcome (Option Err) → Option Err → Breaker → Breaker
unfolding leave_probe record_success record_failure
settle now probe (panicked v) ctx_err b = record_failure now (leave_probe probe b)
settle now probe (returned none) ctx_err b = record_success (leave_probe probe b)
settle now probe (returned (some e)) ctx_err b =
    if not (is e canceled) && not (is? ctx_err canceled)
    then record_failure now (leave_probe probe b)
    else leave_probe probe b

-- What a caller of `Execute` sees: the error it returns, or the panic of `fn` going on; and whether
-- `fn` was called.
pub record Execution : Type 0 where
  pub outcome : Outcome (Option Err)
  pub called : Bool

abbrev pub or_background : Option Ctx → Ctx
or_background none = background
or_background (some c) = c

-- `ExecuteContext` after its first critical section: the call of `fn`, which ends at the time `later`
-- with the outcome `result`, and the deferred function. `others` is what the other goroutines do to the
-- breaker while the lock is free.
pub run_admitted :
    Ctx
    → (later : ℕ) → (others : Breaker → Breaker) → Outcome (Option Err)
    → Breaker × Admission
    → Breaker × Execution
unfolding settle
run_admitted ctx later others result (b, refused e) =
    (b, record { outcome = returned (some e); called = false })
run_admitted ctx later others result (b, admitted probe) =
    (settle later probe result (ctx later) (others b), record { outcome = result; called = true })

-- `if err := ctx.Err(); err != nil { return err }`
pub unless_done : Option Err → Breaker → Breaker × Execution → Breaker × Execution
unless_done (some e) b rest = (b, record { outcome = returned (some e); called = false })
unless_done none b rest = rest

-- `ExecuteContext`, entered at the time `now`
pub execute_context :
    Option Ctx
    → (now later : ℕ) → (others : Breaker → Breaker) → Outcome (Option Err)
    → Breaker
    → Breaker × Execution
unfolding run_admitted unless_done
execute_context ctx now later others result b =
    unless_done (or_background ctx now) b
      (run_admitted (or_background ctx) later others result (admit now b))

-- `Execute`
pub execute :
    (now later : ℕ)
    → (others : Breaker → Breaker) → Outcome (Option Err)
    → Breaker
    → Breaker × Execution
unfolding execute_context
execute = execute_context (some background)

-- The method `State`
pub query : ℕ → Breaker → Breaker × State
unfolding current_state
query now b = let b' : Breaker = current_state now b in (b', b'.state)
