-- ===== src/Async.antt =====
-- async/async.go: workers that recover panics, and `Map` with its semaphore. Goroutines are steps of
-- a relation, in any order. `Calls x o` says that the function passed in can end as `o` on the item `x`.
pub mod Group
pub mod Runs
pub mod Sound
pub mod Answer
pub mod Progress
pub mod Fan
pub mod Queue
mod Tests
use gopher_core.Common.{
  ℕ, suc, ◌+◌, ◌-◌, ◌<◌, ◌≡◌, Bool, true, false, Option, some, none, List, [], ◌∷◌, ◌++◌, map,
  count_if, replicate, length, if◌then◌else◌,
}
use gopher_core.Common.Int.{ℤ, pos, leb_ℤ, pos_part}
use gopher_core.Runtime.{
  Err, Outcome, returned, panicked, panic_error, sentinel, canceled, deadline_exceeded,
}

-- A launched worker: before its own check of the context, in the function, or at its end with what
-- it left in `results` and `errs`
pub data Slot (R : Type 0) : Type 0 where
  spawned : Slot R
  working : Slot R
  ended : R → Option Err → Slot R

-- Where the launching loop is: before the check of the context, at the `select`, or out of the loop
pub data Phase : Type 0 where
  checking selecting left : Phase

pub record Pool (T R : Type 0) : Type 0 where
  pub phase : Phase
  -- One for each item that has a worker, in the order of the items
  pub launched : List (T × Slot R)
  pub pending : List T
  -- The values in the channel `sem`
  pub sem : ℕ
  -- `ctx.Err()`
  pub ctx_err : Option Err

-- `if concurrency <= 0 { concurrency = 1 }`
unfoldable pub limit : ℤ → ℕ
limit concurrency = if leb_ℤ concurrency (pos 0) then 1 else pos_part concurrency

-- `err != context.Canceled && err != context.DeadlineExceeded` fails
abbrev pub is_context_error : Err → Bool
is_context_error (sentinel canceled) = true
is_context_error (sentinel deadline_exceeded) = true
is_context_error _ = false

-- The first error of a worker that is not the context's
unfoldable pub first_specific : List (Option Err) → Option Err
first_specific [] = none
first_specific (none ∷ errs) = first_specific errs
first_specific (some e ∷ errs) = if is_context_error e then first_specific errs else some e

unfoldable pub first_error : List (Option Err) → Option Err
first_error [] = none
first_error (none ∷ errs) = first_error errs
first_error (some e ∷ errs) = some e

-- The error that `Map` returns, of the workers' errors and the context's
unfoldable pub choose_error : List (Option Err) → Option Err → Option Err
unfolding first_specific first_error
choose_error errs ctx_err = elim (first_specific errs) [
  | some e ↦ some e
  | none ↦ elim ctx_err [ some e ↦ some e | none ↦ first_error errs ]
]

-- The head of the loop: it ends without a further item, or when the context has ended
abbrev pub next_phase : {T : Type 0} → List T → Option Err → Phase
next_phase [] ctx_err = left
next_phase (x ∷ xs) none = selecting
next_phase (x ∷ xs) (some e) = left

-- The worker's check of the context
abbrev pub begin : {R : Type 0} → R → Option Err → Slot R
begin zero_value none = working
begin zero_value (some e) = ended zero_value (some e)

-- The worker's end, its recovery of a panic included
abbrev pub conclude : {R : Type 0} → R → Outcome (R × Option Err) → Slot R
conclude zero_value (returned (r, e)) = ended r e
conclude zero_value (panicked v) = ended zero_value (some (panic_error v))

-- `<-sem`, at the end of a goroutine
abbrev pub release : {R : Type 0} → Slot R → ℕ → ℕ
release (ended r e) n = n - 1
release _ n = n

module _ {T R : Type 0} where
  abbrev pub is_active : T × Slot R → Bool
  is_active (x, spawned) = true
  is_active (x, working) = true
  is_active (x, ended r e) = false

  -- The goroutines that have not ended, as `wg` counts them
  abbrev pub active : Pool T R → ℕ
  active s = count_if is_active s.launched

  unfoldable pub start : List T → Pool T R
  start items = record { phase = checking; launched = []; pending = items; sem = 0; ctx_err = none }

  unfoldable pub check : Pool T R → Pool T R
  check s = record s { phase = next_phase s.pending s.ctx_err }

  -- `sem <- struct{}{}` and the `go` statement
  unfoldable pub launch : T → List T → Pool T R → Pool T R
  launch x rest s = record s {
    phase = checking;
    launched = s.launched ++ (x, spawned) ∷ [];
    pending = rest;
    sem = suc s.sem;
  }

  -- A goroutine comes to the slot `b`.
  unfoldable pub proceed : List (T × Slot R) → T → Slot R → List (T × Slot R) → Pool T R → Pool T R
  proceed before x b after s = record s {
    launched = before ++ (x, b) ∷ after;
    sem = release b s.sem;
  }

  abbrev pub error_at : T × Slot R → Option Err
  error_at (x, ended r e) = e
  error_at (x, _) = none

  abbrev pub result_at : R → T × Slot R → R
  result_at zero_value (x, ended r e) = r
  result_at zero_value (x, _) = zero_value

  -- `errs` and `results`, in which the items without a worker keep their zero values
  abbrev pub errors : Pool T R → List (Option Err)
  errors s = map error_at s.launched ++ replicate (length s.pending) none

  abbrev pub results : R → Pool T R → List R
  results zero_value s =
      map (result_at zero_value) s.launched ++ replicate (length s.pending) zero_value

  -- What `Map` returns after `wg.Wait()`
  unfoldable pub answer : R → Pool T R → List R × Option Err
  unfolding choose_error
  answer zero_value s = (results zero_value s, choose_error (errors s) s.ctx_err)
