-- ===== src/Breaker/SpecTests.antt =====
-- A breaker that is used by one client, and the machine that it refines.
use gopher_core.Common.{◌<◌, ◌≡◌, refl, Option, none, some, List, [], ◌∷◌, true, false, arith}
use gopher_core.Common.Int.{pos}
use gopher_core.Runtime.{Err, other, sentinel, circuit_open, Outcome, returned, panicked, is}
use gopher_core.Breaker.{Breaker, Config, closed, opened, half_open, new, reset}
use gopher_core.Breaker.Runs.{play}
use gopher_core.Breaker.Spec.{
  Use, executes, asks, resets, Answer, execution, in_state, done, answers, spec_answers, counting,
}
use gopher_core.Breaker.Refines.{new-refines}
use gopher_core.Breaker.Stale.{reset_keeps_failures}

abbrev patient : Config
patient = record {
  failure_threshold = pos 2;
  success_threshold = pos 1;
  timeout = pos 10;
  max_half_open_requests = pos 1;
  on_state_change = false;
}

abbrev fault : Outcome (Option Err)
fault = returned (some (other 7))

-- A failure, a `Reset`, another failure, a call that is refused, and a probe that succeeds
abbrev day : List Use
day =
    executes none 1 2 fault
    ∷ resets
    ∷ executes none 3 4 (panicked 5)
    ∷ executes none 6 7 (returned none)
    ∷ asks 14
    ∷ executes none 15 16 (returned none)
    ∷ asks 17
    ∷ []

abbrev called_with : Outcome (Option Err) → Answer
called_with o = execution (record { outcome = o; called = true })

new-refines_example : answers day (new patient) ≡ spec_answers (new patient).config day (counting 0)
new-refines_example = new-refines patient day

day_seen :
    spec_answers patient day (counting 0)
    ≡ called_with fault
      ∷ done
      ∷ called_with (panicked 5)
      ∷ execution (record { outcome = returned (some (sentinel circuit_open)); called = false })
      ∷ in_state half_open
      ∷ called_with (returned none)
      ∷ in_state closed
      ∷ []
unfolding spec_answers is
day_seen = refl

abbrev once_failed : Breaker
once_failed = record (new patient) { failure_count = 1 }

reset_keeps_failures_example :
    ((play ((9, fault) ∷ []) (reset once_failed)).state ≡ opened) × (1 < 2)
unfolding new is
reset_keeps_failures_example =
    reset_keeps_failures ((9, fault) ∷ []) once_failed refl (omega arith) (omega arith) (refl, tt)
      refl
