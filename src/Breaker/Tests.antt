-- ===== src/Breaker/Tests.antt =====
-- Runs of the breaker, and the theorems at concrete inputs.
use gopher_core.Common.{
  ℕ, ◌+◌, ◌≤◌, ◌<◌, ◌≡◌, refl, true, false, Option, none, some, [], ◌∷◌, arith,
}
use gopher_core.Common.Int.{◌+ℤ◌, ◌-ℤ◌, pos}
use gopher_core.Runtime.{Err, other, sentinel, canceled, is, Outcome, returned}
use gopher_core.Breaker.{
  Config, closed, opened, half_open, new, current_state, record_success, record_failure, admit,
  leave_probe, settle,
}
use gopher_core.Breaker.System.{
  Call, System, Reach, enters, leaves, queries, here, next, advance, enter, leave, start,
}
use gopher_core.Breaker.Probes.{probes}
use gopher_core.Breaker.Limits.{probes_accounted, stale_probe_overshoots}
use gopher_core.Breaker.Trace.{Traced, Reach-Traced}

abbrev touchy : Config
touchy = record {
  failure_threshold = pos 1;
  success_threshold = pos 2;
  timeout = pos 10;
  max_half_open_requests = pos 1;
  on_state_change = true;
}

abbrev fault : Outcome (Option Err)
fault = returned (some (other 7))

abbrev plain : ℕ → Call
plain e = record { probe = false; era = e }

abbrev probing : ℕ → Call
probing e = record { probe = true; era = e }

-- Two calls start while the breaker is closed; one trips it; after the timeout a probe starts; the second
-- of the early calls fails and trips it again; after the timeout the next probe starts.
abbrev s2 : System
s2 = enter 0 (enter 0 (start touchy))

abbrev s4 : System
s4 = enter 11 (leave 1 (plain 0) (plain 0 ∷ []) fault none s2)

abbrev s6 : System
s6 = enter 22 (leave 12 (plain 0) (probing 2 ∷ []) fault none s4)

s6_reached : Reach touchy s6
unfolding start new enter leave admit current_state settle leave_probe record_failure is ◌+ℤ◌ ◌-ℤ◌
s6_reached =
    next
      (next
        (next
          (next (next (next here (enters _ 0)) (enters _ 0))
            (leaves s2 (plain 0 ∷ []) (plain 0) [] 1 fault none refl))
          (enters _ 11))
        (leaves s4 (probing 2 ∷ []) (plain 0) [] 12 fault none refl))
      (enters _ 22)

stale_probe_overshoots_example :
    1
    < probes (
        enter 24
          (leave 23 (probing 2) (probing 4 ∷ []) (returned (some (sentinel canceled))) none s6))
unfolding start new enter leave admit current_state settle leave_probe record_failure is ◌+ℤ◌ ◌-ℤ◌
stale_probe_overshoots_example =
    (stale_probe_overshoots s6 (probing 4 ∷ []) (probing 2) [] 23 24 s6_reached refl refl refl refl
      (omega arith)).1

probes_accounted_example : probes s6 ≤ 1 + s6.late
unfolding start new enter leave admit current_state settle leave_probe record_failure is ◌+ℤ◌ ◌-ℤ◌
probes_accounted_example = (probes_accounted s6_reached).1

Reach-Traced_example : Traced touchy s6
Reach-Traced_example = Reach-Traced s6_reached

s6_reports :
    s6.breaker.notified
    ≡ (opened, half_open) ∷ (half_open, opened) ∷ (opened, half_open) ∷ (closed, opened) ∷ []
unfolding start new enter leave admit current_state settle leave_probe record_failure is ◌+ℤ◌ ◌-ℤ◌
s6_reports = refl

-- Two calls start while the breaker is closed; one trips it; after the timeout somebody asks for its state,
-- and the second of the early calls succeeds: the breaker closes without a probe.
abbrev eager : Config
eager = record touchy { success_threshold = pos 1 }

abbrev u3 : System
u3 = leave 1 (plain 0) (plain 0 ∷ []) fault none (enter 0 (enter 0 (start eager)))

abbrev u4 : System
u4 = advance (current_state 11 u3.breaker) u3.calls 0 u3

abbrev u5 : System
u5 = leave 12 (plain 0) [] (returned none) none u4

u5_reached : Reach eager u5
unfolding start new enter leave advance admit current_state settle leave_probe record_failure is
    ◌+ℤ◌ ◌-ℤ◌
u5_reached =
    next
      (next
        (next (next (next here (enters _ 0)) (enters _ 0))
          (leaves (enter 0 (enter 0 (start eager))) (plain 0 ∷ []) (plain 0) [] 1 fault none refl))
        (queries u3 11))
      (leaves u4 [] (plain 0) [] 12 (returned none) none refl)

u5_closed : u5.breaker.notified ≡ (half_open, closed) ∷ (opened, half_open) ∷ (closed, opened) ∷ []
unfolding start new enter leave advance admit current_state settle leave_probe record_failure
    record_success is ◌+ℤ◌ ◌-ℤ◌
u5_closed = refl
