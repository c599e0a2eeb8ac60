-- ===== src/Breaker/Refines.antt =====
-- The breaker (circuitbreaker/circuitbreaker.go) refines its abstract machine.
use gopher_core.Common.{ℕ, ◌≡◌, refl, ap, Option, none, some, List, [], ◌∷◌, arith}
use gopher_core.Common.Int.{pos, ◌+ℤ◌, ◌-ℤ◌}
use mathlib.Core.Path.{ap₂}
use gopher_core.Runtime.{Err, Ctx, Outcome, returned, panicked}
use gopher_core.Breaker.{
  State, closed, opened, half_open, Config, Breaker, Execution, or_background, execute_context,
  query, reset, new, admit, admit_in, current_state, settle, leave_probe, record_success,
  record_failure, transition_to, run_admitted, unless_done,
}
use gopher_core.Breaker.Invariant.{IsValid, new-IsValid}
use gopher_core.Breaker.Spec.{
  Phase, counting, tripped, probing, awake, pass, unless_dead, spec_call, state_of, restart, Use,
  executes, asks, resets, answers, spec_answers, execution, in_state, done,
}

abbrev phase_of : State → Breaker → Phase
phase_of closed b = counting b.failure_count
phase_of opened b = tripped b.last_failure_time
phase_of half_open b = probing b.success_count

abbrev phase : Breaker → Phase
phase b = phase_of b.state b

-- A breaker of these settings that no call is in, and which abstractly is in a phase
record Shows (cfg : Config) (b : Breaker) (p : Phase) : Type 0 where
  same_config : b.config ≡ cfg
  valid : IsValid b
  at_rest : b.half_open_requests ≡ pos 0
  shown : phase b ≡ p

current_state-Shows :
    (cfg : Config) (now : ℕ) (b : Breaker) (p : Phase)
    → Shows cfg b p
    → Shows cfg (current_state now b) (awake cfg now p)
unfolding current_state transition_to
current_state-Shows cfg now b (counting n) h = ground arith
current_state-Shows cfg now b (tripped n) h = ground arith
current_state-Shows cfg now b (probing n) h = ground arith

-- What a call leaves and returns is what the machine does.
abbrev Agree : Config → Breaker × Execution → Phase × Execution → Type 0
Agree cfg (b, e) (p, e') = Shows cfg b p × (e ≡ e')

pass-Agree :
    (cfg : Config) (ctx : Ctx) (later : ℕ) (result : Outcome (Option Err)) (b : Breaker) (p : Phase)
    → Shows cfg b p
    → Agree cfg
        (run_admitted ctx later (λ x. x) result (admit_in b.state b))
        (pass cfg later (ctx later) result p)
unfolding admit_in run_admitted settle leave_probe record_success record_failure transition_to ◌+ℤ◌
    ◌-ℤ◌
pass-Agree cfg ctx later (panicked v) b (counting n) h = ground arith
pass-Agree cfg ctx later (panicked v) b (tripped n) h = ground arith
pass-Agree cfg ctx later (panicked v) b (probing n) h = ground arith
pass-Agree cfg ctx later (returned none) b (counting n) h = ground arith
pass-Agree cfg ctx later (returned none) b (tripped n) h = ground arith
pass-Agree cfg ctx later (returned none) b (probing n) h = ground arith
pass-Agree cfg ctx later (returned (some e)) b (counting n) h = ground arith
pass-Agree cfg ctx later (returned (some e)) b (tripped n) h = ground arith
pass-Agree cfg ctx later (returned (some e)) b (probing n) h = ground arith

unless_done-Agree :
    (cfg : Config) (o : Option Err) (b : Breaker) (p : Phase) (r : Breaker × Execution)
    (q : Phase × Execution)
    → Shows cfg b p
    → Agree cfg r q
    → Agree cfg (unless_done o b r) (unless_dead cfg o p q)
unfolding unless_done
unless_done-Agree cfg none b p r q h a = a
unless_done-Agree cfg (some e) b p r q h a = (h, refl)

execute_context-Agree :
    (cfg : Config) (ctx : Option Ctx) (now later : ℕ) (result : Outcome (Option Err)) (b : Breaker)
    (p : Phase)
    → Shows cfg b p
    → Agree cfg
        (execute_context ctx now later (λ x. x) result b)
        (spec_call cfg ctx now later result p)
unfolding execute_context admit
execute_context-Agree cfg ctx now later result b p h =
    unless_done-Agree cfg (or_background ctx now) b p _ _ h (
      pass-Agree cfg (or_background ctx) later result (current_state now b) (awake cfg now p)
        (current_state-Shows cfg now b p h))

reset-Shows :
    (cfg : Config) (b : Breaker) (p : Phase) → Shows cfg b p → Shows cfg (reset b) (restart p)
unfolding reset transition_to
reset-Shows cfg b (counting n) h = ground arith
reset-Shows cfg b (tripped n) h = ground arith
reset-Shows cfg b (probing n) h = ground arith

state-Shows : (cfg : Config) (b : Breaker) (p : Phase) → Shows cfg b p → b.state ≡ state_of p
state-Shows cfg b p h = ground arith

answers-Shows :
    (cfg : Config) (us : List Use) (b : Breaker) (p : Phase)
    → Shows cfg b p
    → answers us b ≡ spec_answers cfg us p
unfolding answers spec_answers query
answers-Shows cfg [] b p h = refl
answers-Shows cfg (executes ctx now later result ∷ us) b p h =
    let (next, same) = execute_context-Agree cfg ctx now later result b p h in
    ap₂ (λ e as_. execution e ∷ as_) same (answers-Shows cfg us _ _ next)
answers-Shows cfg (asks now ∷ us) b p h =
    let next = current_state-Shows cfg now b p h in
    ap₂ (λ s as_. in_state s ∷ as_) (state-Shows cfg _ _ next) (answers-Shows cfg us _ _ next)
answers-Shows cfg (resets ∷ us) b p h =
    ap (λ as_. done ∷ as_) (answers-Shows cfg us _ _ (reset-Shows cfg b p h))

new-Shows : (cfg : Config) → Shows (new cfg).config (new cfg) (counting 0)
unfolding new
new-Shows cfg = record { same_config = refl; valid = new-IsValid cfg; at_rest = refl; shown = refl }

-- A client that is alone in using a new breaker sees of it what it sees of a machine that only keeps a
-- count of failures in a row while closed, the instant at which it tripped while open, and a count of
-- successes while half-open: the outcome of every call and whether its function ran, and every
-- answer of `State`, through any sequence of calls, queries and resets.
pub new-refines :
    (cfg : Config) (us : List Use)
    → answers us (new cfg) ≡ spec_answers (new cfg).config us (counting 0)
new-refines cfg us = answers-Shows (new cfg).config us (new cfg) (counting 0) (new-Shows cfg)
