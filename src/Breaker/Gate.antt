-- ===== src/Breaker/Gate.antt =====
-- What one caller of `Execute` and `ExecuteContext` sees (circuitbreaker/circuitbreaker.go).
use gopher_core.Common.{
  ℕ, ◌-◌, ◌≤◌, ◌<◌, ◌≡◌, refl, ◌⊎◌, inl, inr, true, false, Option, some, none, arith, ap, subst,
  sym, ◌∙◌,
}
use gopher_core.Common.Int.{pos, pos_part, +-ℤ_cancel, ◌+ℤ◌}
use gopher_core.Runtime.{
  Err, sentinel, canceled, circuit_open, too_many_requests, is, is?, Ctx, Outcome, returned,
}
use gopher_core.Breaker.{
  Breaker, opened, half_open, transition_to, current_state, admit, leave_probe, Admission,
  run_admitted, unless_done, admitted, refused, Execution, or_background, execute_context,
}
use gopher_core.Breaker.Invariant.{IsValid}
use gopher_core.Breaker.Probes.{Admits, admit-Admits, settle_canceled}

admit_opened :
    (now : ℕ) (b : Breaker)
    → b.state ≡ opened
    → now - b.last_failure_time < pos_part b.config.timeout
    → admit now b ≡ (b, refused (sentinel circuit_open))
unfolding admit current_state
admit_opened now b st early = ground arith

-- While the breaker is open and its timeout has not passed since the last failure, a call with a live
-- context is refused with `ErrCircuitOpen`, its function is not called, and the breaker stays as it is.
pub opened_refuses :
    (ctx : Option Ctx) (now later : ℕ) (others : Breaker → Breaker) (result : Outcome (Option Err))
    (b : Breaker)
    → b.state ≡ opened
    → now - b.last_failure_time < pos_part b.config.timeout
    → or_background ctx now ≡ none
    → execute_context ctx now later others result b
      ≡ (b, record { outcome = returned (some (sentinel circuit_open)); called = false })
unfolding execute_context
opened_refuses ctx now later others result b st early live = rw (live, admit_opened now b st early)

-- Once the timeout has passed, the next call with a live context runs as the one probe of a half-open
-- breaker whose counters start again from 0.
pub opened_probes :
    (now : ℕ) (b : Breaker)
    → IsValid b
    → b.state ≡ opened
    → pos_part b.config.timeout ≤ now - b.last_failure_time
    → let c = transition_to half_open b in
      (c.state ≡ half_open)
      × (c.success_count ≡ 0)
      × (admit now b ≡ (record c { half_open_requests = pos 1 }, admitted true))
unfolding admit current_state ◌+ℤ◌
opened_probes now b v st late = ground arith

run-canceled :
    (ctx : Ctx) (later : ℕ) (e : Err) (c : Breaker) (r : Breaker × Admission)
    → (is e canceled ≡ true) ⊎ (is? (ctx later) canceled ≡ true)
    → Admits c r
    → (run_admitted ctx later (λ x. x) (returned (some e)) r).0 ≡ c
unfolding run_admitted leave_probe
run-canceled ctx later e c r h a = elim a [
  | inl (x, p, _) ↦ back p refl
  | inr (inl p) ↦ back p (settle_canceled later false e (ctx later) c h)
  | inr (inr (p, _)) ↦ back p (
      settle_canceled later true e (ctx later) _ h
      ∙ ap (λ n. record c { half_open_requests = n }) (+-ℤ_cancel c.half_open_requests))
]
  where
    back :
        {q : Breaker × Admission}
        → r ≡ q
        → (run_admitted ctx later (λ x. x) (returned (some e)) q).0 ≡ c
        → (run_admitted ctx later (λ x. x) (returned (some e)) r).0 ≡ c
    back p = subst (λ q. (run_admitted ctx later (λ x. x) (returned (some e)) q).0 ≡ c) (sym p)

-- A call that ends in `context.Canceled`, or whose context was cancelled when it ends in an error,
-- leaves the breaker as the evaluation of its state at entry left it, in every state: it counts
-- neither as a failure nor as a success, and gives its probe's place back.
pub canceled_neutral :
    (ctx : Option Ctx) (now later : ℕ) (e : Err) (b : Breaker)
    → or_background ctx now ≡ none
    → (is e canceled ≡ true) ⊎ (is? (or_background ctx later) canceled ≡ true)
    → (execute_context ctx now later (λ x. x) (returned (some e)) b).0 ≡ current_state now b
unfolding execute_context
canceled_neutral ctx now later e b live h = rw live (
    run-canceled (or_background ctx) later e (current_state now b) (admit now b) h
      (admit-Admits now b))

-- What a caller can see of a call: its function's own outcome; or an error without a call.
abbrev pub Seen :
    Option Err → Outcome (Option Err) → Breaker → Breaker → Breaker × Execution → Type 0
Seen done result b c (b', r) =
    ((done ≡ none) × (r.called ≡ true) × (r.outcome ≡ result))
    ⊎ ((r.called ≡ false)
        × ((e : Err) × (r.outcome ≡ returned (some e))
            × (((done ≡ some e) × (b' ≡ b))
                ⊎ ((done ≡ none)
                    × (b' ≡ c)
                    × ((e ≡ sentinel circuit_open) ⊎ (e ≡ sentinel too_many_requests))))))

run-Seen :
    (ctx : Ctx) (later : ℕ) (others : Breaker → Breaker) (result : Outcome (Option Err))
    (b c : Breaker) (r : Breaker × Admission)
    → Admits c r
    → Seen none result b c (run_admitted ctx later others result r)
unfolding run_admitted
run-Seen ctx later others result b c r (inl (e, p, which)) =
    subst (λ q. Seen none result b c (run_admitted ctx later others result q)) (sym p)
      (inr (refl, (e, refl, inr (refl, refl, which))))
run-Seen ctx later others result b c r (inr (inl p)) =
    subst (λ q. Seen none result b c (run_admitted ctx later others result q)) (sym p)
      (inl (refl, refl, refl))
run-Seen ctx later others result b c r (inr (inr (p, _))) =
    subst (λ q. Seen none result b c (run_admitted ctx later others result q)) (sym p)
      (inl (refl, refl, refl))

unless_done-Seen :
    (o : Option Err) (result : Outcome (Option Err)) (b c : Breaker) (q : Breaker × Execution)
    → Seen none result b c q
    → Seen o result b c (unless_done o b q)
unfolding unless_done
unless_done-Seen none result b c q h = h
unless_done-Seen (some e) result b c q h = inr (refl, (e, refl, inl (refl, refl)))

-- What a caller sees: with a live context, its function's own outcome if it was called, and else
-- `ErrCircuitOpen` or `ErrTooManyRequests`, the breaker having evaluated its state and no more; with a
-- dead context, that context's error, the function not called and the breaker untouched.
pub execute_context-Seen :
    (ctx : Option Ctx) (now later : ℕ) (others : Breaker → Breaker) (result : Outcome (Option Err))
    (b : Breaker)
    → Seen
        (or_background ctx now)
        result
        b
        (current_state now b)
        (execute_context ctx now later others result b)
unfolding execute_context
execute_context-Seen ctx now later others result b =
    unless_done-Seen (or_background ctx now) result b _ _ (
      run-Seen (or_background ctx) later others result b (current_state now b) (admit now b)
        (admit-Admits now b))
