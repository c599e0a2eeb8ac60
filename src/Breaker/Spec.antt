-- ===== src/Breaker/Spec.antt =====
-- The circuit breaker (circuitbreaker/circuitbreaker.go) as a client sees it that makes one call after
-- another: a machine of one number, and what it answers.
use gopher_core.Common.{
  ℕ, suc, ◌-◌, ◌||◌, true, false, Option, none, some, List, [], ◌∷◌, leb, if◌then◌else◌,
}
use gopher_core.Common.Int.{pos_part}
use gopher_core.Runtime.{
  Err, sentinel, canceled, circuit_open, is, is?, Ctx, Outcome, returned, panicked,
}
use gopher_core.Breaker.{
  State, closed, opened, half_open, Config, Breaker, Execution, or_background, execute_context,
  query, reset,
}

-- Closed, after so many failures in a row; open, since an instant; half-open, after so many successes
pub data Phase : Type 0 where
  counting tripped probing : ℕ → Phase

-- What a call tells of the service
pub data Verdict : Type 0 where
  success failure neutral : Verdict

-- A panic is a failure, and so is an error, but for that of a call that was cancelled.
abbrev pub judge : Option Err → Outcome (Option Err) → Verdict
judge ctx_err (panicked v) = failure
judge ctx_err (returned none) = success
judge ctx_err (returned (some e)) =
    if is e canceled || is? ctx_err canceled then neutral else failure

abbrev pub state_of : Phase → State
state_of (counting n) = closed
state_of (tripped t) = opened
state_of (probing n) = half_open

module _ (cfg : Config) where
  -- An open breaker lets a probe through when its timeout is over.
  abbrev pub awake : ℕ → Phase → Phase
  awake now (counting n) = counting n
  awake now (tripped t) = if leb (pos_part cfg.timeout) (now - t) then probing 0 else tripped t
  awake now (probing n) = probing n

  -- A call that went through
  abbrev pub count : ℕ → Verdict → Phase → Phase
  count later success (counting n) = counting 0
  count later failure (counting n) =
      if leb (pos_part cfg.failure_threshold) (suc n) then tripped later else counting (suc n)
  count later success (probing n) =
      if leb (pos_part cfg.success_threshold) (suc n) then counting 0 else probing (suc n)
  count later failure (probing n) = tripped later
  count later _ p = p

  -- A call, when the breaker is awake
  abbrev pub pass : ℕ → Option Err → Outcome (Option Err) → Phase → Phase × Execution
  pass later ctx_err result (tripped t) =
      (tripped t, record { outcome = returned (some (sentinel circuit_open)); called = false })
  pass later ctx_err result (counting n) =
      (count later (judge ctx_err result) (counting n), record { outcome = result; called = true })
  pass later ctx_err result (probing n) =
      (count later (judge ctx_err result) (probing n), record { outcome = result; called = true })

  abbrev pub unless_dead : Option Err → Phase → Phase × Execution → Phase × Execution
  unless_dead (some e) p rest = (p, record { outcome = returned (some e); called = false })
  unless_dead none p rest = rest

  abbrev pub spec_call :
      Option Ctx → (now later : ℕ) → Outcome (Option Err) → Phase → Phase × Execution
  spec_call ctx now later result p =
      unless_dead (or_background ctx now) p
        (pass later (or_background ctx later) result (awake now p))

-- `Reset` closes the machine; one that is closed keeps its count.
abbrev pub restart : Phase → Phase
restart (counting n) = counting n
restart _ = counting 0

-- What a client does, and what it gets to see
pub data Use : Type 0 where
  executes : Option Ctx → (now later : ℕ) → Outcome (Option Err) → Use
  asks : ℕ → Use
  resets : Use

pub data Answer : Type 0 where
  execution : Execution → Answer
  in_state : State → Answer
  done : Answer

-- The answers of a breaker that nobody else uses
unfoldable pub answers : List Use → Breaker → List Answer
unfolding execute_context query reset
answers [] b = []
answers (executes ctx now later result ∷ us) b =
    let (b', e) = execute_context ctx now later (λ x. x) result b in execution e ∷ answers us b'
answers (asks now ∷ us) b = let (b', s) = query now b in in_state s ∷ answers us b'
answers (resets ∷ us) b = done ∷ answers us (reset b)

-- The answers of the machine
unfoldable pub spec_answers : Config → List Use → Phase → List Answer
spec_answers cfg [] p = []
spec_answers cfg (executes ctx now later result ∷ us) p =
    let (p', e) = spec_call cfg ctx now later result p in execution e ∷ spec_answers cfg us p'
spec_answers cfg (asks now ∷ us) p =
    in_state (state_of (awake cfg now p)) ∷ spec_answers cfg us (awake cfg now p)
spec_answers cfg (resets ∷ us) p = done ∷ spec_answers cfg us (restart p)
