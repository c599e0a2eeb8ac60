-- ===== src/Retry.antt =====
-- retry/retry.go: the retry loops of `Do` and `DoWithValue`, over what the outside world does.
pub mod Settings
pub mod Delay
pub mod Bounds
pub mod Rounding
pub mod Overflow
pub mod Loop
pub mod Keeps
pub mod Endings
pub mod Success
pub mod Agreement
mod Tests
use gopher_core.Common.{
  ℕ, zero, suc, Bool, true, false, Option, none, some, List, [], ◌∷◌, if◌then◌else◌,
}
use gopher_core.Common.Int.{ℤ, pos, pos_part, ltb_ℤ}
use gopher_core.Runtime.{
  Err, sentinel, max_attempts_reached, join_errors, Ctx, Outcome, returned, panicked,
}
use Settings.{Config, configure}
use Delay.{Machine, calculate_delay}

-- How the `select` on the timer and the context ends, and when.
pub data Wake : Type 0 where
  fired cancelled : ℕ → Wake

-- The outside world of one call: the context, the function passed in, by the number of its call and its
-- start, with its end; the `select` for an attempt, its start and the timer's delay; and what a delay
-- rests on.
pub record World (R : Type 0) : Type 0 where
  pub ctx : Ctx
  pub fn : ℕ → ℕ → Outcome R × ℕ
  pub wait : ℕ → ℕ → ℤ → Wake
  pub machine : Machine

-- What happened: the outcome, the starts of the calls of the function, and the delays waited for.
pub record Run (R : Type 0) : Type 0 where
  pub outcome : Outcome R
  pub calls : List ℕ
  pub delays : List ℤ

abbrev pub ended : {R : Type 0} → Outcome R → Run R
ended o = record { outcome = o; calls = []; delays = [] }

-- A call of a nil function panics.
abbrev pub nil_call : ℕ
nil_call = 0

-- `doWithValueWithConfig`
module _ {T : Type 0} (zero_value : T) (cfg : Config) (w : World (T × Option Err)) where
  abbrev pub fail : Option Err → Run (T × Option Err)
  fail e = ended (returned (zero_value, e))

  -- The `select` of attempt `attempt`, from the time `now`
  pub pause_value : ℕ → Err → ℕ → (ℕ → Run (T × Option Err)) → Run (T × Option Err)
  pause_value attempt e now again =
      let delay : ℤ = calculate_delay w.machine cfg attempt in
      let r : Run (T × Option Err) = elim (w.wait attempt now delay) [
        | fired t ↦ again t
        | cancelled t ↦ fail (w.ctx t)
      ] in
      record r { delays = delay ∷ r.delays }

  -- What follows an error of attempt `attempt`
  pub judge_value :
      ℕ → Err → ℕ → Option (Err → Bool) → (ℕ → Run (T × Option Err)) → Run (T × Option Err)
  unfolding pause_value
  judge_value attempt e now none again = ended (panicked nil_call)
  judge_value attempt e now (some retry_if) again =
      if retry_if e
      then (if ltb_ℤ (pos (suc attempt)) cfg.max_attempts
          then pause_value attempt e now again
          else again now)
      else fail (some e)

  -- What follows the call of attempt `attempt`
  pub settle_value :
      ℕ → Outcome (T × Option Err) × ℕ → (Err → ℕ → Run (T × Option Err)) → Run (T × Option Err)
  unfolding judge_value
  settle_value attempt (panicked v, now) again = ended (panicked v)
  settle_value attempt (returned (val, none), now) again = ended (returned (val, none))
  settle_value attempt (returned (val, some e), now) again =
      judge_value attempt e now cfg.retry_if (again e)

  abbrev pub record_call : ℕ → Run (T × Option Err) → Run (T × Option Err)
  record_call now r = record r { calls = now ∷ r.calls }

  -- The loop with so many attempts left
  pub loop_value : ℕ → ℕ → Option Err → ℕ → Run (T × Option Err)
  unfolding settle_value
  loop_value zero attempt last now = fail (some (join_errors (sentinel max_attempts_reached) last))
  loop_value (suc left) attempt last now = elim (w.ctx now) [
    | some e ↦ fail (some e)
    | none ↦
        record_call now
          (settle_value attempt (w.fn attempt now) λ e t. loop_value left (suc attempt) (some e) t)
  ]

-- `DoWithValue`, called at the time `now`
pub do_with_value :
    {T : Type 0} (zero_value : T)
    → List (Option (Config → Config))
    → World (T × Option Err)
    → ℕ
    → Run (T × Option Err)
unfolding loop_value
do_with_value zero_value opts w now =
    let cfg : Config = configure opts in
    loop_value zero_value cfg w (pos_part cfg.max_attempts) 0 none now

-- `doWithConfig`
module _ (cfg : Config) (w : World (Option Err)) where
  pub pause : ℕ → Err → ℕ → (ℕ → Run (Option Err)) → Run (Option Err)
  pause attempt e now again =
      let delay : ℤ = calculate_delay w.machine cfg attempt in
      let r : Run (Option Err) = elim (w.wait attempt now delay) [
        | fired t ↦ again t
        | cancelled t ↦ ended (returned (w.ctx t))
      ] in
      record r { delays = delay ∷ r.delays }

  pub judge : ℕ → Err → ℕ → Option (Err → Bool) → (ℕ → Run (Option Err)) → Run (Option Err)
  unfolding pause
  judge attempt e now none again = ended (panicked nil_call)
  judge attempt e now (some retry_if) again =
      if retry_if e
      then (if ltb_ℤ (pos (suc attempt)) cfg.max_attempts
          then pause attempt e now again
          else again now)
      else ended (returned (some e))

  pub settle : ℕ → Outcome (Option Err) × ℕ → (Err → ℕ → Run (Option Err)) → Run (Option Err)
  unfolding judge
  settle attempt (panicked v, now) again = ended (panicked v)
  settle attempt (returned none, now) again = ended (returned none)
  settle attempt (returned (some e), now) again = judge attempt e now cfg.retry_if (again e)

  pub loop : ℕ → ℕ → Option Err → ℕ → Run (Option Err)
  unfolding settle
  loop zero attempt last now =
      ended (returned (some (join_errors (sentinel max_attempts_reached) last)))
  loop (suc left) attempt last now = elim (w.ctx now) [
    | some e ↦ ended (returned (some e))
    | none ↦
        let r : Run (Option Err) =
          settle attempt (w.fn attempt now) (λ e t. loop left (suc attempt) (some e) t) in
        record r { calls = now ∷ r.calls }
  ]

-- `Do`, called at the time `now`
pub do_ : List (Option (Config → Config)) → World (Option Err) → ℕ → Run (Option Err)
unfolding loop
do_ opts w now =
    let cfg : Config = configure opts in loop cfg w (pos_part cfg.max_attempts) 0 none now
