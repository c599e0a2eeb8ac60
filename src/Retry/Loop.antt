-- ===== src/Retry/Loop.antt =====
-- The loop of `DoWithValue` (retry/retry.go) as a relation: every way in which it can go, one
-- constructor for each, and that the loop goes one of these ways.
use gopher_core.Common.{
  ℕ, zero, suc, ◌≡◌, refl, inl, inr, Bool, true, false, Option, none, some, [], ◌∷◌, Option-cases,
  Bool-cases,
}
use gopher_core.Common.Int.{pos, ltb_ℤ}
use gopher_core.Runtime.{
  Err, sentinel, max_attempts_reached, join_errors, Outcome, returned, panicked,
}
use gopher_core.Retry.Settings.{Config}
use gopher_core.Retry.Delay.{calculate_delay}
use gopher_core.Retry.{
  World, Run, Wake, fired, cancelled, ended, nil_call, record_call, pause_value, judge_value,
  settle_value, loop_value,
}

module _ {T : Type 0} (zero_value : T) (cfg : Config) (w : World (T × Option Err)) where
  -- The rest of a run with so many attempts left, from the given attempt, last error and time. A run that
  -- goes on after attempt `a` records its call at `now`, and a delay if it waited.
  pub data Goes : ℕ → ℕ → Option Err → ℕ → Run (T × Option Err) → Type 0 where
    exhausted :
        (a : ℕ) (last : Option Err) (now : ℕ)
        → Goes zero a last now
            (ended (returned (zero_value, some (join_errors (sentinel max_attempts_reached) last))))
    dead :
        (left a : ℕ) (last : Option Err) (now : ℕ) (e : Err)
        → w.ctx now ≡ some e
        → Goes (suc left) a last now (ended (returned (zero_value, some e)))
    panics :
        (left a : ℕ) (last : Option Err) (now t v : ℕ)
        → w.ctx now ≡ none
        → w.fn a now ≡ (panicked v, t)
        → Goes
            (suc left)
            a
            last
            now
            (record { outcome = panicked v; calls = now ∷ []; delays = [] })
    succeeds :
        (left a : ℕ) (last : Option Err) (now t : ℕ) (val : T)
        → w.ctx now ≡ none
        → w.fn a now ≡ (returned (val, none), t)
        → Goes
            (suc left)
            a
            last
            now
            (record { outcome = returned (val, none); calls = now ∷ []; delays = [] })
    nil_judge :
        (left a : ℕ) (last : Option Err) (now t : ℕ) (val : T) (e : Err)
        → w.ctx now ≡ none
        → w.fn a now ≡ (returned (val, some e), t)
        → cfg.retry_if ≡ none
        → Goes
            (suc left)
            a
            last
            now
            (record { outcome = panicked nil_call; calls = now ∷ []; delays = [] })
    rejects :
        (left a : ℕ) (last : Option Err) (now t : ℕ) (val : T) (e : Err) (p : Err → Bool)
        → w.ctx now ≡ none
        → w.fn a now ≡ (returned (val, some e), t)
        → cfg.retry_if ≡ some p
        → p e ≡ false
        → Goes
            (suc left)
            a
            last
            now
            (record { outcome = returned (zero_value, some e); calls = now ∷ []; delays = [] })
    interrupted :
        (left a : ℕ) (last : Option Err) (now t u : ℕ) (val : T) (e : Err) (p : Err → Bool)
        → w.ctx now ≡ none
        → w.fn a now ≡ (returned (val, some e), t)
        → cfg.retry_if ≡ some p
        → p e ≡ true
        → ltb_ℤ (pos (suc a)) cfg.max_attempts ≡ true
        → w.wait a t (calculate_delay w.machine cfg a) ≡ cancelled u
        → Goes (suc left) a last now (record {
          outcome = returned (zero_value, w.ctx u);
          calls = now ∷ [];
          delays = calculate_delay w.machine cfg a ∷ [];
        })
    waits :
        (left a : ℕ) (last : Option Err) (now t u : ℕ) (val : T) (e : Err) (p : Err → Bool)
        (r : Run (T × Option Err))
        → w.ctx now ≡ none
        → w.fn a now ≡ (returned (val, some e), t)
        → cfg.retry_if ≡ some p
        → p e ≡ true
        → ltb_ℤ (pos (suc a)) cfg.max_attempts ≡ true
        → w.wait a t (calculate_delay w.machine cfg a) ≡ fired u
        → Goes left (suc a) (some e) u r
        → Goes (suc left) a last now (record {
          outcome = r.outcome;
          calls = now ∷ r.calls;
          delays = calculate_delay w.machine cfg a ∷ r.delays;
        })
    gives_up :
        (left a : ℕ) (last : Option Err) (now t : ℕ) (val : T) (e : Err) (p : Err → Bool)
        (r : Run (T × Option Err))
        → w.ctx now ≡ none
        → w.fn a now ≡ (returned (val, some e), t)
        → cfg.retry_if ≡ some p
        → p e ≡ true
        → ltb_ℤ (pos (suc a)) cfg.max_attempts ≡ false
        → Goes left (suc a) (some e) t r
        → Goes
            (suc left)
            a
            last
            now
            (record { outcome = r.outcome; calls = now ∷ r.calls; delays = r.delays })

  -- After the call of an attempt, of which the rest of the loop is `again`.
  module _ (left a : ℕ) (last : Option Err) (now : ℕ) (again : Err → ℕ → Run (T × Option Err))
      (goes_on : (e : Err) (t : ℕ) → Goes left (suc a) (some e) t (again e t))
      (live : w.ctx now ≡ none) where
    pause-Goes :
        (t : ℕ) (val : T) (e : Err) (p : Err → Bool)
        → w.fn a now ≡ (returned (val, some e), t)
        → cfg.retry_if ≡ some p
        → p e ≡ true
        → ltb_ℤ (pos (suc a)) cfg.max_attempts ≡ true
        → (k : Wake) → w.wait a t (calculate_delay w.machine cfg a) ≡ k
        → Goes
            (suc left)
            a
            last
            now
            (record_call zero_value cfg w now (pause_value zero_value cfg w a e t (again e)))
    unfolding pause_value
    pause-Goes t val e p f j y more (fired u) k =
        rw (k, pause_value)
          (waits left a last now t u val e p (again e u) live f j y more k (goes_on e u))
    pause-Goes t val e p f j y more (cancelled u) k =
        rw (k, pause_value) (interrupted left a last now t u val e p live f j y more k)

    judge-Goes :
        (t : ℕ) (val : T) (e : Err)
        → w.fn a now ≡ (returned (val, some e), t)
        → (o : Option (Err → Bool)) → cfg.retry_if ≡ o
        → Goes
            (suc left)
            a
            last
            now
            (record_call zero_value cfg w now (judge_value zero_value cfg w a e t o (again e)))
    unfolding judge_value
    judge-Goes t val e f none j = nil_judge left a last now t val e live f j
    judge-Goes t val e f (some p) j = elim (Bool-cases (p e)) [
      | inr n ↦ rw n (rejects left a last now t val e p live f j n)
      | inl y ↦ elim (Bool-cases (ltb_ℤ (pos (suc a)) cfg.max_attempts)) [
        | inl more ↦
            rw (y, more)
              (pause-Goes t val e p f j y more (w.wait a t (calculate_delay w.machine cfg a)) refl)
        | inr over ↦
            rw (y, over)
              (gives_up left a last now t val e p (again e t) live f j y over (goes_on e t))
      ]
    ]

    settle-Goes :
        (q : Outcome (T × Option Err) × ℕ)
        → w.fn a now ≡ q
        → Goes
            (suc left)
            a
            last
            now
            (record_call zero_value cfg w now (settle_value zero_value cfg w a q again))
    unfolding settle_value
    settle-Goes (panicked v, t) f = panics left a last now t v live f
    settle-Goes (returned (val, none), t) f = succeeds left a last now t val live f
    settle-Goes (returned (val, some e), t) f = judge-Goes t val e f cfg.retry_if refl

  -- The loop goes one of these ways, whatever the world does.
  pub loop_value-Goes :
      (left a : ℕ) (last : Option Err) (now : ℕ)
      → Goes left a last now (loop_value zero_value cfg w left a last now)
  unfolding loop_value
  loop_value-Goes zero a last now = exhausted a last now
  loop_value-Goes (suc left) a last now = elim (Option-cases (w.ctx now)) [
    | inr (e, gone) ↦ rw (gone, loop_value) (dead left a last now e gone)
    | inl live ↦
        rw (live, loop_value)
          (settle-Goes left a last now (λ e t. loop_value zero_value cfg w left (suc a) (some e) t)
            (λ e t. loop_value-Goes left (suc a) (some e) t) live (w.fn a now) refl)
  ]
