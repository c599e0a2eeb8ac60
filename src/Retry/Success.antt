-- ===== src/Retry/Success.antt =====
-- A function that fails at first and then succeeds is retried to its success (retry/retry.go).
use gopher_core.Common.{
  ℕ, suc, ◌+◌, ◌≤◌, ◌<◌, ◌≡◌, Bool, true, Option, none, some, List, arith, ◌⊎◌, inl, inr, subst,
  sym, ap, ◌∙◌, length,
}
use gopher_core.Common.Int.{ℤ, pos_part}
use gopher_core.Runtime.{Err, returned}
use native.Mathlib.Decide.{dec_lt}
use gopher_core.Retry.Delay.{calculate_delay}
use gopher_core.Retry.Settings.{Config, configure}
use gopher_core.Retry.{World, Run, fired, do_with_value}
use gopher_core.Retry.Loop.{
  Goes, exhausted, dead, panics, succeeds, nil_judge, rejects, interrupted, waits, gives_up,
  loop_value-Goes,
}

module _ {T : Type 0} (zero_value : T) (cfg : Config) (w : World (T × Option Err)) where
  -- The context does not end, every wait runs out, `RetryIf` accepts every error, and of the
  -- function's calls those before number `k` return an error and number `k` the value `val`.
  pub record IsPatient (k : ℕ) (val : T) : Type 0 where
    pub lives : (t : ℕ) → w.ctx t ≡ none
    pub runs_out : (a t : ℕ) (d : ℤ) → (u : ℕ) × (w.wait a t d ≡ fired u)
    pub judge : Err → Bool
    pub judges : cfg.retry_if ≡ some judge
    pub accepts : (e : Err) → judge e ≡ true
    pub fails :
        (a t : ℕ) → a < k → (v : T) × (e : Err) × (u : ℕ) × (w.fn a t ≡ (returned (v, some e), u))
    pub wins : (t : ℕ) → (u : ℕ) × (w.fn k t ≡ (returned (val, none), u))

  -- What attempt `a` answers, up to number `k`.
  abbrev Expected : ℕ → ℕ → T → ℕ → Type 0
  Expected k a val t =
      ((a ≡ k) × ((u : ℕ) × (w.fn a t ≡ (returned (val, none), u))))
      ⊎ ((a < k) × ((v : T) × (e : Err) × (u : ℕ) × (w.fn a t ≡ (returned (v, some e), u))))

  expect : {k : ℕ} {val : T} (a t : ℕ) → IsPatient k val → a ≤ k → Expected k a val t
  expect {k} {val} a t h p = elim (dec_lt a k) [
    | yes below ↦ inr (below, h.fails a t below)
    | no end ↦
        let e : a ≡ k = omega arith in
        inl (e, subst (λ j. (u : ℕ) × (w.fn j t ≡ (returned (val, none), u))) (sym e) (h.wins t))
  ]

  pub Goes-success :
      {left a : ℕ} {last : Option Err} {now : ℕ} {r : Run (T × Option Err)} {k : ℕ} {val : T}
      → IsPatient k val
      → Goes zero_value cfg w left a last now r
      → a ≤ k
      → k < a + left
      → (r.outcome ≡ returned (val, none)) × (a + length r.calls ≡ suc k)
  Goes-success h (exhausted a last now) p q = absurd (omega arith)
  Goes-success h (dead left a last now e c) p q = cc (h.lives now)
  Goes-success h (panics left a last now t v c f) p q = elim (expect a now h p) [
    | inl (_, (u, g)) ↦ cc
    | inr (_, (v', e, u, g)) ↦ cc
  ]
  Goes-success h (succeeds left a last now t v c f) p q = elim (expect a now h p) [
    | inl (e, (u, g)) ↦ (ap (λ x. x.0) (sym f ∙ g), omega arith)
    | inr (_, (v', e, u, g)) ↦ ground arith
  ]
  Goes-success h (nil_judge left a last now t v e c f j) p q = cc (h.judges)
  Goes-success h (rejects left a last now t v e p' c f j n) p q = cc (h.judges, h.accepts e)
  Goes-success h (interrupted left a last now t u v e p' c f j y more k) p q =
      let (x, g) = h.runs_out a t (calculate_delay w.machine cfg a) in cc
  Goes-success h (waits left a last now t u v e p' r c f j y more k g) p q =
      elim (expect a now h p) [
        | inl (_, (x, o)) ↦ ground arith
        | inr (below, _) ↦ let (o, n) = Goes-success h g below (omega arith) in (o, omega arith)
      ]
  Goes-success h (gives_up left a last now t v e p' r c f j y over g) p q =
      elim (expect a now h p) [
        | inl (_, (x, o)) ↦ ground arith
        | inr (below, _) ↦ let (o, n) = Goes-success h g below (omega arith) in (o, omega arith)
      ]

-- If the first `k` calls of the function return errors and the next one returns a value, `k` being below
-- `MaxAttempts`, and neither the context nor `RetryIf` stops the loop, then `DoWithValue` returns
-- that value after exactly `k + 1` calls.
pub do_with_value_succeeds :
    {T : Type 0} (zero_value : T) (opts : List (Option (Config → Config)))
    (w : World (T × Option Err)) (now k : ℕ) (val : T)
    → IsPatient zero_value (configure opts) w k val
    → k < pos_part (configure opts).max_attempts
    → let r = do_with_value zero_value opts w now in
      (r.outcome ≡ returned (val, none)) × (length r.calls ≡ suc k)
unfolding do_with_value
do_with_value_succeeds zero_value opts w now k val h q =
    let (o, n) =
      Goes-success zero_value (configure opts) w h
        (loop_value-Goes zero_value (configure opts) w (pos_part (configure opts).max_attempts) 0
          none now)
        (omega arith) (omega arith) in
    (o, omega (arith, n))
