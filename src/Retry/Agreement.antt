-- ===== src/Retry/Agreement.antt =====
-- `Do` and `DoWithValue` are two copies of one loop (retry/retry.go): `Do` is `DoWithValue` at a
-- function that returns no value.
use gopher_core.Common.{
  ℕ, zero, suc, ◌≡◌, refl, Bool, Option, none, some, List, arith, ap, inl, inr, Option-cases,
  Bool-cases,
}
use gopher_core.Common.Int.{pos, ltb_ℤ}
use gopher_core.Runtime.{Err, Outcome, returned, panicked}
use gopher_core.Retry.Settings.{Config, configure}
use gopher_core.Retry.Delay.{calculate_delay}
use gopher_core.Retry.{
  World, Run, Wake, fired, cancelled, pause, judge, settle, loop, do_, pause_value, judge_value,
  settle_value, loop_value, record_call, do_with_value,
}

abbrev Value : Type 0
Value = Unit {0} × Option Err

abbrev with_unit : Outcome (Option Err) → Outcome Value
with_unit (returned e) = returned (tt, e)
with_unit (panicked v) = panicked v

abbrev pub lift : World (Option Err) → World Value
lift w = record {
  ctx = w.ctx;
  fn = λ a t. (with_unit (w.fn a t).0, (w.fn a t).1);
  wait = w.wait;
  machine = w.machine;
}

abbrev pub lift_run : Run (Option Err) → Run Value
lift_run r = record { outcome = with_unit r.outcome; calls = r.calls; delays = r.delays }

module _ (cfg : Config) (w : World (Option Err)) where
  pause-lift :
      (a : ℕ) (e : Err) (now : ℕ) (again : ℕ → Run (Option Err)) (again' : ℕ → Run Value)
      → ((t : ℕ) → again' t ≡ lift_run (again t))
      → pause_value tt cfg (lift w) a e now again' ≡ lift_run (pause cfg w a e now again)
  unfolding pause pause_value
  pause-lift a e now again again' h = go (w.wait a now (calculate_delay w.machine cfg a)) refl
    where
      go :
          (k : Wake)
          → w.wait a now (calculate_delay w.machine cfg a) ≡ k
          → pause_value tt cfg (lift w) a e now again' ≡ lift_run (pause cfg w a e now again)
      go (fired t) k = rw (k, pause, pause_value) (ground (arith, h t))
      go (cancelled t) k = rw (k, pause, pause_value)

  judge-lift :
      (a : ℕ) (e : Err) (now : ℕ) (o : Option (Err → Bool)) (again : ℕ → Run (Option Err))
      (again' : ℕ → Run Value)
      → ((t : ℕ) → again' t ≡ lift_run (again t))
      → judge_value tt cfg (lift w) a e now o again' ≡ lift_run (judge cfg w a e now o again)
  unfolding judge judge_value
  judge-lift a e now none again again' h = refl
  judge-lift a e now (some p) again again' h = elim (Bool-cases (p e)) [
    | inr n ↦ rw n
    | inl y ↦ elim (Bool-cases (ltb_ℤ (pos (suc a)) cfg.max_attempts)) [
      | inl more ↦ rw (y, more) (pause-lift a e now again again' h)
      | inr over ↦ rw (y, over) (h now)
    ]
  ]

  settle-lift :
      (a : ℕ) (q : Outcome (Option Err) × ℕ) (again : Err → ℕ → Run (Option Err))
      (again' : Err → ℕ → Run Value)
      → ((e : Err) (t : ℕ) → again' e t ≡ lift_run (again e t))
      → settle_value tt cfg (lift w) a (with_unit q.0, q.1) again'
        ≡ lift_run (settle cfg w a q again)
  unfolding settle settle_value
  settle-lift a (panicked v, t) again again' h = refl
  settle-lift a (returned none, t) again again' h = refl
  settle-lift a (returned (some e), t) again again' h =
      judge-lift a e t cfg.retry_if (again e) (again' e) (h e)

  loop-lift :
      (left a : ℕ) (last : Option Err) (now : ℕ)
      → loop_value tt cfg (lift w) left a last now ≡ lift_run (loop cfg w left a last now)
  unfolding loop loop_value
  loop-lift zero a last now = refl
  loop-lift (suc left) a last now = elim (Option-cases (w.ctx now)) [
    | inr (e, gone) ↦ rw (gone, loop, loop_value)
    | inl live ↦
        rw (live, loop, loop_value)
          (ap (record_call tt cfg (lift w) now) (
            settle-lift a (w.fn a now) (λ e t. loop cfg w left (suc a) (some e) t)
              (λ e t. loop_value tt cfg (lift w) left (suc a) (some e) t)
              (λ e t. loop-lift left (suc a) (some e) t)))
  ]

-- With the same options and in the same world, `Do` ends as `DoWithValue` of the function without
-- a value, after the same calls and the same delays.
pub do-with_value :
    (opts : List (Option (Config → Config))) (w : World (Option Err)) (now : ℕ)
    → do_with_value tt opts (lift w) now ≡ lift_run (do_ opts w now)
unfolding do_ do_with_value
do-with_value opts w now = loop-lift (configure opts) w _ 0 none now
