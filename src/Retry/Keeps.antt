-- ===== src/Retry/Keeps.antt =====
-- What a run of `DoWithValue` does on its way (retry/retry.go).
use gopher_core.Common.{ℕ, suc, ◌≤◌, ◌≡◌, Option, none, List, [], ◌∷◌, arith, length, All}
use gopher_core.Common.Int.{pos_part, ◌≤ℤ◌}
use gopher_core.Runtime.{Err, Outcome}
use gopher_core.Retry.Settings.{Config, configure}
use gopher_core.Retry.Bounds.{IsBelow, calculate_delay-le-max_delay}
use gopher_core.Retry.{World, Run, ended, do_with_value}
use gopher_core.Retry.Loop.{
  Goes, exhausted, dead, panics, succeeds, nil_judge, rejects, interrupted, waits, gives_up,
  loop_value-Goes,
}

module _ {T : Type 0} (zero_value : T) (cfg : Config) (w : World (T × Option Err)) where
  -- A bounded number of calls, each begun with a live context; no more delays than calls, and
  -- none above `MaxDelay`.
  pub record Keeps (left : ℕ) (r : Run (T × Option Err)) : Type 0 where
    pub calls_bounded : length r.calls ≤ left
    pub calls_live : All (λ t. w.ctx t ≡ none) r.calls
    pub delays_fewer : length r.delays ≤ length r.calls
    pub delays_capped : All (λ d. d ≤ℤ cfg.max_delay) r.delays

  ended-Keeps : (left : ℕ) (o : Outcome (T × Option Err)) → Keeps left (ended o)
  ended-Keeps left o = record {
    calls_bounded = omega arith;
    calls_live = tt;
    delays_fewer = omega arith;
    delays_capped = tt;
  }

  called_once-Keeps :
      (left now : ℕ) (o : Outcome (T × Option Err))
      → w.ctx now ≡ none
      → Keeps (suc left) (record { outcome = o; calls = now ∷ []; delays = [] })
  called_once-Keeps left now o c = record {
    calls_bounded = omega arith;
    calls_live = (c, tt);
    delays_fewer = omega arith;
    delays_capped = tt;
  }

  pub Goes-Keeps :
      {left a : ℕ} {last : Option Err} {now : ℕ} {r : Run (T × Option Err)}
      → IsBelow w.machine
      → Goes zero_value cfg w left a last now r
      → Keeps left r
  Goes-Keeps b (exhausted a last now) = ended-Keeps 0 _
  Goes-Keeps b (dead left a last now e c) = ended-Keeps (suc left) _
  Goes-Keeps b (panics left a last now t v c f) = called_once-Keeps left now _ c
  Goes-Keeps b (succeeds left a last now t v c f) = called_once-Keeps left now _ c
  Goes-Keeps b (nil_judge left a last now t v e c f j) = called_once-Keeps left now _ c
  Goes-Keeps b (rejects left a last now t v e p c f j n) = called_once-Keeps left now _ c
  Goes-Keeps b (interrupted left a last now t u v e p c f j y more k) = record {
    calls_bounded = omega arith;
    calls_live = (c, tt);
    delays_fewer = omega arith;
    delays_capped = (calculate_delay-le-max_delay w.machine cfg a b, tt);
  }
  Goes-Keeps b (waits left a last now t u v e p r c f j y more k g) =
      let i = Goes-Keeps b g in
      record {
        calls_bounded = omega (arith, i.calls_bounded);
        calls_live = (c, i.calls_live);
        delays_fewer = omega (arith, i.delays_fewer);
        delays_capped = (calculate_delay-le-max_delay w.machine cfg a b, i.delays_capped);
      }
  Goes-Keeps b (gives_up left a last now t v e p r c f j y over g) =
      let i = Goes-Keeps b g in
      record {
        calls_bounded = omega (arith, i.calls_bounded);
        calls_live = (c, i.calls_live);
        delays_fewer = omega (arith, i.delays_fewer);
        delays_capped = i.delays_capped;
      }

-- Whatever the world does, `DoWithValue` calls its function at most `MaxAttempts` times, each time with a
-- context that has not ended; it waits no more often than it calls, and never above `MaxDelay`.
pub do_with_value-Keeps :
    {T : Type 0} (zero_value : T) (opts : List (Option (Config → Config)))
    (w : World (T × Option Err)) (now : ℕ)
    → IsBelow w.machine
    → Keeps zero_value
        (configure opts)
        w
        (pos_part (configure opts).max_attempts)
        (do_with_value zero_value opts w now)
unfolding do_with_value
do_with_value-Keeps zero_value opts w now b =
    Goes-Keeps zero_value (configure opts) w b
      (loop_value-Goes zero_value (configure opts) w _ 0 none now)
