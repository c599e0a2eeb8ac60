-- ===== src/Retry/Endings.antt =====
-- How a run of `DoWithValue` ends (retry/retry.go).
use gopher_core.Common.{
  ℕ, suc, ◌≡◌, refl, ◌∙◌, ◌⊎◌, inl, inr, Bool, false, Option, none, some, List, [], ◌∷◌, ◌++◌,
  arith, ap, length,
}
use gopher_core.Common.Int.{ℤ, pos_part}
use gopher_core.Runtime.{
  Err, sentinel, max_attempts_reached, join_errors, Outcome, returned, panicked,
}
use gopher_core.Retry.Settings.{Config, configure}
use gopher_core.Retry.Delay.{calculate_delay}
use gopher_core.Retry.{World, Run, cancelled, do_with_value}
use gopher_core.Retry.Loop.{
  Goes, exhausted, dead, panics, succeeds, nil_judge, rejects, interrupted, waits, gives_up,
  loop_value-Goes,
}

module _ {T : Type 0} (zero_value : T) (cfg : Config) (w : World (T × Option Err)) where
  -- The last call of the run, which was made at the last of these instants, ended so.
  abbrev pub Ended : List ℕ → Outcome (T × Option Err) → Type 0
  Ended calls o =
      (a : ℕ) × (now : ℕ) × (t : ℕ) × (w.fn a now ≡ (o, t))
      × (before : List ℕ) × (calls ≡ before ++ now ∷ [])

  -- Why the rest of a run ended as it did, after the error `last` and with so many attempts left.
  pub data Ending (left : ℕ) (last : Option Err) (r : Run (T × Option Err)) : Type 0 where
    panic : (v : ℕ) → r.outcome ≡ panicked v → Ended r.calls (panicked v) → Ending left last r
    unjudged :
        (v : ℕ) (val : T) (e : Err)
        → r.outcome ≡ panicked v
        → cfg.retry_if ≡ none
        → Ended r.calls (returned (val, some e))
        → Ending left last r
    success :
        (val : T)
        → r.outcome ≡ returned (val, none)
        → Ended r.calls (returned (val, none))
        → Ending left last r
    context_ended :
        (u : ℕ) (e : Err)
        → r.outcome ≡ returned (zero_value, some e)
        → w.ctx u ≡ some e
        → Ending left last r
    not_retried :
        (val : T) (e : Err) (p : Err → Bool)
        → r.outcome ≡ returned (zero_value, some e)
        → cfg.retry_if ≡ some p
        → p e ≡ false
        → Ended r.calls (returned (val, some e))
        → Ending left last r
    all_failed :
        (o : Option Err)
        → r.outcome ≡ returned (zero_value, some (join_errors (sentinel max_attempts_reached) o))
        → length r.calls ≡ left
        → ((left ≡ 0) × (o ≡ last))
          ⊎ ((val : T) × (e : Err) × (o ≡ some e) × Ended r.calls (returned (val, some e)))
        → Ending left last r

  -- A context whose `Done` channel is closed has an error.
  abbrev pub IsHonest : Type 0
  IsHonest = (a now u : ℕ) (d : ℤ) → w.wait a now d ≡ cancelled u → (e : Err) × (w.ctx u ≡ some e)

  Ended-first :
      {a now t : ℕ} {o : Outcome (T × Option Err)} (calls : List ℕ)
      → length calls ≡ 0
      → w.fn a now ≡ (o, t)
      → Ended (now ∷ calls) o
  Ended-first {a} {now} {t} [] h f = (a, now, t, f, [], refl)
  Ended-first (c ∷ cs) h f = absurd (omega (arith, h))

  Ended-later :
      (now : ℕ) (calls : List ℕ) (o : Outcome (T × Option Err))
      → Ended calls o
      → Ended (now ∷ calls) o
  Ended-later now calls o (a, then, t, f, before, e) = (a, then, t, f, now ∷ before, ap (◌∷◌ now) e)

  later :
      {left a now t : ℕ} {last : Option Err} {val : T} {e : Err} {r : Run (T × Option Err)}
      (ds : List ℤ)
      → w.fn a now ≡ (returned (val, some e), t)
      → Ending left (some e) r
      → Ending (suc left) last (record { outcome = r.outcome; calls = now ∷ r.calls; delays = ds })
  later ds f (panic v o c) = panic v o (Ended-later _ _ _ c)
  later ds f (unjudged v x e o j c) = unjudged v x e o j (Ended-later _ _ _ c)
  later ds f (success x o g) = success x o (Ended-later _ _ _ g)
  later ds f (context_ended u e o c) = context_ended u e o c
  later ds f (not_retried x e p o j n g) = not_retried x e p o j n (Ended-later _ _ _ g)
  later {val} {e} {r} ds f (all_failed o h n (inl (z, l))) =
      all_failed o h (omega (arith, n)) (inr (val, e, l, Ended-first r.calls (n ∙ z) f))
  later ds f (all_failed o h n (inr (x, e, l, g))) =
      all_failed o h (omega (arith, n)) (inr (x, e, l, Ended-later _ _ _ g))

  pub Goes-Ending :
      {left a : ℕ} {last : Option Err} {now : ℕ} {r : Run (T × Option Err)}
      → IsHonest
      → Goes zero_value cfg w left a last now r
      → Ending left last r
  Goes-Ending b (exhausted a last now) = all_failed last refl refl (inl (refl, refl))
  Goes-Ending b (dead left a last now e c) = context_ended now e refl c
  Goes-Ending b (panics left a last now t v c f) = panic v refl (Ended-first [] refl f)
  Goes-Ending b (succeeds left a last now t v c f) = success v refl (Ended-first [] refl f)
  Goes-Ending b (nil_judge left a last now t v e c f j) =
      unjudged _ v e refl j (Ended-first [] refl f)
  Goes-Ending b (rejects left a last now t v e p c f j n) =
      not_retried v e p refl j n (Ended-first [] refl f)
  Goes-Ending b (interrupted left a last now t u v e p c f j y more k) =
      let (x, q) = b a t u (calculate_delay w.machine cfg a) k in
      context_ended u x (ap (λ o. returned (zero_value, o)) q) q
  Goes-Ending b (waits left a last now t u v e p r c f j y more k g) = later _ f (Goes-Ending b g)
  Goes-Ending b (gives_up left a last now t v e p r c f j y over g) = later _ f (Goes-Ending b g)

-- If a context whose `Done` channel is closed has an error, `DoWithValue` ends in one of six ways: with the
-- panic of its last call; with a panic once its last call returned an error, where `RetryIf` is nil; with
-- the value of its last call, which returned no error; with the zero value and the error of the ended
-- context, or the error of its last call that `RetryIf` rejects, or, after `MaxAttempts` calls,
-- `ErrMaxAttemptsReached` joined with the error of the last one, or alone if there was no call to make.
pub do_with_value-Ending :
    {T : Type 0} (zero_value : T) (opts : List (Option (Config → Config)))
    (w : World (T × Option Err)) (now : ℕ)
    → IsHonest zero_value (configure opts) w
    → Ending zero_value
        (configure opts)
        w
        (pos_part (configure opts).max_attempts)
        none
        (do_with_value zero_value opts w now)
unfolding do_with_value
do_with_value-Ending zero_value opts w now b =
    Goes-Ending zero_value (configure opts) w b
      (loop_value-Goes zero_value (configure opts) w _ 0 none now)
