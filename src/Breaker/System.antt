-- ===== src/Breaker/System.antt =====
-- Many goroutines over one breaker (circuitbreaker/circuitbreaker.go): since each critical section
-- runs under the mutex, an execution is a sequence of critical sections, in any order.
use gopher_core.Common.{
  ℕ, suc, ◌+◌, ◌≡◌, ◌&&◌, ◌==◌, Bool, not, Option, List, [], ◌∷◌, ◌++◌, if◌then◌else◌,
}
use gopher_core.Runtime.{Err, Outcome}
use gopher_core.Breaker.{
  Breaker, Config, Admission, refused, admitted, same_state, new, current_state, reset, admit,
  settle,
}

-- A call of `fn` that is going on: whether it counts as a probe, and the era in which it was admitted.
pub record Call : Type 0 where
  pub probe : Bool
  pub era : ℕ

-- An era lasts from one transition to the next; `late` counts the probes of earlier eras that came
-- back in this one. Neither is in the program: they let the theorems speak of it.
pub record System : Type 0 where
  pub breaker : Breaker
  pub calls : List Call
  pub era : ℕ
  pub late : ℕ

abbrev pub moved : Breaker → Breaker → Bool
moved b b' = not (same_state b.state b'.state)

-- The breaker becomes `b'` while the calls become `cs`; `stale` is 1 if a probe of an earlier era
-- came back.
unfoldable pub advance : Breaker → List Call → ℕ → System → System
advance b' cs stale s = record {
  breaker = b';
  calls = cs;
  era = if moved s.breaker b' then suc s.era else s.era;
  late = if moved s.breaker b' then 0 else s.late + stale;
}

abbrev pub is_current : ℕ → Call → Bool
is_current era c = c.probe && (c.era == era)

unfoldable pub start : Config → System
start cfg = record { breaker = new cfg; calls = []; era = 0; late = 0 }

-- The system after a first critical section with this result.
unfoldable pub enter_with : Breaker × Admission → System → System
unfolding advance
enter_with (b, refused e) s = advance b s.calls 0 s
enter_with (b, admitted probe) s =
    let t : System = advance b s.calls 0 s in
    record t { calls = record { probe = probe; era = t.era } ∷ t.calls }

-- A goroutine runs the first critical section of `ExecuteContext` at the time `now`.
unfoldable pub enter : ℕ → System → System
unfolding enter_with
enter now s = enter_with (admit now s.breaker) s

-- The call `c` ends, and its goroutine runs the deferred function; `rest` are the other calls.
unfoldable pub leave : ℕ → Call → List Call → Outcome (Option Err) → Option Err → System → System
unfolding advance
leave now c rest result ctx_err s =
    let stale = if c.probe && not (c.era == s.era) then 1 else 0 in
    advance (settle now c.probe result ctx_err s.breaker) rest stale s

pub data Step : System → System → Type 0 where
  enters : (s : System) (now : ℕ) → Step s (enter now s)
  leaves :
      (s : System) (xs : List Call) (c : Call) (ys : List Call) (now : ℕ)
      (result : Outcome (Option Err)) (ctx_err : Option Err)
      → s.calls ≡ xs ++ c ∷ ys
      → Step s (leave now c (xs ++ ys) result ctx_err s)
  queries : (s : System) (now : ℕ) → Step s (advance (current_state now s.breaker) s.calls 0 s)
  resets : (s : System) → Step s (advance (reset s.breaker) s.calls 0 s)

pub data Reach (cfg : Config) : System → Type 0 where
  here : Reach cfg (start cfg)
  next : {s t : System} → Reach cfg s → Step s t → Reach cfg t
