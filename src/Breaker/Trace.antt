-- ===== src/Breaker/Trace.antt =====
-- The calls of `OnStateChange` (circuitbreaker/circuitbreaker.go): which transitions happen, and that
-- they are reported in a chain.
use gopher_core.Common.{
  ℕ, ◌≡◌, refl, ◌⊎◌, inl, inr, Bool, true, false, Option, List, [], ◌∷◌, arith, subst, sym, ap, ◌∙◌,
  length, if◌then◌else◌, cond_true, cond_false,
}
use gopher_core.Runtime.{Err, Outcome}
use gopher_core.Breaker.{
  Breaker, Config, State, closed, opened, half_open, same_state, Admission, refused, admitted, new,
  current_state, record_success, record_failure, reset, admit, admit_in, leave_probe, settle,
}
use gopher_core.Breaker.System.{
  Call, System, Step, Reach, enters, leaves, queries, resets, here, next, advance, enter,
  enter_with, leave, start,
}

-- The edges of the state machine; `manual` is `Reset` of a tripped breaker.
pub data Edge : State → State → Type 0 where
  trips : Edge closed opened
  probes : Edge opened half_open
  recovers : Edge half_open closed
  relapses : Edge half_open opened
  manual : Edge opened closed

-- The reports, newest first, lead along edges from `closed` to the state `s`.
abbrev pub Chain : List (State × State) → State → Type 0
Chain [] s = s ≡ closed
Chain ((from, to) ∷ older) s = (s ≡ to) × Edge from to × Chain older from

-- One critical section reports nothing and keeps the state, or makes one transition along an edge.
abbrev pub Moves : Breaker → Breaker → Type 0
Moves b b' =
    (b'.config ≡ b.config)
    × (((b'.state ≡ b.state) × (b'.notified ≡ b.notified))
        ⊎ (Edge b.state b'.state
            × (b'.notified ≡ (
                if b.config.on_state_change
                then (b.state, b'.state) ∷ b.notified
                else b.notified))))

current_state-Moves : (now : ℕ) (b : Breaker) → Moves b (current_state now b)
unfolding current_state
current_state-Moves now b = grind (arith, trips, probes, recovers, relapses, manual)

reset-Moves : (b : Breaker) → Moves b (reset b)
unfolding reset
reset-Moves b = grind (arith, trips, probes, recovers, relapses, manual)

record_success-Moves : (b : Breaker) → Moves b (record_success b)
unfolding record_success
record_success-Moves b = grind (arith, trips, probes, recovers, relapses, manual)

record_failure-Moves : (now : ℕ) (b : Breaker) → Moves b (record_failure now b)
unfolding record_failure
record_failure-Moves now b = grind (arith, trips, probes, recovers, relapses, manual)

settle-Moves :
    (now : ℕ) (probe : Bool) (result : Outcome (Option Err)) (ctx_err : Option Err) (b : Breaker)
    → Moves b (settle now probe result ctx_err b)
unfolding settle leave_probe
settle-Moves now probe result ctx_err b = ground (
  arith,
  record_success-Moves (leave_probe probe b),
  record_failure-Moves now (leave_probe probe b),
)

admit_in-fixed :
    (st : State) (b : Breaker)
    → let b' = (admit_in st b).0 in
      (b'.config ≡ b.config) × (b'.state ≡ b.state) × (b'.notified ≡ b.notified)
unfolding admit_in
admit_in-fixed closed b = (refl, refl, refl)
admit_in-fixed opened b = (refl, refl, refl)
admit_in-fixed half_open b = ground arith

admit-Moves : (now : ℕ) (b : Breaker) → Moves b (admit now b).0
unfolding admit
admit-Moves now b =
    let c : Breaker = current_state now b in
    ground (arith, current_state-Moves now b, admit_in-fixed c.state c)

Edge-ne : {s t : State} → Edge s t → same_state s t ≡ false
Edge-ne trips = refl
Edge-ne probes = refl
Edge-ne recovers = refl
Edge-ne relapses = refl
Edge-ne manual = refl

same_state_refl : (s : State) → same_state s s ≡ true
same_state_refl closed = refl
same_state_refl opened = refl
same_state_refl half_open = refl

pub record Traced (cfg : Config) (s : System) : Type 0 where
  pub configured : s.breaker.config.on_state_change ≡ cfg.on_state_change
  pub chain : cfg.on_state_change ≡ true → Chain s.breaker.notified s.breaker.state
  pub counted : cfg.on_state_change ≡ true → s.era ≡ length s.breaker.notified
  pub silent : cfg.on_state_change ≡ false → s.breaker.notified ≡ []

advance-Traced :
    (cfg : Config) (b : Breaker) (cs : List Call) (stale : ℕ) (s : System)
    → Moves s.breaker b
    → Traced cfg s
    → Traced cfg (advance b cs stale s)
unfolding advance
advance-Traced cfg b cs stale s (c, inl (st, n)) t = record {
  configured = ground (arith, t.configured);
  chain = λ on.
      subst (λ n. Chain n b.state) (sym n) (subst (Chain s.breaker.notified) (sym st) (t.chain on));
  counted = λ on.
      ground
        (arith, t.counted, st, same_state_refl s.breaker.state, ap (length {A = State × State}) n);
  silent = λ off. n ∙ t.silent off;
}
advance-Traced cfg b cs stale s (c, inr (e, n)) t = record {
  configured = ground (arith, t.configured);
  chain = λ on.
      subst (λ n. Chain n b.state) (sym (n ∙ cond_true _ _ (t.configured ∙ on)))
        (refl, e, t.chain on);
  counted = λ on. ground (
    arith,
    t.counted,
    Edge-ne e,
    ap (length {A = State × State}) (n ∙ cond_true _ _ (t.configured ∙ on)),
  );
  silent = λ off. n ∙ cond_false _ _ (t.configured ∙ off) ∙ t.silent off;
}

enter_with-Traced :
    (cfg : Config) (s : System) (r : Breaker × Admission)
    → Moves s.breaker r.0
    → Traced cfg s
    → Traced cfg (enter_with r s)
unfolding enter_with
enter_with-Traced cfg s (b, refused e) m t = advance-Traced cfg b s.calls 0 s m t
enter_with-Traced cfg s (b, admitted p) m t =
    let u = advance-Traced cfg b s.calls 0 s m t in
    record { configured = u.configured; chain = u.chain; counted = u.counted; silent = u.silent }

Step-Traced : {cfg : Config} {s t : System} → Step s t → Traced cfg s → Traced cfg t
unfolding enter leave
Step-Traced {cfg} (enters s now) t =
    enter_with-Traced cfg s (admit now s.breaker) (admit-Moves now s.breaker) t
Step-Traced {cfg} (leaves s xs c ys now result ctx_err e) t =
    advance-Traced cfg _ _ _ s (settle-Moves now c.probe result ctx_err s.breaker) t
Step-Traced {cfg} (queries s now) t =
    advance-Traced cfg _ _ _ s (current_state-Moves now s.breaker) t
Step-Traced {cfg} (resets s) t = advance-Traced cfg _ _ _ s (reset-Moves s.breaker) t

start-Traced : (cfg : Config) → Traced cfg (start cfg)
unfolding start new
start-Traced cfg = record {
  configured = refl;
  chain = λ _. refl;
  counted = λ _. refl;
  silent = λ _. refl;
}

-- In every reachable system the calls of `OnStateChange`, where it is set, are one for each
-- transition and lead along edges of the state machine from `StateClosed` to the present state, each
-- call's `to` being the next one's `from`; where it is not set, there are none.
pub Reach-Traced : {cfg : Config} {s : System} → Reach cfg s → Traced cfg s
Reach-Traced {cfg} here = start-Traced cfg
Reach-Traced (next r st) = Step-Traced st (Reach-Traced r)
