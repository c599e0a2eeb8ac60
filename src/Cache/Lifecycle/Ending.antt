-- ===== src/Cache/Lifecycle/Ending.antt =====
-- The end of a cache's life (cachekit/memory.go): what has ended when `Close` returns, and that it can.
use gopher_core.Common.{
  ◌≡◌, refl, sym, subst, ◌∙◌, inl, inr, true, Bool-cases, Option, none, some, List, [], ◌∷◌, ◌++◌,
  All, count_if, All-map, All-head_of_append, All-replace_middle, arith,
}
use gopher_core.Common.Int.{ℤ}
use gopher_core.Cache.{Store}
use gopher_core.Cache.Lifecycle.{Lifecycle, new_lifecycle, close}
use gopher_core.Cache.Lifecycle.Runs.{
  Loop, Closer, calling, waiting, finished, crashed, is_crashed, Cleaner, boot, after_once,
  run_once, Move, closes, finishes, stops, sweeps, Step, moves, ticks, calls, others, Run, stay, go,
  Reach,
}

-- What a call of `Close` that has come so far tells of the others
abbrev pub Tells : Lifecycle → Option Loop → Closer → Type 0
Tells l loop calling = Unit
Tells l loop waiting = l.stop_closed ≡ true
Tells l loop finished = (l.stop_closed ≡ true) × (loop ≡ none)
Tells l loop crashed = ⊥

pub record IsOrderly (s : Cleaner) : Type 0 where
  pub in_step : s.life.once ≡ s.life.stop_closed
  pub told : All (Tells s.life s.loop) s.closers

-- What the calls tell stays true while the channel stays closed and an ended loop ended.
Tells-later :
    (l m : Lifecycle) (p q : Option Loop)
    → (l.stop_closed ≡ true → m.stop_closed ≡ true)
    → (p ≡ none → q ≡ none)
    → (c : Closer) → Tells l p c
    → Tells m q c
Tells-later l m p q f g calling h = h
Tells-later l m p q f g waiting h = f h
Tells-later l m p q f g finished h = (f h.0, g h.1)
Tells-later l m p q f g crashed h = h

told-later :
    (l m : Lifecycle) (p q : Option Loop) (cs : List Closer)
    → (l.stop_closed ≡ true → m.stop_closed ≡ true)
    → (p ≡ none → q ≡ none)
    → All (Tells l p) cs
    → All (Tells m q) cs
told-later l m p q cs f g h = All-map _ _ cs (Tells-later l m p q f g) h

boot-IsOrderly : (interval : ℤ) (store : Store) → IsOrderly (boot interval store)
unfolding boot new_lifecycle
boot-IsOrderly interval store = record { in_step = refl; told = tt }

-- `closeOnce` closes the channel, or finds it closed.
close-cases :
    (l : Lifecycle)
    → l.once ≡ l.stop_closed
    → (m : Lifecycle) × (close l ≡ some m) × (m.once ≡ m.stop_closed) × (m.stop_closed ≡ true)
unfolding close
close-cases l e = elim (Bool-cases l.once) [
  | inl done ↦ (l, ground (arith, done), e, sym e ∙ done)
  | inr fresh ↦ (record l { once = true; stop_closed = true }, ground (arith, fresh, e), refl, refl)
]

run_once-IsOrderly :
    (s : Cleaner) (before after : List Closer)
    → IsOrderly s
    → s.closers ≡ before ++ calling ∷ after
    → IsOrderly (run_once before after s)
unfolding run_once
run_once-IsOrderly s before after h e =
    let (m, same, in_step, closed) = close-cases s.life h.in_step in
    subst (λ o. IsOrderly (after_once o before after s)) (sym same)
      (record {
        in_step = in_step;
        told =
            All-replace_middle _ before calling waiting after
              (subst (All _) e
                (told-later s.life m s.loop s.loop s.closers (λ c. closed) (λ n. n) h.told))
              closed;
      })

after_once-loop :
    (o : Option Lifecycle) (before after : List Closer) (s : Cleaner)
    → (after_once o before after s).loop ≡ s.loop
after_once-loop none before after s = refl
after_once-loop (some l) before after s = refl

Move-IsOrderly : {s t : Cleaner} → IsOrderly s → Move s t → IsOrderly t
Move-IsOrderly h (closes s before after e) = run_once-IsOrderly s before after h e
Move-IsOrderly h (finishes s before after e over) = record {
  in_step = h.in_step;
  told =
      All-replace_middle _ before waiting finished after (subst (All _) e h.told)
        (All-head_of_append _ before waiting after (subst (All _) e h.told), over);
}
Move-IsOrderly h (stops s e c) = record {
  in_step = h.in_step;
  told = told-later s.life s.life s.loop none s.closers (λ c. c) (λ n. refl) h.told;
}
Move-IsOrderly h (sweeps s es e) = record {
  in_step = h.in_step;
  told = told-later s.life s.life s.loop _ s.closers (λ c. c) (λ n. ground (arith, e, n)) h.told;
}

Step-IsOrderly : {s t : Cleaner} → IsOrderly s → Step s t → IsOrderly t
Step-IsOrderly h (moves m) = Move-IsOrderly h m
Step-IsOrderly h (ticks s now e) = record {
  in_step = h.in_step;
  told = told-later s.life s.life s.loop _ s.closers (λ c. c) (λ n. ground (arith, e, n)) h.told;
}
Step-IsOrderly h (calls s) = record { in_step = h.in_step; told = (tt, h.told) }
Step-IsOrderly h (others s store) = record { in_step = h.in_step; told = h.told }

Run-IsOrderly : {s t : Cleaner} → IsOrderly s → Run s t → IsOrderly t
Run-IsOrderly h (stay s) = h
Run-IsOrderly h (go r st) = Step-IsOrderly (Run-IsOrderly h r) st

pub Reach-IsOrderly :
    (interval : ℤ) (store : Store) {s : Cleaner} → Reach interval store s → IsOrderly s
Reach-IsOrderly interval store r = Run-IsOrderly (boot-IsOrderly interval store) r

-- A loop that has ended does not start again.
Step-ended : {s t : Cleaner} → s.loop ≡ none → Step s t → t.loop ≡ none
unfolding run_once
Step-ended h (moves (closes s before after e)) = after_once-loop (close s.life) before after s ∙ h
Step-ended h (moves (finishes s before after e over)) = h
Step-ended h (moves (stops s e c)) = refl
Step-ended h (moves (sweeps s es e)) = ground (arith, e, h)
Step-ended h (ticks s now e) = ground (arith, e, h)
Step-ended h (calls s) = h
Step-ended h (others s store) = h

Run-ended : {s t : Cleaner} → s.loop ≡ none → Run s t → t.loop ≡ none
Run-ended h (stay s) = h
Run-ended h (go r st) = Step-ended (Run-ended h r) st

told-crashed :
    (l : Lifecycle) (p : Option Loop) (cs : List Closer)
    → All (Tells l p) cs
    → count_if is_crashed cs ≡ 0
told-crashed l p [] h = refl
told-crashed l p (calling ∷ cs) h = told-crashed l p cs h.1
told-crashed l p (waiting ∷ cs) h = told-crashed l p cs h.1
told-crashed l p (finished ∷ cs) h = told-crashed l p cs h.1
told-crashed l p (crashed ∷ cs) h = absurd h.0

-- However the goroutines of a new cache interleave, when a call of `Close` has returned, the stop channel is
-- closed, and in every state from then on the cleanup goroutine, if there was one, has ended, so that no
-- eviction of its own is under way or begins; and no call of `Close` has panicked.
pub close_ends_cleanup :
    (interval : ℤ) (store : Store) (s t : Cleaner) (before after : List Closer)
    → Reach interval store s
    → s.closers ≡ before ++ finished ∷ after
    → Run s t
    → (s.life.stop_closed ≡ true) × (t.loop ≡ none) × (count_if is_crashed t.closers ≡ 0)
close_ends_cleanup interval store s t before after r e run =
    let h = Reach-IsOrderly interval store r in
    let (closed, over) = All-head_of_append _ before finished after (subst (All _) e h.told) in
    (closed, Run-ended over run, told-crashed t.life t.loop t.closers (Run-IsOrderly h run).told)
