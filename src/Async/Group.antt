-- ===== src/Async/Group.antt =====
-- `Go`, `GoErr` and `Group` of async/async.go: functions run with their panics recovered.
use gopher_core.Common.{
  ℕ, list_laws, zero, suc, ◌-◌, ◌≡◌, refl, ap, ◌∙◌, Option, some, none, List, [], ◌∷◌, ◌++◌, Bool,
  true, false, arith,
}
use gopher_core.Runtime.{Err, Outcome, returned, panicked, panic_error}

-- `Go`: what the function `onPanic` is called with, none if it is not called
unfoldable pub go_reports : {A : Type 0} → (handled : Bool) → Outcome A → Option Err
go_reports handled (returned u) = none
go_reports true (panicked v) = some (panic_error v)
go_reports false (panicked v) = none

-- The error of a worker, a recovered panic included: what `GoErr` sends, what `Group.Go` appends if it
-- is not nil, and what a handler of `QueueServer` returns
unfoldable pub recovered : Outcome (Option Err) → Option Err
recovered (returned e) = e
recovered (panicked v) = some (panic_error v)

-- `GoErr`: what the channel receives, once
unfoldable pub go_err : Outcome (Option Err) → Option Err
unfolding recovered
go_err o = recovered o

-- The counter of the wait group, and the errors
pub record Group : Type 0 where
  pub running : ℕ
  pub errs : List Err

unfoldable pub new_group : Group
new_group = record { running = 0; errs = [] }

abbrev pub append_error : Option Err → List Err → List Err
append_error none errs = errs
append_error (some e) errs = errs ++ e ∷ []

-- `Group.Go`: at the call, and at the end of its goroutine
unfoldable pub group_go : Group → Group
group_go g = record g { running = suc g.running }

unfoldable pub group_done : Outcome (Option Err) → Group → Group
unfolding recovered
group_done o g = record { running = g.running - 1; errs = append_error (recovered o) g.errs }

-- `Wait`: none while it blocks; the empty list is nil
unfoldable pub group_wait : Group → Option (List Err)
group_wait g = elim (g.running) [ zero ↦ some g.errs | suc n ↦ none ]

-- What happens to a group: a call of `Go`, or the end of a goroutine
pub data Event : Type 0 where
  goes : Event
  ends : Outcome (Option Err) → Event

unfoldable pub play_event : Event → Group → Group
unfolding group_go group_done
play_event goes g = group_go g
play_event (ends o) g = group_done o g

-- So many goroutines run after these events.
pub data Balance : ℕ → List Event → ℕ → Type 0 where
  balanced : (n : ℕ) → Balance n [] n
  started :
      (n : ℕ) (events : List Event) (m : ℕ) → Balance (suc n) events m → Balance n (goes ∷ events) m
  finished :
      (n : ℕ) (o : Outcome (Option Err)) (events : List Event) (m : ℕ)
      → Balance n events m
      → Balance (suc n) (ends o ∷ events) m

unfoldable pub play : List Event → Group → Group
unfolding play_event
play [] g = g
play (event ∷ events) g = play events (play_event event g)

-- The errors of the goroutines that failed, in the order in which they ended
unfoldable pub failures : List Event → List Err
failures [] = []
failures (goes ∷ events) = failures events
failures (ends (returned none) ∷ events) = failures events
failures (ends (returned (some e)) ∷ events) = e ∷ failures events
failures (ends (panicked v) ∷ events) = panic_error v ∷ failures events

play-errs : (events : List Event) (g : Group) → (play events g).errs ≡ g.errs ++ failures events
unfolding play play_event group_go group_done recovered failures
play-errs [] g = simp list_laws
play-errs (goes ∷ events) g = play-errs events _
play-errs (ends (returned none) ∷ events) g = play-errs events _
play-errs (ends (returned (some e)) ∷ events) g = play-errs events _ ∙ simp list_laws
play-errs (ends (panicked v) ∷ events) g = play-errs events _ ∙ simp list_laws

play-running :
    (n m : ℕ) (events : List Event) (g : Group)
    → Balance n events m
    → g.running ≡ n
    → (play events g).running ≡ m
unfolding play play_event group_go group_done
play-running n m events g (balanced n') e = e
play-running n m events g (started n' rest m' b) e = play-running (suc n) m rest _ b (ap suc e)
play-running n m events g (finished n' o rest m' b) e =
    play-running n' m rest _ b (omega (arith, e))

wait-zero : (g : Group) → g.running ≡ 0 → group_wait g ≡ some g.errs
unfolding group_wait
wait-zero g e = ground (arith, e)

-- However the goroutines of a new group interleave, when all of them have ended `Wait` returns
-- the errors of those that failed, a panic being an error, in the order in which they ended.
pub group_wait-play :
    (events : List Event)
    → Balance 0 events 0
    → group_wait (play events new_group) ≡ some (failures events)
unfolding new_group
group_wait-play events b =
    wait-zero (play events new_group) (play-running 0 0 events new_group b refl)
    ∙ ap some (play-errs events new_group)
