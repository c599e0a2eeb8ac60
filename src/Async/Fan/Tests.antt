-- ===== src/Async/Fan/Tests.antt =====
-- A run of `Fan`, in which one call panics and the context ends before the last item.
use gopher_core.Common.{ℕ, ◌≡◌, refl, Option, some, none, [], ◌∷◌, true, false}
use gopher_core.Runtime.{Err, Outcome, panicked, panic_error, sentinel, canceled}
use gopher_core.Async.Group.{recovered}
use gopher_core.Async.Fan.{
  running, ended, Fanout, fan_start, fan_turn, fan_end, turns, ends, FanStep, moves, cancels, here,
  next,
}
use gopher_core.Async.Fan.Answer.{Collects, fan_collects}

-- A function that panics with its item
abbrev Panics : ℕ → Outcome (Option Err) → Type 0
Panics x o = o ≡ panicked x

abbrev launched_one : Fanout ℕ
launched_one = record {
  looping = true;
  launched = (4, running) ∷ [];
  pending = 7 ∷ [];
  errs = [];
  ctx_err = none;
}

abbrev canceled_one : Fanout ℕ
canceled_one = record launched_one { ctx_err = some (sentinel canceled) }

abbrev left_loop : Fanout ℕ
left_loop = record canceled_one { looping = false; errs = sentinel canceled ∷ [] }

abbrev fan_over : Fanout ℕ
fan_over = record left_loop {
  launched = (4, ended (panicked 4)) ∷ [];
  errs = sentinel canceled ∷ panic_error 4 ∷ [];
}

launches : FanStep Panics (fan_start (4 ∷ 7 ∷ [])) launched_one
unfolding fan_start fan_turn
launches = moves (turns (fan_start (4 ∷ 7 ∷ [])) refl)

leaves : FanStep Panics canceled_one left_loop
unfolding fan_turn
leaves = moves (turns canceled_one refl)

panics : FanStep Panics left_loop fan_over
unfolding fan_end recovered
panics = moves (ends left_loop [] 4 [] (panicked 4) refl refl)

fan_collects_example :
    Collects Panics (4 ∷ 7 ∷ []) (some (sentinel canceled)) (sentinel canceled ∷ panic_error 4 ∷ [])
fan_collects_example =
    fan_collects Panics (4 ∷ 7 ∷ []) fan_over
      (next
        (next (next (next here launches) (cancels launched_one (sentinel canceled) refl)) leaves)
        panics)
      (record { out = refl; idle = refl })
