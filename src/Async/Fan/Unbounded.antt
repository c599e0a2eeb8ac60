-- ===== src/Async/Fan/Unbounded.antt =====
-- How many goroutines of `Fan` (async/async.go) run at once.
use gopher_core.Common.{
  ℕ, ◌+◌, ◌≡◌, refl, ap, subst, ◌∙◌, true, Option, none, List, [], ◌∷◌, ◌++◌, count_if, length,
  arith,
}
use mathlib.Core.List.{append-nil}
use gopher_core.Runtime.{Err, Outcome}
use gopher_core.Async.Fan.{
  running, Fanout, is_running, fan_start, turn, fan_turn, turns, moves, FanReach, here, next,
}
use gopher_core.Async.Fan.Progress.{running-middle}

module _ {T : Type 0} (Calls : T → Outcome (Option Err) → Type 0) where
  -- A state that is reached from this one, with so many goroutines more
  abbrev Grows : List T → Fanout T → ℕ → Type 0
  Grows items s n =
      (t : Fanout T) × (FanReach Calls items t
        × (count_if is_running t.launched ≡ count_if is_running s.launched + n))

  abbrev launched_next : T → List T → Fanout T → Fanout T
  launched_next x rest s = record s { launched = s.launched ++ (x, running) ∷ []; pending = rest }

  fan_turn-launches :
      (x : T) (rest : List T) (s : Fanout T)
      → s.pending ≡ x ∷ rest
      → s.ctx_err ≡ none
      → fan_turn s ≡ launched_next x rest s
  unfolding fan_turn
  fan_turn-launches x rest s p live =
      ap (λ l. turn l s.ctx_err s) p ∙ ap (λ o. turn (x ∷ rest) o s) live

  running-last :
      (x : T) (s : Fanout T)
      → count_if is_running (s.launched ++ (x, running) ∷ []) ≡ 1 + count_if is_running s.launched
  running-last x s =
      running-middle s.launched x [] ∙ ap (λ l. 1 + count_if is_running l) (append-nil s.launched)

  launch_all :
      (items rest : List T) (s : Fanout T)
      → FanReach Calls items s
      → s.looping ≡ true
      → s.ctx_err ≡ none
      → s.pending ≡ rest
      → Grows items s (length rest)
  launch_all items [] s r on live p = (s, (r, omega arith))
  launch_all items (x ∷ rest) s r on live p =
      let s' : Fanout T = launched_next x rest s in
      let reached : FanReach Calls items s' =
        subst (FanReach Calls items) (fan_turn-launches x rest s p live)
          (next r (moves (turns s on))) in
      let (t, (q, n)) = launch_all items rest s' reached on live refl in
      (t, (q, omega (arith, n, running-last x s)))

  -- `Fan` has no bound on its goroutines: of any items, it can come to a state in which a goroutine runs
  -- for each of them.
  pub fan_unbounded :
      (items : List T)
      → (s : Fanout T) × (FanReach Calls items s × (count_if is_running s.launched ≡ length items))
  unfolding fan_start
  fan_unbounded items =
      let (s, (r, n)) = launch_all items items (fan_start items) here refl refl refl in
      (s, (r, omega (arith, n)))
