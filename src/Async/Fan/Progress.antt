-- ===== src/Async/Fan/Progress.antt =====
-- `Fan` (async/async.go) always gets to its end.
use gopher_core.Common.{
  ℕ, ◌+◌, ◌*◌, ◌≤◌, ◌<◌, ◌≡◌, refl, ap, ◌⊎◌, inl, inr, Bool, true, false, Bool-cases, Option, some,
  none, List, [], ◌∷◌, ◌++◌, count_if, length, arith,
}
use mathlib.Core.List.{append-nil}
use gopher_core.Runtime.{Err, Outcome}
use gopher_core.Async.Fan.{
  Task, running, ended, Fanout, is_running, fan_start, turn, fan_turn, fan_end, FanMove, turns,
  ends, FanStep, moves, cancels, FanSteps, stop, go, HasEnded,
}

abbrev loop_work : Bool → ℕ
loop_work true = 1
loop_work false = 0

abbrev ctx_work : Option Err → ℕ
ctx_work none = 1
ctx_work (some e) = 0

-- The steps that are left at most
abbrev fan_work : {T : Type 0} → Fanout T → ℕ
fan_work s =
    count_if is_running s.launched + 2 * length s.pending + loop_work s.looping + ctx_work s.ctx_err

pub running-middle :
    {T : Type 0} (before : List (T × Task)) (x : T) (after : List (T × Task))
    → count_if is_running (before ++ (x, running) ∷ after)
      ≡ 1 + count_if is_running (before ++ after)
running-middle [] x after = omega arith
running-middle (w ∷ before) x after = ground (arith, running-middle before x after)

ended-middle :
    {T : Type 0} (before : List (T × Task)) (x : T) (o : Outcome (Option Err))
    (after : List (T × Task))
    → count_if is_running (before ++ (x, ended o) ∷ after) ≡ count_if is_running (before ++ after)
ended-middle [] x o after = refl
ended-middle (w ∷ before) x o after = ground (arith, ended-middle before x o after)

-- A goroutine that has not ended
abbrev Runs : {T : Type 0} → List (T × Task) → Type 0
Runs {T} ws =
    (before : List (T × Task)) × ((x : T) × ((after : List (T × Task)) × (ws
          ≡ before ++ (x, running) ∷ after)))

running-cases : {T : Type 0} (ws : List (T × Task)) → (count_if is_running ws ≡ 0) ⊎ Runs ws
running-cases [] = inl refl
running-cases ((x, running) ∷ ws) = inr ([], (x, (ws, refl)))
running-cases ((x, ended o) ∷ ws) = elim (running-cases ws) [
  | inl n ↦ inl n
  | inr (before, (y, (after, e))) ↦
      inr ((x, ended o) ∷ before, (y, (after, ap (λ l. (x, ended o) ∷ l) e)))
]

module _ {T : Type 0} (Calls : T → Outcome (Option Err) → Type 0) where
  turn_work :
      (s : Fanout T) (pending : List T) (o : Option Err)
      → s.pending ≡ pending
      → s.looping ≡ true
      → fan_work (turn pending o s) < fan_work s
  turn_work s [] o p on = omega (arith, ap length p, ap loop_work on)
  turn_work s (x ∷ rest) none p on = omega (
    arith,
    ap length p,
    running-middle s.launched x [],
    ap (count_if is_running) (append-nil s.launched),
  )
  turn_work s (x ∷ rest) (some e) p on = omega (arith, ap length p, ap loop_work on)

  FanMove-work : (s t : Fanout T) → FanMove Calls s t → fan_work t < fan_work s
  unfolding fan_turn fan_end
  FanMove-work s t (turns s' on) = turn_work s' s'.pending s'.ctx_err refl on
  FanMove-work s t (ends s' before x after o e c) = omega (
    arith,
    ap (count_if is_running) e,
    running-middle before x after,
    ended-middle before x o after,
  )

  FanStep-work : (s t : Fanout T) → FanStep Calls s t → fan_work t < fan_work s
  FanStep-work s t (moves m) = FanMove-work s t m
  FanStep-work s t (cancels s' e p) = ground (arith, p)

  FanSteps-work : (n : ℕ) (s t : Fanout T) → FanSteps Calls n s t → n + fan_work t ≤ fan_work s
  FanSteps-work n s t (stop s') = omega arith
  FanSteps-work n s t (go {n = m} {t = u} one rest) =
      omega (arith, FanStep-work s u one, FanSteps-work m u t rest)

  -- However its goroutines interleave, and whenever the context ends, `Fan` ends after at most 2 steps
  -- for each item and 2 more.
  pub fan_terminates :
      (items : List T) (n : ℕ) (t : Fanout T)
      → FanSteps Calls n (fan_start items) t
      → n ≤ 2 * length items + 2
  unfolding fan_start
  fan_terminates items n t run = omega (arith, FanSteps-work n (fan_start items) t run)

  abbrev pub CanMove : Fanout T → Type 0
  CanMove s = (t : Fanout T) × FanMove Calls s t

  -- When every call of the function ends, `Fan` has ended or can move on, in every state.
  pub fan_progress :
      ((x : T) → (o : Outcome (Option Err)) × Calls x o) → (s : Fanout T) → HasEnded s ⊎ CanMove s
  fan_progress ending s = elim (Bool-cases s.looping) [
    | inl on ↦ inr (fan_turn s, turns s on)
    | inr off ↦ elim (running-cases s.launched) [
      | inl idle ↦ inl (record { out = off; idle = idle })
      | inr (before, (x, (after, e))) ↦ inr (_, ends s before x after (ending x).0 e (ending x).1)
    ]
  ]
