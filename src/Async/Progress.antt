-- ===== src/Async/Progress.antt =====
-- `Map` (async/async.go) always gets to its end.
use gopher_core.Common.{
  ℕ, ◌+◌, ◌*◌, ◌≤◌, ◌≡◌, refl, ap, ◌⊎◌, inl, inr, Option, some, none, List, [], ◌∷◌, ◌++◌, count_if,
  length, arith,
}
use gopher_core.Common.Int.{ℤ}
use gopher_core.Runtime.{Err, Outcome}
use gopher_core.Async.{
  Pool, Slot, spawned, working, ended, Phase, checking, selecting, left, active, is_active, limit,
}
use gopher_core.Async.Runs.{Job, Move, checks, acquires, begins, finishes, Reach, IsDone}
use gopher_core.Async.Sound.{Sound, Reach-Sound}

-- The steps that are left at most: 2 for a worker that has not begun, and so on
abbrev slot_work : {T R : Type 0} → T × Slot R → ℕ
slot_work (x, spawned) = 2
slot_work (x, working) = 1
slot_work (x, ended r e) = 0

abbrev slots_work : {T R : Type 0} → List (T × Slot R) → ℕ
slots_work [] = 0
slots_work (w ∷ ws) = slot_work w + slots_work ws

abbrev phase_work : Phase → ℕ
phase_work checking = 2
phase_work selecting = 1
phase_work left = 0

abbrev ctx_work : Option Err → ℕ
ctx_work none = 1
ctx_work (some e) = 0

abbrev pub work : {T R : Type 0} → Pool T R → ℕ
work s = slots_work s.launched + 4 * length s.pending + phase_work s.phase + ctx_work s.ctx_err

limit_pos : (c : ℤ) → 1 ≤ limit c
unfolding limit
limit_pos c = ground arith

-- A worker that is not at its end
abbrev Unfinished : {T R : Type 0} → List (T × Slot R) → Type 0
Unfinished {T} {R} ws =
    (before : List (T × Slot R)) × ((x : T) × ((after : List (T × Slot R)) × ((ws
            ≡ before ++ (x, spawned) ∷ after)
          ⊎ (ws ≡ before ++ (x, working) ∷ after))))

cons-Unfinished :
    {T R : Type 0} (w : T × Slot R) (ws : List (T × Slot R)) → Unfinished ws → Unfinished (w ∷ ws)
cons-Unfinished w ws (before, (x, (after, inl e))) =
    (w ∷ before, (x, (after, inl (ap (λ l. w ∷ l) e))))
cons-Unfinished w ws (before, (x, (after, inr e))) =
    (w ∷ before, (x, (after, inr (ap (λ l. w ∷ l) e))))

active-cases : {T R : Type 0} (ws : List (T × Slot R)) → (count_if is_active ws ≡ 0) ⊎ Unfinished ws
active-cases [] = inl refl
active-cases ((x, spawned) ∷ ws) = inr ([], (x, (ws, inl refl)))
active-cases ((x, working) ∷ ws) = inr ([], (x, (ws, inr refl)))
active-cases ((x, ended r e) ∷ ws) = elim (active-cases ws) [
  | inl n ↦ inl n
  | inr u ↦ inr (cons-Unfinished (x, ended r e) ws u)
]

phase-cases : (p : Phase) → (p ≡ checking) ⊎ ((p ≡ selecting) ⊎ (p ≡ left))
phase-cases checking = inl refl
phase-cases selecting = inr (inl refl)
phase-cases left = inr (inr refl)

module _ {T R : Type 0} (job : Job T R) where
  CanMove : Pool T R → Type 0
  CanMove s = (t : Pool T R) × Move job s t

  go_on :
      ((x : T) → (o : Outcome (R × Option Err)) × job.Calls x o)
      → (s : Pool T R) → Unfinished s.launched
      → CanMove s
  unfolding CanMove
  go_on ends s (before, (x, (after, inl e))) = (_, begins s before x after e)
  go_on ends s (before, (x, (after, inr e))) =
      (_, finishes s before x after (ends x).0 e (ends x).1)

  step_idle :
      (items : List T) (s : Pool T R) → Sound job items s → active s ≡ 0 → IsDone s ⊎ CanMove s
  unfolding CanMove
  step_idle items s h idle = elim (phase-cases s.phase) [
    | inl p ↦ inr (_, checks s p)
    | inr (inl p) ↦ inr (
      _,
      acquires s (h.some_pending p).0 (h.some_pending p).1.0 p (h.some_pending p).1.1
          (omega (arith, h.held, idle, limit_pos job.concurrency)),
    )
    | inr (inr p) ↦ inl (record { out = p; idle = idle })
  ]

  -- If the function always returns or panics, `Map` never gets stuck: in every state it can come to,
  -- it has ended, or its loop or one of its workers can go on, without the context's ending.
  pub map_progress :
      ((x : T) → (o : Outcome (R × Option Err)) × job.Calls x o)
      → (items : List T) (s : Pool T R) → Reach job items s
      → IsDone s ⊎ ((t : Pool T R) × Move job s t)
  unfolding CanMove
  map_progress ends items s r = elim (active-cases s.launched) [
    | inl idle ↦ step_idle items s (Reach-Sound job r) idle
    | inr u ↦ inr (go_on ends s u)
  ]
