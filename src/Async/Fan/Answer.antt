-- ===== src/Async/Fan/Answer.antt =====
-- What `Fan` (async/async.go) returns.
use gopher_core.Common.{
  ◌≡◌, refl, sym, ap, subst, ◌∙◌, ◌⊎◌, inl, inr, Option, some, List, [], ◌∷◌, ◌++◌, map, All,
  count_if, arith,
}
use mathlib.Core.List.{Perm, append-nil}
use gopher_core.Runtime.{Err, Outcome}
use gopher_core.Async.Group.{recovered}
use gopher_core.Async.Sound.{item}
use gopher_core.Async.Fan.{Task, running, ended, Fanout, is_running, FanReach, HasEnded}
use gopher_core.Async.Fan.Errors.{cons_error, task_errors}
use gopher_core.Async.Fan.Sound.{Called, FanSound, collected_of_idle, FanReach-FanSound}

-- The errors of calls, a panic being one
abbrev pub faults : {T : Type 0} → List (T × Outcome (Option Err)) → List Err
faults [] = []
faults ((x, o) ∷ ran) = cons_error (recovered o) (faults ran)

-- What `Fan` is to return: the errors of calls of the function, in some order. The calls are those on
-- all of the items, or those on the items before one, if the context had ended by then, whose error
-- is one more.
pub data Collects {T : Type 0} (Calls : T → Outcome (Option Err) → Type 0) (items : List T)
    (ctx_err : Option Err) (errs : List Err) : Type 0 where
  ran_all :
      (ran : List (T × Outcome (Option Err)))
      → map item ran ≡ items
      → All (λ w. Calls w.0 w.1) ran
      → Perm errs (faults ran)
      → Collects Calls items ctx_err errs
  cut_short :
      (ran : List (T × Outcome (Option Err))) (x : T) (rest : List T) (e : Err)
      → map item ran ++ x ∷ rest ≡ items
      → All (λ w. Calls w.0 w.1) ran
      → ctx_err ≡ some e
      → Perm errs (e ∷ faults ran)
      → Collects Calls items ctx_err errs

-- The calls that have ended
abbrev ran_of : {T : Type 0} → List (T × Task) → List (T × Outcome (Option Err))
ran_of [] = []
ran_of ((x, running) ∷ ws) = ran_of ws
ran_of ((x, ended o) ∷ ws) = (x, o) ∷ ran_of ws

faults-ran_of : {T : Type 0} (ws : List (T × Task)) → faults (ran_of ws) ≡ task_errors ws
faults-ran_of [] = refl
faults-ran_of ((x, running) ∷ ws) = faults-ran_of ws
faults-ran_of ((x, ended o) ∷ ws) = ap (cons_error (recovered o)) (faults-ran_of ws)

item-ran_of :
    {T : Type 0} (ws : List (T × Task))
    → count_if is_running ws ≡ 0
    → map item (ran_of ws) ≡ map item ws
item-ran_of [] idle = refl
item-ran_of ((x, running) ∷ ws) idle = ground (arith, idle)
item-ran_of ((x, ended o) ∷ ws) idle = ap (λ l. x ∷ l) (item-ran_of ws idle)

module _ {T : Type 0} (Calls : T → Outcome (Option Err) → Type 0) where
  Called-ran_of :
      (ws : List (T × Task)) → All (Called Calls) ws → All (λ w. Calls w.0 w.1) (ran_of ws)
  Called-ran_of [] h = tt
  Called-ran_of ((x, running) ∷ ws) h = Called-ran_of ws h.1
  Called-ran_of ((x, ended o) ∷ ws) h = (h.0, Called-ran_of ws h.1)

  collects_all :
      {items : List T} {s : Fanout T}
      → FanSound Calls items s
      → HasEnded s
      → s.pending ≡ []
      → Collects Calls items s.ctx_err s.errs
  collects_all {s = s} h done p =
      ran_all (ran_of s.launched)
        (item-ran_of s.launched done.idle
          ∙ sym (append-nil (map item s.launched))
          ∙ ap (λ l. map item s.launched ++ l) (sym p)
          ∙ h.ordered)
        (Called-ran_of s.launched h.called)
        (subst (Perm s.errs) (sym (faults-ran_of s.launched))
          (collected_of_idle Calls h (λ off. p)))

  collects_some :
      {items : List T} {s : Fanout T} (x : T) (rest : List T) (e : Err)
      → FanSound Calls items s
      → HasEnded s
      → s.pending ≡ x ∷ rest
      → s.ctx_err ≡ some e
      → Collects Calls items s.ctx_err s.errs
  collects_some {s = s} x rest e h done p q =
      cut_short (ran_of s.launched) x rest e
        (ap (λ l. l ++ x ∷ rest) (item-ran_of s.launched done.idle)
          ∙ ap (λ l. map item s.launched ++ l) (sym p)
          ∙ h.ordered)
        (Called-ran_of s.launched h.called) q
        (subst (λ l. Perm s.errs (e ∷ l)) (sym (faults-ran_of s.launched)) stopped)
    where
      stopped : Perm s.errs (e ∷ task_errors s.launched)
      stopped = subst (Perm s.errs) (rw (done.out, p, q) refl) h.collected

  pending-cases :
      (pending : List T) → (pending ≡ []) ⊎ ((x : T) × ((rest : List T) × (pending ≡ x ∷ rest)))
  pending-cases [] = inl refl
  pending-cases (x ∷ rest) = inr (x, (rest, refl))

  -- However the goroutines interleave and whenever the context ends, the errors that `Fan` returns
  -- are, in some order, those of the function's calls on all of the items, a panic being an error, or,
  -- when the context has ended before an item, those of its calls on the items before that one and the
  -- context's error.
  pub fan_collects :
      (items : List T) (s : Fanout T)
      → FanReach Calls items s
      → HasEnded s
      → Collects Calls items s.ctx_err s.errs
  fan_collects items s r done = elim (pending-cases s.pending) [
    | inl p ↦ collects_all sound done p
    | inr (x, (rest, p)) ↦ elim (sound.halted done.out) [
      | inl q ↦ collects_all sound done q
      | inr (e, q) ↦ collects_some x rest e sound done p q
    ]
  ]
    where
      sound : FanSound Calls items s
      sound = FanReach-FanSound Calls r
