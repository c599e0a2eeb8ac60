-- ===== src/Async/Fan/Sound.antt =====
-- The invariant of `Fan` (async/async.go).
use gopher_core.Common.{
  ◌≡◌, refl, sym, ap, subst, ◌∙◌, ◌⊎◌, inl, inr, true, false, Option, none, some, List, [], ◌∷◌,
  ◌++◌, map, All, All-append, All-replace_middle, arith,
}
use mathlib.Core.List.{Perm}
use mathlib.Core.List.Perm
use gopher_core.Runtime.{Err, Outcome}
use gopher_core.Async.Group.{recovered}
use gopher_core.Async.Sound.{item, item-middle, item-last}
use gopher_core.Async.Fan.{
  Task, running, ended, Fanout, fan_start, turn, fan_turn, fan_end, FanMove, turns, ends, FanStep,
  moves, cancels, FanReach, here, next,
}
use gopher_core.Async.Fan.Errors.{
  task_errors, with_stop, with_stop-idle, with_stop-cons_error, with_stop-perm, cons_error-perm,
  append_error-perm, task_errors-last, task_errors-ended,
}

module _ {T : Type 0} (Calls : T → Outcome (Option Err) → Type 0) where
  -- An end that is noted is one of the function.
  abbrev pub Called : T × Task → Type 0
  Called (x, running) = Unit
  Called (x, ended o) = Calls x o

  pub record FanSound (items : List T) (s : Fanout T) : Type 0 where
    pub ordered : map item s.launched ++ s.pending ≡ items
    pub called : All Called s.launched
    pub collected : Perm s.errs (with_stop s.looping s.pending s.ctx_err (task_errors s.launched))
    pub halted : s.looping ≡ false → (s.pending ≡ []) ⊎ ((e : Err) × (s.ctx_err ≡ some e))

  fan_start-FanSound : (items : List T) → FanSound items (fan_start items)
  unfolding fan_start
  fan_start-FanSound items = record {
    ordered = refl;
    called = tt;
    collected = Perm.rfl;
    halted = λ h. ground (arith, h);
  }

  -- While the loop runs, or when it has gone through the items, the errors are those of goroutines.
  pub collected_of_idle :
      {items : List T} {s : Fanout T}
      → FanSound items s
      → (s.looping ≡ false → s.pending ≡ [])
      → Perm s.errs (task_errors s.launched)
  collected_of_idle {s = s} h idle =
      subst (Perm s.errs) (with_stop-idle s.looping s.pending s.ctx_err _ idle) h.collected

  collected_looping :
      {items : List T} {s : Fanout T}
      → FanSound items s
      → s.looping ≡ true
      → Perm s.errs (task_errors s.launched)
  collected_looping h on = collected_of_idle h (λ k. ground (arith, k, on))

  idle_live :
      {items : List T} {s : Fanout T}
      → FanSound items s
      → s.ctx_err ≡ none
      → s.looping ≡ false
      → s.pending ≡ []
  idle_live h live off = elim (h.halted off) [ inl p ↦ p | inr (e, q) ↦ ground (arith, live, q) ]

  turn-FanSound :
      (items : List T) (s : Fanout T) (pending : List T) (o : Option Err)
      → s.pending ≡ pending
      → s.ctx_err ≡ o
      → s.looping ≡ true
      → FanSound items s
      → FanSound items (turn pending o s)
  turn-FanSound items s [] o p q on h = record {
    ordered = h.ordered;
    called = h.called;
    collected = rw p (collected_looping h on);
    halted = λ k. inl p;
  }
  turn-FanSound items s (x ∷ rest) none p q on h = record {
    ordered =
        item-last s.launched x running rest
        ∙ ap (λ l. map item s.launched ++ l) (sym p)
        ∙ h.ordered;
    called = All-append Called s.launched ((x, running) ∷ []) h.called (tt, tt);
    collected =
        subst (Perm s.errs)
          (sym (task_errors-last s.launched x)
            ∙ sym (with_stop-idle s.looping rest s.ctx_err _ (λ k. ground (arith, k, on))))
          (collected_looping h on);
    halted = λ k. ground (arith, k, on);
  }
  turn-FanSound items s (x ∷ rest) (some e) p q on h = record {
    ordered = h.ordered;
    called = h.called;
    collected =
        rw (p, q)
          (Perm.trans (append_error-perm (some e) s.errs) (Perm.cons e (collected_looping h on)));
    halted = λ k. inr (e, q);
  }

  fan_end-FanSound :
      (items : List T) (s : Fanout T) (before : List (T × Task)) (x : T) (after : List (T × Task))
      (o : Outcome (Option Err))
      → s.launched ≡ before ++ (x, running) ∷ after
      → Calls x o
      → FanSound items s
      → FanSound items (fan_end before x after o s)
  unfolding fan_end
  fan_end-FanSound items s before x after o e c h = record {
    ordered =
        ap (λ l. l ++ s.pending)
          (item-middle before x (ended o) running after ∙ sym (ap (map item) e))
        ∙ h.ordered;
    called =
        All-replace_middle Called before (x, running) (x, ended o) after
          (subst (All Called) e h.called) c;
    collected = Perm.trans (append_error-perm (recovered o) s.errs) (
        Perm.trans
          (cons_error-perm (recovered o) _ _ (
            subst (λ l. Perm s.errs (with_stop s.looping s.pending s.ctx_err (task_errors l))) e
              h.collected))
          (Perm.trans (with_stop-cons_error s.looping s.pending s.ctx_err (recovered o) _) (
            with_stop-perm s.looping s.pending s.ctx_err _ _
              (task_errors-ended before x o after))));
    halted = h.halted;
  }

  FanMove-FanSound :
      (items : List T) {s t : Fanout T} → FanSound items s → FanMove Calls s t → FanSound items t
  unfolding fan_turn
  FanMove-FanSound items h (turns s on) = turn-FanSound items s s.pending s.ctx_err refl refl on h
  FanMove-FanSound items h (ends s before x after o e c) =
      fan_end-FanSound items s before x after o e c h

  FanStep-FanSound :
      (items : List T) {s t : Fanout T} → FanSound items s → FanStep Calls s t → FanSound items t
  FanStep-FanSound items h (moves m) = FanMove-FanSound items h m
  FanStep-FanSound items h (cancels s e live) = record {
    ordered = h.ordered;
    called = h.called;
    collected =
        subst (Perm s.errs) (sym (with_stop-idle s.looping s.pending (some e) _ (idle_live h live)))
          (collected_of_idle h (idle_live h live));
    halted = λ k. inr (e, refl);
  }

  pub FanReach-FanSound :
      {items : List T} {s : Fanout T} → FanReach Calls items s → FanSound items s
  FanReach-FanSound {items} here = fan_start-FanSound items
  FanReach-FanSound {items} (next r st) = FanStep-FanSound items (FanReach-FanSound r) st
