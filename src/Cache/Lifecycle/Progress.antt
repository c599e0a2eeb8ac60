-- ===== src/Cache/Lifecycle/Progress.antt =====
-- `Close` of the cache (cachekit/memory.go) always gets to its end.
use gopher_core.Common.{
  ℕ, ◌+◌, ◌<◌, ◌≡◌, refl, subst, ap, ◌⊎◌, inl, inr, Bool, true, false, Option, none, some, List, [],
  ◌∷◌, ◌++◌, String, All, All-head_of_append, count_if, arith,
}
use gopher_core.Common.Int.{ℤ}
use gopher_core.Cache.{Store}
use gopher_core.Cache.Lifecycle.{Lifecycle, close}
use gopher_core.Cache.Lifecycle.Runs.{
  Loop, selecting, evicting, Closer, calling, waiting, finished, crashed, Cleaner, after_once,
  run_once, Move, closes, finishes, stops, sweeps, Reach,
}
use gopher_core.Cache.Lifecycle.Ending.{Tells, IsOrderly, Reach-IsOrderly}

abbrev closer_work : Closer → ℕ
closer_work calling = 2
closer_work waiting = 1
closer_work _ = 0

abbrev closers_work : List Closer → ℕ
closers_work [] = 0
closers_work (c ∷ cs) = closer_work c + closers_work cs

abbrev loop_work : Option Loop → ℕ
loop_work none = 0
loop_work (some selecting) = 1
loop_work (some (evicting es)) = 2

-- The moves that are left at most until the next tick or call
abbrev pub work : Cleaner → ℕ
work s = closers_work s.closers + loop_work s.loop

closers_work-middle :
    (before : List Closer) (c : Closer) (after : List Closer)
    → closers_work (before ++ c ∷ after)
      ≡ closer_work c + (closers_work before + closers_work after)
closers_work-middle [] c after = omega arith
closers_work-middle (b ∷ before) c after = omega (arith, closers_work-middle before c after)

after_once-work :
    (o : Option Lifecycle) (before after : List Closer) (s : Cleaner)
    → s.closers ≡ before ++ calling ∷ after
    → work (after_once o before after s) < work s
after_once-work none before after s e = omega (
  arith,
  ap closers_work e,
  closers_work-middle before calling after,
  closers_work-middle before crashed after,
)
after_once-work (some l) before after s e = omega (
  arith,
  ap closers_work e,
  closers_work-middle before calling after,
  closers_work-middle before waiting after,
)

Move-work : {s t : Cleaner} → Move s t → work t < work s
unfolding run_once
Move-work (closes s before after e) = after_once-work (close s.life) before after s e
Move-work (finishes s before after e over) = omega (
  arith,
  ap closers_work e,
  closers_work-middle before waiting after,
  closers_work-middle before finished after,
)
Move-work (stops s e c) = omega (arith, ap loop_work e)
Move-work (sweeps s es e) = omega (arith, ap loop_work e)

abbrev pub is_pending : Closer → Bool
is_pending finished = false
is_pending _ = true

-- A call of `Close` that has not returned
abbrev Unreturned : List Closer → Type 0
Unreturned cs =
    (before : List Closer) × ((after : List Closer) × ((cs ≡ before ++ calling ∷ after)
        ⊎ (cs ≡ before ++ waiting ∷ after)))

cons-Unreturned : (c : Closer) (cs : List Closer) → Unreturned cs → Unreturned (c ∷ cs)
cons-Unreturned c cs (before, (after, inl e)) = (c ∷ before, (after, inl (ap (λ l. c ∷ l) e)))
cons-Unreturned c cs (before, (after, inr e)) = (c ∷ before, (after, inr (ap (λ l. c ∷ l) e)))

closers-cases :
    (l : Lifecycle) (p : Option Loop) (cs : List Closer)
    → All (Tells l p) cs
    → (count_if is_pending cs ≡ 0) ⊎ Unreturned cs
closers-cases l p [] h = inl refl
closers-cases l p (calling ∷ cs) h = inr ([], (cs, inl refl))
closers-cases l p (waiting ∷ cs) h = inr ([], (cs, inr refl))
closers-cases l p (finished ∷ cs) h = elim (closers-cases l p cs h.1) [
  | inl n ↦ inl n
  | inr q ↦ inr (cons-Unreturned finished cs q)
]
closers-cases l p (crashed ∷ cs) h = absurd h.0

loop-cases :
    (o : Option Loop)
    → (o ≡ none)
      ⊎ ((o ≡ some selecting) ⊎ ((es : List (String × Option ℤ)) × (o ≡ some (evicting es))))
loop-cases none = inl refl
loop-cases (some selecting) = inr (inl refl)
loop-cases (some (evicting es)) = inr (inr (es, refl))

CanMove : Cleaner → Type 0
CanMove s = (t : Cleaner) × Move s t

go_on : (s : Cleaner) → IsOrderly s → Unreturned s.closers → CanMove s
unfolding CanMove
go_on s h (before, (after, inl e)) = (_, closes s before after e)
go_on s h (before, (after, inr e)) = elim (loop-cases s.loop) [
  | inl over ↦ (_, finishes s before after e over)
  | inr (inl waits) ↦
      (_, stops s waits (All-head_of_append _ before waiting after (subst (All _) e h.told)))
  | inr (inr (es, at_work)) ↦ (_, sweeps s es at_work)
]

-- However the goroutines of a new cache interleave, either every call of `Close` so far has returned, or the
-- cache can go on by a move of its own, without a further tick or call; and each such move leaves
-- fewer of them, so that, but for further ticks and calls, every `Close` returns after finitely many.
pub close_progress :
    (interval : ℤ) (store : Store) (s : Cleaner)
    → Reach interval store s
    → ((count_if is_pending s.closers ≡ 0) ⊎ ((t : Cleaner) × Move s t))
      × ((t : Cleaner) → Move s t → work t < work s)
unfolding CanMove
close_progress interval store s r =
    let h = Reach-IsOrderly interval store r in
    (
      elim (closers-cases s.life s.loop s.closers h.told) [
        | inl n ↦ inl n
        | inr p ↦ inr (go_on s h p)
      ],
      λ t m. Move-work m,
    )
