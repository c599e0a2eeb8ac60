-- ===== src/Async/Sound.antt =====
-- The invariant of `Map` (async/async.go), and what it bounds.
use gopher_core.Common.{
  ℕ, list_laws, suc, ◌≤◌, ◌≡◌, refl, sym, ap, subst, ◌∙◌, ◌⊎◌, inl, inr, Option, some, none, List,
  [], ◌∷◌, ◌++◌, map, All, All-append, All-map, All-replace_middle, count_if, count_if-middle,
  arith, true, if◌then◌else◌,
}
use gopher_core.Runtime.{Err, Outcome, returned, panicked, panic_error}
use gopher_core.Async.{
  Pool, Slot, spawned, working, ended, selecting, left, active, is_active, limit, start, check,
  launch, release, proceed, begin, conclude, next_phase,
}
use gopher_core.Async.Runs.{
  Job, Move, Step, moves, checks, acquires, gives_up, begins, finishes, cancels, Reach, here, next,
}

abbrev pub item : {T W : Type 0} → T × W → T
item w = w.0

pub item-middle :
    {T W : Type 0} (before : List (T × W)) (x : T) (a b : W) (after : List (T × W))
    → map item (before ++ (x, a) ∷ after) ≡ map item (before ++ (x, b) ∷ after)
item-middle before x a b after = simp list_laws

pub item-last :
    {T W : Type 0} (front : List (T × W)) (x : T) (a : W) (rest : List T)
    → map item (front ++ (x, a) ∷ []) ++ rest ≡ map item front ++ x ∷ rest
item-last front x a rest = simp list_laws

active-last :
    {T R : Type 0} (front : List (T × Slot R)) (x : T)
    → count_if is_active (front ++ (x, spawned) ∷ []) ≡ suc (count_if is_active front)
active-last [] x = refl
active-last (w ∷ front) x = ground (arith, active-last front x)

-- A goroutine that ends gives back what it holds of the semaphore.
release-active :
    {T R : Type 0} (b : Slot R) (x : T) (n others : ℕ)
    → n ≡ suc others
    → release b n ≡ (if is_active (x, b) then suc others else others)
release-active spawned x n others h = h
release-active working x n others h = h
release-active (ended r e) x n others h = omega (arith, h)

release_le : {R : Type 0} (b : Slot R) (n : ℕ) → release b n ≤ n
release_le spawned n = omega arith
release_le working n = omega arith
release_le (ended r e) n = omega arith

module _ {T R : Type 0} (job : Job T R) where
  -- Where a worker's error comes from
  abbrev pub Blamed : Option Err → T → R → Err → Type 0
  Blamed ctx_err x r e =
      job.Calls x (returned (r, some e))
      ⊎ (((v : ℕ) × (job.Calls x (panicked v) × (e ≡ panic_error v))) ⊎ (ctx_err ≡ some e))

  -- Where what a worker left comes from
  abbrev pub Explained : Option Err → T × Slot R → Type 0
  Explained ctx_err (x, spawned) = Unit
  Explained ctx_err (x, working) = Unit
  Explained ctx_err (x, ended r none) = job.Calls x (returned (r, none))
  Explained ctx_err (x, ended r (some e)) = Blamed ctx_err x r e

  pub record Sound (items : List T) (s : Pool T R) : Type 0 where
    pub ordered : map item s.launched ++ s.pending ≡ items
    pub held : s.sem ≡ active s
    pub bounded : s.sem ≤ limit job.concurrency
    pub explained : All (Explained s.ctx_err) s.launched
    pub left_early : s.phase ≡ left → (s.pending ≡ []) ⊎ ((e : Err) × (s.ctx_err ≡ some e))
    pub some_pending : s.phase ≡ selecting → (x : T) × ((rest : List T) × (s.pending ≡ x ∷ rest))

  start-Sound : (items : List T) → Sound items (start items)
  unfolding start
  start-Sound items = record {
    ordered = refl;
    held = refl;
    bounded = omega arith;
    explained = tt;
    left_early = λ h. ground (arith, h);
    some_pending = λ h. ground (arith, h);
  }

  next_phase-left :
      (pending : List T) (o : Option Err)
      → next_phase pending o ≡ left
      → (pending ≡ []) ⊎ ((e : Err) × (o ≡ some e))
  next_phase-left [] o h = inl refl
  next_phase-left (x ∷ xs) none h = ground (arith, h)
  next_phase-left (x ∷ xs) (some e) h = inr (e, refl)

  next_phase-selecting :
      (pending : List T) (o : Option Err)
      → next_phase pending o ≡ selecting
      → (x : T) × ((rest : List T) × (pending ≡ x ∷ rest))
  next_phase-selecting [] o h = ground (arith, h)
  next_phase-selecting (x ∷ xs) o h = (x, (xs, refl))

  begin-Explained : (x : T) (o : Option Err) → Explained o (x, begin job.zero_value o)
  begin-Explained x none = tt
  begin-Explained x (some e) = inr (inr refl)

  conclude-Explained :
      (x : T) (o : Option Err) (out : Outcome (R × Option Err))
      → job.Calls x out
      → Explained o (x, conclude job.zero_value out)
  conclude-Explained x o (returned (r, none)) c = c
  conclude-Explained x o (returned (r, some e)) c = inl c
  conclude-Explained x o (panicked v) c = inr (inl (v, (c, refl)))

  Explained-later :
      (o : Option Err) (e : Err) (w : T × Slot R) → o ≡ none → Explained o w → Explained (some e) w
  Explained-later o e (x, spawned) p h = tt
  Explained-later o e (x, working) p h = tt
  Explained-later o e (x, ended r none) p h = h
  Explained-later o e (x, ended r (some d)) p (inl h) = inl h
  Explained-later o e (x, ended r (some d)) p (inr (inl h)) = inr (inl h)
  Explained-later o e (x, ended r (some d)) p (inr (inr h)) = ground (arith, p, h)

  -- A worker that moves on takes no further slot of the semaphore.
  move-Sound :
      (items : List T) (s : Pool T R) (before : List (T × Slot R)) (x : T) (a b : Slot R)
      (after : List (T × Slot R))
      → s.launched ≡ before ++ (x, a) ∷ after
      → is_active (x, a) ≡ true
      → Explained s.ctx_err (x, b)
      → Sound items s
      → Sound items (proceed before x b after s)
  unfolding proceed
  move-Sound items s before x a b after e act ex h = record {
    ordered =
        ap (λ l. l ++ s.pending) (item-middle before x b a after ∙ sym (ap (map item) e))
        ∙ h.ordered;
    held =
        release-active b x s.sem (count_if is_active (before ++ after)) (
          h.held
          ∙ ap (count_if is_active) e
          ∙ count_if-middle is_active before (x, a) after
          ∙ rw act)
        ∙ sym (count_if-middle is_active before (x, b) after);
    bounded = omega (arith, release_le b s.sem, h.bounded);
    explained =
        All-replace_middle (Explained s.ctx_err) before (x, a) (x, b) after
          (subst (All (Explained s.ctx_err)) e h.explained) ex;
    left_early = h.left_early;
    some_pending = h.some_pending;
  }

  Move-Sound : (items : List T) {s t : Pool T R} → Sound items s → Move job s t → Sound items t
  unfolding check launch
  Move-Sound items h (checks s p) = record {
    ordered = h.ordered;
    held = h.held;
    bounded = h.bounded;
    explained = h.explained;
    left_early = next_phase-left s.pending s.ctx_err;
    some_pending = next_phase-selecting s.pending s.ctx_err;
  }
  Move-Sound items h (acquires s x rest p q lt) = record {
    ordered =
        item-last s.launched x spawned rest
        ∙ ap (λ l. map item s.launched ++ l) (sym q)
        ∙ h.ordered;
    held = omega (arith, active-last s.launched x, h.held);
    bounded = omega (arith, lt);
    explained =
        All-append (Explained s.ctx_err) s.launched ((x, spawned) ∷ []) h.explained (tt, tt);
    left_early = λ k. ground (arith, k);
    some_pending = λ k. ground (arith, k);
  }
  Move-Sound items h (gives_up s e p q) = record {
    ordered = h.ordered;
    held = h.held;
    bounded = h.bounded;
    explained = h.explained;
    left_early = λ k. inr (e, q);
    some_pending = λ k. ground (arith, k);
  }
  Move-Sound items h (begins s before x after e) =
      move-Sound items s before x spawned _ after e refl (begin-Explained x s.ctx_err) h
  Move-Sound items h (finishes s before x after o e c) =
      move-Sound items s before x working _ after e refl (conclude-Explained x s.ctx_err o c) h

  Step-Sound : (items : List T) {s t : Pool T R} → Sound items s → Step job s t → Sound items t
  Step-Sound items h (moves m) = Move-Sound items h m
  Step-Sound items h (cancels s e p) = record {
    ordered = h.ordered;
    held = h.held;
    bounded = h.bounded;
    explained = All-map _ _ s.launched (λ w. Explained-later s.ctx_err e w p) h.explained;
    left_early = λ k. inr (e, refl);
    some_pending = h.some_pending;
  }

  pub Reach-Sound : {items : List T} {s : Pool T R} → Reach job items s → Sound items s
  Reach-Sound {items} here = start-Sound items
  Reach-Sound {items} (next r st) = Step-Sound items (Reach-Sound r) st
