-- ===== src/Async/Answer.antt =====
-- What `Map` (async/async.go) returns.
use gopher_core.Common.{
  ◌≡◌, sym, subst, inl, inr, Option, some, none, List, [], ◌∷◌, ◌++◌, map, All, count_if, length,
  replicate, arith, true, false, Option-cases, Bool-cases,
}
use gopher_core.Runtime.{Err, returned}
use gopher_core.Async.{
  Pool, Slot, spawned, working, ended, is_active, answer, choose_error, first_specific, first_error,
  is_context_error, error_at, result_at, errors, results,
}
use gopher_core.Async.Runs.{Job, Reach, IsDone}
use gopher_core.Async.Sound.{Sound, Reach-Sound, Explained, item}

-- Each result is what the function returned, without an error, for the item at its place.
abbrev pub Matches : {T R : Type 0} → Job T R → List T → List R → Type 0
Matches job [] [] = Unit
Matches job [] (r ∷ rs) = ⊥
Matches job (x ∷ xs) [] = ⊥
Matches job (x ∷ xs) (r ∷ rs) = job.Calls x (returned (r, none)) × Matches job xs rs

-- An error that is nil, or the context's
abbrev pub IsUnspecific : Option Err → Type 0
IsUnspecific none = Unit
IsUnspecific (some e) = is_context_error e ≡ true

first_specific-none :
    (errs : List (Option Err)) → first_specific errs ≡ none → All IsUnspecific errs
unfolding first_specific
first_specific-none [] h = tt
first_specific-none (none ∷ errs) h = (tt, first_specific-none errs h)
first_specific-none (some e ∷ errs) h = elim (Bool-cases (is_context_error e)) [
  | inl context ↦ (context, first_specific-none errs (ground (arith, h, context)))
  | inr specific ↦ ground (arith, h, specific)
]

choose_error-none :
    (errs : List (Option Err)) (o : Option Err)
    → choose_error errs o ≡ none
    → (o ≡ none) × (first_error errs ≡ none)
unfolding choose_error
choose_error-none errs o h = ground arith

first_specific-specific :
    (errs : List (Option Err)) (e : Err) → first_specific errs ≡ some e → is_context_error e ≡ false
unfolding first_specific
first_specific-specific [] e h = ground (arith, h)
first_specific-specific (none ∷ errs) e h = first_specific-specific errs e h
first_specific-specific (some d ∷ errs) e h = elim (Bool-cases (is_context_error d)) [
  | inl context ↦ first_specific-specific errs e (ground (arith, h, context))
  | inr specific ↦ ground (arith, h, specific)
]

choose_error-context :
    (errs : List (Option Err)) (o : Option Err) (e : Err)
    → choose_error errs o ≡ some e
    → is_context_error e ≡ true
    → first_specific errs ≡ none
unfolding choose_error
choose_error-context errs o e h context = elim (Option-cases (first_specific errs)) [
  | inl n ↦ n
  | inr (d, p) ↦ ground (arith, h, context, p, first_specific-specific errs d p)
]

module _ {T R : Type 0} (job : Job T R) where
  Matches-launched :
      (ws : List (T × Slot R)) (o : Option Err)
      → count_if is_active ws ≡ 0
      → All (Explained job o) ws
      → first_error (map error_at ws ++ []) ≡ none
      → Matches job (map item ws ++ []) (map (result_at job.zero_value) ws ++ [])
  unfolding first_error
  Matches-launched [] o n h e = tt
  Matches-launched ((x, spawned) ∷ ws) o n h e = ground (arith, n)
  Matches-launched ((x, working) ∷ ws) o n h e = ground (arith, n)
  Matches-launched ((x, ended r none) ∷ ws) o n h e = (h.0, Matches-launched ws o n h.1 e)
  Matches-launched ((x, ended r (some d)) ∷ ws) o n h e = ground (arith, e)

  Matches-padded :
      (ws : List (T × Slot R)) (pending : List T) (o : Option Err)
      → pending ≡ []
      → count_if is_active ws ≡ 0
      → All (Explained job o) ws
      → first_error (map error_at ws ++ replicate (length pending) none) ≡ none
      → Matches job
          (map item ws ++ pending)
          (map (result_at job.zero_value) ws ++ replicate (length pending) job.zero_value)
  Matches-padded ws pending o e n h =
      subst
        (λ p.
          first_error (map error_at ws ++ replicate (length p) none) ≡ none
          → Matches job (map item ws ++ p)
              (map (result_at job.zero_value) ws ++ replicate (length p) job.zero_value))
        (sym e) (Matches-launched ws o n h)

  none_pending :
      {items : List T} {s : Pool T R}
      → Sound job items s
      → IsDone s
      → s.ctx_err ≡ none
      → s.pending ≡ []
  none_pending h done live = elim (h.left_early done.out) [
    | inl e ↦ e
    | inr (e, p) ↦ ground (arith, live, p)
  ]

  -- When `Map` returns no error, its results are, in the order of the items, what the function
  -- returned for each of them without an error, whatever the order of the goroutines.
  pub map_succeeds :
      (items : List T) (s : Pool T R)
      → Reach job items s
      → IsDone s
      → (answer job.zero_value s).1 ≡ none
      → Matches job items (answer job.zero_value s).0
  unfolding answer
  map_succeeds items s r done h =
      subst (λ xs. Matches job xs (results job.zero_value s)) sound.ordered
        (Matches-padded s.launched s.pending s.ctx_err (none_pending sound done quiet.0) done.idle
          sound.explained quiet.1)
    where
      sound : Sound job items s
      sound = Reach-Sound job r

      quiet : (s.ctx_err ≡ none) × (first_error (errors s) ≡ none)
      quiet = choose_error-none (errors s) s.ctx_err h

  -- An error of the context is what `Map` returns only if no worker left any other error.
  pub map_prefers_specific :
      (s : Pool T R) (e : Err)
      → (answer job.zero_value s).1 ≡ some e
      → is_context_error e ≡ true
      → All IsUnspecific (errors s)
  unfolding answer
  map_prefers_specific s e h context =
      first_specific-none (errors s) (choose_error-context (errors s) s.ctx_err e h context)
