-- ===== src/Async/Runs.antt =====
-- The runs of `Map` (async/async.go): steps of the launching loop, of the workers and of the context.
use gopher_core.Common.{ℕ, suc, ◌<◌, ◌≡◌, Option, some, none, List, ◌∷◌, ◌++◌}
use gopher_core.Common.Int.{ℤ}
use gopher_core.Runtime.{Err, Outcome}
use gopher_core.Async.{
  Pool, Slot, spawned, working, checking, selecting, left, active, limit, start, check, launch,
  proceed, begin, conclude,
}

-- What `Map` is called with, and its function
pub record Job (T R : Type 0) : Type 1 where
  pub concurrency : ℤ
  pub zero_value : R
  pub Calls : T → Outcome (R × Option Err) → Type 0

module _ {T R : Type 0} (job : Job T R) where
  -- What the launching loop and the workers can do of themselves
  pub data Move : Pool T R → Pool T R → Type 0 where
    checks : (s : Pool T R) → s.phase ≡ checking → Move s (check s)
    acquires :
        (s : Pool T R) (x : T) (rest : List T)
        → s.phase ≡ selecting
        → s.pending ≡ x ∷ rest
        → s.sem < limit job.concurrency
        → Move s (launch x rest s)
    gives_up :
        (s : Pool T R) (e : Err)
        → s.phase ≡ selecting
        → s.ctx_err ≡ some e
        → Move s (record s { phase = left })
    begins :
        (s : Pool T R) (before : List (T × Slot R)) (x : T) (after : List (T × Slot R))
        → s.launched ≡ before ++ (x, spawned) ∷ after
        → Move s (proceed before x (begin job.zero_value s.ctx_err) after s)
    finishes :
        (s : Pool T R) (before : List (T × Slot R)) (x : T) (after : List (T × Slot R))
        (o : Outcome (R × Option Err))
        → s.launched ≡ before ++ (x, working) ∷ after
        → job.Calls x o
        → Move s (proceed before x (conclude job.zero_value o) after s)

  -- That, or the end of the context
  pub data Step : Pool T R → Pool T R → Type 0 where
    moves : {s t : Pool T R} → Move s t → Step s t
    cancels : (s : Pool T R) (e : Err) → s.ctx_err ≡ none → Step s (record s { ctx_err = some e })

  -- A run of so many steps
  pub data Steps : ℕ → Pool T R → Pool T R → Type 0 where
    stop : (s : Pool T R) → Steps 0 s s
    go : {n : ℕ} {s t u : Pool T R} → Step s t → Steps n t u → Steps (suc n) s u

  -- The states that `Map` of these items can come to
  pub data Reach (items : List T) : Pool T R → Type 0 where
    here : Reach items (start items)
    next : {s t : Pool T R} → Reach items s → Step s t → Reach items t

-- `wg.Wait()` returns.
pub record IsDone {T R : Type 0} (s : Pool T R) : Type 0 where
  pub out : s.phase ≡ left
  pub idle : active s ≡ 0
