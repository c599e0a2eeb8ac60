-- ===== src/Async/Fan/Errors.antt =====
-- The lists of errors that the runs of `Fan` (async/async.go) collect, up to order.
use gopher_core.Common.{
  ◌≡◌, refl, sym, ap, subst, Bool, true, false, Option, none, some, List, [], ◌∷◌, ◌++◌, arith,
}
use mathlib.Core.List.{Perm, perm_middle, append-nil}
use mathlib.Core.List.Perm
use gopher_core.Runtime.{Err, Outcome}
use gopher_core.Async.Group.{recovered, append_error}
use gopher_core.Async.Fan.{Task, running, ended}

abbrev pub cons_error : Option Err → List Err → List Err
cons_error none errs = errs
cons_error (some e) errs = e ∷ errs

-- The errors noted for the goroutines that have ended
abbrev pub task_errors : {T : Type 0} → List (T × Task) → List Err
task_errors [] = []
task_errors ((x, running) ∷ ws) = task_errors ws
task_errors ((x, ended o) ∷ ws) = cons_error (recovered o) (task_errors ws)

-- The context's error, if it has ended the loop
abbrev pub with_stop : {T : Type 0} → Bool → List T → Option Err → List Err → List Err
with_stop false (x ∷ rest) (some e) errs = e ∷ errs
with_stop _ _ _ errs = errs

pub with_stop-idle :
    {T : Type 0} (looping : Bool) (pending : List T) (o : Option Err) (errs : List Err)
    → (looping ≡ false → pending ≡ [])
    → with_stop looping pending o errs ≡ errs
with_stop-idle true pending o errs h = refl
with_stop-idle false [] o errs h = refl
with_stop-idle false (x ∷ rest) o errs h = ground (arith, h refl)

pub with_stop-cons_error :
    {T : Type 0} (looping : Bool) (pending : List T) (o r : Option Err) (errs : List Err)
    → Perm
        (cons_error r (with_stop looping pending o errs))
        (with_stop looping pending o (cons_error r errs))
with_stop-cons_error looping pending o none errs = Perm.rfl
with_stop-cons_error true pending o (some d) errs = Perm.rfl
with_stop-cons_error false [] o (some d) errs = Perm.rfl
with_stop-cons_error false (x ∷ rest) none (some d) errs = Perm.rfl
with_stop-cons_error false (x ∷ rest) (some e) (some d) errs = Perm.swap _ _ _

pub cons_error-perm :
    (r : Option Err) (errs errs' : List Err)
    → Perm errs errs'
    → Perm (cons_error r errs) (cons_error r errs')
cons_error-perm none errs errs' p = p
cons_error-perm (some e) errs errs' p = Perm.cons e p

cons_error_swap :
    (r q : Option Err) (errs : List Err)
    → Perm (cons_error r (cons_error q errs)) (cons_error q (cons_error r errs))
cons_error_swap none q errs = Perm.rfl
cons_error_swap (some e) none errs = Perm.rfl
cons_error_swap (some e) (some d) errs = Perm.swap _ _ _

pub with_stop-perm :
    {T : Type 0} (looping : Bool) (pending : List T) (o : Option Err) (errs errs' : List Err)
    → Perm errs errs'
    → Perm (with_stop looping pending o errs) (with_stop looping pending o errs')
with_stop-perm true pending o errs errs' p = p
with_stop-perm false [] o errs errs' p = p
with_stop-perm false (x ∷ rest) none errs errs' p = p
with_stop-perm false (x ∷ rest) (some e) errs errs' p = Perm.cons e p

pub append_error-perm :
    (r : Option Err) (errs : List Err) → Perm (append_error r errs) (cons_error r errs)
append_error-perm none errs = Perm.rfl
append_error-perm (some e) errs =
    Perm.trans (perm_middle errs [])
      (Perm.cons e (subst (λ l. Perm l errs) (sym (append-nil errs)) Perm.rfl))

pub task_errors-last :
    {T : Type 0} (front : List (T × Task)) (x : T)
    → task_errors (front ++ (x, running) ∷ []) ≡ task_errors front
task_errors-last [] x = refl
task_errors-last ((y, running) ∷ front) x = task_errors-last front x
task_errors-last ((y, ended o) ∷ front) x = ap (cons_error (recovered o)) (task_errors-last front x)

pub task_errors-ended :
    {T : Type 0} (before : List (T × Task)) (x : T) (o : Outcome (Option Err))
    (after : List (T × Task))
    → Perm
        (cons_error (recovered o) (task_errors (before ++ (x, running) ∷ after)))
        (task_errors (before ++ (x, ended o) ∷ after))
task_errors-ended [] x o after = Perm.rfl
task_errors-ended ((y, running) ∷ before) x o after = task_errors-ended before x o after
task_errors-ended ((y, ended q) ∷ before) x o after =
    Perm.trans (cons_error_swap (recovered o) (recovered q) _)
      (cons_error-perm (recovered q) _ _ (task_errors-ended before x o after))
