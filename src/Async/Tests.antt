-- ===== src/Async/Tests.antt =====
-- A run of `Map` and of a `Group`, and the theorems at concrete inputs.
use gopher_core.Common.{ℕ, suc, ◌≡◌, refl, ◌⊎◌, some, none, [], ◌∷◌, arith}
use gopher_core.Common.Int.{pos}
use gopher_core.Runtime.{sentinel, canceled, returned, panicked}
use gopher_core.Async.{
  Pool, spawned, working, ended, checking, selecting, left, limit, start, check, launch, proceed,
  answer, choose_error, first_specific, first_error,
}
use gopher_core.Async.Runs.{
  Job, Move, moves, Step, checks, acquires, begins, finishes, Reach, here, next, IsDone,
}
use gopher_core.Async.Answer.{Matches, map_succeeds}
use gopher_core.Async.Progress.{map_progress}
use gopher_core.Async.Group.{
  goes, ends, balanced, started, finished, group_wait, play, new_group, failures, group_wait-play,
}

-- A function that returns its item's successor
abbrev counting : Job ℕ ℕ
counting = record { concurrency = pos 0; zero_value = 0; Calls = λ x o. o ≡ returned (suc x, none) }

abbrev s1 : Pool ℕ ℕ
s1 = record { phase = selecting; launched = []; pending = 4 ∷ []; sem = 0; ctx_err = none }

abbrev s2 : Pool ℕ ℕ
s2 = record {
  phase = checking;
  launched = (4, spawned) ∷ [];
  pending = [];
  sem = 1;
  ctx_err = none;
}

abbrev s3 : Pool ℕ ℕ
s3 = record {
  phase = checking;
  launched = (4, working) ∷ [];
  pending = [];
  sem = 1;
  ctx_err = none;
}

abbrev s4 : Pool ℕ ℕ
s4 = record {
  phase = checking;
  launched = (4, ended 5 none) ∷ [];
  pending = [];
  sem = 0;
  ctx_err = none;
}

abbrev s5 : Pool ℕ ℕ
s5 = record {
  phase = left;
  launched = (4, ended 5 none) ∷ [];
  pending = [];
  sem = 0;
  ctx_err = none;
}

step1 : Step counting (start (4 ∷ [])) s1
unfolding start check
step1 = moves (checks (start (4 ∷ [])) refl)

step2 : Step counting s1 s2
unfolding launch limit
step2 = moves (acquires s1 4 [] refl refl (omega arith))

step3 : Step counting s2 s3
unfolding proceed
step3 = moves (begins s2 [] 4 [] refl)

step4 : Step counting s3 s4
unfolding proceed
step4 = moves (finishes s3 [] 4 [] (returned (5, none)) refl refl)

step5 : Step counting s4 s5
unfolding check
step5 = moves (checks s4 refl)

reach2 : Reach counting (4 ∷ []) s2
reach2 = next (next here step1) step2

reach5 : Reach counting (4 ∷ []) s5
reach5 = next (next (next reach2 step3) step4) step5

map_succeeds_example : Matches counting (4 ∷ []) (answer 0 s5).0
unfolding answer choose_error first_specific first_error
map_succeeds_example =
    map_succeeds counting (4 ∷ []) s5 reach5 (record { out = refl; idle = refl }) refl

map_progress_example : IsDone s2 ⊎ ((t : Pool ℕ ℕ) × Move counting s2 t)
map_progress_example =
    map_progress counting (λ x. (returned (suc x, none), refl)) (4 ∷ []) s2 reach2

abbrev cut_short : Pool ℕ ℕ
cut_short = record {
  phase = left;
  launched = (4, ended 5 none) ∷ (7, ended 0 (some (sentinel canceled))) ∷ [];
  pending = 8 ∷ [];
  sem = 0;
  ctx_err = some (sentinel canceled);
}

group_wait-play_example :
    group_wait (play (goes ∷ goes ∷ ends (panicked 3) ∷ ends (returned none) ∷ []) new_group)
    ≡ some (failures (goes ∷ goes ∷ ends (panicked 3) ∷ ends (returned none) ∷ []))
group_wait-play_example =
    group_wait-play (goes ∷ goes ∷ ends (panicked 3) ∷ ends (returned none) ∷ [])
      (started _ _ _ (started _ _ _ (finished _ _ _ _ (finished _ _ _ _ (balanced 0)))))
