-- ===== src/Retry/Tests.antt =====
-- Runs of the retry loop, and the theorems at concrete inputs.
use gopher_core.Common.{
  ℕ, ◌+◌, ◌-◌, ◌^◌, ◌≡◌, refl, true, false, Option, none, some, List, [], ◌∷◌, arith, ltb,
  if◌then◌else◌, length,
}
use gopher_core.Common.Int.{pos, negsuc, pos_part}
use gopher_core.Runtime.{Err, other, sentinel, canceled, returned}
use gopher_core.Retry.Settings.{Config, exponential, with_max_attempts, with_jitter, configure}
use gopher_core.Retry.Delay.{Machine, round53, cap_delay, calculate_delay}
use gopher_core.Retry.Bounds.{IsBelow, calculate_delay-exponential}
use gopher_core.Retry.Overflow.{calculate_delay-overflow}
use gopher_core.Retry.{World, fired, cancelled, do_, do_with_value}
use gopher_core.Retry.Keeps.{Keeps, do_with_value-Keeps}
use gopher_core.Retry.Endings.{Ending, IsHonest, do_with_value-Ending}
use gopher_core.Retry.Success.{IsPatient, do_with_value_succeeds}
use gopher_core.Retry.Agreement.{lift, lift_run, do-with_value}

abbrev machine : Machine
machine = record { overflow = λ z. negsuc (2 ^ 63 - 1); random = λ a d. none }

abbrev options : List (Option (Config → Config))
options = some (with_max_attempts (pos 4)) ∷ none ∷ some (with_jitter false) ∷ []

-- Two calls fail, each after 10 ns, and the third gives 42.
abbrev flaky : World (ℕ × Option Err)
flaky = record {
  ctx = λ t. none;
  fn = λ a t.
      if ltb a 2 then (returned (0, some (other a)), t + 10) else (returned (42, none), t + 10);
  wait = λ a t d. fired (t + pos_part d);
  machine = machine;
}

-- The same without a value, cancelled in the first wait.
abbrev impatient : World (Option Err)
impatient = record {
  ctx = λ t. if ltb t 50 then none else some (sentinel canceled);
  fn = λ a t. (returned (some (other a)), t + 10);
  wait = λ a t d. cancelled (t + 60);
  machine = machine;
}

machine-IsBelow : IsBelow machine
machine-IsBelow a d r e = cc

abbrev steady : Config
steady = record {
  max_attempts = pos 9;
  initial_delay = pos 100;
  max_delay = pos 1_000;
  strategy = exponential;
  jitter = false;
  retry_if = some (λ e. true);
}

calculate_delay-exponential_example : calculate_delay machine steady 3 ≡ pos 800
calculate_delay-exponential_example =
    calculate_delay-exponential machine steady 3 100 1_000 refl refl refl refl (omega arith)
      (omega arith)

-- A product that a `float64` holds and an int64 does not is converted all the same.
abbrev extreme : Config
extreme = record steady { initial_delay = pos 2; max_delay = pos (2 ^ 63 - 1) }

delay_overflows : calculate_delay machine extreme 62 ≡ negsuc (2 ^ 63 - 1)
unfolding calculate_delay
delay_overflows = refl

calculate_delay-overflow_example :
    calculate_delay machine extreme 62 ≡ cap_delay (pos (2 ^ 63 - 1)) (negsuc (2 ^ 63 - 1))
unfolding round53
calculate_delay-overflow_example =
    calculate_delay-overflow machine extreme 62 2 (2 ^ 63 - 1) refl refl refl refl (omega arith)

do_with_value-Keeps_example : Keeps 0 (configure options) flaky 4 (do_with_value 0 options flaky 5)
unfolding configure with_max_attempts with_jitter
do_with_value-Keeps_example = do_with_value-Keeps 0 options flaky 5 machine-IsBelow

flaky_honest : IsHonest 0 (configure options) flaky
flaky_honest a now u d e = cc

do_with_value-Ending_example :
    Ending 0 (configure options) flaky 4 none (do_with_value 0 options flaky 5)
unfolding configure with_max_attempts with_jitter
do_with_value-Ending_example = do_with_value-Ending 0 options flaky 5 flaky_honest

flaky-IsPatient : IsPatient 0 (configure options) flaky 2 42
unfolding configure with_max_attempts with_jitter
flaky-IsPatient = record {
  lives = λ t. refl;
  runs_out = λ a t d. (t + pos_part d, refl);
  judge = λ e. true;
  judges = refl;
  accepts = λ e. refl;
  fails = λ a t h. (0, other a, t + 10, ground arith);
  wins = λ t. (t + 10, refl);
}

do_with_value_succeeds_example : length (do_with_value 0 options flaky 5).calls ≡ 3
unfolding configure with_max_attempts with_jitter
do_with_value_succeeds_example =
    (do_with_value_succeeds 0 options flaky 5 2 42 flaky-IsPatient (omega arith)).1

do-with_value_example :
    do_with_value tt options (lift impatient) 0 ≡ lift_run (do_ options impatient 0)
do-with_value_example = do-with_value options impatient 0

impatient_ends : (do_ options impatient 0).outcome ≡ returned (some (sentinel canceled))
unfolding do_ configure with_max_attempts with_jitter calculate_delay
impatient_ends = refl
