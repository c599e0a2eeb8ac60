-- ===== src/Retry/Overflow.antt =====
-- Delays near the end of int64 (retry/retry.go), where the product of `calculateDelay` can leave it.
use gopher_core.Common.{
  ℕ, ◌-◌, ◌*◌, ◌^◌, ◌≤◌, ◌<◌, ◌≡◌, refl, min, Bool, false, ltb, leb, ◌==◌, ◌&&◌, arith,
  if◌then◌else◌,
}
use gopher_core.Common.Int.{ℤ, pos, ltb_ℤ}
use gopher_core.Retry.Settings.{Config, exponential}
use gopher_core.Retry.Delay.{
  round53, to_float, times, to_duration, Machine, backoff_by, cap_delay, add_jitter,
  calculate_delay,
}
use gopher_core.Retry.Rounding.{round53-le, round53-lt, round53-top}

-- The product overflows if it is 2 ^ 63 and `MaxDelay` is one of the last 512 durations.
abbrev pub overflows : (most product : ℕ) → Bool
overflows most product = product == 2 ^ 63 && leb (2 ^ 63 - 512) most

-- The choice between a product and the limit, for what the limit's float64 can be
choose :
    (overflow : ℤ → ℤ) (f product most : ℕ)
    → f ≤ 2 ^ 63
    → (2 ^ 63 - 512 ≤ most → f ≡ 2 ^ 63)
    → (most < 2 ^ 63 - 512 → f ≤ 2 ^ 63 - 1)
    → cap_delay
        (pos most)
        (if ltb_ℤ (pos f) (pos product) then pos most else to_duration overflow (pos product))
      ≡ (if overflows most product
          then cap_delay (pos most) (overflow (pos (2 ^ 63)))
          else pos (if ltb f product then most else min product most))
unfolding cap_delay to_duration
choose overflow f product most le top low = ground arith

to_float-pos : (n : ℕ) → to_float (pos n) ≡ pos (round53 n)
unfolding to_float
to_float-pos n = refl

times-pos : (n m : ℕ) → times (pos n) m ≡ pos (n * m)
unfolding times
times-pos n m = refl

backoff_power :
    (overflow : ℤ → ℤ) (i p most : ℕ)
    → most < 2 ^ 63
    → cap_delay (pos most) (
        if ltb_ℤ (to_float (pos most)) (times (to_float (pos i)) p)
        then pos most
        else to_duration overflow (times (to_float (pos i)) p))
      ≡ (if overflows most (round53 i * p)
          then cap_delay (pos most) (overflow (pos (2 ^ 63)))
          else pos (if ltb (round53 most) (round53 i * p) then most else min (round53 i * p) most))
backoff_power overflow i p most below =
    rw (to_float-pos most, to_float-pos i, times-pos (round53 i) p)
      (choose overflow (round53 most) (round53 i * p) most (round53-le most below)
        (round53-top most below) (round53-lt most))

-- For any `InitialDelay` and `MaxDelay` from 0 to the largest `time.Duration`: without jitter, the exponential
-- strategy multiplies the float64 of `InitialDelay` by 2 to the attempt, of which 62 count at most,
-- and waits for the product, or `MaxDelay` if the product is above it or its float64; but if the product
-- is 2 ^ 63 and `MaxDelay` is one of the last 512 durations, it waits for what the machine makes of the
-- conversion of 2 ^ 63 to a `time.Duration`, or `MaxDelay` if that is above it.
pub calculate_delay-overflow :
    (m : Machine) (c : Config) (attempt i most : ℕ)
    → c.strategy ≡ exponential
    → c.jitter ≡ false
    → c.initial_delay ≡ pos i
    → c.max_delay ≡ pos most
    → most < 2 ^ 63
    → let product : ℕ = round53 i * 2 ^ min attempt 62 in
      calculate_delay m c attempt ≡ (
        if overflows most product
        then cap_delay (pos most) (m.overflow (pos (2 ^ 63)))
        else pos (if ltb (round53 most) product then most else min product most))
unfolding calculate_delay backoff_by add_jitter
calculate_delay-overflow m c attempt i most s j ei em below =
    rw (s, j, ei, em) (backoff_power m.overflow i (2 ^ min attempt 62) most below)
