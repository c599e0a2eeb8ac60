-- ===== src/Retry/Delay.antt =====
-- `calculateDelay` (retry/retry.go). A `float64` that holds an integer is that integer: converting an
-- int64 rounds to 53 binary digits, half to even, and multiplying by a power of two is exact, as the
-- products stay far below 2 ^ 1024.
use gopher_core.Common.{
  ℕ, zero, suc, ◌+◌, ◌-◌, ◌*◌, ◌/◌, ◌%◌, ◌^◌, min, Bool, ◌&&◌, Option, none, some, ltb, ◌==◌,
  if◌then◌else◌,
}
use gopher_core.Retry.Settings.{Config, Strategy, constant, exponential, unknown}
use gopher_core.Common.Int.{ℤ, pos, negsuc, sub_ℕ, ltb_ℤ, leb_ℤ}

-- n to a multiple of d, half to even
unfoldable pub round_half_even : ℕ → ℕ → ℕ
round_half_even n d =
    if ltb (2 * (n % d)) d
    then n / d * d
    else if ltb d (2 * (n % d))
    then (n / d + 1) * d
    else if n / d % 2 == 0
    then n / d * d
    else (n / d + 1) * d

-- The first spacing 2 ^ e, of those left, at which n has 53 digits
unfoldable pub round_from : ℕ → ℕ → ℕ → ℕ
unfolding round_half_even
round_from zero e n = round_half_even n (2 ^ e)
round_from (suc fuel) e n =
    let rest = round_from fuel (suc e) n in
    if ltb n (2 ^ (53 + e)) then round_half_even n (2 ^ e) else rest

-- `float64(n)` of the magnitude of an int64, for which 11 more digits are enough
unfoldable pub round53 : ℕ → ℕ
unfolding round_from
round53 n = round_from 11 0 n

-- `float64(z)`
unfoldable pub to_float : ℤ → ℤ
unfolding round53
to_float (pos n) = pos (round53 n)
to_float (negsuc n) = sub_ℕ 0 (round53 (suc n))

-- A product of floats, of which the second is a natural number
unfoldable pub times : ℤ → ℕ → ℤ
times (pos n) m = pos (n * m)
times (negsuc n) m = sub_ℕ 0 (suc n * m)

abbrev pub int64_min : ℤ
int64_min = negsuc (2 ^ 63 - 1)

abbrev pub int64_max : ℤ
int64_max = pos (2 ^ 63 - 1)

-- `time.Duration(x)`: what the conversion gives out of range depends on the machine, so it is a
-- parameter.
unfoldable pub to_duration : (overflow : ℤ → ℤ) → ℤ → ℤ
to_duration overflow x = if leb_ℤ int64_min x && leb_ℤ x int64_max then x else overflow x

-- What a delay rests on besides the settings: float conversion out of range, and
-- `rand.Int(randReader, n)`, which gives none where the reader fails.
pub record Machine : Type 0 where
  pub overflow : ℤ → ℤ
  pub random : ℕ → ℤ → Option ℕ

-- The `switch` on the strategy
unfoldable pub backoff_by : Strategy → Machine → Config → ℕ → ℤ
unfolding to_float times to_duration
backoff_by constant m c attempt = c.initial_delay
backoff_by exponential m c attempt =
    let calc : ℤ = times (to_float c.initial_delay) (2 ^ min attempt 62) in
    if ltb_ℤ (to_float c.max_delay) calc then c.max_delay else to_duration m.overflow calc
backoff_by (unknown s) m c attempt = c.initial_delay

-- `if delay > cfg.MaxDelay { delay = cfg.MaxDelay }`
unfoldable pub cap_delay : ℤ → ℤ → ℤ
cap_delay most delay = if ltb_ℤ most delay then most else delay

abbrev pub or_delay : ℤ → Option ℕ → ℤ
or_delay delay none = delay
or_delay delay (some r) = pos r

-- The jitter: a random delay below the computed one
unfoldable pub add_jitter : Machine → Bool → ℕ → ℤ → ℤ
add_jitter m jitter attempt delay =
    if jitter && ltb_ℤ (pos 0) delay then or_delay delay (m.random attempt delay) else delay

-- `calculateDelay`
unfoldable pub calculate_delay : Machine → Config → ℕ → ℤ
unfolding backoff_by cap_delay add_jitter
calculate_delay m c attempt =
    add_jitter m c.jitter attempt (cap_delay c.max_delay (backoff_by c.strategy m c attempt))
