-- ===== src/Retry/Bounds.antt =====
-- How long `calculateDelay` waits (retry/retry.go).
use gopher_core.Common.{
  ℕ, suc, ◌*◌, ◌^◌, ◌≤◌, ◌<◌, ◌≡◌, min, Bool, false, some, arith, if◌then◌else◌, inl, inr, ap, sym,
  ◌∙◌, Option-cases,
}
use gopher_core.Common.Int.{ℤ, pos, pos_part, neg_part, ltb_ℤ, ◌≤ℤ◌}
use native.Mathlib.Nat.{pow-succ'}
use gopher_core.Retry.Settings.{Config, Strategy, constant, exponential, unknown}
use gopher_core.Retry.Delay.{
  round53, to_float, times, to_duration, Machine, backoff_by, cap_delay, add_jitter,
  calculate_delay,
}

-- `rand.Int(_, n)` is documented to return a number below n.
abbrev pub IsBelow : Machine → Type 0
IsBelow m = (attempt : ℕ) (d : ℤ) (r : ℕ) → m.random attempt d ≡ some r → pos r ≤ℤ d

cap_delay-le : (most delay : ℤ) → cap_delay most delay ≤ℤ most
unfolding cap_delay
cap_delay-le most delay = ground arith

add_jitter-le :
    (m : Machine) (jitter : Bool) (attempt : ℕ) (delay : ℤ)
    → IsBelow m
    → add_jitter m jitter attempt delay ≤ℤ delay
unfolding add_jitter
add_jitter-le m jitter attempt delay h = elim (Option-cases (m.random attempt delay)) [
  | inl e ↦ ground (arith, e)
  | inr (r, e) ↦ ground (arith, e, h attempt delay r e)
]

-- A delay is never above `MaxDelay`, with any settings, any machine and any attempt, with jitter or not.
pub calculate_delay-le-max_delay :
    (m : Machine) (c : Config) (attempt : ℕ)
    → IsBelow m
    → calculate_delay m c attempt ≤ℤ c.max_delay
unfolding calculate_delay
calculate_delay-le-max_delay m c attempt h =
    let d : ℤ = cap_delay c.max_delay (backoff_by c.strategy m c attempt) in
    omega (
      arith,
      cap_delay-le c.max_delay (backoff_by c.strategy m c attempt),
      add_jitter-le m c.jitter attempt d h,
    )

-- A number of up to 53 digits is a float.
round53_exact : (n : ℕ) → n ≤ 2 ^ 53 → round53 n ≡ n
unfolding round53
round53_exact n h = ground arith

-- The choice between the product and the limit, for a power p.
backoff_power :
    (overflow : ℤ → ℤ) (i p most : ℕ)
    → i ≤ 2 ^ 53
    → most ≤ 2 ^ 53
    → (if ltb_ℤ (to_float (pos most)) (times (to_float (pos i)) p)
        then pos most
        else to_duration overflow (times (to_float (pos i)) p))
      ≡ pos (min (i * p) most)
unfolding to_float times to_duration
backoff_power overflow i p most hi hm =
    rw (round53_exact i hi, round53_exact most hm) (ground arith)

-- Without jitter, and with `InitialDelay` and `MaxDelay` up to 2 ^ 53 ns, the exponential strategy
-- waits `InitialDelay` times 2 to the attempt, of which 62 count at most, or `MaxDelay` if that is less.
pub calculate_delay-exponential :
    (m : Machine) (c : Config) (attempt i most : ℕ)
    → c.strategy ≡ exponential
    → c.jitter ≡ false
    → c.initial_delay ≡ pos i
    → c.max_delay ≡ pos most
    → i ≤ 2 ^ 53
    → most ≤ 2 ^ 53
    → calculate_delay m c attempt ≡ pos (min (i * 2 ^ min attempt 62) most)
unfolding calculate_delay backoff_by cap_delay add_jitter
calculate_delay-exponential m c attempt i most s j ei em hi hm =
    rw (s, j, ei, em, backoff_power m.overflow i (2 ^ min attempt 62) most hi hm) (ground arith)

backoff_by-nonneg :
    (s : Strategy) (m : Machine) (c : Config) (attempt i most : ℕ)
    → c.initial_delay ≡ pos i
    → c.max_delay ≡ pos most
    → i ≤ 2 ^ 53
    → most ≤ 2 ^ 53
    → pos 0 ≤ℤ backoff_by s m c attempt
unfolding backoff_by
backoff_by-nonneg constant m c attempt i most ei em hi hm = omega (arith, ap neg_part ei)
backoff_by-nonneg (unknown s) m c attempt i most ei em hi hm = omega (arith, ap neg_part ei)
backoff_by-nonneg exponential m c attempt i most ei em hi hm =
    rw (ei, em, backoff_power m.overflow i (2 ^ min attempt 62) most hi hm) (omega arith)

cap_delay-nonneg : (most delay : ℤ) → pos 0 ≤ℤ most → pos 0 ≤ℤ delay → pos 0 ≤ℤ cap_delay most delay
unfolding cap_delay
cap_delay-nonneg most delay p q = ground arith

add_jitter-nonneg :
    (m : Machine) (jitter : Bool) (attempt : ℕ) (delay : ℤ)
    → pos 0 ≤ℤ delay
    → pos 0 ≤ℤ add_jitter m jitter attempt delay
unfolding add_jitter
add_jitter-nonneg m jitter attempt delay h = ground arith

-- With `InitialDelay` and `MaxDelay` from 0 to 2 ^ 53 ns, a delay is never negative, with any strategy,
-- any attempt, with jitter or not.
pub calculate_delay-nonneg :
    (m : Machine) (c : Config) (attempt i most : ℕ)
    → c.initial_delay ≡ pos i
    → c.max_delay ≡ pos most
    → i ≤ 2 ^ 53
    → most ≤ 2 ^ 53
    → pos 0 ≤ℤ calculate_delay m c attempt
unfolding calculate_delay
calculate_delay-nonneg m c attempt i most ei em hi hm = add_jitter-nonneg m c.jitter attempt _ (
    cap_delay-nonneg c.max_delay (backoff_by c.strategy m c attempt) (omega (arith, ap neg_part em))
      (backoff_by-nonneg c.strategy m c attempt i most ei em hi hm))

min_doubles :
    (i p q most d : ℕ) → q ≡ 2 * p → d ≡ min (i * p) most → min (i * q) most ≡ min (2 * d) most
min_doubles i p q most d h e = grind arith

-- So each delay is twice the one before it, up to `MaxDelay`.
pub calculate_delay-doubles :
    (m : Machine) (c : Config) (attempt i most d : ℕ)
    → c.strategy ≡ exponential
    → c.jitter ≡ false
    → c.initial_delay ≡ pos i
    → c.max_delay ≡ pos most
    → i ≤ 2 ^ 53
    → most ≤ 2 ^ 53
    → attempt < 62
    → calculate_delay m c attempt ≡ pos d
    → calculate_delay m c (suc attempt) ≡ pos (min (2 * d) most)
calculate_delay-doubles m c attempt i most d s j ei em hi hm below now =
    let this = calculate_delay-exponential m c attempt i most s j ei em hi hm in
    let next = calculate_delay-exponential m c (suc attempt) i most s j ei em hi hm in
    let early : min attempt 62 ≡ attempt = omega arith in
    let late : min (suc attempt) 62 ≡ suc attempt = omega arith in
    rw (next, late)
      (ap pos (
        min_doubles i (2 ^ attempt) (2 ^ suc attempt) most d (pow-succ' 2 attempt)
          (ap pos_part (sym now ∙ rw early at this))))
