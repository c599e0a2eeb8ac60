-- ===== src/Retry/Rounding.antt =====
-- The conversion of an int64 to a float64, as `calculateDelay` (retry/retry.go) uses it.
use gopher_core.Common.{
  ℕ, suc, zero, ◌+◌, ◌-◌, ◌*◌, ◌/◌, ◌^◌, ◌≤◌, ◌<◌, ◌≡◌, refl, subst, ap, ◌∙◌, ◌⊎◌, inl, inr,
  Bool-cases, ltb, arith,
}
use native.Mathlib.Nat.{
  pow-succ', pow-le-pow_right, one-le-pow, mul-le-mul_right, div-lt_iff_lt-mul,
}
use gopher_core.Retry.Delay.{round_half_even, round_from, round53}

round_half_even-le : (n d k : ℕ) → 1 ≤ d → n < k * d → round_half_even n d ≤ k * d
unfolding round_half_even
round_half_even-le n d k pos below =
    let q : n / d < k = (div-lt_iff_lt-mul pos).1 below in
    let up : (n / d + 1) * d ≤ k * d = mul-le-mul_right d (omega (arith, q)) in
    ground (arith, q, up)

-- A number of 53 + e digits has at most as many after it is rounded to a multiple of 2 ^ e.
round_half_even-digits : (n d : ℕ) → 1 ≤ d → n < 2 ^ 53 * d → round_half_even n d ≤ 2 ^ 53 * d
round_half_even-digits n d pos below = round_half_even-le n d (2 ^ 53) pos below

width : (e : ℕ) → 2 ^ (53 + e) ≡ 2 ^ 53 * 2 ^ e
width zero = refl
width (suc e) =
    let w : 2 ^ (53 + suc e) ≡ 2 * 2 ^ (53 + e) =
      ap (λ k. 2 ^ k) (omega arith) ∙ pow-succ' 2 (53 + e) in
    omega (arith, w, width e, pow-succ' 2 e)

-- A spacing that is too fine for 53 + m digits gives less.
finer : (n e m : ℕ) → suc e ≤ m → n < 2 ^ (53 + e) → round_half_even n (2 ^ e) ≤ 2 ^ (52 + m)
finer n e m coarse below =
    let wide : 2 ^ (53 + e) ≤ 2 ^ (52 + m) =
      pow-le-pow_right (omega arith) (omega (arith, coarse)) in
    let some_digits : round_half_even n (2 ^ e) ≤ 2 ^ 53 * 2 ^ e =
      round_half_even-digits n (2 ^ e) (one-le-pow e 2 (omega arith))
        (omega (arith, below, width e)) in
    omega (arith, wide, some_digits, width e)

least-cases : (e m : ℕ) → e ≤ m → (suc e ≤ m) ⊎ (m ≡ e)
least-cases e m le = elim (Bool-cases (ltb e m)) [
  | inl less ↦ inl (ground (arith, less))
  | inr not_less ↦ inr (ground (arith, not_less, le))
]

at_most :
    (n e m bound : ℕ)
    → e ≤ m
    → n < 2 ^ (53 + e)
    → 2 ^ (52 + m) ≤ bound
    → round_half_even n (2 ^ m) ≤ bound
    → round_half_even n (2 ^ e) ≤ bound
at_most n e m bound le below half top = elim (least-cases e m le) [
  | inl coarse ↦ omega (arith, finer n e m coarse below, half)
  | inr same ↦ subst (λ k. round_half_even n (2 ^ k) ≤ bound) same top
]

-- A bound on what the spacing for 53 + m digits gives is one on what any finer spacing gives.
round_from-le :
    (fuel e m n bound : ℕ)
    → e ≤ m
    → m ≤ e + fuel
    → n < 2 ^ (53 + m)
    → 2 ^ (52 + m) ≤ bound
    → round_half_even n (2 ^ m) ≤ bound
    → round_from fuel e n ≤ bound
unfolding round_from
round_from-le zero e m n bound le ge below half top =
    let same : m ≡ e = omega (arith, le, ge) in
    subst (λ k. round_half_even n (2 ^ k) ≤ bound) same top
round_from-le (suc fuel) e m n bound le ge below half top = elim (least-cases e m le) [
  | inl coarse ↦ ground (
    arith,
    at_most n e m bound le,
    half,
    top,
    round_from-le fuel (suc e) m n bound coarse (omega (arith, ge)) below half top,
  )
  | inr same ↦ ground (
    arith,
    subst (λ k. round_half_even n (2 ^ k) ≤ bound) same top,
    subst (λ k. n < 2 ^ (53 + k)) same below,
  )
]

-- An int64 becomes at most 2 ^ 63.
pub round53-le : (n : ℕ) → n < 2 ^ 63 → round53 n ≤ 2 ^ 63
unfolding round53
round53-le n h =
    round_from-le 11 0 10 n (2 ^ 63) (omega arith) (omega arith) h (omega arith)
      (round_half_even-digits n (2 ^ 10) (omega arith) h)

last : (n : ℕ) → n < 2 ^ 63 - 512 → round_half_even n 1024 ≤ 2 ^ 63 - 1
unfolding round_half_even
last n h = ground arith

-- It becomes 2 ^ 63 only if it is one of the last 512.
pub round53-lt : (n : ℕ) → n < 2 ^ 63 - 512 → round53 n ≤ 2 ^ 63 - 1
unfolding round53
round53-lt n h =
    round_from-le 11 0 10 n (2 ^ 63 - 1) (omega arith) (omega arith) (omega (arith, h))
      (omega arith) (last n h)

-- A number of 53 + m digits is rounded to a multiple of 2 ^ m.
round_from-digits :
    (fuel e m n : ℕ)
    → e ≤ m
    → m ≤ e + fuel
    → 2 ^ (52 + m) ≤ n
    → n < 2 ^ (53 + m)
    → round_from fuel e n ≡ round_half_even n (2 ^ m)
unfolding round_from
round_from-digits zero e m n le ge above below =
    let same : e ≡ m = omega (arith, le, ge) in ap (λ k. round_half_even n (2 ^ k)) same
round_from-digits (suc fuel) e m n le ge above below = elim (least-cases e m le) [
  | inl coarse ↦
      let wide : 2 ^ (53 + e) ≤ 2 ^ (52 + m) =
        pow-le-pow_right (omega arith) (omega (arith, coarse)) in
      ground
        (arith, wide, round_from-digits fuel (suc e) m n coarse (omega (arith, ge)) above below)
  | inr same ↦
      ground
        (arith, ap (λ k. round_half_even n (2 ^ k)) same, subst (λ k. n < 2 ^ (53 + k)) same below)
]

top : (n : ℕ) → n < 2 ^ 63 → 2 ^ 63 - 512 ≤ n → round_half_even n 1024 ≡ 2 ^ 63
unfolding round_half_even
top n below above = ground arith

-- One of the last 512 does become 2 ^ 63.
pub round53-top : (n : ℕ) → n < 2 ^ 63 → 2 ^ 63 - 512 ≤ n → round53 n ≡ 2 ^ 63
unfolding round53
round53-top n below above =
    round_from-digits 11 0 10 n (omega arith) (omega arith) (omega (arith, above)) below
    ∙ top n below above
