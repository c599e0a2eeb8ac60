-- ===== src/Result/Tests.antt =====
-- `Result` (result/result.go) on a computation that fails on small numbers.
use gopher_core.Common.{ℕ, ◌/◌, ◌≡◌, refl, some, ltb, if◌then◌else◌}
use gopher_core.Runtime.{other}
use gopher_core.Result.{Result, HasZero, ok_of, err_of, flat_map}

instance abbrev zero_ℕ : HasZero ℕ
zero_ℕ = record { zero_value = 0 }

abbrev halve : ℕ → Result ℕ
halve n = if ltb n 10 then err_of (some (other n)) else ok_of (n / 2)

halved_twice : flat_map (flat_map (ok_of 42) halve) halve ≡ ok_of 10
unfolding flat_map ok_of
halved_twice = refl

halved_until_small : flat_map (flat_map (ok_of 12) halve) halve ≡ err_of (some (other 6))
unfolding flat_map ok_of err_of
halved_until_small = refl
