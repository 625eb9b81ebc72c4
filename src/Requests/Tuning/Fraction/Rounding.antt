-- ===== src/Requests/Tuning/Fraction/Rounding.antt =====
-- How far the rounding of doubles goes in `hackrf_set_sample_rate` (src/lib/hackrf/hackrf.c).
use hackrf.Prelude.{ℕ, ◌+◌, ◌%◌, ◌^◌, ◌≤◌, ◌<◌, ◌≡◌, arith}
use hackrf.Requests.Tuning.Fraction.{excess, round}

-- A number with at most 53 bits is not rounded.
pub round_exact : (n : ℕ) → n < 2 ^ 53 → round n ≡ n
unfolding round excess
round_exact n h = ground arith

-- A number below 2 ^ 59 has at most six bits too many.
pub excess_few : (n : ℕ) → n < 2 ^ 59 → excess 6 n < 7
unfolding excess
excess_few n h = ground arith

-- Rounding moves a number by at most 32.
pub round_near : (n : ℕ) → n < 2 ^ 59 → (round n ≤ n + 32) × (n ≤ round n + 32)
unfolding round excess
round_near n h = ground arith

-- An even number with at most 54 bits is not rounded.
pub round_even : (n : ℕ) → n < 2 ^ 54 → n % 2 ≡ 0 → round n ≡ n
unfolding round excess
round_even n h e = ground arith
