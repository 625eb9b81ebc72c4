-- ===== src/Requests/Tuning/Fraction.antt =====
-- src/lib/hackrf/hackrf.c: `hackrf_set_sample_rate`, which finds a small divider for a rate that is a
-- double. A double here is a natural number over a power of two, and each operation on doubles
-- rounds to 53 bits, half to even.
pub mod Rounding
pub mod Accuracy
use hackrf.Prelude.{
  ℕ, zero, suc, ◌+◌, ◌-◌, ◌*◌, ◌/◌, ◌%◌, ◌^◌, Bool, true, false, ◌&&◌, ◌||◌, ltb, ◌==◌,
  if◌then◌else◌,
}
use hackrf.Bytes.{Endian}
use hackrf.Errors.{HackrfError}
use hackrf.Platform.{Platform}
use hackrf.Platform.Action.{Action}
use hackrf.Requests.Tuning.{set_sample_rate_manual}

-- The double `mantissa * 2 ^ (exponent - 52)`, where the mantissa has 53 bits.
pub record Double : Type 0 where
  pub mantissa : ℕ
  pub exponent : ℕ

-- The denominator of a double: 1 stands as `unit_of r`.
unfoldable pub unit_of : Double → ℕ
unit_of r = 2 ^ (52 - r.exponent)

-- How many bits of a number lie behind the first 53; six are enough for the numbers here.
unfoldable pub excess : ℕ → ℕ → ℕ
excess zero n = 0
excess (suc fuel) n = let rest = excess fuel (n / 2) in if ltb n (2 ^ 53) then 0 else suc rest

-- `n` over a power of two, as the nearest multiple of `2 * half`, and half-way as the one with the
-- even factor.
abbrev pub to_multiple : ℕ → ℕ → ℕ
to_multiple half n =
    let q = n / (2 * half) in
    let r = n % (2 * half) in
    if ltb r half || ((r == half) && (q % 2 == 0)) then q * (2 * half) else (q + 1) * (2 * half)

unfoldable pub round : ℕ → ℕ
unfolding excess
round n = elim (excess 6 n) [ zero ↦ n | suc k ↦ to_multiple (2 ^ k) n ]

-- `freq_frac = 1.0 + freq - (int)freq`, over `unit_of r`. The difference is exact.
unfoldable pub fraction : Double → ℕ
unfolding round unit_of
fraction r = round (unit_of r + r.mantissa) - r.mantissa / unit_of r * unit_of r

-- The 52 bits behind the leading one of `freq_frac`, which is from 1 to 2.
unfoldable pub fraction_bits : Double → ℕ
unfolding fraction unit_of
fraction_bits r = (fraction r - unit_of r) * 2 ^ r.exponent % 2 ^ 52

-- `!(a & m) || !(~a & m)`: `m` has the bits from `e + 4` to 51, and all those of `a` are 0, or all 1.
unfoldable pub settles : ℕ → ℕ → Bool
settles e a = let bits = a % 2 ^ 52 / 2 ^ (e + 4) in (bits == 0) || (bits + 1 == 2 ^ (48 - e))

-- The loop with `n` rounds left, in round `i`, where MAX_N is 32: the divider.
unfoldable pub find_divider : ℕ → ℕ → ℕ → ℕ → ℕ → ℕ
find_divider zero i e v a = 1
find_divider (suc n) i e v a =
    let b = (a + v) % 2 ^ 64 in
    let rest = find_divider n (i + 1) e v b in if settles e b then i else rest

unfoldable pub divider_of : Double → ℕ
unfolding find_divider fraction_bits
divider_of r = find_divider 31 1 r.exponent (fraction_bits r) 0

-- `(uint32_t)(freq * i + 0.5)`, two roundings and a cut.
unfoldable pub scaled_rate : Double → ℕ → ℕ
unfolding round unit_of
scaled_rate r i = round (round (r.mantissa * i) + unit_of r / 2) / unit_of r

module _ (p : Platform) (host : Endian) where
  unfoldable pub set_sample_rate : ℕ → Double → Action HackrfError
  unfolding divider_of scaled_rate
  set_sample_rate dev freq =
      set_sample_rate_manual p host dev (scaled_rate freq (divider_of freq)) (divider_of freq)
