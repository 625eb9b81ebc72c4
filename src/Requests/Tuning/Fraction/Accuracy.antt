-- ===== src/Requests/Tuning/Fraction/Accuracy.antt =====
-- What `hackrf_set_sample_rate` (src/lib/hackrf/hackrf.c) asks the device for.
use native.Mathlib.Nat.{
  div-mul-le_self, lt-div-mul-add, mul-div_left, mul-add-div_right, div-eq_of_lt, zero-div,
  mul-le-mul_left, div-lt_iff_lt-mul, mul_assoc,
}
use hackrf.Prelude.{
  ℕ, zero, suc, ◌+◌, ◌-◌, ◌*◌, ◌/◌, ◌%◌, ◌^◌, ◌≤◌, ◌<◌, ◌≡◌, refl, ap, true, ◌&&◌, leb, ◌==◌, arith,
}
use hackrf.Prelude.Tables.{all_below, all_below_sound}
use hackrf.Bytes.{Endian}
use hackrf.Platform.{Platform}
use hackrf.Requests.Tuning.{set_sample_rate_manual}
use hackrf.Requests.Tuning.Fraction.{
  Double, unit_of, round, fraction, fraction_bits, settles, find_divider, divider_of, scaled_rate,
  set_sample_rate,
}
use hackrf.Requests.Tuning.Fraction.Rounding.{round_exact, round_near, round_even}

-- A rate from 1 Hz up to, and without, 2 ^ 27 Hz.
pub record IsRate (r : Double) : Type 0 where
  pub normal : 2 ^ 52 ≤ r.mantissa
  pub fits : r.mantissa < 2 ^ 53
  pub low : r.exponent < 27

unit_table :
    all_below 27
      (λ e. leb (2 ^ 26) (2 ^ (52 - e)) && (leb (2 ^ (52 - e)) (2 ^ 52) && 2 ^ (52 - e) % 4 == 0))
    ≡ true
unfolding all_below
unit_table = refl

unit_bounds :
    (r : Double)
    → r.exponent < 27
    → (2 ^ 26 ≤ unit_of r) × (unit_of r ≤ 2 ^ 52) × (unit_of r % 4 ≡ 0)
unfolding unit_of
unit_bounds r low = ground (
  arith,
  all_below_sound 27
      (λ (e : ℕ).
        leb (2 ^ 26) (2 ^ (52 - e)) && (leb (2 ^ (52 - e)) (2 ^ 52) && 2 ^ (52 - e) % 4 == 0))
      r.exponent unit_table low,
)

-- The divider is one of the rounds of the loop.
find_divider_bounds :
    (n i e v a : ℕ) → 1 ≤ i → i + n ≤ 32 → let d = find_divider n i e v a in (1 ≤ d) × (d ≤ 31)
unfolding find_divider
find_divider_bounds zero i e v a one few = ground arith
find_divider_bounds (suc n) i e v a one few =
    ground (arith, find_divider_bounds n (i + 1) e v ((a + v) % 2 ^ 64))

below : (m d : ℕ) → m < 2 ^ 53 → d ≤ 31 → m * d < 2 ^ 58
below m d h k = omega (arith, mul-le-mul_left m k)

scaled_rate_near :
    (r : Double) (d : ℕ)
    → IsRate r
    → d ≤ 31
    → let w = unit_of r in
      let q = scaled_rate r d in (q * w ≤ r.mantissa * d + w) × (r.mantissa * d ≤ q * w + w)
unfolding scaled_rate
scaled_rate_near r d h k =
    let w = unit_of r in
    let (big, small, fours) = unit_bounds r h.low in
    let x = round (r.mantissa * d) in
    let near = round_near (r.mantissa * d) (omega (arith, below r.mantissa d h.fits k)) in
    let near' = round_near (x + w / 2) (omega (arith, near, below r.mantissa d h.fits k)) in
    let floor = div-mul-le_self (round (x + w / 2)) w in
    let ceiling = lt-div-mul-add {a = round (x + w / 2)} {b = w} (omega arith) in
    (omega (arith, near, near', floor, ceiling), omega (arith, near, near', floor, ceiling))

-- Such a quotient fits a uint32_t.
rate_fits :
    (r : Double) (d hz : ℕ)
    → IsRate r
    → d ≤ 31
    → hz * unit_of r ≤ r.mantissa * d + unit_of r
    → hz < 2 ^ 32
rate_fits r d hz h few above =
    let (big, small, fours) = unit_bounds r h.low in
    let less : hz * unit_of r < 2 ^ 32 * unit_of r =
      omega (arith, above, mul-le-mul_left r.mantissa few, h.fits, big) in
    let cut : hz * unit_of r / unit_of r < 2 ^ 32 = (div-lt_iff_lt-mul (omega arith)).1 less in
    omega (arith, cut, mul-div_left hz {n = unit_of r} (omega arith))

mantissa_even : (r : Double) (n : ℕ) → IsRate r → r.mantissa ≡ n * unit_of r → r.mantissa % 2 ≡ 0
mantissa_even r n h whole =
    let (big, small, fours) = unit_bounds r h.low in
    let k = unit_of r / 2 in
    let two : unit_of r ≡ k * 2 = omega (arith, fours) in
    omega (arith, whole, ap (λ (t : ℕ). n * t) two, mul_assoc n k 2)

fraction_integer :
    (r : Double) (n : ℕ) → IsRate r → r.mantissa ≡ n * unit_of r → fraction r ≡ unit_of r
unfolding fraction
fraction_integer r n h whole =
    let w = unit_of r in
    let (big, small, fours) = unit_bounds r h.low in
    let even = mantissa_even r n h whole in
    let sum = round_even (w + r.mantissa) (omega (arith, h.fits)) (omega (arith, even, fours)) in
    let cut : r.mantissa / w ≡ n = rw whole (mul-div_left n (omega arith)) in
    rw (sum, cut) (omega (arith, whole))

fraction_bits_integer :
    (r : Double) (n : ℕ) → IsRate r → r.mantissa ≡ n * unit_of r → fraction_bits r ≡ 0
unfolding fraction_bits
fraction_bits_integer r n h whole =
    let none_left : fraction r - unit_of r ≡ 0 = omega (arith, fraction_integer r n h whole) in
    rw none_left (omega arith)

find_divider_zero : (e : ℕ) → find_divider 31 1 e 0 0 ≡ 1
unfolding find_divider settles
find_divider_zero e = rw (zero-div (2 ^ (e + 4))) refl

scaled_rate_integer :
    (r : Double) (n : ℕ) → IsRate r → r.mantissa ≡ n * unit_of r → scaled_rate r 1 ≡ n
unfolding scaled_rate
scaled_rate_integer r n h whole =
    let w = unit_of r in
    let (big, small, fours) = unit_bounds r h.low in
    let even = mantissa_even r n h whole in
    let one : r.mantissa * 1 ≡ r.mantissa = omega arith in
    let inner = round_exact r.mantissa h.fits in
    let outer =
      round_even (r.mantissa + w / 2) (omega (arith, h.fits, small)) (omega (arith, even, fours)) in
    let cut : n * w / w ≡ n = mul-div_left n (omega arith) in
    let sum : (n * w + w / 2) / w ≡ n + w / 2 / w = mul-add-div_right (omega arith) n (w / 2) in
    let small_half : w / 2 / w ≡ 0 = div-eq_of_lt (omega arith) in
    rw (one, inner, outer, whole, sum, small_half) (omega arith)

module _ (p : Platform) (host : Endian) where
  -- For every rate from 1 Hz up to 2 ^ 27 Hz the function sets a whole number of hertz, which fits
  -- its uint32_t, with a divider from 1 to 31, so that their quotient is the rate, up to one hertz
  -- over the divider.
  pub set_sample_rate-near :
      (dev : ℕ) (r : Double)
      → IsRate r
      → (hz d : ℕ) × (set_sample_rate p host dev r ≡ set_sample_rate_manual p host dev hz d)
        × (1 ≤ d)
        × (d ≤ 31)
        × (hz < 2 ^ 32)
        × (hz * unit_of r ≤ r.mantissa * d + unit_of r)
        × (r.mantissa * d ≤ hz * unit_of r + unit_of r)
  unfolding set_sample_rate divider_of
  set_sample_rate-near dev r h =
      let (one, few) =
        find_divider_bounds 31 1 r.exponent (fraction_bits r) 0 (omega arith) (omega arith) in
      let d = divider_of r in
      let (above, under) = scaled_rate_near r d h few in
      (
        scaled_rate r d,
        d,
        refl,
        one,
        few,
        rate_fits r d (scaled_rate r d) h few above,
        above,
        under,
      )

  -- A rate of a whole number of hertz is set as it is, with divider 1.
  set_sample_rate_integer :
      (dev n : ℕ) (r : Double)
      → IsRate r
      → r.mantissa ≡ n * unit_of r
      → set_sample_rate p host dev r ≡ set_sample_rate_manual p host dev n 1
  unfolding set_sample_rate divider_of
  set_sample_rate_integer dev n r h whole =
      rw
        (
          fraction_bits_integer r n h whole,
          find_divider_zero r.exponent,
          scaled_rate_integer r n h whole,
        )
        refl
