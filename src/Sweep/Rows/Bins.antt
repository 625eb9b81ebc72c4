-- ===== src/Sweep/Rows/Bins.antt =====
-- The rows that `rx_callback` (src/lib/hackrf/hackrf_sweep.c) prints name the frequencies of their bins.
use hackrf.Prelude.{
  ℕ, zero, suc, ◌+◌, ◌*◌, ◌/◌, ◌%◌, ◌^◌, ◌≤◌, ◌<◌, ◌≡◌, refl, List, [], ◌∷◌, get_or, length, ltb,
  if◌then◌else◌, arith,
}
use hackrf.Sweep.Rows.{Row, from, rows, binary_vals}

get_or-from : (count start i : ℕ) → i < count → get_or (from count start) i 0 ≡ start + i
get_or-from zero start i h = absurd (omega arith)
get_or-from (suc count) start zero h = omega arith
get_or-from (suc count) start (suc i) h =
    omega (arith, get_or-from count (start + 1) i (omega arith))

-- Bin `j` of `n` stands for the tuned frequency plus `j` bin widths, or less by the sample rate where
-- `j` is past the middle. The tuned frequency is 7500000 Hz above the one that the block names. In units
-- of half a bin width: the bin `j` lies in the middle of bin `i` of a row that begins `offset` above the
-- block's frequency.
abbrev pub IsCentred : ℕ → ℕ → ℕ → ℕ → Type 0
IsCentred n offset i j =
    n * 15000000 + j * 40000000
    ≡ n * (2 * offset) + (2 * i + 1) * 20000000 + (if ltb (n / 2) j then n * 40000000 else 0)

-- The bins of a row with these: there are `n / 4`; each lies in the transform and is not its bin 0, and
-- stands in its place.
abbrev pub Shows : ℕ → ℕ → List ℕ → Type 0
Shows n offset powers =
    (length powers ≡ n / 4)
    × ((i : ℕ)
        → i < n / 4
        → let j = get_or powers i 0 in (1 ≤ j) × (j < n) × IsCentred n offset i j)

length-from : (count start : ℕ) → length (from count start) ≡ count
length-from zero start = refl
length-from (suc count) start = omega (arith, length-from count (start + 1))

lower-Shows : (n : ℕ) → n % 8 ≡ 4 → Shows n 0 (from (n / 4) (1 + n * 5 / 8))
lower-Shows n h = (
  length-from (n / 4) (1 + n * 5 / 8),
  λ i k. ground (arith, get_or-from (n / 4) (1 + n * 5 / 8) i),
)

upper-Shows : (n : ℕ) → n % 8 ≡ 4 → Shows n 10000000 (from (n / 4) (1 + n / 8))
upper-Shows n h =
    (length-from (n / 4) (1 + n / 8), λ i k. ground (arith, get_or-from (n / 4) (1 + n / 8) i))

-- What a row promises of a block at `frequency`.
abbrev pub IsRow : ℕ → ℕ → Row → Type 0
IsRow n frequency r =
    (offset : ℕ) × (r.low ≡ frequency + offset)
    × (r.high ≡ r.low + 5000000)
    × Shows n offset r.powers

abbrev pub AreRows : ℕ → ℕ → List Row → Type 0
AreRows n frequency [] = Unit {0}
AreRows n frequency (r ∷ rs) = IsRow n frequency r × AreRows n frequency rs

-- For a number of bins that is 4 more than a multiple of 8, and a frequency that leaves room in its 64
-- bits, each row that is printed spans 5 MHz, has a quarter of the bins, and its values are those of
-- the bins, none of them the bin at the tuned frequency, whose middles lie half a bin width, then one
-- and a half, and so on above the frequency that the row begins with.
pub rows-AreRows :
    (n frequency : ℕ)
    → n % 8 ≡ 4
    → frequency + 15000000 < 2 ^ 64
    → AreRows n frequency (rows n frequency)
rows-AreRows n frequency h room = (
  (0, omega arith, omega arith, lower-Shows n h),
  ((10000000, omega arith, omega arith, upper-Shows n h), tt),
)

-- The values of the binary record are those of the second row alone: they lie between `freqmin` and
-- `freqmax`, not between `lowfreq` and `upperfreq`.
binary_vals-Shows :
    (n frequency : ℕ)
    → n % 8 ≡ 4
    → frequency + 15000000 < 2 ^ 64
    → let v = binary_vals n frequency in
      (v.freqmin ≡ v.lowfreq + 10000000)
      × (v.freqmax ≡ v.freqmin + 5000000)
      × Shows n 10000000 v.power
binary_vals-Shows n frequency h room = (omega arith, omega arith, upper-Shows n h)
