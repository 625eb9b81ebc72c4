-- ===== src/Sweep/Rows.antt =====
-- src/lib/hackrf/hackrf_sweep.c, `rx_callback`: which bins of a transformed block go where. A block with
-- `n` bins gives two rows of text, or is spread over the input of the inverse FFT.
pub mod Bins
pub mod Spread
pub mod Inverse
use hackrf.Prelude.{ℕ, zero, suc, ◌+◌, ◌*◌, ◌/◌, ◌%◌, ◌^◌, ◌==◌, List, [], ◌∷◌, ◌++◌, if◌then◌else◌}

-- A row: the two frequencies that it names, and the indices in `power` of the values behind them.
pub record Row : Type 0 where
  pub low : ℕ
  pub high : ℕ
  pub powers : List ℕ

-- `count` indices, from one on.
abbrev pub from : ℕ → ℕ → List ℕ
from zero start = []
from (suc count) start = start ∷ from count (start + 1)

-- The rows that are printed; DEFAULT_SAMPLE_RATE_HZ is 20000000, and a frequency is a uint64_t.
abbrev pub lower_row : ℕ → ℕ → Row
lower_row n frequency = record {
  low = frequency;
  high = (frequency + 20000000 / 4) % 2 ^ 64;
  powers = from (n / 4) (1 + n * 5 / 8);
}

abbrev pub upper_row : ℕ → ℕ → Row
upper_row n frequency = record {
  low = (frequency + 20000000 / 2) % 2 ^ 64;
  high = (frequency + 20000000 * 3 / 4) % 2 ^ 64;
  powers = from (n / 4) (1 + n / 8);
}

abbrev pub rows : ℕ → ℕ → List Row
rows n frequency = lower_row n frequency ∷ upper_row n frequency ∷ []

-- The record that the branch for binary output fills: frequencies, and the indices in `power` of its
-- values.
pub record SweepVals : Type 0 where
  pub lowfreq : ℕ
  pub upperfreq : ℕ
  pub freqmin : ℕ
  pub freqmax : ℕ
  pub bandedge : ℕ
  pub power : List ℕ

abbrev pub binary_vals : ℕ → ℕ → SweepVals
binary_vals n frequency = record {
  lowfreq = frequency;
  upperfreq = (frequency + 20000000 / 4) % 2 ^ 64;
  freqmin = (frequency + 20000000 / 2) % 2 ^ 64;
  freqmax = (frequency + 20000000 * 3 / 4) % 2 ^ 64;
  bandedge = frequency;
  power = from (n / 4) (1 + n / 8);
}

-- One loop of the branch for the inverse FFT: pairs of an index in `ifftwIn` and one in `fftwOut`.
abbrev pub copies : ℕ → ℕ → ℕ → List (ℕ × ℕ)
copies zero place bin = []
copies (suc count) place bin = (place, bin) ∷ copies count (place + 1) (bin + 1)

-- `ifft_idx` in the two loops, from the rounded quotient that it starts as, for `bins` bins in all.
unfoldable pub first_place : ℕ → ℕ → ℕ
first_place bins quotient = (quotient + bins / 2) % 2 ^ 32 % bins

unfoldable pub second_place : ℕ → ℕ → ℕ → ℕ
unfolding first_place
second_place n bins quotient = (first_place bins quotient + n / 2) % 2 ^ 32 % bins

-- What the branch copies.
abbrev pub spread : ℕ → ℕ → ℕ → List (ℕ × ℕ)
spread n bins quotient =
    copies (n / 4) (first_place bins quotient) (1 + n * 5 / 8)
    ++ copies (n / 4) (second_place n bins quotient) (1 + n / 8)

-- `ifftwIn` after some copies out of `fftwOut`. An array is a function from its indices.
unfoldable pub store {ℓ} : {V : Type ℓ} → (ℕ → V) → List (ℕ × ℕ) → (ℕ → V) → ℕ → V
store fftw_out [] ifftw_in = ifftw_in
store fftw_out (c ∷ cs) ifftw_in =
    store fftw_out cs (λ i. if i == c.0 then fftw_out c.1 else ifftw_in i)

-- The branch for the inverse FFT, from `ifft_idx` on.
abbrev pub spread_block {ℓ} : {V : Type ℓ} → ℕ → ℕ → ℕ → (ℕ → V) → (ℕ → V) → ℕ → V
spread_block n bins quotient fftw_out = store fftw_out (spread n bins quotient)
