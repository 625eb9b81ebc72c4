-- ===== src/Requests/InitSweep/Layout.antt =====
-- The bytes that `hackrf_init_sweep` (src/lib/hackrf/hackrf.c) lays out one by one, as the numbers that
-- they stand for.
use mathlib.Core.List.{flat_map}
use hackrf.Bytes.{number}
use hackrf.Prelude.{
  drop, ◌+◌, ◌^◌, ◌<◌, ℕ, zero, suc, ◌*◌, ◌≡◌, refl, List, [], ◌∷◌, ◌++◌, take, arith,
}
use hackrf.Bytes.{bytes}
use hackrf.Requests.InitSweep.{frequency_bytes, sweep_header, sweep_data}

frequency_bytes-eq : (n : ℕ) (fs : List ℕ) → frequency_bytes n fs ≡ flat_map (bytes 2) (take n fs)
unfolding flat_map
frequency_bytes-eq zero fs = refl
frequency_bytes-eq (suc n) [] = refl
frequency_bytes-eq (suc n) (f ∷ fs) = ground (arith, frequency_bytes-eq n fs)

sweep_header-eq :
    (step_width offset style : ℕ)
    → sweep_header step_width offset style ≡ bytes 4 step_width ++ (bytes 4 offset ++ bytes 1 style)
sweep_header-eq step_width offset style = ground arith

pub sweep_data-eq :
    (n : ℕ) (fs : List ℕ) (step_width offset style : ℕ)
    → sweep_data n fs step_width offset style
      ≡ bytes 4 step_width
        ++ (bytes 4 offset ++ (bytes 1 style ++ flat_map (bytes 2) (take (n * 2) fs)))
unfolding sweep_data
sweep_data-eq n fs step_width offset style =
    ground (arith, frequency_bytes-eq (n * 2) fs, sweep_header-eq step_width offset style)

-- What a device reads in the data: the width, the offset, the style and the frequencies, two bytes
-- each.
abbrev pub pairs : List ℕ → List ℕ
pairs [] = []
pairs (b ∷ []) = []
pairs (b ∷ c ∷ bs) = (b + 256 * c) ∷ pairs bs

pub record SweepParams : Type 0 where
  pub step_width : ℕ
  pub offset : ℕ
  pub style : ℕ
  pub frequency_list : List ℕ

abbrev pub read_sweep : List ℕ → SweepParams
read_sweep bs = record {
  step_width = number (take 4 bs);
  offset = number (take 4 (drop 4 bs));
  style = number (take 1 (drop 8 bs));
  frequency_list = pairs (drop 9 bs);
}

abbrev pub AllU16 : List ℕ → Type 0
AllU16 [] = Unit {0}
AllU16 (f ∷ fs) = (f < 2 ^ 16) × AllU16 fs

pairs-frequency_bytes : (n : ℕ) (fs : List ℕ) → AllU16 fs → pairs (frequency_bytes n fs) ≡ take n fs
pairs-frequency_bytes zero fs h = refl
pairs-frequency_bytes (suc n) [] h = refl
pairs-frequency_bytes (suc n) (f ∷ fs) h = ground (arith, pairs-frequency_bytes n fs)

-- Where the arguments fit their fields, the device gets the width, the offset and the style back
-- from the data, and the start and stop of each of the ranges.
pub sweep_data_roundtrip :
    (n : ℕ) (fs : List ℕ) (step_width offset style : ℕ)
    → AllU16 fs
    → step_width < 2 ^ 32
    → offset < 2 ^ 32
    → style < 2 ^ 8
    → read_sweep (sweep_data n fs step_width offset style) ≡ record {
      step_width = step_width;
      offset = offset;
      style = style;
      frequency_list = take (n * 2) fs;
    }
unfolding sweep_data
sweep_data_roundtrip n fs step_width offset style h hw ho hs =
    ground (arith, pairs-frequency_bytes (n * 2) fs)
