-- ===== src/Sweep.antt =====
-- src/lib/hackrf/hackrf_sweep.c: the globals of the sweep client, and what `hackrf_sweep` checks and
-- plans before it starts the device.
pub mod Ranges
pub mod Blocks
pub mod Start
pub mod Transform
pub mod Run
pub mod Rows
pub mod Printing
pub mod Receive
pub mod Numbers
use hackrf.Prelude.{
  ℕ, zero, suc, ◌+◌, ◌-◌, ◌*◌, ◌/◌, ◌%◌, ◌^◌, Bool, true, false, not, ◌&&◌, ◌||◌, List, [], ◌∷◌,
  set, ltb, leb, ◌==◌, if◌then◌else◌,
}

-- DEFAULT_SAMPLE_RATE_HZ / FREQ_ONE_MHZ
abbrev pub tune_step : ℕ
tune_step = 20

abbrev pub freq_max_mhz : ℕ
freq_max_mhz = 7250

abbrev pub samples_per_block : ℕ
samples_per_block = 8192

-- The globals that the checks and the plan use; `frequencies` has 20 entries.
pub record Config : Type 0 where
  pub num_samples : ℕ
  pub num_ranges : ℕ
  pub frequencies : List ℕ
  pub amp : Bool
  pub amp_enable : ℕ
  pub antenna : Bool
  pub antenna_enable : ℕ
  pub binary_output : Bool
  pub ifft_output : Bool
  pub fft_size : ℕ

-- The three checks of the arguments.
unfoldable pub range_rejected : ℕ → ℕ → Config → Bool
range_rejected freq_min freq_max c =
    leb 10 c.num_ranges || (leb freq_max freq_min || ltb freq_max_mhz freq_max)

-- `frequencies[2*num_ranges] = …; frequencies[2*num_ranges+1] = …; num_ranges++;`
unfoldable pub add_range : ℕ → ℕ → Config → Config
add_range freq_min freq_max c = record c {
  num_ranges = suc c.num_ranges;
  frequencies =
      set (set c.frequencies (2 * c.num_ranges) (freq_min % 2 ^ 16)) (2 * c.num_ranges + 1)
        (freq_max % 2 ^ 16);
}

-- The checks of the globals, in their order. `num_ranges` has just grown, so the test for 0 between
-- them never holds.
unfoldable pub options_rejected : Config → Bool
options_rejected c =
    not (c.num_samples % samples_per_block == 0)
    || (ltb c.num_samples samples_per_block
        || ((c.amp && ltb 1 c.amp_enable)
            || ((c.antenna && ltb 1 c.antenna_enable)
                || ((c.binary_output && c.ifft_output)
                    || ((c.ifft_output && ltb 1 c.num_ranges)
                        || (ltb c.fft_size 4 || ltb 8184 c.fft_size))))))

-- `while((fftSize + 4) % 8) { fftSize++; }`, on fuel.
unfoldable pub round_size : ℕ → ℕ → ℕ
round_size zero fft_size = fft_size
round_size (suc fuel) fft_size =
    let rest = round_size fuel (fft_size + 1) in if (fft_size + 4) % 8 == 0 then fft_size else rest

-- `step_count` of one range. The difference is converted to the unsigned 64-bit type of TUNE_STEP.
abbrev pub range_steps : ℕ → ℕ → ℕ
range_steps lo hi = 1 + (hi + 2 ^ 64 - lo - 1) % 2 ^ 64 / tune_step

-- The loop over the first `n` ranges.
unfoldable pub plan_ranges : ℕ → List ℕ → List ℕ
plan_ranges zero fs = fs
plan_ranges (suc n) [] = []
plan_ranges (suc n) (lo ∷ []) = lo ∷ []
plan_ranges (suc n) (lo ∷ hi ∷ fs) =
    lo ∷ ((lo + range_steps lo hi * tune_step) % 2 ^ 16) ∷ plan_ranges n fs

-- The plan as a whole; a rounding takes at most seven steps.
unfoldable pub planned : Config → Config
unfolding round_size plan_ranges
planned c = record c {
  fft_size = round_size 8 c.fft_size;
  frequencies = plan_ranges c.num_ranges c.frequencies;
}

-- The part of `hackrf_sweep` up to the plan: whether it goes on, and the globals. A refusal after
-- the range was added leaves the range in place.
unfoldable pub configure : ℕ → ℕ → Config → Bool × Config
unfolding range_rejected add_range options_rejected planned
configure freq_min freq_max c =
    if range_rejected freq_min freq_max c
    then (false, c)
    else (let d = add_range freq_min freq_max c in
        if options_rejected d then (false, d) else (true, planned d))
