-- ===== src/Requests/InitSweep.antt =====
-- src/lib/hackrf/hackrf.c: `hackrf_init_sweep`, with the layout of the data that it sends.
pub mod Layout
use hackrf.Prelude.{
  ℕ, zero, suc, ◌+◌, ◌*◌, ◌%◌, ◌/◌, ◌^◌, Bool, List, [], ◌∷◌, ◌++◌, not, ◌||◌, ltb, ◌==◌,
  if◌then◌else◌,
}
use hackrf.Prelude.Int.{ℤ, pos, negsuc, lt_nat}
use hackrf.Errors.{HackrfError, invalid_param, usb_api_version}
use hackrf.Platform.{Platform, VendorRequest}
use hackrf.Platform.Action.{Action, ◌>>=◌, pure, transfer, request_out, check_at_least}
use hackrf.Requests.Version.{usb_api_required}

abbrev pub max_sweep_ranges : ℕ
max_sweep_ranges = 10

abbrev pub bytes_per_block : ℕ
bytes_per_block = 16384

-- `num_ranges` as a number, where it is not negative.
abbrev pub range_count : ℤ → ℕ
range_count (pos n) = n
range_count (negsuc n) = 0

-- The tests of the arguments, in their order; INTERLEAVED is 1.
unfoldable pub sweep_rejected : ℤ → ℕ → ℕ → ℕ → Bool
sweep_rejected num_ranges num_bytes step_width style =
    (lt_nat num_ranges 1 || not (lt_nat num_ranges (max_sweep_ranges + 1)))
    || (not (num_bytes % bytes_per_block == 0)
        || (ltb num_bytes bytes_per_block || (ltb step_width 1 || ltb 1 style)))

-- The loop over `frequency_list[0 .. n)`: `data[9+i*2]` and `data[10+i*2]`. A read past the list,
-- which C does not define, gives nothing here.
abbrev pub frequency_bytes : ℕ → List ℕ → List ℕ
frequency_bytes zero fs = []
frequency_bytes (suc n) [] = []
frequency_bytes (suc n) (f ∷ fs) = (f % 2 ^ 8) ∷ (f / 2 ^ 8 % 2 ^ 8) ∷ frequency_bytes n fs

-- `data[0]` to `data[8]`.
abbrev pub sweep_header : ℕ → ℕ → ℕ → List ℕ
sweep_header step_width offset style =
    (step_width % 2 ^ 8)
    ∷ (step_width / 2 ^ 8 % 2 ^ 8)
    ∷ (step_width / 2 ^ 16 % 2 ^ 8)
    ∷ (step_width / 2 ^ 24 % 2 ^ 8)
    ∷ (offset % 2 ^ 8)
    ∷ (offset / 2 ^ 8 % 2 ^ 8)
    ∷ (offset / 2 ^ 16 % 2 ^ 8)
    ∷ (offset / 2 ^ 24 % 2 ^ 8)
    ∷ (style % 2 ^ 8)
    ∷ []

unfoldable pub sweep_data : ℕ → List ℕ → ℕ → ℕ → ℕ → List ℕ
sweep_data n frequency_list step_width offset style =
    sweep_header step_width offset style ++ frequency_bytes (n * 2) frequency_list

-- `9 + num_ranges * 2 * sizeof(frequency_list[0])`
abbrev pub sweep_size : ℕ → ℕ
sweep_size n = 9 + n * 2 * 2

module _ (p : Platform) where
  unfoldable pub init_sweep : ℕ → List ℕ → ℤ → ℕ → ℕ → ℕ → ℕ → Action HackrfError
  unfolding usb_api_required sweep_rejected sweep_data
  init_sweep dev frequency_list num_ranges num_bytes step_width offset style =
      usb_api_required p dev 0x0102 usb_api_version (
        if sweep_rejected num_ranges num_bytes step_width style then pure invalid_param else do
          let n = range_count num_ranges
          r ← transfer p dev (
              request_out VendorRequest.init_sweep (num_bytes % 2 ^ 16)
                (num_bytes / 2 ^ 16 % 2 ^ 16) (sweep_data n frequency_list step_width offset style)
                (sweep_size n))
          check_at_least (sweep_size n) r.result)
