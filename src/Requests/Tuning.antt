-- ===== src/Requests/Tuning.antt =====
-- src/lib/hackrf/hackrf.c: `hackrf_set_freq`, `hackrf_set_freq_explicit` and
-- `hackrf_set_sample_rate_manual`, with the structures that they send.
pub mod Params
pub mod SampleRate
pub mod Fraction
use hackrf.Prelude.{
  ℕ, ◌-◌, ◌*◌, ◌%◌, ◌/◌, ◌^◌, Bool, List, ◌∷◌, ◌++◌, not, ◌&&◌, ◌||◌, ltb, ◌==◌, if◌then◌else◌,
}
use hackrf.Prelude.Int.{lt_nat}
use hackrf.Bytes.{Endian, to_le, memory}
use hackrf.Errors.{HackrfError, invalid_param, libusb}
use hackrf.Platform.{Platform, VendorRequest}
use hackrf.Platform.Action.{Action, ◌>>=◌, pure, fail_with, transfer, request_out, check_at_least}
use hackrf.Requests.Registers.{set_baseband_filter_bandwidth}
use hackrf.Filter.{compute_baseband_filter_bw}

abbrev pub freq_one_mhz : ℕ
freq_one_mhz = 1_000_000

-- `(uint32_t)(freq_hz / FREQ_ONE_MHZ)`
abbrev pub freq_mhz_part : ℕ → ℕ
freq_mhz_part freq_hz = freq_hz / freq_one_mhz % 2 ^ 32

-- `(uint32_t)(freq_hz - (uint64_t)l_freq_mhz * FREQ_ONE_MHZ)`; the difference is not negative.
abbrev pub freq_hz_part : ℕ → ℕ
freq_hz_part freq_hz = (freq_hz - freq_mhz_part freq_hz * freq_one_mhz) % 2 ^ 32

-- `set_freq_params_t` as it lies in memory.
unfoldable pub set_freq_params : Endian → ℕ → List ℕ
set_freq_params host freq_hz =
    memory host 4 (to_le host (freq_mhz_part freq_hz))
    ++ memory host 4 (to_le host (freq_hz_part freq_hz))

-- `struct set_freq_explicit_params`: two uint64_t, a uint8_t, and the seven bytes of `padding`
-- that the compiler adds and the code leaves unset.
unfoldable pub set_freq_explicit_params : Endian → ℕ → ℕ → ℕ → List ℕ → List ℕ
set_freq_explicit_params host if_freq_hz lo_freq_hz path padding =
    memory host 8 (to_le host if_freq_hz)
    ++ (memory host 8 (to_le host lo_freq_hz) ++ ((path % 2 ^ 8) ∷ padding))

-- `set_fracrate_params_t`
unfoldable pub set_fracrate_params : Endian → ℕ → ℕ → List ℕ
set_fracrate_params host freq_hz divider =
    memory host 4 (to_le host freq_hz) ++ memory host 4 (to_le host divider)

-- The three tests of `hackrf_set_freq_explicit`, joined: RF_PATH_FILTER_BYPASS is 0.
unfoldable pub explicit_rejected : ℕ → ℕ → ℕ → Bool
explicit_rejected if_freq_hz lo_freq_hz path =
    (ltb if_freq_hz 2150000000 || ltb 2750000000 if_freq_hz)
    || ((not (path == 0) && (ltb lo_freq_hz 84375000 || ltb 5400000000 lo_freq_hz)) || ltb 2 path)

-- `(uint32_t)(0.75*freq_hz/divider)`. For a `divider` from 1 on and uint32_t arguments the double
-- division never reaches past an integer, so the conversion gives the floor of the quotient.
-- C does not define the conversion for `divider == 0`; this gives 0.
abbrev pub three_quarters : ℕ → ℕ → ℕ
three_quarters freq_hz divider = 3 * freq_hz / (4 * divider)

module _ (p : Platform) (host : Endian) where
  unfoldable pub set_freq : ℕ → ℕ → Action HackrfError
  unfolding set_freq_params
  set_freq dev freq_hz = do
    r ← transfer p dev (request_out VendorRequest.set_freq 0 0 (set_freq_params host freq_hz) 8)
    check_at_least 8 r.result

  unfoldable pub set_freq_explicit : ℕ → List ℕ → ℕ → ℕ → ℕ → Action HackrfError
  unfolding explicit_rejected
  set_freq_explicit dev padding if_freq_hz lo_freq_hz path =
      if explicit_rejected if_freq_hz lo_freq_hz path then pure invalid_param else do
        r ← transfer p dev (
            request_out VendorRequest.set_freq_explicit 0 0
              (set_freq_explicit_params host if_freq_hz lo_freq_hz path padding) 24)
        check_at_least 24 r.result

  unfoldable pub set_sample_rate_manual : ℕ → ℕ → ℕ → Action HackrfError
  unfolding set_fracrate_params set_baseband_filter_bandwidth
  set_sample_rate_manual dev freq_hz divider = do
    r ←
        transfer p dev (
          request_out VendorRequest.sample_rate_set 0 0 (set_fracrate_params host freq_hz divider)
            8)
    if lt_nat r.result 8
        then fail_with r.result libusb
        else set_baseband_filter_bandwidth p dev
            (compute_baseband_filter_bw (three_quarters freq_hz divider))
