-- ===== src/Requests/Tuning/SampleRate.antt =====
-- `hackrf_set_sample_rate_manual` (src/lib/hackrf/hackrf.c) chooses the filter by itself.
use Prim.Native.Nat.{max}
use hackrf.Prelude.{ℕ, ◌≤◌, ◌<◌, ◌≡◌, ◌∷◌, arith, if◌then◌else◌}
use hackrf.Prelude.Int.{lt_nat}
use hackrf.Bytes.{Endian}
use hackrf.Errors.{libusb}
use hackrf.Platform.{Platform, Call, ControlRequest, VendorRequest}
use hackrf.Platform.Action.{Library, request_out}
use hackrf.Filter.{max2837_ft, compute_baseband_filter_bw}
use hackrf.Filter.Bounds.{
  IsWidest, compute_baseband_filter_bw-IsWidest, compute_baseband_filter_bw_above,
}
use hackrf.Requests.Registers.{set_baseband_filter_bandwidth}
use hackrf.Requests.Tuning.{set_sample_rate_manual, set_fracrate_params, three_quarters}

module _ (p : Platform) (host : Endian) (dev freq_hz divider : ℕ) (s : Library) where
  abbrev pub rate_request : ControlRequest
  rate_request =
      request_out VendorRequest.sample_rate_set 0 0 (set_fracrate_params host freq_hz divider) 8

  abbrev pub rate_sent : Library
  rate_sent = record s { log = Call.control_transfer dev rate_request ∷ s.log }

  -- The rate is sent; if the device did not take it, that is the error, and otherwise the filter of
  -- `width` is set.
  abbrev pub SetsFilter : ℕ → Type 0
  SetsFilter width =
      let a = p.control_reply s.log dev rate_request in
      set_sample_rate_manual p host dev freq_hz divider s ≡ (
        if lt_nat a.result 8
        then (libusb, record rate_sent { last_libusb_error = a.result })
        else set_baseband_filter_bandwidth p dev width rate_sent)

  -- Where three quarters of the rate do not exceed the largest filter, the function sets the widest
  -- filter that is at most three quarters of the rate, or the smallest filter where none is.
  set_sample_rate_manual-IsWidest :
      three_quarters freq_hz divider ≤ 28000000
      → (width : ℕ) × IsWidest (max 1750000 (three_quarters freq_hz divider)) width max2837_ft
        × SetsFilter width
  unfolding set_sample_rate_manual
  set_sample_rate_manual-IsWidest h = (
    compute_baseband_filter_bw (three_quarters freq_hz divider),
    compute_baseband_filter_bw-IsWidest (three_quarters freq_hz divider) h,
    ground arith,
  )

  -- Where three quarters of the rate exceed the largest filter, the filter is set to 0 Hz.
  set_sample_rate_manual_above : 28000000 < three_quarters freq_hz divider → SetsFilter 0
  unfolding set_sample_rate_manual
  set_sample_rate_manual_above h =
      ground (arith, compute_baseband_filter_bw_above (three_quarters freq_hz divider) h)
