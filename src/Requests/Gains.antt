-- ===== src/Requests/Gains.antt =====
-- src/lib/hackrf/hackrf.c: the amplifier, the three gains and the antenna port.
pub mod Masks
use Prim.Native.Nat.{bit_and}
use hackrf.Prelude.{ℕ, Bool, [], not, ◌||◌, ltb, ◌==◌, get_or, if◌then◌else◌}
use hackrf.Prelude.Int.{eq_nat}
use hackrf.Errors.{HackrfError, success, invalid_param}
use hackrf.Platform.{Platform, VendorRequest, ControlReply}
use hackrf.Platform.Action.{Action, ◌>>=◌, pure, transfer, request_in, request_out, check_zero}

-- `result != 1 || !retval`. Where the result is 1 the device has written `retval`.
abbrev pub gain_refused : ControlReply → Bool
gain_refused r = not (eq_nat r.result 1) || get_or r.received 0 0 == 0

-- The end of the three gain functions; it does not set `last_libusb_error`.
abbrev pub gain_result : ControlReply → Action HackrfError
gain_result r = pure (if gain_refused r then invalid_param else success)

module _ (p : Platform) where
  unfoldable pub set_amp_enable : ℕ → ℕ → Action HackrfError
  set_amp_enable dev value = do
    r ← transfer p dev (request_out VendorRequest.amp_enable value 0 [] 0)
    check_zero r.result

  -- `value &= ~0x07`, on a uint32_t.
  unfoldable pub set_lna_gain : ℕ → ℕ → Action HackrfError
  set_lna_gain dev value = if ltb 40 value then pure invalid_param else do
    r ← transfer p dev (request_in VendorRequest.set_lna_gain 0 (bit_and value 0xffff_fff8) 1)
    gain_result r

  -- `value &= ~0x01`
  unfoldable pub set_vga_gain : ℕ → ℕ → Action HackrfError
  set_vga_gain dev value = if ltb 62 value then pure invalid_param else do
    r ← transfer p dev (request_in VendorRequest.set_vga_gain 0 (bit_and value 0xffff_fffe) 1)
    gain_result r

  unfoldable pub set_txvga_gain : ℕ → ℕ → Action HackrfError
  set_txvga_gain dev value =
      if ltb 47 value
      then pure invalid_param
      else do r ← transfer p dev (request_in VendorRequest.set_txvga_gain 0 value 1); gain_result r

  unfoldable pub set_antenna_enable : ℕ → ℕ → Action HackrfError
  set_antenna_enable dev value = do
    r ← transfer p dev (request_out VendorRequest.antenna_enable value 0 [] 0)
    check_zero r.result
