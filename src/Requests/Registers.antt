-- ===== src/Requests/Registers.antt =====
-- src/lib/hackrf/hackrf.c: the transceiver mode and the registers of the MAX2837, SI5351C and RFFC5071.
use hackrf.Prelude.{ℕ, ◌%◌, ◌/◌, ◌^◌, Option, none, some, List, [], leb, if◌then◌else◌, get_or}
use hackrf.Prelude.Int.{lt_nat}
use hackrf.Errors.{HackrfError, success, invalid_param, libusb}
use hackrf.Platform.{Platform, VendorRequest, ControlReply}
use hackrf.Platform.Action.{
  Action, ◌>>=◌, pure, transfer, request_in, request_out, check_zero, check_at_least,
}

-- `hackrf_transceiver_mode`
pub data TransceiverMode : Type 0 where
  off receive transmit ss cpld_update : TransceiverMode

abbrev pub mode_code : TransceiverMode → ℕ
mode_code off = 0
mode_code receive = 1
mode_code transmit = 2
mode_code ss = 3
mode_code cpld_update = 4

-- The end of the functions that read into the caller's buffer: the code, and the bytes that the
-- transfer left there.
abbrev pub with_received : ℕ → ControlReply → Action (HackrfError × List ℕ)
with_received n r s = let (e, t) = check_at_least n r.result s in ((e, r.received), t)

-- The end of `hackrf_si5351c_read`: `*value = temp_value`, where `temp_value` was 0 before.
abbrev si5351c_result : ControlReply → Action (HackrfError × Option ℕ)
si5351c_result r s =
    if lt_nat r.result 1
    then ((libusb, none), record s { last_libusb_error = r.result })
    else ((success, some (get_or r.received 0 0)), s)

module _ (p : Platform) where
  unfoldable pub set_transceiver_mode : ℕ → TransceiverMode → Action HackrfError
  set_transceiver_mode dev value = do
    r ← transfer p dev (request_out VendorRequest.set_transceiver_mode (mode_code value) 0 [] 0)
    check_zero r.result

  unfoldable pub max2837_read : ℕ → ℕ → Action (HackrfError × List ℕ)
  max2837_read dev register_number = if leb 32 register_number then pure (invalid_param, []) else do
    r ← transfer p dev (request_in VendorRequest.max2837_read 0 register_number 2)
    with_received 2 r

  unfoldable pub max2837_write : ℕ → ℕ → ℕ → Action HackrfError
  max2837_write dev register_number value =
      if leb 32 register_number
      then pure invalid_param
      else if leb 0x400 value
      then pure invalid_param
      else do
        r ← transfer p dev (request_out VendorRequest.max2837_write value register_number [] 0)
        check_zero r.result

  unfoldable pub si5351c_read : ℕ → ℕ → Action (HackrfError × Option ℕ)
  si5351c_read dev register_number =
      if leb 256 register_number then pure (invalid_param, none) else do
        r ← transfer p dev (request_in VendorRequest.si5351c_read 0 register_number 1)
        si5351c_result r

  unfoldable pub si5351c_write : ℕ → ℕ → ℕ → Action HackrfError
  si5351c_write dev register_number value =
      if leb 256 register_number
      then pure invalid_param
      else if leb 256 value
      then pure invalid_param
      else do
        r ← transfer p dev (request_out VendorRequest.si5351c_write value register_number [] 0)
        check_zero r.result

  unfoldable pub rffc5071_read : ℕ → ℕ → Action (HackrfError × List ℕ)
  rffc5071_read dev register_number =
      if leb 31 register_number then pure (invalid_param, []) else do
        r ← transfer p dev (request_in VendorRequest.rffc5071_read 0 register_number 2)
        with_received 2 r

  unfoldable pub rffc5071_write : ℕ → ℕ → ℕ → Action HackrfError
  rffc5071_write dev register_number value =
      if leb 31 register_number then pure invalid_param else do
        r ← transfer p dev (request_out VendorRequest.rffc5071_write value register_number [] 0)
        check_zero r.result

  -- `bandwidth_hz & 0xffff` and `bandwidth_hz >> 16`
  unfoldable pub set_baseband_filter_bandwidth : ℕ → ℕ → Action HackrfError
  set_baseband_filter_bandwidth dev bandwidth_hz = do
    r ← transfer p dev (
        request_out VendorRequest.baseband_filter_bandwidth_set (bandwidth_hz % 2 ^ 16)
          (bandwidth_hz / 2 ^ 16) [] 0)
    check_zero r.result
