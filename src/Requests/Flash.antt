-- ===== src/Requests/Flash.antt =====
-- src/lib/hackrf/hackrf.c: the SPI flash (`hackrf_spiflash_*`) and `hackrf_cpld_write`.
pub mod Cpld
use hackrf.Prelude.{
  ℕ, zero, suc, ◌+◌, ◌%◌, ◌/◌, ◌^◌, true, false, Option, none, some, List, [], ltb, if◌then◌else◌,
}
use hackrf.Prelude.Int.{is_zero}
use hackrf.Errors.{HackrfError, success, invalid_param, libusb, usb_api_version}
use hackrf.Platform.{Platform, Call, VendorRequest}
use hackrf.Platform.Action.{
  Action, ◌>>=◌, pure, ask, transfer, request_in, request_out, check_zero, check_at_least,
}
use hackrf.Requests.Version.{usb_api_required}
use hackrf.Requests.Registers.{with_received, set_transceiver_mode, TransceiverMode}

module _ (p : Platform) where
  unfoldable pub spiflash_erase : ℕ → Action HackrfError
  spiflash_erase dev = do
    r ← transfer p dev (request_out VendorRequest.spiflash_erase 0 0 [] 0)
    check_zero r.result

  -- `data` points to the `size` bytes of the argument `contents`.
  unfoldable pub spiflash_write : ℕ → ℕ → ℕ → List ℕ → Action HackrfError
  spiflash_write dev address size contents = if ltb 0x0fffff address then pure invalid_param else do
    r ← transfer p dev (
        request_out VendorRequest.spiflash_write (address / 2 ^ 16) (address % 2 ^ 16) contents
          size)
    check_at_least size r.result

  unfoldable pub spiflash_read : ℕ → ℕ → ℕ → Action (HackrfError × List ℕ)
  spiflash_read dev address size = if ltb 0x0fffff address then pure (invalid_param, []) else do
    r ←
        transfer p dev
          (request_in VendorRequest.spiflash_read (address / 2 ^ 16) (address % 2 ^ 16) size)
    with_received size r

  unfoldable pub spiflash_status : ℕ → Action (HackrfError × List ℕ)
  unfolding usb_api_required
  spiflash_status dev =
      usb_api_required p dev 0x0103 (usb_api_version, [])
        do r ← transfer p dev (request_in VendorRequest.spiflash_status 0 0 2); with_received 1 r

  unfoldable pub spiflash_clear_status : ℕ → Action HackrfError
  unfolding usb_api_required
  spiflash_clear_status dev = usb_api_required p dev 0x0103 usb_api_version do
    r ← transfer p dev (request_out VendorRequest.spiflash_clear_status 0 0 [] 0)
    check_zero r.result

  -- The loop of `hackrf_cpld_write`, from `i` on: an `unsigned int`, so `i += chunk_size` wraps.
  -- `none` means that the fuel ran out.
  unfoldable pub cpld_chunks : ℕ → ℕ → ℕ → ℕ → Action (Option HackrfError)
  cpld_chunks zero dev total_length i = pure none
  cpld_chunks (suc fuel) dev total_length i = elim (ltb i total_length) [
    | false ↦ pure (some success)
    | true ↦ do
      result ← ask (Call.bulk_transfer dev 2 i 512) (λ log. p.bulk_reply log dev 2 i 512)
      elim (is_zero result) [
        | false ↦ λ s. (some libusb, record s { last_libusb_error = result })
        | true ↦ cpld_chunks fuel dev total_length ((i + 512) % 2 ^ 32)
      ]
  ]

  -- `chunk_size` is 512, and the endpoint is LIBUSB_ENDPOINT_OUT | 2. The bytes stay at the
  -- caller's: a bulk transfer names its offset into `data`.
  unfoldable pub cpld_write : ℕ → ℕ → ℕ → Action (Option HackrfError)
  unfolding set_transceiver_mode cpld_chunks
  cpld_write fuel dev total_length = do
    result ← set_transceiver_mode p dev TransceiverMode.cpld_update
    elim result [ success ↦ cpld_chunks fuel dev total_length 0 | e ↦ pure (some e) ]
