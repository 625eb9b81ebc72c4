-- ===== src/Requests/Boards.antt =====
-- src/lib/hackrf/hackrf.c: the requests that came with later firmware: hardware sync, the Operacake
-- boards, reset, the clock output and the CPLD checksum.
pub mod Ports
use Prim.Native.Nat.{bit_or}
use hackrf.Prelude.{
  ℕ, ◌*◌, ◌^◌, Bool, Option, none, some, List, [], ◌&&◌, ◌||◌, ltb, leb, take, if◌then◌else◌,
}
use hackrf.Prelude.Int.{lt_nat}
use hackrf.Bytes.{Endian, to_le, load}
use hackrf.Errors.{HackrfError, success, libusb, invalid_param, usb_api_version}
use hackrf.Platform.{Platform, VendorRequest, ControlReply}
use hackrf.Platform.Action.{
  Action, ◌>>=◌, pure, transfer, request_in, request_out, check_zero, check_at_least,
}
use hackrf.Requests.Version.{usb_api_required}
use hackrf.Requests.Registers.{with_received}

-- The end of `hackrf_cpld_checksum`: `*crc = TO_LE(*crc)`.
abbrev checksum_result : Endian → ControlReply → Action (HackrfError × Option ℕ)
checksum_result host r s =
    if lt_nat r.result 4
    then ((libusb, none), record s { last_libusb_error = r.result })
    else ((success, some (to_le host (load host (take 4 r.received)))), s)

-- The two tests of `hackrf_set_operacake_ports`, joined: OPERACAKE_PA4 is 3, OPERACAKE_PB4 is 7.
unfoldable pub ports_rejected : ℕ → ℕ → Bool
ports_rejected port_a port_b =
    (ltb 7 port_a || ltb 7 port_b)
    || ((leb port_a 3 && leb port_b 3) || (ltb 3 port_a && ltb 3 port_b))

module _ (p : Platform) where
  unfoldable pub set_hw_sync_mode : ℕ → ℕ → Action HackrfError
  unfolding usb_api_required
  set_hw_sync_mode dev value = usb_api_required p dev 0x0102 usb_api_version do
    r ← transfer p dev (request_out VendorRequest.set_hw_sync_mode value 0 [] 0)
    check_zero r.result

  unfoldable pub get_operacake_boards : ℕ → Action (HackrfError × List ℕ)
  unfolding usb_api_required
  get_operacake_boards dev =
      usb_api_required p dev 0x0102 (usb_api_version, [])
        do
          r ← transfer p dev (request_in VendorRequest.operacake_get_boards 0 0 8)
          with_received 8 r

  -- `port_a | (port_b<<8)`
  unfoldable pub set_operacake_ports : ℕ → ℕ → ℕ → ℕ → Action HackrfError
  unfolding usb_api_required ports_rejected
  set_operacake_ports dev address port_a port_b = usb_api_required p dev 0x0102 usb_api_version (
      if ports_rejected port_a port_b then pure invalid_param else do
        r ← transfer p dev (
            request_out VendorRequest.operacake_set_ports address (bit_or port_a (port_b * 2 ^ 8))
              [] 0)
        check_zero r.result)

  unfoldable pub reset : ℕ → Action HackrfError
  unfolding usb_api_required
  reset dev =
      usb_api_required p dev 0x0102 usb_api_version
        do r ← transfer p dev (request_out VendorRequest.reset 0 0 [] 0); check_zero r.result

  unfoldable pub set_operacake_ranges : ℕ → List ℕ → ℕ → Action HackrfError
  unfolding usb_api_required
  set_operacake_ranges dev ranges len_ranges = usb_api_required p dev 0x0103 usb_api_version do
    r ← transfer p dev (request_out VendorRequest.operacake_set_ranges 0 0 ranges len_ranges)
    check_at_least len_ranges r.result

  unfoldable pub set_clkout_enable : ℕ → ℕ → Action HackrfError
  unfolding usb_api_required
  set_clkout_enable dev value = usb_api_required p dev 0x0103 usb_api_version do
    r ← transfer p dev (request_out VendorRequest.clkout_enable value 0 [] 0)
    check_zero r.result

  unfoldable pub operacake_gpio_test : ℕ → ℕ → Action (HackrfError × List ℕ)
  unfolding usb_api_required
  operacake_gpio_test dev address =
      usb_api_required p dev 0x0103 (usb_api_version, [])
        do
          r ← transfer p dev (request_in VendorRequest.operacake_gpio_test address 0 2)
          with_received 1 r

  unfoldable pub cpld_checksum : Endian → ℕ → Action (HackrfError × Option ℕ)
  unfolding usb_api_required
  cpld_checksum host dev =
      usb_api_required p dev 0x0103 (usb_api_version, none)
        do r ← transfer p dev (request_in VendorRequest.cpld_checksum 0 0 4); checksum_result host r
