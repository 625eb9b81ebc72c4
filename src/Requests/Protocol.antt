-- ===== src/Requests/Protocol.antt =====
-- What a command promises, apart from its code: the firmware that it needs, the arguments that it
-- accepts, the one transfer that it makes, how it reads the answer and what it passes on of it. include/hackrf.h documents
-- the ranges.
use hackrf.Prelude.{
  ℕ, ◌+◌, ◌-◌, ◌*◌, ◌/◌, ◌%◌, ◌^◌, Bool, true, false, [], ◌∷◌, ◌++◌, not, ◌&&◌, ◌||◌, ltb, leb,
  ◌==◌, get_or, take, drop, List, if◌then◌else◌,
}
use mathlib.Core.List.{flat_map}
use hackrf.Prelude.Int.{ℤ, pos, negsuc, is_zero, lt_nat, eq_nat}
use hackrf.Bytes.{Endian, bytes, to_le, load}
use hackrf.Errors.{HackrfError, success, libusb, invalid_param, usb_api_version}
use hackrf.Platform.{Platform, Call, VendorRequest, ControlRequest, ControlReply}
use hackrf.Platform.Action.{Library, request_in, request_out}
use hackrf.Requests.Registers.{mode_code}
use hackrf.Requests.Tuning.{set_freq_explicit_params}
use hackrf.Requests.Commands.{Command}

-- The USB API version from which on the firmware knows the command; 0 is any.
abbrev pub required_version : Command → ℕ
required_version Command.spiflash_status = 0x0103
required_version Command.spiflash_clear_status = 0x0103
required_version (Command.set_hw_sync_mode v) = 0x0102
required_version (Command.init_sweep fs n num_bytes step_width offset style) = 0x0102
required_version Command.get_operacake_boards = 0x0102
required_version (Command.set_operacake_ports a pa pb) = 0x0102
required_version Command.reset = 0x0102
required_version (Command.set_operacake_ranges rs n) = 0x0103
required_version (Command.set_clkout_enable v) = 0x0103
required_version (Command.operacake_gpio_test a) = 0x0103
required_version Command.cpld_checksum = 0x0103
required_version _ = 0

-- `lo ≤ x ≤ hi`
abbrev within : ℕ → ℕ → ℕ → Bool
within lo hi x = leb lo x && leb x hi

abbrev one_to_ten : ℤ → Bool
one_to_ten (pos n) = within 1 10 n
one_to_ten (negsuc n) = false

abbrev count : ℤ → ℕ
count (pos n) = n
count (negsuc n) = 0

-- The arguments in range. A port of an Operacake is on side A (0 to 3) or on side B (4 to 7), and
-- the two ports lie on different sides. The path filter may be bypassed (0), and then the local
-- oscillator is not looked at.
abbrev pub accepts : Command → Bool
accepts (Command.max2837_read r) = leb r 31
accepts (Command.max2837_write r v) = leb r 31 && leb v 1023
accepts (Command.si5351c_read r) = leb r 255
accepts (Command.si5351c_write r v) = leb r 255 && leb v 255
accepts (Command.rffc5071_read r) = leb r 30
accepts (Command.rffc5071_write r v) = leb r 30
accepts (Command.spiflash_write a n contents) = ltb a (2 ^ 20)
accepts (Command.spiflash_read a n) = ltb a (2 ^ 20)
accepts (Command.set_lna_gain v) = leb v 40
accepts (Command.set_vga_gain v) = leb v 62
accepts (Command.set_txvga_gain v) = leb v 47
accepts (Command.set_freq_explicit padding i l path) =
    within 2150000000 2750000000 i
    && (path == 0 || (within 1 2 path && within 84375000 5400000000 l))
accepts (Command.init_sweep fs n num_bytes step_width offset style) =
    one_to_ten n
    && (num_bytes % 16384 == 0 && (leb 16384 num_bytes && (leb 1 step_width && leb style 1)))
accepts (Command.set_operacake_ports a pa pb) =
    (leb pa 3 && within 4 7 pb) || (within 4 7 pa && leb pb 3)
accepts _ = true

-- The transfer that the device sees. Numbers of four bytes and of two travel little-endian.
abbrev pub wire : Endian → Command → ControlRequest
wire host (Command.set_transceiver_mode m) =
    request_out VendorRequest.set_transceiver_mode (mode_code m) 0 [] 0
wire host (Command.max2837_read r) = request_in VendorRequest.max2837_read 0 r 2
wire host (Command.si5351c_read r) = request_in VendorRequest.si5351c_read 0 r 1
wire host (Command.rffc5071_read r) = request_in VendorRequest.rffc5071_read 0 r 2
wire host (Command.max2837_write r v) = request_out VendorRequest.max2837_write v r [] 0
wire host (Command.si5351c_write r v) = request_out VendorRequest.si5351c_write v r [] 0
wire host (Command.rffc5071_write r v) = request_out VendorRequest.rffc5071_write v r [] 0
wire host (Command.set_baseband_filter_bandwidth f) =
    request_out VendorRequest.baseband_filter_bandwidth_set (f % 65536) (f / 65536) [] 0
wire host Command.spiflash_erase = request_out VendorRequest.spiflash_erase 0 0 [] 0
wire host Command.spiflash_status = request_in VendorRequest.spiflash_status 0 0 2
wire host Command.spiflash_clear_status = request_out VendorRequest.spiflash_clear_status 0 0 [] 0
wire host (Command.spiflash_write a n contents) =
    request_out VendorRequest.spiflash_write (a / 65536) (a % 65536) contents n
wire host (Command.spiflash_read a n) =
    request_in VendorRequest.spiflash_read (a / 65536) (a % 65536) n
wire host Command.board_id_read = request_in VendorRequest.board_id_read 0 0 1
wire host Command.board_partid_serialno_read =
    request_in VendorRequest.board_partid_serialno_read 0 0 24
wire host (Command.set_freq f) =
    request_out VendorRequest.set_freq 0 0
      (bytes 4 (f / 1000000 % 2 ^ 32) ++ bytes 4 ((f - f / 1000000 % 2 ^ 32 * 1000000) % 2 ^ 32)) 8
wire host (Command.set_freq_explicit padding i l path) =
    request_out VendorRequest.set_freq_explicit 0 0 (set_freq_explicit_params host i l path padding)
      24
wire host (Command.set_amp_enable v) = request_out VendorRequest.amp_enable v 0 [] 0
wire host (Command.set_antenna_enable v) = request_out VendorRequest.antenna_enable v 0 [] 0
wire host (Command.set_lna_gain v) = request_in VendorRequest.set_lna_gain 0 (v - v % 8) 1
wire host (Command.set_vga_gain v) = request_in VendorRequest.set_vga_gain 0 (v - v % 2) 1
wire host (Command.set_txvga_gain v) = request_in VendorRequest.set_txvga_gain 0 v 1
wire host (Command.set_hw_sync_mode v) = request_out VendorRequest.set_hw_sync_mode v 0 [] 0
wire host (Command.set_clkout_enable v) = request_out VendorRequest.clkout_enable v 0 [] 0
wire host (Command.operacake_gpio_test a) = request_in VendorRequest.operacake_gpio_test a 0 2
wire host (Command.init_sweep fs n num_bytes step_width offset style) =
    request_out VendorRequest.init_sweep (num_bytes % 65536) (num_bytes / 65536 % 65536)
      (bytes 4 step_width
        ++ (bytes 4 offset ++ (bytes 1 style ++ flat_map (bytes 2) (take (count n * 2) fs))))
      (9 + count n * 4)
wire host Command.get_operacake_boards = request_in VendorRequest.operacake_get_boards 0 0 8
wire host Command.reset = request_out VendorRequest.reset 0 0 [] 0
wire host Command.cpld_checksum = request_in VendorRequest.cpld_checksum 0 0 4
wire host (Command.set_operacake_ports a pa pb) =
    request_out VendorRequest.operacake_set_ports a (pa + 256 * pb) [] 0
wire host (Command.set_operacake_ranges rs n) =
    request_out VendorRequest.operacake_set_ranges 0 0 rs n

-- Which answers of the device are a success: a transfer without data returns 0, one with data
-- returns how many bytes it moved, and the gains answer with one byte that is not 0.
abbrev pub good : Command → ControlReply → Bool
good (Command.max2837_read r) a = not (lt_nat a.result 2)
good (Command.si5351c_read r) a = not (lt_nat a.result 1)
good (Command.rffc5071_read r) a = not (lt_nat a.result 2)
good Command.spiflash_status a = not (lt_nat a.result 1)
good (Command.spiflash_write x n contents) a = not (lt_nat a.result n)
good (Command.spiflash_read x n) a = not (lt_nat a.result n)
good Command.board_id_read a = not (lt_nat a.result 1)
good Command.board_partid_serialno_read a = not (lt_nat a.result 24)
good (Command.set_freq f) a = not (lt_nat a.result 8)
good (Command.set_freq_explicit padding i l path) a = not (lt_nat a.result 24)
good (Command.set_lna_gain v) a = eq_nat a.result 1 && not (get_or a.received 0 0 == 0)
good (Command.set_vga_gain v) a = eq_nat a.result 1 && not (get_or a.received 0 0 == 0)
good (Command.set_txvga_gain v) a = eq_nat a.result 1 && not (get_or a.received 0 0 == 0)
good (Command.operacake_gpio_test x) a = not (lt_nat a.result 1)
good (Command.init_sweep fs n num_bytes step_width offset style) a =
    not (lt_nat a.result (9 + count n * 4))
good Command.get_operacake_boards a = not (lt_nat a.result 8)
good Command.cpld_checksum a = not (lt_nat a.result 4)
good (Command.set_operacake_ranges rs n) a = not (lt_nat a.result n)
good _ a = is_zero a.result

-- A number of four bytes that the device sends, and six of them.
abbrev word : Endian → List ℕ → ℕ
word host bs = to_le host (load host (take 4 bs))

abbrev six_words : Endian → List ℕ → List ℕ
six_words host a =
    let b = drop 4 a in
    let c = drop 4 b in
    let d = drop 4 c in
    let e = drop 4 d in
    word host a ∷ word host b ∷ word host c ∷ word host d ∷ word host e ∷ word host (drop 4 e) ∷ []

-- What the caller gets of an answer: the bytes that came, or, after a success, the numbers.
abbrev pub passed_on : Endian → Command → ControlReply → List ℕ
passed_on host (Command.max2837_read r) a = a.received
passed_on host (Command.rffc5071_read r) a = a.received
passed_on host Command.spiflash_status a = a.received
passed_on host (Command.spiflash_read x n) a = a.received
passed_on host Command.board_id_read a = a.received
passed_on host (Command.operacake_gpio_test x) a = a.received
passed_on host Command.get_operacake_boards a = a.received
passed_on host (Command.si5351c_read r) a =
    if lt_nat a.result 1 then [] else get_or a.received 0 0 ∷ []
passed_on host Command.cpld_checksum a = if lt_nat a.result 4 then [] else word host a.received ∷ []
passed_on host Command.board_partid_serialno_read a =
    if lt_nat a.result 24 then [] else six_words host a.received
passed_on host _ a = []

-- A refusal by the device: the gains report a wrong parameter, every other command an error of
-- libusb, which it records.
abbrev pub refused_by_device : Command → ControlReply → Library → HackrfError × Library
refused_by_device (Command.set_lna_gain v) a s = (invalid_param, s)
refused_by_device (Command.set_vga_gain v) a s = (invalid_param, s)
refused_by_device (Command.set_txvga_gain v) a s = (invalid_param, s)
refused_by_device _ a s = (libusb, record s { last_libusb_error = a.result })

module _ (p : Platform) (host : Endian) (dev : ℕ) where
  -- The one transfer of a command that the firmware knows.
  unfoldable pub served : Command → Library → (HackrfError × List ℕ) × Library
  served c s =
      if accepts c
      then (let a = p.control_reply s.log dev (wire host c) in
          let t : Library = record s { log = Call.control_transfer dev (wire host c) ∷ s.log } in
          let r = if good c a then (success, t) else refused_by_device c a t in
          ((r.0, passed_on host c a), r.1))
      else ((invalid_param, []), s)

  -- The whole command. A version that cannot be read counts as 0, and the failure is recorded.
  unfoldable pub promised : Command → Library → (HackrfError × List ℕ) × Library
  unfolding served
  promised c s =
      let d = p.descriptor_reply s.log dev in
      let failed = lt_nat d.result 0 in
      let t : Library = record s {
        last_libusb_error = if failed then d.result else s.last_libusb_error;
        log = Call.get_device_descriptor dev ∷ s.log;
      } in
      if required_version c == 0
      then served c s
      else if ltb (if failed then 0 else d.output) (required_version c)
      then ((usb_api_version, []), t)
      else served c t
