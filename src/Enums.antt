-- ===== src/Enums.antt =====
-- include/hackrf.h: the enums of boards, filter paths, ports of the antenna switch and styles of a sweep, and the
-- numbers of their values. src/lib/hackrf/hackrf.c works on the numbers, since C lets an enum have any.
use hackrf.Prelude.{ℕ, ◌≡◌, ◌≢◌, ◌⊎◌, inl, inr, Bool, true, false, ltb, ◌==◌, if◌then◌else◌, arith}
use hackrf.Prelude.Int.{ℤ}
use hackrf.Names.{board_id_name}
use hackrf.Requests.Boards.{ports_rejected}
use hackrf.Requests.Tuning.{explicit_rejected}
use hackrf.Requests.InitSweep.{sweep_rejected}
use hackrf.Platform.{Descriptor}
use hackrf.Device.Lifecycle.{is_hackrf}

data BoardId : Type 0 where
  jellybean jawbreaker hackrf_one rad1o invalid : BoardId

abbrev board_id : BoardId → ℕ
board_id BoardId.jellybean = 0
board_id BoardId.jawbreaker = 1
board_id BoardId.hackrf_one = 2
board_id BoardId.rad1o = 3
board_id BoardId.invalid = 0xff

data UsbBoardId : Type 0 where
  usb_jawbreaker usb_hackrf_one usb_rad1o usb_invalid : UsbBoardId

abbrev usb_board_id : UsbBoardId → ℕ
usb_board_id UsbBoardId.usb_jawbreaker = 0x604b
usb_board_id UsbBoardId.usb_hackrf_one = 0x6089
usb_board_id UsbBoardId.usb_rad1o = 0xcc15
usb_board_id UsbBoardId.usb_invalid = 0xffff

data RfPathFilter : Type 0 where
  bypass low_pass high_pass : RfPathFilter

abbrev filter_path : RfPathFilter → ℕ
filter_path RfPathFilter.bypass = 0
filter_path RfPathFilter.low_pass = 1
filter_path RfPathFilter.high_pass = 2

data OperacakePort : Type 0 where
  pa1 pa2 pa3 pa4 pb1 pb2 pb3 pb4 : OperacakePort

abbrev port : OperacakePort → ℕ
port OperacakePort.pa1 = 0
port OperacakePort.pa2 = 1
port OperacakePort.pa3 = 2
port OperacakePort.pa4 = 3
port OperacakePort.pb1 = 4
port OperacakePort.pb2 = 5
port OperacakePort.pb3 = 6
port OperacakePort.pb4 = 7

data SweepStyle : Type 0 where
  linear interleaved : SweepStyle

abbrev sweep_style : SweepStyle → ℕ
sweep_style SweepStyle.linear = 0
sweep_style SweepStyle.interleaved = 1

-- The side of a port: `true` for PB.
abbrev is_b : OperacakePort → Bool
is_b OperacakePort.pa1 = false
is_b OperacakePort.pa2 = false
is_b OperacakePort.pa3 = false
is_b OperacakePort.pa4 = false
is_b OperacakePort.pb1 = true
is_b OperacakePort.pb2 = true
is_b OperacakePort.pb3 = true
is_b OperacakePort.pb4 = true

-- A number below the number of values, as a value.
abbrev filter_at : ℕ → RfPathFilter
filter_at n =
    if n == 0
    then RfPathFilter.bypass
    else if n == 1
    then RfPathFilter.low_pass
    else RfPathFilter.high_pass

abbrev style_at : ℕ → SweepStyle
style_at n = if n == 0 then SweepStyle.linear else SweepStyle.interleaved

abbrev port_at : ℕ → OperacakePort
port_at n =
    if ltb n 4
    then (if n == 0
        then OperacakePort.pa1
        else if n == 1
        then OperacakePort.pa2
        else if n == 2
        then OperacakePort.pa3
        else OperacakePort.pa4)
    else if n == 4
    then OperacakePort.pb1
    else if n == 5
    then OperacakePort.pb2
    else if n == 6
    then OperacakePort.pb3
    else OperacakePort.pb4

abbrev board_at : ℕ → BoardId
board_at n =
    if n == 0
    then BoardId.jellybean
    else if n == 1
    then BoardId.jawbreaker
    else if n == 2
    then BoardId.hackrf_one
    else if n == 3
    then BoardId.rad1o
    else BoardId.invalid

board_at-known : (n : ℕ) → (n ≡ board_id (board_at n)) ⊎ (board_id_name n ≡ "Unknown Board ID")
unfolding board_id_name
board_at-known n = ground arith

-- A number is that of a board, or it is told to be none.
board_id_name-known :
    (n : ℕ) → ((b : BoardId) × (n ≡ board_id b)) ⊎ (board_id_name n ≡ "Unknown Board ID")
board_id_name-known n = elim (board_at-known n) [ inl e ↦ inl (board_at n, e) | inr e ↦ inr e ]

-- The ports that `hackrf_set_operacake_ports` lets through are two of the enum, on different sides; and it
-- lets every such pair through.
ports_accepted :
    (a b : ℕ)
    → ports_rejected a b ≡ false
    → (p : OperacakePort) × (q : OperacakePort) × (a ≡ port p) × (b ≡ port q) × (is_b p ≢ is_b q)
unfolding ports_rejected
ports_accepted a b e =
    (port_at a, port_at b, ground (arith, e), ground (arith, e), ground (arith, e))

ports_taken : (p q : OperacakePort) → is_b p ≢ is_b q → ports_rejected (port p) (port q) ≡ false
unfolding ports_rejected
ports_taken p q apart = ground (arith, apart)

-- A path that `hackrf_set_freq_explicit` lets through, and a style that `hackrf_init_sweep` lets through, are
-- values of their enums, and have a name.
filter_accepted :
    (if_freq_hz lo_freq_hz path : ℕ)
    → explicit_rejected if_freq_hz lo_freq_hz path ≡ false
    → (f : RfPathFilter) × (path ≡ filter_path f)
unfolding explicit_rejected
filter_accepted if_freq_hz lo_freq_hz path e = (filter_at path, ground (arith, e))

style_accepted :
    (num_ranges : ℤ) (num_bytes step_width style : ℕ)
    → sweep_rejected num_ranges num_bytes step_width style ≡ false
    → (t : SweepStyle) × (style ≡ sweep_style t)
unfolding sweep_rejected
style_accepted num_ranges num_bytes step_width style e = (style_at style, ground (arith, e))

-- The product number of a device that the library takes for a HackRF is that of one of the three boards.
abbrev usb_board_at : ℕ → UsbBoardId
usb_board_at n =
    if n == 0x604b
    then UsbBoardId.usb_jawbreaker
    else if n == 0x6089
    then UsbBoardId.usb_hackrf_one
    else UsbBoardId.usb_rad1o

is_hackrf-board :
    (d : Descriptor)
    → is_hackrf d ≡ true
    → (b : UsbBoardId) × (d.product ≡ usb_board_id b) × (b ≢ UsbBoardId.usb_invalid)
is_hackrf-board d e = (usb_board_at d.product, ground (arith, e), ground (arith, e))
