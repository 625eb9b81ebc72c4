-- ===== src/Tests/Sweep.antt =====
-- The sweep client at concrete settings.
use hackrf.Prelude.{
  ℕ, ◌*◌, ◌%◌, ◌^◌, ◌≡◌, refl, ◌⊎◌, inl, true, false, List, [], ◌∷◌, get_or, replicate, arith,
}
use hackrf.Prelude.Int.{pos}
use hackrf.Platform.Action.{Library}
use hackrf.Requests.InitSweep.{sweep_rejected, init_sweep}
use hackrf.Requests.Gains.{set_vga_gain, set_lna_gain}
use hackrf.Requests.Registers.{set_transceiver_mode}
use hackrf.Device.Transfers.{prepare_each, prepare_transfers}
use hackrf.Device.Streaming.{start_rx, start_thread, create_transfer_thread}
use hackrf.Sweep.{Config, configure, plan_ranges}
use hackrf.Sweep.Ranges.{Covers, IsConfig, plan_ranges-Covers, configure_accepted}
use hackrf.Sweep.Blocks.{Settings, Progress, rx_callback}
use hackrf.Sweep.Printing.{print_blocks}
use hackrf.Sweep.Printing.Lines.{split_lines, block_lines, HasRows, printed-lines}
use hackrf.Sweep.Receive.{Event, receive_all}
use hackrf.Sweep.Receive.Sweeps.{HasEnded, receive_all-HasEnded}
use hackrf.Sweep.Blocks.Reports.{AreReports, Within}
use hackrf.Sweep.Start.{start_sweep}
use hackrf.Tests.Platforms.{working, fresh, idle}

abbrev pub config : Config
config = record {
  num_samples = 8192;
  num_ranges = 0;
  frequencies = replicate 20 0;
  amp = false;
  amp_enable = 0;
  antenna = false;
  antenna_enable = 0;
  binary_output = false;
  ifft_output = false;
  fft_size = 20;
}

plan_values : plan_ranges 1 (2400 ∷ 2490 ∷ 0 ∷ []) ≡ 2400 ∷ 2500 ∷ 0 ∷ []
unfolding plan_ranges
plan_values = refl

plan_ranges-Covers_example : Covers 1 (2400 ∷ 2490 ∷ 0 ∷ []) (plan_ranges 1 (2400 ∷ 2490 ∷ 0 ∷ []))
plan_ranges-Covers_example = plan_ranges-Covers 1 (2400 ∷ 2490 ∷ 0 ∷ []) (ground arith)

pub let_through : (configure 2400 2490 config).0 ≡ true
unfolding configure
let_through = refl

configure_accepted_example :
    let d = (configure 2400 2490 config).1 in
    sweep_rejected (pos d.num_ranges) (d.num_samples * 2 % 2 ^ 32) 20000000 1 ≡ false
configure_accepted_example = configure_accepted 2400 2490 config let_through (omega arith)

config-IsConfig : IsConfig config
config-IsConfig = (omega arith, refl, tt)

abbrev pub settings : Settings
settings = record {
  has_output = true;
  one_shot = true;
  finite_mode = false;
  num_sweeps = 0;
  num_samples = 8192;
  first_mhz = 2400;
  fft_size = 20;
}

abbrev pub progress : Progress
progress = record {
  byte_count = 0;
  sweep_count = 0;
  sweep_started = false;
  do_exit = false;
  seconds = 0;
  microseconds = 0;
}

-- A transfer whose first block is at 2400 MHz.
abbrev pub received : ℕ → ℕ
received i = get_or (127 ∷ 127 ∷ 0 ∷ 24 ∷ 13 ∷ 143 ∷ []) i 0

one_report :
    (rx_callback settings received 1000 900000 262144 progress).1.1
    ≡ record { frequency = 2400000000; samples = 16344; seconds = 1000; microseconds = 900000 } ∷ []
unfolding rx_callback
one_report = refl

planned_bins : 20 ≡ (configure 2400 2490 config).1.fft_size
unfolding configure
planned_bins = refl

printed-lines_example :
    let xs = (rx_callback settings received 1000 900000 262144 progress).1.1 in
    (split_lines (print_blocks 20 xs) ≡ block_lines 20 [] xs)
    × AreReports settings received 1000 900000 16 xs
    × HasRows 20 xs
printed-lines_example =
    printed-lines settings received 1000 900000 2400 2490 config 262144 progress let_through
      planned_bins

abbrev counting : Progress
counting = record progress { sweep_started = true }

-- The transfer that completes the sweep, a signal, and another transfer.
abbrev run : List Event
run =
    Event.transfer received 1000 900000 262144
    ∷ Event.signal
    ∷ Event.transfer received 1000 950000 262144
    ∷ []

receive_all-HasEnded_example :
    let q = (receive_all settings run counting).0 in
    ((q.do_exit ≡ false) × Within settings counting q) ⊎ HasEnded settings counting run
receive_all-HasEnded_example =
    receive_all-HasEnded settings run counting refl (omega arith) (inl refl)

abbrev pub planned_config : Config
planned_config = (configure 2400 2490 config).1

abbrev pub one_open : Library
one_open = record fresh { open_devices = 1 }

pub sweep_starts : (start_sweep working planned_config 20 16 5 idle one_open).0.0 ≡ true
unfolding start_sweep configure set_vga_gain set_lna_gain start_rx create_transfer_thread
    start_thread prepare_transfers prepare_each set_transceiver_mode init_sweep
sweep_starts = refl
