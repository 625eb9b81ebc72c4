-- ===== src/Tests/Runs.antt =====
-- Numbers of the sweep client as texts, and a whole sweep, at concrete inputs.
use hackrf.Prelude.{true, ◌≡◌, refl, inl, inr, Bool, false, some, List, [], ◌∷◌, arith}
use hackrf.Errors.{success}
use hackrf.Platform.{Call}
use hackrf.Device.{Device}
use hackrf.Device.Streaming.Machine.{here}
use hackrf.Sweep.Numbers.{parse_u32}
use hackrf.Sweep.Numbers.RoundTrip.{write, mark, parse_u32-write}
use hackrf.Sweep.Run.{Sight, hackrf_sweep, prepare_device}
use hackrf.Bytes.{Endian}
use hackrf.Sweep.Run.Ends.{hackrf_sweep_ends}
use hackrf.Tests.Platforms.{agree, working, fresh, idle}
use hackrf.Tests.Sweep.{config, let_through, planned_config, sweep_starts, one_open}
use hackrf.Sweep.{configure}
use hackrf.Sweep.Start.{start_sweep}
use hackrf.Platform.Action.{Library}
use hackrf.Platform.Handles.{live, lose}
use hackrf.Requests.Gains.{set_vga_gain, set_lna_gain}
use hackrf.Requests.InitSweep.{init_sweep}
use hackrf.Requests.Registers.{set_transceiver_mode}
use hackrf.Device.Streaming.{start_rx, create_transfer_thread, start_thread}
use hackrf.Device.Transfers.{prepare_transfers, prepare_each}

written : mark 16 (write 16 256 255 []) ≡ b'0' ∷ b'x' ∷ b'f' ∷ b'f' ∷ []
unfolding write
written = refl

parse_u32-write_example : parse_u32 (mark 16 (write 16 256 255 [])) ≡ (success, some 255)
parse_u32-write_example = parse_u32-write 16 255 (inr (inr refl)) (omega arith)

-- The loop finds the device as it was started, and no bytes.
abbrev starved : Library → Device → Sight
starved t d = record { device = d; library = t; do_exit = false; byte_count = 0 }

abbrev begun : Library
begun = (start_sweep working planned_config 20 16 5 idle one_open).1

hackrf_sweep_ends_example :
    let r =
      hackrf_sweep working 2400 2490 config 20 16 5 idle (λ d. starved begun d ∷ []) one_open in
    (code : Bool) × ((r.0 ≡ some code)
      × (r.1.open_devices ≡ 0)
      × (r.1.context ≡ false)
      × ((log : List Call) × (r.1.log ≡ Call.context_exit ∷ log))
      × (live working r.1.log ≡ lose 7 (live working one_open.log)))
hackrf_sweep_ends_example =
    hackrf_sweep_ends working agree 2400 2490 config 20 16 5 idle (λ d. starved begun d ∷ [])
      one_open (ground arith) (ground arith) refl refl let_through sweep_starts (inl (ground arith))
      (record { reached = here; quiet = (refl, refl, refl) }, tt)

-- A sweep on it.
abbrev prepared : Library
prepared = (prepare_device working Endian.little (some (99 ∷ 100 ∷ [])) fresh).1

abbrev swept : Library
swept = (start_sweep working planned_config 20 16 5 idle prepared).1

starts_prepared : (start_sweep working planned_config 20 16 5 idle prepared).0.0 ≡ true
unfolding start_sweep configure set_vga_gain set_lna_gain start_rx create_transfer_thread
    start_thread prepare_transfers prepare_each set_transceiver_mode init_sweep
starts_prepared = refl
