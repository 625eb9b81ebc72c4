-- ===== src/Tests/Application.antt =====
-- An application that opens two devices, streams on one until a transfer fails, and closes both.
use hackrf.Prelude.Int.{pos}
use hackrf.Prelude.{arith, ℕ, ◌≡◌, ◌≢◌, refl, false, none, some, List, length, replicate, [], ◌∷◌}
use hackrf.Bytes.{Endian}
use hackrf.Errors.{success}
use hackrf.Platform.Handles.{live, count}
use hackrf.Device.Transfers.{
  prepare_each, prepare_transfers, allocate_from, allocate_transfers, free_transfers, free_each,
  cancel_each, cancel_transfers,
}
use hackrf.Device.Streaming.{
  create_transfer_thread, start_thread, start_rx, stop_rx, stop_tx, handle_completions,
  kill_transfer_thread, join_thread,
}
use hackrf.Device.Lifecycle.{
  hackrf_init, hackrf_open, hackrf_close, hackrf_exit, open_setup, setup_claimed,
  set_hackrf_configuration, change_configuration, detach_kernel_drivers, detach_each, close_device,
  release_usb,
}
use hackrf.Device.Lifecycle.Serial.{open_by_serial, open_usb, find_serial}
use hackrf.Application.{Use, Act, World, perform, perform_all, use_device}
use hackrf.Application.Consistent.{IsConsistent}
use hackrf.Application.Runs.{perform_all-IsConsistent, perform_all_exits}
use hackrf.Platform.{Platform}
use hackrf.Application.Total.{perform_all_total}
use hackrf.Tests.Platforms.{agree, failed, working, fresh}

abbrev start : World
start = record { library = fresh; devices = [] }

abbrev opening : List Act
opening =
    Act.inits
    ∷ Act.opens
    ∷ Act.uses 0 (Use.starts_rx 5 3)
    ∷ Act.opens_serial (99 ∷ 100 ∷ [])
    ∷ Act.uses 1 (Use.polls (failed ∷ []))
    ∷ Act.uses 0 Use.stops_rx
    ∷ []

abbrev both : World
both = elim (perform_all working Endian.little agree opening start) [ none ↦ start | some w ↦ w ]

abbrev closing : List Act
closing = Act.closes 1 ∷ Act.closes 0 ∷ []

abbrev done : World
done = elim (perform_all working Endian.little agree closing both) [ none ↦ start | some w ↦ w ]

opens_both : perform_all working Endian.little agree opening start ≡ some both
unfolding perform_all perform use_device hackrf_init hackrf_open open_setup setup_claimed
    set_hackrf_configuration detach_kernel_drivers detach_each change_configuration
    allocate_transfers allocate_from start_rx create_transfer_thread start_thread prepare_transfers
    prepare_each open_by_serial open_usb find_serial handle_completions
opens_both = refl

start-IsConsistent : IsConsistent working Endian.little agree start
unfolding live
start-IsConsistent = record { counted = refl; ready = tt; held = λ h nz. refl }

both-IsConsistent : IsConsistent working Endian.little agree both
both-IsConsistent =
    perform_all-IsConsistent working Endian.little agree opening start both (ground arith)
      start-IsConsistent opens_both

closes_both : perform_all working Endian.little agree closing both ≡ some done
unfolding perform_all perform hackrf_close close_device release_usb free_transfers free_each stop_rx
    stop_tx kill_transfer_thread join_thread cancel_transfers cancel_each hackrf_open open_setup
    set_hackrf_configuration setup_claimed open_by_serial
closes_both = refl

perform_all-IsConsistent_example : IsConsistent working Endian.little agree done
perform_all-IsConsistent_example =
    perform_all-IsConsistent working Endian.little agree closing both done (ground arith)
      both-IsConsistent closes_both

closed_both : length done.devices ≡ 0
unfolding perform_all hackrf_open open_setup set_hackrf_configuration setup_claimed open_by_serial
closed_both = refl

perform_all_exits_example :
    ((hackrf_exit done.library).0 ≡ success)
    × ((hackrf_exit done.library).1.context ≡ false)
    × ((h : ℕ) → h ≢ 0 → count h (live working (hackrf_exit done.library).1.log) ≡ 0)
perform_all_exits_example =
    perform_all_exits working Endian.little agree closing both done (ground arith) both-IsConsistent
      closes_both closed_both

-- A platform whose devices have serial numbers of 32 characters, and where a transfer moves as many bytes
-- as it was asked for.
abbrev whole : Platform
whole = record working {
  control_reply = λ log dev r. record { result = pos r.size; received = replicate r.size 97 };
  string_reply = λ log h i. record { result = pos 32; received = replicate 32 97 };
}

-- The version and the CPLD of the first device, with room for 33 bytes.
abbrev reading : List Act
reading =
    Act.inits
    ∷ Act.opens_serial (97 ∷ 97 ∷ [])
    ∷ Act.reads_version 0 (replicate 33 0) 32
    ∷ Act.writes_cpld 0 1000
    ∷ Act.closes_null
    ∷ []

perform_all_total_example :
    (v : World) × (perform_all whole Endian.little agree reading start ≡ some v)
perform_all_total_example =
    perform_all_total whole (λ log h i. (32, refl, omega arith)) (λ log dev r. omega arith)
      Endian.little agree reading start (ground arith)
