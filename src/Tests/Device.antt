-- ===== src/Tests/Device.antt =====
-- The device at concrete states: opening and closing.
use hackrf.Prelude.{ℕ, ◌≡◌, ◌≤◌, ◌≢◌, refl, ◌⊎◌, true, none, Option, some, List, [], ◌∷◌, arith}
use hackrf.Errors.{HackrfError, success, not_last_device, not_found}
use hackrf.Platform.{Call}
use hackrf.Platform.Action.{Library}
use hackrf.Requests.Registers.{set_transceiver_mode}
use hackrf.Device.{Device}
use hackrf.Device.Transfers.{allocate_from, allocate_transfers}
use hackrf.Device.Streaming.{stop_rx, kill_transfer_thread, join_thread}
use hackrf.Platform.Handles.{Quiet, live, lose}
use hackrf.Device.Streaming.Calls.{off_request, cancel_log}
use hackrf.Device.Lifecycle.{
  hackrf_open, hackrf_close, hackrf_exit, open_setup, setup_claimed, set_hackrf_configuration,
  change_configuration, detach_kernel_drivers, detach_each,
}
use hackrf.Device.Lifecycle.Setup.{Ends, Opens, open_setup-Ends}
use hackrf.Device.Lifecycle.Balance.{
  find_handle, product_order, free_log, hackrf_open-Opens, hackrf_close-releases,
}
use hackrf.Device.Lifecycle.Closing.{hackrf_close_running}
use hackrf.Device.Lifecycle.Serial.{open_by_serial, open_usb, find_serial}
use hackrf.Device.Lifecycle.Serial.Matches.{Matched, open_by_serial-Opens}
use hackrf.Device.Lifecycle.Exit.{open-close_balance, hackrf_close_null}
use hackrf.Tests.Platforms.{working, fresh, transfers, idle, streaming}

-- What `hackrf_open` leaves behind.
abbrev opened_library : Library
opened_library = (hackrf_open working true fresh).1

open_idle : hackrf_open working true fresh ≡ ((success, some idle), opened_library)
unfolding hackrf_open open_setup setup_claimed set_hackrf_configuration detach_kernel_drivers
    detach_each change_configuration allocate_transfers allocate_from
open_idle = refl

open_setup-Ends_example : Ends working 7 fresh (open_setup working 7 fresh)
open_setup-Ends_example = open_setup-Ends working 7 fresh

hackrf_open-Opens_example :
    let h = find_handle working product_order [] in
    ((h ≡ 0)
      × ((hackrf_open working true fresh).0 ≡ (not_found, none))
      × Quiet working fresh (hackrf_open working true fresh).1)
    ⊎ ((h ≢ 0) × Opens working h fresh (hackrf_open working true fresh))
hackrf_open-Opens_example = hackrf_open-Opens working fresh

open-close_balance_example :
    let u = (hackrf_close working (some idle) opened_library).1 in
    (u.open_devices ≡ 0)
    × (u.context ≡ true)
    × ((hackrf_exit u).0 ≡ (hackrf_exit fresh).0)
    × (live working u.log ≡ [])
unfolding live
open-close_balance_example =
    open-close_balance working fresh opened_library idle (omega arith) open_idle

hackrf_close-releases_example :
    let t = (hackrf_close working (some streaming) fresh).1 in
    (log : List Call) × (t.log
      ≡ Call.free_device
        ∷ Call.free_transfer_array
        ∷ free_log transfers (Call.close 7 ∷ Call.release_interface 7 0 ∷ log))
    × (t.open_devices ≡ 65535)
    × (t.context ≡ true)
    × (live working t.log ≡ lose 7 [])
unfolding live
hackrf_close-releases_example =
    hackrf_close-releases working streaming transfers fresh refl (ground arith)

hackrf_close_null_example :
    let u = (hackrf_close working none fresh).1 in
    ((hackrf_close working none fresh).0 ≡ success)
    × (u.open_devices ≡ 65535)
    × (hackrf_exit u ≡ (not_last_device, u))
hackrf_close_null_example = hackrf_close_null working fresh refl

stop_succeeds : (stop_rx working streaming fresh).0.0 ≡ success
unfolding stop_rx set_transceiver_mode kill_transfer_thread join_thread
stop_succeeds = refl

hackrf_close_running_example :
    let off = Call.control_transfer 7 off_request in
    (hackrf_close working (some streaming) fresh).1.log
    ≡ Call.free_device
      ∷ Call.free_transfer_array
      ∷ free_log transfers (
          Call.close 7
          ∷ Call.release_interface 7 0
          ∷ off
          ∷ cancel_log transfers (Call.pthread_join ∷ off ∷ []))
hackrf_close_running_example =
    hackrf_close_running working streaming transfers fresh refl refl (ground arith) stop_succeeds

abbrev opened : HackrfError × Option Device
opened = (success, some idle)

-- The device of the working platform has the serial number "abcd", which ends in "cd".
found_by_serial :
    (open_by_serial working (some (99 ∷ 100 ∷ [])) true fresh).0 ≡ some (success, some idle)
unfolding open_by_serial open_usb find_serial open_setup setup_claimed set_hackrf_configuration
    detach_kernel_drivers detach_each change_configuration allocate_transfers allocate_from
found_by_serial = refl

open_by_serial-Opens_example :
    let t = (open_by_serial working (some (99 ∷ 100 ∷ [])) true fresh).1 in
    ((opened ≡ (not_found, none)) × Quiet working fresh t)
    ⊎ ((handle : ℕ) × (handle ≢ 0)
        × (2 ≤ 32)
        × Matched working (99 ∷ 100 ∷ []) (1 ∷ []) handle
        × Opens working handle fresh ((success, some idle), t))
open_by_serial-Opens_example =
    open_by_serial-Opens working (99 ∷ 100 ∷ []) fresh (success, some idle) found_by_serial
