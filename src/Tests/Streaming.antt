-- ===== src/Tests/Streaming.antt =====
-- The device at concrete states: streaming and stopping.
use hackrf.Prelude.{◌≡◌, refl, inl, false, some, [], ◌∷◌, not, ◌&&◌, arith}
use hackrf.Errors.{success}
use hackrf.Platform.{Call}
use hackrf.Requests.Registers.{set_transceiver_mode}
use hackrf.Device.{Device}
use hackrf.Device.Ready.{IsReady}
use hackrf.Device.Transfers.{prepare_each, prepare_transfers}
use hackrf.Device.Streaming.{
  create_transfer_thread, start_thread, start_rx, stop_rx, transfer_callback, handle_completions,
  transfer_threadproc,
}
use hackrf.Device.Streaming.Loop.{transfer_threadproc_ends}
use hackrf.Device.Streaming.Machine.{Step, Reach, here, next, Reach-IsReady}
use hackrf.Tests.Platforms.{agree, failed, working, fresh, idle, streaming}

start_succeeds : (start_rx working idle 5 3 fresh).0.0 ≡ success
unfolding start_rx create_transfer_thread start_thread prepare_transfers prepare_each
    set_transceiver_mode
start_succeeds = refl

transfer_threadproc_ends_example :
    (u : Device) × ((transfer_threadproc working agree streaming ((failed ∷ []) ∷ []) fresh).0
      ≡ some u)
    × ((u.streaming && not u.do_exit) ≡ false)
    × ((transfer_threadproc working agree streaming ((failed ∷ []) ∷ []) fresh).1
        ≡ (handle_completions working agree streaming
            (failed ∷ [])
            (record fresh { log = Call.handle_events ∷ [] })).1)
transfer_threadproc_ends_example =
    transfer_threadproc_ends working agree (failed ∷ []) [] streaming fresh (inl (inl refl))

-- A start, then a transfer that fails, then a stop.
abbrev started : Device
started = (start_rx working idle 5 3 fresh).0.1

abbrev exiting : Device
exiting = (transfer_callback working agree started failed fresh).0

abbrev stopped : Device
stopped = (stop_rx working exiting fresh).0.1

start_fail_stop : Reach working agree idle stopped
start_fail_stop =
    next (next (next here (Step.starts_rx 5 3 fresh refl)) (Step.completes failed fresh refl))
      (Step.stops_rx fresh refl)

idle-IsReady : IsReady idle
idle-IsReady = ground arith

Reach-IsReady_example : IsReady stopped × (stopped.usb_device ≡ 7)
Reach-IsReady_example = Reach-IsReady working agree start_fail_stop idle-IsReady

-- The thread meets the error, the application stops, and starts again.
abbrev restarted : Device
restarted = (start_rx working stopped 5 3 fresh).0.1
