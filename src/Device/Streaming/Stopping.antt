-- ===== src/Device/Streaming/Stopping.antt =====
-- What the calls that stop streaming (src/lib/hackrf/hackrf.c) leave alone.
use hackrf.Prelude.{◌≡◌, refl, true, false, Option, none, some, [], ◌∷◌, arith}
use hackrf.Errors.{HackrfError}
use hackrf.Platform.{Platform, Call}
use hackrf.Platform.Action.{Library}
use hackrf.Platform.Handles.{Quiet, live}
use hackrf.Requests.Registers.{TransceiverMode, set_transceiver_mode}
use hackrf.Device.{Device, request_exit}
use hackrf.Device.Transfers.{TransferArray, cancel_each, cancel_transfers}
use hackrf.Device.Streaming.{kill_transfer_thread, join_thread, stop_rx, stop_tx}

module _ (p : Platform) where
  -- What a call that stops streaming leaves alone: the handle, the transfers, and the globals.
  abbrev pub Stopped : Device → Library → (HackrfError × Device) × Library → Type 0
  Stopped d s ((e, u), t) =
      (u.usb_device ≡ d.usb_device) × (u.transfers ≡ d.transfers) × Quiet p s t

  cancel_each-Quiet : (ts : TransferArray) (s : Library) → Quiet p s (cancel_each ts s).1
  unfolding live cancel_each
  cancel_each-Quiet [] s = (refl, refl, refl)
  cancel_each-Quiet (none ∷ ts) s = cancel_each-Quiet ts s
  cancel_each-Quiet (some t ∷ ts) s =
      cancel_each-Quiet ts (record s { log = Call.cancel_transfer t.address ∷ s.log })

  cancel_transfers-Quiet : (d : Device) (s : Library) → Quiet p s (cancel_transfers d s).1
  unfolding live cancel_transfers
  cancel_transfers-Quiet d s = go d.transfers refl
    where
      go : (o : Option TransferArray) → d.transfers ≡ o → Quiet p s (cancel_transfers d s).1
      go none e = ground arith
      go (some ts) e = ground (arith, cancel_each-Quiet ts s)

  kill_transfer_thread-Stopped :
      (d : Device) (s : Library) → Stopped d s (kill_transfer_thread p d s)
  unfolding live kill_transfer_thread join_thread request_exit
  kill_transfer_thread-Stopped d s = ground (
    arith,
    cancel_transfers-Quiet (record d { do_exit = true; transfer_thread_started = false })
        (record s { log = Call.pthread_join ∷ s.log }),
  )

  pub stop_rx-Stopped : (d : Device) (s : Library) → Stopped d s (stop_rx p d s)
  unfolding live stop_rx set_transceiver_mode
  stop_rx-Stopped d s = ground (
    arith,
    kill_transfer_thread-Stopped d (set_transceiver_mode p d.usb_device TransceiverMode.off s).1,
  )

  pub stop_tx-Stopped : (d : Device) (s : Library) → Stopped d s (stop_tx p d s)
  unfolding live stop_tx set_transceiver_mode
  stop_tx-Stopped d s = ground (
    arith,
    kill_transfer_thread-Stopped d (set_transceiver_mode p d.usb_device TransceiverMode.off s).1,
  )

  kill-do_exit : (d : Device) (s : Library) → (kill_transfer_thread p d s).0.1.do_exit ≡ true
  unfolding kill_transfer_thread join_thread request_exit
  kill-do_exit d s = ground arith

  -- A stop does not take back a request to exit.
  pub stop_rx-do_exit :
      (d : Device) (s : Library) → d.do_exit ≡ true → (stop_rx p d s).0.1.do_exit ≡ true
  unfolding stop_rx
  stop_rx-do_exit d s e =
      ground (arith, kill-do_exit d (set_transceiver_mode p d.usb_device TransceiverMode.off s).1)

  pub stop_tx-do_exit :
      (d : Device) (s : Library) → d.do_exit ≡ true → (stop_tx p d s).0.1.do_exit ≡ true
  unfolding stop_tx
  stop_tx-do_exit d s e =
      ground (arith, kill-do_exit d (set_transceiver_mode p d.usb_device TransceiverMode.off s).1)
