-- ===== src/Device/Lifecycle/Closing.antt =====
-- What `hackrf_close` (src/lib/hackrf/hackrf.c) leaves of the globals and the open handles, for any device.
use hackrf.Prelude.{◌≡◌, ◌≢◌, refl, true, false, Option, none, some, [], ◌∷◌, arith}
use hackrf.Errors.{success}
use hackrf.Platform.{Platform, Call}
use hackrf.Platform.Action.{Library}
use hackrf.Platform.Handles.{Quiet, live, lose}
use hackrf.Requests.Registers.{set_transceiver_mode}
use hackrf.Device.{Device}
use hackrf.Device.Transfers.{TransferArray, free_transfers, free_each}
use hackrf.Device.Streaming.{stop_rx, stop_tx, kill_transfer_thread}
use hackrf.Device.Streaming.Calls.{off_request, cancel_log, stop_rx_running}
use hackrf.Device.Streaming.Stopping.{stop_rx-Stopped, stop_tx-Stopped}
use hackrf.Device.Lifecycle.{hackrf_close, close_device, release_usb, count_close}
use hackrf.Device.Lifecycle.Balance.{free_log, hackrf_close-log}

module _ (p : Platform) where
  free_each-Quiet : (ts : TransferArray) (s : Library) → Quiet p s (free_each ts s).1
  unfolding live free_each
  free_each-Quiet [] s = (refl, refl, refl)
  free_each-Quiet (none ∷ ts) s = free_each-Quiet ts s
  free_each-Quiet (some t ∷ ts) s =
      free_each-Quiet ts (record s { log = Call.free_transfer t.address ∷ s.log })

  free_transfers-Quiet : (d : Device) (s : Library) → Quiet p s (free_transfers d s).1
  unfolding live free_transfers
  free_transfers-Quiet d s = go d.transfers refl
    where
      go : (o : Option TransferArray) → d.transfers ≡ o → Quiet p s (free_transfers d s).1
      go none e = ground arith
      go (some ts) e = ground (arith, free_each-Quiet ts s)

  release_usb-loses :
      (d : Device) (s : Library)
      → let t = (release_usb p d s).1 in
        (t.open_devices ≡ s.open_devices)
        × (t.context ≡ s.context)
        × (live p t.log ≡ lose d.usb_device (live p s.log))
        × ((release_usb p d s).0.transfers ≡ d.transfers)
  unfolding live lose release_usb
  release_usb-loses d s = ground arith

  -- Closing a device, whatever it holds, counts one device less and closes its handle.
  pub hackrf_close-loses :
      (d : Device) (s : Library)
      → let t = (hackrf_close p (some d) s).1 in
        (t.open_devices ≡ count_close s.open_devices)
        × (t.context ≡ s.context)
        × (live p t.log ≡ lose d.usb_device (live p s.log))
  unfolding live hackrf_close close_device
  hackrf_close-loses d s =
      let r1 = stop_rx p d s in
      let r2 = stop_tx p r1.0.1 r1.1 in
      let r3 = release_usb p r2.0.1 r2.1 in
      ground (
        arith,
        stop_rx-Stopped p d s,
        stop_tx-Stopped p r1.0.1 r1.1,
        release_usb-loses r2.0.1 r2.1,
        free_transfers-Quiet r3.0 r3.1,
      )

  -- Without a thread, stopping only turns the transceiver off.
  stop_tx_idle :
      (d : Device) (s : Library)
      → d.transfer_thread_started ≡ false
      → (stop_tx p d s).1.log ≡ Call.control_transfer d.usb_device off_request ∷ s.log
  unfolding stop_tx kill_transfer_thread set_transceiver_mode
  stop_tx_idle d s e = ground arith

  -- Closing a device that streams, where the thread is joined, makes these calls and no other: the
  -- transceiver is turned off, the thread joined and every transfer cancelled; the transceiver is
  -- turned off once more, the interface released and the handle closed; then every transfer is freed,
  -- and what held them. Between cancelling and freeing, libusb handles no events.
  pub hackrf_close_running :
      (d : Device) (ts : TransferArray) (s : Library)
      → d.transfer_thread_started ≡ true
      → d.transfers ≡ some ts
      → d.usb_device ≢ 0
      → (stop_rx p d s).0.0 ≡ success
      → let h = d.usb_device in
        let off = Call.control_transfer h off_request in
        (hackrf_close p (some d) s).1.log
        ≡ Call.free_device
          ∷ Call.free_transfer_array
          ∷ free_log ts (
              Call.close h
              ∷ Call.release_interface h 0
              ∷ off
              ∷ cancel_log ts (Call.pthread_join ∷ off ∷ s.log))
  hackrf_close_running d ts s started has handle stopped =
      let r1 = stop_rx p d s in
      let h = d.usb_device in
      let done = stop_rx_running p d ts s started has stopped in
      let idle : (stop_tx p r1.0.1 r1.1).1.log ≡ Call.control_transfer h off_request ∷ r1.1.log =
        ground (arith, stop_tx_idle r1.0.1 r1.1, done.0) in
      rw (hackrf_close-log p d ts s has handle, idle, done.2) refl
