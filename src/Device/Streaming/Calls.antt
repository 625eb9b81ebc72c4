-- ===== src/Device/Streaming/Calls.antt =====
-- The calls that start and stop streaming (src/lib/hackrf/hackrf.c), on every branch.
use hackrf.Prelude.{
  ℕ, ◌≡◌, ◌↔◌, true, false, none, some, List, [], ◌∷◌, refl, ◌⊎◌, if◌then◌else◌, arith,
}
use hackrf.Prelude.Int.{is_zero}
use hackrf.Errors.{
  success, hackrf_true, busy, libusb, streaming_thread_err, streaming_stopped,
  streaming_exit_called,
}
use hackrf.Platform.{Platform, Call, ControlRequest, ControlReply, VendorRequest}
use hackrf.Platform.Action.{Library, request_out}
use hackrf.Requests.Registers.{TransceiverMode, set_transceiver_mode}
use hackrf.Device.{Device, request_exit}
use hackrf.Device.Ready.{prepare_transfers_frame}
use hackrf.Device.Transfers.{TransferArray, cancel_each, cancel_transfers}
use hackrf.Device.Streaming.{
  is_streaming, create_transfer_thread, start_thread, kill_transfer_thread, join_thread, start_rx,
  start_tx, stop_rx,
}

-- `hackrf_is_streaming` says HACKRF_TRUE exactly when the thread has been started, streaming is on
-- and no exit was requested; otherwise it names the first of these that fails, in that order.
is_streaming_iff :
    (d : Device)
    → ((is_streaming d ≡ hackrf_true)
        ↔ ((d.transfer_thread_started ≡ true) × (d.streaming ≡ true) × (d.do_exit ≡ false)))
      × ((is_streaming d ≡ streaming_thread_err) ↔ (d.transfer_thread_started ≡ false))
      × ((is_streaming d ≡ streaming_stopped)
          ↔ ((d.transfer_thread_started ≡ true) × (d.streaming ≡ false)))
      × ((is_streaming d ≡ streaming_exit_called)
          ↔ ((d.transfer_thread_started ≡ true) × (d.streaming ≡ true) × (d.do_exit ≡ true)))
unfolding is_streaming
is_streaming_iff d = ground arith

abbrev pub receive_request : ControlRequest
receive_request = request_out VendorRequest.set_transceiver_mode 1 0 [] 0

abbrev pub off_request : ControlRequest
off_request = request_out VendorRequest.set_transceiver_mode 0 0 [] 0

-- What the device answers to the change of mode of `hackrf_start_rx`.
abbrev pub mode_answer : Platform → Device → Library → ControlReply
mode_answer p d s = p.control_reply s.log d.usb_device receive_request

-- A log after every transfer of an array has been cancelled in order, newest first.
abbrev pub cancel_log : TransferArray → List Call → List Call
cancel_log [] log = log
cancel_log (none ∷ ts) log = cancel_log ts log
cancel_log (some t ∷ ts) log = cancel_log ts (Call.cancel_transfer t.address ∷ log)

module _ (p : Platform) where
  create_success :
      (d : Device) (endpoint callback : ℕ) (s : Library)
      → (create_transfer_thread p d endpoint callback s).0.0 ≡ success
      → let u = (create_transfer_thread p d endpoint callback s).0.1 in
        (is_streaming u ≡ hackrf_true)
        × (u.callback ≡ callback)
        × (u.rx_ctx ≡ d.rx_ctx)
        × (u.tx_ctx ≡ d.tx_ctx)
        × (d.transfer_thread_started ≡ false)
  unfolding create_transfer_thread start_thread is_streaming
  create_success d endpoint callback s e = ground (
    arith,
    prepare_transfers_frame p (record d { streaming = false; do_exit = false }) endpoint s,
  )

  -- A start of receiving that succeeds leaves the device streaming to the callback with its
  -- context, and the thread had not been running.
  pub start_rx-is_streaming :
      (d : Device) (callback rx_ctx : ℕ) (s : Library)
      → (start_rx p d callback rx_ctx s).0.0 ≡ success
      → let u = (start_rx p d callback rx_ctx s).0.1 in
        (is_streaming u ≡ hackrf_true)
        × (u.callback ≡ callback)
        × (u.rx_ctx ≡ rx_ctx)
        × (u.tx_ctx ≡ d.tx_ctx)
        × (d.transfer_thread_started ≡ false)
  unfolding start_rx set_transceiver_mode
  start_rx-is_streaming d callback rx_ctx s e = ground (
    arith,
    create_success (record d { rx_ctx = rx_ctx }) 0x81 callback
        (set_transceiver_mode p d.usb_device TransceiverMode.receive s).1,
  )

  -- The same for sending.
  start_tx-is_streaming :
      (d : Device) (callback tx_ctx : ℕ) (s : Library)
      → (start_tx p d callback tx_ctx s).0.0 ≡ success
      → let u = (start_tx p d callback tx_ctx s).0.1 in
        (is_streaming u ≡ hackrf_true)
        × (u.callback ≡ callback)
        × (u.tx_ctx ≡ tx_ctx)
        × (u.rx_ctx ≡ d.rx_ctx)
        × (d.transfer_thread_started ≡ false)
  unfolding start_tx set_transceiver_mode
  start_tx-is_streaming d callback tx_ctx s e = ground (
    arith,
    create_success (record d { tx_ctx = tx_ctx }) 2 callback
        (set_transceiver_mode p d.usb_device TransceiverMode.transmit s).1,
  )

  -- While the thread runs, another start is refused, with the code for a busy device unless already
  -- the change of mode fails. The stream goes on as it was, and no transfer is submitted: only the
  -- context of the caller may have been replaced.
  start_rx_running :
      (d : Device) (callback rx_ctx : ℕ) (s : Library)
      → d.transfer_thread_started ≡ true
      → let r = start_rx p d callback rx_ctx s in
        let a = mode_answer p d s in
        (r.0.0 ≡ (if is_zero a.result then busy else libusb))
        × (r.0.1 ≡ (if is_zero a.result then record d { rx_ctx = rx_ctx } else d))
        × (is_streaming r.0.1 ≡ is_streaming d)
        × (r.1.log ≡ Call.control_transfer d.usb_device receive_request ∷ s.log)
  unfolding start_rx set_transceiver_mode create_transfer_thread is_streaming
  start_rx_running d callback rx_ctx s e = ground arith

  -- However it ends, after a start the thread runs exactly if it ran before or the start succeeded.
  start_rx_thread :
      (d : Device) (callback rx_ctx : ℕ) (s : Library)
      → let r = start_rx p d callback rx_ctx s in
        (r.0.1.transfer_thread_started ≡ true)
        ↔ ((d.transfer_thread_started ≡ true) ⊎ (r.0.0 ≡ success))
  unfolding start_rx set_transceiver_mode create_transfer_thread start_thread
  start_rx_thread d callback rx_ctx s = ground (
    arith,
    prepare_transfers_frame p (record d { rx_ctx = rx_ctx; streaming = false; do_exit = false })
        0x81 (set_transceiver_mode p d.usb_device TransceiverMode.receive s).1,
  )

  cancel_each-log :
      (ts : TransferArray) (s : Library)
      → cancel_each ts s ≡ (tt, record s { log = cancel_log ts s.log })
  unfolding cancel_each
  cancel_each-log [] s = refl
  cancel_each-log (none ∷ ts) s = cancel_each-log ts s
  cancel_each-log (some t ∷ ts) s =
      cancel_each-log ts (record s { log = Call.cancel_transfer t.address ∷ s.log })

  -- A stop that succeeds on a running device has turned the transceiver off, joined the thread and
  -- then cancelled every transfer, in this order and each once; the device is marked for exit and
  -- no longer streams.
  pub stop_rx_running :
      (d : Device) (ts : TransferArray) (s : Library)
      → d.transfer_thread_started ≡ true
      → d.transfers ≡ some ts
      → (stop_rx p d s).0.0 ≡ success
      → ((stop_rx p d s).0.1 ≡ record d { do_exit = true; transfer_thread_started = false })
        × (is_streaming (stop_rx p d s).0.1 ≡ streaming_thread_err)
        × ((stop_rx p d s).1.log
            ≡ cancel_log ts
                (Call.pthread_join ∷ Call.control_transfer d.usb_device off_request ∷ s.log))
  unfolding stop_rx set_transceiver_mode kill_transfer_thread join_thread request_exit
      cancel_transfers is_streaming
  stop_rx_running d ts s started has e = ground (
    arith,
    cancel_each-log ts (record s {
      log = Call.pthread_join ∷ Call.control_transfer d.usb_device off_request ∷ s.log;
    }),
  )
