-- ===== src/Device/Streaming.antt =====
-- src/lib/hackrf/hackrf.c: the streaming thread, its start and its end.
pub mod Calls
pub mod Loop
pub mod Stopping
pub mod Machine
pub mod Status
pub mod Quiet
pub mod Flight
use hackrf.Prelude.{
  ℕ, Bool, true, false, Option, none, some, List, [], ◌∷◌, not, ◌&&◌, ◌==◌, if◌then◌else◌,
}
use hackrf.Prelude.Int.{ℤ, pos, negsuc, is_zero, lt_nat}
use hackrf.Errors.{
  HackrfError, success, hackrf_true, thread, busy, streaming_thread_err, streaming_stopped,
  streaming_exit_called,
}
use hackrf.Platform.{Platform, Call}
use hackrf.Platform.Action.{Action, ◌>>=◌, ◌>>◌, pure, ask}
use hackrf.Requests.Registers.{TransceiverMode, set_transceiver_mode}
use hackrf.Device.{Device, Transfer, request_exit}
use hackrf.Device.Transfers.{cancel_transfers, prepare_transfers}

unfoldable pub is_streaming : Device → HackrfError
is_streaming device =
    if device.transfer_thread_started && (device.streaming && not device.do_exit)
    then hackrf_true
    else if not device.transfer_thread_started
    then streaming_thread_err
    else if not device.streaming
    then streaming_stopped
    else streaming_exit_called

-- What the user's callback sees, `hackrf_transfer`; its `device` is the device itself.
pub record HackrfTransfer : Type 0 where
  pub buffer : ℕ
  pub buffer_length : ℕ
  pub valid_length : ℕ
  pub rx_ctx : ℕ
  pub tx_ctx : ℕ

-- A finished transfer: whether its status is LIBUSB_TRANSFER_COMPLETED, and `actual_length`.
pub record Completion : Type 0 where
  pub transfer : Transfer
  pub completed : Bool
  pub actual_length : ℕ

-- `error != 0 && error != LIBUSB_ERROR_INTERRUPTED`, which is -10.
abbrev pub fatal : ℤ → Bool
fatal (pos n) = not (n == 0)
fatal (negsuc n) = not (n == 9)

module _ (p : Platform) where
  -- `if (libusb_submit_transfer(usb_transfer) < 0) request_exit(device);`
  resubmit : Device → Transfer → Action Device
  unfolding request_exit
  resubmit device t = do
    r ← ask (Call.submit_transfer t.address) (λ log. p.submit log t.address)
    pure (if lt_nat r 0 then request_exit device else device)

  -- `user` runs the application's callback, by its address.
  unfoldable pub transfer_callback : (ℕ → HackrfTransfer → ℤ) → Device → Completion → Action Device
  unfolding request_exit resubmit
  transfer_callback user device done =
      let t = done.transfer in
      let view : HackrfTransfer = record {
        buffer = t.buffer;
        buffer_length = t.size;
        valid_length = done.actual_length;
        rx_ctx = device.rx_ctx;
        tx_ctx = device.tx_ctx;
      } in
      if done.completed && is_zero (user device.callback view)
      then resubmit device t
      else pure (request_exit device)

  -- The completions that one call of `libusb_handle_events_timeout` delivers.
  unfoldable pub handle_completions :
      (ℕ → HackrfTransfer → ℤ) → Device → List Completion → Action Device
  unfolding transfer_callback
  handle_completions user device [] = pure device
  handle_completions user device (c ∷ cs) = do
    d ← transfer_callback user device c
    handle_completions user d cs

  -- `transfer_threadproc`, with the completions of each round. `none` means that the rounds ran
  -- out while the loop still runs.
  unfoldable pub transfer_threadproc :
      (ℕ → HackrfTransfer → ℤ) → Device → List (List Completion) → Action (Option Device)
  unfolding handle_completions
  transfer_threadproc user device [] =
      pure (if device.streaming && not device.do_exit then none else some device)
  transfer_threadproc user device (cs ∷ rounds) = elim (device.streaming && not device.do_exit) [
    | false ↦ pure (some device)
    | true ↦ do
      error ← ask Call.handle_events p.events
      d ← handle_completions user device cs
      transfer_threadproc user (if fatal error then record d { streaming = false } else d) rounds
  ]

  -- After `request_exit`, where the thread runs: `pthread_join` at the moment at which the thread has
  -- ended. The rounds that the thread still runs while the caller waits are given as steps before, after
  -- `asks_exit` in Streaming/Machine and Streaming/Flight/Session.
  unfoldable pub join_thread : Device → Action (HackrfError × Device)
  join_thread d = do
    result ← ask Call.pthread_join p.join_thread
    let e = record d { transfer_thread_started = false }
    if is_zero result then (cancel_transfers e >> pure (success, e)) else pure (thread, d)

  unfoldable pub kill_transfer_thread : Device → Action (HackrfError × Device)
  unfolding request_exit join_thread
  kill_transfer_thread device =
      let d = request_exit device in
      if device.transfer_thread_started then join_thread d else pure (success, d)

  -- After the transfers are prepared.
  unfoldable pub start_thread : ℕ → Device → Action (HackrfError × Device)
  start_thread callback device = do
    let d = record device { streaming = true; callback = callback }
    result ← ask Call.pthread_create p.create_thread
    pure (
        if is_zero result
        then (success, record d { transfer_thread_started = true })
        else (thread, d))

  unfoldable pub create_transfer_thread : Device → ℕ → ℕ → Action (HackrfError × Device)
  unfolding start_thread prepare_transfers
  create_transfer_thread device endpoint_address callback =
      if device.transfer_thread_started then pure (busy, device) else do
        let d = record device { streaming = false; do_exit = false }
        r ← prepare_transfers p d endpoint_address
        elim r.0 [ success ↦ start_thread callback r.1 | e ↦ pure (e, r.1) ]

  -- LIBUSB_ENDPOINT_IN | 1
  unfoldable pub start_rx : Device → ℕ → ℕ → Action (HackrfError × Device)
  unfolding create_transfer_thread set_transceiver_mode
  start_rx device callback rx_ctx = do
    result ← set_transceiver_mode p device.usb_device TransceiverMode.receive
    elim result [
      | success ↦ create_transfer_thread (record device { rx_ctx = rx_ctx }) 0x81 callback
      | e ↦ pure (e, device)
    ]

  -- LIBUSB_ENDPOINT_OUT | 2
  unfoldable pub start_tx : Device → ℕ → ℕ → Action (HackrfError × Device)
  unfolding create_transfer_thread set_transceiver_mode
  start_tx device callback tx_ctx = do
    result ← set_transceiver_mode p device.usb_device TransceiverMode.transmit
    elim result [
      | success ↦ create_transfer_thread (record device { tx_ctx = tx_ctx }) 2 callback
      | e ↦ pure (e, device)
    ]

  unfoldable pub stop_rx : Device → Action (HackrfError × Device)
  unfolding kill_transfer_thread set_transceiver_mode
  stop_rx device = do
    result ← set_transceiver_mode p device.usb_device TransceiverMode.off
    elim result [ success ↦ kill_transfer_thread device | e ↦ pure (e, device) ]

  unfoldable pub stop_tx : Device → Action (HackrfError × Device)
  unfolding kill_transfer_thread set_transceiver_mode
  stop_tx device = do
    result ← set_transceiver_mode p device.usb_device TransceiverMode.off
    elim result [ success ↦ kill_transfer_thread device | e ↦ pure (e, device) ]
