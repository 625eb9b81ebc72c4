-- ===== src/Device/Streaming/Machine.antt =====
-- Any interleaving of the application's calls with the streaming thread (src/lib/hackrf/hackrf.c). A
-- step is taken in any state of the library, so that what other devices do is covered too.
use hackrf.Prelude.{ℕ, ◌≡◌, refl, ◌⊎◌, true, false, ◌∙◌, arith}
use hackrf.Prelude.Int.{ℤ}
use hackrf.Platform.{Platform}
use hackrf.Platform.Action.{Library}
use hackrf.Requests.Registers.{TransceiverMode, set_transceiver_mode}
use hackrf.Device.{Device, request_exit}
use hackrf.Device.Ready.{IsReady, prepare_transfers-IsReady, prepare_transfers_frame}
use hackrf.Device.Streaming.{
  HackrfTransfer, Completion, create_transfer_thread, start_thread, start_rx, start_tx, stop_rx,
  stop_tx, transfer_callback,
}
use hackrf.Device.Streaming.Loop.{transfer_callback-eq}
use hackrf.Device.Streaming.Stopping.{
  stop_rx-Stopped, stop_tx-Stopped, stop_rx-do_exit, stop_tx-do_exit,
}

module _ (p : Platform) (user : ℕ → HackrfTransfer → ℤ) where
  pub data Step (d u : Device) : Type 0 where
    starts_rx : (callback ctx : ℕ) (s : Library) → u ≡ (start_rx p d callback ctx s).0.1 → Step d u
    starts_tx : (callback ctx : ℕ) (s : Library) → u ≡ (start_tx p d callback ctx s).0.1 → Step d u
    stops_rx : (s : Library) → u ≡ (stop_rx p d s).0.1 → Step d u
    stops_tx : (s : Library) → u ≡ (stop_tx p d s).0.1 → Step d u
    -- A stop asks the thread to exit. What the thread still does while the stop waits for it are further
    -- steps, and `stops_rx` or `stops_tx` is then the rest of the stop.
    asks_exit : u ≡ request_exit d → Step d u
    -- The thread runs the callback of a finished transfer.
    completes : (c : Completion) (s : Library) → u ≡ (transfer_callback p user d c s).0 → Step d u
    -- The thread meets an error in `libusb_handle_events_timeout`.
    fails : u ≡ record d { streaming = false } → Step d u

  pub data Reach (d : Device) : Device → Type 0 where
    here : Reach d d
    next : {u v : Device} → Reach d u → Step u v → Reach d v

  create-IsReady :
      (d : Device) (endpoint callback : ℕ) (s : Library)
      → IsReady d
      → let u = (create_transfer_thread p d endpoint callback s).0.1 in
        IsReady u × (u.usb_device ≡ d.usb_device)
  unfolding create_transfer_thread start_thread
  create-IsReady d endpoint callback s r =
      let e : Device = record d { streaming = false; do_exit = false } in
      ground
        (arith, prepare_transfers-IsReady p e endpoint s, prepare_transfers_frame p e endpoint s)

  start_rx-IsReady :
      (d : Device) (callback ctx : ℕ) (s : Library)
      → IsReady d
      → let u = (start_rx p d callback ctx s).0.1 in IsReady u × (u.usb_device ≡ d.usb_device)
  unfolding start_rx
  start_rx-IsReady d callback ctx s r = ground (
    arith,
    create-IsReady (record d { rx_ctx = ctx }) 0x81 callback
        (set_transceiver_mode p d.usb_device TransceiverMode.receive s).1,
  )

  start_tx-IsReady :
      (d : Device) (callback ctx : ℕ) (s : Library)
      → IsReady d
      → let u = (start_tx p d callback ctx s).0.1 in IsReady u × (u.usb_device ≡ d.usb_device)
  unfolding start_tx
  start_tx-IsReady d callback ctx s r = ground (
    arith,
    create-IsReady (record d { tx_ctx = ctx }) 2 callback
        (set_transceiver_mode p d.usb_device TransceiverMode.transmit s).1,
  )

  request_exit_frame :
      (d : Device)
      → ((request_exit d).transfers ≡ d.transfers) × ((request_exit d).usb_device ≡ d.usb_device)
  unfolding request_exit
  request_exit_frame d = (refl, refl)

  Step-IsReady : {d u : Device} → Step d u → IsReady d → IsReady u × (u.usb_device ≡ d.usb_device)
  Step-IsReady {d} (starts_rx callback ctx s e) r =
      ground (arith, start_rx-IsReady d callback ctx s r)
  Step-IsReady {d} (starts_tx callback ctx s e) r =
      ground (arith, start_tx-IsReady d callback ctx s r)
  Step-IsReady {d} (stops_rx s e) r = ground (arith, stop_rx-Stopped p d s)
  Step-IsReady {d} (stops_tx s e) r = ground (arith, stop_tx-Stopped p d s)
  Step-IsReady {d} (asks_exit e) r = ground (arith, request_exit_frame d)
  Step-IsReady {d} (completes c s e) r = ground (arith, transfer_callback-eq p user d c s)
  Step-IsReady (fails e) r = ground arith

  -- Whatever the application and the thread do, and whatever libusb answers, an open device keeps
  -- its handle and its four transfers, none NULL, each with its own quarter of the buffer.
  pub Reach-IsReady :
      {d u : Device} → Reach d u → IsReady d → IsReady u × (u.usb_device ≡ d.usb_device)
  Reach-IsReady here r = (r, refl)
  Reach-IsReady (next w st) r =
      let (ready, same) = Reach-IsReady w r in
      let (ready', same') = Step-IsReady st ready in (ready', same' ∙ same)

  create_running :
      (d : Device) (endpoint callback : ℕ) (s : Library)
      → d.transfer_thread_started ≡ true
      → (create_transfer_thread p d endpoint callback s).0.1 ≡ d
  unfolding create_transfer_thread
  create_running d endpoint callback s e = ground arith

  -- A request to exit stays: whatever happens to a device whose thread runs and is to exit, either
  -- the thread has been joined, or it still is to exit. No start can take the request back.
  Step-do_exit :
      {d u : Device}
      → Step d u
      → d.transfer_thread_started ≡ true
      → d.do_exit ≡ true
      → (u.transfer_thread_started ≡ false) ⊎ (u.do_exit ≡ true)
  unfolding start_rx start_tx request_exit
  Step-do_exit {d} (starts_rx callback ctx s e) started exits = ground (
    arith,
    create_running (record d { rx_ctx = ctx }) 0x81 callback
        (set_transceiver_mode p d.usb_device TransceiverMode.receive s).1 started,
  )
  Step-do_exit {d} (starts_tx callback ctx s e) started exits = ground (
    arith,
    create_running (record d { tx_ctx = ctx }) 2 callback
        (set_transceiver_mode p d.usb_device TransceiverMode.transmit s).1 started,
  )
  Step-do_exit {d} (stops_rx s e) started exits = ground (arith, stop_rx-do_exit p d s)
  Step-do_exit {d} (stops_tx s e) started exits = ground (arith, stop_tx-do_exit p d s)
  Step-do_exit {d} (completes c s e) started exits =
      ground (arith, transfer_callback-eq p user d c s)
  Step-do_exit (asks_exit e) started exits = ground arith
  Step-do_exit (fails e) started exits = ground arith
