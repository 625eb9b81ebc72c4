-- ===== src/Device/Streaming/Quiet.antt =====
-- Starting to stream, and the callback of a finished transfer (src/lib/hackrf/hackrf.c), open and close
-- nothing.
use hackrf.Prelude.{ℕ, ◌≡◌, refl, false, Option, none, some, List, [], ◌∷◌, arith}
use hackrf.Prelude.Int.{ℤ}
use hackrf.Platform.{Platform, Call}
use hackrf.Platform.Action.{Library}
use hackrf.Platform.Handles.{Quiet, live}
use hackrf.Requests.Registers.{TransceiverMode, set_transceiver_mode}
use hackrf.Device.{Device}
use hackrf.Device.Transfers.{TransferArray, prepare_each, prepare_transfers}
use hackrf.Device.Streaming.{
  HackrfTransfer, Completion, create_transfer_thread, start_thread, start_rx, start_tx,
  transfer_callback, handle_completions,
}

module _ (p : Platform) where
  prepare_each-Quiet :
      (endpoint : ℕ) (ts : TransferArray) (s : Library) → Quiet p s (prepare_each p endpoint ts s).1
  unfolding live prepare_each
  prepare_each-Quiet endpoint [] s = (refl, refl, refl)
  prepare_each-Quiet endpoint (none ∷ ts) s = ground (arith, prepare_each-Quiet endpoint ts s)
  prepare_each-Quiet endpoint (some t ∷ ts) s = ground (
    arith,
    prepare_each-Quiet endpoint ts (record s { log = Call.submit_transfer t.address ∷ s.log }),
  )

  prepare_transfers-Quiet :
      (d : Device) (endpoint : ℕ) (s : Library) → Quiet p s (prepare_transfers p d endpoint s).1
  unfolding prepare_transfers
  prepare_transfers-Quiet d endpoint s = go d.transfers refl
    where
      go :
          (o : Option TransferArray)
          → d.transfers ≡ o
          → Quiet p s (prepare_transfers p d endpoint s).1
      go none e = ground arith
      go (some ts) e = ground (arith, prepare_each-Quiet endpoint ts s)

  create-Quiet :
      (d : Device) (endpoint callback : ℕ) (s : Library)
      → Quiet p s (create_transfer_thread p d endpoint callback s).1
  unfolding live create_transfer_thread start_thread
  create-Quiet d endpoint callback s =
      ground (
        arith,
        prepare_transfers-Quiet (record d { streaming = false; do_exit = false }) endpoint s,
      )

  pub start_rx-Quiet :
      (d : Device) (callback ctx : ℕ) (s : Library) → Quiet p s (start_rx p d callback ctx s).1
  unfolding live start_rx set_transceiver_mode
  start_rx-Quiet d callback ctx s = ground (
    arith,
    create-Quiet (record d { rx_ctx = ctx }) 0x81 callback
        (set_transceiver_mode p d.usb_device TransceiverMode.receive s).1,
  )

  pub start_tx-Quiet :
      (d : Device) (callback ctx : ℕ) (s : Library) → Quiet p s (start_tx p d callback ctx s).1
  unfolding live start_tx set_transceiver_mode
  start_tx-Quiet d callback ctx s = ground (
    arith,
    create-Quiet (record d { tx_ctx = ctx }) 2 callback
        (set_transceiver_mode p d.usb_device TransceiverMode.transmit s).1,
  )

module _ (p : Platform) (user : ℕ → HackrfTransfer → ℤ) where
  transfer_callback-Quiet :
      (d : Device) (c : Completion) (s : Library) → Quiet p s (transfer_callback p user d c s).1
  unfolding live transfer_callback
  transfer_callback-Quiet d c s = ground arith

  pub handle_completions-Quiet :
      (d : Device) (cs : List Completion) (s : Library)
      → Quiet p s (handle_completions p user d cs s).1
  unfolding handle_completions
  handle_completions-Quiet d [] s = (refl, refl, refl)
  handle_completions-Quiet d (c ∷ cs) s =
      let r = transfer_callback p user d c s in
      ground (arith, transfer_callback-Quiet d c s, handle_completions-Quiet r.0 cs r.1)
