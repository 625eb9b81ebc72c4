-- ===== src/Device/Streaming/Flight.antt =====
-- Which transfers of a device libusb has while it streams (src/lib/hackrf/hackrf.c): what was submitted and has
-- not come back.
pub mod Session
use hackrf.Prelude.{
  ℕ, ◌+◌, ◌≡◌, refl, ◌⊎◌, true, false, Bool, Option, none, some, List, [], ◌∷◌, ◌==◌, not, ◌&&◌,
  if◌then◌else◌, arith,
}
use hackrf.Prelude.Int.{ℤ, lt_nat}
use hackrf.Errors.{success}
use hackrf.Platform.{Platform, Call}
use hackrf.Platform.Action.{Library}
use hackrf.Requests.Registers.{TransceiverMode, set_transceiver_mode}
use hackrf.Device.{Device, request_exit}
use hackrf.Device.Transfers.{
  TransferArray, prepare_each, prepare_transfers, cancel_each, cancel_transfers,
}
use hackrf.Device.Ready.{prepare_transfers_frame}
use hackrf.Device.Streaming.{
  HackrfTransfer, Completion, create_transfer_thread, start_thread, start_rx, start_tx, stop_rx,
  stop_tx, kill_transfer_thread, join_thread, transfer_callback,
}
use hackrf.Device.Streaming.Loop.{again, transfer_callback-eq}

-- How often an address stands in the array of transfers.
abbrev pub slots : ℕ → TransferArray → ℕ
slots a [] = 0
slots a (none ∷ ts) = slots a ts
slots a (some t ∷ ts) = (if t.address == a then 1 else 0) + slots a ts

abbrev pub owned : ℕ → Option TransferArray → ℕ
owned a none = 0
owned a (some ts) = slots a ts

module _ (p : Platform) where
  -- How often libusb has taken the transfer: a negative answer to a submission refuses it.
  unfoldable pub accepted : ℕ → List Call → ℕ
  accepted a [] = 0
  accepted a (Call.submit_transfer t ∷ log) =
      let rest = accepted a log in
      if t == a && not (lt_nat (p.submit log t) 0) then 1 + rest else rest
  accepted a (_ ∷ log) = accepted a log

  prepare_each-accepted :
      (a endpoint : ℕ) (ts : TransferArray) (s : Library)
      → let r = prepare_each p endpoint ts s in
        (slots a r.0.1 ≡ slots a ts)
        × ((r.0.0 ≡ success) → accepted a r.1.log ≡ slots a ts + accepted a s.log)
  unfolding accepted prepare_each
  prepare_each-accepted a endpoint [] s = (refl, λ e. omega arith)
  prepare_each-accepted a endpoint (none ∷ ts) s =
      ground (arith, prepare_each-accepted a endpoint ts s)
  prepare_each-accepted a endpoint (some t ∷ ts) s =
      let asked : Library = record s { log = Call.submit_transfer t.address ∷ s.log } in
      ground (arith, prepare_each-accepted a endpoint ts asked)

  prepare_transfers-accepted :
      (a : ℕ) (d : Device) (endpoint : ℕ) (s : Library)
      → let r = prepare_transfers p d endpoint s in
        (owned a r.0.1.transfers ≡ owned a d.transfers)
        × ((r.0.0 ≡ success) → accepted a r.1.log ≡ owned a d.transfers + accepted a s.log)
  unfolding prepare_transfers
  prepare_transfers-accepted a d endpoint s = go d.transfers refl
    where
      go :
          (o : Option TransferArray)
          → d.transfers ≡ o
          → let r = prepare_transfers p d endpoint s in
            (owned a r.0.1.transfers ≡ owned a d.transfers)
            × ((r.0.0 ≡ success) → accepted a r.1.log ≡ owned a d.transfers + accepted a s.log)
      go none e = ground arith
      go (some ts) e = ground (arith, prepare_each-accepted a endpoint ts s)

  create-accepted :
      (a : ℕ) (d : Device) (endpoint callback : ℕ) (s : Library)
      → let r = create_transfer_thread p d endpoint callback s in
        r.0.0 ≡ success
        → (owned a r.0.1.transfers ≡ owned a d.transfers)
          × (accepted a r.1.log ≡ owned a d.transfers + accepted a s.log)
          × (r.0.1.do_exit ≡ false)
  unfolding accepted create_transfer_thread start_thread
  create-accepted a d endpoint callback s e =
      let u : Device = record d { streaming = false; do_exit = false } in
      ground
        (arith, prepare_transfers-accepted a u endpoint s, prepare_transfers_frame p u endpoint s)

  -- A start that succeeds has given libusb every transfer of the device once.
  pub start_rx-accepted :
      (a : ℕ) (d : Device) (callback ctx : ℕ) (s : Library)
      → let r = start_rx p d callback ctx s in
        r.0.0 ≡ success
        → (owned a r.0.1.transfers ≡ owned a d.transfers)
          × (accepted a r.1.log ≡ owned a d.transfers + accepted a s.log)
          × (r.0.1.do_exit ≡ false)
  unfolding accepted start_rx set_transceiver_mode
  start_rx-accepted a d callback ctx s e = ground (
    arith,
    create-accepted a (record d { rx_ctx = ctx }) 0x81 callback
        (set_transceiver_mode p d.usb_device TransceiverMode.receive s).1,
  )

  pub start_tx-accepted :
      (a : ℕ) (d : Device) (callback ctx : ℕ) (s : Library)
      → let r = start_tx p d callback ctx s in
        r.0.0 ≡ success
        → (owned a r.0.1.transfers ≡ owned a d.transfers)
          × (accepted a r.1.log ≡ owned a d.transfers + accepted a s.log)
          × (r.0.1.do_exit ≡ false)
  unfolding accepted start_tx set_transceiver_mode
  start_tx-accepted a d callback ctx s e = ground (
    arith,
    create-accepted a (record d { tx_ctx = ctx }) 2 callback
        (set_transceiver_mode p d.usb_device TransceiverMode.transmit s).1,
  )

  cancel_each-accepted :
      (a : ℕ) (ts : TransferArray) (s : Library)
      → accepted a (cancel_each ts s).1.log ≡ accepted a s.log
  unfolding accepted cancel_each
  cancel_each-accepted a [] s = refl
  cancel_each-accepted a (none ∷ ts) s = cancel_each-accepted a ts s
  cancel_each-accepted a (some t ∷ ts) s =
      cancel_each-accepted a ts (record s { log = Call.cancel_transfer t.address ∷ s.log })

  cancel_transfers-accepted :
      (a : ℕ) (d : Device) (s : Library)
      → accepted a (cancel_transfers d s).1.log ≡ accepted a s.log
  unfolding cancel_transfers
  cancel_transfers-accepted a d s = go d.transfers refl
    where
      go :
          (o : Option TransferArray)
          → d.transfers ≡ o
          → accepted a (cancel_transfers d s).1.log ≡ accepted a s.log
      go none e = ground arith
      go (some ts) e = ground (arith, cancel_each-accepted a ts s)

  -- What a stop leaves of the transfers: it submits none, and none comes back during it.
  abbrev pub Leaves : ℕ → Device → Library → Device × Library → Type 0
  Leaves a d s (u, t) =
      (owned a u.transfers ≡ owned a d.transfers)
      × (accepted a t.log ≡ accepted a s.log)
      × ((u.do_exit ≡ true) ⊎ (u.do_exit ≡ d.do_exit))

  kill-Leaves :
      (a : ℕ) (d : Device) (s : Library)
      → let r = kill_transfer_thread p d s in Leaves a d s (r.0.1, r.1)
  unfolding accepted kill_transfer_thread join_thread request_exit
  kill-Leaves a d s = ground (
    arith,
    cancel_transfers-accepted a (record d { do_exit = true; transfer_thread_started = false })
        (record s { log = Call.pthread_join ∷ s.log }),
  )

  pub request_exit-Leaves : (a : ℕ) (d : Device) (s : Library) → Leaves a d s (request_exit d, s)
  unfolding request_exit
  request_exit-Leaves a d s = ground arith

  pub join_thread-Leaves :
      (a : ℕ) (d : Device) (s : Library) → let r = join_thread p d s in Leaves a d s (r.0.1, r.1)
  unfolding accepted join_thread
  join_thread-Leaves a d s = ground (
    arith,
    cancel_transfers-accepted a (record d { transfer_thread_started = false })
        (record s { log = Call.pthread_join ∷ s.log }),
  )

  pub stop_rx-Leaves :
      (a : ℕ) (d : Device) (s : Library) → let r = stop_rx p d s in Leaves a d s (r.0.1, r.1)
  unfolding accepted stop_rx set_transceiver_mode
  stop_rx-Leaves a d s =
      ground (arith, kill-Leaves a d (set_transceiver_mode p d.usb_device TransceiverMode.off s).1)

  pub stop_tx-Leaves :
      (a : ℕ) (d : Device) (s : Library) → let r = stop_tx p d s in Leaves a d s (r.0.1, r.1)
  unfolding accepted stop_tx set_transceiver_mode
  stop_tx-Leaves a d s =
      ground (arith, kill-Leaves a d (set_transceiver_mode p d.usb_device TransceiverMode.off s).1)

  -- A finished transfer is the only one that its callback submits, and where it does not, or libusb
  -- refuses, an exit is requested.
  pub transfer_callback-accepted :
      (user : ℕ → HackrfTransfer → ℤ) (a : ℕ) (d : Device) (c : Completion) (s : Library)
      → let r = transfer_callback p user d c s in
        let own : ℕ = if c.transfer.address == a then 1 else 0 in
        (r.0.transfers ≡ d.transfers)
        × ((accepted a r.1.log ≡ own + accepted a s.log)
            ⊎ ((accepted a r.1.log ≡ accepted a s.log) × (r.0.do_exit ≡ true)))
        × ((r.0.do_exit ≡ true) ⊎ (r.0.do_exit ≡ d.do_exit))
  unfolding accepted
  transfer_callback-accepted user a d c s = ground (arith, transfer_callback-eq p user d c s)
