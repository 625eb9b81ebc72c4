-- ===== src/Device/Ready.antt =====
-- The transfers of an open device (src/lib/hackrf/hackrf.c): four of them, none NULL, each with its own
-- quarter of the buffer. What allocates them establishes this, and what prepares them keeps it.
use hackrf.Prelude.{ℕ, zero, suc, ◌+◌, ◌*◌, ◌≡◌, refl, Option, none, some, [], ◌∷◌, length, arith}
use hackrf.Errors.{success}
use hackrf.Platform.{Platform, Call}
use hackrf.Platform.Action.{Library}
use hackrf.Device.{Device}
use hackrf.Device.Transfers.{
  TransferArray, allocate_from, allocate_transfers, prepare_each, prepare_transfers,
}

-- The entries from `k` on.
abbrev pub Quarters : ℕ → TransferArray → Type 0
Quarters k [] = Unit {0}
Quarters k (none ∷ ts) = ⊥
Quarters k (some t ∷ ts) = (t.buffer ≡ k * 262144) × (t.size ≡ 262144) × Quarters (k + 1) ts

abbrev pub HasTransfers : Option TransferArray → Type 0
HasTransfers none = ⊥
HasTransfers (some ts) = (length ts ≡ 4) × Quarters 0 ts

abbrev pub IsReady : Device → Type 0
IsReady d = HasTransfers d.transfers

module _ (p : Platform) where
  allocate_from-Quarters :
      (n k : ℕ) (s : Library)
      → (allocate_from p n k s).0.0 ≡ success
      → let ts = (allocate_from p n k s).0.1 in (length ts ≡ n) × Quarters k ts
  unfolding allocate_from
  allocate_from-Quarters zero k s e = (refl, tt)
  allocate_from-Quarters (suc n) k s e =
      ground
        (arith, allocate_from-Quarters n (k + 1) (record s { log = Call.alloc_transfer ∷ s.log }))

  -- When `allocate_transfers` succeeds, the device has its four transfers.
  pub allocate_transfers-IsReady :
      (d : Device) (s : Library)
      → (allocate_transfers p d s).0.0 ≡ success
      → IsReady (allocate_transfers p d s).0.1
  unfolding allocate_transfers
  allocate_transfers-IsReady d s e =
      ground (arith, allocate_from-Quarters 4 0 (record s { log = Call.calloc_transfers ∷ s.log }))

  prepare_each-Quarters :
      (endpoint k : ℕ) (ts : TransferArray) (s : Library)
      → Quarters k ts
      → let us = (prepare_each p endpoint ts s).0.1 in (length us ≡ length ts) × Quarters k us
  unfolding prepare_each
  prepare_each-Quarters endpoint k [] s q = (refl, tt)
  prepare_each-Quarters endpoint k (none ∷ ts) s q = absurd q
  prepare_each-Quarters endpoint k (some t ∷ ts) s q = ground (
    arith,
    prepare_each-Quarters endpoint (k + 1) ts
        (record s { log = Call.submit_transfer t.address ∷ s.log }),
  )

  pub prepare_transfers-IsReady :
      (d : Device) (endpoint : ℕ) (s : Library)
      → IsReady d
      → IsReady (prepare_transfers p d endpoint s).0.1
  unfolding prepare_transfers
  prepare_transfers-IsReady d endpoint s r = go d.transfers refl
    where
      go :
          (o : Option TransferArray)
          → d.transfers ≡ o
          → IsReady (prepare_transfers p d endpoint s).0.1
      go none e = ground arith
      go (some ts) e = ground (arith, prepare_each-Quarters endpoint 0 ts s)

  -- What `prepare_transfers` leaves alone.
  pub prepare_transfers_frame :
      (d : Device) (endpoint : ℕ) (s : Library)
      → let u = (prepare_transfers p d endpoint s).0.1 in
        (u.usb_device ≡ d.usb_device)
        × (u.transfer_thread_started ≡ d.transfer_thread_started)
        × (u.streaming ≡ d.streaming)
        × (u.do_exit ≡ d.do_exit)
        × (u.callback ≡ d.callback)
        × (u.rx_ctx ≡ d.rx_ctx)
        × (u.tx_ctx ≡ d.tx_ctx)
  unfolding prepare_transfers
  prepare_transfers_frame d endpoint s = ground arith
