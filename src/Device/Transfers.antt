-- ===== src/Device/Transfers.antt =====
-- src/lib/hackrf/hackrf.c: `allocate_transfers`, `prepare_transfers`, `cancel_transfers` and
-- `free_transfers`.
use hackrf.Prelude.{
  ℕ, zero, suc, ◌+◌, ◌*◌, true, false, Option, none, some, List, [], ◌∷◌, replicate,
}
use hackrf.Prelude.Int.{is_zero}
use hackrf.Errors.{HackrfError, success, libusb, no_mem, busy, other}
use hackrf.Platform.{Platform, Call}
use hackrf.Platform.Action.{Action, ◌>>=◌, ◌>>◌, pure, ask, tell}
use hackrf.Device.{Device, Transfer, transfer_count, transfer_buffer_size}

abbrev pub TransferArray : Type 0
TransferArray = List (Option Transfer)

-- `libusb_fill_bulk_transfer` for the array's entry `transfer_index`.
abbrev pub filled : ℕ → ℕ → Transfer
filled address transfer_index = record {
  address = address;
  endpoint = 0;
  has_callback = false;
  buffer = transfer_index * transfer_buffer_size;
  size = transfer_buffer_size;
}

unfoldable pub cancel_each : TransferArray → Action (Unit {0})
cancel_each [] = pure tt
cancel_each (none ∷ ts) = cancel_each ts
cancel_each (some t ∷ ts) = do tell (Call.cancel_transfer t.address); cancel_each ts

unfoldable pub cancel_transfers : Device → Action HackrfError
unfolding cancel_each
cancel_transfers device = elim device.transfers [
  | none ↦ pure other
  | some ts ↦ cancel_each ts >> pure success
]

unfoldable pub free_each : TransferArray → Action (Unit {0})
free_each [] = pure tt
free_each (none ∷ ts) = free_each ts
free_each (some t ∷ ts) = do tell (Call.free_transfer t.address); free_each ts

unfoldable pub free_transfers : Device → Action (HackrfError × Device)
unfolding free_each
free_transfers device = elim device.transfers [
  | none ↦ pure (success, device)
  | some ts ↦ do
    free_each ts
    tell Call.free_transfer_array
    pure (success, record device { transfers = none })
]

module _ (p : Platform) where
  -- The loop of `allocate_transfers` from `transfer_index` on, with the part of the array that it
  -- fills (`calloc` has set the rest to NULL). The test for a NULL buffer after
  -- `libusb_fill_bulk_transfer` never holds: the buffer lies inside the device.
  unfoldable pub allocate_from : ℕ → ℕ → Action (HackrfError × TransferArray)
  allocate_from zero transfer_index = pure (success, [])
  allocate_from (suc n) transfer_index = do
    address ← ask Call.alloc_transfer p.new_transfer
    elim address [
      | none ↦ pure (libusb, none ∷ replicate n none)
      | some a ↦ do
        rest ← allocate_from n (transfer_index + 1)
        pure (rest.0, some (filled a transfer_index) ∷ rest.1)
    ]

  unfoldable pub allocate_transfers : Device → Action (HackrfError × Device)
  unfolding allocate_from
  allocate_transfers device = elim device.transfers [
    | some ts ↦ pure (busy, device)
    | none ↦ do
      given ← ask Call.calloc_transfers p.malloc
      elim given [
        | false ↦ pure (no_mem, device)
        | true ↦ do
          r ← allocate_from transfer_count 0
          pure (r.0, record device { transfers = some r.1 })
      ]
  ]

  -- The loop of `prepare_transfers`. C would crash on a NULL entry, which is passed over here: the
  -- array of an open device has none.
  unfoldable pub prepare_each : ℕ → TransferArray → Action (HackrfError × TransferArray)
  prepare_each endpoint_address [] = pure (success, [])
  prepare_each endpoint_address (none ∷ ts) = do
    rest ← prepare_each endpoint_address ts
    pure (rest.0, none ∷ rest.1)
  prepare_each endpoint_address (some t ∷ ts) = do
    let u = record t { endpoint = endpoint_address; has_callback = true }
    error ← ask (Call.submit_transfer t.address) (λ log. p.submit log t.address)
    elim (is_zero error) [
      | false ↦ λ s. ((libusb, some u ∷ ts), record s { last_libusb_error = error })
      | true ↦ do rest ← prepare_each endpoint_address ts; pure (rest.0, some u ∷ rest.1)
    ]

  unfoldable pub prepare_transfers : Device → ℕ → Action (HackrfError × Device)
  unfolding prepare_each
  prepare_transfers device endpoint_address = elim device.transfers [
    | none ↦ pure (other, device)
    | some ts ↦ do
      r ← prepare_each endpoint_address ts
      pure (r.0, record device { transfers = some r.1 })
  ]
