-- ===== src/Device/Lifecycle/Setup.antt =====
-- `hackrf_open_setup` (src/lib/hackrf/hackrf.c) on every branch: what a success gives and what a failure
-- gives back.
use hackrf.Prelude.{ℕ, zero, suc, ◌+◌, ◌≡◌, refl, Option, none, some, List, [], ◌∷◌, arith}
use hackrf.Errors.{HackrfError, success, streaming_thread_err}
use hackrf.Platform.{Platform, Call}
use hackrf.Platform.Action.{Library}
use hackrf.Device.{Device}
use hackrf.Device.Ready.{IsReady, allocate_transfers-IsReady}
use hackrf.Device.Transfers.{allocate_from, allocate_transfers}
use hackrf.Device.Streaming.{is_streaming}
use hackrf.Platform.Handles.{Quiet, live, gain, lose, lose-gain}
use hackrf.Device.Lifecycle.{
  new_device, count_open, detach_each, detach_kernel_drivers, change_configuration,
  set_hackrf_configuration, give_up, setup_claimed, open_setup,
}

-- The call that came last.
abbrev pub LastCall : Call → List Call → Type 0
LastCall c [] = ⊥
LastCall c (d ∷ log) = c ≡ d

new_device_idle : (dev : ℕ) → is_streaming (new_device dev) ≡ streaming_thread_err
unfolding is_streaming
new_device_idle dev = refl

module _ (p : Platform) where
  -- How an attempt to set up the handle `dev` ends: with a ready device on it that is counted, or with
  -- the handle closed and nothing counted.
  abbrev pub Ends : ℕ → Library → (HackrfError × Option Device) × Library → Type 0
  Ends dev s ((success, some d), t) =
      IsReady d
      × (d.usb_device ≡ dev)
      × (is_streaming d ≡ streaming_thread_err)
      × (t.open_devices ≡ count_open s.open_devices)
      × (t.context ≡ s.context)
      × (live p t.log ≡ live p s.log)
  Ends dev s ((success, none), t) = ⊥
  Ends dev s ((e, some d), t) = ⊥
  Ends dev s ((e, none), t) =
      LastCall (Call.close dev) t.log
      × (t.open_devices ≡ s.open_devices)
      × (t.context ≡ s.context)
      × (live p t.log ≡ lose dev (live p s.log))

  -- The same from before the handle was there: a success gains it, and a failure leaves the globals and
  -- the open handles as they were.
  abbrev pub Opens : ℕ → Library → (HackrfError × Option Device) × Library → Type 0
  Opens dev s ((success, some d), t) =
      IsReady d
      × (d.usb_device ≡ dev)
      × (is_streaming d ≡ streaming_thread_err)
      × (t.open_devices ≡ count_open s.open_devices)
      × (t.context ≡ s.context)
      × (live p t.log ≡ gain dev (live p s.log))
  Opens dev s ((success, none), t) = ⊥
  Opens dev s ((e, some d), t) = ⊥
  Opens dev s ((e, none), t) = LastCall (Call.close dev) t.log × Quiet p s t

  -- The same, whichever handle it was.
  abbrev pub Opening : Library → (HackrfError × Option Device) × Library → Type 0
  Opening s ((success, some d), t) =
      IsReady d
      × (is_streaming d ≡ streaming_thread_err)
      × (t.open_devices ≡ count_open s.open_devices)
      × (t.context ≡ s.context)
      × (live p t.log ≡ gain d.usb_device (live p s.log))
  Opening s ((success, none), t) = ⊥
  Opening s ((e, some d), t) = ⊥
  Opening s ((e, none), t) = Quiet p s t

  pub Opens-Opening :
      (dev : ℕ) (s : Library) (r : (HackrfError × Option Device) × Library)
      → Opens dev s r
      → Opening s r
  Opens-Opening dev s ((success, some d), u) h = ground arith
  Opens-Opening dev s ((success, none), u) h = h
  Opens-Opening dev s ((e, some d), u) h = h
  Opens-Opening dev s ((e, none), u) h = ground arith

  pub Ends-Opens :
      (dev : ℕ) (s t : Library) (r : (HackrfError × Option Device) × Library)
      → t.open_devices ≡ s.open_devices
      → t.context ≡ s.context
      → live p t.log ≡ gain dev (live p s.log)
      → Ends dev t r
      → Opens dev s r
  Ends-Opens dev s t ((success, some d), u) counted held gained h = ground arith
  Ends-Opens dev s t ((success, none), u) counted held gained h = h
  Ends-Opens dev s t ((e, some d), u) counted held gained h = h
  Ends-Opens dev s t ((e, none), u) counted held gained h =
      ground (arith, lose-gain dev (live p s.log))

  detach_each-Quiet : (dev n i : ℕ) (s : Library) → Quiet p s (detach_each p dev n i s).1
  unfolding live detach_each
  detach_each-Quiet dev zero i s = (refl, refl, refl)
  detach_each-Quiet dev (suc n) i s = ground (
    arith,
    detach_each-Quiet dev n (i + 1) (record s { log = Call.kernel_driver_active dev i ∷ s.log }),
    detach_each-Quiet dev n (i + 1) (record s {
      log = Call.detach_kernel_driver dev i ∷ Call.kernel_driver_active dev i ∷ s.log;
    }),
  )

  detach_kernel_drivers-Quiet :
      (dev : ℕ) (s : Library) → Quiet p s (detach_kernel_drivers p dev s).1
  unfolding live detach_kernel_drivers
  detach_kernel_drivers-Quiet dev s = ground (
    arith,
    detach_each-Quiet dev (p.config_descriptor_reply s.log dev).output 0
        (record s { log = Call.get_active_config_descriptor dev ∷ s.log }),
  )

  change_configuration-Quiet :
      (dev config : ℕ) (s : Library) → Quiet p s (change_configuration p dev config s).1
  unfolding live change_configuration
  change_configuration-Quiet dev config s = ground (arith, detach_kernel_drivers-Quiet dev s)

  set_hackrf_configuration-Quiet :
      (dev config : ℕ) (s : Library) → Quiet p s (set_hackrf_configuration p dev config s).1
  unfolding live set_hackrf_configuration
  set_hackrf_configuration-Quiet dev config s =
      let t : Library = record s { log = Call.get_configuration dev ∷ s.log } in
      ground (
        arith,
        detach_kernel_drivers-Quiet dev t,
        change_configuration-Quiet dev config t,
        detach_kernel_drivers-Quiet dev (change_configuration p dev config t).1,
      )

  allocate_from-Quiet : (n k : ℕ) (s : Library) → Quiet p s (allocate_from p n k s).1
  unfolding live allocate_from
  allocate_from-Quiet zero k s = (refl, refl, refl)
  allocate_from-Quiet (suc n) k s =
      ground (arith, allocate_from-Quiet n (k + 1) (record s { log = Call.alloc_transfer ∷ s.log }))

  allocate_transfers-Quiet : (d : Device) (s : Library) → Quiet p s (allocate_transfers p d s).1
  unfolding live allocate_transfers
  allocate_transfers-Quiet d s =
      ground (arith, allocate_from-Quiet 4 0 (record s { log = Call.calloc_transfers ∷ s.log }))

  allocate_transfers_frame :
      (d : Device) (s : Library)
      → let u = (allocate_transfers p d s).0.1 in
        (u.usb_device ≡ d.usb_device) × (is_streaming u ≡ is_streaming d)
  unfolding allocate_transfers is_streaming
  allocate_transfers_frame d s = ground arith

  setup_claimed-Ends : (dev : ℕ) (s : Library) → Ends dev s (setup_claimed p dev s)
  unfolding live setup_claimed give_up
  setup_claimed-Ends dev s =
      let t : Library = record s { log = Call.malloc_device ∷ s.log } in
      ground (
        arith,
        allocate_transfers-Quiet (new_device dev) t,
        allocate_transfers_frame (new_device dev) t,
        allocate_transfers-IsReady p (new_device dev) t,
        new_device_idle dev,
      )

  -- Every attempt to set up a handle ends in one of two ways. Either it succeeds with a device on
  -- that handle that has its four transfers and does not stream, and one more device is counted; or
  -- it fails with no device, having closed the handle as its last call, so that libusb no longer has it
  -- open, and counts nothing.
  pub open_setup-Ends : (dev : ℕ) (s : Library) → Ends dev s (open_setup p dev s)
  unfolding live open_setup
  open_setup-Ends dev s =
      let t = (set_hackrf_configuration p dev 1 s).1 in
      ground (
        arith,
        set_hackrf_configuration-Quiet dev 1 s,
        setup_claimed-Ends dev (record t { log = Call.claim_interface dev 0 ∷ t.log }),
      )
