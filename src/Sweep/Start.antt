-- ===== src/Sweep/Start.antt =====
-- src/lib/hackrf/hackrf_sweep.c, `hackrf_sweep`: how it starts the device for a plan, and how it shuts
-- everything down.
use hackrf.Prelude.{
  ℕ, ◌*◌, ◌%◌, ◌^◌, ◌≡◌, ◌≢◌, Bool, true, false, some, List, ◌∷◌, if◌then◌else◌, arith,
}
use hackrf.Prelude.Int.{pos}
use hackrf.Errors.{ok, HackrfError, success, hackrf_true}
use hackrf.Platform.{Platform, Call}
use hackrf.Platform.Action.{Library, Action, ◌>>=◌, pure}
use hackrf.Requests.Gains.{set_vga_gain, set_lna_gain, set_amp_enable, set_antenna_enable}
use hackrf.Requests.InitSweep.{init_sweep}
use hackrf.Device.{Device}
use hackrf.Device.Transfers.{TransferArray}
use hackrf.Device.Streaming.{start_rx, stop_rx, is_streaming}
use hackrf.Device.Streaming.Calls.{start_rx-is_streaming}
use hackrf.Device.Streaming.Stopping.{stop_rx-Stopped}
use hackrf.Device.Lifecycle.{hackrf_close, hackrf_exit}
use hackrf.Device.Lifecycle.Balance.{hackrf_close-releases}
use hackrf.Device.Lifecycle.Exit.{hackrf_exit-eq}
use hackrf.Sweep.{Config}

module _ (p : Platform) where
  -- `if (antenna)`, the last step.
  unfoldable pub enable_antenna : Config → Device → Action (Bool × Device)
  enable_antenna c device =
      if c.antenna
      then (do
        e ← set_antenna_enable p device.usb_device (c.antenna_enable % 2 ^ 8)
        pure (ok e, device))
      else pure (true, device)

  -- `if (amp)`, and what follows.
  unfoldable pub enable_amp : Config → Device → Action (Bool × Device)
  unfolding enable_antenna
  enable_amp c device =
      if c.amp
      then (do
        e ← set_amp_enable p device.usb_device (c.amp_enable % 2 ^ 8)
        elim e [ success ↦ enable_antenna c device | _ ↦ pure (false, device) ])
      else enable_antenna c device

  -- `hackrf_init_sweep(device, frequencies, num_ranges, num_samples * 2, TUNE_STEP * FREQ_ONE_MHZ,
  -- OFFSET, INTERLEAVED)`, and what follows.
  unfoldable pub begin_sweep : Config → Device → Action (Bool × Device)
  unfolding enable_amp
  begin_sweep c device = do
    e ←
        init_sweep p device.usb_device c.frequencies (pos c.num_ranges) (c.num_samples * 2 % 2 ^ 32)
          20000000 7500000 1
    elim e [ success ↦ enable_amp c device | _ ↦ pure (false, device) ]

  -- From the gains on: whether the sweep goes on, and the device. The three results are joined with
  -- `|=`, so that one failure is enough. `callback` is the address of `rx_callback`.
  unfoldable pub start_sweep : Config → ℕ → ℕ → ℕ → Device → Action (Bool × Device)
  unfolding begin_sweep
  start_sweep c vga_gain lna_gain callback device = do
    vga ← set_vga_gain p device.usb_device vga_gain
    lna ← set_lna_gain p device.usb_device lna_gain
    r ← start_rx p device callback 0
    elim vga [
      | success ↦ elim lna [
        | success ↦ elim r.0 [ success ↦ begin_sweep c r.1 | _ ↦ pure (false, r.1) ]
        | _ ↦ pure (false, r.1)
      ]
      | _ ↦ pure (false, r.1)
    ]

  -- The end of `hackrf_sweep`; the results are only printed.
  unfoldable pub shutdown : Device → Action HackrfError
  shutdown device = do r ← stop_rx p device; closed ← hackrf_close p (some r.1); hackrf_exit

  pub begin_sweep-device : (c : Config) (d : Device) (s : Library) → (begin_sweep c d s).0.1 ≡ d
  unfolding begin_sweep
  begin_sweep-device c d s = ground arith

  -- When the sweep is started, the device streams to the callback of the sweep.
  start_sweep-is_streaming :
      (c : Config) (vga_gain lna_gain callback : ℕ) (d : Device) (s : Library)
      → (start_sweep c vga_gain lna_gain callback d s).0.0 ≡ true
      → let u = (start_sweep c vga_gain lna_gain callback d s).0.1 in
        (is_streaming u ≡ hackrf_true) × (u.callback ≡ callback)
  unfolding start_sweep
  start_sweep-is_streaming c vga_gain lna_gain callback d s e =
      let s1 = (set_vga_gain p d.usb_device vga_gain s).1 in
      let s2 = (set_lna_gain p d.usb_device lna_gain s1).1 in
      let r = start_rx p d callback 0 s2 in
      ground (arith, start_rx-is_streaming p d callback 0 s2, begin_sweep-device c r.0.1 r.1)

  -- Shutting down while the device, with its transfers and a handle, is the only one open and there
  -- is a context lets go of libusb, whatever stopping and
  -- closing answer: no device is counted, the context is gone, and that was the last call.
  pub shutdown_exits :
      (d : Device) (ts : TransferArray) (s : Library)
      → d.transfers ≡ some ts
      → d.usb_device ≢ 0
      → s.open_devices ≡ 1
      → s.context ≡ true
      → let t = (shutdown d s).1 in
        ((shutdown d s).0 ≡ success)
        × (t.open_devices ≡ 0)
        × (t.context ≡ false)
        × ((log : List Call) × (t.log ≡ Call.context_exit ∷ log))
  unfolding shutdown
  shutdown_exits d ts s has handle one there =
      let r = stop_rx p d s in
      let done = hackrf_close-releases p r.0.1 ts r.1 in
      let u = (hackrf_close p (some r.0.1) r.1).1 in
      (
        ground (arith, stop_rx-Stopped p d s, done, hackrf_exit-eq u),
        ground (arith, stop_rx-Stopped p d s, done, hackrf_exit-eq u),
        ground (arith, stop_rx-Stopped p d s, done, hackrf_exit-eq u),
        (u.log, ground (arith, stop_rx-Stopped p d s, done, hackrf_exit-eq u)),
      )
