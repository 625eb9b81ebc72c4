-- ===== src/Sweep/Run/Handles.antt =====
-- What starting and ending a sweep (src/lib/hackrf/hackrf_sweep.c) leave of the globals and the open handles.
use hackrf.Prelude.{ℕ, ◌*◌, ◌%◌, ◌^◌, ◌≡◌, some, arith}
use hackrf.Platform.{Platform}
use hackrf.Platform.Action.{Library}
use hackrf.Platform.Handles.{Quiet, live, lose}
use hackrf.Requests.Gains.{set_vga_gain, set_lna_gain, set_amp_enable, set_antenna_enable}
use hackrf.Prelude.Int.{pos}
use hackrf.Bytes.{Endian}
use hackrf.Requests.Commands.{Command, run}
use hackrf.Requests.Quiet.{run-Quiet}
use hackrf.Device.{Device}
use hackrf.Device.Streaming.{start_rx, stop_rx}
use hackrf.Device.Streaming.Stopping.{stop_rx-Stopped}
use hackrf.Device.Lifecycle.{hackrf_close}
use hackrf.Device.Lifecycle.Closing.{hackrf_close-loses}
use hackrf.Device.Streaming.Quiet.{start_rx-Quiet}
use hackrf.Device.Lifecycle.Exit.{hackrf_exit-quiet}
use hackrf.Sweep.{Config}
use hackrf.Sweep.Start.{enable_antenna, enable_amp, begin_sweep, start_sweep, shutdown}

module _ (p : Platform) where
  enable_antenna-Quiet :
      (c : Config) (d : Device) (s : Library) → Quiet p s (enable_antenna p c d s).1
  unfolding live enable_antenna set_antenna_enable
  enable_antenna-Quiet c d s = ground arith

  enable_amp-Quiet : (c : Config) (d : Device) (s : Library) → Quiet p s (enable_amp p c d s).1
  unfolding live enable_amp set_amp_enable
  enable_amp-Quiet c d s = ground (
    arith,
    enable_antenna-Quiet c d s,
    enable_antenna-Quiet c d (set_amp_enable p d.usb_device (c.amp_enable % 2 ^ 8) s).1,
  )

  begin_sweep-Quiet : (c : Config) (d : Device) (s : Library) → Quiet p s (begin_sweep p c d s).1
  unfolding begin_sweep run
  begin_sweep-Quiet c d s =
      let n = c.num_samples * 2 % 2 ^ 32 in
      let asked = Command.init_sweep c.frequencies (pos c.num_ranges) n 20000000 7500000 1 in
      ground (
        arith,
        run-Quiet p Endian.little d.usb_device asked s,
        enable_amp-Quiet c d (run p Endian.little d.usb_device asked s).1,
      )

  pub start_sweep-Quiet :
      (c : Config) (vga_gain lna_gain callback : ℕ) (d : Device) (s : Library)
      → Quiet p s (start_sweep p c vga_gain lna_gain callback d s).1
  unfolding live start_sweep set_vga_gain set_lna_gain
  start_sweep-Quiet c vga_gain lna_gain callback d s =
      let s1 = (set_vga_gain p d.usb_device vga_gain s).1 in
      let s2 = (set_lna_gain p d.usb_device lna_gain s1).1 in
      let r = start_rx p d callback 0 s2 in
      ground (arith, start_rx-Quiet p d callback 0 s2, begin_sweep-Quiet c r.0.1 r.1)

  -- Shutting a device down closes its handle.
  pub shutdown-loses :
      (d : Device) (s : Library) → live p (shutdown p d s).1.log ≡ lose d.usb_device (live p s.log)
  unfolding shutdown
  shutdown-loses d s =
      let r = stop_rx p d s in
      let u = (hackrf_close p (some r.0.1) r.1).1 in
      ground (arith, stop_rx-Stopped p d s, hackrf_close-loses p r.0.1 r.1, hackrf_exit-quiet p u)
