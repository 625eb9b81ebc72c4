-- ===== src/Sweep/Run/Prepare.antt =====
-- What `hackRFSweepThread` (src/lib/hackrf/hackrf_sweep.c) hands to `hackrf_sweep`.
use hackrf.Prelude.{◌≡◌, ◌≢◌, true}
use hackrf.Platform.{Platform}
use hackrf.Platform.Action.{Library}
use hackrf.Device.{Device}
use hackrf.Device.Ready.{IsReady}
use hackrf.Platform.Handles.{live, gain}
use hackrf.Device.Lifecycle.{count_open}

-- What a device needs for a sweep that ends well, and what it has changed.
pub record IsPrepared (p : Platform) (s : Library) (d : Device) (t : Library) : Type 0 where
  pub ready : IsReady d
  pub handle : d.usb_device ≢ 0
  pub counted : t.open_devices ≡ count_open s.open_devices
  has_context : t.context ≡ true
  pub held : live p t.log ≡ gain d.usb_device (live p s.log)
