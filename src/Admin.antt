-- ===== src/Admin.antt =====
-- src/adm/hackrf_admin.c: `ConnectHackRFDevice`, and `StartHackRFAdmin`, which connects twice.
use hackrf.Prelude.{◌^◌, ◌+◌, ◌≡◌, ◌<◌, Bool, true, false, if◌then◌else◌, arith}
use hackrf.Errors.{not_last_device, ok}
use hackrf.Platform.{Platform}
use hackrf.Platform.Action.{Library, Action, ◌>>=◌, ◌>>◌, pure}
use hackrf.Device.Lifecycle.{hackrf_init, hackrf_open, hackrf_exit}
use hackrf.Device.Lifecycle.Balance.{hackrf_open-Opens}

module _ (p : Platform) where
  -- Whether it returns 0. The device is stored in the parameter of the function, and does not reach
  -- the caller.
  unfoldable pub connect_device : Action Bool
  connect_device = do
    e ← hackrf_init p
    elim (ok e) [ false ↦ pure false | true ↦ do r ← hackrf_open p true; pure (ok r.0) ]

  -- `StartHackRF`, which returns what the connection does; `StartHackRFAdmin` does not look at it.
  unfoldable pub start_hackrf : Action Bool
  unfolding connect_device
  start_hackrf = connect_device

  -- `StartHackRFAdmin`.
  unfoldable pub start_admin : Action Bool
  unfolding start_hackrf
  start_admin = start_hackrf >> connect_device

  -- A connection counts one device more exactly where it succeeds; the count fits its uint16_t.
  connect_device_counts :
      (s : Library)
      → s.open_devices + 1 < 2 ^ 16
      → let r = connect_device s in r.1.open_devices ≡ s.open_devices + (if r.0 then 1 else 0)
  unfolding connect_device hackrf_init
  connect_device_counts s few = ground (arith, hackrf_open-Opens p (hackrf_init p s).1)

  -- Starting the administration tool connects a second time where the first connection has succeeded:
  -- two devices are then counted as open, none of which the caller has.
  start_admin_counts :
      (s : Library)
      → s.open_devices + 2 < 2 ^ 16
      → let a = connect_device s in
        let r = start_admin s in
        r.1.open_devices ≡ s.open_devices + (if a.0 then 1 else 0) + (if r.0 then 1 else 0)
  unfolding start_admin start_hackrf
  start_admin_counts s few =
      ground (arith, connect_device_counts s, connect_device_counts (connect_device s).1)

  -- A connection that succeeds leaves one more device counted as open, and the library refuses to
  -- exit; the count fits its uint16_t.
  connect_device_holds :
      (s : Library)
      → s.open_devices + 1 < 2 ^ 16
      → let r = connect_device s in
        r.0 ≡ true
        → (r.1.open_devices ≡ s.open_devices + 1) × (hackrf_exit r.1 ≡ (not_last_device, r.1))
  unfolding connect_device hackrf_exit hackrf_init
  connect_device_holds s few e = ground (arith, hackrf_open-Opens p (hackrf_init p s).1)
