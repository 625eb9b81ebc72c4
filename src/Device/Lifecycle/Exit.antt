-- ===== src/Device/Lifecycle/Exit.antt =====
-- When `hackrf_exit` (src/lib/hackrf/hackrf.c) lets go of libusb: after as many closes as opens, and not
-- right after a close of NULL.
use hackrf.Prelude.{
  ◌^◌, ◌<◌, ◌≡◌, ◌≢◌, refl, ◌⊎◌, true, false, Option, none, some, ◌∷◌, if◌then◌else◌, arith,
}
use hackrf.Errors.{success, not_last_device}
use hackrf.Platform.{Platform, Call}
use hackrf.Platform.Action.{Library}
use hackrf.Platform.Handles.{live, gain, lose-gain}
use hackrf.Device.{Device}
use hackrf.Device.Ready.{IsReady}
use hackrf.Device.Transfers.{TransferArray}
use hackrf.Device.Lifecycle.{hackrf_init, hackrf_open, hackrf_close, hackrf_exit, count_open}
use hackrf.Device.Lifecycle.Balance.{hackrf_open-Opens, hackrf_close-releases}

-- `hackrf_exit` refuses exactly while devices are open, and then changes nothing; otherwise it drops
-- the context, and calls libusb only if there was one.
pub hackrf_exit-eq :
    (s : Library)
    → ((s.open_devices ≢ 0) × (hackrf_exit s ≡ (not_last_device, s)))
      ⊎ ((s.open_devices ≡ 0)
          × (hackrf_exit s ≡ (
            success,
            record s {
              context = false;
              log = if s.context then Call.context_exit ∷ s.log else s.log;
            },
          )))
unfolding hackrf_exit
hackrf_exit-eq s = ground arith

module _ (p : Platform) where
  -- After a success of `hackrf_init` there is a context.
  pub hackrf_init_opens :
      (s : Library)
      → (hackrf_init p s).0 ≡ success
      → ((hackrf_init p s).1.open_devices ≡ s.open_devices)
        × ((hackrf_init p s).1.context ≡ true)
        × (live p (hackrf_init p s).1.log ≡ live p s.log)
  unfolding live hackrf_init
  hackrf_init_opens s e = ground arith

  pub hackrf_init-quiet :
      (s : Library)
      → ((hackrf_init p s).1.open_devices ≡ s.open_devices)
        × (live p (hackrf_init p s).1.log ≡ live p s.log)
  unfolding live hackrf_init
  hackrf_init-quiet s = ground arith

  pub hackrf_exit-quiet :
      (s : Library)
      → ((hackrf_exit s).1.open_devices ≡ s.open_devices)
        × (live p (hackrf_exit s).1.log ≡ live p s.log)
  unfolding live hackrf_exit
  hackrf_exit-quiet s = ground arith

  opened :
      (s t : Library) (d : Device)
      → hackrf_open p true s ≡ ((success, some d), t)
      → (IsReady d)
        × (d.usb_device ≢ 0)
        × (t.open_devices ≡ count_open s.open_devices)
        × (t.context ≡ s.context)
        × (live p t.log ≡ gain d.usb_device (live p s.log))
  opened s t d e = ground (arith, hackrf_open-Opens p s)

  -- Opening a device and closing it again leaves the count of open devices, the context and the open
  -- handles as they were, so the library can exit afterwards exactly if it could before. The count fits
  -- its uint16_t.
  pub open-close_balance :
      (s t : Library) (d : Device)
      → s.open_devices < 2 ^ 16
      → hackrf_open p true s ≡ ((success, some d), t)
      → let u = (hackrf_close p (some d) t).1 in
        (u.open_devices ≡ s.open_devices)
        × (u.context ≡ s.context)
        × ((hackrf_exit u).0 ≡ (hackrf_exit s).0)
        × (live p u.log ≡ live p s.log)
  unfolding hackrf_exit
  open-close_balance s t d h e = go d.transfers refl
    where
      go :
          (o : Option TransferArray)
          → d.transfers ≡ o
          → let u = (hackrf_close p (some d) t).1 in
            (u.open_devices ≡ s.open_devices)
            × (u.context ≡ s.context)
            × ((hackrf_exit u).0 ≡ (hackrf_exit s).0)
            × (live p u.log ≡ live p s.log)
      go none e' = ground (arith, opened s t d e)
      go (some ts) e' =
          let done = hackrf_close-releases p d ts t e' (opened s t d e).1 in
          ground
            (arith, opened s t d e, done.2, done.3, done.4, lose-gain d.usb_device (live p s.log))

  -- Closing NULL while no device is open reports success, but wraps the count of open devices to 65535:
  -- an exit right after it is refused, and changes nothing, as if a device were in use.
  pub hackrf_close_null :
      (s : Library)
      → s.open_devices ≡ 0
      → let u = (hackrf_close p none s).1 in
        ((hackrf_close p none s).0 ≡ success)
        × (u.open_devices ≡ 65535)
        × (hackrf_exit u ≡ (not_last_device, u))
  unfolding hackrf_close hackrf_exit
  hackrf_close_null s e = ground arith
