-- ===== src/Service/Balance.antt =====
-- What the check of the sweep service (src/lib/hackrf/hackrf_sweep_svc.c, `CheckHackRFStatus`) leaves
-- behind.
use hackrf.Prelude.{
  ℕ, zero, suc, ◌+◌, ◌^◌, ◌<◌, ◌≡◌, refl, ◌∙◌, Bool, true, false, Option, none, some, List, ◌∷◌,
  arith,
}
use hackrf.Prelude.Int.{pos}
use hackrf.Bytes.{Endian}
use hackrf.Errors.{HackrfError, success}
use hackrf.Platform.{Platform, Call}
use hackrf.Platform.Action.{Library}
use hackrf.Device.{Device}
use hackrf.Device.Lifecycle.{hackrf_init, hackrf_exit, count_close}
use hackrf.Device.Lists.{DeviceList, device_list, device_list_free, device_list_open}
use hackrf.Service.{Outcome, identify, check_device, check_devices, check_list, check_status}
use hackrf.Device.Lifecycle.Exit.{hackrf_init_opens}
use hackrf.Platform.Handles.{Quiet, live, lose, lose-gain}
use hackrf.Device.Lifecycle.Closing.{hackrf_close-loses}
use hackrf.Device.Lists.Handles.{
  device_list_free-Quiet, device_list-Quiet, device_list_open-Opening,
}
use hackrf.Service.Globals.{identify-Quiet}

module _ (p : Platform) where
  -- A device that is looked at to the end has been closed.
  check_device_closes :
      (host : Endian) (d : Device) (version text : List ℕ) (s : Library)
      → let r = check_device p host d version s in
        r.0 ≡ some (true, text)
        → (r.1.open_devices ≡ count_close s.open_devices)
          × (r.1.context ≡ s.context)
          × (live p r.1.log ≡ lose d.usb_device (live p s.log))
  unfolding check_device
  check_device_closes host d version text s e =
      let s1 = (identify p host d.usb_device version s).1 in
      ground (arith, identify-Quiet p host d.usb_device version s, hackrf_close-loses p d s1)

  -- One round, where the rounds after it close what they open.
  check_devices_round :
      (host : Endian) (l : DeviceList) (n i : ℕ) (version : List ℕ) (s : Library)
      → s.open_devices < 2 ^ 16
      → ((text : List ℕ) (u : Library)
          → u.open_devices < 2 ^ 16
          → (check_devices p host l n (i + 1) text u).0 ≡ some true
          → Quiet p u (check_devices p host l n (i + 1) text u).1)
      → (check_devices p host l (suc n) i version s).0 ≡ some true
      → Quiet p s (check_devices p host l (suc n) i version s).1
  unfolding check_devices
  check_devices_round host l n i version s few later e = find o.0 refl
    where
      o : (HackrfError × Option Device) × Library
      o = device_list_open p (some l) (pos i) true s

      find :
          (a : HackrfError × Option Device)
          → o.0 ≡ a
          → Quiet p s (check_devices p host l (suc n) i version s).1
      find (e', none) same =
          ground (arith, same, e, device_list_open-Opening p l i s, later version o.1)
      find (e', some d) same = close c.0 refl
        where
          c : Option (Bool × List ℕ) × Library
          c = check_device p host d version o.1

          close :
              (a : Option (Bool × List ℕ))
              → c.0 ≡ a
              → Quiet p s (check_devices p host l (suc n) i version s).1
          close none looked =
              ground (arith, same, looked, e, device_list_open-Opening p l i s, later version o.1)
          close (some (false, text)) looked =
              ground (arith, same, looked, e, device_list_open-Opening p l i s, later version o.1)
          close (some (true, text)) looked = ground (
            arith,
            same,
            looked,
            e,
            device_list_open-Opening p l i s,
            check_device_closes host d version text o.1 looked,
            later version o.1,
            later text c.1,
            lose-gain d.usb_device (live p s.log),
          )

  -- The loop, when it reaches its end, has closed what it has opened.
  check_devices-Quiet :
      (host : Endian) (l : DeviceList) (n i : ℕ) (version : List ℕ) (s : Library)
      → s.open_devices < 2 ^ 16
      → (check_devices p host l n i version s).0 ≡ some true
      → Quiet p s (check_devices p host l n i version s).1
  unfolding check_devices
  check_devices-Quiet host l zero i version s few e = (refl, refl, refl)
  check_devices-Quiet host l (suc n) i version s few e =
      check_devices_round host l n i version s few
        (λ text u. check_devices-Quiet host l n (i + 1) text u) e

  -- The library has let go of libusb, and the handles are those that were open.
  abbrev LetGo : Library → Library → Type 0
  LetGo s t =
      (t.open_devices ≡ 0)
      × (t.context ≡ false)
      × ((log : List Call) × (t.log ≡ Call.context_exit ∷ log))
      × (live p t.log ≡ live p s.log)

  hackrf_exit_lets_go :
      (s : Library) → s.open_devices ≡ 0 → s.context ≡ true → LetGo s (hackrf_exit s).1
  unfolding hackrf_exit live
  hackrf_exit_lets_go s none_open there = (
    ground (arith, none_open, there),
    ground (arith, none_open, there),
    (s.log, ground (arith, none_open, there)),
    ground (arith, none_open, there),
  )

  check_list_lets_go :
      (host : Endian) (list : Option DeviceList) (version : List ℕ) (s : Library)
      → s.open_devices ≡ 0
      → s.context ≡ true
      → (check_list p host list version s).0 ≡ some Outcome.checked
      → LetGo s (check_list p host list version s).1
  unfolding check_list
  check_list_lets_go host none version s none_open there e = ground arith
  check_list_lets_go host (some l) version s none_open there e =
      let r = check_devices p host l l.devicecount 0 version s in
      let t = (device_list_free l r.1).1 in
      let ended : r.0 ≡ some true = ground arith in
      let (counted, held, same) =
        check_devices-Quiet host l l.devicecount 0 version s (omega (arith, none_open)) ended in
      let (counted', held', same') = device_list_free-Quiet p l r.1 in
      let done =
        hackrf_exit_lets_go t (omega (arith, counted, counted', none_open))
          (held' ∙ (held ∙ there)) in
      ground (arith, ended, done, same, same')

  -- The check of the service, where it succeeds and no device was open before it: no device is counted
  -- as open, the context is gone, letting go of it was the last call, and every handle that was opened
  -- has been closed.
  pub check_status_lets_go :
      (host : Endian) (version buffer : List ℕ) (s : Library)
      → let r = check_status p host version buffer s in
        s.open_devices ≡ 0
        → r.0 ≡ some Outcome.checked
        → (r.1.open_devices ≡ 0)
          × (r.1.context ≡ false)
          × ((log : List Call) × (r.1.log ≡ Call.context_exit ∷ log))
          × (live p r.1.log ≡ live p s.log)
  unfolding check_status
  check_status_lets_go host version buffer s none_open e =
      let i = hackrf_init p s in
      let l = device_list p buffer i.1 in
      let began : i.0 ≡ success = ground arith in
      let (counted, there, same) = hackrf_init_opens p s began in
      let (counted', there', same') = device_list-Quiet p buffer i.1 in
      let done =
        check_list_lets_go host l.0 version l.1 (counted' ∙ (counted ∙ none_open))
          (there' ∙ there) in
      ground (arith, began, done, same, same')
