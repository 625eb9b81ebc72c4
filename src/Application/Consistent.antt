-- ===== src/Application/Consistent.antt =====
-- What an application of libhackrf (src/lib/hackrf/hackrf.c) can rely on: the library counts the devices that
-- it has open, and libusb has their handles open and no other.
use hackrf.Prelude.{
  ℕ, suc, ◌%◌, ◌^◌, ◌≡◌, ◌≢◌, refl, sym, ap, ◌∙◌, Option, none, some, List, ◌∷◌, length, true,
  arith,
}
use hackrf.Prelude.Int.{ℤ, pos}
use hackrf.Bytes.{Endian}
use hackrf.Errors.{HackrfError, success}
use hackrf.Platform.{Platform}
use hackrf.Platform.Action.{Library}
use hackrf.Platform.Handles.{Quiet, live, count}
use hackrf.Requests.Info.{version_string_read}
use hackrf.Requests.Flash.{cpld_write}
use hackrf.Requests.Flash.Cpld.{chunk_count}
use hackrf.Requests.Quiet.{version_string_read-Quiet, cpld_write-Quiet}
use hackrf.Device.{Device}
use hackrf.Device.Streaming.{HackrfTransfer}
use hackrf.Device.Lifecycle.{hackrf_init, hackrf_exit, hackrf_open, hackrf_close}
use hackrf.Device.Lifecycle.Setup.{Opening}
use hackrf.Device.Lifecycle.Closing.{hackrf_close-loses}
use hackrf.Device.Lifecycle.Serial.{open_by_serial}
use mathlib.Core.Option.{some-injective}
use mathlib.Core.Path.{subst}
use hackrf.Device.Lists.{device_list, device_list_free, device_list_open}
use hackrf.Device.Lists.Handles.{
  device_list_open-Opening, device_list-Quiet, device_list_free-Quiet,
}
use hackrf.Application.{
  Use, Act, inits, exits, opens, opens_serial, opens_entry, lists, frees, closes, closes_null,
  reads_version, writes_cpld, uses, SparesNull, World, adopt, pick, use_device, perform,
}
use hackrf.Application.Uses.{use_device-Kept}
use hackrf.Device.Lifecycle.Exit.{hackrf_init-quiet, hackrf_exit-quiet}
use hackrf.Application.Openings.{hackrf_open-Opening, open_by_serial-Opening}
use hackrf.Application.Counts.{count-gain, count-lose, holders, AllReady, Picked, pick-Picked}

module _ (p : Platform) (host : Endian) (user : ℕ → HackrfTransfer → ℤ) where
  -- The count of open devices, a uint16_t, is the number of devices; each of them has its four
  -- transfers; and libusb has a handle open as often as there is a device with it.
  pub record IsConsistent (w : World) : Type 0 where
    pub counted : w.library.open_devices ≡ length w.devices % 2 ^ 16
    pub ready : AllReady w.devices
    pub held : (h : ℕ) → h ≢ 0 → count h (live p w.library.log) ≡ holders h w.devices

  -- What leaves the count and the handles alone leaves the rest too.
  Quiet-IsConsistent :
      (w : World) (t : Library) (ds : List Device)
      → IsConsistent w
      → t.open_devices ≡ w.library.open_devices
      → live p t.log ≡ live p w.library.log
      → length ds ≡ length w.devices
      → AllReady ds
      → ((h : ℕ) → holders h ds ≡ holders h w.devices)
      → IsConsistent (record { library = t; devices = ds })
  Quiet-IsConsistent w t ds c counted same n ready held = record {
    counted = counted ∙ c.counted ∙ ap (λ (x : ℕ). x % 2 ^ 16) (sym n);
    ready = ready;
    held = λ h nz. ap (count h) same ∙ c.held h nz ∙ sym (held h);
  }

  adopt-IsConsistent :
      (w : World) (r : (HackrfError × Option Device) × Library)
      → IsConsistent w
      → Opening p w.library r
      → IsConsistent (adopt w.devices r)
  adopt-IsConsistent w ((success, some d), t) c (ready, idle, counted, held, gained) = record {
    counted = ground (arith, c.counted);
    ready = (ready, c.ready);
    held = λ h nz. ground (arith, c.held h nz, count-gain h d.usb_device (live p w.library.log) nz);
  }
  adopt-IsConsistent w ((success, none), t) c o = absurd o
  adopt-IsConsistent w ((e, some d), t) c o = absurd o
  adopt-IsConsistent w ((e, none), t) c (counted, held, same) =
      Quiet-IsConsistent w t w.devices c counted same refl c.ready (λ h. refl)

  -- What leaves the globals that count, and the handles, leaves consistency.
  quiet :
      (w : World) (t : Library)
      → IsConsistent w
      → t.open_devices ≡ w.library.open_devices
      → live p t.log ≡ live p w.library.log
      → IsConsistent (record w { library = t })
  quiet w t c counted same =
      Quiet-IsConsistent w t w.devices c counted same refl c.ready (λ h. refl)

  closes-IsConsistent :
      (w : World) (d : Device) (rest : List Device)
      → IsConsistent w
      → Picked w.devices (some (d, rest))
      → IsConsistent (record { library = (hackrf_close p (some d) w.library).1; devices = rest })
  unfolding Picked
  closes-IsConsistent w d rest c (ready, n, held) =
      let (counted, context, lost) = hackrf_close-loses p d w.library in
      record {
        counted = ground (arith, counted, c.counted, n);
        ready = (ready c.ready).1;
        held = λ h nz.
            ap (count h) lost
            ∙ count-lose h d.usb_device (holders h rest) (live p w.library.log) nz
                (c.held h nz ∙ held h);
      }

  uses-IsConsistent :
      (w : World) (act : Use) (d : Device) (rest : List Device)
      → IsConsistent w
      → Picked w.devices (some (d, rest))
      → let r = use_device p host user act d w.library in
        IsConsistent (record { library = r.1; devices = r.0 ∷ rest })
  unfolding Picked
  uses-IsConsistent w act d rest c (ready, n, held) =
      let r = use_device p host user act d w.library in
      let (kept, same, left) = use_device-Kept p user host act d w.library (ready c.ready).0 in
      Quiet-IsConsistent w r.1 (r.0 ∷ rest) c left.0 left.2 (sym n) (kept, (ready c.ready).1)
        (λ h. ground (arith, same, held h))

  arrive : (w v : World) → some w ≡ some v → IsConsistent w → IsConsistent v
  arrive w v e c = subst IsConsistent (some-injective w v e) c

  serial-IsConsistent :
      (w v : World) (o : Option (HackrfError × Option Device)) (t : Library)
      → IsConsistent w
      → ((r : HackrfError × Option Device) → o ≡ some r → Opening p w.library (r, t))
      → (elim o [ none ↦ none | some r ↦ some (adopt w.devices (r, t)) ]) ≡ some v
      → IsConsistent v
  serial-IsConsistent w v none t c opened e = absurd (ground arith)
  serial-IsConsistent w v (some r) t c opened e =
      arrive (adopt w.devices (r, t)) v e (adopt-IsConsistent w (r, t) c (opened r refl))

  pub perform-IsConsistent :
      (act : Act) (w v : World)
      → SparesNull act
      → IsConsistent w
      → perform p host user act w ≡ some v
      → IsConsistent v
  unfolding perform
  perform-IsConsistent inits w v spares c e =
      let t = (hackrf_init p w.library).1 in
      arrive (record w { library = t }) v e
        (quiet w t c (hackrf_init-quiet p w.library).0 (hackrf_init-quiet p w.library).1)
  perform-IsConsistent exits w v spares c e =
      let t = (hackrf_exit w.library).1 in
      arrive (record w { library = t }) v e
        (quiet w t c (hackrf_exit-quiet p w.library).0 (hackrf_exit-quiet p w.library).1)
  perform-IsConsistent opens w v spares c e =
      let r = hackrf_open p true w.library in
      arrive (adopt w.devices r) v e (adopt-IsConsistent w r c (hackrf_open-Opening p w.library))
  perform-IsConsistent (opens_serial desired) w v spares c e =
      let r = open_by_serial p (some desired) true w.library in
      serial-IsConsistent w v r.0 r.1 c (open_by_serial-Opening p desired w.library) e
  perform-IsConsistent (opens_entry list i) w v spares c e =
      let r = device_list_open p (some list) (pos i) true w.library in
      arrive (adopt w.devices r) v e
        (adopt-IsConsistent w r c (device_list_open-Opening p list i w.library))
  perform-IsConsistent (lists buffer) w v spares c e =
      let t = (device_list p buffer w.library).1 in
      let left = device_list-Quiet p buffer w.library in
      arrive (record w { library = t }) v e (quiet w t c left.0 left.2)
  perform-IsConsistent (frees list) w v spares c e =
      let t = (device_list_free list w.library).1 in
      let left = device_list_free-Quiet p list w.library in
      arrive (record w { library = t }) v e (quiet w t c left.0 left.2)
  perform-IsConsistent (closes i) w v spares c e = go (pick i w.devices) (pick-Picked i w.devices) e
    where
      go :
          (o : Option (Device × List Device))
          → Picked w.devices o
          → (elim o [
            | none ↦ some w
            | some (d, rest) ↦
                some (record { library = (hackrf_close p (some d) w.library).1; devices = rest })
          ])
            ≡ some v
          → IsConsistent v
      go none m e' = arrive w v e' c
      go (some (d, rest)) m e' =
          let u : World = record {
            library = (hackrf_close p (some d) w.library).1;
            devices = rest;
          } in
          arrive u v e' (closes-IsConsistent w d rest c m)
  perform-IsConsistent closes_null w v spares c e = absurd spares
  perform-IsConsistent (reads_version i buffer size) w v spares c e = go (pick i w.devices) e
    where
      read :
          (o : Option (HackrfError × List ℕ)) (t : Library)
          → Quiet p w.library t
          → (elim o [ none ↦ none | some x ↦ some (record w { library = t }) ]) ≡ some v
          → IsConsistent v
      read none t left e' = absurd (ground arith)
      read (some x) t left e' = arrive (record w { library = t }) v e' (quiet w t c left.0 left.2)

      go :
          (o : Option (Device × List Device))
          → (elim o [
            | none ↦ some w
            | some (d, rest) ↦
                let r = version_string_read p d.usb_device buffer size w.library in
                elim r.0 [ none ↦ none | some x ↦ some (record w { library = r.1 }) ]
          ])
            ≡ some v
          → IsConsistent v
      go none e' = arrive w v e' c
      go (some (d, rest)) e' =
          let r = version_string_read p d.usb_device buffer size w.library in
          read r.0 r.1 (version_string_read-Quiet p d.usb_device buffer size w.library) e'
  perform-IsConsistent (writes_cpld i total) w v spares c e = go (pick i w.devices) e
    where
      written :
          (o : Option HackrfError) (t : Library)
          → Quiet p w.library t
          → (elim o [ none ↦ none | some x ↦ some (record w { library = t }) ]) ≡ some v
          → IsConsistent v
      written none t left e' = absurd (ground arith)
      written (some x) t left e' =
          arrive (record w { library = t }) v e' (quiet w t c left.0 left.2)

      go :
          (o : Option (Device × List Device))
          → (elim o [
            | none ↦ some w
            | some (d, rest) ↦
                let r = cpld_write p (suc (chunk_count total)) d.usb_device total w.library in
                elim r.0 [ none ↦ none | some x ↦ some (record w { library = r.1 }) ]
          ])
            ≡ some v
          → IsConsistent v
      go none e' = arrive w v e' c
      go (some (d, rest)) e' =
          let n = suc (chunk_count total) in
          let r = cpld_write p n d.usb_device total w.library in
          written r.0 r.1 (cpld_write-Quiet p n d.usb_device total w.library) e'
  perform-IsConsistent (uses i u) w v spares c e = go (pick i w.devices) (pick-Picked i w.devices) e
    where
      go :
          (o : Option (Device × List Device))
          → Picked w.devices o
          → (elim o [
            | none ↦ some w
            | some (d, rest) ↦
                let r = use_device p host user u d w.library in
                some (record { library = r.1; devices = r.0 ∷ rest })
          ])
            ≡ some v
          → IsConsistent v
      go none m e' = arrive w v e' c
      go (some (d, rest)) m e' =
          let r = use_device p host user u d w.library in
          let x : World = record { library = r.1; devices = r.0 ∷ rest } in
          arrive x v e' (uses-IsConsistent w u d rest c m)
