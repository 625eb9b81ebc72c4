-- ===== src/Device/Lists/Handles.antt =====
-- What the list of devices (src/lib/hackrf/hackrf.c) leaves of the globals and the open handles.
use hackrf.Prelude.{
  ℕ, zero, suc, ◌+◌, ◌%◌, ◌^◌, ◌≡◌, refl, true, Option, none, some, List, [], ◌∷◌, get_or, leb,
  if◌then◌else◌, Bool-cases, inl, inr, arith,
}
use hackrf.Prelude.Int.{pos, is_zero}
use hackrf.Errors.{libusb, invalid_param}
use hackrf.Platform.{Platform, Call, ListArray}
use hackrf.Platform.Action.{Library}
use hackrf.Platform.Handles.{Quiet, live, gain, lose-gain}
use hackrf.Device.Lifecycle.{open_setup}
use hackrf.Device.Lifecycle.Setup.{Opening, Opens-Opening, Ends-Opens, open_setup-Ends}
use hackrf.Device.Lists.{
  DeviceList, device_list, list_devices, add_devices, add_serial, allocate_arrays, device_list_free,
  free_serials, device_list_open, open_listed, add_device, empty_list,
}

module _ (p : Platform) where
  free_serials-Quiet :
      (n i : ℕ) (serials : List (Option (List ℕ))) (s : Library)
      → Quiet p s (free_serials n i serials s).1
  unfolding live free_serials
  free_serials-Quiet zero i serials s = (refl, refl, refl)
  free_serials-Quiet (suc n) i [] s = (refl, refl, refl)
  free_serials-Quiet (suc n) i (none ∷ serials) s = free_serials-Quiet n (i + 1) serials s
  free_serials-Quiet (suc n) i (some t ∷ serials) s =
      free_serials-Quiet n (i + 1) serials (record s { log = Call.free_serial i ∷ s.log })

  pub device_list_free-Quiet : (l : DeviceList) (s : Library) → Quiet p s (device_list_free l s).1
  unfolding live device_list_free
  device_list_free-Quiet l s =
      free_serials-Quiet l.devicecount 0 l.serials
        (record s { log = Call.free_device_list ∷ s.log })

  add_serial-Quiet :
      (d j idx : ℕ) (buffer : List ℕ) (l : DeviceList) (s : Library)
      → Quiet p s (add_serial p d j idx buffer l s).1
  unfolding live add_serial
  add_serial-Quiet d j idx buffer l s =
      ground (arith, lose-gain (p.open_reply s.log d).output (live p s.log))

  add_devices-Quiet :
      (i : ℕ) (ds buffer : List ℕ) (l : DeviceList) (s : Library)
      → Quiet p s (add_devices p i ds buffer l s).1
  unfolding live add_devices
  add_devices-Quiet i [] buffer l s = (refl, refl, refl)
  add_devices-Quiet i (d ∷ ds) buffer l s =
      let desc = p.describe s.log d in
      let added = add_device i desc.product l in
      let r = add_serial p d desc.serial_index (l.devicecount % 2 ^ 8) buffer added s in
      ground (
        arith,
        add_serial-Quiet d desc.serial_index (l.devicecount % 2 ^ 8) buffer added s,
        add_devices-Quiet (i + 1) ds buffer l s,
        add_devices-Quiet (i + 1) ds buffer added s,
        add_devices-Quiet (i + 1) ds r.0.0 r.0.1 r.1,
      )

  pub device_list-Quiet : (buffer : List ℕ) (s : Library) → Quiet p s (device_list p buffer s).1
  unfolding live device_list list_devices allocate_arrays
  device_list-Quiet buffer s = find (p.device_list (Call.calloc_list ∷ s.log)) refl
    where
      asked : Library
      asked = record s {
        log =
            Call.calloc_array ListArray.usb_device_index
            ∷ Call.calloc_array ListArray.usb_board_ids
            ∷ Call.calloc_array ListArray.serial_numbers
            ∷ Call.get_device_list
            ∷ Call.calloc_list
            ∷ s.log;
      }

      find :
          (found : Option (List ℕ))
          → p.device_list (Call.calloc_list ∷ s.log) ≡ found
          → Quiet p s (device_list p buffer s).1
      find none e = ground (arith, e, device_list_free-Quiet (empty_list []) asked)
      find (some ds) e = ground (
        arith,
        e,
        device_list_free-Quiet (empty_list ds) asked,
        add_devices-Quiet 0 ds buffer (empty_list ds) asked,
      )

  open_listed-eq :
      (d : ℕ) (s : Library)
      → let r = p.open_reply s.log d in
        let asked : Library = record s { log = Call.open_device d ∷ s.log } in
        open_listed p d s ≡ (
          if is_zero r.result
          then open_setup p r.output asked
          else ((libusb, none), record asked { last_libusb_error = r.result }))
  unfolding open_listed
  open_listed-eq d s = ground arith

  open_listed-Opening : (d : ℕ) (s : Library) → Opening p s (open_listed p d s)
  unfolding live
  open_listed-Opening d s =
      let asked : Library = record s { log = Call.open_device d ∷ s.log } in
      let h = (p.open_reply s.log d).output in
      let r = open_setup p h asked in
      elim (Bool-cases (is_zero (p.open_reply s.log d).result)) [
        | inl e ↦
            let gained : live p asked.log ≡ gain h (live p s.log) = ground (arith, e) in
            rw (open_listed-eq d s, e)
              (Opens-Opening p h s r
                (Ends-Opens p h s asked r refl refl gained (open_setup-Ends p h asked)))
        | inr e ↦ rw (open_listed-eq d s, e) (refl, refl, rw e refl)
      ]

  device_list_open_entry :
      (l : DeviceList) (i : ℕ) (s : Library)
      → device_list_open p (some l) (pos i) true s ≡ (
          if leb l.devicecount i
          then ((invalid_param, none), s)
          else open_listed p (get_or l.usb_devices (get_or l.device_index i 0) 0) s)
  unfolding device_list_open
  device_list_open_entry l i s = ground arith

  -- Opening an entry of a list either opens one handle more, which the device has, or leaves everything
  -- as it was.
  pub device_list_open-Opening :
      (l : DeviceList) (i : ℕ) (s : Library)
      → Opening p s (device_list_open p (some l) (pos i) true s)
  device_list_open-Opening l i s = elim (Bool-cases (leb l.devicecount i)) [
    | inl e ↦ rw (device_list_open_entry l i s, e) (refl, refl, refl)
    | inr e ↦
        rw (device_list_open_entry l i s, e)
          (open_listed-Opening (get_or l.usb_devices (get_or l.device_index i 0) 0) s)
  ]
