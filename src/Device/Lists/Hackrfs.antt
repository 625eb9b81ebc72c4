-- ===== src/Device/Lists/Hackrfs.antt =====
-- What `hackrf_device_list` (src/lib/hackrf/hackrf.c) lists: exactly the HackRFs among the devices of
-- libusb, in their order, and what `hackrf_device_list_open` opens.
use mathlib.Core.List.{append_assoc, append-nil}
use hackrf.Prelude.{
  ℕ, zero, suc, ◌+◌, ◌-◌, ◌%◌, ◌≤◌, ◌<◌, ◌≡◌, refl, ap, ◌∙◌, inl, inr, true, none, some, List, [],
  ◌∷◌, ◌++◌, length, take, get_or, ltb, if◌then◌else◌, Bool-cases, arith,
}
use hackrf.Platform.{Platform, Call, Descriptor, serial_numbers, usb_board_ids, usb_device_index}
use hackrf.Errors.{invalid_param}
use hackrf.Prelude.Int.{pos}
use hackrf.Platform.Action.{Library}
use hackrf.Device.Lifecycle.{is_hackrf}
use hackrf.Device.Lists.{
  DeviceList, add_device, add_serial, add_devices, empty_list, list_devices, device_list,
  device_list_open, open_listed, allocate_arrays,
}
use hackrf.Device.Lists.Entries.{
  Holds, SameEntries, Holds-less, Holds-same, add_device-Holds, empty_list-Holds, get_or-take,
}

module _ (p : Platform) (desc : ℕ → Descriptor) where
  -- The HackRFs among some devices, where they stand from `i` on, and their products.
  abbrev pub hackrfs : List ℕ → List ℕ
  hackrfs [] = []
  hackrfs (d ∷ ds) = let rest = hackrfs ds in if is_hackrf (desc d) then d ∷ rest else rest

  abbrev pub indices : ℕ → List ℕ → List ℕ
  indices i [] = []
  indices i (d ∷ ds) =
      let rest = indices (i + 1) ds in if is_hackrf (desc d) then i ∷ rest else rest

  abbrev pub products : List ℕ → List ℕ
  products [] = []
  products (d ∷ ds) =
      let rest = products ds in if is_hackrf (desc d) then (desc d).product ∷ rest else rest

  add_serial-SameEntries :
      (d j idx : ℕ) (buffer : List ℕ) (l : DeviceList) (s : Library)
      → SameEntries l (add_serial p d j idx buffer l s).0.1
  unfolding add_serial
  add_serial-SameEntries d j idx buffer l s = ground arith

  -- One round, where the descriptor is known.
  pub add_devices-eq :
      (i d : ℕ) (ds buffer : List ℕ) (l : DeviceList) (s : Library)
      → p.describe s.log d ≡ desc d
      → let added = add_device i (desc d).product l in
        let r = add_serial p d (desc d).serial_index (l.devicecount % 256) buffer added s in
        add_devices p i (d ∷ ds) buffer l s ≡ (
          if is_hackrf (desc d)
          then (if ltb 0 (desc d).serial_index
              then add_devices p (i + 1) ds r.0.0 r.0.1 r.1
              else add_devices p (i + 1) ds buffer added s)
          else add_devices p (i + 1) ds buffer l s)
  unfolding add_devices
  add_devices-eq i d ds buffer l s e = ground (arith, e)

  -- What the loop leaves, from `i` on, behind the entries that it started with.
  abbrev Grown : ℕ → List ℕ → List ℕ → List ℕ → List ℕ → DeviceList → Type 0
  Grown i ds devices xs ys u =
      Holds (xs ++ indices i ds) (ys ++ products ds) 0 u × (u.usb_devices ≡ devices)

  Grown-append :
      (i k : ℕ) (ds devices xs ys : List ℕ) (u : DeviceList)
      → Grown (i + 1) ds devices (xs ++ (i ∷ [])) (ys ++ (k ∷ [])) u
      → Holds (xs ++ (i ∷ indices (i + 1) ds)) (ys ++ (k ∷ products ds)) 0 u
        × (u.usb_devices ≡ devices)
  Grown-append i k ds devices xs ys u (h, same) = (simp append_assoc at h, same)

  -- The loop appends what it finds.
  add_devices-Grown :
      (stable : (log : List Call) (d : ℕ) → p.describe log d ≡ desc d) (i : ℕ)
      (ds xs ys buffer : List ℕ) (l : DeviceList) (s : Library)
      → Holds xs ys (length ds) l
      → Grown i ds l.usb_devices xs ys (add_devices p i ds buffer l s).0
  unfolding add_devices
  add_devices-Grown stable i [] xs ys buffer l s h = (simp append-nil h, refl)
  add_devices-Grown stable i (d ∷ ds) xs ys buffer l s h =
      rw (add_devices-eq i d ds buffer l s (stable s.log d))
        (elim (Bool-cases (is_hackrf (desc d))) [
          | inr e ↦ rw e (
              add_devices-Grown stable (i + 1) ds xs ys buffer l s
                (Holds-less xs ys (length ds) l h))
          | inl e ↦ rw e (elim (Bool-cases (ltb 0 (desc d).serial_index)) [
            | inl f ↦
                let (grown, kept) =
                  add_devices-Grown stable (i + 1) ds xs' ys' r.0.0 r.0.1 r.1
                    (Holds-same xs' ys' (length ds) added r.0.1 same held) in
                rw f (Grown-append i k ds l.usb_devices xs ys _ (grown, kept ∙ same.3))
            | inr f ↦ rw f (
                Grown-append i k ds l.usb_devices xs ys _
                  (add_devices-Grown stable (i + 1) ds xs' ys' buffer added s held))
          ])
        ])
    where
      k : ℕ
      k = (desc d).product

      xs' : List ℕ
      xs' = xs ++ (i ∷ [])

      ys' : List ℕ
      ys' = ys ++ (k ∷ [])

      added : DeviceList
      added = add_device i k l

      held : Holds xs' ys' (length ds) added
      held = add_device-Holds xs ys (length ds) i k l h

      r : (List ℕ × DeviceList) × Library
      r = add_serial p d (desc d).serial_index (l.devicecount % 256) buffer added s

      same : SameEntries added r.0.1
      same = add_serial-SameEntries d (desc d).serial_index (l.devicecount % 256) buffer added s

  -- Where it returns a list, the loop has run over the devices.
  pub device_list_result :
      (ds buffer : List ℕ) (s : Library) (l : DeviceList)
      → p.device_list (Call.calloc_list ∷ s.log) ≡ some ds
      → (device_list p buffer s).0 ≡ some l
      → (u : Library) × (l ≡ (add_devices p 0 ds buffer (empty_list ds) u).0)
  unfolding device_list list_devices allocate_arrays
  device_list_result ds buffer s l found e = (
    record s {
      log =
          Call.calloc_array usb_device_index
          ∷ Call.calloc_array usb_board_ids
          ∷ Call.calloc_array serial_numbers
          ∷ Call.get_device_list
          ∷ Call.calloc_list
          ∷ s.log;
    },
    ground (arith, found),
  )

  -- Where libusb gives a device the same descriptor each time, and there are at most 256 devices,
  -- a list that is returned names exactly the HackRFs among the devices of libusb, in their order:
  -- its count, the place of each and its product.
  pub device_list-lists :
      (stable : (log : List Call) (d : ℕ) → p.describe log d ≡ desc d) (ds buffer : List ℕ)
      (s : Library) (l : DeviceList)
      → p.device_list (Call.calloc_list ∷ s.log) ≡ some ds
      → length ds ≤ 256
      → (device_list p buffer s).0 ≡ some l
      → (l.usb_devices ≡ ds)
        × (l.devicecount ≡ length (indices 0 ds))
        × (take l.devicecount l.device_index ≡ indices 0 ds)
        × (take l.devicecount l.board_ids ≡ products ds)
  device_list-lists stable ds buffer s l found few e =
      let (u, same) = device_list_result ds buffer s l found e in
      let (h, devices) =
        add_devices-Grown stable 0 ds [] [] buffer (empty_list ds) u (empty_list-Holds ds few) in
      rw same (devices, h.counted, h.indices_are, h.boards_are)

  -- Behind the places of the HackRFs stand the HackRFs.
  indices-hackrfs :
      (ds : List ℕ) (i k : ℕ)
      → k < length (indices i ds)
      → (i ≤ get_or (indices i ds) k 0)
        × (get_or ds (get_or (indices i ds) k 0 - i) 0 ≡ get_or (hackrfs ds) k 0)
  indices-hackrfs [] i k h = absurd (omega arith)
  indices-hackrfs (d ∷ ds) i zero h = ground (arith, indices-hackrfs ds (i + 1) zero)
  indices-hackrfs (d ∷ ds) i (suc k) h =
      ground (arith, indices-hackrfs ds (i + 1) k, indices-hackrfs ds (i + 1) (suc k))

  -- Opening an entry of such a list opens the HackRF of that number among the devices, and sets it
  -- up; an index from the count on is refused, and nothing happens.
  pub device_list_open-eq :
      (stable : (log : List Call) (d : ℕ) → p.describe log d ≡ desc d) (ds buffer : List ℕ)
      (s t : Library) (l : DeviceList) (idx : ℕ)
      → p.device_list (Call.calloc_list ∷ s.log) ≡ some ds
      → length ds ≤ 256
      → (device_list p buffer s).0 ≡ some l
      → device_list_open p (some l) (pos idx) true t ≡ (
          if ltb idx (length (indices 0 ds))
          then open_listed p (get_or (hackrfs ds) idx 0) t
          else ((invalid_param, none), t))
  unfolding device_list_open
  device_list_open-eq stable ds buffer s t l idx found few e =
      let (devices, counted, places, boards) = device_list-lists stable ds buffer s l found few e in
      ground (
        arith,
        devices,
        counted,
        indices-hackrfs ds 0 idx,
        get_or-take l.device_index l.devicecount idx,
        ap (λ (xs : List ℕ). get_or xs idx 0) places,
      )
