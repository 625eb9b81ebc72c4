-- ===== src/Device/Lists/Serials.antt =====
-- The serial numbers in the list of devices (src/lib/hackrf/hackrf.c, `hackrf_device_list`), where libusb
-- answers the same each time.
use mathlib.Core.List.{append_assoc, append-nil}
use mathlib.Core.Path.{subst}
use hackrf.Prelude.{
  ℕ, suc, ◌+◌, ◌-◌, ◌%◌, ◌≤◌, ◌<◌, ◌≡◌, refl, sym, ap, ◌∙◌, inl, inr, true, Option, none, some,
  List, [], ◌∷◌, ◌++◌, length, take, set, replicate, length-append, ltb, if◌then◌else◌, Bool-cases,
  arith,
}
use hackrf.Prelude.Int.{pos}
use hackrf.Platform.{Platform, Call, Descriptor, ControlReply}
use hackrf.Platform.Action.{Library}
use hackrf.Device.Lifecycle.{is_hackrf}
use hackrf.Device.Lists.{DeviceList, device_list, add_devices, add_serial, add_device, empty_list}
use hackrf.Device.Lists.Hackrfs.{add_devices-eq, device_list_result}
use hackrf.Device.Lists.Texts.{IsText, text-read_serial, length-read_serial, set-append}

-- What libusb knows of the devices `ds`: their descriptors, and for each its handle and its serial number.
pub record Bus : Type 0 where
  pub devices : List ℕ
  pub descriptor : ℕ → Descriptor
  pub handle : ℕ → ℕ
  pub serial : ℕ → List ℕ

-- The platform answers by this bus each time: every device can be opened and tells its serial number, of
-- 32 characters, and there is memory for its copy.
pub record Steady (p : Platform) (b : Bus) : Type 0 where
  pub lists : (log : List Call) → p.device_list log ≡ some b.devices
  pub describes : (log : List Call) (d : ℕ) → p.describe log d ≡ b.descriptor d
  pub opens :
      (log : List Call) (d : ℕ)
      → p.open_reply log d ≡ record { result = pos 0; output = b.handle d }
  pub tells :
      (log : List Call) (d : ℕ)
      → p.string_reply log (b.handle d) (b.descriptor d).serial_index
        ≡ record { result = pos 32; received = b.serial d }
  pub copies : (log : List Call) → p.malloc log ≡ true
  pub whole : (d : ℕ) → length (b.serial d) ≡ 32
  pub texts : (d : ℕ) → IsText (b.serial d)

-- The entry of a device: its serial number, or NULL where it has none.
abbrev pub entry : Bus → ℕ → Option (List ℕ)
entry b d = if ltb 0 (b.descriptor d).serial_index then some (b.serial d) else none

abbrev pub entries : Bus → List ℕ → List (Option (List ℕ))
entries b [] = []
entries b (d ∷ ds) =
    let rest = entries b ds in if is_hackrf (b.descriptor d) then entry b d ∷ rest else rest

-- The array of serial numbers begins with these, and holds nothing behind them, in room for `n` more.
record Filled (es : List (Option (List ℕ))) (n : ℕ) (l : DeviceList) : Type 0 where
  room : ℕ
  enough : n ≤ room
  are : l.serials ≡ es ++ replicate room none
  counted : l.devicecount ≡ length es
  small : l.devicecount + n ≤ 256

module _ (p : Platform) (b : Bus) (steady : Steady p b) where
  add_serial-eq :
      (d idx : ℕ) (buffer : List ℕ) (l : DeviceList) (s : Library)
      → 32 < length buffer
      → let r = add_serial p d (b.descriptor d).serial_index idx buffer l s in
        (length r.0.0 ≡ length buffer)
        × (r.0.1 ≡ record l { serials = set l.serials idx (some (b.serial d)) })
  unfolding add_serial
  add_serial-eq d idx buffer l s room =
      let asked = Call.open_device d ∷ s.log in
      let told = Call.get_string_descriptor (b.handle d) (b.descriptor d).serial_index ∷ asked in
      let reply : ControlReply = record { result = pos 32; received = b.serial d } in
      ground (
        arith,
        steady.opens s.log d,
        steady.tells asked d,
        steady.copies told,
        length-read_serial buffer reply,
        text-read_serial buffer (b.serial d) (steady.whole d) room (steady.texts d),
      )

Filled-less :
    (es : List (Option (List ℕ))) (n : ℕ) (l : DeviceList) → Filled es (suc n) l → Filled es n l
Filled-less es n l h = record {
  room = h.room;
  enough = omega (arith, h.enough);
  are = h.are;
  counted = h.counted;
  small = omega (arith, h.small);
}

-- One more device, with its entry.
Filled-more :
    (es : List (Option (List ℕ))) (e : Option (List ℕ)) (n : ℕ) (l u : DeviceList)
    → Filled es (suc n) l
    → u.devicecount ≡ l.devicecount + 1
    → u.serials ≡ set l.serials (l.devicecount % 256) e
    → Filled (es ++ (e ∷ [])) n u
Filled-more es e n l u h more put =
    let r = h.room - 1 in
    let one_more : h.room ≡ suc r = omega (arith, h.enough) in
    let place : l.devicecount % 256 ≡ length es = omega (arith, h.small, h.counted) in
    record {
      room = r;
      enough = omega (arith, h.enough);
      are =
          put
          ∙ (ap (λ (k : ℕ). set l.serials k e) place
              ∙ (ap (λ (xs : List (Option (List ℕ))). set xs (length es) e)
                    (h.are ∙ ap (λ (k : ℕ). es ++ replicate k none) one_more)
                  ∙ (set-append es none (replicate r none) e
                      ∙ sym (append_assoc es (e ∷ []) (replicate r none)))));
      counted = omega (arith, more, h.counted, length-append es (e ∷ []));
      small = omega (arith, h.small, more);
    }

-- The entry of a device without a serial number is NULL already.
Filled-null :
    (es : List (Option (List ℕ))) (n : ℕ) (l : DeviceList)
    → Filled es (suc n) l
    → l.serials ≡ set l.serials (l.devicecount % 256) none
Filled-null es n l h =
    let r = h.room - 1 in
    let one_more : h.room ≡ suc r = omega (arith, h.enough) in
    let place : l.devicecount % 256 ≡ length es = omega (arith, h.small, h.counted) in
    let shape : l.serials ≡ es ++ (none ∷ replicate r none) =
      h.are ∙ ap (λ (k : ℕ). es ++ replicate k none) one_more in
    shape
    ∙ (sym (set-append es none (replicate r none) none)
        ∙ (ap (λ (xs : List (Option (List ℕ))). set xs (length es) none) (sym shape)
            ∙ ap (λ (k : ℕ). set l.serials k none) (sym place)))

Filled-append :
    (es : List (Option (List ℕ))) (e : Option (List ℕ)) (rest : List (Option (List ℕ))) (n : ℕ)
    (l : DeviceList)
    → Filled ((es ++ (e ∷ [])) ++ rest) n l
    → Filled (es ++ (e ∷ rest)) n l
Filled-append es e rest n l h =
    subst (λ (xs : List (Option (List ℕ))). Filled xs n l) (append_assoc es (e ∷ []) rest) h

module _ (p : Platform) (b : Bus) (steady : Steady p b) where
  -- The loop appends the entries of the HackRFs that it meets.
  add_devices-Filled :
      (i : ℕ) (ds buffer : List ℕ) (es : List (Option (List ℕ))) (l : DeviceList) (s : Library)
      → 32 < length buffer
      → Filled es (length ds) l
      → Filled (es ++ entries b ds) 0 (add_devices p i ds buffer l s).0
  unfolding add_devices
  add_devices-Filled i [] buffer es l s room h = rw (append-nil {A = Option (List ℕ)} es) h
  add_devices-Filled i (d ∷ ds) buffer es l s room h =
      rw (add_devices-eq p b.descriptor i d ds buffer l s (steady.describes s.log d))
        (elim (Bool-cases (is_hackrf (b.descriptor d))) [
          | inr e ↦
              rw e
                (add_devices-Filled (i + 1) ds buffer es l s room (Filled-less es (length ds) l h))
          | inl e ↦ rw e (elim (Bool-cases (ltb 0 (b.descriptor d).serial_index)) [
            | inl f ↦
                let h' =
                  Filled-more es (some (b.serial d)) (length ds) l r.0.1 h
                    (ap (λ (u : DeviceList). u.devicecount) read.1)
                    (ap (λ (u : DeviceList). u.serials) read.1) in
                rw f (
                  Filled-append es (some (b.serial d)) (entries b ds) 0 _ (
                    add_devices-Filled (i + 1) ds r.0.0 (es ++ (some (b.serial d) ∷ [])) r.0.1 r.1
                      (omega (arith, read.0, room)) h'))
            | inr f ↦
                let h' =
                  Filled-more es none (length ds) l added h refl (Filled-null es (length ds) l h) in
                rw f (
                  Filled-append es none (entries b ds) 0 _
                    (add_devices-Filled (i + 1) ds buffer (es ++ (none ∷ [])) added s room h'))
          ])
        ])
    where
      added : DeviceList
      added = add_device i (b.descriptor d).product l

      r : (List ℕ × DeviceList) × Library
      r = add_serial p d (b.descriptor d).serial_index (l.devicecount % 256) buffer added s

      read :
          (length r.0.0 ≡ length buffer)
          × (r.0.1 ≡ record added {
            serials = set added.serials (l.devicecount % 256) (some (b.serial d));
          })
      read = add_serial-eq p b steady d (l.devicecount % 256) buffer added s room

take-append-length {ℓ} : {A : Type ℓ} (xs ys : List A) → take (length xs) (xs ++ ys) ≡ xs
take-append-length [] ys = refl
take-append-length (x ∷ xs) ys = ap (λ zs. x ∷ zs) (take-append-length xs ys)

empty_list-Filled : (ds : List ℕ) → length ds ≤ 256 → Filled [] (length ds) (empty_list ds)
empty_list-Filled ds few = record {
  room = length ds;
  enough = omega arith;
  are = refl;
  counted = refl;
  small = omega (arith, few);
}

module _ (p : Platform) (b : Bus) (steady : Steady p b) where
  -- Where libusb answers the same each time, at most 256 devices can all be opened and tell serial
  -- numbers of 32 characters, there is memory, and the buffer has room for a number and its end: a list
  -- that is returned holds for each HackRF, in libusb's order, its serial number, or NULL where it has
  -- none.
  pub device_list-serials :
      (buffer : List ℕ) (s : Library) (l : DeviceList)
      → length b.devices ≤ 256
      → 32 < length buffer
      → (device_list p buffer s).0 ≡ some l
      → (l.devicecount ≡ length (entries b b.devices))
        × (take l.devicecount l.serials ≡ entries b b.devices)
  device_list-serials buffer s l few room e =
      let ds = b.devices in
      let (u, same) =
        device_list_result p b.descriptor ds buffer s l (steady.lists (Call.calloc_list ∷ s.log))
          e in
      let h : Filled (entries b ds) 0 l =
        subst (λ (x : DeviceList). Filled (entries b ds) 0 x) (sym same)
          (add_devices-Filled p b steady 0 ds buffer [] (empty_list ds) u room
            (empty_list-Filled ds few)) in
      (h.counted, rw (h.counted, h.are) (take-append-length (entries b ds) (replicate h.room none)))
