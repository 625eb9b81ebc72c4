-- ===== src/Device/Lists/Reopen.antt =====
-- A serial number from the list of devices, given to `hackrf_open_by_serial` (src/lib/hackrf/hackrf.c), opens the
-- device that it was read from.
use hackrf.Prelude.{
  ℕ, zero, suc, ◌≤◌, ◌<◌, ◌≡◌, ◌≢◌, refl, sym, ap, ◌∙◌, inl, inr, true, false, Option, some, List,
  [], ◌∷◌, length, take, drop, get_elem?, ◌&&◌, if◌then◌else◌, Bool-cases, arith,
}
use hackrf.Prelude.Int.{pos}
use hackrf.Prelude.Texts.{same, same→eq}
use hackrf.Platform.{Platform, Call}
use hackrf.Platform.Action.{Library}
use hackrf.Filter.Bounds.{IsEntry}
use hackrf.Device.Lifecycle.{is_hackrf, open_setup}
use hackrf.Device.Lifecycle.Serial.{
  is_candidate, compare_serial, find_serial, open_usb, open_by_serial, listed,
}
use hackrf.Device.Lists.{DeviceList, device_list}
use hackrf.Device.Lists.Serials.{Bus, Steady, entries, device_list-serials}

same_refl : (xs : List ℕ) → same xs xs ≡ true
same_refl [] = refl
same_refl (x ∷ xs) = ground (arith, same_refl xs)

take_all : (xs : List ℕ) → take (length xs) xs ≡ xs
take_all [] = refl
take_all (x ∷ xs) = ap (λ (ys : List ℕ). x ∷ ys) (take_all xs)

-- With 32 characters on both sides the comparison is that of the whole numbers.
compare_serial-same :
    (desired cs : List ℕ)
    → length desired ≡ 32
    → length cs ≡ 32
    → compare_serial desired (record { result = pos 32; received = cs }) ≡ some (same desired cs)
compare_serial-same desired cs a c =
    let t : take 32 cs ≡ cs = rw c at (take_all cs) in
    ground (arith, t, a, ap (λ (xs : List ℕ). drop 0 xs) t)

-- The handle of the first HackRF with the serial number, or NULL.
abbrev pub target : Bus → List ℕ → List ℕ → ℕ
target b desired [] = 0
target b desired (d ∷ ds) =
    let rest = target b desired ds in
    if is_candidate (b.descriptor d) && same desired (b.serial d) then b.handle d else rest

get_elem?-take :
    (n k : ℕ) (xs : List (Option (List ℕ))) (x : List ℕ)
    → k < n
    → get_elem? xs k ≡ some (some x)
    → get_elem? (take n xs) k ≡ some (some x)
get_elem?-take zero k xs x h e = absurd (omega arith)
get_elem?-take (suc n) k [] x h e = e
get_elem?-take (suc n) zero (y ∷ xs) x h e = e
get_elem?-take (suc n) (suc k) (y ∷ xs) x h e = get_elem?-take n k xs x (omega arith) e

module _ (b : Bus) where
  -- An entry with a number that the first device does not have comes from a later one.
  later_entry :
      (x : List ℕ) (d : ℕ) (ds : List ℕ) (k : ℕ)
      → (is_candidate (b.descriptor d) && same x (b.serial d)) ≡ false
      → get_elem? (entries b (d ∷ ds)) k ≡ some (some x)
      → (j : ℕ) × (get_elem? (entries b ds) j ≡ some (some x))
  later_entry x d ds k other e = elim (Bool-cases (is_hackrf (b.descriptor d))) [
    | inr n ↦ (k, ground (arith, n, e))
    | inl h ↦ go h k e
  ]
    where
      go :
          (h : is_hackrf (b.descriptor d) ≡ true) (j : ℕ)
          → get_elem? (entries b (d ∷ ds)) j ≡ some (some x)
          → (j : ℕ) × (get_elem? (entries b ds) j ≡ some (some x))
      go h zero e' = absurd (ground (arith, h, other, e', same_refl x))
      go h (suc j) e' = (j, ground (arith, h, e'))

  -- The first HackRF with the number of an entry has that number.
  entry-target :
      (x ds : List ℕ) (k : ℕ)
      → get_elem? (entries b ds) k ≡ some (some x)
      → (d : ℕ) × IsEntry d ds
        × (is_hackrf (b.descriptor d) ≡ true)
        × (b.serial d ≡ x)
        × (target b x ds ≡ b.handle d)
  entry-target x [] k e = absurd (ground arith)
  entry-target x (d ∷ ds) k e =
      elim (Bool-cases (is_candidate (b.descriptor d) && same x (b.serial d))) [
        | inl c ↦ (
          d,
          inl refl,
          ground (arith, c),
          sym (same→eq x (b.serial d) (ground (arith, c))),
          rw c refl,
        )
        | inr c ↦
            let (j, e') = later_entry x d ds k c e in
            let (d', at, h, is, t) = entry-target x ds j e' in (d', inr at, h, is, rw c t)
      ]

module _ (p : Platform) (b : Bus) (steady : Steady p b) where
  find_serial-target :
      (desired ds : List ℕ) (s : Library)
      → length desired ≡ 32
      → (find_serial p desired ds s).0 ≡ some (target b desired ds)
  unfolding find_serial
  find_serial-target desired [] s whole = refl
  find_serial-target desired (d ∷ ds) s whole =
      let asked = Call.open_device d ∷ s.log in
      let i = (b.descriptor d).serial_index in
      ground (
        arith,
        steady.describes s.log d,
        steady.opens s.log d,
        steady.tells asked d,
        compare_serial-same desired (b.serial d) whole (steady.whole d),
        find_serial-target desired ds s whole,
        find_serial-target desired ds
            (record s {
              log = Call.close (b.handle d) ∷ Call.get_string_descriptor (b.handle d) i ∷ asked;
            })
            whole,
      )

  pub open_by_serial-target :
      (desired : List ℕ) (s : Library)
      → length desired ≡ 32
      → target b desired b.devices ≢ 0
      → (t : Library) × (open_by_serial p (some desired) true s
          ≡ (let r = open_setup p (target b desired b.devices) t in (some r.0, r.1)))
  unfolding open_by_serial open_usb
  open_by_serial-target desired s whole there =
      let asked : Library = record s { log = Call.get_device_list ∷ s.log } in
      let u = (find_serial p desired b.devices asked).1 in
      (
        record u { log = Call.free_device_list ∷ u.log },
        ground (arith, steady.lists s.log, find_serial-target desired b.devices asked whole),
      )

  -- Where libusb answers the same each time, as for the serial numbers in the list, and every handle is
  -- not NULL: the serial number of any entry of a list that was returned, given to
  -- `hackrf_open_by_serial` at any later time, opens a HackRF of libusb that has exactly that number,
  -- and sets it up.
  pub device_list-open_by_serial :
      (buffer : List ℕ) (s : Library) (l : DeviceList) (k : ℕ) (x : List ℕ) (t : Library)
      → length b.devices ≤ 256
      → 32 < length buffer
      → ((d : ℕ) → b.handle d ≢ 0)
      → (device_list p buffer s).0 ≡ some l
      → k < l.devicecount
      → get_elem? l.serials k ≡ some (some x)
      → (d : ℕ) × IsEntry d b.devices
        × (is_hackrf (b.descriptor d) ≡ true)
        × (b.serial d ≡ x)
        × ((u : Library) × (open_by_serial p (some x) true t
              ≡ (let r = open_setup p (b.handle d) u in (some r.0, r.1))))
  device_list-open_by_serial buffer s l k x t few room there e below at =
      let (counted, es) = device_list-serials p b steady buffer s l few room e in
      let at' : get_elem? (entries b b.devices) k ≡ some (some x) =
        rw es at (get_elem?-take l.devicecount k l.serials x below at) in
      let (d, listed, h, is, hit) = entry-target b x b.devices k at' in
      let whole : length x ≡ 32 = rw is at (steady.whole d) in
      let (u, opened) = open_by_serial-target x t whole (λ z. there d (sym hit ∙ z)) in
      (d, listed, h, is, (u, rw hit at opened))
