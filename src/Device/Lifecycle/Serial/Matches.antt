-- ===== src/Device/Lifecycle/Serial/Matches.antt =====
-- What `hackrf_open_by_serial` (src/lib/hackrf/hackrf.c) opens.
use hackrf.Prelude.{
  ℕ, ◌-◌, ◌≡◌, ◌≢◌, refl, sym, ap, ◌∙◌, ◌⊎◌, inl, inr, true, Bool-cases, ==_iff, ◌==◌, Option, none,
  some, List, [], ◌∷◌, ◌++◌, length, take, drop, take-append-drop, leb, if◌then◌else◌, ◌≤◌, arith,
}
use hackrf.Prelude.Int.{ℤ, pos, negsuc}
use hackrf.Prelude.Texts.{same, same→eq}
use hackrf.Errors.{HackrfError, not_found}
use hackrf.Platform.{Platform, Call, ControlReply}
use hackrf.Platform.Action.{Library}
use hackrf.Device.{Device}
use hackrf.Filter.Bounds.{IsEntry}
use hackrf.Platform.Handles.{Quiet, live, gain, gain_null, lose-gain}
use hackrf.Device.Lifecycle.{open_setup}
use hackrf.Device.Lifecycle.Setup.{Opens, Ends-Opens, open_setup-Ends}
use hackrf.Device.Lifecycle.Serial.{
  is_candidate, compare_serial, find_serial, open_usb, open_by_serial, listed,
}

-- The serial number that a device answered, cut to 32 characters, is some front with the desired number
-- behind it.
pub record EndsIn (desired : List ℕ) (r : ControlReply) : Type 0 where
  pub size : ℕ
  pub front : List ℕ
  pub answered : r.result ≡ pos size
  pub whole : take (if leb 32 size then 32 else size) r.received ≡ front ++ desired

compare_serial-EndsIn :
    (desired : List ℕ) (r : ControlReply) → compare_serial desired r ≡ some true → EndsIn desired r
compare_serial-EndsIn desired r e = go r.result refl
  where
    go : (z : ℤ) → r.result ≡ z → EndsIn desired r
    go (negsuc n) z = absurd (ground (arith, z))
    go (pos n) z =
        let size = if leb 32 n then 32 else n in
        let cut = take size r.received in
        let k = size - length desired in
        let hit : same desired (drop k cut) ≡ true = ground (arith, z) in
        record {
          size = n;
          front = take k cut;
          answered = z;
          whole =
              sym (take-append-drop k cut)
              ∙ ap (λ (ys : List ℕ). take k cut ++ ys) (sym (same→eq desired (drop k cut) hit));
        }

module _ (p : Platform) where
  -- The handle is that of a listed device, which is a HackRF with a serial number, and the number
  -- that it answered, cut to 32 characters, ends in the desired one.
  pub record Matched (desired ds : List ℕ) (handle : ℕ) : Type 0 where
    pub device : ℕ
    pub log : List Call
    pub entry : IsEntry device ds
    pub candidate : is_candidate (p.describe log device) ≡ true
    pub opened : (p.open_reply log device).output ≡ handle
    pub ends :
        EndsIn desired (
          p.string_reply
            (Call.open_device device ∷ log)
            handle
            (p.describe log device).serial_index)

  -- What a search leaves: the globals as they were, and the handle that it returns as the one more that
  -- is open.
  abbrev Finds : Library → Option ℕ × Library → Type 0
  Finds s (none, t) = (t.open_devices ≡ s.open_devices) × (t.context ≡ s.context)
  Finds s (some handle, t) =
      (t.open_devices ≡ s.open_devices)
      × (t.context ≡ s.context)
      × (live p t.log ≡ gain handle (live p s.log))

  Finds-after :
      (s t : Library) (r : Option ℕ × Library)
      → t.open_devices ≡ s.open_devices
      → t.context ≡ s.context
      → live p t.log ≡ live p s.log
      → Finds t r
      → Finds s r
  Finds-after s t (none, u) counted held same h = ground arith
  Finds-after s t (some handle, u) counted held same h = ground arith

  find_serial-Finds : (desired ds : List ℕ) (s : Library) → Finds s (find_serial p desired ds s)
  unfolding find_serial live
  find_serial-Finds desired [] s = (refl, refl, sym (gain_null (live p s.log)))
  find_serial-Finds desired (d ∷ ds) s =
      let h = (p.open_reply s.log d).output in
      let i = (p.describe s.log d).serial_index in
      let refused : Library = record s { log = Call.open_device d ∷ s.log } in
      let closed : Library = record s {
        log = Call.close h ∷ Call.get_string_descriptor h i ∷ Call.open_device d ∷ s.log;
      } in
      ground (
        arith,
        find_serial-Finds desired ds s,
        Finds-after s refused (find_serial p desired ds refused) refl refl,
        Finds-after s closed (find_serial p desired ds closed) refl refl,
        find_serial-Finds desired ds refused,
        find_serial-Finds desired ds closed,
        lose-gain h (live p s.log),
      )

  later :
      (desired ds : List ℕ) (d handle : ℕ)
      → Matched desired ds handle
      → Matched desired (d ∷ ds) handle
  later desired ds d handle m = record {
    device = m.device;
    log = m.log;
    entry = inr m.entry;
    candidate = m.candidate;
    opened = m.opened;
    ends = m.ends;
  }

  this :
      (desired ds : List ℕ) (d : ℕ) (log : List Call)
      → is_candidate (p.describe log d) ≡ true
      → let h = (p.open_reply log d).output in
        compare_serial desired
            (p.string_reply (Call.open_device d ∷ log) h (p.describe log d).serial_index)
          ≡ some true
        → Matched desired (d ∷ ds) h
  this desired ds d log c e = record {
    device = d;
    log = log;
    entry = inl refl;
    candidate = c;
    opened = refl;
    ends = compare_serial-EndsIn desired _ e;
  }

  find_serial-Matched :
      (desired ds : List ℕ) (s : Library) (handle : ℕ)
      → (find_serial p desired ds s).0 ≡ some handle
      → (handle ≡ 0) ⊎ Matched desired ds handle
  unfolding find_serial
  find_serial-Matched desired [] s handle e = ground arith
  find_serial-Matched desired (d ∷ ds) s handle e =
      let h = (p.open_reply s.log d).output in
      let i = (p.describe s.log d).serial_index in
      ground (
        arith,
        find_serial-Matched desired ds s handle,
        find_serial-Matched desired ds (record s { log = Call.open_device d ∷ s.log }) handle,
        find_serial-Matched desired ds
            (record s {
              log = Call.close h ∷ Call.get_string_descriptor h i ∷ Call.open_device d ∷ s.log;
            })
            handle,
        later desired ds d handle,
        this desired ds d s.log,
      )

  open_usb-Matched :
      (desired : List ℕ) (s : Library) (handle : ℕ)
      → (open_usb p desired s).0 ≡ some handle
      → let t = (open_usb p desired s).1 in
        (t.open_devices ≡ s.open_devices)
        × (t.context ≡ s.context)
        × (live p t.log ≡ gain handle (live p s.log))
        × ((handle ≡ 0)
            ⊎ ((length desired ≤ 32) × Matched desired (listed p (p.device_list s.log)) handle))
  unfolding open_usb live gain
  open_usb-Matched desired s handle e =
      let t : Library = record s { log = Call.get_device_list ∷ s.log } in
      let ds = listed p (p.device_list s.log) in
      ground (arith, find_serial-Finds desired ds t, find_serial-Matched desired ds t handle)

  -- Opening by serial number, where no access is out of bounds, either reports that no device was
  -- found and changes neither the count of open devices, nor the context, nor which handles are open, or
  -- sets up the handle, which is not NULL, of a listed HackRF whose serial number ends in the desired
  -- one, which has at most 32 characters; that handle is the one more that is open after a success, and
  -- after a failure no other than before are.
  pub open_by_serial-Opens :
      (desired : List ℕ) (s : Library) (r : HackrfError × Option Device)
      → (open_by_serial p (some desired) true s).0 ≡ some r
      → let t = (open_by_serial p (some desired) true s).1 in
        ((r ≡ (not_found, none)) × Quiet p s t)
        ⊎ ((handle : ℕ) × (handle ≢ 0)
            × (length desired ≤ 32)
            × Matched desired (listed p (p.device_list s.log)) handle
            × Opens p handle s (r, t))
  unfolding open_by_serial
  open_by_serial-Opens desired s r e = go (open_usb p desired s).0 refl
    where
      t : Library
      t = (open_usb p desired s).1

      go :
          (o : Option ℕ)
          → (open_usb p desired s).0 ≡ o
          → let u = (open_by_serial p (some desired) true s).1 in
            ((r ≡ (not_found, none)) × Quiet p s u)
            ⊎ ((handle : ℕ) × (handle ≢ 0)
                × (length desired ≤ 32)
                × Matched desired (listed p (p.device_list s.log)) handle
                × Opens p handle s (r, u))
      go none e' = ground arith
      go (some h) e' =
          let (counted, held, gained, found) = open_usb-Matched desired s h e' in
          elim (Bool-cases (h == 0)) [
            | inl z ↦
                let same : live p t.log ≡ live p s.log =
                  gained
                  ∙ (ap (λ (x : ℕ). gain x (live p s.log)) ((==_iff h 0).0 z)
                      ∙ gain_null (live p s.log)) in
                inl (ground arith, ground arith)
            | inr z ↦ elim found [
              | inl f ↦ absurd (ground arith)
              | inr (short, m) ↦ inr (
                h,
                ground arith,
                short,
                m,
                ground (
                  arith,
                  Ends-Opens p h s t (open_setup p h t) counted held gained (open_setup-Ends p h t),
                ),
              )
            ]
          ]
