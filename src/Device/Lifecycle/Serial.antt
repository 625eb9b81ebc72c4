-- ===== src/Device/Lifecycle/Serial.antt =====
-- src/lib/hackrf/hackrf.c: `hackrf_open_by_serial` and `hackrf_open_usb`, which look for a device by
-- the end of its serial number.
pub mod Matches
use hackrf.Prelude.{
  ℕ, ◌-◌, Bool, true, false, Option, none, some, List, [], ◌∷◌, length, take, drop, not, ◌&&◌, ◌||◌,
  ltb, leb, ◌==◌, if◌then◌else◌,
}
use hackrf.Prelude.Texts.{same}
use hackrf.Prelude.Int.{pos, negsuc, is_zero}
use hackrf.Errors.{HackrfError, invalid_param, not_found}
use hackrf.Platform.{Platform, Call, ControlReply, Descriptor}
use hackrf.Platform.Action.{Action, ◌>>=◌, ◌>>◌, pure, ask, tell}
use hackrf.Device.{Device}
use hackrf.Device.Lifecycle.{is_hackrf, null, hackrf_open, open_setup}

abbrev pub max_serial_length : ℕ
max_serial_length = 32

-- The three tests of the descriptor, joined: nothing happens between them.
abbrev pub is_candidate : Descriptor → Bool
is_candidate d = is_hackrf d && ltb 0 d.serial_index

-- `strncmp(serial_number + serial_number_length-match_len, …) == 0`, where no character of the
-- desired number is 0. `none` is an access outside `serial_number`: at a negative length, which is
-- an error of libusb, or before its start, where the desired number is longer.
abbrev pub compare_serial : List ℕ → ControlReply → Option Bool
compare_serial desired r = elim r.result [
  | negsuc n ↦ none
  | pos n ↦
      let size = if leb max_serial_length n then max_serial_length else n in
      if ltb size (length desired)
      then none
      else some (same desired (drop (size - length desired) (take size r.received)))
]

module _ (p : Platform) where
  -- The loop over the devices: the handle, or NULL, or `none` for an access out of bounds.
  -- `libusb_get_device_descriptor` reads what libusb has stored, and is not logged.
  unfoldable pub find_serial : List ℕ → List ℕ → Action (Option ℕ)
  find_serial desired [] s = (some null, s)
  find_serial desired (d ∷ ds) s =
      let desc = p.describe s.log d in
      elim (is_candidate desc) [
        | false ↦ find_serial desired ds s
        | true ↦
            (do
              r ← ask (Call.open_device d) (λ log. p.open_reply log d)
              elim (is_zero r.result) [
                | false ↦ find_serial desired ds
                | true ↦ do
                  serial ←
                      ask (Call.get_string_descriptor r.output desc.serial_index)
                        (λ log. p.string_reply log r.output desc.serial_index)
                  elim (compare_serial desired serial) [
                    | none ↦ pure none
                    | some true ↦ pure (some r.output)
                    | some false ↦ tell (Call.close r.output) >> find_serial desired ds
                  ]
              ])
              s
      ]

  -- The devices, where a negative `list_length` gives none.
  abbrev pub listed : Option (List ℕ) → List ℕ
  listed none = []
  listed (some ds) = ds

  -- For a desired number, which is not NULL here. One that is too long gives NULL at once, and the
  -- list of devices is not freed.
  unfoldable pub open_usb : List ℕ → Action (Option ℕ)
  unfolding find_serial
  open_usb desired = do
    ds ← ask Call.get_device_list p.device_list
    if ltb 32 (length desired) then pure (some null) else do
      r ← find_serial desired (listed ds)
      elim r [ none ↦ pure none | some handle ↦ tell Call.free_device_list >> pure (some handle) ]

  -- `wanted` is `device != NULL`, and a desired number of `none` is NULL.
  unfoldable pub open_by_serial :
      Option (List ℕ) → Bool → Action (Option (HackrfError × Option Device))
  unfolding open_usb
  open_by_serial none wanted = do r ← hackrf_open p wanted; pure (some r)
  open_by_serial (some desired) wanted =
      if not wanted then pure (some (invalid_param, none)) else do
        found ← open_usb desired
        elim found [
          | none ↦ pure none
          | some handle ↦
              if handle == null
              then pure (some (not_found, none))
              else (do r ← open_setup p handle; pure (some r))
        ]
