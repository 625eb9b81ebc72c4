-- ===== src/Device/Lists.antt =====
-- src/lib/hackrf/hackrf.c: `hackrf_device_list`, `hackrf_device_list_free` and
-- `hackrf_device_list_open`.
pub mod Entries
pub mod Handles
pub mod Hackrfs
pub mod Texts
pub mod Serials
pub mod Reopen
use hackrf.Prelude.{
  ℕ, zero, suc, ◌+◌, ◌-◌, ◌%◌, ◌^◌, Bool, true, false, Option, none, some, List, [], ◌∷◌, length,
  set, replicate, get_elem?, get_or, not, ◌&&◌, ◌||◌, ltb, leb, ◌==◌, if◌then◌else◌,
}
use hackrf.Prelude.Texts.{text}
use hackrf.Prelude.Int.{ℤ, pos, negsuc, is_zero}
use hackrf.Errors.{HackrfError, invalid_param, libusb}
use hackrf.Platform.{
  Platform, Call, ControlReply, Descriptor, ListArray, serial_numbers, usb_board_ids,
  usb_device_index,
}
use hackrf.Platform.Action.{Library, Action, ◌>>=◌, ◌>>◌, pure, ask, tell, fail_with}
use hackrf.Requests.Info.{overwrite}
use hackrf.Device.{Device}
use hackrf.Device.Lifecycle.{is_hackrf, open_setup}

-- `struct hackrf_device_list`. The arrays have `usb_devicecount` entries; a serial number is the
-- characters of a text, or NULL. A negative `usb_devicecount` never comes with a list.
pub record DeviceList : Type 0 where
  pub serials : List (Option (List ℕ))
  pub board_ids : List ℕ
  pub device_index : List ℕ
  pub devicecount : ℕ
  pub usb_devices : List ℕ

-- `uint8_t serial_number_length = …`, cut to USB_MAX_SERIAL_LENGTH: an error, which is negative,
-- wraps to a length too.
abbrev pub serial_length : ℤ → ℕ
serial_length (pos n) = if leb 32 (n % 2 ^ 8) then 32 else n % 2 ^ 8
serial_length (negsuc n) = if leb 32 (255 - n % 2 ^ 8) then 32 else 255 - n % 2 ^ 8

-- `serial_number` after the descriptor was read into it and the end was marked.
abbrev pub read_serial : List ℕ → ControlReply → List ℕ
read_serial buffer r = set (overwrite buffer r.received) (serial_length r.result) 0

-- The entries of the device at `i`: `idx = list->devicecount++` is a uint8_t.
abbrev pub add_device : ℕ → ℕ → DeviceList → DeviceList
add_device i product l = record l {
  devicecount = l.devicecount + 1;
  board_ids = set l.board_ids (l.devicecount % 2 ^ 8) product;
  device_index = set l.device_index (l.devicecount % 2 ^ 8) i;
}

-- `list->serial_numbers[idx] = strdup(serial_number)`
abbrev pub set_serial : ℕ → Option (List ℕ) → DeviceList → DeviceList
set_serial idx serial l = record l { serials = set l.serials idx serial }

-- `list` after the first `calloc` and `libusb_get_device_list`.
abbrev pub empty_list : List ℕ → DeviceList
empty_list ds = record {
  serials = replicate (length ds) none;
  board_ids = replicate (length ds) 0;
  device_index = replicate (length ds) 0;
  devicecount = 0;
  usb_devices = ds;
}

-- `if (list->serial_numbers[i]) free(list->serial_numbers[i]);`, for `n` entries from `i` on.
unfoldable pub free_serials : ℕ → ℕ → List (Option (List ℕ)) → Action (Unit {0})
free_serials zero i serials = pure tt
free_serials (suc n) i [] = pure tt
free_serials (suc n) i (none ∷ serials) = free_serials n (i + 1) serials
free_serials (suc n) i (some serial ∷ serials) = do
  tell (Call.free_serial i)
  free_serials n (i + 1) serials

-- `free` of NULL does nothing, but is called.
unfoldable pub device_list_free : DeviceList → Action (Unit {0})
unfolding free_serials
device_list_free list = do
  tell Call.free_device_list
  free_serials list.devicecount 0 list.serials
  tell (Call.free_array serial_numbers)
  tell (Call.free_array usb_board_ids)
  tell (Call.free_array usb_device_index)
  tell Call.free_list

module _ (p : Platform) where
  -- The entries of a device with a serial number: it is opened, read, copied and closed. The
  -- buffer is shared by all devices. `libusb_get_device_descriptor` reads what libusb has stored,
  -- and is not logged.
  unfoldable pub add_serial : ℕ → ℕ → ℕ → List ℕ → DeviceList → Action (List ℕ × DeviceList)
  add_serial d serial_index idx buffer list = do
    opened ← ask (Call.open_device d) (λ log. p.open_reply log d)
    elim (is_zero opened.result) [
      | false ↦ pure (buffer, list)
      | true ↦ do
        reply ←
            ask (Call.get_string_descriptor opened.output serial_index)
              (λ log. p.string_reply log opened.output serial_index)
        let serial = read_serial buffer reply
        given ← ask Call.duplicate_serial p.malloc
        tell (Call.close opened.output)
        pure (serial, set_serial idx (if given then some (text serial) else none) list)
    ]

  -- The loop over the devices from `i` on, with `serial_number` in `buffer`.
  unfoldable pub add_devices : ℕ → List ℕ → List ℕ → DeviceList → Action DeviceList
  unfolding add_serial
  add_devices i [] buffer list s = (list, s)
  add_devices i (d ∷ ds) buffer list s =
      let desc = p.describe s.log d in
      elim (is_hackrf desc) [
        | false ↦ add_devices (i + 1) ds buffer list s
        | true ↦
            let added = add_device i desc.product list in
            elim (ltb 0 desc.serial_index) [
              | false ↦ add_devices (i + 1) ds buffer added s
              | true ↦
                  (do
                    r ← add_serial d desc.serial_index (list.devicecount % 2 ^ 8) buffer added
                    add_devices (i + 1) ds r.0 r.1)
                    s
            ]
      ]

  -- The three arrays; for a negative number of devices `calloc` overflows and gives none.
  unfoldable pub allocate_arrays : Bool → Action Bool
  allocate_arrays fits = do
    a ← ask (Call.calloc_array serial_numbers) p.malloc
    b ← ask (Call.calloc_array usb_board_ids) p.malloc
    c ← ask (Call.calloc_array usb_device_index) p.malloc
    pure (fits && (a && (b && c)))

  -- After the list itself is allocated.
  unfoldable pub list_devices : List ℕ → Action (Option DeviceList)
  unfolding allocate_arrays add_devices device_list_free
  list_devices buffer = do
    found ← ask Call.get_device_list p.device_list
    elim found [
      | none ↦ do given ← allocate_arrays false; device_list_free (empty_list []); pure none
      | some ds ↦ do
        given ← allocate_arrays true
        elim given [
          | false ↦ device_list_free (empty_list ds) >> pure none
          | true ↦ do list ← add_devices 0 ds buffer (empty_list ds); pure (some list)
        ]
    ]

  -- `buffer` is what `serial_number` holds at first: 64 bytes that the code leaves unset.
  unfoldable pub device_list : List ℕ → Action (Option DeviceList)
  unfolding list_devices
  device_list buffer = do
    given ← ask Call.calloc_list p.malloc
    elim given [ false ↦ pure none | true ↦ list_devices buffer ]

  -- `libusb_open` of a listed device, and what follows.
  unfoldable pub open_listed : ℕ → Action (HackrfError × Option Device)
  open_listed d = do
    r ← ask (Call.open_device d) (λ log. p.open_reply log d)
    elim (is_zero r.result) [
      | false ↦ do e ← fail_with r.result libusb; pure (e, none)
      | true ↦ open_setup p r.output
    ]

  -- `wanted` is `device != NULL`, and a list of `none` is NULL. An index that is below `devicecount`
  -- lies in the arrays.
  unfoldable pub device_list_open :
      Option DeviceList → ℤ → Bool → Action (HackrfError × Option Device)
  unfolding open_listed
  device_list_open none idx wanted = pure (invalid_param, none)
  device_list_open (some list) (negsuc n) wanted = pure (invalid_param, none)
  device_list_open (some list) (pos n) wanted =
      if not wanted || leb list.devicecount n
      then pure (invalid_param, none)
      else open_listed (get_or list.usb_devices (get_or list.device_index n 0) 0)
