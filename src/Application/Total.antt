-- ===== src/Application/Total.antt =====
-- No access out of bounds by an application of libhackrf (src/lib/hackrf/hackrf.c), where the devices answer with
-- whole serial numbers.
use hackrf.Prelude.{
  ℕ, suc, ◌-◌, ◌^◌, ◌≡◌, ◌≢◌, ◌≤◌, ◌<◌, refl, Option, none, some, List, [], ◌∷◌, length, true,
  arith,
}
use hackrf.Prelude.Int.{ℤ, pos, negsuc}
use hackrf.Bytes.{Endian}
use hackrf.Platform.{Platform, Call, VendorRequest, ControlRequest, ControlReply}
use hackrf.Platform.Action.{Library, request_in}
use hackrf.Requests.Info.{version_string_read, version_string_result}
use hackrf.Requests.Info.Buffers.{length-overwrite}
use hackrf.Requests.Flash.{cpld_write}
use hackrf.Requests.Flash.Cpld.{chunk_count, cpld_write_total}
use hackrf.Device.{Device}
use hackrf.Device.Streaming.{HackrfTransfer}
use hackrf.Device.Lifecycle.Serial.{compare_serial, find_serial, open_usb, open_by_serial, listed}
use hackrf.Application.{
  Act, inits, exits, opens, opens_serial, opens_entry, lists, frees, closes, closes_null,
  reads_version, writes_cpld, uses, World, pick, perform, perform_all,
}

-- A serial number of the 32 characters that `hackrf_open_usb` has room for, or more.
abbrev pub IsWhole : ControlReply → Type 0
IsWhole r = (n : ℕ) × (r.result ≡ pos n) × (32 ≤ n)

compare_serial_total :
    (desired : List ℕ) (r : ControlReply)
    → length desired ≤ 32
    → IsWhole r
    → compare_serial desired r ≢ none
compare_serial_total desired r short (n, e, whole) = ground (arith, e)

-- A transfer moves at most as many bytes as it was asked for.
abbrev IsBounded : ControlRequest → ControlReply → Type 0
IsBounded r a = elim a.result [ pos n ↦ n ≤ r.size | negsuc n ↦ Unit {0} ]

-- The memory for the version has room for one byte more than its length is told to be, and no more than
-- 2 ^ 32 - 512 bytes are written to the CPLD.
abbrev IsRoomy : Act → Type 0
IsRoomy (reads_version i buffer size) = size < length buffer
IsRoomy (writes_cpld i total) = total ≤ 2 ^ 32 - 512
IsRoomy _ = Unit {0}

abbrev AllRoomy : List Act → Type 0
AllRoomy [] = Unit {0}
AllRoomy (a ∷ acts) = IsRoomy a × AllRoomy acts

module _ (p : Platform)
    (whole : (log : List Call) (h i : ℕ) → IsWhole (p.string_reply log h i)) where
  find_serial_total :
      (desired ds : List ℕ) (s : Library)
      → length desired ≤ 32
      → (find_serial p desired ds s).0 ≢ none
  unfolding find_serial
  find_serial_total desired [] s short = ground arith
  find_serial_total desired (d ∷ ds) s short =
      let h = (p.open_reply s.log d).output in
      let i = (p.describe s.log d).serial_index in
      let asked = Call.open_device d ∷ s.log in
      ground (
        arith,
        compare_serial_total desired (p.string_reply asked h i) short (whole asked h i),
        find_serial_total desired ds s short,
        find_serial_total desired ds (record s { log = asked }) short,
        find_serial_total desired ds
            (record s { log = Call.close h ∷ Call.get_string_descriptor h i ∷ asked }) short,
      )

  open_by_serial_total :
      (desired : List ℕ) (s : Library) → (open_by_serial p (some desired) true s).0 ≢ none
  unfolding open_by_serial open_usb
  open_by_serial_total desired s = ground (
    arith,
    find_serial_total desired (listed p (p.device_list s.log))
        (record s { log = Call.get_device_list ∷ s.log }),
  )

  version_string_read_total :
      (dev : ℕ) (buffer : List ℕ) (size : ℕ) (s : Library)
      → size < length buffer
      → ((r : ControlRequest) → IsBounded r (p.control_reply s.log dev r))
      → (version_string_read p dev buffer size s).0 ≢ none
  unfolding version_string_read version_string_result
  version_string_read_total dev buffer size s room bounded =
      let r = request_in VendorRequest.version_string_read 0 0 size in
      let a = p.control_reply s.log dev r in
      ground (arith, bounded r, length-overwrite buffer a.received)

  module _
      (bounded : (log : List Call) (dev : ℕ) (r : ControlRequest)
        → IsBounded r (p.control_reply log dev r))
      (host : Endian) (user : ℕ → HackrfTransfer → ℤ) where
    perform_total : (a : Act) (w : World) → IsRoomy a → perform p host user a w ≢ none
    unfolding perform
    perform_total inits w room = ground arith
    perform_total exits w room = ground arith
    perform_total opens w room = ground arith
    perform_total (opens_serial desired) w room =
        ground (arith, open_by_serial_total desired w.library)
    perform_total (opens_entry list i) w room = ground arith
    perform_total (lists buffer) w room = ground arith
    perform_total (frees list) w room = ground arith
    perform_total (closes i) w room = ground arith
    perform_total closes_null w room = ground arith
    perform_total (reads_version i buffer size) w room = go (pick i w.devices)
      where
        go :
            (o : Option (Device × List Device))
            → (elim o [
              | none ↦ some w
              | some (d, rest) ↦
                  let r = version_string_read p d.usb_device buffer size w.library in
                  elim r.0 [ none ↦ none | some x ↦ some (record w { library = r.1 }) ]
            ])
              ≢ none
        go none = ground arith
        go (some (d, rest)) = ground (
          arith,
          version_string_read_total d.usb_device buffer size w.library room
              (bounded w.library.log d.usb_device),
        )
    perform_total (writes_cpld i total) w room = go (pick i w.devices)
      where
        go :
            (o : Option (Device × List Device))
            → (elim o [
              | none ↦ some w
              | some (d, rest) ↦
                  let r = cpld_write p (suc (chunk_count total)) d.usb_device total w.library in
                  elim r.0 [ none ↦ none | some x ↦ some (record w { library = r.1 }) ]
            ])
              ≢ none
        go none = ground arith
        go (some (d, rest)) = ground (arith, cpld_write_total p d.usb_device total w.library room)
    perform_total (uses i u) w room = ground arith

    -- Where every serial number that a device answers has at least 32 characters, and a transfer moves at
    -- most as many bytes as it was asked for: an application that makes any acts of `Act` in any order
    -- gets through, if it reads the version into memory of more than the length it tells, and writes at
    -- most 2 ^ 32 - 512 bytes to a CPLD. No search by serial number and no reading of the version makes an
    -- access out of bounds, and every write of the CPLD ends.
    pub perform_all_total :
        (acts : List Act) (w : World)
        → AllRoomy acts
        → (v : World) × (perform_all p host user acts w ≡ some v)
    unfolding perform_all
    perform_all_total [] w roomy = (w, refl)
    perform_all_total (a ∷ acts) w (room, roomy) =
        go (perform p host user a w) (perform_total a w room) (λ u. perform_all_total acts u roomy)
      where
        go :
            (o : Option World)
            → o ≢ none
            → ((u : World) → (v : World) × (perform_all p host user acts u ≡ some v))
            → (v : World) × ((elim o [ none ↦ none | some u ↦ perform_all p host user acts u ])
                ≡ some v)
        go none some_one rest = absurd (some_one refl)
        go (some u) some_one rest = rest u
