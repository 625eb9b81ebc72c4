-- ===== src/Requests/Info.antt =====
-- src/lib/hackrf/hackrf.c: what the device tells of itself.
pub mod Buffers
use hackrf.Prelude.{
  ℕ, zero, suc, Option, none, some, List, [], ◌∷◌, length, set, take, drop, ltb, if◌then◌else◌,
}
use hackrf.Prelude.Int.{pos, negsuc, lt_nat}
use hackrf.Bytes.{Endian, to_le, load}
use hackrf.Errors.{HackrfError, success, libusb}
use hackrf.Platform.{Platform, VendorRequest, ControlReply}
use hackrf.Platform.Action.{Action, ◌>>=◌, transfer, request_in}
use hackrf.Requests.Registers.{with_received}

-- A buffer whose first bytes a transfer has written; it writes no further than the buffer.
abbrev pub overwrite : List ℕ → List ℕ → List ℕ
overwrite [] ys = []
overwrite (x ∷ xs) [] = x ∷ xs
overwrite (x ∷ xs) (y ∷ ys) = y ∷ overwrite xs ys

-- `version[result] = '\0'`; `none` is a write outside the caller's buffer.
abbrev terminate : List ℕ → ℕ → Option (List ℕ)
terminate buffer n = if ltb n (length buffer) then some (set buffer n 0) else none

-- The end of `hackrf_version_string_read`: the code and the buffer, or `none` for a fault.
unfoldable pub version_string_result :
    List ℕ → ControlReply → Action (Option (HackrfError × List ℕ))
version_string_result buffer r s = elim r.result [
  | negsuc n ↦
      (some (libusb, overwrite buffer r.received), record s { last_libusb_error = r.result })
  | pos n ↦ elim (terminate (overwrite buffer r.received) n) [
    | none ↦ (none, s)
    | some version ↦ (some (success, version), s)
  ]
]

-- `n` words of four bytes, each stored as `TO_LE` of what the host reads there.
abbrev pub words : Endian → ℕ → List ℕ → List ℕ
words host zero bs = []
words host (suc n) bs = to_le host (load host (take 4 bs)) ∷ words host n (drop 4 bs)

-- The end of `hackrf_board_partid_serialno_read`: the two words of the part id and the four of the
-- serial number.
abbrev partid_serialno_result : Endian → ControlReply → Action (HackrfError × Option (List ℕ))
partid_serialno_result host r s =
    if lt_nat r.result 24
    then ((libusb, none), record s { last_libusb_error = r.result })
    else ((success, some (words host 6 r.received)), s)

module _ (p : Platform) where
  unfoldable pub board_id_read : ℕ → Action (HackrfError × List ℕ)
  board_id_read dev = do
    r ← transfer p dev (request_in VendorRequest.board_id_read 0 0 1)
    with_received 1 r

  -- `buffer` is the memory that `version` points to, and `size` the argument `length`.
  unfoldable pub version_string_read : ℕ → List ℕ → ℕ → Action (Option (HackrfError × List ℕ))
  unfolding version_string_result
  version_string_read dev buffer size = do
    r ← transfer p dev (request_in VendorRequest.version_string_read 0 0 size)
    version_string_result buffer r

  unfoldable pub board_partid_serialno_read : Endian → ℕ → Action (HackrfError × Option (List ℕ))
  board_partid_serialno_read host dev = do
    r ← transfer p dev (request_in VendorRequest.board_partid_serialno_read 0 0 24)
    partid_serialno_result host r
