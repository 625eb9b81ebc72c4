-- ===== src/Requests/Info/Buffers.antt =====
-- The memory that `hackrf_version_string_read` and `hackrf_board_partid_serialno_read`
-- (src/lib/hackrf/hackrf.c) write.
use hackrf.Prelude.{
  ℕ, zero, suc, ◌*◌, ◌≤◌, ◌<◌, ◌≡◌, refl, none, some, List, [], ◌∷◌, length, get_elem?, set, take,
  drop, length-set, get_elem?-set_self, arith,
}
use hackrf.Prelude.Int.{pos}
use hackrf.Bytes.{IsBytes, Endian, number, to_le-load}
use hackrf.Errors.{success}
use hackrf.Platform.{Platform, VendorRequest, ControlReply}
use hackrf.Platform.Action.{Library, request_in}
use hackrf.Requests.Info.{
  overwrite, words, version_string_result, version_string_read, board_partid_serialno_read,
}

pub length-overwrite : (xs ys : List ℕ) → length (overwrite xs ys) ≡ length xs
length-overwrite [] ys = refl
length-overwrite (x ∷ xs) [] = refl
length-overwrite (x ∷ xs) (y ∷ ys) = omega (arith, length-overwrite xs ys)

abbrev pub answer : Platform → ℕ → ℕ → Library → ControlReply
answer p dev size s =
    p.control_reply s.log dev (request_in VendorRequest.version_string_read 0 0 size)

-- If the transfer moves at most the bytes that were asked for, and the buffer has room for one more,
-- the call succeeds, writes inside the buffer and leaves a text that ends after the bytes moved.
version_string_read_terminates :
    (p : Platform) (dev : ℕ) (buffer : List ℕ) (size n : ℕ) (s : Library)
    → (answer p dev size s).result ≡ pos n
    → n ≤ size
    → size < length buffer
    → (version : List ℕ) × ((version_string_read p dev buffer size s).0 ≡ some (success, version))
      × (get_elem? version n ≡ some 0)
      × (length version ≡ length buffer)
unfolding version_string_read version_string_result
version_string_read_terminates p dev buffer size n s e h room = (
  set written n 0,
  ground (arith, length-overwrite buffer received),
  get_elem?-set_self written n 0 (omega (arith, length-overwrite buffer received)),
  omega (arith, length-set written n 0, length-overwrite buffer received),
)
  where
    received : List ℕ
    received = (answer p dev size s).received

    written : List ℕ
    written = overwrite buffer received

-- A buffer of just the bytes that are asked for is too small: when the device sends them all, the
-- end of the text is written outside the buffer.
version_string_read_overrun :
    (p : Platform) (dev : ℕ) (buffer : List ℕ) (s : Library)
    → (answer p dev (length buffer) s).result ≡ pos (length buffer)
    → (version_string_read p dev buffer (length buffer) s).0 ≡ none
unfolding version_string_read version_string_result
version_string_read_overrun p dev buffer s e =
    ground (arith, length-overwrite buffer (answer p dev (length buffer) s).received)

-- The little-endian numbers in successive groups of four bytes.
abbrev pub numbers : ℕ → List ℕ → List ℕ
numbers zero bs = []
numbers (suc n) bs = number (take 4 bs) ∷ numbers n (drop 4 bs)

words-eq-numbers :
    (host : Endian) (n : ℕ) (bs : List ℕ)
    → length bs ≡ 4 * n
    → IsBytes bs
    → words host n bs ≡ numbers n bs
words-eq-numbers host zero bs e h = refl
words-eq-numbers host (suc n) [] e h = absurd (omega arith)
words-eq-numbers host (suc n) (a ∷ []) e h = absurd (omega arith)
words-eq-numbers host (suc n) (a ∷ b ∷ []) e h = absurd (omega arith)
words-eq-numbers host (suc n) (a ∷ b ∷ c ∷ []) e h = absurd (omega arith)
words-eq-numbers host (suc n) (a ∷ b ∷ c ∷ d ∷ bs) e h =
    ground (arith, words-eq-numbers host n bs, to_le-load host a b c d)

-- When the device sends its 24 bytes, the caller of a host of either byte order gets the six
-- little-endian numbers in them: two of the part and four of the serial number.
board_partid_serialno_read-numbers :
    (p : Platform) (host : Endian) (dev n : ℕ) (s : Library)
    → let a =
        p.control_reply s.log dev (request_in VendorRequest.board_partid_serialno_read 0 0 24) in
      a.result ≡ pos n
      → 24 ≤ n
      → length a.received ≡ 24
      → IsBytes a.received
      → (board_partid_serialno_read p host dev s).0 ≡ (success, some (numbers 6 a.received))
unfolding board_partid_serialno_read
board_partid_serialno_read-numbers p host dev n s e h len bs = ground (
  arith,
  words-eq-numbers host 6
      (p.control_reply s.log dev
        (request_in VendorRequest.board_partid_serialno_read 0 0 24)).received,
)
