-- ===== src/Requests/Flash/Cpld.antt =====
-- `hackrf_cpld_write` (src/lib/hackrf/hackrf.c): the chunks that it sends, and when it ends.
use hackrf.Prelude.{
  ℕ, zero, suc, ◌+◌, ◌-◌, ◌*◌, ◌/◌, ◌%◌, ◌^◌, ◌≤◌, ◌<◌, ◌≡◌, ◌≢◌, refl, none, some, List, [], ◌∷◌,
  arith,
}
use hackrf.Prelude.Int.{pos}
use hackrf.Errors.{success}
use hackrf.Platform.{Platform, Call, ControlRequest, VendorRequest}
use hackrf.Platform.Action.{Library, request_out}
use hackrf.Requests.Flash.{cpld_chunks, cpld_write}

-- `n` chunks of 512 bytes from the offset `i` on, newest first, in front of a log.
abbrev pub chunk_log : ℕ → ℕ → ℕ → List Call → List Call
chunk_log dev zero i log = log
chunk_log dev (suc n) i log = chunk_log dev n (i + 512) (Call.bulk_transfer dev 2 i 512 ∷ log)

-- How many chunks cover `total` bytes.
abbrev pub chunk_count : ℕ → ℕ
chunk_count total = (total + 511) / 512

-- After the chunk at `i`.
abbrev sent : ℕ → ℕ → Library → Library
sent dev i s = record s { log = Call.bulk_transfer dev 2 i 512 ∷ s.log }

-- The request for the update mode, 4, and the state after it.
abbrev pub mode_request : ControlRequest
mode_request = request_out VendorRequest.set_transceiver_mode 4 0 [] 0

abbrev mode_sent : ℕ → Library → Library
mode_sent dev s = record s { log = Call.control_transfer dev mode_request ∷ s.log }

module _ (p : Platform) (dev total : ℕ) where
  -- Whatever the transfers answer, one round of fuel more than there are chunks is enough.
  cpld_chunks_total :
      (n i : ℕ) (s : Library)
      → total ≤ 2 ^ 32 - 512
      → total ≤ i + 512 * n
      → (cpld_chunks p (suc n) dev total i s).0 ≢ none
  unfolding cpld_chunks
  cpld_chunks_total zero i s small enough = ground arith
  cpld_chunks_total (suc n) i s small enough =
      ground (arith, cpld_chunks_total n (i + 512) (sent dev i s))

  -- Where every transfer succeeds, the loop sends the chunks from `i` on that cover the data.
  cpld_chunks_sends :
      (n i : ℕ) (s : Library)
      → ((log : List Call) (k : ℕ) → p.bulk_reply log dev 2 k 512 ≡ pos 0)
      → total ≤ 2 ^ 32 - 512
      → total ≤ i + 512 * n
      → i + 512 * n < total + 512
      → cpld_chunks p (suc n) dev total i s
        ≡ (some success, record s { log = chunk_log dev n i s.log })
  unfolding cpld_chunks
  cpld_chunks_sends zero i s good small enough least = ground arith
  cpld_chunks_sends (suc n) i s good small enough least =
      ground (arith, good s.log i, cpld_chunks_sends n (i + 512) (sent dev i s) good)

  -- Where every transfer succeeds, more than 2 ^ 32 - 512 bytes are never done: the offset wraps.
  cpld_chunks_endless :
      (fuel i : ℕ) (s : Library)
      → ((log : List Call) (k : ℕ) → p.bulk_reply log dev 2 k 512 ≡ pos 0)
      → 2 ^ 32 - 512 < total
      → i % 512 ≡ 0
      → i < 2 ^ 32
      → (cpld_chunks p fuel dev total i s).0 ≡ none
  unfolding cpld_chunks
  cpld_chunks_endless zero i s good large step below = refl
  cpld_chunks_endless (suc fuel) i s good large step below =
      ground (
        arith,
        good s.log i,
        cpld_chunks_endless fuel ((i + 512) % 2 ^ 32) (sent dev i s) good large,
      )

  -- For data of at most 2 ^ 32 - 512 bytes the call ends on every platform: one round of fuel more
  -- than there are chunks gives a result code.
  pub cpld_write_total :
      (s : Library)
      → total ≤ 2 ^ 32 - 512
      → (cpld_write p (suc (chunk_count total)) dev total s).0 ≢ none
  unfolding cpld_write
  cpld_write_total s small =
      ground (arith, cpld_chunks_total (chunk_count total) 0 (mode_sent dev s))

  -- For data of at most 2 ^ 32 - 512 bytes, where the device takes the mode and every chunk, the call
  -- succeeds, and what it sent after the mode are the chunks of 512 bytes at 0, 512, 1024 and so on that
  -- cover the data, each once.
  pub cpld_write_sends :
      (s : Library)
      → ((log : List Call) (k : ℕ) → p.bulk_reply log dev 2 k 512 ≡ pos 0)
      → (p.control_reply s.log dev mode_request).result ≡ pos 0
      → total ≤ 2 ^ 32 - 512
      → cpld_write p (suc (chunk_count total)) dev total s ≡ (
        some success,
        record s {
          log =
              chunk_log dev (chunk_count total) 0 (Call.control_transfer dev mode_request ∷ s.log);
        },
      )
  unfolding cpld_write
  cpld_write_sends s good mode small =
      ground (arith, cpld_chunks_sends (chunk_count total) 0 (mode_sent dev s) good)

  -- For more than 2 ^ 32 - 512 bytes, where the device takes everything, the call never ends: no fuel is
  -- enough.
  pub cpld_write_endless :
      (fuel : ℕ) (s : Library)
      → ((log : List Call) (k : ℕ) → p.bulk_reply log dev 2 k 512 ≡ pos 0)
      → (p.control_reply s.log dev mode_request).result ≡ pos 0
      → 2 ^ 32 - 512 < total
      → (cpld_write p fuel dev total s).0 ≡ none
  unfolding cpld_write
  cpld_write_endless fuel s good mode large =
      ground (arith, cpld_chunks_endless fuel 0 (mode_sent dev s) good)
