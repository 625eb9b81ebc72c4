-- ===== src/Sweep/Blocks.antt =====
-- src/lib/hackrf/hackrf_sweep.c, `rx_callback`: how it walks over the blocks of a transfer, counts
-- sweeps and decides which blocks it transforms. A block that it transforms is a `Spectrum` here; what
-- is computed from its samples is in Sweep/Transform, and which bins go where in Sweep/Rows.
pub mod Reports
use hackrf.Prelude.{
  ℕ, zero, suc, ◌+◌, ◌-◌, ◌*◌, ◌/◌, ◌%◌, ◌^◌, Bool, true, false, not, ◌&&◌, ◌||◌, List, [], ◌∷◌,
  ltb, ◌==◌, if◌then◌else◌,
}
use hackrf.Prelude.Int.{ℤ, pos, negsuc}

-- The globals that `rx_callback` reads; `has_output` is `fd != NULL`, and `first_mhz` is
-- `frequencies[0]`.
pub record Settings : Type 0 where
  pub has_output : Bool
  pub one_shot : Bool
  pub finite_mode : Bool
  pub num_sweeps : ℕ
  pub num_samples : ℕ
  pub first_mhz : ℕ
  pub fft_size : ℕ

-- The globals that it writes.
pub record Progress : Type 0 where
  pub byte_count : ℕ
  pub sweep_count : ℕ
  pub sweep_started : Bool
  pub do_exit : Bool
  pub seconds : ℕ
  pub microseconds : ℕ

-- A block that is transformed: its frequency, the offset of its first sample in the transfer's
-- buffer, and the time stamp.
pub record Spectrum : Type 0 where
  pub frequency : ℕ
  pub samples : ℕ
  pub seconds : ℕ
  pub microseconds : ℕ

-- `ubuf[0] == 0x7F && ubuf[1] == 0x7F`
abbrev pub has_header : (ℕ → ℕ) → ℕ → Bool
has_header bytes buf = (bytes buf == 127) && (bytes (buf + 1) == 127)

-- `ubuf[2]` to `ubuf[9]`, the least significant first.
abbrev pub frequency_at : (ℕ → ℕ) → ℕ → ℕ
frequency_at bytes buf =
    bytes (buf + 2)
    + 2 ^ 8 * bytes (buf + 3)
    + 2 ^ 16 * bytes (buf + 4)
    + 2 ^ 24 * bytes (buf + 5)
    + 2 ^ 32 * bytes (buf + 6)
    + 2 ^ 40 * bytes (buf + 7)
    + 2 ^ 48 * bytes (buf + 8)
    + 2 ^ 56 * bytes (buf + 9)

-- The microseconds that the samples before block `j` take, at 20 MHz; THROWAWAY_BLOCKS is 2, and the
-- sum is a uint32_t.
abbrev pub delay : ℕ → ℕ → ℕ
delay num_samples j = (num_samples + 2 * 8192) % 2 ^ 32 * j * 1000000 / 20000000

-- `time_stamp` at block `j` of a transfer that came at the given time.
unfoldable pub stamp : Settings → ℕ → ℕ → ℕ → Progress → Progress
stamp set now_s now_us j p =
    let us = now_us + delay set.num_samples j in
    if ltb 999999 us
    then record p { seconds = now_s + us / 1000000; microseconds = us % 1000000 }
    else record p { seconds = now_s; microseconds = us }

-- `if(sweep_started)` at the first frequency: a sweep is complete.
unfoldable pub count_sweep : Settings → Progress → Progress
count_sweep set p =
    let n = (p.sweep_count + 1) % 2 ^ 64 in
    record p {
      sweep_count = n;
      do_exit = p.do_exit || (set.one_shot || (set.finite_mode && n == set.num_sweeps));
    }

-- What a block with a header does before the callback looks at `do_exit`.
unfoldable pub begin_block : Settings → ℕ → ℕ → ℕ → ℕ → Progress → Progress
unfolding stamp count_sweep
begin_block set now_s now_us j frequency p =
    if frequency == 1000000 * set.first_mhz
    then stamp set now_s now_us j
        (record (if p.sweep_started then count_sweep set p else p) { sweep_started = true })
    else p

module _ (set : Settings) (bytes : ℕ → ℕ) (now_s now_us : ℕ) where
  -- The loop, for `n` more blocks, at block `j` with `buf` at the given offset.
  unfoldable pub walk : ℕ → ℕ → ℕ → Progress → Progress × List Spectrum
  unfolding begin_block
  walk zero j buf p = (p, [])
  walk (suc n) j buf p = elim (has_header bytes buf) [
    | false ↦ walk n (j + 1) (buf + 16384) p
    | true ↦
        let frequency = frequency_at bytes buf in
        let q = begin_block set now_s now_us j frequency p in
        elim q.do_exit [
          | true ↦ (q, [])
          | false ↦ elim (not q.sweep_started || ltb 7250000000 frequency) [
            | true ↦ walk n (j + 1) (buf + 16384) q
            | false ↦
                let samples = buf + 16384 - set.fft_size * 2 in
                let rest = walk n (j + 1) (samples + set.fft_size * 2) q in
                (
                  rest.0,
                  record {
                    frequency = frequency;
                    samples = samples;
                    seconds = q.seconds;
                    microseconds = q.microseconds;
                  }
                      ∷ rest.1,
                )
          ]
        ]
  ]

  -- BLOCKS_PER_TRANSFER is 16; `byte_count` is a uint32_t.
  unfoldable pub rx_callback : ℕ → Progress → ℤ × (Progress × List Spectrum)
  unfolding walk
  rx_callback valid_length p =
      if not set.has_output
      then (negsuc 0, (p, []))
      else (pos 0, walk 16 0 0 (record p { byte_count = (p.byte_count + valid_length) % 2 ^ 32 }))
