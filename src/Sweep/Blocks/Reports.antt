-- ===== src/Sweep/Blocks/Reports.antt =====
-- What `rx_callback` (src/lib/hackrf/hackrf_sweep.c) reports: which blocks, how many sweeps, and at
-- which time.
use hackrf.Prelude.{
  ℕ, zero, suc, ◌+◌, ◌-◌, ◌*◌, ◌%◌, ◌^◌, ◌≤◌, ◌<◌, ◌≡◌, refl, sym, ap, ◌⊎◌, true, false, ◌&&◌, ◌||◌,
  ◌==◌, List, [], ◌∷◌, arith,
}
use hackrf.Sweep.Blocks.{
  Settings, Progress, Spectrum, has_header, frequency_at, delay, stamp, count_sweep, begin_block,
  walk, rx_callback,
}

-- A time stamp is normal, and it is the time of the transfer and the delay of the block together.
stamp_normal :
    (set : Settings) (now_s now_us j : ℕ) (p : Progress)
    → let q = stamp set now_s now_us j p in
      (q.microseconds < 1000000)
      × (q.seconds * 1000000 + q.microseconds ≡ now_s * 1000000 + now_us + delay set.num_samples j)
unfolding stamp
stamp_normal set now_s now_us j p = ground arith

module _ (set : Settings) where
  -- The sweeps of a run that is still to go on: none of them was the last.
  abbrev pub Within : Progress → Progress → Type 0
  Within p q =
      ((set.one_shot ≡ false) ⊎ (q.sweep_count ≡ p.sweep_count))
      × ((set.finite_mode ≡ false) ⊎ (q.sweep_count < set.num_sweeps))

  -- The sweeps of a run that ended: exactly one more, or exactly as many as were asked for.
  abbrev pub Ended : Progress → Progress → Type 0
  Ended p q =
      ((set.one_shot ≡ true) × (q.sweep_count ≡ p.sweep_count + 1))
      ⊎ ((set.one_shot ≡ false) × (set.finite_mode ≡ true) × (q.sweep_count ≡ set.num_sweeps))

module _ (set : Settings) (bytes : ℕ → ℕ) (now_s now_us : ℕ) where
  -- A report comes from one of the blocks before the `n`th: that block has a header, the report has
  -- its frequency, which is in range, and its samples are the last ones of the block.
  pub record IsReport (n : ℕ) (x : Spectrum) : Type 0 where
    pub block : ℕ
    pub below : block < n
    pub header : has_header bytes (block * 16384) ≡ true
    pub carried : x.frequency ≡ frequency_at bytes (block * 16384)
    pub ranged : x.frequency ≤ 7250000000
    pub last : x.samples + set.fft_size * 2 ≡ (block + 1) * 16384

  abbrev pub AreReports : ℕ → List Spectrum → Type 0
  AreReports n [] = Unit {0}
  AreReports n (x ∷ xs) = IsReport n x × AreReports n xs

  -- The callback's report at an offset, after `begin_block` gave `q`.
  abbrev spectrum : ℕ → Progress → Spectrum
  spectrum buf q = record {
    frequency = frequency_at bytes buf;
    samples = buf + 16384 - set.fft_size * 2;
    seconds = q.seconds;
    microseconds = q.microseconds;
  }

  spectrum-IsReport :
      (total j buf : ℕ) (q : Progress)
      → buf ≡ j * 16384
      → j < total
      → set.fft_size ≤ 8192
      → has_header bytes buf ≡ true
      → frequency_at bytes buf ≤ 7250000000
      → IsReport total (spectrum buf q)
  spectrum-IsReport total j buf q at within small h r = record {
    block = j;
    below = within;
    header = rw (sym at) h;
    carried = ap (frequency_at bytes) at;
    ranged = r;
    last = omega (arith, at);
  }

  walk-AreReports :
      (total n j buf : ℕ) (p : Progress)
      → buf ≡ j * 16384
      → j + n ≤ total
      → set.fft_size ≤ 8192
      → AreReports total (walk set bytes now_s now_us n j buf p).1
  unfolding walk
  walk-AreReports total zero j buf p at within small = tt
  walk-AreReports total (suc n) j buf p at within small =
      let q = begin_block set now_s now_us j (frequency_at bytes buf) p in
      let next : buf + 16384 ≡ (j + 1) * 16384 = omega (arith, at) in
      let read : buf + 16384 - set.fft_size * 2 + set.fft_size * 2 ≡ (j + 1) * 16384 =
        omega (arith, at) in
      ground (
        arith,
        walk-AreReports total n (j + 1) (buf + 16384) p next (omega arith) small,
        walk-AreReports total n (j + 1) (buf + 16384) q next (omega arith) small,
        walk-AreReports total n (j + 1) (buf + 16384 - set.fft_size * 2 + set.fft_size * 2) q read
            (omega arith) small,
        spectrum-IsReport total j buf q at (omega arith) small,
      )

  -- The exit that was requested stays requested, and nothing is reported from then on.
  walk_exiting :
      (n j buf : ℕ) (p : Progress)
      → p.do_exit ≡ true
      → ((walk set bytes now_s now_us n j buf p).0.do_exit ≡ true)
        × ((walk set bytes now_s now_us n j buf p).1 ≡ [])
  unfolding walk begin_block stamp count_sweep
  walk_exiting zero j buf p e = ground arith
  walk_exiting (suc n) j buf p e = ground (arith, walk_exiting n (j + 1) (buf + 16384) p)

  -- With at most 8192 bins, whatever a callback reports comes from one of the sixteen blocks of the
  -- transfer that has a header: the report has that block's frequency, which is not above 7250 MHz,
  -- and its samples are the last ones of that block.
  pub rx_callback-AreReports :
      (valid_length : ℕ) (p : Progress)
      → set.fft_size ≤ 8192
      → AreReports 16 (rx_callback set bytes now_s now_us valid_length p).1.1
  unfolding rx_callback
  rx_callback-AreReports valid_length p small = ground (
    arith,
    walk-AreReports 16 16 0 0 (record p { byte_count = (p.byte_count + valid_length) % 2 ^ 32 })
        refl (omega arith) small,
  )

  -- A block counts no sweep, or one; only then it may request an exit.
  begin_block_sweeps :
      (j frequency : ℕ) (p : Progress)
      → p.sweep_count + 1 < 2 ^ 64
      → p.do_exit ≡ false
      → let q = begin_block set now_s now_us j frequency p in
        ((q.sweep_count ≡ p.sweep_count) × (q.do_exit ≡ false))
        ⊎ ((q.sweep_count ≡ p.sweep_count + 1)
            × (q.do_exit
                ≡ (set.one_shot || (set.finite_mode && p.sweep_count + 1 == set.num_sweeps))))
  unfolding begin_block stamp count_sweep
  begin_block_sweeps j frequency p few e = ground arith

  walk_sweeps :
      (n j buf : ℕ) (p : Progress)
      → p.sweep_count + n < 2 ^ 64
      → p.do_exit ≡ false
      → (set.finite_mode ≡ false) ⊎ (p.sweep_count < set.num_sweeps)
      → let q = (walk set bytes now_s now_us n j buf p).0 in
        ((q.do_exit ≡ false) × Within set p q) ⊎ ((q.do_exit ≡ true) × Ended set p q)
  unfolding walk
  walk_sweeps zero j buf p few e f = ground arith
  walk_sweeps (suc n) j buf p few e f =
      let q = begin_block set now_s now_us j (frequency_at bytes buf) p in
      ground (
        arith,
        begin_block_sweeps j (frequency_at bytes buf) p,
        walk_sweeps n (j + 1) (buf + 16384) p,
        walk_sweeps n (j + 1) (buf + 16384) q,
        walk_sweeps n (j + 1) (buf + 16384 - set.fft_size * 2 + set.fft_size * 2) q,
      )

  -- A callback that comes before an exit was requested, in a run that is still to go on, either
  -- counts no sweep too many and requests no exit, or requests one after exactly the last sweep:
  -- one more in one-shot mode, and otherwise as many as finite mode asks for. The count is at least
  -- 16 below its 64-bit limit before.
  pub rx_callback_sweeps :
      (valid_length : ℕ) (p : Progress)
      → p.sweep_count + 16 < 2 ^ 64
      → p.do_exit ≡ false
      → (set.finite_mode ≡ false) ⊎ (p.sweep_count < set.num_sweeps)
      → let q = (rx_callback set bytes now_s now_us valid_length p).1.0 in
        ((q.do_exit ≡ false) × Within set p q) ⊎ ((q.do_exit ≡ true) × Ended set p q)
  unfolding rx_callback
  rx_callback_sweeps valid_length p few e f =
      ground (
        arith,
        walk_sweeps 16 0 0 (record p { byte_count = (p.byte_count + valid_length) % 2 ^ 32 }),
      )

  -- Once an exit is requested it stays requested, and no callback reports anything.
  pub rx_callback_exiting :
      (valid_length : ℕ) (p : Progress)
      → p.do_exit ≡ true
      → let r = rx_callback set bytes now_s now_us valid_length p in
        (r.1.0.do_exit ≡ true) × (r.1.1 ≡ [])
  unfolding rx_callback
  rx_callback_exiting valid_length p e = ground (
    arith,
    walk_exiting 16 0 0 (record p { byte_count = (p.byte_count + valid_length) % 2 ^ 32 }),
  )

  begin_block_counts :
      (j frequency : ℕ) (p : Progress)
      → (begin_block set now_s now_us j frequency p).sweep_count ≤ p.sweep_count + 1
  unfolding begin_block stamp count_sweep
  begin_block_counts j frequency p = ground arith

  walk_counts :
      (n j buf : ℕ) (p : Progress)
      → (walk set bytes now_s now_us n j buf p).0.sweep_count ≤ p.sweep_count + n
  unfolding walk
  walk_counts zero j buf p = omega arith
  walk_counts (suc n) j buf p =
      let q = begin_block set now_s now_us j (frequency_at bytes buf) p in
      ground (
        arith,
        begin_block_counts j (frequency_at bytes buf) p,
        walk_counts n (j + 1) (buf + 16384) p,
        walk_counts n (j + 1) (buf + 16384) q,
        walk_counts n (j + 1) (buf + 16384 - set.fft_size * 2 + set.fft_size * 2) q,
      )

  -- A callback counts at most one sweep for each block.
  pub rx_callback_counts :
      (valid_length : ℕ) (p : Progress)
      → (rx_callback set bytes now_s now_us valid_length p).1.0.sweep_count ≤ p.sweep_count + 16
  unfolding rx_callback
  rx_callback_counts valid_length p =
      ground (
        arith,
        walk_counts 16 0 0 (record p { byte_count = (p.byte_count + valid_length) % 2 ^ 32 }),
      )
