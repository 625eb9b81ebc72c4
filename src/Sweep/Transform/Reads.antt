-- ===== src/Sweep/Transform/Reads.antt =====
-- Which bytes of a transfer `rx_callback` (src/lib/hackrf/hackrf_sweep.c) reads, and that the values it prints are there.
use hackrf.Prelude.{
  ℕ, zero, suc, ◌+◌, ◌-◌, ◌*◌, ◌%◌, ◌^◌, ◌≤◌, ◌<◌, ◌≡◌, refl, ap, ◌∙◌, List, [], ◌∷◌, map, arith,
}
use hackrf.Prelude.Int.{ℤ, pos}
use hackrf.Sweep.Blocks.{
  Settings, Progress, Spectrum, has_header, frequency_at, begin_block, walk, rx_callback,
}
use hackrf.Sweep.Blocks.Reports.{AreReports, rx_callback-AreReports}
use hackrf.Sweep.Transform.{Floats, copy_samples, log_power, powers}

-- Two buffers with the same bytes from one offset up to another.
abbrev pub Agree : ℕ → ℕ → (ℕ → ℕ) → (ℕ → ℕ) → Type 0
Agree first end bytes bytes' = (i : ℕ) → first ≤ i → i < end → bytes i ≡ bytes' i

module _ (bytes bytes' : ℕ → ℕ) where
  head-Agree :
      (buf : ℕ)
      → Agree buf (buf + 10) bytes bytes'
      → (has_header bytes buf ≡ has_header bytes' buf)
        × (frequency_at bytes buf ≡ frequency_at bytes' buf)
  head-Agree buf a =
      let at = λ (k : ℕ) (h : k < 10). a (buf + k) (omega arith) (omega (arith, h)) in
      rw
        (
          a buf (omega arith) (omega arith),
          at 1 (omega arith),
          at 2 (omega arith),
          at 3 (omega arith),
          at 4 (omega arith),
          at 5 (omega arith),
          at 6 (omega arith),
          at 7 (omega arith),
          at 8 (omega arith),
          at 9 (omega arith),
        )
        (refl, refl)

  module _ (set : Settings) (now_s now_us : ℕ) (small : set.fft_size ≤ 8192) where
    walk-Agree :
        (n j buf : ℕ) (p : Progress)
        → Agree buf (buf + n * 16384) bytes bytes'
        → walk set bytes now_s now_us n j buf p ≡ walk set bytes' now_s now_us n j buf p
    unfolding walk
    walk-Agree zero j buf p a = refl
    walk-Agree (suc n) j buf p a =
        let head = head-Agree buf (λ i g h. a i g (omega arith)) in
        let q = begin_block set now_s now_us j (frequency_at bytes' buf) p in
        let later = λ (i : ℕ) (g : buf + 16384 ≤ i) (h : i < buf + 16384 + n * 16384).
          a i (omega (arith, g)) (omega (arith, h)) in
        let read : buf + 16384 - set.fft_size * 2 + set.fft_size * 2 ≡ buf + 16384 =
          omega (arith, small) in
        ground (
          arith,
          head,
          read,
          walk-Agree n (j + 1) (buf + 16384) p later,
          walk-Agree n (j + 1) (buf + 16384) q later,
        )

    result-Agree :
        (valid_length : ℕ) (p : Progress)
        → Agree 0 262144 bytes bytes'
        → rx_callback set bytes now_s now_us valid_length p
          ≡ rx_callback set bytes' now_s now_us valid_length p
    unfolding rx_callback
    result-Agree valid_length p a =
        rw (walk-Agree 16 0 0 (record p { byte_count = (p.byte_count + valid_length) % 2 ^ 32 }) a)
          refl

  module _ {Float Double : Type 0} (c : Floats Float Double) (window : ℕ → Float) where
    copy_samples-Agree :
        (buf n i : ℕ)
        → Agree (buf + i * 2) (buf + (i + n) * 2) bytes bytes'
        → copy_samples c window bytes buf n i ≡ copy_samples c window bytes' buf n i
    unfolding copy_samples
    copy_samples-Agree buf zero i a = refl
    copy_samples-Agree buf (suc n) i a =
        rw
          (
            a (buf + i * 2) (omega arith) (omega arith),
            a (buf + i * 2 + 1) (omega arith) (omega arith),
            copy_samples-Agree buf n (i + 1) (λ k g h. a k (omega arith) (omega arith)),
          )
          refl

    powers-Agree :
        (set : Settings) (x : Spectrum)
        → Agree x.samples (x.samples + set.fft_size * 2) bytes bytes'
        → powers c window set bytes x ≡ powers c window set bytes' x
    unfolding powers
    powers-Agree set x a =
        ap
          (λ (xs : List (Float × Float)).
            map (log_power c window (c.over (c.from_int (pos 1)) (c.from_int (pos set.fft_size))))
              (c.forward xs))
          (copy_samples-Agree x.samples set.fft_size 0 (λ i g h. a i (omega arith) (omega arith)))

    reports-Agree :
        (set : Settings) (now_s now_us : ℕ) (xs : List Spectrum)
        → Agree 0 262144 bytes bytes'
        → AreReports set bytes now_s now_us 16 xs
        → map (powers c window set bytes) xs ≡ map (powers c window set bytes') xs
    reports-Agree set now_s now_us [] a r = refl
    reports-Agree set now_s now_us (x ∷ xs) a (r, rs) =
        rw
          (
            powers-Agree set x (λ i g h. a i (omega arith) (omega (arith, h, r.last, r.below))),
            reports-Agree set now_s now_us xs a rs,
          )
          refl

    -- With at most 8192 bins, the callback reads nothing behind the 262144 bytes of a transfer: for two
    -- buffers with the same bytes up to there, its result, the globals it leaves, the blocks it transforms
    -- and all the powers of each of them are the same.
    pub rx_callback-Agree :
        (set : Settings) (now_s now_us valid_length : ℕ) (p : Progress)
        → set.fft_size ≤ 8192
        → Agree 0 262144 bytes bytes'
        → let r = rx_callback set bytes now_s now_us valid_length p in
          let r' = rx_callback set bytes' now_s now_us valid_length p in
          (r ≡ r')
          × (map (powers c window set bytes) r.1.1 ≡ map (powers c window set bytes') r'.1.1)
    rx_callback-Agree set now_s now_us valid_length p small a =
        let same = result-Agree set now_s now_us small valid_length p a in
        let reports = rx_callback-AreReports set bytes now_s now_us valid_length p small in
        (
          same,
          reports-Agree set now_s now_us (rx_callback set bytes now_s now_us valid_length p).1.1 a
                reports
              ∙ ap (λ (r : ℤ × (Progress × List Spectrum)). map (powers c window set bytes') r.1.1)
                  same,
        )
