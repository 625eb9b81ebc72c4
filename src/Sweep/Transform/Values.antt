-- ===== src/Sweep/Transform/Values.antt =====
-- The values that `rx_callback` (src/lib/hackrf/hackrf_sweep.c) prints of a block are all in `power`.
use hackrf.Prelude.{
  ℕ, zero, suc, ◌+◌, ◌*◌, ◌/◌, ◌%◌, ◌≤◌, ◌<◌, ◌≡◌, refl, Option, none, some, List, [], ◌∷◌, map,
  length, get_elem?, length-map, arith,
}
use hackrf.Prelude.Int.{pos}
use hackrf.Sweep.Blocks.{Settings, Spectrum}
use hackrf.Sweep.Rows.{from, lower_row, upper_row}
use hackrf.Sweep.Transform.{
  Floats, copy_samples, log_power, powers, row_values, write_bins, write_inverse,
}

module _ {ℓ} {A : Type ℓ} where
  -- No entry is missing.
  abbrev AreThere : List (Option A) → Type 0
  AreThere [] = Unit {0}
  AreThere (none ∷ xs) = ⊥
  AreThere (some x ∷ xs) = AreThere xs

  get_elem?-there : (xs : List A) (i : ℕ) → i < length xs → (x : A) × (get_elem? xs i ≡ some x)
  get_elem?-there [] i h = absurd (omega arith)
  get_elem?-there (x ∷ xs) zero h = (x, refl)
  get_elem?-there (x ∷ xs) (suc i) h = get_elem?-there xs i (omega arith)

  from-AreThere :
      (xs : List A) (count start : ℕ)
      → start + count ≤ length xs
      → AreThere (map (get_elem? xs) (from count start))
  from-AreThere xs zero start h = tt
  from-AreThere xs (suc count) start h =
      let (x, there) = get_elem?-there xs start (omega arith) in
      rw there (from-AreThere xs count (start + 1) (omega arith))

module _ {Float Double : Type 0} (c : Floats Float Double) (window : ℕ → Float) where
  length-copy_samples :
      (bytes : ℕ → ℕ) (buf n i : ℕ) → length (copy_samples c window bytes buf n i) ≡ n
  unfolding copy_samples
  length-copy_samples bytes buf zero i = refl
  length-copy_samples bytes buf (suc n) i = omega (arith, length-copy_samples bytes buf n (i + 1))

  -- The transform gives as many values as it takes.
  module _ (keeps : (xs : List (Float × Float)) → length (c.forward xs) ≡ length xs) where
    length-powers :
        (set : Settings) (bytes : ℕ → ℕ) (x : Spectrum)
        → length (powers c window set bytes x) ≡ set.fft_size
    unfolding powers
    length-powers set bytes x =
        let ins = copy_samples c window bytes x.samples set.fft_size 0 in
        omega (
          arith,
          length-map (c.forward ins)
              (log_power c window (c.over (c.from_int (pos 1)) (c.from_int (pos set.fft_size)))),
          keeps ins,
          length-copy_samples bytes x.samples set.fft_size 0,
        )

    -- For a number of bins that is 4 more than a multiple of 8, no value of the two rows of a block lies
    -- behind the end of `power`.
    rows-AreThere :
        (set : Settings) (bytes : ℕ → ℕ) (x : Spectrum)
        → set.fft_size % 8 ≡ 4
        → AreThere (row_values c window set bytes x (lower_row set.fft_size x.frequency))
          × AreThere (row_values c window set bytes x (upper_row set.fft_size x.frequency))
    rows-AreThere set bytes x h =
        let n = set.fft_size in
        let xs = powers c window set bytes x in
        let l = length-powers set bytes x in
        (
          from-AreThere xs (n / 4) (1 + n * 5 / 8) (omega (arith, h, l)),
          from-AreThere xs (n / 4) (1 + n / 8) (omega (arith, h, l)),
        )

length-write_bins :
    {Float Double : Type 0} (c : Floats Float Double) (bins : ℕ) (xs : List (Float × Float))
    → length (write_bins c bins xs) ≡ 2 * length xs
unfolding write_bins
length-write_bins c bins [] = refl
length-write_bins c bins (x ∷ xs) = omega (arith, length-write_bins c bins xs)

-- What is written of an inverse transform: two floats for each element of its input.
length-write_inverse :
    {Float Double : Type 0} (c : Floats Float Double) (bins : ℕ) (xs : List (Float × Float))
    → length (c.backward xs) ≡ length xs
    → length (write_inverse c bins xs) ≡ 2 * length xs
unfolding write_inverse
length-write_inverse c bins xs keeps =
    omega (arith, keeps, length-write_bins c bins (c.backward xs))
