-- ===== src/Sweep/Transform.antt =====
-- src/lib/hackrf/hackrf_sweep.c, `rx_callback` and `logPower`: what is computed from the samples of a block. The
-- arithmetic of C's floats and the transform of fftw are parameters.
pub mod Reads
pub mod Values
use hackrf.Prelude.{
  ℕ, zero, suc, ◌+◌, ◌-◌, ◌*◌, Option, List, [], ◌∷◌, map, get_elem?, ltb, if◌then◌else◌,
}
use hackrf.Prelude.Int.{ℤ, pos, negsuc}
use hackrf.Sweep.Blocks.{Settings, Spectrum}
use hackrf.Sweep.Rows.{Row}

-- The operations of C on floats and doubles that the code uses; `forward` is `fftwf_execute` for the plan of
-- a forward transform, from `fftwIn` to `fftwOut`, and `backward` for that of the inverse transform.
pub record Floats (Float Double : Type 0) : Type 0 where
  pub from_int : ℤ → Float
  pub times : Float → Float → Float
  pub over : Float → Float → Float
  pub plus : Float → Float → Float
  pub widen : Float → Double
  pub narrow : Double → Float
  pub log2 : Double → Double
  pub times_double : Double → Double → Double
  pub over_double : Double → Double → Double
  pub forward : List (Float × Float) → List (Float × Float)
  pub backward : List (Float × Float) → List (Float × Float)

-- A byte as an int8_t.
abbrev int8 : ℕ → ℤ
int8 byte = if ltb byte 128 then pos byte else negsuc (255 - byte)

-- The loop over `ifftwOut` at the end of a sweep, for `bins` bins in all: what `fwrite` is given.
unfoldable pub write_bins :
    {Float Double : Type 0} → Floats Float Double → ℕ → List (Float × Float) → List Float
write_bins c bins [] = []
write_bins c bins (bin ∷ rest) =
    let scale = c.over (c.from_int (pos 1)) (c.from_int (pos bins)) in
    c.times bin.0 scale ∷ c.times bin.1 scale ∷ write_bins c bins rest

-- The inverse transform at the end of a sweep, and what is written of it.
unfoldable pub write_inverse :
    {Float Double : Type 0} → Floats Float Double → ℕ → List (Float × Float) → List Float
write_inverse c bins ifftw_in = write_bins c bins (c.backward ifftw_in)

-- `window` is the global of that name.
module _ {Float Double : Type 0} (c : Floats Float Double) (window : ℕ → Float) where
  unfoldable pub log_power : Float → Float × Float → Float
  log_power scale bin =
      let re = c.times bin.0 scale in
      let im = c.times bin.1 scale in
      let magsq = c.plus (c.times re re) (c.times im im) in
      let ten = c.widen (c.from_int (pos 10)) in
      c.narrow (c.over_double (c.times_double (c.log2 (c.widen magsq)) ten) (c.log2 ten))

  -- `buf[k] * window[i] * 1.0f / 128.0f`, for the byte at `buf[k]`.
  unfoldable scaled : ℕ → ℕ → Float
  scaled byte i =
      c.over (c.times (c.times (c.from_int (int8 byte)) (window i)) (c.from_int (pos 1)))
        (c.from_int (pos 128))

  -- The loop that fills `fftwIn`, for `n` more samples from the `i`th on, with `buf` at the given offset.
  unfoldable pub copy_samples : (ℕ → ℕ) → ℕ → ℕ → ℕ → List (Float × Float)
  unfolding scaled
  copy_samples bytes buf zero i = []
  copy_samples bytes buf (suc n) i =
      (scaled (bytes (buf + i * 2)) i, scaled (bytes (buf + i * 2 + 1)) i)
      ∷ copy_samples bytes buf n (i + 1)

  -- `power`, for a block that is transformed.
  unfoldable pub powers : Settings → (ℕ → ℕ) → Spectrum → List Float
  unfolding copy_samples log_power
  powers set bytes x =
      let n = set.fft_size in
      map (log_power (c.over (c.from_int (pos 1)) (c.from_int (pos n))))
        (c.forward (copy_samples bytes x.samples n 0))

  -- The values of a row, `none` for one that lies behind the end of `power`.
  abbrev pub row_values : Settings → (ℕ → ℕ) → Spectrum → Row → List (Option Float)
  row_values set bytes x r = map (get_elem? (powers set bytes x)) r.powers
