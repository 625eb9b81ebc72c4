-- ===== src/Requests/Tuning/Params.antt =====
-- What the device reads from the structures that `hackrf_set_freq`, `hackrf_set_freq_explicit` and
-- `hackrf_set_sample_rate_manual` (src/lib/hackrf/hackrf.c) send, from either kind of host.
use hackrf.Prelude.{ℕ, ◌+◌, ◌*◌, ◌^◌, ◌<◌, ◌≡◌, ◌≢◌, false, List, ◌++◌, take, drop, arith}
use hackrf.Bytes.{Endian, little, big, number, number-bytes, memory, to_le, memory-to_le}
use hackrf.Requests.Tuning.{
  set_freq_params, set_freq_explicit_params, set_fracrate_params, explicit_rejected, freq_mhz_part,
  freq_hz_part,
}

-- The device's view of eight bytes: a megahertz word and a hertz word.
abbrev pub first_word : List ℕ → ℕ
first_word bs = number (take 4 bs)

abbrev pub second_word : List ℕ → ℕ
second_word bs = number (take 4 (drop 4 bs))

two_words :
    (host : Endian) (a b : ℕ)
    → a < 2 ^ 32
    → b < 2 ^ 32
    → let bs = memory host 4 (to_le host a) ++ memory host 4 (to_le host b) in
      (first_word bs ≡ a) × (second_word bs ≡ b)
two_words host a b ha hb =
    ground (arith, memory-to_le host a, memory-to_le host b, number-bytes 4 a, number-bytes 4 b)

-- From a host of either byte order, the two words of `hackrf_set_freq` add up to the frequency, and
-- the second is below one megahertz, for every frequency whose megahertz fit 32 bits.
set_freq_params_roundtrip :
    (host : Endian) (freq_hz : ℕ)
    → freq_hz < 2 ^ 32 * 1000000
    → let bs = set_freq_params host freq_hz in
      (first_word bs * 1000000 + second_word bs ≡ freq_hz) × (second_word bs < 1000000)
unfolding set_freq_params
set_freq_params_roundtrip host freq_hz h = ground (
  arith,
  two_words host (freq_mhz_part freq_hz) (freq_hz_part freq_hz) (omega arith) (omega arith),
)

-- The same for `hackrf_set_sample_rate_manual`: the device reads the rate and the divider.
set_fracrate_params_roundtrip :
    (host : Endian) (freq_hz divider : ℕ)
    → freq_hz < 2 ^ 32
    → divider < 2 ^ 32
    → let bs = set_fracrate_params host freq_hz divider in
      (first_word bs ≡ freq_hz) × (second_word bs ≡ divider)
unfolding set_fracrate_params
set_fracrate_params_roundtrip host freq_hz divider hf hd = two_words host freq_hz divider hf hd

-- The device's view of `struct set_freq_explicit_params`.
abbrev pub if_field : List ℕ → ℕ
if_field bs = number (take 8 bs)

abbrev pub lo_field : List ℕ → ℕ
lo_field bs = number (take 8 (drop 8 bs))

abbrev pub path_field : List ℕ → ℕ
path_field bs = number (take 1 (drop 16 bs))

-- From a little-endian host the device reads the three arguments of `hackrf_set_freq_explicit`.
set_freq_explicit_params_roundtrip :
    (i l path : ℕ) (padding : List ℕ)
    → i < 2 ^ 64
    → l < 2 ^ 64
    → path < 2 ^ 8
    → let bs = set_freq_explicit_params little i l path padding in
      (if_field bs ≡ i) × (lo_field bs ≡ l) × (path_field bs ≡ path)
unfolding set_freq_explicit_params memory to_le
set_freq_explicit_params_roundtrip i l path padding hi hl hp =
    ground (arith, number-bytes 8 i, number-bytes 8 l)

-- From a big-endian host no accepted intermediate frequency arrives: the macro swaps four bytes of
-- an eight-byte field, and the device reads a number from 2 ^ 32 on.
set_freq_explicit_params_big :
    (i l path : ℕ) (padding : List ℕ)
    → explicit_rejected i l path ≡ false
    → let bs = set_freq_explicit_params big i l path padding in
      (if_field bs ≡ i * 2 ^ 32) × (if_field bs ≢ i)
unfolding set_freq_explicit_params memory to_le explicit_rejected
set_freq_explicit_params_big i l path padding h = ground arith
