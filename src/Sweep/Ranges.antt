-- ===== src/Sweep/Ranges.antt =====
-- What the plan of `hackrf_sweep` (src/lib/hackrf/hackrf_sweep.c) gives: whole tuning steps over
-- every range that was asked for, in a form that `hackrf_init_sweep` takes.
use hackrf.Prelude.{
  ℕ, zero, suc, ◌+◌, ◌-◌, ◌*◌, ◌%◌, ◌^◌, ◌≤◌, ◌<◌, ◌≡◌, refl, true, false, List, [], ◌∷◌, set,
  length, arith, length-set, ◌⊎◌, inl, inr, Bool-cases, ◌∙◌,
}
use hackrf.Prelude.Int.{pos}
use hackrf.Requests.InitSweep.{sweep_rejected}
use hackrf.Sweep.{
  Config, configure, round_size, plan_ranges, planned, add_range, range_rejected, options_rejected,
}

-- The first `n` pairs are ranges: not empty, and up to the highest frequency, or in whole steps and
-- less than a step past it.
abbrev pub AreRanges : ℕ → List ℕ → Type 0
AreRanges zero fs = Unit {0}
AreRanges (suc n) [] = ⊥
AreRanges (suc n) (lo ∷ []) = ⊥
AreRanges (suc n) (lo ∷ hi ∷ fs) =
    (lo < hi) × (hi < 7270) × ((hi < 7251) ⊎ ((hi - lo) % 20 ≡ 0)) × AreRanges n fs

-- The first `n` pairs of the second list cover those of the first, from the same start in whole
-- steps of 20 MHz, with less than a step to spare; behind them the lists are equal.
abbrev pub Covers : ℕ → List ℕ → List ℕ → Type 0
Covers zero fs gs = fs ≡ gs
Covers (suc n) (lo ∷ hi ∷ fs) (lo' ∷ hi' ∷ gs) =
    (lo' ≡ lo) × (hi ≤ hi') × (hi' < hi + 20) × ((hi' - lo) % 20 ≡ 0) × Covers n fs gs
Covers (suc n) fs gs = ⊥

-- For valid ranges, the plan keeps the start of each and covers it in whole steps of 20 MHz, with less than
-- one step to spare, and leaves the rest of the array alone.
pub plan_ranges-Covers : (n : ℕ) (fs : List ℕ) → AreRanges n fs → Covers n fs (plan_ranges n fs)
unfolding plan_ranges
plan_ranges-Covers zero fs r = refl
plan_ranges-Covers (suc n) [] r = absurd r
plan_ranges-Covers (suc n) (lo ∷ []) r = absurd r
plan_ranges-Covers (suc n) (lo ∷ hi ∷ fs) r = ground (arith, plan_ranges-Covers n fs)

-- Planning a plan again changes nothing.
plan_ranges_idempotent :
    (n : ℕ) (fs : List ℕ) → AreRanges n fs → plan_ranges n (plan_ranges n fs) ≡ plan_ranges n fs
unfolding plan_ranges
plan_ranges_idempotent zero fs r = refl
plan_ranges_idempotent (suc n) [] r = absurd r
plan_ranges_idempotent (suc n) (lo ∷ []) r = absurd r
plan_ranges_idempotent (suc n) (lo ∷ hi ∷ fs) r = ground (arith, plan_ranges_idempotent n fs)

-- The loop ends within eight rounds, for any number of bins, at the least number from there on that
-- is an odd multiple of four.
pub round_size_least :
    (fft_size : ℕ)
    → let r = round_size 8 fft_size in (fft_size ≤ r) × (r < fft_size + 8) × (r % 8 ≡ 4)
unfolding round_size
round_size_least fft_size = ground arith

-- What `configure` does, by what its checks say.
pub configure-eq :
    (freq_min freq_max : ℕ) (c : Config)
    → (configure freq_min freq_max c).0 ≡ true
    → (range_rejected freq_min freq_max c ≡ false)
      × (options_rejected (add_range freq_min freq_max c) ≡ false)
      × ((configure freq_min freq_max c).1 ≡ planned (add_range freq_min freq_max c))
unfolding configure
configure-eq freq_min freq_max c e = ground arith

options-samples :
    (c : Config) → options_rejected c ≡ false → (c.num_samples % 8192 ≡ 0) × (8192 ≤ c.num_samples)
unfolding options_rejected
options-samples c e = ground arith

range_bounds :
    (freq_min freq_max : ℕ) (c : Config)
    → range_rejected freq_min freq_max c ≡ false
    → (c.num_ranges < 10) × (freq_min < freq_max) × (freq_max < 7251)
unfolding range_rejected
range_bounds freq_min freq_max c e = ground arith

doubled :
    (n : ℕ)
    → n % 8192 ≡ 0
    → 8192 ≤ n
    → n < 2 ^ 31
    → (n * 2 % 2 ^ 32 % 16384 ≡ 0) × (16384 ≤ n * 2 % 2 ^ 32)
doubled n a b c = (omega arith, omega arith)

sweep_taken :
    (n bytes : ℕ)
    → n < 10
    → bytes % 16384 ≡ 0
    → 16384 ≤ bytes
    → sweep_rejected (pos (suc n)) bytes 20000000 1 ≡ false
unfolding sweep_rejected
sweep_taken n bytes a b c = ground arith

-- Every configuration that is let through is one that `hackrf_init_sweep` takes, for fewer than
-- 2 ^ 31 samples: with twice as many bytes, steps of 20 MHz and the interleaved style.
pub configure_accepted :
    (freq_min freq_max : ℕ) (c : Config)
    → (configure freq_min freq_max c).0 ≡ true
    → c.num_samples < 2 ^ 31
    → let d = (configure freq_min freq_max c).1 in
      sweep_rejected (pos d.num_ranges) (d.num_samples * 2 % 2 ^ 32) 20000000 1 ≡ false
unfolding add_range planned
configure_accepted freq_min freq_max c e small =
    let (ranged, opted, result) = configure-eq freq_min freq_max c e in
    let (whole, enough) = options-samples (add_range freq_min freq_max c) opted in
    let (fits, least) = doubled c.num_samples whole enough small in
    rw result (
      sweep_taken c.num_ranges (c.num_samples * 2 % 2 ^ 32)
        (range_bounds freq_min freq_max c ranged).0 fits least)

set_pair :
    (n : ℕ) (fs : List ℕ) (lo hi : ℕ)
    → AreRanges n fs
    → n * 2 + 1 < length fs
    → lo < hi
    → hi < 7251
    → AreRanges (suc n) (set (set fs (2 * n) lo) (2 * n + 1) hi)
set_pair zero (x ∷ y ∷ fs) lo hi r h a b = ground arith
set_pair zero [] lo hi r h a b = absurd (omega arith)
set_pair zero (x ∷ []) lo hi r h a b = absurd (omega arith)
set_pair (suc n) [] lo hi r h a b = absurd r
set_pair (suc n) (x ∷ []) lo hi r h a b = absurd r
set_pair (suc n) (x ∷ y ∷ fs) lo hi r h a b =
    let two : 2 * suc n ≡ suc (suc (2 * n)) = omega arith in
    let three : suc (suc (2 * n)) + 1 ≡ suc (suc (2 * n + 1)) = omega arith in
    rw (two, three) (r.0, r.1, r.2, set_pair n fs lo hi r.3 (omega arith) a b)

plan_ranges-AreRanges : (n : ℕ) (fs : List ℕ) → AreRanges n fs → AreRanges n (plan_ranges n fs)
unfolding plan_ranges
plan_ranges-AreRanges zero fs r = tt
plan_ranges-AreRanges (suc n) [] r = absurd r
plan_ranges-AreRanges (suc n) (lo ∷ []) r = absurd r
plan_ranges-AreRanges (suc n) (lo ∷ hi ∷ fs) r = ground (arith, plan_ranges-AreRanges n fs)

-- What `configure` keeps, whether it goes on or refuses: at most ten ranges in an array of twenty
-- entries, each range valid.
abbrev pub IsConfig : Config → Type 0
IsConfig c =
    (c.num_ranges < 11) × (length c.frequencies ≡ 20) × AreRanges c.num_ranges c.frequencies

length-plan_ranges : (n : ℕ) (fs : List ℕ) → length (plan_ranges n fs) ≡ length fs
unfolding plan_ranges
length-plan_ranges zero fs = refl
length-plan_ranges (suc n) [] = refl
length-plan_ranges (suc n) (lo ∷ []) = refl
length-plan_ranges (suc n) (lo ∷ hi ∷ fs) = ground (arith, length-plan_ranges n fs)

add_range-IsConfig :
    (freq_min freq_max : ℕ) (c : Config)
    → IsConfig c
    → range_rejected freq_min freq_max c ≡ false
    → IsConfig (add_range freq_min freq_max c)
unfolding add_range
add_range-IsConfig freq_min freq_max c (few, long, ranges) e =
    let (room, less, low) = range_bounds freq_min freq_max c e in
    let m = freq_min % 2 ^ 16 in
    let same : m ≡ freq_min = omega arith in
    let same' : freq_max % 2 ^ 16 ≡ freq_max = omega arith in
    (
      omega arith,
      length-set (set c.frequencies (2 * c.num_ranges) m) _ _
          ∙ (length-set c.frequencies _ _ ∙ long),
      rw (same, same')
          (set_pair c.num_ranges c.frequencies freq_min freq_max ranges (omega (arith, long)) less
            low),
    )

planned-IsConfig : (c : Config) → IsConfig c → IsConfig (planned c)
unfolding planned
planned-IsConfig c (few, long, ranges) = (
  few,
  length-plan_ranges c.num_ranges c.frequencies ∙ long,
  plan_ranges-AreRanges c.num_ranges c.frequencies ranges,
)

-- Whether `hackrf_sweep` goes on or refuses, valid globals stay valid: at most ten ranges, in an array
-- that keeps its twenty entries, and each range not empty and within one step of the highest
-- frequency.
configure-IsConfig :
    (freq_min freq_max : ℕ) (c : Config) → IsConfig c → IsConfig (configure freq_min freq_max c).1
unfolding configure
configure-IsConfig freq_min freq_max c h = elim (Bool-cases (range_rejected freq_min freq_max c)) [
  | inl e ↦ rw e h
  | inr e ↦
      let d = add_range-IsConfig freq_min freq_max c h e in
      elim (Bool-cases (options_rejected (add_range freq_min freq_max c))) [
        | inl e' ↦ rw (e, e') d
        | inr e' ↦ rw (e, e') (planned-IsConfig (add_range freq_min freq_max c) d)
      ]
]
