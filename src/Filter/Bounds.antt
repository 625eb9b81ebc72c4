-- ===== src/Filter/Bounds.antt =====
-- What the two searches of the filter table find: src/lib/hackrf/hackrf.c,
-- `hackrf_compute_baseband_filter_bw` and `hackrf_compute_baseband_filter_bw_round_down_lt`.
use Prim.Native.Nat.{max}
use hackrf.Prelude.{ℕ, ◌-◌, ◌≤◌, ◌<◌, ◌≡◌, ◌⊎◌, List, [], ◌∷◌, arith}
use hackrf.Filter.{max2837_ft, compute_baseband_filter_bw, compute_baseband_filter_bw_round_down_lt}

-- `x` is an entry of the list.
abbrev pub IsEntry : ℕ → List ℕ → Type 0
IsEntry x [] = ⊥
IsEntry x (y ∷ ys) = (x ≡ y) ⊎ IsEntry x ys

abbrev pub All : (ℕ → Type 0) → List ℕ → Type 0
All P [] = Unit {0}
All P (x ∷ xs) = P x × All P xs

-- `r` is the largest entry that is at most `limit`: every entry is above `limit` or at most `r`.
pub record IsWidest (limit r : ℕ) (xs : List ℕ) : Type 0 where
  pub entry : IsEntry r xs
  pub fits : r ≤ limit
  pub largest : All (λ x. (limit < x) ⊎ (x ≤ r)) xs

-- Up to the largest filter, the automatic choice is the widest filter that is at most the
-- bandwidth, or the smallest filter where the bandwidth is below that.
pub compute_baseband_filter_bw-IsWidest :
    (bandwidth_hz : ℕ)
    → bandwidth_hz ≤ 28000000
    → IsWidest (max 1750000 bandwidth_hz) (compute_baseband_filter_bw bandwidth_hz) max2837_ft
unfolding compute_baseband_filter_bw
compute_baseband_filter_bw-IsWidest bandwidth_hz h = record {
  entry = ground arith;
  fits = ground arith;
  largest = ground arith;
}

-- Above the largest filter, the automatic choice is 0, the terminator of the table, and no filter.
pub compute_baseband_filter_bw_above :
    (bandwidth_hz : ℕ)
    → 28000000 < bandwidth_hz
    → (compute_baseband_filter_bw bandwidth_hz ≡ 0)
      × ¬ IsEntry (compute_baseband_filter_bw bandwidth_hz) max2837_ft
unfolding compute_baseband_filter_bw
compute_baseband_filter_bw_above bandwidth_hz h = (ground arith, λ e. ground arith)

-- The manual choice is, for every bandwidth, the widest filter that is below it, or the smallest
-- filter where none is.
round_down_lt-IsWidest :
    (bandwidth_hz : ℕ)
    → IsWidest
        (max 1750000 (bandwidth_hz - 1))
        (compute_baseband_filter_bw_round_down_lt bandwidth_hz)
        max2837_ft
unfolding compute_baseband_filter_bw_round_down_lt
round_down_lt-IsWidest bandwidth_hz = record {
  entry = ground arith;
  fits = ground arith;
  largest = ground arith;
}
