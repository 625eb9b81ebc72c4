-- ===== src/Filter.antt =====
-- src/lib/hackrf/hackrf.c: the table of baseband filters `max2837_ft`, and
-- `hackrf_compute_baseband_filter_bw` and `hackrf_compute_baseband_filter_bw_round_down_lt`.
pub mod Bounds
use hackrf.Prelude.{ℕ, Bool, List, [], ◌∷◌, leb, ltb, if◌then◌else◌}

-- The entries before the terminating 0.
abbrev pub max2837_ft : List ℕ
max2837_ft =
    1750000 ∷ 2500000 ∷ 3500000 ∷ 5000000 ∷ 5500000 ∷ 6000000 ∷ 7000000 ∷ 8000000 ∷ 9000000
    ∷ 10000000 ∷ 12000000 ∷ 14000000 ∷ 15000000 ∷ 20000000 ∷ 24000000 ∷ 28000000 ∷ []

-- Where the loop stops: `*p`, which is 0 at the terminator, and `p[-1]` unless `p == max2837_ft`.
pub record Stop : Type 0 where
  pub here : ℕ
  pub at_first : Bool
  pub before : ℕ

-- `while (p->bandwidth_hz != 0) { if (p->bandwidth_hz >= bandwidth_hz) break; p++; }`
pub scan : ℕ → Stop → List ℕ → Stop
scan bandwidth_hz s [] = record s { here = 0 }
scan bandwidth_hz s (x ∷ xs) =
    let rest = scan bandwidth_hz (record { here = 0; at_first = Bool.false; before = x }) xs in
    if leb bandwidth_hz x then record s { here = x } else rest

abbrev start : Stop
start = record { here = 0; at_first = Bool.true; before = 0 }

unfoldable pub compute_baseband_filter_bw_round_down_lt : ℕ → ℕ
unfolding scan
compute_baseband_filter_bw_round_down_lt bandwidth_hz =
    let s = scan bandwidth_hz start max2837_ft in if s.at_first then s.here else s.before

unfoldable pub compute_baseband_filter_bw : ℕ → ℕ
unfolding scan
compute_baseband_filter_bw bandwidth_hz =
    let s = scan bandwidth_hz start max2837_ft in
    if s.at_first then s.here else if ltb bandwidth_hz s.here then s.before else s.here
