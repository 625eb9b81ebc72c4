-- ===== src/Tests/Values.antt =====
-- The filter table and the structures at concrete arguments.
use hackrf.Prelude.{◌≡◌, refl, [], ◌∷◌, arith}
use hackrf.Filter.{max2837_ft, compute_baseband_filter_bw, compute_baseband_filter_bw_round_down_lt}
use hackrf.Filter.Bounds.{IsWidest, compute_baseband_filter_bw-IsWidest}
use hackrf.Requests.InitSweep.{sweep_data}
use hackrf.Requests.InitSweep.Layout.{read_sweep, sweep_data_roundtrip}

filter_values :
    (compute_baseband_filter_bw 15_000_000 ≡ 15_000_000)
    × (compute_baseband_filter_bw 14_999_999 ≡ 14_000_000)
    × (compute_baseband_filter_bw_round_down_lt 15_000_000 ≡ 14_000_000)
    × (compute_baseband_filter_bw 30_000_000 ≡ 0)
unfolding compute_baseband_filter_bw compute_baseband_filter_bw_round_down_lt
filter_values = (refl, refl, refl, refl)

compute_baseband_filter_bw-IsWidest_example :
    IsWidest 15_000_000 (compute_baseband_filter_bw 15_000_000) max2837_ft
compute_baseband_filter_bw-IsWidest_example =
    compute_baseband_filter_bw-IsWidest 15_000_000 (omega arith)

sweep_data_roundtrip_example :
    read_sweep (sweep_data 1 (2400 ∷ 2480 ∷ 0 ∷ []) 20_000_000 7_500_000 1) ≡ record {
      step_width = 20_000_000;
      offset = 7_500_000;
      style = 1;
      frequency_list = 2400 ∷ 2480 ∷ [];
    }
sweep_data_roundtrip_example =
    sweep_data_roundtrip 1 (2400 ∷ 2480 ∷ 0 ∷ []) 20_000_000 7_500_000 1 (omega arith) (omega arith)
      (omega arith) (omega arith)
