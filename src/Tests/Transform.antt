-- ===== src/Tests/Transform.antt =====
-- A transfer that is transformed with natural numbers in place of floats.
use hackrf.Prelude.{ℕ, ◌+◌, ◌*◌, ◌/◌, ◌%◌, ◌≡◌, refl, List, [], ◌∷◌, ltb, map, if◌then◌else◌, arith}
use hackrf.Prelude.Int.{ℤ, pos, negsuc}
use hackrf.Sweep.Blocks.{rx_callback}
use hackrf.Sweep.Transform.{Floats, powers}
use hackrf.Sweep.Transform.Reads.{Agree, rx_callback-Agree}
use hackrf.Filter.Bounds.{All, IsEntry}
use hackrf.Sweep.Rows.{first_place, second_place, store}
use hackrf.Sweep.Rows.Inverse.{IsStep, quarter_bin, spread_sweep, spread_sweep-eq}
use hackrf.Tests.Sweep.{settings, progress, received}

abbrev whole : ℤ → ℕ
whole (pos n) = n
whole (negsuc n) = 0

abbrev naturals : Floats ℕ ℕ
naturals = record {
  from_int = whole;
  times = λ a b. a * b;
  over = λ a b. a / b;
  plus = λ a b. a + b;
  widen = λ a. a;
  narrow = λ a. a;
  log2 = λ a. a;
  times_double = λ a b. a * b;
  over_double = λ a b. a / b;
  forward = λ xs. xs;
  backward = λ xs. xs;
}

-- The same transfer, with other bytes behind its end.
abbrev continued : ℕ → ℕ
continued i = if ltb i 262144 then received i else 7

continued-Agree : Agree 0 262144 received continued
continued-Agree i g h = ground arith

rx_callback-Agree_example :
    let r = rx_callback settings received 1000 900000 262144 progress in
    let r' = rx_callback settings continued 1000 900000 262144 progress in
    (r ≡ r')
    × (map (powers naturals (λ i. i) settings received) r.1.1
        ≡ map (powers naturals (λ i. i) settings continued) r'.1.1)
rx_callback-Agree_example =
    rx_callback-Agree received continued naturals (λ i. i) settings 1000 900000 262144 progress
      (omega arith) continued-Agree

-- Four blocks of 20 bins, out of order.
abbrev order : List ℕ
order = 5 ∷ 0 ∷ 4 ∷ 1 ∷ []

order-steps : All (IsStep 2) order
order-steps = ground arith

all_there : (k : ℕ) → IsStep 2 k → IsEntry k order
all_there k h = ground (arith, h)

spread_sweep-eq_example :
    spread_sweep 5 2 (λ k j. 100 * k + j) order (λ i. 0) (5 * ((6 + 2 * 2) % (4 * 2)) + 3)
    ≡ quarter_bin 5 (λ k j. 100 * k + j) 6 3
spread_sweep-eq_example =
    spread_sweep-eq 5 2 (omega arith) (omega arith) (omega arith) (λ k j. 100 * k + j) order
      (λ i. 0) 6 3 order-steps all_there (omega arith) (omega arith)

spread_sweep_value : spread_sweep 5 2 (λ k j. 100 * k + j) order (λ i. 0) 13 ≡ 406
unfolding first_place second_place store
spread_sweep_value = refl
