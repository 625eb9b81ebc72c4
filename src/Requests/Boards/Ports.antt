-- ===== src/Requests/Boards/Ports.antt =====
-- `port_a | (port_b<<8)` of src/lib/hackrf/hackrf.c, over the ports that there are.
use Prim.Native.Nat.{bit_or}
use hackrf.Prelude.{ℕ, ◌+◌, ◌*◌, ◌^◌, ◌≤◌, ◌≡◌, refl, true, ◌==◌, ==_iff, arith}
use hackrf.Prelude.Tables.{all_below, all_below_sound}

ports_table : all_below 8 (λ a. all_below 8 (λ b. bit_or a (b * 2 ^ 8) == a + 256 * b)) ≡ true
unfolding all_below
ports_table = refl

pub ports_joined : (a b : ℕ) → a ≤ 7 → b ≤ 7 → bit_or a (b * 2 ^ 8) ≡ a + 256 * b
ports_joined a b ha hb =
    (==_iff _ _).0
      (all_below_sound 8 _ b (all_below_sound 8 _ a ports_table (omega arith)) (omega arith))
