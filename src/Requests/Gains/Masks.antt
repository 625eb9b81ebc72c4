-- ===== src/Requests/Gains/Masks.antt =====
-- The masks of src/lib/hackrf/hackrf.c over the values that the argument tests let through: they round
-- down to a step.
use Prim.Native.Nat.{bit_and}
use hackrf.Prelude.{ℕ, ◌-◌, ◌%◌, ◌≤◌, ◌≡◌, refl, true, ◌==◌, ==_iff, arith}
use hackrf.Prelude.Tables.{all_below, all_below_sound}

lna_table : all_below 41 (λ v. bit_and v 0xffff_fff8 == v - v % 8) ≡ true
unfolding all_below
lna_table = refl

pub lna_mask : (v : ℕ) → v ≤ 40 → bit_and v 0xffff_fff8 ≡ v - v % 8
lna_mask v h = (==_iff _ _).0 (all_below_sound 41 _ v lna_table (omega arith))

vga_table : all_below 63 (λ v. bit_and v 0xffff_fffe == v - v % 2) ≡ true
unfolding all_below
vga_table = refl

pub vga_mask : (v : ℕ) → v ≤ 62 → bit_and v 0xffff_fffe ≡ v - v % 2
vga_mask v h = (==_iff _ _).0 (all_below_sound 63 _ v vga_table (omega arith))
