-- ===== src/Messages/Hex.antt =====
-- What `ullx` (include/common_hackrf.h) writes is what `parse_u32` (src/lib/hackrf/hackrf_sweep.c) reads.
use native.Mathlib.Nat.{div-lt_iff_lt-mul, pow-suc}
use hackrf.Prelude.{
  ℕ, zero, suc, ◌/◌, ◌%◌, ◌^◌, ◌≤◌, ◌<◌, ◌≡◌, refl, ap, ◌∙◌, inl, inr, List, [], ◌∷◌, ltb,
  Bool-cases, some, arith,
}
use hackrf.Errors.{success}
use hackrf.Sweep.Numbers.{parse_u32}
use hackrf.Sweep.Numbers.RoundTrip.{write, parse_u32-write}
use hackrf.Messages.{hex_digit, hex_digits, ullx}

shorter : (n rounds : ℕ) → n < 16 ^ suc rounds → n / 16 < 16 ^ rounds
shorter n rounds h = (div-lt_iff_lt-mul (omega arith)).1 (omega (arith, h, pow-suc 16 rounds))

-- Enough rounds write what `write` writes.
hex_digits-write :
    (rounds fuel n : ℕ) (rest : List ℕ)
    → n < 16 ^ suc rounds
    → n < fuel
    → hex_digits (suc rounds) n rest ≡ write 16 fuel n rest
unfolding hex_digits write
hex_digits-write rounds zero n rest h k = absurd (omega arith)
hex_digits-write zero (suc fuel) n rest h k =
    let one : n < 16 = omega (arith, h, pow-suc 16 0) in ground (arith, one)
hex_digits-write (suc rounds) (suc fuel) n rest h k = elim (Bool-cases (ltb n 16)) [
  | inl e ↦ ground (arith, e)
  | inr e ↦
      let more : 16 ≤ n = ground (arith, e) in
      ground (
        arith,
        e,
        hex_digits-write rounds fuel (n / 16) (hex_digit (n % 16) ∷ rest) (shorter n (suc rounds) h)
            (omega (arith, more)),
      )
]

-- A number that fits 32 bits is read back from what is written of it.
parse_u32-ullx : (n : ℕ) → n < 2 ^ 32 → parse_u32 (ullx n) ≡ (success, some n)
unfolding ullx
parse_u32-ullx n h =
    ap (λ (digits : List ℕ). parse_u32 (b'0' ∷ b'x' ∷ digits))
      (hex_digits-write 15 (suc n) n [] (omega arith) (omega arith))
    ∙ parse_u32-write 16 n (inr (inr refl)) h
