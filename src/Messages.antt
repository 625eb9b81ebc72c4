-- ===== src/Messages.antt =====
-- include/common_hackrf.h: numbers as text, `ullx`, and as bytes, `serialize_uint64`.
pub mod Hex
use hackrf.Prelude.{ℕ, zero, suc, ◌+◌, ◌-◌, ◌/◌, ◌%◌, ◌^◌, List, [], ◌∷◌, ltb, ◌==◌, if◌then◌else◌}

-- "0123456789abcdef"[d]
abbrev pub hex_digit : ℕ → ℕ
hex_digit d = if ltb d 10 then b'0' + d else b'a' + (d - 10)

-- The loop, with at most so many rounds, in front of what it has written: `*out = …; --out;`.
unfoldable pub hex_digits : ℕ → ℕ → List ℕ → List ℕ
hex_digits zero hval written = written
hex_digits (suc rounds) hval written =
    let now = hex_digit (hval % 16) ∷ written in
    let more = hex_digits rounds (hval / 16) now in if hval / 16 == 0 then now else more

-- `ullx`: the characters from the one that it returns the address of to the end of its buffer, which
-- has 34. A uint64_t needs at most 16 rounds.
unfoldable pub ullx : ℕ → List ℕ
unfolding hex_digits
ullx val = b'0' ∷ b'x' ∷ hex_digits 16 val []

-- The ten bytes that `serialize_uint64` writes.
abbrev pub serialize_uint64 : ℕ → List ℕ
serialize_uint64 val =
    (val / 2 ^ 56 % 256)
    ∷ (val / 2 ^ 48 % 256)
    ∷ (val / 2 ^ 40 % 256)
    ∷ (val / 2 ^ 32 % 256)
    ∷ (val / 2 ^ 24 % 256)
    ∷ (val / 2 ^ 16 % 256)
    ∷ (val / 2 ^ 8 % 256)
    ∷ (val / 2 ^ 16 % 256)
    ∷ (val / 2 ^ 24 % 256)
    ∷ (val / 2 ^ 16 % 256)
    ∷ []
