-- ===== src/Bytes.antt =====
-- The byte order of a number in memory and on the wire: src/lib/hackrf/hackrf.c, `TO_LE`.
-- The device reads its parameters little-endian, whatever the host is.
use mathlib.Core.List.{reverse}
use native.Mathlib.Nat.{pow-suc}
use hackrf.Prelude.{
  length, ◌++◌, ℕ, zero, suc, ◌+◌, ◌*◌, ◌/◌, ◌%◌, ◌^◌, ◌<◌, ◌≡◌, refl, List, [], ◌∷◌, arith,
}

-- The low `n` bytes of a number, lowest first.
abbrev pub bytes : ℕ → ℕ → List ℕ
bytes zero x = []
bytes (suc n) x = (x % 256) ∷ bytes n (x / 256)

-- What a little-endian reader makes of bytes.
abbrev pub number : List ℕ → ℕ
number [] = 0
number (b ∷ bs) = b + 256 * number bs

pub data Endian : Type 0 where
  little big : Endian

-- `__builtin_bswap32` (its argument is converted to 32 bits).
abbrev pub bswap32 : ℕ → ℕ
bswap32 x =
    x % 256 * 2 ^ 24 + x / 2 ^ 8 % 256 * 2 ^ 16 + x / 2 ^ 16 % 256 * 2 ^ 8 + x / 2 ^ 24 % 256

-- `TO_LE(x)`: the identity, or `__builtin_bswap32(x)` under HACKRF_BIG_ENDIAN.
unfoldable pub to_le : Endian → ℕ → ℕ
to_le little x = x
to_le big x = bswap32 x

-- A field of `n` bytes as it lies in the host's memory.
unfoldable pub memory : Endian → ℕ → ℕ → List ℕ
memory little n x = bytes n x
memory big n x = reverse (bytes n x)

pub number-bytes : (n x : ℕ) → x < 256 ^ n → number (bytes n x) ≡ x
number-bytes zero x h = omega arith
number-bytes (suc n) x h = omega (arith, number-bytes n (x / 256) bound)
  where
    bound : x / 256 < 256 ^ n
    bound = omega (arith, pow-suc 256 n)

pub memory-to_le : (e : Endian) (x : ℕ) → memory e 4 (to_le e x) ≡ bytes 4 x
unfolding memory to_le
memory-to_le little x = refl
memory-to_le big x = ground arith

-- A field of host memory read as a number.
unfoldable pub load : Endian → List ℕ → ℕ
load little bs = number bs
load big bs = number (reverse bs)

-- A word that the device has sent, loaded by the host and passed through `TO_LE`, is the number that
-- the device meant.
pub to_le-load :
    (e : Endian) (a b c d : ℕ)
    → a < 256
    → b < 256
    → c < 256
    → d < 256
    → to_le e (load e (a ∷ b ∷ c ∷ d ∷ [])) ≡ number (a ∷ b ∷ c ∷ d ∷ [])
unfolding to_le load
to_le-load little a b c d ha hb hc hd = refl
to_le-load big a b c d ha hb hc hd = ground arith

abbrev pub IsBytes : List ℕ → Type 0
IsBytes [] = Unit {0}
IsBytes (b ∷ bs) = (b < 256) × IsBytes bs

pub length-bytes : (n x : ℕ) → length (bytes n x) ≡ n
length-bytes zero x = refl
length-bytes (suc n) x = omega (arith, length-bytes n (x / 256))

pub bytes-IsBytes : (n x : ℕ) → IsBytes (bytes n x)
bytes-IsBytes zero x = tt
bytes-IsBytes (suc n) x = (omega arith, bytes-IsBytes n (x / 256))

pub append-IsBytes : (xs ys : List ℕ) → IsBytes xs → IsBytes ys → IsBytes (xs ++ ys)
append-IsBytes [] ys hx hy = hy
append-IsBytes (x ∷ xs) ys hx hy = (hx.0, append-IsBytes xs ys hx.1 hy)
