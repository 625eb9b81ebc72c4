-- ===== src/Sweep/Numbers/RoundTrip.antt =====
-- `parse_u32` and `parse_u32_range` (src/lib/hackrf/hackrf_sweep.c) read back numbers that are written
-- in base 2, 10 or 16.
use hackrf.Prelude.{
  ℕ, zero, suc, ◌+◌, ◌-◌, ◌*◌, ◌/◌, ◌%◌, ◌^◌, ◌≤◌, ◌<◌, ◌≡◌, refl, ◌⊎◌, inl, inr, Bool, true, false,
  some, List, [], ◌∷◌, ◌++◌, ltb, ◌==◌, if◌then◌else◌, arith,
}
use native.Mathlib.Nat.{mod-lt, div-lt_self, div-add-mod', mod-eq_of_lt}
use hackrf.Prelude.{Bool-cases, ltb→lt}
use hackrf.Errors.{success}
use hackrf.Sweep.Numbers.{
  digit, take_digits, strtoul, number_after, base_of, parse_u32, split_colon, parse_u32_range,
  skip_mark, unsigned_long, is_space,
}

-- The character of a digit, in lower case.
abbrev pub digit_char : ℕ → ℕ
digit_char d = if ltb d 10 then b'0' + d else b'a' + (d - 10)

-- The digits of a number in a base, in front of a text; `fuel` is more than there are.
unfoldable pub write : ℕ → ℕ → ℕ → List ℕ → List ℕ
write base zero n rest = rest
write base (suc fuel) n rest =
    let this = digit_char (n % base) ∷ rest in
    let more = write base fuel (n / base) this in if ltb n base then this else more

digit-digit_char : (d : ℕ) → d < 16 → digit (digit_char d) ≡ d
digit-digit_char d h = ground arith

take_digits-digit :
    (base d n : ℕ) (any : Bool) (cs : List ℕ)
    → base ≤ 16
    → d < base
    → take_digits base (digit_char d ∷ cs) n any ≡ take_digits base cs (n * base + d) true
unfolding take_digits
take_digits-digit base d n any cs h k = ground (arith, digit-digit_char d)

ltb-false : (a b : ℕ) → ltb a b ≡ false → b ≤ a
ltb-false a b e = ground arith

-- Reading the digits that were written gives the number.
take_digits-write :
    (base fuel n : ℕ) (any : Bool) (rest : List ℕ)
    → 2 ≤ base
    → base ≤ 16
    → n < fuel
    → take_digits base (write base fuel n rest) 0 any ≡ take_digits base rest n true
unfolding write
take_digits-write base zero n any rest two few h = absurd (omega arith)
take_digits-write base (suc fuel) n any rest two few h =
    let d = n % base in
    let below : d < base = mod-lt n (omega arith) in
    elim (Bool-cases (ltb n base)) [
      | inl e ↦
          let small : d ≡ n = mod-eq_of_lt (ltb→lt n base e) in
          let same : 0 * base + d ≡ n = omega (arith, small) in
          rw e (rw (take_digits-digit base d 0 any rest few below, same) refl)
      | inr e ↦
          let more = ltb-false n base e in
          let less : n / base < n = div-lt_self (omega (arith, more)) (omega arith) in
          rw e (
            rw
              (
                take_digits-write base fuel (n / base) any (digit_char d ∷ rest) two few
                    (omega (arith, less)),
                take_digits-digit base d (n / base) true rest few below,
                div-add-mod' n base,
              )
              refl)
    ]

-- Every character is a digit of the base.
abbrev pub AllDigits : ℕ → List ℕ → Type 0
AllDigits base [] = Unit {0}
AllDigits base (c ∷ cs) = (digit c < base) × AllDigits base cs

write-AllDigits :
    (base fuel n : ℕ) (rest : List ℕ)
    → 2 ≤ base
    → base ≤ 16
    → AllDigits base rest
    → AllDigits base (write base fuel n rest)
unfolding write
write-AllDigits base zero n rest two few h = h
write-AllDigits base (suc fuel) n rest two few h =
    let below : n % base < base = mod-lt n (omega arith) in
    let this = digit-digit_char (n % base) (omega (arith, below)) in
    ground (arith, below, this, write-AllDigits base fuel (n / base) (digit_char (n % base) ∷ rest))

-- Something is written.
write_some :
    (base fuel n : ℕ) (rest : List ℕ)
    → (c : ℕ) × ((cs : List ℕ) × (write base (suc fuel) n rest ≡ c ∷ cs))
unfolding write
write_some base zero n rest = (digit_char (n % base), (rest, ground arith))
write_some base (suc fuel) n rest = elim (Bool-cases (ltb n base)) [
  | inl e ↦ (digit_char (n % base), (rest, ground arith))
  | inr e ↦
      let (c, (cs, w)) = write_some base fuel (n / base) (digit_char (n % base) ∷ rest) in
      (c, (cs, ground (arith, w)))
]

-- The mark of a base.
abbrev pub mark : ℕ → List ℕ → List ℕ
mark base cs = if base == 16 then b'0' ∷ b'x' ∷ cs else if base == 2 then b'0' ∷ b'b' ∷ cs else cs

-- What no digit is.
no_mark :
    (c : ℕ)
    → ((16 ≤ digit c) ⊎ (((c == b'x') ≡ false) × ((c == b'X') ≡ false)))
      × ((10 ≤ digit c) ⊎ (((c == b'b') ≡ false) × ((c == b'B') ≡ false)))
no_mark c = ground arith

no_sign :
    (c : ℕ) → digit c < 16 → (is_space c ≡ false) × ((c == b'-') ≡ false) × ((c == b'+') ≡ false)
no_sign c h = ground arith

skip_mark_digits : (base : ℕ) (cs : List ℕ) → base ≤ 16 → AllDigits base cs → skip_mark base cs ≡ cs
skip_mark_digits base [] few a = refl
skip_mark_digits base (c ∷ []) few a = refl
skip_mark_digits base (c ∷ x ∷ []) few a = refl
skip_mark_digits base (c ∷ x ∷ d ∷ cs) few a = ground (arith, no_mark x)

-- A text of digits of one of the three bases, with its mark, is read in that base.
base_of-mark :
    (base c : ℕ) (cs : List ℕ)
    → (base ≡ 2) ⊎ ((base ≡ 10) ⊎ (base ≡ 16))
    → AllDigits base (c ∷ cs)
    → base_of (mark base (c ∷ cs)) ≡ (base, c ∷ cs)
base_of-mark base c [] b a = ground arith
base_of-mark base c (x ∷ []) b a = ground (arith, no_mark x)
base_of-mark base c (x ∷ y ∷ cs) b a = ground (arith, no_mark x)

number_after_digits :
    (base n : ℕ) (cs : List ℕ)
    → base ≤ 16
    → AllDigits base cs
    → take_digits base cs 0 false ≡ (n, true, [])
    → number_after base false cs ≡ some (unsigned_long false n, [])
unfolding number_after
number_after_digits base n cs few a e = rw (skip_mark_digits base cs few a, e) refl

strtoul_digits :
    (base c n : ℕ) (cs : List ℕ)
    → AllDigits base (c ∷ cs)
    → base ≤ 16
    → take_digits base (c ∷ cs) 0 false ≡ (n, true, [])
    → strtoul base (c ∷ cs) ≡ some (unsigned_long false n, [])
unfolding strtoul number_after
strtoul_digits base c n cs a few e =
    ground (arith, no_sign c (omega (arith, a.0)), number_after_digits base n (c ∷ cs) few a e)

parse_u32_digits :
    (base c n : ℕ) (cs : List ℕ)
    → (base ≡ 2) ⊎ ((base ≡ 10) ⊎ (base ≡ 16))
    → AllDigits base (c ∷ cs)
    → take_digits base (c ∷ cs) 0 false ≡ (n, true, [])
    → n < 2 ^ 32
    → parse_u32 (mark base (c ∷ cs)) ≡ (success, some n)
unfolding parse_u32
parse_u32_digits base c n cs b a e h =
    let few : base ≤ 16 = ground arith in
    ground (arith, base_of-mark base c cs b a, strtoul_digits base c n cs a few e)

-- A number that is written in base 2, 10 or 16, with the mark of its base, is read back, if it fits
-- 32 bits.
pub parse_u32-write :
    (base n : ℕ)
    → (base ≡ 2) ⊎ ((base ≡ 10) ⊎ (base ≡ 16))
    → n < 2 ^ 32
    → parse_u32 (mark base (write base (suc n) n [])) ≡ (success, some n)
unfolding take_digits
parse_u32-write base n b h =
    let two : 2 ≤ base = ground arith in
    let few : base ≤ 16 = ground arith in
    let (c, (cs, w)) = write_some base n n [] in
    let a = write-AllDigits base (suc n) n [] two few tt in
    let e = take_digits-write base (suc n) n false [] two few (omega arith) in
    rw w (parse_u32_digits base c n cs b (rw w at a) (rw w at e) h)

-- A text without a colon is cut at the colon behind it.
split_colon-append :
    (base : ℕ) (xs bs : List ℕ)
    → base ≤ 16
    → AllDigits base xs
    → split_colon (xs ++ (b':' ∷ bs)) ≡ some (xs, bs)
unfolding split_colon
split_colon-append base [] bs few a = refl
split_colon-append base (c ∷ cs) bs few a = ground (arith, split_colon-append base cs bs few)

-- A range of two decimal numbers with a colon between them is read back.
parse_u32_range-write :
    (low high : ℕ)
    → low < 2 ^ 32
    → high < 2 ^ 32
    → parse_u32_range (write 10 (suc low) low [] ++ (b':' ∷ write 10 (suc high) high []))
      ≡ (success, (some low, some high))
unfolding parse_u32_range
parse_u32_range-write low high h k = ground (
  arith,
  split_colon-append 10 (write 10 (suc low) low []) (write 10 (suc high) high []) (omega arith)
      (write-AllDigits 10 (suc low) low [] (omega arith) (omega arith) tt),
  parse_u32-write 10 low (inr (inl refl)) h,
  parse_u32-write 10 high (inr (inl refl)) k,
)
