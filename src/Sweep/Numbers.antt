-- ===== src/Sweep/Numbers.antt =====
-- src/lib/hackrf/hackrf_sweep.c: `parse_u32` and `parse_u32_range`, on the characters of a text.
pub mod RoundTrip
use hackrf.Prelude.{
  ℕ, zero, suc, ◌+◌, ◌-◌, ◌*◌, ◌%◌, ◌^◌, Bool, true, false, Option, none, some, List, [], ◌∷◌,
  length, drop, ◌&&◌, ◌||◌, ltb, leb, ◌==◌, if◌then◌else◌,
}
use hackrf.Errors.{HackrfError, success, invalid_param}

-- The value of a character as a digit, and 36 for any other character.
abbrev pub digit : ℕ → ℕ
digit c =
    if leb b'0' c && leb c b'9'
    then c - b'0'
    else if leb b'a' c && leb c b'z'
    then c - b'a' + 10
    else if leb b'A' c && leb c b'Z'
    then c - b'A' + 10
    else 36

-- The digits at the front of a text, behind `n`: the number, whether there was a digit, and the rest.
unfoldable pub take_digits : ℕ → List ℕ → ℕ → Bool → ℕ × Bool × List ℕ
take_digits base [] n any = (n, any, [])
take_digits base (c ∷ cs) n any = elim (ltb (digit c) base) [
  | true ↦ take_digits base cs (n * base + digit c) true
  | false ↦ (n, any, c ∷ cs)
]

-- The characters that `strtoul` passes over.
abbrev pub is_space : ℕ → Bool
is_space c = (c == b' ') || (leb 9 c && leb c 13)

abbrev pub skip_spaces : List ℕ → List ℕ
skip_spaces [] = []
skip_spaces (c ∷ cs) = let rest = skip_spaces cs in if is_space c then rest else c ∷ cs

-- The "0x" that base 16 may have, where a digit follows it.
abbrev pub skip_mark : ℕ → List ℕ → List ℕ
skip_mark base (z ∷ x ∷ d ∷ cs) =
    if (base == 16) && ((z == b'0') && (((x == b'x') || (x == b'X')) && ltb (digit d) 16))
    then d ∷ cs
    else z ∷ x ∷ d ∷ cs
skip_mark base cs = cs

-- A number that does not fit an unsigned long is ULONG_MAX, and a sign negates in 64 bits.
abbrev pub unsigned_long : Bool → ℕ → ℕ
unsigned_long negative n =
    if leb (2 ^ 64) n then 2 ^ 64 - 1 else if negative then (2 ^ 64 - n) % 2 ^ 64 else n

-- `strtoul`: the number and the rest, or `none` where there is no digit and the rest is the text.
unfoldable pub number_after : ℕ → Bool → List ℕ → Option (ℕ × List ℕ)
unfolding take_digits
number_after base negative cs =
    let (n, any, rest) = take_digits base (skip_mark base cs) 0 false in
    if any then some (unsigned_long negative n, rest) else none

unfoldable pub strtoul : ℕ → List ℕ → Option (ℕ × List ℕ)
unfolding number_after
strtoul base text = elim (skip_spaces text) [
  | [] ↦ none
  | c ∷ cs ↦
      if c == b'-'
      then number_after base true cs
      else if c == b'+'
      then number_after base false cs
      else number_after base false (c ∷ cs)
]

-- The base, and the text behind its mark; `strlen(s) > 2` is a third character.
abbrev pub base_of : List ℕ → ℕ × List ℕ
base_of (z ∷ x ∷ d ∷ cs) =
    if (z == b'0') && ((x == b'x') || (x == b'X'))
    then (16, d ∷ cs)
    else if (z == b'0') && ((x == b'b') || (x == b'B'))
    then (2, d ∷ cs)
    else (10, z ∷ x ∷ d ∷ cs)
base_of cs = (10, cs)

-- `(s != s_end) && (*s_end == 0)`: the number, cut to 32 bits, where nothing follows it.
unfoldable pub parse_u32 : List ℕ → HackrfError × Option ℕ
unfolding strtoul
parse_u32 s = elim (strtoul (base_of s).0 (base_of s).1) [
  | none ↦ (invalid_param, none)
  | some (n, []) ↦ (success, some (n % 2 ^ 32))
  | some (n, c ∷ cs) ↦ (invalid_param, none)
]

-- `strchr(s, ':')`: the texts before and behind the first colon.
unfoldable pub split_colon : List ℕ → Option (List ℕ × List ℕ)
split_colon [] = none
split_colon (c ∷ cs) = elim (c == b':') [
  | true ↦ some ([], cs)
  | false ↦ elim (split_colon cs) [ none ↦ none | some (a, b) ↦ some (c ∷ a, b) ]
]

-- What is written through `value_min` and `value_max`, beside the code.
unfoldable pub parse_u32_range : List ℕ → HackrfError × (Option ℕ × Option ℕ)
unfolding split_colon parse_u32
parse_u32_range s = elim (split_colon s) [
  | none ↦ (invalid_param, (none, none))
  | some (a, b) ↦
      let low = parse_u32 a in
      elim low.0 [
        | success ↦ let high = parse_u32 b in (high.0, (low.1, high.1))
        | e ↦ (e, (low.1, none))
      ]
]
