-- ===== src/Utils/Lines.antt =====
-- What `getLine` (src/lib/utils.c) reads of a line.
use hackrf.Prelude.{
  ℕ, zero, suc, ◌≤◌, ◌<◌, ◌≡◌, ◌≢◌, refl, inl, inr, some, List, [], ◌∷◌, ◌++◌, length, take, drop,
  leb, ltb, if◌then◌else◌, Bool-cases, arith,
}
use hackrf.Prelude.Texts.{text}
use hackrf.Utils.{newline, take_line, split_last, skip_line, LineCode, get_line}

-- A line: no character ends it, or the text.
abbrev pub IsLine : List ℕ → Type 0
IsLine [] = Unit {0}
IsLine (c ∷ cs) = (c ≢ newline) × (c ≢ 0) × IsLine cs

take_line_short :
    (room : ℕ) (line rest : List ℕ)
    → IsLine line
    → length line < room
    → take_line room (line ++ (newline ∷ rest)) ≡ (line ++ (newline ∷ []), rest)
unfolding take_line
take_line_short zero line rest h k = absurd (omega arith)
take_line_short (suc room) [] rest h k = refl
take_line_short (suc room) (c ∷ cs) rest h k = ground (arith, take_line_short room cs rest h.2)

take_line_long :
    (room : ℕ) (line rest : List ℕ)
    → IsLine line
    → room ≤ length line
    → take_line room (line ++ (newline ∷ rest))
      ≡ (take room line, drop room line ++ (newline ∷ rest))
unfolding take_line
take_line_long zero line rest h k = refl
take_line_long (suc room) [] rest h k = absurd (omega arith)
take_line_long (suc room) (c ∷ cs) rest h k = ground (arith, take_line_long room cs rest h.2)

skip_line-drop :
    (room : ℕ) (line rest : List ℕ)
    → IsLine line
    → skip_line (drop room line ++ (newline ∷ rest)) ≡ (ltb room (length line), rest)
unfolding skip_line
skip_line-drop zero [] rest h = refl
skip_line-drop zero (c ∷ cs) rest h = ground (arith, skip_line-drop zero cs rest h.2)
skip_line-drop (suc room) [] rest h = ground arith
skip_line-drop (suc room) (c ∷ cs) rest h = ground (arith, skip_line-drop room cs rest h.2)

split_last-append : (line : List ℕ) (c : ℕ) → split_last (line ++ (c ∷ [])) ≡ some (line, c)
unfolding split_last
split_last-append [] c = refl
split_last-append (x ∷ xs) c = ground (arith, split_last-append xs c)

text-append : (line : List ℕ) → IsLine line → text (line ++ (newline ∷ [])) ≡ line ++ (newline ∷ [])
text-append [] h = refl
text-append (zero ∷ cs) h = absurd (h.1 refl)
text-append (suc c ∷ cs) h = ground (arith, text-append cs h.2)

text-take : (room : ℕ) (line : List ℕ) → IsLine line → text (take room line) ≡ take room line
text-take zero line h = refl
text-take (suc room) [] h = refl
text-take (suc room) (zero ∷ cs) h = absurd (h.1 refl)
text-take (suc room) (suc c ∷ cs) h = ground (arith, text-take room cs h.2)

-- The last of some characters of a line does not end it.
split_last-take :
    (room : ℕ) (line : List ℕ)
    → IsLine line
    → room < length line
    → (front : List ℕ) × ((last : ℕ) × ((split_last (take (suc room) line) ≡ some (front, last))
          × (last ≢ newline)))
unfolding split_last
split_last-take room [] h k = absurd (omega arith)
split_last-take zero (c ∷ cs) h k = ([], (c, (refl, h.0)))
split_last-take (suc room) (c ∷ cs) h k =
    let (front, (last, (e, ends))) = split_last-take room cs h.2 (omega arith) in
    (c ∷ front, (last, (ground (arith, e), ends)))

take_all : (room : ℕ) (line : List ℕ) → length line ≤ room → take room line ≡ line
take_all zero [] h = refl
take_all zero (c ∷ cs) h = absurd (omega arith)
take_all (suc room) [] h = refl
take_all (suc room) (c ∷ cs) h = ground (arith, take_all room cs)

-- What is read where the line and its end fit.
get_line_short :
    (room : ℕ) (line rest buffer : List ℕ)
    → IsLine line
    → length line < room
    → get_line room (line ++ (newline ∷ rest)) buffer ≡ some (LineCode.good, line, rest)
unfolding get_line take_line split_last
get_line_short zero [] rest buffer h k = absurd (omega arith)
get_line_short (suc room) [] rest buffer h k = refl
get_line_short room (c ∷ cs) rest buffer h k = ground (
  arith,
  take_line_short room (c ∷ cs) rest h k,
  text-append (c ∷ cs) h,
  split_last-append (c ∷ cs) newline,
)

-- What is read where they do not.
get_line_long :
    (room : ℕ) (line rest buffer : List ℕ)
    → IsLine line
    → 1 ≤ room
    → room ≤ length line
    → get_line room (line ++ (newline ∷ rest)) buffer
      ≡ some (
        if ltb room (length line) then LineCode.too_long else LineCode.good,
        take room line,
        rest,
      )
unfolding get_line
get_line_long zero line rest buffer h one k = absurd (omega arith)
get_line_long (suc room) [] rest buffer h one k = absurd (omega arith)
get_line_long (suc room) (c ∷ cs) rest buffer h one k =
    let (front, (last, (e, ends))) = split_last-take room (c ∷ cs) h (omega arith) in
    ground (
      arith,
      take_line_long (suc room) (c ∷ cs) rest h k,
      text-take (suc room) (c ∷ cs) h,
      skip_line-drop (suc room) (c ∷ cs) rest h,
      e,
    )

-- For a line without a 0, and room for one character at least: reading takes exactly that line from
-- the input, its end included. It comes back whole if it has at most as many characters as there is
-- room for; otherwise its beginning comes back, and it is reported as too long.
pub get_line-eq :
    (room : ℕ) (line rest buffer : List ℕ)
    → IsLine line
    → 1 ≤ room
    → get_line room (line ++ (newline ∷ rest)) buffer
      ≡ some (
        if leb (length line) room then LineCode.good else LineCode.too_long,
        take room line,
        rest,
      )
get_line-eq room line rest buffer h one = elim (Bool-cases (ltb (length line) room)) [
  | inl e ↦ ground (arith, e, take_all room line, get_line_short room line rest buffer h)
  | inr e ↦ ground (arith, e, get_line_long room line rest buffer h one)
]
