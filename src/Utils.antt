-- ===== src/Utils.antt =====
-- src/lib/utils.c: joining two texts, reading a line of input, and the commands read from it. A text is
-- the list of its characters, and stdin the list of those that are still to come.
pub mod Lines
pub mod Commands
use hackrf.Prelude.{
  ℕ, zero, suc, ◌+◌, Bool, true, false, Option, none, some, List, [], ◌∷◌, ◌++◌, ◌||◌, ◌==◌,
  if◌then◌else◌,
}
use hackrf.Prelude.Texts.{text}
use hackrf.Prelude.Texts.{same}

-- `concat`, where `malloc` gives memory or not; without memory the copy writes to NULL.
abbrev pub concat : Bool → List ℕ → List ℕ → Option (List ℕ)
concat given s1 s2 = if given then some (s1 ++ s2) else none

abbrev pub newline : ℕ
newline = 10

-- `fgets` with room for so many characters: what it stores, and what stays in the input.
unfoldable pub take_line : ℕ → List ℕ → List ℕ × List ℕ
take_line zero cs = ([], cs)
take_line (suc n) [] = ([], [])
take_line (suc n) (c ∷ cs) =
    let r = take_line n cs in if c == newline then (c ∷ [], cs) else (c ∷ r.0, r.1)

-- A text without its last character, and that character.
unfoldable pub split_last : List ℕ → Option (List ℕ × ℕ)
split_last [] = none
split_last (c ∷ cs) = elim (split_last cs) [
  | none ↦ some ([], c)
  | some (front, last) ↦ some (c ∷ front, last)
]

-- The loop of `getLine`: `extra`, and what stays in the input.
unfoldable pub skip_line : List ℕ → Bool × List ℕ
skip_line [] = (false, [])
skip_line (c ∷ cs) = let r = skip_line cs in if c == newline then (false, cs) else (true, r.1)

-- OK, NO_INPUT and TOO_LONG.
pub data LineCode : Type 0 where
  good no_input too_long : LineCode

-- `getLine`: the code, the text in `buff`, and what stays in the input. `room` is `sz - 1`, and not 0.
-- `none` is an access before `buff`.
unfoldable pub get_line : ℕ → List ℕ → List ℕ → Option (LineCode × List ℕ × List ℕ)
unfolding take_line split_last skip_line
get_line room [] buffer = some (LineCode.no_input, buffer, [])
get_line room (c ∷ cs) buffer =
    let taken = take_line room (c ∷ cs) in
    elim (split_last (text taken.0)) [
      | none ↦ none
      | some (front, last) ↦
          let r = skip_line taken.1 in
          if last == newline
          then some (LineCode.good, front, taken.1)
          else if r.0
          then some (LineCode.too_long, text taken.0, r.1)
          else some (LineCode.good, text taken.0, r.1)
    ]

-- "exit", "quit" and "help".
abbrev pub exit_text : List ℕ
exit_text = b'e' ∷ b'x' ∷ b'i' ∷ b't' ∷ []

abbrev pub quit_text : List ℕ
quit_text = b'q' ∷ b'u' ∷ b'i' ∷ b't' ∷ []

abbrev pub help_text : List ℕ
help_text = b'h' ∷ b'e' ∷ b'l' ∷ b'p' ∷ []

unfoldable pub is_exit : List ℕ → Bool
is_exit s = same s exit_text || same s quit_text

unfoldable pub is_help : List ℕ → Bool
is_help s = same s help_text || (same s (b'h' ∷ []) || same s (b'?' ∷ []))

-- `parseClientInput`: what it returns, `commandOut`, and what stays in the input.
unfoldable pub parse_client_input : ℕ → List ℕ → List ℕ → Option (Bool × List ℕ × List ℕ)
unfolding get_line
parse_client_input room stdin buffer = elim (get_line room stdin buffer) [
  | none ↦ none
  | some (LineCode.good, command, rest) ↦
      if is_exit command || same command (b'c' ∷ b'l' ∷ b'o' ∷ b's' ∷ b'e' ∷ [])
      then some (true, command, rest)
      else some (is_help command, command, rest)
  | some (_, command, rest) ↦ some (false, command, rest)
]

-- `strncmp(command, "c", 1) == 0`, which holds too where the text begins with "connect".
abbrev pub begins_with_c : List ℕ → Bool
begins_with_c [] = false
begins_with_c (c ∷ cs) = c == b'c'

-- The end of `parseUserInput`, after a text that `getLine` did not call OK.
unfoldable pub obey : List ℕ → List ℕ → Bool × Bool × List ℕ
obey command rest =
    if begins_with_c command
    then (true, true, rest)
    else if is_exit command
    then (false, false, rest)
    else (is_help command, false, rest)

-- `parseUserInput`: what it returns, whether it calls `clientconnect`, and what stays in the input.
-- `buffer` is the text in the 65 characters that the code leaves unset.
unfoldable pub parse_user_input : List ℕ → List ℕ → Option (Bool × Bool × List ℕ)
unfolding get_line obey
parse_user_input stdin buffer = elim (get_line 64 stdin buffer) [
  | none ↦ none
  | some (LineCode.good, command, rest) ↦ some (true, false, rest)
  | some (_, command, rest) ↦ some (obey command rest)
]
