-- ===== src/Utils/Commands.antt =====
-- What `parseClientInput` and `parseUserInput` (src/lib/utils.c) make of a line.
use hackrf.Prelude.{
  ℕ, zero, suc, ◌≤◌, ◌<◌, ◌≡◌, refl, ap, ◌∙◌, true, false, some, List, [], ◌∷◌, ◌++◌, length, take,
  leb, ◌&&◌, ◌||◌, Bool, if◌then◌else◌, Bool-cases, inl, inr, arith,
}
use hackrf.Prelude.Texts.{same}
use hackrf.Utils.{
  newline, is_exit, is_help, exit_text, quit_text, help_text, begins_with_c, obey,
  parse_client_input, parse_user_input,
}
use hackrf.Utils.Lines.{IsLine, get_line-eq}

-- A command that the client knows.
abbrev pub is_known : List ℕ → Bool
is_known s = is_exit s || (same s (b'c' ∷ b'l' ∷ b'o' ∷ b's' ∷ b'e' ∷ []) || is_help s)

-- The client's prompt answers true exactly for a known command on a line that fits, and takes that
-- line from the input.
parse_client_input-eq :
    (room : ℕ) (line rest buffer : List ℕ)
    → IsLine line
    → 1 ≤ room
    → parse_client_input room (line ++ (newline ∷ rest)) buffer
      ≡ some (leb (length line) room && is_known (take room line), take room line, rest)
unfolding parse_client_input
parse_client_input-eq room line rest buffer h one =
    ground (arith, get_line-eq room line rest buffer h one)

same_longer : (xs ys : List ℕ) → length ys < length xs → same xs ys ≡ false
same_longer [] ys h = absurd (omega arith)
same_longer (x ∷ xs) [] h = refl
same_longer (x ∷ xs) (y ∷ ys) h = ground (arith, same_longer xs ys)

-- A text of five characters or more is none of the commands that it is compared with.
long_text : (cs : List ℕ) → 5 ≤ length cs → (is_exit cs ≡ false) × (is_help cs ≡ false)
unfolding is_exit is_help
long_text cs h = ground (
  arith,
  same_longer cs exit_text (omega (arith, h)),
  same_longer cs quit_text (omega (arith, h)),
  same_longer cs help_text (omega (arith, h)),
  same_longer cs (b'h' ∷ []) (omega (arith, h)),
  same_longer cs (b'?' ∷ []) (omega (arith, h)),
)

length-take : (n : ℕ) (cs : List ℕ) → n ≤ length cs → length (take n cs) ≡ n
length-take zero cs h = refl
length-take (suc n) [] h = absurd (omega arith)
length-take (suc n) (c ∷ cs) h = omega (arith, length-take n cs (omega arith))

begins_with_c-take : (n : ℕ) (cs : List ℕ) → begins_with_c (take (suc n) cs) ≡ begins_with_c cs
begins_with_c-take n [] = refl
begins_with_c-take n (c ∷ cs) = refl

-- How the server's prompt treats a text that is none of its commands.
obeys :
    (command rest : List ℕ)
    → (is_exit command ≡ false) × (is_help command ≡ false)
    → obey command rest ≡ (begins_with_c command, begins_with_c command, rest)
unfolding obey
obeys command rest h = elim (Bool-cases (begins_with_c command)) [
  | inl e ↦ rw e refl
  | inr e ↦ rw (e, h.0, h.1) refl
]

-- The server's prompt answers true to every line of up to 64 characters, none of which is 0, a
-- request to quit among them, and does nothing; a longer line makes it connect, and answer true, if it
-- begins with c, and otherwise answer false.
parse_user_input-eq :
    (line rest buffer : List ℕ)
    → IsLine line
    → parse_user_input (line ++ (newline ∷ rest)) buffer
      ≡ some (
          if leb (length line) 64
          then (true, false, rest)
          else (begins_with_c line, begins_with_c line, rest))
unfolding parse_user_input
parse_user_input-eq line rest buffer h = elim (Bool-cases (leb (length line) 64)) [
  | inl e ↦ ground (arith, e, get_line-eq 64 line rest buffer h (omega arith))
  | inr e ↦
      let long : 64 ≤ length line = ground (arith, e) in
      let five : 5 ≤ length (take 64 line) = omega (arith, length-take 64 line long) in
      rw (parse_user_input, get_line-eq 64 line rest buffer h (omega arith), e)
        (ap some (obeys (take 64 line) rest (long_text (take 64 line) five))
          ∙ ap (λ (b : Bool). some (b, b, rest)) (begins_with_c-take 63 line))
]
