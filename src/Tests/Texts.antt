-- ===== src/Tests/Texts.antt =====
-- Texts and rows at concrete inputs: lines, commands, hexadecimal numbers, and the bins of a block.
use hackrf.Prelude.{◌≡◌, refl, some, [], ◌∷◌, ◌++◌, arith}
use hackrf.Sweep.Rows.{spread, first_place}
use hackrf.Sweep.Rows.Spread.{Inside, Once, spread-Inside}
use hackrf.Utils.{newline, LineCode, get_line, exit_text}
use hackrf.Utils.Lines.{IsLine, get_line-eq}
use hackrf.Messages.{ullx, hex_digits}

exit-IsLine : IsLine exit_text
exit-IsLine = ground arith

-- "exit" with room for three characters.
get_line-eq_example :
    get_line 3 (exit_text ++ (newline ∷ b'x' ∷ [])) []
    ≡ some (LineCode.too_long, b'e' ∷ b'x' ∷ b'i' ∷ [], b'x' ∷ [])
get_line-eq_example = get_line-eq 3 exit_text (b'x' ∷ []) [] exit-IsLine (omega arith)

written : ullx 255 ≡ b'0' ∷ b'x' ∷ b'f' ∷ b'f' ∷ []
unfolding ullx hex_digits
written = refl

places : first_place 100 20 ≡ 70
unfolding first_place
places = refl

spread-Inside_example : Inside 20 100 (spread 20 100 20) × Once (spread 20 100 20)
spread-Inside_example =
    spread-Inside 5 5 4 (omega arith) refl (omega arith) (omega arith) (omega arith)
