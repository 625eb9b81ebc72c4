-- ===== src/Sweep/Printing.antt =====
-- src/lib/hackrf/hackrf_sweep.c, `rx_callback`: what it prints of the blocks that it transforms, where the
-- output is text.
pub mod Lines
use hackrf.Prelude.{ℕ, ◌+◌, ◌*◌, ◌/◌, List, [], ◌∷◌, ◌++◌, map}
use hackrf.Sweep.Blocks.{Spectrum}
use hackrf.Sweep.Rows.{Row, from, rows}

-- A piece of text: what a row begins with, which is its time and its two frequencies, the value of a
-- bin behind a comma, and the end of a line. The bin width and the number of bins, the same in each
-- row, are left out.
pub data Item : Type 0 where
  heading : (seconds microseconds low high : ℕ) → Item
  value : (bin : ℕ) → Item
  line_end : Item

abbrev pub row_text : Spectrum → Row → List Item
row_text x r = Item.heading x.seconds x.microseconds r.low r.high ∷ map Item.value r.powers

abbrev pub print_rows : Spectrum → List Row → List Item
print_rows x [] = []
print_rows x (r ∷ rs) = row_text x r ++ (Item.line_end ∷ print_rows x rs)

-- The values that the loop behind the two rows prints once more.
abbrev pub repeated : ℕ → List Item
repeated n = map Item.value (from (n / 4) (1 + n * 5 / 8))

abbrev pub print_blocks : ℕ → List Spectrum → List Item
print_blocks n [] = []
print_blocks n (x ∷ xs) = print_rows x (rows n x.frequency) ++ (repeated n ++ print_blocks n xs)
