-- ===== src/Sweep/Printing/Lines.antt =====
-- The lines of the text that `rx_callback` (src/lib/hackrf/hackrf_sweep.c) prints.
use mathlib.Core.List.{append_assoc, append-nil}
use hackrf.Prelude.{
  ℕ, ◌+◌, ◌/◌, ◌*◌, ◌%◌, ◌≤◌, ◌≡◌, refl, ap, ◌∙◌, true, List, [], ◌∷◌, ◌++◌, map, arith,
}
use hackrf.Sweep.{Config, configure, options_rejected, planned, add_range}
use hackrf.Sweep.Blocks.{Settings, Progress, Spectrum, rx_callback}
use hackrf.Sweep.Blocks.Reports.{AreReports, rx_callback-AreReports}
use hackrf.Sweep.Rows.{Row, from, lower_row, upper_row, rows}
use hackrf.Sweep.Rows.Bins.{AreRows, rows-AreRows}
use hackrf.Sweep.Ranges.{configure-eq, round_size_least}
use hackrf.Sweep.Printing.{
  Item, heading, value, line_end, row_text, print_rows, repeated, print_blocks,
}

-- Reading: the lines that are ended, and what follows the last.
abbrev pub put : Item → List (List Item) × List Item → List (List Item) × List Item
put i ([], rest) = ([], i ∷ rest)
put i (l ∷ ls, rest) = ((i ∷ l) ∷ ls, rest)

abbrev pub split_lines : List Item → List (List Item) × List Item
split_lines [] = ([], [])
split_lines (line_end ∷ xs) = let r = split_lines xs in ([] ∷ r.0, r.1)
split_lines (heading s us low high ∷ xs) = put (heading s us low high) (split_lines xs)
split_lines (value bin ∷ xs) = put (value bin) (split_lines xs)

-- The lines of the rows of a block, the first of them behind what already stands in its line.
abbrev pub row_lines : List Item → Spectrum → List Row → List (List Item)
row_lines carried x [] = []
row_lines carried x (r ∷ rs) = (carried ++ row_text x r) ∷ row_lines [] x rs

-- What the text of some blocks reads as, behind what already stands in the line: a line for each row,
-- where the first one of a block stands behind values that belong to no row of it.
abbrev pub block_lines : ℕ → List Item → List Spectrum → List (List Item) × List Item
block_lines n carried [] = ([], carried)
block_lines n carried (x ∷ xs) =
    let later = block_lines n (repeated n) xs in
    (row_lines carried x (rows n x.frequency) ++ later.0, later.1)

values-line :
    (bins : List ℕ) (xs : List Item)
    → let r = split_lines xs in
      split_lines (map value bins ++ (line_end ∷ xs)) ≡ (map value bins ∷ r.0, r.1)
values-line [] xs = refl
values-line (b ∷ bins) xs = ap (put (value b)) (values-line bins xs)

row-line :
    (x : Spectrum) (r : Row) (xs : List Item)
    → let l = split_lines xs in
      split_lines (row_text x r ++ (line_end ∷ xs)) ≡ (row_text x r ∷ l.0, l.1)
row-line x r xs = ap (put (heading x.seconds x.microseconds r.low r.high)) (values-line r.powers xs)

carried-line :
    (bins : List ℕ) (x : Spectrum) (r : Row) (xs : List Item)
    → let l = split_lines xs in
      split_lines (map value bins ++ (row_text x r ++ (line_end ∷ xs)))
      ≡ ((map value bins ++ row_text x r) ∷ l.0, l.1)
carried-line [] x r xs = row-line x r xs
carried-line (b ∷ bins) x r xs = ap (put (value b)) (carried-line bins x r xs)

rest-line : (bins : List ℕ) → split_lines (map value bins) ≡ ([], map value bins)
rest-line [] = refl
rest-line (b ∷ bins) = ap (put (value b)) (rest-line bins)

print_rows-append :
    (x : Spectrum) (lower upper : Row) (xs : List Item)
    → print_rows x (lower ∷ upper ∷ []) ++ xs
      ≡ row_text x lower ++ (line_end ∷ (row_text x upper ++ (line_end ∷ xs)))
print_rows-append x lower upper xs =
    append_assoc (row_text x lower) (line_end ∷ (row_text x upper ++ (line_end ∷ []))) xs
    ∙ ap (λ (ys : List Item). row_text x lower ++ (line_end ∷ ys))
        (append_assoc (row_text x upper) (line_end ∷ []) xs)

two-lines :
    (bins : List ℕ) (x : Spectrum) (lower upper : Row) (xs : List Item)
    → let l = split_lines xs in
      split_lines (map value bins ++ (print_rows x (lower ∷ upper ∷ []) ++ xs))
      ≡ ((map value bins ++ row_text x lower) ∷ row_text x upper ∷ l.0, l.1)
two-lines bins x lower upper xs =
    let later = row_text x upper ++ (line_end ∷ xs) in
    let first = map value bins ++ row_text x lower in
    ap (λ (ys : List Item). split_lines (map value bins ++ ys)) (print_rows-append x lower upper xs)
    ∙ (carried-line bins x lower later
        ∙ ap (λ (l : List (List Item) × List Item). (first ∷ l.0, l.1)) (row-line x upper xs))

print_blocks-lines :
    (n : ℕ) (bins : List ℕ) (xs : List Spectrum)
    → split_lines (map value bins ++ print_blocks n xs) ≡ block_lines n (map value bins) xs
print_blocks-lines n bins [] = ap split_lines (append-nil (map value bins)) ∙ rest-line bins
print_blocks-lines n bins (x ∷ xs) =
    two-lines bins x (lower_row n x.frequency) (upper_row n x.frequency)
      (repeated n ++ print_blocks n xs)
    ∙ ap
        (λ (l : List (List Item) × List Item).
          (row_lines (map value bins) x (rows n x.frequency) ++ l.0, l.1))
        (print_blocks-lines n (from (n / 4) (1 + n * 5 / 8)) xs)

-- The number of bins of a configuration that is let through.
configure-bins :
    (freq_min freq_max : ℕ) (c : Config)
    → (configure freq_min freq_max c).0 ≡ true
    → let n = (configure freq_min freq_max c).1.fft_size in (n ≤ 8188) × (n % 8 ≡ 4)
unfolding options_rejected add_range planned
configure-bins freq_min freq_max c e =
    let (ranged, opted, result) = configure-eq freq_min freq_max c e in
    ground (arith, result, opted, round_size_least c.fft_size)

-- The rows of a block show its bins.
abbrev pub HasRows : ℕ → List Spectrum → Type 0
HasRows n [] = Unit {0}
HasRows n (x ∷ xs) = AreRows n x.frequency (rows n x.frequency) × HasRows n xs

module _ (set : Settings) (bytes : ℕ → ℕ) (now_s now_us : ℕ) where
  reports-HasRows :
      (n total : ℕ) (xs : List Spectrum)
      → n % 8 ≡ 4
      → AreReports set bytes now_s now_us total xs
      → HasRows n xs
  reports-HasRows n total [] h r = tt
  reports-HasRows n total (x ∷ xs) h (r, rs) =
      (rows-AreRows n x.frequency h (omega (arith, r.ranged)), reports-HasRows n total xs h rs)

  -- What a callback prints, where the output is text and the number of bins is one that `hackrf_sweep`
  -- lets through. Every block that is printed has a header, and gives two lines with its frequencies,
  -- each of 5 MHz with a quarter of the bins, those whose middles lie in that range. But in front of
  -- the first line of every block but the first stand values of the block before it, and behind the
  -- last line stand some more.
  pub printed-lines :
      (freq_min freq_max : ℕ) (c : Config) (valid_length : ℕ) (p : Progress)
      → let n = set.fft_size in
        let xs = (rx_callback set bytes now_s now_us valid_length p).1.1 in
        (configure freq_min freq_max c).0 ≡ true
        → n ≡ (configure freq_min freq_max c).1.fft_size
        → (split_lines (print_blocks n xs) ≡ block_lines n [] xs)
          × AreReports set bytes now_s now_us 16 xs
          × HasRows n xs
  printed-lines freq_min freq_max c valid_length p e same =
      let (few, odd) = configure-bins freq_min freq_max c e in
      let xs = (rx_callback set bytes now_s now_us valid_length p).1.1 in
      let reports =
        rx_callback-AreReports set bytes now_s now_us valid_length p (omega (arith, same)) in
      (
        print_blocks-lines set.fft_size [] xs,
        reports,
        reports-HasRows set.fft_size 16 xs (omega (arith, same)) reports,
      )
