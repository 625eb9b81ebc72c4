-- ===== src/Bluetooth.antt =====
-- src/comm/bluetooth.c: the scan for Bluetooth devices. What BlueZ answers is a parameter.
use hackrf.Prelude.{
  ℕ, ◌≡◌, refl, ◌⊎◌, inl, inr, ap, false, Option, none, some, List, [], ◌∷◌, length, ◌||◌,
  if◌then◌else◌, arith,
}
use hackrf.Prelude.Int.{ℤ, lt_nat}

-- `hci_get_route(NULL)`, `hci_open_dev`, `hci_inquiry` with the addresses of those that answered, where the
-- number is not negative, `hci_read_remote_name` on a socket, where it succeeds, and `ba2str`.
record Bluez : Type 0 where
  route : ℤ
  open_dev : ℤ → ℤ
  inquiry : ℤ → Option (List ℕ)
  remote_name : ℤ → ℕ → Option (List ℕ)
  address_text : ℕ → List ℕ

abbrev unknown_text : List ℕ
unknown_text = b'[' ∷ b'u' ∷ b'n' ∷ b'k' ∷ b'n' ∷ b'o' ∷ b'w' ∷ b'n' ∷ b']' ∷ []

-- A line: an address and a name.
abbrev Line : Type 0
Line = List ℕ × List ℕ

module _ (z : Bluez) (sock : ℤ) where
  unfoldable remote_line : ℕ → Line
  remote_line a =
      (z.address_text a, elim (z.remote_name sock a) [ none ↦ unknown_text | some name ↦ name ])

  -- The loop over those that answered.
  unfoldable print_lines : List ℕ → List Line
  unfolding remote_line
  print_lines [] = []
  print_lines (a ∷ found) = remote_line a ∷ print_lines found

-- The program: its exit code and the lines that it prints. The two numbers that it prints first are left out.
-- `hci_open_dev` is called before the route is tested; a negative number of answers ends no differently
-- than none.
unfoldable scan_devices : Bluez → ℕ × List Line
unfolding print_lines
scan_devices z =
    let sock = z.open_dev z.route in
    if lt_nat z.route 0 || lt_nat sock 0
    then (1, [])
    else elim (z.inquiry z.route) [ none ↦ (0, []) | some found ↦ (0, print_lines z sock found) ]

-- Whether a line is among some.
abbrev IsLineOf : Line → List Line → Type 0
IsLineOf l [] = ⊥
IsLineOf l (m ∷ ms) = (l ≡ m) ⊎ IsLineOf l ms

abbrev IsFound : ℕ → List ℕ → Type 0
IsFound a [] = ⊥
IsFound a (x ∷ xs) = (a ≡ x) ⊎ IsFound a xs

print_lines-IsLineOf :
    (z : Bluez) (sock : ℤ) (found : List ℕ) (a : ℕ)
    → IsFound a found
    → IsLineOf (remote_line z sock a) (print_lines z sock found)
unfolding print_lines
print_lines-IsLineOf z sock [] a h = h
print_lines-IsLineOf z sock (x ∷ found) a (inl e) = inl (ap (remote_line z sock) e)
print_lines-IsLineOf z sock (x ∷ found) a (inr h) = inr (print_lines-IsLineOf z sock found a h)

length-print_lines :
    (z : Bluez) (sock : ℤ) (found : List ℕ) → length (print_lines z sock found) ≡ length found
unfolding print_lines
length-print_lines z sock [] = refl
length-print_lines z sock (x ∷ found) = omega (arith, length-print_lines z sock found)

-- Where there is an adapter that can be opened, the scan succeeds and prints a line for every device that
-- answered, and no other; a name that cannot be read does not stop it.
scan_lists :
    (z : Bluez) (found : List ℕ)
    → lt_nat z.route 0 ≡ false
    → lt_nat (z.open_dev z.route) 0 ≡ false
    → z.inquiry z.route ≡ some found
    → ((scan_devices z).0 ≡ 0)
      × (length (scan_devices z).1 ≡ length found)
      × ((a : ℕ)
          → IsFound a found
          → IsLineOf (remote_line z (z.open_dev z.route) a) (scan_devices z).1)
unfolding scan_devices
scan_lists z found routed opened answered =
    let sock = z.open_dev z.route in
    rw (routed, opened, answered)
      (refl, length-print_lines z sock found, print_lines-IsLineOf z sock found)
