-- ===== src/Application/Counts.antt =====
-- Counting the open handles and the open devices of an application of src/lib/hackrf/hackrf.c.
use hackrf.Prelude.{
  ℕ, zero, suc, ◌+◌, ◌-◌, ◌≡◌, ◌≢◌, refl, ap, Option, none, some, List, [], ◌∷◌, length, ◌==◌,
  if◌then◌else◌, arith,
}
use hackrf.Platform.Handles.{gain, lose, remove, count}
use hackrf.Device.{Device}
use hackrf.Device.Ready.{IsReady}
use hackrf.Application.{pick}

pub count-gain :
    (h x : ℕ) (hs : List ℕ) → h ≢ 0 → count h (gain x hs) ≡ (if x == h then 1 else 0) + count h hs
unfolding gain
count-gain h x hs nz = ground arith

-- Losing a handle that is there takes it out once.
count-remove :
    (h x n : ℕ) (hs : List ℕ)
    → count h hs ≡ (if x == h then 1 else 0) + n
    → count h (remove x hs) ≡ n
count-remove h x n [] e = ground arith
count-remove h x n (y ∷ hs) e = ground (arith, count-remove h x n hs, count-remove h x (n - 1) hs)

pub count-lose :
    (h x n : ℕ) (hs : List ℕ)
    → h ≢ 0
    → count h hs ≡ (if x == h then 1 else 0) + n
    → count h (lose x hs) ≡ n
unfolding lose
count-lose h x n hs nz e = ground (arith, count-remove h x n hs e)

-- How many devices have the handle.
abbrev pub holders : ℕ → List Device → ℕ
holders h [] = 0
holders h (d ∷ ds) = (if d.usb_device == h then 1 else 0) + holders h ds

abbrev pub AllReady : List Device → Type 0
AllReady [] = Unit {0}
AllReady (d ∷ ds) = IsReady d × AllReady ds

pub no_holders : (h : ℕ) (ds : List Device) → length ds ≡ 0 → holders h ds ≡ 0
no_holders h [] e = refl
no_holders h (d ∷ ds) e = absurd (ground arith)

-- An open device taken out of the others.
unfoldable pub Picked : List Device → Option (Device × List Device) → Type 0
Picked ds none = Unit {0}
Picked ds (some (d, rest)) =
    (AllReady ds → IsReady d × AllReady rest)
    × (length ds ≡ suc (length rest))
    × ((h : ℕ) → holders h ds ≡ (if d.usb_device == h then 1 else 0) + holders h rest)

pub pick-Picked : (i : ℕ) (ds : List Device) → Picked ds (pick i ds)
unfolding Picked
pick-Picked i [] = tt
pick-Picked zero (d ∷ ds) = (λ r. r, refl, λ h. refl)
pick-Picked (suc i) (d ∷ ds) = go (pick i ds) (pick-Picked i ds)
  where
    go :
        (o : Option (Device × List Device))
        → Picked ds o
        → Picked (d ∷ ds) (elim o [ none ↦ none | some (x, rest) ↦ some (x, d ∷ rest) ])
    go none m = tt
    go (some (x, rest)) (r, n, held) =
        (λ a. ((r a.1).0, (a.0, (r a.1).1)), ap suc n, λ h. ground (arith, held h))
