-- ===== src/Device/Lists/Entries.antt =====
-- The arrays of `struct hackrf_device_list` (src/lib/hackrf/hackrf.c) while they are filled.
use hackrf.Prelude.{
  ℕ, zero, suc, ◌+◌, ◌%◌, ◌≤◌, ◌<◌, ◌≡◌, refl, List, [], ◌∷◌, ◌++◌, length, set, take, get_or,
  length-set, length-replicate, arith,
}
use hackrf.Device.Lists.{DeviceList, add_device, empty_list}

-- A write right behind a prefix lengthens it.
take-set :
    (xs pre : List ℕ) (k v : ℕ)
    → take k xs ≡ pre
    → k < length xs
    → take (k + 1) (set xs k v) ≡ pre ++ (v ∷ [])
take-set [] pre k v e h = absurd (omega arith)
take-set (x ∷ xs) pre zero v e h = ground arith
take-set (x ∷ xs) [] (suc k) v e h = ground arith
take-set (x ∷ xs) (y ∷ pre) (suc k) v e h = ground (arith, take-set xs pre k v)

-- The arrays hold these entries, and have room for `n` more.
pub record Holds (indices boards : List ℕ) (n : ℕ) (l : DeviceList) : Type 0 where
  pub indices_are : take l.devicecount l.device_index ≡ indices
  pub boards_are : take l.devicecount l.board_ids ≡ boards
  pub index_room : l.devicecount + n ≤ length l.device_index
  pub board_room : l.devicecount + n ≤ length l.board_ids
  pub small : l.devicecount + n ≤ 256
  pub counted : l.devicecount ≡ length indices

pub Holds-less : (xs ys : List ℕ) (n : ℕ) (l : DeviceList) → Holds xs ys (suc n) l → Holds xs ys n l
Holds-less xs ys n l h = record {
  indices_are = h.indices_are;
  boards_are = h.boards_are;
  counted = h.counted;
  index_room = omega (arith, h.index_room);
  board_room = omega (arith, h.board_room);
  small = omega (arith, h.small);
}

-- The fields that `Holds` speaks of.
abbrev pub SameEntries : DeviceList → DeviceList → Type 0
SameEntries l u =
    (u.devicecount ≡ l.devicecount)
    × (u.device_index ≡ l.device_index)
    × (u.board_ids ≡ l.board_ids)
    × (u.usb_devices ≡ l.usb_devices)

pub Holds-same :
    (xs ys : List ℕ) (n : ℕ) (l u : DeviceList)
    → SameEntries l u
    → Holds xs ys n l
    → Holds xs ys n u
Holds-same xs ys n l u (c, i, b, d) h = record {
  indices_are = rw (c, i) h.indices_are;
  boards_are = rw (c, b) h.boards_are;
  index_room = rw (c, i) h.index_room;
  board_room = rw (c, b) h.board_room;
  small = rw c h.small;
  counted = rw c h.counted;
}

length-snoc : (xs : List ℕ) (v : ℕ) → length (xs ++ (v ∷ [])) ≡ length xs + 1
length-snoc [] v = refl
length-snoc (x ∷ xs) v = omega (arith, length-snoc xs v)

pub add_device-Holds :
    (xs ys : List ℕ) (n i product : ℕ) (l : DeviceList)
    → Holds xs ys (suc n) l
    → Holds (xs ++ (i ∷ [])) (ys ++ (product ∷ [])) n (add_device i product l)
add_device-Holds xs ys n i product l h =
    let small : l.devicecount % 256 ≡ l.devicecount = omega (arith, h.small) in
    record {
      indices_are =
          rw small (
            take-set l.device_index xs l.devicecount i h.indices_are (omega (arith, h.index_room)));
      boards_are = rw small (
          take-set l.board_ids ys l.devicecount product h.boards_are (omega (arith, h.board_room)));
      index_room = omega (arith, h.index_room, length-set l.device_index (l.devicecount % 256) i);
      board_room =
          omega (arith, h.board_room, length-set l.board_ids (l.devicecount % 256) product);
      small = omega (arith, h.small);
      counted = omega (arith, h.counted, length-snoc xs i);
    }

-- The list that the function starts from holds nothing yet.
pub empty_list-Holds : (ds : List ℕ) → length ds ≤ 256 → Holds [] [] (length ds) (empty_list ds)
empty_list-Holds ds few = record {
  indices_are = refl;
  boards_are = refl;
  index_room = omega (arith, length-replicate {A = ℕ} (length ds) 0);
  board_room = omega (arith, length-replicate {A = ℕ} (length ds) 0);
  small = omega (arith, few);
  counted = refl;
}

pub get_or-take : (xs : List ℕ) (n k : ℕ) → k < n → get_or (take n xs) k 0 ≡ get_or xs k 0
get_or-take [] (suc n) k h = refl
get_or-take xs zero k h = absurd (omega arith)
get_or-take (x ∷ xs) (suc n) zero h = refl
get_or-take (x ∷ xs) (suc n) (suc k) h = get_or-take xs n k (omega arith)
