-- ===== src/Platform/Handles.antt =====
-- The handles of libusb that are open after some calls of src/lib/hackrf/hackrf.c, as its log tells.
use hackrf.Prelude.{ℕ, ◌+◌, ◌≡◌, refl, arith, List, [], ◌∷◌, ◌==◌, if◌then◌else◌}
use hackrf.Prelude.Int.{is_zero}
use hackrf.Platform.{Platform, Call}
use hackrf.Platform.Action.{Library}

-- Some handles with one more, or with the first such taken out. NULL is no handle.
unfoldable pub gain : ℕ → List ℕ → List ℕ
gain h hs = if h == 0 then hs else h ∷ hs

abbrev pub remove : ℕ → List ℕ → List ℕ
remove h [] = []
remove h (x ∷ xs) = let rest = remove h xs in if x == h then xs else x ∷ rest

unfoldable pub lose : ℕ → List ℕ → List ℕ
lose h hs = if h == 0 then hs else remove h hs

abbrev pub count : ℕ → List ℕ → ℕ
count h [] = 0
count h (x ∷ xs) = (if x == h then 1 else 0) + count h xs

pub lose-gain : (h : ℕ) (hs : List ℕ) → lose h (gain h hs) ≡ hs
unfolding lose gain
lose-gain h hs = ground arith

pub gain_null : (hs : List ℕ) → gain 0 hs ≡ hs
unfolding gain
gain_null hs = refl

module _ (p : Platform) where
  -- The open handles, the newest first.
  unfoldable pub live : List Call → List ℕ
  live [] = []
  live (Call.open_device_with_vid_pid vid pid ∷ log) =
      gain (p.open_with_vid_pid log vid pid) (live log)
  live (Call.open_device d ∷ log) =
      let hs = live log in
      let r = p.open_reply log d in if is_zero r.result then gain r.output hs else hs
  live (Call.close h ∷ log) = lose h (live log)
  live (_ ∷ log) = live log

  -- What most calls leave alone: the globals that only opening and closing change, and the handles.
  abbrev pub Quiet : Library → Library → Type 0
  Quiet s t =
      (t.open_devices ≡ s.open_devices) × (t.context ≡ s.context) × (live t.log ≡ live s.log)
